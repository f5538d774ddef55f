-- ===== src/Tree/Nodes.antt =====
-- About EncodeTree and HashTree of tree/tree.go: the trees written as canonical JSON, and their
-- hashes.
use baas_go_sdk.Base.{true, Option, none, some, List, [], ◌∷◌}
use baas_go_sdk.Base.Text.{Bytes, codes}
use baas_go_sdk.Base.Int.{ℤ}
use baas_go_sdk.Chunk.File.{sha256_hex}
use baas_go_sdk.Types.{TreeNode}
use baas_go_sdk.Tree.{
  Value, Values, Members, nil, pointer, int, string, list, struct, no_value, value, no_member,
  member, write_canonical,
}

abbrev pub text_member : Bytes → Bytes → Value → Members → Members
text_member name tag v ms = member (record { exported = true; name = name; tag = tag }) v ms

abbrev pub int_pointer : Option ℤ → Value
int_pointer none = nil
int_pointer (some n) = pointer (int n)

abbrev pub string_values : List Bytes → Values
string_values [] = no_value
string_values (s ∷ ss) = value (string s) (string_values ss)

abbrev pub string_list : Option (List Bytes) → Value
string_list none = nil
string_list (some ss) = list (string_values ss)

-- A `TreeNode` with the tags of its fields.
unfoldable pub node_members : TreeNode → Members
node_members node =
    (text_member (codes "Name") (codes "name") (string node.name) (
      text_member (codes "Type") (codes "type") (string node.node_type) (
        text_member (codes "Mode") (codes "mode,omitempty") (int_pointer node.mode) (
          text_member (codes "Size") (codes "size,omitempty") (int_pointer node.size) (
            text_member (codes "Mtime") (codes "mtime,omitempty") (string node.mtime) (
              text_member (codes "Content") (codes "content,omitempty") (string_list node.content) (
                text_member (codes "Subtree") (codes "subtree,omitempty") (string node.subtree) (
                  text_member (codes "Target") (codes "target,omitempty") (string node.target)
                    no_member))))))))

abbrev pub node_value : TreeNode → Value
node_value node = struct (node_members node)

abbrev pub node_values : List TreeNode → Values
node_values [] = no_value
node_values (node ∷ nodes) = value (node_value node) (node_values nodes)

-- A `TreeBlob` with the tag of its field; the nodes are no nil slice.
abbrev pub blob_value : List TreeNode → Value
blob_value nodes =
    struct (text_member (codes "Nodes") (codes "nodes") (list (node_values nodes)) no_member)

unfoldable pub encode_tree : List TreeNode → Bytes
encode_tree nodes = write_canonical (blob_value nodes)

module _ (sha256 : Bytes → Bytes) where
  unfoldable pub hash_tree : List TreeNode → Bytes × Bytes
  hash_tree nodes = let text = encode_tree nodes in (sha256_hex sha256 text, text)
