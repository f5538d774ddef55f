-- ===== src/Pipeline/Session.antt =====
-- The state that a backup changes, and the outside that answers it. The server and the store are a
-- parameter: each answer may depend on all calls made so far. What was done before an error stays
-- done, so the state comes back beside the error too. Progress events are left out.
use baas_go_sdk.Base.{ℕ, List, [], ◌∷◌, ◌++◌}
use baas_go_sdk.Base.Text.{Bytes}
use baas_go_sdk.Errors.Outcome.{Outcome, ok, err, panic}
use baas_go_sdk.Chunk.File.{Reads}
use baas_go_sdk.Encrypt.{Random}
use baas_go_sdk.Types.{PackChunkMeta, PackUploadUrlResponse}
use baas_go_sdk.Pipeline.Objects.{PackChunk}

-- A call that reached the server or the store.
pub data Call : Type 0 where
  pack_upload_url : ℕ → Call
  s3_put : Bytes → Bytes → Call
  confirm_pack : Bytes → List PackChunkMeta → Call

pub record Outside : Type 0 where
  pub on_pack_upload_url : List Call → ℕ → Outcome PackUploadUrlResponse
  pub on_s3_put : List Call → Bytes → Bytes → Outcome (Unit {0})
  pub on_confirm_pack : List Call → Bytes → List PackChunkMeta → Outcome (Unit {0})
  -- what opening and reading the file at a path gives
  pub open_file : Bytes → Outcome Reads
  -- what the n-th call of `rand.Read` gives
  pub random : ℕ → Random

-- `packBuffer`
pub record PackBuffer : Type 0 where
  pub chunks : List PackChunk
  pub total_size : ℕ

pub record Session : Type 0 where
  pub calls : List Call
  pub pack : PackBuffer
  pub draws : ℕ
  -- the keys of `knownHashes`
  pub known_hashes : List Bytes

abbrev pub Action : Type 0 → Type 0
Action A = Session → Outcome A × Session

abbrev pub pure : {A : Type 0} → A → Action A
pure a s = (ok a, s)

abbrev pub continue : {A B : Type 0} → Outcome A → (A → Action B) → Session → Outcome B × Session
continue (ok a) f s = f a s
continue (err e) f s = (err e, s)
continue panic f s = (panic, s)

infixl 5 ◌>>=◌ ◌>>◌
abbrev pub ◌>>=◌ : {A B : Type 0} → Action A → (A → Action B) → Action B
◌>>=◌ m f s = continue (m s).0 f (m s).1

abbrev pub ◌>>◌ : {A B : Type 0} → Action A → Action B → Action B
m >> k = m >>= λ _. k

abbrev pub lift : {A : Type 0} → Outcome A → Action A
lift o s = (o, s)

-- One call to the outside, which is recorded whatever it answers.
abbrev pub ask : {A : Type 0} → Call → (List Call → Outcome A) → Action A
ask call answer s = (answer s.calls, record s { calls = s.calls ++ call ∷ [] })
