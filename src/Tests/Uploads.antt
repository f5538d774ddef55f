-- ===== src/Tests/Uploads.antt =====
-- The filter on one hash, and the upload of one small file.
use baas_go_sdk.Base.{◌≡◌, refl, true, none, some, List, [], ◌∷◌, length}
use baas_go_sdk.Base.Text.{Bytes, codes, str_eq}
use baas_go_sdk.Base.Int.{pos}
use baas_go_sdk.Base.Dict.{insert, lookup}
use baas_go_sdk.Encoding.Hex
use baas_go_sdk.Errors.Outcome.{ok}
use baas_go_sdk.Chunk.{
  push, push_loop, advance, cut_here, restart, roll, make_chunker, new_chunker, ilog2, ilog2_loop,
  low_mask, flush,
}
use baas_go_sdk.Chunk.File.{more, eof, chunk_file, read_loop, feed, chunk_data, sha256_hex}
use baas_go_sdk.Dedup.{BloomFilter, empty_bloom, tester_test}
use baas_go_sdk.Pipeline.Objects.{store_chunk, compress}
use baas_go_sdk.Pipeline.Session.{Outside, Session}
use baas_go_sdk.Pipeline.Pack.{empty_pack}
use baas_go_sdk.Pipeline.Upload.{
  FileEntry, Settings, Totals, knows, flush_if_full, add_chunk, process_chunk, process_chunks,
  chunk_entry, process_files, process_file_chunks,
}
use baas_go_sdk.Pipeline.Upload.Files.{AllListed, process_file_chunks_lem}
use baas_go_sdk.Tests.Toys.{toy_libraries}

abbrev filter : BloomFilter
filter = record { bytes = 255 ∷ 1 ∷ []; num_bits = 16; num_hashes = pos 2 }

abbrev hash : Bytes
hash = codes "0000000100000002ffff"

-- A file of seven bytes that is read in two parts, and a server that takes everything.
abbrev outside : Outside
outside = record {
  on_pack_upload_url =
      λ calls size. ok (record { pack_id = codes "12345678"; url = codes "u"; key = codes "k" });
  on_s3_put = λ calls url bytes. ok tt;
  on_confirm_pack = λ calls pack_id metas. ok tt;
  open_file = λ path. ok (more (1 ∷ 2 ∷ 3 ∷ 4 ∷ []) (eof (5 ∷ 6 ∷ 7 ∷ [])));
  random = λ n. none;
}

abbrev settings : Settings
settings = record {
  prev_index =
      some
        ((codes "g", record { mtime = codes "t"; size = pos 3; content = codes "05" ∷ [] }) ∷ []);
  bloom = empty_bloom;
  chunk_opts = record { min_size = pos 2; avg_size = pos 3; max_size = pos 4 };
  disable_compression = true;
  dek = none;
}

abbrev file : FileEntry
file = record {
  full_path = codes "/d/f";
  relative_path = codes "f";
  regular = true;
  modified = codes "t";
  file_size = pos 7;
}

-- This one is in the parent snapshot, and has not changed.
abbrev old_file : FileEntry
old_file = record {
  full_path = codes "/d/g";
  relative_path = codes "g";
  regular = true;
  modified = codes "t";
  file_size = pos 3;
}

abbrev walked : List FileEntry
walked = file ∷ old_file ∷ []

abbrev empty_session : Session
empty_session = record { calls = []; pack = empty_pack; draws = 0; known_hashes = [] }

-- The first two chunks have the same hash under the toy SHA-256, which is the length.
abbrev totals : Totals
totals = record {
  file_chunk_hashes =
      (codes "f", codes "03" ∷ codes "03" ∷ codes "01" ∷ []) ∷ (codes "g", codes "05" ∷ []) ∷ [];
  total_size = 7;
  total_chunks = 3;
}

abbrev uploaded : Session
uploaded = (process_file_chunks outside toy_libraries settings walked empty_session).1

uploads :
    process_file_chunks outside toy_libraries settings walked empty_session ≡ (ok totals, uploaded)
unfolding process_file_chunks process_files chunk_entry process_chunks process_chunk add_chunk
    flush_if_full chunk_file read_loop feed push push_loop advance cut_here restart roll
    make_chunker new_chunker ilog2 ilog2_loop low_mask flush tester_test store_chunk compress knows
    lookup str_eq insert sha256_hex chunk_data Hex.encode Hex.hex_digit
uploads = refl

uploaded_once : length uploaded.pack.chunks ≡ 2
unfolding process_file_chunks process_files chunk_entry process_chunks process_chunk add_chunk
    flush_if_full chunk_file read_loop feed push push_loop advance cut_here restart roll
    make_chunker new_chunker ilog2 ilog2_loop low_mask flush tester_test store_chunk compress knows
    lookup str_eq insert sha256_hex chunk_data Hex.encode Hex.hex_digit
uploaded_once = refl

process_file_chunks_lem_example :
    AllListed outside walked settings uploaded totals.file_chunk_hashes
process_file_chunks_lem_example =
    process_file_chunks_lem outside toy_libraries settings walked empty_session uploaded totals
      uploads
