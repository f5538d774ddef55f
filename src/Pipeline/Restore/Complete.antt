-- ===== src/Pipeline/Restore/Complete.antt =====
-- About `collectDataHashes` and `ensureAllChunksPresent` of pipeline/restore.go.
use mathlib.Core.Path.{subst}
use baas_go_sdk.Base.{
  ◌≡◌, refl, inl, inr, Bool, true, false, List, [], ◌∷◌, Bool-cases, if◌then◌else◌,
}
use baas_go_sdk.Base.Text.{Bytes}
use baas_go_sdk.Base.All.{All, All-mono, In}
use baas_go_sdk.Base.Dict.{Dict, has_key}
use baas_go_sdk.Errors.Outcome.{ok}
use baas_go_sdk.Pipeline.Upload.Seen.{knows-In}
use baas_go_sdk.Pipeline.Upload.{knows}
use baas_go_sdk.Pipeline.Restore.{
  add_hashes, collect_data_hashes, missing_chunks, report_missing, ensure_all_chunks_present,
}

add_one :
    (h x : Bytes) (found : List Bytes)
    → In x found
    → In x (if knows h found then found else h ∷ found)
add_one h x found i = elim (Bool-cases (knows h found)) [ inl e ↦ rw e i | inr e ↦ rw e (inr i) ]

added : (h : Bytes) (found : List Bytes) → In h (if knows h found then found else h ∷ found)
added h found = elim (Bool-cases (knows h found)) [
  | inl e ↦ rw e (knows-In h found e)
  | inr e ↦ rw e (inl refl)
]

add_hashes-keeps :
    (hs : List Bytes) (found : List Bytes) (x : Bytes) → In x found → In x (add_hashes hs found)
add_hashes-keeps [] found x i = i
add_hashes-keeps (h ∷ hs) found x i = add_hashes-keeps hs _ x (add_one h x found i)

add_hashes-has : (hs : List Bytes) (found : List Bytes) → All (λ h. In h (add_hashes hs found)) hs
add_hashes-has [] found = tt
add_hashes-has (h ∷ hs) found = (
  add_hashes-keeps hs _ h (added h found),
  add_hashes-has hs (if knows h found then found else h ∷ found),
)

present_first :
    (b : Bool) (x : Bytes) (rest : List Bytes)
    → (if b then rest else x ∷ rest) ≡ []
    → (b ≡ true) × (rest ≡ [])
present_first true x rest h = (refl, h)
present_first false x rest h = cc

missing_none :
    (hs : List Bytes) (cache : Dict Bytes) (h : Bytes)
    → missing_chunks hs cache ≡ []
    → In h hs
    → has_key h cache ≡ true
unfolding missing_chunks
missing_none [] cache h none_missing i = absurd i
missing_none (x ∷ hs) cache h none_missing (inl e) =
    subst (λ y. has_key y cache ≡ true) e
      (present_first (has_key x cache) x (missing_chunks hs cache) none_missing).0
missing_none (x ∷ hs) cache h none_missing (inr i) =
    missing_none hs cache h
      (present_first (has_key x cache) x (missing_chunks hs cache) none_missing).1 i

report_missing-eq-ok : (ms : List Bytes) → report_missing ms ≡ ok tt → ms ≡ []
report_missing-eq-ok [] h = refl
report_missing-eq-ok (m ∷ ms) h = cc

-- Each chunk of each file is in the cache.
abbrev pub AllPresent : Dict Bytes → Dict (List Bytes) → Type 0
AllPresent cache [] = Unit
AllPresent cache ((path, hs) ∷ rest) = All (λ h. has_key h cache ≡ true) hs × AllPresent cache rest

AllPresent-from :
    (cache : Dict Bytes) (hashes : List Bytes) (file_map : Dict (List Bytes))
    → ((h : Bytes) → In h hashes → has_key h cache ≡ true)
    → ((h : Bytes) → In h (collect_data_hashes file_map) → In h hashes)
    → AllPresent cache file_map
unfolding collect_data_hashes
AllPresent-from cache hashes [] has sub = tt
AllPresent-from cache hashes ((path, hs) ∷ rest) has sub = (
  All-mono (λ h. In h (add_hashes hs (collect_data_hashes rest))) (λ h. has_key h cache ≡ true) hs
      (λ h i. has h (sub h i)) (add_hashes-has hs (collect_data_hashes rest)),
  AllPresent-from cache hashes rest has
      (λ h i. sub h (add_hashes-keeps hs (collect_data_hashes rest) h i)),
)

-- When the test for missing chunks passes on the collected hashes, every chunk of every file of the
-- snapshot is in the cache.
pub ensure_all_chunks_present_lem :
    (file_map : Dict (List Bytes)) (cache : Dict Bytes)
    → ensure_all_chunks_present (collect_data_hashes file_map) cache ≡ ok tt
    → AllPresent cache file_map
unfolding ensure_all_chunks_present
ensure_all_chunks_present_lem file_map cache h =
    let hashes = collect_data_hashes file_map in
    AllPresent-from cache hashes file_map
      (λ x i. missing_none hashes cache x (report_missing-eq-ok (missing_chunks hashes cache) h) i)
      (λ x i. i)
