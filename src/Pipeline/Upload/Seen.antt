-- ===== src/Pipeline/Upload/Seen.antt =====
-- About `processFileChunks` of pipeline/backup.go: the loop over the chunks of one file.
use mathlib.Core.Path.{subst}
use baas_go_sdk.Base.{
  ◌≡◌, inl, inr, refl, sym, ap, Bool, true, false, List, [], ◌∷◌, map, arith, if◌then◌else◌,
}
use baas_go_sdk.Base.Text.{Bytes, str_eq_iff}
use baas_go_sdk.Base.All.{All, In}
use baas_go_sdk.Errors.Outcome.{Outcome, ok}
use baas_go_sdk.Types.{ChunkData}
use baas_go_sdk.Dedup.{tester_test}
use baas_go_sdk.Pipeline.Objects.{Libraries}
use baas_go_sdk.Pipeline.Session.{Outside, Session}
use baas_go_sdk.Pipeline.Pack.Flush.{continue-eq-ok}
use baas_go_sdk.Pipeline.Upload.{
  FileEntry, Settings, knows, remember, unless_seen, new_chunk, process_chunk, process_chunks,
}
use baas_go_sdk.Pipeline.Upload.Accounts.{
  filtered, Accounted, spared, held, sent, Onward, add_chunk_lem,
}

pub knows-In : (h : Bytes) (ks : List Bytes) → knows h ks ≡ true → In h ks
unfolding knows
knows-In h [] e = cc
knows-In h (k ∷ ks) e = ground (arith, str_eq_iff k h, knows-In h ks)

-- Every known hash is accounted for.
abbrev pub AllAccounted : Outside → List FileEntry → Settings → Session → Type 0
AllAccounted o files st s = (h : Bytes) → In h s.known_hashes → Accounted o files st s h

-- The state is accounted for, and no hash was forgotten on the way to it.
pub record Kept (o : Outside) (files : List FileEntry) (st : Settings) (s t : Session)
    : Type 0 where
  pub all : AllAccounted o files st t
  pub grows : (h : Bytes) → In h s.known_hashes → In h t.known_hashes

pub Kept-trans :
    (o : Outside) (files : List FileEntry) (st : Settings) (s t u : Session)
    → Kept o files st s t
    → Kept o files st t u
    → Kept o files st s u
Kept-trans o files st s t u k k' = record { all = k'.all; grows = λ h i. k'.grows h (k.grows h i) }

-- More known hashes change no account.
pub Accounted-remember :
    (o : Outside) (files : List FileEntry) (st : Settings) (hs : List Bytes) (s : Session)
    (h : Bytes)
    → Accounted o files st s h
    → Accounted o files st (remember hs s).1 h
Accounted-remember o files st hs s h (spared x) = spared x
Accounted-remember o files st hs s h (held i) = held i
Accounted-remember o files st hs s h (sent x) = sent x

abbrev pub hashes : List ChunkData → List Bytes
hashes chunks = map (λ c. c.hash) chunks

abbrev ok_unit : Session → Outcome (Unit {0}) × Session
ok_unit s = (ok tt, s)

module _ (o : Outside) (files : List FileEntry) (l : Libraries) (st : Settings) where
  unless_seen_lem :
      (c : ChunkData) (seen : Bool) (s t : Session)
      → tester_test st.bloom c.hash ≡ ok seen
      → unless_seen o l st c seen s ≡ (ok tt, t)
      → Onward o files st s t × Accounted o files st t c.hash
  unless_seen_lem c true s t tested h =
      subst (λ u. Onward o files st s u × Accounted o files st u c.hash) (ap (λ r. r.1) h)
        (((λ x a. a), refl), spared (filtered tested))
  unless_seen_lem c false s t tested h = add_chunk_lem o files l st c s t h

  new_chunk_lem :
      (c : ChunkData) (s t : Session)
      → new_chunk o l st c s ≡ (ok tt, t)
      → AllAccounted o files st s
      → Kept o files st s t × In c.hash t.known_hashes
  new_chunk_lem c s t h all =
      let s1 = (remember (c.hash ∷ []) s).1 in
      let (seen, tested, h1) = continue-eq-ok (tester_test st.bloom c.hash) _ s1 tt t h in
      let ((more, same), has) = unless_seen_lem c seen s1 t tested h1 in
      let known : (x : Bytes) → In x s1.known_hashes → In x t.known_hashes =
        λ x i. subst (λ ks. In x ks) (sym same) i in
      (
        record {
          all = λ x i. elim (subst (λ ks. In x ks) same i) [
            | inl e ↦ subst (λ y. Accounted o files st t y) e has
            | inr j ↦ more x (Accounted-remember o files st (c.hash ∷ []) s x (all x j))
          ];
          grows = λ x i. known x (inr i);
        },
        known c.hash (inl refl),
      )

  known_or_new :
      (c : ChunkData) (b : Bool) (s t : Session)
      → knows c.hash s.known_hashes ≡ b
      → (if b then ok_unit s else new_chunk o l st c s) ≡ (ok tt, t)
      → AllAccounted o files st s
      → Kept o files st s t × In c.hash t.known_hashes
  known_or_new c true s t known h all =
      subst (λ u. Kept o files st s u × In c.hash u.known_hashes) (ap (λ r. r.1) h)
        (record { all = all; grows = λ x i. i }, knows-In c.hash s.known_hashes known)
  known_or_new c false s t known h all = new_chunk_lem c s t h all

  process_chunk_lem :
      (c : ChunkData) (s t : Session)
      → process_chunk o l st c s ≡ (ok tt, t)
      → AllAccounted o files st s
      → Kept o files st s t × In c.hash t.known_hashes
  unfolding process_chunk
  process_chunk_lem c s t h all = known_or_new c (knows c.hash s.known_hashes) s t refl h all

  pub process_chunks_lem :
      (cs : List ChunkData) (s t : Session)
      → process_chunks o l st cs s ≡ (ok tt, t)
      → AllAccounted o files st s
      → Kept o files st s t × All (λ h. In h t.known_hashes) (hashes cs)
  unfolding process_chunks
  process_chunks_lem [] s t h all =
      subst (λ u. Kept o files st s u × Unit {0}) (ap (λ r. r.1) h)
        (record { all = all; grows = λ x i. i }, tt)
  process_chunks_lem (c ∷ cs) s t h all =
      let s1 = (process_chunk o l st c s).1 in
      let (_, first, rest) = continue-eq-ok (process_chunk o l st c s).0 _ s1 tt t h in
      let (kept, has) = process_chunk_lem c s s1 (ap (λ a. (a, s1)) first) all in
      let (kept', have) = process_chunks_lem cs s1 t rest kept.all in
      (Kept-trans o files st s s1 t kept kept', (kept'.grows c.hash has, have))
