-- ===== src/Pipeline/Upload/Accounts.antt =====
-- About `processFileChunks` of pipeline/backup.go: what may become of a known hash. It is held in the
-- buffer, or sent in a pack that was confirmed, or spared by the filter or the parent snapshot.
use mathlib.Core.Path.{subst}
use baas_go_sdk.Base.{
  ℕ, ◌+◌, ◌≡◌, inl, inr, refl, sym, ◌∙◌, ap, Bool, true, Option, none, some, List, [], ◌∷◌, ◌++◌,
  append_assoc, append-nil, Bool-cases, leb, length, if◌then◌else◌,
}
use baas_go_sdk.Base.Text.{Bytes}
use baas_go_sdk.Base.All.{In, In-left, In-right}
use baas_go_sdk.Base.Dict.{Dict, lookup}
use baas_go_sdk.Errors.Outcome.{ok, >>=-eq-ok}
use baas_go_sdk.Types.{ChunkData, PackChunkMeta}
use baas_go_sdk.Dedup.{tester_test}
use baas_go_sdk.Encrypt.{Random}
use baas_go_sdk.Pipeline.Objects.{Libraries, PackChunk, compress, sealed_chunk, store_chunk}
use baas_go_sdk.Pipeline.Session.{Call, Outside, Session}
use baas_go_sdk.Pipeline.Pack.{pack_metas, chunk_meta, flush_chunks, flush_pack}
use baas_go_sdk.Pipeline.Pack.Flush.{asked, Flushed, flush_chunks_lem, continue-eq-ok}
use baas_go_sdk.Pipeline.Upload.{
  FileEntry, Settings, PrevFileInfo, append_chunk, draw, flush_if_full, add_chunk, pack_target_size,
}

abbrev pub hashes_of : List PackChunk → List Bytes
hashes_of [] = []
hashes_of (c ∷ cs) = c.hash ∷ hashes_of cs

abbrev pub reported : List PackChunkMeta → List Bytes
reported [] = []
reported (m ∷ ms) = m.hash ∷ reported ms

reported-pack_metas : (n : ℕ) (cs : List PackChunk) → reported (pack_metas n cs) ≡ hashes_of cs
unfolding pack_metas chunk_meta
reported-pack_metas n [] = refl
reported-pack_metas n (c ∷ cs) = ap (λ r. c.hash ∷ r) (reported-pack_metas (n + length c.bytes) cs)

hashes_of-append :
    (cs : List PackChunk) (c : PackChunk) → hashes_of (cs ++ c ∷ []) ≡ hashes_of cs ++ c.hash ∷ []
hashes_of-append [] c = refl
hashes_of-append (x ∷ cs) c = ap (λ r. x.hash ∷ r) (hashes_of-append cs c)

-- A flush of a pack with the hash went through, at some point of the calls: the store took the bytes
-- of its chunks, and then the server accepted the report of their places, in which the hash stands.
pub record Sent (o : Outside) (calls : List Call) (h : Bytes) : Type 0 where
  pub chunks : List PackChunk
  pub before : Session
  pub after : Session
  pub flushed : Flushed o chunks before after
  pub rest : List Call
  pub made : calls ≡ after.calls ++ rest
  pub within : In h (hashes_of chunks)
  pub stated : In h (reported (pack_metas 0 chunks))

-- The parent snapshot has a file at the path of one of these regular files, with the same time and
-- the same size, and lists the hash for it.
pub record Reused (files : List FileEntry) (st : Settings) (h : Bytes) : Type 0 where
  pub entry : FileEntry
  pub walked : In entry files
  pub is_regular : entry.regular ≡ true
  pub index : Dict PrevFileInfo
  pub given : st.prev_index ≡ some index
  pub prev : PrevFileInfo
  pub found : lookup entry.relative_path index ≡ some prev
  pub same_time : prev.mtime ≡ entry.modified
  pub same_size : prev.size ≡ entry.file_size
  pub within : In h prev.content

-- The hash need not be sent: the filter says that the server has it, or a file that has not changed
-- since the parent snapshot holds it.
pub data Spared (files : List FileEntry) (st : Settings) (h : Bytes) : Type 0 where
  filtered : tester_test st.bloom h ≡ ok true → Spared files st h
  reused : Reused files st h → Spared files st h

pub data Accounted (o : Outside) (files : List FileEntry) (st : Settings) (s : Session) (h : Bytes)
    : Type 0 where
  spared : Spared files st h → Accounted o files st s h
  held : In h (hashes_of s.pack.chunks) → Accounted o files st s h
  sent : Sent o s.calls h → Accounted o files st s h

Sent-later :
    (o : Outside) (calls more : List Call) (h : Bytes) → Sent o calls h → Sent o (calls ++ more) h
Sent-later o calls more h x = record {
  chunks = x.chunks;
  before = x.before;
  after = x.after;
  flushed = x.flushed;
  rest = x.rest ++ more;
  made = ap (λ cs. cs ++ more) x.made ∙ append_assoc x.after.calls x.rest more;
  within = x.within;
  stated = x.stated;
}

module _ (o : Outside) (files : List FileEntry) (st : Settings) where
  -- What one state accounts for, the other does too, and the known hashes are the same.
  abbrev pub Onward : Session → Session → Type 0
  Onward s t =
      ((h : Bytes) → Accounted o files st s h → Accounted o files st t h)
      × (t.known_hashes ≡ s.known_hashes)

  Flushed-Sent :
      (chunks : List PackChunk) (s t : Session)
      → Flushed o chunks s t
      → (h : Bytes) → In h (hashes_of chunks)
      → Sent o t.calls h
  Flushed-Sent chunks s t f h i = record {
    chunks = chunks;
    before = s;
    after = t;
    flushed = f;
    rest = [];
    made = sym (append-nil t.calls);
    within = i;
    stated = subst (λ hs. In h hs) (sym (reported-pack_metas 0 chunks)) i;
  }

  flush_on :
      (s t : Session)
      → Flushed o s.pack.chunks s t
      → (h : Bytes) → Accounted o files st s h
      → Accounted o files st t h
  flush_on s t f h (spared x) = spared x
  flush_on s t f h (held i) = sent (Flushed-Sent s.pack.chunks s t f h i)
  flush_on s t f h (sent x) = sent (
      subst (λ calls. Sent o calls h)
        (sym (f.called ∙ append_assoc (asked o s.pack.chunks s) _ _ ∙ append_assoc s.calls _ _))
        (Sent-later o s.calls _ h x))

  flush_chunks_on :
      (chunks : List PackChunk) (s t : Session)
      → s.pack.chunks ≡ chunks
      → flush_chunks o chunks s ≡ (ok tt, t)
      → Onward s t
  flush_chunks_on [] s t e h = subst (λ u. Onward s u) (ap (λ r. r.1) h) ((λ x a. a), refl)
  flush_chunks_on (c ∷ cs) s t e h =
      let f = flush_chunks_lem o (c ∷ cs) s t (λ z. cc) h in
      (flush_on s t (subst (λ xs. Flushed o xs s t) (sym e) f), f.remembered)

  flush_if_full_on : (s t : Session) → flush_if_full o s ≡ (ok tt, t) → Onward s t
  unfolding flush_if_full flush_pack
  flush_if_full_on s t h = elim (Bool-cases (leb pack_target_size s.pack.total_size)) [
    | inl full ↦ flush_chunks_on s.pack.chunks s t refl (
        subst (λ b. (if b then flush_chunks o s.pack.chunks s else (ok tt, s)) ≡ (ok tt, t)) full h)
    | inr room ↦
        let e : (ok tt, s) ≡ (ok tt, t) =
          subst (λ b. (if b then flush_chunks o s.pack.chunks s else (ok tt, s)) ≡ (ok tt, t)) room
            h in
        subst (λ u. Onward s u) (ap (λ r. r.1) e) ((λ x a. a), refl)
  ]

  -- The chunk is in the buffer now, and what was there still is.
  appended_on :
      (pc : PackChunk) (s : Session)
      → Onward s (append_chunk pc s).1 × Accounted o files st (append_chunk pc s).1 pc.hash
  appended_on pc s =
      let e = sym (hashes_of-append s.pack.chunks pc) in
      (
        (
          λ h a. elim a [
            | spared x ↦ spared x
            | held i ↦ held (subst (λ hs. In h hs) e (In-left h (hashes_of s.pack.chunks) _ i))
            | sent x ↦ sent x
          ],
          refl,
        ),
        held (
            subst (λ hs. In pc.hash hs) e
              (In-right pc.hash (hashes_of s.pack.chunks) _ (inl refl))),
      )

  Onward-trans : (s t u : Session) → Onward s t → Onward t u → Onward s u
  Onward-trans s t u (f, e) (g, e') = ((λ h a. g h (f h a)), e' ∙ e)

  draw_on : (dek : Option Bytes) (s : Session) → Onward s (draw o dek s).1
  draw_on none s = ((λ h a. a), refl)
  draw_on (some dek) s =
      (λ h a. elim a [ spared x ↦ spared x | held i ↦ held i | sent x ↦ sent x ], refl)

store_chunk-hash :
    (l : Libraries) (disabled : Bool) (dek : Option Bytes) (r : Random) (c : ChunkData)
    (pc : PackChunk)
    → store_chunk l disabled dek r c ≡ ok pc
    → pc.hash ≡ c.hash
unfolding store_chunk
store_chunk-hash l disabled dek r c pc h =
    let (stored, made, _) =
      >>=-eq-ok (sealed_chunk l dek r c.hash (compress l disabled c.bytes).stored) _ h in
    cc

module _ (o : Outside) (files : List FileEntry) (l : Libraries) (st : Settings) where
  pub add_chunk_lem :
      (c : ChunkData) (s t : Session)
      → add_chunk o l st c s ≡ (ok tt, t)
      → Onward o files st s t × Accounted o files st t c.hash
  unfolding add_chunk
  add_chunk_lem c s t h =
      let s1 = (draw o st.dek s).1 in
      let (r, _, h1) = continue-eq-ok (draw o st.dek s).0 _ s1 tt t h in
      let (pc, stored, h2) =
        continue-eq-ok (store_chunk l st.disable_compression st.dek r c) _ s1 tt t h1 in
      let (on, has) = appended_on o files st pc s1 in
      let s2 = (append_chunk pc s1).1 in
      let (flushes, same) = flush_if_full_on o files st s2 t h2 in
      let (more, known) =
        Onward-trans o files st s s1 t (draw_on o files st st.dek s)
          (Onward-trans o files st s1 s2 t on (flushes, same)) in
      (
        (more, known),
        subst (λ x. Accounted o files st t x)
            (store_chunk-hash l st.disable_compression st.dek r c pc stored) (flushes pc.hash has),
      )
