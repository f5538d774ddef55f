-- ===== src/Pipeline/Pack/Flush.antt =====
-- About `flushPack` of pipeline/backup.go: its calls to the outside, and the buffer.
use baas_go_sdk.Base.{◌≡◌, ◌≢◌, refl, ap, arith, List, [], ◌∷◌, ◌++◌}
use baas_go_sdk.Base.Text.{Bytes}
use baas_go_sdk.Errors.{Error}
use baas_go_sdk.Errors.Outcome.{Outcome, ok, err, panic, map_err, map_err-eq-ok}
use baas_go_sdk.Types.{PackUploadUrlResponse}
use baas_go_sdk.Pipeline.Objects.{PackChunk}
use baas_go_sdk.Pipeline.Session.{
  Call, pack_upload_url, s3_put, confirm_pack, Outside, Session, Action, continue,
}
use baas_go_sdk.Pipeline.Pack.{
  total_bytes, pack_bytes, pack_metas, empty_pack, report_pack, upload_chunks, flush_chunks,
  flush_pack,
}

module _ {A B : Type 0} where
  -- A continuation that succeeds shows what it continued from.
  pub continue-eq-ok :
      (r : Outcome A) (f : A → Action B) (s : Session) (b : B) (t : Session)
      → continue r f s ≡ (ok b, t)
      → (a : A) × (r ≡ ok a) × (f a s ≡ (ok b, t))
  continue-eq-ok (ok a) f s b t h = (a, refl, h)
  continue-eq-ok (err e) f s b t h = cc
  continue-eq-ok panic f s b t h = cc

-- On an error the action leaves the buffer as it was.
abbrev KeepsOnError : Action (Unit {0}) → Type 0
KeepsOnError m = (s : Session) (e : Error) (t : Session) → m s ≡ (err e, t) → t.pack ≡ s.pack

continue-keeps :
    {A : Type 0} (r : Outcome A) (f : A → Action (Unit {0})) (s : Session) (e : Error) (t : Session)
    → ((a : A) → KeepsOnError (f a))
    → continue r f s ≡ (err e, t)
    → t.pack ≡ s.pack
continue-keeps (ok a) f s e t keeps h = keeps a s e t h
continue-keeps (err x) f s e t keeps h = cc
continue-keeps panic f s e t keeps h = cc

report-keeps : (pack_id : Bytes) → KeepsOnError (report_pack pack_id)
unfolding report_pack
report-keeps pack_id s e t h = ground arith

report-eq-ok :
    (pack_id : Bytes) (s t : Session)
    → report_pack pack_id s ≡ (ok tt, t)
    → t ≡ record s { pack = empty_pack }
unfolding report_pack
report-eq-ok pack_id s t h = ground arith

upload-keeps : (o : Outside) (chunks : List PackChunk) → KeepsOnError (upload_chunks o chunks)
unfolding upload_chunks
upload-keeps o chunks s e t =
    continue-keeps (map_err _ (o.on_pack_upload_url s.calls (total_bytes chunks))) _ _ e t
      (λ resp s1 e1 t1.
        continue-keeps (map_err _ (o.on_s3_put s1.calls resp.url (pack_bytes chunks))) _ _ e1 t1
          (λ _ s2 e2 t2.
            continue-keeps
              (map_err _ (o.on_confirm_pack s2.calls resp.pack_id (pack_metas 0 chunks))) _ _ e2 t2
              (λ _. report-keeps resp.pack_id)))

flush-keeps : (o : Outside) (chunks : List PackChunk) → KeepsOnError (flush_chunks o chunks)
flush-keeps o [] s e t h = cc
flush-keeps o (c ∷ cs) s e t h = upload-keeps o (c ∷ cs) s e t h

-- When `flushPack` returns an error, the buffer still holds the chunks that it held before.
pub flush_pack-keeps :
    (o : Outside) (s t : Session) (e : Error) → flush_pack o s ≡ (err e, t) → t.pack ≡ s.pack
unfolding flush_pack
flush_pack-keeps o s t e h = flush-keeps o s.pack.chunks s e t h

module _ (o : Outside) (chunks : List PackChunk) (s : Session) where
  -- The calls of a flush that was given this answer.
  abbrev pub asked : List Call
  asked = s.calls ++ pack_upload_url (total_bytes chunks) ∷ []

  abbrev pub put : PackUploadUrlResponse → List Call
  put resp = asked ++ s3_put resp.url (pack_bytes chunks) ∷ []

  abbrev pub confirmed : PackUploadUrlResponse → List Call
  confirmed resp = put resp ++ confirm_pack resp.pack_id (pack_metas 0 chunks) ∷ []

-- The flush of these chunks went through: the server gave an upload address, then the store took
-- the bytes of all chunks there, then the server confirmed their places, and nothing else was
-- called; the known hashes stay as they were.
pub record Flushed (o : Outside) (chunks : List PackChunk) (s t : Session) : Type 0 where
  pub resp : PackUploadUrlResponse
  pub given : o.on_pack_upload_url s.calls (total_bytes chunks) ≡ ok resp
  pub taken : o.on_s3_put (asked o chunks s) resp.url (pack_bytes chunks) ≡ ok tt
  pub settled : o.on_confirm_pack (put o chunks s resp) resp.pack_id (pack_metas 0 chunks) ≡ ok tt
  pub called : t.calls ≡ confirmed o chunks s resp
  pub emptied : t.pack ≡ empty_pack
  pub remembered : t.known_hashes ≡ s.known_hashes

upload_chunks_lem :
    (o : Outside) (chunks : List PackChunk) (s t : Session)
    → upload_chunks o chunks s ≡ (ok tt, t)
    → Flushed o chunks s t
unfolding upload_chunks
upload_chunks_lem o chunks s t h =
    let (resp, given, h1) =
      continue-eq-ok (map_err _ (o.on_pack_upload_url s.calls (total_bytes chunks))) _ _ tt t h in
    let (u, taken, h2) =
      continue-eq-ok (map_err _ (o.on_s3_put (asked o chunks s) resp.url (pack_bytes chunks))) _ _
        tt t h1 in
    let (v, settled, h3) =
      continue-eq-ok
        (map_err _ (o.on_confirm_pack (put o chunks s resp) resp.pack_id (pack_metas 0 chunks))) _ _
        tt t h2 in
    let e = report-eq-ok resp.pack_id _ t h3 in
    record {
      resp = resp;
      given = map_err-eq-ok _ _ given;
      taken = map_err-eq-ok _ _ taken;
      settled = map_err-eq-ok _ _ settled;
      called = ap (λ r. r.calls) e;
      emptied = ap (λ r. r.pack) e;
      remembered = ap (λ r. r.known_hashes) e;
    }

pub flush_chunks_lem :
    (o : Outside) (chunks : List PackChunk) (s t : Session)
    → chunks ≢ []
    → flush_chunks o chunks s ≡ (ok tt, t)
    → Flushed o chunks s t
flush_chunks_lem o [] s t some_chunk h = absurd (some_chunk refl)
flush_chunks_lem o (c ∷ cs) s t some_chunk h = upload_chunks_lem o (c ∷ cs) s t h

-- When `flushPack` succeeds on a buffer that holds chunks, the three calls were made in their order,
-- all were accepted, and the buffer is empty.
pub flush_pack_lem :
    (o : Outside) (s t : Session)
    → s.pack.chunks ≢ []
    → flush_pack o s ≡ (ok tt, t)
    → Flushed o s.pack.chunks s t
unfolding flush_pack
flush_pack_lem o s t some_chunk h = flush_chunks_lem o s.pack.chunks s t some_chunk h
