-- ===== src/Api/S3.antt =====
-- About S3Put and S3Get of api/httpclient.go.
use baas_go_sdk.Base.{Option, none, some, List, [], ◌∷◌, if◌then◌else◌, take}
use baas_go_sdk.Base.Text.{Bytes}
use baas_go_sdk.Base.Int.{pos}
use baas_go_sdk.Encoding.Decimal.{format_int}
use baas_go_sdk.Errors.{Error, text, wrap}
use baas_go_sdk.Errors.Kinds.{s3_put_failed, s3_put_status, s3_get_failed, s3_get_status}
use baas_go_sdk.Errors.Outcome.{Outcome, ok, err, panic, ◌>>=◌, map_err}
use baas_go_sdk.Api.{HttpResponse, is_success}

-- What reading up to 200 bytes of a body gives, its error left out.
abbrev first_bytes : Outcome Bytes → Bytes
first_bytes (ok body) = take 200 body
first_bytes (err _) = []
first_bytes panic = []

abbrev status_args : HttpResponse → List Bytes
status_args resp = format_int (pos resp.status_code) ∷ first_bytes resp.content ∷ []

-- What `http.NewRequest` refuses, and what putting the bytes to the URL, or getting it, gives.
module _ (refuses : Bytes → Option Error) (put : Bytes → Bytes → Outcome HttpResponse) where
  abbrev put_unless : Option Error → Bytes → Bytes → Outcome (Unit {0})
  put_unless (some e) url bytes = err e
  put_unless none url bytes = map_err (wrap s3_put_failed []) (put url bytes) >>= λ resp.
      if is_success resp.status_code then ok tt else err (text s3_put_status (status_args resp))

  unfoldable pub s3_put : Bytes → Bytes → Outcome (Unit {0})
  s3_put url bytes = put_unless (refuses url) url bytes

unfoldable pub s3_get : (Bytes → Outcome HttpResponse) → Bytes → Outcome Bytes
s3_get fetch url = map_err (wrap s3_get_failed []) (fetch url) >>= λ resp.
    if is_success resp.status_code
    then resp.content
    else err (text s3_get_status (status_args resp))
