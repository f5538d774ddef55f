-- ===== src/Api/Answers.antt =====
-- About the answers to a request in api/httpclient.go, with the questions of errors/errors.go.
use mathlib.Core.Path.{subst}
use baas_go_sdk.Base.{
  ℕ, ◌≡◌, ◌≢◌, ◌≤◌, ◌<◌, ◌⊎◌, inl, inr, refl, sym, ap, ◌∙◌, Bool, true, false, ◌==◌, Option, none,
  some, [], ◌∷◌, ◌++◌, arith, if◌then◌else◌,
}
use baas_go_sdk.Base.Text.{Bytes, codes}
use baas_go_sdk.Json.{Json, Fields, get, as_string}
use baas_go_sdk.Errors.{
  Error, wrap, api, or_else, ApiError, new_api_error, as_api_error, is_unauthorized, is_forbidden,
  is_not_found, is_conflict, is_payload_too_large, status_equals,
}
use baas_go_sdk.Errors.Kinds.{read_response}
use baas_go_sdk.Errors.Outcome.{Outcome, ok, err, panic, ◌>>=◌, map_err}
use baas_go_sdk.Api.{
  HttpClient, HttpRequest, HttpResponse, Net, field_text, text_or, Decoder, request, answer,
  decoded, send_unless, send_marshalled, marshalled, make_request, read_answer, error_message,
  is_success,
}

new_api_error-status :
    (msg : Bytes) (status : ℕ) (m : Option Fields)
    → (new_api_error msg status m).status_code ≡ status
unfolding new_api_error
new_api_error-status msg status none = refl
new_api_error-status msg status (some m) = refl

new_api_error-msg :
    (msg : Bytes) (status : ℕ) (m : Option Fields) → (new_api_error msg status m).msg ≡ msg
unfolding new_api_error
new_api_error-msg msg status none = refl
new_api_error-msg msg status (some m) = refl

new_api_error-body :
    (msg : Bytes) (status : ℕ) (m : Option Fields) → (new_api_error msg status m).body ≡ m
unfolding new_api_error
new_api_error-body msg status none = refl
new_api_error-body msg status (some m) = refl

-- What the questions about an error say of a failed request.
abbrev pub Reports : ℕ → Error → Type 0
Reports status e =
    (is_unauthorized e ≡ (status == 401))
    × (is_forbidden e ≡ (status == 403))
    × (is_not_found e ≡ (status == 404))
    × (is_conflict e ≡ (status == 409))
    × (is_payload_too_large e ≡ (status == 413))

api-Reports : (a : ApiError) (status : ℕ) → a.status_code ≡ status → Reports status (api a)
unfolding is_unauthorized is_forbidden is_not_found is_conflict is_payload_too_large status_equals
    as_api_error
api-Reports a status e = (
  ap (λ n. n == 401) e,
  ap (λ n. n == 403) e,
  ap (λ n. n == 404) e,
  ap (λ n. n == 409) e,
  ap (λ n. n == 413) e,
)

-- The parsed body is an object with this text in this field.
abbrev pub HasText : Bytes → Option Fields → Bytes → Type 0
HasText k parsed t = (m : Fields) × (parsed ≡ some m) × (get k m ≡ some (Json.string t))

abbrev pub HasNoText : Bytes → Option Fields → Type 0
HasNoText k parsed = ¬ ((t : Bytes) × HasText k parsed t)

-- What the message of an error is: the body's "message" if that is a text, else the body's "error"
-- if that is one, else the text of the status.
abbrev pub IsMessage : Bytes → Option Fields → Bytes → Type 0
IsMessage status parsed msg =
    HasText (codes "message") parsed msg
    ⊎ (HasNoText (codes "message") parsed × HasText (codes "error") parsed msg)
    ⊎ (HasNoText (codes "message") parsed × HasNoText (codes "error") parsed × (msg ≡ status))

as_string-eq-some : (o : Option Json) (t : Bytes) → as_string o ≡ some t → o ≡ some (Json.string t)
as_string-eq-some none t h = cc
as_string-eq-some (some Json.null) t h = cc
as_string-eq-some (some (Json.bool b)) t h = cc
as_string-eq-some (some (Json.number n)) t h = cc
as_string-eq-some (some (Json.string s)) t h = cc
as_string-eq-some (some (Json.array xs)) t h = cc
as_string-eq-some (some (Json.object fs)) t h = cc

field_text-some :
    (k : Bytes) (parsed : Option Fields) (t : Bytes)
    → field_text k parsed ≡ some t
    → HasText k parsed t
field_text-some k none t h = cc
field_text-some k (some m) t h = (m, refl, as_string-eq-some (get k m) t h)

field_text-HasText :
    (k : Bytes) (parsed : Option Fields) (t : Bytes)
    → HasText k parsed t
    → field_text k parsed ≡ some t
field_text-HasText k parsed t (m, e, g) = ap (field_text k) e ∙ ap as_string g

field_text-none :
    (k : Bytes) (parsed : Option Fields) → field_text k parsed ≡ none → HasNoText k parsed
field_text-none k parsed h (t, x) = let given = field_text-HasText k parsed t x in cc

text_or-IsMessage :
    (status : Bytes) (parsed : Option Fields) (m e : Option Bytes)
    → field_text (codes "message") parsed ≡ m
    → field_text (codes "error") parsed ≡ e
    → IsMessage status parsed (text_or status (or_else m e))
text_or-IsMessage status parsed (some t) e hm he = inl (field_text-some _ parsed t hm)
text_or-IsMessage status parsed none (some t) hm he =
    inr (inl (field_text-none _ parsed hm, field_text-some _ parsed t he))
text_or-IsMessage status parsed none none hm he =
    inr (inr (field_text-none _ parsed hm, field_text-none _ parsed he, refl))

error_message-IsMessage :
    (status : Bytes) (parsed : Option Fields)
    → IsMessage status parsed (error_message status parsed)
unfolding error_message
error_message-IsMessage status parsed =
    text_or-IsMessage status parsed (field_text (codes "message") parsed)
      (field_text (codes "error") parsed) refl refl

range_of : (status : ℕ) → is_success status ≡ false → (status < 200) ⊎ (300 ≤ status)
unfolding is_success
range_of status h = ground arith

module _ {A : Type 0} (net : Net) (d : Decoder A) (resp : HttpResponse) (text : Bytes) where
  -- A status of 200 to 299 gives what the decoder reads, and the zero value of an empty body.
  abbrev pub Accepted : Outcome A → Type 0
  Accepted result =
      (200 ≤ resp.status_code)
      × (resp.status_code < 300)
      × (((text ≡ []) × (result ≡ ok d.zero_value)) ⊎ ((text ≢ []) × (result ≡ d.unmarshal text)))

  -- Any other status gives an API error with the status, its message and the parsed body, of which
  -- each question about the status says whether it was that status.
  abbrev pub Rejected : Outcome A → Type 0
  Rejected result =
      ((resp.status_code < 200) ⊎ (300 ≤ resp.status_code))
      × ((a : ApiError) × (result ≡ err (api a))
          × (a.status_code ≡ resp.status_code)
          × IsMessage resp.status (net.parse_map text) a.msg
          × (a.body ≡ net.parse_map text)
          × Reports resp.status_code (api a))

  decoded_lem :
      (body : Bytes)
      → ((body ≡ []) × (decoded net d body ≡ ok d.zero_value))
        ⊎ ((body ≢ []) × (decoded net d body ≡ d.unmarshal body))
  decoded_lem [] = inl (refl, refl)
  decoded_lem (c ∷ body) = inr ((λ e. cc), refl)

  read_by :
      (success : Bool)
      → is_success resp.status_code ≡ success
      → (let parsed = net.parse_map text in
          let failed =
            err (api (new_api_error (error_message resp.status parsed) resp.status_code parsed)) in
          let result : Outcome A = if success then decoded net d text else failed in
          Accepted result ⊎ Rejected result)
  unfolding is_success
  read_by true h = inl (ground arith, ground arith, decoded_lem text)
  read_by false h =
      let parsed = net.parse_map text in
      let msg = error_message resp.status parsed in
      inr (
        range_of resp.status_code h,
        (
          new_api_error msg resp.status_code parsed,
          refl,
          new_api_error-status msg resp.status_code parsed,
          subst (λ m. IsMessage resp.status parsed m)
              (sym (new_api_error-msg msg resp.status_code parsed))
              (error_message-IsMessage resp.status parsed),
          new_api_error-body msg resp.status_code parsed,
          api-Reports (new_api_error msg resp.status_code parsed) resp.status_code
              (new_api_error-status msg resp.status_code parsed),
        ),
      )

module _ (net : Net) (c : HttpClient) {A : Type 0} (d : Decoder A) where
  unless_sent :
      (o : Option Error) (made req : HttpRequest)
      → (send_unless net o d made).1 ≡ req ∷ []
      → (send_unless net o d made).0 ≡ answer net d (net.send req)
  unless_sent none made req h = ap (λ r. answer net d (net.send r)) cc
  unless_sent (some e) made req h = cc

  marshalled_sent :
      (method path : Bytes) (o : Outcome (Option Bytes)) (req : HttpRequest)
      → (send_marshalled net c method path d o).1 ≡ req ∷ []
      → (send_marshalled net c method path d o).0 ≡ answer net d (net.send req)
  marshalled_sent method path (ok content) req h =
      unless_sent (net.refuses method (c.base_url ++ path)) (make_request net c method path content)
        req h
  marshalled_sent method path (err e) req h = cc
  marshalled_sent method path panic req h = cc

  -- Where a request was sent, the network answered it and the body of the response can be read, the
  -- call ends as the status says. With 200 to 299 it gives what the decoder reads in the body, or the
  -- zero value if the body is empty. With any other status it gives an API error with that status,
  -- with the parsed body, and with the message: the body's "message" if that is a text, else the
  -- body's "error" if that is one, else the text of the status; and the questions of the error
  -- package tell its status.
  pub request_answers :
      (method path text : Bytes) (body : Option Json) (req : HttpRequest) (resp : HttpResponse)
      → (request net c method path body d).1 ≡ req ∷ []
      → net.send req ≡ ok resp
      → resp.content ≡ ok text
      → Accepted net d resp text (request net c method path body d).0
        ⊎ Rejected net d resp text (request net c method path body d).0
  unfolding request answer
  request_answers method path text body req resp sent answered read =
      let result =
        marshalled_sent method path (marshalled net body) req sent
        ∙ ap (answer net d) answered
        ∙ ap (λ o. map_err (wrap read_response []) o >>= read_answer net d resp) read in
      subst (λ r. Accepted net d resp text r ⊎ Rejected net d resp text r) (sym result)
        (read_by net d resp text (is_success resp.status_code) refl)
