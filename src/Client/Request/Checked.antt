-- ===== src/Client/Request/Checked.antt =====
-- services/apiClient.ts: what a caller gets, and what is left behind.
use kaims_latest.Prelude.{
  ◌≤◌, ◌<◌, leb, ==_iff, ◌⊎◌, ℕ, zero, suc, ◌+◌, ◌/◌, ◌%◌, ◌≡◌, refl, ap, ◌∙◌, Bool, true, false,
  [], ◌∷◌, ◌++◌, any, any-append, Option, none, some, ◌==◌, arith, Bool-cases, inl, inr,
}
use kaims_latest.Js.Text.{Text, js, lower, includes}
use kaims_latest.Js.Value.{Value, decimal, digits}
use kaims_latest.Client.Request.{
  platform_error, code_error, api_validation_error, Result, ok, failed, Body, bad_json, json,
  Answer, rejected, response, Parsed, success, issues, Options, Platform, Held, option_or, attempt,
  path_of, prepare, request_of, release, is_ok, is_json, validate, read_body, settle,
  request_validated,
}

-- A text in which no query begins.
abbrev pub has_query : Text → Bool
has_query t = any (λ c. c == b'?') t

has_query-path_of : (t : Text) → has_query (path_of t) ≡ false
unfolding path_of
has_query-path_of [] = refl
has_query-path_of (c ∷ t) = ground (arith, has_query-path_of t)

has_query-digits : (fuel n : ℕ) → has_query (digits fuel n) ≡ false
unfolding digits
has_query-digits zero n = refl
has_query-digits (suc fuel) n = ground (
  arith,
  has_query-digits fuel (n / 10),
  any-append (λ c. c == b'?') (digits fuel (n / 10)) ((n % 10 + 48) ∷ []),
)

has_query-decimal : (n : ℕ) → has_query (decimal n) ≡ false
unfolding decimal
has_query-decimal n = has_query-digits (suc n) n

has_query-append :
    (s t : Text) → has_query s ≡ false → has_query t ≡ false → has_query (s ++ t) ≡ false
has_query-append s t hs ht = any-append (λ c. c == b'?') s t ∙ rw (hs, ht) refl

-- The part of an address before its query: no `?` in it, and what follows is nothing or begins with one.
abbrev pub IsQuery : Text → Type 0
IsQuery [] = Unit
IsQuery (c ∷ t) = c ≡ b'?'

abbrev pub IsPath : Text → Text → Type 0
IsPath endpoint path =
    (has_query path ≡ false) × (rest : Text) × (endpoint ≡ path ++ rest) × IsQuery rest

path_of-IsPath : (t : Text) → IsPath t (path_of t)
unfolding path_of
path_of-IsPath [] = (refl, [], refl, tt)
path_of-IsPath (c ∷ t) = elim (Bool-cases (c == b'?')) [
  | inl mark ↦ rw mark (refl, c ∷ t, refl, (==_iff c b'?').0 mark)
  | inr other ↦
      let (none_in, rest, whole, query) = path_of-IsPath t in
      rw other (rw (other, none_in) refl, rest, ap (◌∷◌ c) whole, query)
]

-- A response of success that says it is JSON.
abbrev pub IsJsonResponse : Answer → Body → Type 0
IsJsonResponse answer body =
    (status : ℕ) × (content_type : Option Text) × (answer ≡ response status content_type body)
    × (200 ≤ status)
    × (status ≤ 299)
    × (includes (lower (option_or content_type [])) (js "application/json") ≡ true)

-- Why the code throws an error of its own, and with what message.
abbrev pub IsRefusal : Text → Answer → Text → Type 0
IsRefusal path answer m =
    (status : ℕ) × (content_type : Option Text) × (body : Body) × (answer
      ≡ response status content_type body)
    × ((((status < 200) ⊎ (299 < status))
          × (m ≡ js "Request failed (" ++ decimal status ++ js ") for " ++ path))
        ⊎ ((200 ≤ status)
            × (status ≤ 299)
            × (includes (lower (option_or content_type [])) (js "application/json") ≡ false)
            × (m ≡ js "Expected JSON from " ++ path)))

IsRefusal-has_query :
    (path m : Text) (answer : Answer)
    → has_query path ≡ false
    → IsRefusal path answer m
    → has_query m ≡ false
unfolding js
IsRefusal-has_query path m answer h (status, content_type, body, e, inl (bad, says)) =
    ap has_query says
    ∙ has_query-append (js "Request failed (" ++ decimal status ++ js ") for ") path
        (has_query-append (js "Request failed (" ++ decimal status) (js ") for ")
          (has_query-append (js "Request failed (") (decimal status) refl
            (has_query-decimal status))
          refl)
        h
IsRefusal-has_query path m answer h (status, content_type, body, e, inr (low, high, t, says)) =
    ap has_query says ∙ has_query-append (js "Expected JSON from ") path refl h

status-refused : (status : ℕ) → is_ok status ≡ false → (status < 200) ⊎ (299 < status)
status-refused status h = elim (Bool-cases (leb 200 status)) [
  | inl low ↦ inr (ground (arith, h, low))
  | inr low ↦ inl (ground (arith, low))
]

module _ {A : Type 0} (parse : Value → Parsed A) where
  -- What a result says of the answer, and of what was logged.
  abbrev pub IsExplained : Text → Answer → Held → Held × Result A → Type 0
  IsExplained endpoint answer before (held, ok found) =
      (held ≡ before) × (v : Value) × IsJsonResponse answer (json v) × (parse v ≡ success found)
  IsExplained endpoint answer before (held, failed (platform_error m)) =
      (held ≡ before) × ((answer ≡ rejected m) ⊎ IsJsonResponse answer (bad_json m))
  IsExplained endpoint answer before (held, failed (code_error m)) =
      (held ≡ before)
      × (has_query m ≡ false)
      × (path : Text) × IsPath endpoint path
      × IsRefusal path answer m
  IsExplained endpoint answer before (held, failed (api_validation_error path n)) =
      (held ≡ record before { logged = before.logged ++ (path, n) ∷ [] })
      × IsPath endpoint path
      × (v : Value) × IsJsonResponse answer (json v)
      × (parse v ≡ issues n)

  read_body-IsExplained :
      (endpoint : Text) (answer : Answer) (body : Body) (held : Held)
      → IsJsonResponse answer body
      → IsExplained endpoint answer held (read_body parse endpoint body held)
  read_body-IsExplained endpoint answer (bad_json m) held h = (refl, inr h)
  read_body-IsExplained endpoint answer (json v) held h = validated (parse v) refl
    where
      validated :
          (p : Parsed A)
          → parse v ≡ p
          → IsExplained endpoint answer held (validate parse endpoint p held)
      validated (success found) e = (refl, v, h, e)
      validated (issues n) e = (refl, path_of-IsPath endpoint, v, h, e)

  refusal-IsExplained :
      (endpoint : Text) (answer : Answer) (held : Held) (m : Text)
      → IsRefusal (path_of endpoint) answer m
      → IsExplained endpoint answer held (held, failed (code_error m))
  refusal-IsExplained endpoint answer held m h = (
    refl,
    IsRefusal-has_query (path_of endpoint) m answer (has_query-path_of endpoint) h,
    path_of endpoint,
    path_of-IsPath endpoint,
    h,
  )

  settle-IsExplained :
      (endpoint : Text) (answer : Answer) (held : Held)
      → IsExplained endpoint answer held (settle parse endpoint answer held)
  unfolding settle is_json
  settle-IsExplained endpoint (rejected m) held = (refl, inl refl)
  settle-IsExplained endpoint (response status content_type body) held =
      elim (Bool-cases (is_ok status)) [
        | inr bad ↦ rw bad (
            refusal-IsExplained endpoint _ held _
              (status, content_type, body, refl, inl (status-refused status bad, refl)))
        | inl good ↦
            let low : 200 ≤ status = ground (arith, good) in
            let high : status ≤ 299 = ground (arith, good) in
            elim (Bool-cases (is_json content_type)) [
              | inr other ↦
                  rw (good, other)
                    (refusal-IsExplained endpoint _ held _
                      (status, content_type, body, refl, inr (low, high, other, refl)))
              | inl typed ↦
                  rw (good, typed)
                    (read_body-IsExplained endpoint _ body held
                      (status, content_type, refl, low, high, typed))
            ]
      ]

  settle-fetches :
      (endpoint : Text) (answer : Answer) (held : Held)
      → (settle parse endpoint answer held).0.fetches ≡ held.fetches
  unfolding settle
  settle-fetches endpoint (rejected m) held = refl
  settle-fetches endpoint (response status content_type body) held =
      elim (Bool-cases (is_ok status)) [
        | inr bad ↦ rw bad refl
        | inl good ↦ elim (Bool-cases (is_json content_type)) [
          | inr other ↦ rw (good, other) refl
          | inl typed ↦ rw (good, typed) (of_body body)
        ]
      ]
    where
      of_parsed : (p : Parsed A) → (validate parse endpoint p held).0.fetches ≡ held.fetches
      of_parsed (success found) = refl
      of_parsed (issues n) = refl

      of_body : (b : Body) → (read_body parse endpoint b held).0.fetches ≡ held.fetches
      of_body (bad_json m) = refl
      of_body (json v) = of_parsed (parse v)

  release-IsExplained :
      (endpoint : Text) (answer : Answer) (before held : Held) (result : Result A)
      → IsExplained endpoint answer before (held, result)
      → IsExplained endpoint answer (release before) (release held, result)
  unfolding release
  release-IsExplained endpoint answer before held (ok found) (e, v, j, p) = (ap release e, v, j, p)
  release-IsExplained endpoint answer before held (failed (platform_error m)) (e, j) =
      (ap release e, j)
  release-IsExplained endpoint answer before held (failed (code_error m)) (e, q, path, i, j) =
      (ap release e, q, path, i, j)
  release-IsExplained endpoint answer before held (failed (api_validation_error path n))
        (e, i, v, j, p) =
      (ap release e, i, v, j, p)

  -- What holds of a call, by the error of its headers: refused headers are the error and nothing is
  -- sent, and otherwise one request is, whose answer explains the result.
  abbrev pub IsAnswered : Option Text → Platform → Text → Options → Held × Result A → Type 0
  IsAnswered (some m) platform endpoint options r =
      (r.0.fetches ≡ []) × (r.0.logged ≡ []) × (r.1 ≡ failed (platform_error m))
  IsAnswered none platform endpoint options r =
      let sent = request_of endpoint options in
      (r.0.fetches ≡ sent ∷ [])
      × IsExplained endpoint (platform.fetch sent)
          (release (record (prepare options) { fetches = sent ∷ [] })) r

  attempt-IsAnswered :
      (refused : Option Text) (platform : Platform) (endpoint : Text) (options : Options)
      → (let r = attempt parse refused platform.fetch endpoint options (prepare options) in
          IsAnswered refused platform endpoint options (release r.0, r.1))
  unfolding attempt release prepare
  attempt-IsAnswered (some m) platform endpoint options = (refl, refl, refl)
  attempt-IsAnswered none platform endpoint options =
      let sent = request_of endpoint options in
      let start = record (prepare options) { fetches = sent ∷ [] } in
      let settled = settle parse endpoint (platform.fetch sent) start in
      (
        settle-fetches endpoint (platform.fetch sent) start,
        release-IsExplained endpoint (platform.fetch sent) start settled.0 settled.1
            (settle-IsExplained endpoint (platform.fetch sent) start),
      )

  -- Headers that the platform refuses fail the call with the platform's error and nothing is sent.
  -- Otherwise one request is sent and its answer explains the result. Data come only from a response
  -- with a status from 200 to 299 that names application/json and passes the schema, and a
  -- validation error, with its number of issues, only from one that does not pass it. An error of the
  -- platform is the rejected fetch or the body that is no JSON; an error of the code tells a status
  -- out of that range, or a response that does not name that type. Neither the code's own errors nor
  -- the log hold the query of the address, and the timer and the listener are gone in every case.
  pub request_validated-IsExplained :
      (platform : Platform) (endpoint : Text) (options : Options)
      → (let r = request_validated parse platform endpoint options in
          (r.0.timer ≡ none)
          × (r.0.listener ≡ false)
          × IsAnswered (platform.headers_error options.headers) platform endpoint options r)
  unfolding request_validated release
  request_validated-IsExplained platform endpoint options = (
    refl,
    refl,
    attempt-IsAnswered (platform.headers_error options.headers) platform endpoint options,
  )
