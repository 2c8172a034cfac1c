-- ===== src/Client/Request.antt =====
-- services/apiClient.ts: `requestValidated`, and app/queryClient.ts: when a query is sent again.
pub mod Checked
use kaims_latest.Prelude.{
  ℕ, zero, suc, ◌≤◌, ltb, leb, Bool, true, false, not, ◌&&◌, ◌||◌, List, [], ◌∷◌, ◌++◌, any, Option,
  none, some, ◌==◌, if◌then◌else◌,
}
use kaims_latest.Js.Text.{Text, js, nonempty, text_eq, lower, includes}
use kaims_latest.Js.Value.{Value, decimal}

-- An error of the platform (the network, an abort, a time-out, a body that is no JSON) with its
-- name, an error of the code, or an `ApiValidationError`.
pub data RequestError : Type 0 where
  platform_error : Text → RequestError
  code_error : Text → RequestError
  api_validation_error : Text → ℕ → RequestError

pub data Result {ℓ} (A : Type ℓ) : Type ℓ where
  ok : A → Result A
  failed : RequestError → Result A

pub data Body : Type 0 where
  bad_json : Text → Body
  json : Value → Body

pub data Answer : Type 0 where
  rejected : Text → Answer
  response : ℕ → Option Text → Body → Answer

-- `safeParse`: the data, or how many issues there are.
pub data Parsed {ℓ} (A : Type ℓ) : Type ℓ where
  success : A → Parsed A
  issues : ℕ → Parsed A

abbrev pub Headers : Type 0
Headers = List (Text × Text)

-- The options, with the caller's signal: none, or one that is aborted already or not.
pub record Options : Type 0 where
  pub signal : Option Bool
  pub timeout_ms : Option ℕ
  pub method : Option Text
  pub headers : Headers
  pub body : Option Text

pub record Sent : Type 0 where
  pub url : Text
  pub method : Text
  pub headers : Headers
  pub body : Option Text
  pub aborted : Bool

-- What the browser supplies: the error of `new Headers` on headers that it refuses, and `fetch`.
pub record Platform : Type 0 where
  pub headers_error : Headers → Option Text
  pub fetch : Sent → Answer

-- What the call holds on to and has done: the timer, the listener on the caller's signal, whether
-- its own signal is aborted, the fetches, and what was logged.
pub record Held : Type 0 where
  pub timer : Option ℕ
  pub listener : Bool
  pub aborted : Bool
  pub fetches : List Sent
  pub logged : List (Text × ℕ)

-- `endpoint.split("?", 1)[0]`
unfoldable pub path_of : Text → Text
path_of [] = []
path_of (c ∷ t) = let rest = path_of t in if c == b'?' then [] else c ∷ rest

abbrev pub option_or {ℓ} : {A : Type ℓ} → Option A → A → A
option_or none a = a
option_or (some b) a = b

-- `new Headers(options.headers)` with a default `Accept`; names are compared without their case.
unfoldable pub with_accept : Headers → Headers
unfolding text_eq lower js
with_accept headers =
    if any (λ (h : Text × Text). text_eq (lower h.0) (js "accept")) headers
    then headers
    else headers ++ (js "Accept", js "application/json") ∷ []

abbrev pub starts_aborted : Options → Bool
starts_aborted options = option_or options.signal false

-- The timer and the listener are set before the request.
unfoldable pub prepare : Options → Held
prepare options = record {
  timer = some (option_or options.timeout_ms 7_000);
  listener = not (starts_aborted options) && elim options.signal [ none ↦ false | some s ↦ true ];
  aborted = starts_aborted options;
  fetches = [];
  logged = [];
}

unfoldable pub request_of : Text → Options → Sent
unfolding with_accept js
request_of endpoint options = record {
  url = endpoint;
  method = option_or options.method (js "GET");
  headers = with_accept options.headers;
  body = options.body;
  aborted = starts_aborted options;
}

-- `finally`
unfoldable pub release : Held → Held
release held = record held { timer = none; listener = false }

abbrev pub is_ok : ℕ → Bool
is_ok status = leb 200 status && leb status 299

unfoldable pub is_json : Option Text → Bool
unfolding includes lower js
is_json content_type = includes (lower (option_or content_type [])) (js "application/json")

module _ {ℓ} {A : Type ℓ} (parse : Value → Parsed A) where
  abbrev pub validate : Text → Parsed A → Held → Held × Result A
  validate endpoint (success found) held = (held, ok found)
  validate endpoint (issues n) held = (
    record held { logged = held.logged ++ (path_of endpoint, n) ∷ [] },
    failed (api_validation_error (path_of endpoint) n),
  )

  abbrev pub read_body : Text → Body → Held → Held × Result A
  read_body endpoint (bad_json m) held = (held, failed (platform_error m))
  read_body endpoint (json v) held = validate endpoint (parse v) held

  -- What follows the fetch, inside `try`.
  unfoldable pub settle : Text → Answer → Held → Held × Result A
  unfolding path_of is_json decimal js
  settle endpoint (rejected m) held = (held, failed (platform_error m))
  settle endpoint (response status content_type body) held =
      if not (is_ok status)
      then (
        held,
        failed (
            code_error
              (js "Request failed (" ++ decimal status ++ js ") for " ++ path_of endpoint)),
      )
      else if not (is_json content_type)
      then (held, failed (code_error (js "Expected JSON from " ++ path_of endpoint)))
      else read_body endpoint body held

  -- The whole of `try`, by the error of the headers.
  unfoldable pub attempt : Option Text → (Sent → Answer) → Text → Options → Held → Held × Result A
  unfolding request_of settle
  attempt (some m) fetch endpoint options held = (held, failed (platform_error m))
  attempt none fetch endpoint options held =
      let sent = request_of endpoint options in
      settle endpoint (fetch sent) (record held { fetches = sent ∷ [] })

  unfoldable pub request_validated : Platform → Text → Options → Held × Result A
  unfolding prepare attempt release
  request_validated platform endpoint options =
      let refused = platform.headers_error options.headers in
      let (held, result) = attempt refused platform.fetch endpoint options (prepare options) in
      (release held, result)

  unfoldable pub get_validated : Platform → Text → Options → Held × Result A
  unfolding request_validated js
  get_validated platform endpoint options =
      request_validated platform endpoint (record options { method = some (js "GET") })

-- `retry` of the query client: whether a query that failed `failure_count` times before is sent
-- again after an error.
unfoldable pub retry : ℕ → RequestError → Bool
retry failure_count (api_validation_error path n) = false
retry failure_count _ = ltb failure_count 1
