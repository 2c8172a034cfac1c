-- ===== src/Fetch.antt =====
-- appHelpers.jsx: `fallbackFetchTargets` and `fetchJsonNetwork`.
pub mod Bounds
pub mod Result
pub mod Retry
pub mod Refusals
pub mod Expiry
pub mod Targets
mod Tests
use kaims_latest.Prelude.{
  ℕ, zero, suc, ◌+◌, ◌-◌, ◌*◌, ◌≤◌, min, max, Bool, true, false, not, ◌&&◌, ◌||◌, List, [], ◌∷◌,
  ◌++◌, Option, none, some, length, ltb, leb, ◌==◌, if◌then◌else◌,
}
use kaims_latest.Js.Text.{Text, js, nonempty, trim, starts_with, ends_with, slice, text_eq, unique}
use kaims_latest.Js.Value.{Value, text_of, decimal}

abbrev pub processed_result_prefix : Text
processed_result_prefix = js "/monitoring-adapter/alerts/"

abbrev pub processed_result_suffix : Text
processed_result_suffix = js "/processed-result"

unfoldable pub fallback_fetch_targets : Value → List Text
fallback_fetch_targets path =
    let normalized = trim (text_of path) in
    let alert_id =
      slice (length processed_result_prefix) (length normalized - length processed_result_suffix)
        normalized in
    if not (nonempty normalized)
    then []
    else if starts_with normalized processed_result_prefix
        && ends_with normalized processed_result_suffix
        && nonempty alert_id
    then unique
        (normalized ∷ (js "/api-gateway/alerts/" ++ alert_id ++ js "/processed-result") ∷ [])
    else unique (normalized ∷ [])

-- What one call of the browser's `fetch` does: it rejects with a message, or a response arrives.
-- `json` is what `response.json()` gives, `none` where it throws.
pub data Reply : Type 0 where
  rejected : Text → Reply
  response : (status : ℕ) → (text : Text) → (json : Option Value) → Reply

-- What the `onUnauthorized` callback does: it returns headers or no object, or it throws.
pub data Refresh : Type 0 where
  headers no_headers : Refresh
  throws : Text → Refresh

-- `response.ok`
abbrev pub is_ok : ℕ → Bool
is_ok status = leb 200 status && leb status 299

pub record Options : Type 0 where
  -- `Number(options?.maxAttempts)`, `none` where that is NaN
  pub max_attempts_raw : Option ℕ
  pub authenticated : Bool
  -- `none` where `onUnauthorized` is no function
  pub on_unauthorized : Option Refresh

unfoldable pub max_attempts_of : Option ℕ → ℕ
max_attempts_of none = 3
max_attempts_of (some n) = if leb 1 n then min (max n 1) 4 else 3

-- The variables that live across the attempts, with the calls made and the milliseconds waited.
pub record Progress : Type 0 where
  pub calls : ℕ
  pub waited : ℕ
  pub refreshed : Bool
  pub refresh_attempted : Bool
  pub last_error : Option Text

abbrev pub start : Progress
start = record {
  calls = 0;
  waited = 0;
  refreshed = false;
  refresh_attempted = false;
  last_error = none;
}

-- How the code of one target ends: with a value or an error for the caller, with a `break` out of
-- the targets, or with an error that `catch` keeps.
pub data Ending : Type 0 where
  returned : Value → Ending
  thrown : Text → Ending
  left_targets : Ending
  caught : Text → Ending

pub data Outcome : Type 0 where
  value : Value → Outcome
  error : Text → Outcome

-- How an attempt ends: for good, or in the next attempt.
pub data Round : Type 0 where
  finished : Outcome → Progress → Round
  unfinished : Progress → Round

pub data Step : Type 0 where
  leaves : Round → Step
  next_target : Progress → Step

abbrev pub proceed : Step → (Progress → Round) → Round
proceed (leaves round) rest = round
proceed (next_target p) rest = rest p

abbrev pub resume : Round → (Progress → Outcome × Progress) → Outcome × Progress
resume (finished outcome p) rest = (outcome, p)
resume (unfinished p) rest = rest p

abbrev pub is_empty : List Text → Bool
is_empty [] = true
is_empty (t ∷ ts) = false

-- What parsing the payload of a good response does: a value, or an error's message.
pub data Parsed : Type 0 where
  parsed : Value → Parsed
  invalid : Text → Parsed

abbrev pub session_expired : Text
session_expired = js "Session expired. Please sign in again."

-- `n`-th call, target, and whether it carries refreshed headers.
abbrev pub Server : Type 0
Server = ℕ → Text → Bool → Reply

-- What the code relies on: the network, the messages of the errors that the platform throws where a
-- body is read twice and where a body is no JSON, and the schema check of schemas/apiContracts.ts.
pub record Host : Type 0 where
  pub server : Server
  pub body_used : Text
  pub bad_json : Text
  pub parse_internal : Text → Value → Parsed

-- `lastError = message === "Failed to fetch" ? new Error(...) : error`
unfoldable pub explain : Text → Text → Text
explain request_target m =
    if text_eq m (js "Failed to fetch")
    then js "Failed to reach "
      ++ request_target
      ++ js
          ". Open the UI through http://localhost:8501 with Docker/nginx running, or use the Vite proxy with api-gateway on http://localhost:8010."
    else m

-- `throw lastError || new Error("request failed")`
abbrev pub give_up : Option Text → Outcome
give_up none = error (js "request failed")
give_up (some m) = error m

abbrev pub first_or : Text → List Text → Text
first_or d [] = d
first_or d (t ∷ ts) = t

module _ (host : Host) (options : Options) where
  abbrev pub max_attempts : ℕ
  max_attempts = max_attempts_of options.max_attempts_raw

  abbrev pub call : Progress → Progress
  call p = record p { calls = p.calls + 1 }

  abbrev pub wait : ℕ → Progress → Progress
  wait attempt p = record p { waited = p.waited + attempt * 500 }

  -- `const payload = await response.json(); return parseInternalApiResponse(...)`
  unfoldable pub read_payload : Text → Option Value → Ending
  read_payload target none = caught host.bad_json
  read_payload target (some json) = elim (host.parse_internal target json) [
    | parsed v ↦ returned v
    | invalid m ↦ caught m
  ]

  -- The code behind `clearTimeout`: `used` tells that the body was read for the callback.
  unfoldable pub settle : ℕ → Text → Bool → Reply → Progress → Ending × Progress
  unfolding read_payload
  settle attempt target used (rejected m) p = (caught m, p)
  settle attempt target used (response status text json) p =
      if is_ok status
      then (read_payload target json, p)
      else if used
      then (caught host.body_used, p)
      else if status == 401 && options.authenticated
      then (thrown session_expired, p)
      else if leb 500 status && ltb attempt max_attempts
      then (left_targets, wait attempt p)
      else (
        caught (
            js "HTTP "
            ++ decimal status
            ++ js ": "
            ++ (if nonempty text then text else js "request failed")),
        p,
      )

  -- A 401 that may be refreshed; the callback reads the body of the response.
  unfoldable pub refresh : ℕ → Text → Refresh → Reply → Progress → Ending × Progress
  unfolding settle
  refresh attempt target headers reply p =
      settle attempt target false (host.server p.calls target true)
        (call (record p { refreshed = true; refresh_attempted = true }))
  refresh attempt target no_headers reply p =
      settle attempt target true reply (record p { refresh_attempted = true })
  refresh attempt target (throws m) reply p = (caught m, record p { refresh_attempted = true })

  unfoldable pub may_refresh : Reply → Progress → Bool
  may_refresh (rejected m) p = false
  may_refresh (response status text json) p =
      status == 401 && options.authenticated && not p.refresh_attempted

  unfoldable pub respond : ℕ → Text → Option Refresh → Reply → Progress → Ending × Progress
  unfolding settle refresh may_refresh
  respond attempt target none reply p = settle attempt target false reply p
  respond attempt target (some callback) reply p =
      if may_refresh reply p
      then refresh attempt target callback reply p
      else settle attempt target false reply p

  -- The `try` block for one target.
  unfoldable pub try_target : ℕ → Text → Progress → Ending × Progress
  unfolding respond
  try_target attempt target p =
      respond attempt target options.on_unauthorized (host.server p.calls target p.refreshed)
        (call p)

  -- What follows the code of a target, `catch` included; `last` tells that no target is left. An
  -- error with the message of an expired session goes to the caller wherever it comes from.
  unfoldable pub after_target : Text → ℕ → Bool → Ending × Progress → Step
  unfolding explain
  after_target request_target attempt last (returned v, p) = leaves (finished (value v) p)
  after_target request_target attempt last (thrown m, p) = leaves (finished (error m) p)
  after_target request_target attempt last (left_targets, p) = leaves (unfinished p)
  after_target request_target attempt last (caught m, p) =
      let noted = record p { last_error = some (explain request_target m) } in
      if text_eq m session_expired
      then leaves (finished (error m) p)
      else if not last
      then next_target noted
      else leaves (unfinished (if ltb attempt max_attempts then wait attempt noted else noted))

  -- The loop over the targets.
  unfoldable pub run_targets : Text → ℕ → List Text → Progress → Round
  unfolding try_target after_target
  run_targets request_target attempt [] p = unfinished p
  run_targets request_target attempt (target ∷ targets) p =
      proceed (after_target request_target attempt (is_empty targets) (try_target attempt target p))
        (λ p'. run_targets request_target attempt targets p')

  -- The attempts that are left, from the number of the next one.
  unfoldable pub run_attempts : Text → List Text → ℕ → ℕ → Progress → Outcome × Progress
  unfolding run_targets
  run_attempts request_target targets zero attempt p = (give_up p.last_error, p)
  run_attempts request_target targets (suc left) attempt p =
      resume (run_targets request_target attempt targets p)
        (λ p'. run_attempts request_target targets left (suc attempt) p')

  unfoldable pub fetch_json_network : Value → Outcome × Progress
  unfolding run_attempts
  fetch_json_network path =
      let targets = fallback_fetch_targets path in
      run_attempts (first_or (text_of path) targets) targets max_attempts 1 start
