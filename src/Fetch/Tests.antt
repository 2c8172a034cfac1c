-- ===== src/Fetch/Tests.antt =====
-- Runs of the request helper, and concrete instances of its properties.
use kaims_latest.Prelude.{
  ℕ, ◌≡◌, ◌≢◌, ◌≤◌, ◌+◌, ◌*◌, refl, true, false, [], ◌∷◌, none, some, arith, if◌then◌else◌, ◌==◌,
  length, inl, ◌<◌,
}
use kaims_latest.Js.Text.{
  Text, js, trim, trim_start, trim_end, is_space, starts_with, ends_with, slice, text_eq, unique,
  unique_from, member,
}
use kaims_latest.Js.Value.{Value, str, null, text_of, decimal}
use kaims_latest.Js.Text.Equality.{text_eq_iff}
use kaims_latest.Fetch.{
  response, Options, Progress, Host, value, error, parsed, no_headers, fetch_json_network,
  fallback_fetch_targets, max_attempts_of, session_expired, explain, settle, respond, refresh,
  may_refresh, try_target, after_target, run_targets, run_attempts, read_payload,
}
use kaims_latest.Fetch.Bounds.{fetch_json_network-calls}
use kaims_latest.Fetch.Result.{Delivered, fetch_json_network-Delivered}
use kaims_latest.Fetch.Retry.{Recovers, http_error, fetch_json_network-Recovers}
use kaims_latest.Fetch.Refusals.{Refuses, fetch_json_network-refused}
use kaims_latest.Fetch.Expiry.{fetch_json_network-expired, fetch_json_network-body_used}
use kaims_latest.Fetch.Targets.{processed_path}

requests : Unit {0}
unfolding js trim trim_start trim_end is_space starts_with ends_with slice text_eq unique
    unique_from member text_of decimal fetch_json_network fallback_fetch_targets max_attempts_of
    explain settle respond refresh may_refresh try_target after_target run_targets run_attempts
    read_payload
requests = tt

-- A server that is out of order for its first two calls.
abbrev recovering : Host
recovering = record {
  server = λ n target refreshed.
      if n == 0
      then response 503 [] none
      else if n == 1
      then response 500 [] none
      else response 200 [] (some null);
  body_used = js "body stream already read";
  bad_json = js "Unexpected end of JSON input";
  parse_internal = λ target v. parsed v;
}

abbrev refusing : ℕ → Host
refusing status = record {
  server = λ n target refreshed. response status (js "no") none;
  body_used = js "body stream already read";
  bad_json = js "Unexpected end of JSON input";
  parse_internal = λ target v. parsed v;
}

abbrev plain : Options
plain = record { max_attempts_raw = none; authenticated = true; on_unauthorized = none }

abbrev once : Options
once = record { max_attempts_raw = some 1; authenticated = true; on_unauthorized = some no_headers }

abbrev health : Value
health = str (js " /api-gateway/health ")

abbrev processed : Value
processed = str (js "/monitoring-adapter/alerts/a1/processed-result")

fetch_tests :
    ((fetch_json_network recovering plain health).0 ≡ value null)
    × ((fetch_json_network recovering plain health).1.waited ≡ 1500)
    × ((fetch_json_network (refusing 404) plain processed).0 ≡ error (js "HTTP 404: no"))
    × ((fetch_json_network (refusing 404) plain processed).1.calls ≡ 6)
    × ((fetch_json_network (refusing 401) plain health).0 ≡ error session_expired)
    × ((fetch_json_network (refusing 401) once health).0 ≡ error (js "body stream already read"))
unfolding requests
fetch_tests = (refl, refl, refl, refl, refl, refl)

health_targets : fallback_fetch_targets health ≡ js "/api-gateway/health" ∷ []
unfolding requests
health_targets = refl

health_given : fallback_fetch_targets health ≢ []
health_given e = ground (arith, health_targets, e)

fetch_json_network-calls_example :
    ((fetch_json_network recovering plain health).1.calls
      ≤ max_attempts_of plain.max_attempts_raw * length (fallback_fetch_targets health) + 1)
    × ((fetch_json_network recovering plain health).1.calls ≤ 9)
fetch_json_network-calls_example = fetch_json_network-calls recovering plain health

recovering_value : (fetch_json_network recovering plain health).0 ≡ value null
unfolding requests
recovering_value = refl

fetch_json_network-Delivered_example : Delivered recovering null
fetch_json_network-Delivered_example =
    fetch_json_network-Delivered recovering plain health null recovering_value

recovering-Recovers : Recovers recovering 2 null
recovering-Recovers = record {
  bad = λ k. if k == 0 then 503 else 500;
  bad_text = λ k. [];
  bad_json = λ k. none;
  good = 200;
  text = [];
  json = null;
  fails = λ k target b h. ground arith;
  fatal = λ k. ground arith;
  works = λ target b. refl;
  succeeds = refl;
  accepts = λ target. refl;
}

two_in_limit : 2 < max_attempts_of plain.max_attempts_raw
unfolding max_attempts_of
two_in_limit = omega arith

fetch_json_network-Recovers_example :
    (q : Progress) × (fetch_json_network recovering plain health ≡ (value null, q)) × (q.calls ≡ 3)
fetch_json_network-Recovers_example =
    fetch_json_network-Recovers recovering plain health null 2 recovering-Recovers two_in_limit
      health_given

refusing-Refuses : (s : ℕ) → Refuses (refusing s) s (js "no")
refusing-Refuses s = record { body = none; replies = λ k target b. refl }

fetch_json_network-refused_example :
    (q : Progress) × (fetch_json_network (refusing 404) plain health
      ≡ (error (http_error 404 (js "no")), q))
    × (q.calls ≡ max_attempts_of plain.max_attempts_raw * length (fallback_fetch_targets health))
fetch_json_network-refused_example =
    fetch_json_network-refused (refusing 404) plain health 404 (js "no") (omega arith) (omega arith)
      (omega arith) (refusing-Refuses 404) health_given

ne_of_text_eq : (s t : Text) → text_eq s t ≡ false → s ≢ t
ne_of_text_eq s t h e = ground (arith, h, e, text_eq_iff s t)

body_used-ne_expired : js "body stream already read" ≢ session_expired
unfolding js text_eq
body_used-ne_expired e = ne_of_text_eq (js "body stream already read") session_expired refl e

fetch_json_network-body_used_example :
    (fetch_json_network (refusing 401) once health).0
    ≡ error (explain (js "/api-gateway/health") (js "body stream already read"))
fetch_json_network-body_used_example =
    fetch_json_network-body_used (refusing 401) once refl (js "no") (refusing-Refuses 401) health
      (js "/api-gateway/health") health_targets refl refl body_used-ne_expired

fetch_json_network-expired_example :
    (q : Progress) × (fetch_json_network (refusing 401) plain health ≡ (error session_expired, q))
    × (q.calls ≤ 2)
fetch_json_network-expired_example =
    fetch_json_network-expired (refusing 401) plain refl (js "no") (refusing-Refuses 401) health
      health_given (inl refl)

id_given : js "a1" ≢ []
unfolding js
id_given e = ground (arith, e)

processed-trim : trim (text_of processed) ≡ processed_path (js "a1")
unfolding requests
processed-trim = refl
