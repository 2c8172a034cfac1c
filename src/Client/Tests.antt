-- ===== src/Client/Tests.antt =====
-- Runs of the checked requests and of the late routes, and concrete instances of their properties.
use kaims_latest.Prelude.{ℕ, ◌≡◌, refl, true, false, List, [], ◌∷◌, none, some, arith}
use kaims_latest.Js.Text.{Text, js, text_eq, lower, lower_unit, includes, starts_with}
use kaims_latest.Js.Value.{Value, num, null, decimal, digits}
use kaims_latest.Client.Request.{
  platform_error, code_error, api_validation_error, ok, failed, json, Answer, response, Parsed,
  success, issues, Options, Sent, Platform, attempt, path_of, with_accept, prepare, request_of,
  release, is_json, settle, request_validated, get_validated, retry,
}
use kaims_latest.Client.Request.Checked.{IsAnswered, request_validated-IsExplained}
use kaims_latest.Client.Alerts.{
  safe_limit, rows_endpoint, landing_endpoint, fetch_alert_rows, fetch_landing_pad_rows,
  alert_rows_query_options, landing_pad_rows_query_options,
}
use kaims_latest.Client.Alerts.Keys.{urls}
use kaims_latest.Client.Lazy.{
  loaded, broken, thrown, returned, reloading, is_chunk_load_failure, load,
}
use kaims_latest.Client.Lazy.Reloads.{
  Load, success, reload, fresh_session, start, times, run_all, IsSpaced, run_all-IsSpaced, in_turn,
  run_all-shared_guard,
}

runs : Unit {0}
unfolding js text_eq lower lower_unit includes starts_with decimal digits path_of with_accept
    prepare request_of release is_json settle attempt request_validated get_validated retry
    safe_limit rows_endpoint landing_endpoint fetch_alert_rows fetch_landing_pad_rows
    alert_rows_query_options landing_pad_rows_query_options is_chunk_load_failure load
runs = tt

-- A schema that takes numbers.
abbrev numbers : Value → Parsed ℕ
numbers (num n) = success n
numbers _ = issues 1

abbrev plain : Options
plain = record { signal = none; timeout_ms = none; method = none; headers = []; body = none }

abbrev platform_of : (Sent → Answer) → Platform
platform_of fetch = record { headers_error = λ h. none; fetch = fetch }

abbrev answers : Value → Platform
answers v = platform_of (λ s. response 200 (some (js "Application/JSON; charset=utf-8")) (json v))

-- A browser that refuses the headers.
abbrev refuses : Platform
refuses = record {
  headers_error = λ h. some (js "TypeError");
  fetch = λ s. response 200 (some (js "application/json")) (json (num 5));
}

abbrev chunk_error : Text
chunk_error = js "Failed to fetch dynamically imported module"

request_tests :
    ((request_validated numbers (answers (num 5)) (js "/rows?limit=9") plain).1 ≡ ok 5)
    × ((request_validated numbers (answers null) (js "/rows?limit=9") plain).1
        ≡ failed (api_validation_error (js "/rows") 1))
    × ((request_validated numbers
          (platform_of (λ s. response 503 none (json null)))
          (js "/rows?limit=9")
          plain).1
        ≡ failed (code_error (js "Request failed (503) for /rows")))
    × ((request_validated numbers
          (platform_of (λ s. response 200 none (json null)))
          (js "/rows?limit=9")
          plain).1
        ≡ failed (code_error (js "Expected JSON from /rows")))
    × ((request_validated numbers refuses (js "/rows") plain).1
        ≡ failed (platform_error (js "TypeError")))
    × ((request_validated numbers refuses (js "/rows") plain).0.fetches ≡ [])
    × (retry 0 (platform_error (js "TimeoutError")) ≡ true)
    × (retry 1 (platform_error (js "TimeoutError")) ≡ false)
    × (retry 0 (api_validation_error (js "/rows") 1) ≡ false)
    × (urls (fetch_landing_pad_rows numbers (answers (num 5)) 900 none).0
        ≡ js "/api-gateway/landing-pad/recent?limit=300" ∷ [])
unfolding runs
request_tests = (refl, refl, refl, refl, refl, refl, refl, refl, refl, refl)

lazy_tests :
    ((load {M = ℕ} (broken chunk_error) (loaded 7) 1_000_000 fresh_session).1 ≡ returned 7)
    × ((load {M = ℕ} (broken chunk_error) (broken chunk_error) 1_000_000 fresh_session).1
        ≡ reloading)
    × ((load {M = ℕ} (broken (js "x is undefined")) (loaded 7) 1_000_000 fresh_session).1
        ≡ thrown (js "x is undefined"))
unfolding runs
lazy_tests = (refl, refl, refl)

request_validated-IsExplained_example :
    (let r = request_validated numbers (answers null) (js "/rows?limit=9") plain in
      (r.0.timer ≡ none)
      × (r.0.listener ≡ false)
      × IsAnswered numbers none (answers null) (js "/rows?limit=9") plain r)
request_validated-IsExplained_example =
    request_validated-IsExplained numbers (answers null) (js "/rows?limit=9") plain

-- Two failures in a row, a success and a third failure.
abbrev loads : List (Load ℕ)
loads =
    record { first = broken chunk_error; again = broken chunk_error; now = 1_000_000 }
    ∷ record { first = broken chunk_error; again = broken chunk_error; now = 1_030_000 }
    ∷ record { first = loaded 7; again = loaded 7; now = 1_031_000 }
    ∷ record { first = broken chunk_error; again = broken chunk_error; now = 1_032_000 }
    ∷ []

loads_tests : (run_all ℕ loads start).marks ≡ reload 1_032_000 ∷ success ∷ reload 1_000_000 ∷ []
unfolding runs
loads_tests = refl

run_all-IsSpaced_example :
    ((run_all ℕ loads start).session.reloads ≡ times (run_all ℕ loads start).marks)
    × IsSpaced (run_all ℕ loads start).marks
run_all-IsSpaced_example = run_all-IsSpaced ℕ loads (ground arith)

run_all-shared_guard_example :
    (run_all ℕ
      (in_turn chunk_error chunk_error 7 (1_000_000 ∷ 1_001_000 ∷ []))
      start).session.reloads
    ≡ 1_001_000 ∷ 1_000_000 ∷ []
unfolding runs
run_all-shared_guard_example =
    run_all-shared_guard {M = ℕ} chunk_error chunk_error 7 (1_000_000 ∷ 1_001_000 ∷ []) refl refl
