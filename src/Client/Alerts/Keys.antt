-- ===== src/Client/Alerts/Keys.antt =====
-- services/alerts.ts: a query key against the request that is made for it.
use kaims_latest.Prelude.{ℕ, ◌≤◌, ◌≡◌, ap, ◌∙◌, Bool, List, [], ◌∷◌, map, Option, none, some, arith}
use kaims_latest.Js.Text.{Text, js}
use kaims_latest.Js.Value.{Value}
use kaims_latest.Client.Request.{
  Parsed, Options, Sent, Platform, Held, Result, request_validated, get_validated, request_of,
}
use kaims_latest.Client.Request.Checked.{IsAnswered, request_validated-IsExplained}
use kaims_latest.Client.Alerts.{
  safe_limit, bearer, options_of, rows_endpoint, fetch_alert_rows, alert_rows_query_options,
}

abbrev pub urls : Held → List Text
urls held = map (λ (s : Sent). s.url) held.fetches

safe_limit_idempotent :
    (limit maximum : ℕ)
    → 1 ≤ maximum
    → safe_limit (safe_limit limit maximum) maximum ≡ safe_limit limit maximum
unfolding safe_limit
safe_limit_idempotent limit maximum h = omega arith

safe_limit_bounds :
    (limit maximum : ℕ)
    → 1 ≤ maximum
    → (1 ≤ safe_limit limit maximum) × (safe_limit limit maximum ≤ maximum)
unfolding safe_limit
safe_limit_bounds limit maximum h = omega arith

module _ {A : Type 0} (parse : Value → Parsed A) (platform : Platform) where
  answered-fetches :
      (refused : Option Text) (endpoint : Text) (options : Options) (r : Held × Result A)
      → refused ≡ none
      → IsAnswered parse refused platform endpoint options r
      → r.0.fetches ≡ request_of endpoint options ∷ []
  answered-fetches none endpoint options r e h = h.0
  answered-fetches (some m) endpoint options r e h = ground (arith, e)

  fetch_alert_rows-urls :
      (limit : ℕ) (signal : Option Bool) (token : Text)
      → platform.headers_error (bearer token) ≡ none
      → urls (fetch_alert_rows parse platform limit signal token).0
        ≡ rows_endpoint (safe_limit limit 200) ∷ []
  unfolding fetch_alert_rows get_validated request_of
  fetch_alert_rows-urls limit signal token fine =
      let endpoint = rows_endpoint (safe_limit limit 200) in
      let options = record (options_of signal (bearer token)) { method = some (js "GET") } in
      let h = request_validated-IsExplained parse platform endpoint options in
      ap (map (λ (s : Sent). s.url)) (
        answered-fetches (platform.headers_error (bearer token)) endpoint options
          (request_validated parse platform endpoint options) fine h.2)

  -- Whatever limit is asked for, the key of the query names a limit from 1 to 200, and where the
  -- platform takes the headers, the one request of the query asks for as many rows.
  alert_rows_query_options-limit :
      (limit : ℕ) (signal : Option Bool) (token : Text)
      → platform.headers_error (bearer token) ≡ none
      → (let options = alert_rows_query_options parse platform limit token in
          (1 ≤ options.0.limit)
          × (options.0.limit ≤ 200)
          × (urls (options.1 signal).0 ≡ rows_endpoint options.0.limit ∷ []))
  unfolding alert_rows_query_options
  alert_rows_query_options-limit limit signal token fine = (
    (safe_limit_bounds limit 200 (omega arith)).0,
    (safe_limit_bounds limit 200 (omega arith)).1,
    fetch_alert_rows-urls (safe_limit limit 200) signal token fine
        ∙ ap (λ n. rows_endpoint n ∷ []) (safe_limit_idempotent limit 200 (omega arith)),
  )
