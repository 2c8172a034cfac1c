-- ===== src/Client/Alerts.antt =====
-- services/alerts.ts and services/queryKeys.ts: the requests for alert rows, and their query keys.
-- A limit is a natural number, so `Math.trunc` leaves it alone.
pub mod Keys
use kaims_latest.Prelude.{
  ℕ, ◌+◌, ◌≤◌, ◌≡◌, ◌≢◌, refl, ap, Bool, true, false, List, [], ◌∷◌, ◌++◌, map, min, max, Option,
  none, some, if◌then◌else◌, arith,
}
use kaims_latest.Js.Text.{Text, js, nonempty}
use kaims_latest.Js.Value.{Value, decimal}
use kaims_latest.Client.Request.{
  Parsed, Options, Platform, Held, Result, get_validated, request_validated, request_of,
  with_accept,
}

unfoldable pub safe_limit : ℕ → ℕ → ℕ
safe_limit limit maximum = max 1 (min limit maximum)

abbrev pub bearer : Text → List (Text × Text)
bearer access_token =
    if nonempty access_token then (js "Authorization", js "Bearer " ++ access_token) ∷ [] else []

abbrev pub options_of : Option Bool → List (Text × Text) → Options
options_of signal headers = record {
  signal = signal;
  timeout_ms = some 15_000;
  method = none;
  headers = headers;
  body = none;
}

unfoldable pub rows_endpoint : ℕ → Text
unfolding js decimal
rows_endpoint limit = js "/api-gateway/alerts/all?limit=" ++ decimal limit ++ js "&compact=true"

unfoldable pub landing_endpoint : ℕ → Text
unfolding js decimal
landing_endpoint limit = js "/api-gateway/landing-pad/recent?limit=" ++ decimal limit

-- A query key: the texts and the limit of its parts.
pub record QueryKey : Type 0 where
  pub scope : List Text
  pub limit : ℕ
  pub audience : Option Text

module _ {ℓ} {A : Type ℓ} (parse : Value → Parsed A) (platform : Platform) where
  unfoldable pub fetch_alert_rows : ℕ → Option Bool → Text → Held × Result A
  unfolding safe_limit rows_endpoint get_validated
  fetch_alert_rows limit signal access_token =
      get_validated parse platform (rows_endpoint (safe_limit limit 200))
        (options_of signal (bearer access_token))

  unfoldable pub fetch_landing_pad_rows : ℕ → Option Bool → Held × Result A
  unfolding safe_limit landing_endpoint get_validated
  fetch_landing_pad_rows limit signal =
      get_validated parse platform (landing_endpoint (safe_limit limit 300)) (options_of signal [])

  -- The key of a query, and what it runs.
  unfoldable pub alert_rows_query_options : ℕ → Text → QueryKey × (Option Bool → Held × Result A)
  unfolding fetch_alert_rows safe_limit js
  alert_rows_query_options limit access_token =
      let normalized = safe_limit limit 200 in
      (
        record {
          scope = js "alerts" ∷ js "list" ∷ [];
          limit = normalized;
          audience = some (if nonempty access_token then js "authenticated" else js "public");
        },
        λ signal. fetch_alert_rows normalized signal access_token,
      )

  unfoldable pub landing_pad_rows_query_options : ℕ → QueryKey × (Option Bool → Held × Result A)
  unfolding fetch_landing_pad_rows safe_limit js
  landing_pad_rows_query_options limit =
      let normalized = safe_limit limit 300 in
      (
        record { scope = js "alerts" ∷ js "landing-pad" ∷ []; limit = normalized; audience = none },
        λ signal. fetch_landing_pad_rows normalized signal,
      )
