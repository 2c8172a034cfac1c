-- ===== src/Alerts/Limits.antt =====
-- appHelpers.jsx: `capLatestAlertsPerSource` and `ensureMinimumAlertsBySource`.
pub mod Rounds
pub mod Quota
pub mod Minimum
pub mod Visible
use kaims_latest.Prelude.{
  ℕ, Option, suc, ◌+◌, max, Bool, true, false, not, ◌&&◌, ◌||◌, List, [], ◌∷◌, ◌++◌, map, any,
  count, filter, leb, ◌==◌, if◌then◌else◌,
}
use kaims_latest.Js.Text.{Text, js, nonempty, text_eq, member, trim, lower}
use kaims_latest.Js.Value.{Value, str, ◌!◌, ◌or◌, object_or_empty, text_of, array_or_empty}
use kaims_latest.Js.Order.{sort_desc}
use kaims_latest.Alerts.Scope.{token_of}
use kaims_latest.Alerts.Channel.{normalize_alert_channel, alert_source_channels}
use kaims_latest.Alerts.Identity.{alert_time_ms}

abbrev pub max_latest_alerts_per_source : ℕ
max_latest_alerts_per_source = 30

-- `Math.max(1, Number(maxPerSource) || MAX_LATEST_ALERTS_PER_SOURCE)` at a natural number.
abbrev pub safe_max : ℕ → ℕ
safe_max n = max 1 (if n == 0 then max_latest_alerts_per_source else n)

-- `set.has(index)`
abbrev pub has_index : List ℕ → ℕ → Bool
has_index [] i = false
has_index (j ∷ js) i = j == i || has_index js i

-- The three collections that the two loops share; `counters` and `identities` are keyed by channel.
pub record CapState : Type 0 where
  pub selected : List ℕ
  pub counters : Text → ℕ
  pub identities : Text → List Text

-- `counters[channel] += 1`
abbrev pub bump : Text → (Text → ℕ) → Text → ℕ
bump channel counters c = if text_eq c channel then counters c + 1 else counters c

-- `identities[channel].add(identity)`
abbrev pub add_identity : Text → Text → (Text → List Text) → Text → List Text
add_identity channel identity identities c =
    if text_eq c channel then identity ∷ identities c else identities c

unfoldable pub cap_identity : Value → Text
cap_identity row =
    let labels = object_or_empty (row ! "labels") in
    let service = lower (
      trim (
        text_of (
          row ! "service"
          or labels ! "service"
          or labels ! "job"
          or str (js "unknown-service")))) in
    let name = lower (
      trim (
        text_of (
          row ! "name"
          or row ! "alert_name"
          or labels ! "alertname"
          or str (js "unnamed-alert")))) in
    service ++ js ":" ++ name

-- One round of the first loop: the newest row of each identity takes a slot.
unfoldable pub reserve : ℕ → Value → ℕ → CapState → CapState
reserve limit row index st =
    let channel = normalize_alert_channel row in
    let identity = cap_identity row in
    if not (member channel alert_source_channels) || leb limit (st.counters channel)
    then st
    else if member identity (st.identities channel)
    then st
    else record {
      selected = index ∷ st.selected;
      counters = bump channel st.counters;
      identities = add_identity channel identity st.identities;
    }

-- One round of the second loop: what room is left goes to repeated occurrences.
unfoldable pub fill : ℕ → Value → ℕ → CapState → CapState
fill limit row index st =
    let channel = normalize_alert_channel row in
    if has_index st.selected index
      || not (member channel alert_source_channels)
      || leb limit (st.counters channel)
    then st
    else record {
      selected = index ∷ st.selected;
      counters = bump channel st.counters;
      identities = st.identities;
    }

-- `sortedRows.forEach((row, index) => ...)`
unfoldable pub reserve_all : ℕ → List Value → ℕ → CapState → CapState
unfolding reserve
reserve_all limit [] index st = st
reserve_all limit (row ∷ rows) index st =
    reserve_all limit rows (suc index) (reserve limit row index st)

unfoldable pub fill_all : ℕ → List Value → ℕ → CapState → CapState
unfolding fill
fill_all limit [] index st = st
fill_all limit (row ∷ rows) index st = fill_all limit rows (suc index) (fill limit row index st)

-- `sortedRows.filter((_row, index) => selected.has(index))`
unfoldable pub keep_selected : List ℕ → List Value → ℕ → List Value
keep_selected selected [] index = []
keep_selected selected (row ∷ rows) index =
    let rest = keep_selected selected rows (suc index) in
    if has_index selected index then row ∷ rest else rest

abbrev pub no_slots : CapState
no_slots = record { selected = []; counters = λ c. 0; identities = λ c. [] }

-- The state after both loops, over the sorted rows.
unfoldable pub cap_state : ℕ → List Value → CapState
unfolding reserve_all fill_all
cap_state limit rows = fill_all limit rows 0 (reserve_all limit rows 0 no_slots)

abbrev pub Minimums : Type 0
Minimums = List (Text × ℕ)

abbrev pub min_visible_alerts_by_source : Minimums
min_visible_alerts_by_source =
    (js "prometheus", 2)
    ∷ (js "telemetry", 2)
    ∷ (js "email", 2)
    ∷ (js "ticket", 2)
    ∷ (js "log", 2)
    ∷ []

-- `Number(minimums[channel] || 0)`
abbrev pub required_of : Minimums → Text → ℕ
required_of [] c = 0
required_of ((k, n) ∷ m) c = if text_eq k c then n else required_of m c

unfoldable pub stream_identity : Value → Text
stream_identity row = text_of (
    row ! "alert_id"
    or row ! "id"
    or row ! "event_id"
    or row ! "file"
    or str (
        normalize_alert_channel row
        ++ js ":"
        ++ text_of (row ! "name")
        ++ js ":"
        ++ text_of (row ! "created_at" or row ! "received_at")))

abbrev pub has_channel : Text → Value → Bool
has_channel c row = text_eq (normalize_alert_channel row) c

pub record TopUp : Type 0 where
  pub selected : List Value
  pub seen : List Text
  pub counts : Text → ℕ

-- One round of `for (const row of candidates)`.
unfoldable pub top_up : Minimums → Value → TopUp → TopUp
top_up minimums row st =
    let channel = normalize_alert_channel row in
    let required = required_of minimums channel in
    let identity = stream_identity row in
    if required == 0 || leb required (st.counts channel)
    then st
    else if member identity st.seen
    then st
    else record {
      selected = st.selected ++ row ∷ [];
      seen = identity ∷ st.seen;
      counts = bump channel st.counts;
    }

unfoldable pub top_up_all : Minimums → List Value → TopUp → TopUp
unfolding top_up
top_up_all minimums [] st = st
top_up_all minimums (row ∷ rows) st = top_up_all minimums rows (top_up minimums row st)

-- The sets and counts that the loop starts from.
abbrev pub shown : List Value → TopUp
shown rows = record {
  selected = rows;
  seen = map stream_identity rows;
  counts = λ c. count (has_channel c) rows;
}

module _ (date : Text → Option ℕ) where
  unfoldable pub cap_latest_alerts_per_source : Value → ℕ → List Value
  unfolding cap_state keep_selected sort_desc
  cap_latest_alerts_per_source rows max_per_source =
      let sorted_rows = sort_desc (alert_time_ms date) (array_or_empty rows) in
      let selected = (cap_state (safe_max max_per_source) sorted_rows).selected in
      keep_selected selected sorted_rows 0

  unfoldable pub ensure_minimum_alerts_by_source : Value → Value → Minimums → List Value
  unfolding top_up_all sort_desc
  ensure_minimum_alerts_by_source rows source_rows minimums =
      let candidates = sort_desc (alert_time_ms date) (array_or_empty source_rows) in
      sort_desc (alert_time_ms date)
        (top_up_all minimums candidates (shown (array_or_empty rows))).selected
