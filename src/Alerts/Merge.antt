-- ===== src/Alerts/Merge.antt =====
-- appHelpers.jsx: `dedupeAndConsolidateAlertRows` and `mergeAlertStreamRows`.
pub mod Size
mod Tests
use kaims_latest.Prelude.{
  ℕ, zero, suc, ◌+◌, ◌≤◌, ◌≡◌, refl, sym, ◌∙◌, Bool, true, false, not, ◌&&◌, ◌||◌, List, [], ◌∷◌,
  ◌++◌, map, filter, Option, none, some, ltb, ◌==◌, length, length-append, if◌then◌else◌, arith,
  Bool-cases, inl, inr, Option-cases, count,
}
use kaims_latest.Js.Text.{Text, js, nonempty, text_eq, member, trim}
use kaims_latest.Js.Value.{
  Value, Fields, str, arr, obj, items, ◌!◌, ◌or◌, text_of, is_object, array_or_empty, spread, put,
  decimal,
}
use kaims_latest.Js.Order.{sort_desc, IsDescending, sort_desc-IsDescending, count-sort_desc}
use kaims_latest.Alerts.Channel.{normalize_alert_channel, alert_source_channels}
use kaims_latest.Alerts.Identity.{
  alert_time_ms, alert_identity_keys, alert_row_score, alert_application_candidate, sort_texts,
}
use kaims_latest.Alerts.Canonical.{is_landing}
use kaims_latest.Alerts.Mapping.{map_closed_incident_to_alert_stream_row}

pub record Group : Type 0 where
  pub row : Fields
  pub channels : List Text

-- `keyToGroup` holds positions in `groups`, since a group changes after it was entered.
pub record Grouping : Type 0 where
  pub key_to_group : List (Text × ℕ)
  pub groups : List Group

abbrev pub position_of : List (Text × ℕ) → Text → Option ℕ
position_of [] key = none
position_of ((k, i) ∷ m) key = if text_eq k key then some i else position_of m key

-- The loop that looks for the first key with a group.
unfoldable pub first_group : List (Text × ℕ) → List Text → Option ℕ
first_group m [] = none
first_group m (key ∷ keys) =
    let rest = first_group m keys in elim (position_of m key) [ some i ↦ some i | none ↦ rest ]

-- `lookupKeys.forEach((key) => keyToGroup.set(key, group))`
unfoldable pub register : ℕ → List Text → List (Text × ℕ) → List (Text × ℕ)
register i [] m = m
register i (key ∷ keys) m = register i keys ((key, i) ∷ m)

abbrev pub update_at : (Group → Group) → ℕ → List Group → List Group
update_at f i [] = []
update_at f zero (g ∷ gs) = f g ∷ gs
update_at f (suc i) (g ∷ gs) = g ∷ update_at f i gs

-- `channels.add(channel)`
abbrev pub add_channel : Text → List Text → List Text
add_channel c cs = if member c cs then cs else cs ++ c ∷ []

unfoldable pub open_group : Value → Text → Group
open_group row channel = record {
  row =
      put (js "source_channels") (arr (items (str channel ∷ [])))
        (put (js "source_channel") (str channel) (spread row));
  channels = channel ∷ [];
}

abbrev pub prefers_landing : Bool → Bool → Bool → Bool
prefers_landing existing incoming otherwise =
    if existing && not incoming then true else if not existing && incoming then false else otherwise

abbrev pub or_keys : List Text → Text → List Text
or_keys [] unique_key = unique_key ∷ []
or_keys (k ∷ ks) unique_key = k ∷ ks

abbrev pub is_accepted : List Text → Value → Bool
is_accepted channels row = is_object row && member (normalize_alert_channel row) channels

unfoldable pub group_row : Group → Value
group_row group = obj (
    put (js "source_channels") (arr (items (map (λ c. str c) (sort_texts group.channels))))
      group.row)

abbrev pub no_groups : Grouping
no_groups = record { key_to_group = []; groups = [] }

-- `random` gives the text of `Math.random()` in a round of the loop.
module _ (date : Text → Option ℕ) (random : ℕ → Text) where
  unfoldable pub should_replace : Bool → Value → Value → Bool
  should_replace prefer_latest_state row existing =
      let incoming_score = alert_row_score row in
      let existing_score = alert_row_score existing in
      let incoming_time = alert_time_ms date row in
      let existing_time = alert_time_ms date existing in
      if prefer_latest_state
      then ltb existing_time incoming_time
        || (incoming_time == existing_time && ltb existing_score incoming_score)
      else prefers_landing (is_landing existing) (is_landing row) (
          ltb existing_score incoming_score
          || (incoming_score == existing_score && ltb existing_time incoming_time))

  unfoldable pub join_group : Bool → Value → Text → Group → Group
  unfolding should_replace
  join_group prefer_latest_state row channel group =
      let prior = alert_application_candidate (obj group.row) in
      let incoming = alert_application_candidate row in
      let replaced = put (js "source_channel") (str channel) (spread row) in
      record {
        row =
            if should_replace prefer_latest_state row (obj group.row)
            then if not (nonempty (alert_application_candidate (obj replaced))) && nonempty prior
              then put (js "application") (str prior) replaced
              else replaced
            else if not (nonempty prior) && nonempty incoming
            then put (js "application") (str incoming) group.row
            else group.row;
        channels = add_channel channel group.channels;
      }

  -- A row of an allowed channel, with its keys and the group that they lead to.
  unfoldable pub place_row : Bool → Value → List Text → Option ℕ → Grouping → Grouping
  unfolding open_group join_group register
  place_row prefer_latest_state row keys none st = record {
    key_to_group = register (length st.groups) keys st.key_to_group;
    groups = st.groups ++ open_group row (normalize_alert_channel row) ∷ [];
  }
  place_row prefer_latest_state row keys (some i) st = record {
    key_to_group = register i keys st.key_to_group;
    groups =
        update_at (join_group prefer_latest_state row (normalize_alert_channel row)) i st.groups;
  }

  -- One round of the loop over the rows.
  unfoldable pub consolidate : Bool → List Text → ℕ → Value → Grouping → Grouping
  unfolding place_row first_group
  consolidate prefer_latest_state channels index row st =
      let unique_key = js "row:" ++ decimal (length st.groups) ++ js ":" ++ random index in
      let keys = or_keys (alert_identity_keys date row) unique_key in
      if not (is_accepted channels row)
      then st
      else place_row prefer_latest_state row keys (first_group st.key_to_group keys) st

  unfoldable pub consolidate_all : Bool → List Text → ℕ → List Value → Grouping → Grouping
  unfolding consolidate
  consolidate_all prefer_latest_state channels index [] st = st
  consolidate_all prefer_latest_state channels index (row ∷ rows) st =
      consolidate_all prefer_latest_state channels (suc index) rows
        (consolidate prefer_latest_state channels index row st)

  unfoldable pub dedupe_and_consolidate_alert_rows : Bool → List Text → Value → List Value
  unfolding consolidate_all group_row sort_desc
  dedupe_and_consolidate_alert_rows prefer_latest_state channels rows =
      sort_desc (alert_time_ms date) (
        map group_row
          (consolidate_all prefer_latest_state channels 0 (array_or_empty rows) no_groups).groups)

  -- `add` of `mergeAlertStreamRows`, with the keys seen.
  unfoldable pub add_rows : List Text → List Value → List Value
  add_rows seen [] = []
  add_rows seen (row ∷ rows) =
      let key = trim (text_of (row ! "alert_id" or row ! "id" or row ! "incident_id")) in
      let skipped = not (is_object row) || (nonempty key && member key seen) in
      let rest = add_rows (if not skipped && nonempty key then key ∷ seen else seen) rows in
      if skipped then rest else row ∷ rest

  unfoldable pub merge_alert_stream_rows : Value → Value → List Value
  unfolding add_rows dedupe_and_consolidate_alert_rows
  merge_alert_stream_rows open_rows recent_closed_rows =
      let closed =
        map map_closed_incident_to_alert_stream_row (array_or_empty recent_closed_rows) in
      dedupe_and_consolidate_alert_rows false alert_source_channels
        (arr (items (add_rows [] (array_or_empty open_rows ++ closed))))
