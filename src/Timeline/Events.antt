-- ===== src/Timeline/Events.antt =====
-- appHelpers.jsx: what the timeline shows of a workflow event.
use kaims_latest.Prelude.{
  ◌≡◌, ◌⊎◌, refl, Bool, true, false, not, ◌&&◌, ◌||◌, List, [], ◌∷◌, ◌++◌, Option, none, some,
  if◌then◌else◌, arith, Bool-cases, inl, inr,
}
use kaims_latest.Js.Text.{Text, js, nonempty, trim, includes, text_eq}
use kaims_latest.Js.Value.{Value, undefined, null, str, ◌!◌, text_of, to_text, is_object}
use kaims_latest.Js.Regex.{some_of, replace, is_lower, is_digit}
use kaims_latest.Status.{normalize_approval_status, is_failure_status}
use kaims_latest.Timeline.Rows.{has_meaningful_value, first_meaningful, mentions}

unfoldable pub status_pill_class : Value → Text
status_pill_class value =
    let token = normalize_approval_status value in
    let normalized = replace (some_of (λ c. not (is_lower c || is_digit c))) (js "_") token in
    if not (nonempty token)
    then js "status-open"
    else if includes token (js "approved")
    then js "status-approved"
    else if includes token (js "rejected")
    then js "status-rejected"
    else if mentions token (js "closed" ∷ js "resolved" ∷ [])
    then js "status-closed"
    else if mentions token (js "failed" ∷ js "error" ∷ js "blocked" ∷ js "denied" ∷ [])
    then js "status-failed"
    else if nonempty normalized
    then js "status-" ++ normalized
    else js "status-open"

abbrev string_or : Value → Text → Text
string_or (str s) t = s
string_or _ t = t

-- `value === undefined`
abbrev is_undefined : Value → Bool
is_undefined undefined = true
is_undefined _ = false

-- `typeof event.payload === "object" && event.payload ? event.payload : null`
abbrev pub payload_of : Value → Value
payload_of event = if is_object (event ! "payload") then event ! "payload" else null

unfoldable pub extract_event_input : Value → Value
extract_event_input event =
    let payload = payload_of event in
    let hit = first_meaningful (
      event ! "input_value"
      ∷ event ! "input"
      ∷ event ! "input_payload"
      ∷ event ! "request"
      ∷ event ! "context"
      ∷ event ! "source_payload"
      ∷ payload ! "input"
      ∷ payload ! "request"
      ∷ payload ! "context"
      ∷ []) in
    if not (is_object event) then null else if is_undefined hit then null else hit

-- Whether a text is only the name of the event's type.
abbrev repeats_type : Value → Text → Bool
repeats_type (str s) event_type = nonempty event_type && text_eq (trim s) event_type
repeats_type _ event_type = false

unfoldable pub extract_event_output : Value → Value
extract_event_output event =
    let payload = payload_of event in
    let hit = first_meaningful (
      event ! "output_value"
      ∷ event ! "output"
      ∷ event ! "result"
      ∷ payload
      ∷ event ! "response"
      ∷ event ! "recommendation"
      ∷ event ! "decision"
      ∷ []) in
    let event_type = trim (text_of (event ! "event_type")) in
    if not (is_object event)
    then null
    else if not (has_meaningful_value hit)
    then null
    else if repeats_type hit event_type && has_meaningful_value payload
    then payload
    else hit

-- `stringify` is `JSON.stringify(value, null, 2)`, with `none` where that throws.
module _ (stringify : Value → Option Text) where
  abbrev text_or : Option Text → Text → Text
  text_or none t = t
  text_or (some s) t = s

  unfoldable pub stringify_timeline_value : Value → Text
  stringify_timeline_value value =
      if not (has_meaningful_value value)
      then []
      else string_or value (text_or (stringify value) (to_text value))

  unfoldable pub extract_event_error : Value → Text
  unfolding stringify_timeline_value
  extract_event_error event =
      let status = trim (text_of (event ! "status")) in
      let hit = first_meaningful (
        event ! "error"
        ∷ event ! "errors"
        ∷ event ! "exception"
        ∷ event ! "failure"
        ∷ event ! "failure_reason"
        ∷ event ! "error_message"
        ∷ event ! "detail"
        ∷ event ! "message"
        ∷ []) in
      let reason = stringify_timeline_value (event ! "policy_reason") in
      if not (is_object event)
      then []
      else if not (is_undefined hit)
      then stringify_timeline_value hit
      else if is_failure_status (str status)
      then (if nonempty reason then reason else js "Status: " ++ status)
      else []

abbrev pub IsShown : Value → Type 0
IsShown v = (v ≡ null) ⊎ (has_meaningful_value v ≡ true)

first_meaningful-cases :
    (vs : List Value)
    → (first_meaningful vs ≡ undefined) ⊎ (has_meaningful_value (first_meaningful vs) ≡ true)
unfolding first_meaningful
first_meaningful-cases [] = inl refl
first_meaningful-cases (v ∷ vs) = elim (Bool-cases (has_meaningful_value v)) [
  | inl found ↦ rw found (inr found)
  | inr missed ↦ rw missed (first_meaningful-cases vs)
]

IsShown-if :
    (b : Bool) (v w : Value) → IsShown v → (b ≡ false → IsShown w) → IsShown (if b then v else w)
IsShown-if true v w h k = h
IsShown-if false v w h k = k refl

IsShown-hit :
    (hit : Value)
    → (hit ≡ undefined) ⊎ (has_meaningful_value hit ≡ true)
    → IsShown (if is_undefined hit then null else hit)
IsShown-hit hit (inl u) = rw u (inl refl)
IsShown-hit hit (inr h) = IsShown-if (is_undefined hit) null hit (inl refl) (λ e. inr h)

IsShown-output :
    (payload hit : Value) (repeats : Bool)
    → IsShown (
        if not (has_meaningful_value hit)
        then null
        else if repeats && has_meaningful_value payload
        then payload
        else hit)
IsShown-output payload hit repeats = elim (Bool-cases (has_meaningful_value hit)) [
  | inr blank ↦ rw blank (inl refl)
  | inl given ↦ rw given (elim (Bool-cases (repeats && has_meaningful_value payload)) [
    | inl both ↦ rw both (inr (ground (arith, both)))
    | inr other ↦ rw other (inr given)
  ])
]

-- An event's input and output are shown only where they hold something: each is `null` or a value
-- that is not blank, no "-", and no empty array or object.
pub extract_event-IsShown :
    (event : Value) → IsShown (extract_event_input event) × IsShown (extract_event_output event)
unfolding extract_event_input extract_event_output
extract_event-IsShown event = (
  IsShown-if (not (is_object event)) null _ (inl refl)
      (λ e. IsShown-hit _ (first_meaningful-cases _)),
  IsShown-if (not (is_object event)) null _ (inl refl) (λ e. IsShown-output (payload_of event) _ _),
)
