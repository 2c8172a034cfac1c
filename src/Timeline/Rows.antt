-- ===== src/Timeline/Rows.antt =====
-- appHelpers.jsx: `hasMeaningfulValue`, the stage and the status of a timeline row, and what comes
-- after it.
use kaims_latest.Prelude.{
  Bool, true, false, not, ◌&&◌, ◌||◌, List, [], ◌∷◌, ◌++◌, map, any, Option, none, some,
  if◌then◌else◌,
}
use kaims_latest.Js.Text.{Text, js, nonempty, trim, lower, includes, text_eq, join}
use kaims_latest.Js.Value.{
  Value, undefined, null, bool, num, str, arr, obj, nil, cons, end, field, is_object, truthy, ◌!◌,
  text_of, to_text, object_or_empty,
}

unfoldable pub has_meaningful_value : Value → Bool
has_meaningful_value undefined = false
has_meaningful_value null = false
has_meaningful_value (bool b) = true
has_meaningful_value (num n) = true
has_meaningful_value (str s) = nonempty (trim s) && not (text_eq (trim s) (js "-"))
has_meaningful_value (arr nil) = false
has_meaningful_value (arr (cons v vs)) = true
has_meaningful_value (obj end) = false
has_meaningful_value (obj (field k v fs)) = true

-- `tokens.some((token) => text.includes(token))`
abbrev pub mentions : Text → List Text → Bool
mentions text tokens = any (λ token. includes text token) tokens

pub record FlowStage : Type 0 where
  pub kind : Text
  pub short : Text
  pub label : Text

abbrev stage : Text → Text → Text → FlowStage
stage k s l = record { kind = k; short = s; label = l }

unfoldable pub classify_flow_stage_from_row : Value → FlowStage
classify_flow_stage_from_row row =
    let text = lower (text_of (row ! "stage")) in
    if mentions text (js "landing pad" ∷ js "alert received" ∷ js "alert landed" ∷ [])
    then stage (js "ingestion") (js "ING") (js "Landing Pad")
    else if mentions text (js "topic handoff" ∷ js "message bus" ∷ [])
    then stage (js "bus") (js "BUS") (js "Message Bus")
    else if mentions text (js "dedup" ∷ js "correlation" ∷ js "enrich" ∷ [])
    then stage (js "dedupe") (js "DED") (js "Dedup")
    else if mentions text (js "config" ∷ js "connector lookup" ∷ [])
    then stage (js "config") (js "CFG") (js "Config")
    else if mentions text (js "routing" ∷ js "orchestrator" ∷ js "workflow" ∷ [])
    then stage (js "orchestration") (js "ORC") (js "Orchestrator")
    else if mentions text (js "discovery agent" ∷ js "code and log context" ∷ [])
    then stage (js "discovery") (js "DSC") (js "Discovery")
    else if mentions text
        (js "rag context" ∷ js "context retrieval" ∷ js "context intelligence" ∷ [])
    then stage (js "rag") (js "RAG") (js "RAG")
    else if mentions text (js "embedding" ∷ js "semantic" ∷ js "vector" ∷ [])
    then stage (js "semantic") (js "SEM") (js "Semantic")
    else if mentions text (js "context merge" ∷ js "evidence assembly" ∷ [])
    then stage (js "context") (js "CTX") (js "Context")
    else if mentions text (js "resolution" ∷ js "recommendation" ∷ [])
    then stage (js "resolution") (js "RCA") (js "Resolution")
    else if includes text (js "approval")
    then stage (js "approval") (js "APR") (js "Approval")
    else if includes text (js "policy")
    then stage (js "policy") (js "POL") (js "Policy")
    else if mentions text (js "remediation" ∷ js "command" ∷ js "execute" ∷ [])
    then stage (js "execution") (js "CMD") (js "Execution")
    else if mentions text (js "closure" ∷ js "validation" ∷ [])
    then stage (js "closure") (js "CLS") (js "Closure")
    else stage (js "generic") (js "EVT") (js "Event")

unfoldable pub timeline_row_text : Value → Text
timeline_row_text row = join (js " ") (
    map (λ item. lower (text_of item))
      (row ! "status"
        ∷ row ! "stage"
        ∷ row ! "detail"
        ∷ row ! "agent"
        ∷ row ! "service"
        ∷ row ! "consumes"
        ∷ row ! "publishes"
        ∷ row ! "errorValueText"
        ∷ row ! "inputValueText"
        ∷ row ! "outputValueText"
        ∷ []))

unfoldable pub timeline_row_indicates_fallback : Text → Bool
timeline_row_indicates_fallback text = mentions text (
    js "fallback"
    ∷ js "heuristic-fallback"
    ∷ js "skipped"
    ∷ js "not executed"
    ∷ js "no live executor"
    ∷ js "no real"
    ∷ js "policy-blocked"
    ∷ js "safety gate"
    ∷ js "live mutation blocked"
    ∷ js "requires_human_review"
    ∷ [])

unfoldable pub timeline_row_indicates_success : Text → Bool
timeline_row_indicates_success text = mentions text (
    js "succeeded"
    ∷ js "success"
    ∷ js "completed"
    ∷ js "closed"
    ∷ js "observed"
    ∷ js "validated"
    ∷ js "recommendation_id"
    ∷ js "approval_id"
    ∷ [])

unfoldable pub timeline_row_has_error : Value → Bool
timeline_row_has_error row =
    let text = timeline_row_text row in
    if not (has_meaningful_value (row ! "errorValueText"))
    then false
    else if timeline_row_indicates_fallback text || timeline_row_indicates_success text
    then false
    else mentions text (js "error" ∷ js "failed" ∷ js "exception" ∷ js "timeout" ∷ [])

unfoldable pub timeline_row_status : Value → Value → Text
timeline_row_status row next_row =
    let text = timeline_row_text row in
    if timeline_row_indicates_fallback text
    then js "fallback"
    else if timeline_row_has_error row
    then js "failed"
    else if timeline_row_indicates_success text || has_meaningful_value row
    then js "observed"
    else if truthy next_row
    then js "continued"
    else js "waiting"

-- `values.find((value) => hasMeaningfulValue(value))`
unfoldable pub first_meaningful : List Value → Value
first_meaningful [] = undefined
first_meaningful (v ∷ vs) =
    let rest = first_meaningful vs in if has_meaningful_value v then v else rest

-- `json` is `JSON.parse`, with `none` where that throws.
module _ (json : Text → Option Value) where
  abbrev object_of : Option Value → Value
  object_of none = null
  object_of (some parsed) = if is_object parsed then parsed else null

  unfoldable pub parse_timeline_json : Value → Value
  parse_timeline_json v =
      let text = trim (text_of v) in if not (nonempty text) then null else object_of (json text)

  unfoldable pub infer_timeline_next_step : Value → Value → Text
  infer_timeline_next_step row next_row =
      let output_text = trim (text_of (row ! "outputValueText")) in
      let input_text = trim (text_of (row ! "inputValueText")) in
      let detail_text = trim (text_of (row ! "detail")) in
      let transport = trim (text_of (row ! "publishes")) in
      let parsed_output = object_or_empty (parse_timeline_json (str output_text)) in
      let parsed_input = object_or_empty (parse_timeline_json (str input_text)) in
      let explicit = first_meaningful (
        parsed_output ! "next_action"
        ∷ parsed_output ! "fallback_path"
        ∷ parsed_input ! "next_action"
        ∷ parsed_input ! "fallback_path"
        ∷ row ! "communicates_to"
        ∷ []) in
      if truthy explicit
      then trim (to_text explicit)
      else if truthy (next_row ! "stage")
      then (if nonempty transport then transport else js "next")
        ++ js " -> "
        ++ to_text (next_row ! "stage")
      else if nonempty transport && not (text_eq transport (js "-"))
      then transport
      else if timeline_row_indicates_fallback (lower (output_text ++ js " " ++ detail_text))
      then js "Guarded path preserved for operator review"
      else js "-"
