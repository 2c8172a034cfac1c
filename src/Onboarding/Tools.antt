-- ===== src/Onboarding/Tools.antt =====
-- onboardingUtils.js and onboardingConfig.js: roles, monitoring tools and uploaded documents.
use kaims_latest.Prelude.{
  ℕ, Bool, not, ◌&&◌, ◌||◌, List, [], ◌∷◌, ◌++◌, map, filter, any, take, length, leb, ◌==◌,
  if◌then◌else◌,
}
use kaims_latest.Js.Text.{
  Text, js, trim, lower, nonempty, text_eq, includes, member, join, is_space,
}
use kaims_latest.Js.Value.{Value, str, ◌!◌, ◌or◌, text_of, object_or_empty, is_object}
use kaims_latest.Js.Regex.{
  Re, bos, eos, one, some_of, any_of, seq, alt, literal, times, is_digit, is_lower, is_upper,
  is_hex, test, replace, split,
}

abbrev pub monitoring_tool_options : List Text
monitoring_tool_options = js "prometheus" ∷ js "new_relic" ∷ js "datadog" ∷ []

abbrev pub onboarding_source_doc_buckets : List (Text × Text)
onboarding_source_doc_buckets =
    (js "ticket", js "Past Tickets")
    ∷ (js "troubleshooting", js "Troubleshooting Docs")
    ∷ (js "rca", js "RCA / Postmortem Docs")
    ∷ (js "resolution", js "Resolution Docs")
    ∷ (js "logs", js "Logs")
    ∷ (js "other", js "Other Evidence")
    ∷ []

unfoldable pub normalize_role_name : Value → Text
unfolding replace lower trim text_of
normalize_role_name value = replace (some_of is_space) (b'_' ∷ []) (lower (trim (text_of value)))

-- `/^[a-z][a-z0-9+.-]*:\/\//i`
abbrev is_scheme_unit : ℕ → Bool
is_scheme_unit c = is_lower c || is_upper c || is_digit c || c == b'+' || c == b'.' || c == b'-'

unfoldable pub scheme_pattern : Re
unfolding js
scheme_pattern =
    seq bos
      (seq (one (λ c. is_lower c || is_upper c)) (seq (any_of is_scheme_unit) (literal (js "://"))))

-- `s.replace(/\/+$/, "")`
abbrev without_slashes : Text → Text
without_slashes s = replace (seq (some_of (λ c. c == b'/')) eos) [] s

unfoldable pub simplify_monitoring_url : Value → Text
unfolding scheme_pattern test replace trim text_of js
simplify_monitoring_url value =
    let raw = trim (text_of value) in
    if not (nonempty raw)
    then []
    else without_slashes (if test scheme_pattern raw then raw else js "http://" ++ raw)

unfoldable pub normalize_match_token : Value → Text
unfolding lower trim text_of
normalize_match_token value = lower (trim (text_of value))

unfoldable pub severity_override_key : Value → Value → Value → Text
unfolding normalize_match_token join
severity_override_key name service environment = join (b'|' ∷ []) (
    normalize_match_token name
    ∷ normalize_match_token service
    ∷ normalize_match_token environment
    ∷ [])

-- `a || b || …` on texts.
abbrev first_nonempty : List Text → Text
first_nonempty [] = []
first_nonempty (t ∷ ts) = if nonempty t then t else first_nonempty ts

abbrev url_of_tool : Text → Value → Text
url_of_tool tool payload =
    if text_eq tool (js "prometheus")
    then simplify_monitoring_url (payload ! "prometheus_url")
    else if text_eq tool (js "new_relic")
    then simplify_monitoring_url (payload ! "new_relic_url")
    else if text_eq tool (js "datadog")
    then simplify_monitoring_url (payload ! "datadog_url")
    else []

pub record ToolAndUrl : Type 0 where
  pub tool : Text
  pub url : Text

-- `String(payload.selected_provider || payload.provider || fallbackTool || "prometheus")`
abbrev provider_of : Value → Text → Text
provider_of payload fallback_tool = text_of (
    payload ! "selected_provider"
    or payload ! "provider"
    or str fallback_tool
    or str (js "prometheus"))

unfoldable pub extract_monitoring_tool_and_url : Value → Text → Value → ToolAndUrl
unfolding simplify_monitoring_url object_or_empty ◌!◌ ◌or◌ text_of trim lower member text_eq js
extract_monitoring_tool_and_url source fallback_tool fallback_url =
    let payload = object_or_empty source in
    let provider = lower (trim (provider_of payload fallback_tool)) in
    let tool = if member provider monitoring_tool_options then provider else fallback_tool in
    record {
      tool = tool;
      url = first_nonempty (
          url_of_tool tool payload
          ∷ simplify_monitoring_url (payload ! "prometheus_url")
          ∷ simplify_monitoring_url (payload ! "new_relic_url")
          ∷ simplify_monitoring_url (payload ! "datadog_url")
          ∷ simplify_monitoring_url fallback_url
          ∷ []);
    }

-- `/^[0-9a-f]{8}-[0-9a-f]{4}-[1-5][0-9a-f]{3}-[89ab][0-9a-f]{3}-[0-9a-f]{12}$/i`
abbrev hex_run : ℕ → Re
hex_run n = times n (one is_hex)

abbrev dash : Re
dash = one (λ c. c == b'-')

abbrev is_version : ℕ → Bool
is_version c = leb b'1' c && leb c b'5'

abbrev is_variant : ℕ → Bool
is_variant c = c == b'8' || c == b'9' || c == b'a' || c == b'b' || c == b'A' || c == b'B'

unfoldable pub uuid_pattern : Re
uuid_pattern = seq bos (
    seq (hex_run 8) (
      seq dash (
        seq (hex_run 4) (
          seq dash (
            seq (one is_version) (
              seq (hex_run 3) (
                seq dash
                  (seq (one is_variant) (seq (hex_run 3) (seq dash (seq (hex_run 12) eos)))))))))))

unfoldable pub looks_like_uuid : Value → Bool
unfolding uuid_pattern test trim text_of
looks_like_uuid value = test uuid_pattern (trim (text_of value))

-- Whether a text has one of some words, whatever its letter case.
abbrev mentions : List Text → Text → Bool
mentions words t = any (λ word. includes (lower t) word) words

unfoldable pub requirement_words : List Text
unfolding js
requirement_words =
    js "alert"
    ∷ js "latency"
    ∷ js "error"
    ∷ js "cpu"
    ∷ js "memory"
    ∷ js "availability"
    ∷ js "throughput"
    ∷ js "slo"
    ∷ js "sla"
    ∷ js "queue"
    ∷ js "topic"
    ∷ js "dependency"
    ∷ js "restart"
    ∷ js "health"
    ∷ js "5xx"
    ∷ js "threshold"
    ∷ js "response"
    ∷ []

-- The lines of a document without their list marks, but for the short ones.
unfoldable pub document_lines : Text → List Text
unfolding split replace trim
document_lines text =
    filter (λ line. leb 8 (length line))
      (map
        (λ line. trim (
          replace
            (seq bos (seq (some_of (λ c. c == b'-' || c == b'*' || c == b'#')) (any_of is_space)))
            [] line))
        (split (alt (seq (one (λ c. c == 13)) (one (λ c. c == 10))) (one (λ c. c == 10))) text))

abbrev scored_or_all : List Text → List Text → List Text
scored_or_all [] lines = lines
scored_or_all (s ∷ scored) lines = s ∷ scored

abbrev pub document_name : Value → Text
document_name name = first_nonempty (
    trim (first_nonempty (text_of name ∷ js "uploaded-document" ∷ []))
    ∷ js "uploaded-document"
    ∷ [])

unfoldable pub derive_monitoring_requirements_from_document : Value → Value → List Text
unfolding requirement_words document_lines lower includes trim text_of js
derive_monitoring_requirements_from_document name text =
    let doc_text = trim (text_of text) in
    let lines = document_lines doc_text in
    if not (nonempty doc_text)
    then []
    else map (λ line. document_name name ++ js ": " ++ line)
        (take 6 (scored_or_all (filter (mentions requirement_words) lines) lines))

unfoldable pub summarize_uploaded_document : Value → Text
unfolding replace trim text_of
summarize_uploaded_document text =
    take 220 (trim (replace (some_of is_space) (b' ' ∷ []) (text_of text)))

unfoldable pub classify_onboarding_document_type : Value → Value → Text
unfolding lower includes text_of js
classify_onboarding_document_type name text =
    let token = lower (text_of name ++ js " " ++ text_of text) in
    if mentions (js "ticket" ∷ js "incident" ∷ js "case" ∷ js "jira" ∷ []) token
    then js "ticket"
    else if mentions (js "troubleshoot" ∷ js "diagnostic" ∷ js "investigat" ∷ js "playbook" ∷ [])
        token
    then js "troubleshooting"
    else if mentions (js "rca" ∷ js "postmortem" ∷ js "root cause" ∷ []) token
    then js "rca"
    else if mentions (js "resolution" ∷ js "resolve" ∷ js "fix" ∷ js "remediation" ∷ []) token
    then js "resolution"
    else if mentions (js "log" ∷ js "trace" ∷ js "stdout" ∷ js "stderr" ∷ []) token
    then js "logs"
    else js "other"

unfoldable pub extract_onboarding_project_name : Value → Text
unfolding object_or_empty is_object ◌!◌ ◌or◌ trim text_of
extract_onboarding_project_name row =
    if not (is_object row)
    then []
    else trim (text_of (row ! "project_name" or object_or_empty (row ! "project_payload") ! "name"))
