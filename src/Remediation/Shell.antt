-- ===== src/Remediation/Shell.antt =====
-- appHelpers.jsx: `shellArg` and `buildKaiOpsRemediationScript`.
use kaims_latest.Prelude.{
  ℕ, ◌≡◌, refl, ap, sym, ==_iff, Bool, true, false, not, ◌||◌, [], ◌∷◌, ◌++◌, Option, none, some,
  ◌==◌, if◌then◌else◌, arith, Bool-cases, inl, inr, any,
}
use kaims_latest.Js.Text.{Text, js, trim, join}
use kaims_latest.Js.Value.{Value, str, ◌!◌, ◌or◌, text_of}
use kaims_latest.Js.Regex.{is_lower, is_upper, is_digit}

-- `[a-zA-Z0-9_./:@=-]`
abbrev pub is_plain : ℕ → Bool
is_plain c =
    is_lower c
    || is_upper c
    || is_digit c
    || c == b'_'
    || c == b'.'
    || c == b'/'
    || c == b':'
    || c == b'@'
    || c == b'='
    || c == b'-'

-- `token.replace(/'/g, "'\\''")`
unfoldable pub escape_quotes : Text → Text
escape_quotes [] = []
escape_quotes (c ∷ s) =
    let rest = escape_quotes s in if c == 39 then 39 ∷ 92 ∷ 39 ∷ 39 ∷ rest else c ∷ rest

unfoldable pub shell_token : Text → Text
unfolding escape_quotes
shell_token [] = 39 ∷ 39 ∷ []
shell_token (c ∷ s) =
    if not (any (λ d. not (is_plain d)) (c ∷ s))
    then c ∷ s
    else 39 ∷ (escape_quotes (c ∷ s) ++ 39 ∷ [])

unfoldable pub shell_arg : Value → Text
unfolding shell_token
shell_arg value = shell_token (trim (text_of value))

unfoldable pub build_kai_ops_remediation_script : Value → Text
unfolding shell_arg
build_kai_ops_remediation_script options = join (js " ") (
    js "bash scripts/remediation/kaiops_alert_health_triage.sh"
    ∷ js "--service"
    ∷ shell_arg (options ! "service" or str (js "kaiops-service"))
    ∷ js "--environment"
    ∷ shell_arg (options ! "environment" or str (js "prod"))
    ∷ js "--api-gateway-url"
    ∷ shell_arg (options ! "apiGatewayUrl" or str (js "http://api-gateway:8000"))
    ∷ js "--prometheus-url"
    ∷ shell_arg (options ! "prometheusUrl" or str (js "http://prometheus:9090"))
    ∷ js "--mysql-host"
    ∷ shell_arg (options ! "mysqlHost" or str (js "mysql"))
    ∷ js "--mysql-database"
    ∷ shell_arg (options ! "mysqlDatabase" or str (js "kaiops"))
    ∷ js "--mysql-user"
    ∷ shell_arg (options ! "mysqlUser" or str (js "kaiops"))
    ∷ js "--dry-run"
    ∷ js "true"
    ∷ [])

-- How a POSIX shell reads one word: in no quotes, in single quotes, or behind a backslash. Outside
-- quotes only the characters that mean nothing to the shell stand for themselves; `stuck` is every
-- other case.
pub data Mode : Type 0 where
  bare quoted escaped stuck : Mode

abbrev next_mode : Mode → ℕ → Mode
next_mode bare c =
    if c == 39 then quoted else if c == 92 then escaped else if is_plain c then bare else stuck
next_mode quoted c = if c == 39 then bare else quoted
next_mode escaped c = bare
next_mode stuck c = stuck

abbrev is_literal : Mode → ℕ → Bool
is_literal bare c = is_plain c
is_literal quoted c = not (c == 39)
is_literal escaped c = true
is_literal stuck c = false

abbrev keep : Bool → ℕ → Option Text → Option Text
keep b c none = none
keep b c (some s) = some (if b then c ∷ s else s)

abbrev finish : Mode → Option Text
finish bare = some []
finish quoted = none
finish escaped = none
finish stuck = none

-- The word that a shell reads, with `none` where the text is not one complete word.
abbrev pub read_word : Mode → Text → Option Text
read_word m [] = finish m
read_word m (c ∷ s) = keep (is_literal m c) c (read_word (next_mode m c) s)

plain-apart : (c : ℕ) → is_plain c ≡ true → ((c == 39) ≡ false) × ((c == 92) ≡ false)
plain-apart c h = (ground (arith, h), ground (arith, h))

read_word-plain : (s : Text) → any (λ d. not (is_plain d)) s ≡ false → read_word bare s ≡ some s
read_word-plain [] h = refl
read_word-plain (c ∷ s) h =
    let plain : is_plain c ≡ true = ground (arith, h) in
    let rest : any (λ d. not (is_plain d)) s ≡ false = ground (arith, h) in
    rw ((plain-apart c plain).0, (plain-apart c plain).1, plain, read_word-plain s rest) refl

read_word-escape_quotes : (s : Text) → read_word quoted (escape_quotes s ++ 39 ∷ []) ≡ some s
unfolding escape_quotes
read_word-escape_quotes [] = refl
read_word-escape_quotes (c ∷ s) = elim (Bool-cases (c == 39)) [
  | inl quote ↦
      rw (quote, read_word-escape_quotes s) (ap (λ d. some (d ∷ s)) (sym ((==_iff c 39).0 quote)))
  | inr other ↦ rw (other, other, read_word-escape_quotes s) refl
]

read_word-shell_token : (s : Text) → read_word bare (shell_token s) ≡ some s
unfolding shell_token
read_word-shell_token [] = refl
read_word-shell_token (c ∷ s) = elim (Bool-cases (any (λ d. not (is_plain d)) (c ∷ s))) [
  | inl special ↦ rw (special, read_word-escape_quotes (c ∷ s)) refl
  | inr plain ↦ rw plain (read_word-plain (c ∷ s) plain)
]

-- A shell reads an argument back as the trimmed text it was made of, whatever that text holds: no
-- value of an alert can end the word or start another command.
pub read_word-shell_arg :
    (value : Value) → read_word bare (shell_arg value) ≡ some (trim (text_of value))
unfolding shell_arg
read_word-shell_arg value = read_word-shell_token (trim (text_of value))
