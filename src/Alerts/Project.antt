-- ===== src/Alerts/Project.antt =====
-- domain/projectIdentity.ts: the project that an alert belongs to.
mod Tests
use kaims_latest.Prelude.{
  ℕ, ◌≡◌, refl, subst, Bool, true, false, not, ◌&&◌, ◌||◌, List, [], ◌∷◌, map, Option, none, some,
  if◌then◌else◌, ◌==◌, Bool-cases, inl, inr, ◌⊎◌, arith,
}
use kaims_latest.Js.Text.{Text, js, trim, lower, nonempty, text_eq, includes, member}
use kaims_latest.Js.Value.{Value, str, null, obj, field, end, ◌!◌, ◌or◌, text_of, object_or_empty}

-- `value`, and `usable`: what is neither blank nor "unknown".
abbrev value_of : Value → Text
value_of v = trim (text_of v)

unfoldable pub usable_text : Text → Text
unfolding lower text_eq js
usable_text candidate =
    if nonempty candidate && not (text_eq (lower candidate) (js "unknown")) then candidate else []

unfoldable pub usable : Value → Text
unfolding usable_text trim text_of
usable v = usable_text (value_of v)

-- `values.map(usable).find(Boolean)`, with the empty text for `undefined`.
unfoldable pub first_usable : List Value → Text
unfolding usable
first_usable [] = []
first_usable (v ∷ vs) = let rest = first_usable vs in if nonempty (usable v) then usable v else rest

-- `s.split(":", 1)[0]`
unfoldable pub before_colon : Text → Text
before_colon [] = []
before_colon (c ∷ t) = let rest = before_colon t in if c == b':' then [] else c ∷ rest

unfoldable pub direct_identity : Value → Text
unfolding first_usable object_or_empty ◌!◌
direct_identity row =
    let labels = object_or_empty (row ! "labels") in
    let metadata = object_or_empty (row ! "metadata") in
    first_usable (
      (row ! "application")
      ∷ (row ! "project_name")
      ∷ (row ! "project")
      ∷ (labels ! "application")
      ∷ (labels ! "project_name")
      ∷ (labels ! "project")
      ∷ (metadata ! "application")
      ∷ (metadata ! "project_name")
      ∷ (metadata ! "project")
      ∷ [])

unfoldable pub is_jira : Value → Bool
unfolding trim text_of lower text_eq js ◌!◌
is_jira row = text_eq (lower (value_of (row ! "source"))) (js "jira")

-- The part of a Jira alert's name before its colon.
unfoldable pub jira_prefix : Value → Text
unfolding before_colon trim text_of ◌!◌ ◌or◌
jira_prefix row = trim (before_colon (value_of (row ! "name" or row ! "alert_name")))

unfoldable pub service_identity : Value → Text
unfolding usable lower member js ◌!◌ ◌or◌ object_or_empty
service_identity row =
    let service = usable (row ! "service" or object_or_empty (row ! "labels") ! "service") in
    if member (lower service) ([] ∷ js "unknown" ∷ js "jira-tickets" ∷ []) then [] else service

-- `json` is `JSON.parse`, with `none` where that throws; reading a field of `null` throws as well,
-- and both are caught.
module _ (json : Text → Option Value) where
  abbrev context_identity : Option Value → Text
  context_identity none = []
  context_identity (some context) =
      usable (context ! "application" or context ! "project_name" or context ! "project")

  unfoldable pub embedded_identity : Value → Text
  unfolding usable trim text_of ◌!◌ ◌or◌
  embedded_identity row =
      let context_text = value_of (row ! "annotations" ! "kaiops_context") in
      if nonempty context_text then context_identity (json context_text) else []

  unfoldable pub project_identity_from_alert : Value → Text
  unfolding direct_identity embedded_identity is_jira jira_prefix service_identity includes js
  project_identity_from_alert row =
      if nonempty (direct_identity row)
      then direct_identity row
      else if nonempty (embedded_identity row)
      then embedded_identity row
      else if is_jira row && nonempty (jira_prefix row) && not (includes (jira_prefix row) (js " "))
      then jira_prefix row
      else service_identity row

-- A name that says something.
abbrev pub IsNamed : Text → Type 0
IsNamed t = text_eq (lower t) (js "unknown") ≡ false

usable_text-IsNamed : (t : Text) → IsNamed (usable_text t)
unfolding usable_text lower text_eq js
usable_text-IsNamed t = elim (Bool-cases (nonempty t && not (text_eq (lower t) (js "unknown")))) [
  | inl y ↦ rw y (ground (arith, y))
  | inr n ↦ rw n refl
]

usable-IsNamed : (v : Value) → IsNamed (usable v)
unfolding usable
usable-IsNamed v = usable_text-IsNamed (value_of v)

first_usable-IsNamed : (vs : List Value) → IsNamed (first_usable vs)
unfolding first_usable lower text_eq js
first_usable-IsNamed [] = refl
first_usable-IsNamed (v ∷ vs) = elim (Bool-cases (nonempty (usable v))) [
  | inl y ↦ rw y (usable-IsNamed v)
  | inr n ↦ rw n (first_usable-IsNamed vs)
]

direct_identity-IsNamed : (row : Value) → IsNamed (direct_identity row)
unfolding direct_identity
direct_identity-IsNamed row =
    let labels = object_or_empty (row ! "labels") in
    let metadata = object_or_empty (row ! "metadata") in
    first_usable-IsNamed (
      (row ! "application")
      ∷ (row ! "project_name")
      ∷ (row ! "project")
      ∷ (labels ! "application")
      ∷ (labels ! "project_name")
      ∷ (labels ! "project")
      ∷ (metadata ! "application")
      ∷ (metadata ! "project_name")
      ∷ (metadata ! "project")
      ∷ [])

service_identity-IsNamed : (row : Value) → IsNamed (service_identity row)
unfolding service_identity lower text_eq js
service_identity-IsNamed row =
    chosen (usable (row ! "service" or object_or_empty (row ! "labels") ! "service"))
      (usable-IsNamed (row ! "service" or object_or_empty (row ! "labels") ! "service"))
  where
    chosen :
        (service : Text)
        → IsNamed service
        → IsNamed (
            if member (lower service) ([] ∷ js "unknown" ∷ js "jira-tickets" ∷ [])
            then []
            else service)
    chosen service h =
        elim (Bool-cases (member (lower service) ([] ∷ js "unknown" ∷ js "jira-tickets" ∷ []))) [
          | inl y ↦ rw y refl
          | inr n ↦ rw n h
        ]

module _ (json : Text → Option Value) where
  embedded_identity-IsNamed : (row : Value) → IsNamed (embedded_identity json row)
  unfolding embedded_identity lower text_eq js
  embedded_identity-IsNamed row =
      elim (Bool-cases (nonempty (value_of (row ! "annotations" ! "kaiops_context")))) [
        | inr n ↦ rw n refl
        | inl y ↦ rw y (of_context (json (value_of (row ! "annotations" ! "kaiops_context"))))
      ]
    where
      of_context : (o : Option Value) → IsNamed (context_identity json o)
      of_context none = refl
      of_context (some context) =
          usable-IsNamed
            (context ! "application" or context ! "project_name" or context ! "project")

  -- The project of an alert is never "unknown", whatever its letter case, but where a Jira alert's
  -- name begins so: its prefix is taken as it is.
  pub project_identity_from_alert-IsNamed :
      (row : Value)
      → IsNamed (project_identity_from_alert json row)
        ⊎ ((is_jira row ≡ true) × (project_identity_from_alert json row ≡ jira_prefix row))
  unfolding project_identity_from_alert
  project_identity_from_alert-IsNamed row = elim (Bool-cases (nonempty (direct_identity row))) [
    | inl direct ↦ inl (rw direct (direct_identity-IsNamed row))
    | inr d ↦ elim (Bool-cases (nonempty (embedded_identity json row))) [
      | inl embedded ↦ inl (rw (d, embedded) (embedded_identity-IsNamed row))
      | inr e ↦
          elim (Bool-cases (
            is_jira row
            && nonempty (jira_prefix row)
            && not (includes (jira_prefix row) (js " ")))) [
              | inl jira ↦ inr (ground (arith, jira), rw (d, e, jira) refl)
              | inr j ↦ inl (rw (d, e, j) (service_identity-IsNamed row))
            ]
    ]
  ]
