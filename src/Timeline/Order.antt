-- ===== src/Timeline/Order.antt =====
-- appHelpers.jsx: `timelinePhaseOrder` and `summarizeEventType`.
use kaims_latest.Prelude.{
  ℕ, ◌≡◌, ◌≢◌, refl, Bool, true, false, ◌||◌, List, [], ◌∷◌, ◌++◌, map, Option, none, some, ltb,
  if◌then◌else◌, arith, ◌==◌, Bool-cases, inl, inr,
}
use kaims_latest.Js.Text.{Text, js, lower, includes, starts_with, join}
use kaims_latest.Js.Value.{Value, ◌!◌, text_of, array_or_empty}
use kaims_latest.Timeline.Rows.{mentions}

-- The tests of the code in their order, each with what it returns.
abbrev pub phase_rules : List (List Text × ℕ)
phase_rules =
    (js "landing pad" ∷ js "alert received" ∷ js "alert landed" ∷ js "incident.alert" ∷ [], 10)
    ∷ (js "raw alert topic" ∷ [], 20)
    ∷ (js "dedup" ∷ js "correlation" ∷ js "enrich" ∷ [], 30)
    ∷ (js "enriched alert topic" ∷ [], 40)
    ∷ (js "routing" ∷ js "orchestrator" ∷ js "workflow.selected" ∷ [], 50)
    ∷ (js "config" ∷ js "connector lookup" ∷ js "connection" ∷ [], 60)
    ∷ (js "orchestration event topic" ∷ [], 70)
    ∷ (
      js "rag context"
          ∷ js "context retrieval"
          ∷ js "context intelligence"
          ∷ js "incident.context.collected"
          ∷ [],
      80,
    )
    ∷ (js "embedding" ∷ js "semantic" ∷ js "vector" ∷ [], 85)
    ∷ (js "context merge" ∷ js "evidence assembly" ∷ [], 90)
    ∷ (js "context event topic" ∷ [], 100)
    ∷ (js "recommendation" ∷ js "resolution" ∷ [], 110)
    ∷ (js "policy" ∷ [], 115)
    ∷ (js "resolution event topic" ∷ [], 120)
    ∷ (js "approval" ∷ [], 130)
    ∷ (js "approval event topic" ∷ [], 140)
    ∷ (js "remediation" ∷ js "command" ∷ js "execute" ∷ [], 150)
    ∷ (js "remediation event topic" ∷ [], 160)
    ∷ (js "closure" ∷ js "validation" ∷ [], 170)
    ∷ []

unfoldable pub first_rule : Text → List (List Text × ℕ) → ℕ
first_rule haystack [] = 99
first_rule haystack ((tokens, order) ∷ rules) =
    let rest = first_rule haystack rules in if mentions haystack tokens then order else rest

-- What the stage and the backend events of a row say.
unfoldable pub phase_order_of : Text → ℕ
phase_order_of haystack = first_rule haystack phase_rules

-- `explicitOrder` where it is a positive number, and the fallback otherwise.
abbrev pub explicit_or : Option ℕ → ℕ → ℕ
explicit_or none fallback = fallback
explicit_or (some n) fallback = if ltb 0 n then n else fallback

-- `number` is the platform's `Number`, with `none` where it gives no finite number.
unfoldable pub timeline_phase_order : (Value → Option ℕ) → Value → ℕ
timeline_phase_order number row =
    let event_hints = map (λ item. lower (text_of item)) (array_or_empty (row ! "backendEvents")) in
    explicit_or (number (row ! "flowOrder"))
      (phase_order_of (lower (text_of (row ! "stage")) ++ js " " ++ join (js " ") event_hints))

starts_with-prefix : (s u v : Text) → starts_with s (u ++ v) ≡ true → starts_with s u ≡ true
unfolding starts_with
starts_with-prefix s [] v h = refl
starts_with-prefix [] (d ∷ u) v h = h
starts_with-prefix (c ∷ s) (d ∷ u) v h = ground (arith, starts_with-prefix s u v)

-- A text that includes another includes its beginning.
includes-prefix : (s u v : Text) → includes s (u ++ v) ≡ true → includes s u ≡ true
unfolding includes
includes-prefix [] u v h = starts_with-prefix [] u v h
includes-prefix (c ∷ s) u v h =
    ground (arith, starts_with-prefix (c ∷ s) u v, includes-prefix s u v)

topics :
    (t : Text)
    → (includes t (js "enriched alert topic") ≡ true → includes t (js "enrich") ≡ true)
      × (includes t (js "resolution event topic") ≡ true → includes t (js "resolution") ≡ true)
      × (includes t (js "approval event topic") ≡ true → includes t (js "approval") ≡ true)
      × (includes t (js "remediation event topic") ≡ true → includes t (js "remediation") ≡ true)
unfolding js
topics t = (
  includes-prefix t (js "enrich") (js "ed alert topic"),
  includes-prefix t (js "resolution") (js " event topic"),
  includes-prefix t (js "approval") (js " event topic"),
  includes-prefix t (js "remediation") (js " event topic"),
)

abbrev is_topic : ℕ → Bool
is_topic n = n == 40 || n == 120 || n == 140 || n == 160

record IsPlaced (n : ℕ) : Type 0 where
  apart : is_topic n ≡ false

module _ (t : Text) (tokens : List Text) (n : ℕ) (rules : List (List Text × ℕ)) where
  otherwise :
      is_topic n ≡ false
      → (mentions t tokens ≡ false → IsPlaced (first_rule t rules))
      → IsPlaced (first_rule t ((tokens, n) ∷ rules))
  unfolding first_rule
  otherwise h k = elim (Bool-cases (mentions t tokens)) [
    | inl now ↦ rw now (record { apart = h })
    | inr later ↦ rw later (k later)
  ]

  skipped :
      mentions t tokens ≡ false
      → IsPlaced (first_rule t rules)
      → IsPlaced (first_rule t ((tokens, n) ∷ rules))
  unfolding first_rule
  skipped e h = rw e h

last-IsPlaced : (t : Text) → IsPlaced (first_rule t [])
unfolding first_rule
last-IsPlaced t = record { apart = refl }

phase_order_of-topics : (t : Text) → IsPlaced (phase_order_of t)
unfolding phase_order_of
phase_order_of-topics t =
    let (enriched, resolution, approval, remediation) = topics t in
    otherwise t _ _ _ refl (λ h10. otherwise t _ _ _ refl (λ h20.
      otherwise t _ _ _ refl
        (λ (h30 : mentions t (js "dedup" ∷ js "correlation" ∷ js "enrich" ∷ []) ≡ false).
          skipped t (js "enriched alert topic" ∷ []) _ _ (ground (arith, enriched, h30)) (
            otherwise t _ _ _ refl (λ h50. otherwise t _ _ _ refl (λ h60.
              otherwise t _ _ _ refl (λ h70. otherwise t _ _ _ refl (λ h80.
                otherwise t _ _ _ refl (λ h85. otherwise t _ _ _ refl (λ h90.
                  otherwise t _ _ _ refl (λ h100.
                    otherwise t _ _ _ refl
                      (λ (h110 : mentions t (js "recommendation" ∷ js "resolution" ∷ []) ≡ false).
                        otherwise t _ _ _ refl (λ h115.
                          skipped t (js "resolution event topic" ∷ []) _ _
                            (ground (arith, resolution, h110))
                            (otherwise t _ _ _ refl
                              (λ (h130 : mentions t (js "approval" ∷ []) ≡ false).
                                skipped t (js "approval event topic" ∷ []) _ _
                                  (ground (arith, approval, h130))
                                  (otherwise t _ _ _ refl
                                    (λ (h150 : mentions t
                                          (js "remediation" ∷ js "command" ∷ js "execute" ∷ [])
                                        ≡ false).
                                      skipped t (js "remediation event topic" ∷ []) _ _
                                        (ground (arith, remediation, h150))
                                        (otherwise t _ _ _ refl
                                          (λ h170. last-IsPlaced t)))))))))))))))))))

-- A row without an order of its own is never placed at 40, 120, 140 or 160, which the code has for
-- the enriched alert, resolution, approval and remediation topics: an earlier test takes these rows.
pub timeline_phase_order-topics :
    (number : Value → Option ℕ) (row : Value)
    → number (row ! "flowOrder") ≡ none
    → (timeline_phase_order number row ≢ 40)
      × (timeline_phase_order number row ≢ 120)
      × (timeline_phase_order number row ≢ 140)
      × (timeline_phase_order number row ≢ 160)
unfolding timeline_phase_order
timeline_phase_order-topics number row h =
    let hints = map (λ item. lower (text_of item)) (array_or_empty (row ! "backendEvents")) in
    let haystack = lower (text_of (row ! "stage")) ++ js " " ++ join (js " ") hints in
    let placed = (phase_order_of-topics haystack).apart in rw h (ground (arith, placed))
