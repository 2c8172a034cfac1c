-- ===== src/Fetch/Refusals.antt =====
-- appHelpers.jsx: what `fetchJsonNetwork` does with errors that no retry can mend.
use kaims_latest.Prelude.{
  ℕ, zero, suc, ◌+◌, ◌*◌, ◌≤◌, ◌<◌, ◌≡◌, ◌≢◌, ap, ◌∙◌, Bool, true, false, not, List, [], ◌∷◌,
  Option, none, some, length, ltb, if◌then◌else◌, arith, inl, inr, ◌⊎◌,
}
use kaims_latest.Js.Text.{Text}
use kaims_latest.Js.Value.{Value}
use kaims_latest.Fetch.{
  response, Options, Progress, start, Host, error, unfinished, leaves, next_target, proceed, caught,
  call, wait, give_up, max_attempts_of, max_attempts, settle, may_refresh, try_target, after_target,
  run_targets, run_attempts, fetch_json_network, fallback_fetch_targets,
}
use kaims_latest.Fetch.Retry.{
  list_cases, respond-settle, http_error, http_error-plain, explain-http_error,
}

-- A server that refuses every call with the same status.
pub record Refuses (host : Host) (status : ℕ) (text : Text) : Type 0 where
  pub body : Option Value
  pub replies :
      (k : ℕ) (target : Text) (b : Bool) → host.server k target b ≡ response status text body

pub max_attempts_of-pos : (n : Option ℕ) → 0 < max_attempts_of n
unfolding max_attempts_of
max_attempts_of-pos none = omega arith
max_attempts_of-pos (some n) = ground arith

module _ (host : Host) (options : Options) where
  module _ (s : ℕ) (t : Text) (low : 400 ≤ s) (high : s < 500) (other : s ≢ 401)
      (r : Refuses host s t) where
    try_target-4xx :
        (attempt : ℕ) (target : Text) (p : Progress)
        → try_target host options attempt target p ≡ (caught (http_error s t), call host options p)
    unfolding try_target may_refresh settle
    try_target-4xx attempt target p = rw (r.replies p.calls target p.refreshed) (
        respond-settle host options attempt target options.on_unauthorized (response s t r.body)
          (call host options p) (ground arith)
        ∙ ground arith)

    abbrev noted : Progress → Progress
    noted p = record p { last_error = some (http_error s t) }

    after_target-4xx :
        (request_target target : Text) (attempt : ℕ) (last : Bool) (p : Progress)
        → after_target host options request_target attempt last
            (try_target host options attempt target p)
          ≡ (if not last
              then next_target (noted (call host options p))
              else leaves (
                  unfinished (
                    if ltb attempt (max_attempts host options)
                    then wait host options attempt (noted (call host options p))
                    else noted (call host options p))))
    unfolding after_target
    after_target-4xx request_target target attempt last p = rw (
      try_target-4xx attempt target p,
      (http_error-plain s t).0,
      explain-http_error request_target s t,
    )

    -- Each target of the attempt is tried, and the error is kept.
    run_targets-4xx :
        (request_target target : Text) (targets : List Text) (attempt : ℕ) (p : Progress)
        → (q : Progress) × (run_targets host options request_target attempt (target ∷ targets) p
            ≡ unfinished q)
          × (q.calls ≡ p.calls + length (target ∷ targets))
          × (q.last_error ≡ some (http_error s t))
    unfolding run_targets after_target
    run_targets-4xx request_target target [] attempt p =
        let kept = noted (call host options p) in
        (
          if ltb attempt (max_attempts host options) then wait host options attempt kept else kept,
          rw (after_target-4xx request_target target attempt true p),
          ground arith,
          ground arith,
        )
    run_targets-4xx request_target target (next ∷ targets) attempt p =
        let (q, step, calls, kept) =
          run_targets-4xx request_target next targets attempt (noted (call host options p)) in
        (
          q,
          ap (λ st. proceed st (run_targets host options request_target attempt (next ∷ targets)))
                (after_target-4xx request_target target attempt false p)
              ∙ step,
          omega (arith, calls),
          kept,
        )

    run_attempts-4xx :
        (request_target target : Text) (targets : List Text) (left attempt : ℕ) (p : Progress)
        → (0 < left) ⊎ (p.last_error ≡ some (http_error s t))
        → (q : Progress) × (run_attempts host options request_target
              (target ∷ targets)
              left
              attempt
              p
            ≡ (error (http_error s t), q))
          × (q.calls ≡ p.calls + left * length (target ∷ targets))
    unfolding run_attempts
    run_attempts-4xx request_target target targets zero attempt p h = (
      p,
      elim h [ inl z ↦ absurd (omega arith) | inr e ↦ ap (λ o. (give_up o, p)) e ],
      omega arith,
    )
    run_attempts-4xx request_target target targets (suc left) attempt p h =
        let (q, step, calls, noted) = run_targets-4xx request_target target targets attempt p in
        let (q', done, calls') =
          run_attempts-4xx request_target target targets left (suc attempt) q (inr noted) in
        (q', rw step done, grind (arith, calls, calls'))

  -- A server that refuses every call with one client error other than 401 is asked again for every
  -- attempt and target, and the caller gets that error.
  pub fetch_json_network-refused :
      (path : Value) (s : ℕ) (t : Text)
      → 400 ≤ s
      → s < 500
      → s ≢ 401
      → Refuses host s t
      → fallback_fetch_targets path ≢ []
      → (q : Progress) × (fetch_json_network host options path ≡ (error (http_error s t), q))
        × (q.calls
            ≡ max_attempts_of options.max_attempts_raw * length (fallback_fetch_targets path))
  unfolding fetch_json_network
  fetch_json_network-refused path s t low high other r given =
      elim (list_cases (fallback_fetch_targets path)) [
        | inl empty ↦ absurd (given empty)
        | inr (target, targets, e) ↦
            let (q, done, calls) =
              run_attempts-4xx s t low high other r target target targets
                (max_attempts_of options.max_attempts_raw) 1 start
                (inl (max_attempts_of-pos options.max_attempts_raw)) in
            rw e (q, done, omega (arith, calls))
      ]
