-- ===== src/Fetch/Expiry.antt =====
-- appHelpers.jsx: how `fetchJsonNetwork` ends when the session has expired.
use kaims_latest.Prelude.{
  ℕ, zero, suc, ◌+◌, ◌≤◌, ◌<◌, ◌≡◌, ◌≢◌, refl, ap, subst, sym, ◌∙◌, true, false, List, [], ◌∷◌,
  Option, none, some, ltb, arith, Bool-cases, inl, inr, ◌⊎◌,
}
use kaims_latest.Js.Text.{Text, text_eq}
use kaims_latest.Js.Text.Equality.{text_eq_iff}
use kaims_latest.Js.Value.{Value}
use kaims_latest.Fetch.{
  Refresh, response, headers, no_headers, Options, Progress, start, Host, error, thrown, caught,
  call, explain, session_expired, max_attempts_of, max_attempts, settle, refresh, respond,
  may_refresh, try_target, after_target, run_targets, run_attempts, fetch_json_network,
  fallback_fetch_targets,
}
use kaims_latest.Fetch.Retry.{list_cases}
use kaims_latest.Fetch.Refusals.{Refuses, max_attempts_of-pos}

unequal : {s t : Text} → s ≢ t → text_eq s t ≡ false
unequal {s} {t} h = ground (arith, text_eq_iff s t)

module _ (host : Host) (options : Options) where
  module _ (signed_in : options.authenticated ≡ true) (t : Text) (r : Refuses host 401 t) where
    settle-401 :
        (attempt : ℕ) (target : Text) (p : Progress)
        → settle host options attempt target false (response 401 t r.body) p
          ≡ (thrown session_expired, p)
    unfolding settle
    settle-401 attempt target p = ground arith

    settle-401_used :
        (attempt : ℕ) (target : Text) (p : Progress)
        → settle host options attempt target true (response 401 t r.body) p
          ≡ (caught host.body_used, p)
    unfolding settle
    settle-401_used attempt target p = ground arith

    try_target-401 :
        (callback : Option Refresh) (attempt : ℕ) (target : Text) (p : Progress)
        → options.on_unauthorized ≡ callback
        → try_target host options attempt target p
          ≡ respond host options attempt target callback
              (response 401 t r.body)
              (call host options p)
    unfolding try_target
    try_target-401 callback attempt target p e =
        ap
          (λ reply.
            respond host options attempt target options.on_unauthorized reply (call host options p))
          (r.replies p.calls target p.refreshed)
        ∙ ap
            (λ cb.
              respond host options attempt target cb (response 401 t r.body) (call host options p))
            e

    try_target-no_callback :
        (attempt : ℕ) (target : Text) (p : Progress)
        → options.on_unauthorized ≡ none
        → try_target host options attempt target p ≡ (thrown session_expired, call host options p)
    unfolding respond
    try_target-no_callback attempt target p e =
        try_target-401 none attempt target p e ∙ settle-401 attempt target (call host options p)

    abbrev after_refresh : Progress → Progress
    after_refresh p =
        call host options
          (record (call host options p) { refreshed = true; refresh_attempted = true })

    refreshable :
        (p : Progress)
        → p.refresh_attempted ≡ false
        → may_refresh host options (response 401 t r.body) p ≡ true
    unfolding may_refresh
    refreshable p fresh = ground arith

    try_target-headers :
        (attempt : ℕ) (target : Text) (p : Progress)
        → options.on_unauthorized ≡ some headers
        → p.refresh_attempted ≡ false
        → try_target host options attempt target p ≡ (thrown session_expired, after_refresh p)
    unfolding respond refresh
    try_target-headers attempt target p e fresh =
        try_target-401 (some headers) attempt target p e
        ∙ rw (refreshable (call host options p) fresh) (
            ap (λ reply. settle host options attempt target false reply (after_refresh p))
              (r.replies (p.calls + 1) target true)
            ∙ settle-401 attempt target (after_refresh p))

    run_attempts-thrown :
        (m : Text) (request_target target : Text) (targets : List Text) (left : ℕ) (p q : Progress)
        → 0 < left
        → try_target host options 1 target p ≡ (thrown m, q)
        → run_attempts host options request_target (target ∷ targets) left 1 p ≡ (error m, q)
    unfolding run_attempts run_targets after_target
    run_attempts-thrown m request_target target targets zero p q h e = absurd (omega arith)
    run_attempts-thrown m request_target target targets (suc left) p q h e = rw e

    -- A server that answers every call with 401 ends a signed-in request with the message of an
    -- expired session after at most two calls, if there is no callback or the callback gives headers.
    pub fetch_json_network-expired :
        (path : Value)
        → fallback_fetch_targets path ≢ []
        → (options.on_unauthorized ≡ none) ⊎ (options.on_unauthorized ≡ some headers)
        → (q : Progress) × (fetch_json_network host options path ≡ (error session_expired, q))
          × (q.calls ≤ 2)
    unfolding fetch_json_network
    fetch_json_network-expired path given callback =
        let ready = max_attempts_of-pos options.max_attempts_raw in
        let most = max_attempts_of options.max_attempts_raw in
        elim (list_cases (fallback_fetch_targets path)) [
          | inl empty ↦ absurd (given empty)
          | inr (target, targets, e) ↦ elim callback [
            | inl no_callback ↦ rw e (
              call host options start,
              run_attempts-thrown session_expired target target targets most start
                  (call host options start) ready
                  (try_target-no_callback 1 target start no_callback),
              omega arith,
            )
            | inr gives ↦ rw e (
              after_refresh start,
              run_attempts-thrown session_expired target target targets most start
                  (after_refresh start) ready (try_target-headers 1 target start gives refl),
              omega arith,
            )
          ]
        ]

    try_target-no_headers :
        (attempt : ℕ) (target : Text) (p : Progress)
        → options.on_unauthorized ≡ some no_headers
        → p.refresh_attempted ≡ false
        → try_target host options attempt target p
          ≡ (caught host.body_used, record (call host options p) { refresh_attempted = true })
    unfolding respond refresh
    try_target-no_headers attempt target p e fresh =
        try_target-401 (some no_headers) attempt target p e
        ∙ rw (refreshable (call host options p) fresh) (
            settle-401_used attempt target
              (record (call host options p) { refresh_attempted = true }))

    run_attempts-caught :
        (m target : Text) (p q : Progress)
        → text_eq m session_expired ≡ false
        → try_target host options 1 target p ≡ (caught m, q)
        → (run_attempts host options target (target ∷ []) 1 1 p).0 ≡ error (explain target m)
    unfolding run_attempts run_targets after_target
    run_attempts-caught m target p q other e =
        rw (e, other)
          (elim (Bool-cases (ltb 1 (max_attempts host options))) [
            | inl more ↦ rw more
            | inr last ↦ rw last
          ])

    -- The callback is handed the body of the 401. Where it gives no headers, the request reads the
    -- body a second time: with one attempt and one target the caller gets the platform's error
    -- about that, and never learns that the session has expired.
    pub fetch_json_network-body_used :
        (path : Value) (target : Text)
        → fallback_fetch_targets path ≡ target ∷ []
        → options.on_unauthorized ≡ some no_headers
        → options.max_attempts_raw ≡ some 1
        → host.body_used ≢ session_expired
        → (fetch_json_network host options path).0 ≡ error (explain target host.body_used)
    unfolding fetch_json_network max_attempts_of
    fetch_json_network-body_used path target e callback one other =
        let once =
          run_attempts-caught host.body_used target start
            (record (call host options start) { refresh_attempted = true }) (unequal other)
            (try_target-no_headers 1 target start callback refl) in
        rw e (
          subst
            (λ n.
              (run_attempts host options target (target ∷ []) n 1 start).0
              ≡ error (explain target host.body_used))
            (sym (ap max_attempts_of one)) once)
