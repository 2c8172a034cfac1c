-- ===== src/Fetch/Bounds.antt =====
-- appHelpers.jsx: how often `fetchJsonNetwork` calls the network, and how long it waits.
use kaims_latest.Prelude.{
  ℕ, zero, suc, ◌+◌, ◌*◌, ◌≤◌, ◌≡◌, refl, Bool, true, false, List, [], ◌∷◌, Option, none, some,
  length, if◌then◌else◌, arith, Bool-cases, inl, inr,
}
use kaims_latest.Js.Text.{Text, unique, unique_from}
use kaims_latest.Js.Value.{Value, text_of}
use kaims_latest.Fetch.{
  first_or, Reply, Refresh, rejected, response, headers, no_headers, throws, Options, Progress,
  start, Host, Ending, Outcome, Round, finished, unfinished, Step, leaves, next_target, proceed,
  resume, is_empty, after_target, returned, thrown, left_targets, caught, max_attempts_of, settle,
  refresh, respond, try_target, run_targets, run_attempts, fetch_json_network,
  fallback_fetch_targets, may_refresh,
}

-- The calls made, and the one that a refresh may still make.
abbrev budget : Progress → ℕ
budget p = p.calls + (if p.refresh_attempted then 0 else 1)

abbrev progress : Round → Progress
progress (finished outcome p) = p
progress (unfinished p) = p

abbrev step_progress : Step → Progress
step_progress (leaves round) = progress round
step_progress (next_target p) = p

budget-proceed :
    (n m : ℕ) (step : Step) (rest : Progress → Round)
    → budget (step_progress step) ≤ n
    → ((p : Progress) → budget p ≤ n → budget (progress (rest p)) ≤ n + m)
    → budget (progress (proceed step rest)) ≤ n + m
budget-proceed n m (leaves round) rest h k = omega arith
budget-proceed n m (next_target p) rest h k = k p h

budget-resume :
    (n m : ℕ) (round : Round) (rest : Progress → Outcome × Progress)
    → budget (progress round) ≤ n
    → ((p : Progress) → budget p ≤ n → budget (rest p).1 ≤ n + m)
    → budget (resume round rest).1 ≤ n + m
budget-resume n m (finished outcome p) rest h k = omega arith
budget-resume n m (unfinished p) rest h k = k p h

module _ (host : Host) (options : Options) where
  budget-settle :
      (attempt : ℕ) (target : Text) (used : Bool) (reply : Reply) (p : Progress)
      → budget (settle host options attempt target used reply p).1 ≡ budget p
  unfolding settle
  budget-settle attempt target used (rejected m) p = refl
  budget-settle attempt target used (response status text json) p = ground arith

  budget-refresh :
      (attempt : ℕ) (target : Text) (callback : Refresh) (reply : Reply) (p : Progress)
      → p.refresh_attempted ≡ false
      → budget (refresh host options attempt target callback reply p).1 ≤ budget p
  unfolding refresh
  budget-refresh attempt target headers reply p h = ground (
    arith,
    budget-settle attempt target false (host.server p.calls target true)
        (record p { calls = p.calls + 1; refreshed = true; refresh_attempted = true }),
  )
  budget-refresh attempt target no_headers reply p h =
      ground
        (arith, budget-settle attempt target true reply (record p { refresh_attempted = true }))
  budget-refresh attempt target (throws m) reply p h = ground arith

  may_refresh-fresh :
      (reply : Reply) (p : Progress)
      → may_refresh host options reply p ≡ true
      → p.refresh_attempted ≡ false
  unfolding may_refresh
  may_refresh-fresh (rejected m) p h = cc
  may_refresh-fresh (response status text json) p h = ground arith

  budget-respond :
      (attempt : ℕ) (target : Text) (callback : Option Refresh) (reply : Reply) (p : Progress)
      → budget (respond host options attempt target callback reply p).1 ≤ budget p
  unfolding respond
  budget-respond attempt target none reply p =
      omega (arith, budget-settle attempt target false reply p)
  budget-respond attempt target (some callback) reply p =
      elim (Bool-cases (may_refresh host options reply p)) [
        | inl again ↦
            rw again
              (budget-refresh attempt target callback reply p (may_refresh-fresh reply p again))
        | inr as_is ↦ rw as_is (omega (arith, budget-settle attempt target false reply p))
      ]

  budget-try_target :
      (attempt : ℕ) (target : Text) (p : Progress)
      → budget (try_target host options attempt target p).1 ≤ budget p + 1
  unfolding try_target
  budget-try_target attempt target p = omega (
    arith,
    budget-respond attempt target options.on_unauthorized (host.server p.calls target p.refreshed)
        (record p { calls = p.calls + 1 }),
  )

  budget-after_target :
      (request_target : Text) (attempt : ℕ) (last : Bool) (e : Ending × Progress)
      → budget (step_progress (after_target host options request_target attempt last e))
        ≡ budget e.1
  unfolding after_target
  budget-after_target request_target attempt last (returned v, p) = refl
  budget-after_target request_target attempt last (thrown m, p) = refl
  budget-after_target request_target attempt last (left_targets, p) = refl
  budget-after_target request_target attempt last (caught m, p) = ground arith

  budget-run_targets :
      (request_target : Text) (attempt : ℕ) (targets : List Text) (p : Progress) (n : ℕ)
      → budget p ≤ n
      → budget (progress (run_targets host options request_target attempt targets p))
        ≤ n + length targets
  unfolding run_targets
  budget-run_targets request_target attempt [] p n h = omega arith
  budget-run_targets request_target attempt (target ∷ targets) p n h = omega (
    arith,
    budget-proceed (n + 1) (length targets)
        (after_target host options request_target attempt (is_empty targets)
          (try_target host options attempt target p))
        (λ p'. run_targets host options request_target attempt targets p')
        (omega (
          arith,
          budget-after_target request_target attempt (is_empty targets)
              (try_target host options attempt target p),
          budget-try_target attempt target p,
        ))
        (λ p' k. budget-run_targets request_target attempt targets p' (n + 1) k),
  )

  budget-run_attempts :
      (request_target : Text) (targets : List Text) (left attempt : ℕ) (p : Progress) (n : ℕ)
      → budget p ≤ n
      → budget (run_attempts host options request_target targets left attempt p).1
        ≤ n + left * length targets
  unfolding run_attempts
  budget-run_attempts request_target targets zero attempt p n h = omega arith
  budget-run_attempts request_target targets (suc left) attempt p n h = grind (
    arith,
    budget-resume (n + length targets) (left * length targets)
        (run_targets host options request_target attempt targets p)
        (λ p'. run_attempts host options request_target targets left (suc attempt) p')
        (budget-run_targets request_target attempt targets p n h)
        (λ p' k.
          budget-run_attempts request_target targets left (suc attempt) p' (n + length targets) k),
  )

length-unique_from : (seen ts : List Text) → length (unique_from seen ts) ≤ length ts
unfolding unique_from
length-unique_from seen [] = omega arith
length-unique_from seen (t ∷ ts) =
    ground (arith, length-unique_from (t ∷ seen) ts, length-unique_from seen ts)

length-fallback_fetch_targets : (path : Value) → length (fallback_fetch_targets path) ≤ 2
unfolding fallback_fetch_targets unique
length-fallback_fetch_targets path = ground arith

max_attempts_of-le : (n : Option ℕ) → max_attempts_of n ≤ 4
unfolding max_attempts_of
max_attempts_of-le none = omega arith
max_attempts_of-le (some n) = ground arith

-- A request makes at most one call for each attempt and target, and one more for a refresh of the
-- session; with at most four attempts and two targets that is nine calls, whatever the server does.
pub fetch_json_network-calls :
    (host : Host) (options : Options) (path : Value)
    → ((fetch_json_network host options path).1.calls
        ≤ max_attempts_of options.max_attempts_raw * length (fallback_fetch_targets path) + 1)
      × ((fetch_json_network host options path).1.calls ≤ 9)
unfolding fetch_json_network
fetch_json_network-calls host options path =
    let targets = fallback_fetch_targets path in
    let bound =
      budget-run_attempts host options (first_or (text_of path) targets) targets
        (max_attempts_of options.max_attempts_raw) 1 start 1 (omega arith) in
    (
      omega (arith, bound),
      grind (
        arith,
        bound,
        length-fallback_fetch_targets path,
        max_attempts_of-le options.max_attempts_raw,
      ),
    )
