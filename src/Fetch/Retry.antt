-- ===== src/Fetch/Retry.antt =====
-- appHelpers.jsx: which failures `fetchJsonNetwork` rides out, and which it repeats.
use kaims_latest.Prelude.{
  ℕ, zero, suc, ◌+◌, ◌≤◌, ◌<◌, ◌≡◌, ◌≢◌, refl, ◌∙◌, Bool, true, false, List, [], ◌∷◌, ◌++◌, Option,
  none, some, if◌then◌else◌, arith, inl, inr, ◌⊎◌,
}
use kaims_latest.Js.Text.{Text, js, text_eq, nonempty}
use kaims_latest.Js.Value.{Value, decimal}
use kaims_latest.Fetch.{
  Reply, Refresh, response, Options, Progress, start, Host, value, finished, unfinished, returned,
  left_targets, parsed, is_ok, call, wait, explain, session_expired, max_attempts_of, max_attempts,
  settle, respond, may_refresh, try_target, after_target, run_targets, run_attempts,
  fetch_json_network, fallback_fetch_targets, read_payload,
}

pub list_cases {ℓ} :
    {A : Type ℓ} (xs : List A) → (xs ≡ []) ⊎ ((x : A) × (rest : List A) × (xs ≡ x ∷ rest))
list_cases [] = inl refl
list_cases (x ∷ rest) = inr (x, rest, refl)

-- A status for which no refresh of the session is tried.
pub respond-settle :
    (host : Host) (options : Options) (attempt : ℕ) (target : Text) (callback : Option Refresh)
    (reply : Reply) (p : Progress)
    → may_refresh host options reply p ≡ false
    → respond host options attempt target callback reply p
      ≡ settle host options attempt target false reply p
unfolding respond
respond-settle host options attempt target none reply p h = refl
respond-settle host options attempt target (some callback) reply p h = ground arith

abbrev pub http_error : ℕ → Text → Text
http_error status text =
    js "HTTP " ++ decimal status ++ js ": " ++ (if nonempty text then text else js "request failed")

-- The message of a status is no message that `catch` treats on its own.
pub http_error-plain :
    (status : ℕ) (text : Text)
    → (text_eq (http_error status text) session_expired ≡ false)
      × (text_eq (http_error status text) (js "Failed to fetch") ≡ false)
unfolding js text_eq
http_error-plain status text = (refl, refl)

pub explain-http_error :
    (request_target : Text) (status : ℕ) (text : Text)
    → explain request_target (http_error status text) ≡ http_error status text
unfolding explain
explain-http_error request_target status text = rw ((http_error-plain status text).1)

-- A server that answers the first `n` calls with server errors, and the next one with a payload
-- that is accepted as `v`.
pub record Recovers (host : Host) (n : ℕ) (v : Value) : Type 0 where
  pub bad : ℕ → ℕ
  pub bad_text : ℕ → Text
  pub bad_json : ℕ → Option Value
  pub good : ℕ
  pub text : Text
  pub json : Value
  pub fails :
      (k : ℕ) (target : Text) (b : Bool)
      → k < n
      → host.server k target b ≡ response (bad k) (bad_text k) (bad_json k)
  pub fatal : (k : ℕ) → 500 ≤ bad k
  pub works : (target : Text) (b : Bool) → host.server n target b ≡ response good text (some json)
  pub succeeds : is_ok good ≡ true
  pub accepts : (target : Text) → host.parse_internal target json ≡ parsed v

module _ (host : Host) (options : Options) where
  abbrev limit : ℕ
  limit = max_attempts host options

  -- A server error with attempts left ends the attempt at its first target.
  settle-5xx :
      (attempt : ℕ) (target : Text) (s : ℕ) (t : Text) (j : Option Value) (p : Progress)
      → 500 ≤ s
      → attempt < limit
      → settle host options attempt target false (response s t j) p
        ≡ (left_targets, wait host options attempt p)
  unfolding settle
  settle-5xx attempt target s t j p h k = ground arith

  try_target-5xx :
      (attempt : ℕ) (target : Text) (s : ℕ) (t : Text) (j : Option Value) (p : Progress)
      → host.server p.calls target p.refreshed ≡ response s t j
      → 500 ≤ s
      → attempt < limit
      → try_target host options attempt target p
        ≡ (left_targets, wait host options attempt (call host options p))
  unfolding try_target may_refresh
  try_target-5xx attempt target s t j p r h k = rw r (
      respond-settle host options attempt target options.on_unauthorized (response s t j)
        (call host options p) (ground arith)
      ∙ settle-5xx attempt target s t j (call host options p) h k)

  run_targets-5xx :
      (request_target target : Text) (targets : List Text) (attempt s : ℕ) (t : Text)
      (j : Option Value) (p : Progress)
      → host.server p.calls target p.refreshed ≡ response s t j
      → 500 ≤ s
      → attempt < limit
      → run_targets host options request_target attempt (target ∷ targets) p
        ≡ unfinished (wait host options attempt (call host options p))
  unfolding run_targets after_target
  run_targets-5xx request_target target targets attempt s t j p r h k =
      rw (try_target-5xx attempt target s t j p r h k)

  settle-good :
      (attempt : ℕ) (target : Text) (s : ℕ) (t : Text) (j v : Value) (p : Progress)
      → is_ok s ≡ true
      → host.parse_internal target j ≡ parsed v
      → settle host options attempt target false (response s t (some j)) p ≡ (returned v, p)
  unfolding settle
  settle-good attempt target s t j v p h k = rw (h, k, read_payload)

  try_target-good :
      (attempt : ℕ) (target : Text) (s : ℕ) (t : Text) (j v : Value) (p : Progress)
      → host.server p.calls target p.refreshed ≡ response s t (some j)
      → is_ok s ≡ true
      → host.parse_internal target j ≡ parsed v
      → try_target host options attempt target p ≡ (returned v, call host options p)
  unfolding try_target may_refresh
  try_target-good attempt target s t j v p r h k = rw r (
      respond-settle host options attempt target options.on_unauthorized (response s t (some j))
        (call host options p) (ground arith)
      ∙ settle-good attempt target s t j v (call host options p) h k)

  run_targets-good :
      (request_target target : Text) (targets : List Text) (attempt s : ℕ) (t : Text) (j v : Value)
      (p : Progress)
      → host.server p.calls target p.refreshed ≡ response s t (some j)
      → is_ok s ≡ true
      → host.parse_internal target j ≡ parsed v
      → run_targets host options request_target attempt (target ∷ targets) p
        ≡ finished (value v) (call host options p)
  unfolding run_targets after_target
  run_targets-good request_target target targets attempt s t j v p r h k =
      rw (try_target-good attempt target s t j v p r h k)

  run_attempts-Recovers :
      (n : ℕ) (v : Value) (r : Recovers host n v) (request_target target : Text)
      (targets : List Text) (m left attempt : ℕ) (p : Progress)
      → p.calls + m ≡ n
      → m < left
      → attempt + left ≡ limit + 1
      → (q : Progress) × (run_attempts host options request_target (target ∷ targets) left attempt p
          ≡ (value v, q))
        × (q.calls ≡ n + 1)
  unfolding run_attempts
  run_attempts-Recovers n v r request_target target targets m zero attempt p e h k =
      absurd (omega arith)
  run_attempts-Recovers n v r request_target target targets zero (suc left) attempt p e h k =
      let here : p.calls ≡ n = omega arith in
      (
        call host options p,
        rw (
            run_targets-good request_target target targets attempt r.good r.text r.json v p
              (rw here (r.works target p.refreshed)) r.succeeds (r.accepts target)),
        omega arith,
      )
  run_attempts-Recovers n v r request_target target targets (suc m) (suc left) attempt p e h k =
      let step =
        run_targets-5xx request_target target targets attempt (r.bad p.calls) (r.bad_text p.calls)
          (r.bad_json p.calls) p (r.fails p.calls target p.refreshed (omega arith))
          (r.fatal p.calls) (omega arith) in
      let (q, done, calls) =
        run_attempts-Recovers n v r request_target target targets m left (suc attempt)
          (wait host options attempt (call host options p)) (omega arith) (omega arith)
          (omega arith) in
      (q, rw step done, calls)

  -- The request rides out server errors while attempts are left: the value is returned with the
  -- first call after them.
  pub fetch_json_network-Recovers :
      (path v : Value) (n : ℕ)
      → Recovers host n v
      → n < max_attempts_of options.max_attempts_raw
      → fallback_fetch_targets path ≢ []
      → (q : Progress) × (fetch_json_network host options path ≡ (value v, q)) × (q.calls ≡ n + 1)
  unfolding fetch_json_network
  fetch_json_network-Recovers path v n r h nonempty_path =
      elim (list_cases (fallback_fetch_targets path)) [
        | inl empty ↦ absurd (nonempty_path empty)
        | inr (target, targets, e) ↦ rw e (
            run_attempts-Recovers n v r target target targets n limit 1 start (omega arith) h
              (omega arith))
      ]
