-- ===== src/Fetch/Result.antt =====
-- appHelpers.jsx: where a value that `fetchJsonNetwork` returns comes from.
use kaims_latest.Prelude.{
  ℕ, zero, suc, ◌≡◌, refl, subst, Bool, true, false, ◌&&◌, List, [], ◌∷◌, Option, none, some, ltb,
  leb, ◌==◌, if◌then◌else◌, arith,
}
use kaims_latest.Js.Text.{Text}
use kaims_latest.Js.Value.{Value, text_of}
use kaims_latest.Fetch.{
  Reply, Refresh, rejected, response, headers, no_headers, throws, Options, Progress, start, Host,
  Ending, Outcome, value, error, Round, finished, unfinished, Step, leaves, next_target, proceed,
  resume, is_empty, returned, thrown, left_targets, caught, Parsed, parsed, invalid, is_ok, call,
  give_up, first_or, max_attempts_of, max_attempts, settle, refresh, respond, may_refresh,
  try_target, after_target, run_targets, run_attempts, fetch_json_network, fallback_fetch_targets,
  read_payload,
}

-- A response that accounts for the value `v`: a status of success, and a payload that the schema
-- check of its target turned into `v`.
pub record Delivered (host : Host) (v : Value) : Type 0 where
  pub number : ℕ
  pub target : Text
  pub refreshed : Bool
  pub status : ℕ
  pub text : Text
  pub json : Value
  pub replied : host.server number target refreshed ≡ response status text (some json)
  pub succeeded : is_ok status ≡ true
  pub accepted : host.parse_internal target json ≡ parsed v

module _ (host : Host) (options : Options) where
  abbrev OkEnding : Ending → Type 0
  OkEnding (returned v) = Delivered host v
  OkEnding (thrown m) = Unit
  OkEnding left_targets = Unit
  OkEnding (caught m) = Unit

  abbrev OkOutcome : Outcome → Type 0
  OkOutcome (value v) = Delivered host v
  OkOutcome (error m) = Unit

  abbrev OkRound : Round → Type 0
  OkRound (finished outcome p) = OkOutcome outcome
  OkRound (unfinished p) = Unit

  abbrev OkStep : Step → Type 0
  OkStep (leaves round) = OkRound round
  OkStep (next_target p) = Unit

  accepted-OkEnding :
      (n : ℕ) (target : Text) (b : Bool) (status : ℕ) (text : Text) (json : Value) (result : Parsed)
      → host.server n target b ≡ response status text (some json)
      → is_ok status ≡ true
      → host.parse_internal target json ≡ result
      → OkEnding (elim result [ parsed v ↦ returned v | invalid m ↦ caught m ])
  accepted-OkEnding n target b status text json (parsed v) r o a = record {
    number = n;
    target = target;
    refreshed = b;
    status = status;
    text = text;
    json = json;
    replied = r;
    succeeded = o;
    accepted = a;
  }
  accepted-OkEnding n target b status text json (invalid m) r o a = tt

  read_payload-OkEnding :
      (n : ℕ) (target : Text) (b : Bool) (status : ℕ) (text : Text) (json : Option Value)
      → host.server n target b ≡ response status text json
      → is_ok status ≡ true
      → OkEnding (read_payload host options target json)
  unfolding read_payload
  read_payload-OkEnding n target b status text none r o = tt
  read_payload-OkEnding n target b status text (some json) r o =
      accepted-OkEnding n target b status text json (host.parse_internal target json) r o refl

  OkEnding-if :
      (b : Bool) (e f : Ending × Progress)
      → (b ≡ true → OkEnding e.0)
      → (b ≡ false → OkEnding f.0)
      → OkEnding (if b then e else f).0
  OkEnding-if true e f h k = h refl
  OkEnding-if false e f h k = k refl

  settle-OkEnding :
      (attempt : ℕ) (target : Text) (used : Bool) (reply : Reply) (p : Progress) (n : ℕ) (b : Bool)
      → host.server n target b ≡ reply
      → OkEnding (settle host options attempt target used reply p).0
  unfolding settle
  settle-OkEnding attempt target used (rejected m) p n b r = tt
  settle-OkEnding attempt target used (response status text json) p n b r =
      OkEnding-if (is_ok status) _ _ (read_payload-OkEnding n target b status text json r) (λ bad.
        OkEnding-if used _ _ (λ u. tt)
          (λ u.
            OkEnding-if (status == 401 && options.authenticated) _ _ (λ u. tt)
              (λ w.
                OkEnding-if (leb 500 status && ltb attempt (max_attempts host options)) _ _
                  (λ u. tt) (λ u. tt))))

  refresh-OkEnding :
      (attempt : ℕ) (target : Text) (callback : Refresh) (reply : Reply) (p : Progress) (n : ℕ)
      (b : Bool)
      → host.server n target b ≡ reply
      → OkEnding (refresh host options attempt target callback reply p).0
  unfolding refresh
  refresh-OkEnding attempt target headers reply p n b r =
      settle-OkEnding attempt target false _ _ p.calls true refl
  refresh-OkEnding attempt target no_headers reply p n b r =
      settle-OkEnding attempt target true reply _ n b r
  refresh-OkEnding attempt target (throws m) reply p n b r = tt

  respond-OkEnding :
      (attempt : ℕ) (target : Text) (callback : Option Refresh) (reply : Reply) (p : Progress)
      (n : ℕ) (b : Bool)
      → host.server n target b ≡ reply
      → OkEnding (respond host options attempt target callback reply p).0
  unfolding respond
  respond-OkEnding attempt target none reply p n b r =
      settle-OkEnding attempt target false reply p n b r
  respond-OkEnding attempt target (some callback) reply p n b r =
      OkEnding-if (may_refresh host options reply p) _ _
        (λ u. refresh-OkEnding attempt target callback reply p n b r)
        (λ u. settle-OkEnding attempt target false reply p n b r)

  after_target-OkStep :
      (request_target : Text) (attempt : ℕ) (last : Bool) (e : Ending × Progress)
      → OkEnding e.0
      → OkStep (after_target host options request_target attempt last e)
  unfolding after_target
  after_target-OkStep request_target attempt last (returned v, p) h = h
  after_target-OkStep request_target attempt last (thrown m, p) h = tt
  after_target-OkStep request_target attempt last (left_targets, p) h = tt
  after_target-OkStep request_target attempt last (caught m, p) h = ground arith

  proceed-OkRound :
      (step : Step) (rest : Progress → Round)
      → OkStep step
      → ((p : Progress) → OkRound (rest p))
      → OkRound (proceed step rest)
  proceed-OkRound (leaves round) rest h k = h
  proceed-OkRound (next_target p) rest h k = k p

  resume-OkOutcome :
      (round : Round) (rest : Progress → Outcome × Progress)
      → OkRound round
      → ((p : Progress) → OkOutcome (rest p).0)
      → OkOutcome (resume round rest).0
  resume-OkOutcome (finished outcome p) rest h k = h
  resume-OkOutcome (unfinished p) rest h k = k p

  run_targets-OkRound :
      (request_target : Text) (attempt : ℕ) (targets : List Text) (p : Progress)
      → OkRound (run_targets host options request_target attempt targets p)
  unfolding run_targets try_target
  run_targets-OkRound request_target attempt [] p = tt
  run_targets-OkRound request_target attempt (target ∷ targets) p =
      proceed-OkRound _ _
        (after_target-OkStep request_target attempt (is_empty targets) _ (
          respond-OkEnding attempt target options.on_unauthorized _ (call host options p) p.calls
            p.refreshed refl))
        (run_targets-OkRound request_target attempt targets)

  give_up-OkOutcome : (o : Option Text) → OkOutcome (give_up o)
  give_up-OkOutcome none = tt
  give_up-OkOutcome (some m) = tt

  run_attempts-OkOutcome :
      (request_target : Text) (targets : List Text) (left attempt : ℕ) (p : Progress)
      → OkOutcome (run_attempts host options request_target targets left attempt p).0
  unfolding run_attempts
  run_attempts-OkOutcome request_target targets zero attempt p = give_up-OkOutcome p.last_error
  run_attempts-OkOutcome request_target targets (suc left) attempt p =
      resume-OkOutcome _ _ (run_targets-OkRound request_target attempt targets p)
        (run_attempts-OkOutcome request_target targets left (suc attempt))

  -- A value that the caller receives was delivered: some call got a response with a status of
  -- success, and its payload passed the schema check of that call's target as this value.
  pub fetch_json_network-Delivered :
      (path v : Value) → (fetch_json_network host options path).0 ≡ value v → Delivered host v
  unfolding fetch_json_network
  fetch_json_network-Delivered path v e =
      let targets = fallback_fetch_targets path in
      subst OkOutcome e (
        run_attempts-OkOutcome (first_or (text_of path) targets) targets
          (max_attempts_of options.max_attempts_raw) 1 start)
