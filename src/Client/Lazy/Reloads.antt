-- ===== src/Client/Lazy/Reloads.antt =====
-- app/resilientLazy.ts: how often the page is loaded anew, over the loads of all routes.
use kaims_latest.Prelude.{
  ℕ, ◌+◌, ◌<◌, ◌≡◌, refl, ap, subst, ◌∙◌, true, List, [], ◌∷◌, Option, none, some, arith,
  Bool-cases, inl, inr, All,
}
use kaims_latest.Js.Text.{Text}
use kaims_latest.Client.Lazy.{
  Import, loaded, broken, Outcome, returned, thrown, reloading, Session, is_chunk_load_failure,
  last_reload_at, may_reload, second, called, load,
}

-- A load of some route: what the two calls of its importer give, and the time.
pub record Load (M : Type 0) : Type 0 where
  pub first : Import M
  pub again : Import M
  pub now : ℕ

-- What a load leaves in a log: that it gave the module, or that the page was loaded anew.
pub data Mark : Type 0 where
  success : Mark
  reload : ℕ → Mark

abbrev pub fresh_session : Session
fresh_session = record { guard = none; calls = 0; reloads = [] }

-- The session with its log, the newest mark first.
pub record Run : Type 0 where
  pub session : Session
  pub marks : List Mark

abbrev pub start : Run
start = record { session = fresh_session; marks = [] }

abbrev pub times : List Mark → List ℕ
times [] = []
times (success ∷ ms) = times ms
times (reload t ∷ ms) = t ∷ times ms

module _ (M : Type 0) where
  abbrev pub marked : Outcome M → ℕ → List Mark → List Mark
  marked (returned m) now marks = success ∷ marks
  marked (thrown e) now marks = marks
  marked reloading now marks = reload now ∷ marks

  abbrev pub run_load : Load M → Run → Run
  run_load l r =
      let (session, outcome) = load l.first l.again l.now r.session in
      record { session = session; marks = marked outcome l.now r.marks }

  abbrev pub run_all : List (Load M) → Run → Run
  run_all [] r = r
  run_all (l ∷ ls) r = run_all ls (run_load l r)

-- A time is more than a minute after the reload before it, where no load has succeeded since.
abbrev pub IsLate : ℕ → List Mark → Type 0
IsLate t [] = Unit
IsLate t (success ∷ ms) = Unit
IsLate t (reload u ∷ ms) = u + 60_000 < t

abbrev pub IsSpaced : List Mark → Type 0
IsSpaced [] = Unit
IsSpaced (success ∷ ms) = IsSpaced ms
IsSpaced (reload t ∷ ms) = IsLate t ms × IsSpaced ms

abbrev guard_of : List Mark → Option ℕ
guard_of [] = none
guard_of (success ∷ ms) = none
guard_of (reload t ∷ ms) = some t

-- The guard is the time of the last reload, unless a load has succeeded since.
record IsGuarded (s : Session) (marks : List Mark) : Type 0 where
  guard : s.guard ≡ guard_of marks
  reloads : s.reloads ≡ times marks
  positive : All (λ t. 0 < t) (times marks)
  spaced : IsSpaced marks

may_reload-IsLate :
    (now : ℕ) (ms : List Mark)
    → All (λ t. 0 < t) (times ms)
    → may_reload now (last_reload_at (guard_of ms)) ≡ true
    → IsLate now ms
may_reload-IsLate now [] p h = tt
may_reload-IsLate now (success ∷ ms) p h = tt
may_reload-IsLate now (reload t ∷ ms) p h = ground (arith, h, p.0)

IsGuarded-called :
    (s : Session) (marks : List Mark) → IsGuarded s marks → IsGuarded (called s) marks
IsGuarded-called s marks g = record {
  guard = g.guard;
  reloads = g.reloads;
  positive = g.positive;
  spaced = g.spaced;
}

module _ (M : Type 0) where
  -- What is proved of a load: the invariant for what it leaves.
  abbrev Leaves : ℕ → List Mark → Session × Outcome M → Type 0
  Leaves now marks (s, outcome) = IsGuarded s (marked M outcome now marks)

  second-IsGuarded :
      (again : Import M) (now : ℕ) (s : Session) (marks : List Mark)
      → 0 < now
      → IsGuarded s marks
      → Leaves now marks (second again now s)
  second-IsGuarded (loaded m) now s marks h g = record {
    guard = refl;
    reloads = g.reloads;
    positive = g.positive;
    spaced = g.spaced;
  }
  second-IsGuarded (broken e) now s marks h g = elim (Bool-cases (is_chunk_load_failure e)) [
    | inr other ↦ rw other g
    | inl chunk ↦ elim (Bool-cases (may_reload now (last_reload_at s.guard))) [
      | inr soon ↦ rw (chunk, soon) g
      | inl late ↦
          rw (chunk, late)
            (record {
              guard = refl;
              reloads = ap (◌∷◌ now) g.reloads;
              positive = (h, g.positive);
              spaced = (
                may_reload-IsLate now marks g.positive
                    (subst (λ o. may_reload now (last_reload_at o) ≡ true) g.guard late),
                g.spaced,
              );
            })
    ]
  ]

  load-IsGuarded :
      (first again : Import M) (now : ℕ) (s : Session) (marks : List Mark)
      → 0 < now
      → IsGuarded s marks
      → Leaves now marks (load first again now s)
  unfolding load
  load-IsGuarded (loaded m) again now s marks h g = record {
    guard = refl;
    reloads = g.reloads;
    positive = g.positive;
    spaced = g.spaced;
  }
  load-IsGuarded (broken e) again now s marks h g = elim (Bool-cases (is_chunk_load_failure e)) [
    | inr other ↦ rw other (IsGuarded-called s marks g)
    | inl chunk ↦ rw chunk (
        second-IsGuarded again now (called (called s)) marks h
          (IsGuarded-called (called s) marks (IsGuarded-called s marks g)))
  ]

  run_all-IsGuarded :
      (ls : List (Load M)) (r : Run)
      → All (λ l. 0 < l.now) ls
      → IsGuarded r.session r.marks
      → IsGuarded (run_all M ls r).session (run_all M ls r).marks
  run_all-IsGuarded [] r h g = g
  run_all-IsGuarded (l ∷ ls) r h g =
      run_all-IsGuarded ls (run_load M l r) h.1
        (load-IsGuarded l.first l.again l.now r.session r.marks h.0 g)

  -- Over any loads of any routes, at any times but 0, that succeed or fail in any way: the times at
  -- which the page was loaded anew are those of the log, and each of them is more than a minute after
  -- the one before it, unless a load has succeeded between the two.
  pub run_all-IsSpaced :
      (ls : List (Load M))
      → All (λ l. 0 < l.now) ls
      → ((run_all M ls start).session.reloads ≡ times (run_all M ls start).marks)
        × IsSpaced (run_all M ls start).marks
  run_all-IsSpaced ls h =
      let g =
        run_all-IsGuarded ls start h
          (record { guard = refl; reloads = refl; positive = tt; spaced = tt }) in
      (g.reloads, g.spaced)

-- A broken route between routes that load: at each of the times, its code fails twice and then the
-- code of another route is given.
module _ {M : Type 0} (e f : Text) (m : M) where
  abbrev pub in_turn : List ℕ → List (Load M)
  in_turn [] = []
  in_turn (t ∷ ts) =
      record { first = broken e; again = broken f; now = t }
      ∷ record { first = loaded m; again = loaded m; now = t }
      ∷ in_turn ts

  abbrev pub newest_first : List ℕ → List ℕ → List ℕ
  newest_first [] ts = ts
  newest_first (u ∷ us) ts = newest_first us (u ∷ ts)

  fails_and_loads :
      (t : ℕ) (r : Run)
      → is_chunk_load_failure e ≡ true
      → is_chunk_load_failure f ≡ true
      → r.session.guard ≡ none
      → (let after =
            run_load M
              (record { first = loaded m; again = loaded m; now = t })
              (run_load M (record { first = broken e; again = broken f; now = t }) r) in
          (after.session.guard ≡ none) × (after.session.reloads ≡ t ∷ r.session.reloads))
  unfolding load
  fails_and_loads t r he hf free = rw (he, hf, free) (refl, refl)

  run_all-reloads :
      (ts : List ℕ) (r : Run)
      → is_chunk_load_failure e ≡ true
      → is_chunk_load_failure f ≡ true
      → r.session.guard ≡ none
      → (run_all M (in_turn ts) r).session.reloads ≡ newest_first ts r.session.reloads
  run_all-reloads [] r he hf free = refl
  run_all-reloads (t ∷ ts) r he hf free =
      let (again_free, one_more) = fails_and_loads t r he hf free in
      run_all-reloads ts _ he hf again_free ∙ ap (newest_first ts) one_more

  -- The guard is one for all routes, so the success of any route takes it away: a route of which both
  -- calls of the importer fail for want of its code has the page loaded anew every time, at whatever
  -- times, where another route is loaded after each failure.
  pub run_all-shared_guard :
      (ts : List ℕ)
      → is_chunk_load_failure e ≡ true
      → is_chunk_load_failure f ≡ true
      → (run_all M (in_turn ts) start).session.reloads ≡ newest_first ts []
  run_all-shared_guard ts he hf = run_all-reloads ts start he hf refl
