-- ===== src/Client/Lazy.antt =====
-- app/resilientLazy.ts: a route whose code is loaded late, and the page that is loaded anew when its
-- code has gone.
pub mod Reloads
use kaims_latest.Prelude.{
  ℕ, ◌+◌, ◌-◌, ltb, Bool, true, false, not, ◌&&◌, ◌||◌, List, [], ◌∷◌, any, Option, none, some,
  ◌==◌, if◌then◌else◌,
}
use kaims_latest.Js.Text.{Text, js, lower, includes}

-- What a call of `importer` gives: the module, or an error with its message.
pub data Import {ℓ} (M : Type ℓ) : Type ℓ where
  loaded : M → Import M
  broken : Text → Import M

pub data Outcome {ℓ} (M : Type ℓ) : Type ℓ where
  returned : M → Outcome M
  thrown : Text → Outcome M
  reloading : Outcome M

-- The item of the session's storage, how often the importer was called, and the times at which the
-- page was loaded anew.
pub record Session : Type 0 where
  pub guard : Option ℕ
  pub calls : ℕ
  pub reloads : List ℕ

abbrev pub failure_words : List Text
failure_words =
    js "dynamically imported module"
    ∷ js "failed to fetch"
    ∷ js "loading chunk"
    ∷ js "importing a module script"
    ∷ []

unfoldable pub is_chunk_load_failure : Text → Bool
unfolding js lower includes
is_chunk_load_failure message = any (λ words. includes (lower message) words) failure_words

-- `Number(sessionStorage.getItem(key) || 0)`
abbrev pub last_reload_at : Option ℕ → ℕ
last_reload_at none = 0
last_reload_at (some t) = t

abbrev pub may_reload : ℕ → ℕ → Bool
may_reload now last = last == 0 || ltb 60_000 (now - last)

abbrev pub called : Session → Session
called s = record s { calls = 1 + s.calls }

module _ {ℓ} {M : Type ℓ} where
  -- The second call, 250 ms later, and what follows it at the time `now`.
  abbrev pub second : Import M → ℕ → Session → Session × Outcome M
  second (loaded m) now s = (record s { guard = none }, returned m)
  second (broken e) now s =
      if not (is_chunk_load_failure e)
      then (s, thrown e)
      else if may_reload now (last_reload_at s.guard)
      then (record s { guard = some now; reloads = now ∷ s.reloads }, reloading)
      else (s, thrown e)

  unfoldable pub load : Import M → Import M → ℕ → Session → Session × Outcome M
  unfolding is_chunk_load_failure
  load (loaded m) again now s = (record (called s) { guard = none }, returned m)
  load (broken e) again now s =
      if is_chunk_load_failure e then second again now (called (called s)) else (called s, thrown e)
