-- ===== src/Runtime/Tests.antt =====
-- Runs of the store, and concrete instances of its properties.
use kaims_latest.Prelude.{
  ℕ, ◌≡◌, refl, Bool, true, false, [], ◌∷◌, none, some, if◌then◌else◌, arith,
}
use kaims_latest.Js.Text.{Text, js, text_eq, member}
use kaims_latest.Runtime.Store.{
  func, datum, Slice, Runtime, field_of, same_fields, same_runtime_slice, assign, reconciled,
  put_slice, reconcile, Store, render, commit,
}
use kaims_latest.Runtime.Store.Reads.{Shows, IsLike, IsShared, IsKept, render-Shows}
use kaims_latest.Runtime.Store.Wakes.{render-IsQuiet}

runs : Unit {0}
unfolding js text_eq member field_of same_fields same_runtime_slice assign reconciled put_slice
    reconcile render commit
runs = tt

abbrev alerts_slice : ℕ → ℕ → ℕ → Slice
alerts_slice identity rows refresh = record {
  identity = identity;
  keys = js "rows" ∷ js "refresh" ∷ [];
  at = λ key. if text_eq key (js "rows") then datum rows else func refresh;
}

abbrev runtime_of : Slice → Runtime
runtime_of slice = record { keys = js "alerts" ∷ []; at = λ key. slice }

abbrev store : Store
store = record {
  current = λ key. if text_eq key (js "alerts") then some (alerts_slice 1 5 6) else none;
  changed = false;
  emitted = 0;
}

-- A new function alone wakes nobody; new rows do.
store_tests :
    ((commit (render (runtime_of (alerts_slice 2 5 7)) store)).emitted ≡ 0)
    × ((commit (render (runtime_of (alerts_slice 2 9 7)) store)).emitted ≡ 1)
unfolding runs
store_tests = (refl, refl)

-- The store's slice is not the object of the new value.
distinct-IsShared :
    (b : Bool) (rows refresh : ℕ)
    → IsShared (if b then some (alerts_slice 1 5 6) else none) (alerts_slice 2 rows refresh)
distinct-IsShared true rows refresh = λ same. ground (arith, same)
distinct-IsShared false rows refresh = tt

render-Shows_example :
    Shows
      (runtime_of (alerts_slice 2 5 7))
      (js "alerts")
      (render (runtime_of (alerts_slice 2 5 7)) store).current
unfolding runs
render-Shows_example =
    render-Shows (runtime_of (alerts_slice 2 5 7)) store (js "alerts")
      (λ key. distinct-IsShared (text_eq key (js "alerts")) 5 7) refl

render-IsQuiet_example :
    (p : Slice) × (s : Slice) × (store.current (js "alerts") ≡ some p)
    × ((render (runtime_of (alerts_slice 2 5 7)) store).current (js "alerts") ≡ some s)
    × (s.identity ≡ p.identity)
    × IsLike s (alerts_slice 2 5 7)
    × ((field : Text) → IsKept (field_of field p) (field_of field s))
unfolding runs
render-IsQuiet_example =
    render-IsQuiet (runtime_of (alerts_slice 2 5 7)) store (js "alerts")
      (λ key. distinct-IsShared (text_eq key (js "alerts")) 5 7) refl refl
