-- ===== src/Runtime/Store.antt =====
-- app/routeRuntime.tsx: `sameRuntimeSlice`, and what a rendering of the provider does to its store.
pub mod Reads
pub mod Wakes
use kaims_latest.Prelude.{
  ℕ, suc, ◌+◌, Bool, true, false, not, ◌&&◌, ◌||◌, List, [], ◌∷◌, ◌++◌, map, Option, none, some,
  ◌==◌, if◌then◌else◌,
}
use kaims_latest.Js.Text.{Text, text_eq, member}

-- A property of a slice as `Object.is` and `typeof` see it: absent, a function, or anything else.
-- Equal numbers stand for values that `Object.is` takes for the same.
pub data Field : Type 0 where
  undefined : Field
  func : ℕ → Field
  datum : ℕ → Field

-- A slice is an object: its identity, its own keys, and what it holds under them.
pub record Slice : Type 0 where
  pub identity : ℕ
  pub keys : List Text
  pub at : Text → Field

-- A value of the provider: its own keys and their slices.
pub record Runtime : Type 0 where
  pub keys : List Text
  pub at : Text → Slice

-- `slice[key]`
unfoldable pub field_of : Text → Slice → Field
unfolding member
field_of key slice = if member key slice.keys then slice.at key else undefined

abbrev pub object_is : Field → Field → Bool
object_is undefined undefined = true
object_is (func m) (func n) = m == n
object_is (datum m) (datum n) = m == n
object_is _ _ = false

abbrev pub both_functions : Field → Field → Bool
both_functions (func m) (func n) = true
both_functions _ _ = false

-- The loop over the keys of both slices.
unfoldable pub same_fields : List Text → Slice → Slice → Bool
unfolding field_of
same_fields [] left right = true
same_fields (key ∷ keys) left right =
    let rest = same_fields keys left right in
    if both_functions (field_of key left) (field_of key right)
    then rest
    else if not (object_is (field_of key left) (field_of key right))
    then false
    else rest

unfoldable pub same_runtime_slice : Option Slice → Slice → Bool
unfolding same_fields
same_runtime_slice none next = false
same_runtime_slice (some previous) next =
    if previous.identity == next.identity
    then true
    else same_fields (previous.keys ++ next.keys) previous next

-- `Object.assign(previous, next)`: the same object, with the properties of the next one.
unfoldable pub assign : Slice → Slice → Slice
unfolding member
assign previous next = record previous {
  keys = previous.keys ++ next.keys;
  at = λ key. if member key next.keys then next.at key else previous.at key;
}

-- What the store holds under a key after the round for that key: the previous object with the next
-- one's properties, or the next object. The slices of different keys are different objects.
unfoldable pub reconciled : Option Slice → Slice → Slice
unfolding same_runtime_slice assign
reconciled none next = next
reconciled (some previous) next =
    if same_runtime_slice (some previous) next then assign previous next else next

abbrev pub Current : Type 0
Current = Text → Option Slice

unfoldable pub put_slice : Text → Slice → Current → Current
unfolding text_eq
put_slice key slice current = λ k. if text_eq key k then some slice else current k

-- The loop over the keys of the new value, with whether a slice was replaced.
unfoldable pub reconcile : List Text → Runtime → Current → Bool → Current × Bool
unfolding put_slice same_runtime_slice reconciled
reconcile [] value current replaced = (current, replaced)
reconcile (key ∷ keys) value current replaced =
    reconcile keys value (put_slice key (reconciled (current key) (value.at key)) current)
      (replaced || not (same_runtime_slice (current key) (value.at key)))

-- The store, whether the listeners are to be called, and how often they were.
pub record Store : Type 0 where
  pub current : Current
  pub changed : Bool
  pub emitted : ℕ

-- A rendering of the provider after its first.
unfoldable pub render : Runtime → Store → Store
unfolding reconcile
render value store =
    let (current, replaced) = reconcile value.keys value store.current false in
    record store { current = current; changed = store.changed || replaced }

-- The layout effect.
unfoldable pub commit : Store → Store
commit store =
    if not store.changed
    then store
    else record store { changed = false; emitted = suc store.emitted }
