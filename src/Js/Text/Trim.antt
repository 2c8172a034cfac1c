-- ===== src/Js/Text/Trim.antt =====
-- What `trim` and `toLowerCase` keep when they are repeated.
use kaims_latest.Prelude.{ℕ, ◌≡◌, refl, false, not, ◌&&◌, [], ◌∷◌, map, arith, if◌then◌else◌}
use kaims_latest.Js.Text.{Text, is_space, trim_start, trim_end, trim, lower, lower_unit, nonempty}

-- A map on code units that makes no white space.
abbrev pub KeepsInk : (ℕ → ℕ) → Type 0
KeepsInk f = (c : ℕ) → is_space c ≡ false → is_space (f c) ≡ false

module _ (f : ℕ → ℕ) (keeps : KeepsInk f) where
  trim_end-map_step :
      (c : ℕ) (r : Text)
      → trim_end (map f r) ≡ map f r
      → trim_end (map f (if is_space c && not (nonempty r) then [] else c ∷ r))
        ≡ map f (if is_space c && not (nonempty r) then [] else c ∷ r)
  unfolding trim_end
  trim_end-map_step c [] ih = ground (arith, keeps c)
  trim_end-map_step c (d ∷ r) ih = ground (arith, ih)

  trim_end-map : (s : Text) → trim_end (map f (trim_end s)) ≡ map f (trim_end s)
  unfolding trim_end
  trim_end-map [] = refl
  trim_end-map (c ∷ s) = trim_end-map_step c (trim_end s) (trim_end-map s)

  trim_start-map_end :
      (s : Text) → trim_start (map f (trim_end (trim_start s))) ≡ map f (trim_end (trim_start s))
  unfolding trim_start trim_end
  trim_start-map_end [] = refl
  trim_start-map_end (c ∷ s) = ground (arith, keeps c, trim_start-map_end s)

  -- A trimmed text is trimmed after such a map too.
  pub trim-map-trim : (s : Text) → trim (map f (trim s)) ≡ map f (trim s)
  unfolding trim
  trim-map-trim s = rw (trim_start-map_end s) (trim_end-map (trim_start s))

lower_unit_idem : (c : ℕ) → lower_unit (lower_unit c) ≡ lower_unit c
unfolding lower_unit
lower_unit_idem c = ground arith

pub lower_idem : (s : Text) → lower (lower s) ≡ lower s
unfolding lower
lower_idem [] = refl
lower_idem (c ∷ s) = cc (lower_unit_idem c, lower_idem s)

pub lower_unit-KeepsInk : KeepsInk lower_unit
unfolding lower_unit is_space
lower_unit-KeepsInk c h = ground arith

-- `s.trim().toLowerCase()` is a fixed point of itself.
pub lower-trim_idem : (s : Text) → lower (trim (lower (trim s))) ≡ lower (trim s)
unfolding lower
lower-trim_idem s =
    rw (trim-map-trim lower_unit lower_unit-KeepsInk s) (unfold lower in lower_idem (trim s))
