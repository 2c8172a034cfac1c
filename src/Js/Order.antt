-- ===== src/Js/Order.antt =====
-- `Array.prototype.sort` with a comparator `key(right) - key(left)`: stable, largest key first.
use kaims_latest.Prelude.{
  ℕ, ◌≤◌, ◌≡◌, refl, Bool, List, [], ◌∷◌, ltb, if◌then◌else◌, count, All, arith, Bool-cases, inl,
  inr,
}

module _ {ℓ} {A : Type ℓ} (key : A → ℕ) where
  unfoldable pub insert_desc : A → List A → List A
  insert_desc x [] = x ∷ []
  insert_desc x (y ∷ ys) =
      let rest = insert_desc x ys in if ltb (key x) (key y) then y ∷ rest else x ∷ y ∷ ys

  -- An element stands before those that are equal to it and came after it.
  unfoldable pub sort_desc : List A → List A
  unfolding insert_desc
  sort_desc [] = []
  sort_desc (x ∷ xs) = insert_desc x (sort_desc xs)

  -- No key is larger than an earlier one.
  abbrev pub IsDescending : List A → Type 0
  IsDescending [] = Unit
  IsDescending (x ∷ xs) = All (λ y. key y ≤ key x) xs × IsDescending xs

  All-le_trans : (m n : ℕ) (xs : List A) → m ≤ n → All (λ y. key y ≤ m) xs → All (λ y. key y ≤ n) xs
  All-le_trans m n [] h a = tt
  All-le_trans m n (x ∷ xs) h a = (omega arith, All-le_trans m n xs h a.1)

  All-insert_desc :
      (n : ℕ) (x : A) (xs : List A)
      → key x ≤ n
      → All (λ y. key y ≤ n) xs
      → All (λ y. key y ≤ n) (insert_desc x xs)
  unfolding insert_desc
  All-insert_desc n x [] h a = (h, tt)
  All-insert_desc n x (y ∷ ys) h a = ground (arith, All-insert_desc n x ys h a.1)

  insert_desc-IsDescending :
      (x : A) (xs : List A) → IsDescending xs → IsDescending (insert_desc x xs)
  unfolding insert_desc
  insert_desc-IsDescending x [] d = (tt, tt)
  insert_desc-IsDescending x (y ∷ ys) d = ground (
    arith,
    insert_desc-IsDescending x ys d.1,
    All-insert_desc (key y) x ys,
    All-le_trans (key y) (key x) ys,
  )

  pub sort_desc-IsDescending : (xs : List A) → IsDescending (sort_desc xs)
  unfolding sort_desc
  sort_desc-IsDescending [] = tt
  sort_desc-IsDescending (x ∷ xs) =
      insert_desc-IsDescending x (sort_desc xs) (sort_desc-IsDescending xs)

  count-insert_desc :
      (p : A → Bool) (x : A) (xs : List A) → count p (insert_desc x xs) ≡ count p (x ∷ xs)
  unfolding insert_desc
  count-insert_desc p x [] = refl
  count-insert_desc p x (y ∷ ys) = ground (arith, count-insert_desc p x ys)

  -- Sorting keeps every element as often as it was there.
  pub count-sort_desc : (p : A → Bool) (xs : List A) → count p (sort_desc xs) ≡ count p xs
  unfolding sort_desc
  count-sort_desc p [] = refl
  count-sort_desc p (x ∷ xs) =
      ground (arith, count-insert_desc p x (sort_desc xs), count-sort_desc p xs)

module _ {ℓ κ} {A : Type ℓ} (key : A → ℕ) (P : A → Type κ) where
  All-of_insert_desc : (x : A) (xs : List A) → All P (insert_desc key x xs) → P x × All P xs
  unfolding insert_desc
  All-of_insert_desc x [] h = h
  All-of_insert_desc x (y ∷ ys) h = elim (Bool-cases (ltb (key x) (key y))) [
    | inl later ↦
        let (py, rest) = rw (later, insert_desc) at h in
        let (px, pys) = All-of_insert_desc x ys rest in (px, (py, pys))
    | inr here ↦ rw (here, insert_desc) at h
  ]

  -- What holds of every element after sorting held of every element before.
  pub All-of_sort_desc : (xs : List A) → All P (sort_desc key xs) → All P xs
  unfolding sort_desc
  All-of_sort_desc [] h = tt
  All-of_sort_desc (x ∷ xs) h =
      let (px, rest) = All-of_insert_desc x (sort_desc key xs) h in (px, All-of_sort_desc xs rest)

  All-insert : (x : A) (xs : List A) → P x → All P xs → All P (insert_desc key x xs)
  unfolding insert_desc
  All-insert x [] px h = (px, tt)
  All-insert x (y ∷ ys) px h = elim (Bool-cases (ltb (key x) (key y))) [
    | inl later ↦ rw later (h.0, All-insert x ys px h.1)
    | inr here ↦ rw here (px, h)
  ]

  -- And what holds of every element before holds of every element after.
  pub All-sort_desc : (xs : List A) → All P xs → All P (sort_desc key xs)
  unfolding sort_desc
  All-sort_desc [] h = tt
  All-sort_desc (x ∷ xs) h = All-insert x (sort_desc key xs) h.0 (All-sort_desc xs h.1)
