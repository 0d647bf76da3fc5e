-- ===== src/Base/Sort.antt =====
-- `Array.prototype.sort`, which is stable, by a test that an element stands before another.
use tstlan_web.Base.{
  ◌≡◌, ◌≢◌, ap, ◌∙◌, refl, inl, inr, Bool, List, [], ◌∷◌, map, arith, if◌then◌else◌, Bool-cases,
  All, Among,
}
use tstlan_web.Base.Record.{has}

module _ {ℓ} {A : Type ℓ} (less : A → A → Bool) where
  -- `x` stood before all of the list: it goes in front of the first that is not before it.
  unfoldable pub insert : A → List A → List A
  insert x [] = x ∷ []
  insert x (y ∷ ys) = if less y x then y ∷ insert x ys else x ∷ y ∷ ys

  unfoldable pub sort : List A → List A
  unfolding insert
  sort [] = []
  sort (x ∷ xs) = insert x (sort xs)

  insert-ne-nil : (x : A) (ys : List A) → insert x ys ≢ []
  unfolding insert
  insert-ne-nil x [] h = cc
  insert-ne-nil x (y ∷ ys) h = ground arith

  pub sort-ne-nil : (x : A) (xs : List A) → sort (x ∷ xs) ≢ []
  unfolding sort
  sort-ne-nil x xs = insert-ne-nil x (sort xs)

  Among-insert : (a x : A) (ys : List A) → Among a (insert x ys) → Among a (x ∷ ys)
  unfolding insert
  Among-insert a x [] h = h
  Among-insert a x (y ∷ ys) h = elim (Bool-cases (less y x)) [
    | inl e ↦ elim (rw e at h) [
      | inl same ↦ inr (inl same)
      | inr m ↦ elim (Among-insert a x ys m) [ inl q ↦ inl q | inr q ↦ inr (inr q) ]
    ]
    | inr e ↦ rw e at h
  ]

  -- A sorted list has no other elements.
  pub Among-sort : (a : A) (xs : List A) → Among a (sort xs) → Among a xs
  unfolding sort
  Among-sort a [] h = h
  Among-sort a (x ∷ xs) h = elim (Among-insert a x (sort xs) h) [
    | inl e ↦ inl e
    | inr m ↦ inr (Among-sort a xs m)
  ]

module _ {ℓ κ} {A : Type ℓ} (less : A → A → Bool) (P : A → Type κ) where
  pub All-insert : (x : A) (ys : List A) → P x → All P ys → All P (insert less x ys)
  unfolding insert
  All-insert x [] p h = (p, tt)
  All-insert x (y ∷ ys) p h = elim (Bool-cases (less y x)) [
    | inl e ↦ rw e (h.0, All-insert x ys p h.1)
    | inr e ↦ rw e (p, h)
  ]

-- The keys of a list that is sorted by its keys are the sorted keys.
module _ {ℓ κ} {A : Type ℓ} {K : Type κ} (key : A → K) (less : K → K → Bool) where
  map-insert :
      (x : A) (ys : List A)
      → map key (insert (λ a b. less (key a) (key b)) x ys) ≡ insert less (key x) (map key ys)
  unfolding insert
  map-insert x [] = refl
  map-insert x (y ∷ ys) = elim (Bool-cases (less (key y) (key x))) [
    | inl e ↦ rw (e, map-insert x ys) refl
    | inr e ↦ rw e refl
  ]

  pub map-sort :
      (xs : List A) → map key (sort (λ a b. less (key a) (key b)) xs) ≡ sort less (map key xs)
  unfolding sort
  map-sort [] = refl
  map-sort (x ∷ xs) =
      map-insert x (sort (λ a b. less (key a) (key b)) xs) ∙ ap (insert less (key x)) (map-sort xs)

module _ {K : Type 0} (dec : Discrete K) (less : K → K → Bool) where
  has-insert : (k x : K) (ys : List K) → has dec k (insert less x ys) ≡ has dec k (x ∷ ys)
  unfolding insert has
  has-insert k x [] = refl
  has-insert k x (y ∷ ys) = ground (arith, has-insert k x ys)

  pub has-sort : (k : K) (xs : List K) → has dec k (sort less xs) ≡ has dec k xs
  unfolding sort has
  has-sort k [] = refl
  has-sort k (x ∷ xs) = ground (arith, has-insert k x (sort less xs), has-sort k xs)
