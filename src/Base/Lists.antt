-- ===== src/Base/Lists.antt =====
-- Lists measured and indexed by native numbers, filters, and predicates on lists by recursion.
use Prim.Native.Nat.{ℕ, zero, suc, ◌+◌, ◌-◌, ◌≤◌}
use mathlib.Core.Path.{◌≡◌, refl, ap, sym, ◌∙◌}
use mathlib.Core.Bool.{Bool, true, false}
use mathlib.Core.Logic.{◌⊎◌, ◌↔◌, inl, inr}
use mathlib.Core.List.{List, [], ◌∷◌, ◌++◌, map}
use mathlib.Core.Option.{Option, none, some}
use native.Mathlib.Omega.{arith}
use tstlan_web.Base.Tests.{if◌then◌else◌, Bool-cases}

module _ {ℓ} {A : Type ℓ} where
  abbrev pub length : List A → ℕ
  length [] = 0
  length (x ∷ xs) = suc (length xs)

  abbrev pub get_elem? : List A → ℕ → Option A
  get_elem? [] i = none
  get_elem? (x ∷ xs) zero = some x
  get_elem? (x ∷ xs) (suc i) = get_elem? xs i

  abbrev pub drop : ℕ → List A → List A
  drop zero xs = xs
  drop (suc n) [] = []
  drop (suc n) (x ∷ xs) = drop n xs

  pub length-append : (xs ys : List A) → length (xs ++ ys) ≡ length xs + length ys
  length-append [] ys = omega arith
  length-append (x ∷ xs) ys = omega (arith, length-append xs ys)

  pub length-drop : (n : ℕ) (xs : List A) → length (drop n xs) ≡ length xs - n
  length-drop zero xs = omega arith
  length-drop (suc n) [] = omega arith
  length-drop (suc n) (x ∷ xs) = omega (arith, length-drop n xs)

pub some_eq {ℓ} : {A : Type ℓ} {x y : A} → some x ≡ some y → x ≡ y
some_eq h = cc

none-ne-some {ℓ} : {A : Type ℓ} {x : A} → ◌≡◌ {A = Option A} none (some x) → ⊥
none-ne-some h = cc

-- The type without an element, at every level.
pub data Empty {ℓ} : Type ℓ where

module _ {ℓ κ} {A : Type ℓ} {B : Type κ} where
  pub length-map : (f : A → B) (xs : List A) → length (map f xs) ≡ length xs
  length-map f [] = refl
  length-map f (x ∷ xs) = ap suc (length-map f xs)

  pub get_elem?-map :
      (f : A → B) (xs : List A) (i : ℕ) {x : A}
      → get_elem? xs i ≡ some x
      → get_elem? (map f xs) i ≡ some (f x)
  get_elem?-map f [] i h = elim (none-ne-some h) [ ]
  get_elem?-map f (x ∷ xs) zero h = cc
  get_elem?-map f (x ∷ xs) (suc i) h = get_elem?-map f xs i h

module _ {ℓ κ} {A : Type ℓ} (P : A → Type κ) where
  abbrev pub All : List A → Type κ
  All [] = Unit
  All (x ∷ xs) = P x × All xs

  pub All-append : (xs ys : List A) → All xs → All ys → All (xs ++ ys)
  All-append [] ys _ hy = hy
  All-append (x ∷ xs) ys (px, hx) hy = (px, All-append xs ys hx hy)

  pub All-drop : (n : ℕ) (xs : List A) → All xs → All (drop n xs)
  All-drop zero xs h = h
  All-drop (suc n) [] h = h
  All-drop (suc n) (x ∷ xs) h = All-drop n xs h.1

module _ {ℓ} {A : Type ℓ} where
  -- `xs.filter(test)`
  unfoldable pub keep : (A → Bool) → List A → List A
  keep test [] = []
  keep test (x ∷ xs) = if test x then x ∷ keep test xs else keep test xs

  -- `x` stands in the list.
  abbrev pub Among : A → List A → Type ℓ
  Among x [] = Empty
  Among x (y ∷ ys) = (y ≡ x) ⊎ Among x ys

  pub keep-append :
      (test : A → Bool) (xs ys : List A) → keep test (xs ++ ys) ≡ keep test xs ++ keep test ys
  unfolding keep
  keep-append test [] ys = refl
  keep-append test (x ∷ xs) ys = elim (Bool-cases (test x)) [
    | inl e ↦ rw (e, keep-append test xs ys) refl
    | inr e ↦ rw (e, keep-append test xs ys) refl
  ]

  pub Among-keep :
      (test : A → Bool) (x : A) (xs : List A)
      → Among x (keep test xs) ↔ (Among x xs × (test x ≡ true))
  unfolding keep
  Among-keep test x xs = (to xs, λ h. from xs h.0 h.1)
    where
      to : (ys : List A) → Among x (keep test ys) → Among x ys × (test x ≡ true)
      to [] h = elim h [ ]
      to (y ∷ ys) h = elim (Bool-cases (test y)) [
        | inl e ↦ elim (rw e at h) [
          | inl same ↦ (inl same, rw same at e)
          | inr later ↦ let (a, b) = to ys later in (inr a, b)
        ]
        | inr e ↦ let (a, b) = to ys (rw e at h) in (inr a, b)
      ]

      from : (ys : List A) → Among x ys → test x ≡ true → Among x (keep test ys)
      from [] h t = h
      from (y ∷ ys) (inl same) t = elim (Bool-cases (test y)) [
        | inl e ↦ rw e (inl same)
        | inr e ↦ let bad : false ≡ true = sym (rw same at e) ∙ t in absurd (cc)
      ]
      from (y ∷ ys) (inr later) t = elim (Bool-cases (test y)) [
        | inl e ↦ rw e (inr (from ys later t))
        | inr e ↦ rw e (from ys later t)
      ]

  pub get_elem?-drop-append :
      (k i : ℕ) (xs ys : List A) {x : A}
      → k ≤ i
      → get_elem? xs i ≡ some x
      → get_elem? (drop k (xs ++ ys)) (i - k) ≡ some x
  get_elem?-drop-append k i [] ys le h = elim (none-ne-some h) [ ]
  get_elem?-drop-append zero zero (y ∷ xs) ys le h = h
  get_elem?-drop-append zero (suc i) (y ∷ xs) ys {x} le h =
      let e : suc i - 0 ≡ suc i = omega arith in
      let f : i - 0 ≡ i = omega arith in
      let ih : get_elem? (xs ++ ys) (i - 0) ≡ some x =
        get_elem?-drop-append zero i xs ys (omega arith) h in
      rw e (rw f at ih)
  get_elem?-drop-append (suc k) zero (y ∷ xs) ys le h = absurd (omega arith)
  get_elem?-drop-append (suc k) (suc i) (y ∷ xs) ys le h =
      let e : suc i - suc k ≡ i - k = omega arith in
      rw e (get_elem?-drop-append k i xs ys (omega arith) h)

module _ {ℓ κ} {A : Type ℓ} {B : Type κ} where
  pub Among-map :
      (f : A → B) (y : B) (xs : List A) → Among y (map f xs) → (x : A) × Among x xs × (f x ≡ y)
  Among-map f y [] h = elim h [ ]
  Among-map f y (x ∷ xs) (inl e) = (x, inl refl, e)
  Among-map f y (x ∷ xs) (inr h) = let (z, a, e) = Among-map f y xs h in (z, inr a, e)

  pub map-Among : (f : A → B) (x : A) (xs : List A) → Among x xs → Among (f x) (map f xs)
  map-Among f x [] h = elim h [ ]
  map-Among f x (y ∷ xs) (inl e) = inl (ap f e)
  map-Among f x (y ∷ xs) (inr h) = inr (map-Among f x xs h)
