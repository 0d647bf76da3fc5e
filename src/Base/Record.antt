-- ===== src/Base/Record.antt =====
-- JavaScript objects used as dictionaries, `Map` and `Set`, as lists in insertion order over keys with
-- a decided equality. Only own keys are seen: the names on the prototype of an object are left out.
use tstlan_web.Base.{
  ◌≡◌, refl, ◌↔◌, inl, inr, Bool, true, false, ◌||◌, List, [], ◌∷◌, ◌++◌, Option, none, some, arith,
  if◌then◌else◌, Among, Bool-cases, ite,
}
use mathlib.Core.Logic.{if_pos, if_neg}

module _ {K : Type 0} (dec : Discrete K) where
  -- `set.has(k)`
  unfoldable pub has : K → List K → Bool
  has k [] = false
  has k (j ∷ s) = ite (dec j k) true (has k s)

  -- `set.add(k)`
  unfoldable pub add : K → List K → List K
  add k s = if has k s then s else s ++ k ∷ []

  -- `set.delete(k)`
  unfoldable pub delete : K → List K → List K
  delete k [] = []
  delete k (j ∷ s) = ite (dec j k) (delete k s) (j ∷ delete k s)

  pub has-append : (k : K) (s t : List K) → has k (s ++ t) ≡ (has k s || has k t)
  unfolding has
  has-append k [] t = refl
  has-append k (j ∷ s) t = ground (arith, has-append k s t)

  pub has-add : (k j : K) (s : List K) → has j (add k s) ≡ ite (dec k j) true (has j s)
  unfolding add has
  has-add k j s = elim (Bool-cases (has k s)) [
    | inl old ↦
        rw old
          (elim (dec k j) [ yes e ↦ rw (if_pos _ e) (rw e at old) | no e ↦ rw (if_neg _ e) refl ])
    | inr new ↦ ground (arith, has-append j s (k ∷ []))
  ]

  pub has-delete : (k j : K) (s : List K) → has j (delete k s) ≡ ite (dec k j) false (has j s)
  unfolding has delete
  has-delete k j [] = ground arith
  has-delete k j (i ∷ s) = ground (arith, has-delete k j s)

  -- `new Set(xs)`, started from `s`: the first of equal elements stays.
  unfoldable pub add_all : List K → List K → List K
  add_all s [] = s
  add_all s (x ∷ xs) = add_all (add x s) xs

  -- The set has exactly the elements that it started from and those of the list.
  pub has-add_all : (k : K) (s xs : List K) → has k (add_all s xs) ≡ (has k s || has k xs)
  unfolding add_all has
  has-add_all k s [] = ground arith
  has-add_all k s (x ∷ xs) = ground (arith, has-add_all k (add x s) xs, has-add x k s)

  -- No element occurs twice.
  abbrev pub AreDistinct : List K → Type 0
  AreDistinct [] = Unit
  AreDistinct (x ∷ xs) = (has x xs ≡ false) × AreDistinct xs

  concat-distinct :
      (s : List K) (k : K) → AreDistinct s → has k s ≡ false → AreDistinct (s ++ k ∷ [])
  unfolding has
  concat-distinct [] k h e = (refl, tt)
  concat-distinct (x ∷ s) k (a, h) e =
      (ground (arith, has-append x s (k ∷ [])), concat-distinct s k h (ground arith))

  add-distinct : (k : K) (s : List K) → AreDistinct s → AreDistinct (add k s)
  unfolding add
  add-distinct k s h = elim (Bool-cases (has k s)) [
    | inl e ↦ rw e h
    | inr e ↦ rw e (concat-distinct s k h e)
  ]

  pub add_all-distinct : (s xs : List K) → AreDistinct s → AreDistinct (add_all s xs)
  unfolding add_all
  add_all-distinct s [] h = h
  add_all-distinct s (x ∷ xs) h = add_all-distinct (add x s) xs (add-distinct x s h)

  pub has-Among : (k : K) (xs : List K) → (has k xs ≡ true) ↔ Among k xs
  unfolding has
  has-Among k [] = (λ h. absurd (cc), elim [ ])
  has-Among k (x ∷ xs) =
      let ih = has-Among k xs in
      elim (dec x k) [
        | yes e ↦ rw (if_pos _ e) (λ h. inl e, λ h. refl)
        | no e ↦ rw (if_neg _ e) (λ h. inr (ih.0 h), elim [ inl q ↦ absurd (e q) | inr q ↦ ih.1 q ])
      ]

module _ {ℓ} {K V : Type ℓ} (dec : Discrete K) where
  -- `m[k]` of an own key, `map.get(k)`
  unfoldable pub lookup : K → List (K × V) → Option V
  lookup k [] = none
  lookup k ((j, v) ∷ m) = ite (dec j k) (some v) (lookup k m)

  -- `m[k] = v`: an old key keeps its place
  unfoldable pub assign : K → V → List (K × V) → List (K × V)
  assign k v [] = (k, v) ∷ []
  assign k v ((j, w) ∷ m) = ite (dec j k) ((k, v) ∷ m) ((j, w) ∷ assign k v m)

  -- `delete m[k]`
  unfoldable pub remove : K → List (K × V) → List (K × V)
  remove k [] = []
  remove k ((j, w) ∷ m) = ite (dec j k) (remove k m) ((j, w) ∷ remove k m)

  pub lookup-assign :
      (k j : K) (v : V) (m : List (K × V))
      → lookup j (assign k v m) ≡ ite (dec k j) (some v) (lookup j m)
  unfolding lookup assign
  lookup-assign k j v [] = refl
  lookup-assign k j v ((i, w) ∷ m) = ground (arith, lookup-assign k j v m)

  pub lookup-remove :
      (k j : K) (m : List (K × V)) → lookup j (remove k m) ≡ ite (dec k j) none (lookup j m)
  unfolding lookup remove
  lookup-remove k j [] = ground arith
  lookup-remove k j ((i, w) ∷ m) = ground (arith, lookup-remove k j m)
