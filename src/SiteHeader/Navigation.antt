-- ===== src/SiteHeader/Navigation.antt =====
-- Which links of the header are marked as that of the page.
use tstlan_web.Base.{
  ◌≤◌, ◌≡◌, refl, sym, ◌∙◌, inl, inr, Bool, true, false, ◌||◌, [], ◌∷◌, ◌++◌, arith, length, keep,
  Bool-cases,
}
use mathlib.Core.Logic.{if_neg}
use tstlan_web.Base.Text.{Str, codes, Str_discrete}
use tstlan_web.Device.Panel.{starts_with}
use tstlan_web.SiteHeader.{NavItem, nav, is_active}

-- Of two beginnings of a text one is a beginning of the other.
starts_with_two :
    (p q s : Str)
    → starts_with p s ≡ true
    → starts_with q s ≡ true
    → (starts_with p q || starts_with q p) ≡ true
unfolding starts_with
starts_with_two [] q s h k = refl
starts_with_two (c ∷ p) [] s h k = refl
starts_with_two (c ∷ p) (d ∷ q) [] h k = absurd (cc)
starts_with_two (c ∷ p) (d ∷ q) (e ∷ s) h k = ground (arith, starts_with_two p q s)

starts_with-append : (p q s : Str) → starts_with (p ++ q) s ≡ true → starts_with p s ≡ true
unfolding starts_with
starts_with-append [] q s h = refl
starts_with-append (c ∷ p) q [] h = h
starts_with-append (c ∷ p) q (d ∷ s) h = ground (arith, starts_with-append p q s)

starts_with_self : (p : Str) → starts_with p p ≡ true
unfolding starts_with
starts_with_self [] = refl
starts_with_self (c ∷ p) = ground (arith, starts_with_self p)

-- An active link is a beginning of the path.
is_active_prefix :
    (pathname : Str) (item : NavItem)
    → is_active pathname item ≡ true
    → starts_with item.href pathname ≡ true
unfolding is_active
is_active_prefix pathname item h = elim (Str_discrete pathname item.href) [
  | yes e ↦ rw e (starts_with_self item.href)
  | no e ↦ starts_with-append item.href (codes "/") pathname (rw (if_neg _ e) at h)
]

-- Two links of which neither is a beginning of the other are not active together.
apart :
    (pathname : Str) (a b : NavItem)
    → (starts_with a.href b.href || starts_with b.href a.href) ≡ false
    → is_active pathname a ≡ true
    → is_active pathname b ≡ true
    → ⊥
apart pathname a b h p q =
    let two =
      starts_with_two a.href b.href pathname (is_active_prefix pathname a p)
        (is_active_prefix pathname b q) in
    let bad : true ≡ false = sym two ∙ h in cc

at_most_one :
    {A : Type 0} (test : A → Bool) (x y z : A)
    → (test x ≡ true → test y ≡ true → ⊥)
    → (test x ≡ true → test z ≡ true → ⊥)
    → (test y ≡ true → test z ≡ true → ⊥)
    → length (keep test (x ∷ y ∷ z ∷ [])) ≤ 1
unfolding keep
at_most_one test x y z a b c = elim (Bool-cases (test x)) [
  | inl p ↦ elim (Bool-cases (test y)) [
    | inl q ↦ absurd (a p q)
    | inr q ↦ elim (Bool-cases (test z)) [
      | inl r ↦ absurd (b p r)
      | inr r ↦ rw (p, q, r) (omega arith)
    ]
  ]
  | inr p ↦ elim (Bool-cases (test y)) [
    | inl q ↦ elim (Bool-cases (test z)) [
      | inl r ↦ absurd (c q r)
      | inr r ↦ rw (p, q, r) (omega arith)
    ]
    | inr q ↦ elim (Bool-cases (test z)) [
      | inl r ↦ rw (p, q, r) (omega arith)
      | inr r ↦ rw (p, q, r) (omega arith)
    ]
  ]
]

-- For every path at most one link of the header is active.
pub is_active_once : (pathname : Str) → length (keep (is_active pathname) nav) ≤ 1
unfolding starts_with
is_active_once pathname =
    at_most_one (is_active pathname) _ _ _ (apart pathname _ _ refl) (apart pathname _ _ refl)
      (apart pathname _ _ refl)
