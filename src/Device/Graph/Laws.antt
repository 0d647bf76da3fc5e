-- ===== src/Device/Graph/Laws.antt =====
-- What `pick_device_config` chooses.
use tstlan_web.Base.{
  ◌≡◌, ◌≢◌, refl, sym, ◌↔◌, ◌⊎◌, inl, inr, true, false, List, [], ◌∷◌, none, some, arith, keep,
  Among, Among-keep, some_eq, Bool-cases,
}
use tstlan_web.Base.Text.{Str, Str_discrete}
use tstlan_web.Api.{ConfigSummary}
use mathlib.Core.Logic.{if_pos, if_neg}
use mathlib.Core.Path.{subst}
use tstlan_web.Config.Access.{is_owner}
use tstlan_web.Base.Sort.{insert, sort, sort-ne-nil}
use tstlan_web.Device.Graph.{
  is_lt, head_of, Comparison, by_preference, before, matches, pick_device_config,
}

module _ (c : Comparison) where
  open c use {compare, asymmetric, transitive}

  preference_asymmetric :
      (a b : ConfigSummary)
      → is_lt (by_preference compare a b) ≡ true
      → is_lt (by_preference compare b a) ≡ false
  unfolding by_preference
  preference_asymmetric a b h = ground (arith, asymmetric b.updated_at a.updated_at)

  preference_transitive :
      (a b d : ConfigSummary)
      → is_lt (by_preference compare b a) ≡ false
      → is_lt (by_preference compare d b) ≡ false
      → is_lt (by_preference compare d a) ≡ false
  unfolding by_preference
  preference_transitive a b d h k =
      ground (arith, transitive d.updated_at b.updated_at a.updated_at)

  insert-head :
      (x : ConfigSummary) (l : List ConfigSummary) {m : ConfigSummary}
      → head_of (insert (before compare) x l) ≡ some m
      → ((m ≡ x) × (l ≡ []))
        ⊎ ((y : ConfigSummary) × (head_of l ≡ some y)
            × (((m ≡ y) × (is_lt (by_preference compare y x) ≡ true))
                ⊎ ((m ≡ x) × (is_lt (by_preference compare y x) ≡ false))))
  unfolding insert before
  insert-head x [] h = inl (sym (some_eq h), refl)
  insert-head x (y ∷ ys) {m} h = elim (Bool-cases (is_lt (by_preference compare y x))) [
    | inl e ↦ let g : some y ≡ some m = rw e at h in inr (y, refl, inl (sym (some_eq g), e))
    | inr e ↦ let g : some x ≡ some m = rw e at h in inr (y, refl, inr (sym (some_eq g), e))
  ]

  preference_irreflexive : (a : ConfigSummary) → is_lt (by_preference compare a a) ≡ false
  preference_irreflexive a = elim (Bool-cases (is_lt (by_preference compare a a))) [
    | inl e ↦ preference_asymmetric a a e
    | inr e ↦ e
  ]

  -- `m` stands in the list, and nothing in it is preferred to `m`.
  abbrev IsBest : List ConfigSummary → ConfigSummary → Type 0
  IsBest xs m =
      Among m xs × ((s : ConfigSummary) → Among s xs → is_lt (by_preference compare s m) ≡ false)

  nothing_sorted :
      (xs : List ConfigSummary) (s : ConfigSummary) → sort (before compare) xs ≡ [] → ¬ Among s xs
  nothing_sorted [] s e h = elim h [ ]
  nothing_sorted (x ∷ xs) s e h = sort-ne-nil (before compare) x xs e

  alone-IsBest :
      (x : ConfigSummary) (xs : List ConfigSummary)
      → sort (before compare) xs ≡ []
      → IsBest (x ∷ xs) x
  alone-IsBest x xs e = (inl refl, best)
    where
      best : (s : ConfigSummary) → Among s (x ∷ xs) → is_lt (by_preference compare s x) ≡ false
      best s (inl same) = rw (← same) (preference_irreflexive x)
      best s (inr h) = absurd (nothing_sorted xs s e h)

  old-IsBest :
      (x y : ConfigSummary) (xs : List ConfigSummary)
      → IsBest xs y
      → is_lt (by_preference compare y x) ≡ true
      → IsBest (x ∷ xs) y
  old-IsBest x y xs (a, b) lt = (inr a, best)
    where
      best : (s : ConfigSummary) → Among s (x ∷ xs) → is_lt (by_preference compare s y) ≡ false
      best s (inl same) = rw (← same) (preference_asymmetric y x lt)
      best s (inr h) = b s h

  new-IsBest :
      (x y : ConfigSummary) (xs : List ConfigSummary)
      → IsBest xs y
      → is_lt (by_preference compare y x) ≡ false
      → IsBest (x ∷ xs) x
  new-IsBest x y xs (a, b) ge = (inl refl, best)
    where
      best : (s : ConfigSummary) → Among s (x ∷ xs) → is_lt (by_preference compare s x) ≡ false
      best s (inl same) = rw (← same) (preference_irreflexive x)
      best s (inr h) = preference_transitive x y s ge (b s h)

  sort-head :
      (xs : List ConfigSummary) {m : ConfigSummary}
      → head_of (sort (before compare) xs) ≡ some m
      → IsBest xs m
  unfolding sort
  sort-head [] h = absurd (cc)
  sort-head (x ∷ xs) {m} h = elim (insert-head x (sort (before compare) xs) h) [
    | inl (e, none_left) ↦ subst (IsBest (x ∷ xs)) (sym e) (alone-IsBest x xs none_left)
    | inr (y, first, inl (e, lt)) ↦
        subst (IsBest (x ∷ xs)) (sym e) (old-IsBest x y xs (sort-head xs first) lt)
    | inr (y, first, inr (e, ge)) ↦
        subst (IsBest (x ∷ xs)) (sym e) (new-IsBest x y xs (sort-head xs first) ge)
  ]

  matches_iff :
      (device_id : Str) (s : ConfigSummary)
      → (matches compare device_id s ≡ true) ↔ (s.device_type ≡ device_id)
  matches_iff device_id s = elim (Str_discrete s.device_type device_id) [
    | yes e ↦ (λ h. e, λ h. rw (if_pos _ e) refl)
    | no e ↦ (λ h. absurd (cc (rw (if_neg _ e) at h)), λ h. absurd (e h))
  ]

  -- The chosen configuration is a given one for the device; it is an own one if any such is, and among
  -- those of its kind (own or not) none was updated later.
  pub pick_device_config_best :
      (summaries : List ConfigSummary) (device_id : Str) {m : ConfigSummary}
      → pick_device_config compare summaries device_id ≡ some m
      → Among m summaries
        × (m.device_type ≡ device_id)
        × ((s : ConfigSummary)
            → Among s summaries
            → s.device_type ≡ device_id
            → (is_owner s.access ≡ true → is_owner m.access ≡ true)
              × (is_owner s.access ≡ is_owner m.access
                  → is_lt (compare m.updated_at s.updated_at) ≡ false))
  unfolding pick_device_config
  pick_device_config_best summaries device_id {m} h =
      let (a, best) = sort-head (keep (matches compare device_id) summaries) h in
      let (given, fits) = (Among-keep (matches compare device_id) m summaries).0 a in
      (
        given,
        (matches_iff device_id m).0 fits,
        λ s k e.
            let b = best s (
              (Among-keep (matches compare device_id) s summaries).1
                (k, (matches_iff device_id s).1 e)) in
            preferred s m b,
      )
    where
      preferred :
          (s m : ConfigSummary)
          → is_lt (by_preference compare s m) ≡ false
          → (is_owner s.access ≡ true → is_owner m.access ≡ true)
            × (is_owner s.access ≡ is_owner m.access
                → is_lt (compare m.updated_at s.updated_at) ≡ false)
      preferred s m b = (unfold by_preference in ground arith, unfold by_preference in ground arith)

  -- Nothing is chosen exactly if no configuration is for the device.
  pub pick_device_config-none_iff :
      (summaries : List ConfigSummary) (device_id : Str)
      → (pick_device_config compare summaries device_id ≡ none)
        ↔ ((s : ConfigSummary) → Among s summaries → s.device_type ≢ device_id)
  unfolding pick_device_config
  pick_device_config-none_iff summaries device_id = (to, from)
    where
      fitting : List ConfigSummary
      fitting = keep (matches compare device_id) summaries

      head_none : (l : List ConfigSummary) → head_of l ≡ none → l ≡ []
      head_none [] h = refl
      head_none (x ∷ l) h = absurd (cc)

      to :
          head_of (sort (before compare) fitting) ≡ none
          → (s : ConfigSummary) → Among s summaries
          → s.device_type ≢ device_id
      to h s a e = nothing_sorted fitting s (head_none (sort (before compare) fitting) h) (
          (Among-keep (matches compare device_id) s summaries).1 (a, (matches_iff device_id s).1 e))

      empty :
          (l : List ConfigSummary)
          → ((s : ConfigSummary) → ¬ Among s l)
          → head_of (sort (before compare) l) ≡ none
      empty [] h = unfold sort in refl
      empty (x ∷ l) h = absurd (h x (inl refl))

      from :
          ((s : ConfigSummary) → Among s summaries → s.device_type ≢ device_id)
          → head_of (sort (before compare) fitting) ≡ none
      from h = empty fitting (λ s a.
          let (given, fits) = (Among-keep (matches compare device_id) s summaries).0 a in
          h s given ((matches_iff device_id s).0 fits))
