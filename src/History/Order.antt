-- ===== src/History/Order.antt =====
-- The order and the number of the samples of a seeded series.
use mathlib.Core.Logic.{if_pos, if_neg}
use tstlan_web.Base.{
  ℕ, zero, suc, ◌-◌, ◌≤◌, ◌<◌, ◌≡◌, refl, inl, inr, true, List, [], ◌∷◌, ◌++◌, Option, none, arith,
  ltb→lt, or_else, All, All-append, length, drop, length-drop, Bool-cases,
}
use tstlan_web.Base.Text.{Str, Str_discrete}
use tstlan_web.Base.Record.{lookup}
use tstlan_web.History.{
  Sample, HistoryPoint, Series, samples_or_empty, slice_last, cutoff, is_before, older, seeded,
  seed_history,
}
use tstlan_web.History.Seeding.{samples_in, samples_of, extended, reseeded, lookup-seed_rounds}

pub length-slice_last {ℓ} :
    {A : Type ℓ} (n : ℕ) (xs : List A) → 0 < n → length (slice_last n xs) ≤ n
unfolding slice_last
length-slice_last zero xs h = absurd (omega arith)
length-slice_last (suc n) xs h = omega (arith, length-drop (length xs - suc n) xs)

module _ {V : Type 0} where
  abbrev pub IsBelow : ℕ → List (Sample V) → Type 0
  IsBelow t = All (λ s. t < s.t)

  abbrev pub IsAscending : List (Sample V) → Type 0
  IsAscending [] = Unit
  IsAscending (s ∷ ss) = IsBelow s.t ss × IsAscending ss

  IsBelow-mono : (t u : ℕ) (ss : List (Sample V)) → t < u → IsBelow u ss → IsBelow t ss
  IsBelow-mono t u [] h b = tt
  IsBelow-mono t u (s ∷ ss) h (p, b) = (omega arith, IsBelow-mono t u ss h b)

  drop-IsAscending : (n : ℕ) (ss : List (Sample V)) → IsAscending ss → IsAscending (drop n ss)
  drop-IsAscending zero ss h = h
  drop-IsAscending (suc n) [] h = tt
  drop-IsAscending (suc n) (s ∷ ss) h = drop-IsAscending n ss h.1

  pub slice_last-IsAscending :
      (n : ℕ) (ss : List (Sample V)) → IsAscending ss → IsAscending (slice_last n ss)
  unfolding slice_last
  slice_last-IsAscending zero ss h = h
  slice_last-IsAscending (suc n) ss h = drop-IsAscending (length ss - suc n) ss h

  IsAllBefore : Option ℕ → List (Sample V) → Type 0
  IsAllBefore c = All (λ s. is_before s.t c ≡ true)

  older-IsAllBefore : (c : Option ℕ) (ss : List (Sample V)) → IsAllBefore c (older c ss)
  unfolding older IsAllBefore
  older-IsAllBefore c [] = tt
  older-IsAllBefore c (s ∷ ss) = elim (Bool-cases (is_before s.t c)) [
    | inl e ↦ rw e (e, older-IsAllBefore c ss)
    | inr e ↦ rw e (older-IsAllBefore c ss)
  ]

  older-IsBelow :
      (c : Option ℕ) (t : ℕ) (ss : List (Sample V)) → IsBelow t ss → IsBelow t (older c ss)
  unfolding older
  older-IsBelow c t [] h = tt
  older-IsBelow c t (s ∷ ss) (p, h) = elim (Bool-cases (is_before s.t c)) [
    | inl e ↦ rw e (p, older-IsBelow c t ss h)
    | inr e ↦ rw e (older-IsBelow c t ss h)
  ]

  older-IsAscending :
      (c : Option ℕ) (ss : List (Sample V)) → IsAscending ss → IsAscending (older c ss)
  unfolding older
  older-IsAscending c [] h = tt
  older-IsAscending c (s ∷ ss) (p, h) = elim (Bool-cases (is_before s.t c)) [
    | inl e ↦ rw e (older-IsBelow c s.t ss p, older-IsAscending c ss h)
    | inr e ↦ rw e (older-IsAscending c ss h)
  ]

  IsBelow-of_cutoff :
      (t : ℕ) (live : List (Sample V))
      → is_before t (cutoff live) ≡ true
      → IsAscending live
      → IsBelow t live
  IsBelow-of_cutoff t [] h a = tt
  IsBelow-of_cutoff t (s ∷ ss) h (p, a) =
      let lt = ltb→lt t s.t h in (lt, IsBelow-mono t s.t ss lt p)

  joined-IsAscending :
      (xs live : List (Sample V))
      → IsAllBefore (cutoff live) xs
      → IsAscending xs
      → IsAscending live
      → IsAscending (xs ++ live)
  unfolding IsAllBefore
  joined-IsAscending [] live b h a = a
  joined-IsAscending (x ∷ xs) live (p, b) (q, h) a =
      (All-append _ xs live q (IsBelow-of_cutoff x.t live p a), joined-IsAscending xs live b h a)

  -- Old samples in front of live ones: ascending if both are.
  pub seeded-IsAscending :
      (max_points : ℕ) (samples live : List (Sample V))
      → IsAscending samples
      → IsAscending live
      → IsAscending (seeded max_points samples live)
  unfolding seeded
  seeded-IsAscending max_points samples live h a =
      slice_last-IsAscending max_points (older (cutoff live) samples ++ live) (
        joined-IsAscending (older (cutoff live) samples) live
          (older-IsAllBefore (cutoff live) samples) (older-IsAscending (cutoff live) samples h) a)

  -- A point of the history names each variable once, and later points have later times.
  abbrev pub HasDistinctNames : List (Str × V) → Type 0
  HasDistinctNames [] = Unit
  HasDistinctNames ((k, _) ∷ values) =
      (lookup Str_discrete k values ≡ none) × HasDistinctNames values

  abbrev pub AreOrdered : List (HistoryPoint V) → Type 0
  AreOrdered [] = Unit
  AreOrdered (p ∷ ps) = HasDistinctNames p.values × All (λ q. p.t < q.t) ps × AreOrdered ps

  samples_in-nil :
      (name : Str) (t : ℕ) (values : List (Str × V))
      → lookup Str_discrete name values ≡ none
      → samples_in name t values ≡ []
  unfolding lookup
  samples_in-nil name t [] h = refl
  samples_in-nil name t ((k, v) ∷ values) h = ground (arith, samples_in-nil name t values)

  samples_in-IsAscending :
      (name : Str) (t : ℕ) (values : List (Str × V))
      → HasDistinctNames values
      → IsAscending (samples_in name t values)
  samples_in-IsAscending name t [] h = tt
  samples_in-IsAscending name t ((k, v) ∷ values) (p, h) = elim (Str_discrete k name) [
    | yes e ↦ rw (if_pos _ e, samples_in-nil name t values (rw e at p)) (tt, tt)
    | no e ↦ rw (if_neg _ e) (samples_in-IsAscending name t values h)
  ]

  samples_in-times :
      (P : ℕ → Type 0) (name : Str) (t : ℕ) (values : List (Str × V))
      → P t
      → All (λ s. P s.t) (samples_in name t values)
  samples_in-times P name t [] h = tt
  samples_in-times P name t ((k, v) ∷ values) h = elim (Str_discrete k name) [
    | yes e ↦ rw (if_pos _ e) (h, samples_in-times P name t values h)
    | no e ↦ rw (if_neg _ e) (samples_in-times P name t values h)
  ]

  pub samples_of-times :
      (P : ℕ → Type 0) (name : Str) (ps : List (HistoryPoint V))
      → All (λ p. P p.t) ps
      → All (λ s. P s.t) (samples_of name ps)
  samples_of-times P name [] h = tt
  samples_of-times P name (p ∷ ps) (q, h) =
      All-append (λ s. P s.t) (samples_in name p.t p.values) (samples_of name ps)
        (samples_in-times P name p.t p.values q) (samples_of-times P name ps h)

  point-joined :
      (t : ℕ) (xs ys : List (Sample V))
      → All (λ s. s.t ≡ t) xs
      → IsAscending xs
      → IsBelow t ys
      → IsAscending ys
      → IsAscending (xs ++ ys)
  point-joined t [] ys e a b h = h
  point-joined t (x ∷ xs) ys (p, e) (q, a) b h =
      (All-append _ xs ys q (rw p b), point-joined t xs ys e a b h)

  samples_of-IsAscending :
      (name : Str) (ps : List (HistoryPoint V)) → AreOrdered ps → IsAscending (samples_of name ps)
  samples_of-IsAscending name [] h = tt
  samples_of-IsAscending name (p ∷ ps) (d, l, h) =
      point-joined p.t (samples_in name p.t p.values) (samples_of name ps)
        (samples_in-times (λ u. u ≡ p.t) name p.t p.values refl)
        (samples_in-IsAscending name p.t p.values d) (samples_of-times (λ u. p.t < u) name ps l)
        (samples_of-IsAscending name ps h)

  reseeded-IsAscending :
      (max_points : ℕ) (o : Option (List (Sample V))) (samples : List (Sample V))
      → IsAscending samples
      → IsAscending (or_else o [])
      → IsAscending (or_else (reseeded max_points (extended none samples) o) [])
  reseeded-IsAscending max_points o [] h a = a
  reseeded-IsAscending max_points o (s ∷ ss) h a =
      seeded-IsAscending max_points (s ∷ ss) (or_else o []) h a

  -- If the live series ascends strictly in time and so do the points of the history, the seeded
  -- series does: its samples are in order and no time occurs twice.
  pub seed_history-IsAscending :
      (prev : Series V) (points : List (HistoryPoint V)) (max_points : ℕ) (name : Str)
      → AreOrdered points
      → IsAscending (samples_or_empty name prev)
      → IsAscending (samples_or_empty name (seed_history prev points max_points))
  seed_history-IsAscending prev points max_points name h a =
      rw (lookup-seed_rounds prev points max_points name) (
        reseeded-IsAscending max_points (lookup Str_discrete name prev) (samples_of name points)
          (samples_of-IsAscending name points h) a)

  reseeded_bounded :
      (max_points : ℕ) (o : Option (List (Sample V))) (samples : List (Sample V))
      → 0 < max_points
      → length (or_else o []) ≤ max_points
      → length (or_else (reseeded max_points (extended none samples) o) []) ≤ max_points
  reseeded_bounded max_points o [] h b = b
  reseeded_bounded max_points o (s ∷ ss) h b =
      unfold seeded in
      length-slice_last max_points (older (cutoff (or_else o [])) (s ∷ ss) ++ or_else o []) h

  -- A positive limit on the samples of the live series holds for the seeded one.
  pub seed_history_bounded :
      (prev : Series V) (points : List (HistoryPoint V)) (max_points : ℕ) (name : Str)
      → 0 < max_points
      → length (samples_or_empty name prev) ≤ max_points
      → length (samples_or_empty name (seed_history prev points max_points)) ≤ max_points
  seed_history_bounded prev points max_points name h b =
      rw (lookup-seed_rounds prev points max_points name)
        (reseeded_bounded max_points (lookup Str_discrete name prev) (samples_of name points) h b)
