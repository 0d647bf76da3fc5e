-- ===== src/History/Contents.antt =====
-- What the history of a variable is once that of the server is put in, described without loops.
use tstlan_web.Base.{
  ℕ, zero, suc, ◌-◌, ◌≡◌, refl, ap, ◌∙◌, Bool, true, List, [], ◌∷◌, ◌++◌, Option, none, some, arith,
  ltb, ◌==◌, if◌then◌else◌, or_else, length, drop, keep,
}
use tstlan_web.Base.Text.{Str, Str_discrete}
use tstlan_web.Base.Record.{lookup}
use tstlan_web.History.{
  Sample, HistoryPoint, Series, slice_last, cutoff, older, seeded, seed_history,
}
use tstlan_web.History.Seeding.{samples_of, extended, reseeded, lookup-seed_rounds}

-- The last `n` elements; for 0 all of them, as `slice(-0)` has it.
abbrev pub latest {ℓ} : {A : Type ℓ} → ℕ → List A → List A
latest n xs = if n == 0 then xs else drop (length xs - n) xs

slice_last-latest {ℓ} : {A : Type ℓ} (n : ℕ) (xs : List A) → slice_last n xs ≡ latest n xs
unfolding slice_last
slice_last-latest zero xs = refl
slice_last-latest (suc n) xs = ground arith

module _ {V : Type 0} where
  -- The sample is older than all live ones.
  abbrev pub precedes : List (Sample V) → Sample V → Bool
  precedes [] s = true
  precedes (l ∷ _) s = ltb s.t l.t

  -- The entry of a variable with the samples `history` from the server.
  abbrev pub with_history :
      ℕ → List (Sample V) → Option (List (Sample V)) → Option (List (Sample V))
  with_history max_points [] o = o
  with_history max_points (s ∷ ss) o =
      some (latest max_points (keep (precedes (or_else o [])) (s ∷ ss) ++ or_else o []))

  older-keep : (live ss : List (Sample V)) → older (cutoff live) ss ≡ keep (precedes live) ss
  unfolding older keep
  older-keep live [] = refl
  older-keep [] (s ∷ ss) = ap (◌∷◌ s) (older-keep [] ss)
  older-keep (l ∷ live) (s ∷ ss) = ground (arith, older-keep (l ∷ live) ss)

  reseeded-with_history :
      (max_points : ℕ) (ss : List (Sample V)) (o : Option (List (Sample V)))
      → reseeded max_points (extended none ss) o ≡ with_history max_points ss o
  unfolding seeded
  reseeded-with_history max_points [] o = refl
  reseeded-with_history max_points (s ∷ ss) o = ap some (
      ap (λ l. slice_last max_points (l ++ or_else o [])) (older-keep (or_else o []) (s ∷ ss))
      ∙ slice_last-latest max_points _)

  -- For every variable: without samples in the history its series stays; otherwise the samples of the
  -- history from before the first live one are put in front of the live ones, and the last
  -- `max_points` of all are kept.
  pub lookup-seed_history :
      (prev : Series V) (points : List (HistoryPoint V)) (max_points : ℕ) (name : Str)
      → lookup Str_discrete name (seed_history prev points max_points)
        ≡ with_history max_points (samples_of name points) (lookup Str_discrete name prev)
  lookup-seed_history prev points max_points name =
      lookup-seed_rounds prev points max_points name
      ∙ reseeded-with_history max_points (samples_of name points) (lookup Str_discrete name prev)
