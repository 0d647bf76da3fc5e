-- ===== src/History/Seeding.antt =====
-- What `seed_history` stores under each name.
use tstlan_web.Base.{
  ℕ, ◌≡◌, refl, ap, ◌∙◌, List, [], ◌∷◌, ◌++◌, append-nil, append_assoc, Option, none, some, arith,
  or_else, ite,
}
use tstlan_web.Base.Text.{Str, Str_discrete}
use tstlan_web.Base.Record.{lookup, assign, lookup-assign}
use mathlib.Core.Logic.{if_pos, if_neg}
use tstlan_web.History.{
  Sample, HistoryPoint, Series, samples_or_empty, push_sample, collect_values, collect_points,
  seeded, seed_series, seed_history,
}

module _ {V : Type 0} where
  -- The samples of one variable in a point, and in all points, in order.
  abbrev pub samples_in : Str → ℕ → List (Str × V) → List (Sample V)
  samples_in name t [] = []
  samples_in name t ((j, v) ∷ values) =
      ite (Str_discrete j name) (record { t = t; v = v } ∷ samples_in name t values)
        (samples_in name t values)

  abbrev pub samples_of : Str → List (HistoryPoint V) → List (Sample V)
  samples_of name [] = []
  samples_of name (p ∷ ps) = samples_in name p.t p.values ++ samples_of name ps

  -- An entry to which samples are added; no sample adds no entry.
  abbrev pub extended : Option (List (Sample V)) → List (Sample V) → Option (List (Sample V))
  extended o [] = o
  extended o (s ∷ ss) = some (or_else o [] ++ s ∷ ss)

  extended-append :
      (o : Option (List (Sample V))) (xs ys : List (Sample V))
      → extended (extended o xs) ys ≡ extended o (xs ++ ys)
  extended-append o [] ys = refl
  extended-append o (x ∷ xs) [] = rw append-nil
  extended-append o (x ∷ xs) (y ∷ ys) = ap some (append_assoc (or_else o []) (x ∷ xs) (y ∷ ys))

  lookup-push_sample :
      (name k : Str) (s : Sample V) (m : Series V)
      → lookup Str_discrete name (push_sample k s m)
        ≡ ite
            (Str_discrete k name)
            (extended (lookup Str_discrete name m) (s ∷ []))
            (lookup Str_discrete name m)
  unfolding push_sample
  lookup-push_sample name k s m =
      ground (arith, lookup-assign Str_discrete k name (samples_or_empty k m ++ s ∷ []) m)

  lookup-collect_values :
      (name : Str) (t : ℕ) (values : List (Str × V)) (m : Series V)
      → lookup Str_discrete name (collect_values t values m)
        ≡ extended (lookup Str_discrete name m) (samples_in name t values)
  unfolding collect_values
  lookup-collect_values name t [] m = refl
  lookup-collect_values name t ((k, v) ∷ values) m =
      let s : Sample V = record { t = t; v = v } in
      lookup-collect_values name t values (push_sample k s m) ∙ elim (Str_discrete k name) [
        | yes e ↦
            rw (lookup-push_sample name k s m, if_pos _ e, if_pos _ e)
              (extended-append (lookup Str_discrete name m) (s ∷ []) (samples_in name t values))
        | no e ↦ rw (lookup-push_sample name k s m, if_neg _ e, if_neg _ e) refl
      ]

  lookup-collect_points :
      (name : Str) (points : List (HistoryPoint V)) (m : Series V)
      → lookup Str_discrete name (collect_points points m)
        ≡ extended (lookup Str_discrete name m) (samples_of name points)
  unfolding collect_points
  lookup-collect_points name [] m = refl
  lookup-collect_points name (p ∷ ps) m =
      lookup-collect_points name ps (collect_values p.t p.values m)
      ∙ ap (λ o. extended o (samples_of name ps)) (lookup-collect_values name p.t p.values m)
      ∙ extended-append (lookup Str_discrete name m) (samples_in name p.t p.values)
          (samples_of name ps)

  -- No key occurs twice.
  abbrev HasDistinctKeys : Series V → Type 0
  HasDistinctKeys [] = Unit
  HasDistinctKeys ((k, _) ∷ m) = (lookup Str_discrete k m ≡ none) × HasDistinctKeys m

  assign-HasDistinctKeys :
      (k : Str) (ss : List (Sample V)) (m : Series V)
      → HasDistinctKeys m
      → HasDistinctKeys (assign Str_discrete k ss m)
  unfolding assign
  assign-HasDistinctKeys k ss [] h = (unfold lookup in refl, tt)
  assign-HasDistinctKeys k ss ((j, w) ∷ m) (a, b) = elim (Str_discrete j k) [
    | yes e ↦ rw (if_pos _ e) (rw e at a, b)
    | no e ↦
        rw (if_neg _ e)
          (ground (arith, lookup-assign Str_discrete k j ss m), assign-HasDistinctKeys k ss m b)
  ]

  collect_values-HasDistinctKeys :
      (t : ℕ) (values : List (Str × V)) (m : Series V)
      → HasDistinctKeys m
      → HasDistinctKeys (collect_values t values m)
  unfolding collect_values push_sample
  collect_values-HasDistinctKeys t [] m h = h
  collect_values-HasDistinctKeys t ((k, v) ∷ values) m h =
      collect_values-HasDistinctKeys t values (push_sample k (record { t = t; v = v }) m)
        (assign-HasDistinctKeys k _ m h)

  collect_points-HasDistinctKeys :
      (points : List (HistoryPoint V)) (m : Series V)
      → HasDistinctKeys m
      → HasDistinctKeys (collect_points points m)
  unfolding collect_points
  collect_points-HasDistinctKeys [] m h = h
  collect_points-HasDistinctKeys (p ∷ ps) m h =
      collect_points-HasDistinctKeys ps (collect_values p.t p.values m)
        (collect_values-HasDistinctKeys p.t p.values m h)

  -- What the second loop makes of an entry, given the collected samples of its name.
  abbrev pub reseeded :
      ℕ → Option (List (Sample V)) → Option (List (Sample V)) → Option (List (Sample V))
  reseeded max_points none o = o
  reseeded max_points (some samples) o = some (seeded max_points samples (or_else o []))

  lookup-seed_series :
      (name : Str) (max_points : ℕ) (next m : Series V)
      → HasDistinctKeys m
      → lookup Str_discrete name (seed_series max_points next m)
        ≡ reseeded max_points (lookup Str_discrete name m) (lookup Str_discrete name next)
  unfolding seed_series lookup
  lookup-seed_series name max_points next [] h = refl
  lookup-seed_series name max_points next ((k, ss) ∷ m) (a, h) =
      let v = seeded max_points ss (samples_or_empty k next) in
      let ih = lookup-seed_series name max_points (assign Str_discrete k v next) m h in
      let at = lookup-assign Str_discrete k name v next in ground (arith, ih, at)

  -- The entry of every variable, by the rounds of the two loops.
  pub lookup-seed_rounds :
      (prev : Series V) (points : List (HistoryPoint V)) (max_points : ℕ) (name : Str)
      → lookup Str_discrete name (seed_history prev points max_points)
        ≡ reseeded max_points
            (extended none (samples_of name points))
            (lookup Str_discrete name prev)
  unfolding seed_history lookup
  lookup-seed_rounds prev points max_points name =
      lookup-seed_series name max_points prev (collect_points points [])
        (collect_points-HasDistinctKeys points [] tt)
      ∙ ap (λ o. reseeded max_points o (lookup Str_discrete name prev))
          (lookup-collect_points name points [])
