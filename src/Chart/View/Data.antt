-- ===== src/Chart/View/Data.antt =====
-- Which rows a render shows, and when it waits for data.
use tstlan_web.Base.{
  ℕ, ◌+◌, ◌≤◌, ◌<◌, ◌≡◌, refl, ap, sym, ◌∙◌, ◌↔◌, inl, inr, Bool, true, false, List, [], ◌∷◌, map,
  Option, none, some, arith, ltb, leb, All, keep, Among, Among-keep, Bool-cases, ℕ_discrete,
}
use tstlan_web.Base.Number.{ℤ}
use tstlan_web.Base.Record.{has, add_all, has-add_all, has-Among}
use mathlib.Core.Path.{subst}
use tstlan_web.Base.Sort.{sort, sort-ne-nil}
use tstlan_web.Chart.Brush.{IsAscending}
use tstlan_web.Chart.Rows.{ChartSeries, Row, add_lines, build_rows}
use tstlan_web.Chart.Rows.Times.{sample_times, add_lines-keys}
use tstlan_web.Chart.Indicators.{Doubles}
use tstlan_web.Chart.View.{ChartState, adjust_window, last_t, windowed, waiting, show_rows, chart}

map_nil : {A B : Type 0} (f : A → B) (xs : List A) → map f xs ≡ [] → xs ≡ []
map_nil f [] h = refl
map_nil f (x ∷ xs) h = absurd (cc)

sort_nil : {A : Type 0} (less : A → A → Bool) (xs : List A) → sort less xs ≡ [] → xs ≡ []
unfolding sort
sort_nil less [] h = refl
sort_nil less (x ∷ xs) h = absurd (sort-ne-nil less x xs h)

-- Some row has the time of the last one.
pub last_row :
    {V : Type 0} (row : Row V) (rows : List (Row V))
    → (r : Row V) × Among r (row ∷ rows) × (r.t ≡ last_t row.t rows)
last_row row [] = (row, inl refl, refl)
last_row row (next ∷ rows) = let (r, a, e) = last_row next rows in (r, inr a, e)

-- A window is not empty, since the last row is in it.
windowed_nil :
    {V : Type 0} (window : Option ℕ) (rows : List (Row V)) → windowed window rows ≡ [] → rows ≡ []
unfolding windowed
windowed_nil none rows h = h
windowed_nil (some w) [] h = refl
windowed_nil {V} (some w) (row ∷ rows) h =
    let (r, a, e) = last_row row rows in
    let kept =
      (Among-keep (λ x. leb (last_t row.t rows) (x.t + w)) r (row ∷ rows)).1 (a, ground arith) in
    elim (subst (λ xs. Among r xs) h kept) [ ]

add_all_nil : (ts : List ℕ) → add_all ℕ_discrete [] ts ≡ [] → ts ≡ []
unfolding has
add_all_nil [] h = refl
add_all_nil (t ∷ ts) h =
    let seen : has ℕ_discrete t (add_all ℕ_discrete [] (t ∷ ts)) ≡ true =
      has-add_all ℕ_discrete t [] (t ∷ ts) ∙ (has-Among ℕ_discrete t (t ∷ ts)).1 (inl refl) in
    let bad : false ≡ true = subst (λ xs. has ℕ_discrete t xs ≡ true) h seen in absurd (cc)

build_rows_nil :
    {V : Type 0} (time_of : V → ℕ) (series : List (ChartSeries V))
    → (build_rows time_of series ≡ []) ↔ (sample_times series ≡ [])
unfolding build_rows add_all sort
build_rows_nil time_of series =
    let rows = add_lines time_of series [] in
    let keys = add_lines-keys time_of series [] in
    (
      λ h.
          let none_left = map_nil (λ e. e.1) rows (sort_nil (λ a b. ltb a.t b.t) _ h) in
          add_all_nil (sample_times series) (sym keys ∙ ap (map (λ e. e.0)) none_left),
      λ h.
          let none_left = map_nil (λ e. e.0) rows (keys ∙ ap (add_all ℕ_discrete []) h) in
          ap (λ m. sort (λ a b. ltb a.t b.t) (map (λ e. e.1) m)) none_left,
    )

module _ {V : Type 0} where
  pub lower :
      (row r : Row V) (rows : List (Row V))
      → IsAscending (map (λ x. x.t) (row ∷ rows))
      → Among r (row ∷ rows)
      → row.t ≤ r.t
  lower row r rows h (inl e) = let same : row.t ≡ r.t = ap (λ (x : Row V). x.t) e in omega arith
  lower row r [] h (inr m) = elim m [ ]
  lower row r (next ∷ rows) h (inr m) =
      let before : row.t < next.t = h.0.0 in omega (arith, lower next r rows h.1 m)

  pub upper :
      (row r : Row V) (rows : List (Row V))
      → IsAscending (map (λ x. x.t) (row ∷ rows))
      → Among r (row ∷ rows)
      → r.t ≤ last_t row.t rows
  upper row r [] h (inl e) = let same : row.t ≡ r.t = ap (λ (x : Row V). x.t) e in omega arith
  upper row r [] h (inr m) = elim m [ ]
  upper row r (next ∷ rows) h (inl e) =
      let same : row.t ≡ r.t = ap (λ (x : Row V). x.t) e in
      let before : row.t < next.t = h.0.0 in omega (arith, upper next next rows h.1 (inl refl))
  upper row r (next ∷ rows) h (inr m) = upper next r rows h.1 m

  All-keep :
      (P : ℕ → Type 0) (test : Row V → Bool) (rows : List (Row V))
      → All P (map (λ x. x.t) rows)
      → All P (map (λ x. x.t) (keep test rows))
  unfolding keep
  All-keep P test [] h = tt
  All-keep P test (row ∷ rows) h = elim (Bool-cases (test row)) [
    | inl e ↦ rw e (h.0, All-keep P test rows h.1)
    | inr e ↦ rw e (All-keep P test rows h.1)
  ]

  pub keep-IsAscending :
      (test : Row V → Bool) (rows : List (Row V))
      → IsAscending (map (λ x. x.t) rows)
      → IsAscending (map (λ x. x.t) (keep test rows))
  unfolding keep
  keep-IsAscending test [] h = tt
  keep-IsAscending test (row ∷ rows) h = elim (Bool-cases (test row)) [
    | inl e ↦ rw e (All-keep (λ y. row.t < y) test rows h.0, keep-IsAscending test rows h.1)
    | inr e ↦ rw e (keep-IsAscending test rows h.1)
  ]

  pub windowed-IsAscending :
      (window : Option ℕ) (rows : List (Row V))
      → IsAscending (map (λ x. x.t) rows)
      → IsAscending (map (λ x. x.t) (windowed window rows))
  unfolding windowed
  windowed-IsAscending none rows h = h
  windowed-IsAscending (some w) [] h = h
  windowed-IsAscending (some w) (row ∷ rows) h = keep-IsAscending _ (row ∷ rows) h

module _ {V : Type 0} (doubles : Doubles V) (of_time : ℕ → V) (tz_offset : ℕ → ℤ)
    (time_of : V → ℕ) where
  show_rows_nil :
      (series : List (ChartSeries V)) (window : Option ℕ) (fill : Bool) (s : ChartState)
      (rows : List (Row V))
      → show_rows doubles of_time tz_offset series window fill s rows ≡ waiting
      → rows ≡ []
  unfolding show_rows
  show_rows_nil series window fill s [] h = refl
  show_rows_nil series window fill s (row ∷ rows) h = absurd (cc)

  -- A render waits for data exactly while no line has a sample, whatever the window and the brush.
  pub chart-waiting :
      (series : List (ChartSeries V)) (window : Option ℕ) (fill : Bool) (s : ChartState)
      → (chart doubles of_time tz_offset time_of series window fill s ≡ waiting)
        ↔ (sample_times series ≡ [])
  unfolding chart windowed show_rows
  chart-waiting series window fill s =
      let (to, from) = build_rows_nil time_of series in
      (
        λ h.
            to (
              windowed_nil window _
                (show_rows_nil series window fill (adjust_window window s) _ h)),
        λ h. rw (from h) (empty window),
      )
    where
      empty :
          (w : Option ℕ)
          → show_rows doubles of_time tz_offset series w fill (adjust_window w s) (windowed w [])
            ≡ waiting
      empty none = refl
      empty (some n) = refl
