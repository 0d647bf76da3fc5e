-- ===== src/Chart/View/Bounds.antt =====
-- The domain of the time axis and the ends of the brush, against the rows of a frame.
use tstlan_web.Base.{
  ℕ, zero, suc, ◌+◌, ◌≤◌, ◌<◌, ◌≡◌, refl, ap, sym, inl, inr, Bool, List, [], ◌∷◌, map, Option, none,
  some, arith, leb, leb→le, length, Among, Among-keep, some_eq, length-map, Bool-cases,
  Option-cases,
}
use tstlan_web.Base.Number.{ℤ}
use mathlib.Core.Path.{subst}
use tstlan_web.Chart.Brush.{
  IsAscending, TimeRange, first_index_at_or_after, last_index_at_or_before,
}
use tstlan_web.Chart.Rows.{ChartSeries, Row, build_rows}
use tstlan_web.Chart.Rows.Times.{HasNoTimeKey, build_rows-IsAscending}
use tstlan_web.Chart.Indicators.{Doubles}
use tstlan_web.Chart.View.{
  ChartState, adjust_window, last_t, windowed, x_min, brush_start, brush_end, Frame, ChartView,
  waiting, frame, show_rows, chart,
}
use tstlan_web.Chart.Brush.{first_from, last_below}
use tstlan_web.Chart.View.Data.{last_row, lower, upper, windowed-IsAscending}

-- The index that the search finds is one of the list.
first_from_below : (n i t : ℕ) (xs : List ℕ) → first_from n xs t ≡ some i → i < n + length xs
unfolding first_from
first_from_below n i t [] h = absurd (cc)
first_from_below n i t (x ∷ xs) h = elim (Bool-cases (leb t x)) [
  | inl e ↦ let found : some n ≡ some i = rw e at h in let same = some_eq found in omega arith
  | inr e ↦ omega (arith, first_from_below (suc n) i t xs (rw e at h))
]

first_index_below : (x t : ℕ) (xs : List ℕ) → first_index_at_or_after (x ∷ xs) t < suc (length xs)
unfolding first_index_at_or_after
first_index_below x t xs = elim (Option-cases (first_from 0 (x ∷ xs) t)) [
  | inl e ↦ rw e (omega arith)
  | inr (i, e) ↦ rw e (omega (arith, first_from_below 0 i t (x ∷ xs) e))
]

last_below_below : (n t : ℕ) (xs : List ℕ) → last_below (suc n) xs t < suc n
unfolding last_below
last_below_below zero t xs = ground arith
last_below_below (suc n) t xs = ground (arith, last_below_below n t xs)

brush_start_below :
    (brush : Option TimeRange) (x : ℕ) (xs : List ℕ) → brush_start brush (x ∷ xs) < suc (length xs)
unfolding brush_start
brush_start_below none x xs = omega arith
brush_start_below (some range) x xs = first_index_below x range.start_t xs

brush_end_below :
    (brush : Option TimeRange) (x : ℕ) (xs : List ℕ) → brush_end brush (x ∷ xs) < suc (length xs)
unfolding brush_end last_index_at_or_before
brush_end_below none x xs = omega arith
brush_end_below (some range) x xs = last_below_below (length xs) range.end_t (x ∷ xs)

-- What a frame shows of its rows: all stand in the domain of the time axis, and both ends of the brush
-- are indices of rows.
abbrev pub IsBounded : {V : Type 0} → Frame V → Type 0
IsBounded {V} f =
    ((r : Row V) → Among r f.rows → (f.x_domain.0 ≤ r.t) × (r.t ≤ f.x_domain.1))
    × (f.start_index < length f.rows)
    × (f.end_index < length f.rows)

frame_or : {V : Type 0} → Frame V → ChartView V → Frame V
frame_or d waiting = d
frame_or d (frame f) = f

-- A row of a window is not before the start of its domain.
domain :
    {V : Type 0} (window : Option ℕ) (all : List (Row V)) (row r : Row V) (rows : List (Row V))
    → windowed window all ≡ row ∷ rows
    → IsAscending (map (λ x. x.t) all)
    → Among r (row ∷ rows)
    → (x_min window row.t (last_t row.t rows) ≤ r.t) × (r.t ≤ last_t row.t rows)
unfolding windowed
domain {V} window all row r rows e ascending h =
    let ordered : IsAscending (map (λ (x : Row V). x.t) (row ∷ rows)) =
      subst (λ xs. IsAscending (map (λ (x : Row V). x.t) xs)) e
        (windowed-IsAscending window all ascending) in
    (start window all e ascending ordered, upper row r rows ordered h)
  where
    start :
        (w : Option ℕ) (xs : List (Row V))
        → windowed w xs ≡ row ∷ rows
        → IsAscending (map (λ x. x.t) xs)
        → IsAscending (map (λ x. x.t) (row ∷ rows))
        → x_min w row.t (last_t row.t rows) ≤ r.t
    start none xs same up ordered = lower row r rows ordered h
    start (some w) [] same up ordered = absurd (cc)
    start (some w) (first ∷ xs) same up ordered =
        let test = λ (x : Row V). leb (last_t first.t xs) (x.t + w) in
        let kept = λ (q : Row V) (m : Among q (row ∷ rows)).
          (Among-keep test q (first ∷ xs)).0 (subst (Among q) (sym same) m) in
        let (q, m, last) = last_row row rows in
        let bound = upper first q xs up (kept q m).0 in
        let inside : last_t first.t xs ≤ r.t + w =
          leb→le (last_t first.t xs) (r.t + w) (kept r h).1 in
        omega arith

module _ {V : Type 0} (doubles : Doubles V) (of_time : ℕ → V) (tz_offset : ℕ → ℤ)
    (time_of : V → ℕ) where
  show_rows-bounds :
      (series : List (ChartSeries V)) (window : Option ℕ) (fill : Bool) (s : ChartState)
      (all rows : List (Row V)) (f : Frame V)
      → windowed window all ≡ rows
      → IsAscending (map (λ x. x.t) all)
      → show_rows doubles of_time tz_offset series window fill s rows ≡ frame f
      → IsBounded f
  unfolding show_rows frame_or
  show_rows-bounds series window fill s all [] f e a h = absurd (cc)
  show_rows-bounds series window fill s all (row ∷ rows) f e a h =
      subst IsBounded (ap (frame_or f) h) (
        λ r m. domain window all row r rows e a m,
        subst (λ n. brush_start s.brush (map (λ x. x.t) (row ∷ rows)) < suc n)
            (length-map (λ x. x.t) rows) (brush_start_below s.brush row.t (map (λ x. x.t) rows)),
        subst (λ n. brush_end s.brush (map (λ x. x.t) (row ∷ rows)) < suc n)
            (length-map (λ x. x.t) rows) (brush_end_below s.brush row.t (map (λ x. x.t) rows)),
      )

  -- If no line has the key of the time, then in every frame, with any window and any selection, all
  -- rows stand in the domain of the time axis and both ends of the brush are indices of rows.
  pub chart-IsBounded :
      (series : List (ChartSeries V)) (window : Option ℕ) (fill : Bool) (s : ChartState)
      (f : Frame V)
      → HasNoTimeKey series
      → chart doubles of_time tz_offset time_of series window fill s ≡ frame f
      → IsBounded f
  unfolding chart
  chart-IsBounded series window fill s f n h =
      show_rows-bounds series window fill (adjust_window window s) (build_rows time_of series) _ f
        refl (build_rows-IsAscending time_of series n) h
