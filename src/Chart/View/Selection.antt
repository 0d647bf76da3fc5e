-- ===== src/Chart/View/Selection.antt =====
-- What a selected part of the chart shows, and how the selection lasts while the lines grow.
use tstlan_web.Base.{
  ℕ, ◌-◌, ◌≤◌, ◌≡◌, refl, ◌↔◌, ◌&&◌, List, [], ◌∷◌, ◌++◌, map, none, some, arith, leb, drop, keep,
  Among, Among-keep,
}
use mathlib.Core.Path.{subst}
use tstlan_web.Chart.Brush.{IsAscending, TimeRange, brush_stable}
use tstlan_web.Chart.Rows.{ChartSeries, Row, build_rows}
use tstlan_web.Chart.Rows.Times.{HasNoTimeKey, build_rows-IsAscending}
use tstlan_web.Chart.View.{
  ChartState, adjust_window, drag_brush, in_range, visible, or_all, brush_start, brush_end,
}

module _ {V : Type 0} where
  or_all_kept : (r : Row V) (xs rows : List (Row V)) → Among r xs → or_all xs rows ≡ xs
  or_all_kept r [] rows m = elim m [ ]
  or_all_kept r (x ∷ xs) rows m = refl

  -- In the mode without a window, rows that the selection covers are exactly what is visible, and
  -- all rows are if it covers none.
  pub Among-visible :
      (range : TimeRange) (rows : List (Row V)) (kept r : Row V)
      → Among kept rows
      → range.start_t ≤ kept.t
      → kept.t ≤ range.end_t
      → Among r (visible none (some range) rows)
        ↔ (Among r rows × (range.start_t ≤ r.t) × (r.t ≤ range.end_t))
  unfolding visible in_range
  Among-visible range rows kept r m low high =
      let inside = λ (x : Row V). leb range.start_t x.t && leb x.t range.end_t in
      let (to, from) = Among-keep inside r rows in
      let some_kept = (Among-keep inside kept rows).1 (m, ground arith) in
      rw (or_all_kept kept (keep inside rows) rows some_kept) (
        λ h. (let (a, e) = to h in (a, ground arith, ground arith)),
        λ h. from (h.0, ground (arith, h.1)),
      )

module _ {V : Type 0} (time_of : V → ℕ) where
  -- The times of a chart.
  abbrev pub chart_times : List (ChartSeries V) → List ℕ
  chart_times series = map (λ r. r.t) (build_rows time_of series)

  -- A part that is selected with the brush, and is not the whole, stays selected while the lines grow
  -- at the end and are cut at the front: with `k` times cut, none of them selected, a later render
  -- without a window has the brush at the same times, shifted by `k`.
  pub drag_brush-stable :
      (series later : List (ChartSeries V)) (more : List ℕ) (k i j : ℕ) (s : ChartState)
      (range : TimeRange)
      → HasNoTimeKey later
      → s.brush_window ≡ none
      → chart_times later ≡ drop k (chart_times series ++ more)
      → (drag_brush (chart_times series) (some i) (some j) s).brush ≡ some range
      → k ≤ i
      → i ≤ j
      → (brush_start
            (adjust_window none (drag_brush (chart_times series) (some i) (some j) s)).brush
            (chart_times later)
          ≡ i - k)
        × (brush_end
              (adjust_window none (drag_brush (chart_times series) (some i) (some j) s)).brush
              (chart_times later)
            ≡ j - k)
  unfolding drag_brush adjust_window brush_start brush_end
  drag_brush-stable series later more k i j s range n live times dragged cut order =
      let lasts : (adjust_window none (drag_brush (chart_times series) (some i) (some j) s)).brush
          ≡ some range =
        rw live dragged in
      let ordered = subst IsAscending times (build_rows-IsAscending time_of later n) in
      rw (lasts, times) (brush_stable (chart_times series) more k i j dragged cut order ordered)
