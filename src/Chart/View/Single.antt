-- ===== src/Chart/View/Single.antt =====
-- A render of a chart of one line.
use tstlan_web.Base.{
  ℕ, ◌+◌, ◌≡◌, ◌≢◌, refl, ap, sym, ◌∙◌, ◌⊎◌, inl, inr, Bool, List, [], ◌∷◌, ◌++◌, map, Option, none,
  some, leb, keep, Bool-cases,
}
use tstlan_web.Base.Text.{Str, codes}
use tstlan_web.Base.Number.{ℤ}
use tstlan_web.History.{Sample}
use tstlan_web.Chart.Brush.{IsAscending}
use tstlan_web.Chart.Rows.{ChartSeries, Row, build_rows, column_values}
use tstlan_web.Chart.Indicators.{Doubles}
use tstlan_web.Chart.View.Data.{chart-waiting}
use tstlan_web.Chart.View.{
  ChartState, adjust_window, last_t, windowed, visible, primary_values, Frame, ChartView, waiting,
  frame, show_rows, chart,
}
use tstlan_web.Chart.Rows.Single.{row_of, column_values-rows, build_rows-single}

-- The samples of a window that ends with the last sample.
abbrev pub last_sample_t : {V : Type 0} → ℕ → List (Sample V) → ℕ
last_sample_t t [] = t
last_sample_t t (s ∷ ss) = last_sample_t s.t ss

abbrev pub recent : {V : Type 0} → Option ℕ → List (Sample V) → List (Sample V)
recent none ss = ss
recent (some w) [] = []
recent (some w) (s ∷ ss) = keep (λ x. leb (last_sample_t s.t ss) (x.t + w)) (s ∷ ss)

keep-map :
    {A B : Type 0} (f : A → B) (test : B → Bool) (xs : List A)
    → keep test (map f xs) ≡ map f (keep (λ x. test (f x)) xs)
unfolding keep
keep-map f test [] = refl
keep-map f test (x ∷ xs) = elim (Bool-cases (test (f x))) [
  | inl e ↦ rw (e, keep-map f test xs) refl
  | inr e ↦ rw (e, keep-map f test xs) refl
]

windowed-single :
    {V : Type 0} (key : Str) (window : Option ℕ) (ss : List (Sample V))
    → windowed window (map (row_of key) ss) ≡ map (row_of key) (recent window ss)
unfolding windowed keep
windowed-single key none ss = refl
windowed-single key (some w) [] = refl
windowed-single {V} key (some w) (s ∷ ss) =
    ap (λ last. keep (λ r. leb last (r.t + w)) (map (row_of key) (s ∷ ss))) (last s.t ss)
    ∙ keep-map (row_of key) (λ r. leb (last_sample_t s.t ss) (r.t + w)) (s ∷ ss)
  where
    last : (t : ℕ) (xs : List (Sample V)) → last_t t (map (row_of key) xs) ≡ last_sample_t t xs
    last t [] = refl
    last t (x ∷ xs) = last x.t xs

frame_or : {V : Type 0} → Frame V → ChartView V → Frame V
frame_or d waiting = d
frame_or d (frame f) = f

module _ {V : Type 0} (doubles : Doubles V) (of_time : ℕ → V) (tz_offset : ℕ → ℤ)
    (time_of : V → ℕ) where
  show_rows-single :
      (series : List (ChartSeries V)) (window : Option ℕ) (fill : Bool) (s : ChartState)
      (rows : List (Row V)) (f : Frame V)
      → s.brush ≡ none
      → show_rows doubles of_time tz_offset series window fill s rows ≡ frame f
      → (f.rows ≡ rows) × (f.values ≡ primary_values of_time series rows)
  unfolding show_rows frame_or visible
  show_rows-single series window fill s [] f e h = absurd (cc)
  show_rows-single series window fill s (row ∷ rows) f e h =
      let same = ap (frame_or f) h in
      (
        ap (λ (g : Frame V). g.rows) (sym same),
        ap (λ (g : Frame V). g.values) (sym same)
            ∙ ap (λ b. primary_values of_time series (visible window b (row ∷ rows))) e
            ∙ ap (primary_values of_time series) (all_visible window (row ∷ rows)),
      )
    where
      all_visible : (w : Option ℕ) (xs : List (Row V)) → visible w none xs ≡ xs
      all_visible none xs = refl
      all_visible (some n) xs = refl

  frame_or_waiting : (view : ChartView V) → (view ≡ waiting) ⊎ ((f : Frame V) × (view ≡ frame f))
  frame_or_waiting waiting = inl refl
  frame_or_waiting (frame f) = inr (f, refl)

  -- A line with samples has a frame.
  framed :
      (line : ChartSeries V) (window : Option ℕ) (fill : Bool) (s : ChartState)
      → line.samples ≢ []
      → (f : Frame V) × (chart doubles of_time tz_offset time_of (line ∷ []) window fill s
          ≡ frame f)
  framed line window fill s h =
      elim (frame_or_waiting (chart doubles of_time tz_offset time_of (line ∷ []) window fill s)) [
        | inl e ↦
            let empty =
              (chart-waiting doubles of_time tz_offset time_of (line ∷ []) window fill s).0 e in
            absurd (h (no_samples line.samples empty))
        | inr found ↦ found
      ]
    where
      no_samples : (ss : List (Sample V)) → map (λ x. x.t) ss ++ [] ≡ [] → ss ≡ []
      no_samples [] e = refl
      no_samples (x ∷ ss) e = absurd (cc)

  -- A line with samples that ascend in time, whose key is not that of the time, has a frame, and if no
  -- part is selected that shows exactly the samples of the window, in order, and takes its statistics
  -- from their values.
  pub chart-single :
      (line : ChartSeries V) (window : Option ℕ) (fill : Bool) (s : ChartState)
      → line.key ≢ codes "t"
      → line.samples ≢ []
      → IsAscending (map (λ x. x.t) line.samples)
      → (adjust_window window s).brush ≡ none
      → (f : Frame V) × (chart doubles of_time tz_offset time_of (line ∷ []) window fill s
          ≡ frame f)
        × (f.rows ≡ map (row_of line.key) (recent window line.samples))
        × (f.values ≡ map (λ x. x.v) (recent window line.samples))
  unfolding chart primary_values
  chart-single line window fill s plain some_sample a e =
      let (f, h) = framed line window fill s some_sample in
      let (rows, values) =
        show_rows-single (line ∷ []) window fill (adjust_window window s)
          (windowed window (build_rows time_of (line ∷ []))) f e h in
      let shown =
        ap (windowed window) (build_rows-single time_of of_time line.key plain line refl a)
        ∙ windowed-single line.key window line.samples in
      (
        f,
        h,
        rows ∙ shown,
        values
            ∙ ap (λ xs. column_values of_time xs line.key) shown
            ∙ column_values-rows time_of of_time line.key plain (recent window line.samples),
      )
