-- ===== src/Device/Charts/Stored.antt =====
-- The chart of one variable after messages of the stream and the history of the server.
use tstlan_web.Base.{ℕ, ◌≤◌, ◌<◌, ◌≡◌, ◌≢◌, Bool, List, [], ◌∷◌, map, Option, none, All}
use tstlan_web.Base.Text.{Str, codes}
use tstlan_web.Base.Number.{ℤ}
use tstlan_web.Api.{VariableInfo}
use tstlan_web.History.{HistoryPoint, Sample, samples_or_empty}
use tstlan_web.History.Order.{AreOrdered, IsAscending as AscendingSamples}
use tstlan_web.Chart.Brush.{IsAscending}
use tstlan_web.Chart.Indicators.{Doubles}
use tstlan_web.Chart.View.{ChartState, adjust_window, Frame, frame, chart}
use tstlan_web.Chart.Rows.Single.{row_of}
use tstlan_web.Chart.View.Single.{recent, chart-single}
use tstlan_web.Device.Monitor.{VariableValue, Monitor}
use tstlan_web.Device.Monitor.Stream.{AreInOrder, IsOrderedBefore}
use tstlan_web.Device.Monitor.Seeded.{AreBefore, stored, stored-IsAscending}
use tstlan_web.Device.Charts.{Prints, to_series, series_of}

times-below :
    {V : Type 0} (t : ℕ) (ss : List (Sample V))
    → All (λ s. t < s.t) ss
    → All (λ u. t < u) (map (λ s. s.t) ss)
times-below t [] h = tt
times-below t (s ∷ ss) h = (h.0, times-below t ss h.1)

times-IsAscending :
    {V : Type 0} (ss : List (Sample V)) → AscendingSamples ss → IsAscending (map (λ s. s.t) ss)
times-IsAscending [] h = tt
times-IsAscending (s ∷ ss) h = (times-below s.t ss h.0, times-IsAscending ss h.1)

module _ {V : Type 0} (prints : Prints V) (doubles : Doubles V) (of_time : ℕ → V)
    (tz_offset : ℕ → ℤ) (time_of : V → ℕ) where
  -- From series in order, after messages of the stream, then the history of the server and then
  -- further messages, where the messages come in the order of time and after the series, each with
  -- different names, the history is in order and it and the former messages are from before the
  -- later ones, the chart of one variable that is not named t and has samples has a frame, and if
  -- no part is selected that shows exactly the samples of its buffer in the window, in order, and
  -- takes its statistics from their values.
  pub chart-stored :
      (from now : ℕ) (former later : List (ℕ × List (VariableValue V)))
      (points : List (HistoryPoint V)) (m : Monitor V) (id : Str) (v : VariableInfo)
      (window : Option ℕ) (fill : Bool) (s : ChartState)
      → from ≤ now
      → AreInOrder from former
      → AreBefore now former
      → AreOrdered points
      → All (λ p. p.t < now) points
      → AreInOrder now later
      → IsOrderedBefore from m
      → v.name ≢ codes "t"
      → samples_or_empty v.name (stored former points later m).history ≢ []
      → (adjust_window window s).brush ≡ none
      → (f : Frame V) × (chart doubles of_time tz_offset time_of
            (series_of prints
              (stored former points later m).history
              (record { id = id; members = v ∷ [] }))
            window
            fill
            s
          ≡ frame f)
        × (f.rows
            ≡ map
                (row_of v.name)
                (recent window (samples_or_empty v.name (stored former points later m).history)))
        × (f.values
            ≡ map
                (λ x. x.v)
                (recent window (samples_or_empty v.name (stored former points later m).history)))
  unfolding series_of to_series
  chart-stored from now former later points m id v window fill s le o b a h o' start plain
        some_sample free =
      let series = (stored former points later m).history in
      chart-single doubles of_time tz_offset time_of
        (to_series prints series v (codes "var(--foreground)")) window fill s plain some_sample
        (times-IsAscending (samples_or_empty v.name series)
          (stored-IsAscending from now former later points m v.name le o b a h o' start))
        free
