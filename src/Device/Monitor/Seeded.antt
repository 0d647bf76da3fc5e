-- ===== src/Device/Monitor/Seeded.antt =====
-- The series of the page of a device when the history of the server comes between messages of the
-- stream.
use tstlan_web.Base.{
  ℕ, ◌+◌, ◌≤◌, ◌<◌, inl, inr, true, List, [], ◌∷◌, ◌++◌, Option, none, arith, or_else, All,
  All-append, Bool-cases,
}
use tstlan_web.Base.Text.{Str, Str_discrete}
use tstlan_web.Base.Record.{lookup}
use tstlan_web.History.{
  Sample, HistoryPoint, samples_or_empty, cutoff, is_before, older, seeded, seed_history,
}
use tstlan_web.History.Seeding.{samples_of, extended, reseeded, lookup-seed_rounds}
use tstlan_web.History.Order.{IsAscending, AreOrdered, samples_of-times, seed_history-IsAscending}
use tstlan_web.Device.Monitor.{VariableValue, Monitor, max_points, on_snapshot, history_loaded}
use tstlan_web.Device.Monitor.Stream.{
  IsBefore, IsOrderedBefore, feed, AreInOrder, IsBefore-slice_last, weaken,
  on_snapshot-IsOrderedBefore, feed-IsAscending,
}

module _ {V : Type 0} where
  IsBefore-older :
      (t : ℕ) (c : Option ℕ) (ss : List (Sample V)) → IsBefore t ss → IsBefore t (older c ss)
  unfolding older
  IsBefore-older t c [] h = tt
  IsBefore-older t c (s ∷ ss) (p, h) = elim (Bool-cases (is_before s.t c)) [
    | inl e ↦ rw e (p, IsBefore-older t c ss h)
    | inr e ↦ rw e (IsBefore-older t c ss h)
  ]

  IsBefore-reseeded :
      (t : ℕ) (o : Option (List (Sample V))) (samples : List (Sample V))
      → IsBefore t samples
      → IsBefore t (or_else o [])
      → IsBefore t (or_else (reseeded max_points (extended none samples) o) [])
  unfolding seeded
  IsBefore-reseeded t o [] h b = b
  IsBefore-reseeded t o (s ∷ ss) h b =
      IsBefore-slice_last t max_points (older (cutoff (or_else o [])) (s ∷ ss) ++ or_else o []) (
        All-append (λ x. x.t < t) (older (cutoff (or_else o [])) (s ∷ ss)) (or_else o [])
          (IsBefore-older t (cutoff (or_else o [])) (s ∷ ss) h) b)

  IsBefore-seed_history :
      (t : ℕ) (points : List (HistoryPoint V)) (m : Monitor V) (name : Str)
      → All (λ p. p.t < t) points
      → IsBefore t (samples_or_empty name m.history)
      → IsBefore t (samples_or_empty name (seed_history m.history points max_points))
  IsBefore-seed_history t points m name h b =
      rw (lookup-seed_rounds m.history points max_points name) (
        IsBefore-reseeded t (lookup Str_discrete name m.history) (samples_of name points)
          (samples_of-times (λ u. u < t) name points h) b)

  -- The history of the server, in order and from before a time, keeps the series in order.
  history_loaded-IsOrderedBefore :
      (t : ℕ) (points : List (HistoryPoint V)) (m : Monitor V)
      → AreOrdered points
      → All (λ p. p.t < t) points
      → IsOrderedBefore t m
      → IsOrderedBefore t (history_loaded true points m)
  unfolding history_loaded
  history_loaded-IsOrderedBefore t [] m o h b name = b name
  history_loaded-IsOrderedBefore t (p ∷ ps) m o h b name = (
    seed_history-IsAscending m.history (p ∷ ps) max_points name o (b name).0,
    IsBefore-seed_history t (p ∷ ps) m name h (b name).1,
  )

  -- Messages that come in order, all before a time.
  abbrev pub AreBefore : ℕ → List (ℕ × List (VariableValue V)) → Type 0
  AreBefore now = All (λ message. message.0 < now)

  feed-IsOrderedBefore :
      (from now : ℕ) (messages : List (ℕ × List (VariableValue V))) (m : Monitor V)
      → from ≤ now
      → AreInOrder from messages
      → AreBefore now messages
      → IsOrderedBefore from m
      → IsOrderedBefore now (feed messages m)
  feed-IsOrderedBefore from now [] m le o b h name =
      ((h name).0, weaken from now (samples_or_empty name m.history) le (h name).1)
  feed-IsOrderedBefore from now ((t, snapshot) ∷ messages) m le (first, d, rest) (lt, b) h name =
      feed-IsOrderedBefore (t + 1) now messages (on_snapshot snapshot t m) (omega arith) rest b
        (on_snapshot-IsOrderedBefore from t snapshot m first d h) name

  -- The page after messages, the history, and further messages.
  abbrev pub stored :
      List (ℕ × List (VariableValue V))
      → List (HistoryPoint V)
      → List (ℕ × List (VariableValue V))
      → Monitor V
      → Monitor V
  stored former points later m = feed later (history_loaded true points (feed former m))

  pub stored-IsAscending :
      (from now : ℕ) (former later : List (ℕ × List (VariableValue V)))
      (points : List (HistoryPoint V)) (m : Monitor V) (name : Str)
      → from ≤ now
      → AreInOrder from former
      → AreBefore now former
      → AreOrdered points
      → All (λ p. p.t < now) points
      → AreInOrder now later
      → IsOrderedBefore from m
      → IsAscending (samples_or_empty name (stored former points later m).history)
  stored-IsAscending from now former later points m name le o b a h o' start =
      feed-IsAscending now later (history_loaded true points (feed former m)) name o' (
        history_loaded-IsOrderedBefore now points (feed former m) a h
          (feed-IsOrderedBefore from now former m le o b start))
