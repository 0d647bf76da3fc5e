-- ===== src/Device/Monitor/Steps.antt =====
-- The steps of the page of a device, and what holds in every state that they reach.
use tstlan_web.Base.{
  ℕ, ◌≤◌, ◌≡◌, refl, ◌∙◌, inl, inr, Bool, true, false, ◌||◌, not, List, [], ◌∷◌, ◌++◌, arith, All,
  length, Bool-cases,
}
use tstlan_web.Base.Text.{Str, Str_discrete}
use tstlan_web.Base.Number.Decimal.{value}
use tstlan_web.Base.Record.{has, assign, lookup-assign}
use tstlan_web.Api.{Cause, VariableInfo, DeviceDetail, ConfigVar}
use mathlib.Core.Logic.{if_pos, if_neg}
use tstlan_web.History.{Sample, HistoryPoint, Series, samples_or_empty, slice_last}
use tstlan_web.History.Order.{length-slice_last, seed_history_bounded}
use tstlan_web.Device.Graph.{graph_selection}
use tstlan_web.Device.Panel.{ChartGroup}
use tstlan_web.Device.Monitor.{
  max_points, VariableValue, Monitor, handle_written, toggle_selected, device_loaded, device_failed,
  is_nil, history_loaded, names_of, config_loaded, append_samples, on_snapshot, on_stream_error,
  on_query, on_merge, on_split, close_members, close_group,
}

module _ {V : Type 0} where
  -- The members of a chart are on the page, and so is a variable that is merged into it.
  abbrev pub AreSelected : Monitor V → List VariableInfo → Type 0
  AreSelected m = All (λ v. has Str_discrete v.name m.selected ≡ true)

  pub data Step : Monitor V → Monitor V → Type 0 where
    written : (name : Str) (value : V) (m : Monitor V) → Step m (handle_written name value m)
    toggled : (name : Str) (m : Monitor V) → Step m (toggle_selected name m)
    loaded :
        (active : Bool) (device : DeviceDetail) (m : Monitor V)
        → Step m (device_loaded active device m)
    failed : (active : Bool) (cause : Cause) (m : Monitor V) → Step m (device_failed active cause m)
    history :
        (active : Bool) (points : List (HistoryPoint V)) (m : Monitor V)
        → Step m (history_loaded active points m)
    config :
        (active : Bool) (device : DeviceDetail) (variables : List ConfigVar) (m : Monitor V)
        → Step m (config_loaded active device variables m)
    snapshot : (vs : List (VariableValue V)) (t : ℕ) (m : Monitor V) → Step m (on_snapshot vs t m)
    stream_error : (m : Monitor V) → Step m (on_stream_error m)
    queried : (query : Str) (m : Monitor V) → Step m (on_query query m)
    merged :
        (group : ChartGroup) (name : Str) (m : Monitor V)
        → AreSelected m group.members
        → has Str_discrete name m.selected ≡ true
        → Step m (on_merge group name m)
    split : (name : Str) (m : Monitor V) → Step m (on_split name m)
    closed : (group : ChartGroup) (m : Monitor V) → Step m (close_group group m)

  pub data Reach (m : Monitor V) : Monitor V → Type 0 where
    here : Reach m m
    next : {n k : Monitor V} → Reach m n → Step n k → Reach m k

  -- No series is longer than the buffer.
  abbrev pub IsBounded : Monitor V → Type 0
  IsBounded m = (name : Str) → length (samples_or_empty name m.history) ≤ max_points

  append_samples_bounded :
      (t : ℕ) (vs : List (VariableValue V)) (series_map : Series V) (name : Str)
      → length (samples_or_empty name series_map) ≤ max_points
      → length (samples_or_empty name (append_samples t vs series_map)) ≤ max_points
  unfolding append_samples
  append_samples_bounded t [] series_map name h = h
  append_samples_bounded t (v ∷ vs) series_map name h =
      append_samples_bounded t vs (assign Str_discrete v.name run series_map) name
        (elim (Str_discrete v.name name) [
          | yes e ↦
              rw (lookup-assign Str_discrete v.name name run series_map, if_pos _ e)
                (length-slice_last max_points _ (omega arith))
          | no e ↦ rw (lookup-assign Str_discrete v.name name run series_map, if_neg _ e) h
        ])
    where
      run : List (Sample V)
      run =
          slice_last max_points
            (samples_or_empty v.name series_map ++ record { t = t; v = v.value } ∷ [])

  toggle-history : (name : Str) (m : Monitor V) → (toggle_selected name m).history ≡ m.history
  unfolding toggle_selected
  toggle-history name m = refl

  close-history :
      (vs : List VariableInfo) (m : Monitor V) → (close_members vs m).history ≡ m.history
  unfolding close_members
  close-history [] m = refl
  close-history (v ∷ vs) m = close-history vs (toggle_selected v.name m) ∙ toggle-history v.name m

  history_loaded-IsBounded :
      (active : Bool) (points : List (HistoryPoint V)) (m : Monitor V)
      → IsBounded m
      → IsBounded (history_loaded active points m)
  unfolding history_loaded
  history_loaded-IsBounded false points m h name = h name
  history_loaded-IsBounded true [] m h name = h name
  history_loaded-IsBounded true (p ∷ ps) m h name =
      seed_history_bounded m.history (p ∷ ps) max_points name (omega arith) (h name)

  config-history :
      (active : Bool) (device : DeviceDetail) (variables : List ConfigVar) (m : Monitor V)
      → (config_loaded active device variables m).history ≡ m.history
  unfolding config_loaded
  config-history active device variables m =
      elim (Bool-cases (not active || is_nil (graph_selection variables (names_of device)))) [
        | inl e ↦ rw e refl
        | inr e ↦ rw e refl
      ]

  same_history : (m n : Monitor V) → n.history ≡ m.history → IsBounded m → IsBounded n
  same_history m n e h name = rw e (h name)

  Step-IsBounded : {m n : Monitor V} → Step m n → IsBounded m → IsBounded n
  Step-IsBounded (written name value m) h =
      same_history m (handle_written name value m) (unfold handle_written in refl) h
  Step-IsBounded (toggled name m) h =
      same_history m (toggle_selected name m) (toggle-history name m) h
  Step-IsBounded (loaded active device m) h =
      same_history m (device_loaded active device m) (kept active) h
    where
      kept : (b : Bool) → (device_loaded b device m).history ≡ m.history
      kept true = unfold device_loaded in refl
      kept false = unfold device_loaded in refl
  Step-IsBounded (failed active cause m) h =
      same_history m (device_failed active cause m) (kept active) h
    where
      kept : (b : Bool) → (device_failed b cause m).history ≡ m.history
      kept true = unfold device_failed in refl
      kept false = unfold device_failed in refl
  Step-IsBounded (history active points m) h = history_loaded-IsBounded active points m h
  Step-IsBounded (config active device variables m) h =
      same_history m (config_loaded active device variables m)
        (config-history active device variables m) h
  Step-IsBounded (snapshot vs t m) h =
      λ name. unfold on_snapshot in append_samples_bounded t vs m.history name (h name)
  Step-IsBounded (stream_error m) h =
      same_history m (on_stream_error m) (unfold on_stream_error in refl) h
  Step-IsBounded (queried query m) h = same_history m (on_query query m) (unfold on_query in refl) h
  Step-IsBounded (merged group name m a b) h =
      same_history m (on_merge group name m) (unfold on_merge in refl) h
  Step-IsBounded (split name m) h = same_history m (on_split name m) (unfold on_split in refl) h
  Step-IsBounded (closed group m) h =
      same_history m (close_group group m) (unfold close_group in close-history group.members m) h

  -- From a state whose series have at most 1000 samples each, every sequence of steps leads to such a
  -- state.
  pub Reach-IsBounded : {m n : Monitor V} → IsBounded m → Reach m n → IsBounded n
  Reach-IsBounded h here = h
  Reach-IsBounded h (next r s) = Step-IsBounded s (Reach-IsBounded h r)
