-- ===== src/Device/Monitor/Charted.antt =====
-- The names that the grouping of the charts speaks of.
use tstlan_web.Base.{
  ◌≡◌, ◌≢◌, inl, inr, Bool, true, false, ◌||◌, not, List, [], ◌∷◌, arith, if◌then◌else◌, All,
  Bool-cases,
}
use tstlan_web.Base.Text.{Str, codes, Str_discrete}
use tstlan_web.Base.Number.Decimal.{value}
use tstlan_web.Base.Record.{
  has, add, delete, has-add, has-delete, lookup, assign, remove, lookup-assign, lookup-remove,
}
use tstlan_web.Api.{VariableInfo, DeviceDetail, ConfigVar}
use mathlib.Core.Logic.{if_pos, if_neg}
use tstlan_web.Device.Graph.{graph_selection}
use tstlan_web.History.{HistoryPoint}
use tstlan_web.Device.Panel.{
  Grouping, ChartGroup, Merged, merge_into, split_out, starts_with, assign_members,
}
use tstlan_web.Device.Monitor.{
  Monitor, is_some, is_nil, names_of, handle_written, toggle_selected, device_loaded, device_failed,
  history_loaded, config_loaded, on_snapshot, on_stream_error, on_query, on_merge, on_split,
  close_members, close_group,
}
use tstlan_web.Device.Monitor.Steps.{Step, Reach}

-- Every name in the grouping is selected.
abbrev pub IsWithin : Grouping → List Str → Type 0
IsWithin grouping selected =
    (k : Str) → is_some (lookup Str_discrete k grouping) ≡ true → has Str_discrete k selected ≡ true

toggled-IsWithin :
    (name : Str) (grouping : Grouping) (selected : List Str)
    → IsWithin grouping selected
    → IsWithin
        (if is_some (lookup Str_discrete name grouping)
          then remove Str_discrete name grouping
          else grouping)
        (if has Str_discrete name selected
          then delete Str_discrete name selected
          else add Str_discrete name selected)
toggled-IsWithin name grouping selected h k = elim (Str_discrete name k) [
  | yes e ↦ elim (Bool-cases (is_some (lookup Str_discrete name grouping))) [
    | inl old ↦
        rw (old, lookup-remove Str_discrete name k grouping, if_pos _ e) (λ bad. absurd (cc))
    | inr none_there ↦ rw none_there (λ bad. let same = rw e at none_there in absurd (cc))
  ]
  | no e ↦ elim (Bool-cases (has Str_discrete name selected)) [
    | inl on ↦ rw (on, has-delete Str_discrete name k selected, if_neg _ e) (kept e)
    | inr off ↦ rw (off, has-add Str_discrete name k selected, if_neg _ e) (kept e)
  ]
]
  where
    kept :
        name ≢ k
        → is_some (
            lookup Str_discrete k (
              if is_some (lookup Str_discrete name grouping)
              then remove Str_discrete name grouping
              else grouping))
          ≡ true
        → has Str_discrete k selected ≡ true
    kept e = elim (Bool-cases (is_some (lookup Str_discrete name grouping))) [
      | inl old ↦ rw (old, lookup-remove Str_discrete name k grouping, if_neg _ e) (h k)
      | inr none_there ↦ rw none_there (h k)
    ]

assigned-IsWithin :
    (name target : Str) (grouping : Grouping) (selected : List Str)
    → has Str_discrete name selected ≡ true
    → IsWithin grouping selected
    → IsWithin (assign Str_discrete name target grouping) selected
assigned-IsWithin name target grouping selected s h k =
    ground (arith, lookup-assign Str_discrete name k target grouping, h k)

removed-IsWithin :
    (name : Str) (grouping : Grouping) (selected : List Str)
    → IsWithin grouping selected
    → IsWithin (remove Str_discrete name grouping) selected
removed-IsWithin name grouping selected h k =
    ground (arith, lookup-remove Str_discrete name k grouping, h k)

members-IsWithin :
    (target : Str) (members : List VariableInfo) (grouping : Grouping) (selected : List Str)
    → All (λ v. has Str_discrete v.name selected ≡ true) members
    → IsWithin grouping selected
    → IsWithin (assign_members target members grouping) selected
unfolding assign_members
members-IsWithin target [] grouping selected s h = h
members-IsWithin target (v ∷ vs) grouping selected s h =
    members-IsWithin target vs (assign Str_discrete v.name target grouping) selected s.1
      (assigned-IsWithin v.name target grouping selected s.0 h)

merge_into-IsWithin :
    (group : ChartGroup) (name : Str) (s : Merged) (selected : List Str)
    → All (λ v. has Str_discrete v.name selected ≡ true) group.members
    → has Str_discrete name selected ≡ true
    → IsWithin s.grouping selected
    → IsWithin (merge_into group name s).grouping selected
unfolding merge_into
merge_into-IsWithin group name s selected a b h =
    elim (Bool-cases (starts_with (codes "solo:") group.id)) [
      | inl e ↦ rw e (
          assigned-IsWithin name _ (assign_members _ group.members s.grouping) selected b
            (members-IsWithin _ group.members s.grouping selected a h))
      | inr e ↦ rw e (assigned-IsWithin name group.id s.grouping selected b h)
    ]

chosen-IsWithin :
    (grouping : Grouping) (selected names : List Str)
    → IsWithin grouping selected
    → IsWithin grouping (if is_nil selected then names else selected)
chosen-IsWithin grouping [] names h k g =
    let bad : false ≡ true = unfold has in h k g in absurd (cc)
chosen-IsWithin grouping (s ∷ selected) names h k g = h k g

module _ {V : Type 0} where
  abbrev pub IsCharted : Monitor V → Type 0
  IsCharted m = IsWithin m.grouping m.selected

  toggle-IsCharted : (name : Str) (m : Monitor V) → IsCharted m → IsCharted (toggle_selected name m)
  unfolding toggle_selected
  toggle-IsCharted name m h = toggled-IsWithin name m.grouping m.selected h

  close-IsCharted :
      (vs : List VariableInfo) (m : Monitor V) → IsCharted m → IsCharted (close_members vs m)
  unfolding close_members
  close-IsCharted [] m h = h
  close-IsCharted (v ∷ vs) m h =
      close-IsCharted vs (toggle_selected v.name m) (toggle-IsCharted v.name m h)

  config-IsCharted :
      (active : Bool) (device : DeviceDetail) (variables : List ConfigVar) (m : Monitor V)
      → IsCharted m
      → IsCharted (config_loaded active device variables m)
  unfolding config_loaded
  config-IsCharted active device variables m h =
      elim (Bool-cases (not active || is_nil (graph_selection variables (names_of device)))) [
        | inl e ↦ rw e h
        | inr e ↦
            rw e (
              chosen-IsWithin m.grouping m.selected (graph_selection variables (names_of device)) h)
      ]

  Step-IsCharted : {m n : Monitor V} → Step m n → IsCharted m → IsCharted n
  Step-IsCharted (Step.written name value m) h = unfold handle_written in h
  Step-IsCharted (Step.toggled name m) h = toggle-IsCharted name m h
  Step-IsCharted (Step.loaded active device m) h = kept active
    where
      kept : (b : Bool) → IsCharted (device_loaded b device m)
      kept true = unfold device_loaded in h
      kept false = unfold device_loaded in h
  Step-IsCharted (Step.failed active cause m) h = kept active
    where
      kept : (b : Bool) → IsCharted (device_failed b cause m)
      kept true = unfold device_failed in h
      kept false = unfold device_failed in h
  Step-IsCharted (Step.history active points m) h = kept active points
    where
      kept : (b : Bool) (ps : List (HistoryPoint V)) → IsCharted (history_loaded b ps m)
      kept false ps = unfold history_loaded in h
      kept true [] = unfold history_loaded in h
      kept true (p ∷ ps) = unfold history_loaded in h
  Step-IsCharted (Step.config active device variables m) h =
      config-IsCharted active device variables m h
  Step-IsCharted (Step.snapshot vs t m) h = unfold on_snapshot in h
  Step-IsCharted (Step.stream_error m) h = unfold on_stream_error in h
  Step-IsCharted (Step.queried query m) h = unfold on_query in h
  Step-IsCharted (Step.merged group name m a b) h =
      unfold on_merge in
      merge_into-IsWithin group name (record { grouping = m.grouping; group_seq = m.group_seq })
        m.selected a b h
  Step-IsCharted (Step.split name m) h =
      unfold on_split split_out in removed-IsWithin name m.grouping m.selected h
  Step-IsCharted (Step.closed group m) h = unfold close_group in close-IsCharted group.members m h

  -- From a state whose grouping has only selected names, every sequence of steps leads to such a
  -- state: a line that is taken off the charts does not come back into its old group.
  pub Reach-IsCharted : {m n : Monitor V} → IsCharted m → Reach m n → IsCharted n
  Reach-IsCharted h Reach.here = h
  Reach-IsCharted h (Reach.next r s) = Step-IsCharted s (Reach-IsCharted h r)
