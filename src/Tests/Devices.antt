-- ===== src/Tests/Devices.antt =====
-- The theorems on devices, charts and sessions, at concrete inputs.
use tstlan_web.Base.{
  Option, some, ℕ, ◌≤◌, ◌≡◌, refl, ◌↔◌, ◌⊎◌, inl, inr, true, false, List, [], ◌∷◌, map, none, some,
  arith, length, keep, Among,
}
use tstlan_web.Base.Text.{Str, codes, Str_discrete}
use tstlan_web.Base.Record.{has, add_all, AreDistinct, lookup}
use tstlan_web.Api.{
  Role, Identity, Cause, NetVarCType, NetVarMode, VariableInfo, ConfigVar, ConfigSummary, Result,
  success, failure,
}
use tstlan_web.Config.Access.{is_owner}
use tstlan_web.History.{HistoryPoint, Series, samples_or_empty, seed_history}
use tstlan_web.History.Seeding.{samples_of}
use tstlan_web.History.Contents.{with_history, lookup-seed_history}
use tstlan_web.History.Order.{AreOrdered, IsAscending, seed_history-IsAscending}
use tstlan_web.Device.Graph.{Comparison, is_lt, pick_device_config, graph_selection}
use tstlan_web.Device.Graph.Laws.{pick_device_config_best}
use tstlan_web.Device.Graph.Selection.{graph_selection_iff}
use tstlan_web.Device.Panel.{Grouping, ChartGroup, group_id_of, chart_groups, Merged, merge_into}
use tstlan_web.Device.Panel.Groups.{ids, members_of, on_chart, chart_groups_partition}
use tstlan_web.Device.Panel.Merging.{merge_into_joins}
use tstlan_web.Device.Monitor.{Monitor, VariableValue, on_snapshot, toggle_selected, max_points}
use tstlan_web.Device.Write.{WriteField, submit_value}
use tstlan_web.Device.Write.Laws.{IsSubmission, submit_value-IsSubmission}
use tstlan_web.Device.Monitor.Charted.{IsCharted, Reach-IsCharted}
use tstlan_web.Device.Monitor.Steps.{Step, Reach, IsBounded, Reach-IsBounded}
use tstlan_web.Session.{
  anonymous, authenticated, Session, is_authenticated, redirect, sign_out, csrf_of, on_submit,
  home_path,
}
use tstlan_web.Session.Laws.{
  IsSubmitted, IsSettled, redirect-IsSettled, on_submit_iff, sign_out_iff,
}
use tstlan_web.Tests.{
  balance_payload, balance_summary, shared_summary, by_units, comparison_by_units,
}

abbrev history_point : ℕ → ℕ → HistoryPoint ℕ
history_point t v = record { t = t; values = (codes "weight", v) ∷ [] }

abbrev points : List (HistoryPoint ℕ)
points = history_point 1 10 ∷ history_point 4 20 ∷ history_point 9 30 ∷ []

abbrev live : Series ℕ
live = (codes "weight", record { t = 8; v = 1 } ∷ record { t = 9; v = 2 } ∷ []) ∷ []

lookup-seed_history_example :
    lookup Str_discrete (codes "weight") (seed_history live points 3)
    ≡ with_history 3
        (samples_of (codes "weight") points)
        (lookup Str_discrete (codes "weight") live)
lookup-seed_history_example = lookup-seed_history live points 3 (codes "weight")

AreOrdered-points : AreOrdered points
unfolding lookup
AreOrdered-points = (
  (refl, tt),
  (omega arith, (omega arith, tt)),
  ((refl, tt), (omega arith, tt), ((refl, tt), tt, tt)),
)

IsAscending-live : IsAscending (samples_or_empty (codes "weight") live)
unfolding lookup Str_discrete
IsAscending-live = ((omega arith, tt), (tt, tt))

seed_history-IsAscending_example :
    IsAscending (samples_or_empty (codes "weight") (seed_history live points 3))
seed_history-IsAscending_example =
    seed_history-IsAscending live points 3 (codes "weight") AreOrdered-points IsAscending-live

length-live : length (samples_or_empty (codes "weight") live) ≤ 3
unfolding lookup Str_discrete
length-live = omega arith

-- The samples at the times 10 and 20 stay selected when 5 is cut and 40 comes.
abbrev times : List ℕ
times = 5 ∷ 10 ∷ 20 ∷ 30 ∷ []

pick_device_config_best_example :
    Among balance_summary (shared_summary ∷ balance_summary ∷ [])
    × (codes "balance" ≡ codes "balance")
    × ((s : ConfigSummary)
        → Among s (shared_summary ∷ balance_summary ∷ [])
        → s.device_type ≡ codes "balance"
        → (is_owner s.access ≡ true → true ≡ true)
          × (is_owner s.access ≡ true → is_lt (by_units (codes "2024-02-01") s.updated_at) ≡ false))
pick_device_config_best_example =
    pick_device_config_best comparison_by_units (shared_summary ∷ balance_summary ∷ [])
      (codes "balance") {m = balance_summary}
      (unfold pick_device_config keep Str_discrete tstlan_web.Base.Sort.sort
          tstlan_web.Base.Sort.insert tstlan_web.Device.Graph.before
          tstlan_web.Device.Graph.by_preference by_units in
        refl)

graph_selection_iff_example :
    ((has Str_discrete
          (codes "weight")
          (graph_selection balance_payload.variables (codes "weight" ∷ []))
        ≡ true)
      ↔ (((v : ConfigVar) × Among v balance_payload.variables
            × (v.graph ≡ true)
            × (v.name ≡ codes "weight"))
          × Among (codes "weight") (codes "weight" ∷ [])))
    × AreDistinct Str_discrete (graph_selection balance_payload.variables (codes "weight" ∷ []))
graph_selection_iff_example =
    graph_selection_iff balance_payload.variables (codes "weight" ∷ []) (codes "weight")

abbrev line : Str → VariableInfo
line name = record { name = name; ctype = NetVarCType.f32; mode = NetVarMode.r }

abbrev lines : List VariableInfo
lines = line (codes "a") ∷ line (codes "b") ∷ line (codes "c") ∷ []

abbrev grouping : Grouping
grouping = (codes "a", codes "g1") ∷ (codes "c", codes "g1") ∷ []

chart_groups_partition_example :
    (ids (chart_groups grouping lines)
      ≡ add_all Str_discrete [] (map (λ v. group_id_of grouping v.name) lines))
    × ((id : Str) → members_of id (chart_groups grouping lines) ≡ keep (on_chart grouping id) lines)
chart_groups_partition_example = chart_groups_partition grouping lines

abbrev both : ChartGroup
both = record { id = codes "g1"; members = line (codes "a") ∷ line (codes "c") ∷ [] }

abbrev before_merge : Merged
before_merge = record { grouping = grouping; group_seq = 1 }

merge_into_joins_example :
    group_id_of (merge_into both (codes "b") before_merge).grouping (codes "c")
    ≡ group_id_of (merge_into both (codes "b") before_merge).grouping (codes "b")
merge_into_joins_example =
    merge_into_joins both (codes "b") before_merge (line (codes "c")) (inr (inl refl))
      (unfold group_id_of lookup Str_discrete in refl)

abbrev start : Monitor ℕ
start = tstlan_web.Device.Monitor.initial 0

IsBounded-start : IsBounded start
unfolding tstlan_web.Device.Monitor.initial lookup
IsBounded-start name = omega arith

abbrev first_values : List (VariableValue ℕ)
first_values = record { name = codes "weight"; ctype = NetVarCType.f32; value = 5 } ∷ []

Reach-IsBounded_example :
    IsBounded (on_snapshot first_values 100 (toggle_selected (codes "weight") start))
Reach-IsBounded_example = Reach-IsBounded {m = start} IsBounded-start (
    Reach.next (Reach.next Reach.here (Step.toggled (codes "weight") start))
      (Step.snapshot first_values 100 (toggle_selected (codes "weight") start)))

IsCharted-start : IsCharted start
unfolding tstlan_web.Device.Monitor.initial lookup
IsCharted-start name h = absurd (cc)

Reach-IsCharted_example :
    IsCharted (on_snapshot first_values 100 (toggle_selected (codes "weight") start))
Reach-IsCharted_example = Reach-IsCharted {m = start} IsCharted-start (
    Reach.next (Reach.next Reach.here (Step.toggled (codes "weight") start))
      (Step.snapshot first_values 100 (toggle_selected (codes "weight") start)))

abbrev ann : Identity
ann = record { login = codes "ann"; role = Role.dev; csrf_token = codes "token" }

abbrev at_home : Session
at_home = record { state = anonymous; pathname = home_path }

redirect-IsSettled_example :
    IsSettled (redirect at_home)
    × ((redirect at_home).state ≡ anonymous)
    × (redirect (redirect at_home) ≡ redirect at_home)
redirect-IsSettled_example = redirect-IsSettled at_home

abbrev refused_login : Result Identity
refused_login = failure (Cause.api_error 401 none)

on_submit_iff_example :
    IsSubmitted refused_login at_home
      (on_submit refused_login at_home).0
      (on_submit refused_login at_home).1
on_submit_iff_example = on_submit_iff refused_login at_home

sign_out_iff_example :
    ((is_authenticated (sign_out (failure Cause.other) (authenticated ann)).0 ≡ true) ↔ (
      (cause : Cause) × (◌≡◌ {A = Result Unit} (failure Cause.other) (failure cause))
      × (true ≡ true)))
    × ((sign_out (failure Cause.other) (authenticated ann)).1 ≡ csrf_of (authenticated ann))
sign_out_iff_example = sign_out_iff (failure Cause.other) (authenticated ann)

abbrev open_field : WriteField
open_field = record { editing = true; draft = codes "5"; pending = false; error = none }

-- Every draft is read as the number 5.
abbrev five : Str → Option ℕ
five _ = some 5

abbrev taking : ℕ → Str → Result (VariableValue ℕ)
taking value _ = success (record { name = codes "weight"; ctype = NetVarCType.f32; value = value })

submit_value-IsSubmission_example :
    IsSubmission five
      (some (codes "token"))
      taking
      open_field
      start
      (submit_value five (some (codes "token")) taking open_field start)
submit_value-IsSubmission_example =
    submit_value-IsSubmission five (some (codes "token")) taking open_field start refl refl
