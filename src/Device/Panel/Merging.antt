-- ===== src/Device/Panel/Merging.antt =====
-- What a merge of charts and the splitting of a line do to the charts of the lines.
use tstlan_web.Base.{
  ◌+◌, ◌≡◌, refl, ◌⊎◌, inl, inr, true, false, List, [], ◌∷◌, map, some, arith, Among, map-Among,
  Bool-cases, ite,
}
use tstlan_web.Base.Text.{Str, codes, Str_discrete}
use tstlan_web.Base.Number.Decimal.{decimal}
use tstlan_web.Base.Record.{lookup, assign, lookup-assign, lookup-remove}
use tstlan_web.Api.{VariableInfo}
use tstlan_web.Device.Panel.{
  Grouping, ChartGroup, solo_id, group_id_of, starts_with, assign_members, Merged, merge_into,
  split_out,
}

lookup-assign_members_in :
    (target : Str) (ms : List VariableInfo) (next : Grouping) (k : Str)
    → (lookup Str_discrete k next ≡ some target) ⊎ Among k (map (λ m. m.name) ms)
    → lookup Str_discrete k (assign_members target ms next) ≡ some target
unfolding assign_members
lookup-assign_members_in target [] next k (inl e) = e
lookup-assign_members_in target [] next k (inr h) = elim h [ ]
lookup-assign_members_in target (m ∷ ms) next k (inl e) =
    lookup-assign_members_in target ms (assign Str_discrete m.name target next) k
      (inl (ground (arith, lookup-assign Str_discrete m.name k target next)))
lookup-assign_members_in target (m ∷ ms) next k (inr (inl e)) =
    lookup-assign_members_in target ms (assign Str_discrete m.name target next) k
      (inl (ground (arith, lookup-assign Str_discrete m.name k target next)))
lookup-assign_members_in target (m ∷ ms) next k (inr (inr h)) =
    lookup-assign_members_in target ms (assign Str_discrete m.name target next) k (inr h)

merge_into_solo :
    (group : ChartGroup) (name : Str) (s : Merged)
    → starts_with (codes "solo:") group.id ≡ true
    → (target : Str) × ((merge_into group name s).grouping
        ≡ assign Str_discrete name target (assign_members target group.members s.grouping))
unfolding merge_into
merge_into_solo group name s h = (b'g' ∷ decimal (s.group_seq + 1), rw h refl)

merge_into_shared :
    (group : ChartGroup) (name : Str) (s : Merged)
    → starts_with (codes "solo:") group.id ≡ false
    → (merge_into group name s).grouping ≡ assign Str_discrete name group.id s.grouping
unfolding merge_into
merge_into_shared group name s h = rw h refl

group_id_of-assign :
    (grouping : Grouping) (name k target : Str)
    → group_id_of (assign Str_discrete name target grouping) k
      ≡ ite (Str_discrete name k) target (group_id_of grouping k)
unfolding group_id_of
group_id_of-assign grouping name k target =
    ground (arith, lookup-assign Str_discrete name k target grouping)

assigned_both :
    (grouping : Grouping) (name k target : Str)
    → group_id_of grouping k ≡ target
    → group_id_of (assign Str_discrete name target grouping) k
      ≡ group_id_of (assign Str_discrete name target grouping) name
assigned_both grouping name k target h =
    ground (
      arith,
      group_id_of-assign grouping name k target,
      group_id_of-assign grouping name name target,
    )

-- After a merge the variable is on one chart with every member of the chart that the grouping had
-- there.
pub merge_into_joins :
    (group : ChartGroup) (name : Str) (s : Merged) (m : VariableInfo)
    → Among m group.members
    → group_id_of s.grouping m.name ≡ group.id
    → group_id_of (merge_into group name s).grouping m.name
      ≡ group_id_of (merge_into group name s).grouping name
merge_into_joins group name s m a h = elim (Bool-cases (starts_with (codes "solo:") group.id)) [
  | inl solo ↦
      let (target, e) = merge_into_solo group name s solo in
      rw e (
        assigned_both (assign_members target group.members s.grouping) name m.name target (
          unfold group_id_of in
          rw
            (lookup-assign_members_in target group.members s.grouping m.name
              (inr (map-Among (λ (w : VariableInfo). w.name) m group.members a)))
            refl))
  | inr shared ↦
      rw (merge_into_shared group name s shared) (assigned_both s.grouping name m.name group.id h)
]

-- A line that is split out is on a chart of its own, and every other line stays where it is.
pub split_out_alone :
    (name k : Str) (grouping : Grouping)
    → group_id_of (split_out name grouping) k
      ≡ ite (Str_discrete name k) (solo_id k) (group_id_of grouping k)
unfolding split_out group_id_of
split_out_alone name k grouping = ground (arith, lookup-remove Str_discrete name k grouping)
