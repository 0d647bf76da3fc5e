-- ===== src/Device/Panel/Groups.antt =====
-- Which variables each chart has.
use tstlan_web.Base.{
  ℕ, zero, suc, ◌≡◌, refl, ap, sym, ◌∙◌, inl, inr, Bool, true, false, List, [], ◌∷◌, ◌++◌, map,
  append-nil, append_assoc, Option, none, some, arith, length, keep, length-map, Option-cases, ite,
}
use tstlan_web.Base.Text.{Str, Str_discrete}
use tstlan_web.Base.Record.{has, add, add_all, lookup, assign, lookup-assign}
use tstlan_web.Api.{VariableInfo}
use mathlib.Core.Logic.{if_pos, if_neg}
use mathlib.Core.List.{map-append}
use tstlan_web.Device.Panel.{
  Grouping, ChartGroup, group_id_of, push_at, Grouped, place_variable, group_loop, chart_groups,
}

abbrev pub ids : List ChartGroup → List Str
ids = map (λ g. g.id)

-- The members of the first chart with the id.
abbrev pub members_of : Str → List ChartGroup → List VariableInfo
members_of id [] = []
members_of id (g ∷ gs) = ite (Str_discrete g.id id) g.members (members_of id gs)

-- A variable is put into the first chart with the id, or into a new one at the end.
insert_group : Str → VariableInfo → List ChartGroup → List ChartGroup
insert_group id v [] = record { id = id; members = v ∷ [] } ∷ []
insert_group id v (g ∷ gs) =
    ite (Str_discrete g.id id) (record g { members = g.members ++ v ∷ [] } ∷ gs)
      (g ∷ insert_group id v gs)

abbrev next_place : Option ℕ → Option ℕ
next_place none = none
next_place (some n) = some (suc n)

position : Str → List Str → Option ℕ
position k [] = none
position k (j ∷ l) = ite (Str_discrete j k) (some 0) (next_place (position k l))

insert_group_new :
    (id : Str) (v : VariableInfo) (gs : List ChartGroup)
    → position id (ids gs) ≡ none
    → gs ++ record { id = id; members = v ∷ [] } ∷ [] ≡ insert_group id v gs
unfolding position insert_group
insert_group_new id v [] h = refl
insert_group_new id v (g ∷ gs) h = ground (arith, insert_group_new id v gs)

insert_group_old :
    (id : Str) (v : VariableInfo) (gs : List ChartGroup) (at : ℕ)
    → position id (ids gs) ≡ some at
    → push_at gs at v ≡ insert_group id v gs
unfolding position insert_group push_at
insert_group_old id v [] at h = absurd (cc)
insert_group_old id v (g ∷ gs) zero h = ground arith
insert_group_old id v (g ∷ gs) (suc at) h = ground (arith, insert_group_old id v gs at)

ids-insert_group :
    (id : Str) (v : VariableInfo) (gs : List ChartGroup)
    → ids (insert_group id v gs) ≡ add Str_discrete id (ids gs)
unfolding insert_group add has
ids-insert_group id v [] = refl
ids-insert_group id v (g ∷ gs) = ground (arith, ids-insert_group id v gs)

members_of-insert_group :
    (k id : Str) (v : VariableInfo) (gs : List ChartGroup)
    → members_of k (insert_group id v gs)
      ≡ ite (Str_discrete id k) (members_of k gs ++ v ∷ []) (members_of k gs)
unfolding insert_group
members_of-insert_group k id v [] = ground arith
members_of-insert_group k id v (g ∷ gs) = ground (arith, members_of-insert_group k id v gs)

position-concat :
    (k id : Str) (l : List Str)
    → position id l ≡ none
    → position k (l ++ id ∷ []) ≡ ite (Str_discrete id k) (some (length l)) (position k l)
unfolding position
position-concat k id [] h = ground arith
position-concat k id (j ∷ l) h = ground (arith, position-concat k id l)

-- The index is right: it tells the place of every id.
IsIndexed : Grouped → Type 0
IsIndexed s = (k : Str) → lookup Str_discrete k s.index_by_id ≡ position k (ids s.groups)

ids-push_at : (gs : List ChartGroup) (at : ℕ) (v : VariableInfo) → ids (push_at gs at v) ≡ ids gs
unfolding push_at
ids-push_at [] at v = refl
ids-push_at (g ∷ gs) zero v = refl
ids-push_at (g ∷ gs) (suc at) v = ap (◌∷◌ g.id) (ids-push_at gs at v)

IsIndexed-new :
    (id : Str) (v : VariableInfo) (s : Grouped) (k : Str)
    → IsIndexed s
    → position id (ids s.groups) ≡ none
    → lookup Str_discrete k (assign Str_discrete id (length s.groups) s.index_by_id)
      ≡ position k (ids (s.groups ++ record { id = id; members = v ∷ [] } ∷ []))
unfolding IsIndexed
IsIndexed-new id v s k h missing = rw (map-append (λ (g : ChartGroup). g.id) s.groups) (
    rw (position-concat k id (ids s.groups) missing, length-map (λ (g : ChartGroup). g.id) s.groups)
      (lookup-assign Str_discrete id k (length s.groups) s.index_by_id
        ∙ ap (λ o. ite (Str_discrete id k) (some (length s.groups)) o) (h k)))

place_variable-insert_group :
    (id : Str) (v : VariableInfo) (s : Grouped)
    → IsIndexed s
    → ((place_variable id v s).groups ≡ insert_group id v s.groups)
      × IsIndexed (place_variable id v s)
unfolding IsIndexed place_variable
place_variable-insert_group id v s h = elim (Option-cases (lookup Str_discrete id s.index_by_id)) [
  | inl e ↦
      let missing = sym (h id) ∙ e in
      rw (e, place_variable)
        (insert_group_new id v s.groups missing, λ k. IsIndexed-new id v s k h missing)
  | inr (at, e) ↦
      let found = sym (h id) ∙ e in
      rw (e, place_variable)
        (insert_group_old id v s.groups at found, λ k. rw (ids-push_at s.groups at v) (h k))
]

-- The loop without its index.
insert_groups : Grouping → List VariableInfo → List ChartGroup → List ChartGroup
insert_groups grouping [] gs = gs
insert_groups grouping (v ∷ vs) gs =
    insert_groups grouping vs (insert_group (group_id_of grouping v.name) v gs)

group_loop-insert_groups :
    (grouping : Grouping) (vs : List VariableInfo) (s : Grouped)
    → IsIndexed s
    → (group_loop grouping vs s).groups ≡ insert_groups grouping vs s.groups
unfolding group_loop insert_groups
group_loop-insert_groups grouping [] s h = refl
group_loop-insert_groups grouping (v ∷ vs) s h =
    let (e, h') = place_variable-insert_group (group_id_of grouping v.name) v s h in
    group_loop-insert_groups grouping vs (place_variable (group_id_of grouping v.name) v s) h'
    ∙ ap (insert_groups grouping vs) e

ids-insert_groups :
    (grouping : Grouping) (vs : List VariableInfo) (gs : List ChartGroup)
    → ids (insert_groups grouping vs gs)
      ≡ add_all Str_discrete (ids gs) (map (λ v. group_id_of grouping v.name) vs)
unfolding insert_groups add_all
ids-insert_groups grouping [] gs = refl
ids-insert_groups grouping (v ∷ vs) gs =
    let id = group_id_of grouping v.name in
    ids-insert_groups grouping vs (insert_group id v gs)
    ∙ ap (λ s. add_all Str_discrete s (map (λ (w : VariableInfo). group_id_of grouping w.name) vs))
        (ids-insert_group id v gs)

abbrev pub on_chart : Grouping → Str → VariableInfo → Bool
on_chart grouping id v = ite (Str_discrete (group_id_of grouping v.name) id) true false

members_of-insert_groups :
    (grouping : Grouping) (k : Str) (vs : List VariableInfo) (gs : List ChartGroup)
    → members_of k (insert_groups grouping vs gs) ≡ members_of k gs ++ keep (on_chart grouping k) vs
unfolding insert_groups keep
members_of-insert_groups grouping k [] gs = rw append-nil
members_of-insert_groups grouping k (v ∷ vs) gs =
    let id = group_id_of grouping v.name in
    members_of-insert_groups grouping k vs (insert_group id v gs) ∙ elim (Str_discrete id k) [
      | yes e ↦
          rw (members_of-insert_group k id v gs, if_pos _ e, if_pos _ e)
            (append_assoc (members_of k gs) (v ∷ []) (keep (on_chart grouping k) vs))
      | no e ↦ rw (members_of-insert_group k id v gs, if_neg _ e, if_neg _ e) refl
    ]

-- The charts are a partition of the charted variables: their ids are the different ids of the
-- variables in the order of the first appearance, and a chart has, in order, exactly the variables of
-- its id.
pub chart_groups_partition :
    (grouping : Grouping) (charted : List VariableInfo)
    → (ids (chart_groups grouping charted)
        ≡ add_all Str_discrete [] (map (λ v. group_id_of grouping v.name) charted))
      × ((id : Str)
          → members_of id (chart_groups grouping charted) ≡ keep (on_chart grouping id) charted)
unfolding chart_groups
chart_groups_partition grouping charted =
    let start : Grouped = record { groups = []; index_by_id = [] } in
    let e =
      group_loop-insert_groups grouping charted start
        (unfold IsIndexed lookup position in λ k. refl) in
    (
      ap ids e ∙ ids-insert_groups grouping charted [],
      λ id. ap (members_of id) e ∙ members_of-insert_groups grouping id charted [],
    )
