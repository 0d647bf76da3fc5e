-- ===== src/Device/Panel.antt =====
-- The panel of charts on the page of a device: `ChartPanel` of
-- web/tstlan-web/components/device-monitor.tsx, without its markup.
pub mod Groups
pub mod Merging
use tstlan_web.Base.{
  ℕ, zero, suc, ◌+◌, ◌-◌, ◌*◌, ◌/◌, ◌%◌, ◌^◌, ◌≤◌, ◌<◌, ◌≡◌, ◌≢◌, refl, ap, sym, ◌∙◌, ◌↔◌, ◌⊎◌, inl,
  inr, Bool, true, false, ◌&&◌, ◌||◌, not, List, [], ◌∷◌, ◌++◌, map, append-nil, append_assoc,
  Option, none, some, arith, ltb, leb, ◌==◌, if◌then◌else◌, ltb→lt, lt→ltb, leb→le, le→leb, or_else,
  All, All-append, All-drop, length, drop, get_elem?, keep, Among, Empty, Among-map, map-Among,
  keep-append, Among-keep, get_elem?-drop-append, get_elem?-map, some_eq, length-append,
  length-drop, length-map, Bool-cases, Option-cases, ite, ℕ_discrete,
}
use tstlan_web.Base.Text.{
  Str, codes, Str_discrete, is_space, trim, is_empty, NoSpace, trim_of_NoSpace, trim_idempotent,
}
use tstlan_web.Base.Number.{
  ℤ, pos, negsuc, neg, Num, fin, inf, neg_inf, int, less_than, more_than, number_of, to_double,
  round_from, round_half_even, finite_magnitude,
}
use tstlan_web.Base.Number.Decimal.{
  decimal, all_digits, is_digit, value, number_text, decimal_lem, digit_plain,
  NoSpace-of_all_digits, IsDigits, IsDigits-of_all_digits,
}
use tstlan_web.Base.Record.{
  has, add, add_all, has-add_all, AreDistinct, add_all-distinct, has-Among, delete, has-append,
  has-add, has-delete, lookup, assign, remove, lookup-assign, lookup-remove,
}
use tstlan_web.Api.{
  Role, Identity, Cause, api_error, other, UserSummary, DeviceStatus, NetVarCType, NetVarMode,
  VariableInfo, DeviceDetail, ConfigVisibility, SharePermission, ConfigAccess, Transport, ModbusMap,
  ConnectionSettings, ConfigVar, ConfigPayload, ShareInfo, ConfigSummary, ConfigDetail,
  ConfigCreate, ConfigUpdate, has_status,
}

-- `Record<string, string>`: the name of a variable to the id of its chart
abbrev pub Grouping : Type 0
Grouping = List (Str × Str)

pub record ChartGroup : Type 0 where
  pub id : Str
  pub members : List VariableInfo

abbrev solo_prefix : Str
solo_prefix = codes "solo:"

unfoldable pub solo_id : Str → Str
solo_id name = solo_prefix ++ name

-- `grouping[name] ?? soloId(name)`
unfoldable pub group_id_of : Grouping → Str → Str
group_id_of grouping name = or_else (lookup Str_discrete name grouping) (solo_id name)

-- `groups[at].members.push(v)`
unfoldable pub push_at : List ChartGroup → ℕ → VariableInfo → List ChartGroup
push_at [] at v = []
push_at (g ∷ gs) zero v = record g { members = g.members ++ v ∷ [] } ∷ gs
push_at (g ∷ gs) (suc at) v = g ∷ push_at gs at v

-- The groups so far and the index of each id.
pub record Grouped : Type 0 where
  pub groups : List ChartGroup
  pub index_by_id : List (Str × ℕ)

-- One round of the loop over the charted variables.
unfoldable pub place_variable : Str → VariableInfo → Grouped → Grouped
place_variable id v s = elim (lookup Str_discrete id s.index_by_id) [
  | none ↦ record {
    groups = s.groups ++ record { id = id; members = v ∷ [] } ∷ [];
    index_by_id = assign Str_discrete id (length s.groups) s.index_by_id;
  }
  | some at ↦ record s { groups = push_at s.groups at v }
]

unfoldable pub group_loop : Grouping → List VariableInfo → Grouped → Grouped
group_loop grouping [] s = s
group_loop grouping (v ∷ vs) s =
    group_loop grouping vs (place_variable (group_id_of grouping v.name) v s)

unfoldable pub charted_variables : List VariableInfo → List Str → List VariableInfo
charted_variables variables selected = keep (λ v. has Str_discrete v.name selected) variables

unfoldable pub chart_groups : Grouping → List VariableInfo → List ChartGroup
unfolding group_loop place_variable push_at group_id_of solo_id
chart_groups grouping charted =
    (group_loop grouping charted (record { groups = []; index_by_id = [] })).groups

-- `s.startsWith(prefix)`
unfoldable pub starts_with : Str → Str → Bool
starts_with [] s = true
starts_with (c ∷ p) [] = false
starts_with (c ∷ p) (d ∷ s) = c == d && starts_with p s

-- `for (const member of members) next[member.name] = target`
unfoldable pub assign_members : Str → List VariableInfo → Grouping → Grouping
assign_members target [] next = next
assign_members target (m ∷ ms) next =
    assign_members target ms (assign Str_discrete m.name target next)

-- The grouping, and the counter of the module from which new ids come.
pub record Merged : Type 0 where
  pub grouping : Grouping
  pub group_seq : ℕ

-- The update of `mergeInto`: a chart of its own gets a new id for all its lines first.
unfoldable pub merge_into : ChartGroup → Str → Merged → Merged
unfolding assign_members starts_with
merge_into group name s =
    if starts_with solo_prefix group.id
    then (let target = b'g' ∷ decimal (s.group_seq + 1) in
        record {
          grouping =
              assign Str_discrete name target (assign_members target group.members s.grouping);
          group_seq = s.group_seq + 1;
        })
    else record s { grouping = assign Str_discrete name group.id s.grouping }

-- The update of `splitOut`.
unfoldable pub split_out : Str → Grouping → Grouping
split_out name prev = remove Str_discrete name prev
