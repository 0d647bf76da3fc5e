-- ===== src/History.antt =====
-- The samples of each variable over time: web/tstlan-web/lib/history.ts and the points of
-- web/tstlan-web/lib/api.ts. Times are whole milliseconds; the values are of any type, since they are
-- only stored.
pub mod Seeding
pub mod Order
pub mod Contents
use tstlan_web.Base.{
  ℕ, zero, suc, ◌+◌, ◌-◌, ◌*◌, ◌/◌, ◌%◌, ◌^◌, ◌≤◌, ◌<◌, ◌≡◌, ◌≢◌, refl, ap, sym, ◌∙◌, ◌↔◌, ◌⊎◌, inl,
  inr, Bool, true, false, ◌&&◌, ◌||◌, not, List, [], ◌∷◌, ◌++◌, map, append-nil, append_assoc,
  Option, none, some, arith, ltb, leb, ◌==◌, if◌then◌else◌, ltb→lt, lt→ltb, leb→le, le→leb, or_else,
  All, All-append, All-drop, length, drop, get_elem?, get_elem?-map, some_eq, length-append,
  length-drop, length-map, Bool-cases, Option-cases, ite, ℕ_discrete,
}
use tstlan_web.Base.Text.{
  Str, codes, Str_discrete, is_space, trim, is_empty, NoSpace, trim_of_NoSpace, trim_idempotent,
}
use tstlan_web.Base.Number.{
  ℤ, pos, negsuc, neg, Num, fin, inf, neg_inf, int, less_than, more_than, number_of, to_double,
  round_from, round_half_even, finite_magnitude,
}
use tstlan_web.Base.Number.Decimal.{
  decimal, all_digits, is_digit, value, number_text, decimal_lem, digit_plain,
  NoSpace-of_all_digits, IsDigits, IsDigits-of_all_digits,
}
use tstlan_web.Base.Record.{
  has, add, delete, has-append, has-add, has-delete, lookup, assign, remove, lookup-assign,
  lookup-remove,
}
use tstlan_web.Api.{
  Role, Identity, Cause, api_error, other, UserSummary, DeviceStatus, NetVarCType, NetVarMode,
  VariableInfo, DeviceDetail, ConfigVisibility, SharePermission, ConfigAccess, Transport, ModbusMap,
  ConnectionSettings, ConfigVar, ConfigPayload, ShareInfo, ConfigSummary, ConfigDetail,
  ConfigCreate, ConfigUpdate, has_status,
}

pub record Sample (V : Type 0) : Type 0 where
  pub t : ℕ
  pub v : V

pub record HistoryPoint (V : Type 0) : Type 0 where
  pub t : ℕ
  pub values : List (Str × V)

-- `Record<string, Sample[]>`
abbrev pub Series : Type 0 → Type 0
Series V = List (Str × List (Sample V))

-- `xs.slice(-n)`, which for 0 is the whole array.
unfoldable pub slice_last {ℓ} : {A : Type ℓ} → ℕ → List A → List A
slice_last zero xs = xs
slice_last (suc n) xs = drop (length xs - suc n) xs

-- `t < cutoff`
abbrev pub is_before : ℕ → Option ℕ → Bool
is_before t none = true
is_before t (some c) = ltb t c

module _ {V : Type 0} where
  -- `m[name] ?? []`
  abbrev pub samples_or_empty : Str → Series V → List (Sample V)
  samples_or_empty name m = or_else (lookup Str_discrete name m) []

  -- `(byName[name] ??= []).push(s)`
  unfoldable pub push_sample : Str → Sample V → Series V → Series V
  push_sample name s m = assign Str_discrete name (samples_or_empty name m ++ s ∷ []) m

  -- The inner loop over the values of a point.
  unfoldable pub collect_values : ℕ → List (Str × V) → Series V → Series V
  collect_values t [] m = m
  collect_values t ((name, v) ∷ values) m =
      collect_values t values (push_sample name (record { t = t; v = v }) m)

  -- The first loop: the samples of the points under their names.
  unfoldable pub collect_points : List (HistoryPoint V) → Series V → Series V
  collect_points [] m = m
  collect_points (p ∷ ps) m = collect_points ps (collect_values p.t p.values m)

  -- The time of the first live sample; with none the cutoff is infinite.
  abbrev pub cutoff : List (Sample V) → Option ℕ
  cutoff [] = none
  cutoff (s ∷ _) = some s.t

  -- `samples.filter((sample) => sample.t < cutoff)`
  unfoldable pub older : Option ℕ → List (Sample V) → List (Sample V)
  older c [] = []
  older c (s ∷ ss) = let rest = older c ss in if is_before s.t c then s ∷ rest else rest

  -- One round of the second loop: the older samples in front of the live ones.
  unfoldable pub seeded : ℕ → List (Sample V) → List (Sample V) → List (Sample V)
  unfolding older slice_last
  seeded max_points samples live = slice_last max_points (older (cutoff live) samples ++ live)

  unfoldable pub seed_series : ℕ → Series V → Series V → Series V
  seed_series max_points next [] = next
  seed_series max_points next ((name, samples) ∷ rest) =
      seed_series max_points
        (assign Str_discrete name (seeded max_points samples (samples_or_empty name next)) next)
        rest

  unfoldable pub seed_history : Series V → List (HistoryPoint V) → ℕ → Series V
  unfolding seed_series collect_points collect_values push_sample seeded
  seed_history prev points max_points = seed_series max_points prev (collect_points points [])
