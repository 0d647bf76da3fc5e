-- ===== src/Device/Charts/Lines.antt =====
-- The lines of a chart on the page of a device, against the history.
use tstlan_web.Base.{
  ℕ, suc, ◌≡◌, ◌≢◌, refl, ap, ◌∙◌, inl, inr, Bool, true, false, List, [], ◌∷◌, map, Option, none,
  some, if◌then◌else◌, All, Among, map-Among, ite,
}
use tstlan_web.Base.Text.{Str, codes, Str_discrete}
use tstlan_web.Base.Record.{has, has-Among}
use tstlan_web.Api.{VariableInfo}
use mathlib.Core.Logic.{if_pos, if_neg}
use mathlib.Core.Path.{subst}
use tstlan_web.History.{Series, samples_or_empty}
use tstlan_web.Chart.Rows.{Row, build_rows, read_cell}
use tstlan_web.Chart.Rows.Times.{HasNoTimeKey}
use tstlan_web.Chart.Rows.Cells.{later, later-none, value_in, value_at, read_cell-build_rows}
use tstlan_web.Device.Panel.{ChartGroup}
use tstlan_web.Device.Charts.{Prints, to_series, colored_series, series_of}

-- No variable has the name `t`, under which a row keeps its time.
abbrev pub HasNoTimeName : List VariableInfo → Type 0
HasNoTimeName = All (λ v. v.name ≢ codes "t")

module _ {V : Type 0} (prints : Prints V) (history : Series V) where
  colored_series-HasNoTimeKey :
      (i : ℕ) (vs : List VariableInfo)
      → HasNoTimeName vs
      → HasNoTimeKey (colored_series prints history i vs)
  unfolding colored_series to_series
  colored_series-HasNoTimeKey i [] h = tt
  colored_series-HasNoTimeKey i (v ∷ vs) h = (h.0, colored_series-HasNoTimeKey (suc i) vs h.1)

  series_of-HasNoTimeKey :
      (id : Str) (vs : List VariableInfo)
      → HasNoTimeName vs
      → HasNoTimeKey (series_of prints history (record { id = id; members = vs }))
  unfolding series_of to_series
  series_of-HasNoTimeKey id [] h = tt
  series_of-HasNoTimeKey id (v ∷ []) h = (h.0, tt)
  series_of-HasNoTimeKey id (v ∷ w ∷ ws) h = colored_series-HasNoTimeKey 0 (v ∷ w ∷ ws) h

  -- What the history has for a key at a time.
  abbrev past : Str → ℕ → Option V
  past key t = value_in t (samples_or_empty key history)

  one_more :
      (key name : Str) (t : ℕ) (seen : Bool)
      → later (if seen then past key t else none) (ite (Str_discrete name key) (past name t) none)
        ≡ (if ite (Str_discrete name key) true seen then past key t else none)
  one_more key name t seen = elim (Str_discrete name key) [
    | yes e ↦ rw (if_pos _ e, if_pos _ e, ap (λ n. past n t) e) (twice seen (past key t))
    | no e ↦ rw (if_neg _ e, if_neg _ e) (later-none (if seen then past key t else none))
  ]
    where
      twice : (b : Bool) (o : Option V) → later (if b then o else none) o ≡ o
      twice true none = refl
      twice true (some v) = refl
      twice false o = refl

  colored_series-value :
      (key : Str) (t i : ℕ) (vs : List VariableInfo)
      → value_at key t (colored_series prints history i vs)
        ≡ (if has Str_discrete key (map (λ v. v.name) vs) then past key t else none)
  unfolding colored_series to_series has
  colored_series-value key t i [] = refl
  colored_series-value key t i (v ∷ vs) =
      rw (colored_series-value key t (suc i) vs)
        (one_more key v.name t (has Str_discrete key (map (λ w. w.name) vs)))

  series_of-value :
      (id key : Str) (t : ℕ) (vs : List VariableInfo)
      → value_at key t (series_of prints history (record { id = id; members = vs }))
        ≡ (if has Str_discrete key (map (λ v. v.name) vs) then past key t else none)
  unfolding series_of to_series has
  series_of-value id key t [] = refl
  series_of-value id key t (v ∷ []) = one_more key v.name t false
  series_of-value id key t (v ∷ w ∷ ws) = colored_series-value key t 0 (v ∷ w ∷ ws)

module _ {V : Type 0} (prints : Prints V) (time_of : V → ℕ) (of_time : ℕ → V) where
  -- In the rows of a chart of the page, where no variable has the name `t`, the cell of a variable of
  -- the chart is the value of its last sample in the history with the time of the row, and there is no
  -- cell if there is no such sample.
  pub read_cell-series_of :
      (history : Series V) (group : ChartGroup) (v : VariableInfo) (r : Row V)
      → HasNoTimeName group.members
      → Among v group.members
      → Among r (build_rows time_of (series_of prints history group))
      → read_cell of_time v.name r ≡ value_in r.t (samples_or_empty v.name history)
  read_cell-series_of history group v r n m h =
      let member : has Str_discrete v.name (map (λ w. w.name) group.members) ≡ true =
        (has-Among Str_discrete v.name _).1 (map-Among (λ w. w.name) v group.members m) in
      read_cell-build_rows time_of of_time (series_of prints history group) v.name r
        (series_of-HasNoTimeKey prints history group.id group.members n) (named group.members n m) h
      ∙ series_of-value prints history group.id v.name r.t group.members
      ∙ rw member refl
    where
      named : (vs : List VariableInfo) → HasNoTimeName vs → Among v vs → v.name ≢ codes "t"
      named [] a b = elim b [ ]
      named (w ∷ vs) a (inl e) = subst (λ (u : VariableInfo). u.name ≢ codes "t") e a.0
      named (w ∷ vs) a (inr b) = named vs a.1 b
