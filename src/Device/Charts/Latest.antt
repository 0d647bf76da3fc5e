-- ===== src/Device/Charts/Latest.antt =====
-- The headers and the lines of the charts after a snapshot of the stream.
use tstlan_web.Base.{
  true, false, Bool-cases, ℕ, zero, suc, ◌-◌, ◌≤◌, ◌≡◌, refl, ap, ◌∙◌, List, [], ◌∷◌, ◌++◌, map,
  ◌<◌, ◌⊎◌, inl, inr, Option, none, some, arith, length, drop, Among, length-append,
}
use tstlan_web.Base.Text.{Str, Str_discrete}
use tstlan_web.Base.Record.{AreDistinct, lookup}
use tstlan_web.Api.{NetVarCType, VariableInfo}
use mathlib.Core.Path.{subst}
use tstlan_web.History.{Sample, Series, samples_or_empty, slice_last}
use tstlan_web.Device.Monitor.{VariableValue, Monitor, on_snapshot, from_entries, append_samples}
use tstlan_web.Device.Panel.{Grouping, ChartGroup}
use tstlan_web.Chart.Rows.{ChartSeries, latest}
use tstlan_web.Device.Monitor.Stream.{names, from_entries-present, append_samples-present}
use tstlan_web.Device.Charts.{
  is_float, Prints, format_value, to_series, colored_series, series_of, value_text, header_value,
  panel_chart,
}

module _ {V : Type 0} where
  latest-append : (xs : List (Sample V)) (s : Sample V) → latest (xs ++ s ∷ []) ≡ some s.v
  unfolding latest
  latest-append [] s = refl
  latest-append (x ∷ []) s = refl
  latest-append (x ∷ y ∷ xs) s = latest-append (y ∷ xs) s

  latest-drop :
      (k : ℕ) (xs : List (Sample V)) (s : Sample V)
      → k ≤ length xs
      → latest (drop k (xs ++ s ∷ [])) ≡ some s.v
  latest-drop zero xs s h = latest-append xs s
  latest-drop (suc k) [] s h = absurd (omega arith)
  latest-drop (suc k) (x ∷ xs) s h = latest-drop k xs s (omega arith)

  -- The newest sample is in the buffer.
  latest-slice_last :
      (n : ℕ) (xs : List (Sample V)) (s : Sample V)
      → latest (slice_last (suc n) (xs ++ s ∷ [])) ≡ some s.v
  unfolding slice_last
  latest-slice_last n xs s =
      latest-drop (length (xs ++ s ∷ []) - suc n) xs s (omega (arith, length-append xs (s ∷ [])))

-- The floating types.
abbrev pub IsFloat : NetVarCType → Type 0
IsFloat ctype = (ctype ≡ NetVarCType.f32) ⊎ (ctype ≡ NetVarCType.f64)

is_float-IsFloat : (ctype : NetVarCType) → is_float ctype ≡ true → IsFloat ctype
is_float-IsFloat NetVarCType.f32 h = inl refl
is_float-IsFloat NetVarCType.f64 h = inr refl
is_float-IsFloat ctype h = ground arith

not_float : (ctype : NetVarCType) → IsFloat ctype → is_float ctype ≡ false → ⊥
not_float ctype (inl e) h = cc
not_float ctype (inr e) h = cc

module _ {V : Type 0} (prints : Prints V) where
  -- The print of a value: an integer of a floating type with one decimal place, any other as it is.
  abbrev pub IsPrintOf : NetVarCType → V → Str → Type 0
  IsPrintOf ctype value text =
      (IsFloat ctype × (prints.is_integer value ≡ true) × (text ≡ prints.to_fixed_one value))
      ⊎ (((¬ IsFloat ctype) ⊎ (prints.is_integer value ≡ false)) × (text ≡ prints.text value))

  format_value-IsPrintOf :
      (ctype : NetVarCType) (value : V) → IsPrintOf ctype value (format_value prints ctype value)
  unfolding format_value
  format_value-IsPrintOf ctype value = elim (Bool-cases (is_float ctype)) [
    | inl e ↦ elim (Bool-cases (prints.is_integer value)) [
      | inl f ↦ inl (is_float-IsFloat ctype e, f, rw (e, f) refl)
      | inr f ↦ inr (inr f, rw (e, f) refl)
    ]
    | inr e ↦ inr (inl (λ h. not_float ctype h e), rw e refl)
  ]

  -- The header over the members of a chart, one of which has the name of `v`: the print of its value
  -- over a single line, nothing over several.
  abbrev pub IsHeaderOf : VariableValue V → List VariableInfo → Option Str → Type 0
  IsHeaderOf v members header =
      ((u : VariableInfo) × (members ≡ u ∷ [])
        × (u.name ≡ v.name)
        × (text : Str) × (header ≡ some text)
        × IsPrintOf u.ctype v.value text)
      ⊎ ((1 < length members) × (header ≡ none))

module _ {V : Type 0} (prints : Prints V) (history : Series V) where
  -- The samples of a line are those of the history under its key.
  abbrev IsOfHistory : ChartSeries V → Type 0
  IsOfHistory line = line.samples ≡ samples_or_empty line.key history

  colored_series-IsOfHistory :
      (i : ℕ) (vs : List VariableInfo) (line : ChartSeries V)
      → Among line (colored_series prints history i vs)
      → IsOfHistory line
  unfolding colored_series to_series
  colored_series-IsOfHistory i [] line h = elim h [ ]
  colored_series-IsOfHistory i (v ∷ vs) line (inl e) = subst IsOfHistory e refl
  colored_series-IsOfHistory i (v ∷ vs) line (inr h) = colored_series-IsOfHistory (suc i) vs line h

  series_of-IsOfHistory :
      (id : Str) (vs : List VariableInfo) (line : ChartSeries V)
      → Among line (series_of prints history (record { id = id; members = vs }))
      → IsOfHistory line
  unfolding series_of to_series
  series_of-IsOfHistory id [] line h = elim h [ ]
  series_of-IsOfHistory id (v ∷ []) line (inl e) = subst IsOfHistory e refl
  series_of-IsOfHistory id (v ∷ []) line (inr h) = elim h [ ]
  series_of-IsOfHistory id (v ∷ w ∷ ws) line h = colored_series-IsOfHistory 0 (v ∷ w ∷ ws) line h

  colored_series-keys :
      (i : ℕ) (vs : List VariableInfo)
      → map (λ line. line.key) (colored_series prints history i vs) ≡ map (λ v. v.name) vs
  unfolding colored_series to_series
  colored_series-keys i [] = refl
  colored_series-keys i (v ∷ vs) = ap (λ ks. v.name ∷ ks) (colored_series-keys (suc i) vs)

  series_of-keys :
      (id : Str) (vs : List VariableInfo)
      → map (λ line. line.key) (series_of prints history (record { id = id; members = vs }))
        ≡ map (λ v. v.name) vs
  unfolding series_of to_series
  series_of-keys id [] = refl
  series_of-keys id (v ∷ []) = refl
  series_of-keys id (v ∷ w ∷ ws) = colored_series-keys 0 (v ∷ w ∷ ws)

  header_value-IsHeaderOf :
      (id : Str) (vs : List VariableInfo) (values : List (Str × V)) (v : VariableValue V)
      (line : ChartSeries V)
      → Among line (series_of prints history (record { id = id; members = vs }))
      → line.key ≡ v.name
      → lookup Str_discrete v.name values ≡ some v.value
      → IsHeaderOf prints v vs (header_value prints values vs)
  unfolding series_of to_series header_value
  header_value-IsHeaderOf id [] values v line a k h = elim a [ ]
  header_value-IsHeaderOf id (u ∷ []) values v line (inl e) k h =
      let same = ap (λ (l : ChartSeries V). l.key) e ∙ k in
      inl (
        u,
        refl,
        same,
        format_value prints u.ctype v.value,
        ap (λ o. some (value_text prints u.ctype o))
            (ap (λ n. lookup Str_discrete n values) same ∙ h),
        format_value-IsPrintOf prints u.ctype v.value,
      )
  header_value-IsHeaderOf id (u ∷ []) values v line (inr a) k h = elim a [ ]
  header_value-IsHeaderOf id (u ∷ w ∷ ws) values v line a k h = inr (omega arith, refl)

module _ {V : Type 0} (prints : Prints V) where
  -- After a snapshot with different names, every line that a chart of the panel has under the name
  -- of one of its values ends with that value; the lines of the chart stand for its members, in
  -- order, and its header is the print of the value, an integer of a floating type with one decimal
  -- place and any other as it is, if that member is the only one and shows no value if there are
  -- more.
  pub on_snapshot-latest :
      (snapshot : List (VariableValue V)) (t : ℕ) (m : Monitor V) (v : VariableValue V)
      (grouping : Grouping) (charted : List VariableInfo) (group : ChartGroup)
      (line : ChartSeries V)
      → AreDistinct Str_discrete (names snapshot)
      → Among v snapshot
      → Among line
          (panel_chart prints grouping
            (on_snapshot snapshot t m).history
            (on_snapshot snapshot t m).values
            charted
            group).series
      → line.key ≡ v.name
      → (latest line.samples ≡ some v.value)
        × (map
              (λ l. l.key)
              (panel_chart prints grouping
                (on_snapshot snapshot t m).history
                (on_snapshot snapshot t m).values
                charted
                group).series
            ≡ map (λ u. u.name) group.members)
        × IsHeaderOf prints v group.members
            (panel_chart prints grouping
              (on_snapshot snapshot t m).history
              (on_snapshot snapshot t m).values
              charted
              group).header_value
  unfolding on_snapshot panel_chart
  on_snapshot-latest snapshot t m v grouping charted group line d h a k =
      let history = append_samples t snapshot m.history in
      (
        ap latest (
              series_of-IsOfHistory prints history group.id group.members line a
              ∙ ap (λ n. samples_or_empty n history) k
              ∙ append_samples-present t v snapshot m.history d h)
            ∙ latest-slice_last 999 (samples_or_empty v.name m.history)
                (record { t = t; v = v.value }),
        series_of-keys prints history group.id group.members,
        header_value-IsHeaderOf prints history group.id group.members (from_entries snapshot []) v
            line a k (from_entries-present v snapshot [] d h),
      )
