-- ===== src/Chart/Indicators.antt =====
-- The statistics of a chart: `mean`, `median`, `INDICATORS`, the extremes and `boundValue` of
-- web/tstlan-web/components/time-series-chart.tsx. The arithmetic of doubles is a parameter.
use tstlan_web.Base.{
  ℕ, ◌-◌, ◌/◌, ◌%◌, Bool, List, [], ◌∷◌, Option, none, some, ltb, ◌==◌, ◌||◌, if◌then◌else◌,
  or_else, length, get_elem?,
}
use tstlan_web.Base.Text.{Str, codes, trim, is_empty}
use tstlan_web.Base.Number.Decimal.{value}
use tstlan_web.Base.Sort.{sort}

-- The operations on doubles that the chart uses: the zero, `NaN`, the infinities, `+`, a quotient by a
-- count, `<`, `Number.isNaN`, `Number.isFinite`, and `Number` of a text.
pub record Doubles (V : Type 0) : Type 0 where
  pub zero_value : V
  pub nan : V
  pub infinity : V
  pub neg_infinity : V
  pub plus : V → V → V
  pub over : V → ℕ → V
  pub less : V → V → Bool
  pub is_nan : V → Bool
  pub is_finite : V → Bool
  pub number : Str → V

-- `number | "auto"`
pub data Bound (V : Type 0) : Type 0 where
  auto : Bound V
  at_value : V → Bound V

module _ {V : Type 0} (doubles : Doubles V) where
  -- `values.reduce((sum, value) => sum + value, sum)`
  unfoldable pub sum_from : V → List V → V
  sum_from sum [] = sum
  sum_from sum (value ∷ values) = sum_from (doubles.plus sum value) values

  unfoldable pub mean : List V → V
  unfolding sum_from
  mean values = doubles.over (sum_from doubles.zero_value values) (length values)

  -- The sum of two elements that may be undefined, which makes `NaN`.
  abbrev pub plus_elements : Option V → Option V → V
  plus_elements (some a) (some b) = doubles.plus a b
  plus_elements _ _ = doubles.nan

  unfoldable pub median : List V → V
  median values =
      let sorted = sort doubles.less values in
      let middle = length sorted / 2 in
      if length sorted % 2 == 1
      then or_else (get_elem? sorted middle) doubles.nan
      else doubles.over
          (plus_elements (if ltb 0 middle then get_elem? sorted (middle - 1) else none)
            (get_elem? sorted middle))
          2

  -- One step of `Math.min` or `Math.max`: `NaN` if either is, else the one that stands before.
  abbrev pub extreme : (V → V → Bool) → V → V → V
  extreme before value rest =
      if doubles.is_nan value || doubles.is_nan rest
      then doubles.nan
      else if before rest value
      then rest
      else value

  -- `Math.min(...values)`
  unfoldable pub min_of : List V → V
  min_of [] = doubles.infinity
  min_of (value ∷ values) = extreme doubles.less value (min_of values)

  -- `Math.max(...values)`
  unfoldable pub max_of : List V → V
  max_of [] = doubles.neg_infinity
  max_of (value ∷ values) = extreme (λ a b. doubles.less b a) value (max_of values)

  unfoldable pub bound_value : Str → Bound V
  bound_value raw =
      let trimmed = trim raw in
      let parsed = doubles.number trimmed in
      if is_empty trimmed then auto else if doubles.is_finite parsed then at_value parsed else auto

pub record Indicator (V : Type 0) : Type 0 where
  pub id : Str
  pub label : Str
  pub color : Str
  pub compute : List V → V

abbrev pub indicators : {V : Type 0} → Doubles V → List (Indicator V)
indicators doubles =
    record {
      id = codes "mean";
      label = codes "среднее";
      color = codes "#0d9488";
      compute = mean doubles;
    }
    ∷ record {
      id = codes "median";
      label = codes "медиана";
      color = codes "#d97706";
      compute = median doubles;
    }
    ∷ []
