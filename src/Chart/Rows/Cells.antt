-- ===== src/Chart/Rows/Cells.antt =====
-- The cells of the rows of a chart.
use tstlan_web.Base.{
  ℕ, ◌≡◌, ◌≢◌, refl, ap, sym, ◌∙◌, inl, inr, true, false, List, [], ◌∷◌, map, Option, none, some,
  arith, ltb, or_else, All, Among, Among-map, map-Among, ite, ℕ_discrete,
}
use tstlan_web.Base.Text.{Str, codes, Str_discrete}
use tstlan_web.Base.Record.{
  has, AreDistinct, add_all-distinct, has-Among, lookup, assign, lookup-assign,
}
use mathlib.Core.Logic.{if_pos, if_neg}
use mathlib.Core.Path.{subst}
use tstlan_web.Base.Sort.{Among-sort}
use tstlan_web.History.{Sample}
use tstlan_web.Chart.Rows.{
  ChartSeries, Row, set_cell, add_sample, add_samples, add_lines, build_rows, read_cell,
}
use tstlan_web.Chart.Rows.Times.{HasNoTimeKey, sample_times, add_lines-keys, add_lines-AreTimed}

module _ {V : Type 0} where
  -- The first value, if there is one, stands before the second.
  abbrev pub later : Option V → Option V → Option V
  later none o = o
  later (some v) o = some v

  -- The value of the last sample with the time.
  abbrev pub value_in : ℕ → List (Sample V) → Option V
  value_in t [] = none
  value_in t (s ∷ ss) = later (value_in t ss) (ite (ℕ_discrete s.t t) (some s.v) none)

  -- The value of the last sample with the time among the lines of the key.
  abbrev pub value_at : Str → ℕ → List (ChartSeries V) → Option V
  value_at key t [] = none
  value_at key t (line ∷ lines) =
      later (value_at key t lines) (ite (Str_discrete line.key key) (value_in t line.samples) none)

  later_assoc : (a b c : Option V) → later a (later b c) ≡ later (later a b) c
  later_assoc none b c = refl
  later_assoc (some v) b c = refl

  pub later-none : (a : Option V) → later a none ≡ a
  later-none none = refl
  later-none (some v) = refl

  -- `byT.get(t)?.[key]` of a key that is not that of the time.
  abbrev cell_at : Str → ℕ → List (ℕ × Row V) → Option V
  cell_at key t m =
      lookup Str_discrete key (or_else (lookup ℕ_discrete t m) (record { t = t; cells = [] })).cells

module _ {V : Type 0} (time_of : V → ℕ) (key : Str) (t : ℕ) where
  set_cell-cell :
      (l : Str) (v : V) (row : Row V)
      → l ≢ codes "t"
      → lookup Str_discrete key (set_cell time_of l v row).cells
        ≡ ite (Str_discrete l key) (some v) (lookup Str_discrete key row.cells)
  unfolding set_cell
  set_cell-cell l v row n =
      ap (λ (r : Row V). lookup Str_discrete key r.cells)
        (if_neg (Str_discrete l (codes "t")) n (record row { t = time_of v })
          (record row { cells = assign Str_discrete l v row.cells }))
      ∙ lookup-assign Str_discrete l key v row.cells

  add_sample-cell :
      (l : Str) (s : Sample V) (m : List (ℕ × Row V))
      → l ≢ codes "t"
      → cell_at key t (add_sample time_of l s m)
        ≡ ite
            (Str_discrete l key)
            (later (ite (ℕ_discrete s.t t) (some s.v) none) (cell_at key t m))
            (cell_at key t m)
  unfolding add_sample set_cell
  add_sample-cell l s m n =
      ap (λ o. lookup Str_discrete key (or_else {A = Row V} o (record { t = t; cells = [] })).cells)
        (lookup-assign ℕ_discrete s.t t (set_cell time_of l s.v row) m)
      ∙ elim (ℕ_discrete s.t t) [
        | yes now ↦
            rw (if_pos _ now, if_pos _ now)
              (set_cell-cell l s.v row n
                ∙ ap (λ c. ite (Str_discrete l key) (some s.v) c) (ap (λ x. cell_at key x m) now)
                ∙ same_branch l s.v)
        | no other_time ↦ rw (if_neg _ other_time, if_neg _ other_time) (ground arith)
      ]
    where
      row : Row V
      row = or_else (lookup ℕ_discrete s.t m) (record { t = s.t; cells = [] })

      same_branch :
          (k : Str) (v : V)
          → ite (Str_discrete k key) (some v) (cell_at key t m)
            ≡ ite (Str_discrete k key) (later (some v) (cell_at key t m)) (cell_at key t m)
      same_branch k v = refl

  add_samples-cell :
      (l : Str) (ss : List (Sample V)) (m : List (ℕ × Row V))
      → l ≢ codes "t"
      → cell_at key t (add_samples time_of l ss m)
        ≡ ite (Str_discrete l key) (later (value_in t ss) (cell_at key t m)) (cell_at key t m)
  unfolding add_samples
  add_samples-cell l [] m n = ground arith
  add_samples-cell l (s ∷ ss) m n =
      add_samples-cell l ss (add_sample time_of l s m) n ∙ elim (Str_discrete l key) [
        | yes e ↦
            rw (if_pos _ e, if_pos _ e, add_sample-cell l s m n, if_pos _ e)
              (later_assoc (value_in t ss) (ite (ℕ_discrete s.t t) (some s.v) none)
                (cell_at key t m))
        | no e ↦ rw (if_neg _ e, if_neg _ e, add_sample-cell l s m n, if_neg _ e) refl
      ]

  add_lines-cell :
      (lines : List (ChartSeries V)) (m : List (ℕ × Row V))
      → HasNoTimeKey lines
      → cell_at key t (add_lines time_of lines m) ≡ later (value_at key t lines) (cell_at key t m)
  unfolding add_lines
  add_lines-cell [] m n = refl
  add_lines-cell (line ∷ lines) m n =
      add_lines-cell lines (add_samples time_of line.key line.samples m) n.1
      ∙ elim (Str_discrete line.key key) [
        | yes e ↦
            rw (add_samples-cell line.key line.samples m n.0, if_pos _ e, if_pos _ e)
              (later_assoc (value_at key t lines) (value_in t line.samples) (cell_at key t m))
        | no e ↦
            rw (add_samples-cell line.key line.samples m n.0, if_neg _ e, if_neg _ e) (ground arith)
      ]

-- In a map without repeated keys each entry is found.
lookup-entry :
    {W : Type 0} (k : ℕ) (w : W) (m : List (ℕ × W))
    → AreDistinct ℕ_discrete (map (λ e. e.0) m)
    → Among (k, w) m
    → lookup ℕ_discrete k m ≡ some w
unfolding lookup
lookup-entry k w [] d h = elim h [ ]
lookup-entry {W} k w ((j, v) ∷ m) d (inl e) =
    let same : j ≡ k = ap (λ (p : ℕ × W). p.0) e in
    rw (if_pos _ same) (ap (λ (p : ℕ × W). some p.1) e)
lookup-entry {W} k w ((j, v) ∷ m) (new, d) (inr h) = elim (ℕ_discrete j k) [
  | yes e ↦
      let seen : has ℕ_discrete k (map (λ p. p.0) m) ≡ true =
        (has-Among ℕ_discrete k (map (λ p. p.0) m)).1 (map-Among (λ p. p.0) (k, w) m h) in
      let bad : true ≡ false =
        sym seen ∙ subst (λ x. has ℕ_discrete x (map (λ (p : ℕ × W). p.0) m) ≡ false) e new in
      absurd (cc)
  | no e ↦ rw (if_neg _ e) (lookup-entry k w m d h)
]

Among-All : {A : Type 0} (P : A → Type 0) (x : A) (xs : List A) → All P xs → Among x xs → P x
Among-All P x [] a h = elim h [ ]
Among-All P x (y ∷ ys) a (inl e) = subst P e a.0
Among-All P x (y ∷ ys) a (inr h) = Among-All P x ys a.1 h

module _ {V : Type 0} (time_of : V → ℕ) (of_time : ℕ → V) where
  -- If no line has the key of the time, a row has for every other key the value of the last sample at
  -- the row's time among the lines of the key, and no cell if there is no such sample.
  pub read_cell-build_rows :
      (series : List (ChartSeries V)) (key : Str) (r : Row V)
      → HasNoTimeKey series
      → key ≢ codes "t"
      → Among r (build_rows time_of series)
      → read_cell of_time key r ≡ value_at key r.t series
  unfolding read_cell build_rows lookup
  read_cell-build_rows series key r n differ h =
      let rows = add_lines time_of series [] in
      let (e, a, same) = Among-map (λ p. p.1) r rows (Among-sort (λ x y. ltb x.t y.t) r _ h) in
      let timed : e.1.t ≡ e.0 =
        Among-All (λ p. p.1.t ≡ p.0) e rows (add_lines-AreTimed time_of series [] n tt) a in
      let found : lookup ℕ_discrete e.0 rows ≡ some e.1 =
        lookup-entry e.0 e.1 rows
          (subst (AreDistinct ℕ_discrete) (sym (add_lines-keys time_of series []))
            (add_all-distinct ℕ_discrete [] (sample_times series) tt))
          a in
      rw (if_neg _ differ) (
        ap (λ (row : Row V). lookup Str_discrete key row.cells) (sym same)
        ∙ ap
            (λ o.
              lookup Str_discrete key
                (or_else {A = Row V} o (record { t = e.0; cells = [] })).cells)
            (sym found)
        ∙ add_lines-cell time_of key e.0 series [] n
        ∙ later-none (value_at key e.0 series)
        ∙ ap (λ x. value_at key x series) (sym timed ∙ ap (λ (row : Row V). row.t) same))
