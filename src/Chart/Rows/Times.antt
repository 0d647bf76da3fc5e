-- ===== src/Chart/Rows/Times.antt =====
-- The times of the rows of a chart.
use tstlan_web.Base.{
  ℕ, ◌<◌, ◌≡◌, ◌≢◌, refl, ap, sym, ◌∙◌, inl, inr, false, List, [], ◌∷◌, ◌++◌, map, arith, ltb,
  ltb→lt, or_else, All, Bool-cases, ℕ_discrete,
}
use tstlan_web.Base.Text.{Str, codes, Str_discrete}
use tstlan_web.Base.Record.{has, add, add_all, AreDistinct, add_all-distinct, lookup, assign}
use mathlib.Core.Logic.{if_pos, if_neg}
use mathlib.Core.Path.{subst}
use tstlan_web.Base.Sort.{sort, insert, map-sort, has-sort, All-insert}
use tstlan_web.History.{Sample}
use tstlan_web.Chart.Brush.{IsAscending}
use tstlan_web.Chart.Rows.{
  ChartSeries, Row, set_cell, add_sample, add_samples, add_lines, build_rows,
}

-- The times of all samples, line by line.
abbrev pub sample_times : {V : Type 0} → List (ChartSeries V) → List ℕ
sample_times [] = []
sample_times (line ∷ lines) = map (λ s. s.t) line.samples ++ sample_times lines

-- No line has the key `t`, which is that of the time.
abbrev pub HasNoTimeKey : {V : Type 0} → List (ChartSeries V) → Type 0
HasNoTimeKey = All (λ line. line.key ≢ codes "t")

All-below : (x y : ℕ) (ys : List ℕ) → x < y → All (λ z. y < z) ys → All (λ z. x < z) ys
All-below x y [] lt h = tt
All-below x y (z ∷ ys) lt (p, h) = (omega arith, All-below x y ys lt h)

-- A set keeps its order under insertion, if the element is new.
insert-IsAscending :
    (x : ℕ) (ys : List ℕ)
    → has ℕ_discrete x ys ≡ false
    → IsAscending ys
    → IsAscending (insert ltb x ys)
unfolding insert has
insert-IsAscending x [] e h = (tt, tt)
insert-IsAscending x (y ∷ ys) e h =
    let (differ, new) = apart x y ys e in
    elim (Bool-cases (ltb y x)) [
      | inl lt ↦
          rw lt
            (All-insert ltb (λ z. y < z) x ys (ltb→lt y x lt) h.0, insert-IsAscending x ys new h.1)
      | inr ge ↦
          let before : x < y = ground arith in rw ge ((before, All-below x y ys before h.0), h)
    ]
  where
    apart :
        (a b : ℕ) (bs : List ℕ)
        → has ℕ_discrete a (b ∷ bs) ≡ false
        → (b ≢ a) × (has ℕ_discrete a bs ≡ false)
    apart a b bs f = (λ same. ground arith, ground arith)

sort-IsAscending : (xs : List ℕ) → AreDistinct ℕ_discrete xs → IsAscending (sort ltb xs)
unfolding sort
sort-IsAscending [] h = tt
sort-IsAscending (x ∷ xs) (new, h) =
    insert-IsAscending x (sort ltb xs) (has-sort ℕ_discrete ltb x xs ∙ new) (sort-IsAscending xs h)

keys-assign :
    {W : Type 0} (k : ℕ) (w : W) (m : List (ℕ × W))
    → map (λ e. e.0) (assign ℕ_discrete k w m) ≡ add ℕ_discrete k (map (λ e. e.0) m)
unfolding assign add has
keys-assign k w [] = refl
keys-assign k w ((j, v) ∷ m) = elim (ℕ_discrete j k) [
  | yes e ↦ rw (if_pos _ e, if_pos _ e) (ap (λ (n : ℕ). n ∷ map (λ e. e.0) m) (sym e))
  | no e ↦ rw (if_neg _ e, if_neg _ e) (ground (arith, keys-assign k w m))
]

-- Every row of the map stands under its own time.
abbrev pub AreTimed : {V : Type 0} → List (ℕ × Row V) → Type 0
AreTimed = All (λ e. e.1.t ≡ e.0)

add_all-append :
    (s xs ys : List ℕ)
    → add_all ℕ_discrete s (xs ++ ys) ≡ add_all ℕ_discrete (add_all ℕ_discrete s xs) ys
unfolding add_all
add_all-append s [] ys = refl
add_all-append s (x ∷ xs) ys = add_all-append (add ℕ_discrete x s) xs ys

All-assign :
    {W : Type 0} (P : ℕ × W → Type 0) (k : ℕ) (w : W) (m : List (ℕ × W))
    → P (k, w)
    → All P m
    → All P (assign ℕ_discrete k w m)
unfolding assign
All-assign P k w [] p h = (p, tt)
All-assign P k w ((j, v) ∷ m) p h = elim (ℕ_discrete j k) [
  | yes e ↦ rw (if_pos _ e) (p, h.1)
  | no e ↦ rw (if_neg _ e) (h.0, All-assign P k w m p h.1)
]

-- The row under a time, or a new one, has that time.
timed :
    {V : Type 0} (t : ℕ) (m : List (ℕ × Row V))
    → AreTimed m
    → (or_else (lookup ℕ_discrete t m) (record { t = t; cells = [] })).t ≡ t
unfolding lookup
timed t [] h = refl
timed t ((j, row) ∷ m) (e, h) = elim (ℕ_discrete j t) [
  | yes same ↦ rw (if_pos _ same) (e ∙ same)
  | no differ ↦ rw (if_neg _ differ) (timed t m h)
]

AreTimed-keys :
    {V : Type 0} (m : List (ℕ × Row V))
    → AreTimed m
    → map (λ r. r.t) (map (λ e. e.1) m) ≡ map (λ e. e.0) m
AreTimed-keys [] h = refl
AreTimed-keys ((j, row) ∷ m) (e, h) = λ i. e i ∷ AreTimed-keys m h i

module _ {V : Type 0} (time_of : V → ℕ) where
  add_samples-keys :
      (key : Str) (ss : List (Sample V)) (m : List (ℕ × Row V))
      → map (λ e. e.0) (add_samples time_of key ss m)
        ≡ add_all ℕ_discrete (map (λ e. e.0) m) (map (λ s. s.t) ss)
  unfolding add_samples add_all add_sample
  add_samples-keys key [] m = refl
  add_samples-keys key (s ∷ ss) m =
      add_samples-keys key ss (add_sample time_of key s m)
      ∙ ap (λ ks. add_all ℕ_discrete ks (map (λ r. r.t) ss)) (keys-assign s.t _ m)

  pub add_lines-keys :
      (lines : List (ChartSeries V)) (m : List (ℕ × Row V))
      → map (λ e. e.0) (add_lines time_of lines m)
        ≡ add_all ℕ_discrete (map (λ e. e.0) m) (sample_times lines)
  unfolding add_lines add_all
  add_lines-keys [] m = refl
  add_lines-keys (line ∷ lines) m =
      add_lines-keys lines (add_samples time_of line.key line.samples m)
      ∙ ap (λ ks. add_all ℕ_discrete ks (sample_times lines))
          (add_samples-keys line.key line.samples m)
      ∙ sym (add_all-append (map (λ e. e.0) m) (map (λ s. s.t) line.samples) (sample_times lines))

  set_cell-t :
      (key : Str) (v : V) (row : Row V) → key ≢ codes "t" → (set_cell time_of key v row).t ≡ row.t
  unfolding set_cell
  set_cell-t key v row h =
      ap (λ (r : Row V). r.t)
        (if_neg (Str_discrete key (codes "t")) h (record row { t = time_of v })
          (record row { cells = assign Str_discrete key v row.cells }))

  add_samples-AreTimed :
      (key : Str) (ss : List (Sample V)) (m : List (ℕ × Row V))
      → key ≢ codes "t"
      → AreTimed m
      → AreTimed (add_samples time_of key ss m)
  unfolding add_samples add_sample
  add_samples-AreTimed key [] m n h = h
  add_samples-AreTimed key (s ∷ ss) m n h =
      add_samples-AreTimed key ss (add_sample time_of key s m) n
        (All-assign (λ e. e.1.t ≡ e.0) s.t _ m (set_cell-t key s.v _ n ∙ timed s.t m h) h)

  pub add_lines-AreTimed :
      (lines : List (ChartSeries V)) (m : List (ℕ × Row V))
      → HasNoTimeKey lines
      → AreTimed m
      → AreTimed (add_lines time_of lines m)
  unfolding add_lines
  add_lines-AreTimed [] m n h = h
  add_lines-AreTimed (line ∷ lines) m n h =
      add_lines-AreTimed lines (add_samples time_of line.key line.samples m) n.1
        (add_samples-AreTimed line.key line.samples m n.0 h)

  -- If no line has the key of the time, the times of the rows are those of all samples, each once and
  -- in order.
  pub build_rows-times :
      (series : List (ChartSeries V))
      → HasNoTimeKey series
      → map (λ r. r.t) (build_rows time_of series)
        ≡ sort ltb (add_all ℕ_discrete [] (sample_times series))
  unfolding build_rows
  build_rows-times series n =
      map-sort (λ (r : Row V). r.t) ltb (map (λ e. e.1) (add_lines time_of series []))
      ∙ ap (sort ltb) (
          AreTimed-keys (add_lines time_of series []) (add_lines-AreTimed series [] n tt)
          ∙ add_lines-keys series [])

  -- If no line has the key of the time, the rows ascend strictly in time.
  pub build_rows-IsAscending :
      (series : List (ChartSeries V))
      → HasNoTimeKey series
      → IsAscending (map (λ r. r.t) (build_rows time_of series))
  build_rows-IsAscending series n =
      subst IsAscending (sym (build_rows-times series n))
        (sort-IsAscending _ (add_all-distinct ℕ_discrete [] (sample_times series) tt))
