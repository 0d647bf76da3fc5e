-- ===== src/Chart/Rows/Single.antt =====
-- The rows of a chart of one line.
use tstlan_web.Base.{
  ℕ, ◌<◌, ◌≡◌, ◌≢◌, refl, ap, sym, ◌∙◌, false, List, [], ◌∷◌, ◌++◌, map, append-nil, append_assoc,
  none, some, arith, ltb, All, All-append, ℕ_discrete,
}
use tstlan_web.Base.Text.{Str, codes, Str_discrete}
use tstlan_web.Base.Record.{lookup, assign}
use mathlib.Core.Logic.{if_pos, if_neg}
use mathlib.Core.Path.{subst}
use tstlan_web.Base.Sort.{sort, insert}
use tstlan_web.History.{Sample}
use tstlan_web.Chart.Brush.{IsAscending}
use tstlan_web.Chart.Rows.{
  ChartSeries, Row, set_cell, add_sample, add_samples, add_lines, build_rows, read_cell,
  column_values,
}

-- The row of a sample that no other sample shares.
abbrev pub row_of : {V : Type 0} → Str → Sample V → Row V
row_of key s = record { t = s.t; cells = (key, s.v) ∷ [] }

lookup-absent :
    {W : Type 0} (k : ℕ) (m : List (ℕ × W)) → All (λ e. e.0 < k) m → lookup ℕ_discrete k m ≡ none
unfolding lookup
lookup-absent k [] h = refl
lookup-absent k ((j, w) ∷ m) (lt, h) =
    rw (if_neg (ℕ_discrete j k) (λ e. ground arith)) (lookup-absent k m h)

assign-absent :
    {W : Type 0} (k : ℕ) (w : W) (m : List (ℕ × W))
    → All (λ e. e.0 < k) m
    → assign ℕ_discrete k w m ≡ m ++ (k, w) ∷ []
unfolding assign
assign-absent k w [] h = refl
assign-absent k w ((j, v) ∷ m) (lt, h) =
    rw (if_neg (ℕ_discrete j k) (λ e. ground arith)) (ap (λ r. (j, v) ∷ r) (assign-absent k w m h))

-- A list in order stays as it is.
insert_first :
    {V : Type 0} (r : Row V) (rows : List (Row V))
    → All (λ y. r.t < y) (map (λ x. x.t) rows)
    → insert (λ a b. ltb a.t b.t) r rows ≡ r ∷ rows
unfolding insert
insert_first r [] h = refl
insert_first r (x ∷ rows) h =
    let after : ltb x.t r.t ≡ false = (let before : r.t < x.t = h.0 in ground arith) in
    rw after refl

sort_ordered :
    {V : Type 0} (rows : List (Row V))
    → IsAscending (map (λ x. x.t) rows)
    → sort (λ a b. ltb a.t b.t) rows ≡ rows
unfolding sort
sort_ordered [] h = refl
sort_ordered (r ∷ rows) h =
    ap (insert (λ a b. ltb a.t b.t) r) (sort_ordered rows h.1) ∙ insert_first r rows h.0

module _ {V : Type 0} (time_of : V → ℕ) (of_time : ℕ → V) (key : Str)
    (plain : key ≢ codes "t") where
  add_sample-new :
      (s : Sample V) (m : List (ℕ × Row V))
      → All (λ e. e.0 < s.t) m
      → add_sample time_of key s m ≡ m ++ (s.t, row_of key s) ∷ []
  unfolding add_sample set_cell assign
  add_sample-new s m h = rw (lookup-absent s.t m h) (
      ap (λ (r : Row V). assign ℕ_discrete s.t r m)
        (if_neg (Str_discrete key (codes "t")) plain (record { t = time_of s.v; cells = [] })
          (row_of key s))
      ∙ assign-absent s.t (row_of key s) m h)

  add_samples-new :
      (ss : List (Sample V)) (m : List (ℕ × Row V))
      → IsAscending (map (λ s. s.t) ss)
      → All (λ x. All (λ e. e.0 < x) m) (map (λ s. s.t) ss)
      → add_samples time_of key ss m ≡ m ++ map (λ s. (s.t, row_of key s)) ss
  unfolding add_samples
  add_samples-new [] m a h = sym (append-nil m)
  add_samples-new (s ∷ ss) m a h = rw (add_sample-new s m h.0) (
      add_samples-new ss (m ++ (s.t, row_of key s) ∷ []) a.1 (extend (map (λ x. x.t) ss) h.1 a.0)
      ∙ append_assoc m _ _)
    where
      extend :
          (xs : List ℕ)
          → All (λ x. All (λ e. e.0 < x) m) xs
          → All (λ y. s.t < y) xs
          → All (λ x. All (λ e. e.0 < x) (m ++ (s.t, row_of key s) ∷ [])) xs
      extend [] p q = tt
      extend (x ∷ xs) p q = (All-append (λ e. e.0 < x) m _ p.0 (q.0, tt), extend xs p.1 q.1)

  own_cell : (s : Sample V) → read_cell of_time key (row_of key s) ≡ some s.v
  unfolding read_cell lookup
  own_cell s =
      if_neg (Str_discrete key (codes "t")) plain (some (of_time s.t)) _
      ∙ if_pos (Str_discrete key key) refl (some s.v) none

  pub column_values-rows :
      (ss : List (Sample V)) → column_values of_time (map (row_of key) ss) key ≡ map (λ s. s.v) ss
  unfolding column_values read_cell lookup
  column_values-rows [] = refl
  column_values-rows (s ∷ ss) = rw (own_cell s) (ap (λ vs. s.v ∷ vs) (column_values-rows ss))

  pub build_rows-single :
      (line : ChartSeries V)
      → line.key ≡ key
      → IsAscending (map (λ s. s.t) line.samples)
      → build_rows time_of (line ∷ []) ≡ map (row_of key) line.samples
  unfolding build_rows add_lines
  build_rows-single line same a =
      ap (sort (λ x y. ltb x.t y.t)) (
        ap (λ k. map (λ (e : ℕ × Row V). e.1) (add_samples time_of k line.samples [])) same
        ∙ ap (map (λ (e : ℕ × Row V). e.1)) (add_samples-new line.samples [] a (none_before _))
        ∙ entries line.samples)
      ∙ sort_ordered (map (row_of key) line.samples) (subst IsAscending (times line.samples) a)
    where
      none_before : (xs : List ℕ) → All (λ x. All (λ (e : ℕ × Row V). e.0 < x) []) xs
      none_before [] = tt
      none_before (x ∷ xs) = (tt, none_before xs)

      entries :
          (ss : List (Sample V))
          → map (λ (e : ℕ × Row V). e.1) (map (λ s. (s.t, row_of key s)) ss) ≡ map (row_of key) ss
      entries [] = refl
      entries (s ∷ ss) = ap (λ rows. row_of key s ∷ rows) (entries ss)

      times : (ss : List (Sample V)) → map (λ s. s.t) ss ≡ map (λ r. r.t) (map (row_of key) ss)
      times [] = refl
      times (s ∷ ss) = ap (λ ts. s.t ∷ ts) (times ss)
