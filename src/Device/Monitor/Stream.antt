-- ===== src/Device/Monitor/Stream.antt =====
-- The values and the series after snapshots of the stream.
use tstlan_web.Base.{
  ℕ, zero, suc, ◌+◌, ◌-◌, ◌≤◌, ◌<◌, ◌≡◌, ◌≢◌, refl, sym, ◌∙◌, inl, inr, true, false, List, [], ◌∷◌,
  ◌++◌, map, some, arith, All, All-append, All-drop, length, Among, Among-map, map-Among,
  Bool-cases,
}
use tstlan_web.Base.Text.{Str, Str_discrete}
use tstlan_web.Base.Record.{has, AreDistinct, has-Among, lookup, assign, lookup-assign}
use mathlib.Core.Logic.{if_pos, if_neg}
use mathlib.Core.Path.{subst}
use tstlan_web.History.{Sample, Series, samples_or_empty, slice_last}
use tstlan_web.History.Order.{IsAscending, slice_last-IsAscending}
use tstlan_web.Device.Monitor.{
  VariableValue, Monitor, max_points, from_entries, append_samples, on_snapshot,
}

absent_parts :
    (j k : Str) (ks : List Str)
    → has Str_discrete k (j ∷ ks) ≡ false
    → (j ≢ k) × (has Str_discrete k ks ≡ false)
unfolding has
absent_parts j k ks h = elim (Str_discrete j k) [
  | yes e ↦ let bad : true ≡ false = rw (if_pos _ e) at h in absurd (cc)
  | no e ↦ (e, rw (if_neg _ e) at h)
]

module _ {V : Type 0} where
  abbrev pub names : List (VariableValue V) → List Str
  names vs = map (λ v. v.name) vs

  from_entries-absent :
      (k : Str) (vs : List (VariableValue V)) (m : List (Str × V))
      → has Str_discrete k (names vs) ≡ false
      → lookup Str_discrete k (from_entries vs m) ≡ lookup Str_discrete k m
  unfolding from_entries has
  from_entries-absent k [] m h = refl
  from_entries-absent k (v ∷ vs) m h =
      let (differ, rest) = absent_parts v.name k (names vs) h in
      from_entries-absent k vs (assign Str_discrete v.name v.value m) rest
      ∙ lookup-assign Str_discrete v.name k v.value m
      ∙ rw (if_neg _ differ) refl

  pub from_entries-present :
      (v : VariableValue V) (vs : List (VariableValue V)) (m : List (Str × V))
      → AreDistinct Str_discrete (names vs)
      → Among v vs
      → lookup Str_discrete v.name (from_entries vs m) ≡ some v.value
  unfolding from_entries
  from_entries-present v [] m d h = elim h [ ]
  from_entries-present v (w ∷ vs) m d (inl e) =
      subst
        (λ (u : VariableValue V).
          lookup Str_discrete u.name (from_entries vs (assign Str_discrete w.name w.value m))
          ≡ some u.value)
        e
        (from_entries-absent w.name vs (assign Str_discrete w.name w.value m) d.0
          ∙ lookup-assign Str_discrete w.name w.name w.value m
          ∙ rw (if_pos (Str_discrete w.name w.name) refl) refl)
  from_entries-present v (w ∷ vs) m d (inr h) =
      from_entries-present v vs (assign Str_discrete w.name w.value m) d.1 h

  -- The series of a name after one value of a snapshot.
  abbrev pub extended : ℕ → VariableValue V → Series V → List (Sample V)
  extended t v series =
      slice_last max_points (samples_or_empty v.name series ++ record { t = t; v = v.value } ∷ [])

  pub append_samples-absent :
      (t : ℕ) (k : Str) (vs : List (VariableValue V)) (series : Series V)
      → has Str_discrete k (names vs) ≡ false
      → samples_or_empty k (append_samples t vs series) ≡ samples_or_empty k series
  unfolding append_samples
  append_samples-absent t k [] series h = refl
  append_samples-absent t k (v ∷ vs) series h =
      let (differ, rest) = absent_parts v.name k (names vs) h in
      append_samples-absent t k vs (assign Str_discrete v.name (extended t v series) series) rest
      ∙ rw (lookup-assign Str_discrete v.name k (extended t v series) series, if_neg _ differ) refl

  apart :
      (name : Str) (v : VariableValue V) (vs : List (VariableValue V))
      → has Str_discrete name (names vs) ≡ false
      → Among v vs
      → name ≢ v.name
  apart name v vs new h e =
      let seen = (has-Among Str_discrete v.name (names vs)).1 (map-Among (λ w. w.name) v vs h) in
      let bad : true ≡ false =
        sym seen ∙ subst (λ k. has Str_discrete k (names vs) ≡ false) e new in
      cc

  pub append_samples-present :
      (t : ℕ) (v : VariableValue V) (vs : List (VariableValue V)) (series : Series V)
      → AreDistinct Str_discrete (names vs)
      → Among v vs
      → samples_or_empty v.name (append_samples t vs series) ≡ extended t v series
  unfolding append_samples
  append_samples-present t v [] series d h = elim h [ ]
  append_samples-present t v (w ∷ vs) series d (inl e) =
      let next = assign Str_discrete w.name (extended t w series) series in
      subst
        (λ (u : VariableValue V).
          samples_or_empty u.name (append_samples t vs next) ≡ extended t u series)
        e
        (append_samples-absent t w.name vs next d.0
          ∙ rw
              (
                lookup-assign Str_discrete w.name w.name (extended t w series) series,
                if_pos (Str_discrete w.name w.name) refl,
              )
              refl)
  append_samples-present t v (w ∷ vs) series (new, d) (inr h) =
      let differ = apart w.name v vs new h in
      append_samples-present t v vs (assign Str_discrete w.name (extended t w series) series) d h
      ∙ rw (lookup-assign Str_discrete w.name v.name (extended t w series) series, if_neg _ differ)
          refl

  -- All samples are before a time.
  abbrev pub IsBefore : ℕ → List (Sample V) → Type 0
  IsBefore t = All (λ s. s.t < t)

  -- Every series ascends strictly, and all its samples are before a time.
  abbrev pub IsOrderedBefore : ℕ → Monitor V → Type 0
  IsOrderedBefore t m =
      (name : Str)
      → IsAscending (samples_or_empty name m.history) × IsBefore t (samples_or_empty name m.history)

  -- Messages of the stream, one after another.
  abbrev pub feed : List (ℕ × List (VariableValue V)) → Monitor V → Monitor V
  feed [] m = m
  feed ((t, snapshot) ∷ messages) m = feed messages (on_snapshot snapshot t m)

  -- Messages with different names each, not before a time and ascending strictly.
  abbrev pub AreInOrder : ℕ → List (ℕ × List (VariableValue V)) → Type 0
  AreInOrder from [] = Unit
  AreInOrder from ((t, snapshot) ∷ messages) =
      (from ≤ t) × AreDistinct Str_discrete (names snapshot) × AreInOrder (t + 1) messages

  at_end :
      (t : ℕ) (s : Sample V) (ss : List (Sample V))
      → s.t ≡ t
      → IsAscending ss
      → IsBefore t ss
      → IsAscending (ss ++ s ∷ [])
  at_end t s [] e a b = (tt, tt)
  at_end t s (x ∷ ss) e a b = (
    All-append (λ y. x.t < y.t) ss (s ∷ []) a.0 ((let earlier : x.t < t = b.0 in omega arith), tt),
    at_end t s ss e a.1 b.1,
  )

  pub weaken : (t u : ℕ) (ss : List (Sample V)) → t ≤ u → IsBefore t ss → IsBefore u ss
  weaken t u [] le b = tt
  weaken t u (x ∷ ss) le (lt, b) = (omega arith, weaken t u ss le b)

  pub IsBefore-slice_last :
      (t n : ℕ) (ss : List (Sample V)) → IsBefore t ss → IsBefore t (slice_last n ss)
  unfolding slice_last
  IsBefore-slice_last t zero ss b = b
  IsBefore-slice_last t (suc n) ss b = All-drop (λ s. s.t < t) (length ss - suc n) ss b

  extended-IsAscending :
      (from t : ℕ) (v : VariableValue V) (m : Monitor V)
      → from ≤ t
      → IsOrderedBefore from m
      → IsAscending (extended t v m.history) × IsBefore (t + 1) (extended t v m.history)
  extended-IsAscending from t v m le h =
      let (a, b) = h v.name in
      let old = samples_or_empty v.name m.history in
      let all = old ++ record { t = t; v = v.value } ∷ [] in
      (
        slice_last-IsAscending max_points all
            (at_end t (record { t = t; v = v.value }) old refl a (weaken from t old le b)),
        IsBefore-slice_last (t + 1) max_points all (
            All-append (λ s. s.t < t + 1) old _ (weaken from (t + 1) old (omega arith) b)
              (omega arith, tt)),
      )

  pub on_snapshot-IsOrderedBefore :
      (from t : ℕ) (snapshot : List (VariableValue V)) (m : Monitor V)
      → from ≤ t
      → AreDistinct Str_discrete (names snapshot)
      → IsOrderedBefore from m
      → IsOrderedBefore (t + 1) (on_snapshot snapshot t m)
  unfolding on_snapshot
  on_snapshot-IsOrderedBefore from t snapshot m le d h name =
      elim (Bool-cases (has Str_discrete name (names snapshot))) [
        | inl e ↦
            let (v, a, same) =
              Among-map (λ (w : VariableValue V). w.name) name snapshot
                ((has-Among Str_discrete name (names snapshot)).0 e) in
            subst
              (λ k.
                IsAscending (samples_or_empty k (append_samples t snapshot m.history))
                × IsBefore (t + 1) (samples_or_empty k (append_samples t snapshot m.history)))
              same
              (rw (append_samples-present t v snapshot m.history d a)
                (extended-IsAscending from t v m le h))
        | inr e ↦ rw (append_samples-absent t name snapshot m.history e) (
          (h name).0,
          weaken from (t + 1) (samples_or_empty name m.history) (omega arith) (h name).1,
        )
      ]

  -- If the series ascend strictly, they do so after messages of the stream that come in the order of
  -- time, after the samples, each with different names.
  pub feed-IsAscending :
      (from : ℕ) (messages : List (ℕ × List (VariableValue V))) (m : Monitor V) (name : Str)
      → AreInOrder from messages
      → IsOrderedBefore from m
      → IsAscending (samples_or_empty name (feed messages m).history)
  feed-IsAscending from [] m name o h = (h name).0
  feed-IsAscending from ((t, snapshot) ∷ messages) m name o h =
      let (le, d, rest) = o in
      feed-IsAscending (t + 1) messages (on_snapshot snapshot t m) name rest
        (on_snapshot-IsOrderedBefore from t snapshot m le d h)
