-- ===== src/Form/Rows.antt =====
-- What the edits of the list of variables do to the rows.
use tstlan_web.Base.{
  ℕ, zero, suc, ◌+◌, ◌≤◌, ◌<◌, ◌≡◌, refl, inl, inr, List, [], ◌∷◌, Option, none, some, arith, ltb,
  ◌==◌, if◌then◌else◌, get_elem?, Bool-cases,
}
use tstlan_web.Config.{VariableDraft}
use tstlan_web.Form.{update_from, update_at, remove_from, remove_at}

abbrev pub option_map {ℓ κ} : {A : Type ℓ} {B : Type κ} → (A → B) → Option A → Option B
option_map f none = none
option_map f (some a) = some (f a)

get_elem?-update_from :
    (position index : ℕ) (patch : VariableDraft → VariableDraft) (vs : List VariableDraft) (i : ℕ)
    → get_elem? (update_from position index patch vs) i
      ≡ (if position + i == index then option_map patch (get_elem? vs i) else get_elem? vs i)
unfolding update_from
get_elem?-update_from position index patch [] i = ground arith
get_elem?-update_from position index patch (v ∷ vs) zero = ground arith
get_elem?-update_from position index patch (v ∷ vs) (suc i) =
    let ih = get_elem?-update_from (suc position) index patch vs i in
    let e : suc position + i ≡ position + suc i = omega arith in
    elim (Bool-cases (position == index)) [
      | inl same ↦ rw same (rw e at ih)
      | inr same ↦ rw same (rw e at ih)
    ]

-- An update changes the row of its index by the patch, and no other.
pub get_elem?-update_at :
    (index : ℕ) (patch : VariableDraft → VariableDraft) (vs : List VariableDraft) (i : ℕ)
    → get_elem? (update_at index patch vs) i
      ≡ (if i == index then option_map patch (get_elem? vs i) else get_elem? vs i)
unfolding update_at
get_elem?-update_at index patch vs i =
    let e : 0 + i ≡ i = omega arith in rw e at (get_elem?-update_from 0 index patch vs i)

remove_from-past :
    (position index : ℕ) (vs : List VariableDraft)
    → index < position
    → remove_from position index vs ≡ vs
unfolding remove_from
remove_from-past position index [] h = refl
remove_from-past position index (v ∷ vs) h =
    let ih = remove_from-past (suc position) index vs (omega arith) in ground arith

get_elem?-remove_from :
    (position index : ℕ) (vs : List VariableDraft) (i : ℕ)
    → position ≤ index
    → get_elem? (remove_from position index vs) i
      ≡ (if ltb (position + i) index then get_elem? vs i else get_elem? vs (suc i))
unfolding remove_from
get_elem?-remove_from position index [] i h = ground arith
get_elem?-remove_from position index (v ∷ vs) zero h =
    let past = remove_from-past (suc position) index vs in
    elim (Bool-cases (position == index)) [
      | inl same ↦ rw (same, past (ground arith)) (ground arith)
      | inr same ↦ rw same (ground arith)
    ]
get_elem?-remove_from position index (v ∷ vs) (suc i) h =
    let past = remove_from-past (suc position) index vs in
    elim (Bool-cases (position == index)) [
      | inl same ↦ rw (same, past (ground arith)) (ground arith)
      | inr same ↦
          let ih = get_elem?-remove_from (suc position) index vs i (ground arith) in
          let e : suc position + i ≡ position + suc i = omega arith in rw same (rw e at ih)
    ]

-- A removal takes out the row of its index and keeps the others in their order.
pub get_elem?-remove_at :
    (index : ℕ) (vs : List VariableDraft) (i : ℕ)
    → get_elem? (remove_at index vs) i
      ≡ (if ltb i index then get_elem? vs i else get_elem? vs (suc i))
unfolding remove_at
get_elem?-remove_at index vs i =
    let e : 0 + i ≡ i = omega arith in rw e at (get_elem?-remove_from 0 index vs i (omega arith))
