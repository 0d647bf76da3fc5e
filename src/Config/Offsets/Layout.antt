-- ===== src/Config/Offsets/Layout.antt =====
-- The layout that `variable_offsets` gives.
use tstlan_web.Base.{
  ℕ, zero, suc, ◌+◌, ◌*◌, ◌/◌, ◌≤◌, ◌<◌, ◌≡◌, refl, ap, inl, inr, Bool, true, false, List, [], ◌∷◌,
  ◌++◌, map, Option, none, some, arith, leb, if◌then◌else◌, or_else, length, get_elem?,
  get_elem?-map, Bool-cases,
}
use tstlan_web.Api.{NetVarCType}
use tstlan_web.Config.{VariableDraft}
use tstlan_web.Config.Offsets.{
  is_bit, byte_size, VarOffset, first_bit, next_offset, current_offset, offsets_from,
  variable_offsets,
}

-- The description of the layout in bits: a bit stands at the cursor, any other variable at the next
-- whole byte.
abbrev pub size_bits : NetVarCType → ℕ
size_bits c = if is_bit c then 1 else 8 * byte_size c

abbrev pub start_bit : VarOffset → ℕ
start_bit o = 8 * o.byte + or_else o.bit 0

abbrev pub place : ℕ → NetVarCType → ℕ
place cursor c = if is_bit c then cursor else (cursor + 7) / 8 * 8

abbrev pub layout : ℕ → List VariableDraft → List ℕ
layout cursor [] = []
layout cursor (v ∷ vs) = place cursor v.ctype ∷ layout (place cursor v.ctype + size_bits v.ctype) vs

-- A bit has its number in the byte, any other variable has none.
abbrev pub IsShapedBit : Bool → Option ℕ → Type 0
IsShapedBit true (some b) = b < 8
IsShapedBit true none = ⊥
IsShapedBit false (some b) = ⊥
IsShapedBit false none = Unit

abbrev pub IsShaped : NetVarCType → VarOffset → Type 0
IsShaped c o = IsShapedBit (is_bit c) o.bit

byte_size_of_bit : (c : NetVarCType) → is_bit c ≡ true → byte_size c ≡ 1
unfolding is_bit byte_size
byte_size_of_bit NetVarCType.bit h = refl
byte_size_of_bit _ h = cc

first-IsShaped : (b : Bool) → IsShapedBit b (first_bit b)
first-IsShaped true = omega arith
first-IsShaped false = tt

next-IsShaped :
    (o : VarOffset) (c : NetVarCType) (p q : Bool)
    → is_bit c ≡ p
    → IsShapedBit p o.bit
    → IsShapedBit q (next_offset o c q).bit
unfolding next_offset
next-IsShaped o c false true e h = rw e (omega arith)
next-IsShaped o c false false e h = rw e tt
next-IsShaped o c true false e h = rw e tt
next-IsShaped o c true true e h = elim (Bool-cases (leb 7 (or_else o.bit 0))) [
  | inl full ↦ rw (e, full) (omega arith)
  | inr free ↦ rw (e, free) (ground arith)
]

next_offset-place :
    (o : VarOffset) (c d : NetVarCType)
    → IsShaped c o
    → start_bit (next_offset o c (is_bit d)) ≡ place (start_bit o + size_bits c) d
unfolding next_offset
next_offset-place o c d h = ground (arith, byte_size_of_bit c)

first-place :
    (c : NetVarCType) → start_bit (record { byte = 0; bit = first_bit (is_bit c) }) ≡ place 0 c
first-place c = ground arith

-- Each variable with its address: what holds of every such pair.
abbrev pub Each : (NetVarCType → VarOffset → Type 0) → List VariableDraft → List VarOffset → Type 0
Each P [] [] = Unit
Each P (v ∷ vs) (o ∷ os) = P v.ctype o × Each P vs os
Each P _ _ = ⊥

offsets_from-IsShaped :
    (o : VarOffset) (c : NetVarCType) (vs : List VariableDraft)
    → IsShaped c o
    → Each IsShaped vs (offsets_from (some o) (some c) vs)
unfolding offsets_from current_offset
offsets_from-IsShaped o c [] h = tt
offsets_from-IsShaped o c (v ∷ vs) h =
    let next = next-IsShaped o c (is_bit c) (is_bit v.ctype) refl h in
    (next, offsets_from-IsShaped (next_offset o c (is_bit v.ctype)) v.ctype vs next)

-- Exactly the variables of type bit have a bit number in their address, and it is below 8.
pub variable_offsets-IsShaped : (vs : List VariableDraft) → Each IsShaped vs (variable_offsets vs)
unfolding variable_offsets
variable_offsets-IsShaped [] = tt
variable_offsets-IsShaped (v ∷ vs) =
    let first = first-IsShaped (is_bit v.ctype) in
    (
      first,
      offsets_from-IsShaped (record { byte = 0; bit = first_bit (is_bit v.ctype) }) v.ctype vs
          first,
    )

offsets_from-layout :
    (o : VarOffset) (c : NetVarCType) (vs : List VariableDraft)
    → IsShaped c o
    → map start_bit (offsets_from (some o) (some c) vs) ≡ layout (start_bit o + size_bits c) vs
unfolding offsets_from current_offset
offsets_from-layout o c [] h = refl
offsets_from-layout o c (v ∷ vs) h =
    let next = next-IsShaped o c (is_bit c) (is_bit v.ctype) refl h in
    rw (← next_offset-place o c v.ctype h)
      (rw (offsets_from-layout (next_offset o c (is_bit v.ctype)) v.ctype vs next))

-- The addresses that the loop computes from the previous variable are those of the description by a
-- running bit cursor: bits are packed one after another, any other variable starts at a whole byte.
pub variable_offsets-layout :
    (vs : List VariableDraft) → map start_bit (variable_offsets vs) ≡ layout 0 vs
unfolding variable_offsets
variable_offsets-layout [] = refl
variable_offsets-layout (v ∷ vs) = rw (← first-place v.ctype) (
    rw (
      offsets_from-layout (record { byte = 0; bit = first_bit (is_bit v.ctype) }) v.ctype vs
        (first-IsShaped (is_bit v.ctype))))

le-place : (cursor : ℕ) (c : NetVarCType) → cursor ≤ place cursor c
le-place cursor c = ground arith

-- What stands at or behind the cursor in a layout.
le-layout :
    (cursor : ℕ) (vs : List VariableDraft) (j : ℕ) {s : ℕ}
    → get_elem? (layout cursor vs) j ≡ some s
    → cursor ≤ s
le-layout cursor [] j h = cc
le-layout cursor (v ∷ vs) zero h = ground (arith, le-place cursor v.ctype)
le-layout cursor (v ∷ vs) (suc j) {s} h =
    omega
      (arith, le-place cursor v.ctype, le-layout (place cursor v.ctype + size_bits v.ctype) vs j h)

layout_disjoint :
    (cursor : ℕ) (vs : List VariableDraft) (i j : ℕ) {v : VariableDraft} {s t : ℕ}
    → i < j
    → get_elem? vs i ≡ some v
    → get_elem? (layout cursor vs) i ≡ some s
    → get_elem? (layout cursor vs) j ≡ some t
    → s + size_bits v.ctype ≤ t
layout_disjoint cursor [] i j lt hv hs ht = cc
layout_disjoint cursor (w ∷ vs) i zero lt hv hs ht = absurd (omega arith)
layout_disjoint cursor (w ∷ vs) zero (suc j) {v} {s} {t} lt hv hs ht =
    ground (arith, le-layout (place cursor w.ctype + size_bits w.ctype) vs j ht)
layout_disjoint cursor (w ∷ vs) (suc i) (suc j) lt hv hs ht =
    layout_disjoint (place cursor w.ctype + size_bits w.ctype) vs i j (omega arith) hv hs ht

-- No two variables overlap: each ends, in bits, before every later one starts.
pub variable_offsets_disjoint :
    (vs : List VariableDraft) (i j : ℕ) {v : VariableDraft} {o p : VarOffset}
    → i < j
    → get_elem? vs i ≡ some v
    → get_elem? (variable_offsets vs) i ≡ some o
    → get_elem? (variable_offsets vs) j ≡ some p
    → start_bit o + size_bits v.ctype ≤ start_bit p
variable_offsets_disjoint vs i j lt hv ho hp =
    layout_disjoint 0 vs i j lt hv
      (rw (← variable_offsets-layout vs) (get_elem?-map start_bit _ i ho))
      (rw (← variable_offsets-layout vs) (get_elem?-map start_bit _ j hp))

offsets_from-append :
    (prev : Option VarOffset) (c : Option NetVarCType) (xs ys : List VariableDraft)
    → (rest : List VarOffset) × (offsets_from prev c (xs ++ ys) ≡ offsets_from prev c xs ++ rest)
unfolding offsets_from
offsets_from-append prev c [] ys = (offsets_from prev c ys, refl)
offsets_from-append prev c (x ∷ xs) ys =
    let cur = current_offset prev c (is_bit x.ctype) in
    let (rest, e) = offsets_from-append (some cur) (some x.ctype) xs ys in (rest, ap (◌∷◌ cur) e)

-- Variables added at the end leave the earlier addresses as they are.
pub variable_offsets-append :
    (xs ys : List VariableDraft)
    → (rest : List VarOffset) × (variable_offsets (xs ++ ys) ≡ variable_offsets xs ++ rest)
unfolding variable_offsets
variable_offsets-append xs ys = offsets_from-append none none xs ys

length-offsets_from :
    (prev : Option VarOffset) (c : Option NetVarCType) (vs : List VariableDraft)
    → length (offsets_from prev c vs) ≡ length vs
unfolding offsets_from
length-offsets_from prev c [] = refl
length-offsets_from prev c (v ∷ vs) =
    ap suc (length-offsets_from (some (current_offset prev c (is_bit v.ctype))) (some v.ctype) vs)

-- One address for each variable.
pub length-variable_offsets : (vs : List VariableDraft) → length (variable_offsets vs) ≡ length vs
unfolding variable_offsets
length-variable_offsets vs = length-offsets_from none none vs
