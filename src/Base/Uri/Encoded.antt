-- ===== src/Base/Uri/Encoded.antt =====
-- Which texts are encoded, and the characters that an encoded text has.
use tstlan_web.Base.{
  ℕ, ◌/◌, ◌%◌, ◌<◌, ◌≡◌, refl, inl, inr, Bool, true, false, ◌&&◌, ◌||◌, not, List, [], ◌∷◌, ◌++◌,
  Option, none, some, arith, ◌==◌, All, some_eq, Bool-cases, Option-cases,
}
use tstlan_web.Base.Text.{Str}
use tstlan_web.Base.Uri.{
  is_high, is_low, pair_point, utf8, bytes_from, is_unreserved, hex, escape, encode_uri_component,
}
use tstlan_web.Base.Uri.Decoding.{text-bytes}

-- The characters that an encoded text has.
abbrev pub IsSegment : Str → Type 0
IsSegment = All (λ c. (is_unreserved c || c == 37) ≡ true)

hex-unreserved : (d : ℕ) → d < 16 → is_unreserved (hex d) ≡ true
unfolding is_unreserved
hex-unreserved d h = ground arith

escape-IsSegment : (bytes : List ℕ) → All (λ b. b < 256) bytes → IsSegment (escape bytes)
unfolding escape is_unreserved
escape-IsSegment [] h = tt
escape-IsSegment (b ∷ bytes) (small, h) = elim (Bool-cases (is_unreserved b)) [
  | inl e ↦ rw e (rw e refl, escape-IsSegment bytes h)
  | inr e ↦ rw e (
    refl,
    (
      rw (hex-unreserved (b / 16) (omega arith)) refl,
      (rw (hex-unreserved (b % 16) (omega arith)) refl, escape-IsSegment bytes h),
    ),
  )
]

-- What `encodeURIComponent` returns has unreserved characters and percent signs only.
pub encode-IsSegment :
    (s : Str) {x : Str} → All (λ c. c < 0x10000) s → encode_uri_component s ≡ some x → IsSegment x
unfolding encode_uri_component
encode-IsSegment s {x} a h = elim (Option-cases (bytes_from none s)) [
  | inl e ↦ let bad : ◌≡◌ {A = Option Str} none (some x) = rw e at h in absurd (cc)
  | inr (bytes, e) ↦
      let same = some_eq {x = escape bytes} (rw e at h) in
      rw (← same) (escape-IsSegment bytes (text-bytes none s tt a e).1)
]

abbrev pub same_test : Bool → Bool → Bool
same_test true b = b
same_test false b = not b

-- Every unit is the second half of a pair exactly if the unit before is a first half; `after_high` is
-- whether one stands before the text.
abbrev pub is_paired : Bool → Str → Bool
is_paired after_high [] = not after_high
is_paired after_high (c ∷ s) = same_test (is_low c) after_high && is_paired (is_high c) s

-- UTF-16 without a surrogate that lacks its other half.
abbrev pub IsPaired : Str → Type 0
IsPaired s = is_paired false s ≡ true

abbrev is_pending : Option ℕ → Bool
is_pending none = false
is_pending (some _) = true

paired_parts :
    (low after_high rest : Bool)
    → (same_test low after_high && rest) ≡ true
    → (low ≡ after_high) × (rest ≡ true)
paired_parts true true rest h = (refl, h)
paired_parts true false rest h = absurd (cc)
paired_parts false true rest h = absurd (cc)
paired_parts false false rest h = (refl, h)

low_is_not_high : (c : ℕ) → is_low c ≡ true → is_high c ≡ false
low_is_not_high c h = ground arith

bytes_exist :
    (p : Option ℕ) (s : Str)
    → is_paired (is_pending p) s ≡ true
    → (bytes : List ℕ) × (bytes_from p s ≡ some bytes)
unfolding bytes_from
bytes_exist none [] h = ([], refl)
bytes_exist (some high) [] h = absurd (cc)
bytes_exist none (c ∷ s) h =
    let (single, rest) = paired_parts (is_low c) false (is_paired (is_high c) s) h in
    elim (Bool-cases (is_high c)) [
      | inl e ↦ let (bytes, b) = bytes_exist (some c) s (rw e at rest) in (bytes, rw e b)
      | inr e ↦
          let (bytes, b) = bytes_exist none s (rw e at rest) in
          (utf8 c ++ bytes, rw (e, single, b) refl)
    ]
bytes_exist (some high) (c ∷ s) h =
    let (second, rest) = paired_parts (is_low c) true (is_paired (is_high c) s) h in
    let (bytes, b) = bytes_exist none s (rw (low_is_not_high c second) at rest) in
    (utf8 (pair_point high c) ++ bytes, rw (second, b) refl)

-- Text without a lone surrogate is encoded.
pub encode-some : (s : Str) → IsPaired s → (x : Str) × (encode_uri_component s ≡ some x)
unfolding encode_uri_component
encode-some s h = let (bytes, e) = bytes_exist none s h in (escape bytes, rw e refl)
