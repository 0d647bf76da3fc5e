-- ===== src/Base/Uri/Decoding.antt =====
-- An escaped text is decoded again.
use tstlan_web.Base.{
  ℕ, zero, ◌+◌, ◌-◌, ◌*◌, ◌/◌, ◌%◌, ◌<◌, ◌≡◌, ◌≢◌, refl, ap, ◌∙◌, inl, inr, true, List, [], ◌∷◌,
  ◌++◌, Option, none, some, arith, ltb, ◌==◌, if◌then◌else◌, All, some_eq, Bool-cases, Option-cases,
}
use tstlan_web.Base.Text.{Str}
use tstlan_web.Base.Uri.{
  is_high, is_low, pair_point, utf8, after, bytes_from, is_unreserved, hex, escape,
  encode_uri_component,
}
use tstlan_web.Base.Uri.Utf8.{text_from, lt_true, units_pair, utf8-step}

-- The value of a digit of base 16.
abbrev unhex : ℕ → ℕ
unhex d = if ltb d 58 then d - 48 else d - 55

-- The bytes of an escaped text.
unfoldable pub unescape : Str → List ℕ
unescape [] = []
unescape (c ∷ []) = c ∷ []
unescape (c ∷ a ∷ []) = c ∷ a ∷ []
unescape (c ∷ a ∷ b ∷ s) =
    let plain = unescape (a ∷ b ∷ s) in
    let rest = unescape s in if c == 37 then (unhex a * 16 + unhex b) ∷ rest else c ∷ plain

unfoldable pub decode_uri_component : Str → Str
unfolding unescape text_from
decode_uri_component s = text_from zero 0 (unescape s)

hex-value : (d : ℕ) → d < 16 → unhex (hex d) ≡ d
hex-value d h = ground arith

unescape-plain : (c : ℕ) (s : Str) → c ≢ 37 → unescape (c ∷ s) ≡ c ∷ unescape s
unfolding unescape
unescape-plain c [] h = refl
unescape-plain c (a ∷ []) h = refl
unescape-plain c (a ∷ b ∷ s) h = ground arith

unescape-escape : (bytes : List ℕ) → All (λ b. b < 256) bytes → unescape (escape bytes) ≡ bytes
unfolding unescape escape is_unreserved
unescape-escape [] h = refl
unescape-escape (b ∷ bytes) (small, h) = elim (Bool-cases (is_unreserved b)) [
  | inl e ↦ rw e (
      unescape-plain b (escape bytes)
        (λ same. let bad : is_unreserved 37 ≡ true = rw same at e in cc)
      ∙ ap (λ bs. b ∷ bs) (unescape-escape bytes h))
  | inr e ↦
      rw (e, hex-value (b / 16) (omega arith), hex-value (b % 16) (omega arith))
        (ap (λ n. n ∷ unescape (escape bytes)) (omega arith)
          ∙ ap (λ bs. b ∷ bs) (unescape-escape bytes h))
]

after-some :
    (xs : List ℕ) (o : Option (List ℕ)) {ys : List ℕ}
    → after xs o ≡ some ys
    → (more : List ℕ) × (o ≡ some more) × (xs ++ more ≡ ys)
after-some xs none h = absurd (cc)
after-some xs (some more) h = (more, refl, some_eq h)

abbrev pending : Option ℕ → Str
pending none = []
pending (some high) = high ∷ []

abbrev IsPending : Option ℕ → Type 0
IsPending none = Unit
IsPending (some high) = is_high high ≡ true

-- The bytes of a text are bytes, and are read as the text.
pub text-bytes :
    (p : Option ℕ) (s : Str) {bytes : List ℕ}
    → IsPending p
    → All (λ c. c < 0x10000) s
    → bytes_from p s ≡ some bytes
    → (text_from zero 0 bytes ≡ pending p ++ s) × All (λ b. b < 256) bytes
unfolding bytes_from text_from
text-bytes none [] i a h = let same = some_eq h in rw (← same) (refl, tt)
text-bytes (some high) [] i a h = absurd (cc)
text-bytes none (c ∷ s) {bytes} i a h = elim (Bool-cases (is_high c)) [
  | inl e ↦ text-bytes (some c) s e a.1 (rw e at h)
  | inr e ↦ elim (Bool-cases (is_low c)) [
    | inl f ↦ let bad : ◌≡◌ {A = Option (List ℕ)} none (some bytes) = rw (e, f) at h in absurd (cc)
    | inr f ↦
        let (more, rest, same) = after-some (utf8 c) (bytes_from none s) (rw (e, f) at h) in
        let below : c < 0x10000 = a.0 in
        let read = text-bytes none s tt a.1 rest in
        utf8-step c (c ∷ []) s more bytes (rw (lt_true c 0x10000 below) refl) (omega arith) same
          read.0 read.1
  ]
]
text-bytes (some high) (c ∷ s) {bytes} i a h = elim (Bool-cases (is_low c)) [
  | inl f ↦
      let (more, rest, same) =
        after-some (utf8 (pair_point high c)) (bytes_from none s) (rw f at h) in
      let (pair, below) = units_pair high c i f in
      let read = text-bytes none s tt a.1 rest in
      utf8-step (pair_point high c) (high ∷ c ∷ []) s more bytes pair below same read.0 read.1
  | inr f ↦ let bad : ◌≡◌ {A = Option (List ℕ)} none (some bytes) = rw f at h in absurd (cc)
]

-- A text of UTF-16 that `encodeURIComponent` takes is decoded again from what it returns.
pub decode-encode :
    (s : Str) {x : Str}
    → All (λ c. c < 0x10000) s
    → encode_uri_component s ≡ some x
    → decode_uri_component x ≡ s
unfolding encode_uri_component decode_uri_component
decode-encode s {x} a h = elim (Option-cases (bytes_from none s)) [
  | inl e ↦ let bad : ◌≡◌ {A = Option Str} none (some x) = rw e at h in absurd (cc)
  | inr (bytes, e) ↦
      let same = some_eq {x = escape bytes} (rw e at h) in
      let (text, small) = text-bytes none s tt a e in
      rw (← same) (ap (text_from zero 0) (unescape-escape bytes small) ∙ text)
]
