-- ===== src/Base/Uri.antt =====
-- `encodeURIComponent` of the language: UTF-16 text, its UTF-8 bytes, and their percent escapes.
pub mod Utf8
pub mod Decoding
pub mod Encoded
use tstlan_web.Base.{
  ℕ, zero, suc, ◌+◌, ◌-◌, ◌*◌, ◌/◌, ◌%◌, ◌^◌, ◌≤◌, ◌<◌, ◌≡◌, ◌≢◌, refl, ap, sym, ◌∙◌, ◌↔◌, ◌⊎◌, inl,
  inr, Bool, true, false, ◌&&◌, ◌||◌, not, List, [], ◌∷◌, ◌++◌, map, append-nil, append_assoc,
  Option, none, some, arith, ltb, leb, ◌==◌, if◌then◌else◌, ltb→lt, lt→ltb, leb→le, le→leb, or_else,
  All, All-append, length, some_eq, Bool-cases, Option-cases, ite,
}
use tstlan_web.Base.Text.{Str, codes}

-- The first half of a pair of surrogates, and the second.
abbrev pub is_high : ℕ → Bool
is_high c = leb 0xd800 c && ltb c 0xdc00

abbrev pub is_low : ℕ → Bool
is_low c = leb 0xdc00 c && ltb c 0xe000

abbrev pub pair_point : ℕ → ℕ → ℕ
pair_point high low = 0x10000 + (high - 0xd800) * 1024 + (low - 0xdc00)

-- The bytes of a code point in UTF-8.
unfoldable pub utf8 : ℕ → List ℕ
utf8 c =
    if ltb c 0x80
    then c ∷ []
    else if ltb c 0x800
    then (0xc0 + c / 64) ∷ (0x80 + c % 64) ∷ []
    else if ltb c 0x10000
    then (0xe0 + c / 4096) ∷ (0x80 + c / 64 % 64) ∷ (0x80 + c % 64) ∷ []
    else (0xf0 + c / 262144) ∷ (0x80 + c / 4096 % 64) ∷ (0x80 + c / 64 % 64) ∷ (0x80 + c % 64) ∷ []

abbrev pub after : List ℕ → Option (List ℕ) → Option (List ℕ)
after bytes none = none
after bytes (some more) = some (bytes ++ more)

-- The bytes of a text; a surrogate without its other half is an error.
unfoldable pub bytes_from : Option ℕ → Str → Option (List ℕ)
unfolding utf8
bytes_from none [] = some []
bytes_from (some high) [] = none
bytes_from none (c ∷ s) =
    let pair = bytes_from (some c) s in
    let rest = bytes_from none s in
    if is_high c then pair else if is_low c then none else after (utf8 c) rest
bytes_from (some high) (c ∷ s) =
    let rest = bytes_from none s in if is_low c then after (utf8 (pair_point high c)) rest else none

-- Letters, digits and `-_.!~*'()`
unfoldable pub is_unreserved : ℕ → Bool
is_unreserved c =
    (leb 97 c && leb c 122)
    || (leb 65 c && leb c 90)
    || (leb 48 c && leb c 57)
    || c == 45
    || c == 95
    || c == 46
    || c == 33
    || c == 126
    || c == 42
    || (leb 39 c && leb c 41)

-- A digit of base 16.
abbrev pub hex : ℕ → ℕ
hex d = if ltb d 10 then 48 + d else 55 + d

unfoldable pub escape : List ℕ → Str
unfolding is_unreserved
escape [] = []
escape (b ∷ bytes) =
    let rest = escape bytes in
    if is_unreserved b then b ∷ rest else 37 ∷ hex (b / 16) ∷ hex (b % 16) ∷ rest

abbrev pub escaped : Option (List ℕ) → Option Str
escaped none = none
escaped (some bytes) = some (escape bytes)

-- `encodeURIComponent(s)`, which throws on a surrogate without its other half.
unfoldable pub encode_uri_component : Str → Option Str
unfolding bytes_from escape
encode_uri_component s = escaped (bytes_from none s)

encoded : encode_uri_component (codes "a/b й") ≡ some (codes "a%2Fb%20%D0%B9")
unfolding encode_uri_component utf8
encoded = refl

lone_surrogate : encode_uri_component (0xd83d ∷ 97 ∷ []) ≡ none
unfolding encode_uri_component
lone_surrogate = refl
