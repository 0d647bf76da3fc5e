-- ===== src/Base/Uri/Utf8.antt =====
-- The bytes of a code point in UTF-8 are read as its UTF-16 units.
use tstlan_web.Base.{
  ℕ, zero, suc, ◌+◌, ◌-◌, ◌*◌, ◌/◌, ◌%◌, ◌≤◌, ◌<◌, ◌≡◌, ap, ◌∙◌, inl, inr, true, false, List, [],
  ◌∷◌, ◌++◌, arith, ltb, if◌then◌else◌, ltb→lt, All, All-append, Bool-cases,
}
use tstlan_web.Base.Text.{Str}
use tstlan_web.Base.Uri.{is_high, is_low, pair_point, utf8}

-- The code units of a code point.
abbrev pub units : ℕ → Str
units c =
    if ltb c 0x10000
    then c ∷ []
    else (0xd800 + (c - 0x10000) / 1024) ∷ (0xdc00 + (c - 0x10000) % 1024) ∷ []

-- The text of bytes in UTF-8, of which `n` belong to a code point that starts with `c`.
unfoldable pub text_from : ℕ → ℕ → List ℕ → Str
text_from n c [] = []
text_from zero c (b ∷ bytes) =
    let one = text_from zero 0 bytes in
    let two = text_from 1 (b - 0xc0) bytes in
    let three = text_from 2 (b - 0xe0) bytes in
    let four = text_from 3 (b - 0xf0) bytes in
    if ltb b 0x80 then b ∷ one else if ltb b 0xe0 then two else if ltb b 0xf0 then three else four
text_from (suc zero) c (b ∷ bytes) = units (c * 64 + (b - 0x80)) ++ text_from zero 0 bytes
text_from (suc (suc n)) c (b ∷ bytes) = text_from (suc n) (c * 64 + (b - 0x80)) bytes

pub lt_true : (a b : ℕ) → a < b → ltb a b ≡ true
lt_true a b h = ground arith

pub lt_false : (a b : ℕ) → b ≤ a → ltb a b ≡ false
lt_false a b h = ground arith

lead_one :
    (c b : ℕ) (bytes : List ℕ)
    → b < 0x80
    → text_from zero c (b ∷ bytes) ≡ b ∷ text_from zero 0 bytes
unfolding text_from
lead_one c b bytes h = ground arith

lead_two :
    (c d : ℕ) (bytes : List ℕ)
    → d < 0x20
    → text_from zero c ((0xc0 + d) ∷ bytes) ≡ text_from 1 d bytes
unfolding text_from
lead_two c d bytes h =
    rw (lt_false (0xc0 + d) 0x80 (omega arith), lt_true (0xc0 + d) 0xe0 (omega arith))
      (ap (λ n. text_from 1 n bytes) (omega arith))

lead_three :
    (c d : ℕ) (bytes : List ℕ)
    → d < 0x10
    → text_from zero c ((0xe0 + d) ∷ bytes) ≡ text_from 2 d bytes
unfolding text_from
lead_three c d bytes h =
    rw
      (
        lt_false (0xe0 + d) 0x80 (omega arith),
        lt_false (0xe0 + d) 0xe0 (omega arith),
        lt_true (0xe0 + d) 0xf0 (omega arith),
      )
      (ap (λ n. text_from 2 n bytes) (omega arith))

lead_four : (c d : ℕ) (bytes : List ℕ) → text_from zero c ((0xf0 + d) ∷ bytes) ≡ text_from 3 d bytes
unfolding text_from
lead_four c d bytes =
    rw
      (
        lt_false (0xf0 + d) 0x80 (omega arith),
        lt_false (0xf0 + d) 0xe0 (omega arith),
        lt_false (0xf0 + d) 0xf0 (omega arith),
      )
      (ap (λ n. text_from 3 n bytes) (omega arith))

joined_two : (c : ℕ) → c / 64 * 64 + ((0x80 + c % 64) - 0x80) ≡ c
joined_two c = omega arith

joined_three :
    (c : ℕ) → (c / 4096 * 64 + ((0x80 + c / 64 % 64) - 0x80)) * 64 + ((0x80 + c % 64) - 0x80) ≡ c
joined_three c = omega arith

joined_four :
    (c : ℕ)
    → ((c / 262144 * 64 + ((0x80 + c / 4096 % 64) - 0x80)) * 64 + ((0x80 + c / 64 % 64) - 0x80))
          * 64
        + ((0x80 + c % 64) - 0x80)
      ≡ c
joined_four c = omega arith

-- The bytes of a code point are read as its units.
pub text-utf8 :
    (c : ℕ) (bytes : List ℕ)
    → c < 0x110000
    → text_from zero 0 (utf8 c ++ bytes) ≡ units c ++ text_from zero 0 bytes
unfolding text_from utf8
text-utf8 c bytes h = elim (Bool-cases (ltb c 0x80)) [
  | inl e ↦
      let small : c < 0x80 = ltb→lt c 0x80 e in
      rw (e, lt_true c 0x10000 (omega arith)) (lead_one 0 c bytes small)
  | inr e ↦ elim (Bool-cases (ltb c 0x800)) [
    | inl f ↦
        let small : c < 0x800 = ltb→lt c 0x800 f in
        rw (e, f)
          (lead_two 0 (c / 64) ((0x80 + c % 64) ∷ bytes) (omega arith)
            ∙ ap (λ n. units n ++ text_from zero 0 bytes) (joined_two c))
    | inr f ↦ elim (Bool-cases (ltb c 0x10000)) [
      | inl g ↦
          let small : c < 0x10000 = ltb→lt c 0x10000 g in
          rw
            (
              e,
              f,
              ap
                  (λ b.
                    if b
                    then (0xe0 + c / 4096) ∷ (0x80 + c / 64 % 64) ∷ (0x80 + c % 64) ∷ []
                    else (0xf0 + c / 262144)
                      ∷ (0x80 + c / 4096 % 64)
                      ∷ (0x80 + c / 64 % 64)
                      ∷ (0x80 + c % 64)
                      ∷ [])
                  g,
            )
            (lead_three 0 (c / 4096) ((0x80 + c / 64 % 64) ∷ (0x80 + c % 64) ∷ bytes) (omega arith)
              ∙ ap (λ n. units n ++ text_from zero 0 bytes) (joined_three c))
      | inr g ↦
          rw
            (
              e,
              f,
              ap
                  (λ b.
                    if b
                    then (0xe0 + c / 4096) ∷ (0x80 + c / 64 % 64) ∷ (0x80 + c % 64) ∷ []
                    else (0xf0 + c / 262144)
                      ∷ (0x80 + c / 4096 % 64)
                      ∷ (0x80 + c / 64 % 64)
                      ∷ (0x80 + c % 64)
                      ∷ [])
                  g,
            )
            (lead_four 0 (c / 262144)
                ((0x80 + c / 4096 % 64) ∷ (0x80 + c / 64 % 64) ∷ (0x80 + c % 64) ∷ bytes)
              ∙ ap (λ n. units n ++ text_from zero 0 bytes) (joined_four c))
    ]
  ]
]

pub utf8_small : (c : ℕ) → c < 0x110000 → All (λ b. b < 256) (utf8 c)
unfolding utf8
utf8_small c h = elim (Bool-cases (ltb c 0x80)) [
  | inl e ↦ let low : c < 0x80 = ltb→lt c 0x80 e in rw e (omega arith, tt)
  | inr e ↦ elim (Bool-cases (ltb c 0x800)) [
    | inl f ↦ let low : c < 0x800 = ltb→lt c 0x800 f in rw (e, f) (omega arith, (omega arith, tt))
    | inr f ↦ elim (Bool-cases (ltb c 0x10000)) [
      | inl g ↦
          let low : c < 0x10000 = ltb→lt c 0x10000 g in
          rw (e, f, g) (omega arith, (omega arith, (omega arith, tt)))
      | inr g ↦ rw (e, f, g) (omega arith, (omega arith, (omega arith, (omega arith, tt))))
    ]
  ]
]

pub units_pair :
    (high low : ℕ)
    → is_high high ≡ true
    → is_low low ≡ true
    → (units (pair_point high low) ≡ high ∷ low ∷ []) × (pair_point high low < 0x110000)
units_pair high low h l =
    let high_from : 0xd800 ≤ high = ground arith in
    let high_below : high < 0xdc00 = ground arith in
    let low_from : 0xdc00 ≤ low = ground arith in
    let low_below : low < 0xe000 = ground arith in
    let first : 0xd800 + (pair_point high low - 0x10000) / 1024 ≡ high = omega arith in
    let second : 0xdc00 + (pair_point high low - 0x10000) % 1024 ≡ low = omega arith in
    (
      rw (lt_false (pair_point high low) 0x10000 (omega arith)) (λ i. first i ∷ second i ∷ []),
      omega arith,
    )

-- One code point more at the front of bytes that are read as a text.
pub utf8-step :
    (c : ℕ) (us s : Str) (more bytes : List ℕ)
    → units c ≡ us
    → c < 0x110000
    → utf8 c ++ more ≡ bytes
    → text_from zero 0 more ≡ s
    → All (λ b. b < 256) more
    → (text_from zero 0 bytes ≡ us ++ s) × All (λ b. b < 256) bytes
utf8-step c us s more bytes u h same text small = rw (← same) (
  text-utf8 c more h ∙ (λ i. u i ++ text i),
  All-append (λ b. b < 256) (utf8 c) more (utf8_small c h) small,
)
