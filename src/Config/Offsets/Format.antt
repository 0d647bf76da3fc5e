-- ===== src/Config/Offsets/Format.antt =====
-- The text of an address: `formatOffset` of web/tstlan-web/lib/configs.ts.
use tstlan_web.Base.{
  ℕ, ◌≡◌, refl, ap, sym, ◌∙◌, [], ◌∷◌, ◌++◌, Option, none, some, arith, ◌==◌, if◌then◌else◌,
}
use tstlan_web.Base.Text.{Str}
use tstlan_web.Base.Number.Decimal.{
  decimal, value, decimal_lem, digit_plain, IsDigits, IsDigits-of_all_digits,
}
use tstlan_web.Config.Offsets.{VarOffset, bit_text, format_offset}

-- The part of a text before its first minus sign, and the part behind it.
before : Str → Str
before [] = []
before (c ∷ s) = if c == b'-' then [] else c ∷ before s

behind : Str → Option Str
behind [] = none
behind (c ∷ s) = if c == b'-' then some s else behind s

before-digits : (s t : Str) → IsDigits s → before (s ++ b'-' ∷ t) ≡ s
unfolding before
before-digits [] t h = refl
before-digits (c ∷ s) t h = ground (arith, digit_plain c h.0, before-digits s t h.1)

before-digits_alone : (s : Str) → IsDigits s → before (s ++ []) ≡ s
unfolding before
before-digits_alone [] h = refl
before-digits_alone (c ∷ s) h = ground (arith, digit_plain c h.0, before-digits_alone s h.1)

behind-digits : (s t : Str) → IsDigits s → behind (s ++ b'-' ∷ t) ≡ some t
unfolding behind
behind-digits [] t h = refl
behind-digits (c ∷ s) t h = ground (arith, digit_plain c h.0, behind-digits s t h.1)

behind-digits_alone : (s : Str) → IsDigits s → behind (s ++ []) ≡ none
unfolding behind
behind-digits_alone [] h = refl
behind-digits_alone (c ∷ s) h = ground (arith, digit_plain c h.0, behind-digits_alone s h.1)

read_bit : Option Str → Option ℕ
read_bit none = none
read_bit (some s) = some (value 0 s)

-- Reading back what `format_offset` prints.
pub read_offset : Str → VarOffset
read_offset s = record { byte = value 0 (before s); bit = read_bit (behind s) }

IsDigits-decimal : (n : ℕ) → IsDigits (decimal n)
IsDigits-decimal n = IsDigits-of_all_digits _ (decimal_lem n).0

read-bytes : (n : ℕ) (o : Option ℕ) → value 0 (before (decimal n ++ bit_text o)) ≡ n
read-bytes n none = rw (before-digits_alone _ (IsDigits-decimal n)) (decimal_lem n).1
read-bytes n (some b) = rw (before-digits _ _ (IsDigits-decimal n)) (decimal_lem n).1

read-bits : (n : ℕ) (o : Option ℕ) → read_bit (behind (decimal n ++ bit_text o)) ≡ o
unfolding read_bit
read-bits n none = rw (behind-digits_alone _ (IsDigits-decimal n))
read-bits n (some b) = rw (behind-digits _ _ (IsDigits-decimal n)) (ap some (decimal_lem b).1)

-- Every address is read back from its text: a byte number, or a byte and a bit number.
pub read_offset-format_offset : (o : VarOffset) → read_offset (format_offset o) ≡ o
unfolding read_offset format_offset
read_offset-format_offset o =
    λ i. record { byte = read-bytes o.byte o.bit i; bit = read-bits o.byte o.bit i }

-- Two addresses with the same text are the same.
pub format_offset_injective : (o p : VarOffset) → format_offset o ≡ format_offset p → o ≡ p
format_offset_injective o p h =
    sym (read_offset-format_offset o) ∙ ap read_offset h ∙ read_offset-format_offset p
