-- ===== src/Base/Text.antt =====
-- JavaScript strings as lists of UTF-16 code units: `trim`, equality, literals.
use Prim.Native.Char.{code}
use Prim.Native.String.{String}
use tstlan_web.Base.{
  ℕ, ◌≡◌, refl, inl, inr, Bool, true, false, ◌&&◌, ◌||◌, List, [], ◌∷◌, leb, ◌==◌, if◌then◌else◌,
  All, ℕ_discrete, Bool-cases,
}

abbrev pub Str : Type 0
Str = List ℕ

-- The code units of a literal, whose characters are all in the basic plane.
abbrev pub codes : String → Str
codes String.[] = []
codes (String.◌∷◌ c s) = code c ∷ codes s

cons_discrete : (c d : ℕ) (s t : Str) → Dec (c ≡ d) → Dec (s ≡ t) → Dec (c ∷ s ≡ d ∷ t)
cons_discrete c d s t (yes p) (yes q) = yes (cc)
cons_discrete c d s t (no p) q = no (λ e. p (cc))
cons_discrete c d s t (yes p) (no q) = no (λ e. q (cc))

unfoldable pub Str_discrete : Discrete Str
unfolding cons_discrete ℕ_discrete
Str_discrete [] [] = yes refl
Str_discrete [] (d ∷ t) = no (λ e. cc)
Str_discrete (c ∷ s) [] = no (λ e. cc)
Str_discrete (c ∷ s) (d ∷ t) = cons_discrete c d s t (ℕ_discrete c d) (Str_discrete s t)

-- What `String.prototype.trim` removes: WhiteSpace and LineTerminator of the language.
unfoldable pub is_space : ℕ → Bool
is_space c =
    (leb 9 c && leb c 13)
    || c == 32
    || c == 0xa0
    || c == 0x1680
    || (leb 0x2000 c && leb c 0x200a)
    || c == 0x2028
    || c == 0x2029
    || c == 0x202f
    || c == 0x205f
    || c == 0x3000
    || c == 0xfeff

trim_start : Str → Str
trim_start [] = []
trim_start (c ∷ s) = if is_space c then trim_start s else c ∷ s

-- A space is kept if text stands behind it.
keep_before : ℕ → Str → Str
keep_before c [] = if is_space c then [] else c ∷ []
keep_before c (d ∷ s) = c ∷ d ∷ s

trim_end : Str → Str
trim_end [] = []
trim_end (c ∷ s) = keep_before c (trim_end s)

unfoldable pub trim : Str → Str
unfolding trim_start trim_end keep_before is_space
trim s = trim_end (trim_start s)

-- `s === ""`
abbrev pub is_empty : Str → Bool
is_empty [] = true
is_empty (_ ∷ _) = false

abbrev pub NoSpace : Str → Type 0
NoSpace = All (λ c. is_space c ≡ false)

trim_start_of_NoSpace : (s : Str) → NoSpace s → trim_start s ≡ s
unfolding trim_start
trim_start_of_NoSpace [] h = refl
trim_start_of_NoSpace (c ∷ s) h = rw h.0

trim_end_of_NoSpace : (s : Str) → NoSpace s → trim_end s ≡ s
unfolding trim_end keep_before
trim_end_of_NoSpace [] h = refl
trim_end_of_NoSpace (c ∷ s) h = rw (trim_end_of_NoSpace s h.1) (last s)
  where
    last : (t : Str) → keep_before c t ≡ c ∷ t
    last [] = rw h.0
    last (d ∷ t) = refl

-- A text without spaces is its own trim.
pub trim_of_NoSpace : (s : Str) → NoSpace s → trim s ≡ s
trim_of_NoSpace s h = unfold trim in rw (trim_start_of_NoSpace s h) (trim_end_of_NoSpace s h)

-- The first character of a trimmed text is no space.
abbrev StartsPlain : Str → Type 0
StartsPlain [] = Unit
StartsPlain (c ∷ _) = is_space c ≡ false

trim_start-StartsPlain : (s : Str) → StartsPlain (trim_start s)
unfolding trim_start
trim_start-StartsPlain [] = tt
trim_start-StartsPlain (c ∷ s) = elim (Bool-cases (is_space c)) [
  | inl e ↦ rw e (trim_start-StartsPlain s)
  | inr e ↦ rw e e
]

trim_start_of_StartsPlain : (s : Str) → StartsPlain s → trim_start s ≡ s
unfolding trim_start
trim_start_of_StartsPlain [] h = refl
trim_start_of_StartsPlain (c ∷ s) h = rw h

keep_before-StartsPlain : (c : ℕ) (s : Str) → is_space c ≡ false → StartsPlain (keep_before c s)
unfolding keep_before
keep_before-StartsPlain c [] h = rw h h
keep_before-StartsPlain c (d ∷ s) h = h

trim_end-StartsPlain : (s : Str) → StartsPlain s → StartsPlain (trim_end s)
unfolding trim_end
trim_end-StartsPlain [] h = tt
trim_end-StartsPlain (c ∷ s) h = keep_before-StartsPlain c (trim_end s) h

trim_end-keep_before :
    (c : ℕ) (s : Str) → trim_end s ≡ s → trim_end (keep_before c s) ≡ keep_before c s
unfolding trim_end keep_before
trim_end-keep_before c [] h = elim (Bool-cases (is_space c)) [
  | inl e ↦ rw e refl
  | inr e ↦ rw e (rw e refl)
]
trim_end-keep_before c (d ∷ s) h = rw h

trim_end_idempotent : (s : Str) → trim_end (trim_end s) ≡ trim_end s
unfolding trim_end
trim_end_idempotent [] = refl
trim_end_idempotent (c ∷ s) = trim_end-keep_before c (trim_end s) (trim_end_idempotent s)

-- Trimming twice is trimming once.
pub trim_idempotent : (s : Str) → trim (trim s) ≡ trim s
trim_idempotent s =
    unfold trim in
    rw (trim_start_of_StartsPlain _ (trim_end-StartsPlain _ (trim_start-StartsPlain s)))
      (trim_end_idempotent (trim_start s))

trim_padded : trim (codes "  a b ") ≡ codes "a b"
unfolding trim
trim_padded = refl
