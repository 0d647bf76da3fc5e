-- ===== src/Config/Validate/Variables.antt =====
-- The checks of the names of the variables of a form.
use tstlan_web.Base.{
  ℕ, zero, suc, ◌<◌, ◌≡◌, ◌≢◌, refl, ◌↔◌, false, List, [], ◌∷◌, Option, none, some, arith,
  get_elem?, some_eq,
}
use tstlan_web.Base.Text.{Str, Str_discrete, trim}
use tstlan_web.Base.Record.{has, add, has-add}
use tstlan_web.Config.{VariableDraft}
use tstlan_web.Config.Validate.{report, variable_error, variable_errors, validate_variables}

-- No name is empty or among those seen before it, by recursion along the list.
abbrev Fresh : List Str → List VariableDraft → Type 0
Fresh seen [] = Unit
Fresh seen (v ∷ vs) =
    (trim v.name ≢ [])
    × (has Str_discrete (trim v.name) seen ≡ false)
    × Fresh (add Str_discrete (trim v.name) seen) vs

variable_error_iff :
    (seen : List Str) (name : Str)
    → (variable_error seen name ≡ none) ↔ ((name ≢ []) × (has Str_discrete name seen ≡ false))
unfolding variable_error
variable_error_iff seen [] = ground arith
variable_error_iff seen (c ∷ name) = ground arith

report-nil :
    (n : ℕ) (o : Option Str) (rest : List (ℕ × Str))
    → (report n o rest ≡ []) ↔ ((o ≡ none) × (rest ≡ []))
report-nil n none rest = (λ h. (refl, h), λ h. h.1)
report-nil n (some m) rest = (λ h. cc, λ h. absurd (cc (h.0)))

Fresh-iff :
    (position : ℕ) (seen : List Str) (vs : List VariableDraft)
    → (variable_errors position seen vs ≡ []) ↔ Fresh seen vs
unfolding variable_errors
Fresh-iff position seen [] = (λ h. tt, λ h. refl)
Fresh-iff position seen (v ∷ vs) =
    let name = trim v.name in
    let ih = Fresh-iff (suc position) (add Str_discrete name seen) vs in
    let r =
      report-nil position (variable_error seen name)
        (variable_errors (suc position) (add Str_discrete name seen) vs) in
    let e = variable_error_iff seen name in
    (
      λ h. let (a, b) = r.0 h in let (c, d) = e.0 a in (c, d, ih.0 b),
      λ h. r.1 (e.1 (h.0, h.1), ih.1 h.2),
    )

-- The name at each position is not empty and differs from the names at earlier positions, all of them
-- trimmed.
abbrev pub AreNamed : List VariableDraft → Type 0
AreNamed vs =
    (p : ℕ) (v : VariableDraft)
    → get_elem? vs p ≡ some v
    → (trim v.name ≢ [])
      × ((q : ℕ) (w : VariableDraft) → q < p → get_elem? vs q ≡ some w → trim w.name ≢ trim v.name)

Fresh-seen :
    (seen : List Str) (vs : List VariableDraft) (p : ℕ) (v : VariableDraft)
    → Fresh seen vs
    → get_elem? vs p ≡ some v
    → (trim v.name ≢ []) × (has Str_discrete (trim v.name) seen ≡ false)
Fresh-seen seen [] p v f e = cc
Fresh-seen seen (w ∷ vs) zero v f e = let same : w ≡ v = some_eq e in rw (← same) (f.0, f.1)
Fresh-seen seen (w ∷ vs) (suc p) v f e =
    let (a, b) = Fresh-seen (add Str_discrete (trim w.name) seen) vs p v f.2 e in
    (a, ground (arith, has-add Str_discrete (trim w.name) (trim v.name) seen))

Fresh-earlier :
    (seen : List Str) (vs : List VariableDraft) (p : ℕ) (v : VariableDraft) (q : ℕ)
    (w : VariableDraft)
    → Fresh seen vs
    → get_elem? vs p ≡ some v
    → q < p
    → get_elem? vs q ≡ some w
    → trim w.name ≢ trim v.name
Fresh-earlier seen [] p v q w f e lt g = cc
Fresh-earlier seen (u ∷ vs) zero v q w f e lt g = absurd (omega arith)
Fresh-earlier seen (u ∷ vs) (suc p) v zero w f e lt g =
    let same : u ≡ w = some_eq g in
    let later = (Fresh-seen (add Str_discrete (trim u.name) seen) vs p v f.2 e).1 in
    rw (← same) (λ equal. ground (arith, has-add Str_discrete (trim u.name) (trim v.name) seen))
Fresh-earlier seen (u ∷ vs) (suc p) v (suc q) w f e lt g =
    Fresh-earlier (add Str_discrete (trim u.name) seen) vs p v q w f.2 e (omega arith) g

AreNamed-Fresh :
    (seen : List Str) (vs : List VariableDraft)
    → AreNamed vs
    → ((p : ℕ) (v : VariableDraft)
        → get_elem? vs p ≡ some v
        → has Str_discrete (trim v.name) seen ≡ false)
    → Fresh seen vs
AreNamed-Fresh seen [] named unseen = tt
AreNamed-Fresh seen (u ∷ vs) named unseen = (
  (named 0 u refl).0,
  unseen 0 u refl,
  AreNamed-Fresh (add Str_discrete (trim u.name) seen) vs
      (λ p v e.
        ((named (suc p) v e).0, λ q w lt g. (named (suc p) v e).1 (suc q) w (omega arith) g))
      (λ p v e. tail_unseen p v e),
)
  where
    tail_unseen :
        (p : ℕ) (v : VariableDraft)
        → get_elem? vs p ≡ some v
        → has Str_discrete (trim v.name) (add Str_discrete (trim u.name) seen) ≡ false
    tail_unseen p v e =
        let differ = (named (suc p) v e).1 0 u (omega arith) refl in
        ground (arith, has-add Str_discrete (trim u.name) (trim v.name) seen, unseen (suc p) v e)

-- Nothing is reported exactly if the names are not empty and pairwise different.
pub validate_variables_iff : (vs : List VariableDraft) → (validate_variables vs ≡ []) ↔ AreNamed vs
unfolding validate_variables
validate_variables_iff vs = (to, from)
  where
    to : variable_errors 0 [] vs ≡ [] → AreNamed vs
    to h p v e =
        let f = (Fresh-iff 0 [] vs).0 h in
        ((Fresh-seen [] vs p v f e).0, λ q w lt g. Fresh-earlier [] vs p v q w f e lt g)

    from : AreNamed vs → variable_errors 0 [] vs ≡ []
    from named = (Fresh-iff 0 [] vs).1 (AreNamed-Fresh [] vs named (λ p v e. unfold has in refl))
