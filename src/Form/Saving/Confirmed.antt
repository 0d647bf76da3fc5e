-- ===== src/Form/Saving/Confirmed.antt =====
-- How long the confirmation of a save lasts, and what it confirms.
use tstlan_web.Base.{
  ℕ, zero, suc, ◌+◌, ◌≤◌, ◌<◌, ◌≡◌, refl, ap, inl, inr, true, false, List, [], ◌∷◌, none, some,
  some_eq, sym, arith, ltb, ltb→lt, All, length, keep, Bool-cases,
}
use tstlan_web.Config.{ConfigFormDraft}
use tstlan_web.Config.Validate.{validate_config_form, has_errors}
use tstlan_web.Form.{update}
use tstlan_web.Form.Saving.{
  Saving, confirmation_ms, open_form, edit, start_save, finish_save, any_due, tick, Step, edited,
  submitted, returned, passed, Reach, here, next,
}

-- Every timer is due within the time of a confirmation, and while there is a confirmation there is a
-- timer.
abbrev pub IsTimed : Saving → Type 0
IsTimed s =
    All (λ due. (s.clock < due) × (due ≤ s.clock + confirmation_ms)) s.timers
    × (s.form.saved ≡ true → 0 < length s.timers)

tick-timers :
    (now : ℕ) (timers : List ℕ)
    → All (λ due. (now < due) × (due ≤ now + confirmation_ms)) timers
    → All
        (λ due. (now + 1 < due) × (due ≤ now + 1 + confirmation_ms))
        (keep (λ due. ltb (now + 1) due) timers)
unfolding keep
tick-timers now [] h = tt
tick-timers now (due ∷ timers) ((a, b), h) = elim (Bool-cases (ltb (now + 1) due)) [
  | inl e ↦
      let early = ltb→lt (now + 1) due e in rw e ((early, omega arith), tick-timers now timers h)
  | inr e ↦ rw e (tick-timers now timers h)
]

none_due :
    (now : ℕ) (timers : List ℕ)
    → any_due now timers ≡ false
    → keep (λ due. ltb now due) timers ≡ timers
unfolding keep
none_due now [] h = refl
none_due now (due ∷ timers) h =
    let early : ltb now due ≡ true = ground arith in
    rw early (ap (λ ts. due ∷ ts) (none_due now timers (ground arith)))

tick-IsTimed : (s : Saving) → IsTimed s → IsTimed (tick s)
unfolding tick
tick-IsTimed s (h, k) = (
  tick-timers s.clock s.timers h,
  λ e.
      let still : any_due (s.clock + 1) s.timers ≡ false = ground arith in
      rw (none_due (s.clock + 1) s.timers still) (k (ground arith)),
)

Step-IsTimed : {s n : Saving} → Step s n → IsTimed s → IsTimed n
unfolding edit update start_save finish_save
Step-IsTimed (edited patch s) (h, k) = (h, λ e. absurd (cc))
Step-IsTimed (submitted s idle) (h, k) =
    elim (Bool-cases (has_errors (validate_config_form s.form.draft))) [
      | inl e ↦ rw e (h, k)
      | inr e ↦ rw e (h, λ q. absurd (cc))
    ]
Step-IsTimed (returned draft true s flight) (h, k) =
    (((omega arith, omega arith), h), λ e. omega arith)
Step-IsTimed (returned draft false s flight) (h, k) = (h, k)
Step-IsTimed (passed s) h = tick-IsTimed s h

-- In every state that an opened form reaches, timers are due after the clock and within the 2200 ms of
-- a confirmation, and a confirmation has a timer that will end it.
pub Reach-IsTimed : (draft : ConfigFormDraft) (s : Saving) → Reach (open_form draft) s → IsTimed s
unfolding open_form
Reach-IsTimed draft s here = (tt, λ e. absurd (cc))
Reach-IsTimed draft s (next r step) = Step-IsTimed step (Reach-IsTimed draft _ r)

-- `n` milliseconds pass.
abbrev pub ticks : ℕ → Saving → Saving
ticks zero s = s
ticks (suc n) s = ticks n (tick s)

-- Deadlines that `n` milliseconds reach.
done :
    (n : ℕ) (s : Saving)
    → IsTimed s
    → All (λ due. due ≤ s.clock + n) s.timers
    → (ticks n s).form.saved ≡ false
unfolding tick keep
done zero s (h, k) d = elim (Bool-cases s.form.saved) [
  | inl e ↦ absurd (empty s.timers h d (k e))
  | inr e ↦ e
]
  where
    empty :
        (timers : List ℕ)
        → All (λ due. (s.clock < due) × (due ≤ s.clock + confirmation_ms)) timers
        → All (λ due. due ≤ s.clock + 0) timers
        → 0 < length timers
        → ⊥
    empty [] a b c = omega arith
    empty (due ∷ timers) a b c = let early = a.0.0 in let late = b.0 in omega arith
done (suc n) s h d = done n (tick s) (tick-IsTimed s h) (kept s.timers d)
  where
    kept :
        (timers : List ℕ)
        → All (λ due. due ≤ s.clock + suc n) timers
        → All (λ due. due ≤ s.clock + 1 + n) (keep (λ due. ltb (s.clock + 1) due) timers)
    kept [] a = tt
    kept (due ∷ timers) a = elim (Bool-cases (ltb (s.clock + 1) due)) [
      | inl e ↦ rw e (omega (arith, a.0), kept timers a.1)
      | inr e ↦ rw e (kept timers a.1)
    ]

-- In a state that an opened form reaches, the confirmation is over when 2200 ms pass without a further
-- save.
pub confirmation_ends :
    (draft : ConfigFormDraft) (s : Saving)
    → Reach (open_form draft) s
    → (ticks confirmation_ms s).form.saved ≡ false
confirmation_ends draft s r =
    let timed = Reach-IsTimed draft s r in done confirmation_ms s timed (within s.timers timed.0)
  where
    within :
        (timers : List ℕ)
        → All (λ due. (s.clock < due) × (due ≤ s.clock + confirmation_ms)) timers
        → All (λ due. due ≤ s.clock + confirmation_ms) timers
    within [] h = tt
    within (due ∷ timers) h = (h.0.1, within timers h.1)

-- An edit does not come while a save is in flight.
abbrev pub IsQuiet : {s n : Saving} → Step s n → Type 0
IsQuiet (edited patch s) = s.in_flight ≡ none
IsQuiet (submitted s idle) = Unit
IsQuiet (returned draft fine s flight) = Unit
IsQuiet (passed s) = Unit

-- The drafts that the server has taken after a step, the last one first.
abbrev pub taken : {s n : Saving} → Step s n → List ConfigFormDraft → List ConfigFormDraft
taken (edited patch s) drafts = drafts
taken (submitted s idle) drafts = drafts
taken (returned draft true s flight) drafts = draft ∷ drafts
taken (returned draft false s flight) drafts = drafts
taken (passed s) drafts = drafts

-- A run of the form without edits during a save, with the drafts that the server has taken.
pub data Run (initial : ConfigFormDraft) : Saving → List ConfigFormDraft → Type 0 where
  opened : Run initial (open_form initial) []
  then :
      {s n : Saving} {drafts : List ConfigFormDraft}
      → Run initial s drafts
      → (step : Step s n) → IsQuiet step
      → Run initial n (taken step drafts)

-- What is in flight is the draft of the form, and what is confirmed is the draft last taken.
IsHonest : Saving → List ConfigFormDraft → Type 0
IsHonest s drafts =
    ((sent : ConfigFormDraft) → s.in_flight ≡ some sent → sent ≡ s.form.draft)
    × (s.form.saved ≡ true → (older : List ConfigFormDraft) × (drafts ≡ s.form.draft ∷ older))

Step-IsHonest :
    {s n : Saving} (step : Step s n) (drafts : List ConfigFormDraft)
    → IsQuiet step
    → IsHonest s drafts
    → IsHonest n (taken step drafts)
unfolding IsHonest edit update start_save finish_save tick
Step-IsHonest (edited patch s) drafts q (h, k) = (λ sent e. absurd (cc), λ e. absurd (cc))
Step-IsHonest (submitted s idle) drafts q (h, k) =
    elim (Bool-cases (has_errors (validate_config_form s.form.draft))) [
      | inl e ↦ rw e (h, k)
      | inr e ↦ rw e (λ sent same. some_eq (sym same), λ e. absurd (cc))
    ]
Step-IsHonest (returned draft true s flight) drafts q (h, k) =
    (λ sent e. absurd (cc), λ e. (drafts, ap (λ d. d ∷ drafts) (h draft flight)))
Step-IsHonest (returned draft false s flight) drafts q (h, k) = (λ sent e. absurd (cc), k)
Step-IsHonest (passed s) drafts q (h, k) = (h, λ e. k (ground arith))

Run-IsHonest :
    (initial : ConfigFormDraft) (s : Saving) (drafts : List ConfigFormDraft)
    → Run initial s drafts
    → IsHonest s drafts
unfolding IsHonest open_form
Run-IsHonest initial s drafts opened = (λ sent e. absurd (cc), λ e. absurd (cc))
Run-IsHonest initial s drafts (then r step q) = Step-IsHonest step _ q (Run-IsHonest initial _ _ r)

-- If no edit comes while a save is in flight, a form that shows the confirmation has the draft that the
-- server took last, after every run of edits, submissions, answers and time from an opened form.
pub confirmed_draft :
    (initial : ConfigFormDraft) (s : Saving) (drafts : List ConfigFormDraft)
    → Run initial s drafts
    → s.form.saved ≡ true
    → (older : List ConfigFormDraft) × (drafts ≡ s.form.draft ∷ older)
unfolding IsHonest
confirmed_draft initial s drafts r e = (Run-IsHonest initial s drafts r).1 e
