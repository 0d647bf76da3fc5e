-- ===== src/Device/Write/Laws.antt =====
-- When a written value reaches the page.
use tstlan_web.Base.{
  ℕ, ℕ_discrete, ◌≡◌, ◌≢◌, refl, sym, ◌∙◌, ◌⊎◌, inl, inr, true, false, [], ◌∷◌, Option, none, some,
  Bool-cases, or_else, ite, arith, ◌==◌, if◌then◌else◌,
}
use mathlib.Core.Logic.{if_pos}
use mathlib.Core.Path.{subst}
use tstlan_web.Base.Record.{lookup, lookup-assign}
use tstlan_web.Base.Text.{Str, codes, Str_discrete, trim, is_empty}
use tstlan_web.Api.{Cause, api_error, other, Result, success, failure}
use tstlan_web.Device.Monitor.{Monitor, VariableValue, handle_written}
use tstlan_web.Device.Write.{
  WriteField, describe_write_error, written, send_value, parsed_value, submit_value,
}

-- The message of a failed write: the detail of the server if that is not empty, else one by the status.
pub data IsWriteError : Cause → Str → Type 0 where
  detailed : (status c : ℕ) (s : Str) → IsWriteError (api_error status (some (c ∷ s))) (c ∷ s)
  forbidden :
      (detail : Option Str)
      → or_else detail [] ≡ []
      → IsWriteError (api_error 403 detail) (codes "запись запрещена")
  invalid :
      (detail : Option Str)
      → or_else detail [] ≡ []
      → IsWriteError (api_error 422 detail) (codes "недопустимое значение")
  unknown :
      (status : ℕ) (detail : Option Str)
      → or_else detail [] ≡ []
      → status ≢ 403
      → status ≢ 422
      → IsWriteError (api_error status detail) (codes "не удалось записать")
  unsent : IsWriteError other (codes "не удалось записать")

abbrev by_status : ℕ → Str
by_status status =
    if status == 403
    then codes "запись запрещена"
    else if status == 422
    then codes "недопустимое значение"
    else codes "не удалось записать"

by_status-IsWriteError :
    (status : ℕ) (detail : Option Str)
    → or_else detail [] ≡ []
    → IsWriteError (api_error status detail) (by_status status)
by_status-IsWriteError status detail h = elim (ℕ_discrete status 403) [
  | yes e ↦
      subst (λ n. IsWriteError (api_error n detail) (by_status n)) (sym e) (forbidden detail h)
  | no e ↦ elim (ℕ_discrete status 422) [
    | yes f ↦
        subst (λ n. IsWriteError (api_error n detail) (by_status n)) (sym f) (invalid detail h)
    | no f ↦
        let not_403 : (status == 403) ≡ false = ground arith in
        let not_422 : (status == 422) ≡ false = ground arith in
        rw (not_403, not_422) (unknown status detail h e f)
  ]
]

describe_write_error-IsWriteError :
    (cause : Cause) → IsWriteError cause (describe_write_error cause)
unfolding describe_write_error
describe_write_error-IsWriteError other = unsent
describe_write_error-IsWriteError (api_error status none) = by_status-IsWriteError status none refl
describe_write_error-IsWriteError (api_error status (some [])) =
    by_status-IsWriteError status (some []) refl
describe_write_error-IsWriteError (api_error status (some (c ∷ s))) = detailed status c s

module _ {V : Type 0} where
  -- The server takes the number of the draft.
  pub record IsWritten (number : Str → Option V) (csrf : Option Str)
      (server : V → Str → Result (VariableValue V)) (draft : Str) (w : VariableValue V)
      : Type 0 where
    pub filled : is_empty (trim draft) ≡ false
    pub value : V
    pub token : Str
    pub parsed : number draft ≡ some value
    pub signed_in : csrf ≡ some token
    pub taken : server value token ≡ success w

  -- The page after the server wrote `w`: that value stands under its name, and all else is as before.
  pub record IsPut (w : VariableValue V) (m after : Monitor V) : Type 0 where
    pub put : lookup Str_discrete w.name after.values ≡ some w.value
    pub kept :
        (name : Str)
        → lookup Str_discrete name after.values
          ≡ ite (Str_discrete w.name name) (some w.value) (lookup Str_discrete name m.values)
    pub rest : after ≡ record m { values = after.values }

  -- Why a submission was not taken, and the message that tells it: no number, no session, or a failure
  -- of the server, of which a detail that is not empty is shown as it is.
  abbrev pub IsTold :
      (Str → Option V) → Option Str → (V → Str → Result (VariableValue V)) → Str → Str → Type 0
  IsTold number csrf server draft text =
      (((is_empty (trim draft) ≡ true) ⊎ (number draft ≡ none)) × (text ≡ codes "введите число"))
      ⊎ ((csrf ≡ none) × (text ≡ codes "нет сессии"))
      ⊎ ((value : V) × (token : Str) × (cause : Cause) × (number draft ≡ some value)
          × (csrf ≡ some token)
          × (server value token ≡ failure cause)
          × IsWriteError cause text)

  -- The ends of a submission: written and closed, or open with an error and nothing changed.
  abbrev pub IsSubmission :
      (Str → Option V)
      → Option Str
      → (V → Str → Result (VariableValue V))
      → WriteField
      → Monitor V
      → WriteField × Monitor V
      → Type 0
  IsSubmission number csrf server f m after =
      ((w : VariableValue V) × IsWritten number csrf server f.draft w
        × (after.0 ≡ record { editing = false; draft = f.draft; pending = false; error = none })
        × IsPut w m after.1)
      ⊎ ((text : Str) × IsTold number csrf server f.draft text
          × (after.0.error ≡ some text)
          × (after.0.editing ≡ true)
          × (after.0.draft ≡ f.draft)
          × (after.0.pending ≡ false)
          × (after.1 ≡ m))

  handle_written-IsPut :
      (w : VariableValue V) (m : Monitor V) → IsPut w m (handle_written w.name w.value m)
  unfolding handle_written
  handle_written-IsPut w m = record {
    put =
        lookup-assign Str_discrete w.name w.name w.value m.values
        ∙ if_pos (Str_discrete w.name w.name) refl (some w.value) _;
    kept = λ name. lookup-assign Str_discrete w.name name w.value m.values;
    rest = refl;
  }

  -- A submission of an open field that is not pending ends in one of two ways. Either the server takes
  -- the number of the draft, the field is closed without an error, and on the page the value that the
  -- server wrote stands under its name and all else is as before; or the field stays open with its
  -- draft, the page is as before, and the error tells the reason: no number, no session, or the failure
  -- of the server, by its detail if that is not empty, else by its status.
  pub submit_value-IsSubmission :
      (number : Str → Option V) (csrf : Option Str) (server : V → Str → Result (VariableValue V))
      (f : WriteField) (m : Monitor V)
      → f.editing ≡ true
      → f.pending ≡ false
      → IsSubmission number csrf server f m (submit_value number csrf server f m)
  unfolding submit_value
  submit_value-IsSubmission number csrf server f m shown idle =
      elim (Bool-cases (is_empty (trim f.draft))) [
        | inl e ↦ inr (
          codes "введите число",
          inl (inl e, refl),
          rw e refl,
          rw e shown,
          rw e refl,
          rw e idle,
          rw e refl,
        )
        | inr e ↦
            let sent : submit_value number csrf server f m
                ≡ parsed_value (number f.draft) csrf server f m =
              rw e refl in
            subst (IsSubmission number csrf server f m) (sym sent)
              (by_number e (number f.draft) refl)
      ]
    where
      by_answer :
          is_empty (trim f.draft) ≡ false
          → (value : V) (token : Str) (r : Result (VariableValue V)) → number f.draft ≡ some value
          → csrf ≡ some token
          → server value token ≡ r
          → IsSubmission number csrf server f m (written r f m)
      by_answer e value token (success w) p c a = inl (
        w,
        record { filled = e; value = value; token = token; parsed = p; signed_in = c; taken = a },
        refl,
        handle_written-IsPut w m,
      )
      by_answer e value token (failure cause) p c a = inr (
        _,
        inr (inr (value, token, cause, p, c, a, describe_write_error-IsWriteError cause)),
        refl,
        shown,
        refl,
        refl,
        refl,
      )

      by_token :
          is_empty (trim f.draft) ≡ false
          → (value : V) (o : Option Str) → number f.draft ≡ some value
          → csrf ≡ o
          → IsSubmission number csrf server f m (send_value o server value f m)
      by_token e value none p c = inr (_, inr (inl (c, refl)), refl, shown, refl, idle, refl)
      by_token e value (some token) p c = by_answer e value token (server value token) p c refl

      by_number :
          is_empty (trim f.draft) ≡ false
          → (o : Option V) → number f.draft ≡ o
          → IsSubmission number csrf server f m (parsed_value o csrf server f m)
      by_number e none p = inr (_, inl (inr p, refl), refl, shown, refl, idle, refl)
      by_number e (some value) p = by_token e value csrf p refl
