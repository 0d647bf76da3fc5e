-- ===== src/Editor/Laws.antt =====
-- What a submission of the page of a configuration sends and leaves.
use tstlan_web.Base.{
  ◌≡◌, refl, ap, sym, ◌∙◌, ◌↔◌, ◌⊎◌, inl, inr, Bool, true, false, Option, none, some, some_eq,
  Bool-cases,
}
use tstlan_web.Base.Text.{Str}
use tstlan_web.Base.Number.{ℤ}
use tstlan_web.Api.{Role, ConfigDetail, ConfigUpdate, Result, success, failure}
use tstlan_web.Config.{ConfigFormDraft, can_publish}
use tstlan_web.Config.Access.{is_owner}
use tstlan_web.Config.Payload.{draft_to_payload, config_to_draft}
use tstlan_web.Config.Payload.RoundTrip.{IsCanonical, draft_to_payload-config_to_draft}
use tstlan_web.Editor.{ready, Editor, update_body, submit, saved}

-- There is a token, and the server takes the body with it and answers by `new`.
abbrev pub IsTaken :
    Option Str → (ConfigUpdate → Str → Result ConfigDetail) → ConfigUpdate → ConfigDetail → Type 0
IsTaken csrf server body new =
    (token : Str) × (csrf ≡ some token) × (server body token ≡ success new)

-- What the promise and the page are, given what the server takes.
pub record IsSubmitted (taken : ConfigDetail → Type 0) (e : Editor) (after : Editor × Bool)
    : Type 0 where
  pub shows :
      (new : ConfigDetail)
      → taken new
      → after ≡ (record { load = ready new; pending = false; error = none }, true)
  pub accepted : after.1 ≡ true → (new : ConfigDetail) × taken new
  pub keeps : after.1 ≡ false → after.0.load ≡ e.load
  pub idle : e.pending ≡ false → after.0.pending ≡ false

-- The promise of `submit` is true exactly when there is a token and the server takes the body with
-- it. The page then shows the server's configuration, without an error. Otherwise the page still
-- shows what it showed. A page that was not pending is not pending afterwards.
pub submit_iff :
    (csrf : Option Str) (role : Role) (config : ConfigDetail)
    (server : ConfigUpdate → Str → Result ConfigDetail) (draft : ConfigFormDraft) (e : Editor)
    → IsSubmitted
        (IsTaken csrf server (update_body role config draft))
        e
        (submit csrf role config server draft e)
submit_iff none role config server draft e =
    unfold submit in
    record {
      shows = λ new (token, bad, _). absurd (cc);
      accepted = λ h. absurd (cc);
      keeps = λ _. refl;
      idle = λ h. h;
    }
submit_iff (some csrf) role config server draft e =
    unfold submit in by_answer (server (update_body role config draft) csrf) refl
  where
    by_answer :
        (r : Result ConfigDetail)
        → server (update_body role config draft) csrf ≡ r
        → IsSubmitted (IsTaken (some csrf) server (update_body role config draft)) e (saved r e)
    by_answer (success new) a = record {
      shows = λ other_new (token, same, b).
          ap (λ r. saved r e)
            (sym a ∙ ap (server (update_body role config draft)) (some_eq same) ∙ b);
      accepted = λ _. (new, (csrf, refl, a));
      keeps = λ h. absurd (cc);
      idle = λ _. refl;
    }
    by_answer (failure cause) a = record {
      shows = λ new (token, same, b).
          let bad : failure cause ≡ success new =
            sym a ∙ ap (server (update_body role config draft)) (some_eq same) ∙ b in
          absurd (cc);
      accepted = λ h. absurd (cc);
      keeps = λ _. refl;
      idle = λ _. refl;
    }

-- A body carries a name exactly for the owner, and a visibility exactly for an owner whose role may
-- publish; the payload is always sent.
pub update_body_iff :
    (role : Role) (config : ConfigDetail) (draft : ConfigFormDraft)
    → (((update_body role config draft).name ≡ some draft.name) ↔ (is_owner config.access ≡ true))
      × (((update_body role config draft).visibility ≡ some draft.visibility)
          ↔ ((is_owner config.access ≡ true) × (can_publish role ≡ true)))
      × ((update_body role config draft).payload ≡ some (draft_to_payload draft))
unfolding update_body
update_body_iff role config draft = elim (Bool-cases (is_owner config.access)) [
  | inl o ↦ elim (Bool-cases (can_publish role)) [
    | inl p ↦ rw (o, p) ((λ _. refl, λ _. refl), (λ _. (refl, refl), λ _. refl), refl)
    | inr p ↦ rw (o, p) ((λ _. refl, λ _. refl), (λ h. absurd (cc), λ h. absurd (cc)), refl)
  ]
  | inr o ↦ rw o ((λ h. absurd (cc), λ h. absurd (cc)), (λ h. absurd (cc), λ h. absurd (cc)), refl)
]

-- A canonical configuration that is opened and saved unchanged is sent with its own payload, and with
-- its own name and visibility where these are sent.
pub update_body-config_to_draft :
    (large : ℤ → Str) (role : Role) (config : ConfigDetail)
    → IsCanonical config.payload
    → ((update_body role config (config_to_draft large config)).payload ≡ some config.payload)
      × (((update_body role config (config_to_draft large config)).name ≡ none)
          ⊎ ((update_body role config (config_to_draft large config)).name ≡ some config.name))
      × (((update_body role config (config_to_draft large config)).visibility ≡ none)
          ⊎ ((update_body role config (config_to_draft large config)).visibility
              ≡ some config.visibility))
update_body-config_to_draft large role config h =
    let payload = ap some (draft_to_payload-config_to_draft large config h) in
    unfold update_body in
    elim (Bool-cases (is_owner config.access)) [
      | inl o ↦ elim (Bool-cases (can_publish role)) [
        | inl p ↦
            rw (o, p)
              (payload, inr (unfold config_to_draft in refl), inr (unfold config_to_draft in refl))
        | inr p ↦ rw (o, p) (payload, inr (unfold config_to_draft in refl), inl refl)
      ]
      | inr o ↦ rw o (payload, inl refl, inl refl)
    ]
