-- ===== src/Tests/Saving.antt =====
-- The theorems on the confirmation of a save, at concrete inputs.
use tstlan_web.Base.{◌≡◌, refl, true, false, some, List, [], ◌∷◌}
use tstlan_web.Base.Text.{codes}
use tstlan_web.Config.{ConfigFormDraft}
use tstlan_web.Form.Saving.{
  Saving, confirmation_ms, open_form, edit, start_save, finish_save, submitted, returned, Reach,
  here, next,
}
use tstlan_web.Form.Saving.Confirmed.{ticks, confirmation_ends, Run, opened, then, confirmed_draft}
use tstlan_web.Form.{update}
use tstlan_web.Tests.{balance_draft}
use tstlan_web.Tests.Configs.{balance_draft-clean}

abbrev opened_form : Saving
opened_form = open_form balance_draft

abbrev sent : Saving
sent = start_save opened_form

sent_draft : sent.in_flight ≡ some balance_draft
unfolding start_save open_form
sent_draft = rw balance_draft-clean refl

abbrev confirmed : Saving
confirmed = finish_save true sent

confirmed-Reach : Reach opened_form confirmed
unfolding open_form
confirmed-Reach =
    next (next here (submitted opened_form refl)) (returned balance_draft true sent sent_draft)

confirmation_ends_example : (ticks confirmation_ms confirmed).form.saved ≡ false
confirmation_ends_example = confirmation_ends balance_draft confirmed confirmed-Reach

rename : ConfigFormDraft → ConfigFormDraft
rename draft = record draft { name = codes "Scales" }

confirmed-Run : Run balance_draft confirmed (balance_draft ∷ [])
unfolding open_form
confirmed-Run =
    then (then opened (submitted opened_form refl) tt) (returned balance_draft true sent sent_draft)
      tt

confirmed_is_shown : confirmed.form.saved ≡ true
unfolding finish_save
confirmed_is_shown = refl

confirmed_draft_example :
    (older : List ConfigFormDraft) × (balance_draft ∷ [] ≡ confirmed.form.draft ∷ older)
confirmed_draft_example =
    confirmed_draft balance_draft confirmed (balance_draft ∷ []) confirmed-Run confirmed_is_shown

-- An edit while a save is in flight: its success confirms the edited draft.
edited_in_flight : (finish_save true (edit rename sent)).form.saved ≡ true
unfolding finish_save
edited_in_flight = refl

edited_in_flight_draft : (finish_save true (edit rename sent)).form.draft ≡ rename sent.form.draft
unfolding finish_save edit update
edited_in_flight_draft = refl
