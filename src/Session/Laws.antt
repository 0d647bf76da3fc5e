-- ===== src/Session/Laws.antt =====
-- Where the redirection leads, and what signing in and out leave.
use tstlan_web.Base.{
  ℕ, ℕ_discrete, ap, some_eq, Option, ◌≡◌, ◌≢◌, refl, ◌↔◌, ◌⊎◌, inl, inr, true, none, some, arith,
}
use tstlan_web.Base.Text.{Str, codes, Str_discrete}
use tstlan_web.Api.{Identity, Cause, api_error, other, has_status, Result, success, failure}
use mathlib.Core.Logic.{if_pos, if_neg}
use tstlan_web.Session.{
  login_path, home_path, AuthState, loading, anonymous, authenticated, Session, is_anonymous,
  is_authenticated, redirect, sign_in, sign_out, csrf_of, role_of, describe_login_error, LoginPage,
  on_submit,
}

-- Nobody stands on the wrong side of the login page.
pub record IsSettled (s : Session) : Type 0 where
  pub anonymous_at_login : is_anonymous s.state ≡ true → s.pathname ≡ login_path
  pub user_inside : is_authenticated s.state ≡ true → s.pathname ≢ login_path

home-ne-login : home_path ≢ login_path
home-ne-login e = ground arith

-- `redirect` of a session that is settled rests.
redirect-rest :
    (state : AuthState) (p : Str)
    → IsSettled (record { state = state; pathname = p })
    → redirect (record { state = state; pathname = p }) ≡ record { state = state; pathname = p }
unfolding redirect
redirect-rest loading p h = refl
redirect-rest anonymous p h = ground (arith, h.anonymous_at_login refl)
redirect-rest (authenticated user) p h = ground (arith, h.user_inside refl)

home-IsSettled :
    (user : Identity) → IsSettled (record { state = authenticated user; pathname = home_path })
home-IsSettled user = record {
  anonymous_at_login = λ h. absurd (cc);
  user_inside = λ _. home-ne-login;
}

login-IsSettled :
    (p : Str) → p ≡ login_path → IsSettled (record { state = anonymous; pathname = p })
login-IsSettled p e = record { anonymous_at_login = λ _. e; user_inside = λ h. absurd (cc) }

after_redirect :
    (state : AuthState) (p : Str)
    → IsSettled (redirect (record { state = state; pathname = p }))
      × ((redirect (record { state = state; pathname = p })).state ≡ state)
unfolding redirect
after_redirect loading p =
    (record { anonymous_at_login = λ h. absurd (cc); user_inside = λ h. absurd (cc) }, refl)
after_redirect anonymous p = elim (Str_discrete p login_path) [
  | yes e ↦ rw (if_pos _ e) (login-IsSettled p e, refl)
  | no e ↦ rw (if_neg _ e) (login-IsSettled login_path refl, refl)
]
after_redirect (authenticated user) p = elim (Str_discrete p login_path) [
  | yes e ↦ rw (if_pos _ e) (home-IsSettled user, refl)
  | no e ↦
      rw (if_neg _ e) (record { anonymous_at_login = λ h. absurd (cc); user_inside = λ _. e }, refl)
]

-- The redirection leads to a settled session, whose state is the one before, and it then rests: a
-- second run of the effect changes nothing.
pub redirect-IsSettled :
    (s : Session)
    → IsSettled (redirect s) × ((redirect s).state ≡ s.state) × (redirect (redirect s) ≡ redirect s)
redirect-IsSettled s =
    let (settled, same) = after_redirect s.state s.pathname in
    (settled, same, redirect-rest (redirect s).state (redirect s).pathname settled)

status_of : Cause → ℕ
status_of (api_error status detail) = status
status_of other = 0

differ : ◌≢◌ {A = Str} (codes "Не удалось войти") (codes "Неверный логин или пароль")
differ e = ground arith

abbrev pub wrong_login : Str
wrong_login = codes "Неверный логин или пароль"

-- A refusal of the login is told as such exactly if the server answers 401.
describe_login_error_iff :
    (cause : Cause)
    → (describe_login_error cause ≡ wrong_login)
      ↔ ((detail : Option Str) × (cause ≡ api_error 401 detail))
unfolding describe_login_error has_status status_of
describe_login_error_iff other = (λ h. absurd (differ h), λ h. absurd (cc))
describe_login_error_iff (api_error status detail) = elim (ℕ_discrete status 401) [
  | yes e ↦ rw e (λ h. (detail, refl), λ h. refl)
  | no e ↦ (λ h. absurd (ground (arith, differ)), λ h. absurd (e (ap status_of h.1)))
]

-- What a submission of the login form leaves, by its result.
pub record IsSubmitted (result : Result Identity) (s after : Session) (page : LoginPage)
    : Type 0 where
  pub pending_iff : (page.pending ≡ true) ↔ ((user : Identity) × (result ≡ success user))
  pub wrong_iff :
      (page.error ≡ some wrong_login)
      ↔ ((detail : Option Str) × (result ≡ failure (api_error 401 detail)))
  pub fine_iff : (page.error ≡ none) ↔ ((user : Identity) × (result ≡ success user))
  pub signed_in_iff :
      (is_authenticated after.state ≡ true)
      ↔ ((is_authenticated s.state ≡ true) ⊎ ((user : Identity) × (result ≡ success user)))
  pub session :
      ((user : Identity) × (result ≡ success user)
        × (csrf_of after.state ≡ some user.csrf_token)
        × (role_of after.state ≡ user.role)
        × (after.pathname ≡ home_path)
        × (redirect after ≡ after))
      ⊎ ((cause : Cause) × (result ≡ failure cause) × (after ≡ s))

-- The submission of the login form, told by its result alone. The button stays disabled exactly if the
-- server gives an identity. The message is that of a wrong login exactly if the server answers 401, and
-- there is none exactly if there is an identity. Somebody is signed in after it exactly if there is an
-- identity or somebody was before. With an identity its token and role are those of the session, which
-- is on the home page, and the redirection leaves it there; with a failure the session is as before.
pub on_submit_iff :
    (result : Result Identity) (s : Session)
    → IsSubmitted result s (on_submit result s).0 (on_submit result s).1
unfolding on_submit sign_in csrf_of role_of
on_submit_iff (success user) s = record {
  pending_iff = (λ h. (user, refl), λ h. refl);
  wrong_iff = (λ h. absurd (cc), λ h. absurd (cc));
  fine_iff = (λ h. (user, refl), λ h. refl);
  signed_in_iff = (λ h. inr (user, refl), λ h. refl);
  session = inl (
    user,
    refl,
    refl,
    refl,
    refl,
    redirect-rest (authenticated user) home_path (home-IsSettled user),
  );
}
on_submit_iff (failure cause) s = record {
  pending_iff = (λ h. absurd (cc), λ h. absurd (cc));
  wrong_iff = (
    λ h. let (detail, e) = (describe_login_error_iff cause).0 (some_eq h) in (detail, ap failure e),
    λ h. ap some ((describe_login_error_iff cause).1 (h.0, cc (h.1))),
  );
  fine_iff = (λ h. absurd (cc), λ h. absurd (cc));
  signed_in_iff = (λ h. inl h, λ h. elim h [ inl k ↦ k | inr (user, k) ↦ absurd (cc) ]);
  session = inr (cause, refl, refl);
}

-- Signing out leaves a user exactly when the server refuses the request of an authenticated user, and
-- a token is sent exactly when there is one.
pub sign_out_iff :
    (result : Result Unit) (state : AuthState)
    → ((is_authenticated (sign_out result state).0 ≡ true)
        ↔ ((cause : Cause) × (result ≡ failure cause) × (is_authenticated state ≡ true)))
      × ((sign_out result state).1 ≡ csrf_of state)
unfolding sign_out csrf_of
sign_out_iff (success u) (authenticated user) = ((λ h. absurd (cc), λ h. absurd (cc)), refl)
sign_out_iff (failure cause) (authenticated user) = ((λ h. (cause, refl, refl), λ h. refl), refl)
sign_out_iff (success u) loading = ((λ h. absurd (cc), λ h. absurd (cc)), refl)
sign_out_iff (success u) anonymous = ((λ h. absurd (cc), λ h. absurd (cc)), refl)
sign_out_iff (failure cause) loading = ((λ h. absurd (cc), λ h. absurd (cc)), refl)
sign_out_iff (failure cause) anonymous = ((λ h. absurd (cc), λ h. absurd (cc)), refl)
