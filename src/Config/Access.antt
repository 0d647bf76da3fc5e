-- ===== src/Config/Access.antt =====
-- Who may see a configuration and how its failures are told: `describeConfigAccess`, the tables of
-- labels and `availableGrantees` of web/tstlan-web/lib/configs.ts, the tables of
-- web/tstlan-web/lib/devices.ts, and web/tstlan-web/lib/config-errors.ts.
use tstlan_web.Base.{
  ℕ, ◌≡◌, ◌≢◌, sym, ◌↔◌, inl, inr, Bool, true, false, not, List, [], ◌∷◌, ◌++◌, map, arith, ltb,
  if◌then◌else◌, keep, Among, Among-keep,
}
use tstlan_web.Base.Text.{Str, codes, Str_discrete}
use tstlan_web.Base.Number.Decimal.{decimal}
use tstlan_web.Base.Record.{has, add_all, has-add_all, has-Among}
use tstlan_web.Api.{
  Role, Cause, UserSummary, NetVarMode, ConfigVisibility, SharePermission, ConfigAccess, ShareInfo,
  has_status,
}

unfoldable pub visibility_label : ConfigVisibility → Str
visibility_label ConfigVisibility.private = codes "Личный"
visibility_label ConfigVisibility.shared = codes "Общий"
visibility_label ConfigVisibility.public = codes "Публичный"

unfoldable pub access_label : ConfigAccess → Str
access_label ConfigAccess.owner = codes "Владелец"
access_label ConfigAccess.write = codes "Запись"
access_label ConfigAccess.read = codes "Чтение"

unfoldable pub permission_label : SharePermission → Str
permission_label SharePermission.read = codes "Чтение"
permission_label SharePermission.write = codes "Запись"

unfoldable pub role_label : Role → Str
role_label Role.admin = codes "Админ"
role_label Role.dev = codes "Инженер"
role_label Role.user = codes "Пользователь"

-- `MODE_META[mode].writable`
unfoldable pub is_writable : NetVarMode → Bool
is_writable NetVarMode.r = false
is_writable NetVarMode.w = true
is_writable NetVarMode.rw = true

abbrev pub is_owner : ConfigAccess → Bool
is_owner ConfigAccess.owner = true
is_owner _ = false

abbrev is_public : ConfigVisibility → Bool
is_public ConfigVisibility.public = true
is_public _ = false

unfoldable pub describe_config_access : ConfigAccess → ConfigVisibility → ℕ → Str
unfolding access_label
describe_config_access access visibility shares_count =
    if not (is_owner access)
    then access_label access
    else if is_public visibility
    then codes "Владелец · публичный"
    else if ltb 0 shares_count
    then codes "Владелец · ещё " ++ decimal shares_count ++ codes " с доступом"
    else codes "Владелец"

unfoldable pub describe_save_error : Cause → Str
unfolding has_status
describe_save_error cause =
    if has_status 403 cause
    then codes "недостаточно прав"
    else if has_status 404 cause
    then codes "конфиг не найден"
    else if has_status 422 cause
    then codes "проверьте поля формы"
    else codes "не удалось сохранить"

unfoldable pub describe_share_error : Cause → Str
unfolding has_status
describe_share_error cause =
    if has_status 404 cause
    then codes "пользователь не найден"
    else if has_status 422 cause
    then codes "нельзя выдать доступ владельцу"
    else if has_status 403 cause
    then codes "недостаточно прав"
    else codes "не удалось изменить доступ"

-- `new Set([ownerLogin, ...shares.map((share) => share.login)])`
unfoldable pub taken_logins : Str → List ShareInfo → List Str
taken_logins owner_login shares = add_all Str_discrete [] (owner_login ∷ map (λ s. s.login) shares)

unfoldable pub available_grantees : List UserSummary → Str → List ShareInfo → List UserSummary
unfolding taken_logins
available_grantees users owner_login shares =
    keep (λ u. not (has Str_discrete u.login (taken_logins owner_login shares))) users

taken_iff :
    (login owner_login : Str) (shares : List ShareInfo)
    → (has Str_discrete login (taken_logins owner_login shares) ≡ true)
      ↔ Among login (owner_login ∷ map (λ s. s.login) shares)
unfolding taken_logins has
taken_iff login owner_login shares =
    rw (has-add_all Str_discrete login [] (owner_login ∷ map (λ s. s.login) shares))
      (has-Among Str_discrete login (owner_login ∷ map (λ s. s.login) shares))

not_iff : (b : Bool) → (not b ≡ true) ↔ (¬ (b ≡ true))
not_iff true = ground arith
not_iff false = ground arith

-- The candidates for a new grant are exactly the users who are neither the owner nor in the list of
-- grants.
pub available_grantees_iff :
    (users : List UserSummary) (owner_login : Str) (shares : List ShareInfo) (u : UserSummary)
    → Among u (available_grantees users owner_login shares)
      ↔ (Among u users × (u.login ≢ owner_login) × (¬ Among u.login (map (λ s. s.login) shares)))
unfolding available_grantees
available_grantees_iff users owner_login shares u =
    let kept =
      Among-keep (λ w. not (has Str_discrete w.login (taken_logins owner_login shares))) u users in
    let free = not_iff (has Str_discrete u.login (taken_logins owner_login shares)) in
    let taken = taken_iff u.login owner_login shares in
    (
      λ h.
          let (a, b) = kept.0 h in
          (a, λ e. free.0 b (taken.1 (inl (sym e))), λ m. free.0 b (taken.1 (inr m))),
      λ h. kept.1 (h.0, free.1 (λ t. refuse h.1 h.2 (taken.0 t))),
    )
  where
    refuse :
        u.login ≢ owner_login
        → ¬ Among u.login (map (λ s. s.login) shares)
        → Among u.login (owner_login ∷ map (λ s. s.login) shares)
        → ⊥
    refuse differ absent (inl e) = differ (sym e)
    refuse differ absent (inr m) = absent m
