-- ===== src/Auth.antt =====
-- src/auth/auth.service.ts and src/common/guards/jwt-admin.guard.ts: the log-in of administrators,
-- their sessions, and the reset of a password. Sessions, codes and tokens are in Redis. The history
-- of the log-ins (`recordAuthEvent`) is left out. Passwords and their hashes are texts; `bcrypt`,
-- `sanitize-html`, the signer of tokens and the drawer of codes are parameters or arguments.
mod Tests
pub mod Sessions
pub mod Reset
use procare_backend.Common.{
  ℕ, Uuid, ◌+◌, ◌*◌, Bool, true, false, not, ◌&&◌, ◌||◌, Option, none, some, List, [], ◌∷◌, find,
  is_some, update_where, ltb, ◌==◌, if◌then◌else◌,
}
use procare_backend.Common.Text.{Text, text_eq, codes}
use procare_backend.Common.Result.{
  Result, ok, err, bad_request, unauthorized, forbidden, too_many_requests, service_unavailable,
  guard, ◌>>=◌, ◌>>◌,
}
use procare_backend.Redis.{
  RedisKey, session, blacklist, reset_code, reset_token, send_code_limit, RedisClient, redis_get,
  redis_set, redis_del,
}

-- Column `status` of `admins`.
pub data AdminStatus : Type 0 where
  pending open_admin deleted_admin banned : AdminStatus

pub record Admin : Type 0 where
  pub id : Uuid
  pub phone_number : Text
  pub password : Option Text
  pub status : AdminStatus
  pub is_active : Bool
  pub phone_verified : Bool

-- bcrypt.compare, bcrypt.hash and sanitizeHtml
pub record Passwords : Type 0 where
  pub compare : Text → Text → Bool
  pub hash : Text → Text
  pub sanitize : Text → Text

abbrev pub is_deleted : AdminStatus → Bool
is_deleted deleted_admin = true
is_deleted _ = false

abbrev pub is_banned : AdminStatus → Bool
is_banned banned = true
is_banned _ = false

abbrev pub is_pending : AdminStatus → Bool
is_pending pending = true
is_pending _ = false

-- `findByPhoneNumber` of src/admins/admins.service.ts
unfoldable pub find_by_phone_number : Text → List Admin → Option Admin
find_by_phone_number phone =
    find (λ (a : Admin). text_eq a.phone_number phone && not (is_deleted a.status))

-- `checkAdminAccessControl` with `requireVerified`
unfoldable pub check_admin_access_control : Option Admin → Result Admin
check_admin_access_control none = err (unauthorized "admin_not_found")
check_admin_access_control (some admin) = do
  guard (not (is_banned admin.status)) (bad_request "phone_banned")
  guard admin.is_active (bad_request "phone_inactive")
  guard admin.phone_verified (bad_request "phone_unverified")
  ok admin

abbrev pub is_pending_admin : Option Admin → Bool
is_pending_admin none = false
is_pending_admin (some admin) = is_pending admin.status

abbrev pub set_password : Text → Text → List Admin → List Admin
set_password phone password =
    update_where (λ (a : Admin). text_eq a.phone_number phone)
      (λ a. record a { password = some password })

-- What the log-in finds: the password is right, right in the old sanitised form, or wrong.
pub data PasswordCheck : Type 0 where
  right legacy wrong : PasswordCheck

-- `bcrypt.compare`, then `tryLegacySanitizedPassword`
unfoldable pub check_password : Passwords → Text → Option Text → PasswordCheck
check_password passwords given none = wrong
check_password passwords given (some stored) =
    let sanitized = passwords.sanitize given in
    if passwords.compare given stored
    then right
    else if text_eq sanitized given
    then wrong
    else if passwords.compare sanitized stored
    then legacy
    else wrong

-- Text that JavaScript takes for true
abbrev pub truthy : Option Text → Bool
truthy (some (c ∷ s)) = true
truthy _ = false

-- `stored && stored === given`
abbrev pub holds : Text → Option Text → Bool
holds given none = false
holds given (some stored) = truthy (some stored) && text_eq stored given

-- `stored && stored !== given`
abbrev pub is_other : Text → Option Text → Bool
is_other given none = false
is_other given (some stored) = truthy (some stored) && not (text_eq stored given)

-- 60 * 60 * 24 * 7 seconds
abbrev pub week : ℕ
week = 604800

abbrev pub blacklisted : Text
blacklisted = codes "blacklisted"

module _ (client : RedisClient) (connected : Bool) where
  unfoldable pub set_admin_session : Uuid → Text → ℕ → client.Store → client.Store
  set_admin_session admin_id token now =
      redis_set client connected (session admin_id) token week now

  -- The end of `login`: the old form of a password is replaced, and the session is set.
  unfoldable pub finish_login :
      Passwords
      → (phone_number password token : Text) → Admin
      → ℕ
      → List Admin
      → client.Store
      → PasswordCheck
      → Result (List Admin × client.Store)
  unfolding set_admin_session
  finish_login passwords phone_number password token admin now admins store right =
      ok (admins, set_admin_session admin.id token now store)
  finish_login passwords phone_number password token admin now admins store legacy = ok (
    set_password phone_number (passwords.hash password) admins,
    set_admin_session admin.id token now store,
  )
  finish_login passwords phone_number password token admin now admins store wrong =
      err (unauthorized "invalid_login")

  -- The token is the one that `jwtService.sign` makes for the administrator.
  unfoldable pub login :
      Passwords
      → (phone_number password token : Text) → ℕ
      → List Admin
      → client.Store
      → Result (List Admin × client.Store)
  unfolding finish_login
  login passwords phone_number password token now admins store = do
    let found = find_by_phone_number phone_number admins
    guard (not (is_pending_admin found)) (forbidden "incomplete_registration")
    admin ← check_admin_access_control found
    finish_login passwords phone_number password token admin now admins store
        (check_password passwords password admin.password)

  unfoldable pub logout : Uuid → Text → ℕ → client.Store → Result client.Store
  logout admin_id token now store = do
    guard (truthy (redis_get client connected (session admin_id) now store))
        (unauthorized "no_active_session")
    ok (
        redis_set client connected (blacklist token) blacklisted week now
          (redis_del client connected (session admin_id) store))

  -- The guard of a request whose token passport has judged (`activated`): the user that it read from
  -- the token, and the token of the header, if there is one.
  unfoldable pub can_activate : Bool → Option Uuid → Option Text → ℕ → client.Store → Result Bool
  can_activate activated user_id bearer now store =
      if not activated then ok false else elim user_id [
        | none ↦ err (unauthorized "invalid_user_data")
        | some id ↦ elim bearer [
          | none ↦ err (unauthorized "missing_authorization-admin")
          | some token ↦ do
            guard (not (is_other token (redis_get client connected (session id) now store)))
                (unauthorized "invalid_session")
            guard (not (truthy (redis_get client connected (blacklist token) now store)))
                (unauthorized "blacklisted_token")
            ok true
        ]
      ]

  -- `token` is what `crypto.randomBytes(32)` draws.
  unfoldable pub verify_forgot_password_otp :
      (phone_number code token : Text) → ℕ → client.Store → Result client.Store
  verify_forgot_password_otp phone_number code token now store = do
    guard (holds code (redis_get client connected (reset_code phone_number) now store))
        (bad_request "invalid_code")
    ok (
        redis_del client connected (reset_code phone_number)
          (redis_set client connected (reset_token phone_number) token 600 now store))

  unfoldable pub reset_password :
      Passwords
      → (phone_number token new_password confirm_new_password : Text) → ℕ
      → List Admin
      → client.Store
      → Result (List Admin × client.Store)
  reset_password passwords phone_number token new_password confirm_new_password now admins store =
      do
        guard (holds token (redis_get client connected (reset_token phone_number) now store))
            (bad_request "invalid_reset_token")
        guard (text_eq new_password confirm_new_password) (bad_request "confirm_password")
        ok (
          set_password phone_number (passwords.hash new_password) admins,
          redis_del client connected (reset_token phone_number) store,
        )
