-- ===== src/Auth/Tests.antt =====
-- A log-in, a log-out and a reset over a store that is a function.
use procare_backend.Common.{◌≡◌, refl, true, none, some, List, [], ◌∷◌, arith, String}
use procare_backend.Common.Text.{Text, text_eq, codes}
use procare_backend.Common.Result.{Result, ok, err, unauthorized, bad_request}
use procare_backend.Redis.{reset_code, key_eq, redis_get, redis_set}
use procare_backend.Redis.Store.{function_client}
use procare_backend.Auth.{
  open_admin, Admin, Passwords, find_by_phone_number, check_admin_access_control, set_password,
  check_password, set_admin_session, login, logout, can_activate, verify_forgot_password_otp,
  reset_password,
}
use procare_backend.Auth.Sessions.{
  can_activate-logout, can_activate-login, can_activate-logout_revives,
}
use procare_backend.Auth.Reset.{reset_password-verify_forgot_password_otp}

abbrev passwords : Passwords
passwords = record { compare = text_eq; hash = λ s. s; sanitize = λ s. s }

abbrev phone : Text
phone = codes "+998901234567"

abbrev admin : Admin
admin = record {
  id = 7;
  phone_number = phone;
  password = some (codes "secret");
  status = open_admin;
  is_active = true;
  phone_verified = true;
}

abbrev Entries : Type 0
Entries = function_client.Store

-- The store after a step, where it succeeds.
abbrev stored : Result Entries → Entries
stored (ok s) = s
stored (err e) = λ k. none

abbrev logged : Result (List Admin × Entries) → Entries
logged (ok p) = p.1
logged (err e) = λ k. none

-- An older session, then a new one, then the log-out of the new one.
abbrev first : Entries
first = set_admin_session function_client true 7 (codes "old") 1000 (λ k. none)

abbrev second_login : Entries
second_login = logged (
    login function_client true passwords phone (codes "secret") (codes "new") 2000 (admin ∷ [])
      first)

abbrev logged_out : Entries
logged_out = stored (logout function_client true 7 (codes "new") 3000 second_login)

finds : find_by_phone_number phone (admin ∷ []) ≡ some admin
unfolding find_by_phone_number
finds = refl

logs_in :
    login function_client true passwords phone
      (codes "secret")
      (codes "new")
      2000
      (admin ∷ [])
      first
    ≡ ok (admin ∷ [], second_login)
unfolding login find_by_phone_number check_admin_access_control check_password
logs_in = refl

logs_out : logout function_client true 7 (codes "new") 3000 second_login ≡ ok logged_out
unfolding logout redis_get login find_by_phone_number check_admin_access_control check_password
    redis_set key_eq
logs_out = refl

can_activate-login_example :
    can_activate function_client true true (some 7) (some (codes "old")) 2500 second_login
    ≡ err (unauthorized "invalid_session")
can_activate-login_example =
    can_activate-login function_client passwords phone (codes "secret") (codes "new") (codes "old")
      2000 2500 (admin ∷ []) (admin ∷ []) first second_login admin finds logs_in (ground arith) refl
      refl

can_activate-logout_example :
    (location : String) × (can_activate function_client true true
        (some 7)
        (some (codes "new"))
        4000
        logged_out
      ≡ err (unauthorized location))
can_activate-logout_example =
    can_activate-logout function_client 7 7 (codes "new") 3000 4000 second_login logged_out logs_out
      (ground arith)

can_activate-logout_revives_example :
    (can_activate function_client true true (some 7) (some (codes "old")) 3000 second_login
      ≡ err (unauthorized "invalid_session"))
    × (can_activate function_client true true (some 7) (some (codes "old")) 4000 logged_out
        ≡ ok true)
unfolding set_admin_session redis_set key_eq
can_activate-logout_revives_example =
    can_activate-logout_revives function_client passwords phone (codes "secret") (codes "new")
      (codes "old") 2000 3000 4000 (admin ∷ []) (admin ∷ []) first second_login logged_out admin
      finds logs_in logs_out (ground arith) refl refl refl refl

-- A code that was sent for a reset.
abbrev sent : Entries
sent = redis_set function_client true (reset_code phone) (codes "123456") 300 1000 (λ k. none)

abbrev accepted : Entries
accepted = stored (
    verify_forgot_password_otp function_client true phone (codes "123456") (codes "t0ken") 2000
      sent)

accepts :
    verify_forgot_password_otp function_client true phone (codes "123456") (codes "t0ken") 2000 sent
    ≡ ok accepted
unfolding verify_forgot_password_otp redis_get redis_set key_eq
accepts = refl

reset_password-verify_forgot_password_otp_example :
    (store'' : Entries) × (reset_password function_client true passwords phone
        (codes "t0ken")
        (codes "fresh")
        (codes "fresh")
        3000
        (admin ∷ [])
        accepted
      ≡ ok (set_password phone (codes "fresh") (admin ∷ []), store''))
    × (verify_forgot_password_otp function_client true phone
          (codes "123456")
          (codes "again")
          4000
          store''
        ≡ err (bad_request "invalid_code"))
    × (reset_password function_client true passwords phone
          (codes "again")
          (codes "fresh")
          (codes "fresh")
          4000
          (admin ∷ [])
          store''
        ≡ err (bad_request "invalid_reset_token"))
reset_password-verify_forgot_password_otp_example =
    reset_password-verify_forgot_password_otp function_client passwords phone (codes "123456")
      (codes "t0ken") (codes "fresh") 2000 3000 4000 (admin ∷ []) sent accepted (codes "123456")
      (codes "again") accepts (ground arith) refl
