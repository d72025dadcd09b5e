-- ===== src/Auth/Reset.antt =====
-- The reset of a password: the code and the token each serve once.
use procare_backend.Common.{
  ℕ, ◌+◌, ◌*◌, ◌<◌, ◌≡◌, refl, sym, ◌∙◌, ap, true, none, some, List, ltb, arith,
}
use procare_backend.Common.Text.{Text}
use procare_backend.Common.Result.{ok, err, bad_request, guard->>-eq-ok, ok-injective}
use procare_backend.Redis.{
  reset_code, reset_token, key_eq, second, RedisClient, redis_get, redis_set, redis_del,
}
use procare_backend.Redis.Store.{text_eq_self}
use procare_backend.Auth.{
  Admin, Passwords, truthy, holds, set_password, verify_forgot_password_otp, reset_password,
}

module _ (client : RedisClient) where
  verified-store :
      (phone code token : Text) (now : ℕ) (store store' : client.Store)
      → verify_forgot_password_otp client true phone code token now store ≡ ok store'
      → store'
        ≡ client.delete (reset_code phone) (client.set_ex (reset_token phone) token 600 now store)
  unfolding verify_forgot_password_otp redis_set redis_del redis_get
  verified-store phone code token now store store' e = sym (
      ok-injective
        (guard->>-eq-ok (holds code (client.get_at (reset_code phone) now store)) _ _ e).1)

  -- A code that was accepted for a reset gives a token, not empty, that resets the password within ten
  -- minutes, Redis being reachable; with the store that this leaves neither a code nor a token of the
  -- phone number is accepted for a reset, at any time.
  pub reset_password-verify_forgot_password_otp :
      (passwords : Passwords) (phone code token new_password : Text) (now later last : ℕ)
      (admins : List Admin) (store store' : client.Store) (code' token' : Text)
      → verify_forgot_password_otp client true phone code token now store ≡ ok store'
      → later < now + 600 * second
      → truthy (some token) ≡ true
      → (store'' : client.Store) × (reset_password client true passwords phone token new_password
            new_password later admins store'
          ≡ ok (set_password phone (passwords.hash new_password) admins, store''))
        × (verify_forgot_password_otp client true phone code' token' last store''
            ≡ err (bad_request "invalid_code"))
        × (reset_password client true passwords phone token' new_password new_password last admins
              store''
            ≡ err (bad_request "invalid_reset_token"))
  unfolding verify_forgot_password_otp reset_password redis_get redis_del key_eq
  reset_password-verify_forgot_password_otp passwords phone code token new_password now later last
        admins store store' code' token' e soon some_token =
      let stored = verified-store phone code token now store store' e in
      let alive : ltb later (now + 600 * second) ≡ true = ground arith in
      let there : client.get_at (reset_token phone) later store' ≡ some token =
        ap (client.get_at (reset_token phone) later) stored
        ∙ client.get_at-delete_other (reset_token phone) (reset_code phone) later
            (client.set_ex (reset_token phone) token 600 now store) refl
        ∙ client.get_at-set_ex (reset_token phone) token 600 now later store
        ∙ rw alive in
      let no_code : client.get_at (reset_code phone) last (client.delete (reset_token phone) store')
          ≡ none =
        client.get_at-delete_other (reset_code phone) (reset_token phone) last store' refl
        ∙ ap (client.get_at (reset_code phone) last) stored
        ∙ client.get_at-delete (reset_code phone) last
            (client.set_ex (reset_token phone) token 600 now store) in
      (
        client.delete (reset_token phone) store',
        rw (there, some_token, text_eq_self token, text_eq_self new_password),
        rw no_code,
        rw (client.get_at-delete (reset_token phone) last store'),
      )
