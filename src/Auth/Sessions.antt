-- ===== src/Auth/Sessions.antt =====
-- What a log-in and a log-out do to the tokens of an administrator.
use procare_backend.Common.{
  ℕ, Uuid, ◌+◌, ◌*◌, ◌<◌, ◌≡◌, refl, sym, ◌∙◌, ap, true, false, not, none, some, List, ltb, arith,
  String, inl, inr, Bool-cases,
}
use procare_backend.Common.Text.{Text, text_eq}
use procare_backend.Common.Result.{ok, err, unauthorized, guard->>-eq-ok, >>=-eq-ok, ok-injective}
use procare_backend.Redis.{
  session, blacklist, key_eq, second, RedisClient, redis_get, redis_set, redis_del,
}
use procare_backend.Auth.{
  Admin, Passwords, PasswordCheck, right, legacy, wrong, is_pending, finish_login,
  find_by_phone_number, check_admin_access_control, check_password, truthy, is_other, week,
  blacklisted, set_admin_session, login, logout, can_activate,
}

module _ (client : RedisClient) where
  -- What is stored after a log-out.
  logout-store :
      (admin_id : Uuid) (token : Text) (now : ℕ) (store store' : client.Store)
      → logout client true admin_id token now store ≡ ok store'
      → store'
        ≡ client.set_ex
            (blacklist token)
            blacklisted
            week
            now
            (client.delete (session admin_id) store)
  unfolding logout redis_set redis_del redis_get
  logout-store admin_id token now store store' e =
      sym (
        ok-injective (guard->>-eq-ok (truthy (client.get_at (session admin_id) now store)) _ _ e).1)

  -- The token that was logged out with is blacklisted.
  blacklisted_after :
      (admin_id : Uuid) (token : Text) (now later : ℕ) (store : client.Store)
      → later < now + week * second
      → client.get_at (blacklist token) later (
          client.set_ex
            (blacklist token)
            blacklisted
            week
            now
            (client.delete (session admin_id) store))
        ≡ some blacklisted
  blacklisted_after admin_id token now later store soon =
      let alive : ltb later (now + week * second) ≡ true = ground arith in
      client.get_at-set_ex (blacklist token) blacklisted week now later
        (client.delete (session admin_id) store)
      ∙ rw alive

  -- With the store that a log-out leaves, Redis being reachable, the token that was logged out with
  -- is refused for a week, whatever user it names.
  pub can_activate-logout :
      (admin_id user_id : Uuid) (token : Text) (now later : ℕ) (store store' : client.Store)
      → logout client true admin_id token now store ≡ ok store'
      → later < now + week * second
      → (location : String) × (can_activate client true true
            (some user_id)
            (some token)
            later
            store'
          ≡ err (unauthorized location))
  unfolding can_activate redis_get
  can_activate-logout admin_id user_id token now later store store' e soon =
      let stored = logout-store admin_id token now store store' e in
      let listed =
        ap (client.get_at (blacklist token) later) stored
        ∙ blacklisted_after admin_id token now later store soon in
      elim (Bool-cases (is_other token (client.get_at (session user_id) later store'))) [
        | inl other ↦ ("invalid_session", rw other)
        | inr same ↦ ("blacklisted_token", rw (same, listed))
      ]

  access-ok :
      (admin found : Admin) → check_admin_access_control (some admin) ≡ ok found → found ≡ admin
  unfolding check_admin_access_control
  access-ok admin found e = ground arith

  finish_login-store :
      (passwords : Passwords) (phone password token : Text) (admin : Admin) (now : ℕ)
      (admins admins' : List Admin) (store store' : client.Store) (check : PasswordCheck)
      → finish_login client true passwords phone password token admin now admins store check
        ≡ ok (admins', store')
      → store' ≡ client.set_ex (session admin.id) token week now store
  unfolding finish_login set_admin_session redis_set
  finish_login-store passwords phone password token admin now admins admins' store store' right e =
      sym (ap (λ p. p.1) (ok-injective e))
  finish_login-store passwords phone password token admin now admins admins' store store' legacy e =
      sym (ap (λ p. p.1) (ok-injective e))
  finish_login-store passwords phone password token admin now admins admins' store store' wrong e =
      cc

  -- What is stored after a log-in.
  login-store :
      (passwords : Passwords) (phone password token : Text) (now : ℕ) (admins admins' : List Admin)
      (store store' : client.Store) (admin : Admin)
      → find_by_phone_number phone admins ≡ some admin
      → login client true passwords phone password token now admins store ≡ ok (admins', store')
      → store' ≡ client.set_ex (session admin.id) token week now store
  unfolding login
  login-store passwords phone password token now admins admins' store store' admin found e =
      let opened = rw (found, login) at e in
      let (_, past) = guard->>-eq-ok (not (is_pending admin.status)) _ _ opened in
      let (account, allowed, finished) =
        >>=-eq-ok (check_admin_access_control (some admin)) _ past in
      let same = access-ok admin account allowed in
      finish_login-store passwords phone password token admin now admins admins' store store'
        (check_password passwords password admin.password) (rw same at finished)

  -- With the store that a log-in with a token that is not empty leaves, Redis being reachable, every
  -- other valid token of the administrator is refused for a week.
  pub can_activate-login :
      (passwords : Passwords) (phone password token other : Text) (now later : ℕ)
      (admins admins' : List Admin) (store store' : client.Store) (admin : Admin)
      → find_by_phone_number phone admins ≡ some admin
      → login client true passwords phone password token now admins store ≡ ok (admins', store')
      → later < now + week * second
      → truthy (some token) ≡ true
      → text_eq token other ≡ false
      → can_activate client true true (some admin.id) (some other) later store'
        ≡ err (unauthorized "invalid_session")
  unfolding can_activate redis_get
  can_activate-login passwords phone password token other now later admins admins' store store'
        admin found e soon some_token differs =
      let stored =
        login-store passwords phone password token now admins admins' store store' admin found e in
      let alive : ltb later (now + week * second) ≡ true = ground arith in
      let now_there : client.get_at (session admin.id) later store' ≡ some token =
        ap (client.get_at (session admin.id) later) stored
        ∙ client.get_at-set_ex (session admin.id) token week now later store
        ∙ rw alive in
      rw (now_there, some_token, differs)

  -- After a log-in with a new token and a log-out with it within a week, Redis being reachable, an
  -- older valid token of the administrator that is not blacklisted is accepted again by the guard,
  -- although the log-in had shut it out.
  pub can_activate-logout_revives :
      (passwords : Passwords) (phone password token older : Text) (now later last : ℕ)
      (admins admins' : List Admin) (store store' store'' : client.Store) (admin : Admin)
      → find_by_phone_number phone admins ≡ some admin
      → login client true passwords phone password token now admins store ≡ ok (admins', store')
      → logout client true admin.id token later store' ≡ ok store''
      → later < now + week * second
      → truthy (some token) ≡ true
      → text_eq token older ≡ false
      → text_eq older token ≡ false
      → client.get_at (blacklist older) last store ≡ none
      → (can_activate client true true (some admin.id) (some older) later store'
          ≡ err (unauthorized "invalid_session"))
        × (can_activate client true true (some admin.id) (some older) last store'' ≡ ok true)
  unfolding can_activate redis_get key_eq
  can_activate-logout_revives passwords phone password token older now later last admins admins'
        store store' store'' admin found e out soon some_token differs differs' clean =
      let stored =
        login-store passwords phone password token now admins admins' store store' admin found e in
      let stored' = logout-store admin.id token later store' store'' out in
      let no_session : client.get_at (session admin.id) last store'' ≡ none =
        ap (client.get_at (session admin.id) last) stored'
        ∙ client.get_at-set_ex_other (session admin.id) (blacklist token) blacklisted week later
            last (client.delete (session admin.id) store') refl
        ∙ client.get_at-delete (session admin.id) last store' in
      let not_listed : client.get_at (blacklist older) last store'' ≡ none =
        ap (client.get_at (blacklist older) last) stored'
        ∙ client.get_at-set_ex_other (blacklist older) (blacklist token) blacklisted week later last
            (client.delete (session admin.id) store') differs'
        ∙ client.get_at-delete_other (blacklist older) (session admin.id) last store' refl
        ∙ ap (client.get_at (blacklist older) last) stored
        ∙ client.get_at-set_ex_other (blacklist older) (session admin.id) token week now last store
            refl
        ∙ clean in
      (
        can_activate-login passwords phone password token older now later admins admins' store
            store' admin found e soon some_token differs,
        rw (no_session, not_listed),
      )
