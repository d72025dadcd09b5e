-- ===== src/Redis/Store.antt =====
-- A client: a function from keys to values with the time when they expire.
use procare_backend.Common.{
  ℕ, ◌+◌, ◌*◌, ◌≡◌, refl, true, Option, none, some, [], ◌∷◌, ltb, if◌then◌else◌, arith,
}
use procare_backend.Common.Text.{Text, text_eq}
use procare_backend.Redis.{
  RedisKey, session, blacklist, reset_code, reset_token, send_code_limit, key_eq, second,
  RedisClient,
}

abbrev Entries : Type 0
Entries = RedisKey → Option (Text × ℕ)

abbrev fresh : ℕ → Option (Text × ℕ) → Option Text
fresh now none = none
fresh now (some (value, expires_at)) = if ltb now expires_at then some value else none

pub text_eq_self : (s : Text) → text_eq s s ≡ true
text_eq_self [] = refl
text_eq_self (c ∷ s) = ground (arith, text_eq_self s)

pub key_eq_self : (key : RedisKey) → key_eq key key ≡ true
unfolding key_eq
key_eq_self (session a) = ground arith
key_eq_self (blacklist a) = text_eq_self a
key_eq_self (reset_code a) = text_eq_self a
key_eq_self (reset_token a) = text_eq_self a
key_eq_self (send_code_limit a) = text_eq_self a

abbrev pub function_client : RedisClient
function_client = record {
  Store = Entries;
  get_at = λ key now store. fresh now (store key);
  set_ex = λ key value ttl now store.
      λ k. if key_eq k key then some (value, now + ttl * second) else store k;
  delete = λ key store. λ k. if key_eq k key then none else store k;
  get_at-set_ex = λ key value ttl set_at now store. rw (key_eq_self key);
  get_at-set_ex_other = λ key other value ttl set_at now store e. rw e;
  get_at-delete = λ key now store. rw (key_eq_self key);
  get_at-delete_other = λ key other now store e. rw e;
}
