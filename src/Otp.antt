-- ===== src/Otp.antt =====
-- src/common/services/otp.service.ts: one-time codes in the table `otp_verifications`.
-- A step reads the clock once. What it draws and what the SMS gateway answers are arguments.
-- `updated_at` is left out (nothing reads it), and so are the exceptions of the database.
mod Tests
pub mod Phone
pub mod Live
pub mod Codes
pub mod Lockout
use procare_backend.Common.{
  ℕ, Uuid, ◌+◌, ◌-◌, ◌*◌, Bool, true, false, not, ◌&&◌, Option, none, some, List, [], ◌∷◌, ◌++◌,
  select_where, update_where, delete_where, is_some, find, ltb, leb, ◌==◌, if◌then◌else◌,
}
use procare_backend.Common.Text.{Text, text_eq}
use procare_backend.Otp.Phone.{format_phone_number}

pub data OtpType : Type 0 where
  registration login password_reset phone_verification : OtpType

pub data Language : Type 0 where
  uz ru en : Language

pub record OtpRecord : Type 0 where
  pub id : Uuid
  pub phone_number : Text
  pub code : Text
  pub type : OtpType
  pub language : Language
  pub attempts : ℕ
  pub verified : Bool
  pub expires_at : ℕ
  pub created_at : ℕ

-- The constructor's settings.
pub record OtpConfig : Type 0 where
  pub expiry_minutes : ℕ
  pub max_attempts : ℕ
  pub cooldown_minutes : ℕ

-- What one call of `generateAndSendOtp` gets from outside: the clock, `uuidv4`, the random code,
-- and whether the SMS was sent.
pub record OtpDraw : Type 0 where
  pub now : ℕ
  pub otp_id : Uuid
  pub code : Text
  pub sms_sent : Bool

pub data GenerateResult : Type 0 where
  generated : (otp_id expires_at : ℕ) → GenerateResult
  cooldown_active sms_failed : GenerateResult

pub data VerifyResult : Type 0 where
  verified_ok otp_not_found max_attempts_exceeded invalid_code_max_attempts : VerifyResult
  invalid_code : (remaining_attempts : ℕ) → VerifyResult

unfoldable pub type_eq : OtpType → OtpType → Bool
type_eq registration registration = true
type_eq login login = true
type_eq password_reset password_reset = true
type_eq phone_verification phone_verification = true
type_eq _ _ = false

-- `.where({ phone_number, type })`
unfoldable pub is_for : Text → OtpType → OtpRecord → Bool
is_for phone type r = text_eq r.phone_number phone && type_eq r.type type

-- `.where({ phone_number, type, verified: false })`
unfoldable pub is_live : Text → OtpType → OtpRecord → Bool
is_live phone type r = is_for phone type r && not r.verified

abbrev pub minute : ℕ
minute = 60 * 1000

-- `.orderBy('created_at', 'desc').first()`
unfoldable pub latest : List OtpRecord → Option OtpRecord
latest [] = none
latest (r ∷ rows) = elim (latest rows) [
  | none ↦ some r
  | some q ↦ if ltb r.created_at q.created_at then some q else some r
]

-- `created_at > now - cooldown`, with the subtraction moved over
unfoldable pub check_cooldown : OtpConfig → Text → OtpType → ℕ → List OtpRecord → Option OtpRecord
check_cooldown cfg phone type now db = latest (
    select_where
      (λ r. is_for phone type r && ltb now (r.created_at + cfg.cooldown_minutes * minute)) db)

abbrev pub close : OtpRecord → OtpRecord
close r = record r { verified = true }

unfoldable pub deactivate_existing_otps : Text → OtpType → List OtpRecord → List OtpRecord
deactivate_existing_otps phone type = update_where (is_live phone type) close

abbrev pub has_otp_id : Uuid → OtpRecord → Bool
has_otp_id id r = r.id == id

unfoldable pub deactivate_otp : Uuid → List OtpRecord → List OtpRecord
deactivate_otp id = update_where (has_otp_id id) close

abbrev pub new_record : OtpConfig → Text → OtpType → Language → OtpDraw → OtpRecord
new_record cfg phone type language draw = record {
  id = draw.otp_id;
  phone_number = phone;
  code = draw.code;
  type = type;
  language = language;
  attempts = 0;
  verified = false;
  expires_at = draw.now + cfg.expiry_minutes * minute;
  created_at = draw.now;
}

unfoldable pub generate_and_send_otp :
    OtpConfig
    → Text
    → OtpType
    → Language
    → OtpDraw
    → List OtpRecord
    → List OtpRecord × GenerateResult
generate_and_send_otp cfg phone_number type language draw db =
    let phone = format_phone_number phone_number in
    let stored =
      deactivate_existing_otps phone type db ++ new_record cfg phone type language draw ∷ [] in
    if is_some (check_cooldown cfg phone type draw.now db)
    then (db, cooldown_active)
    else if draw.sms_sent
    then (stored, generated draw.otp_id (draw.now + cfg.expiry_minutes * minute))
    else (delete_where (has_otp_id draw.otp_id) stored, sms_failed)

-- The live record that a code is checked against.
unfoldable pub active_otp : Text → OtpType → ℕ → List OtpRecord → Option OtpRecord
active_otp phone type now db =
    latest (select_where (λ r. is_live phone type r && ltb now r.expires_at) db)

abbrev pub count_attempt : ℕ → OtpRecord → OtpRecord
count_attempt attempts r = record r { attempts = attempts + 1 }

-- `verifyOtp` once the record is found.
unfoldable pub verify_found :
    OtpConfig → OtpRecord → Text → List OtpRecord → List OtpRecord × VerifyResult
verify_found cfg r code db =
    let counted = update_where (has_otp_id r.id) (count_attempt r.attempts) db in
    let remaining = cfg.max_attempts - (r.attempts + 1) in
    if leb cfg.max_attempts r.attempts
    then (deactivate_otp r.id db, max_attempts_exceeded)
    else if text_eq r.code code
    then (deactivate_otp r.id counted, verified_ok)
    else if remaining == 0
    then (deactivate_otp r.id counted, invalid_code_max_attempts)
    else (counted, invalid_code remaining)

unfoldable pub verify_otp :
    OtpConfig → Text → Text → OtpType → ℕ → List OtpRecord → List OtpRecord × VerifyResult
unfolding verify_found
verify_otp cfg phone_number code type now db =
    elim (active_otp (format_phone_number phone_number) type now db) [
      | none ↦ (db, otp_not_found)
      | some r ↦ verify_found cfg r code db
    ]

unfoldable pub resend_otp :
    OtpConfig
    → Text
    → OtpType
    → Language
    → OtpDraw
    → List OtpRecord
    → List OtpRecord × GenerateResult
resend_otp cfg phone_number type language draw db =
    let phone = format_phone_number phone_number in
    generate_and_send_otp cfg phone type language draw (deactivate_existing_otps phone type db)

-- `created_at >= now - withinMinutes`
unfoldable pub has_verified_otp : Text → OtpType → ℕ → ℕ → List OtpRecord → Bool
has_verified_otp phone_number type within_minutes now db = is_some (
    find
      (λ r.
        is_for (format_phone_number phone_number) type r
        && (r.verified && leb now (r.created_at + within_minutes * minute)))
      db)

-- `created_at < now - 24 h`
unfoldable pub cleanup_expired_otps : ℕ → List OtpRecord → List OtpRecord
cleanup_expired_otps now = delete_where (λ r. ltb (r.created_at + 24 * 60 * minute) now)
