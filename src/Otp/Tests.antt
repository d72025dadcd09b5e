-- ===== src/Otp/Tests.antt =====
-- One-time codes at a concrete number.
use procare_backend.Common.{◌≡◌, refl, true, List, [], ◌∷◌, arith}
use procare_backend.Common.Text.{Text, codes}
use procare_backend.Otp.{
  OtpConfig, login, uz, OtpDraw, OtpRecord, generated, cooldown_active, verified_ok, otp_not_found,
  new_record, generate_and_send_otp, verify_otp, resend_otp, has_verified_otp, latest,
  check_cooldown, deactivate_existing_otps,
}
use procare_backend.Otp.Phone.{format_phone_number, format_phone_number_idempotent}
use procare_backend.Otp.Codes.{verify-generate, resend-generate}
use procare_backend.Otp.Lockout.{AreWrong, run_guesses, verify-run_guesses}

abbrev config : OtpConfig
config = record { expiry_minutes = 5; max_attempts = 2; cooldown_minutes = 1 }

abbrev phone : Text
phone = codes "90 123 45 67"

abbrev draw : OtpDraw
draw = record { now = 1000000; otp_id = 9; code = codes "1234"; sms_sent = true }

abbrev again : OtpDraw
again = record { now = 1000500; otp_id = 10; code = codes "5678"; sms_sent = true }

abbrev sent : List OtpRecord
sent = new_record config (codes "+998901234567") login uz draw ∷ []

generates : generate_and_send_otp config phone login uz draw [] ≡ (sent, generated 9 1300000)
unfolding generate_and_send_otp format_phone_number check_cooldown latest deactivate_existing_otps
generates = refl

format_phone_number_idempotent_example :
    format_phone_number (format_phone_number phone) ≡ format_phone_number phone
format_phone_number_idempotent_example = format_phone_number_idempotent phone

verify-generate_example :
    ((verify_otp config phone (codes "1234") login 1200000 sent).1 ≡ verified_ok)
    × ((verify_otp config phone
          (codes "1234")
          login
          1200001
          (verify_otp config phone (codes "1234") login 1200000 sent).0).1
        ≡ otp_not_found)
verify-generate_example =
    verify-generate config phone login uz draw [] sent 9 1300000 1200000 (codes "1234") 1200001
      generates (omega arith) (omega arith)

resend-generate_example :
    ((resend_otp config phone login uz again sent).1 ≡ cooldown_active)
    × ((verify_otp config phone
          (codes "1234")
          login
          1000600
          (resend_otp config phone login uz again sent).0).1
        ≡ otp_not_found)
    × (has_verified_otp phone login 10 1000700 (resend_otp config phone login uz again sent).0
        ≡ true)
resend-generate_example =
    resend-generate config phone login uz draw again [] sent 9 1300000 (codes "1234") 1000600 10
      1000700 generates (ground arith) (ground arith)

verify-run_guesses_example :
    (verify_otp config phone (codes "1234") login 1200000 (
      run_guesses config phone login
        ((codes "1111", 1100000) ∷ (codes "2222", 1100001) ∷ [])
        sent)).1
    ≡ otp_not_found
unfolding AreWrong
verify-run_guesses_example =
    verify-run_guesses config phone login uz draw [] sent 9 1300000 1200000
      ((codes "1111", 1100000) ∷ (codes "2222", 1100001) ∷ []) generates (omega arith)
      (refl, omega arith, (refl, omega arith, tt)) (omega arith)
