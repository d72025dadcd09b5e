-- ===== src/Otp/Lockout.antt =====
-- Guessing: how many wrong codes a live record stands.
use procare_backend.Common.{
  ℕ, suc, ◌+◌, ◌-◌, ◌<◌, ◌≡◌, refl, ◌∙◌, ap, inl, inr, true, false, List, [], ◌∷◌, length,
  update_where, ltb, leb, ◌==◌, if◌then◌else◌, arith, Bool-cases, sym,
}
use procare_backend.Common.Text.{Text, text_eq}
use procare_backend.Otp.{
  OtpConfig, OtpType, Language, OtpDraw, OtpRecord, generated, verified_ok, otp_not_found, is_live,
  is_for, has_otp_id, new_record, generate_and_send_otp, count_attempt, verify_found, verify_otp,
}
use procare_backend.Otp.Phone.{format_phone_number}
use procare_backend.Otp.Live.{live, live-count_attempt, live-deactivate_otp, text_eq_refl}
use procare_backend.Otp.Codes.{
  verify_otp-none_live, verify_otp-one_live, live-generate, verify_found-right, fresh-is_live,
}

-- Wrong guesses before the code expires.
unfoldable pub AreWrong : Text → ℕ → List (Text × ℕ) → Type 0
AreWrong code expires [] = Unit
AreWrong code expires ((guess, now) ∷ guesses) =
    (text_eq code guess ≡ false) × (now < expires) × AreWrong code expires guesses

module _ (cfg : OtpConfig) (phone_number : Text) (type : OtpType) where
  -- A sequence of calls of `verifyOtp` with a code and a time each.
  unfoldable pub run_guesses : List (Text × ℕ) → List OtpRecord → List OtpRecord
  run_guesses [] db = db
  run_guesses ((code, now) ∷ guesses) db =
      run_guesses guesses (verify_otp cfg phone_number code type now db).0

  run_guesses-none_live :
      (guesses : List (Text × ℕ)) (db : List OtpRecord)
      → live (format_phone_number phone_number) type db ≡ []
      → live (format_phone_number phone_number) type (run_guesses guesses db) ≡ []
  unfolding run_guesses
  run_guesses-none_live [] db e = e
  run_guesses-none_live ((code, now) ∷ guesses) db e =
      run_guesses-none_live guesses _
        (rw (verify_otp-none_live cfg phone_number type code now db e) e)

  -- A wrong code costs the only live record an attempt, and the last one closes it.
  live-verify_found_wrong :
      (r : OtpRecord) (code : Text) (db : List OtpRecord)
      → live (format_phone_number phone_number) type db ≡ r ∷ []
      → is_live (format_phone_number phone_number) type r ≡ true
      → r.attempts < cfg.max_attempts
      → text_eq r.code code ≡ false
      → live (format_phone_number phone_number) type (verify_found cfg r code db).0
        ≡ (if leb cfg.max_attempts (r.attempts + 1) then [] else count_attempt r.attempts r ∷ [])
  unfolding verify_found
  live-verify_found_wrong r code db one alive left wrong =
      let phone = format_phone_number phone_number in
      let allowed : leb cfg.max_attempts r.attempts ≡ false = ground arith in
      let counted = live-count_attempt phone type r r.attempts db one alive in
      elim (Bool-cases (leb cfg.max_attempts (r.attempts + 1))) [
        | inl last ↦
            let over : (cfg.max_attempts - (r.attempts + 1) == 0) ≡ true = ground arith in
            rw (last, allowed, wrong, over)
              (live-deactivate_otp phone type r
                (update_where (has_otp_id r.id) (count_attempt r.attempts) db)
                (count_attempt r.attempts r) counted refl)
        | inr more ↦
            let under : (cfg.max_attempts - (r.attempts + 1) == 0) ≡ false = ground arith in
            rw (more, allowed, wrong, under) counted
      ]

  live-run_guesses :
      (r : OtpRecord) (db : List OtpRecord) (guesses : List (Text × ℕ))
      → live (format_phone_number phone_number) type db ≡ r ∷ []
      → is_live (format_phone_number phone_number) type r ≡ true
      → r.attempts < cfg.max_attempts
      → AreWrong r.code r.expires_at guesses
      → live (format_phone_number phone_number) type (run_guesses guesses db) ≡ (
          if leb cfg.max_attempts (r.attempts + length guesses)
          then []
          else record r { attempts = r.attempts + length guesses } ∷ [])
  unfolding run_guesses AreWrong is_live is_for
  live-run_guesses r db [] one alive left wrong =
      let more : leb cfg.max_attempts r.attempts ≡ false = ground arith in
      let same : r.attempts + 0 ≡ r.attempts = omega arith in rw (same, more) one
  live-run_guesses r db ((guess, now) ∷ guesses) one alive left (wrong, early, rest) =
      let phone = format_phone_number phone_number in
      let step = verify_otp-one_live cfg phone_number type guess now db r one early in
      let next = live-verify_found_wrong r guess db one alive left wrong in
      elim (Bool-cases (leb cfg.max_attempts (r.attempts + 1))) [
        | inl last ↦
            let locked : leb cfg.max_attempts (r.attempts + suc (length guesses)) ≡ true =
              ground arith in
            rw (step, locked) (run_guesses-none_live guesses _ (next ∙ rw last))
        | inr more ↦
            let shift : r.attempts + suc (length guesses) ≡ (r.attempts + 1) + length guesses =
              omega arith in
            rw (step, shift)
              (live-run_guesses (count_attempt r.attempts r) (verify_found cfg r guess db).0 guesses
                (next ∙ rw more) alive (ground arith) rest)
      ]

  -- After a code was sent, wrong guesses before it expires lock it exactly when there are as many as
  -- the allowed attempts: with fewer of them the code still verifies before it expires, and with as
  -- many it does not.
  pub verify-run_guesses :
      (language : Language) (draw : OtpDraw) (db db' : List OtpRecord) (id expires now : ℕ)
      (guesses : List (Text × ℕ))
      → generate_and_send_otp cfg phone_number type language draw db ≡ (db', generated id expires)
      → 0 < cfg.max_attempts
      → AreWrong draw.code expires guesses
      → now < expires
      → (verify_otp cfg phone_number draw.code type now (run_guesses guesses db')).1
        ≡ (if ltb (length guesses) cfg.max_attempts then verified_ok else otp_not_found)
  unfolding AreWrong
  verify-run_guesses language draw db db' id expires now guesses e allowed wrong early =
      let fresh = new_record cfg (format_phone_number phone_number) type language draw in
      let (one, at, _) = live-generate cfg phone_number type language draw db db' id expires e in
      let alive = fresh-is_live cfg phone_number type language draw in
      let left : live (format_phone_number phone_number) type (run_guesses guesses db') ≡ (
          if leb cfg.max_attempts (0 + length guesses)
          then []
          else record fresh { attempts = 0 + length guesses } ∷ []) =
        live-run_guesses fresh db' guesses one alive allowed (rw (sym at) wrong) in
      elim (Bool-cases (leb cfg.max_attempts (0 + length guesses))) [
        | inl locked ↦
            let closed : ltb (length guesses) cfg.max_attempts ≡ false = ground arith in
            ap (λ p. p.1)
              (verify_otp-none_live cfg phone_number type draw.code now _ (left ∙ rw locked))
            ∙ rw closed
        | inr unlocked ↦
            let below : ltb (length guesses) cfg.max_attempts ≡ true = ground arith in
            let counted : OtpRecord = record fresh { attempts = 0 + length guesses } in
            let one' : live (format_phone_number phone_number) type (run_guesses guesses db')
                ≡ counted ∷ [] =
              left ∙ rw unlocked in
            rw
              (
                verify_otp-one_live cfg phone_number type draw.code now (run_guesses guesses db')
                    counted one' (omega arith),
                below,
              )
              (verify_found-right cfg phone_number type counted draw.code (run_guesses guesses db')
                one' (unfold is_live is_for in alive) (ground arith) (text_eq_refl draw.code)).0
      ]
