-- ===== src/Otp/Codes.antt =====
-- A code that was sent: it verifies once, and a resend within the cooldown throws it away.
use procare_backend.Common.{
  ℕ, ◌+◌, ◌*◌, ◌≤◌, ◌<◌, ◌≡◌, refl, ◌∙◌, ap, Bool, true, false, ◌&&◌, ◌||◌, none, some, List, [],
  ◌∷◌, ◌++◌, select_where, update_where, is_some, any, any-append, ltb, leb, arith,
}
use procare_backend.Common.Text.{Text, text_eq}
use procare_backend.Otp.{
  OtpConfig, OtpType, Language, OtpDraw, OtpRecord, generated, cooldown_active, verified_ok,
  otp_not_found, is_for, is_live, minute, latest, check_cooldown, close, deactivate_existing_otps,
  has_otp_id, new_record, generate_and_send_otp, active_otp, count_attempt, verify_found,
  verify_otp, resend_otp, has_verified_otp,
}
use procare_backend.Otp.Phone.{format_phone_number, format_phone_number_idempotent}
use procare_backend.Otp.Live.{
  live, select_where-append, update_where-append, active_otp-live, live-deactivate_existing_otps,
  live-count_attempt, live-deactivate_otp, text_eq_refl, type_eq_refl, is_some-find, is_some-latest,
}

or-true : (b : Bool) → (b || true) ≡ true
or-true true = refl
or-true false = refl

module _ (cfg : OtpConfig) (phone_number : Text) (type : OtpType) where
  -- With no live code nothing verifies, and nothing changes.
  pub verify_otp-none_live :
      (code : Text) (now : ℕ) (db : List OtpRecord)
      → live (format_phone_number phone_number) type db ≡ []
      → verify_otp cfg phone_number code type now db ≡ (db, otp_not_found)
  unfolding verify_otp latest
  verify_otp-none_live code now db e =
      let a : active_otp (format_phone_number phone_number) type now db ≡ none =
        active_otp-live (format_phone_number phone_number) type now db ∙ rw e in
      rw (a, verify_otp)

  -- With one live code, not expired, that record is the one that is checked.
  pub verify_otp-one_live :
      (code : Text) (now : ℕ) (db : List OtpRecord) (r : OtpRecord)
      → live (format_phone_number phone_number) type db ≡ r ∷ []
      → now < r.expires_at
      → verify_otp cfg phone_number code type now db ≡ verify_found cfg r code db
  unfolding verify_otp latest
  verify_otp-one_live code now db r e fresh =
      let t : ltb now r.expires_at ≡ true = ground arith in
      let a : active_otp (format_phone_number phone_number) type now db ≡ some r =
        active_otp-live (format_phone_number phone_number) type now db ∙ rw (e, t) in
      rw (a, verify_otp)

  -- A code that was generated is the only live one.
  pub live-generate :
      (language : Language) (draw : OtpDraw) (db db' : List OtpRecord) (id expires : ℕ)
      → generate_and_send_otp cfg phone_number type language draw db ≡ (db', generated id expires)
      → (live (format_phone_number phone_number) type db'
          ≡ new_record cfg (format_phone_number phone_number) type language draw ∷ [])
        × (expires ≡ draw.now + cfg.expiry_minutes * minute)
        × (db'
            ≡ deactivate_existing_otps (format_phone_number phone_number) type db
              ++ new_record cfg (format_phone_number phone_number) type language draw ∷ [])
  unfolding generate_and_send_otp
  live-generate language draw db db' id expires e =
      let phone = format_phone_number phone_number in
      let fresh = new_record cfg phone type language draw in
      let stored : db' ≡ deactivate_existing_otps phone type db ++ fresh ∷ [] = ground arith in
      let is_fresh : is_live phone type fresh ≡ true =
        unfold is_live is_for in rw (text_eq_refl phone, type_eq_refl type) in
      (
        ap (live phone type) stored
            ∙ select_where-append (is_live phone type) (deactivate_existing_otps phone type db)
                (fresh ∷ [])
            ∙ rw (live-deactivate_existing_otps phone type db, is_fresh),
        ground arith,
        stored,
      )

  -- The right code closes the only live record.
  pub verify_found-right :
      (r : OtpRecord) (code : Text) (db : List OtpRecord)
      → live (format_phone_number phone_number) type db ≡ r ∷ []
      → is_live (format_phone_number phone_number) type r ≡ true
      → r.attempts < cfg.max_attempts
      → text_eq r.code code ≡ true
      → ((verify_found cfg r code db).1 ≡ verified_ok)
        × (live (format_phone_number phone_number) type (verify_found cfg r code db).0 ≡ [])
  unfolding verify_found
  verify_found-right r code db one alive left right =
      let phone = format_phone_number phone_number in
      let allowed : leb cfg.max_attempts r.attempts ≡ false = ground arith in
      let counted = live-count_attempt phone type r r.attempts db one alive in
      (
        rw (allowed, right),
        rw (allowed, right)
            (live-deactivate_otp phone type r
              (update_where (has_otp_id r.id) (count_attempt r.attempts) db)
              (count_attempt r.attempts r) counted refl),
      )

  pub fresh-is_live :
      (language : Language) (draw : OtpDraw)
      → is_live
          (format_phone_number phone_number)
          type
          (new_record cfg (format_phone_number phone_number) type language draw)
        ≡ true
  unfolding is_live is_for
  fresh-is_live language draw =
      rw (text_eq_refl (format_phone_number phone_number), type_eq_refl type)

  -- A code that was sent verifies before it expires, if an attempt is allowed; with the records
  -- that this leaves no code is accepted, at any time.
  pub verify-generate :
      (language : Language) (draw : OtpDraw) (db db' : List OtpRecord) (id expires now : ℕ)
      (code : Text) (later : ℕ)
      → generate_and_send_otp cfg phone_number type language draw db ≡ (db', generated id expires)
      → now < expires
      → 0 < cfg.max_attempts
      → ((verify_otp cfg phone_number draw.code type now db').1 ≡ verified_ok)
        × ((verify_otp cfg phone_number code type later
              (verify_otp cfg phone_number draw.code type now db').0).1
            ≡ otp_not_found)
  verify-generate language draw db db' id expires now code later e early allowed =
      let phone = format_phone_number phone_number in
      let fresh = new_record cfg phone type language draw in
      let (one, at, _) = live-generate language draw db db' id expires e in
      let step = verify_otp-one_live draw.code now db' fresh one (omega arith) in
      let (good, gone) =
        verify_found-right fresh draw.code db' one (fresh-is_live language draw) allowed
          (text_eq_refl draw.code) in
      (rw step good, ap (λ p. p.1) (verify_otp-none_live code later _ (rw step gone)))

  -- A generated record shows in every query that it meets, also once it is closed.
  any-stored :
      (q : OtpRecord → Bool) (language : Language) (draw : OtpDraw) (db db' : List OtpRecord)
      (id expires : ℕ)
      → generate_and_send_otp cfg phone_number type language draw db ≡ (db', generated id expires)
      → q (close (new_record cfg (format_phone_number phone_number) type language draw)) ≡ true
      → any q (deactivate_existing_otps (format_phone_number phone_number) type db') ≡ true
  unfolding deactivate_existing_otps
  any-stored q language draw db db' id expires e h =
      let phone = format_phone_number phone_number in
      let fresh = new_record cfg phone type language draw in
      let (_, _, stored) = live-generate language draw db db' id expires e in
      rw (stored, update_where-append (is_live phone type) close _ (fresh ∷ []))
        (rw (any-append q, fresh-is_live language draw, h) (or-true _))

  resend_otp-cooldown :
      (language : Language) (draw again : OtpDraw) (db db' : List OtpRecord) (id expires : ℕ)
      → generate_and_send_otp cfg phone_number type language draw db ≡ (db', generated id expires)
      → again.now < draw.now + cfg.cooldown_minutes * minute
      → resend_otp cfg phone_number type language again db'
        ≡ (deactivate_existing_otps (format_phone_number phone_number) type db', cooldown_active)
  unfolding resend_otp generate_and_send_otp check_cooldown is_for
  resend_otp-cooldown language draw again db db' id expires e soon =
      let phone = format_phone_number phone_number in
      let closed = deactivate_existing_otps phone type db' in
      let recent = λ (r : OtpRecord).
        is_for phone type r && ltb again.now (r.created_at + cfg.cooldown_minutes * minute) in
      let waits : is_some (latest (select_where recent closed)) ≡ true =
        is_some-latest recent closed
        ∙ any-stored recent language draw db db' id expires e
            (rw (text_eq_refl phone, type_eq_refl type) (ground arith)) in
      rw (format_phone_number_idempotent phone_number, waits)

  -- A resend within the cooldown of a code that was sent is refused and sends nothing, but it has
  -- closed the code: with the records that it leaves no code is accepted at any time, and
  -- `hasVerifiedOtp` reports a verified number as long as the code was made within the minutes asked
  -- for.
  pub resend-generate :
      (language : Language) (draw again : OtpDraw) (db db' : List OtpRecord) (id expires : ℕ)
      (code : Text) (later within soon_after : ℕ)
      → generate_and_send_otp cfg phone_number type language draw db ≡ (db', generated id expires)
      → again.now < draw.now + cfg.cooldown_minutes * minute
      → soon_after ≤ draw.now + within * minute
      → ((resend_otp cfg phone_number type language again db').1 ≡ cooldown_active)
        × ((verify_otp cfg phone_number code type later
              (resend_otp cfg phone_number type language again db').0).1
            ≡ otp_not_found)
        × (has_verified_otp phone_number type within soon_after
              (resend_otp cfg phone_number type language again db').0
            ≡ true)
  unfolding has_verified_otp is_for
  resend-generate language draw again db db' id expires code later within soon_after e soon recent =
      let phone = format_phone_number phone_number in
      let refused = resend_otp-cooldown language draw again db db' id expires e soon in
      (
        ap (λ p. p.1) refused,
        ap (λ p. p.1)
            (verify_otp-none_live code later _
              (rw refused (live-deactivate_existing_otps phone type db'))),
        rw refused (
            is_some-find
              (λ r.
                is_for phone type r
                && (r.verified && leb soon_after (r.created_at + within * minute)))
              (deactivate_existing_otps phone type db')
            ∙ any-stored
                (λ r.
                  is_for phone type r
                  && (r.verified && leb soon_after (r.created_at + within * minute)))
                language draw db db' id expires e
                (rw (text_eq_refl phone, type_eq_refl type) (ground arith))),
      )
