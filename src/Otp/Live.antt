-- ===== src/Otp/Live.antt =====
-- The live codes of a phone number and type: how the steps of the service change them.
use procare_backend.Common.{
  ℕ, ◌≡◌, refl, ◌∙◌, ap, inl, inr, Bool, true, false, ◌&&◌, List, [], ◌∷◌, ◌++◌, select_where,
  update_where, find, is_some, any, ltb, ◌==◌, arith, Bool-cases,
}
use procare_backend.Common.Text.{Text, text_eq}
use procare_backend.Otp.{
  OtpType, OtpRecord, type_eq, is_for, is_live, latest, close, deactivate_existing_otps, has_otp_id,
  deactivate_otp, active_otp, count_attempt,
}

eq_self : (a : ℕ) → (a == a) ≡ true
eq_self a = ground arith

module _ {ℓ} {A : Type ℓ} where
  pub select_where-update_where :
      (q p : A → Bool) (f : A → A) (xs : List A)
      → ((x : A) → q x ≡ false → q (f x) ≡ false)
      → select_where q (update_where p f xs) ≡ select_where q (update_where p f (select_where q xs))
  select_where-update_where q p f [] h = refl
  select_where-update_where q p f (x ∷ xs) h = elim (Bool-cases (q x)) [
    | inl e ↦ rw e (ground (arith, select_where-update_where q p f xs h))
    | inr e ↦ rw e (ground (arith, e, h x e, select_where-update_where q p f xs h))
  ]

  pub select_where-append :
      (q : A → Bool) (xs ys : List A)
      → select_where q (xs ++ ys) ≡ select_where q xs ++ select_where q ys
  select_where-append q [] ys = refl
  select_where-append q (x ∷ xs) ys = ground (arith, select_where-append q xs ys)

  pub update_where-append :
      (p : A → Bool) (f : A → A) (xs ys : List A)
      → update_where p f (xs ++ ys) ≡ update_where p f xs ++ update_where p f ys
  update_where-append p f [] ys = refl
  update_where-append p f (x ∷ xs) ys = rw (update_where-append p f xs ys)

  pub select_where-and :
      (p q : A → Bool) (xs : List A)
      → select_where (λ x. p x && q x) xs ≡ select_where q (select_where p xs)
  select_where-and p q [] = refl
  select_where-and p q (x ∷ xs) = ground (arith, select_where-and p q xs)

  pub select_where-update_none :
      (q : A → Bool) (f : A → A) (xs : List A)
      → ((x : A) → q (f x) ≡ false)
      → select_where q (update_where q f xs) ≡ []
  select_where-update_none q f [] h = refl
  select_where-update_none q f (x ∷ xs) h = ground (arith, h x, select_where-update_none q f xs h)

module _ (phone : Text) (type : OtpType) where
  -- The codes that can still be tried.
  abbrev pub live : List OtpRecord → List OtpRecord
  live = select_where (is_live phone type)

  pub active_otp-live :
      (now : ℕ) (db : List OtpRecord)
      → active_otp phone type now db ≡ latest (select_where (λ r. ltb now r.expires_at) (live db))
  unfolding active_otp
  active_otp-live now db =
      ap latest (select_where-and (is_live phone type) (λ r. ltb now r.expires_at) db)

  pub live-deactivate_existing_otps :
      (db : List OtpRecord) → live (deactivate_existing_otps phone type db) ≡ []
  unfolding deactivate_existing_otps
  live-deactivate_existing_otps db =
      select_where-update_none (is_live phone type) close db (λ r. unfold is_live in ground arith)

  close_dead : (r : OtpRecord) → is_live phone type r ≡ false → is_live phone type (close r) ≡ false
  unfolding is_live is_for
  close_dead r h = ground arith

  count_dead :
      (n : ℕ) (r : OtpRecord)
      → is_live phone type r ≡ false
      → is_live phone type (count_attempt n r) ≡ false
  unfolding is_live is_for
  count_dead n r h = h

  count_live :
      (n : ℕ) (r : OtpRecord)
      → is_live phone type r ≡ true
      → is_live phone type (count_attempt n r) ≡ true
  unfolding is_live is_for
  count_live n r h = h

  closed_dead : (r : OtpRecord) → is_live phone type (close r) ≡ false
  unfolding is_live
  closed_dead r = ground arith

  -- One live record is counted, or closed, by its id.
  pub live-count_attempt :
      (r : OtpRecord) (n : ℕ) (db : List OtpRecord)
      → live db ≡ r ∷ []
      → is_live phone type r ≡ true
      → live (update_where (has_otp_id r.id) (count_attempt n) db) ≡ count_attempt n r ∷ []
  live-count_attempt r n db e h =
      select_where-update_where (is_live phone type) (has_otp_id r.id) (count_attempt n) db
        (count_dead n)
      ∙ rw (e, eq_self r.id, count_live n r h)

  pub live-deactivate_otp :
      (r : OtpRecord) (db : List OtpRecord) (q : OtpRecord)
      → live db ≡ q ∷ []
      → q.id ≡ r.id
      → live (deactivate_otp r.id db) ≡ []
  unfolding deactivate_otp is_live is_for
  live-deactivate_otp r db q e same =
      select_where-update_where (is_live phone type) (has_otp_id r.id) close db close_dead
      ∙ rw (e, same, eq_self r.id, closed_dead q)

pub text_eq_refl : (s : Text) → text_eq s s ≡ true
text_eq_refl [] = refl
text_eq_refl (c ∷ s) = rw (eq_self c) (text_eq_refl s)

pub type_eq_refl : (t : OtpType) → type_eq t t ≡ true
unfolding type_eq
type_eq_refl t = ground arith

module _ {ℓ} {A : Type ℓ} where
  pub any-update_where :
      (q p : A → Bool) (f : A → A) (xs : List A)
      → ((x : A) → q x ≡ true → q (f x) ≡ true)
      → any q xs ≡ true
      → any q (update_where p f xs) ≡ true
  any-update_where q p f [] h e = e
  any-update_where q p f (x ∷ xs) h e = ground (arith, h x, any-update_where q p f xs h)

  pub is_some-find : (q : A → Bool) (xs : List A) → is_some (find q xs) ≡ any q xs
  is_some-find q [] = refl
  is_some-find q (x ∷ xs) = ground (arith, is_some-find q xs)

pub is_some-latest :
    (q : OtpRecord → Bool) (xs : List OtpRecord) → is_some (latest (select_where q xs)) ≡ any q xs
unfolding latest
is_some-latest q [] = refl
is_some-latest q (x ∷ xs) = ground (arith, is_some-latest q xs)
