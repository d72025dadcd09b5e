-- ===== src/Phone/Lookup.antt =====
-- A number is looked up the same way however it is written.
use mathlib.Core.List.{reverse, reverse_aux, reverse-reverse}
use procare_backend.Common.{
  ℕ, suc, ◌≡◌, refl, ap, ◌∙◌, subst, inl, inr, ◌⊎◌, false, [], ◌∷◌, length, ◌==◌, arith, Bool-cases,
}
use procare_backend.Common.Text.{Text, text_eq, trim, trim_start}
use procare_backend.Otp.Phone.{digits_of, is_digit, starts_with_998, digits_of_idempotent}
use procare_backend.Phone.{
  is_empty, slice_3, country_code, plus, normalize_uz_phone, format_uz_phone_to_e164,
  get_uz_phone_lookup_candidates,
}

digits_of-trim_start : (s : Text) → digits_of (trim_start s) ≡ digits_of s
unfolding digits_of trim_start
digits_of-trim_start [] = refl
digits_of-trim_start (c ∷ s) = ground (arith, digits_of-trim_start s)

digits_of-reverse_aux :
    (s t : Text) → digits_of (reverse_aux s t) ≡ reverse_aux (digits_of s) (digits_of t)
unfolding digits_of
digits_of-reverse_aux [] t = refl
digits_of-reverse_aux (c ∷ s) t = elim (Bool-cases (is_digit c)) [
  | inl e ↦ rw e (digits_of-reverse_aux s (c ∷ t) ∙ rw e)
  | inr e ↦ rw e (digits_of-reverse_aux s (c ∷ t) ∙ rw e)
]

digits_of-reverse : (s : Text) → digits_of (reverse s) ≡ reverse (digits_of s)
unfolding digits_of
digits_of-reverse s = digits_of-reverse_aux s []

digits_of-trim : (s : Text) → digits_of (trim s) ≡ digits_of s
unfolding trim
digits_of-trim s =
    digits_of-reverse (trim_start (reverse (trim_start s)))
    ∙ ap reverse (digits_of-trim_start (reverse (trim_start s)) ∙ digits_of-reverse (trim_start s))
    ∙ reverse-reverse (digits_of (trim_start s))
    ∙ digits_of-trim_start s

non_empty : (s : Text) (n : ℕ) → length s ≡ suc n → is_empty s ≡ false
non_empty [] n e = ground (arith, e)
non_empty (c ∷ s) n e = refl

text_eq-length : (s t : Text) → (length s == length t) ≡ false → text_eq s t ≡ false
text_eq-length [] [] e = cc
text_eq-length [] (d ∷ t) e = refl
text_eq-length (c ∷ s) [] e = refl
text_eq-length (c ∷ s) (d ∷ t) e = ground (arith, e, text_eq-length s t)

-- The digits are digits.
national_digits :
    (phone national : Text)
    → (digits_of phone ≡ national) ⊎ (digits_of phone ≡ country_code national)
    → digits_of national ≡ national
unfolding digits_of
national_digits phone national (inl e) = subst (λ s. digits_of s ≡ s) e (digits_of_idempotent phone)
national_digits phone national (inr e) =
    ap slice_3 (subst (λ s. digits_of s ≡ s) e (digits_of_idempotent phone))

format_of :
    (phone national : Text)
    → length national ≡ 9
    → (digits_of phone ≡ national) ⊎ (digits_of phone ≡ country_code national)
    → format_uz_phone_to_e164 phone ≡ plus ∷ country_code national
unfolding format_uz_phone_to_e164 starts_with_998
format_of phone national nine (inl e) =
    rw (format_uz_phone_to_e164, digits_of-trim phone, e, non_empty national 8 nine, nine) refl
format_of phone national nine (inr e) =
    rw (format_uz_phone_to_e164, digits_of-trim phone, e, nine) refl

candidates_of :
    (phone national : Text)
    → length national ≡ 9
    → digits_of national ≡ national
    → format_uz_phone_to_e164 phone ≡ plus ∷ country_code national
    → get_uz_phone_lookup_candidates phone ≡ (plus ∷ country_code national) ∷ national ∷ []
unfolding get_uz_phone_lookup_candidates digits_of starts_with_998
candidates_of phone national nine digits e =
    rw
      (
        get_uz_phone_lookup_candidates,
        e,
        digits,
        nine,
        text_eq-length national (plus ∷ country_code national) (ground (arith, nine)),
      )
      refl

normalized_of :
    (phone national : Text)
    → length national ≡ 9
    → (digits_of phone ≡ national) ⊎ (digits_of phone ≡ country_code national)
    → normalize_uz_phone phone ≡ record { full = country_code national; last9 = national }
unfolding normalize_uz_phone starts_with_998
normalized_of phone national nine (inl e) = rw (normalize_uz_phone, e, nine) refl
normalized_of phone national nine (inr e) = rw (normalize_uz_phone, e, nine) refl

-- A text whose digits are the nine of a number, or these after the code of the country, is stored
-- as one text and found under it and under the nine digits, whatever else stands in it; the two
-- functions agree on the nine digits.
pub lookup-format :
    (phone national : Text)
    → length national ≡ 9
    → (digits_of phone ≡ national) ⊎ (digits_of phone ≡ country_code national)
    → (format_uz_phone_to_e164 phone ≡ plus ∷ country_code national)
      × (get_uz_phone_lookup_candidates phone ≡ (plus ∷ country_code national) ∷ national ∷ [])
      × (normalize_uz_phone phone ≡ record { full = country_code national; last9 = national })
lookup-format phone national nine e =
    let formatted = format_of phone national nine e in
    (
      formatted,
      candidates_of phone national nine (national_digits phone national e) formatted,
      normalized_of phone national nine e,
    )
