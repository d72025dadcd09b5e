-- ===== src/Otp/Phone.antt =====
-- `formatPhoneNumber` of src/common/services/otp.service.ts, over code points.
use procare_backend.Common.{
  ℕ, suc, ◌≡◌, refl, ap, Bool, true, false, ◌&&◌, [], ◌∷◌, select_where, length, leb, ◌==◌,
  if◌then◌else◌, Bool-cases, inl, inr,
}
use procare_backend.Common.Text.{Text}

abbrev pub is_digit : ℕ → Bool
is_digit c = leb 48 c && leb c 57

-- `replace(/[^\d]/g, '')`
unfoldable pub digits_of : Text → Text
digits_of = select_where is_digit

-- `startsWith('998')`
unfoldable pub starts_with_998 : Text → Bool
starts_with_998 (a ∷ b ∷ c ∷ s) = a == 57 && (b == 57 && c == 56)
starts_with_998 _ = false

-- `slice(-n)`
unfoldable pub slice_last : ℕ → Text → Text
slice_last n [] = []
slice_last n (c ∷ s) = if leb (length (c ∷ s)) n then c ∷ s else slice_last n s

-- '+'
abbrev plus : ℕ
plus = 43

unfoldable pub format_phone_number : Text → Text
unfolding digits_of starts_with_998 slice_last
format_phone_number phone_number =
    let cleaned = digits_of phone_number in
    if starts_with_998 cleaned
    then plus ∷ cleaned
    else if length cleaned == 9
    then plus ∷ 57 ∷ 57 ∷ 56 ∷ cleaned
    else plus ∷ 57 ∷ 57 ∷ 56 ∷ slice_last 9 cleaned

abbrev IsDigits : Text → Type 0
IsDigits [] = Unit
IsDigits (c ∷ s) = (is_digit c ≡ true) × IsDigits s

digits_of-IsDigits : (s : Text) → IsDigits (digits_of s)
unfolding digits_of
digits_of-IsDigits [] = tt
digits_of-IsDigits (c ∷ s) = elim (Bool-cases (is_digit c)) [
  | inl e ↦ rw e (e, digits_of-IsDigits s)
  | inr e ↦ rw e (digits_of-IsDigits s)
]

slice_last-IsDigits : (n : ℕ) (s : Text) → IsDigits s → IsDigits (slice_last n s)
unfolding slice_last
slice_last-IsDigits n [] h = tt
slice_last-IsDigits n (c ∷ s) h = elim (Bool-cases (leb (suc (length s)) n)) [
  | inl e ↦ rw e h
  | inr e ↦ rw e (slice_last-IsDigits n s h.1)
]

pub digits_of_digits : (s : Text) → IsDigits s → digits_of s ≡ s
unfolding digits_of
digits_of_digits [] h = refl
digits_of_digits (c ∷ s) h = rw (h.0, digits_of_digits s h.1)

pub digits_of_idempotent : (s : Text) → digits_of (digits_of s) ≡ digits_of s
digits_of_idempotent s = digits_of_digits (digits_of s) (digits_of-IsDigits s)

format-prefixed :
    (s : Text)
    → IsDigits s
    → format_phone_number (plus ∷ 57 ∷ 57 ∷ 56 ∷ s) ≡ plus ∷ 57 ∷ 57 ∷ 56 ∷ s
unfolding format_phone_number
format-prefixed s h = ap (λ t. plus ∷ 57 ∷ 57 ∷ 56 ∷ t) (digits_of_digits s h)

-- What `formatPhoneNumber` does with the digits.
format_digits : Text → Text
unfolding starts_with_998 slice_last
format_digits s =
    if starts_with_998 s
    then plus ∷ s
    else if length s == 9
    then plus ∷ 57 ∷ 57 ∷ 56 ∷ s
    else plus ∷ 57 ∷ 57 ∷ 56 ∷ slice_last 9 s

format-format_digits :
    (s : Text) → IsDigits s → format_phone_number (format_digits s) ≡ format_digits s
unfolding format_digits
format-format_digits s h = elim (Bool-cases (starts_with_998 s)) [
  | inl e ↦ rw e (unfold format_phone_number in rw (digits_of_digits s h, e))
  | inr e ↦ elim (Bool-cases (length s == 9)) [
    | inl d ↦ rw (e, d) (format-prefixed s h)
    | inr d ↦ rw (e, d) (format-prefixed (slice_last 9 s) (slice_last-IsDigits 9 s h))
  ]
]

-- Formatting a formatted number changes nothing, so `resendOtp`, which formats the number and hands
-- it to `generateAndSendOtp`, works on the same phone number.
pub format_phone_number_idempotent :
    (phone_number : Text)
    → format_phone_number (format_phone_number phone_number) ≡ format_phone_number phone_number
unfolding format_phone_number format_digits
format_phone_number_idempotent phone_number =
    format-format_digits (digits_of phone_number) (digits_of-IsDigits phone_number)
