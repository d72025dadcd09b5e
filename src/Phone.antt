-- ===== src/Phone.antt =====
-- src/common/utils/phone.util.ts, over code points: how a phone number of Uzbekistan is stored and
-- looked up.
mod Tests
pub mod Lookup
use procare_backend.Common.{
  ℕ, Bool, true, false, not, ◌&&◌, ◌||◌, List, [], ◌∷◌, ◌++◌, any, length, leb, ◌==◌, if◌then◌else◌,
}
use procare_backend.Common.Text.{Text, text_eq, trim}
use procare_backend.Otp.Phone.{digits_of, starts_with_998, slice_last}

-- '998'
abbrev pub country_code : Text → Text
country_code s = 57 ∷ 57 ∷ 56 ∷ s

-- '+'
abbrev pub plus : ℕ
plus = 43

-- `slice(3)`
abbrev pub slice_3 : Text → Text
slice_3 (a ∷ b ∷ c ∷ s) = s
slice_3 _ = []

abbrev is_full : Text → Bool
is_full digits = length digits == 12 && starts_with_998 digits

pub record NormalizedPhone : Type 0 where
  pub full : Text
  pub last9 : Text

unfoldable pub normalize_uz_phone : Text → NormalizedPhone
unfolding digits_of starts_with_998 slice_last
normalize_uz_phone phone =
    let digits = digits_of phone in
    if length digits == 9
    then record { full = country_code digits; last9 = digits }
    else if is_full digits
    then record { full = digits; last9 = slice_3 digits }
    else record { full = digits; last9 = slice_last 9 digits }

abbrev starts_with_plus : Text → Bool
starts_with_plus [] = false
starts_with_plus (c ∷ s) = c == plus

abbrev pub is_empty : Text → Bool
is_empty [] = true
is_empty (c ∷ s) = false

unfoldable pub format_uz_phone_to_e164 : Text → Text
unfolding digits_of starts_with_998 slice_last
format_uz_phone_to_e164 phone =
    let trimmed = trim phone in
    let digits = digits_of trimmed in
    if is_empty digits
    then trimmed
    else if is_full digits
    then plus ∷ digits
    else if length digits == 9
    then plus ∷ country_code digits
    else if starts_with_plus trimmed && leb 10 (length digits)
    then plus ∷ digits
    else if leb 10 (length digits)
    then plus ∷ country_code (slice_last 9 digits)
    else trimmed

-- `Set.add`
abbrev add : Text → List Text → List Text
add s set = if any (text_eq s) set then set else set ++ s ∷ []

unfoldable pub get_uz_phone_lookup_candidates : Text → List Text
unfolding format_uz_phone_to_e164
get_uz_phone_lookup_candidates phone =
    let normalized = format_uz_phone_to_e164 phone in
    let digits = digits_of normalized in
    let candidates = (if is_empty normalized then [] else normalized ∷ []) in
    if is_full digits
    then add (slice_3 digits) candidates
    else if length digits == 9
    then add digits candidates
    else candidates
