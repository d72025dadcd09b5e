-- ===== src/Phone/Tests.antt =====
-- A number as people write it.
use procare_backend.Common.{◌≡◌, refl, inr, [], ◌∷◌}
use procare_backend.Common.Text.{codes}
use procare_backend.Otp.Phone.{digits_of}
use procare_backend.Phone.{
  normalize_uz_phone, format_uz_phone_to_e164, get_uz_phone_lookup_candidates,
}
use procare_backend.Phone.Lookup.{lookup-format}

lookup-format_example :
    (format_uz_phone_to_e164 (codes " +998 (90) 123-45-67") ≡ codes "+998901234567")
    × (get_uz_phone_lookup_candidates (codes " +998 (90) 123-45-67")
        ≡ codes "+998901234567" ∷ codes "901234567" ∷ [])
    × (normalize_uz_phone (codes " +998 (90) 123-45-67")
        ≡ record { full = codes "998901234567"; last9 = codes "901234567" })
unfolding digits_of
lookup-format_example =
    lookup-format (codes " +998 (90) 123-45-67") (codes "901234567") refl (inr refl)
