-- ===== src/Rentals/Release.antt =====
-- What `removeRentalPhone` does to the device of the record that it deletes.
use procare_backend.Common.{
  Uuid, ◌≡◌, refl, ap, subst, sym, ◌∙◌, Bool, true, some, List, [], ◌∷◌, any, find, delete_where,
  ◌==◌, arith, ◌<◌, ◌≤◌, some_injective, false, Bool-cases, inl, inr,
}
use procare_backend.Common.Result.{ok, not_found, >>=-eq-ok, ok-injective, or_throw, or_throw-eq-ok}
use procare_backend.Branches.{AdminPayload}
use procare_backend.Ranking.Counting.{count}
use procare_backend.Rentals.{Rental, Device, Rentals, available, is_active, open_order, set_device}
use procare_backend.Rentals.Records.{is_rental_of, remove_rental_phone}
use procare_backend.Rentals.Holding.{holds, is_free_device, IsHeld}

set_device-available :
    (d : Uuid) (devices : List Device)
    → any (λ (v : Device). v.id == d) devices ≡ true
    → any (is_free_device d) (set_device (some d) available devices) ≡ true
set_device-available d [] e = cc
set_device-available d (v ∷ devices) e = ground (arith, set_device-available d devices)

-- If ids are unique, deleting the record takes no other row.
deleted_absent :
    (order_id id : Uuid) (q : Rental → Bool) (rentals : List Rental)
    → count (λ (r : Rental). r.id == id) rentals ≡ 0
    → count q (delete_where (is_rental_of order_id id) rentals) ≡ count q rentals
unfolding count
deleted_absent order_id id q [] e = refl
deleted_absent order_id id q (r ∷ rentals) e =
    ground (arith, e, deleted_absent order_id id q rentals)

removal_holds_not :
    (order_id id d : Uuid) (o : Rental) (rentals : List Rental)
    → count (λ (r : Rental). r.id == id) rentals ≤ 1
    → find (is_rental_of order_id id) rentals ≡ some o
    → is_active o.status ≡ false
    → count (holds d) (delete_where (is_rental_of order_id id) rentals) ≡ count (holds d) rentals
unfolding count
removal_holds_not order_id id d o [] keyed e over = cc
removal_holds_not order_id id d o (r ∷ rentals) keyed e over =
    elim (Bool-cases (is_rental_of order_id id r)) [
      | inl hit ↦
          let same : r ≡ o = some_injective (rw hit at e) in
          let idle : is_active r.status ≡ false = rw same over in
          ground (arith, hit, idle, keyed, deleted_absent order_id id (holds d) rentals)
      | inr miss ↦ ground (
        arith,
        miss,
        removal_holds_not order_id id d o rentals (ground (arith, keyed)) (rw miss at e) over,
      )
    ]

-- If a record that is not active is removed while another, active rental holds the device that it
-- still names, and everything was in order before, then afterwards the device is available although the
-- other rental still holds it. (A record that was returned still names its device.)
pub remove_rental_phone-IsHeld :
    (order_id id d : Uuid) (admin : AdminPayload) (r : Rental) (s s' : Rentals)
    → IsHeld s
    → find (is_rental_of order_id id) s.rentals ≡ some r
    → r.rental_phone_device_id ≡ some d
    → is_active r.status ≡ false
    → any (λ (v : Device). v.id == d) s.devices ≡ true
    → 0 < count (holds d) s.rentals
    → remove_rental_phone order_id id admin s ≡ ok s'
    → (any (is_free_device d) s'.devices ≡ true) × (count (holds d) s'.rentals ≡ 1) × ¬ IsHeld s'
unfolding remove_rental_phone
remove_rental_phone-IsHeld order_id id d admin r s s' h here names over exists other e =
    let (order, opened, rest) =
      >>=-eq-ok
        (open_order order_id (not_found "rental_phone_record_delete_repair_order_not_found") admin
          s)
        _ e in
    let (o, found, done) =
      >>=-eq-ok
        (or_throw (not_found "rental_phone_record_delete_not_found")
          (find (is_rental_of order_id id) s.rentals))
        _ rest in
    let same_row : r ≡ o = some_injective (sym here ∙ or_throw-eq-ok _ _ found) in
    let device : o.rental_phone_device_id ≡ some d =
      ap (λ (x : Rental). x.rental_phone_device_id) (sym same_row) ∙ names in
    let freed : any (is_free_device d) s'.devices ≡ true =
      subst (λ (t : Rentals). any (is_free_device d) t.devices ≡ true) (ok-injective done)
        (rw device (set_device-available d s.devices exists)) in
    let left = removal_holds_not order_id id d r s.rentals (h.keyed id) here over in
    let held : count (holds d) s'.rentals ≡ 1 =
      subst (λ (t : Rentals). count (holds d) t.rentals ≡ 1) (ok-injective done)
        (ground (arith, left, h.held_once d, other)) in
    (freed, held, λ k. ground (arith, freed, held, k.held_unavailable d))
