-- ===== src/Rentals/Runs.antt =====
-- `create`, `update` and `delete` (the rental of an order), one after another.
use procare_backend.Common.{
  String, ==_iff, Uuid, ◌≡◌, refl, subst, true, false, not, ◌&&◌, ◌||◌, Option, none, some, ◌∷◌,
  any, find, find_test, ◌==◌, arith,
}
use procare_backend.Common.Result.{
  ok, bad_request, >>=-eq-ok, guard->>-eq-ok, ok-injective, or_throw, or_throw-eq-ok,
}
use procare_backend.Branches.{AdminPayload}
use procare_backend.Ranking.Counting.{count-find}
use procare_backend.Rentals.{
  cancelled, Rental, Device, RentalDto, Rentals, is_active_of, open_order, check_transition,
  has_activation_fields, activated_device, released_device, update_fields, is_other_device,
  activates, load_device, create, update, delete,
}
use procare_backend.Rentals.Records.{UpdateRentalDto, update_rental_phone, remove_rental_phone}
use procare_backend.Rentals.Edits.{
  is_careful_edit, is_careful_removal, update_rental_phone-IsHeld,
  remove_rental_phone-IsHeld_careful,
}
use procare_backend.Rentals.Holding.{
  holds, is_free_device, is_device, IsHeld, load_device-free, create-IsHeld, change-IsHeld,
}

-- What `update` makes of the row holds no device but the old one or the one it took.
update_fields-held :
    (o : Rental) (rental : RentalDto) (admin_id d : Uuid) {u : Unit {0}}
    → check_transition o.status rental.status ≡ ok u
    → (not (activates o.status rental.status) || has_activation_fields rental) ≡ true
    → (not (holds d (update_fields o rental admin_id o))
        || (holds d o || is_device (activated_device o rental) d))
      ≡ true
unfolding check_transition has_activation_fields update_fields activated_device
update_fields-held o rental admin_id d e fields = ground (arith, e, fields)

update_fields-gave :
    (o : Rental) (rental : RentalDto) (admin_id d : Uuid)
    → (not (is_device (released_device o rental) d)
        || (holds d o && not (holds d (update_fields o rental admin_id o))))
      ≡ true
unfolding update_fields released_device activated_device
update_fields-gave o rental admin_id d = ground arith

taken_free :
    (taken : Option Uuid) (location : String) (s : Rentals) {o : Option Device}
    → load_device taken location s ≡ ok o
    → (d : Uuid) → is_device taken d ≡ true
    → any (is_free_device d) s.devices ≡ true
taken_free none location s e d t = cc
taken_free (some x) location s e d t =
    subst (λ (y : Uuid). any (is_free_device y) s.devices ≡ true) ((==_iff x d).0 t)
      (load_device-free x location s e)

pub update-IsHeld :
    (order_id : Uuid) (rental : RentalDto) (admin : AdminPayload) (s s' : Rentals)
    → update order_id rental admin s ≡ ok s'
    → IsHeld s
    → IsHeld s'
unfolding update update_fields
update-IsHeld order_id rental admin s s' e h =
    let (order, opened, rest) =
      >>=-eq-ok
        (open_order order_id (bad_request "rental_phone_update_repair_order_not_found") admin s) _
        e in
    let (o, found, rest) =
      >>=-eq-ok
        (or_throw (bad_request "rental_phone_update_record_not_found")
          (find (λ (r : Rental). r.repair_order_id == order_id) s.rentals))
        _ rest in
    let (u, allowed, rest) = >>=-eq-ok (check_transition o.status rental.status) _ rest in
    let (fields, rest) =
      guard->>-eq-ok (not (activates o.status rental.status) || has_activation_fields rental) _ _
        rest in
    let (same, rest) =
      guard->>-eq-ok (not (is_other_device rental.rental_phone_id o.rental_phone_device_id)) _ _
        rest in
    let (device, loaded, done) =
      >>=-eq-ok (load_device (activated_device o rental) "rental_phone_update_device_unavailable" s)
        _ rest in
    let row =
      count-find (λ (r : Rental). r.id == o.id) (λ (r : Rental). r.repair_order_id == order_id) o
        s.rentals (h.keyed o.id) (or_throw-eq-ok _ _ found) (ground arith) in
    subst IsHeld (ok-injective done) (
      change-IsHeld o (update_fields o rental admin.id) (activated_device o rental)
        (released_device o rental) s ((order_id, admin.id) ∷ s.logged) row.0 row.1 (λ r. refl)
        (λ d. update_fields-held o rental admin.id d allowed fields)
        (λ d. update_fields-gave o rental admin.id d)
        (taken_free (activated_device o rental) "rental_phone_update_device_unavailable" s loaded)
        h)

pub delete-IsHeld :
    (order_id : Uuid) (admin : AdminPayload) (s s' : Rentals)
    → delete order_id admin s ≡ ok s'
    → IsHeld s
    → IsHeld s'
unfolding delete
delete-IsHeld order_id admin s s' e h =
    let (order, opened, rest) =
      >>=-eq-ok
        (open_order order_id (bad_request "rental_phone_cancel_repair_order_not_found") admin s) _
        e in
    let (o, found, done) =
      >>=-eq-ok
        (or_throw (bad_request "rental_phone_cancel_active_not_found")
          (find (is_active_of order_id) s.rentals))
        _ rest in
    let exists = or_throw-eq-ok _ _ found in
    let live = find_test (is_active_of order_id) o s.rentals exists in
    let row =
      count-find (λ (r : Rental). r.id == o.id) (is_active_of order_id) o s.rentals (h.keyed o.id)
        exists (ground arith) in
    subst IsHeld (ok-injective done) (
      change-IsHeld o (λ r. record r { status = cancelled; marked_as_cancelled_by = some admin.id })
        none o.rental_phone_device_id s ((order_id, admin.id) ∷ s.logged) row.0 row.1 (λ r. refl)
        (λ d. ground arith) (λ d. ground (arith, live)) (λ d t. cc) h)

-- A request that succeeds. A new id is the id of no rental.
pub data Step : Rentals → Rentals → Type 0 where
  created :
      (new_id order_id : Uuid) (rental : RentalDto) (admin : AdminPayload) (s s' : Rentals)
      → any (λ (r : Rental). r.id == new_id) s.rentals ≡ false
      → create new_id order_id rental admin s ≡ ok s'
      → Step s s'
  updated :
      (order_id : Uuid) (rental : RentalDto) (admin : AdminPayload) (s s' : Rentals)
      → update order_id rental admin s ≡ ok s'
      → Step s s'
  was_cancelled :
      (order_id : Uuid) (admin : AdminPayload) (s s' : Rentals)
      → delete order_id admin s ≡ ok s'
      → Step s s'
  edited_by_id :
      (order_id id : Uuid) (dto : UpdateRentalDto) (admin : AdminPayload) (s s' : Rentals)
      → update_rental_phone order_id id dto admin s ≡ ok s'
      → Step s s'
  removed_by_id :
      (order_id id : Uuid) (admin : AdminPayload) (s s' : Rentals)
      → remove_rental_phone order_id id admin s ≡ ok s'
      → Step s s'

pub data Reach (s : Rentals) : Rentals → Type 0 where
  start : Reach s s
  after : {t u : Rentals} → Reach s t → Step t u → Reach s u

-- The conditions on the two requests that name a record by its id.
unfoldable pub IsCareful : {s t : Rentals} → Step s t → Type 0
IsCareful (edited_by_id order_id id dto admin s t e) = is_careful_edit order_id id dto s ≡ true
IsCareful (removed_by_id order_id id admin s t e) = is_careful_removal order_id id s ≡ true
IsCareful _ = Unit

-- Every request of the run meets them.
unfoldable pub AreCareful : {s t : Rentals} → Reach s t → Type 0
AreCareful start = Unit
AreCareful (after run step) = AreCareful run × IsCareful step

Step-IsHeld : {s t : Rentals} (step : Step s t) → IsCareful step → IsHeld s → IsHeld t
unfolding IsCareful
Step-IsHeld (created new_id order_id rental admin s t fresh e) careful h =
    create-IsHeld new_id order_id rental admin s t fresh e h
Step-IsHeld (updated order_id rental admin s t e) careful h =
    update-IsHeld order_id rental admin s t e h
Step-IsHeld (was_cancelled order_id admin s t e) careful h = delete-IsHeld order_id admin s t e h
Step-IsHeld (edited_by_id order_id id dto admin s t e) careful h =
    update_rental_phone-IsHeld order_id id dto admin s t careful e h
Step-IsHeld (removed_by_id order_id id admin s t e) careful h =
    remove_rental_phone-IsHeld_careful order_id id admin s t careful e h

-- However the five requests about rentals follow one another, ids stay unique, no device comes to be
-- held by two active rentals, and none that is held becomes available, if the requests that name a
-- record by its id are careful: `updateRentalPhone` names no device, the one that the record has, or,
-- for an active record, one that no active rental holds; and `removeRentalPhone` removes a record that
-- is active or names no device.
pub Reach-IsHeld : {s t : Rentals} (run : Reach s t) → AreCareful run → IsHeld s → IsHeld t
unfolding AreCareful
Reach-IsHeld start careful h = h
Reach-IsHeld (after run step) careful h = Step-IsHeld step careful.1 (Reach-IsHeld run careful.0 h)
