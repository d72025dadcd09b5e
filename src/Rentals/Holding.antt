-- ===== src/Rentals/Holding.antt =====
-- A device is held by the active rental that names it.
use procare_backend.Common.{
  String, Uuid, ◌≤◌, ◌≡◌, refl, subst, inl, inr, Bool, true, false, not, ◌&&◌, ◌||◌, Option, none,
  some, List, [], ◌∷◌, any, find, update_where, ltb, ◌==◌, arith, Bool-cases, Option-cases,
}
use procare_backend.Common.Result.{
  ok, bad_request, >>=-eq-ok, guard->>-eq-ok, ok-injective, or_throw-eq-ok,
}
use procare_backend.Branches.{AdminPayload}
use procare_backend.Ranking.Counting.{count, count-update_row}
use procare_backend.Ranking.Order.{count-update_where}
use procare_backend.Rentals.{
  DeviceStatus, available, rented, Rental, Device, RentalDto, Rentals, is_active,
  is_available_device, has_device, is_active_of, open_order, is_closed, find_available_device,
  requested_device, new_rental, set_device, load_device, create,
}

abbrev pub holds : Uuid → Rental → Bool
holds id r = is_active r.status && has_device id r

abbrev pub is_free_device : Uuid → Device → Bool
is_free_device id d = d.id == id && is_available_device d

-- Ids are unique, a device is held at most once, and a device that is held is not available.
pub record IsHeld (state : Rentals) : Type 0 where
  pub keyed : (i : Uuid) → count (λ (r : Rental). r.id == i) state.rentals ≤ 1
  pub held_once : (d : Uuid) → count (holds d) state.rentals ≤ 1
  pub held_unavailable :
      (d : Uuid)
      → (ltb 0 (count (holds d) state.rentals) && any (is_free_device d) state.devices) ≡ false

pub set_device-rented :
    (d : Uuid) (devices : List Device)
    → any (is_free_device d) (set_device (some d) rented devices) ≡ false
set_device-rented d [] = refl
set_device-rented d (v ∷ devices) = ground (arith, set_device-rented d devices)

pub set_device-other :
    (d e : Uuid) (status : DeviceStatus) (devices : List Device)
    → (d == e) ≡ false
    → any (is_free_device d) (set_device (some e) status devices) ≡ any (is_free_device d) devices
set_device-other d e status [] h = refl
set_device-other d e status (v ∷ devices) h = ground (arith, set_device-other d e status devices)

found_free :
    (d : Uuid) (v : Device) (devices : List Device)
    → find (λ (d' : Device). d'.id == d && (is_available_device d' && d'.is_available)) devices
      ≡ some v
    → any (is_free_device d) devices ≡ true
found_free d v [] e = cc
found_free d v (w ∷ devices) e = ground (arith, found_free d v devices)

-- The device that was loaded is free.
pub load_device-free :
    (d : Uuid) (location : String) (s : Rentals) {o : Option Device}
    → load_device (some d) location s ≡ ok o
    → any (is_free_device d) s.devices ≡ true
unfolding find_available_device
load_device-free d location s e =
    let (v, found, rest) = >>=-eq-ok (find_available_device d location s) _ e in
    found_free d v s.devices (or_throw-eq-ok _ _ found)

abbrev pub is_device : Option Uuid → Uuid → Bool
is_device none d = false
is_device (some e) d = e == d

pub none_fresh :
    (i : Uuid) (rentals : List Rental)
    → any (λ (r : Rental). r.id == i) rentals ≡ false
    → count (λ (r : Rental). r.id == i) rentals ≡ 0
unfolding count
none_fresh i [] h = refl
none_fresh i (r ∷ rentals) h = ground (arith, none_fresh i rentals)

-- A new row that holds no device, or one that was free and is now rented.
push-IsHeld :
    (new : Rental) (device : Option Uuid) (s : Rentals) (logged : List (Uuid × Uuid))
    → any (λ (r : Rental). r.id == new.id) s.rentals ≡ false
    → ((d : Uuid) → holds d new ≡ is_device device d)
    → ((d : Uuid) → device ≡ some d → any (is_free_device d) s.devices ≡ true)
    → IsHeld s
    → IsHeld (record s {
      rentals = new ∷ s.rentals;
      devices = set_device device rented s.devices;
      logged = logged;
    })
unfolding count
push-IsHeld new none s logged fresh held free h = record {
  keyed = λ i. ground (arith, h.keyed i, none_fresh new.id s.rentals fresh);
  held_once = λ d. ground (arith, held d, h.held_once d);
  held_unavailable = λ d. ground (arith, held d, h.held_unavailable d);
}
push-IsHeld new (some e) s logged fresh held free h = record {
  keyed = λ i. ground (arith, h.keyed i, none_fresh new.id s.rentals fresh);
  held_once = λ d. ground (arith, held d, free e refl, h.held_once d, h.held_unavailable d);
  held_unavailable = λ d. ground (
    arith,
    held d,
    h.held_unavailable d,
    set_device-rented d s.devices,
    set_device-other d e rented s.devices,
  );
}

new_rental-holds :
    (new_id order_id : Uuid) (rental : RentalDto) (device : Option Device) (d : Uuid)
    → holds d (new_rental new_id order_id rental device) ≡ is_device (requested_device rental) d
unfolding new_rental requested_device
new_rental-holds new_id order_id rental device d = elim (Bool-cases (is_active rental.status)) [
  | inl e ↦ elim (Option-cases rental.rental_phone_id) [
    | inl e2 ↦ rw (e, e2) refl
    | inr (id, e2) ↦ rw (e, e2) refl
  ]
  | inr e ↦ rw e refl
]

pub create-IsHeld :
    (new_id order_id : Uuid) (rental : RentalDto) (admin : AdminPayload) (s s' : Rentals)
    → any (λ (r : Rental). r.id == new_id) s.rentals ≡ false
    → create new_id order_id rental admin s ≡ ok s'
    → IsHeld s
    → IsHeld s'
unfolding create
create-IsHeld new_id order_id rental admin s s' fresh e h =
    let (order, found, rest) =
      >>=-eq-ok
        (open_order order_id (bad_request "rental_phone_create_repair_order_not_found") admin s) _
        e in
    let (idle, rest) = guard->>-eq-ok (not (any (is_active_of order_id) s.rentals)) _ _ rest in
    let (not_closed, rest) = guard->>-eq-ok (not (is_closed order s.db)) _ _ rest in
    let (device, loaded, done) =
      >>=-eq-ok (load_device (requested_device rental) "rental_phone_create_device_unavailable" s) _
        rest in
    subst IsHeld (ok-injective done) (
      push-IsHeld (new_rental new_id order_id rental device) (requested_device rental) s _ fresh
        (new_rental-holds new_id order_id rental device)
        (λ d e. load_device-free d "rental_phone_create_device_unavailable" s (
          subst (λ o. load_device o "rental_phone_create_device_unavailable" s ≡ ok device) e
            loaded))
        h)

-- A device that is free after a write of `status` was written, or free before.
pub set_device-any :
    (d : Uuid) (status : DeviceStatus) (device : Option Uuid) (devices : List Device)
    → (not (any (is_free_device d) (set_device device status devices))
        || (is_device device d || any (is_free_device d) devices))
      ≡ true
set_device-any d status none devices = ground arith
set_device-any d status (some e) devices = ground (arith, set_device-other d e status devices)

set_device_rented-any :
    (d : Uuid) (device : Option Uuid) (devices : List Device)
    → (not (any (is_free_device d) (set_device device rented devices))
        || (not (is_device device d) && any (is_free_device d) devices))
      ≡ true
set_device_rented-any d none devices = ground arith
set_device_rented-any d (some e) devices =
    ground (arith, set_device-other d e rented devices, set_device-rented d devices)

-- One row changes: it gives a device back, takes one that was free, or neither.
pub change-IsHeld :
    (o : Rental) (f : Rental → Rental) (taken given : Option Uuid) (s : Rentals)
    (logged : List (Uuid × Uuid))
    → count (λ (r : Rental). r.id == o.id) s.rentals ≡ 1
    → find (λ (r : Rental). r.id == o.id) s.rentals ≡ some o
    → ((r : Rental) → (f r).id ≡ r.id)
    → ((d : Uuid) → (not (holds d (f o)) || (holds d o || is_device taken d)) ≡ true)
    → ((d : Uuid) → (not (is_device given d) || (holds d o && not (holds d (f o)))) ≡ true)
    → ((d : Uuid) → is_device taken d ≡ true → any (is_free_device d) s.devices ≡ true)
    → IsHeld s
    → IsHeld (record s {
      rentals = update_where (λ r. r.id == o.id) f s.rentals;
      devices = set_device given available (set_device taken rented s.devices);
      logged = logged;
    })
change-IsHeld o f taken given s logged once found same held gave free h =
    let at =
      λ (d : Uuid). count-update_row (λ r. r.id == o.id) (holds d) f o s.rentals once found in
    record {
      keyed = λ i.
          rw
            (count-update_where (λ (r : Rental). r.id == i) (λ r. r.id == o.id) f s.rentals
              (λ r. rw (same r)))
            (h.keyed i);
      held_once = λ d. ground (arith, at d, held d, h.held_once d, h.held_unavailable d, free d);
      held_unavailable = λ d. ground (
        arith,
        at d,
        held d,
        gave d,
        h.held_once d,
        h.held_unavailable d,
        set_device-any d available given (set_device taken rented s.devices),
        set_device_rented-any d taken s.devices,
      );
    }
