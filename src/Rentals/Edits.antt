-- ===== src/Rentals/Edits.antt =====
-- What `updateRentalPhone` and `removeRentalPhone` do to the devices that are held.
use procare_backend.Common.{
  ℕ, Uuid, ◌≤◌, ◌+◌, ◌≡◌, refl, subst, inl, inr, Bool, true, false, not, ◌&&◌, ◌||◌, Option, none,
  some, List, [], ◌∷◌, any, find, find_test, update_where, delete_where, is_some, ◌==◌, ==_iff,
  arith, Bool-cases, Option-cases, sym, if◌then◌else◌,
}
use procare_backend.Common.Result.{
  ok, not_found, >>=-eq-ok, guard->>-eq-ok, ok-injective, or_throw, or_throw-eq-ok,
}
use procare_backend.Branches.{AdminPayload}
use procare_backend.Ranking.Counting.{count, count-find, count-update_row}
use procare_backend.Ranking.Order.{count-update_where}
use procare_backend.Rentals.{
  available, rented, Rental, Rentals, is_active, open_order, set_device, or_else,
}
use procare_backend.Rentals.Records.{
  UpdateRentalDto, is_rental_of, has_fields, same_device, exchange, update_rental_phone,
  remove_rental_phone,
}
use procare_backend.Rentals.Holding.{
  holds, is_free_device, IsHeld, set_device-rented, set_device-other, set_device-any, change-IsHeld,
}

-- The request names no device, the one that the record has, or, for an active record, one that no
-- active rental holds.
abbrev pub keeps_order : Rental → Option Uuid → List Rental → Bool
keeps_order r none rentals = true
keeps_order r (some d) rentals =
    same_device (some d) r.rental_phone_device_id
    || (is_active r.status && not (any (holds d) rentals))

-- The record that a request names, if there is one.
abbrev named : (Rental → Bool) → Option Rental → Bool
named p none = true
named p (some r) = p r

unfoldable pub is_careful_edit : Uuid → Uuid → UpdateRentalDto → Rentals → Bool
is_careful_edit order_id id dto s =
    named (λ r. keeps_order r dto.rental_phone_device_id s.rentals)
      (find (is_rental_of order_id id) s.rentals)

-- The record is active, or names no device.
unfoldable pub is_careful_removal : Uuid → Uuid → Rentals → Bool
is_careful_removal order_id id s =
    named (λ r. is_active r.status || not (is_some r.rental_phone_device_id))
      (find (is_rental_of order_id id) s.rentals)

none_held :
    (d : Uuid) (rentals : List Rental) → any (holds d) rentals ≡ false → count (holds d) rentals ≡ 0
unfolding count
none_held d [] e = refl
none_held d (r ∷ rentals) e = ground (arith, e, none_held d rentals)

-- A row is written and keeps its device.
keep-IsHeld :
    (o : Rental) (f : Rental → Rental) (s : Rentals) (logged : List (Uuid × Uuid))
    → count (λ (r : Rental). r.id == o.id) s.rentals ≡ 1
    → find (λ (r : Rental). r.id == o.id) s.rentals ≡ some o
    → ((r : Rental) → (f r).id ≡ r.id)
    → ((d : Uuid) → holds d (f o) ≡ holds d o)
    → IsHeld s
    → IsHeld (record s {
      rentals = update_where (λ (r : Rental). r.id == o.id) f s.rentals;
      logged = logged;
    })
keep-IsHeld o f s logged once found same now h =
    change-IsHeld o f none none s logged once found same (λ d. ground (arith, now d))
      (λ d. ground arith) (λ d t. cc) h

-- An active row gives its device back and takes one that no active row holds.
swap-IsHeld :
    (o : Rental) (f : Rental → Rental) (e : Uuid) (s : Rentals) (logged : List (Uuid × Uuid))
    → count (λ (r : Rental). r.id == o.id) s.rentals ≡ 1
    → find (λ (r : Rental). r.id == o.id) s.rentals ≡ some o
    → ((r : Rental) → (f r).id ≡ r.id)
    → ((d : Uuid) → holds d (f o) ≡ (e == d))
    → is_active o.status ≡ true
    → any (holds e) s.rentals ≡ false
    → IsHeld s
    → IsHeld (record s {
      rentals = update_where (λ (r : Rental). r.id == o.id) f s.rentals;
      devices =
          set_device (some e) rented (set_device o.rental_phone_device_id available s.devices);
      logged = logged;
    })
swap-IsHeld o f e s logged once found same now live free h =
    let at =
      λ (d : Uuid). count-update_row (λ r. r.id == o.id) (holds d) f o s.rentals once found in
    let given = set_device o.rental_phone_device_id available s.devices in
    let unused = none_held e s.rentals free in
    record {
      keyed = λ i.
          rw
            (count-update_where (λ (r : Rental). r.id == i) (λ r. r.id == o.id) f s.rentals
              (λ r. rw (same r)))
            (h.keyed i);
      held_once = λ d. elim (Bool-cases (e == d)) [
        | inl hit ↦
            let unheld : count (holds d) s.rentals ≡ 0 =
              subst (λ (x : Uuid). count (holds x) s.rentals ≡ 0) ((==_iff e d).0 hit) unused in
            ground (arith, at d, now d, unheld)
        | inr miss ↦ ground (arith, at d, now d, miss, h.held_once d)
      ];
      held_unavailable = λ d. elim (Bool-cases (e == d)) [
        | inl hit ↦
            let taken : any (is_free_device d) (set_device (some e) rented given) ≡ false =
              subst
                (λ (x : Uuid). any (is_free_device d) (set_device (some x) rented given) ≡ false)
                (sym ((==_iff e d).0 hit)) (set_device-rented d given) in
            ground (arith, taken)
        | inr miss ↦ ground (
          arith,
          at d,
          now d,
          live,
          miss,
          set_device-other d e rented given (ground (arith, miss)),
          set_device-any d available o.rental_phone_device_id s.devices,
          h.held_once d,
          h.held_unavailable d,
        )
      ];
    }

abbrev pub edited : UpdateRentalDto → Rental → Rental
edited dto r = record r {
  rental_phone_device_id = or_else dto.rental_phone_device_id r.rental_phone_device_id;
  price = or_else dto.rental_price r.price;
}

kept_device :
    (o : Rental) (d x : Uuid)
    → same_device (some d) o.rental_phone_device_id ≡ true
    → (is_active o.status && (d == x)) ≡ holds x o
kept_device o d x same = elim (Option-cases o.rental_phone_device_id) [
  | inl missing ↦ ground (arith, missing, same)
  | inr (e, device) ↦
      let equal : d ≡ e = (==_iff d e).0 (rw device at same) in rw device (rw equal refl)
]

edit-IsHeld :
    (o : Rental) (device : Option Uuid) (free : Option Bool) (price : Option ℕ) (s : Rentals)
    (logged : List (Uuid × Uuid))
    → count (λ (r : Rental). r.id == o.id) s.rentals ≡ 1
    → find (λ (r : Rental). r.id == o.id) s.rentals ≡ some o
    → keeps_order o device s.rentals ≡ true
    → IsHeld s
    → let dto : UpdateRentalDto = record {
      rental_phone_device_id = device;
      is_free = free;
      rental_price = price;
    } in
      IsHeld (record (exchange o dto s) {
        rentals = update_where (λ (r : Rental). r.id == o.id) (edited dto) s.rentals;
        logged = logged;
      })
unfolding exchange
edit-IsHeld o none free price s logged once found careful h =
    keep-IsHeld o _ s logged once found (λ r. refl) (λ d. refl) h
edit-IsHeld o (some d) free price s logged once found careful h =
    elim (Bool-cases (same_device (some d) o.rental_phone_device_id)) [
      | inl same ↦
          rw same (keep-IsHeld o _ s logged once found (λ r. refl) (λ x. kept_device o d x same) h)
      | inr other ↦ rw other (
          swap-IsHeld o _ d s logged once found (λ r. refl) (λ x. ground (arith, careful, other))
            (ground (arith, careful, other)) (ground (arith, careful, other)) h)
    ]

-- The record that the request names, and what becomes of the tables.
pub update_rental_phone-ok :
    (order_id id : Uuid) (dto : UpdateRentalDto) (admin : AdminPayload) (s s' : Rentals)
    → update_rental_phone order_id id dto admin s ≡ ok s'
    → (o : Rental) × (find (is_rental_of order_id id) s.rentals ≡ some o)
      × (o.id ≡ id)
      × (record (exchange o dto s) {
        rentals = update_where (λ (r : Rental). r.id == o.id) (edited dto) s.rentals;
        logged = (order_id, admin.id) ∷ s.logged;
      }
          ≡ s')
unfolding update_rental_phone
update_rental_phone-ok order_id id dto admin s s' e =
    let (order, opened, rest) =
      >>=-eq-ok
        (open_order order_id (not_found "rental_phone_record_update_repair_order_not_found") admin
          s)
        _ e in
    let (o, found, rest) =
      >>=-eq-ok
        (or_throw (not_found "rental_phone_record_update_not_found")
          (find (is_rental_of order_id id) s.rentals))
        _ rest in
    let (fields, done) = guard->>-eq-ok (has_fields dto) _ _ rest in
    let here = or_throw-eq-ok _ _ found in
    let passes = find_test (is_rental_of order_id id) o s.rentals here in
    let its_id : o.id ≡ id = (==_iff o.id id).0 (ground (arith, passes)) in
    (o, here, its_id, rw its_id (ok-injective done))

pub update_rental_phone-IsHeld :
    (order_id id : Uuid) (dto : UpdateRentalDto) (admin : AdminPayload) (s s' : Rentals)
    → is_careful_edit order_id id dto s ≡ true
    → update_rental_phone order_id id dto admin s ≡ ok s'
    → IsHeld s
    → IsHeld s'
unfolding is_careful_edit
update_rental_phone-IsHeld order_id id dto admin s s' careful e h =
    let (o, here, same, done) = update_rental_phone-ok order_id id dto admin s s' e in
    let row =
      count-find (λ (r : Rental). r.id == o.id) (is_rental_of order_id id) o s.rentals
        (h.keyed o.id) here (ground arith) in
    subst IsHeld done (
      edit-IsHeld o dto.rental_phone_device_id dto.is_free dto.rental_price s _ row.0 row.1
        (rw here at careful) h)

pub deleted_le :
    (p q : Rental → Bool) (rentals : List Rental)
    → count q (delete_where p rentals) ≤ count q rentals
unfolding count
deleted_le p q [] = ground arith
deleted_le p q (r ∷ rentals) = ground (arith, deleted_le p q rentals)

removal_holds :
    (p q : Rental → Bool) (o : Rental) (rentals : List Rental)
    → find p rentals ≡ some o
    → count q (delete_where p rentals) + (if q o then 1 else 0) ≤ count q rentals
unfolding count
removal_holds p q o [] e = cc
removal_holds p q o (r ∷ rentals) e =
    ground (arith, removal_holds p q o rentals, deleted_le p q rentals)

pub remove_rental_phone-IsHeld_careful :
    (order_id id : Uuid) (admin : AdminPayload) (s s' : Rentals)
    → is_careful_removal order_id id s ≡ true
    → remove_rental_phone order_id id admin s ≡ ok s'
    → IsHeld s
    → IsHeld s'
unfolding remove_rental_phone is_careful_removal
remove_rental_phone-IsHeld_careful order_id id admin s s' careful e h =
    let (order, opened, rest) =
      >>=-eq-ok
        (open_order order_id (not_found "rental_phone_record_delete_repair_order_not_found") admin
          s)
        _ e in
    let (o, found, done) =
      >>=-eq-ok
        (or_throw (not_found "rental_phone_record_delete_not_found")
          (find (is_rental_of order_id id) s.rentals))
        _ rest in
    let p = is_rental_of order_id id in
    let here = or_throw-eq-ok _ _ found in
    let allowed = rw here at careful in
    subst IsHeld (ok-injective done) record {
      keyed = λ i. ground (arith, h.keyed i, deleted_le p (λ (r : Rental). r.id == i) s.rentals);
      held_once = λ d. ground (arith, h.held_once d, deleted_le p (holds d) s.rentals);
      held_unavailable = λ d. ground (
        arith,
        allowed,
        h.held_once d,
        h.held_unavailable d,
        removal_holds p (holds d) o s.rentals here,
        set_device-any d available o.rental_phone_device_id s.devices,
      );
    }
