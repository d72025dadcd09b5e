-- ===== src/Rentals/Tests.antt =====
-- Two orders borrow the same device, one after the other.
use procare_backend.Common.{◌==◌, ◌≤◌, any, Uuid, ◌≡◌, refl, true, none, some, List, [], ◌∷◌, arith}
use procare_backend.Common.Text.{codes}
use procare_backend.Common.Sorting.{order_by}
use procare_backend.Branches.{super_admin, AdminPayload, mother_branch_id}
use procare_backend.Database.{open_type, Db}
use procare_backend.Permissions.{is_granted, find_by_roles_and_branch, check_permissions_or_throw}
use procare_backend.Orders.{open_row, RepairOrder}
use procare_backend.Ranking.Counting.{count}
use procare_backend.Rentals.{
  pending, active, cancelled, RentalStatus, uzs, DeviceStatus, available, rented, Rental, Device,
  RentalDto, Rentals, create, update,
}
use procare_backend.Rentals.Records.{exchange, update_rental_phone, remove_rental_phone}
use procare_backend.Rentals.Edits.{is_careful_edit, is_careful_removal}
use procare_backend.Rentals.Holding.{holds, is_free_device, IsHeld}
use procare_backend.Rentals.Runs.{
  Reach, start, after, created, updated, edited_by_id, removed_by_id, IsCareful, AreCareful,
  Reach-IsHeld,
}
use procare_backend.Rentals.Terminal.{status_of, IsSparing, AreSparing, Reach-status_of}
use procare_backend.Rentals.Release.{remove_rental_phone-IsHeld}

abbrev admin : AdminPayload
admin = record {
  id = 7;
  roles = record { id = 3; name = codes "Super Admin"; type = some super_admin } ∷ [];
}

abbrev order : Uuid → RepairOrder
order id = record {
  id = id;
  branch_id = mother_branch_id;
  status_id = 10;
  sort = id;
  status = open_row;
  user_id = none;
  imei = none;
  reject_cause_id = none;
  agreed_date = none;
  customer_no_answer_count = 0;
  last_customer_no_answer_at = none;
  customer_no_answer_due_at = none;
}

abbrev db : Db
db = record {
  branch_tables = record {
    branches =
        record {
          id = mother_branch_id;
          parent_branch_id = none;
          is_open = true;
          is_active = true;
          sort = 1;
        }
        ∷ [];
    admin_branches = [];
  };
  roles = record { id = 3; is_open = true; is_active = true; type = some super_admin } ∷ [];
  statuses =
      record {
        id = 10;
        branch_id = mother_branch_id;
        type = some open_type;
        is_active = true;
        is_protected = true;
        is_open = true;
        sort = 1;
      }
      ∷ [];
  permissions =
      record { branch_id = mother_branch_id; status_id = 10; role_id = 3; allows = λ f. true } ∷ [];
  transitions = [];
  orders = order 100 ∷ order 101 ∷ [];
  rentals = [];
  service_forms = [];
  assignments = [];
  histories = [];
  reject_causes = [];
  admins = [];
}

abbrev device : DeviceStatus → Device
device status = record {
  id = 50;
  status = status;
  is_available = true;
  daily_rent_price = 5;
  currency = uzs;
}

abbrev dto : RentalStatus → RentalDto
dto status = record {
  rental_phone_id = some 50;
  price = some 9;
  currency = none;
  status = status;
  rented_at = some (some 1);
  returned_at = some (some 2);
}

abbrev waiting : Rental
waiting = record {
  id = 1;
  repair_order_id = 100;
  rental_phone_device_id = none;
  price = none;
  currency = none;
  status = pending;
  rented_at = none;
  returned_at = none;
  marked_as_returned_by = none;
  marked_as_cancelled_by = none;
}

abbrev lent : Uuid → Uuid → Rental
lent id order_id = record {
  id = id;
  repair_order_id = order_id;
  rental_phone_device_id = some 50;
  price = some 9;
  currency = some uzs;
  status = active;
  rented_at = some 1;
  returned_at = some 2;
  marked_as_returned_by = none;
  marked_as_cancelled_by = none;
}

abbrev state : List Rental → DeviceStatus → List (Uuid × Uuid) → Rentals
state rentals status logged = record {
  db = db;
  rentals = rentals;
  devices = device status ∷ [];
  logged = logged;
}

abbrev empty : Rentals
empty = state [] available []

abbrev reserved : Rentals
reserved = state (waiting ∷ []) available ((100, 7) ∷ [])

abbrev first : Rental
first = record (lent 1 100) { currency = none }

abbrev borrowed : Rentals
borrowed = state (first ∷ []) rented ((100, 7) ∷ (100, 7) ∷ [])

abbrev over : Rental
over = record first { status = cancelled; marked_as_cancelled_by = some 7 }

abbrev given_back : Rentals
given_back = state (over ∷ []) available ((100, 7) ∷ borrowed.logged)

abbrev again : Rentals
again = state (lent 2 101 ∷ over ∷ []) rented ((101, 7) ∷ given_back.logged)

empty-IsHeld : IsHeld empty
unfolding count
empty-IsHeld = record {
  keyed = λ i. ground arith;
  held_once = λ d. ground arith;
  held_unavailable = λ d. ground arith;
}

-- The record of the first order, which is active, changes its price and then goes.
abbrev empty_again : Rentals
empty_again = state [] available ((100, 7) ∷ (100, 7) ∷ borrowed.logged)

abbrev cheaper : Rentals
cheaper = state (record first { price = some 4 } ∷ []) rented ((100, 7) ∷ borrowed.logged)

abbrev to_empty : Reach empty empty_again
unfolding create update update_rental_phone exchange remove_rental_phone check_permissions_or_throw
    find_by_roles_and_branch order_by is_granted
to_empty =
    after
      (after
        (after (after start (created 1 100 (dto pending) admin empty reserved refl refl))
          (updated 100 (dto active) admin reserved borrowed refl))
        (edited_by_id 100 1
          (record { rental_phone_device_id = some 50; is_free = none; rental_price = some 4 }) admin
          borrowed cheaper refl))
      (removed_by_id 100 1 admin cheaper empty_again refl)

Reach-IsHeld_example : IsHeld empty_again
unfolding AreCareful IsCareful is_careful_edit is_careful_removal to_empty
Reach-IsHeld_example = Reach-IsHeld to_empty ((((tt, tt), tt), refl), refl) empty-IsHeld

-- The device is lent again, and the record that was cancelled stays.
abbrev lend_again : Reach given_back again
unfolding create check_permissions_or_throw find_by_roles_and_branch order_by is_granted
lend_again = after start (created 2 101 (dto active) admin given_back again refl refl)

again-IsHeld : IsHeld again
unfolding count
again-IsHeld = record {
  keyed = λ i. ground arith;
  held_once = λ d. ground arith;
  held_unavailable = λ d. ground arith;
}

given_back-keyed : (i : Uuid) → count (λ (r : Rental). r.id == i) given_back.rentals ≤ 1
unfolding count
given_back-keyed i = ground arith

Reach-status_of_example : status_of 1 again ≡ some cancelled
unfolding status_of AreSparing IsSparing lend_again
Reach-status_of_example = Reach-status_of 1 cancelled lend_again (tt, tt) given_back-keyed refl refl

abbrev after_removal : Rentals
after_removal = state (lent 2 101 ∷ []) available ((100, 7) ∷ again.logged)

remove_rental_phone-IsHeld_example :
    (any (is_free_device 50) after_removal.devices ≡ true)
    × (count (holds 50) after_removal.rentals ≡ 1)
    × ¬ IsHeld after_removal
unfolding remove_rental_phone check_permissions_or_throw find_by_roles_and_branch order_by
    is_granted count
remove_rental_phone-IsHeld_example =
    remove_rental_phone-IsHeld 100 1 50 admin over again after_removal again-IsHeld refl refl refl
      refl (ground arith) refl
