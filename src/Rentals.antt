-- ===== src/Rentals.antt =====
-- src/repair-orders/services/rental-phone-updater.service.ts: the phones that customers borrow while
-- theirs is repaired. Columns that no handler reads (`imei`, `is_free`, `notes`) are left out.
-- `rentals` stands from the newest row to the oldest, as `orderBy('created_at', 'desc')` reads it.
-- An order's change history is the order and the administrator of each logged change.
pub mod Records
pub mod Holding
pub mod Edits
pub mod Runs
pub mod Terminal
pub mod Release
mod Tests
use procare_backend.Common.{
  String, ℕ, Uuid, Bool, true, false, not, ◌&&◌, ◌||◌, Option, none, some, List, [], ◌∷◌, find, any,
  update_where, is_some, ◌==◌, if◌then◌else◌,
}
use procare_backend.Common.Result.{
  HttpException, Result, ok, err, bad_request, guard, or_throw, ◌>>=◌, ◌>>◌,
}
use procare_backend.Branches.{AdminPayload}
use procare_backend.Database.{
  StatusType, canceled, completed, RepairOrderStatus, can_pickup_manage, Db,
}
use procare_backend.Orders.{RepairOrder}
use procare_backend.Permissions.{find_by_roles_and_branch, check_permissions_or_throw}

pub data RentalStatus : Type 0 where
  pending active returned cancelled : RentalStatus

pub data Currency : Type 0 where
  uzs usd eur : Currency

pub data DeviceStatus : Type 0 where
  available rented maintenance lost damaged retired : DeviceStatus

-- A row of `repair_order_rental_phones`.
pub record Rental : Type 0 where
  pub id : Uuid
  pub repair_order_id : Uuid
  pub rental_phone_device_id : Option Uuid
  pub price : Option ℕ
  pub currency : Option Currency
  pub status : RentalStatus
  pub rented_at : Option ℕ
  pub returned_at : Option ℕ
  pub marked_as_returned_by : Option Uuid
  pub marked_as_cancelled_by : Option Uuid

-- A row of `rental_phone_devices`.
pub record Device : Type 0 where
  pub id : Uuid
  pub status : DeviceStatus
  pub is_available : Bool
  pub daily_rent_price : ℕ
  pub currency : Currency

-- `none` is `undefined`, `some none` is `null`; the handlers take the two for the same in the id and in
-- the price (`price?.toString()` is `undefined` for both, and the UPDATE leaves it out).
pub record RentalDto : Type 0 where
  pub rental_phone_id : Option Uuid
  pub price : Option ℕ
  pub currency : Option (Option Currency)
  pub status : RentalStatus
  pub rented_at : Option (Option ℕ)
  pub returned_at : Option (Option ℕ)

pub record Rentals : Type 0 where
  pub db : Db
  pub rentals : List Rental
  pub devices : List Device
  pub logged : List (Uuid × Uuid)

abbrev pub status_eq : RentalStatus → RentalStatus → Bool
status_eq pending pending = true
status_eq active active = true
status_eq returned returned = true
status_eq cancelled cancelled = true
status_eq _ _ = false

abbrev pub is_active : RentalStatus → Bool
is_active s = status_eq s active

-- `['Cancelled', 'Returned'].includes(status)`
abbrev pub is_terminal : RentalStatus → Bool
is_terminal s = status_eq s cancelled || status_eq s returned

abbrev pub is_available_device : Device → Bool
is_available_device d = elim d.status [ available ↦ true | _ ↦ false ]

abbrev pub is_active_of : Uuid → Rental → Bool
is_active_of order_id r = r.repair_order_id == order_id && is_active r.status

abbrev pub has_device : Uuid → Rental → Bool
has_device id r = elim r.rental_phone_device_id [ none ↦ false | some d ↦ d == id ]

-- The order, and the administrator's permission at its status.
unfoldable pub open_order : Uuid → HttpException → AdminPayload → Rentals → Result RepairOrder
open_order order_id missing admin state = do
  order ← or_throw missing (find (λ (o : RepairOrder). o.id == order_id) state.db.orders)
  check_permissions_or_throw admin.roles order.branch_id order.status_id (can_pickup_manage ∷ [])
      "repair_order_delivery" (find_by_roles_and_branch admin.roles order.branch_id state.db)
      state.db
  ok order

abbrev is_closed_type : Option StatusType → Bool
is_closed_type (some canceled) = true
is_closed_type (some completed) = true
is_closed_type _ = false

-- The order's status refuses rental phones.
unfoldable pub is_closed : RepairOrder → Db → Bool
is_closed order db = elim (find (λ (s : RepairOrderStatus). s.id == order.status_id) db.statuses) [
  | none ↦ false
  | some s ↦ is_closed_type s.type
]

-- `where({ id, status: 'Available', is_available: true }).first()`
unfoldable pub find_available_device : Uuid → String → Rentals → Result Device
find_available_device id location state =
    or_throw (bad_request location)
      (find (λ (d : Device). d.id == id && (is_available_device d && d.is_available)) state.devices)

abbrev pub set_device : Option Uuid → DeviceStatus → List Device → List Device
set_device none status devices = devices
set_device (some id) status devices =
    update_where (λ (d : Device). d.id == id) (λ d. record d { status = status }) devices

-- The device that an active rental asks for.
unfoldable pub requested_device : RentalDto → Option Uuid
requested_device rental = if is_active rental.status then rental.rental_phone_id else none

abbrev pub load_device : Option Uuid → String → Rentals → Result (Option Device)
load_device none location state = ok none
load_device (some id) location state =
    find_available_device id location state >>= λ device. ok (some device)

abbrev pub or_else {ℓ} : {A : Type ℓ} → Option A → Option A → Option A
or_else none other = other
or_else (some a) other = some a

-- `value ?? null`
abbrev or_null {ℓ} : {A : Type ℓ} → Option (Option A) → Option A
or_null none = none
or_null (some value) = value

-- `if (value !== undefined) field = value`
abbrev if_defined {ℓ} : {A : Type ℓ} → Option (Option A) → Option A → Option A
if_defined none old = old
if_defined (some value) old = value

abbrev price_of : Option Device → Option ℕ
price_of none = none
price_of (some d) = some d.daily_rent_price

abbrev currency_of : Option Device → Option Currency
currency_of none = none
currency_of (some d) = some d.currency

abbrev when {ℓ} : {A : Type ℓ} → Bool → Option A → Option A
when true value = value
when false value = none

unfoldable pub new_rental : Uuid → Uuid → RentalDto → Option Device → Rental
unfolding requested_device
new_rental new_id order_id rental device =
    let active_only = is_active rental.status in
    record {
      id = new_id;
      repair_order_id = order_id;
      rental_phone_device_id = requested_device rental;
      price = when active_only (or_else rental.price (price_of device));
      currency = when active_only (or_else (or_null rental.currency) (currency_of device));
      status = rental.status;
      rented_at = when active_only (or_null rental.rented_at);
      returned_at = when active_only (or_null rental.returned_at);
      marked_as_returned_by = none;
      marked_as_cancelled_by = none;
    }

unfoldable pub create : Uuid → Uuid → RentalDto → AdminPayload → Rentals → Result Rentals
unfolding open_order is_closed find_available_device requested_device new_rental
create new_id order_id rental admin state = do
  order ← open_order order_id (bad_request "rental_phone_create_repair_order_not_found") admin state
  guard (not (any (is_active_of order_id) state.rentals))
      (bad_request "rental_phone_create_already_assigned")
  guard (not (is_closed order state.db)) (bad_request "rental_phone_create_order_closed")
  device ← load_device (requested_device rental) "rental_phone_create_device_unavailable" state
  ok record state {
    rentals = new_rental new_id order_id rental device ∷ state.rentals;
    devices = set_device (requested_device rental) rented state.devices;
    logged = (order_id, admin.id) ∷ state.logged;
  }

abbrev pub activates : RentalStatus → RentalStatus → Bool
activates current new = status_eq current pending && is_active new

abbrev pub releases : RentalStatus → RentalStatus → Bool
releases current new = is_active current && is_terminal new

-- An active rental does not go back to pending, and a terminal one keeps its status.
unfoldable pub check_transition : RentalStatus → RentalStatus → Result (Unit {0})
check_transition current new = do
  guard (status_eq current new || not (is_active current && status_eq new pending))
      (bad_request "rental_phone_update_active_to_pending")
  guard (status_eq current new || not (is_terminal current))
      (bad_request "rental_phone_update_terminal_status")

-- What a pending rental needs to become active.
unfoldable pub has_activation_fields : RentalDto → Bool
has_activation_fields rental =
    is_some rental.rental_phone_id
    && (is_some (or_null rental.rented_at)
        && (is_some (or_null rental.returned_at) && is_some rental.price))

-- Both are there and differ.
abbrev pub is_other_device : Option Uuid → Option Uuid → Bool
is_other_device (some a) (some b) = not (a == b)
is_other_device _ _ = false

-- The device that a pending rental becomes active with.
unfoldable pub activated_device : Rental → RentalDto → Option Uuid
activated_device existing rental =
    if activates existing.status rental.status then rental.rental_phone_id else none

-- The device that is given back.
unfoldable pub released_device : Rental → RentalDto → Option Uuid
released_device existing rental =
    if releases existing.status rental.status then existing.rental_phone_device_id else none

-- `updateFields`
unfoldable pub update_fields : Rental → RentalDto → Uuid → Rental → Rental
unfolding activated_device
update_fields existing rental admin_id r = record r {
  status = rental.status;
  rental_phone_device_id = or_else (activated_device existing rental) r.rental_phone_device_id;
  price = or_else rental.price r.price;
  currency = if_defined rental.currency r.currency;
  rented_at = if_defined rental.rented_at r.rented_at;
  returned_at = if_defined rental.returned_at r.returned_at;
  marked_as_cancelled_by =
      if is_active existing.status && status_eq rental.status cancelled
      then some admin_id
      else r.marked_as_cancelled_by;
  marked_as_returned_by =
      if is_active existing.status && status_eq rental.status returned
      then some admin_id
      else r.marked_as_returned_by;
}

unfoldable pub update : Uuid → RentalDto → AdminPayload → Rentals → Result Rentals
unfolding open_order check_transition has_activation_fields activated_device released_device
    find_available_device update_fields
update order_id rental admin state = do
  order ← open_order order_id (bad_request "rental_phone_update_repair_order_not_found") admin state
  existing ←
      or_throw (bad_request "rental_phone_update_record_not_found")
        (find (λ (r : Rental). r.repair_order_id == order_id) state.rentals)
  check_transition existing.status rental.status
  guard (not (activates existing.status rental.status) || has_activation_fields rental)
      (bad_request "rental_phone_update_activation_fields_required")
  guard (not (is_other_device rental.rental_phone_id existing.rental_phone_device_id))
      (bad_request "rental_phone_update_device_change_not_allowed")
  device ←
      load_device (activated_device existing rental) "rental_phone_update_device_unavailable" state
  ok record state {
    rentals =
        update_where (λ r. r.id == existing.id) (update_fields existing rental admin.id)
          state.rentals;
    devices =
        set_device (released_device existing rental) available
          (set_device (activated_device existing rental) rented state.devices);
    logged = (order_id, admin.id) ∷ state.logged;
  }

unfoldable pub delete : Uuid → AdminPayload → Rentals → Result Rentals
unfolding open_order
delete order_id admin state = do
  order ← open_order order_id (bad_request "rental_phone_cancel_repair_order_not_found") admin state
  existing ←
      or_throw (bad_request "rental_phone_cancel_active_not_found")
        (find (is_active_of order_id) state.rentals)
  ok record state {
    rentals =
        update_where (λ r. r.id == existing.id)
          (λ r. record r { status = cancelled; marked_as_cancelled_by = some admin.id })
          state.rentals;
    devices = set_device existing.rental_phone_device_id available state.devices;
    logged = (order_id, admin.id) ∷ state.logged;
  }
