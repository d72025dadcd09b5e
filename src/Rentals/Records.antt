-- ===== src/Rentals/Records.antt =====
-- The handlers that name a rental by its own id: `updateRentalPhone` and `removeRentalPhone`.
use procare_backend.Common.{
  ℕ, Uuid, Bool, true, false, ◌&&◌, ◌||◌, Option, none, some, ◌∷◌, find, update_where, delete_where,
  is_some, ◌==◌, if◌then◌else◌,
}
use procare_backend.Common.Result.{Result, ok, not_found, bad_request, guard, or_throw, ◌>>=◌, ◌>>◌}
use procare_backend.Branches.{AdminPayload}
use procare_backend.Rentals.{Rental, Rentals, available, rented, open_order, set_device, or_else}

-- `none` is `undefined`.
pub record UpdateRentalDto : Type 0 where
  pub rental_phone_device_id : Option Uuid
  pub is_free : Option Bool
  pub rental_price : Option ℕ

abbrev pub is_rental_of : Uuid → Uuid → Rental → Bool
is_rental_of order_id id r = r.id == id && r.repair_order_id == order_id

abbrev pub has_fields : UpdateRentalDto → Bool
has_fields dto =
    is_some dto.rental_phone_device_id || (is_some dto.is_free || is_some dto.rental_price)

abbrev pub same_device : Option Uuid → Option Uuid → Bool
same_device none none = true
same_device (some a) (some b) = a == b
same_device _ _ = false

-- The old device is released and the new one is taken, whatever their states.
unfoldable pub exchange : Rental → UpdateRentalDto → Rentals → Rentals
exchange existing dto state = elim dto.rental_phone_device_id [
  | none ↦ state
  | some device_id ↦
      if same_device (some device_id) existing.rental_phone_device_id then state else record state {
        devices =
            set_device (some device_id) rented
              (set_device existing.rental_phone_device_id available state.devices);
      }
]

-- The devices are written before the guard, and there is no transaction; but a DTO that names a
-- device has a field.
unfoldable pub update_rental_phone :
    Uuid → Uuid → UpdateRentalDto → AdminPayload → Rentals → Result Rentals
unfolding open_order exchange
update_rental_phone order_id id dto admin state = do
  order ←
      open_order order_id (not_found "rental_phone_record_update_repair_order_not_found") admin
        state
  existing ←
      or_throw (not_found "rental_phone_record_update_not_found")
        (find (is_rental_of order_id id) state.rentals)
  let exchanged = exchange existing dto state
  guard (has_fields dto) (bad_request "rental_phone_record_update_no_fields")
  ok record exchanged {
    rentals =
        update_where (λ (r : Rental). r.id == id)
          (λ r. record r {
            rental_phone_device_id = or_else dto.rental_phone_device_id r.rental_phone_device_id;
            price = or_else dto.rental_price r.price;
          })
          state.rentals;
    logged = (order_id, admin.id) ∷ state.logged;
  }

unfoldable pub remove_rental_phone : Uuid → Uuid → AdminPayload → Rentals → Result Rentals
unfolding open_order
remove_rental_phone order_id id admin state = do
  order ←
      open_order order_id (not_found "rental_phone_record_delete_repair_order_not_found") admin
        state
  deleted ←
      or_throw (not_found "rental_phone_record_delete_not_found")
        (find (is_rental_of order_id id) state.rentals)
  ok record state {
    rentals = delete_where (is_rental_of order_id id) state.rentals;
    devices = set_device deleted.rental_phone_device_id available state.devices;
    logged = (order_id, admin.id) ∷ state.logged;
  }
