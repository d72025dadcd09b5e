-- ===== src/Rentals/Terminal.antt =====
-- A returned or cancelled rental keeps its status.
use procare_backend.Common.{
  ◌≤◌, delete_where, Bool, Uuid, ◌≡◌, refl, ap, subst, sym, inl, inr, true, false, not, ◌||◌,
  Option, none, some, List, [], ◌∷◌, any, find, find_test, find-update_where, map_option,
  some_injective, update_where, ◌==◌, ==_iff, arith, Bool-cases, Option-cases, ◌∙◌,
}
use procare_backend.Common.Result.{
  ok, bad_request, not_found, >>=-eq-ok, guard->>-eq-ok, ok-injective, or_throw, or_throw-eq-ok,
}
use procare_backend.Branches.{AdminPayload}
use procare_backend.Ranking.Counting.{count, count-find}
use procare_backend.Ranking.Order.{count-update_where}
use procare_backend.Rentals.{
  RentalStatus, pending, active, returned, cancelled, Rental, RentalDto, Rentals, is_active_of,
  is_closed, is_terminal, status_eq, new_rental, open_order, check_transition,
  has_activation_fields, activated_device, requested_device, update_fields, is_other_device,
  activates, load_device, create, update, delete,
}
use procare_backend.Rentals.Records.{
  UpdateRentalDto, is_rental_of, exchange, update_rental_phone, remove_rental_phone,
}
use procare_backend.Rentals.Holding.{none_fresh}
use procare_backend.Rentals.Edits.{edited, update_rental_phone-ok, deleted_le}
use procare_backend.Rentals.Runs.{
  Step, created, updated, was_cancelled, edited_by_id, removed_by_id, Reach, start, after,
}

-- The status of the rental with this id.
unfoldable pub status_of : Uuid → Rentals → Option RentalStatus
status_of i s = map_option (λ (r : Rental). r.status) (find (λ (r : Rental). r.id == i) s.rentals)

status_eq_sound : (a b : RentalStatus) → status_eq a b ≡ true → a ≡ b
status_eq_sound pending pending e = refl
status_eq_sound active active e = refl
status_eq_sound returned returned e = refl
status_eq_sound cancelled cancelled e = refl
status_eq_sound pending active e = cc
status_eq_sound pending returned e = cc
status_eq_sound pending cancelled e = cc
status_eq_sound active pending e = cc
status_eq_sound active returned e = cc
status_eq_sound active cancelled e = cc
status_eq_sound returned pending e = cc
status_eq_sound returned active e = cc
status_eq_sound returned cancelled e = cc
status_eq_sound cancelled pending e = cc
status_eq_sound cancelled active e = cc
status_eq_sound cancelled returned e = cc

check_transition-terminal :
    (current new : RentalStatus) {u : Unit {0}}
    → check_transition current new ≡ ok u
    → is_terminal current ≡ true
    → new ≡ current
unfolding check_transition
check_transition-terminal current new e t = sym (status_eq_sound current new (ground (arith, e, t)))

-- A write to one row, which keeps a terminal status.
write-status :
    (o : Rental) (f : Rental → Rental) (i : Uuid) (st : RentalStatus) (rows : List Rental)
    → find (λ (r : Rental). r.id == o.id) rows ≡ some o
    → ((r : Rental) → (f r).id ≡ r.id)
    → (is_terminal o.status ≡ true → (f o).status ≡ o.status)
    → is_terminal st ≡ true
    → map_option (λ (r : Rental). r.status) (find (λ (r : Rental). r.id == i) rows) ≡ some st
    → map_option
        (λ (r : Rental). r.status)
        (find (λ (r : Rental). r.id == i) (update_where (λ r. r.id == o.id) f rows))
      ≡ some st
write-status o f i st rows found same keep final e =
    elim (Option-cases (find (λ (r : Rental). r.id == i) rows)) [
      | inl missing ↦ let nothing = rw missing at e in cc
      | inr (r, here) ↦
          let now : r.status ≡ st = some_injective (rw here at e) in
          let its_id = (==_iff r.id i).0 (find_test (λ (r : Rental). r.id == i) r rows here) in
          rw
            (
              find-update_where (λ (r : Rental). r.id == i) (λ r. r.id == o.id) f rows
                  (λ r. rw (same r)),
              here,
            )
            (elim (Bool-cases (r.id == o.id)) [
              | inl hit ↦
                  let same_id : i ≡ o.id = sym its_id ∙ (==_iff r.id o.id).0 hit in
                  let same_row : r ≡ o = some_injective (
                    subst (λ (j : Uuid). some r ≡ find (λ (r : Rental). r.id == j) rows) same_id
                      (sym here)
                    ∙ found) in
                  let kept = keep (
                    subst (λ x. is_terminal x ≡ true)
                      (sym now ∙ ap (λ (x : Rental). x.status) same_row) final) in
                  rw hit (
                    ap some (
                      ap (λ (x : Rental). (f x).status) same_row
                      ∙ (kept ∙ (ap (λ (x : Rental). x.status) (sym same_row) ∙ now))))
              | inr miss ↦ rw miss (ap some now)
            ])
    ]

find-none :
    (i : Uuid) (rows : List Rental)
    → any (λ (r : Rental). r.id == i) rows ≡ false
    → find (λ (r : Rental). r.id == i) rows ≡ none
find-none i [] e = refl
find-none i (r ∷ rows) e = ground (arith, e, find-none i rows)

-- A new row with another id is before the old ones.
old_status :
    (i new_id : Uuid) (st : RentalStatus) (new : Rental) (rows : List Rental)
    → new.id ≡ new_id
    → any (λ (r : Rental). r.id == new_id) rows ≡ false
    → map_option (λ (r : Rental). r.status) (find (λ (r : Rental). r.id == i) rows) ≡ some st
    → map_option (λ (r : Rental). r.status) (find (λ (r : Rental). r.id == i) (new ∷ rows))
      ≡ some st
old_status i new_id st new rows same fresh e = elim (Bool-cases (new.id == i)) [
  | inl hit ↦
      let missing = find-none i rows (
        subst (λ (j : Uuid). any (λ (r : Rental). r.id == j) rows ≡ false)
          (sym same ∙ (==_iff new.id i).0 hit) fresh) in
      let nothing = rw missing at e in cc
  | inr miss ↦ rw miss e
]

-- What a request does to the records: it adds one, writes one, or removes one.
data Change (rows rows' : List Rental) : Type 0 where
  pushed :
      (new : Rental)
      → any (λ (r : Rental). r.id == new.id) rows ≡ false
      → rows' ≡ new ∷ rows
      → Change rows rows'
  written :
      (o : Rental) (q : Rental → Bool) (f : Rental → Rental)
      → find q rows ≡ some o
      → ((r : Rental) → (f r).id ≡ r.id)
      → (is_terminal o.status ≡ true → (f o).status ≡ o.status)
      → rows' ≡ update_where (λ (r : Rental). r.id == o.id) f rows
      → Change rows rows'

abbrev AreKeyed : List Rental → Type 0
AreKeyed rows = (i : Uuid) → count (λ (r : Rental). r.id == i) rows ≤ 1

Change-AreKeyed : {rows rows' : List Rental} → Change rows rows' → AreKeyed rows → AreKeyed rows'
unfolding count
Change-AreKeyed {rows} (pushed new fresh done) h =
    λ i. rw done (ground (arith, h i, none_fresh new.id rows fresh))
Change-AreKeyed {rows} (written o q f found same final done) h = λ i.
    rw
      (
        done,
        count-update_where (λ (r : Rental). r.id == i) (λ r. r.id == o.id) f rows
            (λ r. rw (same r)),
      )
      (h i)

find-delete_where :
    (order_id id i : Uuid) (rows : List Rental)
    → (id == i) ≡ false
    → find (λ (r : Rental). r.id == i) (delete_where (is_rental_of order_id id) rows)
      ≡ find (λ (r : Rental). r.id == i) rows
find-delete_where order_id id i [] other = refl
find-delete_where order_id id i (r ∷ rows) other = elim (Bool-cases (r.id == id)) [
  | inl same ↦
      let equal = (==_iff r.id id).0 same in
      ground (arith, find-delete_where order_id id i rows other, other, equal)
  | inr miss ↦ ground (arith, find-delete_where order_id id i rows other, miss)
]

Change-status :
    (i : Uuid) (st : RentalStatus) {rows rows' : List Rental}
    → Change rows rows'
    → AreKeyed rows
    → is_terminal st ≡ true
    → map_option (λ (r : Rental). r.status) (find (λ (r : Rental). r.id == i) rows) ≡ some st
    → map_option (λ (r : Rental). r.status) (find (λ (r : Rental). r.id == i) rows') ≡ some st
Change-status i st {rows} (pushed new fresh done) keyed final e =
    rw done (old_status i new.id st new rows refl fresh e)
Change-status i st {rows} (written o q f found same keep done) keyed final e =
    let row =
      count-find (λ (r : Rental). r.id == o.id) q o rows (keyed o.id) found (ground arith) in
    rw done (write-status o f i st rows row.1 same keep final e)

rows_of : {s s' : Rentals} → s ≡ s' → s'.rentals ≡ s.rentals
rows_of same = ap (λ (t : Rentals). t.rentals) (sym same)

create-Change :
    (new_id order_id : Uuid) (rental : RentalDto) (admin : AdminPayload) (s s' : Rentals)
    → any (λ (r : Rental). r.id == new_id) s.rentals ≡ false
    → create new_id order_id rental admin s ≡ ok s'
    → Change s.rentals s'.rentals
unfolding create new_rental
create-Change new_id order_id rental admin s s' fresh e =
    let (order, found, rest) =
      >>=-eq-ok
        (open_order order_id (bad_request "rental_phone_create_repair_order_not_found") admin s) _
        e in
    let (idle, rest) = guard->>-eq-ok (not (any (is_active_of order_id) s.rentals)) _ _ rest in
    let (not_closed, rest) = guard->>-eq-ok (not (is_closed order s.db)) _ _ rest in
    let (device, loaded, done) =
      >>=-eq-ok (load_device (requested_device rental) "rental_phone_create_device_unavailable" s) _
        rest in
    pushed (new_rental new_id order_id rental device) fresh (rows_of (ok-injective done))

update-Change :
    (order_id : Uuid) (rental : RentalDto) (admin : AdminPayload) (s s' : Rentals)
    → update order_id rental admin s ≡ ok s'
    → Change s.rentals s'.rentals
unfolding update update_fields
update-Change order_id rental admin s s' e =
    let (order, opened, rest) =
      >>=-eq-ok
        (open_order order_id (bad_request "rental_phone_update_repair_order_not_found") admin s) _
        e in
    let (o, found, rest) =
      >>=-eq-ok
        (or_throw (bad_request "rental_phone_update_record_not_found")
          (find (λ (r : Rental). r.repair_order_id == order_id) s.rentals))
        _ rest in
    let (u, allowed, rest) = >>=-eq-ok (check_transition o.status rental.status) _ rest in
    let (fields, rest) =
      guard->>-eq-ok (not (activates o.status rental.status) || has_activation_fields rental) _ _
        rest in
    let (same, rest) =
      guard->>-eq-ok (not (is_other_device rental.rental_phone_id o.rental_phone_device_id)) _ _
        rest in
    let (device, loaded, done) =
      >>=-eq-ok (load_device (activated_device o rental) "rental_phone_update_device_unavailable" s)
        _ rest in
    written o _ (update_fields o rental admin.id) (or_throw-eq-ok _ _ found) (λ r. refl)
      (check_transition-terminal o.status rental.status allowed) (rows_of (ok-injective done))

delete-Change :
    (order_id : Uuid) (admin : AdminPayload) (s s' : Rentals)
    → delete order_id admin s ≡ ok s'
    → Change s.rentals s'.rentals
unfolding delete
delete-Change order_id admin s s' e =
    let (order, opened, rest) =
      >>=-eq-ok
        (open_order order_id (bad_request "rental_phone_cancel_repair_order_not_found") admin s) _
        e in
    let (o, found, done) =
      >>=-eq-ok
        (or_throw (bad_request "rental_phone_cancel_active_not_found")
          (find (is_active_of order_id) s.rentals))
        _ rest in
    let exists = or_throw-eq-ok _ _ found in
    let live = find_test (is_active_of order_id) o s.rentals exists in
    written o (is_active_of order_id)
      (λ r. record r { status = cancelled; marked_as_cancelled_by = some admin.id }) exists
      (λ r. refl) (λ t. ground (arith, live, t)) (rows_of (ok-injective done))

update_rental_phone-Change :
    (order_id id : Uuid) (dto : UpdateRentalDto) (admin : AdminPayload) (s s' : Rentals)
    → update_rental_phone order_id id dto admin s ≡ ok s'
    → Change s.rentals s'.rentals
unfolding exchange
update_rental_phone-Change order_id id dto admin s s' e =
    let (o, found, same, done) = update_rental_phone-ok order_id id dto admin s s' e in
    written o (is_rental_of order_id id) (edited dto) found (λ r. refl) (λ t. refl) (rows_of done)

remove_rental_phone-rentals :
    (order_id id : Uuid) (admin : AdminPayload) (s s' : Rentals)
    → remove_rental_phone order_id id admin s ≡ ok s'
    → s'.rentals ≡ delete_where (is_rental_of order_id id) s.rentals
unfolding remove_rental_phone
remove_rental_phone-rentals order_id id admin s s' e =
    let (order, opened, rest) =
      >>=-eq-ok
        (open_order order_id (not_found "rental_phone_record_delete_repair_order_not_found") admin
          s)
        _ e in
    let (o, found, done) =
      >>=-eq-ok
        (or_throw (not_found "rental_phone_record_delete_not_found")
          (find (is_rental_of order_id id) s.rentals))
        _ rest in
    rows_of (ok-injective done)

Step-AreKeyed : {s t : Rentals} → Step s t → AreKeyed s.rentals → AreKeyed t.rentals
Step-AreKeyed (created new_id order_id rental admin s t fresh e) h =
    Change-AreKeyed (create-Change new_id order_id rental admin s t fresh e) h
Step-AreKeyed (updated order_id rental admin s t e) h =
    Change-AreKeyed (update-Change order_id rental admin s t e) h
Step-AreKeyed (was_cancelled order_id admin s t e) h =
    Change-AreKeyed (delete-Change order_id admin s t e) h
Step-AreKeyed (edited_by_id order_id id dto admin s t e) h =
    Change-AreKeyed (update_rental_phone-Change order_id id dto admin s t e) h
Step-AreKeyed (removed_by_id order_id id admin s t e) h = λ i.
    rw (remove_rental_phone-rentals order_id id admin s t e) (
      ground
        (arith, h i, deleted_le (is_rental_of order_id id) (λ (r : Rental). r.id == i) s.rentals))

Reach-AreKeyed : {s t : Rentals} → Reach s t → AreKeyed s.rentals → AreKeyed t.rentals
Reach-AreKeyed start h = h
Reach-AreKeyed (after run step) h = Step-AreKeyed step (Reach-AreKeyed run h)

-- The request is not a removal of the record with this id.
unfoldable pub IsSparing : Uuid → {s t : Rentals} → Step s t → Type 0
IsSparing i (removed_by_id order_id id admin s t e) = (id == i) ≡ false
IsSparing i _ = Unit

unfoldable pub AreSparing : Uuid → {s t : Rentals} → Reach s t → Type 0
AreSparing i start = Unit
AreSparing i (after run step) = AreSparing i run × IsSparing i step

Step-status :
    {s t : Rentals} (i : Uuid) (st : RentalStatus) (step : Step s t)
    → IsSparing i step
    → AreKeyed s.rentals
    → is_terminal st ≡ true
    → status_of i s ≡ some st
    → status_of i t ≡ some st
unfolding IsSparing status_of
Step-status i st (created new_id order_id rental admin s t fresh e) kept keyed final at =
    Change-status i st (create-Change new_id order_id rental admin s t fresh e) keyed final at
Step-status i st (updated order_id rental admin s t e) kept keyed final at =
    Change-status i st (update-Change order_id rental admin s t e) keyed final at
Step-status i st (was_cancelled order_id admin s t e) kept keyed final at =
    Change-status i st (delete-Change order_id admin s t e) keyed final at
Step-status i st (edited_by_id order_id id dto admin s t e) kept keyed final at =
    Change-status i st (update_rental_phone-Change order_id id dto admin s t e) keyed final at
Step-status i st (removed_by_id order_id id admin s t e) kept keyed final at =
    rw
      (
        remove_rental_phone-rentals order_id id admin s t e,
        find-delete_where order_id id i s.rentals kept,
      )
      at

-- However the five requests about rentals follow one another, a record that was returned or cancelled
-- keeps its status, if ids are unique at the start and `removeRentalPhone` does not name the record.
pub Reach-status_of :
    {s t : Rentals} (i : Uuid) (st : RentalStatus) (run : Reach s t)
    → AreSparing i run
    → ((j : Uuid) → count (λ (r : Rental). r.id == j) s.rentals ≤ 1)
    → is_terminal st ≡ true
    → status_of i s ≡ some st
    → status_of i t ≡ some st
unfolding AreSparing
Reach-status_of i st start kept keyed final at = at
Reach-status_of i st (after run step) kept keyed final at =
    Step-status i st step kept.1 (Reach-AreKeyed run keyed) final
      (Reach-status_of i st run kept.0 keyed final at)
