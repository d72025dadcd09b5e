-- ===== src/Orders/NoAnswer.antt =====
-- src/repair-orders/repair-orders.service.ts: `recordCustomerNoAnswer` (a call of the PBX that the
-- customer did not answer) and `processDueCustomerNoAnswer` (the cron that handles the calls that
-- are due). A transaction that is rolled back with no exception leaves the tables as they were.
pub mod Effects
pub mod Contiguity
pub mod Calls
use procare_backend.Common.{
  ℕ, Uuid, ◌+◌, ◌*◌, Bool, true, false, not, ◌&&◌, ◌||◌, Option, none, some, List, [], ◌∷◌, ◌++◌,
  select_where, find, head?, update_where, ltb, leb, ◌==◌, if◌then◌else◌,
}
use procare_backend.Common.Sorting.{order_by}
use procare_backend.Common.Text.{Text, codes, text_eq, to_lower}
use procare_backend.Common.Result.{Result, ok, err, ◌>>=◌}
use procare_backend.Database.{
  StatusType, invalid, missed, RepairOrderStatus, HistoryField, status_id_field, sort_field,
  reject_cause_id_field, customer_no_answer_count_field, customer_no_answer_due_at_field,
  HistoryValue, null, number, uuid, time, RejectCause, AdminRow, Db,
}
use procare_backend.Orders.{RepairOrder}
use procare_backend.Orders.Board.{has_id, move_order_to_status_at_top}
use procare_backend.Orders.Board.Columns.{find_open}
use procare_backend.Orders.Access.{log_if_changed}
use procare_backend.Orders.Statuses.{
  get_status_details, is_no_answer_trackable_status, get_required_status_by_type,
}

abbrev pub customer_no_answer_limit : ℕ
customer_no_answer_limit = 3

-- `customerNoAnswerDelayHours`, in milliseconds
abbrev pub customer_no_answer_delay : ℕ
customer_no_answer_delay = 24 * 60 * 60 * 1000

-- `NO_ANSWER_REJECT_CAUSE_NAME`
abbrev no_answer_reject_cause_name : Text
no_answer_reject_cause_name = codes "Qo'ng'iroqqa javob bermadi"

abbrev max_sort : List RejectCause → ℕ
max_sort [] = 0
max_sort (c ∷ causes) =
    let rest = max_sort causes in if c.is_open && ltb rest c.sort then c.sort else rest

abbrev is_no_answer_cause : RejectCause → Bool
is_no_answer_cause c =
    c.is_open && (c.is_active && text_eq (to_lower c.name) (to_lower no_answer_reject_cause_name))

-- The cause's id, and the causes with the one that was missing; `new_id` is the column's default.
unfoldable pub get_no_answer_reject_cause_id : Uuid → List RejectCause → Uuid × List RejectCause
get_no_answer_reject_cause_id new_id causes = elim (find is_no_answer_cause causes) [
  | some c ↦ (c.id, causes)
  | none ↦ (
    new_id,
    causes
        ++ record {
          id = new_id;
          name = no_answer_reject_cause_name;
          description = some no_answer_reject_cause_name;
          is_open = true;
          is_active = true;
          sort = max_sort causes + 1;
        }
          ∷ [],
  )
]

-- 00000000-0000-4000-8000-000000000000
abbrev system_admin_id : Uuid
system_admin_id = 0x40008000000000000000

unfoldable pub resolve_system_admin_id : List AdminRow → Option Uuid
resolve_system_admin_id admins = elim (find (λ a. a.id == system_admin_id) admins) [
  | some a ↦ some a.id
  | none ↦ elim (head? (order_by (λ a. a.created_at) (select_where (λ a. a.is_open) admins))) [
    | none ↦ none
    | some a ↦ some a.id
  ]
]

abbrev pub log_fields : Uuid → Uuid → List (HistoryField × HistoryValue × HistoryValue) → Db → Db
log_fields order_id admin_id [] db = db
log_fields order_id admin_id ((field, old_value, new_value) ∷ fields) db =
    log_fields order_id admin_id fields
      (log_if_changed order_id field old_value new_value admin_id true db)

unfoldable pub log_system_changes :
    Uuid → List (HistoryField × HistoryValue × HistoryValue) → Db → Db
log_system_changes order_id fields db = elim (resolve_system_admin_id db.admins) [
  | none ↦ db
  | some admin_id ↦ log_fields order_id admin_id fields db
]

abbrev pub uuid_or_null : Option Uuid → HistoryValue
uuid_or_null none = null
uuid_or_null (some id) = uuid id

abbrev pub time_or_null : Option ℕ → HistoryValue
time_or_null none = null
time_or_null (some t) = time t

-- `moveOrderToStatusAtTop`, then the write of the order's row.
abbrev pub put_in_status :
    RepairOrder → Uuid → (RepairOrder → RepairOrder) → List RepairOrder → List RepairOrder
put_in_status order status_id write rows =
    update_where (has_id order.id) write (move_order_to_status_at_top order status_id rows)

-- What `recordCustomerNoAnswer` writes above the limit, once the invalid status is found.
abbrev pub invalidated_tables : RepairOrder → ℕ → Uuid → RepairOrderStatus → Db → Db
invalidated_tables order occurred_at new_id invalid_status db =
    let next_count = order.customer_no_answer_count + 1 in
    let (reject_cause_id, causes) = get_no_answer_reject_cause_id new_id db.reject_causes in
    log_system_changes order.id
      ((status_id_field, uuid order.status_id, uuid invalid_status.id)
        ∷ (sort_field, number order.sort, number 1)
        ∷ (reject_cause_id_field, uuid_or_null order.reject_cause_id, uuid reject_cause_id)
        ∷ (customer_no_answer_count_field, number order.customer_no_answer_count, number next_count)
        ∷ (customer_no_answer_due_at_field, time_or_null order.customer_no_answer_due_at, null)
        ∷ [])
      (record db {
        reject_causes = causes;
        orders =
            put_in_status order invalid_status.id
              (λ r. record r {
                status_id = invalid_status.id;
                sort = 1;
                reject_cause_id = some reject_cause_id;
                customer_no_answer_count = next_count;
                last_customer_no_answer_at = some occurred_at;
                customer_no_answer_due_at = none;
              })
              db.orders;
      })

-- The branch of `recordCustomerNoAnswer` above the limit.
unfoldable pub invalidate_unanswered : RepairOrder → ℕ → Uuid → Db → Result Db
invalidate_unanswered order occurred_at new_id db = do
  invalid_status ← get_required_status_by_type order.branch_id invalid db
  ok (invalidated_tables order occurred_at new_id invalid_status db)

unfoldable pub count_unanswered : RepairOrder → ℕ → Db → Db
count_unanswered order occurred_at db = record db {
  orders =
      update_where (has_id order.id)
        (λ r. record r {
          customer_no_answer_count = order.customer_no_answer_count + 1;
          last_customer_no_answer_at = some occurred_at;
          customer_no_answer_due_at = some (occurred_at + customer_no_answer_delay);
        })
        db.orders;
}

unfoldable pub record_customer_no_answer : Uuid → ℕ → Uuid → Db → Result Db
unfolding invalidate_unanswered count_unanswered
record_customer_no_answer order_id occurred_at new_id db = elim (find_open order_id db.orders) [
  | none ↦ ok db
  | some order ↦
      if not (is_no_answer_trackable_status (get_status_details order.status_id db))
      then ok db
      else if ltb customer_no_answer_limit (order.customer_no_answer_count + 1)
      then invalidate_unanswered order occurred_at new_id db
      else ok (count_unanswered order occurred_at db)
]

-- The branch of `processDueCustomerNoAnswer` above the limit.
unfoldable pub invalidate_due : RepairOrder → Uuid → Db → Result Db
invalidate_due order new_id db = do
  invalid_status ← get_required_status_by_type order.branch_id invalid db
  let (reject_cause_id, causes) = get_no_answer_reject_cause_id new_id db.reject_causes
  ok (
      log_system_changes order.id
        ((status_id_field, uuid order.status_id, uuid invalid_status.id)
          ∷ (sort_field, number order.sort, number 1)
          ∷ (reject_cause_id_field, uuid_or_null order.reject_cause_id, uuid reject_cause_id)
          ∷ (customer_no_answer_due_at_field, time_or_null order.customer_no_answer_due_at, null)
          ∷ [])
        (record db {
          reject_causes = causes;
          orders =
              put_in_status order invalid_status.id
                (λ r. record r {
                  status_id = invalid_status.id;
                  sort = 1;
                  reject_cause_id = some reject_cause_id;
                  customer_no_answer_due_at = none;
                })
                db.orders;
        }))

-- The last branch: the order goes to the status of missed calls.
unfoldable pub mark_missed : RepairOrder → Db → Result Db
mark_missed order db = do
  missed_status ← get_required_status_by_type order.branch_id missed db
  ok (
      log_system_changes order.id
        ((status_id_field, uuid order.status_id, uuid missed_status.id)
          ∷ (sort_field, number order.sort, number 1)
          ∷ (customer_no_answer_due_at_field, time_or_null order.customer_no_answer_due_at, null)
          ∷ [])
        (record db {
          orders =
              put_in_status order missed_status.id
                (λ r. record r {
                  status_id = missed_status.id;
                  sort = 1;
                  customer_no_answer_due_at = none;
                })
                db.orders;
        }))

-- The write when the status is not one of those that are tracked.
unfoldable pub clear_due : RepairOrder → Db → Db
clear_due order db = record db {
  orders =
      update_where (has_id order.id) (λ r. record r { customer_no_answer_due_at = none }) db.orders;
}

unfoldable pub is_due : ℕ → RepairOrder → Bool
is_due now order = elim order.customer_no_answer_due_at [
  | none ↦ false
  | some due_at ↦ ltb 0 order.customer_no_answer_count && leb due_at now
]

unfoldable pub process_due_customer_no_answer : Uuid → ℕ → Uuid → Db → Result Db
unfolding invalidate_due mark_missed clear_due is_due
process_due_customer_no_answer order_id now new_id db = elim (find_open order_id db.orders) [
  | none ↦ ok db
  | some order ↦
      if not (is_due now order)
      then ok db
      else if not (is_no_answer_trackable_status (get_status_details order.status_id db))
      then ok (clear_due order db)
      else if ltb customer_no_answer_limit order.customer_no_answer_count
      then invalidate_due order new_id db
      else mark_missed order db
]
