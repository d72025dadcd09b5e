-- ===== src/Orders/NoAnswer/Contiguity.antt =====
-- Both handlers of unanswered calls keep every column of the board contiguous.
use procare_backend.Common.{
  ℕ, Uuid, ◌+◌, ◌≡◌, refl, inl, inr, true, not, ltb, if◌then◌else◌, Option-cases, subst,
}
use procare_backend.Common.Result.{ok, >>=-eq-ok, if-eq-ok, ok-injective}
use procare_backend.Database.{invalid, missed, Db}
use procare_backend.Orders.{RepairOrder}
use procare_backend.Orders.Board.{in_column}
use procare_backend.Orders.Board.Contiguity.{IsRow}
use procare_backend.Orders.Board.Columns.{IsBoard, find_open, find_open-IsRow}
use procare_backend.Orders.Board.StatusChange.{
  update_row-IsBoard, move_order_to_status_at_top-IsBoard,
}
use procare_backend.Orders.Statuses.{
  get_status_details, is_no_answer_trackable_status, get_required_status_by_type,
}
use procare_backend.Orders.NoAnswer.{
  customer_no_answer_limit, invalidate_unanswered, count_unanswered, record_customer_no_answer,
  invalidate_due, mark_missed, clear_due, is_due, process_due_customer_no_answer,
}
use procare_backend.Orders.NoAnswer.Effects.{logged-keeps}

module _ (db db' : Db) (o : RepairOrder) (board : IsBoard db.orders) (row : IsRow db.orders o)
    (live : in_column o.branch_id o.status_id o ≡ true) where
  invalidate_unanswered-IsBoard :
      (occurred_at : ℕ) (new_id : Uuid)
      → invalidate_unanswered o occurred_at new_id db ≡ ok db'
      → IsBoard db'.orders
  unfolding invalidate_unanswered in_column
  invalidate_unanswered-IsBoard occurred_at new_id e =
      let (s, _, stored) = >>=-eq-ok (get_required_status_by_type o.branch_id invalid db) _ e in
      rw (logged-keeps o.id _ _ db' stored).0 (
        move_order_to_status_at_top-IsBoard db.orders o _ s.id board row live (λ r. refl)
          (λ r b t. refl) (λ r. refl))

  count_unanswered-IsBoard : (occurred_at : ℕ) → IsBoard (count_unanswered o occurred_at db).orders
  unfolding count_unanswered in_column
  count_unanswered-IsBoard occurred_at =
      update_row-IsBoard db.orders o _ board row (λ r. refl) refl (λ b s. refl)

  clear_due-IsBoard : IsBoard (clear_due o db).orders
  unfolding clear_due in_column
  clear_due-IsBoard = update_row-IsBoard db.orders o _ board row (λ r. refl) refl (λ b s. refl)

  invalidate_due-IsBoard :
      (new_id : Uuid) → invalidate_due o new_id db ≡ ok db' → IsBoard db'.orders
  unfolding invalidate_due in_column
  invalidate_due-IsBoard new_id e =
      let (s, _, stored) = >>=-eq-ok (get_required_status_by_type o.branch_id invalid db) _ e in
      rw (logged-keeps o.id _ _ db' stored).0 (
        move_order_to_status_at_top-IsBoard db.orders o _ s.id board row live (λ r. refl)
          (λ r b t. refl) (λ r. refl))

  mark_missed-IsBoard : mark_missed o db ≡ ok db' → IsBoard db'.orders
  unfolding mark_missed in_column
  mark_missed-IsBoard e =
      let (s, _, stored) = >>=-eq-ok (get_required_status_by_type o.branch_id missed db) _ e in
      rw (logged-keeps o.id _ _ db' stored).0 (
        move_order_to_status_at_top-IsBoard db.orders o _ s.id board row live (λ r. refl)
          (λ r b t. refl) (λ r. refl))

IsBoard-ok : {db db' : Db} → IsBoard db.orders → ok db ≡ ok db' → IsBoard db'.orders
IsBoard-ok board e = subst (λ d. IsBoard d.orders) (ok-injective e) board

-- After a successful `recordCustomerNoAnswer`, on every branch of it, ids are unique and every
-- column of the board is contiguous, if they were so before.
pub record_customer_no_answer-IsBoard :
    (db db' : Db) (order_id : Uuid) (occurred_at : ℕ) (new_id : Uuid)
    → IsBoard db.orders
    → record_customer_no_answer order_id occurred_at new_id db ≡ ok db'
    → IsBoard db'.orders
unfolding record_customer_no_answer
record_customer_no_answer-IsBoard db db' order_id occurred_at new_id board e =
    elim (Option-cases (find_open order_id db.orders)) [
      | inl missing ↦ IsBoard-ok board (rw (missing, record_customer_no_answer) at e)
      | inr (o, found) ↦
          let (row, same, live) = find_open-IsRow order_id db.orders o board found in
          let tracks = is_no_answer_trackable_status (get_status_details o.status_id db) in
          let over = ltb customer_no_answer_limit (o.customer_no_answer_count + 1) in
          let invalidated = invalidate_unanswered o occurred_at new_id db in
          let counted = ok (count_unanswered o occurred_at db) in
          elim (if-eq-ok (not tracks) (ok db) (if over then invalidated else counted)
            (rw (found, record_customer_no_answer) at e)) [
              | inl (_, kept) ↦ IsBoard-ok board kept
              | inr (_, tracked) ↦ elim (if-eq-ok over invalidated counted tracked) [
                | inl (_, invalid_now) ↦
                    invalidate_unanswered-IsBoard db db' o board row live occurred_at new_id
                      invalid_now
                | inr (_, counted_now) ↦
                    IsBoard-ok (count_unanswered-IsBoard db db' o board row live occurred_at)
                      counted_now
              ]
            ]
    ]

-- After a successful `processDueCustomerNoAnswer`, on every branch of it, ids are unique and every
-- column of the board is contiguous, if they were so before.
pub process_due_customer_no_answer-IsBoard :
    (db db' : Db) (order_id : Uuid) (now : ℕ) (new_id : Uuid)
    → IsBoard db.orders
    → process_due_customer_no_answer order_id now new_id db ≡ ok db'
    → IsBoard db'.orders
unfolding process_due_customer_no_answer
process_due_customer_no_answer-IsBoard db db' order_id now new_id board e =
    elim (Option-cases (find_open order_id db.orders)) [
      | inl missing ↦ IsBoard-ok board (rw (missing, process_due_customer_no_answer) at e)
      | inr (o, found) ↦
          let (row, same, live) = find_open-IsRow order_id db.orders o board found in
          let due = is_due now o in
          let tracks = is_no_answer_trackable_status (get_status_details o.status_id db) in
          let over = ltb customer_no_answer_limit o.customer_no_answer_count in
          let invalidated = invalidate_due o new_id db in
          let last = if over then invalidated else mark_missed o db in
          elim (if-eq-ok (not due) (ok db) (if not tracks then ok (clear_due o db) else last)
            (rw (found, process_due_customer_no_answer) at e)) [
              | inl (_, kept) ↦ IsBoard-ok board kept
              | inr (_, is_now) ↦ elim (if-eq-ok (not tracks) (ok (clear_due o db)) last is_now) [
                | inl (_, cleared) ↦ IsBoard-ok (clear_due-IsBoard db db' o board row live) cleared
                | inr (_, tracked) ↦ elim (if-eq-ok over invalidated (mark_missed o db) tracked) [
                  | inl (_, invalid_now) ↦
                      invalidate_due-IsBoard db db' o board row live new_id invalid_now
                  | inr (_, moved) ↦ mark_missed-IsBoard db db' o board row live moved
                ]
              ]
            ]
    ]
