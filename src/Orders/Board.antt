-- ===== src/Orders/Board.antt =====
-- The writes that keep the column order of the board, src/repair-orders/repair-orders.service.ts:
-- `moveToTop`, `handleStatusChangeReordering`, `handleSameStatusReordering`, and the shifts that
-- `updateSort`, `softDelete`, `take` and `restoreToMother` make. Each is a list of UPDATEs on the
-- table; `order` is the row as it was read before them.
pub mod Counting
pub mod Rows
pub mod Contiguity
pub mod Moves
pub mod Top
pub mod Columns
pub mod StatusChange
use procare_backend.Common.{
  ℕ, Uuid, ◌+◌, ◌-◌, Bool, ◌&&◌, not, Option, none, some, List, update_where, ltb, leb, ◌==◌,
  if◌then◌else◌,
}
use procare_backend.Orders.{RepairOrder, is_open}

-- `.where({ branch_id, status_id, status: 'Open' })`
unfoldable pub in_column : Uuid → Uuid → RepairOrder → Bool
in_column branch_id status_id r =
    r.branch_id == branch_id && r.status_id == status_id && is_open r.status

abbrev pub has_id : Uuid → RepairOrder → Bool
has_id id r = r.id == id

-- `.increment('sort', 1)`
abbrev pub increment_sort : RepairOrder → RepairOrder
increment_sort r = record r { sort = r.sort + 1 }

-- `.decrement('sort', 1)`; it is only run on rows whose sort is above another row's
abbrev pub decrement_sort : RepairOrder → RepairOrder
decrement_sort r = record r { sort = r.sort - 1 }

-- The rows of `order`'s column behind it move up.
unfoldable pub close_gap : RepairOrder → List RepairOrder → List RepairOrder
close_gap order =
    update_where (λ r. in_column order.branch_id order.status_id r && ltb order.sort r.sort)
      decrement_sort

-- The rows of a column from a position on move down.
unfoldable pub make_room : Uuid → Uuid → ℕ → List RepairOrder → List RepairOrder
make_room branch_id status_id target_sort =
    update_where (λ r. in_column branch_id status_id r && leb target_sort r.sort) increment_sort

-- `dto.sort || 1`
abbrev pub sort_or_one : Option ℕ → ℕ
sort_or_one none = 1
sort_or_one (some n) = if n == 0 then 1 else n

unfoldable pub handle_status_change_reordering :
    RepairOrder → Uuid → Option ℕ → List RepairOrder → List RepairOrder
unfolding close_gap make_room
handle_status_change_reordering order status_id sort rows =
    make_room order.branch_id status_id (sort_or_one sort) (close_gap order rows)

-- Towards the top: the rows from the new position to the one above `order` move down.
unfoldable pub shift_up : RepairOrder → ℕ → List RepairOrder → List RepairOrder
shift_up order new_sort =
    update_where
      (λ r.
        in_column order.branch_id order.status_id r
        && (leb new_sort r.sort && ltb r.sort order.sort))
      increment_sort

-- Towards the bottom: the rows behind `order` up to the new position move up.
unfoldable pub shift_down : RepairOrder → ℕ → List RepairOrder → List RepairOrder
shift_down order new_sort =
    update_where
      (λ r.
        in_column order.branch_id order.status_id r
        && (leb r.sort new_sort && ltb order.sort r.sort))
      decrement_sort

unfoldable pub handle_same_status_reordering : RepairOrder → ℕ → List RepairOrder → List RepairOrder
handle_same_status_reordering order new_sort rows =
    if ltb new_sort order.sort then shift_up order new_sort rows else shift_down order new_sort rows

-- The rows above `order` move down.
unfoldable pub push_down_above : RepairOrder → List RepairOrder → List RepairOrder
push_down_above order =
    update_where (λ r. in_column order.branch_id order.status_id r && ltb r.sort order.sort)
      increment_sort

unfoldable pub move_to_top : RepairOrder → List RepairOrder → List RepairOrder
move_to_top order rows =
    if order.sort == 1
    then rows
    else update_where (has_id order.id) (λ r. record r { sort = 1 }) (push_down_above order rows)

-- `moveOrderToStatusAtTop`
unfoldable pub move_order_to_status_at_top :
    RepairOrder → Uuid → List RepairOrder → List RepairOrder
unfolding move_to_top handle_status_change_reordering
move_order_to_status_at_top order target_status_id rows =
    if order.status_id == target_status_id
    then move_to_top order rows
    else handle_status_change_reordering order target_status_id (some 1) rows
