-- ===== src/Orders/Handlers/Effects.antt =====
-- The table of orders after each handler that succeeds; the log and the automatic assignment do
-- not touch it.
use procare_backend.Common.{
  ℕ, Uuid, ◌≡◌, Bool, true, false, some, update_where, ◌==◌, if◌then◌else◌, arith,
}
use procare_backend.Common.Result.{ok}
use procare_backend.Branches.{AdminPayload, mother_branch_id, is_mother_branch}
use procare_backend.Database.{HistoryField, HistoryValue, Db}
use procare_backend.Orders.{RepairOrder, deleted}
use procare_backend.Orders.Board.{has_id, close_gap}
use procare_backend.Orders.Board.Columns.{find_open}
use procare_backend.Orders.Access.{
  get_order_or_throw, log_if_changed, auto_assign_repair_worker_from_update_if_needed,
}
use procare_backend.Orders.Handlers.{
  update_sort, update_sort_rows, soft_delete, take, put_on_top_of_branch, restore_to_mother,
  was_taken_from_mother,
}

pub orders-log_if_changed :
    (order_id : Uuid) (field : HistoryField) (old new : HistoryValue) (admin_id : Uuid) (sys : Bool)
    (db : Db)
    → (log_if_changed order_id field old new admin_id sys db).orders ≡ db.orders
unfolding log_if_changed
orders-log_if_changed order_id field old new admin_id sys db = ground arith

pub orders-auto_assign :
    (order_id : Uuid) (admin : AdminPayload) (db : Db)
    → (auto_assign_repair_worker_from_update_if_needed order_id admin db).orders ≡ db.orders
unfolding auto_assign_repair_worker_from_update_if_needed
orders-auto_assign order_id admin db = ground arith

pub get_order_or_throw-ok :
    (order_id : Uuid) (db : Db) (o : RepairOrder)
    → find_open order_id db.orders ≡ some o
    → get_order_or_throw order_id db ≡ ok o
unfolding get_order_or_throw
get_order_or_throw-ok order_id db o e = rw (e, get_order_or_throw)

module _ (db db' : Db) (o : RepairOrder) (order_id : Uuid) (admin : AdminPayload)
    (found : find_open order_id db.orders ≡ some o) where
  pub orders-update_sort :
      (new_sort : ℕ)
      → update_sort order_id new_sort admin db ≡ ok db'
      → db'.orders
        ≡ (if new_sort == o.sort then db.orders else update_sort_rows o new_sort db.orders)
  unfolding update_sort log_if_changed auto_assign_repair_worker_from_update_if_needed
  orders-update_sort new_sort e = ground (arith, get_order_or_throw-ok order_id db o found)

  pub orders-soft_delete :
      soft_delete admin order_id db ≡ ok db'
      → db'.orders
        ≡ close_gap o
            (update_where (has_id order_id) (λ r. record r { status = deleted }) db.orders)
  unfolding soft_delete log_if_changed
  orders-soft_delete e = ground (arith, get_order_or_throw-ok order_id db o found)

  pub orders-take :
      (target : Uuid)
      → take order_id target admin db ≡ ok db'
      → (db'.orders ≡ put_on_top_of_branch target o db.orders)
        × (is_mother_branch o.branch_id ≡ true)
  unfolding take log_if_changed auto_assign_repair_worker_from_update_if_needed
  orders-take target e = ground (arith, get_order_or_throw-ok order_id db o found)

  pub orders-restore_to_mother :
      restore_to_mother order_id admin db ≡ ok db'
      → (db'.orders ≡ put_on_top_of_branch mother_branch_id o (close_gap o db.orders))
        × (is_mother_branch o.branch_id ≡ false)
        × (was_taken_from_mother order_id db ≡ true)
  unfolding restore_to_mother log_if_changed
  orders-restore_to_mother e = ground (arith, get_order_or_throw-ok order_id db o found)
