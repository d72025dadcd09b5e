-- ===== src/Orders/NoAnswer/Effects.antt =====
-- What the calls that are not answered change: the log keeps the other tables, and the order's row
-- is found again.
use procare_backend.Common.{
  Uuid, ◌+◌, ◌-◌, ◌≡◌, refl, ◌∙◌, subst, inl, inr, true, none, some, List, [], ◌∷◌, find,
  update_where, ◌==◌, arith, Bool-cases,
}
use procare_backend.Common.Result.{Result, ok}
use procare_backend.Database.{HistoryField, HistoryValue, Db}
use procare_backend.Orders.{RepairOrder, is_open}
use procare_backend.Orders.Board.{
  in_column, has_id, close_gap, make_room, handle_status_change_reordering, move_to_top,
  move_order_to_status_at_top,
}
use procare_backend.Orders.Board.Contiguity.{IsRow}
use procare_backend.Orders.Board.Columns.{find_open, resort-IsRow, rewritten-IsRow}
use procare_backend.Orders.Board.StatusChange.{topped-IsRow}
use procare_backend.Orders.Access.{log_if_changed}
use procare_backend.Orders.NoAnswer.{
  put_in_status, log_fields, log_system_changes, resolve_system_admin_id,
}

log_fields-keeps :
    (order_id admin_id : Uuid) (fields : List (HistoryField × HistoryValue × HistoryValue))
    (db : Db)
    → ((log_fields order_id admin_id fields db).orders ≡ db.orders)
      × ((log_fields order_id admin_id fields db).statuses ≡ db.statuses)
unfolding log_if_changed
log_fields-keeps order_id admin_id [] db = (refl, refl)
log_fields-keeps order_id admin_id ((field, old, new) ∷ fields) db =
    let next = log_if_changed order_id field old new admin_id true db in
    let (orders, statuses) = log_fields-keeps order_id admin_id fields next in
    (orders ∙ ground arith, statuses ∙ ground arith)

pub log_system_changes-keeps :
    (order_id : Uuid) (fields : List (HistoryField × HistoryValue × HistoryValue)) (db : Db)
    → ((log_system_changes order_id fields db).orders ≡ db.orders)
      × ((log_system_changes order_id fields db).statuses ≡ db.statuses)
unfolding log_system_changes
log_system_changes-keeps order_id fields db =
    elim (resolve_system_admin_id db.admins)
      as (λ found.
        ((elim found as (λ x. Db) [
          | none ↦ db
          | some admin_id ↦ log_fields order_id admin_id fields db
        ]).orders
          ≡ db.orders)
        × ((elim found as (λ x. Db) [
          | none ↦ db
          | some admin_id ↦ log_fields order_id admin_id fields db
        ]).statuses
            ≡ db.statuses)) [
              | none ↦ (refl, refl)
              | some admin_id ↦ log_fields-keeps order_id admin_id fields db
            ]

-- A handler that ends with the log leaves the tables that it logged on.
pub logged-keeps :
    (order_id : Uuid) (fields : List (HistoryField × HistoryValue × HistoryValue)) (db db' : Db)
    → ◌≡◌ {A = Result Db} (ok (log_system_changes order_id fields db)) (ok db')
    → (db'.orders ≡ db.orders) × (db'.statuses ≡ db.statuses)
logged-keeps order_id fields db db' e =
    let (orders, statuses) = log_system_changes-keeps order_id fields db in
    (ground arith, ground arith)

find-find_open :
    (o : RepairOrder) (rows : List RepairOrder)
    → is_open o.status ≡ true
    → find (has_id o.id) rows ≡ some o
    → find_open o.id rows ≡ some o
find-find_open o [] h e = cc
find-find_open o (r ∷ rows) h e = ground (arith, find-find_open o rows h)

pub IsRow-find_open :
    (o : RepairOrder) (rows : List RepairOrder)
    → IsRow rows o
    → is_open o.status ≡ true
    → find_open o.id rows ≡ some o
IsRow-find_open o rows row h = find-find_open o rows h row.found

-- The row of the order after it is put on top of a status: a write that does not read `sort`.
pub put_in_status-IsRow :
    (rows : List RepairOrder) (o : RepairOrder) (f : RepairOrder → RepairOrder) (target : Uuid)
    → IsRow rows o
    → ((r : RepairOrder) → (f r).id ≡ r.id)
    → f (record o { sort = 1 }) ≡ f o
    → IsRow (put_in_status o target f rows) (f o)
unfolding move_order_to_status_at_top handle_status_change_reordering close_gap make_room in_column
put_in_status-IsRow rows o f target row keep sort = elim (Bool-cases (o.status_id == target)) [
  | inl still ↦ rw still (
      subst (λ q. IsRow (update_where (has_id o.id) f (move_to_top o rows)) q) sort
        (rewritten-IsRow (move_to_top o rows) (record o { sort = 1 }) f keep
          (topped-IsRow rows o row)))
  | inr moves ↦ rw moves (
      rewritten-IsRow _ o f keep (
        resort-IsRow _ (λ r. r.sort + 1) _ o (ground arith)
          (resort-IsRow _ (λ r. r.sort - 1) rows o (ground arith) row)))
]
