-- ===== src/Orders/NoAnswer/Calls.antt =====
-- A run of calls that are not answered: three are counted, the fourth makes the order invalid.
use procare_backend.Common.{
  ℕ, Uuid, ◌+◌, ◌≤◌, ◌<◌, ◌≡◌, refl, sym, ◌∙◌, ap, true, false, none, some, List, [], ◌∷◌, ◌++◌,
  is_some, length, ltb, arith,
}
use procare_backend.Common.Result.{Result, ok, ◌>>=◌, >>=-eq-ok, ok-injective}
use procare_backend.Database.{invalid, RepairOrderStatus, Db}
use procare_backend.Orders.{RepairOrder, is_open}
use procare_backend.Orders.Board.Contiguity.{IsRow}
use procare_backend.Orders.Board.Columns.{find_open, rewritten-IsRow}
use procare_backend.Orders.Statuses.{
  get_status_details, is_no_answer_trackable_status, get_required_status_by_type,
}
use procare_backend.Orders.NoAnswer.{
  customer_no_answer_limit, customer_no_answer_delay, invalidate_unanswered, count_unanswered,
  invalidated_tables, record_customer_no_answer, get_no_answer_reject_cause_id,
}
use procare_backend.Orders.NoAnswer.Effects.{
  log_system_changes-keeps, IsRow-find_open, put_in_status-IsRow,
}

-- The calls that come in for an order, each at its time.
unfoldable pub record_calls : Uuid → Uuid → List ℕ → Db → Result Db
record_calls order_id new_id [] db = ok db
record_calls order_id new_id (occurred_at ∷ calls) db =
    record_customer_no_answer order_id occurred_at new_id db >>= record_calls order_id new_id calls

-- An order whose calls are tracked, as the handlers read it.
pub record IsTracked (db : Db) (o : RepairOrder) : Type 0 where
  pub row : IsRow db.orders o
  pub open_order : is_open o.status ≡ true
  pub trackable : is_no_answer_trackable_status (get_status_details o.status_id db) ≡ true

record_customer_no_answer-counted :
    (db : Db) (o : RepairOrder) (occurred_at : ℕ) (new_id : Uuid)
    → IsTracked db o
    → o.customer_no_answer_count < customer_no_answer_limit
    → record_customer_no_answer o.id occurred_at new_id db ≡ ok (count_unanswered o occurred_at db)
unfolding record_customer_no_answer
record_customer_no_answer-counted db o occurred_at new_id tracked few =
    let t : ltb customer_no_answer_limit (o.customer_no_answer_count + 1) ≡ false = ground arith in
    rw (
      IsRow-find_open o db.orders tracked.row tracked.open_order,
      record_customer_no_answer,
      tracked.trackable,
      t,
    )

-- The calls up to the limit are counted; the order stays where it is.
record_calls-counted :
    (db : Db) (o : RepairOrder) (new_id : Uuid) (calls : List ℕ)
    → IsTracked db o
    → o.customer_no_answer_count + length calls ≤ customer_no_answer_limit
    → (db' : Db) × (o' : RepairOrder) × (record_calls o.id new_id calls db ≡ ok db')
      × IsTracked db' o'
      × (o'.id ≡ o.id)
      × (o'.customer_no_answer_count ≡ o.customer_no_answer_count + length calls)
      × (o'.branch_id ≡ o.branch_id)
      × (o'.status_id ≡ o.status_id)
      × (db'.statuses ≡ db.statuses)
unfolding record_calls count_unanswered get_status_details
record_calls-counted db o new_id [] tracked few =
    (db, o, refl, tracked, refl, omega arith, refl, refl, refl)
record_calls-counted db o new_id (occurred_at ∷ calls) tracked few =
    let next = count_unanswered o occurred_at db in
    let write = λ (r : RepairOrder). record r {
      customer_no_answer_count = o.customer_no_answer_count + 1;
      last_customer_no_answer_at = some occurred_at;
      customer_no_answer_due_at = some (occurred_at + customer_no_answer_delay);
    } in
    let step = record_customer_no_answer-counted db o occurred_at new_id tracked (omega arith) in
    let tracked' : IsTracked next (write o) = record {
      row = rewritten-IsRow db.orders o write (λ r. refl) tracked.row;
      open_order = tracked.open_order;
      trackable = tracked.trackable;
    } in
    let (db', o', run, last, id, count, branch, status, statuses) =
      record_calls-counted next (write o) new_id calls tracked' (omega arith) in
    (db', o', rw step run, last, id, count ∙ omega arith, branch, status, statuses)

record_calls-append :
    (order_id new_id : Uuid) (calls more : List ℕ) (db db' : Db)
    → record_calls order_id new_id calls db ≡ ok db'
    → record_calls order_id new_id (calls ++ more) db ≡ record_calls order_id new_id more db'
unfolding record_calls
record_calls-append order_id new_id [] more db db' e =
    ap (record_calls order_id new_id more) (ok-injective e)
record_calls-append order_id new_id (t ∷ calls) more db db' e =
    let (next, step, run) = >>=-eq-ok (record_customer_no_answer order_id t new_id db) _ e in
    rw step (record_calls-append order_id new_id calls more next db' run)

-- The row that the call above the limit writes.
abbrev pub invalidated : RepairOrder → Uuid → Uuid → ℕ → RepairOrder
invalidated o status_id reject_cause_id occurred_at = record o {
  status_id = status_id;
  sort = 1;
  reject_cause_id = some reject_cause_id;
  customer_no_answer_count = o.customer_no_answer_count + 1;
  last_customer_no_answer_at = some occurred_at;
  customer_no_answer_due_at = none;
}

get_required_status_by_type-congr :
    (db db' : Db) (b b' : Uuid)
    → db.statuses ≡ db'.statuses
    → b ≡ b'
    → get_required_status_by_type b' invalid db' ≡ get_required_status_by_type b invalid db
unfolding get_required_status_by_type
get_required_status_by_type-congr db db' b b' statuses branch = rw (statuses, branch)

record_customer_no_answer-over :
    (db : Db) (o : RepairOrder) (s : RepairOrderStatus) (occurred_at : ℕ) (new_id : Uuid)
    → IsTracked db o
    → customer_no_answer_limit ≤ o.customer_no_answer_count
    → get_required_status_by_type o.branch_id invalid db ≡ ok s
    → (db' : Db) × (record_customer_no_answer o.id occurred_at new_id db ≡ ok db')
      × (find_open o.id db'.orders
          ≡ some (
              invalidated o s.id
                (get_no_answer_reject_cause_id new_id db.reject_causes).0
                occurred_at))
unfolding record_customer_no_answer invalidate_unanswered
record_customer_no_answer-over db o s occurred_at new_id tracked many required =
    let t : ltb customer_no_answer_limit (o.customer_no_answer_count + 1) ≡ true = ground arith in
    let cause = (get_no_answer_reject_cause_id new_id db.reject_causes).0 in
    let write = λ (r : RepairOrder).
      invalidated (record r { customer_no_answer_count = o.customer_no_answer_count }) s.id cause
        occurred_at in
    (
      invalidated_tables o occurred_at new_id s db,
      rw (
        IsRow-find_open o db.orders tracked.row tracked.open_order,
        record_customer_no_answer,
        tracked.trackable,
        t,
        required,
      ),
      rw (log_system_changes-keeps o.id _ _).0 (
          IsRow-find_open (write o) _
            (put_in_status-IsRow db.orders o write s.id tracked.row (λ r. refl) refl)
            tracked.open_order),
    )

-- An order in a status whose calls are tracked, on tables whose branch has an invalid status: after
-- the unanswered calls that make three and one more, all handled with success, it stands first in
-- that status, with the calls counted, a reject cause, the time of the last call and no due time.
pub calls-invalid :
    (db : Db) (o : RepairOrder) (s : RepairOrderStatus) (new_id : Uuid) (calls : List ℕ) (last : ℕ)
    → IsTracked db o
    → o.customer_no_answer_count + length calls ≡ customer_no_answer_limit
    → get_required_status_by_type o.branch_id invalid db ≡ ok s
    → (db' : Db) × (o' : RepairOrder) × (record_calls o.id new_id (calls ++ last ∷ []) db ≡ ok db')
      × (find_open o.id db'.orders ≡ some o')
      × (o'.status_id ≡ s.id)
      × (o'.sort ≡ 1)
      × (o'.customer_no_answer_count ≡ customer_no_answer_limit + 1)
      × (is_some o'.reject_cause_id ≡ true)
      × (o'.last_customer_no_answer_at ≡ some last)
      × (o'.customer_no_answer_due_at ≡ none)
unfolding record_calls
calls-invalid db o s new_id calls last tracked three required =
    let (db3, o3, run, tracked', id, count, branch, status, statuses) =
      record_calls-counted db o new_id calls tracked (omega arith) in
    let required' : get_required_status_by_type o3.branch_id invalid db3 ≡ ok s =
      get_required_status_by_type-congr db db3 o.branch_id o3.branch_id (sym statuses) (sym branch)
      ∙ required in
    let (db', step, found) =
      record_customer_no_answer-over db3 o3 s last new_id tracked' (omega arith) required' in
    (
      db',
      invalidated o3 s.id (get_no_answer_reject_cause_id new_id db3.reject_causes).0 last,
      record_calls-append o.id new_id calls (last ∷ []) db db3 run ∙ rw (← id, step),
      rw (← id) found,
      refl,
      refl,
      rw (count, three),
      refl,
      refl,
      refl,
    )
