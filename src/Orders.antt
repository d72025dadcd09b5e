-- ===== src/Orders.antt =====
-- src/common/types/repair-order.interface.ts: the rows of the table `repair_orders`.
mod Tests
pub mod Board
pub mod Access
pub mod Handlers
pub mod Statuses
pub mod Transitions
pub mod NoAnswer
use procare_backend.Common.{ℕ, Uuid, Option, Bool, true, false}
use procare_backend.Common.Text.{Text}

-- Column `status` (migrations/20250608105725_create_repair_orders.js).
pub data RowStatus : Type 0 where
  open_row deleted closed cancelled : RowStatus

abbrev pub is_open : RowStatus → Bool
is_open open_row = true
is_open _ = false

-- The columns that the handlers modelled here read or write. `null` is `none`, times are
-- milliseconds.
pub record RepairOrder : Type 0 where
  pub id : Uuid
  pub branch_id : Uuid
  pub status_id : Uuid
  pub sort : ℕ
  pub status : RowStatus
  pub user_id : Option Uuid
  pub imei : Option Text
  pub reject_cause_id : Option Uuid
  pub agreed_date : Option Text
  pub customer_no_answer_count : ℕ
  pub last_customer_no_answer_at : Option ℕ
  pub customer_no_answer_due_at : Option ℕ
