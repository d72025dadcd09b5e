-- ===== src/Database.antt =====
-- The tables that the repair-order handlers share, as lists of rows, and the rows that are not
-- declared elsewhere (src/common/types/repair-order-status.interface.ts,
-- repair-order-status-permssion.interface.ts, repair-order-status-transition.interface.ts).
use procare_backend.Common.{ℕ, Uuid, Bool, Option, List}
use procare_backend.Common.Text.{Text}
use procare_backend.Branches.{RoleType, BranchTables}
use procare_backend.Orders.{RepairOrder}

-- Column `type` of `repair_order_statuses`; `none` is `null`.
pub data StatusType : Type 0 where
  completed cancelled canceled open_type invalid missed agreed : StatusType

pub record RepairOrderStatus : Type 0 where
  pub id : Uuid
  pub branch_id : Uuid
  pub type : Option StatusType
  pub is_active : Bool
  pub is_protected : Bool
  -- `status = 'Open'`
  pub is_open : Bool
  pub sort : ℕ

-- The Boolean columns of `repair_order_status_permissions`.
pub data PermissionField : Type 0 where
  can_add can_view can_update can_delete can_payment_add can_payment_cancel : PermissionField
  can_assign_admin can_notification can_notification_bot can_change_active : PermissionField
  can_change_status can_view_initial_problems can_change_initial_problems : PermissionField
  can_view_final_problems can_change_final_problems can_comment can_pickup_manage : PermissionField
  can_delivery_manage can_view_payments can_manage_rental_phone can_view_history : PermissionField
  can_user_manage can_create_user cannot_continue_without_imei : PermissionField
  cannot_continue_without_reject_cause cannot_continue_without_agreed_date : PermissionField
  cannot_continue_without_service_form : PermissionField

pub record RepairOrderStatusPermission : Type 0 where
  pub branch_id : Uuid
  pub status_id : Uuid
  pub role_id : Uuid
  pub allows : PermissionField → Bool

pub record StatusTransition : Type 0 where
  pub from_status_id : Uuid
  pub to_status_id : Uuid
  -- `none` is a default transition
  pub role_id : Option Uuid

pub record RoleRow : Type 0 where
  pub id : Uuid
  pub is_open : Bool
  pub is_active : Bool
  pub type : Option RoleType

pub record RentalPhone : Type 0 where
  pub repair_order_id : Uuid
  pub is_active : Bool

pub data AssignmentSource : Type 0 where
  manual telephony_auto telephony_answered role_update_auto : AssignmentSource

pub record Assignment : Type 0 where
  pub repair_order_id : Uuid
  pub admin_id : Uuid
  pub assignment_source : AssignmentSource

-- The columns of `repair_orders` whose changes are logged by the handlers modelled here.
pub data HistoryField : Type 0 where
  branch_id_field status_id_field sort_field status_field reject_cause_id_field : HistoryField
  customer_no_answer_count_field customer_no_answer_due_at_field : HistoryField

-- The JSON of a logged value: `null`, a number, a UUID, a time, or the two words of column `status`.
pub data HistoryValue : Type 0 where
  null : HistoryValue
  number uuid time : ℕ → HistoryValue
  open_word deleted_word : HistoryValue

pub record ChangeHistory : Type 0 where
  pub repair_order_id : Uuid
  pub field : HistoryField
  pub old_value : HistoryValue
  pub new_value : HistoryValue
  pub created_by : Uuid
  pub is_system : Bool

pub record AdminRow : Type 0 where
  pub id : Uuid
  pub is_open : Bool
  pub created_at : ℕ

pub record RejectCause : Type 0 where
  pub id : Uuid
  pub name : Text
  pub description : Option Text
  pub is_open : Bool
  pub is_active : Bool
  pub sort : ℕ

pub record Db : Type 0 where
  pub branch_tables : BranchTables
  pub roles : List RoleRow
  pub statuses : List RepairOrderStatus
  pub permissions : List RepairOrderStatusPermission
  pub transitions : List StatusTransition
  pub orders : List RepairOrder
  pub rentals : List RentalPhone
  -- `service_forms`: the repair orders that have one
  pub service_forms : List Uuid
  pub assignments : List Assignment
  pub histories : List ChangeHistory
  pub reject_causes : List RejectCause
  pub admins : List AdminRow
