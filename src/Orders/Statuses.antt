-- ===== src/Orders/Statuses.antt =====
-- src/repair-orders/repair-orders.service.ts: the lookups of statuses, `getStatusDetails`,
-- `getRequiredStatusByType` and `isNoAnswerTrackableStatus`.
use procare_backend.Common.{
  ℕ, Uuid, ◌+◌, ◌*◌, ◌^◌, Bool, true, false, ◌&&◌, Option, none, some, select_where, find, head?,
  ◌==◌, if◌then◌else◌,
}
use procare_backend.Common.Sorting.{order_by}
use procare_backend.Common.Result.{Result, ok, err, bad_request}
use procare_backend.Database.{
  StatusType, completed, cancelled, canceled, open_type, invalid, missed, agreed, RepairOrderStatus,
  Db,
}

unfoldable pub get_status_details : Uuid → Db → Option RepairOrderStatus
get_status_details status_id db = find (λ s. s.id == status_id) db.statuses

-- Whether column `type` is this one; `null` is not.
unfoldable pub is_type : StatusType → Option StatusType → Bool
is_type open_type (some open_type) = true
is_type missed (some missed) = true
is_type invalid (some invalid) = true
is_type completed (some completed) = true
is_type cancelled (some cancelled) = true
is_type canceled (some canceled) = true
is_type agreed (some agreed) = true
is_type _ _ = false

unfoldable pub is_no_answer_trackable_status : Option RepairOrderStatus → Bool
is_no_answer_trackable_status none = false
is_no_answer_trackable_status (some s) = elim s.type [
  | none ↦ false
  | some t ↦ elim t [
    | completed ↦ false
    | cancelled ↦ false
    | canceled ↦ false
    | open_type ↦ true
    | invalid ↦ false
    | missed ↦ true
    | agreed ↦ false
  ]
]

-- Protected statuses first, then by `sort`, a 32-bit integer column.
unfoldable pub required_status_key : RepairOrderStatus → ℕ
required_status_key s = (if s.is_protected then 0 else 1) * 2 ^ 32 + s.sort

unfoldable pub is_required_status : Uuid → StatusType → RepairOrderStatus → Bool
unfolding is_type
is_required_status branch_id type s =
    s.branch_id == branch_id && (is_type type s.type && (s.is_open && s.is_active))

unfoldable pub get_required_status_by_type : Uuid → StatusType → Db → Result RepairOrderStatus
unfolding is_required_status required_status_key
get_required_status_by_type branch_id type db =
    elim (head? (
      order_by required_status_key
        (select_where (is_required_status branch_id type) db.statuses))) [
          | none ↦ err (bad_request "status_id")
          | some s ↦ ok s
        ]
