-- ===== src/Catalogue.antt =====
-- The services of the ordered lists that administrators edit. Each keeps a table with column `sort`
-- and records what it does in the global history (src/history/history.service.ts:
-- `recordEntityCreated`, `recordEntityUpdated`, `recordEntityDeleted`), here the kind of the action,
-- the row and the administrator.
pub mod RejectCauses
pub mod Categories
use procare_backend.Common.Text.{Text, text_eq}
use procare_backend.Common.{
  Uuid, Bool, true, false, not, Option, none, some, List, [], ◌∷◌, ◌++◌, if◌then◌else◌,
}

pub data ActionKind : Type 0 where
  create_action update_action delete_action : ActionKind

pub record HistoryEvent : Type 0 where
  pub action_kind : ActionKind
  pub entity_pk : Uuid
  pub actor_pk : Option Uuid

-- `createEvent`
abbrev pub create_event : ActionKind → Uuid → Option Uuid → List HistoryEvent → List HistoryEvent
create_event kind id actor events =
    events ++ record { action_kind = kind; entity_pk = id; actor_pk = actor } ∷ []

abbrev pub record_entity_created : Uuid → Option Uuid → List HistoryEvent → List HistoryEvent
record_entity_created = create_event create_action

-- An update that changes none of the fields is not recorded.
abbrev pub record_entity_updated : Bool → Uuid → Option Uuid → List HistoryEvent → List HistoryEvent
record_entity_updated has_changes id actor events =
    if has_changes then create_event update_action id actor events else events

abbrev pub record_entity_deleted : Uuid → Option Uuid → List HistoryEvent → List HistoryEvent
record_entity_deleted = create_event delete_action

abbrev pub optional_text_eq : Option Text → Option Text → Bool
optional_text_eq none none = true
optional_text_eq (some a) (some b) = text_eq a b
optional_text_eq _ _ = false

abbrev pub bool_eq : Bool → Bool → Bool
bool_eq true b = b
bool_eq false b = not b
