-- ===== src/Catalogue/RejectCauses.antt =====
-- src/repair-order-reject-causes/repair-order-reject-causes.service.ts: every operation but the
-- paginated list `findAll`, whose cached pages only it reads. A cached cause may expire at any time.
-- `connected` says whether Redis can be reached during a request (src/common/redis/redis.service.ts:
-- `get` finds nothing otherwise, `set` and `del` do nothing); `find_one` calls it twice.
mod Tests
pub mod Positions
pub mod Cache
use procare_backend.Common.{
  ℕ, Uuid, ◌+◌, ◌≡◌, refl, Bool, true, false, not, ◌&&◌, ◌||◌, Option, none, some, List, [], ◌∷◌,
  ◌++◌, find, any, is_some, update_where, ltb, ◌==◌, if◌then◌else◌,
}
use procare_backend.Common.Result.{
  Result, ok, err, bad_request, not_found, guard, or_throw, ◌>>=◌, ◌>>◌,
}
use procare_backend.Common.Text.{Text, text_eq, trim, to_lower}
use procare_backend.Database.{RejectCause}
use procare_backend.Ranking.{Ranked, max_sort, or_else, get_next_sort_value, reposition}
use procare_backend.Catalogue.{
  HistoryEvent, optional_text_eq, bool_eq, record_entity_created, record_entity_updated,
  record_entity_deleted,
}

abbrev pub causes_by_sort : Ranked RejectCause
causes_by_sort = record {
  id = λ r. r.id;
  sort = λ r. r.sort;
  set_sort = λ n r. record r { sort = n };
  id-set_sort = λ n r. refl;
  sort-set_sort = λ n r. refl;
  set_sort-sort = λ r. refl;
}

-- `where({ status: 'Open' })`
abbrev pub cause_is_open : RejectCause → Bool
cause_is_open c = c.is_open

pub record RejectCauses : Type 0 where
  pub causes : List RejectCause
  -- `repair_order_reject_causes:id:${id}`
  pub cached : Uuid → Option RejectCause
  pub events : List HistoryEvent

pub record CreateRejectCauseDto : Type 0 where
  pub name : Text
  pub description : Option Text
  pub is_active : Option Bool

-- `none` is `undefined`, `some none` is `null`.
pub record UpdateRejectCauseDto : Type 0 where
  pub name : Option Text
  pub description : Option (Option Text)
  pub is_active : Option Bool

unfoldable pub normalize_name : Text → Text
normalize_name name = trim name

abbrev non_empty : Text → Option Text
non_empty [] = none
non_empty (c ∷ s) = some (c ∷ s)

unfoldable pub normalize_description : Option Text → Option Text
normalize_description none = none
normalize_description (some description) = non_empty (trim description)

unfoldable pub get_open_cause_or_throw : Uuid → List RejectCause → Result RejectCause
get_open_cause_or_throw id causes =
    or_throw (not_found "reject_cause_id")
      (find (λ (c : RejectCause). c.id == id && c.is_open) causes)

abbrev pub excludes : Option Uuid → Uuid → Bool
excludes none id = false
excludes (some exclude_id) id = id == exclude_id

unfoldable pub has_name : Text → Option Uuid → RejectCause → Bool
has_name name exclude_id c =
    c.is_open && (text_eq (to_lower c.name) (to_lower name) && not (excludes exclude_id c.id))

unfoldable pub ensure_name_is_unique : Text → Option Uuid → List RejectCause → Result (Unit {0})
ensure_name_is_unique name exclude_id causes =
    guard (not (any (has_name name exclude_id) causes)) (bad_request "name")

abbrev or_true : Option Bool → Bool
or_true none = true
or_true (some b) = b

-- `new_id` is the default of column `id`.
unfoldable pub create :
    Uuid → CreateRejectCauseDto → Option Uuid → RejectCauses → Result RejectCauses
unfolding normalize_name normalize_description
create new_id dto admin_id state = do
  let name = normalize_name dto.name
  ensure_name_is_unique name none state.causes
  let next_sort = get_next_sort_value causes_by_sort cause_is_open state.causes
  ok record state {
    causes =
        state.causes
        ++ record {
          id = new_id;
          name = name;
          description = normalize_description dto.description;
          is_open = true;
          is_active = or_true dto.is_active;
          sort = next_sort;
        }
          ∷ [];
    events = record_entity_created new_id admin_id state.events;
  }

-- `redisService.del`
abbrev pub invalidate_cache : Bool → Uuid → (Uuid → Option RejectCause) → Uuid → Option RejectCause
invalidate_cache connected id cached other = if connected && other == id then none else cached other

-- `redisService.get`
abbrev pub read_cache : Bool → Uuid → (Uuid → Option RejectCause) → Option RejectCause
read_cache connected id cached = if connected then cached id else none

-- `redisService.set`
abbrev pub write_cache :
    Bool → RejectCause → Uuid → (Uuid → Option RejectCause) → Uuid → Option RejectCause
write_cache connected cause id cached other =
    if connected && other == id then some cause else cached other

unfoldable pub find_one : Bool → Bool → Uuid → RejectCauses → Result (RejectCause × RejectCauses)
unfolding get_open_cause_or_throw
find_one readable writable id state = elim (read_cache readable id state.cached) [
  | some cause ↦ ok (cause, state)
  | none ↦ get_open_cause_or_throw id state.causes >>= λ cause.
      ok (cause, record state { cached = write_cache writable cause id state.cached })
]

-- The columns that the DTO sets.
unfoldable pub update_data : UpdateRejectCauseDto → RejectCause → RejectCause
unfolding normalize_name normalize_description
update_data dto c = record c {
  name = elim dto.name [ none ↦ c.name | some name ↦ normalize_name name ];
  description = elim dto.description [
    | none ↦ c.description
    | some description ↦ normalize_description description
  ];
  is_active = elim dto.is_active [ none ↦ c.is_active | some is_active ↦ is_active ];
}

abbrev has_changes : RejectCause → RejectCause → Bool
has_changes a b = not (
    text_eq a.name b.name
    && (optional_text_eq a.description b.description && bool_eq a.is_active b.is_active))

abbrev pub ensure_new_name : Uuid → Option Text → List RejectCause → Result (Unit {0})
ensure_new_name id none causes = ok tt
ensure_new_name id (some name) causes = ensure_name_is_unique (normalize_name name) (some id) causes

unfoldable pub update :
    Bool → Uuid → UpdateRejectCauseDto → Option Uuid → RejectCauses → Result RejectCauses
unfolding get_open_cause_or_throw ensure_name_is_unique update_data
update connected id dto admin_id state = do
  existing ← get_open_cause_or_throw id state.causes
  ensure_new_name id dto.name state.causes
  ok record state {
    causes = update_where (λ c. c.id == existing.id) (update_data dto) state.causes;
    cached = invalidate_cache connected id state.cached;
    events =
        record_entity_updated (has_changes existing (update_data dto existing)) id admin_id
          state.events;
  }

-- `Math.max(1, Math.min(newSort, maxSort))`
abbrev pub clamp : ℕ → ℕ → ℕ
clamp new_sort max_sort =
    let smaller = (if ltb new_sort max_sort then new_sort else max_sort) in
    if ltb smaller 1 then 1 else smaller

unfoldable pub target_sort : ℕ → RejectCause → List RejectCause → ℕ
target_sort new_sort existing causes =
    clamp new_sort
      (or_else causes_by_sort (max_sort causes_by_sort cause_is_open causes) existing.sort)

-- The two UPDATEs, and what follows them.
unfoldable pub write_sort : Bool → RejectCause → ℕ → Option Uuid → RejectCauses → RejectCauses
write_sort connected existing target_sort admin_id state = record state {
  causes =
      reposition causes_by_sort cause_is_open existing.id existing.sort target_sort state.causes;
  cached = invalidate_cache connected existing.id state.cached;
  events = record_entity_updated true existing.id admin_id state.events;
}

unfoldable pub update_sort : Bool → Uuid → ℕ → Option Uuid → RejectCauses → Result RejectCauses
unfolding get_open_cause_or_throw target_sort write_sort
update_sort connected id new_sort admin_id state = do
  existing ← get_open_cause_or_throw id state.causes
  let target = target_sort new_sort existing state.causes
  if target == existing.sort
      then ok state
      else ok (write_sort connected existing target admin_id state)

unfoldable pub delete : Bool → Uuid → Option Uuid → RejectCauses → Result RejectCauses
unfolding get_open_cause_or_throw
delete connected id admin_id state = do
  existing ← get_open_cause_or_throw id state.causes
  ok record state {
    causes = update_where (λ c. c.id == id) (λ c. record c { is_open = false }) state.causes;
    cached = invalidate_cache connected id state.cached;
    events = record_entity_deleted id admin_id state.events;
  }
