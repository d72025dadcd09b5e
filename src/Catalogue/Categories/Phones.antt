-- ===== src/Catalogue/Categories/Phones.antt =====
-- src/phone-categories/phone-categories.service.ts: `create`, `update`, `updateSort` and `delete`.
use procare_backend.Common.{
  String, ℕ, Uuid, Bool, true, false, not, ◌&&◌, ◌||◌, Option, none, some, List, [], ◌∷◌, ◌++◌,
  find, any, includes, update_where, ◌==◌, if◌then◌else◌,
}
use procare_backend.Common.Result.{Result, ok, bad_request, guard, or_throw, ◌>>=◌, ◌>>◌}
use procare_backend.Common.Text.{Text, text_eq, to_lower, trim}
use procare_backend.Ranking.{get_next_sort_value, reposition}
use procare_backend.Ranking.Forest.{same_parent, in_group, is_open_child}
use procare_backend.Catalogue.{
  optional_text_eq, bool_eq, record_entity_created, record_entity_updated, record_entity_deleted,
}
use procare_backend.Catalogue.Categories.{
  Names, PhoneCategory, Categories, phone_tree, names_conflict, is_link_of,
}

pub record CreatePhoneCategoryDto : Type 0 where
  pub names : Names
  pub parent_id : Option Uuid
  pub phone_os_type_id : Option Uuid
  pub is_active : Option Bool
  pub telegram_sticker : Option Text

-- `none` is `undefined`.
pub record UpdatePhoneCategoryDto : Type 0 where
  pub name_uz : Option Text
  pub name_ru : Option Text
  pub name_en : Option Text
  pub is_active : Option Bool
  pub telegram_sticker : Option Text

abbrev pub check_os_type : Option Uuid → List Uuid → Result (Unit {0})
check_os_type none active = ok tt
check_os_type (some id) active = guard (includes id active) (bad_request "phone_os_type_id")

unfoldable pub has_same_name : Option Uuid → Names → PhoneCategory → Bool
unfolding names_conflict
has_same_name parent names c =
    names_conflict c.names names && (c.is_open && same_parent c.parent_id parent)

-- The parent is open and active, and has no problems of its own.
unfoldable pub check_parent : Option Uuid → Categories → Result (Unit {0})
check_parent none state = ok tt
check_parent (some id) state = do
  guard (any (λ (c : PhoneCategory). c.id == id && (c.is_open && c.is_active)) state.phones)
      (bad_request "parent_id")
  guard (not (any (is_link_of id) state.mappings)) (bad_request "parent_id")

-- `text?.trim() || otherwise`
abbrev trimmed_or : Option Text → Option Text → Option Text
trimmed_or none otherwise = otherwise
trimmed_or (some text) otherwise = elim (trim text) [ [] ↦ otherwise | c ∷ s ↦ some (c ∷ s) ]

abbrev pub or_else_bool : Bool → Option Bool → Bool
or_else_bool b none = b
or_else_bool b (some c) = c

unfoldable pub new_phone : Uuid → CreatePhoneCategoryDto → Categories → PhoneCategory
new_phone new_id dto state = record {
  id = new_id;
  names = dto.names;
  telegram_sticker = trimmed_or dto.telegram_sticker none;
  phone_os_type_id = dto.phone_os_type_id;
  parent_id = dto.parent_id;
  sort = get_next_sort_value phone_tree.ranked (in_group phone_tree dto.parent_id) state.phones;
  is_open = true;
  is_active = or_else_bool true dto.is_active;
}

unfoldable pub create : Uuid → CreatePhoneCategoryDto → Uuid → Categories → Result Categories
unfolding has_same_name check_parent new_phone
create new_id dto admin_id state = do
  check_os_type dto.phone_os_type_id state.active_os_types
  guard (not (any (has_same_name dto.parent_id dto.names) state.phones))
      (bad_request "name_conflict")
  check_parent dto.parent_id state
  ok record state {
    phones = state.phones ++ new_phone new_id dto state ∷ [];
    events = record_entity_created new_id (some admin_id) state.events;
  }

unfoldable pub find_open_phone : Uuid → String → Categories → Result PhoneCategory
find_open_phone id location state =
    or_throw (bad_request location)
      (find (λ (c : PhoneCategory). c.id == id && c.is_open) state.phones)

-- A name that the DTO sets is compared, one that it does not set is not.
abbrev pub conflicts_with : Option Text → Text → Bool
conflicts_with none name = false
conflicts_with (some new_name) name = text_eq (to_lower name) (to_lower new_name)

unfoldable pub has_updated_name : UpdatePhoneCategoryDto → PhoneCategory → PhoneCategory → Bool
has_updated_name dto category c =
    (conflicts_with dto.name_uz c.names.name_uz
      || (conflicts_with dto.name_ru c.names.name_ru || conflicts_with dto.name_en c.names.name_en))
    && (c.is_open && (not (c.id == category.id) && same_parent c.parent_id category.parent_id))

abbrev pub or_else_text : Text → Option Text → Text
or_else_text name none = name
or_else_text name (some new_name) = new_name

-- The columns that the DTO sets.
unfoldable pub update_data : UpdatePhoneCategoryDto → PhoneCategory → PhoneCategory
update_data dto c = record c {
  names = record {
    name_uz = or_else_text c.names.name_uz dto.name_uz;
    name_ru = or_else_text c.names.name_ru dto.name_ru;
    name_en = or_else_text c.names.name_en dto.name_en;
  };
  telegram_sticker = trimmed_or dto.telegram_sticker c.telegram_sticker;
  is_active = or_else_bool c.is_active dto.is_active;
}

-- `buildEntityChanges` of the history finds a difference.
abbrev has_changes : PhoneCategory → PhoneCategory → Bool
has_changes a b = not (
    text_eq a.names.name_uz b.names.name_uz
    && (text_eq a.names.name_ru b.names.name_ru
        && (text_eq a.names.name_en b.names.name_en
            && (optional_text_eq a.telegram_sticker b.telegram_sticker
                && bool_eq a.is_active b.is_active))))

unfoldable pub update : Uuid → UpdatePhoneCategoryDto → Option Uuid → Categories → Result Categories
unfolding find_open_phone has_updated_name update_data
update id dto admin_id state = do
  category ← find_open_phone id "phone_category" state
  guard (not (same_parent category.parent_id (some id))) (bad_request "parent_id")
  guard (not (any (has_updated_name dto category) state.phones)) (bad_request "name_conflict")
  ok record state {
    phones = update_where (λ c. c.id == id) (update_data dto) state.phones;
    events =
        record_entity_updated (has_changes category (update_data dto category)) id admin_id
          state.events;
  }

-- The two UPDATEs, and what follows them.
unfoldable pub write_sort : PhoneCategory → ℕ → Option Uuid → Categories → Categories
write_sort category new_sort admin_id state = record state {
  phones =
      reposition phone_tree.ranked (in_group phone_tree category.parent_id) category.id
        category.sort new_sort state.phones;
  events = record_entity_updated true category.id admin_id state.events;
}

unfoldable pub update_sort : Uuid → ℕ → Option Uuid → Categories → Result Categories
unfolding find_open_phone write_sort
update_sort id new_sort admin_id state = do
  category ← find_open_phone id "id" state
  if new_sort == category.sort then ok state else ok (write_sort category new_sort admin_id state)

unfoldable pub delete : Uuid → Option Uuid → Categories → Result Categories
unfolding find_open_phone
delete id admin_id state = do
  category ← find_open_phone id "id" state
  guard (not (any (is_open_child phone_tree id) state.phones)) (bad_request "has_children")
  guard (not (any (is_link_of id) state.mappings)) (bad_request "has_problems")
  ok record state {
    phones = update_where (λ c. c.id == id) (λ c. record c { is_open = false }) state.phones;
    events = record_entity_deleted id admin_id state.events;
  }
