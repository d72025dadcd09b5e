-- ===== src/Catalogue/Categories/Problems.antt =====
-- src/problem-categories/problem-categories.service.ts: `create`, `update`, `updateSort` and
-- `delete`. The events
-- of links are left out.
use procare_backend.Common.{
  ℕ, Uuid, Bool, true, false, not, ◌&&◌, ◌||◌, Option, none, some, List, [], ◌∷◌, ◌++◌, find, any,
  delete_where, update_where, is_some, ◌==◌, if◌then◌else◌,
}
use procare_backend.Common.Result.{
  HttpException, Result, ok, bad_request, not_found, guard, or_throw, ◌>>=◌, ◌>>◌,
}
use procare_backend.Ranking.{get_next_sort_value, reposition}
use procare_backend.Ranking.Forest.{same_parent, in_group, is_open_child}
use procare_backend.Common.Text.{Text, text_eq}
use procare_backend.Catalogue.Categories.Phones.{conflicts_with, or_else_text, or_else_bool}
use procare_backend.Catalogue.{
  bool_eq, record_entity_created, record_entity_updated, record_entity_deleted,
}
use procare_backend.Catalogue.Categories.{
  Names, PhoneCategory, ProblemCategory, Mapping, Categories, problem_tree, names_conflict,
  is_link_of, is_link_to,
}

pub record CreateProblemCategoryDto : Type 0 where
  pub names : Names
  pub parent_id : Option Uuid
  pub phone_category_id : Option Uuid

-- The checks under a parent.
unfoldable pub check_problem_parent : Option Uuid → Names → Categories → Result (Unit {0})
unfolding names_conflict
check_problem_parent none names state = ok tt
check_problem_parent (some id) names state = do
  guard (any (λ (p : ProblemCategory). p.id == id && (p.is_open && p.is_active)) state.problems)
      (bad_request "parent_id")
  guard
      (not (
        any
          (λ (p : ProblemCategory).
            same_parent p.parent_id (some id) && (p.is_open && names_conflict p.names names))
          state.problems))
      (bad_request "name_conflict")

-- `where({ parent_id: phone_category_id, status: 'Open', is_active: true })`
abbrev pub is_active_child : Uuid → PhoneCategory → Bool
is_active_child id c = same_parent c.parent_id (some id) && (c.is_open && c.is_active)

-- A root problem of a phone category with the name, by the join with the links.
unfoldable pub has_root_name : Uuid → Names → List Mapping → ProblemCategory → Bool
unfolding names_conflict
has_root_name phone_id names mappings p =
    same_parent p.parent_id none
    && (any (λ m. is_link_of phone_id m && is_link_to p.id m) mappings
        && (p.is_open && (p.is_active && names_conflict p.names names)))

-- The checks of a phone category.
unfoldable pub check_phone : Option Uuid → Names → Categories → Result (Unit {0})
unfolding has_root_name
check_phone none names state = ok tt
check_phone (some id) names state = do
  guard (not (any (is_active_child id) state.phones)) (bad_request "phone_category_id")
  guard (not (any (has_root_name id names state.mappings) state.problems))
      (bad_request "name_conflict")

-- The position follows that of all problems, whatever their parent.
unfoldable pub new_problem : Uuid → CreateProblemCategoryDto → Categories → ProblemCategory
new_problem new_id dto state = record {
  id = new_id;
  names = dto.names;
  parent_id = dto.parent_id;
  sort = get_next_sort_value problem_tree.ranked (λ p. true) state.problems;
  is_open = true;
  is_active = true;
}

abbrev pub link : Option Uuid → Uuid → List Mapping → List Mapping
link none problem_id mappings = mappings
link (some phone_id) problem_id mappings =
    mappings ++ record { phone_category_id = phone_id; problem_category_id = problem_id } ∷ []

unfoldable pub create : Uuid → CreateProblemCategoryDto → Uuid → Categories → Result Categories
unfolding check_problem_parent check_phone new_problem
create new_id dto admin_id state = do
  guard (not (is_some dto.parent_id && is_some dto.phone_category_id))
      (bad_request "conflict_parent_and_phone")
  guard (is_some dto.parent_id || is_some dto.phone_category_id) (bad_request "phone_category_id")
  check_problem_parent dto.parent_id dto.names state
  check_phone dto.phone_category_id dto.names state
  ok record state {
    problems = state.problems ++ new_problem new_id dto state ∷ [];
    mappings = link dto.phone_category_id new_id state.mappings;
    events = record_entity_created new_id (some admin_id) state.events;
  }

unfoldable pub find_open_problem : Uuid → HttpException → Categories → Result ProblemCategory
find_open_problem id exception state =
    or_throw exception (find (λ (p : ProblemCategory). p.id == id && p.is_open) state.problems)

unfoldable pub write_sort : ProblemCategory → ℕ → Option Uuid → Categories → Categories
write_sort category new_sort admin_id state = record state {
  problems =
      reposition problem_tree.ranked (in_group problem_tree category.parent_id) category.id
        category.sort new_sort state.problems;
  events = record_entity_updated true category.id admin_id state.events;
}

unfoldable pub update_sort : Uuid → ℕ → Option Uuid → Categories → Result Categories
unfolding find_open_problem write_sort
update_sort id new_sort admin_id state = do
  category ← find_open_problem id (bad_request "id") state
  if new_sort == category.sort then ok state else ok (write_sort category new_sort admin_id state)

abbrev pub unlink : ProblemCategory → List Mapping → List Mapping
unlink category mappings =
    if is_some category.parent_id then mappings else delete_where (is_link_to category.id) mappings

unfoldable pub delete : Uuid → Option Uuid → Categories → Result Categories
unfolding find_open_problem
delete id admin_id state = do
  category ← find_open_problem id (not_found "id") state
  guard (not (any (is_open_child problem_tree id) state.problems)) (bad_request "has_children")
  ok record state {
    problems = update_where (λ p. p.id == id) (λ p. record p { is_open = false }) state.problems;
    mappings = unlink category state.mappings;
    events = record_entity_deleted id admin_id state.events;
  }

-- `none` is `undefined`.
pub record UpdateProblemCategoryDto : Type 0 where
  pub name_uz : Option Text
  pub name_ru : Option Text
  pub name_en : Option Text
  pub is_active : Option Bool

-- The open problems whose names are compared: those of the same parent; for a root, those of its
-- phone category, or all roots if it has none.
unfoldable pub is_rival : ProblemCategory → List Mapping → ProblemCategory → Bool
is_rival category mappings p =
    (p.is_open && (same_parent p.parent_id category.parent_id && not (p.id == category.id)))
    && (is_some category.parent_id || elim (find (is_link_to category.id) mappings) [
      | none ↦ true
      | some m ↦ any (λ n. is_link_of m.phone_category_id n && is_link_to p.id n) mappings
    ])

unfoldable pub has_updated_name : UpdateProblemCategoryDto → ProblemCategory → Bool
has_updated_name dto p =
    conflicts_with dto.name_uz p.names.name_uz
    || (conflicts_with dto.name_ru p.names.name_ru || conflicts_with dto.name_en p.names.name_en)

unfoldable pub update_data : UpdateProblemCategoryDto → ProblemCategory → ProblemCategory
update_data dto p = record p {
  names = record {
    name_uz = or_else_text p.names.name_uz dto.name_uz;
    name_ru = or_else_text p.names.name_ru dto.name_ru;
    name_en = or_else_text p.names.name_en dto.name_en;
  };
  is_active = or_else_bool p.is_active dto.is_active;
}

abbrev has_changes : ProblemCategory → ProblemCategory → Bool
has_changes a b = not (
    text_eq a.names.name_uz b.names.name_uz
    && (text_eq a.names.name_ru b.names.name_ru
        && (text_eq a.names.name_en b.names.name_en && bool_eq a.is_active b.is_active)))

unfoldable pub update :
    Uuid → UpdateProblemCategoryDto → Option Uuid → Categories → Result Categories
unfolding find_open_problem is_rival has_updated_name update_data
update id dto admin_id state = do
  category ← find_open_problem id (bad_request "id") state
  guard
      (not (any (λ p. is_rival category state.mappings p && has_updated_name dto p) state.problems))
      (bad_request "name_conflict")
  ok record state {
    problems = update_where (λ p. p.id == id) (update_data dto) state.problems;
    events =
        record_entity_updated (has_changes category (update_data dto category)) id admin_id
          state.events;
  }
