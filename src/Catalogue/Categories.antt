-- ===== src/Catalogue/Categories.antt =====
-- The two trees of categories and the links between them: src/phone-categories and
-- src/problem-categories. Prices, minutes and warranties are not read by the operations and are left
-- out, and so is the cache, which only the lists read.
mod Tests
pub mod Phones
pub mod Problems
pub mod Trees
pub mod Runs
pub mod Links
pub mod Moves
use procare_backend.Common.{
  ℕ, Uuid, ◌≡◌, refl, Bool, true, false, ◌&&◌, ◌||◌, Option, none, some, List, [], ◌∷◌, ◌++◌, find,
  any, update_where, ◌==◌, if◌then◌else◌,
}
use procare_backend.Common.Result.{Result, or_throw, bad_request}
use procare_backend.Common.Text.{Text, text_eq, to_lower}
use procare_backend.Ranking.Forest.{same_parent, Nested}
use procare_backend.Catalogue.{HistoryEvent}

pub record Names : Type 0 where
  pub name_uz : Text
  pub name_ru : Text
  pub name_en : Text

pub record PhoneCategory : Type 0 where
  pub id : Uuid
  pub names : Names
  pub telegram_sticker : Option Text
  pub phone_os_type_id : Option Uuid
  pub parent_id : Option Uuid
  pub sort : ℕ
  -- `status = 'Open'`
  pub is_open : Bool
  pub is_active : Bool

pub record ProblemCategory : Type 0 where
  pub id : Uuid
  pub names : Names
  pub parent_id : Option Uuid
  pub sort : ℕ
  pub is_open : Bool
  pub is_active : Bool

-- A row of `phone_problem_mappings`.
pub record Mapping : Type 0 where
  pub phone_category_id : Uuid
  pub problem_category_id : Uuid

pub record Categories : Type 0 where
  pub phones : List PhoneCategory
  pub problems : List ProblemCategory
  pub mappings : List Mapping
  -- the ids of the active rows of `phone_os_types`
  pub active_os_types : List Uuid
  pub events : List HistoryEvent

abbrev pub phone_tree : Nested PhoneCategory
phone_tree = record {
  ranked = record {
    id = λ r. r.id;
    sort = λ r. r.sort;
    set_sort = λ n r. record r { sort = n };
    id-set_sort = λ n r. refl;
    sort-set_sort = λ n r. refl;
    set_sort-sort = λ r. refl;
  };
  parent_id = λ r. r.parent_id;
  is_open = λ r. r.is_open;
  parent_id-set_sort = λ n r. refl;
  is_open-set_sort = λ n r. refl;
}

abbrev pub problem_tree : Nested ProblemCategory
problem_tree = record {
  ranked = record {
    id = λ r. r.id;
    sort = λ r. r.sort;
    set_sort = λ n r. record r { sort = n };
    id-set_sort = λ n r. refl;
    sort-set_sort = λ n r. refl;
    set_sort-sort = λ r. refl;
  };
  parent_id = λ r. r.parent_id;
  is_open = λ r. r.is_open;
  parent_id-set_sort = λ n r. refl;
  is_open-set_sort = λ n r. refl;
}

-- `LOWER(a) = LOWER(b)`
abbrev same_text : Text → Text → Bool
same_text a b = text_eq (to_lower a) (to_lower b)

-- The same name in any of the three languages.
unfoldable pub names_conflict : Names → Names → Bool
names_conflict a b =
    same_text a.name_uz b.name_uz
    || (same_text a.name_ru b.name_ru || same_text a.name_en b.name_en)

-- A link of a phone category.
abbrev pub is_link_of : Uuid → Mapping → Bool
is_link_of id m = m.phone_category_id == id

abbrev pub is_link_to : Uuid → Mapping → Bool
is_link_to id m = m.problem_category_id == id
