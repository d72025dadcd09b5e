-- ===== src/Catalogue/Categories/Tests.antt =====
-- A phone category with two children. The second child goes first, gets a problem, and a third child
-- is created.
use procare_backend.Common.{
  Uuid, ℕ, ◌≡◌, refl, true, false, Option, none, some, [], ◌∷◌, find, ◌==◌, ◌&&◌, arith,
}
use procare_backend.Common.Text.{to_lower}
use procare_backend.Ranking.{max_sort, reposition, get_next_sort_value}
use procare_backend.Ranking.Counting.{count}
use procare_backend.Ranking.Relocation.{at, relocate}
use procare_backend.Ranking.Forest.{in_group}
use procare_backend.Catalogue.{create_event, create_action, update_action}
use procare_backend.Catalogue.Categories.{Names, PhoneCategory, Categories, phone_tree}
use procare_backend.Catalogue.Categories.Phones
use procare_backend.Catalogue.Categories.Problems
use procare_backend.Catalogue.Categories.Trees.{IsSound}
use procare_backend.Catalogue.Categories.Runs.{
  Reach, start, after, phone_sorted, problem_created, phone_created, Reach-IsSound,
}
use procare_backend.Catalogue.Categories.Links.{IsSeparate, Reach-IsSeparate}
use procare_backend.Catalogue.Categories.Moves.{update_sort-relocate}

abbrev names : ℕ → Names
names n = record { name_uz = n ∷ []; name_ru = n ∷ []; name_en = n ∷ [] }

abbrev phone : Uuid → Option Uuid → ℕ → PhoneCategory
phone id parent_id sort = record {
  id = id;
  names = names id;
  telegram_sticker = none;
  phone_os_type_id = none;
  parent_id = parent_id;
  sort = sort;
  is_open = true;
  is_active = true;
}

abbrev listed : Categories
listed = record {
  phones = phone 1 none 1 ∷ phone 2 (some 1) 1 ∷ phone 3 (some 1) 2 ∷ [];
  problems = [];
  mappings = [];
  active_os_types = [];
  events = [];
}

abbrev three_first : Categories
three_first = record listed {
  phones = phone 1 none 1 ∷ phone 2 (some 1) 2 ∷ phone 3 (some 1) 1 ∷ [];
  events = create_event update_action 3 none [];
}

abbrev with_problem : Categories
with_problem = record three_first {
  problems =
      record {
        id = 10;
        names = names 10;
        parent_id = none;
        sort = 1;
        is_open = true;
        is_active = true;
      }
      ∷ [];
  mappings = record { phone_category_id = 3; problem_category_id = 10 } ∷ [];
  events = create_event create_action 10 (some 7) three_first.events;
}

abbrev with_fourth : Categories
with_fourth = record with_problem {
  phones = phone 1 none 1 ∷ phone 2 (some 1) 2 ∷ phone 3 (some 1) 1 ∷ phone 4 (some 1) 3 ∷ [];
  events = create_event create_action 4 (some 7) with_problem.events;
}

abbrev run : Reach false listed with_fourth
unfolding Phones.update_sort reposition Problems.create get_next_sort_value max_sort Phones.create
    to_lower
run =
    after
      (after (after start (phone_sorted 3 1 none listed three_first refl)) (
        problem_created 10 record { names = names 10; parent_id = none; phone_category_id = some 3 }
          7 three_first with_problem refl refl))
      (phone_created 4
        record {
          names = names 4;
          parent_id = some 1;
          phone_os_type_id = none;
          is_active = none;
          telegram_sticker = none;
        }
        7 with_problem with_fourth refl refl)

listed-IsSound : IsSound listed
unfolding count at
listed-IsSound = record {
  phones = record {
    keyed = record { at_most_once = λ i. ground arith };
    open_parent = λ i. ground arith;
    distinct = λ parent. record {
      at_most_one = λ k. elim parent [ none ↦ ground arith | some p ↦ ground arith ];
    };
  };
  problems = record {
    keyed = record { at_most_once = λ i. ground arith };
    open_parent = λ i. ground arith;
    distinct = λ parent. record { at_most_one = λ k. ground arith };
  };
}

Reach-IsSound_example : IsSound with_fourth
Reach-IsSound_example = Reach-IsSound listed-IsSound run

Reach-IsSeparate_example : IsSeparate with_fourth
Reach-IsSeparate_example = Reach-IsSeparate record { at_most_one_kind = λ i. refl } run

update_sort-relocate_example :
    (category : PhoneCategory) × (find (λ (c : PhoneCategory). c.id == 3 && c.is_open) listed.phones
      ≡ some category)
    × (three_first.phones
        ≡ relocate phone_tree.ranked
            (in_group phone_tree category.parent_id)
            category.sort
            1
            listed.phones)
unfolding Phones.update_sort reposition
update_sort-relocate_example = update_sort-relocate 3 1 none listed three_first listed-IsSound refl
