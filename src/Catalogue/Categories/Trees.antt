-- ===== src/Catalogue/Categories/Trees.antt =====
-- The order and the trees of the categories under every operation.
use procare_backend.Common.{
  ℕ, Uuid, ◌≡◌, refl, subst, inl, inr, true, false, not, ◌&&◌, Option, none, some, any, any_mono,
  some_injective, ◌==◌, arith, is_some, ◌||◌,
}
use procare_backend.Common.Result.{
  bad_request, not_found, ok, >>=-eq-ok, guard->>-eq-ok, if-eq-ok, ok-injective, or_throw-eq-ok,
}
use procare_backend.Ranking.Keys.{find-IsRow}
use procare_backend.Ranking.Forest.{
  same_parent, in_group, is_open_row, is_open_child, IsForest, update_where-IsForest,
  close-IsForest, reposition-IsForest, append-IsForest,
}
use procare_backend.Catalogue.Categories.{
  Names, is_link_of, PhoneCategory, ProblemCategory, Categories, phone_tree, problem_tree,
}
use procare_backend.Catalogue.Categories.Phones
use procare_backend.Catalogue.Categories.Problems

-- Both tables are ordered trees.
pub record IsSound (state : Categories) : Type 0 where
  pub phones : IsForest phone_tree state.phones
  pub problems : IsForest problem_tree state.problems

check_parent-open :
    (parent : Option Uuid) (s : Categories) {u : Unit {0}}
    → Phones.check_parent parent s ≡ ok u
    → (i : Uuid) → parent ≡ some i
    → any (is_open_row phone_tree i) s.phones ≡ true
unfolding Phones.check_parent
check_parent-open none s e i up = cc
check_parent-open (some j) s e i up =
    let (open_one, rest) =
      guard->>-eq-ok (any (λ (c : PhoneCategory). c.id == j && (c.is_open && c.is_active)) s.phones)
        _ _ e in
    subst (λ (p : Uuid). any (is_open_row phone_tree p) s.phones ≡ true) (some_injective up)
      (any_mono (λ (c : PhoneCategory). c.id == j && (c.is_open && c.is_active))
        (is_open_row phone_tree j) s.phones (λ c x. ground (arith, x)) open_one)

check_problem_parent-open :
    (parent : Option Uuid) (names : Names) (s : Categories) {u : Unit {0}}
    → Problems.check_problem_parent parent names s ≡ ok u
    → (i : Uuid) → parent ≡ some i
    → any (is_open_row problem_tree i) s.problems ≡ true
unfolding Problems.check_problem_parent
check_problem_parent-open none names s e i up = cc
check_problem_parent-open (some j) names s e i up =
    let (open_one, rest) =
      guard->>-eq-ok
        (any (λ (p : ProblemCategory). p.id == j && (p.is_open && p.is_active)) s.problems) _ _ e in
    subst (λ (p : Uuid). any (is_open_row problem_tree p) s.problems ≡ true) (some_injective up)
      (any_mono (λ (p : ProblemCategory). p.id == j && (p.is_open && p.is_active))
        (is_open_row problem_tree j) s.problems (λ p x. ground (arith, x)) open_one)

pub create_phone-IsSound :
    (new_id : Uuid) (dto : Phones.CreatePhoneCategoryDto) (admin_id : Uuid) (s s' : Categories)
    → any (λ (c : PhoneCategory). c.id == new_id) s.phones ≡ false
    → Phones.create new_id dto admin_id s ≡ ok s'
    → IsSound s
    → IsSound s'
unfolding Phones.create Phones.new_phone
create_phone-IsSound new_id dto admin_id s s' fresh e h =
    let (u, os, rest) =
      >>=-eq-ok (Phones.check_os_type dto.phone_os_type_id s.active_os_types) _ e in
    let (unique, rest) =
      guard->>-eq-ok (not (any (Phones.has_same_name dto.parent_id dto.names) s.phones)) _ _ rest in
    let (u, parent, done) = >>=-eq-ok (Phones.check_parent dto.parent_id s) _ rest in
    subst IsSound (ok-injective done) record {
      phones =
          append-IsForest phone_tree (in_group phone_tree dto.parent_id)
            (Phones.new_phone new_id dto s) s.phones fresh (λ r x. x) refl
            (check_parent-open dto.parent_id s parent) h.phones;
      problems = h.problems;
    }

pub update_phone-IsSound :
    (id : Uuid) (dto : Phones.UpdatePhoneCategoryDto) (admin_id : Option Uuid) (s s' : Categories)
    → Phones.update id dto admin_id s ≡ ok s'
    → IsSound s
    → IsSound s'
unfolding Phones.update Phones.update_data
update_phone-IsSound id dto admin_id s s' e h =
    let (category, found, rest) = >>=-eq-ok (Phones.find_open_phone id "phone_category" s) _ e in
    let (orphan, rest) = guard->>-eq-ok (not (same_parent category.parent_id (some id))) _ _ rest in
    let (unique, done) =
      guard->>-eq-ok (not (any (Phones.has_updated_name dto category) s.phones)) _ _ rest in
    subst IsSound (ok-injective done) record {
      phones =
          update_where-IsForest phone_tree (λ c. c.id == id) (Phones.update_data dto) s.phones
            (λ c. refl) (λ c. refl) (λ c. refl) (λ c. refl) h.phones;
      problems = h.problems;
    }

pub sort_phone-IsSound :
    (id : Uuid) (new_sort : ℕ) (admin_id : Option Uuid) (s s' : Categories)
    → Phones.update_sort id new_sort admin_id s ≡ ok s'
    → IsSound s
    → IsSound s'
unfolding Phones.update_sort Phones.write_sort Phones.find_open_phone
sort_phone-IsSound id new_sort admin_id s s' e h =
    let (category, found, rest) = >>=-eq-ok (Phones.find_open_phone id "id" s) _ e in
    let row =
      find-IsRow phone_tree.ranked id (λ c. c.is_open) category s.phones h.phones.keyed
        (or_throw-eq-ok _ _ found) in
    elim (if-eq-ok (new_sort == category.sort) (ok s)
      (ok (Phones.write_sort category new_sort admin_id s)) rest) [
        | inl (stay, done) ↦ subst IsSound (ok-injective done) h
        | inr (go, done) ↦ subst IsSound (ok-injective done) record {
          phones = reposition-IsForest phone_tree new_sort category s.phones row.0 h.phones;
          problems = h.problems;
        }
      ]

pub delete_phone-IsSound :
    (id : Uuid) (admin_id : Option Uuid) (s s' : Categories)
    → Phones.delete id admin_id s ≡ ok s'
    → IsSound s
    → IsSound s'
unfolding Phones.delete
delete_phone-IsSound id admin_id s s' e h =
    let (category, found, rest) = >>=-eq-ok (Phones.find_open_phone id "id" s) _ e in
    let (childless, rest) =
      guard->>-eq-ok (not (any (is_open_child phone_tree id) s.phones)) _ _ rest in
    let (unlinked, done) = guard->>-eq-ok (not (any (is_link_of id) s.mappings)) _ _ rest in
    subst IsSound (ok-injective done) record {
      phones =
          close-IsForest phone_tree id (λ c. record c { is_open = false }) s.phones (λ c. refl)
            (λ c. refl) (λ c. refl) (λ c. refl) (ground (arith, childless)) h.phones;
      problems = h.problems;
    }

pub create_problem-IsSound :
    (new_id : Uuid) (dto : Problems.CreateProblemCategoryDto) (admin_id : Uuid) (s s' : Categories)
    → any (λ (p : ProblemCategory). p.id == new_id) s.problems ≡ false
    → Problems.create new_id dto admin_id s ≡ ok s'
    → IsSound s
    → IsSound s'
unfolding Problems.create Problems.new_problem
create_problem-IsSound new_id dto admin_id s s' fresh e h =
    let (either, rest) =
      guard->>-eq-ok (not (is_some dto.parent_id && is_some dto.phone_category_id)) _ _ e in
    let (one, rest) =
      guard->>-eq-ok (is_some dto.parent_id || is_some dto.phone_category_id) _ _ rest in
    let (u, parent, rest) =
      >>=-eq-ok (Problems.check_problem_parent dto.parent_id dto.names s) _ rest in
    let (u, phone, done) =
      >>=-eq-ok (Problems.check_phone dto.phone_category_id dto.names s) _ rest in
    subst IsSound (ok-injective done) record {
      phones = h.phones;
      problems =
          append-IsForest problem_tree (λ p. true) (Problems.new_problem new_id dto s) s.problems
            fresh (λ r x. refl) refl (check_problem_parent-open dto.parent_id dto.names s parent)
            h.problems;
    }

pub update_problem-IsSound :
    (id : Uuid) (dto : Problems.UpdateProblemCategoryDto) (admin_id : Option Uuid)
    (s s' : Categories)
    → Problems.update id dto admin_id s ≡ ok s'
    → IsSound s
    → IsSound s'
unfolding Problems.update Problems.update_data
update_problem-IsSound id dto admin_id s s' e h =
    let (category, found, rest) =
      >>=-eq-ok (Problems.find_open_problem id (bad_request "id") s) _ e in
    let (unique, done) =
      guard->>-eq-ok
        (not (
          any (λ p. Problems.is_rival category s.mappings p && Problems.has_updated_name dto p)
            s.problems))
        _ _ rest in
    subst IsSound (ok-injective done) record {
      phones = h.phones;
      problems =
          update_where-IsForest problem_tree (λ c. c.id == id) (Problems.update_data dto) s.problems
            (λ c. refl) (λ c. refl) (λ c. refl) (λ c. refl) h.problems;
    }

pub sort_problem-IsSound :
    (id : Uuid) (new_sort : ℕ) (admin_id : Option Uuid) (s s' : Categories)
    → Problems.update_sort id new_sort admin_id s ≡ ok s'
    → IsSound s
    → IsSound s'
unfolding Problems.update_sort Problems.write_sort Problems.find_open_problem
sort_problem-IsSound id new_sort admin_id s s' e h =
    let (category, found, rest) =
      >>=-eq-ok (Problems.find_open_problem id (bad_request "id") s) _ e in
    let row =
      find-IsRow problem_tree.ranked id (λ c. c.is_open) category s.problems h.problems.keyed
        (or_throw-eq-ok _ _ found) in
    elim (if-eq-ok (new_sort == category.sort) (ok s)
      (ok (Problems.write_sort category new_sort admin_id s)) rest) [
        | inl (stay, done) ↦ subst IsSound (ok-injective done) h
        | inr (go, done) ↦ subst IsSound (ok-injective done) record {
          phones = h.phones;
          problems = reposition-IsForest problem_tree new_sort category s.problems row.0 h.problems;
        }
      ]

pub delete_problem-IsSound :
    (id : Uuid) (admin_id : Option Uuid) (s s' : Categories)
    → Problems.delete id admin_id s ≡ ok s'
    → IsSound s
    → IsSound s'
unfolding Problems.delete
delete_problem-IsSound id admin_id s s' e h =
    let (category, found, rest) =
      >>=-eq-ok (Problems.find_open_problem id (not_found "id") s) _ e in
    let (childless, done) =
      guard->>-eq-ok (not (any (is_open_child problem_tree id) s.problems)) _ _ rest in
    subst IsSound (ok-injective done) record {
      phones = h.phones;
      problems =
          close-IsForest problem_tree id (λ c. record c { is_open = false }) s.problems (λ c. refl)
            (λ c. refl) (λ c. refl) (λ c. refl) (ground (arith, childless)) h.problems;
    }
