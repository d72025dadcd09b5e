-- ===== src/Catalogue/Categories/Links.antt =====
-- The links between phone categories and problems.
use procare_backend.Common.{
  ℕ, Uuid, ◌≡◌, subst, inl, inr, Bool, true, false, not, ◌&&◌, ◌||◌, Option, none, some, List, [],
  ◌∷◌, any, any_mono, any-append, any-update_where_le, any-delete_where, update_where, is_some,
  ◌==◌, ltb, leb, ◌+◌, ◌-◌, arith, Bool-cases, Option-cases, ==_iff,
}
use procare_backend.Common.Result.{
  bad_request, not_found, ok, >>=-eq-ok, guard-eq-ok, guard->>-eq-ok, if-eq-ok, ok-injective,
}
use procare_backend.Ranking.{reposition, shift}
use procare_backend.Ranking.Forest.{same_parent, in_group, is_open_child}
use procare_backend.Catalogue.Categories.{
  Names, PhoneCategory, ProblemCategory, Mapping, Categories, phone_tree, problem_tree, is_link_of,
  is_link_to,
}
use procare_backend.Catalogue.Categories.Phones
use procare_backend.Catalogue.Categories.Problems
use procare_backend.Catalogue.Categories.Runs.{
  Step, phone_created, phone_updated, phone_sorted, phone_deleted, problem_created, problem_updated,
  problem_sorted, problem_deleted, Reach, start, after,
}

-- No phone category has both active children and problems of its own.
pub record IsSeparate (state : Categories) : Type 0 where
  pub at_most_one_kind :
      (i : Uuid)
      → (not (any (is_link_of i) state.mappings)
          || not (any (Problems.is_active_child i) state.phones))
        ≡ true

-- An UPDATE of phone categories that activates none.
update_where-IsSeparate :
    (p : PhoneCategory → Bool) (f : PhoneCategory → PhoneCategory) (s : Categories)
    → ((i : Uuid) (c : PhoneCategory)
        → Problems.is_active_child i (f c) ≡ true
        → Problems.is_active_child i c ≡ true)
    → IsSeparate s
    → IsSeparate (record s { phones = update_where p f s.phones })
update_where-IsSeparate p f s none_new h = record {
  at_most_one_kind = λ i. ground (
    arith,
    h.at_most_one_kind i,
    any-update_where_le (Problems.is_active_child i) p f s.phones (none_new i),
  );
}

-- The moved category and those that make room keep their parents and their activity.
reposition-IsSeparate :
    (group : PhoneCategory → Bool) (i : Uuid) (from to : ℕ) (s : Categories)
    → IsSeparate s
    → IsSeparate (record s { phones = reposition phone_tree.ranked group i from to s.phones })
unfolding reposition shift
reposition-IsSeparate group i from to s h =
    update_where-IsSeparate (λ c. c.id == i) (λ c. record c { sort = to })
      (record s { phones = shift phone_tree.ranked group from to s.phones }) (λ i c x. x)
      (elim (Bool-cases (ltb to from)) [
        | inl e ↦ rw e (
            update_where-IsSeparate (λ c. group c && (leb to c.sort && ltb c.sort from))
              (λ c. record c { sort = c.sort + 1 }) s (λ i c x. x) h)
        | inr e ↦ rw e (
            update_where-IsSeparate (λ c. group c && (leb c.sort to && ltb from c.sort))
              (λ c. record c { sort = c.sort - 1 }) s (λ i c x. x) h)
      ])

-- What the guards of the two `create` handlers say.
check_parent-unlinked :
    (parent : Option Uuid) (s : Categories) {u : Unit {0}}
    → Phones.check_parent parent s ≡ ok u
    → (i : Uuid) → same_parent parent (some i) ≡ true
    → any (is_link_of i) s.mappings ≡ false
unfolding Phones.check_parent
check_parent-unlinked none s e i up = cc
check_parent-unlinked (some j) s e i up =
    let (open_one, rest) =
      guard->>-eq-ok (any (λ (c : PhoneCategory). c.id == j && (c.is_open && c.is_active)) s.phones)
        _ _ e in
    let unlinked = guard-eq-ok (not (any (is_link_of j) s.mappings)) _ rest in
    subst (λ (p : Uuid). any (is_link_of p) s.mappings ≡ false) ((==_iff j i).0 up)
      (ground (arith, unlinked))

check_phone-childless :
    (phone : Option Uuid) (names : Names) (s : Categories) {u : Unit {0}}
    → Problems.check_phone phone names s ≡ ok u
    → (i : Uuid) → same_parent phone (some i) ≡ true
    → any (Problems.is_active_child i) s.phones ≡ false
unfolding Problems.check_phone
check_phone-childless none names s e i up = cc
check_phone-childless (some j) names s e i up =
    let (childless, rest) =
      guard->>-eq-ok (not (any (Problems.is_active_child j) s.phones)) _ _ e in
    subst (λ (p : Uuid). any (Problems.is_active_child p) s.phones ≡ false) ((==_iff j i).0 up)
      (ground (arith, childless))

create_phone-IsSeparate :
    (new_id : Uuid) (dto : Phones.CreatePhoneCategoryDto) (admin_id : Uuid) (s s' : Categories)
    → Phones.create new_id dto admin_id s ≡ ok s'
    → IsSeparate s
    → IsSeparate s'
unfolding Phones.create Phones.new_phone
create_phone-IsSeparate new_id dto admin_id s s' e h =
    let (u, os, rest) =
      >>=-eq-ok (Phones.check_os_type dto.phone_os_type_id s.active_os_types) _ e in
    let (unique, rest) =
      guard->>-eq-ok (not (any (Phones.has_same_name dto.parent_id dto.names) s.phones)) _ _ rest in
    let (u, parent, done) = >>=-eq-ok (Phones.check_parent dto.parent_id s) _ rest in
    subst IsSeparate (ok-injective done) record {
      at_most_one_kind = λ i. ground (
        arith,
        h.at_most_one_kind i,
        any-append (Problems.is_active_child i) s.phones (Phones.new_phone new_id dto s ∷ []),
        check_parent-unlinked dto.parent_id s parent i,
      );
    }

link-any :
    (phone : Option Uuid) (problem_id : Uuid) (mappings : List Mapping) (i : Uuid)
    → any (is_link_of i) (Problems.link phone problem_id mappings)
      ≡ (any (is_link_of i) mappings || same_parent phone (some i))
link-any none problem_id mappings i = ground arith
link-any (some j) problem_id mappings i = ground (
  arith,
  any-append (is_link_of i) mappings
      (record { phone_category_id = j; problem_category_id = problem_id } ∷ []),
)

create_problem-IsSeparate :
    (new_id : Uuid) (dto : Problems.CreateProblemCategoryDto) (admin_id : Uuid) (s s' : Categories)
    → Problems.create new_id dto admin_id s ≡ ok s'
    → IsSeparate s
    → IsSeparate s'
unfolding Problems.create
create_problem-IsSeparate new_id dto admin_id s s' e h =
    let (either, rest) =
      guard->>-eq-ok (not (is_some dto.parent_id && is_some dto.phone_category_id)) _ _ e in
    let (one, rest) =
      guard->>-eq-ok (is_some dto.parent_id || is_some dto.phone_category_id) _ _ rest in
    let (u, parent, rest) =
      >>=-eq-ok (Problems.check_problem_parent dto.parent_id dto.names s) _ rest in
    let (u, phone, done) =
      >>=-eq-ok (Problems.check_phone dto.phone_category_id dto.names s) _ rest in
    subst IsSeparate (ok-injective done) record {
      at_most_one_kind = λ i. ground (
        arith,
        h.at_most_one_kind i,
        link-any dto.phone_category_id new_id s.mappings i,
        check_phone-childless dto.phone_category_id dto.names s phone i,
      );
    }

update_phone-IsSeparate :
    (id : Uuid) (dto : Phones.UpdatePhoneCategoryDto) (admin_id : Option Uuid) (s s' : Categories)
    → Phones.or_else_bool false dto.is_active ≡ false
    → Phones.update id dto admin_id s ≡ ok s'
    → IsSeparate s
    → IsSeparate s'
unfolding Phones.update Phones.update_data
update_phone-IsSeparate id dto admin_id s s' quiet e h =
    let (category, found, rest) = >>=-eq-ok (Phones.find_open_phone id "phone_category" s) _ e in
    let (orphan, rest) = guard->>-eq-ok (not (same_parent category.parent_id (some id))) _ _ rest in
    let (unique, done) =
      guard->>-eq-ok (not (any (Phones.has_updated_name dto category) s.phones)) _ _ rest in
    let kept =
      update_where-IsSeparate (λ c. c.id == id) (Phones.update_data dto) s
        (λ i c x. elim (Option-cases dto.is_active) [
          | inl e ↦ ground (arith, rw e at x)
          | inr (b, e) ↦ ground (arith, rw e at x, rw e at quiet)
        ])
        h in
    subst IsSeparate (ok-injective done) record { at_most_one_kind = kept.at_most_one_kind }

sort_phone-IsSeparate :
    (id : Uuid) (new_sort : ℕ) (admin_id : Option Uuid) (s s' : Categories)
    → Phones.update_sort id new_sort admin_id s ≡ ok s'
    → IsSeparate s
    → IsSeparate s'
unfolding Phones.update_sort Phones.write_sort
sort_phone-IsSeparate id new_sort admin_id s s' e h =
    let (category, found, rest) = >>=-eq-ok (Phones.find_open_phone id "id" s) _ e in
    let kept =
      reposition-IsSeparate (in_group phone_tree category.parent_id) category.id category.sort
        new_sort s h in
    elim (if-eq-ok (new_sort == category.sort) (ok s)
      (ok (Phones.write_sort category new_sort admin_id s)) rest) [
        | inl (stay, done) ↦ subst IsSeparate (ok-injective done) h
        | inr (go, done) ↦
            subst IsSeparate (ok-injective done) record { at_most_one_kind = kept.at_most_one_kind }
      ]

delete_phone-IsSeparate :
    (id : Uuid) (admin_id : Option Uuid) (s s' : Categories)
    → Phones.delete id admin_id s ≡ ok s'
    → IsSeparate s
    → IsSeparate s'
unfolding Phones.delete
delete_phone-IsSeparate id admin_id s s' e h =
    let (category, found, rest) = >>=-eq-ok (Phones.find_open_phone id "id" s) _ e in
    let (childless, rest) =
      guard->>-eq-ok (not (any (is_open_child phone_tree id) s.phones)) _ _ rest in
    let (unlinked, done) = guard->>-eq-ok (not (any (is_link_of id) s.mappings)) _ _ rest in
    let kept =
      update_where-IsSeparate (λ c. c.id == id) (λ c. record c { is_open = false }) s
        (λ i c x. ground (arith, x)) h in
    subst IsSeparate (ok-injective done) record { at_most_one_kind = kept.at_most_one_kind }

-- The operations on problems but `create` leave the phone categories as they are.
unlink-any :
    (category : ProblemCategory) (mappings : List Mapping) (i : Uuid)
    → any (is_link_of i) (Problems.unlink category mappings) ≡ true
    → any (is_link_of i) mappings ≡ true
unlink-any category mappings i e = elim (Bool-cases (is_some category.parent_id)) [
  | inl child ↦ rw child at e
  | inr root ↦
      any_mono (λ m. not (is_link_to category.id m) && is_link_of i m) (is_link_of i) mappings
        (λ m x. ground (arith, x))
        (ground
          (arith, rw root at e, any-delete_where (is_link_to category.id) (is_link_of i) mappings))
]

update_problem-IsSeparate :
    (id : Uuid) (dto : Problems.UpdateProblemCategoryDto) (admin_id : Option Uuid)
    (s s' : Categories)
    → Problems.update id dto admin_id s ≡ ok s'
    → IsSeparate s
    → IsSeparate s'
unfolding Problems.update
update_problem-IsSeparate id dto admin_id s s' e h =
    let (category, found, rest) =
      >>=-eq-ok (Problems.find_open_problem id (bad_request "id") s) _ e in
    let (unique, done) =
      guard->>-eq-ok
        (not (
          any (λ p. Problems.is_rival category s.mappings p && Problems.has_updated_name dto p)
            s.problems))
        _ _ rest in
    subst IsSeparate (ok-injective done) record { at_most_one_kind = h.at_most_one_kind }

sort_problem-IsSeparate :
    (id : Uuid) (new_sort : ℕ) (admin_id : Option Uuid) (s s' : Categories)
    → Problems.update_sort id new_sort admin_id s ≡ ok s'
    → IsSeparate s
    → IsSeparate s'
unfolding Problems.update_sort Problems.write_sort
sort_problem-IsSeparate id new_sort admin_id s s' e h =
    let (category, found, rest) =
      >>=-eq-ok (Problems.find_open_problem id (bad_request "id") s) _ e in
    elim (if-eq-ok (new_sort == category.sort) (ok s)
      (ok (Problems.write_sort category new_sort admin_id s)) rest) [
        | inl (stay, done) ↦ subst IsSeparate (ok-injective done) h
        | inr (go, done) ↦
            subst IsSeparate (ok-injective done) record { at_most_one_kind = h.at_most_one_kind }
      ]

delete_problem-IsSeparate :
    (id : Uuid) (admin_id : Option Uuid) (s s' : Categories)
    → Problems.delete id admin_id s ≡ ok s'
    → IsSeparate s
    → IsSeparate s'
unfolding Problems.delete
delete_problem-IsSeparate id admin_id s s' e h =
    let (category, found, rest) =
      >>=-eq-ok (Problems.find_open_problem id (not_found "id") s) _ e in
    let (childless, done) =
      guard->>-eq-ok (not (any (is_open_child problem_tree id) s.problems)) _ _ rest in
    subst IsSeparate (ok-injective done) record {
      at_most_one_kind =
          λ i. ground (arith, h.at_most_one_kind i, unlink-any category s.mappings i);
    }

Step-IsSeparate : {s t : Categories} → Step false s t → IsSeparate s → IsSeparate t
Step-IsSeparate (phone_created new_id dto admin_id s t fresh e) h =
    create_phone-IsSeparate new_id dto admin_id s t e h
Step-IsSeparate (phone_updated id dto admin_id s t quiet e) h =
    update_phone-IsSeparate id dto admin_id s t (ground (arith, quiet)) e h
Step-IsSeparate (phone_sorted id new_sort admin_id s t e) h =
    sort_phone-IsSeparate id new_sort admin_id s t e h
Step-IsSeparate (phone_deleted id admin_id s t e) h = delete_phone-IsSeparate id admin_id s t e h
Step-IsSeparate (problem_created new_id dto admin_id s t fresh e) h =
    create_problem-IsSeparate new_id dto admin_id s t e h
Step-IsSeparate (problem_updated id dto admin_id s t e) h =
    update_problem-IsSeparate id dto admin_id s t e h
Step-IsSeparate (problem_sorted id new_sort admin_id s t e) h =
    sort_problem-IsSeparate id new_sort admin_id s t e h
Step-IsSeparate (problem_deleted id admin_id s t e) h =
    delete_problem-IsSeparate id admin_id s t e h

-- As long as no update makes a phone category active, no phone category comes to have both active
-- children and problems of its own.
pub Reach-IsSeparate : {s t : Categories} → IsSeparate s → Reach false s t → IsSeparate t
Reach-IsSeparate h start = h
Reach-IsSeparate h (after run step) = Step-IsSeparate step (Reach-IsSeparate h run)
