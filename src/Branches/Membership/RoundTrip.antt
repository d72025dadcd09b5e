-- ===== src/Branches/Membership/RoundTrip.antt =====
-- An assignment is undone by removing the same administrators.
use procare_backend.Common.{
  Uuid, ◌≡◌, refl, sym, ap, true, false, not, Bool, List, [], ◌∷◌, ◌++◌, map, Option, select_where,
  delete_where, any, includes, length, ◌==◌, arith, if◌then◌else◌,
}
use procare_backend.Common.Result.{
  ok, guard, not_found, bad_request, >>=-eq-ok, guard-eq-ok, ok-injective,
}
use procare_backend.Branches.{BranchTables, unique}
use procare_backend.Branches.Access.{includes-unique}
use procare_backend.Branches.Membership.{
  Membership, is_listed, are_valid, are_distinct, insert_rows, with_admin_branches, unlink,
  link_events, assign_admins, remove_admins,
}

-- What an assignment that succeeds did.
pub record IsAssigned (branch_id : Uuid) (admin_ids : List Uuid) (s s' : Membership) : Type 0 where
  pub unassigned : any (is_listed branch_id admin_ids) s.tables.admin_branches ≡ false
  pub branches : s'.tables.branches ≡ s.tables.branches
  pub rows :
      s'.tables.admin_branches ≡ s.tables.admin_branches ++ insert_rows branch_id (unique admin_ids)

is_listed-unique :
    (branch_id : Uuid) (admin_ids : List Uuid) (rows : List (Uuid × Uuid))
    → any (is_listed branch_id (unique admin_ids)) rows ≡ any (is_listed branch_id admin_ids) rows
unfolding is_listed
is_listed-unique branch_id admin_ids [] = refl
is_listed-unique branch_id admin_ids (r ∷ rows) =
    rw (includes-unique r.0 admin_ids, is_listed-unique branch_id admin_ids rows) refl

pub assign_admins-IsAssigned :
    (branch_id : Uuid) (admin_ids : List Uuid) (actor : Option Uuid) (s s' : Membership)
    → assign_admins branch_id admin_ids actor s ≡ ok s'
    → IsAssigned branch_id admin_ids s s'
unfolding assign_admins
assign_admins-IsAssigned branch_id admin_ids actor s s' e =
    let (u, valid, rest) =
      >>=-eq-ok (guard (are_valid admin_ids s.admins) (not_found "admin_ids")) _ e in
    let (v, distinct, rest2) =
      >>=-eq-ok (guard (are_distinct admin_ids) (bad_request "admin_ids")) _ rest in
    let free = not (any (is_listed branch_id (unique admin_ids)) s.tables.admin_branches) in
    let (w, new, done) = >>=-eq-ok (guard free (bad_request "admin_ids")) _ rest2 in
    let none_there = guard-eq-ok free (bad_request "admin_ids") new in
    let same = ok-injective done in
    record {
      unassigned =
          ground (arith, none_there, is_listed-unique branch_id admin_ids s.tables.admin_branches);
      branches = ap (λ (t : Membership). t.tables.branches) (sym same);
      rows = ap (λ (t : Membership). t.tables.admin_branches) (sym same);
    }

includes_cons : (a x : Uuid) (xs : List Uuid) → includes a xs ≡ true → includes a (x ∷ xs) ≡ true
includes_cons a x xs e = ground (arith, e)

-- A DELETE leaves rows that it does not list, and takes all that it lists.
delete_where_none :
    {A : Type 0} (p : A → Bool) (xs ys : List A)
    → any p xs ≡ false
    → delete_where p (xs ++ ys) ≡ xs ++ delete_where p ys
delete_where_none p [] ys e = refl
delete_where_none p (x ∷ xs) ys e = ground (arith, e, delete_where_none p xs ys)

append_nil : {A : Type 0} (xs : List A) → xs ++ [] ≡ xs
append_nil [] = refl
append_nil (x ∷ xs) = ap (λ t. x ∷ t) (append_nil xs)

delete_where-insert_rows :
    (branch_id : Uuid) (admin_ids ids : List Uuid)
    → ((a : Uuid) → includes a ids ≡ true → includes a admin_ids ≡ true)
    → delete_where (is_listed branch_id admin_ids) (insert_rows branch_id ids) ≡ []
unfolding is_listed
delete_where-insert_rows branch_id admin_ids [] h = refl
delete_where-insert_rows branch_id admin_ids (x ∷ ids) h = ground (
  arith,
  h x,
  delete_where-insert_rows branch_id admin_ids ids (λ a e. h a (includes_cons a x ids e)),
)

length_append :
    {A : Type 0} (p : A → Bool) (xs ys : List A)
    → any p ys ≡ true
    → (length (select_where p (xs ++ ys)) == 0) ≡ false
length_append p [] [] e = cc
length_append p [] (y ∷ ys) e = ground (arith, e, length_append p [] ys)
length_append p (x ∷ xs) ys e = ground (arith, length_append p xs ys e)

same_tables :
    (t u : BranchTables) → t.branches ≡ u.branches → t.admin_branches ≡ u.admin_branches → t ≡ u
same_tables t u e f = cc

abbrev after_removal : Uuid → List Uuid → Option Uuid → Membership → Membership
after_removal branch_id admin_ids actor s =
    let p = is_listed branch_id admin_ids in
    with_admin_branches (delete_where p s.tables.admin_branches)
      (link_events unlink actor branch_id
        (map (λ row. row.0) (select_where p s.tables.admin_branches)))
      s

remove_admins_lem :
    (branch_id : Uuid) (admin_ids : List Uuid) (actor : Option Uuid) (s : Membership)
    → (length (select_where (is_listed branch_id admin_ids) s.tables.admin_branches) == 0) ≡ false
    → remove_admins branch_id admin_ids actor s ≡ ok (after_removal branch_id admin_ids actor s)
unfolding remove_admins
remove_admins_lem branch_id admin_ids actor s e = rw e refl

any-insert_rows :
    (branch_id first : Uuid) (more ids : List Uuid)
    → any (is_listed branch_id (first ∷ more)) (insert_rows branch_id (first ∷ ids)) ≡ true
unfolding is_listed
any-insert_rows branch_id first more ids = ground arith

-- Removing administrators right after they were assigned succeeds, whoever asks for it, and leaves
-- both tables as they were before the assignment. The list is not empty, as both routes demand.
pub remove_admins-assign_admins :
    (branch_id first : Uuid) (more : List Uuid) (actor remover : Option Uuid) (s s' : Membership)
    → assign_admins branch_id (first ∷ more) actor s ≡ ok s'
    → (s'' : Membership) × (remove_admins branch_id (first ∷ more) remover s' ≡ ok s'')
      × (s''.tables ≡ s.tables)
unfolding unique
remove_admins-assign_admins branch_id first more actor remover s s' e =
    let ids = first ∷ more in
    let p = is_listed branch_id ids in
    let old = s.tables.admin_branches in
    let new = insert_rows branch_id (unique ids) in
    let done = assign_admins-IsAssigned branch_id ids actor s s' e in
    let gone : delete_where p s'.tables.admin_branches ≡ old =
      rw
        (
          done.rows,
          delete_where_none p old new done.unassigned,
          delete_where-insert_rows branch_id ids (unique ids)
              (λ a h. ground (arith, includes-unique a ids, h)),
        )
        (append_nil old) in
    (
      after_removal branch_id ids remover s',
      remove_admins_lem branch_id ids remover s' (
          rw done.rows (
            length_append p old new (
              any-insert_rows branch_id first more
                (select_where (λ y. if y == first then false else true) (unique more))))),
      same_tables _ _ done.branches gone,
    )
