-- ===== src/Branches/Membership/Rights.antt =====
-- What an assignment and a removal change in the rights of the administrators.
use procare_backend.Common.{
  Uuid, ◌≡◌, refl, sym, ap, ◌∙◌, true, false, not, ◌&&◌, Bool, List, [], ◌∷◌, Option, select_where,
  delete_where, any, any-append, any-delete_where, any_mono, includes, length, ◌==◌, arith,
  Bool-cases, inl, inr,
}
use procare_backend.Common.Result.{ok, guard, not_found, >>=-eq-ok, ok-injective}
use procare_backend.Branches.{
  AdminPayload, Branch, BranchTables, mother_branch_id, is_live_child, unique,
  get_writable_branch_ids,
}
use procare_backend.Branches.Access.{
  is_child, is_assigned, is_unrestricted, includes-unique, includes-get_writable_branch_ids,
}
use procare_backend.Branches.Membership.{
  Membership, is_listed, insert_rows, assign_admins, remove_admins,
}
use procare_backend.Branches.Membership.RoundTrip.{IsAssigned, assign_admins-IsAssigned}

-- A live branch.
abbrev is_live_branch : Uuid → List Branch → Bool
is_live_branch branch_id = any (λ (b : Branch). b.id == branch_id && b.is_open && b.is_active)

-- A child is live.
is_child-is_live_branch :
    (branch_id : Uuid) (t : BranchTables)
    → is_child branch_id t ≡ true
    → is_live_branch branch_id t.branches ≡ true
unfolding is_child is_live_child
is_child-is_live_branch branch_id t e =
    any_mono (λ b. is_live_child b && b.id == branch_id) _ t.branches (λ b h. ground (arith, h)) e

any-insert_rows_assigned :
    (admin_id branch_id : Uuid) (bs : List Branch) (ids : List Uuid)
    → includes admin_id ids ≡ true
    → is_live_branch branch_id bs ≡ true
    → any
        (λ p. (p.0 == admin_id && is_live_branch p.1 bs) && p.1 == branch_id)
        (insert_rows branch_id ids)
      ≡ true
any-insert_rows_assigned admin_id branch_id bs [] e h = cc
any-insert_rows_assigned admin_id branch_id bs (x ∷ ids) e h =
    ground (arith, e, h, any-insert_rows_assigned admin_id branch_id bs ids)

is_assigned-IsAssigned :
    (admin_id branch_id : Uuid) (ids : List Uuid) (s s' : Membership)
    → IsAssigned branch_id ids s s'
    → includes admin_id ids ≡ true
    → is_child branch_id s.tables ≡ true
    → is_assigned admin_id branch_id s'.tables ≡ true
unfolding is_assigned
is_assigned-IsAssigned admin_id branch_id ids s s' done e child =
    let bs = s'.tables.branches in
    let test : Uuid × Uuid → Bool =
      λ p. (p.0 == admin_id && is_live_branch p.1 bs) && p.1 == branch_id in
    let live : is_live_branch branch_id bs ≡ true =
      rw done.branches (is_child-is_live_branch branch_id s.tables child) in
    let new =
      any-insert_rows_assigned admin_id branch_id bs (unique ids)
        (ground (arith, includes-unique admin_id ids, e)) live in
    ap (any test) done.rows
    ∙ (any-append test s.tables.admin_branches (insert_rows branch_id (unique ids))
        ∙ ground (arith, new))

-- After administrators were assigned to a branch, each of them may write to it exactly if it is a
-- live child branch.
pub get_writable_branch_ids-assign_admins :
    (admin : AdminPayload) (branch_id : Uuid) (admin_ids : List Uuid) (actor : Option Uuid)
    (s s' : Membership)
    → assign_admins branch_id admin_ids actor s ≡ ok s'
    → includes admin.id admin_ids ≡ true
    → includes branch_id (get_writable_branch_ids admin false s'.tables)
      ≡ is_child branch_id s.tables
unfolding is_child
get_writable_branch_ids-assign_admins admin branch_id admin_ids actor s s' e h =
    let done = assign_admins-IsAssigned branch_id admin_ids actor s s' e in
    let same : is_child branch_id s'.tables ≡ is_child branch_id s.tables =
      ap (any _) done.branches in
    ground (
      arith,
      includes-get_writable_branch_ids admin branch_id s'.tables,
      same,
      is_assigned-IsAssigned admin.id branch_id admin_ids s s' done h,
    )

-- What a removal that succeeds did.
record IsRemoved (branch_id : Uuid) (admin_ids : List Uuid) (s s' : Membership) : Type 0 where
  branches : s'.tables.branches ≡ s.tables.branches
  rows :
      s'.tables.admin_branches
      ≡ delete_where (is_listed branch_id admin_ids) s.tables.admin_branches

remove_admins-IsRemoved :
    (branch_id : Uuid) (admin_ids : List Uuid) (actor : Option Uuid) (s s' : Membership)
    → remove_admins branch_id admin_ids actor s ≡ ok s'
    → IsRemoved branch_id admin_ids s s'
unfolding remove_admins
remove_admins-IsRemoved branch_id admin_ids actor s s' e =
    let existing = select_where (is_listed branch_id admin_ids) s.tables.admin_branches in
    let (u, found, done) =
      >>=-eq-ok (guard (not (length existing == 0)) (not_found "admin_ids")) _ e in
    let same = ok-injective done in
    record {
      branches = ap (λ (t : Membership). t.tables.branches) (sym same);
      rows = ap (λ (t : Membership). t.tables.admin_branches) (sym same);
    }

any_absent : {A : Type 0} (p : A → Bool) (xs : List A) → ((x : A) → p x ≡ false) → any p xs ≡ false
any_absent p [] h = refl
any_absent p (x ∷ xs) h = ground (arith, h x, any_absent p xs h)

-- Of the rows that a removal leaves, none assigns these administrators to the branch.
is_assigned-IsRemoved :
    (admin_id branch_id : Uuid) (ids : List Uuid) (s s' : Membership)
    → IsRemoved branch_id ids s s'
    → includes admin_id ids ≡ true
    → is_assigned admin_id branch_id s'.tables ≡ false
unfolding is_assigned is_listed
is_assigned-IsRemoved admin_id branch_id ids s s' done e =
    let bs = s'.tables.branches in
    let test : Uuid × Uuid → Bool =
      λ p. (p.0 == admin_id && is_live_branch p.1 bs) && p.1 == branch_id in
    let p = is_listed branch_id ids in
    ap (any test) done.rows
    ∙ (any-delete_where p test s.tables.admin_branches
        ∙ any_absent (λ r. not (p r) && test r) s.tables.admin_branches
            (λ r. elim (Bool-cases (r.0 == admin_id)) [
              | inl same ↦
                  let eq : r.0 ≡ admin_id = ground (arith, same) in rw eq (ground (arith, e))
              | inr other ↦ ground (arith, other)
            ]))

-- A removal assigns nobody.
is_assigned-IsRemoved_le :
    (admin_id other : Uuid) (branch_id : Uuid) (ids : List Uuid) (s s' : Membership)
    → IsRemoved branch_id ids s s'
    → is_assigned admin_id other s'.tables ≡ true
    → is_assigned admin_id other s.tables ≡ true
unfolding is_assigned
is_assigned-IsRemoved_le admin_id other branch_id ids s s' done e =
    let test : List Branch → Uuid × Uuid → Bool =
      λ bs p. (p.0 == admin_id && is_live_branch p.1 bs) && p.1 == other in
    let bs = s.tables.branches in
    let p = is_listed branch_id ids in
    let before =
      sym (any-delete_where p (test bs) s.tables.admin_branches)
      ∙ (sym (ap (any (test bs)) done.rows)
          ∙ (sym (ap (λ t. any (test t) s'.tables.admin_branches) done.branches) ∙ e)) in
    any_mono (λ r. not (p r) && test bs r) (test bs) s.tables.admin_branches
      (λ r h. ground (arith, h)) before

-- After a removal, an administrator on its list that is neither a super administrator nor, before
-- it, assigned to the Mother Branch may not write to the branch.
pub get_writable_branch_ids-remove_admins :
    (admin : AdminPayload) (branch_id : Uuid) (admin_ids : List Uuid) (actor : Option Uuid)
    (s s' : Membership)
    → remove_admins branch_id admin_ids actor s ≡ ok s'
    → includes admin.id admin_ids ≡ true
    → is_unrestricted admin s.tables ≡ false
    → includes branch_id (get_writable_branch_ids admin false s'.tables) ≡ false
unfolding is_unrestricted
get_writable_branch_ids-remove_admins admin branch_id admin_ids actor s s' e h restricted =
    let done = remove_admins-IsRemoved branch_id admin_ids actor s s' e in
    ground (
      arith,
      includes-get_writable_branch_ids admin branch_id s'.tables,
      is_assigned-IsRemoved admin.id branch_id admin_ids s s' done h,
      is_assigned-IsRemoved_le admin.id mother_branch_id branch_id admin_ids s s' done,
      restricted,
    )
