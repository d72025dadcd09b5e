-- ===== src/Branches/Access.antt =====
-- Who sees a branch and who may write to it, read off the tables.
use procare_backend.Common.{
  ℕ, Uuid, ◌≡◌, refl, inl, inr, Bool, true, false, not, ◌&&◌, ◌||◌, List, [], ◌∷◌, select_where,
  any, includes, any-select_where, any-map, ◌==◌, if◌then◌else◌, arith, Bool-cases,
}
use procare_backend.Common.Sorting.{any-order_by}
use procare_backend.Branches.{
  AdminPayload, BranchTables, mother_branch_id, is_super_admin, is_live_child, get_child_branch_ids,
  get_admin_assigned_branch_ids, unique, is_empty, get_visible_branch_ids, get_writable_branch_ids,
}

-- A live branch with this id whose parent is the Mother Branch.
unfoldable pub is_child : Uuid → BranchTables → Bool
is_child branch_id t = any (λ b. is_live_child b && b.id == branch_id) t.branches

-- The administrator is assigned to this live branch.
unfoldable pub is_assigned : Uuid → Uuid → BranchTables → Bool
is_assigned admin_id branch_id t =
    any
      (λ p.
        (p.0 == admin_id && any (λ b. b.id == p.1 && b.is_open && b.is_active) t.branches)
        && p.1 == branch_id)
      t.admin_branches

-- A super administrator, or one assigned to the Mother Branch.
unfoldable pub is_unrestricted : AdminPayload → BranchTables → Bool
is_unrestricted admin t = is_super_admin admin || is_assigned admin.id mother_branch_id t

includes-get_child_branch_ids :
    (branch_id : Uuid) (t : BranchTables)
    → includes branch_id (get_child_branch_ids t) ≡ is_child branch_id t
unfolding get_child_branch_ids is_child
includes-get_child_branch_ids branch_id t = simp (any-map, any-order_by, any-select_where)

includes-get_admin_assigned_branch_ids :
    (admin_id branch_id : Uuid) (t : BranchTables)
    → includes branch_id (get_admin_assigned_branch_ids admin_id t)
      ≡ is_assigned admin_id branch_id t
unfolding get_admin_assigned_branch_ids is_assigned
includes-get_admin_assigned_branch_ids admin_id branch_id t = simp (any-map, any-select_where)

includes-select_where :
    (a : ℕ) (p : ℕ → Bool) (xs : List ℕ) → includes a (select_where p xs) ≡ (includes a xs && p a)
includes-select_where a p [] = refl
includes-select_where a p (x ∷ xs) = elim (Bool-cases (x == a)) [
  | inl same ↦ let e : x ≡ a = ground arith in rw e (ground (arith, includes-select_where a p xs))
  | inr other ↦ ground (arith, includes-select_where a p xs)
]

pub includes-unique : (a : ℕ) (xs : List ℕ) → includes a (unique xs) ≡ includes a xs
unfolding unique
includes-unique a [] = refl
includes-unique a (x ∷ xs) = ground (
  arith,
  includes-select_where a (λ y. if y == x then false else true) (unique xs),
  includes-unique a xs,
)

is_empty-select_where : (p : ℕ → Bool) (xs : List ℕ) → is_empty (select_where p xs) ≡ not (any p xs)
is_empty-select_where p [] = refl
is_empty-select_where p (x ∷ xs) = ground (arith, is_empty-select_where p xs)

-- The administrator is assigned to some live child branch.
unfoldable pub has_child : AdminPayload → BranchTables → Bool
has_child admin t =
    any (λ id. includes id (get_child_branch_ids t)) (get_admin_assigned_branch_ids admin.id t)

-- A branch is visible exactly if it is the Mother Branch and the administrator is unrestricted or
-- assigned to a live child branch, or it is a live child branch and the administrator is
-- unrestricted or assigned to it.
pub includes-get_visible_branch_ids :
    (admin : AdminPayload) (branch_id : Uuid) (t : BranchTables)
    → includes branch_id (get_visible_branch_ids admin t) ≡ (
        branch_id == mother_branch_id && (is_unrestricted admin t || has_child admin t)
        || (is_child branch_id t && (is_unrestricted admin t || is_assigned admin.id branch_id t)))
unfolding get_visible_branch_ids is_unrestricted has_child
includes-get_visible_branch_ids admin branch_id t = ground (
  arith,
  includes-get_child_branch_ids branch_id t,
  includes-get_admin_assigned_branch_ids admin.id branch_id t,
  includes-get_admin_assigned_branch_ids admin.id mother_branch_id t,
  is_empty-select_where (λ id. includes id (get_child_branch_ids t))
      (get_admin_assigned_branch_ids admin.id t),
  includes-unique branch_id (
      mother_branch_id
      ∷ select_where (λ id. includes id (get_child_branch_ids t))
          (get_admin_assigned_branch_ids admin.id t)),
  includes-select_where branch_id (λ id. includes id (get_child_branch_ids t))
      (get_admin_assigned_branch_ids admin.id t),
)

-- Without the Mother Branch included, an administrator may write exactly to the live child
-- branches, if unrestricted, and otherwise to the live child branches of the assignment.
pub includes-get_writable_branch_ids :
    (admin : AdminPayload) (branch_id : Uuid) (t : BranchTables)
    → includes branch_id (get_writable_branch_ids admin false t)
      ≡ (is_child branch_id t && (is_unrestricted admin t || is_assigned admin.id branch_id t))
unfolding get_writable_branch_ids is_unrestricted
includes-get_writable_branch_ids admin branch_id t = ground (
  arith,
  includes-get_child_branch_ids branch_id t,
  includes-get_admin_assigned_branch_ids admin.id branch_id t,
  includes-get_admin_assigned_branch_ids admin.id mother_branch_id t,
  includes-select_where branch_id (λ id. includes id (get_child_branch_ids t))
      (get_admin_assigned_branch_ids admin.id t),
)
