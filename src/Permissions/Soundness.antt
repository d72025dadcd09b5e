-- ===== src/Permissions/Soundness.antt =====
-- What a passed permission check says of the tables.
use procare_backend.Common.{
  Uuid, ◌≡◌, refl, ap, ◌∙◌, sym, Bool, true, ◌&&◌, Option, none, some, List, [], ◌∷◌, select_where,
  find, any, any-select_where, ◌==◌, arith, String,
}
use procare_backend.Common.Sorting.{order_by, any-order_by}
use procare_backend.Common.Result.{ok, guard-eq-ok}
use procare_backend.Branches.{Role}
use procare_backend.Database.{RepairOrderStatusPermission, PermissionField, Db}
use procare_backend.Permissions.{
  permission_key, is_granted, find_by_roles_and_branch, allows_all, check_matched,
  check_permissions_or_throw,
}

find-some {ℓ} :
    {A : Type ℓ} (p q : A → Bool) (xs : List A) (x : A)
    → find p xs ≡ some x
    → q x ≡ true
    → any (λ y. p y && q y) xs ≡ true
find-some p q [] x e h = cc
find-some p q (y ∷ ys) x e h = ground (arith, find-some p q ys x)

-- A grant for one of the roles at this branch and status, with every required field.
unfoldable pub has_grant : List Role → Uuid → Uuid → List PermissionField → Db → Bool
has_grant roles branch_id status_id fields db =
    any (λ p. is_granted roles branch_id db p && (p.status_id == status_id && allows_all fields p))
      db.permissions

check_matched-eq-ok :
    (fields : List PermissionField) (location : String) (m : Option RepairOrderStatusPermission)
    {u : Unit {0}}
    → check_matched fields location m ≡ ok u
    → (p : RepairOrderStatusPermission) × (m ≡ some p) × (allows_all fields p ≡ true)
unfolding check_matched
check_matched-eq-ok fields location none e = cc
check_matched-eq-ok fields location (some p) e = (p, refl, guard-eq-ok _ _ e)

check_matched_sound :
    (roles : List Role) (branch_id status_id : Uuid) (fields : List PermissionField)
    (location : String) (db : Db) {u : Unit {0}}
    → check_matched fields location
        (find (λ p. p.status_id == status_id) (find_by_roles_and_branch roles branch_id db))
      ≡ ok u
    → has_grant roles branch_id status_id fields db ≡ true
unfolding check_matched find_by_roles_and_branch has_grant
check_matched_sound roles branch_id status_id fields location db e =
    let granted = select_where (is_granted roles branch_id db) db.permissions in
    let sorted = order_by (permission_key roles) granted in
    let (p, found, all) = check_matched-eq-ok fields location _ e in
    sym (any-order_by (permission_key roles) _ granted ∙ any-select_where _ _ db.permissions)
    ∙ find-some (λ (p : RepairOrderStatusPermission). p.status_id == status_id) (allows_all fields)
        sorted p found all

-- The rows that a handler has just read are those that an empty list would have read again.
pub check_permissions_or_throw-fresh :
    (roles : List Role) (branch_id status_id : Uuid) (fields : List PermissionField)
    (location : String) (db : Db) (permissions : List RepairOrderStatusPermission)
    → permissions ≡ find_by_roles_and_branch roles branch_id db
    → check_permissions_or_throw roles branch_id status_id fields location permissions db
      ≡ check_matched fields location
          (find (λ p. p.status_id == status_id) (find_by_roles_and_branch roles branch_id db))
unfolding check_permissions_or_throw
check_permissions_or_throw-fresh roles branch_id status_id fields location db [] e = refl
check_permissions_or_throw-fresh roles branch_id status_id fields location db (p ∷ ps) e =
    ap (λ l. check_matched fields location (find (λ p. p.status_id == status_id) l)) e

-- If the check of freshly read permissions passes, the tables hold a grant for one of the
-- administrator's roles at this branch and status, whose branch, role and status are open, and
-- which sets every required field.
pub check_permissions_or_throw_sound :
    (roles : List Role) (branch_id status_id : Uuid) (fields : List PermissionField)
    (location : String) (db : Db) (u : Unit {0})
    → check_permissions_or_throw roles branch_id status_id fields location
        (find_by_roles_and_branch roles branch_id db)
        db
      ≡ ok u
    → has_grant roles branch_id status_id fields db ≡ true
check_permissions_or_throw_sound roles branch_id status_id fields location db u e =
    check_matched_sound roles branch_id status_id fields location db (
      sym (check_permissions_or_throw-fresh roles branch_id status_id fields location db _ refl)
      ∙ e)
