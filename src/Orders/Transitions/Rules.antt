-- ===== src/Orders/Transitions/Rules.antt =====
-- The transition rules that apply to a role, and the other conditions of a status change, as
-- properties of rows.
use procare_backend.Common.{
  Memᴰ, Uuid, ◌↔◌, ◌≡◌, refl, sym, subst, ap, ◌∙◌, ◌⊎◌, inl, inr, Bool, true, false, not, ◌&&◌,
  Option, none, some, List, [], ◌∷◌, any, find, head?, is_some, ◌==◌, ==_iff, arith, Bool-cases,
  Option-cases, some_injective, Some, any-Some, Some-any, both_true, true_both,
}
use procare_backend.Common.Text.{Text}
use procare_backend.Common.Result.{ok, forbidden, or_throw, ok-injective}
use procare_backend.Branches.{Role, AdminPayload, mother_branch_id}
use procare_backend.Database.{
  StatusType, completed, cancelled, canceled, open_type, invalid, missed, agreed, RepairOrderStatus,
  RepairOrderStatusPermission, StatusTransition, RentalPhone, Db,
}
use procare_backend.Orders.Statuses.{get_status_details}
use procare_backend.Orders.Transitions.{
  is_role, has_role_scoped_transitions, transition_scope, in_scope, get_transition_rule,
  get_active_rental, has_service_form, get_primary_role_or_throw,
  get_target_status_permission_or_throw, is_terminal_type, is_terminal, is_blank,
}

-- The role has a transition of its own from an open status of the Mother Branch.
abbrev pub HasOwnRules : Uuid → Db → Type 0
HasOwnRules role_id db =
    Some
      (λ (t : StatusTransition).
        (t.role_id ≡ some role_id)
        × Some
            (λ (s : RepairOrderStatus).
              (s.id ≡ t.from_status_id) × (s.branch_id ≡ mother_branch_id) × (s.is_open ≡ true))
            db.statuses)
      db.transitions

-- The transitions of the role apply if it has some, and those without a role otherwise.
abbrev pub Applies : Uuid → Db → Option Uuid → Type 0
Applies role_id db t =
    (HasOwnRules role_id db × (t ≡ some role_id)) ⊎ ((HasOwnRules role_id db → ⊥) × (t ≡ none))

abbrev pub IsFinal : StatusType → Type 0
IsFinal t = (t ≡ completed) ⊎ ((t ≡ cancelled) ⊎ ((t ≡ canceled) ⊎ (t ≡ invalid)))

-- The status with this id is a final one.
abbrev pub EndsAt : Uuid → Db → Type 0
EndsAt status_id db =
    (s : RepairOrderStatus) × (find (λ (s : RepairOrderStatus). s.id == status_id) db.statuses
      ≡ some s)
    × ((t : StatusType) × (s.type ≡ some t) × IsFinal t)

abbrev pub IsRenting : Uuid → Db → Type 0
IsRenting order_id db =
    Some (λ (r : RentalPhone). (r.repair_order_id ≡ order_id) × (r.is_active ≡ true)) db.rentals

abbrev pub IsFilled : Option Text → Type 0
IsFilled text = (c : _) × (rest : Text) × (text ≡ some (c ∷ rest))

find-any {ℓ} : {A : Type ℓ} (q : A → Bool) (rows : List A) → is_some (find q rows) ≡ any q rows
find-any q [] = refl
find-any q (a ∷ rows) = ground (arith, find-any q rows)

is_role_iff : (role_id : Uuid) (o : Option Uuid) → (is_role role_id o ≡ true) ↔ (o ≡ some role_id)
is_role_iff role_id none = (λ e. cc, λ e. cc)
is_role_iff role_id (some id) =
    (λ e. ap some ((==_iff id role_id).0 e), λ e. (==_iff id role_id).1 (some_injective e))

no_role : (t : Option Uuid) → not (is_some t) ≡ true → t ≡ none
no_role none e = refl
no_role (some id) e = cc

own_rules_iff :
    (role_id : Uuid) (db : Db)
    → (has_role_scoped_transitions mother_branch_id role_id db ≡ true) ↔ HasOwnRules role_id db
unfolding has_role_scoped_transitions
own_rules_iff role_id db = (
  λ e.
      let (t, at, hit) = any-Some _ db.transitions e in
      let (mine, starts) = both_true _ _ hit in
      let (s, there, hit) = any-Some _ db.statuses starts in
      let (same, rest) = both_true _ _ hit in
      let (branch, live) = both_true _ _ rest in
      (
        t,
        at,
        (
          (is_role_iff role_id t.role_id).0 mine,
          (
            s,
            there,
            (
              (==_iff s.id t.from_status_id).0 same,
              (==_iff s.branch_id mother_branch_id).0 branch,
              live,
            ),
          ),
        ),
      ),
  λ (t, at, (mine, (s, there, (same, branch, live)))). Some-any _ t db.transitions at (
      true_both ((is_role_iff role_id t.role_id).1 mine) (
        Some-any _ s db.statuses there (
          true_both ((==_iff s.id t.from_status_id).1 same)
            (true_both ((==_iff s.branch_id mother_branch_id).1 branch) live)))),
)

scope_iff :
    (role_id : Uuid) (t : Option Uuid) (db : Db)
    → (in_scope (transition_scope mother_branch_id (some role_id) db) t ≡ true)
      ↔ Applies role_id db t
unfolding transition_scope
scope_iff role_id t db =
    elim (Bool-cases (has_role_scoped_transitions mother_branch_id role_id db)) [
      | inl own ↦ rw own (
        λ e. inl ((own_rules_iff role_id db).0 own, (is_role_iff role_id t).0 e),
        λ a. elim a [
          | inl (has, mine) ↦ (is_role_iff role_id t).1 mine
          | inr (has_not, default) ↦ absurd (has_not ((own_rules_iff role_id db).0 own))
        ],
      )
      | inr other ↦
          let has_not : HasOwnRules role_id db → ⊥ =
            λ has. let own = (own_rules_iff role_id db).1 has in cc in
          rw other (
            λ e. inr (has_not, no_role t e),
            λ a. elim a [
              | inl (has, mine) ↦ absurd (has_not has)
              | inr (not_own, default) ↦ rw default refl
            ],
          )
    ]

pub rule_iff :
    (from target role_id : Uuid) (db : Db)
    → (is_some (get_transition_rule from target mother_branch_id (some role_id) db) ≡ true)
      ↔ Some
          (λ (t : StatusTransition).
            (t.from_status_id ≡ from) × (t.to_status_id ≡ target) × Applies role_id db t.role_id)
          db.transitions
unfolding get_transition_rule
rule_iff from target role_id db = (
  λ e.
      let (t, at, hit) = any-Some _ db.transitions (sym (find-any _ db.transitions) ∙ e) in
      let (starts, rest) = both_true _ _ hit in
      let (ends, applies) = both_true _ _ rest in
      (
        t,
        at,
        (
          (==_iff t.from_status_id from).0 starts,
          (==_iff t.to_status_id target).0 ends,
          (scope_iff role_id t.role_id db).0 applies,
        ),
      ),
  λ (t, at, (starts, ends, applies)).
      find-any _ db.transitions
      ∙ Some-any _ t db.transitions at (
          true_both ((==_iff t.from_status_id from).1 starts) (
            true_both ((==_iff t.to_status_id target).1 ends)
              ((scope_iff role_id t.role_id db).1 applies))),
)

not_final : (t : StatusType) → is_terminal_type (some t) ≡ false → IsFinal t → ⊥
not_final t e (inl f) = let no = rw f at e in cc
not_final t e (inr (inl f)) = let no = rw f at e in cc
not_final t e (inr (inr (inl f))) = let no = rw f at e in cc
not_final t e (inr (inr (inr f))) = let no = rw f at e in cc

final_of : (t : StatusType) → is_terminal_type (some t) ≡ true → IsFinal t
final_of completed e = inl refl
final_of cancelled e = inr (inl refl)
final_of canceled e = inr (inr (inl refl))
final_of invalid e = inr (inr (inr refl))
final_of open_type e = cc
final_of missed e = cc
final_of agreed e = cc

final_type_iff :
    (o : Option StatusType)
    → (is_terminal_type o ≡ true) ↔ ((t : StatusType) × (o ≡ some t) × IsFinal t)
final_type_iff none = (λ e. cc, λ (t, same, f). cc)
final_type_iff (some u) = (
  λ e. (u, refl, final_of u e),
  λ (t, same, f). elim (Bool-cases (is_terminal_type (some u))) [
    | inl ends ↦ ends
    | inr goes_on ↦ absurd (not_final u goes_on (subst IsFinal (sym (some_injective same)) f))
  ],
)

ends_iff :
    (status_id : Uuid) (db : Db)
    → (is_terminal (get_status_details status_id db) ≡ true) ↔ EndsAt status_id db
unfolding get_status_details
ends_iff status_id db =
    elim (Option-cases (find (λ (s : RepairOrderStatus). s.id == status_id) db.statuses)) [
      | inl missing ↦ rw missing (λ e. cc, λ (s, found, rest). cc)
      | inr (s, found) ↦ rw found (
        λ e. (s, refl, (final_type_iff s.type).0 e),
        λ (r, same, rest). (final_type_iff s.type).1 (
            subst (λ (x : RepairOrderStatus). (t : StatusType) × (x.type ≡ some t) × IsFinal t)
              (sym (some_injective same)) rest),
      )
    ]

IsRenting-iff :
    (order_id : Uuid) (db : Db)
    → (is_some (get_active_rental order_id db) ≡ true) ↔ IsRenting order_id db
unfolding get_active_rental
IsRenting-iff order_id db = (
  λ e.
      let (r, at, hit) = any-Some _ db.rentals (sym (find-any _ db.rentals) ∙ e) in
      let (same, live) = both_true _ _ hit in
      (r, at, ((==_iff r.repair_order_id order_id).0 same, live)),
  λ (r, at, (same, live)).
      find-any _ db.rentals
      ∙ Some-any _ r db.rentals at (true_both ((==_iff r.repair_order_id order_id).1 same) live),
)

not_both : (a b : Bool) → ((a ≡ true) → (b ≡ true) → ⊥) → (a && b) ≡ false
not_both true true h = absurd (h refl refl)
not_both true false h = refl
not_both false b h = refl

both_not : (a b : Bool) → (a && b) ≡ false → a ≡ true → b ≡ true → ⊥
both_not a b e f g = ground (arith, e, f, g)

-- An order with an active rental does not end.
pub no_rental_iff :
    (status_id order_id : Uuid) (db : Db)
    → ((is_terminal (get_status_details status_id db) && is_some (get_active_rental order_id db))
        ≡ false)
      ↔ (EndsAt status_id db → IsRenting order_id db → ⊥)
no_rental_iff status_id order_id db = (
  λ e ends renting.
      both_not _ _ e ((ends_iff status_id db).1 ends) ((IsRenting-iff order_id db).1 renting),
  λ h. not_both _ _ (λ a b. h ((ends_iff status_id db).0 a) ((IsRenting-iff order_id db).0 b)),
)

-- What is demanded if a column of the permission is set.
demand_iff {ℓ} : {P : Type ℓ} (a b : Bool) → (b ≡ false) ↔ P → ((a && b) ≡ false) ↔ (a ≡ true → P)
demand_iff true b h = (λ e t. h.0 e, λ f. h.1 (f refl))
demand_iff false b h = (λ e t. absurd (ground (arith, t)), λ f. refl)

IsFilled-iff : (o : Option Text) → (is_blank o ≡ false) ↔ IsFilled o
IsFilled-iff none = (λ e. cc, λ (c, rest, e). cc)
IsFilled-iff (some []) = (λ e. cc, λ (c, rest, e). let no = some_injective e in cc)
IsFilled-iff (some (c ∷ rest)) = (λ e. (c, rest, refl), λ h. refl)

given_iff : (o : Option Uuid) → (not (is_some o) ≡ false) ↔ ((c : Uuid) × (o ≡ some c))
given_iff none = (λ e. cc, λ (c, e). cc)
given_iff (some c) = (λ e. (c, refl), λ h. refl)

form_iff :
    (order_id : Uuid) (db : Db)
    → (not (has_service_form order_id db) ≡ false) ↔ Memᴰ order_id db.service_forms
unfolding has_service_form
form_iff order_id db = (
  λ e.
      let (id, at, hit) = any-Some (λ x. x == order_id) db.service_forms (ground (arith, e)) in
      subst (λ (x : Uuid). Memᴰ x db.service_forms) ((==_iff id order_id).0 hit) at,
  λ at. ground (arith, Some-any (λ x. x == order_id) order_id db.service_forms at (ground arith)),
)

pub text_iff : (a : Bool) (o : Option Text) → ((a && is_blank o) ≡ false) ↔ (a ≡ true → IsFilled o)
text_iff a o = demand_iff a (is_blank o) (IsFilled-iff o)

pub cause_iff :
    (a : Bool) (o : Option Uuid)
    → ((a && not (is_some o)) ≡ false) ↔ (a ≡ true → (c : Uuid) × (o ≡ some c))
cause_iff a o = demand_iff a (not (is_some o)) (given_iff o)

pub service_form_iff :
    (a : Bool) (order_id : Uuid) (db : Db)
    → ((a && not (has_service_form order_id db)) ≡ false)
      ↔ (a ≡ true → Memᴰ order_id db.service_forms)
service_form_iff a order_id db =
    demand_iff a (not (has_service_form order_id db)) (form_iff order_id db)

found_iff :
    (o : Option RepairOrderStatusPermission) (p : RepairOrderStatusPermission)
    → (or_throw (forbidden "status_id") o ≡ ok p) ↔ (o ≡ some p)
found_iff none p = (λ e. cc, λ e. cc)
found_iff (some q) p = (λ e. ap some (ok-injective e), λ e. ap ok (some_injective e))

-- The permission is that of the first role.
pub permission_iff :
    (admin : AdminPayload) (permissions : List RepairOrderStatusPermission)
    (branch_id target : Uuid) (p : RepairOrderStatusPermission)
    → (get_target_status_permission_or_throw admin permissions branch_id target ≡ ok p) ↔ (
        (role : Role) × (head? admin.roles ≡ some role)
        × (find
              (λ (q : RepairOrderStatusPermission).
                q.role_id == role.id && (q.branch_id == branch_id && q.status_id == target))
              permissions
            ≡ some p))
unfolding get_target_status_permission_or_throw get_primary_role_or_throw
permission_iff admin permissions branch_id target p = elim (Option-cases (head? admin.roles)) [
  | inl nobody ↦ (
    λ e.
        let no =
          rw (get_target_status_permission_or_throw, get_primary_role_or_throw, nobody) at e in
        cc,
    λ (role, same, found). let no = sym nobody ∙ same in cc,
  )
  | inr (role, first) ↦ (
    λ e. (
      role,
      first,
      (found_iff _ p).0
          (rw (get_target_status_permission_or_throw, get_primary_role_or_throw, first) at e),
    ),
    λ (r, same, found).
        rw (get_target_status_permission_or_throw, get_primary_role_or_throw, same)
          ((found_iff _ p).1 found),
  )
]
