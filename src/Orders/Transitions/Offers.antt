-- ===== src/Orders/Transitions/Offers.antt =====
-- A status that an admin is offered is one that the admin's first role may move an order to.
use procare_backend.Common.{
  Uuid, ◌≡◌, sym, ◌∙◌, ap, inl, inr, Bool, true, ◌&&◌, Option, none, some, List, [], ◌∷◌,
  select_where, find, head?, any, any-append, includes, is_some, map, ◌==◌, arith, Bool-cases,
  Option-cases,
}
use procare_backend.Common.Sorting.{order_by, any-order_by}
use procare_backend.Common.Result.{ok, err, forbidden, ok-injective}
use procare_backend.Branches.{Role, AdminPayload, mother_branch_id}
use procare_backend.Database.{RepairOrderStatus, RepairOrderStatusPermission, StatusTransition, Db}
use procare_backend.Orders.Transitions.{
  transition_scope, in_scope, get_transition_rule, get_primary_role_or_throw, is_target_permission,
  get_target_status_permission_or_throw, role_id_of, transition_targets, allows_status_change,
  find_allowed_status_transitions,
}

-- A joined row is the status of its transition.
any-targets :
    (to target : Uuid) (q : RepairOrderStatus → Bool) (statuses : List RepairOrderStatus)
    → any
        (λ (s : RepairOrderStatus). s.id == target)
        (select_where (λ (s : RepairOrderStatus). s.id == to && q s) statuses)
      ≡ true
    → to ≡ target
any-targets to target q [] e = cc
any-targets to target q (s ∷ statuses) e = ground (arith, any-targets to target q statuses)

-- The targets of the transitions.
any-transition_targets :
    (from : Uuid) (permitted : List Uuid) (scope : Option Uuid)
    (transitions : List StatusTransition) (db : Db) (target : Uuid)
    → any
        (λ (s : RepairOrderStatus). s.id == target)
        (transition_targets from permitted scope transitions db)
      ≡ true
    → (is_some (
          find
            (λ (t : StatusTransition).
              t.from_status_id == from && (t.to_status_id == target && in_scope scope t.role_id))
            transitions)
        ≡ true)
      × (includes target permitted ≡ true)
unfolding transition_targets
any-transition_targets from permitted scope [] db target e = cc
any-transition_targets from permitted scope (t ∷ transitions) db target e =
    let q =
      λ (s : RepairOrderStatus). s.branch_id == mother_branch_id && (s.is_open && s.is_active) in
    ground (
      arith,
      any-append (λ (s : RepairOrderStatus). s.id == target)
          (select_where (λ (s : RepairOrderStatus). s.id == t.to_status_id && q s) db.statuses)
          (transition_targets from permitted scope transitions db),
      any-targets t.to_status_id target q db.statuses,
      any-transition_targets from permitted scope transitions db target,
    )

-- A permitted status has a permission of the role.
find-permitted :
    (role_id branch_id target : Uuid) (permissions : List RepairOrderStatusPermission)
    → includes target (
        map
          (λ (p : RepairOrderStatusPermission). p.status_id)
          (select_where (λ p. p.role_id == role_id && p.branch_id == branch_id) permissions))
      ≡ true
    → is_some (find (is_target_permission role_id branch_id target) permissions) ≡ true
find-permitted role_id branch_id target [] e = cc
find-permitted role_id branch_id target (p ∷ permissions) e =
    ground (arith, find-permitted role_id branch_id target permissions)

get_primary_role_or_throw-some :
    (admin : AdminPayload) (role : Role)
    → head? admin.roles ≡ some role
    → get_primary_role_or_throw admin ≡ ok role
unfolding get_primary_role_or_throw
get_primary_role_or_throw-some admin role first = ground arith

get_primary_role_or_throw-none :
    (admin : AdminPayload)
    → head? admin.roles ≡ none
    → get_primary_role_or_throw admin ≡ err (forbidden "status_id")
unfolding get_primary_role_or_throw
get_primary_role_or_throw-none admin first = ground arith

target_permission :
    (admin : AdminPayload) (role : Role) (branch_id : Uuid)
    (permissions : List RepairOrderStatusPermission) (target : Uuid)
    → head? admin.roles ≡ some role
    → is_some (find (is_target_permission role.id branch_id target) permissions) ≡ true
    → (p : RepairOrderStatusPermission) × (get_target_status_permission_or_throw admin permissions
          branch_id target
        ≡ ok p)
unfolding get_target_status_permission_or_throw
target_permission admin role branch_id permissions target first found =
    elim (Option-cases (find (is_target_permission role.id branch_id target) permissions)) [
      | inl none_found ↦ cc
      | inr (p, e) ↦ (p, ground (arith, get_primary_role_or_throw-some admin role first))
    ]

-- A status that `findAllowedStatusTransitions` offers for an order's status passes the first checks
-- of `validateStatusTransitionOrThrow` for it: there is a transition rule in the scope of the
-- admin's first role, and the first role has a permission for it on that branch.
pub find_allowed_status_transitions_sound :
    (admin : AdminPayload) (from branch_id : Uuid) (permissions : List RepairOrderStatusPermission)
    (db : Db) (offers : List RepairOrderStatus) (target : Uuid)
    → find_allowed_status_transitions admin from branch_id permissions db ≡ ok offers
    → any (λ s. s.id == target) offers ≡ true
    → (is_some
          (get_transition_rule from target mother_branch_id (role_id_of (head? admin.roles)) db)
        ≡ true)
      × ((p : RepairOrderStatusPermission) × (get_target_status_permission_or_throw admin
              permissions branch_id target
            ≡ ok p))
unfolding find_allowed_status_transitions get_transition_rule
find_allowed_status_transitions_sound admin from branch_id permissions db offers target e offered =
    let shown = allows_status_change (find (λ p. p.status_id == from) permissions) in
    elim (Bool-cases shown) [
      | inl shows ↦ elim (Option-cases (head? admin.roles)) [
        | inl no_role ↦
            let refused =
              rw
                (
                  shows,
                  get_primary_role_or_throw-none admin no_role,
                  find_allowed_status_transitions,
                )
                at e in
            cc
        | inr (role, first) ↦
            let scope = transition_scope mother_branch_id (some role.id) db in
            let permitted =
              map (λ (p : RepairOrderStatusPermission). p.status_id)
                (select_where (λ p. p.role_id == role.id && p.branch_id == branch_id)
                  permissions) in
            let rows = transition_targets from permitted scope db.transitions db in
            let same : order_by (λ (s : RepairOrderStatus). s.sort) rows ≡ offers = ok-injective (
              rw
                (
                  shows,
                  get_primary_role_or_throw-some admin role first,
                  find_allowed_status_transitions,
                )
                at e) in
            let joined : any (λ (s : RepairOrderStatus). s.id == target) rows ≡ true =
              sym (any-order_by (λ (s : RepairOrderStatus). s.sort) (λ s. s.id == target) rows)
              ∙ ap (any (λ (s : RepairOrderStatus). s.id == target)) same
              ∙ offered in
            let (rule, inside) =
              any-transition_targets from permitted scope db.transitions db target joined in
            (
              rw first rule,
              target_permission admin role branch_id permissions target first
                  (find-permitted role.id branch_id target permissions inside),
            )
      ]
      | inr hides ↦
          let nothing = ok-injective (rw (hides, find_allowed_status_transitions) at e) in
          ground arith
    ]
