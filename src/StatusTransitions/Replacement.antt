-- ===== src/StatusTransitions/Replacement.antt =====
-- The table of transitions after `create`.
use procare_backend.Common.{Uuid, ◌≡◌, refl, Bool, false, ◌&&◌, Option, List, [], ◌∷◌, any, ◌==◌}
use procare_backend.Database.{StatusTransition}
use procare_backend.StatusTransitions.{same_role}

-- Whether the table has this transition for this role.
unfoldable pub has_transition : Uuid → Uuid → Option Uuid → List StatusTransition → Bool
has_transition from to role_id = any (λ (t : StatusTransition).
    t.from_status_id == from && (t.to_status_id == to && same_role t.role_id role_id))

any-none : (xs : List StatusTransition) → any (λ x. false) xs ≡ false
any-none [] = refl
any-none (x ∷ xs) = any-none xs
