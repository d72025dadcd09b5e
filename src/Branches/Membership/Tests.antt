-- ===== src/Branches/Membership/Tests.antt =====
-- One courier, assigned to a child branch and removed again.
use procare_backend.Common.{◌≡◌, refl, true, false, none, some, [], ◌∷◌, includes}
use procare_backend.Common.Result.{ok}
use procare_backend.Common.Text.{to_lower, trim}
use procare_backend.Branches.{is_super_admin, get_writable_branch_ids}
use procare_backend.Branches.Tests.{courier_admin, tables}
use procare_backend.Branches.Access.{is_child, is_unrestricted, is_assigned}
use procare_backend.Branches.Membership.{
  Membership, link, unlink, link_events, assign_admins, remove_admins,
}
use procare_backend.Branches.Membership.RoundTrip.{remove_admins-assign_admins}
use procare_backend.Branches.Membership.Rights.{
  get_writable_branch_ids-assign_admins, get_writable_branch_ids-remove_admins,
}

abbrev before : Membership
before = record {
  admins = record { id = 7; is_open = true; is_active = true } ∷ [];
  tables = tables;
  events = [];
}

-- The courier has branch 1 and gets branch 2.
abbrev assigned : Membership
assigned = record {
  admins = before.admins;
  tables = record tables { admin_branches = (7, 1) ∷ (7, 2) ∷ [] };
  events = link_events link (some 9) 2 (7 ∷ []);
}

abbrev removed : Membership
removed = record {
  admins = before.admins;
  tables = tables;
  events =
      record { action_kind = link; actor = some 9; from = 2; to = 7 }
      ∷ link_events unlink none 2 (7 ∷ []);
}

abbrev assigning : assign_admins 2 (7 ∷ []) (some 9) before ≡ ok assigned
unfolding assign_admins
assigning = refl

remove_admins-assign_admins_example :
    (s : Membership) × (remove_admins 2 (7 ∷ []) none assigned ≡ ok s) × (s.tables ≡ tables)
remove_admins-assign_admins_example =
    remove_admins-assign_admins 2 7 [] (some 9) none before assigned assigning

get_writable_branch_ids-assign_admins_example :
    includes 2 (get_writable_branch_ids courier_admin false assigned.tables) ≡ is_child 2 tables
get_writable_branch_ids-assign_admins_example =
    get_writable_branch_ids-assign_admins courier_admin 2 (7 ∷ []) (some 9) before assigned
      assigning refl

get_writable_branch_ids-remove_admins_example :
    includes 2 (get_writable_branch_ids courier_admin false removed.tables) ≡ false
unfolding remove_admins is_unrestricted is_super_admin is_assigned to_lower trim
get_writable_branch_ids-remove_admins_example =
    get_writable_branch_ids-remove_admins courier_admin 2 (7 ∷ []) none assigned removed refl refl
      refl
