-- ===== src/Catalogue/Categories/Runs.antt =====
-- The requests of both services that succeed, one after another.
use procare_backend.Common.{ℕ, Uuid, ◌≡◌, Bool, true, false, not, ◌||◌, Option, any, ◌==◌}
use procare_backend.Common.Result.{ok}
use procare_backend.Catalogue.Categories.{PhoneCategory, ProblemCategory, Categories}
use procare_backend.Catalogue.Categories.Phones
use procare_backend.Catalogue.Categories.Problems
use procare_backend.Catalogue.Categories.Trees.{
  IsSound, create_phone-IsSound, update_phone-IsSound, sort_phone-IsSound, delete_phone-IsSound,
  create_problem-IsSound, update_problem-IsSound, sort_problem-IsSound, delete_problem-IsSound,
}

-- A new id is the id of no row. Without `may_activate`, no update makes a phone category active.
pub data Step (may_activate : Bool) : Categories → Categories → Type 0 where
  phone_created :
      (new_id : Uuid) (dto : Phones.CreatePhoneCategoryDto) (admin_id : Uuid) (s s' : Categories)
      → any (λ (c : PhoneCategory). c.id == new_id) s.phones ≡ false
      → Phones.create new_id dto admin_id s ≡ ok s'
      → Step may_activate s s'
  phone_updated :
      (id : Uuid) (dto : Phones.UpdatePhoneCategoryDto) (admin_id : Option Uuid) (s s' : Categories)
      → (not (Phones.or_else_bool false dto.is_active) || may_activate) ≡ true
      → Phones.update id dto admin_id s ≡ ok s'
      → Step may_activate s s'
  phone_sorted :
      (id : Uuid) (new_sort : ℕ) (admin_id : Option Uuid) (s s' : Categories)
      → Phones.update_sort id new_sort admin_id s ≡ ok s'
      → Step may_activate s s'
  phone_deleted :
      (id : Uuid) (admin_id : Option Uuid) (s s' : Categories)
      → Phones.delete id admin_id s ≡ ok s'
      → Step may_activate s s'
  problem_created :
      (new_id : Uuid) (dto : Problems.CreateProblemCategoryDto) (admin_id : Uuid)
      (s s' : Categories)
      → any (λ (p : ProblemCategory). p.id == new_id) s.problems ≡ false
      → Problems.create new_id dto admin_id s ≡ ok s'
      → Step may_activate s s'
  problem_updated :
      (id : Uuid) (dto : Problems.UpdateProblemCategoryDto) (admin_id : Option Uuid)
      (s s' : Categories)
      → Problems.update id dto admin_id s ≡ ok s'
      → Step may_activate s s'
  problem_sorted :
      (id : Uuid) (new_sort : ℕ) (admin_id : Option Uuid) (s s' : Categories)
      → Problems.update_sort id new_sort admin_id s ≡ ok s'
      → Step may_activate s s'
  problem_deleted :
      (id : Uuid) (admin_id : Option Uuid) (s s' : Categories)
      → Problems.delete id admin_id s ≡ ok s'
      → Step may_activate s s'

pub data Reach (may_activate : Bool) (s : Categories) : Categories → Type 0 where
  start : Reach may_activate s s
  after :
      {t u : Categories} → Reach may_activate s t → Step may_activate t u → Reach may_activate s u

Step-IsSound :
    {may_activate : Bool} {s t : Categories} → Step may_activate s t → IsSound s → IsSound t
Step-IsSound (phone_created new_id dto admin_id s t fresh e) h =
    create_phone-IsSound new_id dto admin_id s t fresh e h
Step-IsSound (phone_updated id dto admin_id s t quiet e) h =
    update_phone-IsSound id dto admin_id s t e h
Step-IsSound (phone_sorted id new_sort admin_id s t e) h =
    sort_phone-IsSound id new_sort admin_id s t e h
Step-IsSound (phone_deleted id admin_id s t e) h = delete_phone-IsSound id admin_id s t e h
Step-IsSound (problem_created new_id dto admin_id s t fresh e) h =
    create_problem-IsSound new_id dto admin_id s t fresh e h
Step-IsSound (problem_updated id dto admin_id s t e) h =
    update_problem-IsSound id dto admin_id s t e h
Step-IsSound (problem_sorted id new_sort admin_id s t e) h =
    sort_problem-IsSound id new_sort admin_id s t e h
Step-IsSound (problem_deleted id admin_id s t e) h = delete_problem-IsSound id admin_id s t e h

-- However the requests follow one another, in both trees ids stay unique, the parent of an open
-- category stays open, and no two categories of one parent come to share a position.
pub Reach-IsSound :
    {may_activate : Bool} {s t : Categories} → IsSound s → Reach may_activate s t → IsSound t
Reach-IsSound h start = h
Reach-IsSound h (after run step) = Step-IsSound step (Reach-IsSound h run)
