-- ===== src/Catalogue/RejectCauses/Tests.antt =====
-- Two causes; the second is read, then goes before the first.
use procare_backend.Common.{
  ℕ, Uuid, ◌≡◌, refl, true, if◌then◌else◌, none, some, [], ◌∷◌, find, arith, ◌==◌,
}
use procare_backend.Common.Text.{codes}
use procare_backend.Database.{RejectCause}
use procare_backend.Ranking.{max_sort, reposition}
use procare_backend.Ranking.Counting.{count}
use procare_backend.Ranking.Keys.{IsKeyed}
use procare_backend.Ranking.Relocation.{IsContiguous, at}
use procare_backend.Catalogue.{create_event, update_action}
use procare_backend.Catalogue.RejectCauses.{
  causes_by_sort, cause_is_open, RejectCauses, update_sort, find_one,
}
use procare_backend.Catalogue.RejectCauses.Positions.{
  IsOrdered, Reach, start, after, sorted, was_read, Reach-IsOrdered, update_sort-IsContiguous,
}
use procare_backend.Catalogue.RejectCauses.Cache.{
  IsFresh, open_with_id, IsReached, AreReached, find_one-Reach,
}

abbrev cause : Uuid → ℕ → RejectCause
cause id sort = record {
  id = id;
  name = codes "Price";
  description = none;
  is_open = true;
  is_active = true;
  sort = sort;
}

abbrev listed : RejectCauses
listed = record { causes = cause 1 1 ∷ cause 2 2 ∷ []; cached = λ id. none; events = [] }

abbrev was_cached : RejectCauses
was_cached = record listed { cached = λ id. if id == 1 then some (cause 1 1) else none }

-- The first cause is still cached at position 1.
abbrev second_first : RejectCauses
second_first = record {
  causes = cause 1 2 ∷ cause 2 1 ∷ [];
  cached = λ id. if id == 2 then none else if id == 1 then some (cause 1 1) else none;
  events = create_event update_action 2 none [];
}

abbrev run : Reach listed second_first
unfolding update_sort max_sort find_one reposition
run =
    after (after start (was_read true true 1 (cause 1 1) listed was_cached refl))
      (sorted true 2 0 none was_cached second_first refl)

listed-IsKeyed : IsKeyed causes_by_sort listed.causes
unfolding count
listed-IsKeyed = record { at_most_once = λ i. ground arith }

listed-IsContiguous : IsContiguous causes_by_sort cause_is_open listed.causes
unfolding count at
listed-IsContiguous = record { exactly_one = λ k. ground arith }

listed-IsOrdered : IsOrdered listed
unfolding count at
listed-IsOrdered = record {
  keyed = listed-IsKeyed;
  distinct = record { at_most_one = λ k. ground arith };
}

Reach-IsOrdered_example : IsOrdered second_first
Reach-IsOrdered_example = Reach-IsOrdered listed-IsOrdered run

update_sort-IsContiguous_example : IsContiguous causes_by_sort cause_is_open second_first.causes
unfolding update_sort max_sort reposition
update_sort-IsContiguous_example =
    update_sort-IsContiguous true 2 0 none was_cached second_first listed-IsKeyed
      listed-IsContiguous refl

find_one-Reach_example :
    (row : RejectCause) × (find (open_with_id 1) second_first.causes ≡ some row)
    × (record (cause 1 1) { sort = row.sort } ≡ row)
unfolding IsFresh find_one AreReached IsReached run
find_one-Reach_example =
    find_one-Reach true true 1 (cause 1 1) listed second_first second_first
      record { fresh_at = λ id. tt } run ((tt, tt), refl) refl
