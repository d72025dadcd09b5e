-- ===== src/Catalogue/Categories/Moves.antt =====
-- A change of position of a phone category, described without its UPDATEs.
use procare_backend.Common.{
  ℕ, Uuid, ◌≡◌, refl, sym, subst, inl, inr, Option, some, List, [], ◌∷◌, ◌==◌, arith, find, ◌&&◌,
  ==_iff,
}
use procare_backend.Common.Result.{ok, >>=-eq-ok, if-eq-ok, ok-injective, or_throw-eq-ok}
use procare_backend.Ranking.Keys.{find-IsRow}
use procare_backend.Ranking.Relocation.{moved, relocate, reposition-relocate}
use procare_backend.Ranking.Forest.{in_group, same_parent_self}
use procare_backend.Catalogue.Categories.{PhoneCategory, Categories, phone_tree}
use procare_backend.Catalogue.Categories.Phones
use procare_backend.Catalogue.Categories.Trees.{IsSound}

-- A move to where the row stands.
relocate-stay :
    (parent : Option Uuid) (k : ℕ) (rows : List PhoneCategory)
    → relocate phone_tree.ranked (in_group phone_tree parent) k k rows ≡ rows
unfolding relocate moved
relocate-stay parent k [] = refl
relocate-stay parent k (r ∷ rows) = ground (arith, relocate-stay parent k rows)

-- Where the open category with this id stands, and whose child it is, decides what `updateSort` makes
-- of the table: each child of its parent gets the position that the move gives it, and no other row
-- changes.
pub update_sort-relocate :
    (id : Uuid) (new_sort : ℕ) (admin_id : Option Uuid) (s s' : Categories)
    → IsSound s
    → Phones.update_sort id new_sort admin_id s ≡ ok s'
    → (category : PhoneCategory) × (find (λ (c : PhoneCategory). c.id == id && c.is_open) s.phones
        ≡ some category)
      × (s'.phones
          ≡ relocate phone_tree.ranked
              (in_group phone_tree category.parent_id)
              category.sort
              new_sort
              s.phones)
unfolding Phones.update_sort Phones.write_sort Phones.find_open_phone
update_sort-relocate id new_sort admin_id s s' h e =
    let (category, found, rest) = >>=-eq-ok (Phones.find_open_phone id "id" s) _ e in
    let row =
      find-IsRow phone_tree.ranked id (λ c. c.is_open) category s.phones h.phones.keyed
        (or_throw-eq-ok _ _ found) in
    let group = in_group phone_tree category.parent_id in
    let moves =
      reposition-relocate phone_tree.ranked group (λ n r. refl) new_sort category s.phones row.0
        (same_parent_self phone_tree category.parent_id)
        ((h.phones.distinct category.parent_id).at_most_one category.sort) in
    (
      category,
      or_throw-eq-ok _ _ found,
      elim (if-eq-ok (new_sort == category.sort) (ok s)
          (ok (Phones.write_sort category new_sort admin_id s)) rest) [
            | inl (stay, done) ↦
                subst
                  (λ (t : Categories).
                    t.phones ≡ relocate phone_tree.ranked group category.sort new_sort s.phones)
                  (ok-injective done)
                  (rw ((==_iff new_sort category.sort).0 stay)
                    (sym (relocate-stay category.parent_id category.sort s.phones)))
            | inr (go, done) ↦
                subst
                  (λ (t : Categories).
                    t.phones ≡ relocate phone_tree.ranked group category.sort new_sort s.phones)
                  (ok-injective done) moves
          ],
    )
