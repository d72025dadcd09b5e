-- ===== src/Ranking/Forest.antt =====
-- A ranked table whose rows may have a parent in the same table; the rows of one parent are ranked
-- among themselves.
use procare_backend.Common.{
  ℕ, Uuid, ◌≡◌, refl, ap, subst, sym, inl, inr, Bool, true, false, not, ◌&&◌, ◌||◌, Option, none,
  some, List, [], ◌∷◌, ◌++◌, any, any-append, any-update_where, any-update_where_le, update_where,
  ◌==◌, arith, Bool-cases, ==_iff,
}
use procare_backend.Ranking.{Ranked, has_id, get_next_sort_value, reposition}
use procare_backend.Ranking.Counting.{count, count-append}
use procare_backend.Ranking.Keys.{IsKeyed, update_where-IsKeyed, reposition-IsKeyed, append-IsKeyed}
use procare_backend.Ranking.Order.{count-update_where, append-IsDistinct, reposition-IsDistinct}
use procare_backend.Ranking.Relocation.{
  moved, relocate, IsRow, IsDistinct, at, reposition-relocate, count_other-relocate,
}

abbrev pub same_parent : Option Uuid → Option Uuid → Bool
same_parent none none = true
same_parent (some a) (some b) = a == b
same_parent _ _ = false

pub record Nested (Row : Type 0) : Type 0 where
  pub ranked : Ranked Row
  pub parent_id : Row → Option Uuid
  -- `status = 'Open'`
  pub is_open : Row → Bool
  pub parent_id-set_sort : (n : ℕ) (r : Row) → parent_id (ranked.set_sort n r) ≡ parent_id r
  pub is_open-set_sort : (n : ℕ) (r : Row) → is_open (ranked.set_sort n r) ≡ is_open r

module _ {Row : Type 0} (N : Nested Row) where
  abbrev pub in_group : Option Uuid → Row → Bool
  in_group parent r = same_parent (N.parent_id r) parent

  abbrev pub is_open_row : Uuid → Row → Bool
  is_open_row i r = N.ranked.id r == i && N.is_open r

  abbrev pub is_open_child : Uuid → Row → Bool
  is_open_child i r = same_parent (N.parent_id r) (some i) && N.is_open r

  -- Ids are unique, the parent of an open row is open, and no two rows of one parent share a
  -- position.
  pub record IsForest (rows : List Row) : Type 0 where
    pub keyed : IsKeyed N.ranked rows
    pub open_parent :
        (i : Uuid) → (not (any (is_open_child i) rows) || any (is_open_row i) rows) ≡ true
    pub distinct : (parent : Option Uuid) → IsDistinct N.ranked (in_group parent) rows

  pub same_parent_self : (a : Option Uuid) → same_parent a a ≡ true
  same_parent_self none = refl
  same_parent_self (some a) = ground arith

  same_parent_iff : (a b : Option Uuid) → same_parent a b ≡ true → a ≡ b
  same_parent_iff none none h = refl
  same_parent_iff (some a) (some b) h = ap some ((==_iff a b).0 h)
  same_parent_iff none (some b) h = cc
  same_parent_iff (some a) none h = cc

  same_parent_eq :
      (a b c : Option Uuid) → same_parent a b ≡ true → same_parent a c ≡ same_parent b c
  same_parent_eq none none c h = refl
  same_parent_eq (some a) (some b) none h = refl
  same_parent_eq (some a) (some b) (some c) h = ground arith
  same_parent_eq none (some b) c h = cc
  same_parent_eq (some a) none c h = cc

  -- An UPDATE of columns that the order and the tree do not read.
  pub update_where-IsForest :
      (p : Row → Bool) (f : Row → Row) (rows : List Row)
      → ((r : Row) → N.ranked.id (f r) ≡ N.ranked.id r)
      → ((r : Row) → N.parent_id (f r) ≡ N.parent_id r)
      → ((r : Row) → N.is_open (f r) ≡ N.is_open r)
      → ((r : Row) → N.ranked.sort (f r) ≡ N.ranked.sort r)
      → IsForest rows
      → IsForest (update_where p f rows)
  unfolding at
  update_where-IsForest p f rows same_id same_up same_open same_sort h = record {
    keyed = update_where-IsKeyed N.ranked p f rows same_id h.keyed;
    open_parent = λ i.
        rw
          (
            any-update_where (is_open_child i) p f rows (λ r x. rw (same_up r, same_open r)),
            any-update_where (is_open_row i) p f rows (λ r x. rw (same_id r, same_open r)),
          )
          (h.open_parent i);
    distinct = λ parent. record {
      at_most_one = λ k.
          rw
            (count-update_where (at N.ranked (in_group parent) k) p f rows
              (λ r. rw (same_up r, same_sort r)))
            ((h.distinct parent).at_most_one k);
    };
  }

  -- A row without open children is closed.
  pub close-IsForest :
      (i : Uuid) (f : Row → Row) (rows : List Row)
      → ((r : Row) → N.ranked.id (f r) ≡ N.ranked.id r)
      → ((r : Row) → N.parent_id (f r) ≡ N.parent_id r)
      → ((r : Row) → N.is_open (f r) ≡ false)
      → ((r : Row) → N.ranked.sort (f r) ≡ N.ranked.sort r)
      → any (is_open_child i) rows ≡ false
      → IsForest rows
      → IsForest (update_where (has_id N.ranked i) f rows)
  unfolding at
  close-IsForest i f rows same_id same_up closed same_sort childless h = record {
    keyed = update_where-IsKeyed N.ranked (has_id N.ranked i) f rows same_id h.keyed;
    open_parent = λ j. elim (Bool-cases (any (is_open_child j) rows)) [
      | inl has_child ↦
          let other : (j == i) ≡ false = elim (Bool-cases (j == i)) [
            | inl e ↦ ground (
              arith,
              subst (λ x. any (is_open_child x) rows ≡ false) (sym ((==_iff j i).0 e)) childless,
              has_child,
            )
            | inr e ↦ e
          ] in
          ground (
            arith,
            h.open_parent j,
            has_child,
            any-update_where (is_open_row j) (has_id N.ranked i) f rows
                (λ r x. ground (arith, same_id r, x, other)),
          )
      | inr no_child ↦ ground (
        arith,
        any-update_where_le (is_open_child j) (has_id N.ranked i) f rows
            (λ r x. ground (arith, closed r, x)) no_child,
      )
    ];
    distinct = λ parent. record {
      at_most_one = λ k.
          rw
            (count-update_where (at N.ranked (in_group parent) k) (has_id N.ranked i) f rows
              (λ r. rw (same_up r, same_sort r)))
            ((h.distinct parent).at_most_one k);
    };
  }

  -- A row moves among the rows of its parent.
  pub reposition-IsForest :
      (to : ℕ) (o : Row) (rows : List Row)
      → IsRow N.ranked rows o
      → IsForest rows
      → IsForest
          (reposition N.ranked (in_group (N.parent_id o)) (N.ranked.id o) (N.ranked.sort o) to rows)
  unfolding at relocate
  reposition-IsForest to o rows row h =
      let group = in_group (N.parent_id o) in
      let keep : (n : ℕ) (r : Row) → group (N.ranked.set_sort n r) ≡ group r =
        λ n r. rw (N.parent_id-set_sort n r) in
      let inside : group o ≡ true = same_parent_self (N.parent_id o) in
      let d = h.distinct (N.parent_id o) in
      let new_sort = λ (r : Row). moved (N.ranked.sort o) to (N.ranked.sort r) in
      let place = λ (r : Row). N.ranked.set_sort (new_sort r) r in
      let moves =
        reposition-relocate N.ranked group keep to o rows row inside
          (d.at_most_one (N.ranked.sort o)) in
      record {
        keyed = reposition-IsKeyed N.ranked group (N.ranked.id o) (N.ranked.sort o) to rows h.keyed;
        open_parent = λ i.
            rw
              (
                moves,
                any-update_where (is_open_child i) group place rows (λ r x.
                    rw (N.parent_id-set_sort (new_sort r) r, N.is_open-set_sort (new_sort r) r)),
                any-update_where (is_open_row i) group place rows (λ r x.
                    rw (N.ranked.id-set_sort (new_sort r) r, N.is_open-set_sort (new_sort r) r)),
              )
              (h.open_parent i);
        distinct = λ parent. elim (Bool-cases (same_parent (N.parent_id o) parent)) [
          | inl same ↦
              subst
                (λ q.
                  IsDistinct N.ranked (in_group q)
                    (reposition N.ranked group (N.ranked.id o) (N.ranked.sort o) to rows))
                (same_parent_iff (N.parent_id o) parent same)
                (reposition-IsDistinct N.ranked group keep to o rows row inside d)
          | inr other ↦ record {
            at_most_one = λ k.
                rw
                  (
                    moves,
                    count_other-relocate N.ranked group (at N.ranked (in_group parent) k)
                        (λ r x.
                          ground
                            (arith, same_parent_eq (N.parent_id r) (N.parent_id o) parent x, other))
                        (λ n r x. ground (
                          arith,
                          N.parent_id-set_sort n r,
                          same_parent_eq (N.parent_id r) (N.parent_id o) parent x,
                          other,
                        ))
                        (N.ranked.sort o) to rows,
                  )
                  ((h.distinct parent).at_most_one k);
          }
        ];
      }

  pub append-IsForest :
      (p : Row → Bool) (new : Row) (rows : List Row)
      → any (has_id N.ranked (N.ranked.id new)) rows ≡ false
      → ((r : Row) → in_group (N.parent_id new) r ≡ true → p r ≡ true)
      → N.ranked.sort new ≡ get_next_sort_value N.ranked p rows
      → ((i : Uuid) → N.parent_id new ≡ some i → any (is_open_row i) rows ≡ true)
      → IsForest rows
      → IsForest (rows ++ new ∷ [])
  unfolding at count
  append-IsForest p new rows fresh sub next up h = record {
    keyed = append-IsKeyed N.ranked new rows fresh h.keyed;
    open_parent = λ i. ground (
      arith,
      h.open_parent i,
      any-append (is_open_child i) rows (new ∷ []),
      any-append (is_open_row i) rows (new ∷ []),
      up i,
      same_parent_iff (N.parent_id new) (some i),
    );
    distinct = λ parent. elim (Bool-cases (same_parent (N.parent_id new) parent)) [
      | inl same ↦
          append-IsDistinct N.ranked (in_group parent) p
            (λ r x. sub r (rw (same_parent_iff (N.parent_id new) parent same) x)) new rows next
            (h.distinct parent)
      | inr other ↦ record {
        at_most_one = λ k. ground (
          arith,
          count-append (at N.ranked (in_group parent) k) rows (new ∷ []),
          (h.distinct parent).at_most_one k,
          other,
        );
      }
    ];
  }
