-- ===== src/Ranking/Relocation.antt =====
-- What a change of position does to a group, described without the two UPDATEs.
use procare_backend.Common.{
  ℕ, Uuid, ◌+◌, ◌-◌, ◌≤◌, ◌<◌, ◌≡◌, ◌≢◌, refl, Bool, true, false, ◌&&◌, some, List, [], ◌∷◌,
  update_where, find, All, ltb, leb, ◌==◌, if◌then◌else◌, arith,
}
use procare_backend.Ranking.{Ranked, has_id, shift, reposition}
use procare_backend.Ranking.Counting.{count, count_both, count_swap, count_agree, count-find_pos}

-- The position that the row at `k` has after the one at `from` went to `to`.
unfoldable pub moved : ℕ → ℕ → ℕ → ℕ
moved from to k =
    if k == from
    then to
    else if ltb to from
    then if leb to k && ltb k from then k + 1 else k
    else if leb k to && ltb from k
    then k - 1
    else k

-- The moves back and forth cancel.
pub moved_back : (from to k l : ℕ) → (moved from to k == l) ≡ (k == moved to from l)
unfolding moved
moved_back from to k l = ground arith

-- Two other rows stay in their order.
pub moved_order :
    (from to a b : ℕ) → a ≢ from → b ≢ from → ltb (moved from to a) (moved from to b) ≡ ltb a b
unfolding moved
moved_order from to a b h k = ground arith

-- The move stays between 1 and n if both its ends do.
pub moved_bounds :
    (from to n k : ℕ)
    → 0 < from
    → from ≤ n
    → 0 < to
    → to ≤ n
    → (ltb 0 (moved from to k) && leb (moved from to k) n) ≡ (ltb 0 k && leb k n)
unfolding moved
moved_bounds from to n k a b c d = ground arith

module _ {Row : Type 0} (R : Ranked Row) where
  -- A row of the table, under the table's primary key.
  pub record IsRow (rows : List Row) (o : Row) : Type 0 where
    pub once : count (has_id R (R.id o)) rows ≡ 1
    pub found : find (has_id R (R.id o)) rows ≡ some o

  module _ (group : Row → Bool) where
    unfoldable pub at : ℕ → Row → Bool
    at k r = group r && R.sort r == k

    -- Every row of the group goes where the move takes it.
    unfoldable pub relocate : ℕ → ℕ → List Row → List Row
    unfolding moved
    relocate from to = update_where group (λ r. R.set_sort (moved from to (R.sort r)) r)

    reposition-relocate_rows :
        (keep : (n : ℕ) (r : Row) → group (R.set_sort n r) ≡ group r)
        → (i : Uuid) (from to : ℕ) (rows : List Row) → All (λ r. has_id R i r ≡ at from r) rows
        → reposition R group i from to rows ≡ relocate from to rows
    unfolding reposition shift relocate moved at
    reposition-relocate_rows keep i from to [] h = ground arith
    reposition-relocate_rows keep i from to (r ∷ rows) h = ground (
      arith,
      reposition-relocate_rows keep i from to rows h.1,
      h.0,
      R.set_sort-sort r,
      R.id-set_sort (R.sort r + 1) r,
      R.id-set_sort (R.sort r - 1) r,
    )

    -- A row is counted at its position.
    pub count-at_pos :
        (o : Row) (rows : List Row) → IsRow rows o → group o ≡ true → 0 < count (at (R.sort o)) rows
    unfolding at
    count-at_pos o rows row inside =
        let p = has_id R (R.id o) in
        let q = at (R.sort o) in
        ground (
          arith,
          count-find_pos p q o rows row.found (ground (arith, inside)),
          count_swap p q rows,
          count_both q p rows,
        )

    -- The row alone has its id, and it alone stands at its position.
    pub reposition-relocate :
        (keep : (n : ℕ) (r : Row) → group (R.set_sort n r) ≡ group r)
        → (to : ℕ) (o : Row) (rows : List Row) → IsRow rows o
        → group o ≡ true
        → count (at (R.sort o)) rows ≤ 1
        → reposition R group (R.id o) (R.sort o) to rows ≡ relocate (R.sort o) to rows
    unfolding at
    reposition-relocate keep to o rows row inside alone =
        let p = has_id R (R.id o) in
        let q = at (R.sort o) in
        let both = count-find_pos p q o rows row.found (ground (arith, inside)) in
        let a = count_both p q rows in
        let b = count_both q p rows in
        let c = count_swap p q rows in
        reposition-relocate_rows keep (R.id o) (R.sort o) to rows (
          count_agree p q rows (ground (arith, row.once, a, both))
            (ground (arith, alone, a, b, c, both)))

    -- The rows at `k` are those that stood where the move back takes `k`.
    pub count-at-relocate :
        (keep : (n : ℕ) (r : Row) → group (R.set_sort n r) ≡ group r)
        → (from to k : ℕ) (rows : List Row)
        → count (at k) (relocate from to rows) ≡ count (at (moved to from k)) rows
    unfolding count at relocate
    count-at-relocate keep from to k [] = refl
    count-at-relocate keep from to k (r ∷ rows) =
        let n = moved from to (R.sort r) in
        ground (
          arith,
          count-at-relocate keep from to k rows,
          keep n r,
          R.sort-set_sort n r,
          moved_back from to (R.sort r) k,
        )

    pub count-relocate :
        (keep : (n : ℕ) (r : Row) → group (R.set_sort n r) ≡ group r)
        → (from to : ℕ) (rows : List Row) → count group (relocate from to rows) ≡ count group rows
    unfolding count relocate
    count-relocate keep from to [] = refl
    count-relocate keep from to (r ∷ rows) =
        ground (arith, count-relocate keep from to rows, keep (moved from to (R.sort r)) r)

    -- Rows outside the group stay where they are.
    pub count_other-relocate :
        (test : Row → Bool)
        → ((r : Row) → group r ≡ true → test r ≡ false)
        → ((n : ℕ) (r : Row) → group r ≡ true → test (R.set_sort n r) ≡ false)
        → (from to : ℕ) (rows : List Row) → count test (relocate from to rows) ≡ count test rows
    unfolding count relocate
    count_other-relocate test out still_out from to [] = refl
    count_other-relocate test out still_out from to (r ∷ rows) = ground (
      arith,
      count_other-relocate test out still_out from to rows,
      out r,
      still_out (moved from to (R.sort r)) r,
    )

    -- No two rows of the group share a position.
    pub record IsDistinct (rows : List Row) : Type 0 where
      pub at_most_one : (k : ℕ) → count (at k) rows ≤ 1

    -- The group stands at 1, 2, … with no hole and no position taken twice.
    pub record IsContiguous (rows : List Row) : Type 0 where
      pub exactly_one :
          (k : ℕ) → count (at k) rows ≡ (if ltb 0 k && leb k (count group rows) then 1 else 0)
