-- ===== src/Ranking/Order.antt =====
-- The orders that the operations of a ranked table keep: distinct positions, and positions 1, 2, ….
use procare_backend.Common.{
  ℕ, ◌+◌, ◌≤◌, ◌<◌, ◌≡◌, refl, inl, inr, Bool, true, false, some, List, [], ◌∷◌, ◌++◌, update_where,
  arith, Option-cases,
}
use procare_backend.Ranking.{Ranked, or_else, max_sort, get_next_sort_value, reposition}
use procare_backend.Ranking.Counting.{count, count-append}
use procare_backend.Ranking.Relocation.{
  moved, moved_bounds, count-at_pos, IsRow, at, reposition-relocate, count-at-relocate,
  count-relocate, IsDistinct, IsContiguous,
}

-- An UPDATE that brings no row to pass the test.
pub count-update_where_le :
    {Row : Type 0} (test p : Row → Bool) (f : Row → Row) (rows : List Row)
    → ((r : Row) → test (f r) ≡ true → test r ≡ true)
    → count test (update_where p f rows) ≤ count test rows
unfolding count
count-update_where_le test p f [] h = ground arith
count-update_where_le test p f (r ∷ rows) h =
    ground (arith, h r, count-update_where_le test p f rows h)

-- An UPDATE of columns that the test does not read.
pub count-update_where :
    {Row : Type 0} (test p : Row → Bool) (f : Row → Row) (rows : List Row)
    → ((r : Row) → test (f r) ≡ test r)
    → count test (update_where p f rows) ≡ count test rows
unfolding count
count-update_where test p f [] h = refl
count-update_where test p f (r ∷ rows) h = ground (arith, h r, count-update_where test p f rows h)

module _ {Row : Type 0} (R : Ranked Row) (group : Row → Bool) where
  -- `MAX(sort)` is no less than the position of any row that it reads.
  above_max_sort :
      (p : Row → Bool)
      → ((r : Row) → group r ≡ true → p r ≡ true)
      → (k : ℕ) (rows : List Row) → or_else R (max_sort R p rows) 0 < k
      → count (at R group k) rows ≡ 0
  unfolding max_sort count at
  above_max_sort p sub k [] h = refl
  above_max_sort p sub k (r ∷ rows) h = elim (Option-cases (max_sort R p rows)) [
    | inl e ↦ ground (arith, e, sub r, above_max_sort p sub k rows)
    | inr (m, e) ↦ ground (arith, e, sub r, above_max_sort p sub k rows)
  ]

  -- `MAX(sort)` is the position of a row.
  at-max_sort :
      (rows : List Row) (m : ℕ) → max_sort R group rows ≡ some m → 0 < count (at R group m) rows
  unfolding max_sort count at
  at-max_sort [] m e = cc
  at-max_sort (r ∷ rows) m e = elim (Option-cases (max_sort R group rows)) [
    | inl none_yet ↦ ground (arith, none_yet)
    | inr (n, e2) ↦ ground (arith, e2, at-max_sort rows n e2)
  ]

  -- A new row takes a position that is free.
  pub append-IsDistinct :
      (p : Row → Bool)
      → ((r : Row) → group r ≡ true → p r ≡ true)
      → (new : Row) (rows : List Row) → R.sort new ≡ get_next_sort_value R p rows
      → IsDistinct R group rows
      → IsDistinct R group (rows ++ new ∷ [])
  unfolding count at get_next_sort_value
  append-IsDistinct p sub new rows e d = record {
    at_most_one = λ k. ground (
      arith,
      count-append (at R group k) rows (new ∷ []),
      d.at_most_one k,
      above_max_sort p sub k rows,
      e,
    );
  }

  -- The next position of a contiguous group is its size and one.
  get_next_sort_value-IsContiguous :
      (rows : List Row)
      → IsContiguous R group rows
      → get_next_sort_value R group rows ≡ count group rows + 1
  unfolding get_next_sort_value
  get_next_sort_value-IsContiguous rows c = elim (Option-cases (max_sort R group rows)) [
    | inl e ↦ ground (
      arith,
      e,
      above_max_sort group (λ r h. h) (count group rows) rows,
      c.exactly_one (count group rows),
    )
    | inr (m, e) ↦ ground (
      arith,
      e,
      above_max_sort group (λ r h. h) (count group rows) rows,
      c.exactly_one (count group rows),
      c.exactly_one m,
      at-max_sort rows m e,
    )
  ]

  pub append-IsContiguous :
      (new : Row) (rows : List Row)
      → group new ≡ true
      → R.sort new ≡ get_next_sort_value R group rows
      → IsContiguous R group rows
      → IsContiguous R group (rows ++ new ∷ [])
  unfolding count at
  append-IsContiguous new rows inside e c = record {
    exactly_one = λ k. ground (
      arith,
      count-append (at R group k) rows (new ∷ []),
      count-append group rows (new ∷ []),
      c.exactly_one k,
      get_next_sort_value-IsContiguous rows c,
      e,
      inside,
    );
  }

  -- A group that the operation does not touch.
  pub append_outside-IsContiguous :
      (new : Row) (rows : List Row)
      → group new ≡ false
      → IsContiguous R group rows
      → IsContiguous R group (rows ++ new ∷ [])
  unfolding count at
  append_outside-IsContiguous new rows outside c = record {
    exactly_one = λ k. ground (
      arith,
      count-append (at R group k) rows (new ∷ []),
      count-append group rows (new ∷ []),
      c.exactly_one k,
      outside,
    );
  }

  -- The greatest position of a contiguous group is its size.
  pub max_sort-IsContiguous :
      (rows : List Row) (m : ℕ)
      → IsContiguous R group rows
      → max_sort R group rows ≡ some m
      → (0 < m) × (m ≡ count group rows)
  unfolding get_next_sort_value
  max_sort-IsContiguous rows m c e =
      ground
        (arith, get_next_sort_value-IsContiguous rows c, e, at-max_sort rows m e, c.exactly_one m)

  -- If it has rows, both are positive.
  pub max_sort-size :
      (o : Row) (rows : List Row)
      → IsRow R rows o
      → group o ≡ true
      → IsContiguous R group rows
      → (m : ℕ) × (max_sort R group rows ≡ some m) × (0 < m) × (m ≡ count group rows)
  max_sort-size o rows row inside c = elim (Option-cases (max_sort R group rows)) [
    | inl e ↦
        let no : ⊥ = ground (
          arith,
          e,
          above_max_sort group (λ r h. h) (R.sort o) rows,
          count-at_pos R group o rows row inside,
          c.exactly_one (R.sort o),
        ) in
        absurd no
    | inr (m, e) ↦ let size = max_sort-IsContiguous rows m c e in (m, e, size.0, size.1)
  ]

  module _ (keep : (n : ℕ) (r : Row) → group (R.set_sort n r) ≡ group r) where
    pub reposition-IsDistinct :
        (to : ℕ) (o : Row) (rows : List Row)
        → IsRow R rows o
        → group o ≡ true
        → IsDistinct R group rows
        → IsDistinct R group (reposition R group (R.id o) (R.sort o) to rows)
    reposition-IsDistinct to o rows row inside d =
        rw (reposition-relocate R group keep to o rows row inside (d.at_most_one (R.sort o)))
          record {
            at_most_one = λ k.
                rw (count-at-relocate R group keep (R.sort o) to k rows)
                  (d.at_most_one (moved to (R.sort o) k));
          }

    pub reposition-IsContiguous :
        (to : ℕ) (o : Row) (rows : List Row)
        → IsRow R rows o
        → group o ≡ true
        → 0 < to
        → to ≤ count group rows
        → IsContiguous R group rows
        → IsContiguous R group (reposition R group (R.id o) (R.sort o) to rows)
    reposition-IsContiguous to o rows row inside pos fits c =
        let here = count-at_pos R group o rows row inside in
        let bounds : (0 < R.sort o) × (R.sort o ≤ count group rows) =
          ground (arith, here, c.exactly_one (R.sort o)) in
        let alone : count (at R group (R.sort o)) rows ≤ 1 =
          ground (arith, c.exactly_one (R.sort o)) in
        rw (reposition-relocate R group keep to o rows row inside alone) record {
          exactly_one = λ k. ground (
            arith,
            count-at-relocate R group keep (R.sort o) to k rows,
            count-relocate R group keep (R.sort o) to rows,
            c.exactly_one (moved to (R.sort o) k),
            moved_bounds to (R.sort o) (count group rows) k pos fits bounds.0 bounds.1,
          );
        }
