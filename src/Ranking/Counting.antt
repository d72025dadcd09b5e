-- ===== src/Ranking/Counting.antt =====
-- Counting the rows of a table that pass a test.
use procare_backend.Common.{
  ℕ, ◌+◌, ◌≤◌, ◌<◌, ◌≡◌, refl, Bool, true, ◌&&◌, some, List, [], ◌∷◌, ◌++◌, update_where, find, All,
  if◌then◌else◌, arith,
}

module _ {Row : Type 0} where
  unfoldable pub count : (Row → Bool) → List Row → ℕ
  count p [] = 0
  count p (r ∷ rows) = (if p r then 1 else 0) + count p rows

  pub count_both :
      (p q : Row → Bool) (rows : List Row) → count (λ r. p r && q r) rows ≤ count p rows
  unfolding count
  count_both p q [] = ground arith
  count_both p q (r ∷ rows) = ground (arith, count_both p q rows)

  pub count_swap :
      (p q : Row → Bool) (rows : List Row)
      → count (λ r. p r && q r) rows ≡ count (λ r. q r && p r) rows
  unfolding count
  count_swap p q [] = refl
  count_swap p q (r ∷ rows) = ground (arith, count_swap p q rows)

  -- Two tests that pass as often as both together agree on every row.
  pub count_agree :
      (p q : Row → Bool) (rows : List Row)
      → count p rows ≡ count (λ r. p r && q r) rows
      → count q rows ≡ count (λ r. p r && q r) rows
      → All (λ r. p r ≡ q r) rows
  unfolding count
  count_agree p q [] h k = tt
  count_agree p q (r ∷ rows) h k =
      let a = count_both p q rows in
      let b = count_both q p rows in
      let c = count_swap p q rows in
      (
        ground (arith, a, b, c),
        count_agree p q rows (ground (arith, a, b, c)) (ground (arith, a, b, c)),
      )

  pub count-find_pos :
      (p q : Row → Bool) (o : Row) (rows : List Row)
      → find p rows ≡ some o
      → q o ≡ true
      → 0 < count (λ r. p r && q r) rows
  unfolding count
  count-find_pos p q o [] e h = cc
  count-find_pos p q o (r ∷ rows) e h = ground (arith, count-find_pos p q o rows)

  pub count-append :
      (p : Row → Bool) (xs ys : List Row) → count p (xs ++ ys) ≡ count p xs + count p ys
  unfolding count
  count-append p [] ys = ground arith
  count-append p (r ∷ xs) ys = ground (arith, count-append p xs ys)

  pub count_congr :
      (p q : Row → Bool) (rows : List Row) → ((r : Row) → p r ≡ q r) → count p rows ≡ count q rows
  unfolding count
  count_congr p q [] h = refl
  count_congr p q (r ∷ rows) h = rw (h r, count_congr p q rows h)

  count_absent :
      (p q : Row → Bool) (f : Row → Row) (rows : List Row)
      → count p rows ≡ 0
      → count q (update_where p f rows) ≡ count q rows
  unfolding count
  count_absent p q f [] h = refl
  count_absent p q f (r ∷ rows) h = ground (arith, count_absent p q f rows)

  -- An UPDATE of the only row that passes a test.
  pub count-update_row :
      (p q : Row → Bool) (f : Row → Row) (o : Row) (rows : List Row)
      → count p rows ≡ 1
      → find p rows ≡ some o
      → count q (update_where p f rows) + (if q o then 1 else 0)
        ≡ count q rows + (if q (f o) then 1 else 0)
  unfolding count
  count-update_row p q f o [] n e = cc
  count-update_row p q f o (r ∷ rows) n e =
      ground (arith, count-update_row p q f o rows, count_absent p q f rows)

  pub count-find :
      (p q : Row → Bool) (o : Row) (rows : List Row)
      → count p rows ≤ 1
      → find q rows ≡ some o
      → p o ≡ true
      → (count p rows ≡ 1) × (find p rows ≡ some o)
  unfolding count
  count-find p q o [] n e h = cc
  count-find p q o (r ∷ rows) n e h = ground (arith, count-find p q o rows)
