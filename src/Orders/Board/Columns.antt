-- ===== src/Orders/Board/Columns.antt =====
-- The whole board: every column contiguous, under a primary key. What an UPDATE leaves alone.
use procare_backend.Common.{
  ℕ, Uuid, suc, ◌+◌, ◌≤◌, ◌<◌, ◌≡◌, ◌∙◌, ◌≢◌, ◌⊎◌, inl, inr, Bool, true, false, ◌&&◌, Option, some,
  List, [], ◌∷◌, update_where, find, ltb, ◌==◌, arith, Bool-cases,
}
use procare_backend.Orders.{RepairOrder, is_open}
use procare_backend.Orders.Board.{in_column, has_id, push_down_above, move_to_top}
use procare_backend.Orders.Board.Counting.{here, in_group, at_sort, size, occurrences}
use procare_backend.Orders.Board.Contiguity.{IsContiguous, IsContiguousBut, IsRow}
use procare_backend.Orders.Board.Rows.{
  size-resort, occurrences-resort, at_sort-resort_other, find-resort, at_sort-update_row,
  size-update_row, occurrences-update_row, find-update_row,
}

-- Ids are unique, and every column is contiguous.
pub record IsBoard (rows : List RepairOrder) : Type 0 where
  pub unique : (i : Uuid) → occurrences i rows ≤ 1
  pub contiguous : (b s : Uuid) → IsContiguous rows b s

-- The row that `.where({ id, status: 'Open' }).first()` finds.
abbrev pub find_open : Uuid → List RepairOrder → Option RepairOrder
find_open id = find (λ r. r.id == id && is_open r.status)

find_open-once :
    (id : Uuid) (rows : List RepairOrder) (o : RepairOrder)
    → find_open id rows ≡ some o
    → (0 < occurrences id rows) × (o.id ≡ id) × (is_open o.status ≡ true)
unfolding occurrences
find_open-once id [] o e = cc
find_open-once id (r ∷ rows) o e = ground (arith, find_open-once id rows o)

find_open-find :
    (id : Uuid) (rows : List RepairOrder) (o : RepairOrder)
    → occurrences id rows ≤ 1
    → find_open id rows ≡ some o
    → find (has_id id) rows ≡ some o
unfolding occurrences
find_open-find id [] o h e = cc
find_open-find id (r ∷ rows) o h e =
    ground (arith, find_open-find id rows o, find_open-once id rows o)

pub find_open-IsRow :
    (id : Uuid) (rows : List RepairOrder) (o : RepairOrder)
    → IsBoard rows
    → find_open id rows ≡ some o
    → IsRow rows o × (o.id ≡ id) × (in_column o.branch_id o.status_id o ≡ true)
unfolding in_column
find_open-IsRow id rows o board e =
    let (some_row, same, live) = find_open-once id rows o e in
    let only = board.unique id in
    let found = find_open-find id rows o only e in
    (
      record {
        once = let n : occurrences id rows ≡ 1 = omega arith in simp same n;
        found = simp same found;
      },
      same,
      ground arith,
    )

pub column_cases : (b s b' s' : Uuid) → ((b ≡ b') × (s ≡ s')) ⊎ ((b ≢ b') ⊎ (s ≢ s'))
column_cases b s b' s' = elim (Bool-cases (b == b')) [
  | inl e ↦ elim (Bool-cases (s == s')) [
    | inl d ↦ inl (ground arith, ground arith)
    | inr d ↦ inr (inr (ground arith))
  ]
  | inr e ↦ inr (inl (ground arith))
]

-- A column is as it was if its positions and its size are.
IsContiguous-same :
    {rows rows' : List RepairOrder} (b s : Uuid)
    → ((k : ℕ) → at_sort b s k rows' ≡ at_sort b s k rows)
    → size b s rows' ≡ size b s rows
    → IsContiguous rows b s
    → IsContiguous rows' b s
IsContiguous-same b s same n c = record {
  none_at_zero = same 0 ∙ c.none_at_zero;
  one_each = λ k. rw n (same (suc k) ∙ c.one_each k);
}

module _ (p : RepairOrder → Bool) (g : RepairOrder → ℕ) where
  pub resort-IsContiguous_other :
      (rows : List RepairOrder) (b s : Uuid)
      → ((r : RepairOrder) → in_column b s r ≡ true → p r ≡ false)
      → IsContiguous rows b s
      → IsContiguous (update_where p (λ r. record r { sort = g r }) rows) b s
  resort-IsContiguous_other rows b s h c =
      IsContiguous-same b s (λ k. at_sort-resort_other p g b s k rows h) (size-resort p g b s rows)
        c

  pub resort-IsContiguousBut :
      (rows : List RepairOrder) (o : RepairOrder)
      → ((r : RepairOrder) → in_column o.branch_id o.status_id r ≡ true → p r ≡ false)
      → IsContiguousBut rows o
      → IsContiguousBut (update_where p (λ r. record r { sort = g r }) rows) o
  resort-IsContiguousBut rows o h c =
      let b = o.branch_id in
      let s = o.status_id in
      record {
        positive = c.positive;
        none_at_zero = at_sort-resort_other p g b s 0 rows h ∙ c.none_at_zero;
        one_each = λ k. ground (
          arith,
          at_sort-resort_other p g b s (suc k) rows h,
          size-resort p g b s rows,
          c.one_each k,
        );
      }

  pub resort-IsRow :
      (rows : List RepairOrder) (o : RepairOrder)
      → p o ≡ false
      → IsRow rows o
      → IsRow (update_where p (λ r. record r { sort = g r }) rows) o
  resort-IsRow rows o h row = record {
    once = occurrences-resort p g o.id rows ∙ row.once;
    found = find-resort p g o.id o rows h row.found;
  }

pub rewritten-IsRow :
    (rows : List RepairOrder) (o : RepairOrder) (f : RepairOrder → RepairOrder)
    → ((r : RepairOrder) → (f r).id ≡ r.id)
    → IsRow rows o
    → IsRow (update_where (has_id o.id) f rows) (f o)
rewritten-IsRow rows o f keep row = record {
  once = rw (keep o) (occurrences-update_row o.id f keep o.id rows ∙ row.once);
  found = simp (keep o) (find-update_row o.id f keep o rows row.found);
}

pub update_row-IsContiguous_same :
    (f : RepairOrder → RepairOrder) (rows : List RepairOrder) (o : RepairOrder)
    → IsRow rows o
    → (b s : Uuid) → (f o).sort ≡ o.sort
    → in_column b s (f o) ≡ in_column b s o
    → IsContiguous rows b s
    → IsContiguous (update_where (has_id o.id) f rows) b s
unfolding here in_group
update_row-IsContiguous_same f rows o row b s same_sort same c =
    IsContiguous-same b s
      (λ k. ground (arith, at_sort-update_row o.id f b s k o rows row.once row.found))
      (ground (arith, size-update_row o.id f b s o rows row.once row.found)) c

pub update_row-IsContiguous_other :
    (f : RepairOrder → RepairOrder) (rows : List RepairOrder) (o : RepairOrder)
    → IsRow rows o
    → (b s : Uuid) → in_column b s o ≡ false
    → in_column b s (f o) ≡ false
    → IsContiguous rows b s
    → IsContiguous (update_where (has_id o.id) f rows) b s
unfolding here in_group
update_row-IsContiguous_other f rows o row b s out out' c =
    IsContiguous-same b s
      (λ k. ground (arith, at_sort-update_row o.id f b s k o rows row.once row.found))
      (ground (arith, size-update_row o.id f b s o rows row.once row.found)) c

-- The columns beside the one that `moveToTop` works in.
module _ (rows : List RepairOrder) (o : RepairOrder) (row : IsRow rows o)
    (live : in_column o.branch_id o.status_id o ≡ true) (b s : Uuid)
    (other : (b ≢ o.branch_id) ⊎ (s ≢ o.status_id)) where
  pub at_sort-move_to_top_other : (k : ℕ) → at_sort b s k (move_to_top o rows) ≡ at_sort b s k rows
  unfolding move_to_top push_down_above in_column here
  at_sort-move_to_top_other k =
      let p = λ (r : RepairOrder). in_column o.branch_id o.status_id r && ltb r.sort o.sort in
      let pushed = resort-IsRow p (λ r. r.sort + 1) rows o (ground arith) row in
      elim (Bool-cases (o.sort == 1)) [
        | inl first ↦ rw first
        | inr later ↦ rw later (
            ground (
              arith,
              at_sort-update_row o.id (λ r. record r { sort = 1 }) b s k o (push_down_above o rows)
                  pushed.once pushed.found,
              at_sort-resort_other p (λ r. r.sort + 1) b s k rows (λ r h. ground arith),
            ))
      ]

  pub size-move_to_top_other : size b s (move_to_top o rows) ≡ size b s rows
  unfolding move_to_top push_down_above
  size-move_to_top_other =
      let p = λ (r : RepairOrder). in_column o.branch_id o.status_id r && ltb r.sort o.sort in
      elim (Bool-cases (o.sort == 1)) [
        | inl first ↦ rw first
        | inr later ↦ rw later (
            size-resort (has_id o.id) (λ r. 1) b s (push_down_above o rows)
            ∙ size-resort p (λ r. r.sort + 1) b s rows)
      ]

  pub move_to_top-IsContiguous_other : IsContiguous rows b s → IsContiguous (move_to_top o rows) b s
  move_to_top-IsContiguous_other =
      IsContiguous-same b s at_sort-move_to_top_other size-move_to_top_other

pub occurrences-move_to_top :
    (o : RepairOrder) (i : Uuid) (rows : List RepairOrder)
    → occurrences i (move_to_top o rows) ≡ occurrences i rows
unfolding move_to_top push_down_above
occurrences-move_to_top o i rows = elim (Bool-cases (o.sort == 1)) [
  | inl first ↦ rw first
  | inr later ↦ rw later (
      occurrences-resort (has_id o.id) (λ r. 1) i (push_down_above o rows)
      ∙ occurrences-resort (λ r. in_column o.branch_id o.status_id r && ltb r.sort o.sort)
          (λ r. r.sort + 1) i rows)
]
