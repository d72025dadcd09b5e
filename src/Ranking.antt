-- ===== src/Ranking.antt =====
-- What the catalogue services do with column `sort`: src/common/utils/sort.util.ts,
-- `getNextSortValue`, and the two UPDATEs of their `updateSort` handlers (branches,
-- repair-order-statuses, repair-order-reject-causes, phone-categories, problem-categories), over
-- any table whose rows have an id and a position.
pub mod Counting
pub mod Relocation
pub mod Order
pub mod Keys
pub mod Forest
use procare_backend.Common.{
  ℕ, Uuid, ◌+◌, ◌-◌, ◌≡◌, Bool, ◌&&◌, Option, none, some, List, [], ◌∷◌, update_where, ltb, leb,
  ◌==◌, if◌then◌else◌,
}

-- A table with columns `id` and `sort`.
pub record Ranked (Row : Type 0) : Type 0 where
  pub id : Row → Uuid
  pub sort : Row → ℕ
  pub set_sort : ℕ → Row → Row
  pub id-set_sort : (n : ℕ) (r : Row) → id (set_sort n r) ≡ id r
  pub sort-set_sort : (n : ℕ) (r : Row) → sort (set_sort n r) ≡ n
  pub set_sort-sort : (r : Row) → set_sort (sort r) r ≡ r

module _ {Row : Type 0} (R : Ranked Row) where
  abbrev pub has_id : Uuid → Row → Bool
  has_id i r = R.id r == i

  abbrev pub larger : ℕ → Option ℕ → ℕ
  larger a none = a
  larger a (some b) = if ltb a b then b else a

  -- `MAX(sort)`; `none` is the `null` of an empty table.
  unfoldable pub max_sort : (Row → Bool) → List Row → Option ℕ
  max_sort p [] = none
  max_sort p (r ∷ rows) =
      let rest = max_sort p rows in if p r then some (larger (R.sort r) rest) else rest

  -- `??`
  abbrev pub or_else : Option ℕ → ℕ → ℕ
  or_else none n = n
  or_else (some m) n = m

  unfoldable pub get_next_sort_value : (Row → Bool) → List Row → ℕ
  get_next_sort_value p rows = or_else (max_sort p rows) 0 + 1

  -- The rows of a group between the new position and the old one make room.
  unfoldable pub shift : (Row → Bool) → ℕ → ℕ → List Row → List Row
  shift group from to rows =
      if ltb to from
      then update_where (λ r. group r && (leb to (R.sort r) && ltb (R.sort r) from))
          (λ r. R.set_sort (R.sort r + 1) r) rows
      else update_where (λ r. group r && (leb (R.sort r) to && ltb from (R.sort r)))
          (λ r. R.set_sort (R.sort r - 1) r) rows

  -- The rows between make room, then the row with this id takes its new position.
  unfoldable pub reposition : (Row → Bool) → Uuid → ℕ → ℕ → List Row → List Row
  unfolding shift
  reposition group i from to rows =
      update_where (has_id i) (R.set_sort to) (shift group from to rows)
