-- ===== src/Ranking/Keys.antt =====
-- The primary key of a ranked table.
use procare_backend.Common.{
  ℕ, Uuid, ◌+◌, ◌≤◌, ◌<◌, ◌≡◌, refl, Bool, true, false, ◌&&◌, some, List, [], ◌∷◌, ◌++◌,
  update_where, find, any, arith, ltb, leb, Bool-cases, inl, inr, ◌-◌,
}
use procare_backend.Ranking.{Ranked, has_id, shift, reposition}
use procare_backend.Ranking.Counting.{count, count-append}
use procare_backend.Ranking.Order.{count-update_where}
use procare_backend.Ranking.Relocation.{IsRow}

module _ {Row : Type 0} (R : Ranked Row) where
  -- No two rows share an id.
  pub record IsKeyed (rows : List Row) : Type 0 where
    pub at_most_once : (i : Uuid) → count (has_id R i) rows ≤ 1

  absent :
      (i : Uuid) (p : Row → Bool) (o : Row) (rows : List Row)
      → find (λ r. has_id R i r && p r) rows ≡ some o
      → 0 < count (has_id R i) rows
  unfolding count
  absent i p o [] e = cc
  absent i p o (r ∷ rows) e = ground (arith, absent i p o rows)

  find_key :
      (i : Uuid) (p : Row → Bool) (o : Row) (rows : List Row)
      → find (λ r. has_id R i r && p r) rows ≡ some o
      → count (has_id R i) rows ≤ 1
      → (find (has_id R i) rows ≡ some o) × ((R.id o ≡ i) × (p o ≡ true))
  unfolding count
  find_key i p o [] e h = cc
  find_key i p o (r ∷ rows) e h = ground (arith, find_key i p o rows, absent i p o rows)

  -- A row that a query by id and another test finds.
  pub find-IsRow :
      (i : Uuid) (p : Row → Bool) (o : Row) (rows : List Row)
      → IsKeyed rows
      → find (λ r. has_id R i r && p r) rows ≡ some o
      → IsRow R rows o × ((R.id o ≡ i) × (p o ≡ true))
  find-IsRow i p o rows keyed e =
      let (found, (same, passes)) = find_key i p o rows e (keyed.at_most_once i) in
      (
        record {
          once = rw same (ground (arith, keyed.at_most_once i, absent i p o rows e));
          found = rw same found;
        },
        (same, passes),
      )

  pub update_where-IsKeyed :
      (p : Row → Bool) (f : Row → Row) (rows : List Row)
      → ((r : Row) → R.id (f r) ≡ R.id r)
      → IsKeyed rows
      → IsKeyed (update_where p f rows)
  update_where-IsKeyed p f rows same keyed = record {
    at_most_once = λ i.
        rw (count-update_where (has_id R i) p f rows (λ r. rw (same r))) (keyed.at_most_once i);
  }

  pub reposition-IsKeyed :
      (group : Row → Bool) (i : Uuid) (from to : ℕ) (rows : List Row)
      → IsKeyed rows
      → IsKeyed (reposition R group i from to rows)
  unfolding reposition shift
  reposition-IsKeyed group i from to rows keyed =
      update_where-IsKeyed (has_id R i) (R.set_sort to) (shift R group from to rows)
        (λ r. R.id-set_sort to r)
        (elim (Bool-cases (ltb to from)) [
          | inl e ↦ rw e (
              update_where-IsKeyed (λ r. group r && (leb to (R.sort r) && ltb (R.sort r) from))
                (λ r. R.set_sort (R.sort r + 1) r) rows (λ r. R.id-set_sort (R.sort r + 1) r) keyed)
          | inr e ↦ rw e (
              update_where-IsKeyed (λ r. group r && (leb (R.sort r) to && ltb from (R.sort r)))
                (λ r. R.set_sort (R.sort r - 1) r) rows (λ r. R.id-set_sort (R.sort r - 1) r) keyed)
        ])

  count-any : (p : Row → Bool) (rows : List Row) → any p rows ≡ false → count p rows ≡ 0
  unfolding count
  count-any p [] h = refl
  count-any p (r ∷ rows) h = ground (arith, count-any p rows)

  -- A new row with an id that no row has.
  pub append-IsKeyed :
      (new : Row) (rows : List Row)
      → any (has_id R (R.id new)) rows ≡ false
      → IsKeyed rows
      → IsKeyed (rows ++ new ∷ [])
  unfolding count
  append-IsKeyed new rows fresh keyed = record {
    at_most_once = λ i. ground (
      arith,
      count-append (has_id R i) rows (new ∷ []),
      count-any (has_id R (R.id new)) rows fresh,
      keyed.at_most_once i,
    );
  }
