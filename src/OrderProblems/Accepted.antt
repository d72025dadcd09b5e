-- ===== src/OrderProblems/Accepted.antt =====
-- The checks of `validateAndInsertProblems`, each by what it says of the tables.
use procare_backend.Common.{
  Uuid, ◌+◌, ◌≤◌, ◌<◌, ◌≡◌, ◌↔◌, ==_iff, subst, inl, inr, Bool-cases, includes, refl, sym, Bool,
  true, false, ◌&&◌, List, [], ◌∷◌, any, select_where, All, length, ◌==◌, arith,
}
use procare_backend.Ranking.Counting.{count}
use procare_backend.Ranking.Keys.{IsKeyed}
use procare_backend.Catalogue.Categories.{ProblemCategory, problem_tree}
use procare_backend.OrderProblems.{
  ProblemWithParts, has_id, submitted_ids, is_usable, every, has_duplicates,
}

-- An open, active problem with this id.
abbrev pub is_live : Uuid → ProblemCategory → Bool
is_live id p = p.id == id && (p.is_open && p.is_active)

length-select_where :
    (p : ProblemCategory → Bool) (rows : List ProblemCategory)
    → length (select_where p rows) ≡ count p rows
unfolding count
length-select_where p [] = refl
length-select_where p (r ∷ rows) = ground (arith, length-select_where p rows)

count-usable :
    (id : Uuid) (ids : List Uuid) (rows : List ProblemCategory)
    → count (is_usable (id ∷ ids)) rows ≤ count (is_live id) rows + count (is_usable ids) rows
unfolding count
count-usable id ids [] = ground arith
count-usable id ids (r ∷ rows) = ground (arith, count-usable id ids rows)

count-usable_none : (rows : List ProblemCategory) → count (is_usable []) rows ≡ 0
unfolding count
count-usable_none [] = refl
count-usable_none (r ∷ rows) = ground (arith, count-usable_none rows)

count-live :
    (id : Uuid) (rows : List ProblemCategory) → count (is_live id) rows ≤ count (has_id id) rows
unfolding count
count-live id [] = ground arith
count-live id (r ∷ rows) = ground (arith, count-live id rows)

any-count :
    (p : ProblemCategory → Bool) (rows : List ProblemCategory)
    → 0 < count p rows
    → any p rows ≡ true
unfolding count
any-count p [] h = ground arith
any-count p (r ∷ rows) h = ground (arith, h, any-count p rows)

-- There are at most as many usable rows as ids, and if there are as many, each id has one.
count-usable_length :
    (ids : List Uuid) (rows : List ProblemCategory)
    → IsKeyed problem_tree.ranked rows
    → count (is_usable ids) rows ≤ length ids
count-usable_length [] rows keyed = ground (arith, count-usable_none rows)
count-usable_length (id ∷ ids) rows keyed = ground (
  arith,
  count-usable id ids rows,
  count-live id rows,
  keyed.at_most_once id,
  count-usable_length ids rows keyed,
)

all-usable :
    (ids : List Uuid) (rows : List ProblemCategory)
    → IsKeyed problem_tree.ranked rows
    → count (is_usable ids) rows ≡ length ids
    → All (λ id. any (is_live id) rows ≡ true) ids
all-usable [] rows keyed h = tt
all-usable (id ∷ ids) rows keyed h =
    let a = count-usable id ids rows in
    let b = count-live id rows in
    let c = keyed.at_most_once id in
    let d = count-usable_length ids rows keyed in
    (
      any-count (is_live id) rows (ground (arith, a, b, c, d, h)),
      all-usable ids rows keyed (ground (arith, a, b, c, d, h)),
    )

every-All : {A : Type 0} (p : A → Bool) (xs : List A) → every p xs ≡ true → All (λ x. p x ≡ true) xs
every-All p [] h = tt
every-All p (x ∷ xs) h = (ground (arith, h), every-All p xs (ground (arith, h)))

length-submitted :
    (problems : List ProblemWithParts) → length (submitted_ids problems) ≡ length problems
length-submitted [] = refl
length-submitted (p ∷ problems) = rw (length-submitted problems) refl

-- No id stands twice.
abbrev pub AreSingle : List Uuid → Type 0
AreSingle ids = (i : Uuid) → count (λ (x : Uuid). x == i) ids ≤ 1

not_there : (id : Uuid) (ids : List Uuid) → includes id ids ≡ false → count (λ x. x == id) ids ≡ 0
unfolding count
not_there id [] e = refl
not_there id (x ∷ ids) e = ground (arith, e, not_there id ids)

there : (id : Uuid) (ids : List Uuid) → includes id ids ≡ true → 0 < count (λ x. x == id) ids
unfolding count
there id [] e = cc
there id (x ∷ ids) e = ground (arith, e, there id ids)

cons_single :
    (id : Uuid) (ids : List Uuid) → (includes id ids ≡ false) × AreSingle ids → AreSingle (id ∷ ids)
unfolding count
cons_single id ids (new, h) i = elim (Bool-cases (id == i)) [
  | inl same ↦
      let gone : count (λ x. x == i) ids ≡ 0 =
        subst (λ (j : Uuid). count (λ x. x == j) ids ≡ 0) ((==_iff id i).0 same)
          (not_there id ids new) in
      ground (arith, gone)
  | inr other ↦ ground (arith, other, h i)
]

single_cons :
    (id : Uuid) (ids : List Uuid) → AreSingle (id ∷ ids) → (includes id ids ≡ false) × AreSingle ids
unfolding count
single_cons id ids h = (
  elim (Bool-cases (includes id ids)) [
    | inl again ↦ let no : ⊥ = ground (arith, h id, there id ids again) in absurd no
    | inr new ↦ new
  ],
  λ i. ground (arith, h i),
)

pub has_duplicates_iff : (ids : List Uuid) → (has_duplicates ids ≡ false) ↔ AreSingle ids
unfolding has_duplicates count
has_duplicates_iff [] = (λ e i. ground arith, λ h. refl)
has_duplicates_iff (id ∷ ids) = (
  λ e. cons_single id ids (ground (arith, e), (has_duplicates_iff ids).0 (ground (arith, e))),
  λ h.
      let (new, rest) = single_cons id ids h in
      ground (arith, new, (has_duplicates_iff ids).1 rest),
)

-- The rows of a new id are counted once more, those of an old one are not.
flip : (a b : Uuid) → (b == a) ≡ false → (a == b) ≡ false
flip a b e = ground (arith, e)

-- The rows of a new id are counted once more, those of an old one are not.
count-usable_old :
    (id : Uuid) (ids : List Uuid) (rows : List ProblemCategory)
    → includes id ids ≡ true
    → count (is_usable (id ∷ ids)) rows ≡ count (is_usable ids) rows
unfolding count
count-usable_old id ids [] e = refl
count-usable_old id ids (r ∷ rows) e = elim (Bool-cases (r.id == id)) [
  | inl same ↦
      let there : includes r.id ids ≡ true =
        subst (λ (x : Uuid). includes x ids ≡ true) (sym ((==_iff r.id id).0 same)) e in
      ground (arith, there, count-usable_old id ids rows e)
  | inr other ↦ ground (arith, flip id r.id other, count-usable_old id ids rows e)
]

count-usable_new :
    (id : Uuid) (ids : List Uuid) (rows : List ProblemCategory)
    → includes id ids ≡ false
    → count (is_usable (id ∷ ids)) rows ≡ count (is_live id) rows + count (is_usable ids) rows
unfolding count
count-usable_new id ids [] e = refl
count-usable_new id ids (r ∷ rows) e = elim (Bool-cases (r.id == id)) [
  | inl same ↦
      let new : includes r.id ids ≡ false =
        subst (λ (x : Uuid). includes x ids ≡ false) (sym ((==_iff r.id id).0 same)) e in
      ground (arith, new, same, count-usable_new id ids rows e)
  | inr other ↦ ground (arith, other, count-usable_new id ids rows e)
]

live_count :
    (id : Uuid) (rows : List ProblemCategory)
    → any (is_live id) rows ≡ true
    → 0 < count (is_live id) rows
unfolding count
live_count id [] e = cc
live_count id (r ∷ rows) e = ground (arith, e, live_count id rows)

usable-single :
    (ids : List Uuid) (rows : List ProblemCategory)
    → IsKeyed problem_tree.ranked rows
    → count (is_usable ids) rows ≡ length ids
    → AreSingle ids
unfolding count
usable-single [] rows keyed e = λ i. ground arith
usable-single (id ∷ ids) rows keyed e =
    let a = count-usable id ids rows in
    let b = count-live id rows in
    let c = keyed.at_most_once id in
    let d = count-usable_length ids rows keyed in
    cons_single id ids (
      elim (Bool-cases (includes id ids)) [
        | inl old ↦ let no : ⊥ = ground (arith, count-usable_old id ids rows old, d, e) in absurd no
        | inr new ↦ new
      ],
      usable-single ids rows keyed (ground (arith, a, b, c, d, e)),
    )

live-usable :
    (ids : List Uuid) (rows : List ProblemCategory)
    → IsKeyed problem_tree.ranked rows
    → AreSingle ids
    → All (λ id. any (is_live id) rows ≡ true) ids
    → count (is_usable ids) rows ≡ length ids
live-usable [] rows keyed single live = count-usable_none rows
live-usable (id ∷ ids) rows keyed single live =
    let (new, rest) = single_cons id ids single in
    ground (
      arith,
      count-usable_new id ids rows new,
      live_count id rows live.0,
      count-live id rows,
      keyed.at_most_once id,
      live-usable ids rows keyed rest live.1,
    )

-- As many usable rows as problems: each problem is live, and none is named twice.
pub usable_iff :
    (problems : List ProblemWithParts) (rows : List ProblemCategory)
    → IsKeyed problem_tree.ranked rows
    → ((length (select_where (is_usable (submitted_ids problems)) rows) == length problems) ≡ true)
      ↔ (All (λ id. any (is_live id) rows ≡ true) (submitted_ids problems)
          × AreSingle (submitted_ids problems))
usable_iff problems rows keyed =
    let ids = submitted_ids problems in
    let a = length-submitted problems in
    let b = length-select_where (is_usable ids) rows in
    (
      λ e.
          let counted : count (is_usable ids) rows ≡ length ids = ground (arith, e, a, b) in
          (all-usable ids rows keyed counted, usable-single ids rows keyed counted),
      λ (live, single). ground (arith, live-usable ids rows keyed single live, a, b),
    )
