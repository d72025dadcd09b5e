-- ===== src/OrderProblems/Paths.antt =====
-- The walk from a problem to its ancestors ends. Every parent stands before its children in the table,
-- since `create` (problem-categories.service.ts) refuses a parent that is not there, and no operation
-- changes a parent.
use procare_backend.Common.{
  ℕ, Uuid, suc, zero, ◌+◌, ◌<◌, ◌≡◌, refl, sym, ap, subst, ◌∙◌, inl, inr, Bool, true, false, ◌&&◌,
  Option, none, some, List, [], ◌∷◌, ◌++◌, find, any, any-append, length, if◌then◌else◌, arith,
  Bool-cases, Option-cases, some_injective,
}
use procare_backend.Catalogue.Categories.{ProblemCategory}
use procare_backend.OrderProblems.{has_id, problem_path}

abbrev pub parent_in : List ProblemCategory → Option Uuid → Bool
parent_in seen none = true
parent_in seen (some id) = any (has_id id) seen

-- Every parent is among the rows that were seen before.
unfoldable pub parents_first : List ProblemCategory → List ProblemCategory → Bool
parents_first seen [] = true
parents_first seen (p ∷ rows) = parent_in seen p.parent_id && parents_first (seen ++ p ∷ []) rows

-- The steps of the walk from an id: it ends at a root, or where there is no row.
pub data IsPath (rows : List ProblemCategory) : Uuid → List Uuid → Type 0 where
  nowhere : (id : Uuid) → find (has_id id) rows ≡ none → IsPath rows id []
  at_root :
      (id : Uuid) (p : ProblemCategory)
      → find (has_id id) rows ≡ some p
      → p.parent_id ≡ none
      → IsPath rows id (p.id ∷ [])
  upwards :
      (id up : Uuid) (p : ProblemCategory) (rest : List Uuid)
      → find (has_id id) rows ≡ some p
      → p.parent_id ≡ some up
      → IsPath rows up rest
      → IsPath rows id (p.id ∷ rest)

-- The number of rows before the first one with an id.
unfoldable index : Uuid → List ProblemCategory → ℕ
index id [] = 0
index id (p ∷ rows) = let rest = index id rows in if has_id id p then 0 else suc rest

index_bound :
    (id : Uuid) (p : ProblemCategory) (rows : List ProblemCategory)
    → find (has_id id) rows ≡ some p
    → index id rows < length rows
unfolding index
index_bound id p [] e = cc
index_bound id p (q ∷ rows) e = ground (arith, index_bound id p rows)

index-append_seen :
    (id : Uuid) (seen rows : List ProblemCategory)
    → any (has_id id) seen ≡ true
    → index id (seen ++ rows) < length seen
unfolding index
index-append_seen id [] rows e = cc
index-append_seen id (q ∷ seen) rows e = ground (arith, index-append_seen id seen rows)

index-append_unseen :
    (id : Uuid) (seen rows : List ProblemCategory)
    → any (has_id id) seen ≡ false
    → index id (seen ++ rows) ≡ length seen + index id rows
unfolding index
index-append_unseen id [] rows e = ground arith
index-append_unseen id (q ∷ seen) rows e = ground (arith, index-append_unseen id seen rows)

append_one :
    (seen rows : List ProblemCategory) (p : ProblemCategory)
    → (seen ++ p ∷ []) ++ rows ≡ seen ++ p ∷ rows
append_one [] rows p = refl
append_one (q ∷ seen) rows p = ap (λ l. q ∷ l) (append_one seen rows p)

-- The parent stands before the row.
index-parent :
    (id up : Uuid) (p : ProblemCategory) (seen rows : List ProblemCategory)
    → parents_first seen rows ≡ true
    → any (has_id id) seen ≡ false
    → find (has_id id) rows ≡ some p
    → p.parent_id ≡ some up
    → index up (seen ++ rows) < index id (seen ++ rows)
unfolding parents_first
index-parent id up p seen [] ordered new e parent = cc
index-parent id up p seen (q ∷ rows) ordered new e parent = elim (Bool-cases (has_id id q)) [
  | inl hit ↦
      let same : q ≡ p = some_injective (rw hit at e) in
      let before : any (has_id up) seen ≡ true =
        ground (arith, rw (ap (λ (x : ProblemCategory). x.parent_id) same ∙ parent) at ordered) in
      ground (
        arith,
        index-append_seen up seen (q ∷ rows) before,
        index-append_unseen id seen (q ∷ rows) new,
      )
  | inr miss ↦
      subst (λ l. index up l < index id l) (append_one seen rows q)
        (index-parent id up p (seen ++ q ∷ []) rows (ground (arith, ordered))
          (ground (arith, any-append (has_id id) seen (q ∷ []), new, miss)) (rw miss at e) parent)
]

-- Fuel above the position of the start is enough.
problem_path-fuel :
    (fuel : ℕ) (rows : List ProblemCategory) (id : Uuid)
    → parents_first [] rows ≡ true
    → ((p : ProblemCategory) → find (has_id id) rows ≡ some p → index id rows < fuel)
    → IsPath rows id (problem_path fuel rows id)
unfolding problem_path
problem_path-fuel zero rows id ordered enough = elim (Option-cases (find (has_id id) rows)) [
  | inl missing ↦ nowhere id missing
  | inr (p, found) ↦ let no : ⊥ = ground (arith, enough p found) in absurd no
]
problem_path-fuel (suc fuel) rows id ordered enough = elim (Option-cases (find (has_id id) rows)) [
  | inl missing ↦ rw (problem_path, missing) (nowhere id missing)
  | inr (p, found) ↦ elim (Option-cases p.parent_id) [
    | inl root ↦ rw (problem_path, found, root) (at_root id p found root)
    | inr (up, parent) ↦
        let closer = index-parent id up p [] rows ordered refl found parent in
        rw (problem_path, found, parent)
          (upwards id up p (problem_path fuel rows up) found parent (
            problem_path-fuel fuel rows up ordered (λ q e. ground (arith, closer, enough p found))))
  ]
]

-- If every parent stands before its children, the walk with one step for each row of the table is the
-- whole way from the problem to the root of its tree.
pub problem_path-IsPath :
    (rows : List ProblemCategory) (id : Uuid)
    → parents_first [] rows ≡ true
    → IsPath rows id (problem_path (length rows) rows id)
problem_path-IsPath rows id ordered =
    problem_path-fuel (length rows) rows id ordered (λ p e. index_bound id p rows e)

-- There is one walk from an id.
pub IsPath-same :
    (rows : List ProblemCategory) {id : Uuid} {a b : List Uuid}
    → IsPath rows id a
    → IsPath rows id b
    → a ≡ b
IsPath-same rows (nowhere id e) (nowhere _ f) = refl
IsPath-same rows (nowhere id e) (at_root _ p f root) = let no = sym e ∙ f in cc
IsPath-same rows (nowhere id e) (upwards _ up p rest f parent path) = let no = sym e ∙ f in cc
IsPath-same rows (at_root id p e root) (nowhere _ f) = let no = sym e ∙ f in cc
IsPath-same rows (at_root id p e root) (at_root _ q f top) =
    ap (λ (x : ProblemCategory). x.id ∷ []) (some_injective (sym e ∙ f))
IsPath-same rows (at_root id p e root) (upwards _ up q rest f parent path) =
    let same : p ≡ q = some_injective (sym e ∙ f) in
    let no = sym root ∙ (ap (λ (x : ProblemCategory). x.parent_id) same ∙ parent) in cc
IsPath-same rows (upwards id up p rest e parent path) (nowhere _ f) = let no = sym e ∙ f in cc
IsPath-same rows (upwards id up p rest e parent path) (at_root _ q f root) =
    let same : p ≡ q = some_injective (sym e ∙ f) in
    let no = sym parent ∙ (ap (λ (x : ProblemCategory). x.parent_id) same ∙ root) in cc
IsPath-same rows (upwards id up p rest e parent path) (upwards _ vp q sest f qarent qath) =
    let same : p ≡ q = some_injective (sym e ∙ f) in
    let above : up ≡ vp =
      some_injective (sym parent ∙ (ap (λ (x : ProblemCategory). x.parent_id) same ∙ qarent)) in
    let tail = IsPath-same rows (subst (λ (x : Uuid). IsPath rows x rest) above path) qath in
    ap (λ (x : ProblemCategory). x.id ∷ rest) same ∙ ap (λ l. q.id ∷ l) tail
