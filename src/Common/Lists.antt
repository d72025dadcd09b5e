-- ===== src/Common/Lists.antt =====
-- Lists as tables of rows: searching, filtering and updating by a Boolean test.
use Prim.Native.Nat.{ℕ, suc}
use mathlib.Core.Path.{◌≡◌, refl, ap, subst}
use mathlib.Core.Logic.{inl, inr}
use mathlib.Core.Bool.{Bool, true, false, not, ◌||◌, ◌&&◌}
use mathlib.Core.Option.{Option, none, some}
use mathlib.Core.List.{List, [], ◌∷◌, ◌++◌, map, Memᴰ}
use native.Mathlib.Omega.{arith}
use procare_backend.Common.Tests.{◌==◌, if◌then◌else◌, Bool-cases}

module _ {ℓ} {A : Type ℓ} where
  -- `UPDATE … SET f WHERE p`
  abbrev pub update_where : (A → Bool) → (A → A) → List A → List A
  update_where p f [] = []
  update_where p f (x ∷ xs) = (if p x then f x else x) ∷ update_where p f xs

  -- `SELECT … WHERE p`, and JavaScript's `filter`
  abbrev pub select_where : (A → Bool) → List A → List A
  select_where p [] = []
  select_where p (x ∷ xs) = let rest = select_where p xs in if p x then x ∷ rest else rest

  -- `DELETE … WHERE p`
  abbrev pub delete_where : (A → Bool) → List A → List A
  delete_where p [] = []
  delete_where p (x ∷ xs) = let rest = delete_where p xs in if p x then rest else x ∷ rest

  -- `SELECT … WHERE p`, first row, and JavaScript's `find`
  abbrev pub find : (A → Bool) → List A → Option A
  find p [] = none
  find p (x ∷ xs) = if p x then some x else find p xs

  abbrev pub any : (A → Bool) → List A → Bool
  any p [] = false
  any p (x ∷ xs) = p x || any p xs

  abbrev pub length : List A → ℕ
  length [] = 0
  length (x ∷ xs) = suc (length xs)

  abbrev pub is_some : Option A → Bool
  is_some none = false
  is_some (some x) = true

  abbrev pub head? : List A → Option A
  head? [] = none
  head? (x ∷ xs) = some x

pub some_injective {ℓ} : {A : Type ℓ} {a b : A} → some a ≡ some b → a ≡ b
some_injective {A = A} {a = a} e = ap (λ o. elim o [ none ↦ a | some x ↦ x ]) e

-- JavaScript's `includes`, and SQL's `IN`
abbrev pub includes : ℕ → List ℕ → Bool
includes a = any (λ x. x == a)

module _ {ℓ} {A : Type ℓ} where
  pub any-select_where :
      (p q : A → Bool) (xs : List A) → any q (select_where p xs) ≡ any (λ x. p x && q x) xs
  any-select_where p q [] = refl
  any-select_where p q (x ∷ xs) = ground (arith, any-select_where p q xs)

  pub any-delete_where :
      (p q : A → Bool) (xs : List A) → any q (delete_where p xs) ≡ any (λ x. not (p x) && q x) xs
  any-delete_where p q [] = refl
  any-delete_where p q (x ∷ xs) = ground (arith, any-delete_where p q xs)

  pub any-map {κ} :
      {B : Type κ} (f : A → B) (q : B → Bool) (xs : List A)
      → any q (map f xs) ≡ any (λ x. q (f x)) xs
  any-map f q [] = refl
  any-map f q (x ∷ xs) = rw (any-map f q xs)

  pub any-append : (p : A → Bool) (xs ys : List A) → any p (xs ++ ys) ≡ (any p xs || any p ys)
  any-append p [] ys = refl
  any-append p (x ∷ xs) ys = ground (arith, any-append p xs ys)

  -- Tests that agree on every row agree on the table.
  pub any_congr : (p q : A → Bool) (xs : List A) → ((x : A) → p x ≡ q x) → any p xs ≡ any q xs
  any_congr p q [] h = refl
  any_congr p q (x ∷ xs) h = rw (h x, any_congr p q xs h)

  pub any_mono :
      (p q : A → Bool) (xs : List A)
      → ((x : A) → p x ≡ true → q x ≡ true)
      → any p xs ≡ true
      → any q xs ≡ true
  any_mono p q [] h e = e
  any_mono p q (x ∷ xs) h e = ground (arith, h x, any_mono p q xs h)

  abbrev pub map_option {κ} : {B : Type κ} → (A → B) → Option A → Option B
  map_option f none = none
  map_option f (some x) = some (f x)

  -- An UPDATE that the test of a query does not notice changes the row that is found.
  pub find-update_where :
      (test p : A → Bool) (f : A → A) (xs : List A)
      → ((x : A) → test (f x) ≡ test x)
      → find test (update_where p f xs) ≡ map_option (λ x. if p x then f x else x) (find test xs)
  find-update_where test p f [] h = refl
  find-update_where test p f (x ∷ xs) h = ground (arith, h x, find-update_where test p f xs h)

  -- An UPDATE of rows that the query never finds.
  pub find-update_where_other :
      (test p : A → Bool) (f : A → A) (xs : List A)
      → ((x : A) → p x ≡ true → test x ≡ false)
      → ((x : A) → p x ≡ true → test (f x) ≡ false)
      → find test (update_where p f xs) ≡ find test xs
  find-update_where_other test p f [] h k = refl
  find-update_where_other test p f (x ∷ xs) h k =
      ground (arith, h x, k x, find-update_where_other test p f xs h k)

  pub find-append :
      (test : A → Bool) (x : A) (xs ys : List A)
      → find test xs ≡ some x
      → find test (xs ++ ys) ≡ some x
  find-append test x [] ys e = cc
  find-append test x (y ∷ xs) ys e = ground (arith, find-append test x xs ys)

  pub find_test : (test : A → Bool) (x : A) (xs : List A) → find test xs ≡ some x → test x ≡ true
  find_test test x [] e = cc
  find_test test x (y ∷ xs) e = ground (arith, find_test test x xs)

  -- An UPDATE of columns that the test does not read.
  pub any-update_where :
      (test p : A → Bool) (f : A → A) (xs : List A)
      → ((x : A) → p x ≡ true → test (f x) ≡ test x)
      → any test (update_where p f xs) ≡ any test xs
  any-update_where test p f [] h = refl
  any-update_where test p f (x ∷ xs) h = ground (arith, h x, any-update_where test p f xs h)

  -- An UPDATE that brings no row to pass the test.
  pub any-update_where_le :
      (test p : A → Bool) (f : A → A) (xs : List A)
      → ((x : A) → test (f x) ≡ true → test x ≡ true)
      → any test xs ≡ false
      → any test (update_where p f xs) ≡ false
  any-update_where_le test p f [] h e = refl
  any-update_where_le test p f (x ∷ xs) h e =
      ground (arith, h x, e, any-update_where_le test p f xs h)

abbrev pub All {ℓ κ} : {A : Type ℓ} → (A → Type κ) → List A → Type κ
All P [] = Unit
All P (x ∷ xs) = P x × All P xs

-- A row of the table with a property.
abbrev pub Some {ℓ} : {A : Type ℓ} → (A → Type 0) → List A → Type ℓ
Some {A = A} P rows = (a : A) × Memᴰ a rows × P a

pub both_true : (a b : Bool) → (a && b) ≡ true → (a ≡ true) × (b ≡ true)
both_true a b e = ground (arith, e)

pub true_both : {a b : Bool} → a ≡ true → b ≡ true → (a && b) ≡ true
true_both e f = ground (arith, e, f)

-- A test that passes on a row, and the row.
pub any-Some {ℓ} :
    {A : Type ℓ} (q : A → Bool) (rows : List A) → any q rows ≡ true → Some (λ a. q a ≡ true) rows
any-Some q [] e = cc
any-Some q (a ∷ rows) e = elim (Bool-cases (q a)) [
  | inl hit ↦ (a, Memᴰ.head refl, hit)
  | inr miss ↦
      let (b, at, hit) = any-Some q rows (ground (arith, e, miss)) in (b, Memᴰ.tail at, hit)
]

pub Some-any {ℓ} :
    {A : Type ℓ} (q : A → Bool) (a : A) (rows : List A)
    → Memᴰ a rows
    → q a ≡ true
    → any q rows ≡ true
Some-any q a [] at e = elim at [ ]
Some-any q a (b ∷ rows) (Memᴰ.head same) e = rw (subst (λ x. q x ≡ true) same e) refl
Some-any q a (b ∷ rows) (Memᴰ.tail at) e = ground (arith, Some-any q a rows at e)
