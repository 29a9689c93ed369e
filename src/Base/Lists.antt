-- ===== src/Base/Lists.antt =====
-- Lists measured by native numbers, Boolean searches, and predicates on every element.
use Prim.Native.Nat.{ℕ, suc, ◌+◌, ◌≤◌}
use mathlib.Core.Path.{◌≡◌, refl}
use mathlib.Core.Bool.{Bool, true, false, ◌&&◌, ◌||◌}
use mathlib.Core.Option.{Option, none, some}
use mathlib.Core.List.{List, [], ◌∷◌, ◌++◌}
use native.Mathlib.Omega.{arith}
use mdm.Base.Tests.{if◌then◌else◌, Bool-cases}
use mathlib.Core.Logic.{inl, inr}

module _ {ℓ} {A : Type ℓ} where
  abbrev pub length : List A → ℕ
  length [] = 0
  length (x ∷ xs) = suc (length xs)

  -- `xs.some(p)`
  abbrev pub any : (A → Bool) → List A → Bool
  any p [] = false
  any p (x ∷ xs) = p x || any p xs

  -- `xs.every(p)`
  abbrev pub all : (A → Bool) → List A → Bool
  all p [] = true
  all p (x ∷ xs) = p x && all p xs

  -- `xs.filter(p)`, and the rows that a `WHERE` clause keeps
  abbrev pub filter : (A → Bool) → List A → List A
  filter p [] = []
  filter p (x ∷ xs) = let rest = filter p xs in if p x then x ∷ rest else rest

  -- The first element that passes, as of `WHERE … LIMIT 1`.
  abbrev pub find? : (A → Bool) → List A → Option A
  find? p [] = none
  find? p (x ∷ xs) = let rest = find? p xs in if p x then some x else rest

  -- How many elements pass.
  abbrev pub count_p : (A → Bool) → List A → ℕ
  count_p p [] = 0
  count_p p (x ∷ xs) = (if p x then 1 else 0) + count_p p xs

module _ {ℓ κ} {A : Type ℓ} (P : A → Type κ) where
  abbrev pub All : List A → Type κ
  All [] = Unit
  All (x ∷ xs) = P x × All xs

module _ {ℓ} {A : Type ℓ} where
  pub length-append : (xs ys : List A) → length (xs ++ ys) ≡ length xs + length ys
  length-append [] ys = omega arith
  length-append (x ∷ xs) ys = omega (arith, length-append xs ys)

  pub find?-test : (p : A → Bool) (xs : List A) (x : A) → find? p xs ≡ some x → p x ≡ true
  find?-test p [] x e = ground arith
  find?-test p (y ∷ xs) x e = ground (arith, find?-test p xs x)

  pub find?-none : (p : A → Bool) (xs : List A) → find? p xs ≡ none → any p xs ≡ false
  find?-none p [] e = refl
  find?-none p (y ∷ xs) e = ground (arith, find?-none p xs)

  pub any_of_find? : (p : A → Bool) (xs : List A) (x : A) → find? p xs ≡ some x → any p xs ≡ true
  any_of_find? p [] x e = ground arith
  any_of_find? p (y ∷ xs) x e = ground (arith, any_of_find? p xs x)

  pub length-filter : (p : A → Bool) (xs : List A) → length (filter p xs) ≡ count_p p xs
  length-filter p [] = refl
  length-filter p (x ∷ xs) = ground (arith, length-filter p xs)

  pub count_p-append :
      (p : A → Bool) (xs ys : List A) → count_p p (xs ++ ys) ≡ count_p p xs + count_p p ys
  count_p-append p [] ys = omega arith
  count_p-append p (x ∷ xs) ys = ground (arith, count_p-append p xs ys)

  pub count_p-false : (xs : List A) → count_p (λ x. false) xs ≡ 0
  count_p-false [] = refl
  count_p-false (x ∷ xs) = omega (arith, count_p-false xs)

  pub any-count : (p : A → Bool) (xs : List A) → count_p p xs ≡ 0 → any p xs ≡ false
  any-count p [] e = refl
  any-count p (x ∷ xs) e = ground (arith, any-count p xs)

  pub count-any : (p : A → Bool) (xs : List A) → any p xs ≡ false → count_p p xs ≡ 0
  count-any p [] e = refl
  count-any p (x ∷ xs) e = ground (arith, count-any p xs)

  -- A test that implies another passes on no more elements.
  pub count_p_mono :
      (p q : A → Bool) (xs : List A)
      → ((x : A) → p x ≡ true → q x ≡ true)
      → count_p q xs ≡ 0
      → count_p p xs ≡ 0
  count_p_mono p q [] h e = refl
  count_p_mono p q (x ∷ xs) h e = ground (arith, h x, count_p_mono p q xs h)

  pub find?-none_of_count : (p : A → Bool) (xs : List A) → count_p p xs ≡ 0 → find? p xs ≡ none
  find?-none_of_count p [] e = refl
  find?-none_of_count p (x ∷ xs) e = ground (arith, find?-none_of_count p xs)

  -- What is found has no property that no element has.
  pub find?-not_count :
      (p q : A → Bool) (xs : List A) (x : A) → find? p xs ≡ some x → count_p q xs ≡ 0 → q x ≡ false
  find?-not_count p q [] x e c = ground arith
  find?-not_count p q (y ∷ xs) x e c = elim (Bool-cases (p y)) [
    | inl here ↦ ground arith
    | inr there ↦ find?-not_count p q xs x (ground arith) (ground arith)
  ]

  -- A test that implies another passes on no more elements.
  pub count_p_le :
      (p q : A → Bool) (xs : List A)
      → ((x : A) → p x ≡ true → q x ≡ true)
      → count_p p xs ≤ count_p q xs
  count_p_le p q [] h = omega arith
  count_p_le p q (x ∷ xs) h = ground (arith, h x, count_p_le p q xs h)

  -- Tests that agree wherever a third fails, which no element passes.
  pub count_p_unless :
      (bad p q : A → Bool) (xs : List A)
      → count_p bad xs ≡ 0
      → ((x : A) → bad x ≡ false → p x ≡ q x)
      → count_p p xs ≡ count_p q xs
  count_p_unless bad p q [] e h = refl
  count_p_unless bad p q (x ∷ xs) e h = ground (arith, h x, count_p_unless bad p q xs)
