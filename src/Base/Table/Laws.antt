-- ===== src/Base/Table/Laws.antt =====
-- What the laws of a table say of a query that asks whether there is a row.
use Prim.Native.Nat.{ℕ}
use mathlib.Core.Path.{◌≡◌, refl, ap, sym, ◌∙◌, fun_ext}
use mathlib.Core.Bool.{Bool, true, false, not, ◌&&◌}
use mathlib.Core.List.{List, [], ◌∷◌}
use native.Mathlib.Omega.{arith}
use mdm.Base.Tests.{ltb, if◌then◌else◌, if_P}
use mdm.Base.Lists.{any, count_p, count_p_mono}
use mdm.Base.Table.Defs.{Table, IsLawful}

module _ {ℓ} {A : Type ℓ} where
  any-eq-count_p : (q : A → Bool) (xs : List A) → any q xs ≡ ltb 0 (count_p q xs)
  any-eq-count_p q [] = refl
  any-eq-count_p q (x ∷ xs) = ground (arith, any-eq-count_p q xs)

  pub any-eq_of_count_p :
      (p q : A → Bool) (xs ys : List A) → count_p p xs ≡ count_p q ys → any p xs ≡ any q ys
  any-eq_of_count_p p q xs ys e =
      any-eq-count_p p xs ∙ (ap (λ (n : ℕ). ltb 0 n) e ∙ sym (any-eq-count_p q ys))

  -- Queries that agree on every row find as many.
  pub count_p_ext :
      (p q : A → Bool) (xs : List A) → ((x : A) → p x ≡ q x) → count_p p xs ≡ count_p q xs
  count_p_ext p q xs h = ap (λ f. count_p f xs) (fun_ext h)

module _ {R : Type 0} (T : Table R) (L : IsLawful T) where
  pub any-insert :
      (q : R → Bool) (r : R) (s : Table.State T)
      → any q (Table.rows T (Table.insert T r s)) ≡ any q (r ∷ Table.rows T s)
  any-insert q r s = any-eq_of_count_p q q _ (r ∷ Table.rows T s) (L.count-insert q r s)

  pub any-update :
      (q p : R → Bool) (f : R → R) (s : Table.State T)
      → any q (Table.rows T (Table.update T p f s))
        ≡ any (λ r. q (if p r then f r else r)) (Table.rows T s)
  any-update q p f s = any-eq_of_count_p q _ _ _ (L.count-update q p f s)

  pub any-delete :
      (q p : R → Bool) (s : Table.State T)
      → any q (Table.rows T (Table.delete T p s)) ≡ any (λ r. not (p r) && q r) (Table.rows T s)
  any-delete q p s = any-eq_of_count_p q _ _ _ (L.count-delete q p s)

  -- A property that no row has, and that a statement gives to none, is had by none behind it.
  pub none-insert :
      (q : R → Bool) (r : R) (s : Table.State T)
      → q r ≡ false
      → count_p q (Table.rows T s) ≡ 0
      → count_p q (Table.rows T (Table.insert T r s)) ≡ 0
  none-insert q r s h e = L.count-insert q r s ∙ ground arith

  pub none-update :
      (q p : R → Bool) (f : R → R) (s : Table.State T)
      → ((r : R) → q (f r) ≡ true → q r ≡ true)
      → count_p q (Table.rows T s) ≡ 0
      → count_p q (Table.rows T (Table.update T p f s)) ≡ 0
  none-update q p f s h e =
      L.count-update q p f s
      ∙ count_p_mono (λ r. q (if p r then f r else r)) q (Table.rows T s)
          (λ r. if_P (λ x. q x ≡ true → q r ≡ true) (p r) (f r) r (h r) (λ k. k)) e

  pub none-delete :
      (q p : R → Bool) (s : Table.State T)
      → count_p q (Table.rows T s) ≡ 0
      → count_p q (Table.rows T (Table.delete T p s)) ≡ 0
  none-delete q p s e =
      L.count-delete q p s
      ∙ count_p_mono (λ r. not (p r) && q r) q (Table.rows T s) (λ r k. ground arith) e
