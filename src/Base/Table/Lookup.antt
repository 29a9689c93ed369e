-- ===== src/Base/Table/Lookup.antt =====
-- A field of the row that has an id, where ids are unique, behind statements that leave the row
-- with that id as it is.
use Prim.Native.Nat.{ℕ, ◌≤◌}
use mathlib.Core.Path.{◌≡◌, refl, ap, sym, ◌∙◌}
use mathlib.Core.Logic.{◌↔◌, inl, inr}
use mathlib.Core.Bool.{Bool, true, false, not, ◌&&◌}
use mathlib.Core.Option.{Option, none, some}
use mathlib.Core.List.{List, [], ◌∷◌}
use native.Mathlib.Omega.{arith}
use mdm.Base.Tests.{◌==◌, if◌then◌else◌, Bool-cases, Option-cases}
use mdm.Base.Lists.{
  any, find?, find?-none, any_of_find?, find?-none_of_count, count_p, count_p_mono, count-any,
  count_p-false,
}
use mdm.Base.Table.Defs.{Table, IsLawful}
use mdm.Base.Table.Laws.{
  any-eq_of_count_p, any-insert, any-update, any-delete, none-delete, count_p_ext,
}

abbrev pub map_option {ℓ κ} : {A : Type ℓ} {B : Type κ} → (A → B) → Option A → Option B
map_option f none = none
map_option f (some a) = some (f a)

-- `(await db.select().from(…).where(eq(….id, key)).limit(1))[0]?.f`
abbrev pub value_at {ℓ κ} : {R : Type ℓ} {B : Type κ} → (R → ℕ) → (R → B) → ℕ → List R → Option B
value_at id f key rows = map_option f (find? (λ r. id r == key) rows)

pub map_option-some {ℓ κ} :
    {A : Type ℓ} {B : Type κ} (f : A → B) (o : Option A) (b : B)
    → map_option f o ≡ some b
    → (a : A) × (o ≡ some a) × (f a ≡ b)
map_option-some f none b e = cc
map_option-some f (some a) b e = (a, refl, cc)

module _ {R : Type 0} {B : Type 0} (id : R → ℕ) (f : R → B) (eq : B → B → Bool)
    (eq_lem : (a b : B) → (eq a b ≡ true) ↔ (a ≡ b)) where
  value_of_all :
      (key : ℕ) (v : B) (rows : List R)
      → count_p (λ r. id r == key && not (eq (f r) v)) rows ≡ 0
      → any (λ r. id r == key) rows ≡ true
      → value_at id f key rows ≡ some v
  value_of_all key v [] h k = ground arith
  value_of_all key v (r ∷ rows) h k = elim (Bool-cases (id r == key)) [
    | inl here ↦ rw here (ap some ((eq_lem (f r) v).0 (ground arith)))
    | inr there ↦ rw there (value_of_all key v rows (ground arith) (ground arith))
  ]

  all_of_unique :
      (g : R → B) (key : ℕ) (rows : List R) (x : R)
      → count_p (λ r. id r == key) rows ≤ 1
      → find? (λ r. id r == key) rows ≡ some x
      → count_p (λ r. id r == key && not (eq (g r) (g x))) rows ≡ 0
  all_of_unique g key [] x u e = refl
  all_of_unique g key (r ∷ rows) x u e = elim (Bool-cases (id r == key)) [
    | inl here ↦
        let same : eq (g r) (g x) ≡ true = (eq_lem (g r) (g x)).1 (ground arith) in
        let later =
          count_p_mono (λ r. id r == key && not (eq (g r) (g x))) (λ r. id r == key) rows
            (λ r k. ground arith) in
        ground (arith, later)
    | inr there ↦ ground (arith, all_of_unique g key rows x (ground arith) (ground arith))
  ]

  -- Rows with the same keys, where all rows of a key keep the value that all had.
  value_at-same :
      (key : ℕ) (rows later : List R)
      → any (λ r. id r == key) later ≡ any (λ r. id r == key) rows
      → ((v : B)
          → count_p (λ r. id r == key && not (eq (f r) v)) rows ≡ 0
          → count_p (λ r. id r == key && not (eq (f r) v)) later ≡ 0)
      → count_p (λ r. id r == key) rows ≤ 1
      → value_at id f key later ≡ value_at id f key rows
  value_at-same key rows later keys values unique =
      elim (Option-cases (find? (λ r. id r == key) rows)) [
        | inl e ↦
            let gone = keys ∙ find?-none (λ r. id r == key) rows e in
            rw (e, find?-none_of_count (λ r. id r == key) later (count-any _ _ gone)) refl
        | inr (x, e) ↦
            let there = keys ∙ any_of_find? (λ r. id r == key) rows x e in
            value_of_all key (f x) later (values (f x) (all_of_unique f key rows x unique e)) there
            ∙ rw e refl
      ]

  module _ (T : Table R) (L : IsLawful T) (key : ℕ) (s : Table.State T) where
    pub value_at-insert :
        (r : R)
        → (id r == key) ≡ false
        → count_p (λ r. id r == key) (Table.rows T s) ≤ 1
        → value_at id f key (Table.rows T (Table.insert T r s)) ≡ value_at id f key (Table.rows T s)
    value_at-insert r other =
        value_at-same key (Table.rows T s) (Table.rows T (Table.insert T r s))
          (any-insert T L (λ r. id r == key) r s ∙ ground arith)
          (λ v e. L.count-insert (λ r. id r == key && not (eq (f r) v)) r s ∙ ground arith)

    pub value_at-delete :
        (p : R → Bool)
        → ((r : R) → (id r == key) ≡ true → p r ≡ false)
        → count_p (λ r. id r == key) (Table.rows T s) ≤ 1
        → value_at id f key (Table.rows T (Table.delete T p s)) ≡ value_at id f key (Table.rows T s)
    value_at-delete p other =
        value_at-same key (Table.rows T s) (Table.rows T (Table.delete T p s))
          (any-delete T L (λ r. id r == key) p s
            ∙ any-eq_of_count_p (λ r. not (p r) && id r == key) (λ r. id r == key) (Table.rows T s)
                (Table.rows T s)
                (count_p_ext (λ r. not (p r) && id r == key) (λ r. id r == key) (Table.rows T s)
                  (λ r. ground (arith, other r))))
          (λ v e. none-delete T L (λ r. id r == key && not (eq (f r) v)) p s e)

    module _ (p : R → Bool) (g : R → R) (same_id : (r : R) → id (g r) ≡ id r)
        (kept : (r : R) → (id r == key) ≡ true → p r ≡ true → f (g r) ≡ f r) where
      same_key : (r : R) → (id (if p r then g r else r) == key) ≡ (id r == key)
      same_key r = ground (arith, same_id r)

      differs :
          (v : B) (r : R)
          → (id (if p r then g r else r) == key && not (eq (f (if p r then g r else r)) v)) ≡ true
          → (id r == key && not (eq (f r) v)) ≡ true
      differs v r h = elim (Bool-cases (p r)) [
        | inl pr ↦
            let k : (id (g r) == key && not (eq (f (g r)) v)) ≡ true = ground arith in
            let here : (id r == key) ≡ true = ground (arith, same_id r) in
            let e : f (g r) ≡ f r = kept r here pr in rw (here, sym e) (ground arith)
        | inr pr ↦ ground arith
      ]

      pub value_at-update :
          count_p (λ r. id r == key) (Table.rows T s) ≤ 1
          → value_at id f key (Table.rows T (Table.update T p g s))
            ≡ value_at id f key (Table.rows T s)
      value_at-update =
          value_at-same key (Table.rows T s) (Table.rows T (Table.update T p g s))
            (any-update T L (λ r. id r == key) p g s
              ∙ any-eq_of_count_p (λ r. id (if p r then g r else r) == key) (λ r. id r == key)
                  (Table.rows T s) (Table.rows T s) (count_p_ext _ _ (Table.rows T s) same_key))
            (λ v e.
              L.count-update (λ r. id r == key && not (eq (f r) v)) p g s
              ∙ count_p_mono
                  (λ r.
                    id (if p r then g r else r) == key && not (eq (f (if p r then g r else r)) v))
                  (λ r. id r == key && not (eq (f r) v)) (Table.rows T s) (differs v) e)

    -- The value at the key of the row that a statement adds, changes or removes.
    pub value_at-insert_own :
        (r : R)
        → (id r == key) ≡ true
        → count_p (λ r. id r == key) (Table.rows T s) ≡ 0
        → value_at id f key (Table.rows T (Table.insert T r s)) ≡ some (f r)
    value_at-insert_own r own fresh =
        let same : eq (f r) (f r) ≡ true = (eq_lem (f r) (f r)).1 refl in
        let others =
          count_p_mono (λ x. id x == key && not (eq (f x) (f r))) (λ x. id x == key)
            (Table.rows T s) (λ x k. ground arith) fresh in
        value_of_all key (f r) (Table.rows T (Table.insert T r s))
          (L.count-insert (λ x. id x == key && not (eq (f x) (f r))) r s ∙ ground arith)
          (any-insert T L (λ x. id x == key) r s ∙ ground arith)

    pub value_at-delete_own :
        value_at id f key (Table.rows T (Table.delete T (λ r. id r == key) s)) ≡ none
    value_at-delete_own =
        let gone =
          L.count-delete (λ r. id r == key) (λ r. id r == key) s
          ∙ (count_p_ext (λ r. not (id r == key) && id r == key) (λ r. false) (Table.rows T s)
                (λ r. ground arith)
              ∙ count_p-false (Table.rows T s)) in
        rw
          (find?-none_of_count (λ r. id r == key)
            (Table.rows T (Table.delete T (λ r. id r == key) s)) gone)
          refl

    pub value_at-update_own :
        (g : R → R) (x : R)
        → ((r : R) → id (g r) ≡ id r)
        → find? (λ r. id r == key) (Table.rows T s) ≡ some x
        → count_p (λ r. id r == key) (Table.rows T s) ≤ 1
        → value_at id f key (Table.rows T (Table.update T (λ r. id r == key) g s)) ≡ some (f (g x))
    value_at-update_own g x same_id found unique =
        let alike = all_of_unique (λ r. f (g r)) key (Table.rows T s) x unique found in
        value_of_all key (f (g x)) (Table.rows T (Table.update T (λ r. id r == key) g s))
          (L.count-update (λ r. id r == key && not (eq (f r) (f (g x)))) (λ r. id r == key) g s
            ∙ count_p_mono _ (λ r. id r == key && not (eq (f (g r)) (f (g x)))) (Table.rows T s)
                (λ r. own_row g x same_id r) alike)
          (any-update T L (λ r. id r == key) (λ r. id r == key) g s
            ∙ (any-eq_of_count_p (λ r. id (if id r == key then g r else r) == key)
                  (λ r. id r == key) (Table.rows T s) (Table.rows T s)
                  (count_p_ext _ _ (Table.rows T s) (λ r. ground (arith, same_id r)))
                ∙ any_of_find? (λ r. id r == key) (Table.rows T s) x found))
      where
        own_row :
            (g : R → R) (x : R)
            → ((r : R) → id (g r) ≡ id r)
            → (r : R)
            → (id (if id r == key then g r else r) == key
                && not (eq (f (if id r == key then g r else r)) (f (g x))))
              ≡ true
            → (id r == key && not (eq (f (g r)) (f (g x)))) ≡ true
        own_row g x same_id r h = elim (Bool-cases (id r == key)) [
          | inl here ↦ rw here (ground (arith, same_id r))
          | inr there ↦ ground arith
        ]
