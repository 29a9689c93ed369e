-- ===== src/Scim/Others.antt =====
-- Rows of other organizations, where ids are unique: a row that a handler finds in its organization
-- is the only one that a statement on its id writes.
use mdm.Base.{
  ℕ, ◌+◌, ◌≤◌, ◌≡◌, refl, ◌∙◌, Bool, not, ◌&&◌, some, List, [], ◌∷◌, arith, ◌==◌, find?, count_p,
  count_p_unless, if◌then◌else◌,
}
use mdm.Base.Table.{Table, IsLawful, none-update}

module _ {R : Type 0} (org : R → ℕ) where
  -- How many rows of other organizations a query finds.
  abbrev pub others : ℕ → (R → Bool) → List R → ℕ
  others o q rows = count_p (λ r. not (org r == o) && q r) rows

module _ {R : Type 0} (id org : R → ℕ) where
  count_split :
      (p q : R → Bool) (rows : List R)
      → count_p p rows ≡ count_p (λ r. p r && q r) rows + count_p (λ r. p r && not (q r)) rows
  count_split p q [] = refl
  count_split p q (r ∷ rows) = ground (arith, count_split p q rows)

  find-count : (p : R → Bool) (rows : List R) (x : R) → find? p rows ≡ some x → 1 ≤ count_p p rows
  find-count p [] x e = ground arith
  find-count p (r ∷ rows) x e = ground (arith, find-count p rows x)

  -- A row of another organization that has the id.
  abbrev pub is_foreign : ℕ → ℕ → R → Bool
  is_foreign key o r = id r == key && not (org r == o)

  pub found-only :
      (key o : ℕ) (rows : List R) (x : R)
      → count_p (λ r. id r == key) rows ≤ 1
      → find? (λ r. id r == key && org r == o) rows ≡ some x
      → count_p (is_foreign key o) rows ≡ 0
  found-only key o rows x unique e = omega (
    arith,
    count_split (λ r. id r == key) (λ r. org r == o) rows,
    find-count (λ r. id r == key && org r == o) rows x e,
  )

  module _ (T : Table R) (L : IsLawful T) (f : R → R) (keeps : (r : R) → org (f r) ≡ org r)
      (key o : ℕ) (s : Table.State T) where
    pub others-update :
        (q : R → Bool)
        → count_p (is_foreign key o) (Table.rows T s) ≡ 0
        → others org o q (Table.rows T (Table.update T (λ r. id r == key) f s))
          ≡ others org o q (Table.rows T s)
    others-update q h =
        L.count-update (λ r. not (org r == o) && q r) (λ r. id r == key) f s
        ∙ count_p_unless (is_foreign key o)
            (λ r.
              not (org (if id r == key then f r else r) == o) && q (if id r == key then f r else r))
            (λ r. not (org r == o) && q r) (Table.rows T s) h (λ r k. ground (arith, keeps r))

    pub foreign-update :
        ((r : R) → id (f r) ≡ id r)
        → count_p (is_foreign key o) (Table.rows T s) ≡ 0
        → count_p (is_foreign key o) (Table.rows T (Table.update T (λ r. id r == key) f s)) ≡ 0
    foreign-update same h =
        none-update T L (is_foreign key o) (λ r. id r == key) f s
          (λ r k. ground (arith, keeps r, same r)) h
