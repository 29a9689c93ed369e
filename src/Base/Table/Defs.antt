-- ===== src/Base/Table/Defs.antt =====
-- The interface and what the services rely on.
use mathlib.Core.Path.{◌≡◌}
use mathlib.Core.Bool.{Bool, not, ◌&&◌}
use mathlib.Core.List.{List, ◌∷◌}
use mdm.Base.Tests.{if◌then◌else◌}
use mdm.Base.Lists.{count_p}

pub record Table (R : Type 0) : Type 1 where
  pub State : Type 0
  -- `SELECT *`
  pub rows : State → List R
  -- `INSERT INTO … VALUES`
  pub insert : R → State → State
  -- `UPDATE … SET … WHERE`
  pub update : (R → Bool) → (R → R) → State → State
  -- `DELETE FROM … WHERE`
  pub delete : (R → Bool) → State → State

pub record IsLawful {R : Type 0} (T : Table R) : Type 0 where
  pub count-insert :
      (q : R → Bool) (r : R) (s : Table.State T)
      → count_p q (Table.rows T (Table.insert T r s)) ≡ count_p q (r ∷ Table.rows T s)
  pub count-update :
      (q p : R → Bool) (f : R → R) (s : Table.State T)
      → count_p q (Table.rows T (Table.update T p f s))
        ≡ count_p (λ r. q (if p r then f r else r)) (Table.rows T s)
  pub count-delete :
      (q p : R → Bool) (s : Table.State T)
      → count_p q (Table.rows T (Table.delete T p s))
        ≡ count_p (λ r. not (p r) && q r) (Table.rows T s)
