-- ===== src/Base/Table/Memory.antt =====
-- A table kept as the list of its rows, which meets the laws.
use mathlib.Core.Path.{◌≡◌, refl}
use mathlib.Core.Bool.{Bool, not, ◌&&◌}
use mathlib.Core.List.{List, [], ◌∷◌, map}
use native.Mathlib.Omega.{arith}
use mdm.Base.Tests.{if◌then◌else◌}
use mdm.Base.Lists.{count_p, filter}
use mdm.Base.Table.Defs.{Table, IsLawful}

module _ {R : Type 0} where
  abbrev pub update_list : (R → Bool) → (R → R) → List R → List R
  update_list p f = map (λ r. if p r then f r else r)

  count-update_list :
      (q p : R → Bool) (f : R → R) (xs : List R)
      → count_p q (update_list p f xs) ≡ count_p (λ r. q (if p r then f r else r)) xs
  count-update_list q p f [] = refl
  count-update_list q p f (x ∷ xs) = rw (count-update_list q p f xs)

  count-filter :
      (q p : R → Bool) (xs : List R)
      → count_p q (filter (λ r. not (p r)) xs) ≡ count_p (λ r. not (p r) && q r) xs
  count-filter q p [] = refl
  count-filter q p (x ∷ xs) = ground (arith, count-filter q p xs)

abbrev pub list_table : (R : Type 0) → Table R
list_table R = record {
  State = List R;
  rows = λ s. s;
  insert = λ r s. r ∷ s;
  update = update_list;
  delete = λ p. filter (λ r. not (p r));
}

pub list_table-IsLawful : (R : Type 0) → IsLawful (list_table R)
list_table-IsLawful R = record {
  count-insert = λ q r s. refl;
  count-update = count-update_list;
  count-delete = count-filter;
}
