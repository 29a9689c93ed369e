-- ===== src/Audit/Coverage.antt =====
-- The partitions of the audit log: no month in two of them, this month and the next in one.
use mdm.Base.{
  ℕ, ◌≤◌, ◌<◌, ◌+◌, ◌*◌, ◌/◌, ◌%◌, ◌≡◌, refl, ap, sym, ◌∙◌, Bool, true, false, not, ◌&&◌, ◌||◌,
  List, [], ◌∷◌, ◌++◌, arith, any, count_p, if_P, Bool-cases, inl, inr,
}
use mathlib.Core.List.{append_assoc}
use mathlib.Core.Path.{subst}
use mdm.Base.Text.{Text, codes, text_eq, text_eq_iff}
use mdm.Audit.Partitions.{
  Month, date_of, index, Partition, padded, contains, overlaps, is_named, create_partition,
  partition_name, current_partition, next_partition, ensure_monthly_partition,
}

abbrev last_code : Text → ℕ
last_code [] = 0
last_code (c ∷ []) = c
last_code (c ∷ d ∷ cs) = last_code (d ∷ cs)

last_code-append : (s : Text) (a b : ℕ) → last_code (s ++ (a ∷ b ∷ [])) ≡ b
last_code-append [] a b = refl
last_code-append (c ∷ []) a b = refl
last_code-append (c ∷ d ∷ s) a b = last_code-append (d ∷ s) a b

index-date_of : (y m : ℕ) → index (date_of y m) ≡ y * 12 + m
unfolding index date_of
index-date_of y m = omega arith

-- A partition that shares no month with the others is apart from them at each.
apart_count :
    (p : Partition) (parts : List Partition) (i : ℕ)
    → any (overlaps p) parts ≡ false
    → contains i p ≡ true
    → count_p (contains i) parts ≡ 0
unfolding overlaps contains
apart_count p [] i h k = refl
apart_count p (r ∷ parts) i h k = ground (arith, apart_count p parts i)

-- At the month, no two partitions.
abbrev pub AtMostOne : List Partition → Type 0
AtMostOne parts = (i : ℕ) → count_p (contains i) parts ≤ 1

create_partition-AtMostOne :
    (p : Partition) (parts : List Partition)
    → AtMostOne parts
    → AtMostOne (create_partition p parts)
unfolding create_partition
create_partition-AtMostOne p parts h i =
    elim (Bool-cases (any (is_named p.name) parts || any (overlaps p) parts)) [
      | inl e ↦ rw e (h i)
      | inr e ↦ rw e (ground (arith, h i, apart_count p parts i))
    ]

create_partition-keeps :
    (p : Partition) (parts : List Partition) (i : ℕ)
    → any (contains i) parts ≡ true
    → any (contains i) (create_partition p parts) ≡ true
unfolding create_partition
create_partition-keeps p parts i h =
    if_P (λ ps. any (contains i) ps ≡ true) (any (is_named p.name) parts || any (overlaps p) parts)
      parts (p ∷ parts) h (ground arith)

-- A partition of the name that does not contain the month.
abbrev pub misnamed : Text → ℕ → Partition → Bool
misnamed name i p = is_named name p && not (contains i p)

named_covers :
    (name : Text) (i : ℕ) (parts : List Partition)
    → any (is_named name) parts ≡ true
    → count_p (misnamed name i) parts ≡ 0
    → any (contains i) parts ≡ true
named_covers name i [] h e = cc
named_covers name i (p ∷ parts) h e = ground (arith, named_covers name i parts)

overlap_covers :
    (p : Partition) (parts : List Partition)
    → index p.end ≡ index p.start + 1
    → any (overlaps p) parts ≡ true
    → any (contains (index p.start)) parts ≡ true
unfolding overlaps contains
overlap_covers p [] e h = cc
overlap_covers p (r ∷ parts) e h = ground (arith, overlap_covers p parts e)

own-covers :
    (p : Partition) (parts : List Partition)
    → index p.end ≡ index p.start + 1
    → any (contains (index p.start)) (p ∷ parts) ≡ true
unfolding contains
own-covers p parts e = ground arith

create_partition-covers :
    (p : Partition) (parts : List Partition)
    → index p.end ≡ index p.start + 1
    → count_p (misnamed p.name (index p.start)) parts ≡ 0
    → any (contains (index p.start)) (create_partition p parts) ≡ true
unfolding create_partition
create_partition-covers p parts e h =
    elim (Bool-cases (any (is_named p.name) parts || any (overlaps p) parts)) [
      | inl a ↦ rw a (elim (Bool-cases (any (is_named p.name) parts)) [
        | inl named ↦ named_covers p.name (index p.start) parts named h
        | inr unnamed ↦ overlap_covers p parts e (ground arith)
      ])
      | inr a ↦ rw a (own-covers p parts e)
    ]

positive :
    (i : ℕ) (parts : List Partition)
    → any (contains i) parts ≡ true
    → 1 ≤ count_p (contains i) parts
positive i [] k = cc
positive i (p ∷ parts) k = ground (arith, positive i parts)

one_of :
    (i : ℕ) (parts : List Partition)
    → AtMostOne parts
    → any (contains i) parts ≡ true
    → count_p (contains i) parts ≡ 1
one_of i parts h k = omega (arith, h i, positive i parts k)

module _ (print : ℕ → Text) where
  last_code-partition_name :
      (m : Month) → last_code (partition_name print m) ≡ 48 + (m.month + 1) % 10
  unfolding partition_name padded
  last_code-partition_name m =
      ap last_code (
        sym (append_assoc (codes "audit_logs_") (print m.year) (codes "_" ++ padded (m.month + 1)))
        ∙ sym
            (append_assoc (codes "audit_logs_" ++ print m.year) (codes "_") (padded (m.month + 1))))
      ∙ last_code-append ((codes "audit_logs_" ++ print m.year) ++ codes "_")
          (48 + (m.month + 1) / 10) (48 + (m.month + 1) % 10)

  -- The names of a month and of the next differ in their last digit.
  names_differ :
      (now : Month)
      → now.month < 12
      → text_eq (current_partition print now).name (next_partition print now).name ≡ false
  unfolding current_partition next_partition date_of
  names_differ now h = elim (Bool-cases (text_eq a b)) [
    | inl same ↦
        let e = ap last_code ((text_eq_iff a b).0 same) in
        absurd (
          omega (
            arith,
            h,
            last_code-partition_name now,
            last_code-partition_name (date_of now.year (now.month + 1)),
            e,
          ))
    | inr other ↦ other
  ]
    where
      a : Text
      a = (current_partition print now).name

      b : Text
      b = (next_partition print now).name

  current-covers :
      (now : Month) (parts : List Partition)
      → count_p (misnamed (current_partition print now).name (index now)) parts ≡ 0
      → any (contains (index now)) (create_partition (current_partition print now) parts) ≡ true
  unfolding current_partition index
  current-covers now parts named =
      create_partition-covers (current_partition print now) parts
        (omega (arith, index-date_of now.year (now.month + 1))) named

  next-covers :
      (now : Month) (parts : List Partition)
      → count_p (misnamed (next_partition print now).name (index now + 1)) parts ≡ 0
      → any (contains (index now + 1)) (create_partition (next_partition print now) parts) ≡ true
  unfolding next_partition index
  next-covers now parts named =
      let start = index-date_of now.year (now.month + 1) in
      let end = index-date_of now.year (now.month + 2) in
      let place : index now + 1 ≡ index (date_of now.year (now.month + 1)) = omega (arith, start) in
      subst (λ i. any (contains i) (create_partition (next_partition print now) parts) ≡ true)
        (sym place)
        (create_partition-covers (next_partition print now) parts (omega (arith, start, end))
          (subst (λ i. count_p (misnamed (next_partition print now).name i) parts ≡ 0) place named))

  create_partition-misnamed :
      (p : Partition) (name : Text) (i : ℕ) (parts : List Partition)
      → text_eq p.name name ≡ false
      → count_p (misnamed name i) parts ≡ 0
      → count_p (misnamed name i) (create_partition p parts) ≡ 0
  unfolding create_partition
  create_partition-misnamed p name i parts h k =
      if_P (λ ps. count_p (misnamed name i) ps ≡ 0)
        (any (is_named p.name) parts || any (overlaps p) parts) parts (p ∷ parts) k (ground arith)

  -- Behind `ensureMonthlyPartition` this month and the next stand in one partition each, also from
  -- December to January, and no month in two. The conditions are that no month stood in two
  -- before, that the month is one of twelve, and that a partition that has the name of one of the
  -- two months contains it.
  pub ensure_monthly_partition_lem :
      (now : Month) (parts : List Partition)
      → AtMostOne parts
      → now.month < 12
      → count_p (misnamed (current_partition print now).name (index now)) parts ≡ 0
      → count_p (misnamed (next_partition print now).name (index now + 1)) parts ≡ 0
      → AtMostOne (ensure_monthly_partition print now parts)
        × (count_p (contains (index now)) (ensure_monthly_partition print now parts) ≡ 1)
        × (count_p (contains (index now + 1)) (ensure_monthly_partition print now parts) ≡ 1)
  unfolding ensure_monthly_partition
  ensure_monthly_partition_lem now parts h m named next_named =
      let first = create_partition (current_partition print now) parts in
      let apart =
        create_partition-AtMostOne (next_partition print now) first
          (create_partition-AtMostOne (current_partition print now) parts h) in
      let here = current-covers now parts named in
      let later =
        create_partition-misnamed (current_partition print now) (next_partition print now).name
          (index now + 1) parts (names_differ now m) next_named in
      (
        apart,
        one_of (index now) _ apart
            (create_partition-keeps (next_partition print now) first (index now) here),
        one_of (index now + 1) _ apart (next-covers now first later),
      )
