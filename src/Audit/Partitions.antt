-- ===== src/Audit/Partitions.antt =====
-- `ensureMonthlyPartition`. A date is a year with a month from 0 on, of which the code only uses
-- these; `new Date(year, month, 1)` carries a month behind December into the next year. The server
-- keeps a partition as its name and its bounds; it refuses, and the code ignores, one that overlaps
-- another.
use mdm.Base.{
  ℕ, ◌+◌, ◌*◌, ◌/◌, ◌%◌, Bool, ◌&&◌, ◌||◌, List, [], ◌∷◌, ◌++◌, ltb, leb, any, if◌then◌else◌,
}
use mdm.Base.Text.{Text, codes, text_eq}

pub record Month : Type 0 where
  pub year : ℕ
  pub month : ℕ

-- `new Date(year, month, 1)`
unfoldable pub date_of : ℕ → ℕ → Month
date_of year month = record { year = year + month / 12; month = month % 12 }

-- The months before a month, since the year 0.
unfoldable pub index : Month → ℕ
index m = m.year * 12 + m.month

-- A partition with its bounds, as months: the lower one is in it, the upper one is not.
pub record Partition : Type 0 where
  pub name : Text
  pub start : Month
  pub end : Month

-- `String(n).padStart(2, '0')` of a number below 100
unfoldable pub padded : ℕ → Text
padded n = (48 + n / 10) ∷ (48 + n % 10) ∷ []

-- Is a month in the partition, and do two partitions overlap?
unfoldable pub contains : ℕ → Partition → Bool
unfolding index
contains i p = leb (index p.start) i && ltb i (index p.end)

unfoldable pub overlaps : Partition → Partition → Bool
unfolding index
overlaps p r = ltb (index p.start) (index r.end) && ltb (index r.start) (index p.end)

abbrev pub is_named : Text → Partition → Bool
is_named name p = text_eq p.name name

-- `CREATE TABLE IF NOT EXISTS … PARTITION OF`, with its error ignored.
unfoldable pub create_partition : Partition → List Partition → List Partition
unfolding overlaps
create_partition p parts =
    if any (is_named p.name) parts || any (overlaps p) parts then parts else p ∷ parts

-- `print` is `String` of a year.
module _ (print : ℕ → Text) where
  unfoldable pub partition_name : Month → Text
  unfolding padded
  partition_name m = codes "audit_logs_" ++ (print m.year ++ (codes "_" ++ padded (m.month + 1)))

  -- The two partitions that the loop asks for.
  unfoldable pub current_partition : Month → Partition
  unfolding partition_name date_of
  current_partition now = record {
    name = partition_name now;
    start = now;
    end = date_of now.year (now.month + 1);
  }

  unfoldable pub next_partition : Month → Partition
  unfolding partition_name date_of
  next_partition now =
      let next_month = date_of now.year (now.month + 1) in
      record {
        name = partition_name next_month;
        start = next_month;
        end = date_of now.year (now.month + 2);
      }

  unfoldable pub ensure_monthly_partition : Month → List Partition → List Partition
  unfolding create_partition current_partition next_partition
  ensure_monthly_partition now parts =
      create_partition (next_partition now) (create_partition (current_partition now) parts)
