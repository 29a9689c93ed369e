-- ===== src/Reports/Due.antt =====
-- The jobs that the rows of `report_schedules` ask for, behind the statements of the scheduler.
use mdm.Base.{
  ◌≤◌, ◌≡◌, ◌↔◌, refl, ap, ◌∙◌, Bool, true, false, ◌&&◌, Option, none, some, List, arith, ◌==◌,
  find?, find?-none, find?-none_of_count, count_p, count-any, if◌then◌else◌,
}
use mdm.Base.Text.{text_eq, text_eq_iff}
use mdm.Base.Table.{
  Table, IsLawful, count_p_ext, value_at, value_at-insert, value_at-update, value_at-delete,
  value_at-insert_own, value_at-update_own, value_at-delete_own,
}
use mdm.Schema.{Uuid}
use mdm.Reports.Queue.{RepeatJob}
use mdm.Reports.Schedules.{Schedule, job_of}

abbrev job_eq : RepeatJob → RepeatJob → Bool
job_eq a b =
    a.schedule_id == b.schedule_id
    && (text_eq a.template_id b.template_id
        && (a.org_id == b.org_id
            && (text_eq a.format b.format
                && (text_eq a.params b.params
                    && (text_eq a.recipients b.recipients && text_eq a.pattern b.pattern)))))

abbrev opt_eq : Option RepeatJob → Option RepeatJob → Bool
opt_eq none none = true
opt_eq none (some b) = false
opt_eq (some a) none = false
opt_eq (some a) (some b) = job_eq a b

job_eq_lem : (a b : RepeatJob) → (job_eq a b ≡ true) ↔ (a ≡ b)
job_eq_lem a b = ground (
  arith,
  text_eq_iff a.template_id b.template_id,
  text_eq_iff a.format b.format,
  text_eq_iff a.params b.params,
  text_eq_iff a.recipients b.recipients,
  text_eq_iff a.pattern b.pattern,
)

opt_eq_lem : (a b : Option RepeatJob) → (opt_eq a b ≡ true) ↔ (a ≡ b)
opt_eq_lem none none = (λ e. refl, λ e. refl)
opt_eq_lem none (some b) = (λ e. cc, λ e. cc)
opt_eq_lem (some a) none = (λ e. cc, λ e. cc)
opt_eq_lem (some a) (some b) = ground (arith, job_eq_lem a b)

-- The job that a schedule is to have.
abbrev pub active_job : Schedule → Option RepeatJob
active_job r = if r.is_active then some (job_of r) else none

abbrev flatten : Option (Option RepeatJob) → Option RepeatJob
flatten none = none
flatten (some o) = o

abbrev pub schedule_id : Schedule → Uuid
schedule_id r = r.id

-- The job that the rows ask for under an id.
unfoldable pub due : Uuid → List Schedule → Option RepeatJob
due id rows = flatten (value_at schedule_id active_job id rows)

-- The rows behind a statement, at the id that it is about and at another, where ids are unique.
module _ (S : Table Schedule) (L : IsLawful S) (s : Table.State S)
    (unique : (k : Uuid) → count_p (λ r. r.id == k) (Table.rows S s) ≤ 1) where
  pub due-insert_own :
      (r : Schedule)
      → count_p (λ x. x.id == r.id) (Table.rows S s) ≡ 0
      → due r.id (Table.rows S (Table.insert S r s)) ≡ active_job r
  unfolding due
  due-insert_own r fresh = ap flatten (
      value_at-insert_own schedule_id active_job opt_eq opt_eq_lem S L r.id s r (ground arith)
        fresh)

  pub due-insert_other :
      (k : Uuid) (r : Schedule)
      → (r.id == k) ≡ false
      → due k (Table.rows S (Table.insert S r s)) ≡ due k (Table.rows S s)
  unfolding due
  due-insert_other k r other =
      ap flatten
        (value_at-insert schedule_id active_job opt_eq opt_eq_lem S L k s r other (unique k))

  pub due-fresh :
      (id : Uuid) → count_p (λ r. r.id == id) (Table.rows S s) ≡ 0 → due id (Table.rows S s) ≡ none
  unfolding due
  due-fresh id fresh = rw (find?-none_of_count (λ r. r.id == id) (Table.rows S s) fresh) refl

  pub due-delete_own :
      (id : Uuid) → due id (Table.rows S (Table.delete S (λ r. r.id == id) s)) ≡ none
  unfolding due
  due-delete_own id =
      ap flatten (value_at-delete_own schedule_id active_job opt_eq opt_eq_lem S L id s)

  pub due-delete_other :
      (k id : Uuid)
      → (k == id) ≡ false
      → due k (Table.rows S (Table.delete S (λ r. r.id == id) s)) ≡ due k (Table.rows S s)
  unfolding due
  due-delete_other k id other = ap flatten (
      value_at-delete schedule_id active_job opt_eq opt_eq_lem S L k s (λ r. r.id == id)
        (λ r here. ground arith) (unique k))

  pub due-update_own :
      (id : Uuid) (g : Schedule → Schedule) (x : Schedule)
      → ((r : Schedule) → (g r).id ≡ r.id)
      → find? (λ r. r.id == id) (Table.rows S s) ≡ some x
      → due id (Table.rows S (Table.update S (λ r. r.id == id) g s)) ≡ active_job (g x)
  unfolding due
  due-update_own id g x same found = ap flatten (
      value_at-update_own schedule_id active_job opt_eq opt_eq_lem S L id s g x same found
        (unique id))

  pub due-update_other :
      (k id : Uuid) (g : Schedule → Schedule)
      → ((r : Schedule) → (g r).id ≡ r.id)
      → ((r : Schedule)
          → (r.id == k) ≡ true
          → (r.id == id) ≡ true
          → active_job (g r) ≡ active_job r)
      → due k (Table.rows S (Table.update S (λ r. r.id == id) g s)) ≡ due k (Table.rows S s)
  unfolding due
  due-update_other k id g same kept = ap flatten (
      value_at-update schedule_id active_job opt_eq opt_eq_lem S L k s (λ r. r.id == id) g same kept
        (unique k))

  pub due-update_missing :
      (id : Uuid) (g : Schedule → Schedule)
      → ((r : Schedule) → (g r).id ≡ r.id)
      → find? (λ r. r.id == id) (Table.rows S s) ≡ none
      → due id (Table.rows S (Table.update S (λ r. r.id == id) g s)) ≡ none
  unfolding due
  due-update_missing id g same missing =
      let before =
        count-any (λ r. r.id == id) (Table.rows S s)
          (find?-none (λ r. r.id == id) (Table.rows S s) missing) in
      let after =
        L.count-update (λ r. r.id == id) (λ r. r.id == id) g s
        ∙ (count_p_ext _ (λ r. r.id == id) (Table.rows S s) (λ r. ground (arith, same r))
            ∙ before) in
      rw
        (find?-none_of_count (λ r. r.id == id) (Table.rows S (Table.update S (λ r. r.id == id) g s))
          after)
        refl

  pub due_missing :
      (id : Uuid) → find? (λ r. r.id == id) (Table.rows S s) ≡ none → due id (Table.rows S s) ≡ none
  unfolding due
  due_missing id missing = rw missing refl
