-- ===== src/Reports/Mirror.antt =====
-- The queue of repeatable jobs against the active schedules.
use mdm.Base.{
  ℕ, ◌≤◌, ◌≡◌, refl, not, ◌&&◌, Option, ◌∙◌, Bool, true, false, none, some, ◌==◌, count_p,
  if◌then◌else◌,
}
use mdm.Base.Text.{Text, text_eq}
use mdm.Base.Table.{Table, IsLawful, map_option}
use mdm.Schema.{Uuid}
use mdm.Reports.Queue.{RepeatJob, Queue, IsQueue}
use mdm.Reports.Due.{due}
use mdm.Reports.Schedules.{
  Schedule, Report, CreateSchedule, UpdateSchedule, job_of, new_schedule, changed_schedule,
  ReportDb, schedule_key, find_schedule, create_schedule, patch_schedule, delete_schedule, run_now,
}

module _ (S : Table Schedule) (L : IsLawful S) (R : Table Report) (B : Queue) (M : IsQueue B)
    (uuid_text : Uuid → Text)
    (uuid_text-distinct : (a b : Uuid) → text_eq (uuid_text a) (uuid_text b) ≡ (a == b)) where
  abbrev pub World : Type 0
  World = ReportDb S R B uuid_text

  abbrev pub key : Uuid → Text
  key id = schedule_key S R B uuid_text id

  -- Under each key the queue has the job that the rows ask for.
  abbrev pub Mirrors : World → Type 0
  Mirrors w = (k : Uuid) → Queue.job_at B (key k) w.queue ≡ due k (Table.rows S w.schedules)

  -- The primary key of `report_schedules`.
  abbrev pub HasUniqueIds : World → Type 0
  HasUniqueIds w = (k : Uuid) → count_p (λ r. r.id == k) (Table.rows S w.schedules) ≤ 1

  -- The requests, with Redis answering.
  pub data Request : Type 0 where
    creates : CreateSchedule → Uuid → ℕ → Request
    patches : Uuid → UpdateSchedule → ℕ → Request
    deletes : Uuid → Request
    runs : Uuid → Uuid → ℕ → Request

  unfoldable pub handle : Request → World → World
  handle (creates body id now) w = (create_schedule S R B uuid_text true body id now w).1
  handle (patches id body now) w = (patch_schedule S R B uuid_text true id body now w).1
  handle (deletes id) w = (delete_schedule S R B uuid_text true id w).1
  handle (runs id report now) w = (run_now S R B uuid_text true id report now w).1

  -- The id that the database draws for a new schedule is no other's.
  abbrev pub IsFresh : Request → World → Type 0
  IsFresh (creates body id now) w = count_p (λ r. r.id == id) (Table.rows S w.schedules) ≡ 0
  IsFresh (patches id body now) w = Unit
  IsFresh (deletes id) w = Unit
  IsFresh (runs id report now) w = Unit

  -- Is it an active schedule whose pattern is none?
  abbrev pub is_unparsed : Schedule → Bool
  is_unparsed r = r.is_active && not (Queue.parses B r.cron_expression)

  abbrev unparsed_if_found : Option Schedule → Bool
  unparsed_if_found none = false
  unparsed_if_found (some r) = is_unparsed r

  -- The schedule that the request leaves is not active or has a pattern that is one.
  abbrev pub IsParsed : Request → World → Type 0
  IsParsed (creates body id now) w = is_unparsed (new_schedule body id now) ≡ false
  IsParsed (patches id body now) w =
      unparsed_if_found
        (map_option (changed_schedule body now) (find_schedule S R B uuid_text id w))
      ≡ false
  IsParsed (deletes id) w = Unit
  IsParsed (runs id report now) w = Unit

  key_eq : (a b : Uuid) → text_eq (key a) (key b) ≡ (a == b)
  key_eq a b = uuid_text-distinct a b

  pub job_at-add_own :
      (id k : Uuid) (job : RepeatJob) (s : Queue.State B)
      → Queue.job_at B (key k) (Queue.add_repeatable B (key id) job s)
        ≡ (if k == id then some job else Queue.job_at B (key k) s)
  job_at-add_own id k job s = M.job_at-add_repeatable (key k) (key id) job s ∙ rw (key_eq k id) refl

  -- The rows and the queue behind a new schedule.
  unfoldable after_create : CreateSchedule → Uuid → ℕ → World → World
  after_create body id now w =
      let r = new_schedule body id now in
      record w {
        schedules = Table.insert S r w.schedules;
        queue =
            if body.is_active then Queue.add_repeatable B (key id) (job_of r) w.queue else w.queue;
      }
