-- ===== src/Reports/Schedules.antt =====
-- services/report-service/src/services/scheduler.ts and routes/schedules.ts. The bodies have passed
-- their Zod schemas; `params` and `recipients` are JSON texts, which `parseJson` only reads back.
-- An id that the database draws, the time, and whether Redis answers are arguments.
use mdm.Base.{
  ℕ, String, Bool, true, false, ◌&&◌, Option, none, some, List, [], ◌∷◌, ◌++◌, ◌==◌, filter, find?,
  get_or, if◌then◌else◌, Result, ok,
}
use mdm.Base.Text.{Text, codes}
use mdm.Base.Table.{Table}
use mdm.Http.{Refusal, refuse, unexpected}
use mdm.Schema.{Uuid}
use mdm.Reports.Queue.{RepeatJob, GenerateJob, Queue}

-- `ScheduleRecord`, the rows of `report_schedules`
pub record Schedule : Type 0 where
  pub id : Uuid
  pub org_id : Uuid
  pub name : Text
  pub template_id : Text
  pub params : Text
  pub format : Text
  pub cron_expression : Text
  pub recipients : Text
  pub is_active : Bool
  pub last_run_at : Option ℕ
  pub updated_at : ℕ

-- The rows of `reports`
pub record Report : Type 0 where
  pub id : Uuid
  pub template_id : Text
  pub org_id : Uuid
  pub format : Text
  pub filters : Text
  pub status : String
  pub progress : ℕ
  pub error : Option Text
  pub file_url : Option Text
  pub schedule_id : Option Uuid

-- createScheduleSchema
pub record CreateSchedule : Type 0 where
  pub org_id : Uuid
  pub name : Text
  pub template_id : Text
  pub params : Option Text
  pub format : Text
  pub cron_expression : Text
  pub recipients : Text
  pub is_active : Bool

-- updateScheduleSchema
pub record UpdateSchedule : Type 0 where
  pub name : Option Text
  pub template_id : Option Text
  pub params : Option Text
  pub format : Option Text
  pub cron_expression : Option Text
  pub recipients : Option Text
  pub is_active : Option Bool

abbrev pub job_of : Schedule → RepeatJob
job_of r = record {
  schedule_id = r.id;
  template_id = r.template_id;
  org_id = r.org_id;
  format = r.format;
  params = r.params;
  recipients = r.recipients;
  pattern = r.cron_expression;
}

abbrev pub new_schedule : CreateSchedule → Uuid → ℕ → Schedule
new_schedule body id now = record {
  id = id;
  org_id = body.org_id;
  name = body.name;
  template_id = body.template_id;
  params = get_or body.params (codes "{}");
  format = body.format;
  cron_expression = body.cron_expression;
  recipients = body.recipients;
  is_active = body.is_active;
  last_run_at = none;
  updated_at = now;
}

-- `SET …`, with the columns that the body gives
abbrev pub changed_schedule : UpdateSchedule → ℕ → Schedule → Schedule
changed_schedule body now r = record r {
  name = get_or body.name r.name;
  template_id = get_or body.template_id r.template_id;
  params = get_or body.params r.params;
  format = get_or body.format r.format;
  cron_expression = get_or body.cron_expression r.cron_expression;
  recipients = get_or body.recipients r.recipients;
  is_active = get_or body.is_active r.is_active;
  updated_at = now;
}

module _ (S : Table Schedule) (R : Table Report) (B : Queue) (uuid_text : Uuid → Text) where
  pub record ReportDb : Type 0 where
    pub schedules : Table.State S
    pub reports : Table.State R
    pub queue : Queue.State B

  -- `schedule:${id}`
  abbrev pub schedule_key : Uuid → Text
  schedule_key id = codes "schedule:" ++ uuid_text id

  -- `registerSchedule`: whether it returns, and the queue then. `queue.add` throws where Redis does
  -- not answer or the pattern is not one.
  abbrev pub register_schedule : Bool → Schedule → Queue.State B → Bool × Queue.State B
  register_schedule up r s =
      if up && Queue.parses B r.cron_expression
      then (true, Queue.add_repeatable B (schedule_key r.id) (job_of r) s)
      else (false, s)

  -- `removeSchedule`, which ignores an error.
  abbrev pub remove_schedule : Bool → Uuid → Queue.State B → Queue.State B
  remove_schedule false id s = s
  remove_schedule true id s = Queue.remove_repeatable B (schedule_key id) s

  -- `updateSchedule`; where it throws, the old job is gone.
  abbrev pub update_schedule : Bool → Schedule → Queue.State B → Bool × Queue.State B
  update_schedule up r s =
      let removed = remove_schedule up r.id s in
      if r.is_active then register_schedule up r removed else (true, removed)

  -- The loop of `loadSchedules` over the active rows, which an exception leaves.
  abbrev pub register_all : Bool → List Schedule → Queue.State B → Bool × Queue.State B
  register_all up [] s = (true, s)
  register_all up (r ∷ rs) s =
      let registered = register_schedule up r s in
      let rest = register_all up rs registered.1 in if registered.0 then rest else registered

  unfoldable pub load_schedules : Bool → ReportDb → Bool × ReportDb
  load_schedules up w =
      let loaded = register_all up (filter (λ r. r.is_active) (Table.rows S w.schedules)) w.queue in
      (loaded.0, record w { queue = loaded.1 })

  abbrev pub find_schedule : Uuid → ReportDb → Option Schedule
  find_schedule id w = find? (λ r. r.id == id) (Table.rows S w.schedules)

  abbrev pub with_queue :
      {A : Type 0} → A → Bool × Queue.State B → ReportDb → Result Refusal A × ReportDb
  with_queue a s w = (if s.0 then ok a else unexpected, record w { queue = s.1 })

  -- `POST /`
  unfoldable pub create_schedule :
      Bool → CreateSchedule → Uuid → ℕ → ReportDb → Result Refusal Schedule × ReportDb
  create_schedule up body id now w =
      let schedule = new_schedule body id now in
      let inserted = record w { schedules = Table.insert S schedule w.schedules } in
      with_queue schedule
        (if schedule.is_active then register_schedule up schedule w.queue else (true, w.queue))
        inserted

  -- `PATCH /:id`; the row that `RETURNING` gives is the one with the id, changed.
  unfoldable pub patch_schedule :
      Bool → Uuid → UpdateSchedule → ℕ → ReportDb → Result Refusal Schedule × ReportDb
  patch_schedule up id body now w =
      let change = changed_schedule body now in
      let updated = record w { schedules = Table.update S (λ r. r.id == id) change w.schedules } in
      elim (find_schedule id w) [
        | none ↦ (refuse 404 "Schedule not found", updated)
        | some r ↦ with_queue (change r) (update_schedule up (change r) w.queue) updated
      ]

  -- `DELETE /:id`
  unfoldable pub delete_schedule : Bool → Uuid → ReportDb → Result Refusal Uuid × ReportDb
  delete_schedule up id w =
      let deleted = record w { schedules = Table.delete S (λ r. r.id == id) w.schedules } in
      elim (find_schedule id w) [
        | none ↦ (refuse 404 "Schedule not found", deleted)
        | some r ↦ (ok id, record deleted { queue = remove_schedule up id w.queue })
      ]

  abbrev pub new_report : Schedule → Uuid → Report
  new_report r id = record {
    id = id;
    template_id = r.template_id;
    org_id = r.org_id;
    format = r.format;
    filters = r.params;
    status = "queued";
    progress = 0;
    error = none;
    file_url = none;
    schedule_id = some r.id;
  }

  abbrev pub generate_job : Schedule → Uuid → GenerateJob
  generate_job r id = record {
    report_id = id;
    template_id = r.template_id;
    org_id = r.org_id;
    format = r.format;
    params = r.params;
    recipients = r.recipients;
    schedule_id = r.id;
  }

  abbrev pub stamp : ℕ → Schedule → Schedule
  stamp now r = record r { last_run_at = some now; updated_at = now }

  -- `triggerNow`; where the queue throws, the report that was inserted stays.
  unfoldable pub trigger_now :
      Bool → Schedule → Uuid → ℕ → ReportDb → Result Refusal Uuid × ReportDb
  trigger_now false r id now w =
      (unexpected, record w { reports = Table.insert R (new_report r id) w.reports })
  trigger_now true r id now w = (
    ok id,
    record w {
      reports = Table.insert R (new_report r id) w.reports;
      queue = Queue.add B (generate_job r id) w.queue;
      schedules = Table.update S (λ s. s.id == r.id) (stamp now) w.schedules;
    },
  )

  -- `POST /:id/run-now`
  unfoldable pub run_now : Bool → Uuid → Uuid → ℕ → ReportDb → Result Refusal Uuid × ReportDb
  unfolding trigger_now
  run_now up id report_id now w = elim (find_schedule id w) [
    | none ↦ (refuse 404 "Schedule not found", w)
    | some r ↦ trigger_now up r report_id now w
  ]
