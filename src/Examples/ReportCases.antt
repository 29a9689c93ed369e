-- ===== src/Examples/ReportCases.antt =====
-- Reports: a queue kept as a function of keys, a schedule that is switched off, and a failed job.
use mdm.Base.{
  ◌≡◌, refl, true, false, not, ◌&&◌, Option, none, some, List, [], ◌∷◌, ◌++◌, arith, ◌==◌, opt_is,
  count_p, if◌then◌else◌, Result, err,
}
use mdm.Base.Text.{Text, codes, text_eq}
use mdm.Base.Table.{list_table, list_table-IsLawful}
use mdm.Schema.{Uuid}
use mdm.Reports.Queue.{RepeatJob, Queue, IsQueue}
use mdm.Reports.Schedules.{Schedule, Report, UpdateSchedule, job_of, ReportDb, load_schedules}
use mdm.Reports.Mirror.{patches, handle}
use mdm.Reports.Worker.{not_exported, work, process_report}
use mdm.Reports.Ended.{is_other, has_ended, work_lem}
use mdm.Examples.Fleet.{uuid_text}

abbrev keyed : Queue
keyed = record {
  State = Text → Option RepeatJob;
  job_at = λ k s. s k;
  parses = λ pattern. not (text_eq pattern (codes "x"));
  add_repeatable = λ k j s other. if text_eq other k then some j else s other;
  remove_repeatable = λ k s other. if text_eq other k then none else s other;
  add = λ j s. s;
}

keyed-IsQueue : IsQueue keyed
keyed-IsQueue = record {
  job_at-add_repeatable = λ k o j s. refl;
  job_at-remove_repeatable = λ k o s. refl;
  job_at-add = λ k j s. refl;
}

uuid_text-distinct : (a b : Uuid) → text_eq (uuid_text a) (uuid_text b) ≡ (a == b)
uuid_text-distinct a b = ground arith

abbrev weekly : Schedule
weekly = record {
  id = 4;
  org_id = 1;
  name = codes "Weekly";
  template_id = codes "devices";
  params = codes "{}";
  format = codes "pdf";
  cron_expression = codes "0 8 * * 1";
  recipients = codes "[]";
  is_active = true;
  last_run_at = none;
  updated_at = 0;
}

abbrev World : Type 0
World = ReportDb (list_table Schedule) (list_table Report) keyed uuid_text

abbrev empty_queue : Text → Option RepeatJob
empty_queue k = none

abbrev started : World
started = record { schedules = weekly ∷ []; reports = []; queue = empty_queue }

abbrev in_step : World
in_step = record started {
  queue = λ k. if text_eq k (codes "schedule:" ++ uuid_text 4) then some (job_of weekly) else none;
}

abbrev switch_off : UpdateSchedule
switch_off = record {
  name = none;
  template_id = none;
  params = none;
  format = none;
  cron_expression = none;
  recipients = none;
  is_active = some false;
}

abbrev patched_world : World
patched_world =
    handle (list_table Schedule) (list_table-IsLawful _) (list_table Report) keyed keyed-IsQueue
      uuid_text uuid_text-distinct (patches 4 switch_off 9) in_step

-- A start with a schedule whose pattern is none, before the weekly one: neither gets a job.
abbrev unparsed_first : World
unparsed_first = record started {
  schedules = record weekly { id = 3; cron_expression = codes "x" } ∷ weekly ∷ [];
}

nothing_loaded :
    load_schedules (list_table Schedule) (list_table Report) keyed uuid_text true unparsed_first
    ≡ (false, unparsed_first)
unfolding load_schedules
nothing_loaded = refl

abbrev queued : Report
queued = record {
  id = 8;
  template_id = codes "devices";
  org_id = 1;
  format = codes "pdf";
  filters = codes "{}";
  status = "queued";
  progress = 0;
  error = none;
  file_url = none;
  schedule_id = none;
}

abbrev failed : Result Text (Unit {0}) × List Report
failed =
    work (list_table Report) uuid_text (record { report_id = some 8; format = codes "pdf" })
      (not_exported (codes "disk")) (queued ∷ [])

failed_at_60 : failed ≡ (
  err (codes "disk"),
  record queued { status = "failed"; progress = 60; error = some (codes "disk") } ∷ [],
)
unfolding work process_report
failed_at_60 = refl

work_lem_example :
    (count_p
        (is_other (list_table Report) (list_table-IsLawful _) uuid_text (λ r. true) (some 8))
        failed.1
      ≡ count_p
          (is_other (list_table Report) (list_table-IsLawful _) uuid_text (λ r. true) (some 8))
          (queued ∷ []))
    × (count_p (λ r. opt_is (some 8) r.id && not (has_ended failed.0 r)) failed.1 ≡ 0)
work_lem_example =
    work_lem (list_table Report) (list_table-IsLawful _) uuid_text (λ r. true) (some 8)
      (codes "pdf") (not_exported (codes "disk")) (queued ∷ [])
