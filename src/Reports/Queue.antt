-- ===== src/Reports/Queue.antt =====
-- The queue `reports` of BullMQ, as services/report-service/src/services/scheduler.ts uses it: a
-- repeatable job under a key, and jobs that run once. BullMQ is not code of this repository, so the
-- queue is an interface with what its documentation says of a key.
use mdm.Base.{◌≡◌, Bool, Option, none, some, if◌then◌else◌}
use mdm.Base.Text.{Text, text_eq}
use mdm.Schema.{Uuid}

-- The job that `registerSchedule` adds: the data, and `repeat.pattern`.
pub record RepeatJob : Type 0 where
  pub schedule_id : Uuid
  pub template_id : Text
  pub org_id : Uuid
  pub format : Text
  pub params : Text
  pub recipients : Text
  pub pattern : Text

-- The job that `triggerNow` adds, under the id of its report.
pub record GenerateJob : Type 0 where
  pub report_id : Uuid
  pub template_id : Text
  pub org_id : Uuid
  pub format : Text
  pub params : Text
  pub recipients : Text
  pub schedule_id : Uuid

pub record Queue : Type 1 where
  pub State : Type 0
  -- The repeatable job under a key.
  pub job_at : Text → State → Option RepeatJob
  -- Whether the parser of cron patterns takes one; `add` with `repeat` throws where it does not.
  pub parses : Text → Bool
  -- `add` with `repeat`, `removeRepeatableByKey`, and `add` of a job that runs once.
  pub add_repeatable : Text → RepeatJob → State → State
  pub remove_repeatable : Text → State → State
  pub add : GenerateJob → State → State

pub record IsQueue (B : Queue) : Type 0 where
  pub job_at-add_repeatable :
      (key other : Text) (job : RepeatJob) (s : Queue.State B)
      → Queue.job_at B key (Queue.add_repeatable B other job s)
        ≡ (if text_eq key other then some job else Queue.job_at B key s)
  pub job_at-remove_repeatable :
      (key other : Text) (s : Queue.State B)
      → Queue.job_at B key (Queue.remove_repeatable B other s)
        ≡ (if text_eq key other then none else Queue.job_at B key s)
  pub job_at-add :
      (key : Text) (job : GenerateJob) (s : Queue.State B)
      → Queue.job_at B key (Queue.add B job s) ≡ Queue.job_at B key s
