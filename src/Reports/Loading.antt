-- ===== src/Reports/Loading.antt =====
-- `loadSchedules`: the queue behind a start of the service.
use mdm.Base.{◌≡◌, Bool, Option, none, some, List, ◌==◌, find?}
use mdm.Base.Text.{Text, text_eq}
use mdm.Base.Table.{Table, IsLawful, map_option}
use mdm.Schema.{Uuid}
use mdm.Reports.Queue.{RepeatJob, Queue, IsQueue}
use mdm.Reports.Schedules.{Schedule, Report, job_of}
use mdm.Reports.Mirror.{key}

abbrev is_active : Schedule → Bool
is_active r = r.is_active

abbrev first_of : Option RepeatJob → Option RepeatJob → Option RepeatJob
first_of none o = o
first_of (some j) o = some j

abbrev job_in : Uuid → List Schedule → Option RepeatJob
job_in k rows = map_option job_of (find? (λ r. r.id == k) rows)

module _ (S : Table Schedule) (L : IsLawful S) (R : Table Report) (B : Queue) (M : IsQueue B)
    (uuid_text : Uuid → Text)
    (uuid_text-distinct : (a b : Uuid) → text_eq (uuid_text a) (uuid_text b) ≡ (a == b)) where
  abbrev at_key : Uuid → Queue.State B → Option RepeatJob
  at_key k s = Queue.job_at B (key S L R B M uuid_text uuid_text-distinct k) s
