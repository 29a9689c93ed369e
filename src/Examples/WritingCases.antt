-- ===== src/Examples/WritingCases.antt =====
-- The audit log's batches, the subscriber's runs and the partitions at the end of a year.
use mdm.Base.{
  ℕ, ◌≡◌, refl, ◌+◌, ◌*◌, ◌&&◌, true, false, none, some, List, [], ◌∷◌, ◌++◌, map, arith, leb,
  length, all, count_p, if◌then◌else◌,
}
use mdm.Base.Text.{Text, codes}
use mdm.Audit.Writing.{
  AuditWriteEntry, row_from, values_of, fill_row, insert_logs, add_entry, batch_of, write_each,
  batch_write_audit_entries,
}
use mdm.Audit.Rows.{log_row, has_org}
use mdm.Audit.Batches.{batch_write_audit_entries_lem}
use mdm.Audit.Subscriber.{
  split, map_subject_to_resource_type, Event, determine_actor_type, entry_of, Subscriber, start,
  receive, fire, failed, lost, settle,
}
use mdm.Audit.Delivery.{
  Step, message, timer, timer_end, Run, done, next, selects, selects_row, held,
  subscriber_runs_account,
}
use mdm.Audit.Idle.{IsUnarmed, runs_after_fire}
use mdm.Audit.Partitions.{
  Month, Partition, date_of, index, contains, overlaps, padded, partition_name, create_partition,
  current_partition, next_partition, ensure_monthly_partition,
}
use mdm.Audit.Coverage.{AtMostOne, misnamed, ensure_monthly_partition_lem}

abbrev enrolled : Event
enrolled = record {
  org_id = some (codes "1");
  actor = none;
  user_email = none;
  actor_type = some [];
  user_id = none;
  device_id = some (codes "7");
  action = none;
  resource_type = none;
  resource_id = some (codes "7");
  ip_address = none;
  whole = codes "{}";
}

abbrev subject : Text
subject = codes "mdm.device.enrolled"

abbrev named_entry : AuditWriteEntry
named_entry = record {
  org_id = some (codes "1");
  actor = codes "system";
  actor_type = codes "device";
  action = codes "mdm.device.enrolled";
  resource_type = codes "device";
  resource_id = codes "7";
  detail = some (codes "{}");
  ip_address = none;
}

abbrev nameless_entry : AuditWriteEntry
nameless_entry = record named_entry { org_id = none }

enrolled_entry : entry_of subject enrolled ≡ named_entry
unfolding entry_of split map_subject_to_resource_type determine_actor_type
enrolled_entry = refl

abbrev mixed : List AuditWriteEntry
mixed = named_entry ∷ nameless_entry ∷ []

-- One entry without an organization, and nothing is written.
mixed_refused : batch_write_audit_entries 65535 9 mixed [] ≡ none
unfolding batch_write_audit_entries batch_of add_entry row_from values_of insert_logs fill_row
mixed_refused = refl

batch_write_audit_entries_lem_example :
    (batch_write_audit_entries 65535 9 mixed [] ≡ (
      if leb (8 * length mixed) 65535 && all has_org mixed
      then some ([] ++ map (log_row 9) mixed)
      else none))
    × (write_each 65535 9 mixed []
        ≡ (if all has_org mixed then some ([] ++ map (log_row 9) mixed) else none))
batch_write_audit_entries_lem_example = batch_write_audit_entries_lem 65535 9 mixed [] (omega arith)

-- A message, the timer, and a statement whose answer is lost.
abbrev received : Subscriber
received = record (start []) { buffer = named_entry ∷ [] }

abbrev fired : Subscriber
fired = record (start []) { in_flight = (named_entry ∷ []) ∷ []; armed = false }

first_step : Step 65535 (start []) (named_entry ∷ []) [] received
unfolding receive
first_step = message named_entry refl

second_step : Step 65535 received [] [] fired
unfolding fire
second_step = timer refl

abbrev ended : Subscriber
ended = settle 65535 9 lost (named_entry ∷ []) (record fired { in_flight = [] })

third_step : Step 65535 fired [] (named_entry ∷ []) ended
third_step = timer_end 9 lost [] [] (named_entry ∷ []) refl

lost_run : Run 65535 (start []) (named_entry ∷ []) (named_entry ∷ []) ended
lost_run = next first_step (next second_step (next third_step done))

subscriber_runs_account_example :
    held 65535 (λ r. true) ended
    ≡ count_p (selects_row 65535 (λ r. true)) []
      + (count_p (selects 65535 (λ r. true)) (named_entry ∷ [])
          + count_p (selects 65535 (λ r. true)) (named_entry ∷ []))
subscriber_runs_account_example =
    subscriber_runs_account 65535 (λ r. true) [] ended (named_entry ∷ []) (named_entry ∷ [])
      (omega arith) lost_run

-- Another event behind the timer's flush, whose statement then fails.
abbrev alone : Subscriber
alone = receive (some named_entry) fired

abbrev came_back : Subscriber
came_back = settle 65535 9 failed (named_entry ∷ []) (record alone { in_flight = [] })

failed_run : Run 65535 (fire received) (named_entry ∷ []) [] came_back
unfolding receive fire
failed_run =
    next (message named_entry refl) (next (timer_end 9 failed [] [] (named_entry ∷ []) refl) done)

runs_after_fire_example : IsUnarmed 1 (named_entry ∷ []) came_back
unfolding receive
runs_after_fire_example =
    runs_after_fire 65535 received came_back (named_entry ∷ []) [] failed_run refl (omega arith)

-- December, where the partition of November is there.
abbrev december : Month
december = record { year = 2026; month = 11 }

abbrev print : ℕ → Text
print n = codes "2026"

abbrev november : Partition
november = record {
  name = codes "audit_logs_2026_11";
  start = record { year = 2026; month = 10 };
  end = december;
}

november-AtMostOne : AtMostOne (november ∷ [])
unfolding contains index
november-AtMostOne i = ground arith

two_partitions : length (ensure_monthly_partition print december (november ∷ [])) ≡ 3
unfolding ensure_monthly_partition create_partition current_partition next_partition partition_name
    padded overlaps index date_of
two_partitions = refl

current_is_new :
    count_p
      (λ p. misnamed (current_partition print december).name (index december) p)
      (november ∷ [])
    ≡ 0
unfolding current_partition partition_name padded index contains
current_is_new = refl

next_is_new :
    count_p
      (λ p. misnamed (next_partition print december).name (index december + 1) p)
      (november ∷ [])
    ≡ 0
unfolding next_partition partition_name padded index contains date_of
next_is_new = refl

ensure_monthly_partition_lem_example :
    AtMostOne (ensure_monthly_partition print december (november ∷ []))
    × (count_p (contains (index december)) (ensure_monthly_partition print december (november ∷ []))
        ≡ 1)
    × (count_p
          (contains (index december + 1))
          (ensure_monthly_partition print december (november ∷ []))
        ≡ 1)
ensure_monthly_partition_lem_example =
    ensure_monthly_partition_lem print december (november ∷ []) november-AtMostOne (omega arith)
      current_is_new next_is_new
