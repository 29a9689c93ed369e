-- ===== src/Commands/Service.antt =====
-- Sending and cancelling. The bodies have passed their Zod schemas, a payload is its JSON text,
-- `uuid_text` writes an id, and `listed` ids with commas between.
use Prim.Native.String
use mdm.Base.{
  ℕ, suc, Bool, true, false, not, ◌&&◌, Option, none, some, List, [], ◌∷◌, ◌==◌, length, filter,
  find?, any, if◌then◌else◌, Result, ok,
}
use mdm.Base.Text.{Text}
use mdm.Base.Table.{Table}
use mdm.DynamicGroups.Membership.{log, is_nil}
use mdm.Http.{Caller, Refusal, refuse}
use mdm.Schema.{Uuid, number, string, Device, AuditLog, Tables, Db}

-- commandStatusEnum
pub data CommandStatus : Type 0 where
  pending queued delivered acknowledged completed failed cancelled : CommandStatus

-- commands
pub record Command : Type 0 where
  pub id : Uuid
  pub org_id : Uuid
  pub device_id : Uuid
  pub type : Text
  pub payload : Text
  pub issued_by : Uuid
  pub status : CommandStatus

-- bulkCommandSchema
pub record BulkCommand : Type 0 where
  pub type : Text
  pub payload : Text
  pub device_ids : List Uuid

abbrev pub status_name : CommandStatus → String.String
status_name pending = "pending"
status_name queued = "queued"
status_name delivered = "delivered"
status_name acknowledged = "acknowledged"
status_name completed = "completed"
status_name failed = "failed"
status_name cancelled = "cancelled"

abbrev pub is_open : CommandStatus → Bool
is_open pending = true
is_open queued = true
is_open _ = false

module _ (T : Tables) (K : Table Command) (uuid_text : Uuid → Text)
    (listed : List Uuid → String.String) where
  -- The tables and that of the commands.
  pub record CommandDb : Type 0 where
    pub base : Db T
    pub commands : Table.State K

  abbrev pub find_device : Uuid → Uuid → Db T → Option Device
  find_device id org w =
      find? (λ d. d.id == id && d.org_id == org) (Table.rows (Tables.devices T) w.devices)

  abbrev pub new_command : Uuid → Uuid → Text → Text → Uuid → Uuid → Command
  new_command org device type payload issued_by id = record {
    id = id;
    org_id = org;
    device_id = device;
    type = type;
    payload = payload;
    issued_by = issued_by;
    status = pending;
  }

  abbrev pub insert_command : Command → CommandDb → CommandDb
  insert_command c w = record w { commands = Table.insert K c w.commands }

  abbrev pub write_log : AuditLog → CommandDb → CommandDb
  write_log entry w = record w { base = log T entry w.base }

  -- `DeviceService.sendCommand`, with the id that the database draws.
  unfoldable pub send_command :
      Uuid → Uuid → Text → Text → Uuid → Uuid → CommandDb → Result Refusal Command × CommandDb
  send_command org device type payload issued_by id w = elim (find_device device org w.base) [
    | none ↦ (refuse 404 "Device not found", w)
    | some d ↦
        let command = new_command org device type payload issued_by id in
        (
          ok command,
          write_log
              (record {
                org_id = org;
                user_id = some issued_by;
                action = "command.sent";
                resource = "device";
                resource_id = some device;
                details = ("commandId", string (uuid_text id)) ∷ ("type", string type) ∷ [];
              })
              (insert_command command w),
        )
  ]

  abbrev pub find_command : Uuid → Uuid → CommandDb → Option Command
  find_command id org w = find? (λ c. c.id == id && c.org_id == org) (Table.rows K w.commands)

  abbrev pub cannot_cancel : CommandStatus → String.String
  cannot_cancel status =
      String.◌++◌ "Cannot cancel command in " (String.◌++◌ (status_name status) " status")

  abbrev pub cancelled_command : Command → Command
  cancelled_command c = record c { status = cancelled }

  abbrev pub set_cancelled : Uuid → CommandDb → CommandDb
  set_cancelled id w = record w {
    commands = Table.update K (λ c. c.id == id) cancelled_command w.commands;
  }

  -- `POST /:id/cancel`
  unfoldable pub cancel_command : Uuid → Caller → CommandDb → Result Refusal Command × CommandDb
  cancel_command id caller w = elim (find_command id caller.org_id w) [
    | none ↦ (refuse 404 "Command not found", w)
    | some c ↦ if not (is_open c.status) then (refuse 409 (cannot_cancel c.status), w) else (
      ok (cancelled_command c),
      write_log
          (record {
            org_id = caller.org_id;
            user_id = some caller.sub;
            action = "command.cancelled";
            resource = "command";
            resource_id = some id;
            details = [];
          })
          (set_cancelled id w),
    )
  ]

  -- `orgDeviceIds.has(id)`
  abbrev pub has_device : Uuid → Db T → Uuid → Bool
  has_device org w id =
      any (λ d. d.id == id && d.org_id == org) (Table.rows (Tables.devices T) w.devices)

  abbrev pub invalid_ids : Uuid → BulkCommand → Db T → List Uuid
  invalid_ids org body w = filter (λ id. not (has_device org w id)) body.device_ids

  -- The rows of the statement, with the ids that the database draws for them.
  abbrev pub bulk_rows : Uuid → BulkCommand → Uuid → (ℕ → Uuid) → ℕ → List Uuid → List Command
  bulk_rows org body issued_by new_id n [] = []
  bulk_rows org body issued_by new_id n (device ∷ devices) =
      new_command org device body.type body.payload issued_by (new_id n)
      ∷ bulk_rows org body issued_by new_id (suc n) devices

  unfoldable pub insert_commands : List Command → CommandDb → CommandDb
  insert_commands [] w = w
  insert_commands (c ∷ cs) w = insert_commands cs (insert_command c w)

  -- `POST /bulk`
  unfoldable pub bulk_command :
      BulkCommand → Caller → (ℕ → Uuid) → CommandDb → Result Refusal (List Command) × CommandDb
  unfolding insert_commands
  bulk_command body caller new_id w =
      let rows = bulk_rows caller.org_id body caller.sub new_id 0 body.device_ids in
      if is_nil (invalid_ids caller.org_id body w.base)
      then (
        ok rows,
        write_log
            (record {
              org_id = caller.org_id;
              user_id = some caller.sub;
              action = "command.bulk_sent";
              resource = "command";
              resource_id = none;
              details =
                  ("type", string body.type) ∷ ("count", number (length body.device_ids)) ∷ [];
            })
            (insert_commands rows w),
      )
      else (
        refuse 400
            (String.◌++◌ "Devices not found: " (listed (invalid_ids caller.org_id body w.base))),
        w,
      )
