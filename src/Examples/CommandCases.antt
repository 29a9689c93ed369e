-- ===== src/Examples/CommandCases.antt =====
-- Commands: a device is locked, two more at once, and a cancellation.
use Prim.Native.String
use mdm.Base.{ℕ, ◌≡◌, ◌+◌, refl, List, [], ◌∷◌}
use mdm.Base.Text.{codes}
use mdm.Base.Table.{Table, list_table, list_table-IsLawful}
use mdm.Http.{refuse}
use mdm.Schema.{Uuid}
use mdm.Commands.Service.{
  Command, BulkCommand, CommandDb, delivered, send_command, cancel_command, bulk_command,
}
use mdm.Commands.Targets.{misdirected, commands-misdirected}
use mdm.Examples.Fleet.{tables, uuid_text, caller, fleet}

abbrev commands : Table Command
commands = list_table Command

abbrev listed : List Uuid → String.String
listed ids = "9"

abbrev locked : Command
locked = record {
  id = 100;
  org_id = 1;
  device_id = 1;
  type = codes "lock";
  payload = codes "{}";
  issued_by = 30;
  status = delivered;
}

abbrev with_command : CommandDb tables commands uuid_text listed
with_command = record { base = fleet; commands = locked ∷ [] }

abbrev two_devices : BulkCommand
two_devices = record { type = codes "reboot"; payload = codes "{}"; device_ids = 2 ∷ 3 ∷ [] }

abbrev draw : ℕ → Uuid
draw n = 200 + n

commands-misdirected_example :
    (misdirected tables commands
        (list_table-IsLawful _)
        uuid_text
        listed
        (send_command tables commands uuid_text listed 1 3
          (codes "wipe")
          (codes "{}")
          30
          100
          with_command).1
      ≡ 0)
    × (misdirected tables commands
          (list_table-IsLawful _)
          uuid_text
          listed
          (bulk_command tables commands uuid_text listed two_devices caller draw with_command).1
        ≡ 0)
    × (misdirected tables commands
          (list_table-IsLawful _)
          uuid_text
          listed
          (cancel_command tables commands uuid_text listed 100 caller with_command).1
        ≡ 0)
commands-misdirected_example =
    commands-misdirected tables commands (list_table-IsLawful _) uuid_text listed 3 100
      (codes "wipe") (codes "{}") two_devices caller draw with_command refl

delivered_stays :
    cancel_command tables commands uuid_text listed 100 caller with_command
    ≡ (refuse 409 "Cannot cancel command in delivered status", with_command)
unfolding cancel_command
delivered_stays = refl

unknown_device :
    (bulk_command tables commands uuid_text listed
      (record two_devices { device_ids = 2 ∷ 9 ∷ [] })
      caller
      draw
      with_command).0
    ≡ refuse 400 "Devices not found: 9"
unfolding bulk_command
unknown_device = refl
