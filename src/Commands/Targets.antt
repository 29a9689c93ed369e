-- ===== src/Commands/Targets.antt =====
-- The devices that commands are for.
use Prim.Native.String
use mathlib.Core.Path.{subst}
use mdm.Base.{
  ℕ, suc, ◌≡◌, refl, ap, sym, Bool, true, not, ◌&&◌, List, [], ◌∷◌, arith, ◌==◌, filter,
  any_of_find?, count_p, if_P, Result, Bool-cases, Option-cases, inl, inr,
}
use mdm.Base.Text.{Text}
use mdm.Base.Table.{Table, IsLawful, none-insert, none-update}
use mdm.DynamicGroups.Membership.{is_nil}
use mdm.Http.{Caller, Refusal}
use mdm.Schema.{Uuid, Device, Tables, Db}
use mdm.Commands.Service.{
  Command, BulkCommand, CommandDb, is_open, find_device, new_command, insert_command, send_command,
  find_command, cancelled_command, cancel_command, has_device, invalid_ids, bulk_rows,
  insert_commands, bulk_command,
}

module _ (T : Tables) (K : Table Command) (L : IsLawful K) (uuid_text : Uuid → Text)
    (listed : List Uuid → String.String) where
  -- Is the device of the command none of its organization's?
  abbrev pub is_misdirected : Db T → Command → Bool
  is_misdirected b c = not (has_device T K uuid_text listed c.org_id b c.device_id)

  abbrev pub misdirected : CommandDb T K uuid_text listed → ℕ
  misdirected w = count_p (is_misdirected w.base) (Table.rows K w.commands)

  send_command-misdirected :
      (org device : Uuid) (type payload : Text) (issued_by id : Uuid)
      (w : CommandDb T K uuid_text listed)
      → misdirected w ≡ 0
      → misdirected (send_command T K uuid_text listed org device type payload issued_by id w).1 ≡ 0
  unfolding send_command
  send_command-misdirected org device type payload issued_by id w h =
      elim (Option-cases (find_device T K uuid_text listed device org w.base)) [
        | inl e ↦ rw (e, send_command) h
        | inr (d, e) ↦
            let there =
              any_of_find? (λ (d : Device). d.id == device && d.org_id == org)
                (Table.rows (Tables.devices T) w.base.devices) d e in
            rw (e, send_command)
              (none-insert K L (is_misdirected w.base)
                (new_command T K uuid_text listed org device type payload issued_by id) w.commands
                (ap not there) h)
      ]

  cancel_command-misdirected :
      (id : Uuid) (caller : Caller) (w : CommandDb T K uuid_text listed)
      → misdirected w ≡ 0
      → misdirected (cancel_command T K uuid_text listed id caller w).1 ≡ 0
  unfolding cancel_command
  cancel_command-misdirected id caller w h =
      elim (Option-cases (find_command T K uuid_text listed id caller.org_id w)) [
        | inl e ↦ rw (e, cancel_command) h
        | inr (c, e) ↦
            rw (e, cancel_command)
              (if_P
                (λ (a : Result Refusal Command × CommandDb T K uuid_text listed).
                  misdirected a.1 ≡ 0)
                (not (is_open c.status)) _ _ h
                (none-update K L (is_misdirected w.base) (λ c. c.id == id)
                  (cancelled_command T K uuid_text listed) w.commands (λ c k. k) h))
      ]

  insert_commands-misdirected :
      (org : Uuid) (body : BulkCommand) (issued_by : Uuid) (new_id : ℕ → Uuid) (n : ℕ)
      (devices : List Uuid) (w : CommandDb T K uuid_text listed)
      → is_nil (filter (λ id. not (has_device T K uuid_text listed org w.base id)) devices) ≡ true
      → misdirected w ≡ 0
      → count_p (is_misdirected w.base) (
          Table.rows K
            (insert_commands T K uuid_text listed
              (bulk_rows T K uuid_text listed org body issued_by new_id n devices)
              w).commands)
        ≡ 0
  unfolding insert_commands
  insert_commands-misdirected org body issued_by new_id n [] w valid h = h
  insert_commands-misdirected org body issued_by new_id n (d ∷ ds) w valid h =
      elim (Bool-cases (has_device T K uuid_text listed org w.base d)) [
        | inr there ↦ ground arith
        | inl there ↦
            let c =
              new_command T K uuid_text listed org d body.type body.payload issued_by (new_id n) in
            insert_commands-misdirected org body issued_by new_id (suc n) ds
              (insert_command T K uuid_text listed c w) (ground arith)
              (none-insert K L (is_misdirected w.base) c w.commands (ap not there) h)
      ]

  base-insert_commands :
      (cs : List Command) (w : CommandDb T K uuid_text listed)
      → (insert_commands T K uuid_text listed cs w).base ≡ w.base
  unfolding insert_commands
  base-insert_commands [] w = refl
  base-insert_commands (c ∷ cs) w =
      base-insert_commands cs (insert_command T K uuid_text listed c w)

  bulk_command-misdirected :
      (body : BulkCommand) (caller : Caller) (new_id : ℕ → Uuid)
      (w : CommandDb T K uuid_text listed)
      → misdirected w ≡ 0
      → misdirected (bulk_command T K uuid_text listed body caller new_id w).1 ≡ 0
  unfolding bulk_command
  bulk_command-misdirected body caller new_id w h =
      let rows =
        bulk_rows T K uuid_text listed caller.org_id body caller.sub new_id 0 body.device_ids in
      elim (Bool-cases (is_nil (invalid_ids T K uuid_text listed caller.org_id body w.base))) [
        | inr invalid ↦ rw (invalid, bulk_command) h
        | inl valid ↦
            let inserted =
              insert_commands-misdirected caller.org_id body caller.sub new_id 0 body.device_ids w
                valid h in
            rw (valid, bulk_command)
              (subst
                (λ (b : Db T).
                  count_p (is_misdirected b)
                    (Table.rows K (insert_commands T K uuid_text listed rows w).commands)
                  ≡ 0)
                (sym (base-insert_commands rows w)) inserted)
      ]

  -- Where every command is for a device of its organization, every command still is behind a command
  -- sent to one device or to many and behind a cancellation, whatever these answer.
  pub commands-misdirected :
      (device id : Uuid) (type payload : Text) (body : BulkCommand) (caller : Caller)
      (new_id : ℕ → Uuid) (w : CommandDb T K uuid_text listed)
      → misdirected w ≡ 0
      → (misdirected
            (send_command T K uuid_text listed caller.org_id device type payload caller.sub id w).1
          ≡ 0)
        × (misdirected (bulk_command T K uuid_text listed body caller new_id w).1 ≡ 0)
        × (misdirected (cancel_command T K uuid_text listed id caller w).1 ≡ 0)
  commands-misdirected device id type payload body caller new_id w h = (
    send_command-misdirected caller.org_id device type payload caller.sub id w h,
    bulk_command-misdirected body caller new_id w h,
    cancel_command-misdirected id caller w h,
  )
