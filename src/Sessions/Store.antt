-- ===== src/Sessions/Store.antt =====
-- The Redis keys of the sessions as tables of rows: a member of the set `user:sessions:<user>`,
-- the value of `session:data:<session>` and that of `session:activity:<session>`, each of the
-- latter with the time at which `SET … EX` lets it expire. Times are in milliseconds.
use mdm.Base.{ℕ, Bool, ◌&&◌, Option, List, map, ◌==◌, ltb, any, filter, find?, if◌then◌else◌}
use mdm.Base.Text.{Text}
use mdm.Base.Table.{Table, IsLawful}
use mdm.Schema.{Uuid}

pub record SessionMember : Type 0 where
  pub user : Uuid
  pub session : Uuid

pub record SessionData : Type 0 where
  pub session : Uuid
  pub created_at : ℕ
  pub ip : Text
  pub ip_binding : Bool
  pub expires_at : ℕ

pub record Activity : Type 0 where
  pub session : Uuid
  pub at : ℕ
  pub expires_at : ℕ

pub record SessionTables : Type 1 where
  pub members : Table SessionMember
  pub details : Table SessionData
  pub activity : Table Activity

pub record SessionTablesLaws (T : SessionTables) : Type 0 where
  pub members : IsLawful (SessionTables.members T)
  pub details : IsLawful (SessionTables.details T)
  pub activity : IsLawful (SessionTables.activity T)

pub record Store (T : SessionTables) : Type 0 where
  pub members : Table.State (SessionTables.members T)
  pub details : Table.State (SessionTables.details T)
  pub activity : Table.State (SessionTables.activity T)

abbrev pub is_session_of : Uuid → Uuid → SessionMember → Bool
is_session_of user session m = m.user == user && m.session == session

module _ (T : SessionTables) where
  -- `SISMEMBER`
  abbrev pub sismember : Uuid → Uuid → Store T → Bool
  sismember user session s =
      any (is_session_of user session) (Table.rows (SessionTables.members T) s.members)

  -- `SMEMBERS`
  abbrev pub smembers : Uuid → Store T → List Uuid
  smembers user s =
      map (λ m. m.session)
        (filter (λ m. m.user == user) (Table.rows (SessionTables.members T) s.members))

  -- `SADD`, which adds no second member of a name.
  abbrev pub sadd : Uuid → Uuid → Store T → Store T
  sadd user session s = if sismember user session s then s else record s {
    members =
        Table.insert (SessionTables.members T) (record { user = user; session = session })
          s.members;
  }

  -- `SREM`
  abbrev pub srem : Uuid → Uuid → Store T → Store T
  srem user session s = record s {
    members = Table.delete (SessionTables.members T) (is_session_of user session) s.members;
  }

  -- `GET` finds a key until it expires.
  abbrev pub get_data : Uuid → ℕ → Store T → Option SessionData
  get_data session now s =
      find? (λ d. d.session == session && ltb now d.expires_at)
        (Table.rows (SessionTables.details T) s.details)

  abbrev pub get_activity : Uuid → ℕ → Store T → Option Activity
  get_activity session now s =
      find? (λ a. a.session == session && ltb now a.expires_at)
        (Table.rows (SessionTables.activity T) s.activity)

  -- `SET` replaces what the key had.
  abbrev pub set_data : SessionData → Store T → Store T
  set_data d s = record s {
    details =
        Table.insert (SessionTables.details T) d
          (Table.delete (SessionTables.details T) (λ e. e.session == d.session) s.details);
  }

  abbrev pub set_activity : Activity → Store T → Store T
  set_activity a s = record s {
    activity =
        Table.insert (SessionTables.activity T) a
          (Table.delete (SessionTables.activity T) (λ b. b.session == a.session) s.activity);
  }
