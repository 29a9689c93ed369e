-- ===== src/Sessions/Checks.antt =====
-- The functions. How far Redis answers is an argument: each function catches the exception of the
-- first command that fails, and keeps what its commands before have written.
use mdm.Base.{
  ℕ, Bool, true, false, not, ◌&&◌, Option, none, some, List, [], ◌∷◌, ◌+◌, ◌-◌, ◌==◌, ltb, leb,
  length, if◌then◌else◌,
}
use mdm.Base.Text.{Text, text_eq}
use mdm.Base.Table.{Table}
use mdm.Schema.{Uuid}
use mdm.Sessions.Store.{
  SessionData, Activity, SessionTables, Store, sismember, smembers, sadd, srem, get_data,
  get_activity, set_data, set_activity,
}

abbrev pub default_max_concurrent_sessions : ℕ
default_max_concurrent_sessions = 5

abbrev pub idle_timeout_ms : ℕ
idle_timeout_ms = 1800000

abbrev pub absolute_timeout_ms : ℕ
absolute_timeout_ms = 86400000

-- Why a session is refused.
pub data SessionRefusal : Type 0 where
  revoked inactive too_old ip_mismatch : SessionRefusal

-- How many commands of a revocation Redis answers: `SREM` and the two `DEL`.
pub data Revoking : Type 0 where
  no_command one_command two_commands every_command : Revoking

-- How far Redis answers a call: whether it answers the reads, how much of the revocation in the
-- call, and how many of the writes behind that.
pub record Answers : Type 0 where
  pub reads : Bool
  pub revoking : Revoking
  pub writes : ℕ

abbrev pub all_answered : Answers
all_answered = record { reads = true; revoking = every_command; writes = 3 }

module _ (T : SessionTables) where
  abbrev pub del_activity : Uuid → Store T → Store T
  del_activity session s = record s {
    activity = Table.delete (SessionTables.activity T) (λ a. a.session == session) s.activity;
  }

  abbrev pub del_data : Uuid → Store T → Store T
  del_data session s = record s {
    details = Table.delete (SessionTables.details T) (λ d. d.session == session) s.details;
  }

  unfoldable pub revoke_session : Revoking → Uuid → Uuid → Store T → Store T
  revoke_session no_command user session s = s
  revoke_session one_command user session s = srem T user session s
  revoke_session two_commands user session s = del_activity session (srem T user session s)
  revoke_session every_command user session s =
      del_data session (del_activity session (srem T user session s))

  abbrev pub is_idle : ℕ → Option Activity → Bool
  is_idle now none = false
  is_idle now (some a) = ltb idle_timeout_ms (now - a.at)

  abbrev pub is_too_old : ℕ → Option SessionData → Bool
  is_too_old now none = false
  is_too_old now (some d) = ltb absolute_timeout_ms (now - d.created_at)

  abbrev pub ip_differs : Text → Option SessionData → Bool
  ip_differs ip none = false
  ip_differs ip (some d) = d.ip_binding && not (text_eq d.ip ip)

  -- The checks of a session of the user.
  unfoldable pub check_session :
      Revoking → Uuid → Uuid → Text → ℕ → Store T → Option SessionRefusal × Store T
  unfolding revoke_session
  check_session heard user session ip now s =
      if not (sismember T user session s)
      then (some revoked, s)
      else if is_idle now (get_activity T session now s)
      then (some inactive, revoke_session heard user session s)
      else if is_too_old now (get_data T session now s)
      then (some too_old, revoke_session heard user session s)
      else if ip_differs ip (get_data T session now s)
      then (some ip_mismatch, s)
      else (
        none,
        set_activity T (record { session = session; at = now; expires_at = now + idle_timeout_ms })
            s,
      )

  -- The claim `jti` of the token is the session, if it has one.
  unfoldable pub validate_session :
      Answers → Uuid → Option Uuid → Text → ℕ → Store T → Option SessionRefusal × Store T
  validate_session answers user none ip now s = (none, s)
  validate_session answers user (some session) ip now s =
      if answers.reads then check_session answers.revoking user session ip now s else (none, s)

  abbrev pub is_older : ℕ → Option ℕ → Bool
  is_older t none = true
  is_older t (some best) = ltb t best

  -- The loop for the oldest session, with the best time and session so far.
  unfoldable pub oldest_session : List Uuid → ℕ → Store T → Option ℕ → Option Uuid → Option Uuid
  oldest_session [] now s best oldest = oldest
  oldest_session (session ∷ sessions) now s best oldest = elim (get_data T session now s) [
    | none ↦ some session
    | some d ↦
        if is_older d.created_at best
        then oldest_session sessions now s (some d.created_at) (some session)
        else oldest_session sessions now s best oldest
  ]

  abbrev pub revoke_found : Revoking → Uuid → Option Uuid → Store T → Store T
  revoke_found heard user none s = s
  revoke_found heard user (some session) s = revoke_session heard user session s

  -- `if (currentCount >= maxSessions)`: the oldest session makes room.
  unfoldable pub make_room : Revoking → Uuid → ℕ → ℕ → Store T → Store T
  unfolding revoke_session
  make_room heard user max_sessions now s =
      if leb max_sessions (length (smembers T user s))
      then revoke_found heard user (oldest_session (smembers T user s) now s none none) s
      else s

  -- The writes of a new session, of which so many are answered.
  abbrev pub write_session : ℕ → Uuid → Uuid → Text → Bool → ℕ → Store T → Store T
  write_session writes user session ip ip_binding now s =
      let added = sadd T user session s in
      let with_data =
        set_data T
          (record {
            session = session;
            created_at = now;
            ip = ip;
            ip_binding = ip_binding;
            expires_at = now + absolute_timeout_ms;
          })
          added in
      if leb 3 writes
      then set_activity T
          (record { session = session; at = now; expires_at = now + idle_timeout_ms }) with_data
      else if leb 2 writes
      then with_data
      else if leb 1 writes
      then added
      else s

  unfoldable pub register_session : Answers → Uuid → Uuid → Text → Bool → ℕ → ℕ → Store T → Store T
  unfolding make_room
  register_session answers user session ip ip_binding max_sessions now s =
      if answers.reads
      then write_session answers.writes user session ip ip_binding now
          (make_room answers.revoking user max_sessions now s)
      else s

  -- How much of each session's revocation Redis answers is given.
  unfoldable pub revoke_sessions : (Uuid → Revoking) → Uuid → List Uuid → Store T → Store T
  unfolding revoke_session
  revoke_sessions heard user [] s = s
  revoke_sessions heard user (session ∷ sessions) s =
      revoke_sessions heard user sessions (revoke_session (heard session) user session s)

  unfoldable pub revoke_all_sessions : Bool → (Uuid → Revoking) → Uuid → Store T → Store T
  unfolding revoke_sessions
  revoke_all_sessions online heard user s =
      if online then revoke_sessions heard user (smembers T user s) s else s
