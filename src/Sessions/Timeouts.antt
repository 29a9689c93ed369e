-- ===== src/Sessions/Timeouts.antt =====
-- What `validateSession` answers, against the times at which Redis lets the keys of a session expire.
use mdm.Base.{
  leb, ℕ, ◌≡◌, Bool, false, not, ◌&&◌, Option, none, some, arith, ◌+◌, ◌==◌, ltb, find?-test,
  find?-not_count, count_p, if◌then◌else◌, if_P, Option-cases, inl, inr,
}
use mdm.Base.Text.{Text}
use mdm.Base.Table.{Table, none-insert, none-delete}
use mdm.Schema.{Uuid}
use mdm.Sessions.Store.{
  SessionData, Activity, SessionTables, SessionTablesLaws, Store, sismember, smembers, get_data,
  get_activity, set_activity, set_data, sadd,
}
use mdm.Sessions.Checks.{
  idle_timeout_ms, absolute_timeout_ms, SessionRefusal, revoked, ip_mismatch, is_idle, is_too_old,
  ip_differs, Revoking, no_command, one_command, two_commands, every_command, Answers, all_answered,
  del_activity, write_session, revoke_session, revoke_found, oldest_session, make_room,
  check_session, validate_session, register_session,
}

abbrev outlives : Activity → Bool
outlives a = not (a.expires_at == a.at + idle_timeout_ms)

abbrev data_outlives : SessionData → Bool
data_outlives d = not (d.expires_at == d.created_at + absolute_timeout_ms)

module _ (T : SessionTables) where
  -- Each key expires one timeout after the time that it holds.
  pub record IsTimed (s : Store T) : Type 0 where
    pub activity : count_p outlives (Table.rows (SessionTables.activity T) s.activity) ≡ 0
    pub details : count_p data_outlives (Table.rows (SessionTables.details T) s.details) ≡ 0

  never_idle :
      (session now : Uuid) (s : Store T)
      → IsTimed s
      → is_idle T now (get_activity T session now s) ≡ false
  never_idle session now s h = elim (Option-cases (get_activity T session now s)) [
    | inl e ↦ rw e
    | inr (a, e) ↦
        let live =
          find?-test (λ (a : Activity). a.session == session && ltb now a.expires_at) _ a e in
        let timed =
          find?-not_count (λ (a : Activity). a.session == session && ltb now a.expires_at) outlives
            _ a e h.activity in
        rw e (ground (arith, live, timed))
  ]

  never_too_old :
      (session now : Uuid) (s : Store T)
      → IsTimed s
      → is_too_old T now (get_data T session now s) ≡ false
  never_too_old session now s h = elim (Option-cases (get_data T session now s)) [
    | inl e ↦ rw e
    | inr (d, e) ↦
        let live =
          find?-test (λ (d : SessionData). d.session == session && ltb now d.expires_at) _ d e in
        let timed =
          find?-not_count (λ (d : SessionData). d.session == session && ltb now d.expires_at)
            data_outlives _ d e h.details in
        rw e (ground (arith, live, timed))
  ]

  validate_session_lem :
      (user session : Uuid) (ip : Text) (now : ℕ) (s : Store T)
      → IsTimed s
      → (validate_session T all_answered user (some session) ip now s).0 ≡ (
          if not (sismember T user session s)
          then some revoked
          else if ip_differs T ip (get_data T session now s)
          then some ip_mismatch
          else none)
  unfolding validate_session check_session
  validate_session_lem user session ip now s h =
      ground (arith, never_idle session now s h, never_too_old session now s h)

  module _ (L : SessionTablesLaws T) where
    del_activity-IsTimed :
        (session : Uuid) (s : Store T) → IsTimed s → IsTimed (del_activity T session s)
    del_activity-IsTimed session s h = record {
      activity = none-delete (SessionTables.activity T) L.activity outlives _ s.activity h.activity;
      details = h.details;
    }

    revoke_session-IsTimed :
        (heard : Revoking) (user session : Uuid) (s : Store T)
        → IsTimed s
        → IsTimed (revoke_session T heard user session s)
    unfolding revoke_session
    revoke_session-IsTimed no_command user session s h = h
    revoke_session-IsTimed one_command user session s h = record {
      activity = h.activity;
      details = h.details;
    }
    revoke_session-IsTimed two_commands user session s h = record {
      activity = (del_activity-IsTimed session s h).activity;
      details = h.details;
    }
    revoke_session-IsTimed every_command user session s h = record {
      activity = (del_activity-IsTimed session s h).activity;
      details = none-delete (SessionTables.details T) L.details data_outlives _ s.details h.details;
    }

    set_activity-IsTimed :
        (session now : Uuid) (s : Store T)
        → IsTimed s
        → IsTimed (
            set_activity T
              (record { session = session; at = now; expires_at = now + idle_timeout_ms })
              s)
    set_activity-IsTimed session now s h = record {
      activity =
          none-insert (SessionTables.activity T) L.activity outlives _ _ (ground arith)
            (none-delete (SessionTables.activity T) L.activity outlives _ s.activity h.activity);
      details = h.details;
    }

    revoke_found-IsTimed :
        (heard : Revoking) (user : Uuid) (o : Option Uuid) (s : Store T)
        → IsTimed s
        → IsTimed (revoke_found T heard user o s)
    revoke_found-IsTimed heard user none s h = h
    revoke_found-IsTimed heard user (some session) s h =
        revoke_session-IsTimed heard user session s h

    make_room-IsTimed :
        (heard : Revoking) (user : Uuid) (max_sessions now : ℕ) (s : Store T)
        → IsTimed s
        → IsTimed (make_room T heard user max_sessions now s)
    unfolding make_room
    make_room-IsTimed heard user max_sessions now s h =
        if_P IsTimed _ _ s
          (revoke_found-IsTimed heard user (oldest_session T (smembers T user s) now s none none) s
            h)
          h

    sadd-IsTimed : (user session : Uuid) (s : Store T) → IsTimed s → IsTimed (sadd T user session s)
    sadd-IsTimed user session s h =
        if_P IsTimed (sismember T user session s) s _ h
          (record { activity = h.activity; details = h.details })

    set_data-IsTimed :
        (session : Uuid) (ip : Text) (ip_binding : Bool) (now : ℕ) (s : Store T)
        → IsTimed s
        → IsTimed (
            set_data T
              (record {
                session = session;
                created_at = now;
                ip = ip;
                ip_binding = ip_binding;
                expires_at = now + absolute_timeout_ms;
              })
              s)
    set_data-IsTimed session ip ip_binding now s h = record {
      activity = h.activity;
      details =
          none-insert (SessionTables.details T) L.details data_outlives _ _ (ground arith)
            (none-delete (SessionTables.details T) L.details data_outlives _ s.details h.details);
    }

    write_session-IsTimed :
        (writes : ℕ) (user session : Uuid) (ip : Text) (ip_binding : Bool) (now : ℕ) (s : Store T)
        → IsTimed s
        → IsTimed (write_session T writes user session ip ip_binding now s)
    write_session-IsTimed writes user session ip ip_binding now s h =
        let added = sadd-IsTimed user session s h in
        let with_data = set_data-IsTimed session ip ip_binding now _ added in
        if_P IsTimed (leb 3 writes) _ _ (set_activity-IsTimed session now _ with_data)
          (if_P IsTimed (leb 2 writes) _ _ with_data (if_P IsTimed (leb 1 writes) _ _ added h))

    check_session-IsTimed :
        (heard : Revoking) (user session : Uuid) (ip : Text) (now : ℕ) (s : Store T)
        → IsTimed s
        → IsTimed (check_session T heard user session ip now s).1
    unfolding check_session
    check_session-IsTimed heard user session ip now s h =
        let Kept = λ (r : Option SessionRefusal × Store T). IsTimed r.1 in
        let gone = revoke_session-IsTimed heard user session s h in
        if_P Kept (not (sismember T user session s)) _ _ h (
          if_P Kept (is_idle T now (get_activity T session now s)) _ _ gone (
            if_P Kept (is_too_old T now (get_data T session now s)) _ _ gone (
              if_P Kept (ip_differs T ip (get_data T session now s)) _ _ h
                (set_activity-IsTimed session now s h))))

    sessions-IsTimed :
        (answers : Answers) (user session : Uuid) (ip : Text) (ip_binding : Bool)
        (max_sessions now : ℕ) (s : Store T)
        → IsTimed s
        → IsTimed (register_session T answers user session ip ip_binding max_sessions now s)
          × IsTimed (validate_session T answers user (some session) ip now s).1
    unfolding register_session validate_session
    sessions-IsTimed answers user session ip ip_binding max_sessions now s h =
        let Kept = λ (r : Option SessionRefusal × Store T). IsTimed r.1 in
        (
          if_P IsTimed answers.reads _ s
              (write_session-IsTimed answers.writes user session ip ip_binding now _
                (make_room-IsTimed answers.revoking user max_sessions now s h))
              h,
          if_P Kept answers.reads _ (none, s)
              (check_session-IsTimed answers.revoking user session ip now s h) h,
        )

    -- In a store whose keys expire one timeout after the time that they hold, `validateSession` never
    -- refuses a session for its age or for inactivity: while Redis answers, a session passes exactly
    -- if it is in the user's set and its data, if they are still there, do not bind it to another
    -- address. Registering a session and validating one, whatever that answers and however
    -- far Redis answers, keep the store so.
    pub sessions_never_time_out :
        (answers : Answers) (user session : Uuid) (ip : Text) (ip_binding : Bool)
        (max_sessions now : ℕ) (s : Store T)
        → IsTimed s
        → ((validate_session T all_answered user (some session) ip now s).0 ≡ (
            if not (sismember T user session s)
            then some revoked
            else if ip_differs T ip (get_data T session now s)
            then some ip_mismatch
            else none))
          × IsTimed (register_session T answers user session ip ip_binding max_sessions now s)
          × IsTimed (validate_session T answers user (some session) ip now s).1
    sessions_never_time_out answers user session ip ip_binding max_sessions now s h =
        let kept = sessions-IsTimed answers user session ip ip_binding max_sessions now s h in
        (validate_session_lem user session ip now s h, kept.0, kept.1)
