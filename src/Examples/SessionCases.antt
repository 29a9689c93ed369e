-- ===== src/Examples/SessionCases.antt =====
-- Sessions: a user with two sessions who opens a third, where two are allowed.
use mdm.Base.{◌≡◌, ◌≤◌, ◌+◌, refl, true, false, not, none, some, [], ◌∷◌, arith, if◌then◌else◌}
use mdm.Base.Text.{Text, codes}
use mdm.Base.Table.{list_table, list_table-IsLawful}
use mdm.Sessions.Store.{SessionTables, SessionTablesLaws, Store, sismember, get_data}
use mdm.Sessions.Checks.{
  all_answered, every_command, no_command, revoke_session, revoked, ip_mismatch, ip_differs,
  validate_session, register_session, oldest_session, revoke_all_sessions, idle_timeout_ms,
  absolute_timeout_ms,
}
use mdm.Sessions.Limit.{count_sessions, register_session_bounds, revoke_all_sessions_lem}
use mdm.Sessions.Timeouts.{IsTimed, sessions_never_time_out}

abbrev redis : SessionTables
redis = record { members = list_table _; details = list_table _; activity = list_table _ }

redis-SessionTablesLaws : SessionTablesLaws redis
redis-SessionTablesLaws = record {
  members = list_table-IsLawful _;
  details = list_table-IsLawful _;
  activity = list_table-IsLawful _;
}

abbrev home : Text
home = codes "10.0.0.7"

abbrev two_sessions : Store redis
two_sessions = record {
  members =
      record { user = 30; session = 1 }
      ∷ record { user = 30; session = 2 }
      ∷ record { user = 31; session = 3 }
      ∷ [];
  details =
      record {
        session = 1;
        created_at = 1000;
        ip = home;
        ip_binding = true;
        expires_at = 1000 + absolute_timeout_ms;
      }
      ∷ record {
        session = 2;
        created_at = 500;
        ip = home;
        ip_binding = false;
        expires_at = 500 + absolute_timeout_ms;
      }
      ∷ [];
  activity = record { session = 1; at = 1000; expires_at = 1000 + idle_timeout_ms } ∷ [];
}

two_sessions-IsTimed : IsTimed redis two_sessions
two_sessions-IsTimed = record { activity = refl; details = refl }

-- The session that began first makes room.
third_session :
    sismember redis 30 2 (register_session redis all_answered 30 4 home true 2 2000 two_sessions)
    ≡ false
unfolding register_session oldest_session
third_session = refl

register_session_bounds_example :
    count_sessions redis 30 (register_session redis all_answered 30 4 home true 2 2000 two_sessions)
    ≤ 2
register_session_bounds_example =
    register_session_bounds redis redis-SessionTablesLaws all_answered 30 4 home true 2 2000
      two_sessions 30 refl (omega arith) (omega arith)

-- Where the revocation fails at its first command and the writes do not, a third session stays.
three_sessions :
    count_sessions redis 30 (
      register_session redis
        (record all_answered { revoking = no_command })
        30
        4
        home
        true
        2
        2000
        two_sessions)
    ≡ 3
unfolding register_session revoke_session oldest_session
three_sessions = refl

revoke_all_sessions_lem_example :
    count_sessions redis 30 (revoke_all_sessions redis true (λ x. every_command) 30 two_sessions)
    ≡ 0
revoke_all_sessions_lem_example =
    revoke_all_sessions_lem redis redis-SessionTablesLaws 30 two_sessions

sessions_never_time_out_example :
    ((validate_session redis all_answered 30 (some 1) (codes "10.9.9.9") 1500 two_sessions).0 ≡ (
      if not (sismember redis 30 1 two_sessions)
      then some revoked
      else if ip_differs redis (codes "10.9.9.9") (get_data redis 1 1500 two_sessions)
      then some ip_mismatch
      else none))
    × IsTimed redis
        (register_session redis all_answered 30 1 (codes "10.9.9.9") true 2 1500 two_sessions)
    × IsTimed redis
        (validate_session redis all_answered 30 (some 1) (codes "10.9.9.9") 1500 two_sessions).1
sessions_never_time_out_example =
    sessions_never_time_out redis redis-SessionTablesLaws all_answered 30 1 (codes "10.9.9.9") true
      2 1500 two_sessions two_sessions-IsTimed
