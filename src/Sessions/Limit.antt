-- ===== src/Sessions/Limit.antt =====
-- The number of sessions of a user, behind `registerSession` and `revokeAllSessions`.
use mathlib.Core.Path.{subst}
use mdm.Base.{
  ℕ, ◌≡◌, ◌≢◌, refl, ap, sym, ◌∙◌, Bool, true, false, not, ◌&&◌, Option, none, some, List, [], ◌∷◌,
  arith, ◌+◌, ◌≤◌, ◌<◌, ◌==◌, ==_iff, leb, any, length, count_p, count_p_le, if◌then◌else◌, if_P,
  Bool-cases, inl, inr,
}
use mdm.Base.Text.{Text}
use mdm.Base.Table.{Table, count_p_ext}
use mdm.Schema.{Uuid}
use mdm.Sessions.Store.{
  SessionMember, SessionTables, SessionTablesLaws, Store, is_session_of, sismember, smembers, sadd,
  srem,
}
use mdm.Sessions.Checks.{
  Revoking, no_command, one_command, two_commands, every_command, Answers, write_session,
  revoke_session, oldest_session, revoke_found, make_room, register_session, revoke_sessions,
  revoke_all_sessions,
}
use mdm.Sessions.Oldest.{
  length-sessions, any-sessions, count-revoked, none_missing, oldest_session_found,
}

false-not-true : false ≢ true
false-not-true e = cc

-- Whether a revocation has taken the session out of the set.
abbrev pub removes_member : Revoking → Bool
removes_member no_command = false
removes_member one_command = true
removes_member two_commands = true
removes_member every_command = true

module _ (T : SessionTables) where
  -- How many sessions a user has.
  abbrev pub count_sessions : Uuid → Store T → ℕ
  count_sessions user s = length (smembers T user s)

  module _ (L : SessionTablesLaws T) where
    count-srem :
        (user session other : Uuid) (s : Store T)
        → count_sessions other (srem T user session s)
          ≡ count_p
              (λ m. not (is_session_of user session m) && m.user == other)
              (Table.rows (SessionTables.members T) s.members)
    count-srem user session other s =
        length-sessions other _
        ∙ L.members.count-delete (λ m. m.user == other) (is_session_of user session) s.members

    count-revoke_session :
        (heard : Revoking) (user session other : Uuid) (s : Store T)
        → removes_member heard ≡ true
        → count_sessions other (revoke_session T heard user session s)
          ≡ count_sessions other (srem T user session s)
    unfolding revoke_session
    count-revoke_session no_command user session other s h = absurd (false-not-true h)
    count-revoke_session one_command user session other s h = refl
    count-revoke_session two_commands user session other s h = refl
    count-revoke_session every_command user session other s h = refl

    fewer-srem :
        (user session other : Uuid) (s : Store T)
        → count_sessions other (srem T user session s) ≤ count_sessions other s
    fewer-srem user session other s = omega (
      arith,
      count-srem user session other s,
      length-sessions other (Table.rows (SessionTables.members T) s.members),
      count_p_le (λ m. not (is_session_of user session m) && m.user == other)
          (λ (m : SessionMember). m.user == other) (Table.rows (SessionTables.members T) s.members)
          (λ r k. ground arith),
    )

    fewer-revoke_session :
        (heard : Revoking) (user session other : Uuid) (s : Store T)
        → count_sessions other (revoke_session T heard user session s) ≤ count_sessions other s
    unfolding revoke_session
    fewer-revoke_session no_command user session other s = omega arith
    fewer-revoke_session one_command user session other s = fewer-srem user session other s
    fewer-revoke_session two_commands user session other s = fewer-srem user session other s
    fewer-revoke_session every_command user session other s = fewer-srem user session other s

    count-sadd :
        (user session other : Uuid) (s : Store T)
        → count_sessions other (sadd T user session s)
          ≤ (if user == other then 1 else 0) + count_sessions other s
    count-sadd user session other s = elim (Bool-cases (sismember T user session s)) [
      | inl there ↦ rw there (omega arith)
      | inr new ↦ rw new (
          omega (
            arith,
            length-sessions other (Table.rows (SessionTables.members T) s.members),
            length-sessions other (
                Table.rows (SessionTables.members T) (
                  Table.insert (SessionTables.members T) (record { user = user; session = session })
                    s.members)),
            L.members.count-insert (λ m. m.user == other)
                (record { user = user; session = session }) s.members,
          ))
    ]

    count-make_room :
        (heard : Revoking) (user : Uuid) (max_sessions now : ℕ) (s : Store T)
        → removes_member heard ≡ true
        → 1 ≤ max_sessions
        → count_sessions user s ≤ max_sessions
        → count_sessions user (make_room T heard user max_sessions now s) < max_sessions
    unfolding make_room
    count-make_room heard user max_sessions now s m h k =
        elim (Bool-cases (leb max_sessions (count_sessions user s))) [
          | inl full ↦
              let (session, found, member) =
                oldest_session_found T (smembers T user s) now s (ground arith) in
              let rows = Table.rows (SessionTables.members T) s.members in
              let fewer =
                count-revoked user session rows (sym (any-sessions user session rows) ∙ member) in
              rw full (
                rw found (
                  omega (
                    arith,
                    count-revoke_session heard user session user s m,
                    count-srem user session user s,
                    length-sessions user rows,
                    fewer,
                  )))
          | inr room ↦ rw room (ground arith)
        ]

    fewer-make_room :
        (heard : Revoking) (user other : Uuid) (max_sessions now : ℕ) (s : Store T)
        → count_sessions other (make_room T heard user max_sessions now s) ≤ count_sessions other s
    unfolding make_room
    fewer-make_room heard user other max_sessions now s =
        if_P (λ (t : Store T). count_sessions other t ≤ count_sessions other s)
          (leb max_sessions (count_sessions user s)) _ s
          (fewer-revoke_found (oldest_session T (smembers T user s) now s none none)) (omega arith)
      where
        fewer-revoke_found :
            (o : Option Uuid)
            → count_sessions other (revoke_found T heard user o s) ≤ count_sessions other s
        fewer-revoke_found none = omega arith
        fewer-revoke_found (some session) = fewer-revoke_session heard user session other s

    -- However many writes are answered, at most one member is added.
    count-write_session :
        (writes : ℕ) (user session : Uuid) (ip : Text) (ip_binding : Bool) (now : ℕ) (s : Store T)
        (other : Uuid)
        → count_sessions other (write_session T writes user session ip ip_binding now s)
          ≤ (if user == other then 1 else 0) + count_sessions other s
    count-write_session writes user session ip ip_binding now s other =
        let Bounded = λ (t : Store T).
          count_sessions other t ≤ (if user == other then 1 else 0) + count_sessions other s in
        let added = count-sadd user session other s in
        if_P Bounded (leb 3 writes) _ _ added (
          if_P Bounded (leb 2 writes) _ _ added
            (if_P Bounded (leb 1 writes) _ _ added (omega arith)))

    -- Registering a session leaves the user with at most the maximum, if there were no more before
    -- and the maximum is not 0; no other user has more sessions than before. The condition is that
    -- Redis answers the command that takes the revoked session out of the set; it may fail at any
    -- other command of the call.
    pub register_session_bounds :
        (answers : Answers) (user session : Uuid) (ip : Text) (ip_binding : Bool)
        (max_sessions now : ℕ) (s : Store T) (other : Uuid)
        → removes_member answers.revoking ≡ true
        → 1 ≤ max_sessions
        → count_sessions user s ≤ max_sessions
        → count_sessions other
            (register_session T answers user session ip ip_binding max_sessions now s)
          ≤ (if user == other then max_sessions else count_sessions other s)
    unfolding register_session
    register_session_bounds answers user session ip ip_binding max_sessions now s other m h k =
        let room = make_room T answers.revoking user max_sessions now s in
        let written =
          count-write_session answers.writes user session ip ip_binding now room other in
        elim (Bool-cases (user == other)) [
          | inl same ↦
              let e = (==_iff user other).0 same in
              let most : count_sessions other room < max_sessions =
                subst (λ u. count_sessions u room < max_sessions) e
                  (count-make_room answers.revoking user max_sessions now s m h k) in
              let least : count_sessions other s ≤ max_sessions =
                subst (λ u. count_sessions u s ≤ max_sessions) e k in
              rw same (
                if_P (λ (t : Store T). count_sessions other t ≤ max_sessions) answers.reads _ s
                  (omega (arith, rw same at written, most)) least)
          | inr different ↦ rw different (
              if_P (λ (t : Store T). count_sessions other t ≤ count_sessions other s) answers.reads
                _ s
                (omega (
                  arith,
                  rw different at written,
                  fewer-make_room answers.revoking user other max_sessions now s,
                ))
                (omega arith))
        ]

    sessions_left :
        (user : Uuid) (sessions : List Uuid) (s : Store T)
        → count_p
            (λ m. m.user == user && not (any (λ x. x == m.session) sessions))
            (Table.rows (SessionTables.members T) s.members)
          ≡ 0
        → count_sessions user (revoke_sessions T (λ x. every_command) user sessions s) ≡ 0
    unfolding revoke_sessions revoke_session
    sessions_left user [] s h =
        length-sessions user _
        ∙ (count_p_ext _ _ (Table.rows (SessionTables.members T) s.members) (λ m. ground arith) ∙ h)
    sessions_left user (x ∷ xs) s h =
        sessions_left user xs (revoke_session T every_command user x s) (
          L.members.count-delete (λ m. m.user == user && not (any (λ x. x == m.session) xs))
            (is_session_of user x) s.members
          ∙ (count_p_ext _ _ (Table.rows (SessionTables.members T) s.members) (λ m. ground arith)
              ∙ h))

    -- Revoking all sessions of a user leaves the user none, while Redis answers.
    pub revoke_all_sessions_lem :
        (user : Uuid) (s : Store T)
        → count_sessions user (revoke_all_sessions T true (λ x. every_command) user s) ≡ 0
    unfolding revoke_all_sessions
    revoke_all_sessions_lem user s =
        let rows = Table.rows (SessionTables.members T) s.members in
        sessions_left user (smembers T user s) s (
          count_p_ext _ _ rows (λ (m : SessionMember).
            ap (λ b. m.user == user && not b) (any-sessions user m.session rows))
          ∙ none_missing user rows rows (λ x p. p))
