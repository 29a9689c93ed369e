-- ===== src/Sessions/Oldest.antt =====
-- The sessions of a user as a list, and the oldest one in `registerSession`.
use mdm.Base.{
  ℕ, ◌≡◌, refl, true, not, ◌&&◌, Option, none, some, List, [], ◌∷◌, map, arith, ◌≤◌, ◌<◌, ◌==◌,
  ==_iff, any, filter, length, count_p, count_p_le, Bool-cases, Option-cases, inl, inr,
}
use mdm.Schema.{Uuid}
use mdm.Sessions.Store.{SessionMember, SessionTables, Store, is_session_of, get_data}
use mdm.Sessions.Checks.{oldest_session, is_older}

pub length-sessions :
    (user : Uuid) (ms : List SessionMember)
    → length (map (λ (m : SessionMember). m.session) (filter (λ m. m.user == user) ms))
      ≡ count_p (λ m. m.user == user) ms
length-sessions user [] = refl
length-sessions user (m ∷ ms) = ground (arith, length-sessions user ms)

pub any-sessions :
    (user session : Uuid) (ms : List SessionMember)
    → any
        (λ x. x == session)
        (map (λ (m : SessionMember). m.session) (filter (λ m. m.user == user) ms))
      ≡ any (is_session_of user session) ms
any-sessions user session [] = refl
any-sessions user session (m ∷ ms) = ground (arith, any-sessions user session ms)

pub count-revoked :
    (user session : Uuid) (ms : List SessionMember)
    → any (is_session_of user session) ms ≡ true
    → count_p (λ m. not (is_session_of user session m) && m.user == user) ms
      < count_p (λ m. m.user == user) ms
count-revoked user session [] h = absurd (ground arith)
count-revoked user session (m ∷ ms) h =
    let fewer =
      count_p_le (λ m. not (is_session_of user session m) && m.user == user)
        (λ (m : SessionMember). m.user == user) ms (λ r k. ground arith) in
    ground (arith, fewer, count-revoked user session ms)

pub none_missing :
    (user : Uuid) (all ms : List SessionMember)
    → ((x : Uuid) → any (is_session_of user x) ms ≡ true → any (is_session_of user x) all ≡ true)
    → count_p
        (λ (m : SessionMember). m.user == user && not (any (is_session_of user m.session) all))
        ms
      ≡ 0
none_missing user all [] h = refl
none_missing user all (m ∷ ms) h =
    let later = none_missing user all ms (λ x p. h x (ground arith)) in
    ground (arith, later, h m.session, (==_iff m.session m.session).1 refl)

module _ (T : SessionTables) where
  -- The loop has found a session of the list, or kept the one that it had.
  oldest_session_from :
      (sessions : List Uuid) (now : ℕ) (s : Store T) (best : Option ℕ) (found : Uuid)
      → (session : Uuid) × (oldest_session T sessions now s best (some found) ≡ some session)
        × (any (λ x. x == session) (found ∷ sessions) ≡ true)
  unfolding oldest_session
  oldest_session_from [] now s best found = (found, refl, ground arith)
  oldest_session_from (x ∷ xs) now s best found = elim (Option-cases (get_data T x now s)) [
    | inl gone ↦ (x, rw (gone, oldest_session), ground arith)
    | inr (d, e) ↦ elim (Bool-cases (is_older T d.created_at best)) [
      | inl older ↦
          let (session, r, m) = oldest_session_from xs now s (some d.created_at) x in
          (session, rw (e, oldest_session) (rw older r), ground arith)
      | inr newer ↦
          let (session, r, m) = oldest_session_from xs now s best found in
          (session, rw (e, oldest_session) (rw newer r), ground arith)
    ]
  ]

  pub oldest_session_found :
      (sessions : List Uuid) (now : ℕ) (s : Store T)
      → 1 ≤ length sessions
      → (session : Uuid) × (oldest_session T sessions now s none none ≡ some session)
        × (any (λ x. x == session) sessions ≡ true)
  unfolding oldest_session
  oldest_session_found [] now s h = absurd (omega arith)
  oldest_session_found (x ∷ xs) now s h = elim (Option-cases (get_data T x now s)) [
    | inl gone ↦ (x, rw (gone, oldest_session), ground arith)
    | inr (d, e) ↦
        let (session, r, m) = oldest_session_from xs now s (some d.created_at) x in
        (session, rw (e, oldest_session) r, m)
  ]
