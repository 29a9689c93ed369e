-- ===== src/Login/Issue.antt =====
-- What tokens are issued, and to whom.
use mdm.Base.{
  ℕ, String, str_eq, ◌<◌, ◌+◌, ◌≡◌, ◌≢◌, refl, ap, sym, ◌∙◌, true, ◌==◌, Option, none, some,
  if◌then◌else◌, List, find?, Result, ok, err, Bool-cases, Option-cases, inl, inr,
}
use mdm.Base.Text.{Text}
use mdm.Base.Table.{Table}
use mdm.Http.{Refusal, refuse}
use mdm.Schema.{Uuid}
use mdm.Login.Tokens.{Claims, Jwt, IsJwt}
use mdm.Login.Passwords.{Digests, verify_password}
use mdm.Login.Service.{
  Account, TokenResponse, Payload, AccountDb, access_lifetime, refresh_lifetime, is_active,
  access_claims, refresh_claims, is_login, generate_tokens, payload_of, login, reissue, refresh,
}

err-not-ok : {A : Type 0} (r : Refusal) (a : A) → (err r) ≢ (ok a)
err-not-ok r a e = cc

ok_injective : {A : Type 0} (r : Result Refusal A) (a b : A) → r ≡ ok a → r ≡ ok b → a ≡ b
ok_injective r a b e f = cc

module _ (T : Table Account) (J : Jwt) (L : IsJwt J) (D : Digests)
    (parse_json : Text → Option (List Text)) where
  -- The claims of the access token in an answer, as it is verified at a time; none in a refusal.
  abbrev pub granted : ℕ → Result Refusal (TokenResponse J.Token) → Option Claims
  granted at (ok tokens) = J.verify tokens.access_token at
  granted at (err refusal) = none

  -- The claims due to a user's row: none for one that is missing or not active.
  abbrev pub due_claims : Option Account → AccountDb T → Option Claims
  due_claims none w = none
  due_claims (some u) w =
      if str_eq u.status "active"
      then some (access_claims (payload_of T J D parse_json u w))
      else none

  granted-reissue :
      (sub : Uuid) (later after : ℕ) (w : AccountDb T)
      → after < later + access_lifetime
      → granted after (reissue T J D parse_json sub later w)
        ≡ due_claims (find? (λ u. u.id == sub) (Table.rows T w.accounts)) w
  unfolding generate_tokens
  granted-reissue sub later after w k =
      elim (Option-cases (find? (λ u. u.id == sub) (Table.rows T w.accounts))) [
        | inl e ↦ rw (reissue, e) refl
        | inr (u, e) ↦
            rw (reissue, e)
              (elim (Bool-cases (str_eq u.status "active")) [
                | inl on ↦ rw on (
                    L.verify-sign (access_claims (payload_of T J D parse_json u w)) access_lifetime
                      later after k)
                | inr off ↦ rw off refl
              ])
      ]

  -- A refresh token that was issued for a user, within its lifetime: if the row that is found for
  -- the user's id is active, the answer's access token carries, while it lives, the claims of that
  -- row and the permissions that its roles have at the time of the refresh. If there is no row, or
  -- it is not active, the answer has no access token.
  pub refresh-generate_tokens :
      (p : Payload) (now later after : ℕ) (w : AccountDb T)
      → later < now + refresh_lifetime
      → after < later + access_lifetime
      → granted after
          (refresh T J D parse_json (generate_tokens T J D parse_json p now).refresh_token later w)
        ≡ due_claims (find? (λ u. u.id == p.sub) (Table.rows T w.accounts)) w
  unfolding refresh generate_tokens
  refresh-generate_tokens p now later after w h k =
      rw (L.verify-sign (refresh_claims p.sub) refresh_lifetime now later h, refresh)
        (granted-reissue p.sub later after w k)

  access_not_refresh :
      (p : Payload) (now later : ℕ) (w : AccountDb T)
      → later < now + access_lifetime
      → refresh T J D parse_json (generate_tokens T J D parse_json p now).access_token later w
        ≡ refuse 401 "Invalid token type"
  unfolding refresh generate_tokens
  access_not_refresh p now later w h =
      rw (L.verify-sign (access_claims p) access_lifetime now later h, refresh) refl

  -- A login that succeeds has found an active account with the address (and of the organization, if
  -- one is given) whose hash the password suits. While it lives, the access token then carries the
  -- claims of that account, and is no refresh token.
  pub login_sound :
      (email : String) (password : Text) (org : Option Uuid) (now later : ℕ) (w v : AccountDb T)
      (tokens : TokenResponse J.Token)
      → later < now + access_lifetime
      → (login T J D parse_json email password org now w).0 ≡ ok tokens
      → (u : Account) × (find? (is_login T J D parse_json email org) (Table.rows T w.accounts)
          ≡ some u)
        × (is_active u ≡ true)
        × (verify_password D password u.password_hash ≡ some true)
        × (J.verify tokens.access_token later
            ≡ some (access_claims (payload_of T J D parse_json u w)))
        × (refresh T J D parse_json tokens.access_token later v ≡ refuse 401 "Invalid token type")
  unfolding login generate_tokens
  login_sound email password org now later w v tokens h e =
      elim (Option-cases (find? (is_login T J D parse_json email org) (Table.rows T w.accounts))) [
        | inl p ↦ absurd (err-not-ok _ tokens (rw (p, login) at e))
        | inr (u, p) ↦ elim (Bool-cases (is_active u)) [
          | inr off ↦ absurd (err-not-ok _ tokens (rw off at (rw (p, login) at e)))
          | inl on ↦ elim (Option-cases (verify_password D password u.password_hash)) [
            | inl q ↦ absurd (err-not-ok _ tokens (rw q at (rw on at (rw (p, login) at e))))
            | inr (suits, q) ↦ elim (Bool-cases suits) [
              | inr wrong ↦
                  absurd
                    (err-not-ok _ tokens (rw wrong at (rw q at (rw on at (rw (p, login) at e)))))
              | inl right ↦
                  let issued =
                    generate_tokens T J D parse_json (payload_of T J D parse_json u w) now in
                  let same =
                    ok_injective (ok issued) issued tokens refl
                      (rw right at (rw q at (rw on at (rw (p, login) at e)))) in
                  (
                    u,
                    p,
                    on,
                    q ∙ ap some right,
                    ap (λ (t : TokenResponse J.Token). J.verify t.access_token later) (sym same)
                        ∙ L.verify-sign (access_claims (payload_of T J D parse_json u w))
                            access_lifetime now later h,
                    ap
                          (λ (t : TokenResponse J.Token).
                            refresh T J D parse_json t.access_token later v)
                          (sym same)
                        ∙ access_not_refresh (payload_of T J D parse_json u w) now later v h,
                  )
            ]
          ]
        ]
      ]
