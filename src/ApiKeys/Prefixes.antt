-- ===== src/ApiKeys/Prefixes.antt =====
-- Keys are stored with a prefix of 12 characters and looked up by one of 8.
use mdm.Base.{
  ℕ, ◌≡◌, refl, sym, ap, ◌∙◌, Bool, true, false, not, none, some, List, [], ◌∷◌, ◌≤◌, arith, ◌==◌,
  length, find?, count_p, count_p_mono, find?-none_of_count, find?-test, Option-cases, inl, inr,
  Bool-cases, Result, ok, err,
}
use mdm.Base.Text.{Text, take, text_eq-length, length-take_le}
use mdm.Base.Table.{Table, none-insert, none-update}
use mdm.ApiKeys.Routes.{
  CreateApiKey, generate_api_key, create_key, revoke_key, rotate_key, replace_key, find_key,
  own_key,
}
use mdm.ApiKeys.Authentication.{is_key, is_expired, join_role, authenticate_api_key, mark_used}
use mdm.Http.{Caller, Refusal, refuse}
use mdm.Schema.{Uuid, ApiKey, User, Role, Tables, AreLawful, Db}

-- A stored key whose prefix is short enough to be found.
abbrev pub is_short : ApiKey → Bool
is_short k = not (length k.key_prefix == 12)

generated_prefix :
    (sha256 : Text → Text) (is_test : Bool) (random : Text)
    → 3 ≤ length random
    → (length (generate_api_key sha256 is_test random).prefix == 12) ≡ true
unfolding generate_api_key
generated_prefix sha256 true (c ∷ d ∷ e ∷ random) h = refl
generated_prefix sha256 false (c ∷ d ∷ e ∷ random) h = refl
generated_prefix sha256 is_test [] h = absurd (omega arith)
generated_prefix sha256 is_test (c ∷ []) h = absurd (omega arith)
generated_prefix sha256 is_test (c ∷ d ∷ []) h = absurd (omega arith)

-- A prefix of 12 characters is never that of 8 characters which is looked up.
long-not-key :
    (sha256 : Text → Text) (key : Text) (k : ApiKey)
    → is_key sha256 key k ≡ true
    → is_short k ≡ true
long-not-key sha256 key k h =
    ground (arith, text_eq-length k.key_prefix (take 8 key), length-take_le 8 key)

join_role-id :
    (id : Uuid) (roles : List Role) (us : List User) (p : User × Role)
    → join_role id roles us ≡ some p
    → p.0.id ≡ id
unfolding join_role
join_role-id id roles [] p e = cc
join_role-id id roles (u ∷ us) p e = ground (arith, join_role-id id roles us p)

refused_is_no_caller :
    {A : Type 0} {refusal : Refusal} {caller : Caller} {w w' : A}
    → ◌≡◌ {A = Result Refusal Caller × A} (err refusal, w) (ok caller, w')
    → ⊥
refused_is_no_caller e = cc

accepted_parts :
    {A : Type 0} {c c' : Caller} {w w' : A}
    → ◌≡◌ {A = Result Refusal Caller × A} (ok c, w) (ok c', w')
    → (c ≡ c') × (w ≡ w')
accepted_parts e = (cc, cc)

module _ (T : Tables) where
  -- Every stored key has a prefix of 12 characters.
  abbrev pub HasLongPrefixes : Db T → Type 0
  HasLongPrefixes w = count_p is_short (Table.rows (Tables.keys T) w.keys) ≡ 0

  module _ (L : AreLawful T) where
    pub create_key-HasLongPrefixes :
        (sha256 : Text → Text) (is_test : Bool) (random : Text) (body : CreateApiKey)
        (caller : Caller) (new_id : Uuid) (w : Db T)
        → 3 ≤ length random
        → HasLongPrefixes w
        → HasLongPrefixes (create_key T sha256 is_test random body caller new_id w).1
    unfolding create_key
    create_key-HasLongPrefixes sha256 is_test random body caller new_id w long h =
        none-insert (Tables.keys T) L.keys is_short _ w.keys
          (ap not (generated_prefix sha256 is_test random long)) h

    revoke_key-HasLongPrefixes :
        (id : Uuid) (caller : Caller) (w : Db T)
        → HasLongPrefixes w
        → HasLongPrefixes (revoke_key T id caller w).1
    unfolding revoke_key
    revoke_key-HasLongPrefixes id caller w h =
        let kept =
          none-update (Tables.keys T) L.keys is_short (own_key T id caller)
            (λ k. record k { is_active = false }) w.keys (λ k e. e) h in
        elim (Option-cases (find_key T id caller w)) [
          | inl p ↦ rw (p, revoke_key) kept
          | inr (k, p) ↦ rw (p, revoke_key) kept
        ]

    replace_key-HasLongPrefixes :
        (sha256 : Text → Text) (is_test : Bool) (random : Text) (id new_id : Uuid) (old : ApiKey)
        (w : Db T)
        → 3 ≤ length random
        → HasLongPrefixes w
        → HasLongPrefixes (replace_key T sha256 is_test random id new_id old w)
    unfolding replace_key
    replace_key-HasLongPrefixes sha256 is_test random id new_id old w long h =
        none-insert (Tables.keys T) L.keys is_short _ _
          (ap not (generated_prefix sha256 is_test random long))
          (none-update (Tables.keys T) L.keys is_short (λ k. k.id == id)
            (λ k. record k { is_active = false }) w.keys (λ k e. e) h)

    rotate_key-HasLongPrefixes :
        (sha256 : Text → Text) (is_test : Bool) (random : Text) (id new_id : Uuid) (caller : Caller)
        (w : Db T)
        → 3 ≤ length random
        → HasLongPrefixes w
        → HasLongPrefixes (rotate_key T sha256 is_test random id new_id caller w).1
    unfolding rotate_key
    rotate_key-HasLongPrefixes sha256 is_test random id new_id caller w long h =
        elim (Option-cases (find_key T id caller w)) [
          | inl p ↦ rw (p, rotate_key) h
          | inr (old, p) ↦
              rw (p, rotate_key)
                (replace_key-HasLongPrefixes sha256 is_test random id new_id old w long h)
        ]

    issue-HasLongPrefixes :
        (sha256 : Text → Text) (is_test : Bool) (random : Text) (body : CreateApiKey)
        (id new_id : Uuid) (caller : Caller) (w : Db T)
        → 3 ≤ length random
        → HasLongPrefixes w
        → HasLongPrefixes (create_key T sha256 is_test random body caller new_id w).1
          × HasLongPrefixes (revoke_key T id caller w).1
          × HasLongPrefixes (rotate_key T sha256 is_test random id new_id caller w).1
    issue-HasLongPrefixes sha256 is_test random body id new_id caller w long h = (
      create_key-HasLongPrefixes sha256 is_test random body caller new_id w long h,
      revoke_key-HasLongPrefixes id caller w h,
      rotate_key-HasLongPrefixes sha256 is_test random id new_id caller w long h,
    )

  authenticate_api_key_refused :
      (sha256 : Text → Text) (now : ℕ) (key : Text) (w : Db T)
      → HasLongPrefixes w
      → authenticate_api_key T sha256 now key w ≡ (refuse 401 "Invalid API key", w)
  unfolding authenticate_api_key
  authenticate_api_key_refused sha256 now key w h =
      let unknown : find? (is_key sha256 key) (Table.rows (Tables.keys T) w.keys) ≡ none =
        find?-none_of_count (is_key sha256 key) _ (
          count_p_mono (is_key sha256 key) is_short (Table.rows (Tables.keys T) w.keys)
            (λ k e. long-not-key sha256 key k e) h) in
      rw (unknown, authenticate_api_key)

  -- If a key is accepted, then for the first row that is active and has the first 8 characters of
  -- the key and its hash; the row has not expired, the caller is the row's user with the row's
  -- permissions, and the only change is the row's time of last use.
  pub authenticate_api_key_sound :
      (sha256 : Text → Text) (now : ℕ) (key : Text) (w : Db T) (caller : Caller) (w' : Db T)
      → authenticate_api_key T sha256 now key w ≡ (ok caller, w')
      → (k : ApiKey) × (find? (is_key sha256 key) (Table.rows (Tables.keys T) w.keys) ≡ some k)
        × (is_key sha256 key k ≡ true)
        × (is_expired now k.expires_at ≡ false)
        × (caller.sub ≡ k.user_id)
        × (caller.permissions ≡ k.permissions)
        × (w' ≡ mark_used T k.id now w)
  unfolding authenticate_api_key
  authenticate_api_key_sound sha256 now key w caller w' e =
      elim (Option-cases (find? (is_key sha256 key) (Table.rows (Tables.keys T) w.keys))) [
        | inl p ↦ absurd (refused_is_no_caller (rw (p, authenticate_api_key) at e))
        | inr (k, p) ↦ elim (Bool-cases (is_expired now k.expires_at)) [
          | inl late ↦
              absurd (refused_is_no_caller (rw late at (rw (p, authenticate_api_key) at e)))
          | inr live ↦
              elim (Option-cases (
                join_role k.user_id (Table.rows (Tables.roles T) w.roles)
                  (Table.rows (Tables.users T) w.users))) [
                    | inl q ↦ absurd (
                        refused_is_no_caller
                          (rw q at (rw live at (rw (p, authenticate_api_key) at e))))
                    | inr (u, q) ↦
                        let done = rw q at (rw live at (rw (p, authenticate_api_key) at e)) in
                        let id =
                          join_role-id k.user_id (Table.rows (Tables.roles T) w.roles)
                            (Table.rows (Tables.users T) w.users) u q in
                        let (c, v) = accepted_parts done in
                        (
                          k,
                          p,
                          find?-test (is_key sha256 key) _ k p,
                          live,
                          ap (λ (x : Caller). x.sub) (sym c) ∙ id,
                          ap (λ (x : Caller). x.permissions) (sym c),
                          sym v,
                        )
                  ]
        ]
      ]

  -- Where all stored prefixes have 12 characters, `authenticateApiKey` answers every key with the
  -- same 401 and changes nothing. Creating, revoking and rotating a key leave all stored prefixes at
  -- 12 characters, also where the key is unknown, if they were so before and the random part has at
  -- least 3 characters.
  pub issued_keys_refused :
      (L : AreLawful T) (sha256 : Text → Text) (is_test : Bool) (random : Text)
      (body : CreateApiKey) (id new_id : Uuid) (caller : Caller) (now : ℕ) (key : Text) (w : Db T)
      → 3 ≤ length random
      → HasLongPrefixes w
      → (authenticate_api_key T sha256 now key w ≡ (refuse 401 "Invalid API key", w))
        × HasLongPrefixes (create_key T sha256 is_test random body caller new_id w).1
        × HasLongPrefixes (revoke_key T id caller w).1
        × HasLongPrefixes (rotate_key T sha256 is_test random id new_id caller w).1
  issued_keys_refused L sha256 is_test random body id new_id caller now key w long h =
      let issued = issue-HasLongPrefixes L sha256 is_test random body id new_id caller w long h in
      (authenticate_api_key_refused sha256 now key w h, issued.0, issued.1, issued.2)
