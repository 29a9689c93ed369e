-- ===== src/Audit/Placeholders.antt =====
-- Each condition of a query reads the parameter that was pushed for it.
use mdm.Base.{
  ℕ, zero, suc, ◌<◌, ◌+◌, ◌-◌, ◌≡◌, refl, ap, ◌∙◌, Bool, true, ◌&&◌, Option, none, some, List, [],
  ◌∷◌, ◌++◌, arith, leb, all, filter, count_p, length, length-append, fun_ext,
}
use mdm.Base.Text.{Text}
use mdm.Audit.Query.{
  LogRow, AuditQueryFilters, Test, org_is, actor_type_is, actor_is, action_like, resource_type_is,
  resource_id_is, since, until, matches, Param, text, number, Condition, QueryText, at, param,
  given, push_condition, add_condition, plain, wildcard, build_query, take_rows, drop_rows,
  holds_param, satisfies, query_audit_logs,
}

at-append_left : (n : ℕ) (xs ys : List Param) → n < length xs → at n (xs ++ ys) ≡ at n xs
at-append_left n [] ys h = absurd (omega arith)
at-append_left zero (x ∷ xs) ys h = refl
at-append_left (suc n) (x ∷ xs) ys h = at-append_left n xs ys (omega arith)

at-append_here :
    (xs : List Param) (y : Param) (ys : List Param) → at (length xs) (xs ++ y ∷ ys) ≡ some y
at-append_here [] y ys = refl
at-append_here (x ∷ xs) y ys = at-append_here xs y ys

at-append_next :
    (n : ℕ) (xs : List Param) (x y : Param) → n ≡ length xs + 1 → at n (xs ++ x ∷ y ∷ []) ≡ some y
at-append_next zero xs x y e = absurd (omega arith)
at-append_next (suc zero) [] x y e = refl
at-append_next (suc (suc n)) [] x y e = absurd (omega arith)
at-append_next (suc n) (z ∷ zs) x y e = at-append_next n zs x y (omega arith)

pub all-append :
    {A : Type 0} (p : A → Bool) (xs ys : List A) → all p (xs ++ ys) ≡ (all p xs && all p ys)
all-append p [] ys = refl
all-append p (x ∷ xs) ys = ground (arith, all-append p xs ys)

-- Is the number that of one of the parameters?
abbrev in_range : List Param → Condition → Bool
in_range params c = leb 1 c.placeholder && leb c.placeholder (length params)

module _ (holds : Test → Text → LogRow → Bool) (newest_first : List LogRow → List LogRow) where
  -- Parameters that are pushed later change no condition.
  satisfies-append :
      (params more : List Param) (conditions : List Condition) (r : LogRow)
      → all (in_range params) conditions ≡ true
      → satisfies holds newest_first (params ++ more) conditions r
        ≡ satisfies holds newest_first params conditions r
  satisfies-append params more [] r h = refl
  satisfies-append params more (c ∷ cs) r h =
      let here = at-append_left (c.placeholder - 1) params more (ground arith) in
      let rest = satisfies-append params more cs r (ground arith) in rw (here, rest) refl

  in_range-append :
      (params more : List Param) (conditions : List Condition)
      → all (in_range params) conditions ≡ true
      → all (in_range (params ++ more)) conditions ≡ true
  in_range-append params more [] h = refl
  in_range-append params more (c ∷ cs) h =
      ground (arith, length-append params more, in_range-append params more cs (ground arith))

  -- A query whose conditions say of a row what the predicate says.
  record IsMeant (q : QueryText) (p : LogRow → Bool) : Type 0 where
    next : q.idx ≡ length q.params + 1
    bound : all (in_range q.params) q.conditions ≡ true
    meaning : (r : LogRow) → satisfies holds newest_first q.params q.conditions r ≡ p r

  -- A filter's test, which every row passes where the filter is not given.
  abbrev pub passes : Test → (Text → Text) → Option Text → LogRow → Bool
  passes test wrap none r = true
  passes test wrap (some v) r = holds test (wrap v) r

  push-IsMeant :
      (test : Test) (wrap : Text → Text) (value : Option Text) (q : QueryText) (p : LogRow → Bool)
      → IsMeant q p
      → IsMeant (push_condition test wrap value q) (λ r. p r && passes test wrap value r)
  push-IsMeant test wrap none q p h = record {
    next = h.next;
    bound = h.bound;
    meaning = λ r. h.meaning r ∙ ground arith;
  }
  push-IsMeant test wrap (some v) q p h =
      let params : List Param = q.params ++ text (wrap v) ∷ [] in
      let added : List Condition = record { test = test; placeholder = q.idx } ∷ [] in
      record {
        next = omega (arith, h.next, length-append q.params (text (wrap v) ∷ []));
        bound =
            all-append (in_range params) q.conditions added
            ∙ ground (
              arith,
              h.next,
              length-append q.params (text (wrap v) ∷ []),
              in_range-append q.params (text (wrap v) ∷ []) q.conditions h.bound,
            );
        meaning = λ r.
            let earlier =
              satisfies-append q.params (text (wrap v) ∷ []) q.conditions r h.bound ∙ h.meaning r in
            let place : q.idx - 1 ≡ length q.params = omega (arith, h.next) in
            let here = ap (λ n. at n params) place ∙ at-append_here q.params (text (wrap v)) [] in
            let last = ap (λ o. holds_param holds newest_first test o r) here in
            all-append (λ c. holds_param holds newest_first c.test (param c.placeholder params) r)
              q.conditions added
            ∙ (ap (λ b. b && (holds_param holds newest_first test (param q.idx params) r && true))
                  earlier
                ∙ (ap (λ b. p r && (b && true)) last ∙ ground arith));
      }

  -- The rows that the filters ask for.
  unfoldable pub wanted : AuditQueryFilters → LogRow → Bool
  wanted f r =
      (((((((holds org_is f.org_id r && passes actor_type_is plain (given f.actor_type) r)
                  && passes actor_is plain (given f.actor_id) r)
                && passes action_like wildcard (given f.action) r)
              && passes resource_type_is plain (given f.resource_type) r)
            && passes resource_id_is plain (given f.resource_id) r)
          && passes since plain (given f.from_date) r)
        && passes until plain (given f.to_date) r)
      && passes matches wildcard (given f.search) r

  add-IsMeant :
      (test : Test) (wrap : Text → Text) (value : Option Text) (q : QueryText) (p : LogRow → Bool)
      → IsMeant q p
      → IsMeant (add_condition test wrap value q) (λ r. p r && passes test wrap (given value) r)
  unfolding add_condition
  add-IsMeant test wrap value q p h = push-IsMeant test wrap (given value) q p h

  build_query-IsMeant : (f : AuditQueryFilters) → IsMeant (build_query f) (wanted f)
  unfolding build_query wanted
  build_query-IsMeant f = add-IsMeant matches wildcard f.search _ _ (
      add-IsMeant until plain f.to_date _ _ (
        add-IsMeant since plain f.from_date _ _ (
          add-IsMeant resource_id_is plain f.resource_id _ _ (
            add-IsMeant resource_type_is plain f.resource_type _ _ (
              add-IsMeant action_like wildcard f.action _ _ (
                add-IsMeant actor_is plain f.actor_id _ _ (
                  add-IsMeant actor_type_is plain f.actor_type _ _
                    (record { next = refl; bound = refl; meaning = λ r. ground arith }))))))))

  -- The page and the total that `queryAuditLogs` answers are those of the rows that the filters ask
  -- for, newest first from the offset on and no more than the limit: every condition reads the
  -- parameter that was pushed for it, and the limit and the offset read theirs.
  pub query_audit_logs_lem :
      (f : AuditQueryFilters) (rows : List LogRow)
      → query_audit_logs holds newest_first f rows ≡ (
        take_rows f.limit (drop_rows f.offset (newest_first (filter (wanted f) rows))),
        count_p (wanted f) rows,
      )
  unfolding query_audit_logs
  query_audit_logs_lem f rows =
      let q = build_query f in
      let h = build_query-IsMeant f in
      let limits : List Param = number f.limit ∷ number f.offset ∷ [] in
      let total : satisfies holds newest_first q.params q.conditions ≡ wanted f =
        fun_ext h.meaning in
      let page : satisfies holds newest_first (q.params ++ limits) q.conditions ≡ wanted f =
        fun_ext (λ r. satisfies-append q.params limits q.conditions r h.bound ∙ h.meaning r) in
      let place : q.idx - 1 ≡ length q.params = omega (arith, h.next) in
      let next_place : (q.idx + 1) - 1 ≡ length q.params + 1 = omega (arith, h.next) in
      let first =
        ap (λ n. at n (q.params ++ limits)) place
        ∙ at-append_here q.params (number f.limit) (number f.offset ∷ []) in
      let second =
        at-append_next (q.idx + 1 - 1) q.params (number f.limit) (number f.offset) next_place in
      rw (total, page, first, second) refl
