-- ===== src/DynamicGroups/Injection.antt =====
-- The SQL text of a rule (`buildRuleSQL`) against that of the rule without its values.
use mathlib.Core.List.{append_assoc}
use mdm.Base.{
  ℕ, ◌≡◌, refl, sym, ap, ◌∙◌, ◌≢◌, String, false, Option, List, [], ◌∷◌, ◌++◌, ◌==◌, Result, ok,
  err, ◌>>=◌,
}
use mdm.Base.Text.{Text, codes, join}
use mdm.DynamicGroups.Lexer.{Mode, outside, inside, quoted, lex, lex-append}
use mdm.DynamicGroups.Literals.{IsClosed, Agree, outside≢inside}
use mdm.DynamicGroups.Conditions.{blank, InheritedIsClosed, build_condition-Agree}
use mdm.DynamicGroups.Rules.{
  Operator, conjunction, disjunction, Rule, condition, group, Rules, end, rule, RuleError, quote,
  joiner, build_rule, build_rules,
}

-- The rule with the value of every condition blanked.
mutual
  pub blank_rule : Rule → Rule
  blank_rule (condition c) = condition (blank c)
  blank_rule (group o rs) = group o (blank_rules rs)

  pub blank_rules : Rules → Rules
  blank_rules end = end
  blank_rules (rule r rs) = rule (blank_rule r) (blank_rules rs)

-- Part by part the same outside literals, each part ending outside of one.
data Alike : List Text → List Text → Type 0 where
  none_left : Alike [] []
  one_more :
      {a b : Text} {as' bs : List Text}
      → lex outside a ≡ lex outside b
      → IsClosed a
      → Alike as' bs
      → Alike (a ∷ as') (b ∷ bs)

abbrev AgreeParts : Result RuleError (List Text) → Result RuleError (List Text) → Type 0
AgreeParts (ok ps) (ok qs) = Alike ps qs
AgreeParts (err e) (err e') = e ≡ e'
AgreeParts (ok ps) (err e) = ⊥
AgreeParts (err e) (ok qs) = ⊥

lex-plain :
    (m : Mode) (c : ℕ) (rest : Text)
    → m ≢ inside
    → (c == quote) ≡ false
    → lex m (c ∷ rest) ≡ lex outside (c ∷ rest)
unfolding lex
lex-plain outside c rest h e = refl
lex-plain inside c rest h e = absurd (h refl)
lex-plain quoted c rest h e = rw e

-- Two closed texts that agree, before texts that agree and begin with a plain character.
lex_seq :
    (a b : Text) (c : ℕ) (r r' : Text)
    → lex outside a ≡ lex outside b
    → IsClosed a
    → (c == quote) ≡ false
    → lex outside (c ∷ r) ≡ lex outside (c ∷ r')
    → lex outside (a ++ c ∷ r) ≡ lex outside (b ++ c ∷ r')
lex_seq a b c r r' same closed plain e = rw (
  lex-append outside a (c ∷ r),
  lex-append outside b (c ∷ r'),
  ← same,
  lex-plain (lex outside a).0 c r closed plain,
  lex-plain (lex outside a).0 c r' closed plain,
  e,
)

close_lex : (a : Text) → IsClosed a → (lex outside (a ++ codes ")")).0 ≡ outside
unfolding lex
close_lex a closed =
    ap (λ (p : Mode × Text). p.0) (lex-append outside a (codes ")"))
    ∙ ap (λ (p : Mode × Text). p.0) (lex-plain (lex outside a).0 41 [] closed refl)

parts : Operator → List Text → Text
parts o ps = join (joiner o) ps ++ codes ")"

parts_cons :
    (o : Operator) (a b : Text) (ps : List Text)
    → parts o (a ∷ b ∷ ps) ≡ a ++ (joiner o ++ parts o (b ∷ ps))
unfolding parts
parts_cons conjunction a b ps =
    append_assoc a (joiner conjunction ++ join (joiner conjunction) (b ∷ ps)) (codes ")")
parts_cons disjunction a b ps =
    append_assoc a (joiner disjunction ++ join (joiner disjunction) (b ∷ ps)) (codes ")")

joined_lex :
    (o : Operator) (a b t t' : Text)
    → lex outside a ≡ lex outside b
    → IsClosed a
    → lex outside t ≡ lex outside t'
    → lex outside (a ++ (joiner o ++ t)) ≡ lex outside (b ++ (joiner o ++ t'))
unfolding lex
joined_lex conjunction a b t t' same closed e =
    lex_seq a b 32 _ _ same closed refl (ap (λ (p : Mode × Text). (p.0, codes " AND " ++ p.1)) e)
joined_lex disjunction a b t t' same closed e =
    lex_seq a b 32 _ _ same closed refl (ap (λ (p : Mode × Text). (p.0, codes " OR " ++ p.1)) e)

joined_closed :
    (o : Operator) (a t : Text)
    → IsClosed a
    → (lex outside (a ++ (joiner o ++ t))).0 ≡ (lex outside t).0
unfolding lex
joined_closed conjunction a t closed =
    ap (λ (p : Mode × Text). p.0) (lex-append outside a (joiner conjunction ++ t))
    ∙ ap (λ (p : Mode × Text). p.0) (lex-plain (lex outside a).0 32 (codes "AND " ++ t) closed refl)
joined_closed disjunction a t closed =
    ap (λ (p : Mode × Text). p.0) (lex-append outside a (joiner disjunction ++ t))
    ∙ ap (λ (p : Mode × Text). p.0) (lex-plain (lex outside a).0 32 (codes "OR " ++ t) closed refl)

lex-parts :
    (o : Operator) {ps qs : List Text}
    → Alike ps qs
    → lex outside (parts o ps) ≡ lex outside (parts o qs)
unfolding parts
lex-parts o none_left = refl
lex-parts o (one_more {a} {b} same closed none_left) = lex_seq a b 41 [] [] same closed refl refl
lex-parts o
      (one_more {a} {b} same closed
        (one_more {a = a'} {b = b'} {as' = ps} {bs = qs} same' closed' more)) =
    rw (parts_cons o a a' ps, parts_cons o b b' qs)
      (joined_lex o a b _ _ same closed (lex-parts o (one_more same' closed' more)))

parts_closed :
    (o : Operator) {ps qs : List Text} → Alike ps qs → (lex outside (parts o ps)).0 ≡ outside
unfolding parts lex
parts_closed o none_left = refl
parts_closed o (one_more {a} same closed none_left) = close_lex a closed
parts_closed o
      (one_more {a} same closed (one_more {a = a'} {b = b'} {as' = ps} same' closed' more)) =
    ap (λ t. (lex outside t).0) (parts_cons o a a' ps)
    ∙ (joined_closed o a (parts o (a' ∷ ps)) closed
        ∙ parts_closed o (one_more {b = b'} same' closed' more))

group_Agree :
    (o : Operator) (r r' : Result RuleError (List Text))
    → AgreeParts r r'
    → Agree
        (r >>= λ ps. ok (codes "(" ++ (join (joiner o) ps ++ codes ")")))
        (r' >>= λ ps. ok (codes "(" ++ (join (joiner o) ps ++ codes ")")))
unfolding Agree parts lex
group_Agree o (ok ps) (ok qs) h = (
  ap (λ (p : Mode × Text). (p.0, 40 ∷ p.1)) (lex-parts o h),
  λ e. outside≢inside (sym (parts_closed o h) ∙ e),
)
group_Agree o (err e) (err e') h = h
group_Agree o (ok ps) (err e) h = h
group_Agree o (err e) (ok qs) h = h

cons_AgreeParts :
    (r r' : Result RuleError Text) (rs rs' : Result RuleError (List Text))
    → Agree r r'
    → AgreeParts rs rs'
    → AgreeParts
        (r >>= λ part. rs >>= λ more. ok (part ∷ more))
        (r' >>= λ part. rs' >>= λ more. ok (part ∷ more))
unfolding Agree
cons_AgreeParts (ok a) (ok b) (ok ps) (ok qs) h k = one_more h.0 h.1 k
cons_AgreeParts (ok a) (ok b) (err e) (err e') h k = k
cons_AgreeParts (ok a) (ok b) (ok ps) (err e) h k = k
cons_AgreeParts (ok a) (ok b) (err e) (ok qs) h k = k
cons_AgreeParts (err e) (err e') rs rs' h k = h
cons_AgreeParts (ok a) (err e) rs rs' h k = absurd h
cons_AgreeParts (err e) (ok b) rs rs' h k = absurd h

module _ (inherited : String → Option Text) (h : InheritedIsClosed inherited) where
  mutual
    unfolding build_rule blank_rule

    rule_Agree : (r : Rule) → Agree (build_rule inherited r) (build_rule inherited (blank_rule r))
    rule_Agree (condition c) = build_condition-Agree inherited c h
    rule_Agree (group o rs) =
        group_Agree o (build_rules inherited rs) (build_rules inherited (blank_rules rs))
          (rules_Agree rs)

    rules_Agree :
        (rs : Rules)
        → AgreeParts (build_rules inherited rs) (build_rules inherited (blank_rules rs))
    rules_Agree end = none_left
    rules_Agree (rule r rs) =
        cons_AgreeParts (build_rule inherited r) (build_rule inherited (blank_rule r))
          (build_rules inherited rs) (build_rules inherited (blank_rules rs)) (rule_Agree r)
          (rules_Agree rs)

-- The SQL text of a rule, outside its quoted literals, is that of the rule with all its values
-- blanked, and it ends outside a literal; where a rule is refused, both give the same error. So no
-- value injects SQL. The condition is that keys which `FIELD_COLUMN_MAP` inherits from the
-- prototype give no text that ends inside a literal.
pub build_rule-Agree :
    (inherited : String → Option Text) (r : Rule)
    → InheritedIsClosed inherited
    → Agree (build_rule inherited r) (build_rule inherited (blank_rule r))
build_rule-Agree inherited r h = rule_Agree inherited h r
