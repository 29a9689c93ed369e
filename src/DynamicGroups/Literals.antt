-- ===== src/DynamicGroups/Literals.antt =====
-- Texts that are the same outside literals, for the literals that `buildConditionSQL` writes.
use mathlib.Core.List.{append_assoc}
use mdm.Base.{
  ◌≡◌, refl, sym, ap, ◌∙◌, ◌≢◌, Bool, true, false, List, [], ◌∷◌, ◌++◌, map, if◌then◌else◌, Result,
  ok, err,
}
use mdm.Base.Text.{Text, codes, join}
use mdm.DynamicGroups.Lexer.{Mode, outside, inside, quoted, lex, lex-append, lex-escape}
use mdm.DynamicGroups.Rules.{Value, one, many, RuleError, quote, escape, plain_value, quoted_item}

abbrev pub IsClosed : Text → Type 0
IsClosed t = (lex outside t).0 ≢ inside

-- The same error, or two texts that are the same outside literals and end outside of one.
unfoldable pub Agree : Result RuleError Text → Result RuleError Text → Type 0
Agree (ok a) (ok b) = (lex outside a ≡ lex outside b) × IsClosed a
Agree (err e) (err e') = e ≡ e'
Agree (ok a) (err e) = ⊥
Agree (err e) (ok b) = ⊥

pub if_Agree :
    (b : Bool) (x x' y y' : Result RuleError Text)
    → (b ≡ true → Agree x x')
    → (b ≡ false → Agree y y')
    → Agree (if b then x else y) (if b then x' else y')
if_Agree true x x' y y' h k = h refl
if_Agree false x x' y y' h k = k refl

-- A text that begins with a space is read alike behind any closed text.
pub lex-space : (m : Mode) (rest : Text) → m ≢ inside → lex m (32 ∷ rest) ≡ lex outside (32 ∷ rest)
unfolding lex
lex-space outside rest h = refl
lex-space inside rest h = absurd (h refl)
lex-space quoted rest h = refl

pub opens :
    (column rest : Text) (m : Mode)
    → IsClosed column
    → (lex outside (32 ∷ rest)).0 ≡ m
    → (lex outside (column ++ 32 ∷ rest)).0 ≡ m
opens column rest m h e =
    rw (lex-append outside column (32 ∷ rest), lex-space (lex outside column).0 rest h) e

pub lex-plain_value :
    (v : Value) (rest : Text) → lex inside (plain_value v ++ rest) ≡ lex inside rest
lex-plain_value (one s) rest = lex-escape s rest
lex-plain_value (many vs) rest = refl

-- Inside a literal, a text that leaves no trace may be replaced by another.
pub literal_Agree :
    (a t t' after : Text)
    → (lex outside a).0 ≡ inside
    → lex inside (t ++ after) ≡ lex inside after
    → lex inside (t' ++ after) ≡ lex inside after
    → (lex inside after).0 ≢ inside
    → Agree (ok (a ++ (t ++ after))) (ok (a ++ (t' ++ after)))
unfolding Agree
literal_Agree a t t' after o e e' c = (
  rw (lex-append outside a (t ++ after), lex-append outside a (t' ++ after), o, e, e'),
  rw (lex-append outside a (t ++ after), o, e) c,
)

pub compare_Agree :
    (column rest : Text) (v v' : Value) (after : Text)
    → IsClosed column
    → (lex outside (32 ∷ rest)).0 ≡ inside
    → (lex inside after).0 ≢ inside
    → Agree
        (ok ((column ++ 32 ∷ rest) ++ (plain_value v ++ after)))
        (ok ((column ++ 32 ∷ rest) ++ (plain_value v' ++ after)))
compare_Agree column rest v v' after h o c =
    literal_Agree (column ++ 32 ∷ rest) (plain_value v) (plain_value v') after
      (opens column rest inside h o) (lex-plain_value v after) (lex-plain_value v' after) c

-- An item of an `IN` list: its quotes open and close, and its text leaves no trace.
item_lex :
    (v rest : Text)
    → lex outside (quoted_item v ++ rest) ≡ ((lex quoted rest).0, quote ∷ (lex quoted rest).1)
unfolding lex
item_lex v rest = rw (append_assoc (escape v) (codes "'") rest, lex-escape v (quote ∷ rest))

abbrev pub blanks : List Text → List Text
blanks = map (λ v. [])

items_step :
    (v items rest : Text)
    → lex outside ((quoted_item v ++ (codes ", " ++ items)) ++ rest)
      ≡ ((lex outside (items ++ rest)).0, quote ∷ 44 ∷ 32 ∷ (lex outside (items ++ rest)).1)
unfolding lex
items_step v items rest =
    ap (lex outside) (append_assoc (quoted_item v) (codes ", " ++ items) rest)
    ∙ item_lex v ((codes ", " ++ items) ++ rest)

items_lex :
    (vs : List Text) (rest : Text)
    → lex outside (join (codes ", ") (map quoted_item vs) ++ rest)
      ≡ lex outside (join (codes ", ") (map quoted_item (blanks vs)) ++ rest)
items_lex [] rest = refl
items_lex (v ∷ []) rest = item_lex v rest ∙ sym (item_lex [] rest)
items_lex (v ∷ w ∷ vs) rest =
    items_step v (join (codes ", ") (map quoted_item (w ∷ vs))) rest
    ∙ (ap (λ (p : Mode × Text). (p.0, quote ∷ 44 ∷ 32 ∷ p.1)) (items_lex (w ∷ vs) rest)
        ∙ sym (items_step [] (join (codes ", ") (map quoted_item (blanks (w ∷ vs)))) rest))

items_closed :
    (vs : List Text)
    → (lex outside (join (codes ", ") (map quoted_item vs) ++ codes ")")).0 ≡ outside
unfolding lex
items_closed [] = refl
items_closed (v ∷ []) = rw (item_lex v (codes ")"))
items_closed (v ∷ w ∷ vs) =
    ap (λ (p : Mode × Text). p.0)
      (items_step v (join (codes ", ") (map quoted_item (w ∷ vs))) (codes ")"))
    ∙ items_closed (w ∷ vs)

-- Behind a prefix that ends outside literals.
prefixed_Agree :
    (a t t' : Text)
    → (lex outside a).0 ≡ outside
    → lex outside t ≡ lex outside t'
    → (lex outside t).0 ≢ inside
    → Agree (ok (a ++ t)) (ok (a ++ t'))
unfolding Agree
prefixed_Agree a t t' o e c =
    (rw (lex-append outside a t, lex-append outside a t', o, e), rw (lex-append outside a t, o) c)

pub outside≢inside : outside ≢ inside
outside≢inside e = cc

pub in_Agree :
    (column : Text) (vs : List Text)
    → IsClosed column
    → Agree
        (ok ((column ++ codes " IN (") ++ (join (codes ", ") (map quoted_item vs) ++ codes ")")))
        (ok (
          (column ++ codes " IN (")
          ++ (join (codes ", ") (map quoted_item (blanks vs)) ++ codes ")")))
unfolding lex
in_Agree column vs h =
    prefixed_Agree (column ++ codes " IN (") (join (codes ", ") (map quoted_item vs) ++ codes ")")
      (join (codes ", ") (map quoted_item (blanks vs)) ++ codes ")")
      (opens column (codes "IN (") outside h refl) (items_lex vs (codes ")"))
      (λ e. outside≢inside (sym (items_closed vs) ∙ e))
