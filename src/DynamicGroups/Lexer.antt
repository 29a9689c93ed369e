-- ===== src/DynamicGroups/Lexer.antt =====
-- How SQL reads single-quoted literals, the independent description of what dynamic-groups.ts
-- builds: a doubled quote inside a literal stands for one quote and does not end it.
use mdm.Base.{ℕ, ◌≡◌, refl, [], ◌∷◌, ◌++◌, arith, ◌==◌, if◌then◌else◌}
use mdm.Base.Text.{Text}
use mdm.DynamicGroups.Rules.{quote, escape}

-- `quoted` stands just after a quote met inside a literal.
pub data Mode : Type 0 where
  outside inside quoted : Mode

unfoldable pub next_mode : Mode → ℕ → Mode
next_mode outside c = if c == quote then inside else outside
next_mode inside c = if c == quote then quoted else inside
next_mode quoted c = if c == quote then inside else outside

-- The characters outside literals are kept, and the quote that opens a literal.
unfoldable pub emit : Mode → ℕ → Text → Text
emit outside c out = c ∷ out
emit inside c out = out
emit quoted c out = if c == quote then out else c ∷ out

-- The mode at the end of a text, and the text outside its literals.
unfoldable pub lex : Mode → Text → Mode × Text
unfolding next_mode emit
lex m [] = (m, [])
lex m (c ∷ cs) = let (e, out) = lex (next_mode m c) cs in (e, emit m c out)

pub lex-append :
    (m : Mode) (xs ys : Text)
    → lex m (xs ++ ys) ≡ ((lex (lex m xs).0 ys).0, (lex m xs).1 ++ (lex (lex m xs).0 ys).1)
unfolding lex
lex-append m [] ys = refl
lex-append outside (x ∷ xs) ys = ground (arith, lex-append outside xs ys, lex-append inside xs ys)
lex-append inside (x ∷ xs) ys = ground (arith, lex-append quoted xs ys, lex-append inside xs ys)
lex-append quoted (x ∷ xs) ys = ground (arith, lex-append outside xs ys, lex-append inside xs ys)

-- An escaped value leaves no trace, and the literal goes on behind it.
pub lex-escape : (v rest : Text) → lex inside (escape v ++ rest) ≡ lex inside rest
unfolding lex escape
lex-escape [] rest = refl
lex-escape (c ∷ cs) rest = ground (arith, lex-escape cs rest)
