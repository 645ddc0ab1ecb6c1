-- ===== src/Parser/Safe/Expression/Levels.antt =====
-- The levels of precedence, from `factor` to `logical_or`.
use speck.Base.{ℕ, zero, suc, ◌+◌, ◌≤◌, false, List, Option, none, some, ◌≡◌, refl, arith, length}
use speck.Diagnostic.{SourceId}
use speck.Lexer.Token.{Token, TokenKind}
use speck.Parser.Expression.{
  binary, operator, or_operator, and_operator, equality_operator, comparison_operator,
  term_operator, factor_operator, binary_step, binary_loop, level, factor, term, comparison,
  equality, logical_and, logical_or,
}
use speck.Parser.Safe.Primitives.{take-Safe, merged-Safe}
use speck.Parser.Safe.Rules.{IsBounded, Consumes, Preserves, checked-Safe, with_fuel-Safe}
use speck.Parser.Safe.{is_eof, IsFile, At, Ensures, returns, Keeps, Anything, ◌⟫◌, lower, branch}
use speck.Parser.State.{Parser, M, return}
use speck.Syntax.Expr.{Expr, span_of}
use speck.Syntax.{BinaryOp}

module _ {k : SourceId} {toks : List Token} (file : IsFile k toks) (n v : ℕ) where
  abbrev Operators : M (Option BinaryOp) → Type 0
  Operators = Preserves toks Anything n v

  abbrev Operands : M Expr → Type 0
  Operands = Consumes toks (IsBounded k n) n v

  operator-Safe :
      (kind : TokenKind) (op : BinaryOp) (otherwise : M (Option BinaryOp))
      → is_eof kind ≡ false
      → Operators otherwise
      → Operators (operator kind op otherwise)
  unfolding operator
  operator-Safe kind op otherwise inner later c s p =
      take-Safe file kind s inner p ⟫ λ taken s₁ (p₁, _).
      branch taken _ _ (λ _. returns (tt, p₁)) (λ _. later c s₁ p₁)

  no_operator : Operators (return none)
  no_operator c s p = returns (tt, p)

  binary-Safe :
      {c : ℕ} (left : Expr) (op : BinaryOp) (right : Expr) (s : Parser)
      → IsBounded k n left
      → IsBounded k n right
      → At toks n v c s
      → Ensures (Keeps toks (IsBounded k n) n v c) (binary left op right s)
  unfolding binary
  binary-Safe left op right s l r p =
      merged-Safe file (span_of left) (span_of right) s l.from r.from p ⟫ λ span s₁ (from, p₁).
      checked-Safe _ span s₁ from p₁

  binary_step-Safe :
      (again : Expr → M Expr) (operand : M Expr) (c : ℕ) (left : Expr) (o : Option BinaryOp)
      (s : Parser)
      → ((e : Expr) (s : Parser)
          → IsBounded k n e
          → At toks n v (suc c) s
          → Ensures (Keeps toks (IsBounded k n) n v (suc c)) (again e s))
      → Operands operand
      → IsBounded k n left
      → At toks n v c s
      → Ensures (Keeps toks (IsBounded k n) n v c) (binary_step again operand left o s)
  unfolding binary_step
  binary_step-Safe again operand c left none s next operands l p = returns (l, p)
  binary_step-Safe again operand c left (some op) s next operands l p =
      operands c s p ⟫ λ right s₁ (r, p₁). binary-Safe left op right s₁ l r p₁ ⟫ λ whole s₂ (w, p₂).
      lower c (omega arith) (next whole s₂ w p₂)

  binary_loop-Safe :
      (read_operator : M (Option BinaryOp)) (operand : M Expr) (fuel c : ℕ) (left : Expr)
      (s : Parser)
      → Operators read_operator
      → Operands operand
      → length toks ≤ c + fuel
      → IsBounded k n left
      → At toks n v c s
      → Ensures (Keeps toks (IsBounded k n) n v c) (binary_loop read_operator operand fuel left s)
  unfolding binary_loop
  binary_loop-Safe read_operator operand zero c left s operators operands enough l p =
      absurd (omega (arith, p.low, p.high))
  binary_loop-Safe read_operator operand (suc fuel) c left s operators operands enough l p =
      operators c s p ⟫ λ o s₁ (_, p₁).
      binary_step-Safe (binary_loop read_operator operand fuel) operand c left o s₁
        (λ e s' b q.
          binary_loop-Safe read_operator operand fuel (suc c) e s' operators operands (omega arith)
            b q)
        operands l p₁

  level-Safe :
      (read_operator : M (Option BinaryOp)) (operand : M Expr)
      → Operators read_operator
      → Operands operand
      → Operands (level read_operator operand)
  unfolding level
  level-Safe read_operator operand operators operands c s p = operands c s p ⟫ λ first s₁ (b, p₁).
      with_fuel-Safe (λ fuel. binary_loop read_operator operand fuel first) s₁ p₁
        λ fuel enough.
          binary_loop-Safe read_operator operand fuel (suc c) first s₁ operators operands enough b
            p₁

  pub logical_or-Safe : (unary : M Expr) → Operands unary → Operands (logical_or unary)
  unfolding logical_or logical_and equality comparison term factor or_operator and_operator
      equality_operator comparison_operator term_operator factor_operator
  logical_or-Safe unary operands =
      level-Safe _ _ (operator-Safe TokenKind.or_or _ _ refl no_operator) (
        level-Safe _ _ (operator-Safe TokenKind.and_and _ _ refl no_operator) (
          level-Safe _ _
            (operator-Safe TokenKind.equal_equal _ _ refl
              (operator-Safe TokenKind.bang_equal _ _ refl no_operator))
            (level-Safe _ _
              (operator-Safe TokenKind.less _ _ refl (
                operator-Safe TokenKind.less_equal _ _ refl (
                  operator-Safe TokenKind.greater _ _ refl
                    (operator-Safe TokenKind.greater_equal _ _ refl no_operator))))
              (level-Safe _ _
                (operator-Safe TokenKind.plus _ _ refl
                  (operator-Safe TokenKind.minus _ _ refl no_operator))
                (level-Safe _ _
                  (operator-Safe TokenKind.star _ _ refl (
                    operator-Safe TokenKind.slash _ _ refl
                      (operator-Safe TokenKind.percent _ _ refl no_operator)))
                  operands)))))
