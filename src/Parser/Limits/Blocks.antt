-- ===== src/Parser/Limits/Blocks.antt =====
-- The nesting of blocks and expressions together, which MAX_NESTING of src/parser/limits.rs bounds.
use speck.Base.{ℕ, suc, ◌+◌, ◌≤◌, Option, none, some, All}
use speck.Parser.Limits.Height.{height}
use speck.Parser.Limits.{max_nesting}
use speck.Resolution.Limits.{InLimits}
use speck.Syntax.Expr.{Expr}
use speck.Syntax.Stmt.{
  StmtKind, Stmt, stmt, Block, nil, cons, push, Function, Constant, Global, Program,
}

abbrev pub Below : ℕ → Expr → Type 0
Below n e = n + height e ≤ max_nesting

abbrev pub MayBelow : ℕ → Option Expr → Type 0
MayBelow n none = Unit
MayBelow n (some e) = Below n e

-- The statements of a block that is nested `n` deep, and all in them, lie within the limit.
unfoldable mutual
  pub KindWithin : ℕ → StmtKind → Type 0
  KindWithin n (StmtKind.let_local name ty init) = Below n init
  KindWithin n (StmtKind.assign target op value) = Below n target × Below n value
  KindWithin n (StmtKind.expr e) = Below n e
  KindWithin n (StmtKind.if_then condition body) = Below n condition × BlockWithin (suc n) body
  KindWithin n (StmtKind.if_else condition body otherwise) =
      Below n condition × BlockWithin (suc n) body × BlockWithin (suc n) otherwise
  KindWithin n (StmtKind.while condition body) = Below n condition × BlockWithin (suc n) body
  KindWithin n (StmtKind.for_range name span lower upper body) =
      Below n lower × Below n upper × BlockWithin (suc n) body
  KindWithin n (StmtKind.return value) = MayBelow n value

  pub StmtWithin : ℕ → Stmt → Type 0
  StmtWithin n (stmt kind span) = KindWithin n kind

  pub BlockWithin : ℕ → Block → Type 0
  BlockWithin n nil = n ≤ max_nesting
  BlockWithin n (cons s rest) = StmtWithin n s × BlockWithin n rest

pub push-BlockWithin :
    (n : ℕ) (b : Block) (s : Stmt) → BlockWithin n b → StmtWithin n s → BlockWithin n (push b s)
unfolding push KindWithin
push-BlockWithin n nil s h k = (k, h)
push-BlockWithin n (cons t b) s h k = (h.0, push-BlockWithin n b s h.1 k)

-- The functions and initializers of a program lie within the limit, and the resolution does.
pub record ProgramWithin (p : Program) : Type 0 where
  pub resolution : InLimits p.resolution
  pub bodies : All (λ (f : Function). BlockWithin 1 f.body) p.functions
  pub constants : All (λ (c : Constant). Below 0 c.init) p.constants
  pub globals : All (λ (g : Global). Below 0 g.init) p.globals
