-- ===== src/Syntax/Stmt.antt =====
-- Statements, declarations and programs of src/ast.rs.
use speck.Base.{Text, Option, List}
use speck.Diagnostic.{Span}
use speck.Resolution.{Resolution}
use speck.Syntax.{ValueType, ReturnType, AssignOp, FunctionKind, StructDecl, SoundAsset, Param}
use speck.Syntax.Expr.{Expr}
use speck.Syntax.Value.{ConstantValue}

-- A `Block` is a type of the block; an `else` branch is `none` or a block.
mutual
  pub data StmtKind : Type 0 where
    let_local : Text → ValueType → Expr → StmtKind
    assign : Expr → AssignOp → Expr → StmtKind
    expr : Expr → StmtKind
    if_then : Expr → Block → StmtKind
    if_else : Expr → Block → Block → StmtKind
    while : Expr → Block → StmtKind
    for_range : Text → Span → Expr → Expr → Block → StmtKind
    return : Option Expr → StmtKind

  pub data Stmt : Type 0 where
    stmt : StmtKind → Span → Stmt

  pub data Block : Type 0 where
    nil : Block
    cons : Stmt → Block → Block

unfoldable pub push : Block → Stmt → Block
push nil s = cons s nil
push (cons x xs) s = cons x (push xs s)

-- The value of a constant or a global is filled in by semantic analysis.
pub record Constant : Type 0 where
  pub name : Text
  pub ty : ValueType
  pub init : Expr
  pub value : Option ConstantValue
  pub span : Span

pub record Global : Type 0 where
  pub name : Text
  pub ty : ValueType
  pub init : Expr
  pub value : Option ConstantValue
  pub span : Span

pub record Function : Type 0 where
  pub name : Text
  pub kind : FunctionKind
  pub params : List Param
  pub return_type : ReturnType
  pub body : Block
  pub span : Span

pub record Program : Type 0 where
  pub resolution : Resolution
  pub title : Text
  pub title_span : Span
  pub structs : List StructDecl
  pub sounds : List SoundAsset
  pub constants : List Constant
  pub globals : List Global
  pub functions : List Function
