-- ===== src/Sema/TypeResolution.antt =====
-- src/sema/type_resolution.rs: the declared array lengths of a program are resolved. The evaluator
-- of length constants is a parameter.
pub mod Sized
use speck.Base.{
  ℕ, Text, text, ◌++◌, same_text, Bool, true, false, ◌&&◌, ◌||◌, ◌==◌, Option, none, some, List, [],
  ◌∷◌, if◌then◌else◌,
}
use speck.Base.Decimal.{show_ℤ}
use speck.Base.Int.{ℤ, pos, negsuc, leb_ℤ, ltb_ℤ, pos_part}
use speck.Diagnostic.{Span, Diagnostic, new_diagnostic}
use speck.Result.{Result, ok, err, and_then}
use speck.Syntax.{
  ArrayLength, literal, constant, resolved, invalid, ValueType, ReturnType, value, void,
  StructField, StructDecl, Param,
}
use speck.Syntax.Stmt.{
  StmtKind, let_local, assign, expr, if_then, if_else, while, for_range, return, Stmt, stmt, Block,
  nil, cons, Constant, Global, Function, Program,
}

-- `positive_array_length`; a `usize` holds every positive `i32`.
unfoldable pub positive_array_length : ℤ → Span → Result Diagnostic ℕ
positive_array_length n span =
    if leb_ℤ n (pos 0)
    then err (new_diagnostic (text "array length must be positive, found " ++ show_ℤ n) span)
    else if ltb_ℤ (pos 0x7fffffff) n
    then err (new_diagnostic (text "array length exceeds the maximum i32 index range") span)
    else ok (pos_part n)

same_diagnostic : Diagnostic → Diagnostic → Bool
same_diagnostic a b =
    same_text a.message b.message
    && a.span.source == b.span.source
    && a.span.start == b.span.start
    && a.span.end == b.span.end

-- `push_unique_diagnostic` of src/sema.rs
unfoldable pub push_unique_diagnostic : List Diagnostic → Diagnostic → List Diagnostic
unfolding same_diagnostic
push_unique_diagnostic [] d = d ∷ []
push_unique_diagnostic (x ∷ diagnostics) d =
    let rest = push_unique_diagnostic diagnostics d in
    if same_diagnostic x d then x ∷ diagnostics else x ∷ rest

-- The evaluator and the diagnostics, which the resolution of each type changes.
pub record Resolving (S : Type 0) : Type 0 where
  pub evaluator : S
  pub diagnostics : List Diagnostic

-- A positive length.
unfoldable pub sized : ℤ → Span → Result Diagnostic ArrayLength
unfolding positive_array_length
sized n span = and_then (positive_array_length n span) (λ m. ok (resolved m))

-- What an array length becomes, and the diagnostics.
unfoldable pub settle_length :
    {S : Type 0} → Resolving S → Result Diagnostic ArrayLength → ArrayLength × Resolving S
unfolding push_unique_diagnostic
settle_length s (ok length) = (length, s)
settle_length s (err d) = (
  invalid,
  record { evaluator = s.evaluator; diagnostics = push_unique_diagnostic s.diagnostics d },
)

module _ {S : Type 0} (evaluate : S → Text → Span → Result Diagnostic ℤ × S) where
  unfoldable pub resolve_length : ArrayLength → Resolving S → ArrayLength × Resolving S
  unfolding settle_length sized
  resolve_length (literal n span) s = settle_length s (sized n span)
  resolve_length (constant name span) s =
      let found = evaluate s.evaluator name span in
      settle_length (record { evaluator = found.1; diagnostics = s.diagnostics })
        (and_then found.0 (λ n. sized n span))
  resolve_length (resolved n) s = (resolved n, s)
  resolve_length invalid s = (invalid, s)

  unfoldable pub resolve_value_type : ValueType → Resolving S → ValueType × Resolving S
  unfolding resolve_length
  resolve_value_type (ValueType.array element length) s =
      let inner = resolve_value_type element s in
      let outer = resolve_length length inner.1 in (ValueType.array inner.0 outer.0, outer.1)
  resolve_value_type ty s = (ty, s)

  unfoldable mutual
    unfolding resolve_value_type

    pub resolve_kind : StmtKind → Resolving S → StmtKind × Resolving S
    resolve_kind (let_local name ty e) s =
        let r = resolve_value_type ty s in (let_local name r.0 e, r.1)
    resolve_kind (if_then c block) s = let r = resolve_block_types block s in (if_then c r.0, r.1)
    resolve_kind (if_else c block other) s =
        let r = resolve_block_types block s in
        let q = resolve_block_types other r.1 in (if_else c r.0 q.0, q.1)
    resolve_kind (while c block) s = let r = resolve_block_types block s in (while c r.0, r.1)
    resolve_kind (for_range name span from to block) s =
        let r = resolve_block_types block s in (for_range name span from to r.0, r.1)
    resolve_kind (assign target op e) s = (assign target op e, s)
    resolve_kind (expr e) s = (expr e, s)
    resolve_kind (return e) s = (return e, s)

    pub resolve_stmt : Stmt → Resolving S → Stmt × Resolving S
    resolve_stmt (stmt kind span) s = let r = resolve_kind kind s in (stmt r.0 span, r.1)

    pub resolve_block_types : Block → Resolving S → Block × Resolving S
    resolve_block_types nil s = (nil, s)
    resolve_block_types (cons x xs) s =
        let r = resolve_stmt x s in let q = resolve_block_types xs r.1 in (cons r.0 q.0, q.1)

  -- `for item in &mut items`
  unfoldable pub each :
      {A : Type 0}
      → (A → Resolving S → A × Resolving S)
      → List A
      → Resolving S
      → List A × Resolving S
  each step [] s = ([], s)
  each step (x ∷ xs) s = let r = step x s in let q = each step xs r.1 in (r.0 ∷ q.0, q.1)

  unfoldable pub resolve_field : StructField → Resolving S → StructField × Resolving S
  unfolding resolve_value_type
  resolve_field f s = let r = resolve_value_type f.ty s in (record f { ty = r.0 }, r.1)

  unfoldable pub resolve_struct : StructDecl → Resolving S → StructDecl × Resolving S
  unfolding each resolve_field
  resolve_struct d s = let r = each resolve_field d.fields s in (record d { fields = r.0 }, r.1)

  unfoldable pub resolve_constant : Constant → Resolving S → Constant × Resolving S
  unfolding resolve_value_type
  resolve_constant c s = let r = resolve_value_type c.ty s in (record c { ty = r.0 }, r.1)

  unfoldable pub resolve_global : Global → Resolving S → Global × Resolving S
  unfolding resolve_value_type
  resolve_global g s = let r = resolve_value_type g.ty s in (record g { ty = r.0 }, r.1)

  unfoldable pub resolve_param : Param → Resolving S → Param × Resolving S
  unfolding resolve_value_type
  resolve_param p s = let r = resolve_value_type p.ty s in (record p { ty = r.0 }, r.1)

  unfoldable pub resolve_return : ReturnType → Resolving S → ReturnType × Resolving S
  unfolding resolve_value_type
  resolve_return (value ty) s = let r = resolve_value_type ty s in (value r.0, r.1)
  resolve_return void s = (void, s)

  unfoldable pub resolve_function : Function → Resolving S → Function × Resolving S
  unfolding each resolve_param resolve_return resolve_block_types
  resolve_function f s =
      let params = each resolve_param f.params s in
      let result = resolve_return f.return_type params.1 in
      let body = resolve_block_types f.body result.1 in
      (record f { params = params.0; return_type = result.0; body = body.0 }, body.1)

  -- `resolve_program_types`, whose result is the evaluator's failures.
  unfoldable pub resolve_program_types : Program → Resolving S → Program × Resolving S
  unfolding each resolve_struct resolve_constant resolve_global resolve_function
  resolve_program_types p s =
      let structs = each resolve_struct p.structs s in
      let constants = each resolve_constant p.constants structs.1 in
      let globals = each resolve_global p.globals constants.1 in
      let functions = each resolve_function p.functions globals.1 in
      (
        record p {
          structs = structs.0;
          constants = constants.0;
          globals = globals.0;
          functions = functions.0;
        },
        functions.1,
      )
