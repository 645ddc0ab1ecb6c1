-- ===== src/Sema/TypeResolution/Sized.antt =====
-- What src/sema/type_resolution.rs leaves of the array lengths of a program.
use speck.Base.{ℕ, ◌≤◌, Text, List, [], ◌∷◌, All, arith, leb, ltb, ◌+◌, suc, if_both}
use speck.Base.Int.{ℤ, pos, negsuc}
use speck.Diagnostic.{Span, Diagnostic}
use speck.Result.{Result, ok, err, and_then}
use speck.Sema.TypeResolution.{
  Resolving, positive_array_length, sized, settle_length, resolve_length, resolve_value_type,
  resolve_block_types, resolve_kind, resolve_stmt, each, resolve_field, resolve_struct,
  resolve_constant, resolve_global, resolve_param, resolve_return, resolve_function,
  resolve_program_types,
}
use speck.Syntax.{
  ArrayLength, literal, constant, resolved, invalid, ValueType, ReturnType, value, void,
  StructField, StructDecl, Param,
}
use speck.Syntax.Stmt.{
  StmtKind, let_local, assign, expr, if_then, if_else, while, for_range, return, Stmt, stmt, Block,
  nil, cons, Constant, Global, Function, Program,
}

-- A length that indices of type `i32` reach.
unfoldable pub InRange : ℕ → Type 0
InRange n = (1 ≤ n) × (n ≤ 0x7fffffff)

-- A length before and after the resolution.
unfoldable pub OpenLength : ArrayLength → Type 0
OpenLength (resolved n) = InRange n
OpenLength _ = Unit

unfoldable pub SizedLength : ArrayLength → Type 0
SizedLength (resolved n) = InRange n
SizedLength invalid = Unit
SizedLength _ = ⊥

-- Every length of a type.
unfoldable pub Lengths : (ArrayLength → Type 0) → ValueType → Type 0
Lengths P (ValueType.array element length) = Lengths P element × P length
Lengths P _ = Unit

unfoldable pub ReturnLengths : (ArrayLength → Type 0) → ReturnType → Type 0
unfolding Lengths
ReturnLengths P (value ty) = Lengths P ty
ReturnLengths P void = Unit

unfoldable mutual
  unfolding Lengths

  pub KindLengths : (ArrayLength → Type 0) → StmtKind → Type 0
  KindLengths P (let_local name ty e) = Lengths P ty
  KindLengths P (if_then c block) = BlockLengths P block
  KindLengths P (if_else c block other) = BlockLengths P block × BlockLengths P other
  KindLengths P (while c block) = BlockLengths P block
  KindLengths P (for_range name span from to block) = BlockLengths P block
  KindLengths P _ = Unit

  pub StmtLengths : (ArrayLength → Type 0) → Stmt → Type 0
  StmtLengths P (stmt kind span) = KindLengths P kind

  pub BlockLengths : (ArrayLength → Type 0) → Block → Type 0
  BlockLengths P nil = Unit
  BlockLengths P (cons x xs) = StmtLengths P x × BlockLengths P xs

-- Every length of the types that a program declares.
pub record ProgramLengths (P : ArrayLength → Type 0) (p : Program) : Type 0 where
  pub structs :
      All (λ (d : StructDecl). All (λ (f : StructField). Lengths P f.ty) d.fields) p.structs
  pub constants : All (λ (c : Constant). Lengths P c.ty) p.constants
  pub globals : All (λ (g : Global). Lengths P g.ty) p.globals
  pub functions :
      All
        (λ (f : Function).
          All (λ (q : Param). Lengths P q.ty) f.params
          × ReturnLengths P f.return_type
          × BlockLengths P f.body)
        p.functions

SizedResult : Result Diagnostic ArrayLength → Type 0
SizedResult (ok length) = SizedLength length
SizedResult (err d) = Unit

sized-SizedResult : (n : ℤ) (span : Span) → SizedResult (sized n span)
unfolding SizedResult SizedLength InRange sized positive_array_length
sized-SizedResult (pos n) span =
    if_both (λ (r : Result Diagnostic ℕ). SizedResult (and_then r (λ m. ok (resolved m))))
      (leb (n + 0) 0) (λ e. tt)
      (λ e.
        if_both (λ (r : Result Diagnostic ℕ). SizedResult (and_then r (λ m. ok (resolved m))))
          (ltb 0x7fffffff (n + 0)) (λ f. tt) (λ f. (ground (arith, e), ground (arith, f))))
sized-SizedResult (negsuc n) span =
    if_both (λ (r : Result Diagnostic ℕ). SizedResult (and_then r (λ m. ok (resolved m))))
      (leb 0 (0 + suc n)) (λ e. tt) (λ e. absurd (ground (arith, e)))

module _ {S : Type 0} (evaluate : S → Text → Span → Result Diagnostic ℤ × S) where
  settle_length-Sized :
      (s : Resolving S) (r : Result Diagnostic ArrayLength)
      → SizedResult r
      → SizedLength (settle_length s r).0
  unfolding settle_length SizedLength SizedResult
  settle_length-Sized s (ok length) h = h
  settle_length-Sized s (err d) h = tt

  and_then-Sized :
      (r : Result Diagnostic ℤ) (span : Span) → SizedResult (and_then r (λ n. sized n span))
  unfolding SizedResult
  and_then-Sized (ok n) span = sized-SizedResult n span
  and_then-Sized (err d) span = tt

  resolve_length-Sized :
      (length : ArrayLength) (s : Resolving S)
      → OpenLength length
      → SizedLength (resolve_length evaluate length s).0
  unfolding resolve_length OpenLength SizedLength
  resolve_length-Sized (literal n span) s h =
      settle_length-Sized s (sized n span) (sized-SizedResult n span)
  resolve_length-Sized (constant name span) s h =
      settle_length-Sized _ _ (and_then-Sized (evaluate s.evaluator name span).0 span)
  resolve_length-Sized (resolved n) s h = h
  resolve_length-Sized invalid s h = tt

  resolve_value_type-Sized :
      (ty : ValueType) (s : Resolving S)
      → Lengths OpenLength ty
      → Lengths SizedLength (resolve_value_type evaluate ty s).0
  unfolding resolve_value_type Lengths
  resolve_value_type-Sized ValueType.i32 s h = tt
  resolve_value_type-Sized ValueType.f32 s h = tt
  resolve_value_type-Sized ValueType.bool s h = tt
  resolve_value_type-Sized (ValueType.struct name) s h = tt
  resolve_value_type-Sized (ValueType.array element length) s h =
      (resolve_value_type-Sized element s h.0, resolve_length-Sized length _ h.1)

  mutual
    unfolding resolve_block_types BlockLengths

    kind-Sized :
        (k : StmtKind) (s : Resolving S)
        → KindLengths OpenLength k
        → KindLengths SizedLength (resolve_kind evaluate k s).0
    kind-Sized (let_local name ty e) s h = resolve_value_type-Sized ty s h
    kind-Sized (if_then c block) s h = block-Sized block s h
    kind-Sized (if_else c block other) s h = (block-Sized block s h.0, block-Sized other _ h.1)
    kind-Sized (while c block) s h = block-Sized block s h
    kind-Sized (for_range name span from to block) s h = block-Sized block s h
    kind-Sized (assign target op e) s h = tt
    kind-Sized (expr e) s h = tt
    kind-Sized (return e) s h = tt

    stmt-Sized :
        (x : Stmt) (s : Resolving S)
        → StmtLengths OpenLength x
        → StmtLengths SizedLength (resolve_stmt evaluate x s).0
    stmt-Sized (stmt kind span) s h = kind-Sized kind s h

    block-Sized :
        (block : Block) (s : Resolving S)
        → BlockLengths OpenLength block
        → BlockLengths SizedLength (resolve_block_types evaluate block s).0
    block-Sized nil s h = tt
    block-Sized (cons x xs) s h = (stmt-Sized x s h.0, block-Sized xs _ h.1)

  each-All :
      {A : Type 0} (P Q : A → Type 0) (change : A → Resolving S → A × Resolving S)
      → ((x : A) (s : Resolving S) → P x → Q (change x s).0)
      → (xs : List A) (s : Resolving S) → All P xs
      → All Q (each evaluate change xs s).0
  unfolding each
  each-All P Q change h [] s all = tt
  each-All P Q change h (x ∷ xs) s all = (h x s all.0, each-All P Q change h xs _ all.1)

  return-Sized :
      (r : ReturnType) (s : Resolving S)
      → ReturnLengths OpenLength r
      → ReturnLengths SizedLength (resolve_return evaluate r s).0
  unfolding resolve_return ReturnLengths
  return-Sized (value ty) s h = resolve_value_type-Sized ty s h
  return-Sized void s h = tt

  -- After the resolution every array length that a program declares is resolved, to a positive
  -- number that an `i32` holds, or is marked invalid, whatever the constants' evaluator answers,
  -- where lengths that are resolved beforehand are in that range.
  pub resolve_program_types-Sized :
      (p : Program) (s : Resolving S)
      → ProgramLengths OpenLength p
      → ProgramLengths SizedLength (resolve_program_types evaluate p s).0
  unfolding resolve_program_types resolve_struct resolve_field resolve_constant resolve_global
      resolve_function resolve_param
  resolve_program_types-Sized p s h = record {
    structs =
        each-All _ _ (resolve_struct evaluate)
          (λ d t k.
            each-All _ _ (resolve_field evaluate) (λ f u q. resolve_value_type-Sized f.ty u q)
              d.fields t k)
          p.structs s h.structs;
    constants =
        each-All _ _ (resolve_constant evaluate) (λ c t k. resolve_value_type-Sized c.ty t k)
          p.constants _ h.constants;
    globals =
        each-All _ _ (resolve_global evaluate) (λ g t k. resolve_value_type-Sized g.ty t k)
          p.globals _ h.globals;
    functions =
        each-All _ _ (resolve_function evaluate)
          (λ f t k. (
            each-All _ _ (resolve_param evaluate) (λ q u l. resolve_value_type-Sized q.ty u l)
                f.params t k.0,
            return-Sized f.return_type _ k.1,
            block-Sized f.body _ k.2,
          ))
          p.functions _ h.functions;
  }
