-- ===== src/Sema/Constants/Depth.antt =====
-- `check_aggregate_depth` of src/sema/constants/evaluation.rs: the nesting of evaluated arrays and
-- structs.
use speck.Base.{
  ℕ, zero, suc, ◌+◌, ◌≤◌, ◌<◌, max, text, ◌++◌, List, [], ◌∷◌, ◌≡◌, refl, ◌∙◌, ◌↔◌, ◌==◌, ltb,
  if◌then◌else◌, if_both, arith, ap,
}
use speck.Base.Decimal.{show_ℕ}
use speck.Diagnostic.{Span, Diagnostic, new_diagnostic}
use speck.Syntax.Value.{
  ConstantValue, i32, f32, bool, struct, array, Values, nil, cons, NamedValues, end, named,
}

-- `MAX_CONSTANT_AGGREGATE_DEPTH`
abbrev pub max_depth : ℕ
max_depth = 128

-- `pending.extend(…)`: the stack's top first.
abbrev pub Pending : Type 0
Pending = List (ConstantValue × ℕ)

unfoldable pub extend : Values → ℕ → Pending → Pending
extend nil depth pending = pending
extend (cons v vs) depth pending = extend vs depth ((v, depth) ∷ pending)

unfoldable pub extend_named : NamedValues → ℕ → Pending → Pending
extend_named end depth pending = pending
extend_named (named name v vs) depth pending = extend_named vs depth ((v, depth) ∷ pending)

pub data Check : Type 0 where
  within exceeded exhausted : Check

-- The loop, one value of the stack a round.
unfoldable pub visit : ℕ → Pending → Check
unfolding extend extend_named
visit zero pending = Check.exhausted
visit (suc fuel) [] = Check.within
visit (suc fuel) ((array element vs, parent_depth) ∷ pending) =
    let rest = visit fuel (extend vs (parent_depth + 1) pending) in
    if parent_depth == max_depth then Check.exceeded else rest
visit (suc fuel) ((struct name vs, parent_depth) ∷ pending) =
    let rest = visit fuel (extend_named vs (parent_depth + 1) pending) in
    if parent_depth == max_depth then Check.exceeded else rest
visit (suc fuel) ((_, parent_depth) ∷ pending) = visit fuel pending

-- The values in a value, itself included: no more rounds are needed.
unfoldable mutual
  pub count : ConstantValue → ℕ
  count (array element vs) = suc (count_values vs)
  count (struct name vs) = suc (count_named vs)
  count _ = 1

  pub count_values : Values → ℕ
  count_values nil = 0
  count_values (cons v vs) = count v + count_values vs

  pub count_named : NamedValues → ℕ
  count_named end = 0
  count_named (named name v vs) = count v + count_named vs

unfoldable pub nesting_error : Span → Diagnostic
nesting_error span =
    new_diagnostic
      (text "resolved constant aggregate nesting exceeds limit of " ++ show_ℕ max_depth) span

-- The depth check of an aggregate's children, then the aggregate.
unfoldable pub check_aggregate_depth : Values → Check
unfolding visit count_values
check_aggregate_depth vs = visit (suc (count_values vs)) (extend vs 1 [])

-- Arrays and structs inside one another.
unfoldable mutual
  pub nesting : ConstantValue → ℕ
  nesting (array element vs) = suc (nesting_values vs)
  nesting (struct name vs) = suc (nesting_named vs)
  nesting _ = 0

  pub nesting_values : Values → ℕ
  nesting_values nil = 0
  nesting_values (cons v vs) = max (nesting v) (nesting_values vs)

  pub nesting_named : NamedValues → ℕ
  nesting_named end = 0
  nesting_named (named name v vs) = max (nesting v) (nesting_named vs)

count_pending : Pending → ℕ
unfolding count
count_pending [] = 0
count_pending ((v, depth) ∷ pending) = count v + count_pending pending

reach : Pending → ℕ
unfolding nesting
reach [] = 0
reach ((v, depth) ∷ pending) = max (depth + nesting v) (reach pending)

-- Every depth is at least 1 and at most the limit.
Bounded : Pending → Type 0
Bounded [] = Unit
Bounded ((v, depth) ∷ pending) = (depth ≤ max_depth) × Bounded pending

-- The greatest depth that a list of children at one depth reaches, 0 without children.
below : ℕ → Values → ℕ
unfolding nesting
below depth nil = 0
below depth (cons v vs) = max (depth + nesting v) (below depth vs)

below_named : ℕ → NamedValues → ℕ
unfolding nesting
below_named depth end = 0
below_named depth (named name v vs) = max (depth + nesting v) (below_named depth vs)

below_lem :
    (depth : ℕ) (vs : Values)
    → depth ≤ max_depth
    → (below depth vs ≤ max_depth) ↔ (depth + nesting_values vs ≤ max_depth)
unfolding below nesting_values
below_lem depth nil h = ground arith
below_lem depth (cons v vs) h = ground (arith, below_lem depth vs h)

below_named_lem :
    (depth : ℕ) (vs : NamedValues)
    → depth ≤ max_depth
    → (below_named depth vs ≤ max_depth) ↔ (depth + nesting_named vs ≤ max_depth)
unfolding below_named nesting_named
below_named_lem depth end h = ground arith
below_named_lem depth (named name v vs) h = ground (arith, below_named_lem depth vs h)

count_extend :
    (vs : Values) (depth : ℕ) (pending : Pending)
    → count_pending (extend vs depth pending) ≡ count_values vs + count_pending pending
unfolding count_pending extend count_values
count_extend nil depth pending = omega arith
count_extend (cons v vs) depth pending = omega (arith, count_extend vs depth ((v, depth) ∷ pending))

count_extend_named :
    (vs : NamedValues) (depth : ℕ) (pending : Pending)
    → count_pending (extend_named vs depth pending) ≡ count_named vs + count_pending pending
unfolding count_pending extend_named count_named
count_extend_named end depth pending = omega arith
count_extend_named (named name v vs) depth pending =
    omega (arith, count_extend_named vs depth ((v, depth) ∷ pending))

reach-extend :
    (vs : Values) (depth : ℕ) (pending : Pending)
    → reach (extend vs depth pending) ≡ max (below depth vs) (reach pending)
unfolding reach extend below
reach-extend nil depth pending = omega arith
reach-extend (cons v vs) depth pending = omega (arith, reach-extend vs depth ((v, depth) ∷ pending))

reach-extend_named :
    (vs : NamedValues) (depth : ℕ) (pending : Pending)
    → reach (extend_named vs depth pending) ≡ max (below_named depth vs) (reach pending)
unfolding reach extend_named below_named
reach-extend_named end depth pending = omega arith
reach-extend_named (named name v vs) depth pending =
    omega (arith, reach-extend_named vs depth ((v, depth) ∷ pending))

Bounded-extend :
    (vs : Values) (depth : ℕ) (pending : Pending)
    → depth ≤ max_depth
    → Bounded pending
    → Bounded (extend vs depth pending)
unfolding Bounded extend
Bounded-extend nil depth pending h b = b
Bounded-extend (cons v vs) depth pending h b =
    Bounded-extend vs depth ((v, depth) ∷ pending) h (h, b)

Bounded-extend_named :
    (vs : NamedValues) (depth : ℕ) (pending : Pending)
    → depth ≤ max_depth
    → Bounded pending
    → Bounded (extend_named vs depth pending)
unfolding Bounded extend_named
Bounded-extend_named end depth pending h b = b
Bounded-extend_named (named name v vs) depth pending h b =
    Bounded-extend_named vs depth ((v, depth) ∷ pending) h (h, b)

abbrev verdict : ℕ → Check
verdict n = if ltb max_depth n then Check.exceeded else Check.within

verdict-max :
    (m n k : ℕ) → (m ≤ max_depth) ↔ (n ≤ max_depth) → verdict (max m k) ≡ verdict (max n k)
verdict-max m n k h = ground (arith, h)

-- An aggregate at the limit is refused; above it, its children decide.
aggregate_lem :
    (depth inner children others : ℕ) (rest : Check)
    → depth ≤ max_depth
    → (depth < max_depth
        → (rest ≡ verdict (max children others))
          × ((children ≤ max_depth) ↔ (depth + 1 + inner ≤ max_depth)))
    → (if depth == max_depth then Check.exceeded else rest)
      ≡ verdict (max (depth + suc inner) others)
aggregate_lem depth inner children others rest h next =
    if_both (λ c. c ≡ verdict (max (depth + suc inner) others)) (depth == max_depth)
      (λ e. ground arith)
      (λ e.
        let below_limit = next (ground arith) in
        below_limit.0
        ∙ verdict-max children (depth + suc inner) others (ground (arith, below_limit.1)))

-- With fuel for the values on the stack, the loop compares the greatest depth with the limit.
visit_lem :
    (fuel : ℕ) (pending : Pending)
    → count_pending pending < fuel
    → Bounded pending
    → visit fuel pending ≡ verdict (reach pending)
unfolding visit reach count_pending Bounded count nesting
visit_lem zero pending h b = absurd (omega (arith, h))
visit_lem (suc fuel) [] h b = refl
visit_lem (suc fuel) ((i32 n, depth) ∷ pending) h b =
    ground (arith, visit_lem fuel pending (omega arith) b.1)
visit_lem (suc fuel) ((f32 n, depth) ∷ pending) h b =
    ground (arith, visit_lem fuel pending (omega arith) b.1)
visit_lem (suc fuel) ((bool n, depth) ∷ pending) h b =
    ground (arith, visit_lem fuel pending (omega arith) b.1)
visit_lem (suc fuel) ((array element vs, depth) ∷ pending) h b =
    aggregate_lem depth (nesting_values vs) (below (depth + 1) vs) (reach pending)
      (visit fuel (extend vs (depth + 1) pending)) b.0
      (λ lt. (
        visit_lem fuel (extend vs (depth + 1) pending)
              (omega (arith, count_extend vs (depth + 1) pending))
              (Bounded-extend vs (depth + 1) pending (omega arith) b.1)
            ∙ ap verdict (reach-extend vs (depth + 1) pending),
        below_lem (depth + 1) vs (omega arith),
      ))
visit_lem (suc fuel) ((struct name vs, depth) ∷ pending) h b =
    aggregate_lem depth (nesting_named vs) (below_named (depth + 1) vs) (reach pending)
      (visit fuel (extend_named vs (depth + 1) pending)) b.0
      (λ lt. (
        visit_lem fuel (extend_named vs (depth + 1) pending)
              (omega (arith, count_extend_named vs (depth + 1) pending))
              (Bounded-extend_named vs (depth + 1) pending (omega arith) b.1)
            ∙ ap verdict (reach-extend_named vs (depth + 1) pending),
        below_named_lem (depth + 1) vs (omega arith),
      ))

-- The depth check ends, and refuses the children of an aggregate exactly when, counting it, arrays
-- and structs would nest more than 128 deep.
pub check_aggregate_depth_lem :
    (vs : Values)
    → check_aggregate_depth vs
      ≡ (if ltb max_depth (suc (nesting_values vs)) then Check.exceeded else Check.within)
unfolding check_aggregate_depth Bounded count_pending reach
check_aggregate_depth_lem vs =
    visit_lem (suc (count_values vs)) (extend vs 1 []) (omega (arith, count_extend vs 1 []))
      (Bounded-extend vs 1 [] (omega arith) tt)
    ∙ ap verdict (reach-extend vs 1 [])
    ∙ verdict-max (below 1 vs) (suc (nesting_values vs)) 0
        (ground (arith, below_lem 1 vs (omega arith)))
    ∙ ap verdict (omega arith)
