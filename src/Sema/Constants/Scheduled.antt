-- ===== src/Sema/Constants/Scheduled.antt =====
-- The scheduler of src/sema/constants/dependencies.rs keeps the cache consistent, round by round.
use speck.Base.{
  ℕ, Text, Bool, true, false, none, some, List, [], ◌∷◌, ◌≡◌, refl, sym, ◌∙◌, ap, ◌≢◌, find,
  contains, if◌then◌else◌,
}
use speck.Diagnostic.{Span, Diagnostic}
use speck.Result.{Result, ok, err}
use speck.Sema.Constants.Cache.{
  ConstantDefinition, EvaluationError, diagnostic, dependency, ConstantValues,
}
use speck.Sema.Constants.Consistent.{meaning}
use speck.Sema.Constants.Correct.{eval-Comes}
use speck.Sema.Constants.Determined.{resume-returned, resume-missed}
use speck.Sema.Constants.Evaluation.{Next, running, returned, stopped}
use speck.Sema.Constants.Tasks.{Evaluation, Structs, new}
use speck.Sema.Constants.Evaluator.{
  Globals, constant_lookup, attempted, validated, validate_constant_type, initializer, initialize,
}
use speck.Sema.Constants.Schedule.{Attempt, settled, waits, failed}
use speck.Sema.Constants.Steps.{Comes}
use speck.Sema.Constants.Suspend.{Comes-suspends}
use speck.Sema.Constants.Tables.{Extends, constant_lookup-Extends, constant_lookup-missing}
use speck.Syntax.Names.{same_type, same_type_iff}
use speck.Syntax.Value.{ConstantValue, type_of}

if_settled :
    {State : Type 0} (b : Bool) (d : Diagnostic) (a : Attempt State) {v : ConstantValue}
    → (if b then failed d else a) ≡ settled v
    → a ≡ settled v
if_settled true d a h = absurd (cc h)
if_settled false d a h = h

pub if_waits :
    {State : Type 0} (b : Bool) (d : Diagnostic) (a : Attempt State) {needed : Text} {span : Span}
    {s : State}
    → (if b then failed d else a) ≡ waits needed span s
    → a ≡ waits needed span s
if_waits true d a h = absurd (cc h)
if_waits false d a h = h

validated_settled :
    (b : Bool) (d : Diagnostic) (v : ConstantValue) {w : ConstantValue}
    → validated (if b then ok v else err d) ≡ settled w
    → (b ≡ true) × (v ≡ w)
unfolding validated
validated_settled true d v h = (refl, cc h)
validated_settled false d v h = absurd (cc h)

validated_waits :
    (r : Result Diagnostic ConstantValue) {needed : Text} {span : Span} {s : Evaluation}
    → validated r ≢ waits needed span s
unfolding validated
validated_waits (ok v) h = absurd (cc h)
validated_waits (err d) h = absurd (cc h)

attempted_settled :
    (name : Text) (definition : ConstantDefinition) (n : Next EvaluationError) {v : ConstantValue}
    → attempted name definition n ≡ settled v
    → (s : Evaluation) × (n ≡ returned v s) × (type_of v ≡ definition.ty)
unfolding attempted validate_constant_type
attempted_settled name definition (returned w s) h =
    let valid = validated_settled (same_type (type_of w) definition.ty) _ w h in
    (
      s,
      ap (λ u. returned u s) valid.1,
      ap type_of (sym valid.1) ∙ (same_type_iff (type_of w) definition.ty).0 valid.0,
    )
attempted_settled name definition (stopped (diagnostic d) s) h = absurd (cc h)
attempted_settled name definition (stopped (dependency needed span) s) h = absurd (cc h)
attempted_settled name definition (running s) h = absurd (cc h)
attempted_settled name definition Next.panicked h = absurd (cc h)
attempted_settled name definition Next.exhausted h = absurd (cc h)

pub attempted_waits :
    (name : Text) (definition : ConstantDefinition) (n : Next EvaluationError) {needed : Text}
    {span : Span} {s : Evaluation}
    → attempted name definition n ≡ waits needed span s
    → n ≡ stopped (dependency needed span) s
unfolding attempted
attempted_waits name definition (returned w s) h =
    absurd (validated_waits (validate_constant_type name definition definition.ty w) h)
attempted_waits name definition (stopped (diagnostic d) s) h = absurd (cc h)
attempted_waits name definition (stopped (dependency needed span) s) h = cc h
attempted_waits name definition (running s) h = absurd (cc h)
attempted_waits name definition Next.panicked h = absurd (cc h)
attempted_waits name definition Next.exhausted h = absurd (cc h)

module _ (globals : Globals) (structs : Structs) where
  -- An initializer's state from which every larger cache gives the declaration's meaning.
  unfoldable pub Ready : ConstantValues → ConstantDefinition → Evaluation → Type 0
  Ready cache definition s =
      (later : ConstantValues)
      → Extends cache later
      → Comes diagnostic structs (constant_lookup globals later) (λ v. v ∷ []) []
          (meaning globals structs later definition) s.tasks s.values

  pub Ready-initialize :
      (cache : ConstantValues) (definition : ConstantDefinition)
      → Ready cache definition (initialize definition)
  unfolding Ready initialize meaning new
  Ready-initialize cache definition later more =
      eval-Comes diagnostic structs (constant_lookup globals later) definition.init
        (some definition.ty) [] []

  module _ (invalid : List Text) (fuel : ℕ) where
    pub initializer_settled :
        (name : Text) (definition : ConstantDefinition) (s : Evaluation) (cache : ConstantValues)
        {v : ConstantValue}
        → Ready cache definition s
        → initializer globals structs invalid fuel name definition s cache ≡ settled v
        → (meaning globals structs cache definition ≡ ok v) × (type_of v ≡ definition.ty)
    unfolding initializer Ready Extends
    initializer_settled name definition s cache ready h =
        let done = attempted_settled name definition _ (if_settled (contains invalid name) _ _ h) in
        (
          resume-returned diagnostic structs (constant_lookup globals cache) fuel s.tasks s.values
              (ready cache (λ n w e. e)) done.1,
          done.2,
        )

    pub initializer_waits :
        (name : Text) (definition : ConstantDefinition) (s : Evaluation) (cache : ConstantValues)
        {needed : Text} {span : Span} {t : Evaluation}
        → Ready cache definition s
        → initializer globals structs invalid fuel name definition s cache ≡ waits needed span t
        → Ready cache definition t × (find needed cache.values ≡ none)
    unfolding initializer Ready
    initializer_waits name definition s cache ready h =
        let stop = attempted_waits name definition _ (if_waits (contains invalid name) _ _ h) in
        let missed =
          resume-missed diagnostic structs (constant_lookup globals cache) fuel s stop (λ d. cc) in
        let missing = constant_lookup-missing globals cache missed.0 missed.1 missed.2 in
        (
          λ later more.
              Comes-suspends diagnostic structs (constant_lookup globals cache)
                (constant_lookup globals later) (constant_lookup-Extends globals cache later more)
                fuel s.tasks s.values (ready later more) stop (λ d. cc),
          ap (λ n. find n cache.values) (sym missing.0) ∙ missing.1,
        )
