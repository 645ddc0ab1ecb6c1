-- ===== src/Sema/Constants/Stacks.antt =====
-- The stack of frames of src/sema/constants/dependencies.rs and the table of active names that places
-- them, and the initializers that the frames call.
use speck.Base.{
  ℕ, ◌<◌, length, Text, none, some, List, [], ◌∷◌, ◌≡◌, ◌≢◌, refl, sym, ◌∙◌, ap, find, same_text,
  same_text_iff, Bool-cases, if_both, ◌⊎◌, inl, inr, All, arith, contains,
}
use mathlib.Core.Option.{some-injective}
use speck.Diagnostic.{Span, Diagnostic}
use speck.Result.{Result, ok, err}
use speck.Sema.Constants.Cache.{
  ConstantDefinition, EvaluationError, diagnostic, dependency, ConstantValues,
}
use speck.Sema.Constants.Evaluation.{Next, running, returned, stopped, panicked, exhausted}
use speck.Sema.Constants.Tasks.{Evaluation, Structs}
use speck.Sema.Constants.Evaluator.{
  Globals, constant_lookup, attempted, validated, validate_constant_type, initializer,
}
use speck.Sema.Constants.Resume.{answer, answer_of_Comes}
use speck.Sema.Constants.Schedule.{Attempt, waits, Frame, remove}
use speck.Sema.Constants.Scheduled.{Ready, attempted_waits, if_waits}
use speck.Sema.Constants.Suspend.{lighter_stop}
use speck.Sema.Constants.Weight.{tasks_weight}
use speck.Sema.Constants.Tables.{Extends, find_other, find-remove, same_text_other, same_text_refl}
use speck.Syntax.Value.{ConstantValue}

-- The initializer neither lacks an operand nor runs on.
unfoldable pub Produces : Attempt Evaluation → Type 0
Produces Attempt.panicked = ⊥
Produces Attempt.exhausted = ⊥
Produces _ = Unit

Produces-validated : (r : Result Diagnostic ConstantValue) → Produces (validated r)
unfolding Produces validated
Produces-validated (ok v) = tt
Produces-validated (err d) = tt

Produces-attempted :
    (name : Text) (definition : ConstantDefinition) (n : Next EvaluationError)
    {r : Result EvaluationError ConstantValue}
    → answer n ≡ some r
    → Produces (attempted name definition n)
unfolding Produces attempted answer
Produces-attempted name definition (returned v s) h =
    Produces-validated (validate_constant_type name definition definition.ty v)
Produces-attempted name definition (stopped (diagnostic d) s) h = tt
Produces-attempted name definition (stopped (dependency needed span) s) h = tt
Produces-attempted name definition (running s) h = absurd (cc h)
Produces-attempted name definition panicked h = absurd (cc h)
Produces-attempted name definition exhausted h = absurd (cc h)

module _ (globals : Globals) (structs : Structs) (invalid : List Text) (fuel : ℕ) where
  -- An initializer in a state that is ready and light produces something, and a light state.
  pub Produces-initializer :
      (name : Text) (definition : ConstantDefinition) (s : Evaluation) (cache : ConstantValues)
      → Ready globals structs cache definition s
      → tasks_weight structs s.tasks < fuel
      → Produces (initializer globals structs invalid fuel name definition s cache)
  unfolding Produces initializer Ready Extends
  Produces-initializer name definition s cache ready light =
      if_both Produces (contains invalid name) (λ e. tt)
        (λ e. Produces-attempted name definition _ (
          answer_of_Comes diagnostic structs (constant_lookup globals cache) fuel
            (ready cache (λ n v k. k)) light))

  pub initializer_lighter :
      (name : Text) (definition : ConstantDefinition) (s : Evaluation) (cache : ConstantValues)
      {needed : Text} {span : Span} {t : Evaluation}
      → tasks_weight structs s.tasks < fuel
      → initializer globals structs invalid fuel name definition s cache ≡ waits needed span t
      → tasks_weight structs t.tasks < fuel
  unfolding initializer
  initializer_lighter name definition s cache light h = omega (
    arith,
    light,
    lighter_stop diagnostic structs (constant_lookup globals cache) fuel s
        (attempted_waits name definition _ (if_waits (contains invalid name) _ _ h)) (λ d. cc),
  )

-- Stacks of frames: where `active` places their names, which of them are declared, the last name.
unfoldable pub Waiting : Text → List (Frame Evaluation) → Type 0
Waiting name [] = ⊥
Waiting name (f ∷ pending) = (f.name ≡ name) ⊎ Waiting name pending

unfoldable pub Placed : List (Frame Evaluation) → List (Text × ℕ) → Type 0
Placed [] active = Unit
Placed (f ∷ pending) active = (find f.name active ≡ some (length pending)) × Placed pending active

unfoldable pub OnlyWaiting : List (Frame Evaluation) → List (Text × ℕ) → Type 0
OnlyWaiting pending active =
    (name : Text) (place : ℕ) → find name active ≡ some place → Waiting name pending

unfoldable pub Rooted : Text → List (Frame Evaluation) → Type 0
Rooted root [] = ⊥
Rooted root (f ∷ []) = f.name ≡ root
Rooted root (f ∷ g ∷ pending) = Rooted root (g ∷ pending)

pub place_of_Waiting :
    (name : Text) (pending : List (Frame Evaluation)) (active : List (Text × ℕ)) {place : ℕ}
    → Waiting name pending
    → Placed pending active
    → find name active ≡ some place
    → place < length pending
unfolding Waiting Placed
place_of_Waiting name [] active w placed h = absurd w
place_of_Waiting name (f ∷ pending) active (inl e) placed h =
    omega (arith, some-injective _ _ (sym h ∙ ap (λ n. find n active) (sym e) ∙ placed.0))
place_of_Waiting name (f ∷ pending) active (inr w) placed h =
    omega (arith, place_of_Waiting name pending active w placed.1 h)

pub Placed-remove :
    (name : Text) (pending : List (Frame Evaluation)) (active : List (Text × ℕ))
    → All (λ (g : Frame Evaluation). g.name ≢ name) pending
    → Placed pending active
    → Placed pending (remove name active)
unfolding Placed
Placed-remove name [] active apart h = tt
Placed-remove name (f ∷ pending) active apart h = (
  find-remove f.name name active (λ e. apart.0 (sym e)) ∙ h.0,
  Placed-remove name pending active apart.1 h.1,
)

pub Placed-push :
    (name : Text) (place : ℕ) (pending : List (Frame Evaluation)) (active : List (Text × ℕ))
    → All (λ (g : Frame Evaluation). g.name ≢ name) pending
    → Placed pending active
    → Placed pending ((name, place) ∷ active)
unfolding Placed
Placed-push name place [] active apart h = tt
Placed-push name place (f ∷ pending) active apart h = (
  find_other f.name name place active (λ e. apart.0 (sym e)) ∙ h.0,
  Placed-push name place pending active apart.1 h.1,
)

find-removed : (name : Text) (active : List (Text × ℕ)) → find name (remove name active) ≡ none
unfolding find remove
find-removed name [] = refl
find-removed name ((key, place) ∷ active) = elim (Bool-cases (same_text key name)) [
  | inl e ↦ rw e (find-removed name active)
  | inr e ↦
      rw
        (
          e,
          same_text_other name key
              (λ q. absurd (cc (e, same_text_refl name, ap (λ n. same_text n name) q))),
        )
        (find-removed name active)
]

-- Without its top's name, the table places the others.
pub OnlyWaiting-remove :
    (f : Frame Evaluation) (pending : List (Frame Evaluation)) (active : List (Text × ℕ))
    → OnlyWaiting (f ∷ pending) active
    → OnlyWaiting pending (remove f.name active)
unfolding OnlyWaiting Waiting
OnlyWaiting-remove f pending active only name place h = elim (Bool-cases (same_text f.name name)) [
  | inl e ↦ absurd (
      cc (
        h,
        find-removed f.name active,
        ap (λ n. find n (remove f.name active)) ((same_text_iff f.name name).0 e),
      ))
  | inr e ↦
      let apart = λ (q : f.name ≡ name).
        absurd {A = ⊥} (cc (e, same_text_refl f.name, ap (λ n. same_text f.name n) q)) in
      elim (only name place (sym (find-remove name f.name active apart) ∙ h)) [
        | inl q ↦ absurd (apart q)
        | inr w ↦ w
      ]
]

pub OnlyWaiting-push :
    (f : Frame Evaluation) (place : ℕ) (pending : List (Frame Evaluation))
    (active : List (Text × ℕ))
    → OnlyWaiting pending active
    → OnlyWaiting (f ∷ pending) ((f.name, place) ∷ active)
unfolding OnlyWaiting Waiting
OnlyWaiting-push f place pending active only name found h =
    elim (Bool-cases (same_text name f.name)) [
      | inl e ↦ inl (sym ((same_text_iff name f.name).0 e))
      | inr e ↦
          let apart = λ (q : f.name ≡ name).
            absurd {A = ⊥} (cc (e, same_text_refl name, ap (λ n. same_text name n) q)) in
          inr (only name found (sym (find_other name f.name place active apart) ∙ h))
    ]

-- The last name does not depend on the top's state.
pub Rooted-top :
    (root : Text) (f g : Frame Evaluation) (pending : List (Frame Evaluation))
    → f.name ≡ g.name
    → Rooted root (f ∷ pending)
    → Rooted root (g ∷ pending)
unfolding Rooted
Rooted-top root f g [] e h = sym e ∙ h
Rooted-top root f g (below ∷ pending) e h = h
