-- ===== src/Sema/Constants/Sound.antt =====
-- `evaluate_named` of src/sema/constants.rs against the meaning of the declarations.
use speck.Base.{
  ℕ, zero, suc, length, ltb, Text, Option, none, some, List, [], ◌∷◌, ◌≡◌, refl, sym, ◌∙◌, find,
  if_both, subst, inl,
}
use mathlib.Core.Option.{some-injective}
use speck.Sema.Constants.Tables.{find_same}
use speck.Diagnostic.{Span, Diagnostic}
use speck.Base.Int.{ℤ}
use speck.Resolution.{Resolution}
use speck.Result.{Result, ok, err}
use speck.Sema.Constants.Cache.{
  ConstantDefinition, Definitions, ConstantValues, lookup, look_up_value, look_further,
  insert_value, new_values,
}
use speck.Sema.Constants.Consistent.{Consistent, Consistent-insert, Consistent-failures, Defined}
use speck.Sema.Constants.Tasks.{Evaluation, Structs}
use speck.Sema.Constants.Evaluator.{Globals, initializer, initialize, evaluate_named}
use speck.Sema.Constants.Frames.{Frames, Suspended, Frames-insert, Frames-push, Frames-fresh}
use speck.Sema.Constants.Schedule.{
  Attempt, settled, waits, failed, Frame, Progress, going, finished, Phase, started, attempt,
  settle, wait, close_cycle, react, run, root_value, fail_all, round, evaluate, start_run,
}
use speck.Sema.Constants.Scheduled.{Ready, Ready-initialize, initializer_settled, initializer_waits}
use speck.Syntax.Value.{ConstantValue}

module _ (globals : Globals) (structs : Structs) (builtins : List (Text × ConstantValue))
    (definitions : Definitions) (invalid : List Text) (fuel : ℕ) (root : Text) where
  unfoldable pub Good : ConstantValues → Type 0
  Good = Consistent globals structs builtins definitions

  -- What a state of the scheduler has.
  unfoldable pub Fine : Progress Evaluation → Type 0
  Fine (going cache pending active) =
      Good cache × Frames globals structs definitions cache pending active
  Fine (finished (ok v) cache) = Good cache × (find root cache.values ≡ some v)
  Fine (finished (err d) cache) = Good cache
  Fine _ = Unit

  Fine-fail_all :
      (cache : ConstantValues) (pending : List (Frame Evaluation)) (d : Diagnostic)
      → Good cache
      → Fine (fail_all cache pending d)
  unfolding Fine fail_all Good
  Fine-fail_all cache pending d good =
      Consistent-failures globals structs builtins definitions cache _ good

  abbrev the_initializer :
      Text → ConstantDefinition → Evaluation → ConstantValues → Attempt Evaluation
  the_initializer = initializer globals structs invalid fuel

  Fine-root_value :
      (cache : ConstantValues) (o : Option ConstantValue)
      → find root cache.values ≡ o
      → Good cache
      → Fine (root_value definitions Phase.constant initialize the_initializer root cache o)
  unfolding Fine root_value
  Fine-root_value cache (some v) h good = (good, h)
  Fine-root_value cache none h good = tt

  Fine-settle :
      (cache : ConstantValues) (current : Frame Evaluation) (pending : List (Frame Evaluation))
      (active : List (Text × ℕ)) (v : ConstantValue)
      → Good cache
      → Frames globals structs definitions cache (current ∷ pending) active
      → Defined globals structs builtins definitions cache current.name v
      → Fine (
          settle definitions Phase.constant initialize the_initializer root cache current pending
            active v)
  unfolding settle Fine Good Frames
  Fine-settle cache current [] active v good frames d =
      Fine-root_value (insert_value cache current.name v) _ refl (
        Consistent-insert globals structs builtins definitions cache current.name v good frames.0 d)
  Fine-settle cache current (below ∷ pending) active v good frames d = (
    Consistent-insert globals structs builtins definitions cache current.name v good frames.0 d,
    Frames-insert globals structs definitions cache current.name v (below ∷ pending) active frames.0
        frames.3 frames.4,
  )

  Fine-close_cycle :
      (cache : ConstantValues) (pending : List (Frame Evaluation)) (start : ℕ) (name : Text)
      (o : Option ConstantDefinition)
      → Good cache
      → Fine (
          close_cycle definitions Phase.constant initialize the_initializer root cache pending start
            name o)
  unfolding close_cycle Fine
  Fine-close_cycle cache pending start name none good = tt
  Fine-close_cycle cache pending start name (some definition) good =
      if_both Fine (ltb (length pending) start) (λ e. tt) (λ e. Fine-fail_all cache pending _ good)

  Fine-wait :
      (cache : ConstantValues) (current : Frame Evaluation) (pending : List (Frame Evaluation))
      (active : List (Text × ℕ)) (name : Text) (span : Span) (s : Evaluation) (o : Option ℕ)
      (definition : ConstantDefinition)
      → find name active ≡ o
      → Good cache
      → Frames globals structs definitions cache (current ∷ pending) active
      → find current.name definitions ≡ some definition
      → Ready globals structs cache definition s × (find name cache.values ≡ none)
      → Fine (
          wait definitions Phase.constant initialize the_initializer root cache current pending
            active name span s o)
  unfolding wait Fine Frames Suspended
  Fine-wait cache current pending active name span s (some start) definition e good frames known
        next_state =
      Fine-close_cycle cache (current ∷ pending) start name (find name definitions) good
  Fine-wait cache current pending active name span s none definition e good frames known
        next_state =
      let fresh =
        Frames-fresh globals structs definitions cache name (current ∷ pending) active e frames in
      let pushed =
        Frames-push globals structs definitions cache name (suc (length pending))
          (current ∷ pending) active frames in
      (
        good,
        (
          next_state.1,
          tt,
          (suc (length pending), find_same name (suc (length pending)) active),
          fresh,
          (
            frames.0,
            λ other k.
                subst (λ x. Ready globals structs cache x s) (some-injective _ _ (sym known ∙ k))
                  next_state.0,
            pushed.2,
            pushed.3,
            pushed.4,
          ),
        ),
      )

  -- A frame's state when its initializer is called.
  pub Ready-started :
      (cache : ConstantValues) (name : Text) (definition : ConstantDefinition)
      (s : Option Evaluation)
      → find name definitions ≡ some definition
      → Suspended globals structs definitions cache name s
      → Ready globals structs cache definition
          (started definitions Phase.constant initialize the_initializer root definition s)
  unfolding started Suspended
  Ready-started cache name definition (some s) known h = h definition known
  Ready-started cache name definition none known h =
      Ready-initialize globals structs cache definition

  Fine-react :
      (cache : ConstantValues) (current : Frame Evaluation) (pending : List (Frame Evaluation))
      (active : List (Text × ℕ)) (o : Option ConstantDefinition) (t : Attempt Evaluation)
      → find current.name definitions ≡ o
      → attempt definitions Phase.constant initialize the_initializer root cache current o ≡ t
      → Good cache
      → Frames globals structs definitions cache (current ∷ pending) active
      → Fine (
          react definitions Phase.constant initialize the_initializer root cache current pending
            active t)
  unfolding react Fine attempt Frames Defined
  Fine-react cache current pending active none (settled v) known h good frames = absurd (cc h)
  Fine-react cache current pending active (some definition) (settled v) known h good frames =
      let done =
        initializer_settled globals structs invalid fuel current.name definition _ cache
          (Ready-started cache current.name definition current.state known frames.1) h in
      Fine-settle cache current pending active v good frames (definition, known, done.0, done.1)
  Fine-react cache current pending active none (waits name span s) known h good frames =
      absurd (cc h)
  Fine-react cache current pending active (some definition) (waits name span s) known h good
        frames =
      Fine-wait cache current pending active name span s (find name active) definition refl good
        frames known
        (initializer_waits globals structs invalid fuel current.name definition _ cache
          (Ready-started cache current.name definition current.state known frames.1) h)
  Fine-react cache current pending active o (failed d) known h good frames =
      Fine-fail_all cache (current ∷ pending) d good
  Fine-react cache current pending active o Attempt.panicked known h good frames = tt
  Fine-react cache current pending active o Attempt.exhausted known h good frames = tt

  pub Fine-round :
      (cache : ConstantValues) (pending : List (Frame Evaluation)) (active : List (Text × ℕ))
      → Good cache
      → Frames globals structs definitions cache pending active
      → Fine (round definitions Phase.constant initialize the_initializer root cache pending active)
  unfolding round Fine
  Fine-round cache [] active good frames = tt
  Fine-round cache (current ∷ pending) active good frames =
      Fine-react cache current pending active (find current.name definitions) _ refl refl good
        frames

  Fine-run :
      (rounds : ℕ) (p : Progress Evaluation)
      → Fine p
      → Fine (run definitions Phase.constant initialize the_initializer root rounds p)
  unfolding run Fine
  Fine-run zero (going cache pending active) h = h
  Fine-run (suc rounds) (going cache pending active) h =
      Fine-run rounds _ (Fine-round cache pending active h.0 h.1)
  Fine-run zero (finished r cache) h = h
  Fine-run (suc rounds) (finished r cache) h = h
  Fine-run zero Progress.panicked h = h
  Fine-run (suc rounds) Progress.panicked h = h
  Fine-run zero Progress.exhausted h = h
  Fine-run (suc rounds) Progress.exhausted h = h

  Fine-start_run :
      (rounds : ℕ) (cache : ConstantValues) (span : Span) (found : Option ConstantValue)
      (failure : Option Diagnostic)
      → find root cache.values ≡ found
      → find root cache.failures ≡ failure
      → Good cache
      → Fine (
          start_run definitions Phase.constant initialize the_initializer root rounds cache span
            (look_up_value root span cache.failures found))
  unfolding start_run Fine look_up_value look_further Frames Suspended
  Fine-start_run rounds cache span (some v) failure h k good = (good, h)
  Fine-start_run rounds cache span none (some d) h k good = rw (k, look_further) good
  Fine-start_run rounds cache span none none h k good =
      rw (k, look_further) (Fine-run rounds _ (good, (h, tt, (0, find_same root 0 []), tt, tt)))

-- Fine states of the search for a name.
Fine-named :
    (globals : Globals) (structs : Structs) (builtins : List (Text × ConstantValue))
    (definitions : Definitions) (invalid : List Text) (fuel rounds : ℕ) (cache : ConstantValues)
    (name : Text) (o : Option ConstantDefinition)
    → find name definitions ≡ o
    → Consistent globals structs builtins definitions cache
    → Fine globals structs builtins definitions invalid fuel name
        (evaluate_named globals structs invalid fuel definitions rounds cache name)
unfolding evaluate_named Fine evaluate Good lookup
Fine-named globals structs builtins definitions invalid fuel rounds cache name none h good =
    rw (evaluate_named, h) tt
Fine-named globals structs builtins definitions invalid fuel rounds cache name (some definition) h
      good =
    rw (evaluate_named, h)
      (Fine-start_run globals structs builtins definitions invalid fuel name rounds cache
        definition.span _ _ refl refl good)

-- The values before any declaration is evaluated are the builtin ones.
pub new_values-Consistent :
    (globals : Globals) (structs : Structs) (definitions : Definitions) (keys : List (Text × ℤ))
    (resolution : Resolution)
    → Consistent globals structs
        (new_values keys resolution).values
        definitions
        (new_values keys resolution)
unfolding Consistent
new_values-Consistent globals structs definitions keys resolution name v h = inl h

-- A returned value is the one that is cached.
pub Returned : Text → Result Diagnostic ConstantValue → ConstantValues → Type 0
Returned name (ok v) cache = find name cache.values ≡ some v
Returned name (err d) cache = Unit

Fine-Returned :
    (globals : Globals) (structs : Structs) (builtins : List (Text × ConstantValue))
    (definitions : Definitions) (invalid : List Text) (fuel : ℕ) (name : Text)
    (r : Result Diagnostic ConstantValue) (cache : ConstantValues)
    → Fine globals structs builtins definitions invalid fuel name (finished r cache)
    → Consistent globals structs builtins definitions cache × Returned name r cache
unfolding Fine Good Returned
Fine-Returned globals structs builtins definitions invalid fuel name (ok v) cache fine = fine
Fine-Returned globals structs builtins definitions invalid fuel name (err d) cache fine = (fine, tt)

-- Evaluating a declaration by name in a consistent cache, however often its initializer and those it
-- needs are suspended, and also when it fails, leaves a consistent cache: every value that is not a
-- builtin's is of its declaration's type and what the declaration's initializer evaluates to by
-- recursion under the cache. A returned value is cached under the name.
pub evaluate_named-Consistent :
    (globals : Globals) (structs : Structs) (builtins : List (Text × ConstantValue))
    (definitions : Definitions) (invalid : List Text) (fuel rounds : ℕ) (cache : ConstantValues)
    (name : Text) {later : ConstantValues} {r : Result Diagnostic ConstantValue}
    → Consistent globals structs builtins definitions cache
    → evaluate_named globals structs invalid fuel definitions rounds cache name ≡ finished r later
    → Consistent globals structs builtins definitions later × Returned name r later
evaluate_named-Consistent globals structs builtins definitions invalid fuel rounds cache name
      {later = later} {r = r} good h =
    Fine-Returned globals structs builtins definitions invalid fuel name r later (
      subst (Fine globals structs builtins definitions invalid fuel name) h (
        Fine-named globals structs builtins definitions invalid fuel rounds cache name
          (find name definitions) refl good))
