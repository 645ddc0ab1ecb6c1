-- ===== src/Sema/Constants/Schedule.antt =====
-- `ConstantValues::evaluate` of src/sema/constants/dependencies.rs: the declarations that one
-- declaration needs are evaluated on a stack of suspended initializers.
use speck.Base.{
  ℕ, zero, suc, ◌-◌, Text, text, ◌++◌, Option, none, some, List, [], ◌∷◌, find, same_text, length,
  take, ltb, if◌then◌else◌,
}
use speck.Diagnostic.{Span, Diagnostic, new_diagnostic}
use speck.Result.{Result, ok, err}
use speck.Sema.Constants.Cache.{
  ConstantDefinition, Definitions, EvaluationError, diagnostic, dependency, ConstantValues, lookup,
  insert_value,
}
use speck.Syntax.Value.{ConstantValue}

pub data Phase : Type 0 where
  constant array_length : Phase

-- `Phase::cycle` and `Phase::unknown`
unfoldable pub cycle : Phase → Text
cycle constant = text "cyclic constant definition"
cycle array_length = text "cyclic array-length constant"

unfoldable pub unknown : Phase → Text
unknown constant = text "unknown constant"
unknown array_length = text "unknown array-length constant"

-- What a call of `initializer` comes to, with the state that it leaves when it waits.
pub data Attempt (State : Type 0) : Type 0 where
  settled : ConstantValue → Attempt State
  waits : Text → Span → State → Attempt State
  failed : Diagnostic → Attempt State
  panicked exhausted : Attempt State

-- An entry of `pending`: the name, its use, and its initializer's state once it has started.
pub record Frame (State : Type 0) : Type 0 where
  pub name : Text
  pub usage_span : Span
  pub state : Option State

pub data Progress (State : Type 0) : Type 0 where
  going : ConstantValues → List (Frame State) → List (Text × ℕ) → Progress State
  finished : Result Diagnostic ConstantValue → ConstantValues → Progress State
  panicked exhausted : Progress State

-- `active.remove(…)`
unfoldable pub remove : Text → List (Text × ℕ) → List (Text × ℕ)
remove name [] = []
remove name ((key, n) ∷ active) =
    let rest = remove name active in if same_text key name then rest else (key, n) ∷ rest

module _ {State : Type 0} where
  -- The names of the top frames, the lowest first and each followed by an arrow.
  unfoldable pub path : List (Frame State) → Text → Text
  path [] after = after
  path (f ∷ frames) after = path frames (f.name ++ text " -> " ++ after)

  -- `pending[start..]` of a stack with its top first.
  unfoldable pub cycle_message : Phase → List (Frame State) → ℕ → Text → Text
  unfolding cycle path
  cycle_message phase pending start name =
      cycle phase ++ text ": " ++ path (take (length pending - start) pending) name

  -- One failure for every suspended declaration.
  unfoldable pub record_failures :
      List (Frame State) → Diagnostic → List (Text × Diagnostic) → List (Text × Diagnostic)
  record_failures [] d failures = failures
  record_failures (f ∷ pending) d failures = (f.name, d) ∷ record_failures pending d failures

  unfoldable pub fail_all : ConstantValues → List (Frame State) → Diagnostic → Progress State
  unfolding record_failures
  fail_all cache pending d =
      finished (err d)
        (record { values = cache.values; failures = record_failures pending d cache.failures })

module _ {State : Type 0} (definitions : Definitions) (phase : Phase)
    (initialize : ConstantDefinition → State)
    (initializer : Text → ConstantDefinition → State → ConstantValues → Attempt State)
    (root : Text) where
  -- The value that the caller asked for (`self.values[name]`).
  unfoldable pub root_value : ConstantValues → Option ConstantValue → Progress State
  root_value cache (some v) = finished (ok v) cache
  root_value cache none = panicked

  unfoldable pub settle :
      ConstantValues
      → Frame State
      → List (Frame State)
      → List (Text × ℕ)
      → ConstantValue
      → Progress State
  unfolding root_value remove find
  settle cache current [] active v =
      let after = insert_value cache current.name v in root_value after (find root after.values)
  settle cache current (below ∷ pending) active v =
      going (insert_value cache current.name v) (below ∷ pending) (remove current.name active)

  -- `definitions[&name].span` of a name that closes a cycle.
  unfoldable pub close_cycle :
      ConstantValues → List (Frame State) → ℕ → Text → Option ConstantDefinition → Progress State
  unfolding fail_all cycle_message
  close_cycle cache pending start name none = panicked
  close_cycle cache pending start name (some definition) =
      if ltb (length pending) start
      then panicked
      else fail_all cache pending
          (new_diagnostic (cycle_message phase pending start name) definition.span)

  unfoldable pub wait :
      ConstantValues
      → Frame State
      → List (Frame State)
      → List (Text × ℕ)
      → Text
      → Span
      → State
      → Option ℕ
      → Progress State
  unfolding close_cycle find
  wait cache current pending active name span state (some start) =
      close_cycle cache (current ∷ pending) start name (find name definitions)
  wait cache current pending active name span state none =
      going cache
        (record { name = name; usage_span = span; state = none }
          ∷ record { name = current.name; usage_span = current.usage_span; state = some state }
          ∷ pending)
        ((name, suc (length pending)) ∷ active)

  unfoldable pub react :
      ConstantValues
      → Frame State
      → List (Frame State)
      → List (Text × ℕ)
      → Attempt State
      → Progress State
  unfolding settle wait fail_all find
  react cache current pending active (settled v) = settle cache current pending active v
  react cache current pending active (waits name span state) =
      wait cache current pending active name span state (find name active)
  react cache current pending active (failed d) = fail_all cache (current ∷ pending) d
  react cache current pending active Attempt.panicked = panicked
  react cache current pending active Attempt.exhausted = exhausted

  -- `state.get_or_insert_with(…)`
  unfoldable pub started : ConstantDefinition → Option State → State
  started definition (some state) = state
  started definition none = initialize definition

  unfoldable pub attempt : ConstantValues → Frame State → Option ConstantDefinition → Attempt State
  unfolding started unknown
  attempt cache current (some definition) =
      initializer current.name definition (started definition current.state) cache
  attempt cache current none =
      failed
        (new_diagnostic (unknown phase ++ text " `" ++ current.name ++ text "`") current.usage_span)

  -- One round of the loop (`pending.last_mut().unwrap()`).
  unfoldable pub round : ConstantValues → List (Frame State) → List (Text × ℕ) → Progress State
  unfolding react attempt find
  round cache [] active = panicked
  round cache (current ∷ pending) active =
      react cache current pending active (attempt cache current (find current.name definitions))

  unfoldable pub run : ℕ → Progress State → Progress State
  unfolding round
  run zero (going cache pending active) = going cache pending active
  run (suc fuel) (going cache pending active) = run fuel (round cache pending active)
  run fuel done = done

  unfoldable pub start_run :
      ℕ → ConstantValues → Span → Result EvaluationError ConstantValue → Progress State
  unfolding run
  start_run fuel cache span (ok v) = finished (ok v) cache
  start_run fuel cache span (err (diagnostic d)) = finished (err d) cache
  start_run fuel cache span (err (dependency name used)) =
      run fuel (
        going cache (record { name = root; usage_span = span; state = none } ∷ []) ((root, 0) ∷ []))

  -- `ConstantValues::evaluate`, with fuel for the rounds.
  unfoldable pub evaluate : ℕ → ConstantValues → Span → Progress State
  unfolding start_run lookup
  evaluate fuel cache span = start_run fuel cache span (lookup cache root span)
