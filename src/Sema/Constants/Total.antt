-- ===== src/Sema/Constants/Total.antt =====
-- The scheduler of src/sema/constants/dependencies.rs ends: its rounds return, and no table lacks an
-- entry that it takes for granted.
use speck.Base.{
  ℕ, zero, suc, ◌+◌, ◌*◌, ◌≤◌, ◌<◌, length, ltb, Text, false, Option, none, some, List, [], ◌∷◌,
  ◌≡◌, ◌≢◌, refl, sym, ◌∙◌, ap, find, if_both, subst, ◌⊎◌, inl, inr, All, arith,
}
use speck.Diagnostic.{Span, Diagnostic}
use speck.Result.{Result}
use speck.Sema.Constants.Cache.{
  ConstantDefinition, Definitions, ConstantValues, lookup, look_up_value, look_further,
  insert_value,
}
use speck.Sema.Constants.Consistent.{Consistent}
use speck.Sema.Constants.Tasks.{Evaluation, Structs, new}
use speck.Sema.Constants.Evaluator.{Globals, initializer, initialize, evaluate_named}
use speck.Sema.Constants.Frames.{Frames, Frames-fresh, Suspended}
use speck.Sema.Constants.Schedule.{
  Attempt, settled, waits, failed, Frame, Progress, going, finished, Phase, started, attempt,
  settle, wait, close_cycle, react, run, start_run, root_value, fail_all, round, evaluate,
}
use speck.Sema.Constants.Scheduled.{initializer_waits}
use speck.Sema.Constants.Sound.{
  Fine, Fine-round, Good, Ready-started, Returned, evaluate_named-Consistent,
}
use speck.Sema.Constants.Stacks.{
  Produces, Produces-initializer, initializer_lighter, Waiting, Placed, OnlyWaiting, Rooted,
  place_of_Waiting, Placed-remove, Placed-push, OnlyWaiting-remove, OnlyWaiting-push, Rooted-top,
}
use speck.Sema.Constants.Tables.{find_same}
use speck.Sema.Constants.Unvisited.{
  count, count_mono, count-less, seen, seen-settle, seen-top, seen-push, unseen, named,
}
use speck.Sema.Constants.Weight.{weight, tasks_weight}
use speck.Syntax.Value.{ConstantValue}

-- The scheduler has returned.
unfoldable pub Ended : {State : Type 0} → Progress State → Type 0
Ended (finished r cache) = Unit
Ended _ = ⊥

module _ (globals : Globals) (structs : Structs) (builtins : List (Text × ConstantValue))
    (definitions : Definitions) (invalid : List Text) (fuel : ℕ) (root : Text)
    (light : (name : Text) (definition : ConstantDefinition)
      → find name definitions ≡ some definition
      → weight structs definition.init < fuel) where
  Declared : Text → Type 0
  Declared name = (definition : ConstantDefinition) × (find name definitions ≡ some definition)

  Light : Option Evaluation → Type 0
  Light none = Unit
  Light (some s) = tasks_weight structs s.tasks < fuel

  record Shape (pending : List (Frame Evaluation)) (active : List (Text × ℕ)) : Type 0 where
    placed : Placed pending active
    only : OnlyWaiting pending active
    rooted : Rooted root pending
    lights : All (λ (f : Frame Evaluation). Light f.state) pending

  measure : ConstantValues → List (Frame Evaluation) → ℕ
  measure cache pending = 2 * count (seen cache pending) definitions + length pending

  -- The frames below the top are of declarations, and the top is, with less to do, or is not.
  Nearer : ℕ → ConstantValues → List (Frame Evaluation) → Type 0
  Nearer m cache [] = ⊥
  Nearer m cache (f ∷ pending) =
      All (λ (g : Frame Evaluation). Declared g.name) pending
      × ((Declared f.name × (measure cache (f ∷ pending) < m)) ⊎ (find f.name definitions ≡ none))

  Advances : ℕ → Progress Evaluation → Type 0
  Advances m (going cache pending active) = Shape pending active × Nearer m cache pending
  Advances m (finished r cache) = Unit
  Advances m _ = ⊥

  abbrev the_initializer :
      Text → ConstantDefinition → Evaluation → ConstantValues → Attempt Evaluation
  the_initializer = initializer globals structs invalid fuel

  Declared-Waiting :
      (name : Text) (pending : List (Frame Evaluation))
      → Waiting name pending
      → All (λ (g : Frame Evaluation). Declared g.name) pending
      → Declared name
  unfolding Waiting
  Declared-Waiting name [] w known = absurd w
  Declared-Waiting name (f ∷ pending) (inl e) known = subst Declared e known.0
  Declared-Waiting name (f ∷ pending) (inr w) known = Declared-Waiting name pending w known.1

  Advances-settle :
      (cache : ConstantValues) (current : Frame Evaluation) (pending : List (Frame Evaluation))
      (active : List (Text × ℕ)) (v : ConstantValue)
      → Shape (current ∷ pending) active
      → All (λ (g : Frame Evaluation). g.name ≢ current.name) pending
      → All (λ (g : Frame Evaluation). Declared g.name) pending
      → Advances (measure cache (current ∷ pending)) (
          settle definitions Phase.constant initialize the_initializer root cache current pending
            active v)
  unfolding Advances Nearer measure settle root_value Rooted Placed
  Advances-settle cache current [] active v shape apart known =
      rw
        (
          ap (λ n. find n ((current.name, v) ∷ cache.values)) (sym shape.rooted)
              ∙ find_same current.name v cache.values,
          root_value,
        )
        tt
  Advances-settle cache current (below ∷ pending) active v shape apart known = (
    record {
      placed = Placed-remove current.name (below ∷ pending) active apart shape.placed.1;
      only = OnlyWaiting-remove current (below ∷ pending) active shape.only;
      rooted = shape.rooted;
      lights = shape.lights.1;
    },
    (
      known.1,
      inl (
        known.0,
        omega (
          arith,
          count_mono (seen cache (current ∷ below ∷ pending))
              (seen (insert_value cache current.name v) (below ∷ pending)) definitions
              (seen-settle cache current (below ∷ pending) v),
        ),
      ),
    ),
  )

  Advances-close_cycle :
      (m : ℕ) (cache : ConstantValues) (pending : List (Frame Evaluation)) (start : ℕ) (name : Text)
      (o : Option ConstantDefinition)
      → o ≢ none
      → start < length pending
      → Advances m (
          close_cycle definitions Phase.constant initialize the_initializer root cache pending start
            name o)
  unfolding Advances close_cycle fail_all
  Advances-close_cycle m cache pending start name none h lt = absurd (h refl)
  Advances-close_cycle m cache pending start name (some definition) h lt =
      if_both (Advances m) (ltb (length pending) start) (λ e. absurd (ground (arith, e, lt)))
        (λ e. tt)

  Nearer-push :
      (cache : ConstantValues) (current above : Frame Evaluation)
      (pending : List (Frame Evaluation)) (m : ℕ)
      → find above.name cache.values ≡ none
      → All (λ (g : Frame Evaluation). g.name ≢ above.name) (current ∷ pending)
      → All (λ (g : Frame Evaluation). Declared g.name) (current ∷ pending)
      → (o : Option ConstantDefinition) → find above.name definitions ≡ o
      → Nearer (measure cache (current ∷ pending)) cache (above ∷ current ∷ pending)
  unfolding Nearer measure Declared
  Nearer-push cache current above pending m free apart known none e = (known, inr e)
  Nearer-push cache current above pending m free apart known (some definition) e = (
    known,
    inl (
      (definition, e),
      omega (
        arith,
        count-less (seen cache (current ∷ pending)) (seen cache (above ∷ current ∷ pending))
            definitions above.name (seen-push cache above (current ∷ pending)) e
            (unseen cache (current ∷ pending) above.name free apart)
            (seen-top cache above (current ∷ pending)),
      ),
    ),
  )

  Advances-wait :
      (cache : ConstantValues) (current : Frame Evaluation) (pending : List (Frame Evaluation))
      (active : List (Text × ℕ)) (name : Text) (span : Span) (s : Evaluation) (o : Option ℕ)
      → find name active ≡ o
      → Shape (current ∷ pending) active
      → Frames globals structs definitions cache (current ∷ pending) active
      → All (λ (g : Frame Evaluation). Declared g.name) (current ∷ pending)
      → find name cache.values ≡ none
      → tasks_weight structs s.tasks < fuel
      → Advances (measure cache (current ∷ pending)) (
          wait definitions Phase.constant initialize the_initializer root cache current pending
            active name span s o)
  unfolding Advances wait Placed Light Declared measure seen named OnlyWaiting Waiting Rooted
  Advances-wait cache current pending active name span s (some start) e shape frames known free
        ends =
      let waiting = shape.only name start e in
      let found = Declared-Waiting name (current ∷ pending) waiting known in
      Advances-close_cycle _ cache (current ∷ pending) start name (find name definitions)
        (λ q. cc (q, found.1))
        (place_of_Waiting name (current ∷ pending) active waiting shape.placed e)
  Advances-wait cache current pending active name span s none e shape frames known free ends =
      let above : Frame Evaluation = record { name = name; usage_span = span; state = none } in
      let again : Frame Evaluation = record {
        name = current.name;
        usage_span = current.usage_span;
        state = some s;
      } in
      let apart =
        Frames-fresh globals structs definitions cache name (current ∷ pending) active e frames in
      (
        record {
          placed = (
            find_same name (suc (length pending)) active,
            Placed-push name (suc (length pending)) (current ∷ pending) active apart shape.placed,
          );
          only = OnlyWaiting-push above (suc (length pending)) (again ∷ pending) active shape.only;
          rooted = Rooted-top root current again pending refl shape.rooted;
          lights = (tt, (ends, shape.lights.1));
        },
        Nearer-push cache again above pending 0 free apart known (find name definitions) refl,
      )

  Light-started :
      (name : Text) (definition : ConstantDefinition) (s : Option Evaluation)
      → find name definitions ≡ some definition
      → Light s
      → tasks_weight structs
          (started definitions Phase.constant initialize the_initializer root definition s).tasks
        < fuel
  unfolding started Light initialize new tasks_weight
  Light-started name definition (some s) known h = h
  Light-started name definition none known h = omega (arith, light name definition known)

  Advances-react :
      (cache : ConstantValues) (current : Frame Evaluation) (pending : List (Frame Evaluation))
      (active : List (Text × ℕ)) (definition : ConstantDefinition) (t : Attempt Evaluation)
      → find current.name definitions ≡ some definition
      → initializer globals structs invalid fuel current.name definition
          (started definitions Phase.constant initialize the_initializer root definition
            current.state)
          cache
        ≡ t
      → Shape (current ∷ pending) active
      → Frames globals structs definitions cache (current ∷ pending) active
      → All (λ (g : Frame Evaluation). Declared g.name) pending
      → Advances (measure cache (current ∷ pending)) (
          react definitions Phase.constant initialize the_initializer root cache current pending
            active t)
  unfolding Advances react fail_all Frames Declared Produces
  Advances-react cache current pending active definition (settled v) known h shape frames others =
      Advances-settle cache current pending active v shape frames.3 others
  Advances-react cache current pending active definition (waits name span s) known h shape frames
        others =
      let ready =
        Ready-started globals structs builtins definitions invalid fuel root cache current.name
          definition current.state known frames.1 in
      let ends = Light-started current.name definition current.state known shape.lights.0 in
      let next_state =
        initializer_waits globals structs invalid fuel current.name definition _ cache ready h in
      Advances-wait cache current pending active name span s (find name active) refl shape frames
        ((definition, known), others) next_state.1
        (initializer_lighter globals structs invalid fuel current.name definition _ cache ends h)
  Advances-react cache current pending active definition (failed d) known h shape frames others = tt
  Advances-react cache current pending active definition Attempt.panicked known h shape frames
        others =
      absurd (
        subst Produces h (
          Produces-initializer globals structs invalid fuel current.name definition _ cache
            (Ready-started globals structs builtins definitions invalid fuel root cache current.name
              definition current.state known frames.1)
            (Light-started current.name definition current.state known shape.lights.0)))
  Advances-react cache current pending active definition Attempt.exhausted known h shape frames
        others =
      absurd (
        subst Produces h (
          Produces-initializer globals structs invalid fuel current.name definition _ cache
            (Ready-started globals structs builtins definitions invalid fuel root cache current.name
              definition current.state known frames.1)
            (Light-started current.name definition current.state known shape.lights.0)))

  Advances-round :
      (cache : ConstantValues) (current : Frame Evaluation) (pending : List (Frame Evaluation))
      (active : List (Text × ℕ))
      → Shape (current ∷ pending) active
      → Frames globals structs definitions cache (current ∷ pending) active
      → All (λ (g : Frame Evaluation). Declared g.name) (current ∷ pending)
      → Advances (measure cache (current ∷ pending)) (
          round definitions Phase.constant initialize the_initializer root cache
            (current ∷ pending)
            active)
  unfolding round attempt Declared
  Advances-round cache current pending active shape frames known =
      rw (known.0.1, round, attempt)
        (Advances-react cache current pending active known.0.0 _ known.0.1 refl shape frames
          known.1)

  Ended-run :
      (rounds : ℕ) (r : Result Diagnostic ConstantValue) (cache : ConstantValues)
      → Ended
          (run definitions Phase.constant initialize the_initializer root rounds (finished r cache))
  unfolding run Ended
  Ended-run zero r cache = tt
  Ended-run (suc rounds) r cache = tt

  Ended-unknown :
      (rounds : ℕ) (cache : ConstantValues) (current : Frame Evaluation)
      (pending : List (Frame Evaluation)) (active : List (Text × ℕ))
      → find current.name definitions ≡ none
      → 0 < rounds
      → Ended (
          run definitions Phase.constant initialize the_initializer root rounds
            (going cache (current ∷ pending) active))
  unfolding run round attempt react fail_all
  Ended-unknown zero cache current pending active h lt = absurd (omega (arith, lt))
  Ended-unknown (suc rounds) cache current pending active h lt =
      rw (h, round, attempt, react, fail_all) (Ended-run rounds _ _)

  run_on :
      (n m : ℕ) (p : Progress Evaluation)
      → 0 < m
      → m ≤ n
      → ((cache : ConstantValues) (current : Frame Evaluation) (pending : List (Frame Evaluation))
            (active : List (Text × ℕ))
          → Fine globals structs builtins definitions invalid fuel root
              (going cache (current ∷ pending) active)
          → Shape (current ∷ pending) active
          → All (λ (g : Frame Evaluation). Declared g.name) (current ∷ pending)
          → measure cache (current ∷ pending) < n
          → Ended (
              run definitions Phase.constant initialize the_initializer root n
                (going cache (current ∷ pending) active)))
      → Fine globals structs builtins definitions invalid fuel root p
      → Advances m p
      → Ended (run definitions Phase.constant initialize the_initializer root n p)
  unfolding Advances Nearer
  run_on n m (going cache [] active) some_m enough again fine step = absurd step.1
  run_on n m (going cache (f ∷ pending) active) some_m enough again fine step = elim step.1.1 [
    | inl h ↦ again cache f pending active fine step.0 (h.0, step.1.0) (omega (arith, enough, h.1))
    | inr h ↦ Ended-unknown n cache f pending active h (omega (arith, some_m, enough))
  ]
  run_on n m (finished r cache) some_m enough again fine step = Ended-run n r cache
  run_on n m Progress.panicked some_m enough again fine step = absurd step
  run_on n m Progress.exhausted some_m enough again fine step = absurd step

  -- More rounds than the measure are enough.
  Ended-going :
      (rounds : ℕ) (cache : ConstantValues) (current : Frame Evaluation)
      (pending : List (Frame Evaluation)) (active : List (Text × ℕ))
      → Fine globals structs builtins definitions invalid fuel root
          (going cache (current ∷ pending) active)
      → Shape (current ∷ pending) active
      → All (λ (g : Frame Evaluation). Declared g.name) (current ∷ pending)
      → measure cache (current ∷ pending) < rounds
      → Ended (
          run definitions Phase.constant initialize the_initializer root rounds
            (going cache (current ∷ pending) active))
  unfolding run Fine measure
  Ended-going zero cache current pending active fine shape known enough =
      absurd (omega (arith, enough))
  Ended-going (suc n) cache current pending active fine shape known enough =
      run_on n (measure cache (current ∷ pending)) _ (omega arith) (omega (arith, enough))
        (λ c f p a. Ended-going n c f p a)
        (Fine-round globals structs builtins definitions invalid fuel root cache (current ∷ pending)
          active fine.0 fine.1)
        (Advances-round cache current pending active shape fine.1 known)

  Ended-start_run :
      (rounds : ℕ) (cache : ConstantValues) (span : Span) (found : Option ConstantValue)
      (failure : Option Diagnostic)
      → find root cache.values ≡ found
      → find root cache.failures ≡ failure
      → Good globals structs builtins definitions invalid fuel root cache
      → Declared root
      → 2 * count (λ key. false) definitions + 1 < rounds
      → Ended (
          start_run definitions Phase.constant initialize the_initializer root rounds cache span
            (look_up_value root span cache.failures found))
  unfolding start_run look_up_value look_further Ended Fine Frames Suspended Light Placed
      OnlyWaiting Waiting Rooted measure
  Ended-start_run rounds cache span (some v) failure h k good known enough = tt
  Ended-start_run rounds cache span none (some d) h k good known enough = rw (k, look_further) tt
  Ended-start_run rounds cache span none none h k good known enough =
      rw (k, look_further)
        (Ended-going rounds cache _ [] _ (good, (h, tt, (0, find_same root 0 []), tt, tt))
          (record {
            placed = (find_same root 0 [], tt);
            only =
                OnlyWaiting-push (record { name = root; usage_span = span; state = none }) 0 [] []
                  (λ name place e. absurd (cc e));
            rooted = refl;
            lights = (tt, tt);
          })
          (known, tt)
          (omega (
            arith,
            enough,
            count_mono (λ key. false)
                (seen cache (record { name = root; usage_span = span; state = none } ∷ []))
                definitions (λ key e. absurd (cc e)),
          )))

count_all : (definitions : Definitions) → count (λ key. false) definitions ≡ length definitions
unfolding count
count_all [] = refl
count_all ((key, d) ∷ definitions) = omega (arith, count_all definitions)

returned :
    (p : Progress Evaluation)
    → Ended p
    → (r : Result Diagnostic ConstantValue) × (later : ConstantValues) × (p ≡ finished r later)
unfolding Ended
returned (finished r later) h = (r, later, refl)
returned (going cache pending active) h = absurd h
returned Progress.panicked h = absurd h
returned Progress.exhausted h = absurd h

-- Evaluating a declared name in a consistent cache returns, with a value or a diagnostic, whatever
-- cycles the declarations have: two rounds for each declaration and two more are enough, if the
-- machine has a round more than the weight of each initializer. The cache that is left is
-- consistent, and a returned value is cached under the name.
pub evaluate_named-total :
    (globals : Globals) (structs : Structs) (builtins : List (Text × ConstantValue))
    (definitions : Definitions) (invalid : List Text) (fuel rounds : ℕ) (cache : ConstantValues)
    (name : Text) (definition : ConstantDefinition)
    → Consistent globals structs builtins definitions cache
    → find name definitions ≡ some definition
    → ((other : Text) (d : ConstantDefinition)
        → find other definitions ≡ some d
        → weight structs d.init < fuel)
    → 2 * length definitions + 1 < rounds
    → (r : Result Diagnostic ConstantValue) × (later : ConstantValues) × (evaluate_named globals
          structs invalid fuel definitions rounds cache name
        ≡ finished r later)
      × Consistent globals structs builtins definitions later
      × Returned name r later
unfolding evaluate_named evaluate lookup Good Declared
evaluate_named-total globals structs builtins definitions invalid fuel rounds cache name definition
      good known light enough =
    let ends =
      Ended-start_run globals structs builtins definitions invalid fuel name light rounds cache
        definition.span _ _ refl refl good (definition, known)
        (omega (arith, enough, count_all definitions)) in
    let done = returned _ ends in
    let equation : evaluate_named globals structs invalid fuel definitions rounds cache name
        ≡ finished done.0 done.1 =
      rw (evaluate_named, known) done.2 in
    let kept =
      evaluate_named-Consistent globals structs builtins definitions invalid fuel rounds cache name
        good equation in
    (done.0, done.1, equation, kept.0, kept.1)
