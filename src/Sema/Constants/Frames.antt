-- ===== src/Sema/Constants/Frames.antt =====
-- The suspended initializers of src/sema/constants/dependencies.rs: their names have no values yet
-- and are apart, and each state leads to its declaration's meaning.
use speck.Base.{
  ℕ, Text, Bool, true, false, Option, none, some, List, [], ◌∷◌, ◌≡◌, refl, sym, ◌∙◌, ap, ◌≢◌, find,
  same_text, if◌then◌else◌, All,
}
use speck.Sema.Constants.Cache.{ConstantDefinition, Definitions, ConstantValues, insert_value}
use speck.Sema.Constants.Consistent.{Extends-insert, Extends-trans}
use speck.Sema.Constants.Tasks.{Evaluation, Structs}
use speck.Sema.Constants.Evaluator.{Globals}
use speck.Sema.Constants.Schedule.{Frame, remove}
use speck.Sema.Constants.Scheduled.{Ready}
use speck.Sema.Constants.Tables.{Extends, find_other, find-remove}
use speck.Syntax.Value.{ConstantValue}

find_push :
    (name key : Text) (place : ℕ) (active : List (Text × ℕ)) {n : ℕ}
    → find name active ≡ some n
    → (m : ℕ) × (find name ((key, place) ∷ active) ≡ some m)
unfolding find
find_push name key place active {n = n} h = pick (same_text name key)
  where
    pick : (b : Bool) → (m : ℕ) × ((if b then some place else find name active) ≡ some m)
    pick true = (place, refl)
    pick false = (n, h)

module _ (globals : Globals) (structs : Structs) (definitions : Definitions) where
  unfoldable pub Suspended : ConstantValues → Text → Option Evaluation → Type 0
  Suspended cache name none = Unit
  Suspended cache name (some s) =
      (definition : ConstantDefinition)
      → find name definitions ≡ some definition
      → Ready globals structs cache definition s

  unfoldable pub Frames : ConstantValues → List (Frame Evaluation) → List (Text × ℕ) → Type 0
  Frames cache [] active = Unit
  Frames cache (f ∷ pending) active =
      (find f.name cache.values ≡ none)
      × Suspended cache f.name f.state
      × ((place : ℕ) × (find f.name active ≡ some place))
      × All (λ (g : Frame Evaluation). g.name ≢ f.name) pending
      × Frames cache pending active

  Suspended-Extends :
      (cache later : ConstantValues) (name : Text) (s : Option Evaluation)
      → Extends cache later
      → Suspended cache name s
      → Suspended later name s
  unfolding Suspended Ready
  Suspended-Extends cache later name none more h = tt
  Suspended-Extends cache later name (some s) more h =
      λ definition e last k. h definition e last (Extends-trans cache later last more k)

  -- A settled declaration leaves the others' frames as they should be.
  pub Frames-insert :
      (cache : ConstantValues) (name : Text) (v : ConstantValue) (pending : List (Frame Evaluation))
      (active : List (Text × ℕ))
      → find name cache.values ≡ none
      → All (λ (g : Frame Evaluation). g.name ≢ name) pending
      → Frames cache pending active
      → Frames (insert_value cache name v) pending (remove name active)
  unfolding Frames
  Frames-insert cache name v [] active free apart h = tt
  Frames-insert cache name v (f ∷ pending) active free apart h = (
    find_other f.name name v cache.values (λ e. apart.0 (sym e)) ∙ h.0,
    Suspended-Extends cache (insert_value cache name v) f.name f.state
        (Extends-insert cache name v free) h.1,
    (h.2.0, find-remove f.name name active (λ e. apart.0 (sym e)) ∙ h.2.1),
    h.3,
    Frames-insert cache name v pending active free apart.1 h.4,
  )

  pub Frames-push :
      (cache : ConstantValues) (name : Text) (place : ℕ) (pending : List (Frame Evaluation))
      (active : List (Text × ℕ))
      → Frames cache pending active
      → Frames cache pending ((name, place) ∷ active)
  unfolding Frames
  Frames-push cache name place [] active h = tt
  Frames-push cache name place (f ∷ pending) active h = (
    h.0,
    h.1,
    find_push f.name name place active h.2.1,
    h.3,
    Frames-push cache name place pending active h.4,
  )

  -- A name that is not active is no frame's.
  pub Frames-fresh :
      (cache : ConstantValues) (name : Text) (pending : List (Frame Evaluation))
      (active : List (Text × ℕ))
      → find name active ≡ none
      → Frames cache pending active
      → All (λ (g : Frame Evaluation). g.name ≢ name) pending
  unfolding Frames
  Frames-fresh cache name [] active free h = tt
  Frames-fresh cache name (f ∷ pending) active free h = (
    λ e. absurd (cc (free, h.2.1, ap (λ n. find n active) e)),
    Frames-fresh cache name pending active free h.4,
  )
