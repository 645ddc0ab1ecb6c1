-- ===== src/Builtins.antt =====
-- src/builtins.rs: the runtime's functions and the predefined constants. The keys and their numbers
-- are a table that build.rs generates.
use speck.Base.{Text, text, same_text, Bool, false, ◌||◌, List, [], ◌∷◌}
use speck.Base.Int.{ℤ, pos}
use speck.Resolution.{Resolution, default_resolution}
use speck.Syntax.{ValueType, i32, f32, bool, ReturnType, value, void}
use speck.Syntax.Value.{ConstantValue}

pub record BuiltinFunction : Type 0 where
  pub name : Text
  pub params : List ValueType
  pub return_type : ReturnType
  pub llvm_symbol : Text

unfoldable pub builtin : Text → List ValueType → ReturnType → Text → BuiltinFunction
builtin name params return_type llvm_symbol = record {
  name = name;
  params = params;
  return_type = return_type;
  llvm_symbol = llvm_symbol;
}

-- `FUNCTIONS`
unfoldable pub functions : List BuiltinFunction
unfolding builtin
functions =
    builtin (text "load_i32") (i32 ∷ i32 ∷ []) (value i32) (text "@crumb_load_i32")
    ∷ builtin (text "save_i32") (i32 ∷ i32 ∷ []) (value bool) (text "@crumb_save_i32")
    ∷ builtin (text "tone") (f32 ∷ f32 ∷ f32 ∷ []) void (text "@crumb_tone")
    ∷ builtin (text "noise") (f32 ∷ f32 ∷ []) void (text "@crumb_noise")
    ∷ builtin (text "sound_play") (i32 ∷ f32 ∷ []) void (text "@crumb_sound_play")
    ∷ builtin (text "sound_pause") [] void (text "@crumb_sound_pause")
    ∷ builtin (text "sound_resume") [] void (text "@crumb_sound_resume")
    ∷ builtin (text "sound_stop") [] void (text "@crumb_sound_stop")
    ∷ builtin (text "sound_position") [] (value f32) (text "@crumb_sound_position")
    ∷ builtin (text "sound_seek") (f32 ∷ []) void (text "@crumb_sound_seek")
    ∷ builtin (text "sin") (f32 ∷ []) (value f32) (text "@crumb_sin")
    ∷ builtin (text "print_i32") (i32 ∷ []) void (text "@crumb_print_i32")
    ∷ builtin (text "debug_frame") (i32 ∷ f32 ∷ []) void (text "@crumb_debug_frame")
    ∷ builtin (text "clear_rgb") (i32 ∷ i32 ∷ i32 ∷ []) void (text "@crumb_clear_rgb")
    ∷ builtin (text "fill_rect") (i32 ∷ i32 ∷ i32 ∷ i32 ∷ i32 ∷ i32 ∷ i32 ∷ []) void
        (text "@crumb_fill_rect")
    ∷ builtin (text "key_down") (i32 ∷ []) (value bool) (text "@crumb_key_down")
    ∷ builtin (text "key_pressed") (i32 ∷ []) (value bool) (text "@crumb_key_pressed")
    ∷ builtin (text "key_released") (i32 ∷ []) (value bool) (text "@crumb_key_released")
    ∷ builtin (text "quit") [] void (text "@crumb_request_quit")
    ∷ []

-- `constants`
unfoldable pub builtin_constants : List (Text × ℤ) → Resolution → List (Text × ConstantValue)
builtin_constants [] resolution =
    (text "FRAMEBUFFER_WIDTH", ConstantValue.i32 (pos resolution.width))
    ∷ (text "FRAMEBUFFER_HEIGHT", ConstantValue.i32 (pos resolution.height))
    ∷ []
builtin_constants ((name, key) ∷ keys) resolution =
    (name, ConstantValue.i32 key) ∷ builtin_constants keys resolution

unfoldable pub has_name : List (Text × ConstantValue) → Text → Bool
has_name [] name = false
has_name ((key, v) ∷ constants) name = same_text key name || has_name constants name

-- `is_predefined_constant`
unfoldable pub is_predefined_constant : List (Text × ℤ) → Text → Bool
unfolding builtin_constants has_name
is_predefined_constant keys name = has_name (builtin_constants keys default_resolution) name
