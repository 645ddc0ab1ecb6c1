-- ===== src/Parser/Safe/File/Additions.antt =====
-- What a declaration of src/parser.rs adds to a program is within the limits.
use speck.Base.{◌++◌, List, [], ◌∷◌, All-concat}
use speck.Diagnostic.{SourceId}
use speck.Lexer.Token.{Token}
use speck.Parser.File.{
  add_import, add_struct, add_sound, add_constant, add_global, add_start, add_update, add_draw,
  add_function,
}
use speck.Parser.Limits.Blocks.{ProgramWithin}
use speck.Parser.Safe.Declaration.{
  ConstantWithin, GlobalWithin, FunctionWithin, parse_struct-Safe, parse_sound-Safe,
  parse_constant-Safe, parse_global-Safe, parse_start-Safe, parse_update-Safe, parse_draw-Safe,
  parse_named_function-Safe,
}
use speck.Parser.Safe.Rules.{Consumes}
use speck.Parser.Safe.{IsFile, returns, ◌⟫◌}
use speck.Parser.State.{M}
use speck.Syntax.Stmt.{Program, Function, Constant, Global}
use speck.Syntax.{StructDecl, SoundAsset}
use speck.Parser.Safe.File.Imports.{parse_import-Safe}

-- A parser that leaves a program within the limits.
abbrev pub Adds : List Token → M Program → Type 0
Adds toks m = Consumes toks ProgramWithin 0 0 m

module _ {k : SourceId} {toks : List Token} (file : IsFile k toks) where
  pub add_import-Safe : (p : Program) → ProgramWithin p → Adds toks (add_import p)
  unfolding add_import
  add_import-Safe p h c s q = parse_import-Safe file c s q ⟫ λ x s' (_, q'). returns (h, q')

  pub add_struct-Safe : (p : Program) → ProgramWithin p → Adds toks (add_struct p)
  unfolding add_struct
  add_struct-Safe p h c s q =
      parse_struct-Safe file c s q ⟫ λ x s' (_, q'). returns (same_parts h, q')
    where
      same_parts :
          {structs : List StructDecl}
          → ProgramWithin p
          → ProgramWithin (record p { structs = structs })
      same_parts w = record {
        resolution = w.resolution;
        bodies = w.bodies;
        constants = w.constants;
        globals = w.globals;
      }

  pub add_sound-Safe : (p : Program) → ProgramWithin p → Adds toks (add_sound p)
  unfolding add_sound
  add_sound-Safe p h c s q =
      parse_sound-Safe file c s q ⟫ λ x s' (_, q'). returns (same_parts h, q')
    where
      same_parts :
          {sounds : List SoundAsset}
          → ProgramWithin p
          → ProgramWithin (record p { sounds = sounds })
      same_parts w = record {
        resolution = w.resolution;
        bodies = w.bodies;
        constants = w.constants;
        globals = w.globals;
      }

  pub add_constant-Safe : (p : Program) → ProgramWithin p → Adds toks (add_constant p)
  unfolding add_constant
  add_constant-Safe p h c s q =
      parse_constant-Safe file c s q ⟫ λ x s' (b, q'). returns (with_constant x b, q')
    where
      with_constant :
          (x : Constant)
          → ConstantWithin x
          → ProgramWithin (record p { constants = p.constants ++ x ∷ [] })
      with_constant x b = record {
        resolution = h.resolution;
        bodies = h.bodies;
        constants = All-concat ConstantWithin p.constants h.constants b;
        globals = h.globals;
      }

  pub add_global-Safe : (p : Program) → ProgramWithin p → Adds toks (add_global p)
  unfolding add_global
  add_global-Safe p h c s q =
      parse_global-Safe file c s q ⟫ λ x s' (b, q'). returns (with_global x b, q')
    where
      with_global :
          (x : Global) → GlobalWithin x → ProgramWithin (record p { globals = p.globals ++ x ∷ [] })
      with_global x b = record {
        resolution = h.resolution;
        bodies = h.bodies;
        constants = h.constants;
        globals = All-concat GlobalWithin p.globals h.globals b;
      }

  with_function :
      (p : Program) (x : Function)
      → ProgramWithin p
      → FunctionWithin x
      → ProgramWithin (record p { functions = p.functions ++ x ∷ [] })
  with_function p x h b = record {
    resolution = h.resolution;
    bodies = All-concat FunctionWithin p.functions h.bodies b;
    constants = h.constants;
    globals = h.globals;
  }

  pub add_start-Safe : (p : Program) → ProgramWithin p → Adds toks (add_start p)
  unfolding add_start
  add_start-Safe p h c s q =
      parse_start-Safe file c s q ⟫ λ x s' (b, q'). returns (with_function p x h b, q')

  pub add_update-Safe : (p : Program) → ProgramWithin p → Adds toks (add_update p)
  unfolding add_update
  add_update-Safe p h c s q =
      parse_update-Safe file c s q ⟫ λ x s' (b, q'). returns (with_function p x h b, q')

  pub add_draw-Safe : (p : Program) → ProgramWithin p → Adds toks (add_draw p)
  unfolding add_draw
  add_draw-Safe p h c s q =
      parse_draw-Safe file c s q ⟫ λ x s' (b, q'). returns (with_function p x h b, q')

  pub add_function-Safe : (p : Program) → ProgramWithin p → Adds toks (add_function p)
  unfolding add_function
  add_function-Safe p h c s q =
      parse_named_function-Safe file c s q ⟫ λ x s' (b, q'). returns (with_function p x h b, q')
