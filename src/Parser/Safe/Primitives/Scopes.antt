-- ===== src/Parser/Safe/Primitives/Scopes.antt =====
-- Nesting and scopes of names in src/parser.rs are entered and left safely.
use speck.Base.{
  ℕ, suc, ◌+◌, ◌-◌, ◌<◌, List, [], ◌∷◌, Text, ◌≡◌, refl, ap, arith, length, if_both, ◌==◌,
}
use speck.Diagnostic.{SourceId}
use speck.Lexer.Token.{Token}
use speck.Outcome.{ok}
use speck.Parser.Limits.{max_nesting}
use speck.Parser.State.{
  Parser, M, leave, nested, push_scope, pop_scope, bind_value, insert_binding, tail_scopes,
}
use speck.Parser.Safe.{IsFile, At, Ensures, returns, fails, Keeps, Anything, ◌⟫◌}
use speck.Parser.Safe.Primitives.Tokens.{current-Safe}

module _ {k : SourceId} {toks : List Token} (file : IsFile k toks) where
  -- A parser run one level deeper, and back.
  pub nested-Safe :
      {A : Type 0} {P : A → Type 0} {n v c : ℕ} (parse : M A) (s : Parser)
      → At toks n v c s
      → ((s' : Parser)
          → n < max_nesting
          → At toks (suc n) v c s'
          → Ensures (Keeps toks P (suc n) v (suc c)) (parse s'))
      → Ensures (Keeps toks P n v (suc c)) (nested parse s)
  unfolding nested leave
  nested-Safe {P} {n} {v} {c} parse s p inner =
      if_both (Ensures (Keeps toks P n v (suc c))) (s.nesting == max_nesting)
        (λ _. current-Safe file s p ⟫ λ t s' h. fails)
        (λ under.
          let lt : n < max_nesting = ground (arith, p.same_nesting, p.shallow) in
          inner _ lt (deeper lt) ⟫ λ a s' (h, q). returns (h, back s' q))
    where
      deeper : n < max_nesting → At toks (suc n) v c (record s { nesting = s.nesting + 1 })
      deeper lt = record {
        same_tokens = p.same_tokens;
        same_nesting = omega (arith, p.same_nesting);
        same_scopes = p.same_scopes;
        shallow = lt;
        low = p.low;
        high = p.high;
      }

      back :
          (s' : Parser)
          → At toks (suc n) v (suc c) s'
          → At toks n v (suc c) (record s' { nesting = s'.nesting - 1 })
      back s' q = record {
        same_tokens = q.same_tokens;
        same_nesting = omega (arith, q.same_nesting);
        same_scopes = q.same_scopes;
        shallow = p.shallow;
        low = q.low;
        high = q.high;
      }

  pub push_scope-Safe :
      {n v c : ℕ} (scope : List Text) (s : Parser)
      → At toks n v c s
      → Ensures (Keeps toks Anything n (suc v) c) (push_scope scope s)
  unfolding push_scope
  push_scope-Safe scope s p = returns (
    tt,
    record {
      same_tokens = p.same_tokens;
      same_nesting = p.same_nesting;
      same_scopes = ap suc p.same_scopes;
      shallow = p.shallow;
      low = p.low;
      high = p.high;
    },
  )

  length-tail_scopes :
      (scopes : List (List Text)) {v : ℕ} → length scopes ≡ suc v → length (tail_scopes scopes) ≡ v
  length-tail_scopes [] h = omega arith
  length-tail_scopes (scope ∷ scopes) h = omega arith

  pub pop_scope-Safe :
      {n v c : ℕ} (s : Parser)
      → At toks n (suc v) c s
      → Ensures (Keeps toks Anything n v c) (pop_scope s)
  unfolding pop_scope
  pop_scope-Safe s p = returns (
    tt,
    record {
      same_tokens = p.same_tokens;
      same_nesting = p.same_nesting;
      same_scopes = length-tail_scopes s.value_scopes p.same_scopes;
      shallow = p.shallow;
      low = p.low;
      high = p.high;
    },
  )

  insert_binding_total :
      (name : Text) (scopes : List (List Text)) {v : ℕ}
      → length scopes ≡ suc v
      → (scopes' : List (List Text)) × (insert_binding name scopes ≡ ok scopes')
        × (length scopes' ≡ suc v)
  unfolding insert_binding
  insert_binding_total name [] h = absurd (omega arith)
  insert_binding_total name (scope ∷ scopes) h = ((name ∷ scope) ∷ scopes, refl, h)

  -- A binding needs a scope to stand in.
  pub bind_value-Safe :
      {n v c : ℕ} (name : Text) (s : Parser)
      → At toks n (suc v) c s
      → Ensures (Keeps toks Anything n (suc v) c) (bind_value name s)
  unfolding bind_value
  bind_value-Safe name s p =
      let (scopes, e, l) = insert_binding_total name s.value_scopes p.same_scopes in
      rw e (
        returns (
          tt,
          record {
            same_tokens = p.same_tokens;
            same_nesting = p.same_nesting;
            same_scopes = l;
            shallow = p.shallow;
            low = p.low;
            high = p.high;
          },
        ))
