-- ===== src/Diagnostic.antt =====
-- src/diagnostic.rs and `SourceId` of src/source.rs: spans of source bytes and diagnostics.
use speck.Base.{ℕ, Text}

abbrev pub SourceId : Type 0
SourceId = ℕ

-- `SourceId::DEFAULT`
abbrev pub default_source : SourceId
default_source = 0

pub record Span : Type 0 where
  pub source : SourceId
  pub start : ℕ
  pub end : ℕ

-- `Span::new`
abbrev pub new_span : ℕ → ℕ → Span
new_span start end = record { source = default_source; start = start; end = end }

pub record Diagnostic : Type 0 where
  pub message : Text
  pub span : Span

-- `Diagnostic::new`
abbrev pub new_diagnostic : Text → Span → Diagnostic
new_diagnostic message span = record { message = message; span = span }
