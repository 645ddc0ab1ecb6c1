-- ===== src/Merge.antt =====
-- `Span::merge` of src/diagnostic.rs, whose `assert!` is a panic.
use speck.Base.{◌==◌, if◌then◌else◌, ◌≡◌, arith}
use speck.Diagnostic.{Span}
use speck.Outcome.{Outcome, ok, panic}

unfoldable pub merge : Span → Span → Outcome Span
merge a b =
    if a.source == b.source
    then ok (record { source = a.source; start = a.start; end = b.end })
    else panic

-- Spans of one file merge, into a span from the first's start to the second's end.
pub merge-same :
    (a b : Span)
    → a.source ≡ b.source
    → merge a b ≡ ok (record { source = a.source; start = a.start; end = b.end })
unfolding merge
merge-same a b h = ground arith
