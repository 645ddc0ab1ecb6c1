-- ===== src/Audio/Chunks.antt =====
-- The loop of `validate` in src/audio_assets.rs reads the file as a sequence of chunks.
use speck.Base.{
  ℕ, zero, suc, ◌+◌, ◌%◌, ◌^◌, ◌≤◌, ◌&&◌, Bool, true, false, List, [], ◌∷◌, ◌++◌, Option, none,
  some, Text, text, same_text, same_text_iff, ◌≡◌, refl, sym, ap, ◌∙◌, subst, arith, length, slice,
  map, ltb, leb, if_both, Bool-cases, inl, inr,
}
use mathlib.Core.List.{append-nil}
use speck.Audio.Spec.{Chunk, number_at, Chunks, done, chunk, places}
use speck.Audio.{
  Read, ok, err, ◌>>=◌, reject_if, ok_or, checked_add, get_range, index_range, from_le_bytes,
  little_u16, little_u32, Found, is_some, note_chunk, read_chunk, chunk_loop,
}

-- A value with the property, or a reported error: not a panic, not an endless loop.
pub data Meets {A : Type 0} (P : A → Type 0) : Read A → Type 0 where
  meets : {a : A} → P a → Meets P (ok a)
  refused : {message : Text} → Meets P (err message)

infixl 1 ◌⟫◌
pub ◌⟫◌ :
    {A B : Type 0} {P : A → Type 0} {Q : B → Type 0} {r : Read A} {f : A → Read B}
    → Meets P r
    → ((a : A) → P a → Meets Q (f a))
    → Meets Q (r >>= f)
meets h ⟫ k = k _ h
refused ⟫ k = refused

pub Meets-map :
    {A : Type 0} {P Q : A → Type 0} {r : Read A} → ((a : A) → P a → Q a) → Meets P r → Meets Q r
Meets-map f (meets h) = meets (f _ h)
Meets-map f refused = refused

pub unless_rejected :
    {A : Type 0} {P : A → Type 0} (test : Bool) (message : Text) {r : Read A}
    → (test ≡ false → Meets P r)
    → Meets P (reject_if test message r)
unless_rejected true message h = refused
unless_rejected false message h = h refl

pub ok_or-Meets :
    {A : Type 0} (o : Option A) (message : Text) → Meets (λ a. o ≡ some a) (ok_or o message)
unfolding ok_or
ok_or-Meets none message = refused
ok_or-Meets (some a) message = meets refl

pub checked_add-Meets :
    (a b : ℕ) (message : Text) → Meets (λ n. n ≡ a + b) (ok_or (checked_add a b) message)
unfolding checked_add ok_or
checked_add-Meets a b message =
    if_both (λ o. Meets (λ n. n ≡ a + b) (ok_or o message)) (ltb (a + b) (2 ^ 64)) (λ _. meets refl)
      (λ _. refused)

get_range-Meets :
    (B : Text) (i j : ℕ) (message : Text)
    → Meets (λ bs. bs ≡ slice B i j) (ok_or (get_range B i j) message)
unfolding get_range ok_or
get_range-Meets B i j message =
    if_both (λ o. Meets (λ bs. bs ≡ slice B i j) (ok_or o message)) (leb i j && leb j (length B))
      (λ _. meets refl) (λ _. refused)

pub little_u16-Meets : (B : Text) (i : ℕ) → Meets (λ n. n ≡ number_at B i (i + 2)) (little_u16 B i)
unfolding little_u16
little_u16-Meets B i = get_range-Meets B i (i + 2) _ ⟫ λ bs e. meets (ap from_le_bytes e)

pub little_u32-Meets : (B : Text) (i : ℕ) → Meets (λ n. n ≡ number_at B i (i + 4)) (little_u32 B i)
unfolding little_u32
little_u32-Meets B i = get_range-Meets B i (i + 4) _ ⟫ λ bs e. meets (ap from_le_bytes e)

-- A slice inside the bytes does not panic.
pub index_range-Meets :
    (B : Text) (i j : ℕ) → i ≤ j → j ≤ length B → Meets (λ bs. bs ≡ slice B i j) (index_range B i j)
unfolding index_range
index_range-Meets B i j h k =
    if_both (Meets (λ bs. bs ≡ slice B i j)) (leb i j && leb j (length B)) (λ _. meets refl)
      (λ e. absurd (ground arith))

-- A place found, as a list.
abbrev pub to_list : Option (ℕ × ℕ) → List (ℕ × ℕ)
to_list none = []
to_list (some a) = a ∷ []

abbrev pub with_end : ℕ × ℕ → ℕ × ℕ
with_end (start, size) = (start, start + size)

-- What is found behind a chunk is what is found from it on.
pub record Finds (before : Found) (cs : List Chunk) (after : Found) (rest : List Chunk)
    : Type 0 where
  pub formats :
      to_list after.format ++ places (text "fmt ") rest
      ≡ to_list before.format ++ places (text "fmt ") cs
  pub datas :
      to_list after.samples ++ map with_end (places (text "data") rest)
      ≡ to_list before.samples ++ map with_end (places (text "data") cs)

pub fmt_is_not_data :
    (id : Text) → same_text id (text "fmt ") ≡ true → same_text id (text "data") ≡ false
unfolding same_text text
fmt_is_not_data id h = rw ((same_text_iff id (text "fmt ")).0 h) refl

to_list_empty : (o : Option (ℕ × ℕ)) → is_some o ≡ false → to_list o ≡ []
to_list_empty none h = refl
to_list_empty (some a) h = cc

-- What is found in front of any rest, when a chunk in front of it is read.
abbrev Notes : Text → ℕ → ℕ → Found → Found → Type 0
Notes id start size before after =
    (rest : List Chunk)
    → Finds before (record { id = id; start = start; size = size } ∷ rest) after rest

note_chunk-Notes :
    (id : Text) (start size payload_end : ℕ) (found : Found)
    → payload_end ≡ start + size
    → Meets (Notes id start size found) (note_chunk id start size payload_end found)
unfolding note_chunk places
note_chunk-Notes id start size payload_end found e =
    elim (Bool-cases (same_text id (text "fmt "))) [
      | inl is_fmt ↦ rw is_fmt (
          unless_rejected (is_some found.format) _ λ empty. meets λ rest. record {
            formats = rw (to_list_empty found.format empty, is_fmt) refl;
            datas = rw (fmt_is_not_data id is_fmt) refl;
          })
      | inr no_fmt ↦ elim (Bool-cases (same_text id (text "data"))) [
        | inl is_data ↦
            rw (no_fmt, is_data)
              (unless_rejected (is_some found.samples) _ λ empty. meets λ rest. record {
                formats = rw no_fmt refl;
                datas = rw (to_list_empty found.samples empty, is_data, e) refl;
              })
        | inr no_data ↦
            rw (no_fmt, no_data)
              (meets λ rest. record { formats = rw no_fmt refl; datas = rw no_data refl })
      ]
    ]

-- A round of the loop reads a chunk.
record IsNext (B : Text) (cursor : ℕ) (found : Found) (next : ℕ × Found) : Type 0 where
  size : ℕ
  size_here : size ≡ number_at B (cursor + 4) (cursor + 8)
  place : next.0 ≡ cursor + 8 + size + size % 2
  inside : next.0 ≤ length B
  finds : Notes (slice B cursor (cursor + 4)) (cursor + 8) size found next.1

read_chunk-IsNext :
    (B : Text) (cursor : ℕ) (found : Found)
    → Meets (IsNext B cursor found) (read_chunk B cursor found)
unfolding read_chunk
read_chunk-IsNext B cursor found = checked_add-Meets cursor 8 _ ⟫ λ header_end e₁.
    unless_rejected (ltb (length B) header_end) _ λ h₁. little_u32-Meets B (cursor + 4) ⟫ λ size e₂.
    checked_add-Meets header_end size _ ⟫ λ payload_end e₃.
    unless_rejected (ltb (length B) payload_end) _ λ h₂.
      index_range-Meets B cursor (cursor + 4) (omega arith) (ground arith) ⟫ λ id e₄.
      note_chunk-Notes id header_end size payload_end found e₃ ⟫ λ found' notes.
      checked_add-Meets payload_end (size % 2) _ ⟫ λ next e₅.
      unless_rejected (ltb (length B) next) _ λ h₃. meets (record {
        size = size;
        size_here = e₂ ∙ ap (number_at B (cursor + 4)) (omega arith);
        place = omega arith;
        inside = ground arith;
        finds =
            subst (λ i. Notes i (cursor + 8) size found found') e₄
              (subst (λ start. Notes id start size found found') e₁ notes);
      })

-- What the loop finds from a place on.
pub record IsFound (B : Text) (cursor : ℕ) (before after : Found) : Type 0 where
  pub chunks : List Chunk
  pub read : Chunks B cursor chunks
  pub formats : to_list after.format ≡ to_list before.format ++ places (text "fmt ") chunks
  pub datas :
      to_list after.samples ≡ to_list before.samples ++ map with_end (places (text "data") chunks)

found_nothing :
    (B : Text) (cursor : ℕ) (found : Found) → cursor ≡ length B → IsFound B cursor found found
unfolding places
found_nothing B cursor found e = record {
  chunks = [];
  read = done e;
  formats = sym (append-nil _);
  datas = sym (append-nil _);
}

found_next :
    (B : Text) (cursor : ℕ) (found : Found) (next : ℕ × Found) (after : Found)
    → IsNext B cursor found next
    → IsFound B next.0 next.1 after
    → IsFound B cursor found after
found_next B cursor found next after n f = record {
  chunks =
      record { id = slice B cursor (cursor + 4); start = cursor + 8; size = n.size } ∷ f.chunks;
  read =
      chunk n.size n.size_here (subst (λ m. m ≤ length B) n.place n.inside)
        (subst (λ m. Chunks B m f.chunks) n.place f.read);
  formats = f.formats ∙ (n.finds f.chunks).formats;
  datas = f.datas ∙ (n.finds f.chunks).datas;
}

-- A round takes eight bytes at least, so the loop has rounds enough; it reads the whole file.
pub chunk_loop-IsFound :
    (fuel : ℕ) (B : Text) (cursor : ℕ) (found : Found)
    → cursor ≤ length B
    → length B ≤ cursor + fuel
    → Meets (IsFound B cursor found) (chunk_loop fuel B cursor found)
unfolding chunk_loop
chunk_loop-IsFound zero B cursor found le enough =
    if_both (Meets (IsFound B cursor found)) (ltb cursor (length B)) (λ h. absurd (ground arith))
      (λ _. meets (found_nothing B cursor found (omega arith)))
chunk_loop-IsFound (suc fuel) B cursor found le enough =
    if_both (Meets (IsFound B cursor found)) (ltb cursor (length B))
      (λ _. read_chunk-IsNext B cursor found ⟫ λ next n.
        Meets-map (λ after. found_next B cursor found next after n)
          (chunk_loop-IsFound fuel B next.0 next.1 n.inside (omega (arith, n.place))))
      (λ h. meets (found_nothing B cursor found (ground arith)))
