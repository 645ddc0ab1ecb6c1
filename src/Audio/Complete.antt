-- ===== src/Audio/Complete.antt =====
-- `validate` of src/audio_assets.rs accepts every WAV file that the specification describes.
use speck.Base.{
  ℕ, zero, suc, ◌+◌, ◌-◌, ◌*◌, ◌/◌, ◌%◌, ◌^◌, ◌≤◌, ◌<◌, ◌==◌, ==_iff, true, false, List, [], ◌∷◌,
  ◌++◌, ◌&&◌, Option, none, some, Text, text, same_text, same_text_iff, ◌≡◌, refl, sym, ap, ◌∙◌,
  subst, arith, length, slice, take, drop, All, map, ltb, leb, if_both, Bool-cases, inl, inr,
}
use mathlib.Core.List.{append-nil}
use speck.Audio.Chunks.{to_list, with_end, fmt_is_not_data}
use speck.Audio.Sound.{Inside, places-Inside, nothing_found}
use speck.Audio.Spec.{Chunk, number_at, Chunks, done, chunk, places, IsFormat, IsWav}
use speck.Audio.{
  ok, ok_or, get_range, index_range, little_u16, little_u32, Found, is_some, note_chunk, read_chunk,
  chunk_loop, check_format, take_samples, not_wave, finish, wrong_size, validate, max_samples,
  checked_add,
}

checked_add-fits : (a b : ℕ) → a + b < 2 ^ 64 → checked_add a b ≡ some (a + b)
unfolding checked_add
checked_add-fits a b h = ground arith

get_range-inside :
    (B : Text) (i j : ℕ) → i ≤ j → j ≤ length B → get_range B i j ≡ some (slice B i j)
unfolding get_range
get_range-inside B i j h k =
    if_both (λ o. o ≡ some (slice B i j)) (leb i j && leb j (length B)) (λ _. refl)
      (λ e. absurd (ground arith))

index_range-inside :
    (B : Text) (i j : ℕ) → i ≤ j → j ≤ length B → index_range B i j ≡ ok (slice B i j)
unfolding index_range
index_range-inside B i j h k =
    if_both (λ o. o ≡ ok (slice B i j)) (leb i j && leb j (length B)) (λ _. refl)
      (λ e. absurd (ground arith))

little_u16-inside :
    (B : Text) (i j : ℕ) → j ≡ i + 2 → j ≤ length B → little_u16 B i ≡ ok (number_at B i j)
unfolding little_u16 ok_or
little_u16-inside B i j e h =
    rw (get_range-inside B i (i + 2) (omega arith) (omega arith))
      (ap (λ k. ok (number_at B i k)) (sym e))

little_u32-inside :
    (B : Text) (i j : ℕ) → j ≡ i + 4 → j ≤ length B → little_u32 B i ≡ ok (number_at B i j)
unfolding little_u32 ok_or
little_u32-inside B i j e h =
    rw (get_range-inside B i (i + 4) (omega arith) (omega arith))
      (ap (λ k. ok (number_at B i k)) (sym e))

-- A round of the loop on a chunk that is noted.
read_chunk-reads :
    (B : Text) (cursor size : ℕ) (found found' : Found)
    → length B < 2 ^ 63
    → size ≡ number_at B (cursor + 4) (cursor + 8)
    → cursor + 8 + size + size % 2 ≤ length B
    → note_chunk (slice B cursor (cursor + 4)) (cursor + 8) size (cursor + 8 + size) found
      ≡ ok found'
    → read_chunk B cursor found ≡ ok (cursor + 8 + size + size % 2, found')
unfolding read_chunk ok_or
read_chunk-reads B cursor size found found' small here inside noted =
    let t₁ : ltb (length B) (cursor + 8) ≡ false = ground arith in
    let t₂ : ltb (length B) (cursor + 8 + size) ≡ false = ground arith in
    let t₃ : ltb (length B) (cursor + 8 + size + size % 2) ≡ false = ground arith in
    rw
      (
        checked_add-fits cursor 8 (omega arith),
        t₁,
        little_u32-inside B (cursor + 4) (cursor + 8) (omega arith) (omega arith),
        ← here,
        checked_add-fits (cursor + 8) size (omega arith),
        t₂,
        index_range-inside B cursor (cursor + 4) (omega arith) (omega arith),
        noted,
        checked_add-fits (cursor + 8 + size) (size % 2) (omega arith),
        t₃,
      )
      refl

-- What the loop is to find in the chunks from a place on, after what it found before.
record IsSought (final found : Found) (cs : List Chunk) : Type 0 where
  formats : to_list final.format ≡ to_list found.format ++ places (text "fmt ") cs
  datas : to_list final.samples ≡ to_list found.samples ++ map with_end (places (text "data") cs)

-- One place is found at most, so none was found before another one.
room :
    (o o' : Option (ℕ × ℕ)) {x : ℕ × ℕ} {xs : List (ℕ × ℕ)}
    → to_list o' ≡ to_list o ++ x ∷ xs
    → (is_some o ≡ false) × (to_list o' ≡ x ∷ xs)
room none o' e = (refl, e)
room (some a) none e = absurd (cc e)
room (some a) (some b) e = absurd (cc e)

module _ (start size : ℕ) (rest : List Chunk) where
  hit :
      (key id : Text)
      → same_text id key ≡ true
      → places key (record { id = id; start = start; size = size } ∷ rest)
        ≡ (start, size) ∷ places key rest
  unfolding places
  hit key id h = rw h refl

  miss :
      (key id : Text)
      → same_text id key ≡ false
      → places key (record { id = id; start = start; size = size } ∷ rest) ≡ places key rest
  unfolding places
  miss key id h = rw h refl

-- A chunk that may still be found is noted.
note_chunk-notes :
    (id : Text) (start size : ℕ) (rest : List Chunk) (final found : Found)
    → IsSought final found (record { id = id; start = start; size = size } ∷ rest)
    → (found' : Found) × (note_chunk id start size (start + size) found ≡ ok found')
      × IsSought final found' rest
unfolding note_chunk
note_chunk-notes id start size rest final found s = elim (Bool-cases (same_text id (text "fmt "))) [
  | inl is_fmt ↦
      let (free, e) = room found.format final.format (
        s.formats
        ∙ ap (◌++◌ (to_list found.format)) (hit start size rest (text "fmt ") id is_fmt)) in
      (
        record found { format = some (start, size) },
        rw (is_fmt, free) refl,
        record {
          formats = e;
          datas =
              s.datas
              ∙ ap (λ ps. to_list found.samples ++ map with_end ps)
                  (miss start size rest (text "data") id (fmt_is_not_data id is_fmt));
        },
      )
  | inr no_fmt ↦ elim (Bool-cases (same_text id (text "data"))) [
    | inl is_data ↦
        let (free, e) = room found.samples final.samples (
          s.datas
          ∙ ap (λ ps. to_list found.samples ++ map with_end ps)
              (hit start size rest (text "data") id is_data)) in
        (
          record found { samples = some (start, start + size) },
          rw (no_fmt, is_data, free) refl,
          record {
            formats =
                s.formats
                ∙ ap (◌++◌ (to_list found.format)) (miss start size rest (text "fmt ") id no_fmt);
            datas = e;
          },
        )
    | inr no_data ↦ (
      found,
      rw (no_fmt, no_data) refl,
      record {
        formats =
            s.formats
            ∙ ap (◌++◌ (to_list found.format)) (miss start size rest (text "fmt ") id no_fmt);
        datas =
            s.datas
            ∙ ap (λ ps. to_list found.samples ++ map with_end ps)
                (miss start size rest (text "data") id no_data);
      },
    )
  ]
]

to_list-injective : (o o' : Option (ℕ × ℕ)) → to_list o ≡ to_list o' → o ≡ o'
to_list-injective none none e = refl
to_list-injective none (some a) e = absurd (cc e)
to_list-injective (some a) none e = absurd (cc e)
to_list-injective (some a) (some b) e = cc e

loop_stops :
    (fuel : ℕ) (B : Text) (cursor : ℕ) (found : Found)
    → ltb cursor (length B) ≡ false
    → chunk_loop fuel B cursor found ≡ ok found
unfolding chunk_loop
loop_stops zero B cursor found h = rw h refl
loop_stops (suc fuel) B cursor found h = rw h refl

same_found : (final found : Found) → IsSought final found [] → found ≡ final
unfolding places
same_found final found s =
    let p =
      to_list-injective found.format final.format
        (sym (s.formats ∙ append-nil (to_list found.format))) in
    let q =
      to_list-injective found.samples final.samples
        (sym (s.datas ∙ append-nil (to_list found.samples))) in
    ap (λ f. record { format = f; samples = found.samples }) p
    ∙ ap (λ d. record { format = final.format; samples = d }) q

chunk_loop-finds :
    (B : Text) (cursor : ℕ) (cs : List Chunk) (final found : Found) (fuel : ℕ)
    → length B < 2 ^ 63
    → Chunks B cursor cs
    → IsSought final found cs
    → length B ≤ cursor + fuel
    → chunk_loop fuel B cursor found ≡ ok final
unfolding chunk_loop
chunk_loop-finds B cursor cs final found fuel small (done e) s enough =
    loop_stops fuel B cursor found (ground (arith, e)) ∙ ap ok (same_found final found s)
chunk_loop-finds B cursor cs final found zero small (chunk {cs = rest} size here inside r) s
      enough =
    absurd (omega (arith, inside))
chunk_loop-finds B cursor cs final found (suc fuel) small (chunk {cs = rest} size here inside r) s
      enough =
    let (found', noted, s') =
      note_chunk-notes (slice B cursor (cursor + 4)) (cursor + 8) size rest final found s in
    let t : ltb cursor (length B) ≡ true = ground (arith, inside) in
    rw (t, read_chunk-reads B cursor size found found' small here inside noted)
      (chunk_loop-finds B (cursor + 8 + size + size % 2) rest final found' fuel small r s'
        (omega arith))

check_format-accepts :
    (B : Text) (start size : ℕ)
    → IsFormat B start size
    → start + size ≤ length B
    → check_format B (start, size) ≡ ok tt
unfolding check_format
check_format-accepts B start size f inside =
    let long : ltb size 16 ≡ false = ground (arith, f.long) in
    let le : start + 16 ≤ length B = omega (arith, f.long) in
    rw
      (
        long,
        little_u16-inside B start (start + 2) refl (omega arith),
        f.encoding,
        little_u16-inside B (start + 2) (start + 4) (omega arith) (omega arith),
        f.channels,
        little_u32-inside B (start + 4) (start + 8) (omega arith) (omega arith),
        f.rate,
        little_u32-inside B (start + 8) (start + 12) (omega arith) (omega arith),
        f.byte_rate,
        little_u16-inside B (start + 12) (start + 14) (omega arith) (omega arith),
        f.alignment,
        little_u16-inside B (start + 14) (start + 16) (omega arith) (omega arith),
        f.bits,
      )
      refl

take_samples-takes :
    (B : Text) (start size : ℕ)
    → start + size ≤ length B
    → 0 < size
    → size % 2 ≡ 0
    → size ≤ max_samples * 2
    → take_samples B (start, start + size) ≡ ok (slice B start (start + size))
unfolding take_samples
take_samples-takes B start size inside nonempty even short =
    let e : start + size - start ≡ size = omega arith in
    let t₀ : ltb (start + size) start ≡ false = ground arith in
    let t₁ : (size == 0) ≡ false = ground arith in
    let t₂ : ltb max_samples (size / 2) ≡ false = ground arith in
    rw (t₀, e, t₁, even, t₂, index_range-inside B start (start + size) (omega arith) inside)
      (ap (λ n. ok (take n (drop start B))) e)

Chunks-le : {B : Text} {cursor : ℕ} {cs : List Chunk} → Chunks B cursor cs → cursor ≤ length B
Chunks-le (done e) = omega arith
Chunks-le (chunk size here inside r) = omega arith

not_wave-accepts :
    (B : Text)
    → 12 ≤ length B
    → slice B 0 4 ≡ text "RIFF"
    → slice B 8 12 ≡ text "WAVE"
    → not_wave B ≡ ok false
unfolding not_wave
not_wave-accepts B long riff wave =
    let t : ltb (length B) 12 ≡ false = ground (arith, long) in
    rw
      (
        t,
        index_range-inside B 0 4 (omega arith) (omega (arith, long)),
        riff,
        (same_text_iff (text "RIFF") (text "RIFF")).1 refl,
        index_range-inside B 8 12 (omega arith) (omega (arith, long)),
        wave,
        (same_text_iff (text "WAVE") (text "WAVE")).1 refl,
      )
      refl

-- A file shorter than 2 ^ 63 bytes that is a WAV file of the samples `pcm`, as the specification
-- describes it, is accepted by `validate`, which returns these samples.
pub validate-accepts :
    (bytes pcm : Text) → length bytes < 2 ^ 63 → IsWav bytes pcm → validate bytes ≡ ok pcm
unfolding validate finish ok_or wrong_size
validate-accepts B pcm small w =
    let long = Chunks-le w.read in
    let format_inside : w.format_start + w.format_size ≤ length B =
      (subst (All (Inside B)) w.one_format (places-Inside B (text "fmt ") w.read)).0 in
    let data_inside : w.start + w.size ≤ length B =
      (subst (All (Inside B)) w.one_data (places-Inside B (text "data") w.read)).0 in
    let final : Found = record {
      format = some (w.format_start, w.format_size);
      samples = some (w.start, w.start + w.size);
    } in
    let sought : IsSought final nothing_found w.chunks = record {
      formats = sym w.one_format;
      datas = ap (map with_end) (sym w.one_data);
    } in
    let sized : (length B == length B) ≡ true = (==_iff (length B) (length B)).1 refl in
    rw
      (
        not_wave-accepts B long w.riff w.wave,
        little_u32-inside B 4 8 (omega arith) (omega (arith, long)),
        checked_add-fits (number_at B 4 8) 8 (omega (arith, w.total)),
        w.total,
        sized,
        chunk_loop-finds B 12 w.chunks final nothing_found (length B) small w.read sought
            (omega arith),
        check_format-accepts B w.format_start w.format_size w.format format_inside,
        take_samples-takes B w.start w.size data_inside w.nonempty w.even w.short,
      )
      (ap ok (sym w.samples))
