-- ===== src/Audio/Sound.antt =====
-- `validate` of src/audio_assets.rs returns the samples of a WAV file, or an error.
use speck.Base.{
  ℕ, ◌+◌, ◌-◌, ◌*◌, ◌/◌, ◌%◌, ◌^◌, ◌≤◌, ◌<◌, ◌==◌, Bool, true, false, not, List, [], ◌∷◌, none,
  Text, text, same_text, same_text_iff, ◌≡◌, refl, sym, ap, ◌∙◌, subst, arith, length, slice, map,
  ltb, if_both, All,
}
use speck.Audio.Chunks.{
  Meets, meets, refused, ◌⟫◌, Meets-map, unless_rejected, ok_or-Meets, little_u16-Meets,
  little_u32-Meets, index_range-Meets, to_list, with_end, IsFound, chunk_loop-IsFound,
}
use speck.Audio.Spec.{Chunk, number_at, Chunks, done, chunk, places, IsFormat, IsWav}
use speck.Audio.{
  Read, ok, err, panic, exhausted, Found, check_format, take_samples, not_wave, finish, wrong_size,
  validate, max_samples, checked_add,
}

not_false : (a b : ℕ) → not (a == b) ≡ false → a ≡ b
not_false a b h = ground arith

check_format-IsFormat :
    (B : Text) (start size : ℕ)
    → Meets (λ (u : Unit {0}). IsFormat B start size) (check_format B (start, size))
unfolding check_format
check_format-IsFormat B start size = unless_rejected (ltb size 16) _ λ h.
    little_u16-Meets B start ⟫ λ encoding e₁. unless_rejected (not (encoding == 1)) _ λ h₁.
      little_u16-Meets B (start + 2) ⟫ λ channels e₂. unless_rejected (not (channels == 1)) _ λ h₂.
        little_u32-Meets B (start + 4) ⟫ λ rate e₃. unless_rejected (not (rate == 48000)) _ λ h₃.
          little_u32-Meets B (start + 8) ⟫ λ byte_rate e₄.
          unless_rejected (not (byte_rate == 96000)) _ λ h₄.
            little_u16-Meets B (start + 12) ⟫ λ alignment e₅.
            unless_rejected (not (alignment == 2)) _ λ h₅.
              little_u16-Meets B (start + 14) ⟫ λ bits e₆.
              unless_rejected (not (bits == 16)) _ λ h₆. meets (record {
                long = ground arith;
                encoding = sym e₁ ∙ not_false encoding 1 h₁;
                channels =
                    at_place (start + 2) (start + 4) (omega arith) e₂ (not_false channels 1 h₂);
                rate = at_place (start + 4) (start + 8) (omega arith) e₃ (not_false rate 48000 h₃);
                byte_rate =
                    at_place (start + 8) (start + 12) (omega arith) e₄
                      (not_false byte_rate 96000 h₄);
                alignment =
                    at_place (start + 12) (start + 14) (omega arith) e₅ (not_false alignment 2 h₅);
                bits = at_place (start + 14) (start + 16) (omega arith) e₆ (not_false bits 16 h₆);
              })
  where
    at_place : (i j : ℕ) {k n m : ℕ} → k ≡ j → n ≡ number_at B i k → n ≡ m → number_at B i j ≡ m
    at_place i j p e h = ap (number_at B i) (sym p) ∙ sym e ∙ h

-- The samples between two places, of which there is one at least and not too many.
record IsTaken (B : Text) (start size : ℕ) (pcm : Text) : Type 0 where
  samples : pcm ≡ slice B start (start + size)
  nonempty : 0 < size
  even : size % 2 ≡ 0
  short : size ≤ max_samples * 2

take_samples-IsTaken :
    (B : Text) (start size : ℕ)
    → start + size ≤ length B
    → Meets (IsTaken B start size) (take_samples B (start, start + size))
unfolding take_samples
take_samples-IsTaken B start size inside =
    let n = start + size - start in
    let e : n ≡ size = omega arith in
    if_both (Meets (IsTaken B start size)) (ltb (start + size) start)
      (λ below. absurd (ground arith))
      λ _. unless_rejected (n == 0) _ λ h₁. unless_rejected (not (n % 2 == 0)) _ λ h₂.
        unless_rejected (ltb max_samples (n / 2)) _ λ h₃.
          Meets-map
            (λ pcm f. record {
              samples = f;
              nonempty = ground arith;
              even = ap (λ m. m % 2) (sym e) ∙ not_false (n % 2) 0 h₂;
              short = ground (arith, e, h₃, not_false (n % 2) 0 h₂);
            })
            (index_range-Meets B start (start + size) (omega arith) inside)

-- The places of chunks lie in the file.
abbrev pub Inside : Text → ℕ × ℕ → Type 0
Inside B (start, size) = start + size ≤ length B

pub places-Inside :
    (B id : Text) {cursor : ℕ} {cs : List Chunk}
    → Chunks B cursor cs
    → All (Inside B) (places id cs)
unfolding places
places-Inside B id (done e) = tt
places-Inside B id (chunk {cursor} {cs} size _ le rest) =
    if_both (All (Inside B)) (same_text (slice B cursor (cursor + 4)) id)
      (λ _. (omega arith, places-Inside B id rest)) (λ _. places-Inside B id rest)

one_end :
    (xs : List (ℕ × ℕ)) {q : ℕ × ℕ}
    → q ∷ [] ≡ map with_end xs
    → (p : ℕ × ℕ) × (xs ≡ p ∷ []) × (q ≡ with_end p)
one_end [] e = absurd (cc e)
one_end (p ∷ []) {q} e = (p, refl, ap (head_or q) e)
  where
    head_or : ℕ × ℕ → List (ℕ × ℕ) → ℕ × ℕ
    head_or d [] = d
    head_or d (x ∷ xs) = x
one_end (p ∷ p' ∷ xs) e = absurd (cc e)

abbrev pub nothing_found : Found
nothing_found = record { format = none; samples = none }

module _ (B : Text) (riff : slice B 0 4 ≡ text "RIFF") (total : number_at B 4 8 + 8 ≡ length B)
    (wave : slice B 8 12 ≡ text "WAVE") where
  finish-IsWav :
      (found : Found) → IsFound B 12 nothing_found found → Meets (IsWav B) (finish B found)
  unfolding finish
  finish-IsWav found f = ok_or-Meets found.format _ ⟫ λ (format_start, format_size) e₁.
      check_format-IsFormat B format_start format_size ⟫ λ _ format.
      ok_or-Meets found.samples _ ⟫ λ samples e₂.
      let (p, one_data, at_p) =
        one_end (places (text "data") f.chunks) (sym (ap to_list e₂) ∙ f.datas) in
      let inside : p.0 + p.1 ≤ length B =
        (subst (All (Inside B)) one_data (places-Inside B (text "data") f.read)).0 in
      rw at_p (
        Meets-map
          (λ pcm t. record {
            riff = riff;
            total = total;
            wave = wave;
            chunks = f.chunks;
            read = f.read;
            format_start = format_start;
            format_size = format_size;
            one_format = sym f.formats ∙ ap to_list e₁;
            format = format;
            start = p.0;
            size = p.1;
            one_data = one_data;
            samples = t.samples;
            nonempty = t.nonempty;
            even = t.even;
            short = t.short;
          })
          (take_samples-IsTaken B p.0 p.1 inside))

-- The marks of a RIFF/WAVE file.
record IsMarked (B : Text) : Type 0 where
  long : 12 ≤ length B
  riff : slice B 0 4 ≡ text "RIFF"
  wave : slice B 8 12 ≡ text "WAVE"

same_not : (a b : Text) → not (same_text a b) ≡ false → a ≡ b
same_not a b h = (same_text_iff a b).0 (not_true (same_text a b) h)
  where
    not_true : (t : Bool) → not t ≡ false → t ≡ true
    not_true true h = refl
    not_true false h = absurd (cc h)

not_wave-IsMarked : (B : Text) → Meets (λ other. other ≡ false → IsMarked B) (not_wave B)
unfolding not_wave
not_wave-IsMarked B =
    if_both (Meets (λ other. other ≡ false → IsMarked B)) (ltb (length B) 12)
      (λ _. meets λ h. absurd (cc h))
      (λ long. index_range-Meets B 0 4 (omega arith) (ground (arith, long)) ⟫ λ riff e₁.
        if_both (Meets (λ other. other ≡ false → IsMarked B)) (not (same_text riff (text "RIFF")))
          (λ _. meets λ h. absurd (cc h))
          (λ h₁. index_range-Meets B 8 12 (omega arith) (ground (arith, long)) ⟫ λ wave e₂.
            meets λ h₂. record {
              long = ground (arith, long);
              riff = sym e₁ ∙ same_not riff (text "RIFF") h₁;
              wave = sym e₂ ∙ same_not wave (text "WAVE") h₂;
            }))

right_size : (B : Text) (n : ℕ) → wrong_size B (checked_add n 8) ≡ false → n + 8 ≡ length B
unfolding wrong_size checked_add
right_size B n =
    if_both (λ o. wrong_size B o ≡ false → n + 8 ≡ length B) (ltb (n + 8) (2 ^ 64))
      (λ _ h. not_false (n + 8) (length B) h) (λ _ h. absurd (cc h))

validate-Meets : (bytes : Text) → Meets (IsWav bytes) (validate bytes)
unfolding validate
validate-Meets B = not_wave-IsMarked B ⟫ λ other marks. unless_rejected other _ λ h.
    little_u32-Meets B 4 ⟫ λ riff_size e.
    unless_rejected (wrong_size B (checked_add riff_size 8)) _ λ sized.
      chunk_loop-IsFound (length B) B 12 nothing_found (marks h).long (omega arith) ⟫ λ found f.
      finish-IsWav B (marks h).riff (ap (λ n. n + 8) (sym e) ∙ right_size B riff_size sized)
        (marks h).wave found f

-- A result that is right, or an error; not a panic, and not an endless loop.
abbrev pub Returns : (Text → Type 0) → Read Text → Type 0
Returns P (ok pcm) = P pcm
Returns P (err message) = Unit
Returns P panic = ⊥
Returns P exhausted = ⊥

Returns-of_Meets : {P : Text → Type 0} {r : Read Text} → Meets P r → Returns P r
Returns-of_Meets (meets h) = h
Returns-of_Meets refused = tt

-- On any bytes `validate` returns an error or the samples of a WAV file: it slices nothing out of
-- range, and its loop ends. What it accepts is marked RIFF and WAVE, its RIFF size is the file's, it
-- is a sequence of padded chunks to its last byte, with one `fmt ` chunk, of mono 16-bit PCM at
-- 48000 Hz, and one `data` chunk, and the samples are that chunk's payload: an even number of bytes,
-- not 0, for 180 seconds at most.
pub validate-IsWav : (bytes : Text) → Returns (IsWav bytes) (validate bytes)
validate-IsWav bytes = Returns-of_Meets (validate-Meets bytes)
