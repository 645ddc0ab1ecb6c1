-- ===== src/Audio.antt =====
-- `validate` of src/audio_assets.rs: the samples of a WAV file. The sums that the source does not
-- check are of offsets in a file, which is shorter than 2 ^ 63 bytes.
pub mod Spec
pub mod Chunks
pub mod Sound
pub mod Complete
use speck.Base.{
  ℕ, zero, suc, ◌+◌, ◌-◌, ◌*◌, ◌/◌, ◌%◌, ◌^◌, Bool, true, false, ◌&&◌, ◌||◌, not, List, [], ◌∷◌,
  Option, none, some, Text, text, same_text, ltb, leb, ◌==◌, if◌then◌else◌, length, slice,
}

-- `Ok`, `Err`, the panic of a slice out of range, or a loop that ran out of rounds.
pub data Read (A : Type 0) : Type 0 where
  ok : A → Read A
  err : Text → Read A
  panic : Read A
  exhausted : Read A

infixl 5 ◌>>=◌
abbrev pub ◌>>=◌ : {A B : Type 0} → Read A → (A → Read B) → Read B
ok a >>= f = f a
err message >>= f = err message
panic >>= f = panic
exhausted >>= f = exhausted

-- `if test { return Err(message); }` in front of the rest.
abbrev pub reject_if : {A : Type 0} → Bool → Text → Read A → Read A
reject_if test message rest = if test then err message else rest

-- `option.ok_or(message)?`
unfoldable pub ok_or : {A : Type 0} → Option A → Text → Read A
ok_or none message = err message
ok_or (some a) message = ok a

-- `usize::checked_add` on a 64-bit host.
unfoldable pub checked_add : ℕ → ℕ → Option ℕ
checked_add a b = if ltb (a + b) (2 ^ 64) then some (a + b) else none

-- `bytes.get(start..end)` and `&bytes[start..end]`
unfoldable pub get_range : Text → ℕ → ℕ → Option Text
get_range bytes start end =
    if leb start end && leb end (length bytes) then some (slice bytes start end) else none

unfoldable pub index_range : Text → ℕ → ℕ → Read Text
index_range bytes start end =
    if leb start end && leb end (length bytes) then ok (slice bytes start end) else panic

-- `u16::from_le_bytes` and `u32::from_le_bytes`
unfoldable pub from_le_bytes : Text → ℕ
from_le_bytes [] = 0
from_le_bytes (b ∷ bs) = b + 256 * from_le_bytes bs

unfoldable pub little_u16 : Text → ℕ → Read ℕ
little_u16 bytes offset =
    ok_or (get_range bytes offset (offset + 2)) (text "truncated WAV integer") >>= λ bs.
    ok (from_le_bytes bs)

unfoldable pub little_u32 : Text → ℕ → Read ℕ
little_u32 bytes offset =
    ok_or (get_range bytes offset (offset + 4)) (text "truncated WAV integer") >>= λ bs.
    ok (from_le_bytes bs)

-- Where the `fmt ` chunk's payload starts and its size; where the `data` chunk's starts and ends.
pub record Found : Type 0 where
  pub format : Option (ℕ × ℕ)
  pub samples : Option (ℕ × ℕ)

abbrev pub is_some : Option (ℕ × ℕ) → Bool
is_some none = false
is_some (some a) = true

-- The `match` on the chunk's identifier.
unfoldable pub note_chunk : Text → ℕ → ℕ → ℕ → Found → Read Found
note_chunk id header_end size payload_end found =
    if same_text id (text "fmt ")
    then reject_if (is_some found.format) (text "contains more than one `fmt ` chunk")
        (ok (record found { format = some (header_end, size) }))
    else if same_text id (text "data")
    then reject_if (is_some found.samples) (text "contains more than one `data` chunk")
        (ok (record found { samples = some (header_end, payload_end) }))
    else ok found

-- One round of the loop over the chunks: the next cursor, and what was found.
unfoldable pub read_chunk : Text → ℕ → Found → Read (ℕ × Found)
read_chunk bytes cursor found =
    ok_or (checked_add cursor 8) (text "chunk offset overflow") >>= λ header_end.
    reject_if (ltb (length bytes) header_end) (text "truncated WAV chunk header") (
      little_u32 bytes (cursor + 4) >>= λ size.
      ok_or (checked_add header_end size) (text "chunk size overflow") >>= λ payload_end.
      reject_if (ltb (length bytes) payload_end) (text "WAV chunk extends beyond the RIFF data") (
        index_range bytes cursor (cursor + 4) >>= λ id.
        note_chunk id header_end size payload_end found >>= λ found'.
        ok_or (checked_add payload_end (size % 2)) (text "chunk padding overflow") >>= λ next.
        reject_if (ltb (length bytes) next) (text "truncated WAV chunk padding")
          (ok (next, found'))))

-- `while cursor < bytes.len()`, with fuel for the rounds.
unfoldable pub chunk_loop : ℕ → Text → ℕ → Found → Read Found
chunk_loop zero bytes cursor found = if ltb cursor (length bytes) then exhausted else ok found
chunk_loop (suc fuel) bytes cursor found =
    if ltb cursor (length bytes)
    then (read_chunk bytes cursor found >>= λ (next, found'). chunk_loop fuel bytes next found')
    else ok found

abbrev pub rates_message : Text
rates_message = text "PCM byte rate and block alignment must match mono PCM16"

-- The checks of the `fmt ` chunk. The two in one `if` are read one after the other, as `||` does.
unfoldable pub check_format : Text → ℕ × ℕ → Read (Unit {0})
check_format bytes (start, size) =
    reject_if (ltb size 16) (text "`fmt ` chunk is shorter than 16 bytes") (
      little_u16 bytes start >>= λ encoding.
      reject_if (not (encoding == 1)) (text "audio format must be uncompressed PCM (format 1)") (
        little_u16 bytes (start + 2) >>= λ channels.
        reject_if (not (channels == 1)) (text "PCM must have exactly one channel") (
          little_u32 bytes (start + 4) >>= λ rate.
          reject_if (not (rate == 48000)) (text "PCM sample rate must be 48000 Hz") (
            little_u32 bytes (start + 8) >>= λ byte_rate.
            reject_if (not (byte_rate == 96000)) rates_message (
              little_u16 bytes (start + 12) >>= λ alignment.
              reject_if (not (alignment == 2)) rates_message (
                little_u16 bytes (start + 14) >>= λ bits.
                reject_if (not (bits == 16)) (text "PCM samples must be 16-bit") (ok tt)))))))

abbrev pub max_samples : ℕ
max_samples = 180 * 48000

-- The checks of the `data` chunk, and the samples. The subtraction panics below 0.
unfoldable pub take_samples : Text → ℕ × ℕ → Read Text
take_samples bytes (start, end) =
    let data_len = end - start in
    if ltb end start
    then panic
    else reject_if (data_len == 0) (text "PCM data must contain at least one sample") (
        reject_if (not (data_len % 2 == 0))
          (text "PCM data length must be a whole number of 16-bit samples")
          (reject_if (ltb max_samples (data_len / 2))
            (text "decoded audio exceeds the 180 second duration limit")
            (index_range bytes start end)))

-- `bytes.len() < 12 || &bytes[..4] != b"RIFF" || &bytes[8..12] != b"WAVE"`
unfoldable pub not_wave : Text → Read Bool
not_wave bytes =
    if ltb (length bytes) 12
    then ok true
    else (index_range bytes 0 4 >>= λ riff.
        if not (same_text riff (text "RIFF"))
        then ok true
        else (index_range bytes 8 12 >>= λ wave. ok (not (same_text wave (text "WAVE")))))

-- What follows the loop over the chunks.
unfoldable pub finish : Text → Found → Read Text
finish bytes found = ok_or found.format (text "missing `fmt ` chunk") >>= λ format.
    check_format bytes format >>= λ checked.
    ok_or found.samples (text "missing `data` chunk") >>= λ samples. take_samples bytes samples

-- `riff_size.checked_add(8) != Some(bytes.len())`
unfoldable pub wrong_size : Text → Option ℕ → Bool
wrong_size bytes none = true
wrong_size bytes (some n) = not (n == length bytes)

unfoldable pub validate : Text → Read Text
validate bytes = not_wave bytes >>= λ other. reject_if other (text "expected a RIFF/WAVE file") (
    little_u32 bytes 4 >>= λ riff_size.
    reject_if (wrong_size bytes (checked_add riff_size 8))
      (text "RIFF size does not match the file length")
      (chunk_loop (length bytes) bytes 12 (record { format = none; samples = none }) >>= λ found.
        finish bytes found))
