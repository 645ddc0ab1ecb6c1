-- ===== src/Audio/Spec.antt =====
-- Which bytes are a WAV file of mono 16-bit samples at 48 kHz, independently of how
-- src/audio_assets.rs finds them: the file as a sequence of padded chunks.
use speck.Base.{
  ℕ, ◌+◌, ◌*◌, ◌%◌, ◌≤◌, ◌<◌, List, [], ◌∷◌, Text, text, ◌≡◌, length, slice, same_text,
  if◌then◌else◌,
}
use speck.Audio.{from_le_bytes, max_samples}

pub record Chunk : Type 0 where
  pub id : Text
  pub start : ℕ
  pub size : ℕ

-- The little-endian number in the bytes from `start` up to `end`.
abbrev pub number_at : Text → ℕ → ℕ → ℕ
number_at B start end = from_le_bytes (slice B start end)

-- The chunks of `B` from a place on: an identifier, a size, the payload, and a byte of padding
-- behind an odd size.
pub data Chunks (B : Text) : ℕ → List Chunk → Type 0 where
  done : {cursor : ℕ} → cursor ≡ length B → Chunks B cursor []
  chunk :
      {cursor : ℕ} {cs : List Chunk} (size : ℕ)
      → size ≡ number_at B (cursor + 4) (cursor + 8)
      → cursor + 8 + size + size % 2 ≤ length B
      → Chunks B (cursor + 8 + size + size % 2) cs
      → Chunks B cursor
          (record { id = slice B cursor (cursor + 4); start = cursor + 8; size = size } ∷ cs)

-- The places of the chunks with an identifier.
unfoldable pub places : Text → List Chunk → List (ℕ × ℕ)
places id [] = []
places id (c ∷ cs) = if same_text c.id id then (c.start, c.size) ∷ places id cs else places id cs

-- The fields of a `fmt ` payload.
pub record IsFormat (B : Text) (start size : ℕ) : Type 0 where
  pub long : 16 ≤ size
  pub encoding : number_at B start (start + 2) ≡ 1
  pub channels : number_at B (start + 2) (start + 4) ≡ 1
  pub rate : number_at B (start + 4) (start + 8) ≡ 48000
  pub byte_rate : number_at B (start + 8) (start + 12) ≡ 96000
  pub alignment : number_at B (start + 12) (start + 14) ≡ 2
  pub bits : number_at B (start + 14) (start + 16) ≡ 16

-- The bytes `pcm` are the samples of the WAV file `B`.
pub record IsWav (B pcm : Text) : Type 0 where
  pub riff : slice B 0 4 ≡ text "RIFF"
  pub total : number_at B 4 8 + 8 ≡ length B
  pub wave : slice B 8 12 ≡ text "WAVE"
  pub chunks : List Chunk
  pub read : Chunks B 12 chunks
  pub format_start : ℕ
  pub format_size : ℕ
  pub one_format : places (text "fmt ") chunks ≡ (format_start, format_size) ∷ []
  pub format : IsFormat B format_start format_size
  pub start : ℕ
  pub size : ℕ
  pub one_data : places (text "data") chunks ≡ (start, size) ∷ []
  pub samples : pcm ≡ slice B start (start + size)
  pub nonempty : 0 < size
  pub even : size % 2 ≡ 0
  pub short : size ≤ max_samples * 2
