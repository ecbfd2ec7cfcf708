-- ===== src/Decoder.antt =====
-- src/decoder.rs: the samples of a chunk. A sample is the bit pattern of an `i16`. The crates
-- opus_embedded and claxon are a parameter.
use snapcast_client.Prelude.{
  ℕ, zero, suc, ◌+◌, ◌%◌, ◌^◌, Bool, true, ◌&&◌, if◌then◌else◌, leb, ltb, ◌==◌, List, [], ◌∷◌, ◌++◌,
  length, drop, ℤ, pos_part, neg_part,
}
use snapcast_client.Outcome.{Outcome, ok, panic, ◌>>=◌, ◌>>◌, assert}
use snapcast_client.Word.{Profile, debug, release, to_u32}
use snapcast_client.Bytes.{Bytes, of_u16_le}
use snapcast_client.Proto.Codec.{OpusMetadata}

abbrev pub Samples : Type 0
Samples = List ℕ

-- `init_in` opens a decoder for 48 kHz with so many channels, and `decode` gives the samples that
-- it writes to a buffer with so many places. `blocks` are the stereo samples of the blocks that a
-- `FrameReader` reads before its end or its first error.
pub record Crates (O : Type 0) : Type 0 where
  pub init_in : ℕ → Outcome O
  pub decode : O → Bytes → ℕ → Outcome (O × Samples)
  pub blocks : Bytes → List (List (ℤ × ℤ))

pub data Decoder (O : Type 0) : Type 0 where
  opus : O → Decoder O
  pcm : Decoder O
  flac : Decoder O

-- The `i16` values of pairs of bytes.
unfoldable pub samples_of : Bytes → Samples
samples_of [] = []
samples_of (a ∷ []) = []
samples_of (a ∷ b ∷ rest) = of_u16_le a b ∷ samples_of rest

-- The middle part of `align_to::<i16>`: a slice that does not start at an even address loses its
-- first byte, and an odd byte at the end is lost.
unfoldable pub align_to_i16 : Bool → Bytes → Samples
unfolding samples_of
align_to_i16 even_address buf = samples_of (if even_address then buf else drop 1 buf)

-- `out[i] = v`
unfoldable pub store : ℕ → ℕ → Samples → Outcome Samples
store i v [] = panic
store zero v (x ∷ xs) = ok (v ∷ xs)
store (suc i) v (x ∷ xs) = do ys ← store i v xs; ok (x ∷ ys)

-- `v as i16`
abbrev pub as_i16 : ℤ → ℕ
as_i16 v = to_u32 v % 2 ^ 16

-- The `debug_assert!`s.
abbrev pub checked : Profile → ℤ → Outcome (Unit {0})
checked debug v = assert (ltb (pos_part v) (2 ^ 15) && leb (neg_part v) (2 ^ 15))
checked release v = ok tt

-- The loop over the samples of a block, from the place `c` on.
unfoldable pub store_block : Profile → List (ℤ × ℤ) → ℕ → Samples → Outcome (Samples × ℕ)
unfolding store
store_block p [] c out = ok (out, c)
store_block p (ab ∷ rest) c out = do
  checked p ab.0
  checked p ab.1
  out1 ← store c (as_i16 ab.0) out
  out2 ← store (suc c) (as_i16 ab.1) out1
  store_block p rest (c + 2) out2

unfoldable pub store_blocks : Profile → List (List (ℤ × ℤ)) → ℕ → Samples → Outcome (Samples × ℕ)
unfolding store_block
store_blocks p [] c out = ok (out, c)
store_blocks p (block ∷ rest) c out = do
  (out1, c1) ← store_block p block c out
  store_blocks p rest c1 out1

-- `out[0..samples.len()].copy_from_slice(samples)`, and the count.
abbrev pub filled : Samples → Samples → Outcome (Samples × ℕ)
filled samples out =
    assert (leb (length samples) (length out))
    >> ok (samples ++ drop (length samples) out, length samples)

module _ {O : Type 0} (crates : Crates O) where
  unfoldable pub new_opus : OpusMetadata → Outcome (Decoder O)
  new_opus config = do
    assert (if config.channel_count == 1 then true else config.channel_count == 2)
    assert (config.sample_rate == 48000)
    dec ← crates.init_in config.channel_count
    ok (opus dec)

  -- The decoder after a chunk, what is then in `out`, and the count of the samples.
  unfoldable pub decode_sample :
      Profile → Bool → Decoder O → Bytes → Samples → Outcome (Decoder O × (Samples × ℕ))
  unfolding align_to_i16 store_blocks
  decode_sample p even_address (opus o) buf out = do
    (o', samples) ← crates.decode o buf (length out)
    r ← filled samples out
    ok (opus o', r)
  decode_sample p even_address pcm buf out = do
    r ← filled (align_to_i16 even_address buf) out
    ok (pcm, r)
  decode_sample p even_address flac buf out = do
    r ← store_blocks p (crates.blocks buf) 0 out
    ok (flac, r)
