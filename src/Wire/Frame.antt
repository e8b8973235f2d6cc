-- ===== src/Wire/Frame.antt =====
-- crates/wire/src/frame.rs: the preamble of a frame, its size limits and its compression. A byte is a
-- number; the mask tests on the flags are written as arithmetic, which on a byte is the same. The
-- `zstd` crate is a parameter of the sections below: `compress` returns the compressed bytes or
-- an error, and `read_stream z n` is what reading up to `n` bytes of the decompressed stream gives.
pub mod Trip
use mooncat.Prelude.{
  ℕ, zero, suc, ◌+◌, ◌-◌, ◌*◌, ◌/◌, ◌%◌, Bool, true, false, not, ◌&&◌, List, [], ◌∷◌, ◌++◌, Option,
  none, some, leb, ltb, ◌==◌, if◌then◌else◌, length, min, max,
}

abbrev pub fmt_v1 : ℕ
fmt_v1 = 1

abbrev pub max_frame_c2s : ℕ
max_frame_c2s = 1048576

abbrev pub max_frame_s2c : ℕ
max_frame_s2c = 16777216

abbrev pub max_inflated : ℕ
max_inflated = 67108864

abbrev pub max_inflate_ratio : ℕ
max_inflate_ratio = 64

abbrev pub min_inflate_budget : ℕ
min_inflate_budget = 1048576

abbrev pub compress_min_bytes : ℕ
compress_min_bytes = 512

abbrev pub compress_min_gain_pct : ℕ
compress_min_gain_pct = 5

pub data Direction : Type 0 where
  client_to_server server_to_client : Direction

unfoldable pub max_frame : Direction → ℕ
max_frame client_to_server = max_frame_c2s
max_frame server_to_client = max_frame_s2c

pub record Frame : Type 0 where
  pub batch : Bool
  pub was_compressed : Bool
  pub body : List ℕ

-- The reasons of `CodecError`, without their texts.
pub data CodecError : Type 0 where
  too_large short unknown_format reserved_bits over_ratio : ℕ → CodecError
  corrupt : CodecError

pub data Result (A : Type 0) : Type 0 where
  ok : A → Result A
  err : CodecError → Result A

-- The flag bits of a byte.
abbrev pub has_zstd : ℕ → Bool
has_zstd flags = not (flags % 2 == 0)

abbrev pub has_batch : ℕ → Bool
has_batch flags = not (flags / 2 % 2 == 0)

abbrev pub has_reserved : ℕ → Bool
has_reserved flags = not (flags / 4 == 0)

-- `saturating_mul` stays below its limit here, as the clamp does.
unfoldable pub ceiling_of : ℕ → ℕ
ceiling_of size = min (max (size * max_inflate_ratio) min_inflate_budget) max_inflated

abbrev pub batch_flag : Bool → ℕ
batch_flag true = 2
batch_flag false = 0

-- The frame of a payload, unless it is over the limit.
unfoldable pub framed : ℕ → List ℕ → ℕ → Result (List ℕ)
framed flags payload limit =
    if ltb limit (2 + length payload)
    then err (too_large (2 + length payload))
    else ok (fmt_v1 ∷ flags ∷ payload)

module _ (compress : List ℕ → Option (List ℕ)) where
  abbrev pub worth : List ℕ → Option (List ℕ) → Option (List ℕ)
  worth body none = none
  worth body (some z) =
      if leb (length z * 100) (length body * (100 - compress_min_gain_pct)) then some z else none

  -- The compressed body, where compressing it is worth doing.
  unfoldable pub compressed : List ℕ → Option (List ℕ)
  compressed body =
      if leb compress_min_bytes (length body) then worth body (compress body) else none

  abbrev pub encode_as : Option (List ℕ) → List ℕ → Bool → ℕ → Result (List ℕ)
  encode_as none body batch limit = framed (batch_flag batch) body limit
  encode_as (some z) body batch limit = framed (batch_flag batch + 1) z limit

  unfoldable pub encode : List ℕ → Bool → ℕ → Result (List ℕ)
  encode body batch limit = encode_as (compressed body) body batch limit

module _ (read_stream : List ℕ → ℕ → Option (List ℕ)) where
  abbrev pub within : ℕ → ℕ → Option (List ℕ) → Result (List ℕ)
  within size ceiling none = err corrupt
  within size ceiling (some out) =
      if ltb ceiling (length out) then err (over_ratio size) else ok out

  -- Decompress with a ceiling derived from the compressed size, reading one byte past it.
  unfoldable pub inflate : List ℕ → Result (List ℕ)
  inflate z = within (length z) (ceiling_of (length z)) (read_stream z (ceiling_of (length z) + 1))

  abbrev pub frame_of : ℕ → Result (List ℕ) → Result Frame
  frame_of flags (err e) = err e
  frame_of flags (ok body) =
      ok (record { batch = has_batch flags; was_compressed = has_zstd flags; body = body })

  abbrev pub body_of : ℕ → List ℕ → Result (List ℕ)
  body_of flags body = if has_zstd flags then inflate body else ok body

  abbrev pub parse : List ℕ → Result Frame
  parse [] = err (short 0)
  parse (b ∷ []) = err (short 1)
  parse (fmt ∷ flags ∷ body) =
      if not (fmt == fmt_v1)
      then err (unknown_format fmt)
      else if has_reserved flags
      then err (reserved_bits flags)
      else frame_of flags (body_of flags body)

  unfoldable pub decode : List ℕ → Direction → Result Frame
  decode frame direction =
      if ltb (max_frame direction) (length frame)
      then err (too_large (length frame))
      else parse frame
