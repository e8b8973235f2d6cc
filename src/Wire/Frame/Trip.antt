-- ===== src/Wire/Frame/Trip.antt =====
-- What becomes of a body that is framed and parsed again (crates/wire/src/frame.rs).
use mooncat.Prelude.{
  ℕ, zero, suc, Bool, true, false, List, [], ◌∷◌, Option, none, some, leb, if◌then◌else◌, length,
}
use mooncat.Wire.Frame.{Frame, Result, ok, err, over_ratio, ceiling_of}

-- At most the first `n` bytes.
abbrev pub take : ℕ → List ℕ → List ℕ
take zero xs = []
take (suc n) [] = []
take (suc n) (x ∷ xs) = x ∷ take n xs

-- What the receiver makes of a body: the body, or a refusal where it was compressed by more than the
-- ratio that a receiver allows.
abbrev pub received : List ℕ → Bool → Option (List ℕ) → Result Frame
received body batch none = ok (record { batch = batch; was_compressed = false; body = body })
received body batch (some z) =
    if leb (length body) (ceiling_of (length z))
    then ok (record { batch = batch; was_compressed = true; body = body })
    else err (over_ratio (length z))
