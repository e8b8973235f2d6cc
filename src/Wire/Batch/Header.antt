-- ===== src/Wire/Batch/Header.antt =====
-- What a receiver reads from a batch of crates/wire/src/batch.rs, by the MessagePack specification.
use mooncat.Prelude.{
  ℕ, ◌+◌, ◌-◌, ◌*◌, ◌/◌, ◌%◌, ◌≤◌, ◌<◌, ◌≡◌, ap, ◌&&◌, List, [], ◌∷◌, Option, none, some, arith,
  leb, ltb, ◌==◌, if◌then◌else◌, length, Bool-cases, inl, inr,
}
use mooncat.Wire.Batch.{array_header, msgpack_array, joined}

-- A MessagePack array header: the number of elements, and the bytes after it.
abbrev pub read_wide : ℕ → List ℕ → Option (ℕ × List ℕ)
read_wide b (x ∷ y ∷ z ∷ w ∷ rest) =
    if b == 221 then some (((x * 256 + y) * 256 + z) * 256 + w, rest) else none
read_wide b _ = none

abbrev pub read_after : ℕ → List ℕ → Option (ℕ × List ℕ)
read_after b (x ∷ y ∷ rest) =
    if b == 220 then some (x * 256 + y, rest) else read_wide b (x ∷ y ∷ rest)
read_after b rest = read_wide b rest

abbrev pub read_array_header : List ℕ → Option (ℕ × List ℕ)
read_array_header [] = none
read_array_header (b ∷ bs) = if leb 144 b && ltb b 160 then some (b - 144, bs) else read_after b bs

read_narrow :
    (n : ℕ) (rest : List ℕ) → n ≤ 15 → read_array_header ((144 + n) ∷ rest) ≡ some (n, rest)
read_narrow n rest h = ground arith

two_bytes : (n : ℕ) → n ≤ 65535 → n / 256 % 256 * 256 + n % 256 ≡ n
two_bytes n h = omega arith

four_bytes :
    (n : ℕ)
    → n < 4294967296
    → ((n / 16777216 % 256 * 256 + n / 65536 % 256) * 256 + n / 256 % 256) * 256 + n % 256 ≡ n
four_bytes n h = omega arith

-- The number of messages in an array of fewer than 2^32, and their bytes, can be read back from it.
pub read-msgpack_array :
    (parts : List (List ℕ))
    → length parts < 4294967296
    → read_array_header (msgpack_array parts) ≡ some (length parts, joined parts)
unfolding msgpack_array array_header
read-msgpack_array parts h = elim (Bool-cases (leb (length parts) 15)) [
  | inl narrow ↦ rw narrow (read_narrow (length parts) (joined parts) (ground (arith, narrow)))
  | inr wide ↦ elim (Bool-cases (leb (length parts) 65535)) [
    | inl e ↦
        rw (wide, e)
          (ap (λ n. some (n, joined parts)) (two_bytes (length parts) (ground (arith, e))))
    | inr e ↦ rw (wide, e) (ap (λ n. some (n, joined parts)) (four_bytes (length parts) h))
  ]
]
