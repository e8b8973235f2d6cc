-- ===== src/Wire/Keystore/Trip.antt =====
-- Storing and loading a key with crates/wire/src/keystore.rs.
use mooncat.Prelude.{
  ℕ, ◌+◌, ◌≡◌, refl, sym, ap, ◌∙◌, not, [], ◌∷◌, ◌++◌, Option, none, some, arith, ==_iff, length,
  length-append, append_assoc, take, drop, if◌then◌else◌, String,
}
use mooncat.Wire.Keystore.{
  Bytes, Cipher, EncryptedFile, Read, content, ok, err, magic, salt_len, nonce_len, file_len,
  laid_out, file_bytes, store, written_as, opened, open_body, load, cannot_decrypt, wrong_length,
  settled, io, settled, io,
}

pub take-length_append : (xs ys : Bytes) → take (length xs) (xs ++ ys) ≡ xs
take-length_append [] ys = refl
take-length_append (x ∷ xs) ys = ap (λ zs. x ∷ zs) (take-length_append xs ys)

drop-length_append : (xs ys : Bytes) → drop (length xs) (xs ++ ys) ≡ ys
drop-length_append [] ys = refl
drop-length_append (x ∷ xs) ys = drop-length_append xs ys

take-front : (n : ℕ) (xs ys : Bytes) → length xs ≡ n → take n (xs ++ ys) ≡ xs
take-front n xs ys h = ap (λ m. take m (xs ++ ys)) (sym h) ∙ take-length_append xs ys

drop-front : (n : ℕ) (xs ys : Bytes) → length xs ≡ n → drop n (xs ++ ys) ≡ ys
drop-front n xs ys h = ap (λ m. drop m (xs ++ ys)) (sym h) ∙ drop-length_append xs ys

module _ (C : Cipher) where
  -- What the cipher documents: what was sealed opens under the same key, nonce and data beside it, and
  -- is longer by a tag of sixteen bytes.
  pub record IsSealing : Type 0 where
    pub reopens :
        (key : C.Key) (nonce beside text sealed : Bytes)
        → C.seal key nonce beside text ≡ some sealed
        → C.unseal key nonce beside sealed ≡ some text
    pub tagged :
        (key : C.Key) (nonce beside text sealed : Bytes)
        → C.seal key nonce beside text ≡ some sealed
        → length sealed ≡ length text + 16

  open_body-laid_out :
      (x : IsSealing) (f : EncryptedFile) (salt nonce secret sealed : Bytes)
      → length salt ≡ salt_len
      → length nonce ≡ nonce_len
      → length secret ≡ 32
      → C.seal (C.derive f.passphrase salt) nonce salt secret ≡ some sealed
      → open_body C f ((salt ++ nonce) ++ sealed) ≡ ok secret
  open_body-laid_out x f salt nonce secret sealed s n k h =
      let rest = (salt ++ nonce) ++ sealed in
      let apart : rest ≡ salt ++ (nonce ++ sealed) = append_assoc salt nonce sealed in
      let salt_back : take salt_len rest ≡ salt =
        ap (take salt_len) apart ∙ take-front salt_len salt (nonce ++ sealed) s in
      let nonce_back : take nonce_len (drop salt_len rest) ≡ nonce =
        ap (λ r. take nonce_len (drop salt_len r)) apart
        ∙ ap (take nonce_len) (drop-front salt_len salt (nonce ++ sealed) s)
        ∙ take-front nonce_len nonce sealed n in
      let both : length (salt ++ nonce) ≡ salt_len + nonce_len =
        omega (arith, length-append salt nonce, s, n) in
      let sealed_back : drop (salt_len + nonce_len) rest ≡ sealed =
        drop-front (salt_len + nonce_len) (salt ++ nonce) sealed both in
      ap
        (λ a. opened C (
          C.unseal (C.derive f.passphrase a) (take nonce_len (drop salt_len rest)) a
            (drop (salt_len + nonce_len) rest)))
        salt_back
      ∙ ap
          (λ a.
            opened C
              (C.unseal (C.derive f.passphrase salt) a salt (drop (salt_len + nonce_len) rest)))
          nonce_back
      ∙ ap (λ a. opened C (C.unseal (C.derive f.passphrase salt) nonce salt a)) sealed_back
      ∙ ap (opened C) (x.reopens (C.derive f.passphrase salt) nonce salt secret sealed h)
      ∙ ap (λ b. if b then ok secret else err cannot_decrypt) ((==_iff (length secret) 32).1 k)

  load-laid_out :
      (x : IsSealing) (f : EncryptedFile) (salt nonce secret sealed : Bytes)
      → length salt ≡ salt_len
      → length nonce ≡ nonce_len
      → length secret ≡ 32
      → C.seal (C.derive f.passphrase salt) nonce salt secret ≡ some sealed
      → load C f (content (magic ++ salt ++ nonce ++ sealed)) ≡ ok secret
  unfolding load
  load-laid_out x f salt nonce secret sealed s n k h =
      let bytes = magic ++ salt ++ nonce ++ sealed in
      let tag : length sealed ≡ length secret + 16 =
        x.tagged (C.derive f.passphrase salt) nonce salt secret sealed h in
      let long : length bytes ≡ file_len =
        omega
          (arith, length-append (salt ++ nonce) sealed, length-append salt nonce, s, n, k, tag) in
      ap
        (λ b.
          if not b
          then err (wrong_length (length bytes))
          else open_body C f ((salt ++ nonce) ++ sealed))
        ((==_iff (length bytes) file_len).1 long)
      ∙ open_body-laid_out x f salt nonce secret sealed s n k h

  -- A key of 32 bytes that was written to the file is what a load under the same passphrase gives back,
  -- whatever the salt and the nonce were.
  pub load-store :
      (f : EncryptedFile) (before after : Read) (salt nonce secret : Bytes)
      (written : Bytes → Option (Read × String))
      → IsSealing
      → length salt ≡ salt_len
      → length nonce ≡ nonce_len
      → length secret ≡ 32
      → store C f before (some salt) (some nonce) secret written ≡ (after, none)
      → load C f after ≡ ok secret
  unfolding store file_bytes
  load-store f before after salt nonce secret written x s n k h =
      of_seal (C.seal (C.derive f.passphrase salt) nonce salt secret) refl h
    where
      of_seal :
          (o : Option Bytes)
          → C.seal (C.derive f.passphrase salt) nonce salt secret ≡ o
          → written_as C before (laid_out C salt nonce o) written ≡ (after, none)
          → load C f after ≡ ok secret
      of_seal none q e = absurd (cc)
      of_seal (some sealed) q e = of_written (written (magic ++ salt ++ nonce ++ sealed)) e
        where
          of_written :
              (o : Option (Read × String))
              → settled C (magic ++ salt ++ nonce ++ sealed) o ≡ (after, none)
              → load C f after ≡ ok secret
          of_written none e =
              ap (load C f) (sym (ap (λ p. p.0) e))
              ∙ load-laid_out x f salt nonce secret sealed s n k q
          of_written (some (left, reason)) e =
              let no_error : some (io reason) ≡ none = ap (λ p. p.1) e in absurd (cc)
