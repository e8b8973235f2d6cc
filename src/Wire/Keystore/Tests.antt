-- ===== src/Wire/Keystore/Tests.antt =====
-- Concrete runs of crates/wire/src/keystore.rs, with a cipher that hides nothing: it appends a tag.
use mooncat.Prelude.{
  ℕ, zero, ◌-◌, ◌+◌, suc, ◌≡◌, refl, sym, ap, ◌∙◌, [], ◌∷◌, ◌++◌, none, some, arith, length,
  length-append, take, String,
}
use mooncat.Wire.Keystore.{
  Bytes, Cipher, EncryptedFile, magic, content, missing, ok, err, wrong_format, wrong_length, store,
  file_bytes, load,
}
use mooncat.Wire.Keystore.Trip.{IsSealing, load-store, take-length_append}

abbrev copies : ℕ → ℕ → Bytes
copies zero b = []
copies (suc n) b = b ∷ copies n b

abbrev cipher : Cipher
cipher = record {
  Key = String;
  derive = λ passphrase salt. passphrase;
  seal = λ key nonce beside text. some (text ++ copies 16 0);
  unseal = λ key nonce beside sealed. some (take (length sealed - 16) sealed);
}

abbrev file : EncryptedFile
file = record { path = "device.key"; passphrase = "correct horse" }

length-tag : (text : Bytes) → length (text ++ copies 16 0) ≡ length text + 16
length-tag text = length-append text (copies 16 0)

cipher-IsSealing : IsSealing cipher
cipher-IsSealing = record {
  reopens = λ key nonce beside text sealed h. reopened text sealed (injected _ _ h);
  tagged = λ key nonce beside text sealed h. ap length (sym (injected _ _ h)) ∙ length-tag text;
}
  where
    injected : (a b : Bytes) → some a ≡ some b → a ≡ b
    injected a b h = cc

    reopened :
        (text sealed : Bytes)
        → text ++ copies 16 0 ≡ sealed
        → some (take (length sealed - 16) sealed) ≡ some text
    reopened text sealed h =
        let short : length (text ++ copies 16 0) - 16 ≡ length text =
          omega (arith, length-tag text) in
        ap (λ s. some (take (length s - 16) s)) (sym h)
        ∙ ap (λ k. some (take k (text ++ copies 16 0))) short
        ∙ ap some (take-length_append text (copies 16 0))

-- A secret of 32 bytes, stored where nothing was.
load-store_example :
    load cipher file (content (magic ++ copies 16 5 ++ copies 12 6 ++ copies 32 7 ++ copies 16 0))
    ≡ ok (copies 32 7)
load-store_example =
    load-store cipher file missing
      (content (magic ++ copies 16 5 ++ copies 12 6 ++ copies 32 7 ++ copies 16 0)) (copies 16 5)
      (copies 12 6) (copies 32 7) (λ bs. none) cipher-IsSealing refl refl refl
      (unfold store file_bytes in refl)

wrong_file_run : load cipher file (content (1 ∷ 2 ∷ [])) ≡ err wrong_format
unfolding load
wrong_file_run = refl

cut_run : load cipher file (content (magic ++ 1 ∷ [])) ≡ err (wrong_length 9)
unfolding load
cut_run = refl
