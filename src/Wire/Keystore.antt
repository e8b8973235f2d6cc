-- ===== src/Wire/Keystore.antt =====
-- crates/wire/src/keystore.rs: the device key in a file, sealed under a passphrase. A byte is a number.
-- Key derivation and the authenticated cipher are third-party, and parameters; so are randomness and
-- the file system, of which a call's outcome is an argument.
pub mod Tests
pub mod Trip
use mooncat.Prelude.{
  ℕ, ◌+◌, ◌≡◌, Bool, true, false, not, ◌&&◌, List, [], ◌∷◌, ◌++◌, Option, none, some, String, ◌==◌,
  length, take, drop, if◌then◌else◌,
}
use mooncat.Prelude.Assoc.{string_eq}

abbrev pub Bytes : Type 0
Bytes = List ℕ

-- MOONKEY1.
abbrev pub magic : Bytes
magic = 77 ∷ 79 ∷ 79 ∷ 78 ∷ 75 ∷ 69 ∷ 89 ∷ 49 ∷ []

abbrev pub salt_len : ℕ
salt_len = 16

abbrev pub nonce_len : ℕ
nonce_len = 12

abbrev pub sealed_len : ℕ
sealed_len = 32 + 16

abbrev pub file_len : ℕ
file_len = 8 + salt_len + nonce_len + sealed_len

pub data KeystoreError : Type 0 where
  not_found cannot_decrypt wrong_format : KeystoreError
  wrong_length : ℕ → KeystoreError
  empty_passphrase : KeystoreError
  io os : String → KeystoreError

-- `derive` makes a key of a passphrase and a salt. `seal` and `unseal` take a key, a nonce and the data
-- that is authenticated beside the text.
pub record Cipher : Type 1 where
  pub Key : Type 0
  pub derive : String → Bytes → Key
  pub seal : Key → Bytes → Bytes → Bytes → Option Bytes
  pub unseal : Key → Bytes → Bytes → Bytes → Option Bytes

pub data Outcome (A : Type 0) : Type 0 where
  ok : A → Outcome A
  err : KeystoreError → Outcome A

pub record EncryptedFile : Type 0 where
  pub path : String
  pub passphrase : String

unfoldable pub new : String → String → Outcome EncryptedFile
new path passphrase =
    if string_eq.beq passphrase ""
    then err empty_passphrase
    else ok (record { path = path; passphrase = passphrase })

-- What the file system says of a read.
pub data Read : Type 0 where
  content : Bytes → Read
  missing : Read
  failed : String → Read

abbrev pub starts_with : Bytes → Bytes → Bool
starts_with bs [] = true
starts_with [] (p ∷ ps) = false
starts_with (b ∷ bs) (p ∷ ps) = b == p && starts_with bs ps

module _ (C : Cipher) where
  abbrev pub laid_out : Bytes → Bytes → Option Bytes → Outcome Bytes
  laid_out salt nonce none = err (io "sealing failed")
  laid_out salt nonce (some sealed) = ok (magic ++ salt ++ nonce ++ sealed)

  -- The bytes that `store` writes, given what the system's randomness fills in.
  unfoldable pub file_bytes : EncryptedFile → Option Bytes → Option Bytes → Bytes → Outcome Bytes
  file_bytes f none _ secret = err (io "no system randomness")
  file_bytes f (some salt) none secret = err (io "no system randomness")
  file_bytes f (some salt) (some nonce) secret =
      laid_out salt nonce (C.seal (C.derive f.passphrase salt) nonce salt secret)

  abbrev pub settled : Bytes → Option (Read × String) → Read × Option KeystoreError
  settled bs none = (content bs, none)
  settled bs (some (left, reason)) = (left, some (io reason))

  -- `store`: what is in the file after it, and the error if there is one. `written` is what the file
  -- system says of a write: the bytes are in the file, or what is there instead, and why.
  abbrev pub written_as :
      Read → Outcome Bytes → (Bytes → Option (Read × String)) → Read × Option KeystoreError
  written_as before (err e) written = (before, some e)
  written_as before (ok bs) written = settled bs (written bs)

  unfoldable pub store :
      EncryptedFile
      → Read
      → Option Bytes
      → Option Bytes
      → Bytes
      → (Bytes → Option (Read × String))
      → Read × Option KeystoreError
  store f before salt nonce secret written =
      written_as before (file_bytes f salt nonce secret) written

  -- A secret has 32 bytes.
  abbrev pub opened : Option Bytes → Outcome Bytes
  opened none = err cannot_decrypt
  opened (some secret) = if length secret == 32 then ok secret else err cannot_decrypt

  abbrev pub open_body : EncryptedFile → Bytes → Outcome Bytes
  open_body f rest =
      let salt = take salt_len rest in
      let nonce = take nonce_len (drop salt_len rest) in
      opened (C.unseal (C.derive f.passphrase salt) nonce salt (drop (salt_len + nonce_len) rest))

  -- `load`.
  unfoldable pub load : EncryptedFile → Read → Outcome Bytes
  load f missing = err not_found
  load f (failed e) = err (io e)
  load f (content bytes) =
      if not (starts_with bytes magic)
      then err wrong_format
      else if not (length bytes == file_len)
      then err (wrong_length (length bytes))
      else open_body f (drop 8 bytes)

  -- `delete`, given what the file system says of a removal.
  pub delete : Read → Option String → Read × Option KeystoreError
  delete missing e = (missing, some not_found)
  delete before none = (missing, none)
  delete before (some e) = (before, some (io e))
