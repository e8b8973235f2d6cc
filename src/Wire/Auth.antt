-- ===== src/Wire/Auth.antt =====
-- crates/wire/src/auth.rs: which devices may connect. Ed25519 and SHA-256 are third-party code, and a
-- parameter here: parsing a public key, the digest of a key, and the test of a signature. An `Instant` is
-- a number of seconds.
pub mod Transcript
pub mod Revoked
pub mod SingleUse
pub mod Tests
use Prim.Native.Char.{code}
use mooncat.Prelude.{
  ℕ, zero, suc, ◌+◌, ◌-◌, ◌/◌, ◌%◌, ◌≡◌, Bool, true, false, not, List, [], ◌∷◌, ◌++◌, Option, none,
  some, String, leb, ltb, ◌==◌, if◌then◌else◌, length, keep_if, take,
}
use mooncat.Prelude.Int.{ℤ}
use mooncat.Prelude.Assoc.{Eq, get, put, remove, string_eq}
use mooncat.Prelude.Bytes.{bytes_eq}
use mooncat.Wire.Command.{Role}

abbrev pub enroll_code_ttl : ℕ
enroll_code_ttl = 600

abbrev pub signature_length : ℕ
signature_length = 64

-- What is taken of the cryptography.
pub record Crypto : Type 1 where
  pub PublicKey : Type 0
  pub parse_key : List ℕ → Option PublicKey
  pub digest : PublicKey → List ℕ
  pub verifies : PublicKey → List ℕ → List ℕ → Bool

abbrev pub DeviceId : Type 0
DeviceId = List ℕ

abbrev pub text_bytes : String → List ℕ
text_bytes String.[] = []
text_bytes (String.◌∷◌ c s) = code c ∷ text_bytes s

-- `b"moon-own/device-auth/v1\0"`.
abbrev pub transcript_domain : List ℕ
transcript_domain = text_bytes "moon-own/device-auth/v1" ++ 0 ∷ []

-- `u16::to_be_bytes`.
abbrev pub be_bytes : ℕ → List ℕ
be_bytes n = n / 256 ∷ n % 256 ∷ []

-- `Transcript::new`: what a device signs.
unfoldable pub transcript : List ℕ → List ℕ → DeviceId → ℕ → List ℕ → List ℕ
transcript server_nonce client_nonce device protocol tls_exporter =
    transcript_domain
    ++ (server_nonce ++ (client_nonce ++ (device ++ (be_bytes protocol ++ tls_exporter))))

pub data AuthError : Type 0 where
  unknown_device revoked_device already_enrolled : DeviceId → AuthError
  bad_signature unknown_code expired_code bad_public_key : AuthError
  malformed_signature : ℕ → AuthError

pub record Pending : Type 0 where
  pub issued_at : ℕ
  pub role : Role

module _ (C : Crypto) where
  -- `DeviceId::of_key`: the first sixteen bytes of the key's digest.
  unfoldable pub of_key : C.PublicKey → DeviceId
  of_key public = take 16 (C.digest public)

  pub record Device : Type 0 where
    pub id : DeviceId
    pub public : C.PublicKey
    pub label : String
    pub role : Role
    pub enrolled_at_ms : ℤ
    pub revoked : Bool

  pub record DeviceRegistry : Type 0 where
    pub devices : List (DeviceId × Device)
    pub codes : List (String × Pending)

  pub data Enrolled : Type 0 where
    enrolled : Device → Enrolled
    refused : AuthError → Enrolled

  abbrev pub new : DeviceRegistry
  new = record { devices = []; codes = [] }

  unfoldable pub issue_code : DeviceRegistry → String → Role → ℕ → DeviceRegistry
  issue_code r code role now = record r {
    codes = put r.codes code (record { issued_at = now; role = role });
  }

  -- A device of its own key, entered under its id.
  abbrev pub enter :
      DeviceRegistry → C.PublicKey → DeviceId → Role → String → ℤ → DeviceRegistry × Enrolled
  enter r public id role label now_ms =
      let device : Device = record {
        id = id;
        public = public;
        label = label;
        role = role;
        enrolled_at_ms = now_ms;
        revoked = false;
      } in
      (record r { devices = put r.devices id device }, enrolled device)

  abbrev pub enter_new :
      DeviceRegistry
      → C.PublicKey
      → DeviceId
      → Option Device
      → Role
      → String
      → ℤ
      → DeviceRegistry × Enrolled
  enter_new r public id (some d) role label now_ms = (r, refused (already_enrolled id))
  enter_new r public id none role label now_ms = enter r public id role label now_ms

  abbrev pub enroll_key :
      DeviceRegistry → Option C.PublicKey → Role → String → ℤ → DeviceRegistry × Enrolled
  enroll_key r none role label now_ms = (r, refused bad_public_key)
  enroll_key r (some public) role label now_ms =
      enter_new r public (of_key public) (get r.devices (of_key public)) role label now_ms

  abbrev pub enroll_pending :
      DeviceRegistry → Option Pending → List ℕ → String → ℕ → ℤ → DeviceRegistry × Enrolled
  enroll_pending r none public label now now_ms = (r, refused unknown_code)
  enroll_pending r (some p) public label now now_ms =
      if ltb enroll_code_ttl (now - p.issued_at)
      then (r, refused expired_code)
      else enroll_key r (C.parse_key public) p.role label now_ms

  -- `DeviceRegistry::enroll`: the code is taken out first, whatever comes of it.
  unfoldable pub enroll :
      DeviceRegistry → String → List ℕ → String → ℕ → ℤ → DeviceRegistry × Enrolled
  enroll r code public label now now_ms =
      enroll_pending (record r { codes = remove r.codes code }) (get r.codes code) public label now
        now_ms

  abbrev pub verify_device : DeviceId → Option Device → List ℕ → List ℕ → Enrolled
  verify_device device none transcript signature = refused (unknown_device device)
  verify_device device (some d) transcript signature =
      if d.revoked
      then refused (revoked_device device)
      else if not (length signature == signature_length)
      then refused (malformed_signature (length signature))
      else if C.verifies d.public transcript signature
      then enrolled d
      else refused bad_signature

  -- `DeviceRegistry::verify`.
  unfoldable pub verify : DeviceRegistry → DeviceId → List ℕ → List ℕ → Enrolled
  verify r device transcript signature =
      verify_device device (get r.devices device) transcript signature

  abbrev pub mark_revoked : DeviceRegistry → DeviceId → Option Device → DeviceRegistry × Bool
  mark_revoked r device none = (r, false)
  mark_revoked r device (some d) =
      (record r { devices = put r.devices device (record d { revoked = true }) }, true)

  unfoldable pub revoke : DeviceRegistry → DeviceId → DeviceRegistry × Bool
  revoke r device = mark_revoked r device (get r.devices device)

  -- Drops the codes that ran out, and counts them.
  unfoldable pub expire_codes : DeviceRegistry → ℕ → DeviceRegistry × ℕ
  expire_codes r now =
      let kept =
        keep_if (λ (c : String × Pending). leb (now - c.1.issued_at) enroll_code_ttl) r.codes in
      (record r { codes = kept }, length r.codes - length kept)
