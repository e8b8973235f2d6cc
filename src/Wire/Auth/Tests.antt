-- ===== src/Wire/Auth/Tests.antt =====
-- Concrete runs of the device registry (crates/wire/src/auth.rs) and of the audit record
-- (crates/wire/src/audit.rs). A key is its own digest here, and a signature is the transcript, cut or
-- padded by its signer.
use mooncat.Prelude.{ℕ, ◌≡◌, refl, false, List, [], ◌∷◌, some, take}
use mooncat.Prelude.Int.{pos}
use mooncat.Prelude.Assoc.{get, put, remove, string_eq}
use mooncat.Prelude.Bytes.{bytes_eq}
use mooncat.Wire.Command.{trader, admin}
use mooncat.Wire.Auth.{
  Crypto, Device, DeviceRegistry, enrolled, refused, revoked_device, unknown_code, of_key,
  issue_code, enroll, verify, revoke, new,
}
use mooncat.Wire.Auth.Revoked.{Op, issue, try, withdraw, expire, run, revoked_forever}
use mooncat.Wire.Auth.SingleUse.{single_use}
use mooncat.Wire.Audit.{Value, text, scalar, dict, no_entries, entry, redact, redacted}
use mooncat.Wire.Audit.Redacted.{Clean, redact_exact}

abbrev toy : Crypto
toy = record {
  PublicKey = List ℕ;
  parse_key = λ k. some k;
  digest = λ k. k;
  verifies = λ k t s. bytes_eq.beq (take 4 t) (take 4 s);
}

abbrev key_bytes : List ℕ
key_bytes = 1 ∷ 2 ∷ 3 ∷ []

-- A laptop was enrolled with a trader's code.
abbrev laptop : Device toy
laptop = record {
  id = key_bytes;
  public = key_bytes;
  label = "laptop";
  role = trader;
  enrolled_at_ms = pos 1700000000000;
  revoked = false;
}

abbrev registry : DeviceRegistry toy
registry = record { devices = (key_bytes, laptop) ∷ []; codes = [] }

enroll_run :
    enroll toy
      (issue_code toy (new toy) "123456" trader 0)
      "123456"
      key_bytes
      "laptop"
      600
      (pos 1700000000000)
    ≡ (registry, enrolled laptop)
unfolding enroll issue_code get put remove of_key
enroll_run = refl

-- Its key is tried again with a fresh code, and the codes are expired.
abbrev comeback : List (Op toy)
comeback = issue "654321" admin 10 ∷ try "654321" key_bytes "again" 20 (pos 5) ∷ expire 900 ∷ []

revoked_forever_example :
    verify toy (run toy (revoke toy registry key_bytes).0 comeback) key_bytes [] []
    ≡ refused (revoked_device key_bytes)
revoked_forever_example =
    revoked_forever toy registry key_bytes comeback [] [] (unfold revoke get in refl)

abbrev between : List (Op toy)
between = withdraw key_bytes ∷ expire 5 ∷ []

single_use_example :
    (enroll toy
      (run toy (enroll toy registry "123456" key_bytes "laptop" 1 (pos 1)).0 between)
      "123456"
      key_bytes
      "second"
      2
      (pos 2)).1
    ≡ refused unknown_code
single_use_example =
    single_use toy registry "123456" key_bytes key_bytes "laptop" "second" 1 2 (pos 1) (pos 2)
      between (tt, (tt, tt))

abbrev nonce : List ℕ
nonce = 1 ∷ 9 ∷ []

abbrev protocol : ℕ
protocol = 2

-- A passphrase two levels down.
abbrev body : Value
body = dict (
    entry (text "order")
      (dict (entry (text "passphrase") (text "hunter2") (entry (text "qty") (scalar 5) no_entries)))
      no_entries)

redact_run :
    redact body
    ≡ dict (
        entry
          (text "order")
          (dict
            (entry (text "passphrase") (text redacted) (entry (text "qty") (scalar 5) no_entries)))
          no_entries)
unfolding redact
redact_run = refl

redact_exact_example : Clean (redact body) × (Clean body → redact body ≡ body)
redact_exact_example = redact_exact body
