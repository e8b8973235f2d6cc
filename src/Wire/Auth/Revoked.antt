-- ===== src/Wire/Auth/Revoked.antt =====
-- The registry of crates/wire/src/auth.rs over any history of calls: a revoked device stays out, and a
-- code is good for one try.
use mooncat.Prelude.{
  ℕ, ◌≡◌, ◌≢◌, refl, sym, ap, ◌∙◌, true, List, [], ◌∷◌, Option, none, some, String, inl, inr,
  Bool-cases, ltb, ◌-◌,
}
use mooncat.Prelude.Int.{ℤ}
use mooncat.Prelude.Assoc.{get, remove, string_eq, beq_ne, get-put, get-put_self}
use mooncat.Prelude.Bytes.{bytes_eq}
use mooncat.Wire.Command.{Role}
use mooncat.Wire.Auth.{
  Crypto, DeviceId, Device, DeviceRegistry, Pending, refused, revoked_device, of_key, issue_code,
  enroll, enroll_pending, enroll_key, enter_new, enroll_code_ttl, verify, verify_device, revoke,
  mark_revoked, expire_codes,
}

module _ (C : Crypto) where
  pub data Op : Type 0 where
    issue : String → Role → ℕ → Op
    try : String → List ℕ → String → ℕ → ℤ → Op
    withdraw : DeviceId → Op
    expire : ℕ → Op

  abbrev pub after : DeviceRegistry C → Op → DeviceRegistry C
  after r (issue code role now) = issue_code C r code role now
  after r (try code public label now now_ms) = (enroll C r code public label now now_ms).0
  after r (withdraw device) = (revoke C r device).0
  after r (expire now) = (expire_codes C r now).0

  abbrev pub run : DeviceRegistry C → List Op → DeviceRegistry C
  run r [] = r
  run r (op ∷ ops) = run (after r op) ops

  abbrev Locked : DeviceRegistry C → DeviceId → Type 0
  Locked r d = (v : Device C) × (get r.devices d ≡ some v) × (v.revoked ≡ true)

  Locked-enroll_key :
      (r : DeviceRegistry C) (d : DeviceId) (k : Option C.PublicKey) (role : Role) (label : String)
      (now_ms : ℤ)
      → Locked r d
      → Locked (enroll_key C r k role label now_ms).0 d
  Locked-enroll_key r d none role label now_ms h = h
  Locked-enroll_key r d (some public) role label now_ms (v, g, l) =
      on_entry (get r.devices (of_key C public)) refl
    where
      on_entry :
          (o : Option (Device C))
          → get r.devices (of_key C public) ≡ o
          → Locked (enter_new C r public (of_key C public) o role label now_ms).0 d
      on_entry (some w) e = (v, g, l)
      on_entry none e = (
        v,
        get-put r.devices (of_key C public) d _ ∙ (rw (beq_ne (of_key C public) d apart) g),
        l,
      )
        where
          apart : of_key C public ≢ d
          apart same =
              let wrong : none ≡ some v = sym e ∙ ap (get r.devices) same ∙ g in absurd (cc)

  Locked-enroll_pending :
      (r : DeviceRegistry C) (d : DeviceId) (p : Option Pending) (public : List ℕ) (label : String)
      (now : ℕ) (now_ms : ℤ)
      → Locked r d
      → Locked (enroll_pending C r p public label now now_ms).0 d
  Locked-enroll_pending r d none public label now now_ms h = h
  Locked-enroll_pending r d (some p) public label now now_ms h =
      elim (Bool-cases (ltb enroll_code_ttl (now - p.issued_at))) [
        | inl late ↦ rw late h
        | inr fresh ↦ rw fresh (Locked-enroll_key r d (C.parse_key public) p.role label now_ms h)
      ]

  Locked-mark_revoked :
      (r : DeviceRegistry C) (d e : DeviceId) (o : Option (Device C))
      → get r.devices e ≡ o
      → Locked r d
      → Locked (mark_revoked C r e o).0 d
  Locked-mark_revoked r d e none q h = h
  Locked-mark_revoked r d e (some w) q (v, g, l) = elim (Bool-cases (bytes_eq.beq e d)) [
    | inl same ↦ (record w { revoked = true }, get-put r.devices e d _ ∙ (rw same), refl)
    | inr apart ↦ (v, get-put r.devices e d _ ∙ (rw apart g), l)
  ]

  Locked-after :
      (r : DeviceRegistry C) (d : DeviceId) (op : Op) → Locked r d → Locked (after r op) d
  unfolding issue_code enroll revoke expire_codes
  Locked-after r d (issue code role now) h = h
  Locked-after r d (try code public label now now_ms) h =
      Locked-enroll_pending (record r { codes = remove r.codes code }) d (get r.codes code) public
        label now now_ms h
  Locked-after r d (withdraw e) h = Locked-mark_revoked r d e (get r.devices e) refl h
  Locked-after r d (expire now) h = h

  Locked-run :
      (r : DeviceRegistry C) (d : DeviceId) (ops : List Op) → Locked r d → Locked (run r ops) d
  Locked-run r d [] h = h
  Locked-run r d (op ∷ ops) h = Locked-run (after r op) d ops (Locked-after r d op h)

  Locked-revoke :
      (r : DeviceRegistry C) (d : DeviceId) → (revoke C r d).1 ≡ true → Locked (revoke C r d).0 d
  unfolding revoke
  Locked-revoke r d done = of_entry (get r.devices d) refl done
    where
      of_entry :
          (o : Option (Device C))
          → get r.devices d ≡ o
          → (mark_revoked C r d o).1 ≡ true
          → Locked (mark_revoked C r d o).0 d
      of_entry none e h = absurd (cc)
      of_entry (some v) e h = (record v { revoked = true }, get-put_self r.devices d _, refl)

  locked_out :
      (d : DeviceId) (v : Device C) (transcript signature : List ℕ)
      → v.revoked ≡ true
      → verify_device C d (some v) transcript signature ≡ refused (revoked_device d)
  locked_out d v transcript signature l = rw l refl

  -- Once a device that is enrolled has been revoked, no later calls bring it back: codes issued,
  -- enrolments tried, also with its own key, revocations and expiry. Every signature is refused as
  -- that of a revoked device.
  pub revoked_forever :
      (r : DeviceRegistry C) (d : DeviceId) (ops : List Op) (transcript signature : List ℕ)
      → (revoke C r d).1 ≡ true
      → verify C (run (revoke C r d).0 ops) d transcript signature ≡ refused (revoked_device d)
  unfolding verify
  revoked_forever r d ops transcript signature done =
      let (v, g, l) = Locked-run (revoke C r d).0 d ops (Locked-revoke r d done) in
      ap (λ o. verify_device C d o transcript signature) g ∙ locked_out d v transcript signature l
