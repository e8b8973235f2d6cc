-- ===== src/Wire/Auth/SingleUse.antt =====
-- Enrolment codes of crates/wire/src/auth.rs: a code is good for one try.
use mooncat.Prelude.{
  ℕ, ◌≡◌, ◌≢◌, refl, sym, ap, ◌∙◌, Bool, true, false, List, [], ◌∷◌, Option, none, some, String,
  inl, inr, Bool-cases, if◌then◌else◌, keep_if, ltb, ◌-◌, All,
}
use mooncat.Prelude.Int.{ℤ}
use mooncat.Prelude.Assoc.{get, remove, string_eq, beq_ne, get-put, get-remove, get-remove_self}
use mooncat.Prelude.Bytes.{bytes_eq}
use mooncat.Wire.Command.{Role}
use mooncat.Wire.Auth.{
  Crypto, DeviceId, Device, DeviceRegistry, Pending, refused, unknown_code, of_key, issue_code,
  enroll, enroll_pending, enroll_key, enter_new, enroll_code_ttl, revoke, mark_revoked,
  expire_codes,
}
use mooncat.Wire.Auth.Revoked.{Op, issue, try, withdraw, expire, after, run}

get-keep_if-none {ℓ} :
    {V : Type ℓ} (p : String × V → Bool) (m : List (String × V)) (k : String)
    → get m k ≡ none
    → get (keep_if p m) k ≡ none
unfolding get
get-keep_if-none p [] k h = refl
get-keep_if-none p ((j, v) ∷ m) k h = elim (Bool-cases (string_eq.beq j k)) [
  | inl e ↦ absurd (cc)
  | inr e ↦ elim (Bool-cases (p (j, v))) [
    | inl kept ↦
        rw (kept, e) (get-keep_if-none p m k (sym (ap (λ b. if b then some v else get m k) e) ∙ h))
    | inr gone ↦
        rw gone (get-keep_if-none p m k (sym (ap (λ b. if b then some v else get m k) e) ∙ h))
  ]
]

module _ (C : Crypto) where
  -- The calls that issue no such code.
  abbrev pub Unissued : String → Op C → Type 0
  Unissued code (issue c role now) = c ≢ code
  Unissued code (try c public label now now_ms) = Unit
  Unissued code (withdraw device) = Unit
  Unissued code (expire now) = Unit

  codes-enroll_key :
      (r : DeviceRegistry C) (k : Option C.PublicKey) (role : Role) (label : String) (now_ms : ℤ)
      → (enroll_key C r k role label now_ms).0.codes ≡ r.codes
  codes-enroll_key r none role label now_ms = refl
  codes-enroll_key r (some public) role label now_ms = on_entry (get r.devices (of_key C public))
    where
      on_entry :
          (o : Option (Device C))
          → (enter_new C r public (of_key C public) o role label now_ms).0.codes ≡ r.codes
      on_entry none = refl
      on_entry (some w) = refl

  codes-enroll_pending :
      (r : DeviceRegistry C) (p : Option Pending) (public : List ℕ) (label : String) (now : ℕ)
      (now_ms : ℤ)
      → (enroll_pending C r p public label now now_ms).0.codes ≡ r.codes
  codes-enroll_pending r none public label now now_ms = refl
  codes-enroll_pending r (some p) public label now now_ms =
      elim (Bool-cases (ltb enroll_code_ttl (now - p.issued_at))) [
        | inl late ↦ rw late refl
        | inr fresh ↦ rw fresh (codes-enroll_key r (C.parse_key public) p.role label now_ms)
      ]

  codes-enroll :
      (r : DeviceRegistry C) (code : String) (public : List ℕ) (label : String) (now : ℕ)
      (now_ms : ℤ)
      → (enroll C r code public label now now_ms).0.codes ≡ remove r.codes code
  unfolding enroll
  codes-enroll r code public label now now_ms =
      codes-enroll_pending (record r { codes = remove r.codes code }) (get r.codes code) public
        label now now_ms

  codes-mark_revoked :
      (r : DeviceRegistry C) (d : DeviceId) (o : Option (Device C))
      → (mark_revoked C r d o).0.codes ≡ r.codes
  codes-mark_revoked r d none = refl
  codes-mark_revoked r d (some v) = refl

  gone-after :
      (r : DeviceRegistry C) (code : String) (op : Op C)
      → Unissued code op
      → get r.codes code ≡ none
      → get (after C r op).codes code ≡ none
  unfolding issue_code revoke expire_codes
  gone-after r code (issue c role now) u h = get-put r.codes c code _ ∙ (rw (beq_ne c code u) h)
  gone-after r code (try c public label now now_ms) u h =
      ap (λ m. get m code) (codes-enroll r c public label now now_ms)
      ∙ get-remove r.codes c code
      ∙ either (string_eq.beq c code)
    where
      either : (b : Bool) → (if b then none else get r.codes code) ≡ none
      either true = refl
      either false = h
  gone-after r code (withdraw d) u h =
      ap (λ m. get m code) (codes-mark_revoked r d (get r.devices d)) ∙ h
  gone-after r code (expire now) u h = get-keep_if-none _ r.codes code h

  gone-run :
      (r : DeviceRegistry C) (code : String) (ops : List (Op C))
      → All (Unissued code) ops
      → get r.codes code ≡ none
      → get (run C r ops).codes code ≡ none
  gone-run r code [] u h = h
  gone-run r code (op ∷ ops) u h = gone-run (after C r op) code ops u.1 (gone-after r code op u.0 h)

  unknown :
      (r : DeviceRegistry C) (p : Option Pending) (public : List ℕ) (label : String) (now : ℕ)
      (now_ms : ℤ)
      → p ≡ none
      → (enroll_pending C r p public label now now_ms).1 ≡ refused unknown_code
  unknown r p public label now now_ms e =
      ap (λ q. (enroll_pending C r q public label now now_ms).1) e

  -- However the first try with a code ends, and whatever calls follow that do not issue the code anew,
  -- a second try with it is refused as unknown.
  pub single_use :
      (r : DeviceRegistry C) (code : String) (public public' : List ℕ) (label label' : String)
      (now now' : ℕ) (now_ms now_ms' : ℤ) (ops : List (Op C))
      → All (Unissued code) ops
      → (enroll C
          (run C (enroll C r code public label now now_ms).0 ops)
          code
          public'
          label'
          now'
          now_ms').1
        ≡ refused unknown_code
  unfolding enroll
  single_use r code public public' label label' now now' now_ms now_ms' ops u =
      let tried = (enroll C r code public label now now_ms).0 in
      unknown _ (get (run C tried ops).codes code) public' label' now' now_ms' (
        gone-run tried code ops u (
          ap (λ m. get m code) (codes-enroll r code public label now now_ms)
          ∙ get-remove_self r.codes code))
