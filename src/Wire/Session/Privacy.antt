-- ===== src/Wire/Session/Privacy.antt =====
-- `Auth::verify` and `Session::handle` of crates/wire/src/session.rs: who gets private data.
use Prim.Native.Nat.{bit_or, bit_xor}
use mooncat.Prelude.{
  ℕ, ◌≡◌, ◌↔◌, ◌⊎◌, inl, inr, refl, sym, ◌∙◌, Bool, true, false, not, ◌||◌, List, [], ◌∷◌, arith,
  ◌==◌, length, if◌then◌else◌,
}
use mooncat.Prelude.Bits.{bit_or-zero, bit_xor-zero, bit_xor_self}
use mooncat.Domain.Decimals.{Decimals}
use mooncat.Domain.Event.{
  Event, is_private, payload_is_private, market, account, connection, Payload,
}
use mooncat.Wire.Message.{ClientMsg, hello, subscribe, unsubscribe, ping, protocol_version}
use mooncat.Wire.Session.{
  Auth, Session, new, differences, verify, may_receive, wants, asked_for, handle,
}

differences-zero :
    (d : ℕ) (xs ys : List ℕ)
    → ◌≡◌ {A = ℕ} (length xs) (length ys)
    → differences d xs ys ≡ 0
    → (d ≡ 0) × (xs ≡ ys)
unfolding differences
differences-zero d [] [] l h = (h, refl)
differences-zero d [] (y ∷ ys) l h = absurd (omega (arith, l))
differences-zero d (x ∷ xs) [] l h = absurd (omega (arith, l))
differences-zero d (x ∷ xs) (y ∷ ys) l h =
    let tail : (bit_or d (bit_xor x y) ≡ 0) × (xs ≡ ys) =
      differences-zero (bit_or d (bit_xor x y)) xs ys (omega (arith, l)) h in
    let both : (d ≡ 0) × (bit_xor x y ≡ 0) = bit_or-zero d (bit_xor x y) tail.0 in
    let same : x ≡ y = bit_xor-zero x y both.1 in (both.0, cc)

differences_self : (xs : List ℕ) → differences 0 xs xs ≡ 0
unfolding differences
differences_self [] = refl
differences_self (x ∷ xs) = rw (bit_xor_self x) (differences_self xs)

-- The comparison that never stops early accepts exactly the token.
pub verify_iff : (a : Auth) (c : List ℕ) → (verify a c ≡ true) ↔ (a.token ≡ c)
unfolding verify
verify_iff a c = (accepts, λ e. rw (← e) (rejects a.token))
  where
    rejects :
        (t : List ℕ) → (if not (length t == length t) then false else differences 0 t t == 0) ≡ true
    rejects t = ground (arith, differences_self t)

    accepts :
        (if not (length a.token == length c) then false else differences 0 a.token c == 0) ≡ true
        → a.token ≡ c
    accepts h = (differences-zero 0 a.token c (ground arith) (ground arith)).1

-- A message that carries this build's protocol version and the very token.
abbrev pub Proves : Auth → ClientMsg → Type 0
Proves a (hello protocol token) = (protocol ≡ protocol_version) × (a.token ≡ token)
Proves a (subscribe subs) = ⊥
Proves a (unsubscribe subs) = ⊥
Proves a (ping nonce) = ⊥

abbrev pub Presented : Auth → List ClientMsg → Type 0
Presented a [] = ⊥
Presented a (m ∷ ms) = Proves a m ⊎ Presented a ms

module _ (D : Decimals) where
  -- A session after some messages.
  unfoldable pub run : Auth → Session → List ClientMsg → Session
  run a s [] = s
  run a s (m ∷ ms) = run a (handle D s m a).0 ms

  -- One message authenticates exactly if it proves the token; nothing takes that back.
  authenticated-handle :
      (a : Auth) (s : Session) (m : ClientMsg)
      → ((handle D s m a).0.authenticated ≡ true) ↔ ((s.authenticated ≡ true) ⊎ Proves a m)
  unfolding handle
  authenticated-handle a s (hello p t) =
      (λ h. ground (arith, (verify_iff a t).0), λ h. ground (arith, (verify_iff a t).1))
  authenticated-handle a s (subscribe subs) = ground arith
  authenticated-handle a s (unsubscribe subs) = ground arith
  authenticated-handle a s (ping nonce) = ground arith

  authenticated-run :
      (a : Auth) (s : Session) (ms : List ClientMsg)
      → ((run a s ms).authenticated ≡ true) ↔ ((s.authenticated ≡ true) ⊎ Presented a ms)
  unfolding run
  authenticated-run a s [] = (λ h. inl h, λ h. elim h [ inl e ↦ e | inr f ↦ absurd f ])
  authenticated-run a s (m ∷ ms) =
      let later = authenticated-run a (handle D s m a).0 ms in
      let now = authenticated-handle a s m in
      (
        λ h. elim (later.0 h) [
          | inl e ↦ elim (now.0 e) [ inl e' ↦ inl e' | inr p ↦ inr (inl p) ]
          | inr q ↦ inr (inr q)
        ],
        λ h. later.1 (elim h [
          | inl e ↦ inl (now.1 (inl e))
          | inr r ↦ elim r [ inl p ↦ inl (now.1 (inr p)) | inr q ↦ inr q ]
        ]),
      )

  wants_private :
      (s : Session) (e : Event D) → is_private D e ≡ true → wants D s e ≡ s.authenticated
  unfolding wants may_receive is_private
  wants_private s e p = of_payload s.authenticated e.payload p
    where
      of_payload :
          (b : Bool) (c : Payload D)
          → payload_is_private D c ≡ true
          → (if not (b || not (payload_is_private D c))
              then false
              else asked_for D s.subscriptions c)
            ≡ b
      of_payload b (market x) h = cc
      of_payload true (account x) h = refl
      of_payload false (account x) h = refl
      of_payload b (connection x) h = cc

  -- Whatever messages a connection has sent, an event that is private is sent to it exactly if one of
  -- the messages was a Hello with this protocol version and the very token.
  pub wants_private_iff :
      (a : Auth) (ms : List ClientMsg) (e : Event D)
      → is_private D e ≡ true
      → (wants D (run a new ms) e ≡ true) ↔ Presented a ms
  wants_private_iff a ms e p =
      let same : wants D (run a new ms) e ≡ (run a new ms).authenticated =
        wants_private (run a new ms) e p in
      let known = authenticated-run a new ms in
      (
        λ h. elim (known.0 (sym same ∙ h)) [ inl f ↦ absurd (cc) | inr q ↦ q ],
        λ q. same ∙ known.1 (inr q),
      )
