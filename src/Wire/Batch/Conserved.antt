-- ===== src/Wire/Batch/Conserved.antt =====
-- What goes into the batcher of crates/wire/src/batch.rs comes out of it, once and in order.
use mooncat.Prelude.{
  append-nil, ◌≢◌, ◌↔◌, ◌⊎◌, ℕ, ◌+◌, ◌<◌, ◌≡◌, refl, sym, ap, ◌∙◌, true, false, List, [], ◌∷◌, ◌++◌,
  Option, none, some, arith, leb, if◌then◌else◌, length, length-append, Bool-cases, inl, inr,
}
use mooncat.Wire.Channel.{Channel, class}
use mooncat.Wire.Batch.{
  Batch, Batcher, FlushReason, deadline, requested, take, taken, add, reached, close_on,
  push_encoded, flush, flush_due, joined, is_empty, batch_of, batch_flush_bytes, batch_max_items,
  never_batch_above_class, is_due, deadline_of,
}

-- What happens to a batcher: a message that may wait arrives encoded, the deadline fires, or the
-- connection is closing.
pub data Op : Type 0 where
  offer : Channel → List ℕ → ℕ → Op
  due : ℕ → Op
  close : Op

abbrev pub act : Batcher → Op → Batcher × Option Batch
act b (offer c encoded now) = push_encoded b c encoded now
act b (due now) = flush_due b now
act b close = flush b

abbrev pub MayWait : Op → Type 0
MayWait (offer c encoded now) = never_batch_above_class < class c
MayWait (due now) = Unit
MayWait close = Unit

-- The messages that an operation brings.
abbrev pub brought : Op → List (List ℕ)
brought (offer c encoded now) = encoded ∷ []
brought (due now) = []
brought close = []

-- The batch that a list of messages makes for a reason, or none from no messages.
abbrev pub Carries : Option Batch → List (List ℕ) → Type 0
Carries none ps = ps ≡ []
Carries (some b) ps = (ps ≢ []) × (b ≡ batch_of ps b.reason)

-- The size is that of the held bytes, the bounds are not reached, and the deadline runs exactly while
-- something is held.
pub record Inv (b : Batcher) : Type 0 where
  pub measured : b.size ≡ length (joined b.parts)
  pub few : length b.parts < batch_max_items
  pub short : b.size < batch_flush_bytes
  pub opened : (b.opened_at ≡ none) ↔ (b.parts ≡ [])

length-joined :
    (ps : List (List ℕ)) (p : List ℕ)
    → length (joined (ps ++ p ∷ [])) ≡ length (joined ps) + length p
length-joined [] p = omega (arith, length-append p [])
length-joined (q ∷ ps) p = omega (
  arith,
  length-append q (joined (ps ++ p ∷ [])),
  length-append q (joined ps),
  length-joined ps p,
)

take-Inv : (b : Batcher) (reason : FlushReason) → Inv (take b reason).0
unfolding take
take-Inv b reason = record {
  measured = refl;
  few = omega arith;
  short = omega arith;
  opened = (λ h. refl, λ h. refl);
}

added : (ps : List (List ℕ)) (p : List ℕ) → ps ++ p ∷ [] ≢ []
added [] p h = absurd (ground (arith, h))
added (q ∷ ps) p h = absurd (ground (arith, h))

-- The held messages and the new ones are the sent batch and what is held after it.
abbrev pub Conserves : Batcher → Op → Batcher × Option Batch → Type 0
Conserves b op (b', out) =
    (sent : List (List ℕ)) × (b.parts ++ brought op ≡ sent ++ b'.parts) × Carries out sent

empty_cases :
    (ps : List (List ℕ)) → ((is_empty ps ≡ true) × (ps ≡ [])) ⊎ ((is_empty ps ≡ false) × (ps ≢ []))
empty_cases [] = inl (refl, refl)
empty_cases (p ∷ ps) = inr (refl, λ h. absurd (ground (arith, h)))

reason-batch_of : (ps : List (List ℕ)) (r : FlushReason) → (batch_of ps r).reason ≡ r
unfolding batch_of
reason-batch_of [] r = refl
reason-batch_of (p ∷ []) r = refl
reason-batch_of (p ∷ q ∷ ps) r = refl

taken-Carries :
    (b : Batcher) (reason : FlushReason) → b.parts ≢ [] → Carries (taken b reason).1 b.parts
unfolding take
taken-Carries b reason n = (n, ap (batch_of b.parts) (sym (reason-batch_of b.parts reason)))

taken-Conserves :
    (b c : Batcher) (op : Op) (reason : FlushReason)
    → b.parts ++ brought op ≡ c.parts
    → c.parts ≢ []
    → Conserves b op (taken c reason) × Inv (taken c reason).0
taken-Conserves b c op reason e n = (
  (c.parts, e ∙ (unfold take in sym (append-nil c.parts)), taken-Carries c reason n),
  take-Inv c reason,
)

idle-Conserves :
    (b : Batcher) (op : Op) → brought op ≡ [] → Inv b → Conserves b op (b, none) × Inv b
idle-Conserves b op e i = (([], ap (λ xs. b.parts ++ xs) e ∙ append-nil b.parts, refl), i)

reached-none :
    (b : Batcher) (now : ℕ)
    → reached b now ≡ none
    → (length b.parts < batch_max_items) × (b.size < batch_flush_bytes)
unfolding reached
reached-none b now e = ground (arith, e)

add-opened :
    (b : Batcher) (encoded : List ℕ) (now : ℕ) → Inv b → (add b encoded now).opened_at ≢ none
unfolding add
add-opened b encoded now i e = elim (empty_cases b.parts) [
  | inl (y, z) ↦ absurd (ground (arith, e, y))
  | inr (y, z) ↦ z (i.opened.0 (sym (ap (λ t. if t then some now else b.opened_at) y) ∙ e))
]

add-Inv :
    (b : Batcher) (encoded : List ℕ) (now : ℕ)
    → Inv b
    → reached (add b encoded now) now ≡ none
    → Inv (add b encoded now)
add-Inv b encoded now i e = record {
  measured = unfold add in omega (arith, i.measured, length-joined b.parts encoded);
  few = (reached-none (add b encoded now) now e).0;
  short = (reached-none (add b encoded now) now e).1;
  opened = (
    λ h. absurd (add-opened b encoded now i h),
    λ h. absurd (added b.parts encoded (unfold add in h)),
  );
}

offer-Conserves :
    (b : Batcher) (c : Channel) (encoded : List ℕ) (now : ℕ) (r : Option FlushReason)
    → Inv b
    → reached (add b encoded now) now ≡ r
    → Conserves b (offer c encoded now) (close_on r (add b encoded now))
      × Inv (close_on r (add b encoded now)).0
offer-Conserves b c encoded now none i e =
    (([], (unfold add in refl), refl), add-Inv b encoded now i e)
offer-Conserves b c encoded now (some reason) i e =
    taken-Conserves b (add b encoded now) (offer c encoded now) reason (unfold add in refl)
      (λ h. added b.parts encoded (unfold add in h))

-- A message that may wait, a deadline or a closing connection: the messages held before and the one
-- that arrives are, in this order, those of the batch that goes out and those still held. Nothing is
-- lost, repeated or reordered.
pub act-Conserves :
    (b : Batcher) (op : Op) → MayWait op → Inv b → Conserves b op (act b op) × Inv (act b op).0
unfolding push_encoded flush flush_due
act-Conserves b (offer c encoded now) w i =
    let waits : leb (class c) never_batch_above_class ≡ false = ground (arith, w) in
    rw waits (offer-Conserves b c encoded now _ i refl)
act-Conserves b (due now) w i = elim (empty_cases b.parts) [
  | inl (y, z) ↦ rw y (idle-Conserves b (due now) refl i)
  | inr (y, z) ↦ elim (Bool-cases (is_due (deadline_of b.opened_at) now)) [
    | inl d ↦ rw (y, d) (taken-Conserves b b (due now) deadline (append-nil b.parts) z)
    | inr d ↦ rw (y, d) (idle-Conserves b (due now) refl i)
  ]
]
act-Conserves b close w i = elim (empty_cases b.parts) [
  | inl (y, z) ↦ rw y (idle-Conserves b close refl i)
  | inr (y, z) ↦ rw y (taken-Conserves b b close requested (append-nil b.parts) z)
]

abbrev pub collected : Option Batch → List Batch → List Batch
collected none bs = bs
collected (some b) bs = b ∷ bs

-- A history of operations, with the batches that go out.
abbrev pub run : Batcher → List Op → Batcher × List Batch
run b [] = (b, [])
run b (op ∷ ops) = let (b', out) = act b op in let (b'', bs) = run b' ops in (b'', collected out bs)

-- The messages that a history brings, and the messages of several batches.
abbrev pub arrived : List Op → List (List ℕ)
arrived [] = []
arrived (op ∷ ops) = brought op ++ arrived ops

abbrev pub concat : List (List (List ℕ)) → List (List ℕ)
concat [] = []
concat (s ∷ ss) = s ++ concat ss

abbrev pub CarryAll : List Batch → List (List (List ℕ)) → Type 0
CarryAll [] [] = Unit
CarryAll [] (s ∷ ss) = ⊥
CarryAll (b ∷ bs) [] = ⊥
CarryAll (b ∷ bs) (s ∷ ss) = (s ≢ []) × (b ≡ batch_of s b.reason) × CarryAll bs ss

-- The batches of a history carry the messages `ps`, and leave those that the batcher holds.
abbrev pub Delivers : List (List ℕ) → Batcher × List Batch → Type 0
Delivers ps (b, bs) =
    (sents : List (List (List ℕ))) × (ps ≡ concat sents ++ b.parts) × CarryAll bs sents
