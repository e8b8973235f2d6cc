-- ===== src/Exchange/Caps/Granted.antt =====
-- Caps of crates/exchange/src/caps.rs as a set: a flag is in it exactly if the last `union` or `without`
-- that named it was a `union`.
use Prim.Native.Nat.{bit_and}
use mooncat.Prelude.{
  ℕ, zero, suc, ◌-◌, ◌^◌, ◌≤◌, ◌<◌, ◌≡◌, ◌↔◌, refl, sym, ap, ◌∙◌, Bool, true, false, List, [], ◌∷◌,
  none, some, inl, inr, String, arith, if◌then◌else◌, ◌==◌, ==_iff, All, Bool-cases,
}
use mooncat.Prelude.Digits.{
  digit_zero, digit, digit_le, digit-bit_and, digit-bit_or, digit-complement, digit-power,
  digit-power_self, digits-injective,
}
use mooncat.Domain.Ids.{MarketKind}
use mooncat.Exchange.Error.{unsupported}
use mooncat.Exchange.Caps.{Caps, flag, no_caps, contains, union, without, require}

-- A mask contains another exactly if it has all of its flags.
pub contains_iff :
    (c other : Caps) → (contains c other ≡ true) ↔ ((i : ℕ) → digit i other.mask ≤ digit i c.mask)
unfolding contains
contains_iff c other = (
  λ h i.
      let same : bit_and c.mask other.mask ≡ other.mask = (==_iff _ _).0 h in
      omega (arith, digit-bit_and i c.mask other.mask, ap (digit i) same),
  λ h. (==_iff _ _).1 (
      digits-injective (bit_and c.mask other.mask) other.mask
        (λ i. omega (arith, digit-bit_and i c.mask other.mask, h i))),
)

-- What a connector does with a mask.
pub data Change : Type 0 where
  grant revoke : ℕ → Change

abbrev pub place : Change → ℕ
place (grant j) = j
place (revoke j) = j

abbrev pub changed : Caps → Change → Caps
changed c (grant j) = union c (flag j)
changed c (revoke j) = without c (flag j)

abbrev pub changed_all : Caps → List Change → Caps
changed_all c [] = c
changed_all c (h ∷ hs) = changed_all (changed c h) hs

-- The specification: whether a flag is in a set that was changed.
abbrev noted : ℕ → Bool → Change → Bool
noted i b (grant j) = if i == j then true else b
noted i b (revoke j) = if i == j then false else b

abbrev pub granted : ℕ → Bool → List Change → Bool
granted i b [] = b
granted i b (h ∷ hs) = granted i (noted i b h) hs

abbrev held : ℕ → Caps → Bool
held i c = digit i c.mask == 1

power_digit : (i j : ℕ) → digit i (2 ^ j) ≡ (if i == j then 1 else 0)
power_digit i j = elim (Bool-cases (i == j)) [
  | inl e ↦ rw e (ap (λ k. digit i (2 ^ k)) (sym ((==_iff i j).0 e)) ∙ digit-power_self i)
  | inr e ↦ rw e (digit-power i j (λ h. absurd (ground (arith, h, e))))
]

pow_pos : (k : ℕ) → 1 ≤ 2 ^ k
pow_pos zero = omega arith
pow_pos (suc k) = omega (arith, pow_pos k)

power_lt : (j k : ℕ) → j < k → 2 ^ j < 2 ^ k
power_lt j zero h = absurd (omega (arith, h))
power_lt zero (suc k) h = omega (arith, pow_pos k)
power_lt (suc j) (suc k) h = omega (arith, power_lt j k (omega (arith, h)))

contains_of_held : (i : ℕ) (c : Caps) → held i c ≡ true → contains c (flag i) ≡ true
contains_of_held i c h = (contains_iff c (flag i)).1 (λ k. ground (arith, power_digit k i))

held_of_contains : (i : ℕ) (c : Caps) → contains c (flag i) ≡ true → held i c ≡ true
held_of_contains i c h =
    (==_iff _ _).1
      (omega (arith, (contains_iff c (flag i)).0 h i, digit-power_self i, digit_le i c.mask))

contains-held : (i : ℕ) (c : Caps) → contains c (flag i) ≡ held i c
contains-held i c = elim (Bool-cases (held i c)) [
  | inl h ↦ rw h (contains_of_held i c h)
  | inr h ↦ elim (Bool-cases (contains c (flag i))) [
    | inl e ↦ absurd (let f : held i c ≡ true = held_of_contains i c e in cc)
    | inr e ↦ rw (e, h) refl
  ]
]

held-changed :
    (i : ℕ) (c : Caps) (h : Change)
    → i < 64
    → place h < 64
    → held i (changed c h) ≡ noted i (held i c) h
unfolding union without
held-changed i c (grant j) l m =
    ground (arith, digit-bit_or i c.mask (2 ^ j), power_digit i j, digit_le i c.mask)
held-changed i c (revoke j) l m = ground (
  arith,
  digit-bit_and i c.mask (2 ^ 64 - 1 - 2 ^ j),
  digit-complement i 64 (2 ^ j) l (power_lt j 64 m),
  power_digit i j,
  digit_le i c.mask,
)

held-changed_all :
    (i : ℕ) (c : Caps) (hs : List Change)
    → i < 64
    → All (λ h. place h < 64) hs
    → held i (changed_all c hs) ≡ granted i (held i c) hs
held-changed_all i c [] l m = refl
held-changed_all i c (h ∷ hs) l m =
    held-changed_all i (changed c h) hs l m.1 ∙ ap (λ b. granted i b hs) (held-changed i c h l m.0)

-- A connector whose flags were put in and taken out of an empty mask in any order serves a call
-- exactly if the last change that named its flag put it in, and refuses it as unsupported if not.
pub require-changed_all :
    (i : ℕ) (hs : List Change) (what : String) (market : MarketKind)
    → i < 64
    → All (λ h. place h < 64) hs
    → require (changed_all no_caps hs) (flag i) what market
      ≡ (if granted i false hs then none else some (unsupported what market))
unfolding require
require-changed_all i hs what market l m =
    ap (λ b. if b then none else some (unsupported what market))
      (contains-held i (changed_all no_caps hs)
        ∙ held-changed_all i no_caps hs l m
        ∙ ap (λ b. granted i b hs) (none_held i))
  where
    none_held : (i : ℕ) → held i no_caps ≡ false
    none_held i = rw (digit_zero i) refl
