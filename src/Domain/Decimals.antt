-- ===== src/Domain/Decimals.antt =====
-- `rust_decimal::Decimal` is a third-party type, and a parameter of the model. A value stands for
-- its number, so 1.0 and 1.00 are one value, as they are under `PartialEq`.
use Prim.Native.Nat.{Ordering, compare}
use mooncat.Prelude.{ℕ, ◌≡◌, Bool, true, false, arith, sym, ◌↔◌, ◌+◌, ◌-◌, ◌*◌, ◌/◌, ◌%◌}

-- A strict total order, as `Ord::cmp` documents it.
pub record IsOrder {A : Type 0} (cmp : A → A → Ordering) : Type 0 where
  pub cmp_self : (a : A) → cmp a a ≡ Ordering.eq
  pub cmp_eq : (a b : A) → cmp a b ≡ Ordering.eq → a ≡ b
  pub lt_flip : (a b : A) → cmp a b ≡ Ordering.lt → cmp b a ≡ Ordering.gt
  pub gt_flip : (a b : A) → cmp a b ≡ Ordering.gt → cmp b a ≡ Ordering.lt
  pub lt_trans : (a b c : A) → cmp a b ≡ Ordering.lt → cmp b c ≡ Ordering.lt → cmp a c ≡ Ordering.lt

-- What the modelled code calls on decimals.
pub record Decimals : Type 1 where
  pub Decimal : Type 0
  pub cmp : Decimal → Decimal → Ordering
  pub cmp-IsOrder : IsOrder cmp
  pub zero_dec : Decimal
  pub is_zero : Decimal → Bool
  pub is_zero_iff : (a : Decimal) → (is_zero a ≡ true) ↔ (a ≡ zero_dec)
  pub add : Decimal → Decimal → Decimal
  pub sub : Decimal → Decimal → Decimal
  pub mul : Decimal → Decimal → Decimal
  pub div : Decimal → Decimal → Decimal
  pub rem : Decimal → Decimal → Decimal
  pub trunc : Decimal → Decimal

-- The order that a flipped comparison makes.
pub flip-IsOrder : {A : Type 0} (cmp : A → A → Ordering) → IsOrder cmp → IsOrder (λ a b. cmp b a)
flip-IsOrder cmp o = record {
  cmp_self = o.cmp_self;
  cmp_eq = λ a b h. sym (o.cmp_eq b a h);
  lt_flip = λ a b h. o.lt_flip b a h;
  gt_flip = λ a b h. o.gt_flip b a h;
  lt_trans = λ a b c h k. o.lt_trans c b a k h;
}

-- The numbers meet what is asked of decimals: fixed-point values of one sign.
pub nat-IsOrder : IsOrder compare
nat-IsOrder = record {
  cmp_self = λ a. ground arith;
  cmp_eq = λ a b h. ground arith;
  lt_flip = λ a b h. ground arith;
  gt_flip = λ a b h. ground arith;
  lt_trans = λ a b c h k. ground arith;
}

abbrev nat_is_zero : ℕ → Bool
nat_is_zero a = elim (compare a 0) [ Ordering.eq ↦ true | _ ↦ false ]

pub nat_is_zero_iff : (a : ℕ) → (nat_is_zero a ≡ true) ↔ (a ≡ 0)
nat_is_zero_iff a = ground arith

abbrev pub nat_decimals : Decimals
nat_decimals = record {
  Decimal = ℕ;
  cmp = compare;
  cmp-IsOrder = nat-IsOrder;
  zero_dec = 0;
  is_zero = nat_is_zero;
  is_zero_iff = nat_is_zero_iff;
  add = ◌+◌;
  sub = ◌-◌;
  mul = ◌*◌;
  div = ◌/◌;
  rem = ◌%◌;
  trunc = λ a. a;
}
