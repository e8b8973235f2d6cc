-- ===== src/Prelude/Assoc.antt =====
-- `HashMap` as an association list that holds a key at most once; keys are compared by an instance.
use Prim.Native.Nat.{ℕ, ◌≤◌, suc}
use Prim.Native.String.{String}
use mathlib.Core.Path.{◌≡◌, refl}
use mathlib.Core.Logic.{◌↔◌, inl, inr, ◌≢◌}
use mathlib.Core.Bool.{Bool, true, false}
use mathlib.Core.Option.{Option, none, some}
use mathlib.Core.List.{List, [], ◌∷◌}
use native.Mathlib.Omega.{arith}
use text.Mathlib.Text.{◌==◌ as str_eq}
use text.Mathlib.TextEquality.{eq_iff}
use mooncat.Prelude.Tests.{if◌then◌else◌, Bool-cases, ◌==◌ as nat_beq, ==_iff}
use mooncat.Prelude.Lists.{length}

pub record Eq {ℓ} (A : Type ℓ) : Type ℓ where
  pub beq : A → A → Bool
  pub beq_iff : (a b : A) → (beq a b ≡ true) ↔ (a ≡ b)

instance abbrev pub nat_eq : Eq ℕ
nat_eq = record { beq = nat_beq; beq_iff = ==_iff }

instance abbrev pub string_eq : Eq String
string_eq = record { beq = str_eq; beq_iff = eq_iff }

module _ {ℓ} {K : Type ℓ} ⦃e : Eq K⦄ where
  pub beq_self : (k : K) → e.beq k k ≡ true
  beq_self k = (e.beq_iff k k).1 refl

  pub beq_ne : (k j : K) → k ≢ j → e.beq k j ≡ false
  beq_ne k j h = elim (Bool-cases (e.beq k j)) [
    | inl t ↦ absurd (h ((e.beq_iff k j).0 t))
    | inr f ↦ f
  ]

  pub beq_comm : (k j : K) → e.beq k j ≡ e.beq j k
  beq_comm k j = ground (arith, e.beq_iff k j, e.beq_iff j k)

module _ {ℓ κ} {K : Type ℓ} {V : Type κ} ⦃e : Eq K⦄ where
  unfoldable pub get : List (K × V) → K → Option V
  get [] k = none
  get ((j, v) ∷ m) k = if e.beq j k then some v else get m k

  -- `insert`: the value is replaced in place, or the key is added.
  unfoldable pub put : List (K × V) → K → V → List (K × V)
  put [] k v = (k, v) ∷ []
  put ((j, w) ∷ m) k v = if e.beq j k then (k, v) ∷ m else (j, w) ∷ put m k v

  unfoldable pub remove : List (K × V) → K → List (K × V)
  remove [] k = []
  remove ((j, w) ∷ m) k = if e.beq j k then remove m k else (j, w) ∷ remove m k

  pub get-put :
      (m : List (K × V)) (k j : K) (v : V)
      → get (put m k v) j ≡ (if e.beq k j then some v else get m j)
  unfolding get put
  get-put [] k j v = refl
  get-put ((i, w) ∷ m) k j v =
      ground (arith, e.beq_iff k j, e.beq_iff i k, e.beq_iff i j, get-put m k j v)

  pub get-remove :
      (m : List (K × V)) (k j : K) → get (remove m k) j ≡ (if e.beq k j then none else get m j)
  unfolding get remove
  get-remove [] k j = ground arith
  get-remove ((i, w) ∷ m) k j =
      ground (arith, e.beq_iff k j, e.beq_iff i k, e.beq_iff i j, get-remove m k j)

  pub get-put_self : (m : List (K × V)) (k : K) (v : V) → get (put m k v) k ≡ some v
  get-put_self m k v = rw (get-put m k k v, beq_self k)

  pub get-remove_self : (m : List (K × V)) (k : K) → get (remove m k) k ≡ none
  get-remove_self m k = rw (get-remove m k k, beq_self k)

  pub length-put : (m : List (K × V)) (k : K) (v : V) → length (put m k v) ≤ suc (length m)
  unfolding put
  length-put [] k v = omega arith
  length-put ((i, w) ∷ m) k v = ground (arith, length-put m k v)
