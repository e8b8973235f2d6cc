-- ===== src/Wire/Catalogue/Names.antt =====
-- `Catalogue::replace` of crates/wire/src/catalogue.rs keeps a market's list strictly ascending by name.
use Prim.Native.Nat.{Ordering}
use Prim.Native.String.{compare}
use mooncat.Prelude.{
  ◌≡◌, ◌≢◌, refl, sym, true, false, List, [], ◌∷◌, inl, inr, String, All, All-weaken, Bool-cases,
  subst,
}
use mooncat.Prelude.Assoc.{string_eq}
use mooncat.Prelude.Text.{text_leb}
use mooncat.Domain.Decimals.{Decimals}
use mooncat.Domain.Names.{text-IsOrder}
use mooncat.Domain.Instrument.{Instrument}
use mooncat.Wire.Catalogue.{name, insert_name, sort_names, dedup_run, dedup_names}

-- The order, in the form that the sort tests.
abbrev pub LeText : String → String → Type 0
LeText s t = text_leb s t ≡ true

leb_of : (s t : String) → compare s t ≢ Ordering.gt → LeText s t
leb_of s t h = by (compare s t) refl
  where
    by : (o : Ordering) → compare s t ≡ o → LeText s t
    by Ordering.lt e = rw e refl
    by Ordering.eq e = rw e refl
    by Ordering.gt e = absurd (h e)

not_gt_of : (s t : String) → LeText s t → compare s t ≢ Ordering.gt
not_gt_of s t h e = absurd (cc)

-- A total order on texts.
pub leb_total : (s t : String) → text_leb s t ≡ false → compare t s ≡ Ordering.lt
leb_total s t h = by (compare s t) refl
  where
    by : (o : Ordering) → compare s t ≡ o → compare t s ≡ Ordering.lt
    by Ordering.lt e = absurd (cc)
    by Ordering.eq e = absurd (cc)
    by Ordering.gt e = text-IsOrder.gt_flip s t e

pub lt-leb : (s t : String) → compare s t ≡ Ordering.lt → LeText s t
lt-leb s t h = leb_of s t (λ e. absurd (cc))

-- Strictly below what is not below: strictly below.
pub leb-lt : (s t u : String) → LeText s t → compare t u ≡ Ordering.lt → compare s u ≡ Ordering.lt
leb-lt s t u h k = by (compare s t) refl
  where
    by : (o : Ordering) → compare s t ≡ o → compare s u ≡ Ordering.lt
    by Ordering.lt e = text-IsOrder.lt_trans s t u e k
    by Ordering.eq e = subst (λ x. compare x u ≡ Ordering.lt) (sym (text-IsOrder.cmp_eq s t e)) k
    by Ordering.gt e = absurd (not_gt_of s t h e)

leb_trans : (s t u : String) → LeText s t → LeText t u → LeText s u
leb_trans s t u h k = by (compare t u) refl
  where
    by : (o : Ordering) → compare t u ≡ o → LeText s u
    by Ordering.lt e = lt-leb s u (leb-lt s t u h e)
    by Ordering.eq e = subst (LeText s) (text-IsOrder.cmp_eq t u e) h
    by Ordering.gt e = absurd (not_gt_of t u k e)

lt_leb : (s t u : String) → compare s t ≡ Ordering.lt → LeText t u → compare s u ≡ Ordering.lt
lt_leb s t u h k = by (compare t u) refl
  where
    by : (o : Ordering) → compare t u ≡ o → compare s u ≡ Ordering.lt
    by Ordering.lt e = text-IsOrder.lt_trans s t u h e
    by Ordering.eq e = subst (λ x. compare s x ≡ Ordering.lt) (text-IsOrder.cmp_eq t u e) h
    by Ordering.gt e = absurd (not_gt_of t u k e)

leb_ne : (s t : String) → LeText s t → string_eq.beq s t ≡ false → compare s t ≡ Ordering.lt
leb_ne s t h n = by (compare s t) refl
  where
    by : (o : Ordering) → compare s t ≡ o → compare s t ≡ Ordering.lt
    by Ordering.lt e = e
    by Ordering.eq e =
        let same : string_eq.beq s t ≡ true =
          (string_eq.beq_iff s t).1 (text-IsOrder.cmp_eq s t e) in
        absurd (cc)
    by Ordering.gt e = absurd (not_gt_of s t h e)

module _ (D : Decimals) where
  abbrev Weak : List (Instrument D) → Type 0
  Weak [] = Unit
  Weak (x ∷ xs) = All (λ y. LeText (name D x) (name D y)) xs × Weak xs

  -- Ascending by name, each name once.
  abbrev pub IsNamed : List (Instrument D) → Type 0
  IsNamed [] = Unit
  IsNamed (x ∷ xs) = All (λ y. compare (name D x) (name D y) ≡ Ordering.lt) xs × IsNamed xs

  All-insert_name :
      (P : Instrument D → Type 0) (x : Instrument D) (xs : List (Instrument D))
      → P x
      → All P xs
      → All P (insert_name D x xs)
  unfolding insert_name
  All-insert_name P x [] h hs = (h, hs)
  All-insert_name P x (y ∷ ys) h hs = elim (Bool-cases (text_leb (name D x) (name D y))) [
    | inl e ↦ rw e (h, hs)
    | inr e ↦ rw e (hs.0, All-insert_name P x ys h hs.1)
  ]

  Weak-insert_name :
      (x : Instrument D) (xs : List (Instrument D)) → Weak xs → Weak (insert_name D x xs)
  unfolding insert_name
  Weak-insert_name x [] h = (tt, tt)
  Weak-insert_name x (y ∷ ys) h = elim (Bool-cases (text_leb (name D x) (name D y))) [
    | inl e ↦ rw e (
      (
        e,
        All-weaken (λ z. LeText (name D x) (name D z)) (λ z. LeText (name D y) (name D z))
            (λ z k. leb_trans (name D x) (name D y) (name D z) e k) ys h.0,
      ),
      h,
    )
    | inr e ↦ rw e (
      All-insert_name (λ z. LeText (name D y) (name D z)) x ys
          (lt-leb (name D y) (name D x) (leb_total (name D x) (name D y) e)) h.0,
      Weak-insert_name x ys h.1,
    )
  ]

  Weak-sort_names : (xs : List (Instrument D)) → Weak (sort_names D xs)
  unfolding sort_names
  Weak-sort_names [] = tt
  Weak-sort_names (x ∷ xs) = Weak-insert_name x (sort_names D xs) (Weak-sort_names xs)

  -- What is below a list and its first element is below what is left without repeats.
  All-dedup_run :
      (P : Instrument D → Type 0) (x : Instrument D) (xs : List (Instrument D))
      → P x
      → All P xs
      → All P (dedup_run D x xs)
  unfolding dedup_run
  All-dedup_run P x [] h hs = (h, tt)
  All-dedup_run P x (y ∷ ys) h hs = elim (Bool-cases (string_eq.beq (name D x) (name D y))) [
    | inl e ↦ rw e (All-dedup_run P x ys h hs.1)
    | inr e ↦ rw e (h, All-dedup_run P y ys hs.0 hs.1)
  ]

  IsNamed-dedup_run :
      (x : Instrument D) (xs : List (Instrument D)) → Weak (x ∷ xs) → IsNamed (dedup_run D x xs)
  unfolding dedup_run
  IsNamed-dedup_run x [] h = (tt, tt)
  IsNamed-dedup_run x (y ∷ ys) h = elim (Bool-cases (string_eq.beq (name D x) (name D y))) [
    | inl e ↦ rw e (IsNamed-dedup_run x ys (h.0.1, h.1.1))
    | inr e ↦
        let lower : compare (name D x) (name D y) ≡ Ordering.lt =
          leb_ne (name D x) (name D y) h.0.0 e in
        rw e (
          All-dedup_run (λ z. compare (name D x) (name D z) ≡ Ordering.lt) y ys lower
              (All-weaken (λ z. compare (name D x) (name D z) ≡ Ordering.lt)
                (λ z. LeText (name D y) (name D z))
                (λ z k. lt_leb (name D x) (name D y) (name D z) lower k) ys h.1.0),
          IsNamed-dedup_run y ys h.1,
        )
  ]

  pub IsNamed-dedup_names : (xs : List (Instrument D)) → IsNamed (dedup_names D (sort_names D xs))
  IsNamed-dedup_names xs = of_sorted (sort_names D xs) (Weak-sort_names xs)
    where
      of_sorted : (ys : List (Instrument D)) → Weak ys → IsNamed (dedup_names D ys)
      of_sorted [] h = unfold dedup_names in tt
      of_sorted (y ∷ ys) h = unfold dedup_names in IsNamed-dedup_run y ys h
