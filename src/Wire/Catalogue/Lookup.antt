-- ===== src/Wire/Catalogue/Lookup.antt =====
-- `Catalogue::get` and `Catalogue::is_tradable` of crates/wire/src/catalogue.rs: the binary search by
-- name finds what a look at every name finds.
use Prim.Native.Nat.{Ordering}
use Prim.Native.String.{compare}
use mooncat.Prelude.{
  ◌≡◌, ◌≢◌, refl, sym, ap, ◌∙◌, subst, false, List, [], ◌∷◌, Option, none, some, inl, inr, String,
  if◌then◌else◌, All, All-weaken, Bool-cases,
}
use mooncat.Prelude.Assoc.{string_eq}
use mooncat.Domain.Decimals.{Decimals}
use mooncat.Domain.Names.{text-IsOrder}
use mooncat.Domain.Book.{Found, present, absent, binary_search_by}
use mooncat.Domain.Book.Search.{scan, scan_head, next_place, binary_search_by-scan}
use mooncat.Domain.Book.Parted.{Parted, Parted-Ascends}
use mooncat.Domain.Instrument.{Instrument}
use mooncat.Wire.Catalogue.{name, at_place, market_eq, Catalogue}
use mooncat.Wire.Catalogue.Names.{IsNamed}

module _ (D : Decimals) (s : String) where
  -- The specification: the first of a name.
  abbrev pub find : List (Instrument D) → Option (Instrument D)
  find [] = none
  find (i ∷ is) = if string_eq.beq (name D i) s then some i else find is

  abbrev side : Instrument D → Ordering
  side i = compare (name D i) s

  past :
      (x y : Instrument D)
      → side x ≢ Ordering.lt
      → compare (name D x) (name D y) ≡ Ordering.lt
      → side y ≡ Ordering.gt
  past x y n h = by (side x) refl
    where
      by : (o : Ordering) → side x ≡ o → side y ≡ Ordering.gt
      by Ordering.lt e = absurd (n e)
      by Ordering.eq e =
          text-IsOrder.lt_flip s (name D y)
            (subst (λ t. compare t (name D y) ≡ Ordering.lt) (text-IsOrder.cmp_eq (name D x) s e) h)
      by Ordering.gt e =
          text-IsOrder.lt_flip s (name D y)
            (text-IsOrder.lt_trans s (name D x) (name D y) (text-IsOrder.gt_flip (name D x) s e) h)

  IsNamed-Parted : (xs : List (Instrument D)) → IsNamed D xs → Parted side xs
  IsNamed-Parted [] h = tt
  IsNamed-Parted (x ∷ xs) h = (
    λ n.
        All-weaken (λ y. side y ≡ Ordering.gt) (λ y. compare (name D x) (name D y) ≡ Ordering.lt)
          (λ y k. past x y n k) xs h.0,
    IsNamed-Parted xs h.1,
  )

  other_name : (i : Instrument D) → side i ≢ Ordering.eq → string_eq.beq (name D i) s ≡ false
  other_name i n = elim (Bool-cases (string_eq.beq (name D i) s)) [
    | inl e ↦
        absurd (
          n (
            ap (λ t. compare t s) ((string_eq.beq_iff (name D i) s).0 e) ∙ text-IsOrder.cmp_self s))
    | inr e ↦ e
  ]

  find-past : (xs : List (Instrument D)) → All (λ y. side y ≡ Ordering.gt) xs → find xs ≡ none
  find-past [] h = refl
  find-past (x ∷ xs) h = rw (other_name x (λ e. absurd (cc))) (find-past xs h.1)

  at_place-next_place :
      (x : Instrument D) (xs : List (Instrument D)) (r : Found)
      → at_place D (x ∷ xs) (next_place r) ≡ at_place D xs r
  at_place-next_place x xs (present p) = refl
  at_place-next_place x xs (absent p) = refl

  at_place-scan :
      (xs : List (Instrument D)) → Parted side xs → at_place D xs (scan side xs) ≡ find xs
  unfolding scan
  at_place-scan [] h = refl
  at_place-scan (x ∷ xs) h = by (side x) refl (at_place-scan xs h.1)
    where
      by :
          (o : Ordering)
          → side x ≡ o
          → at_place D xs (scan side xs) ≡ find xs
          → at_place D (x ∷ xs) (scan_head o (scan side xs)) ≡ find (x ∷ xs)
      by Ordering.lt e ih =
          at_place-next_place x xs (scan side xs)
          ∙ ih
          ∙ sym (rw (other_name x (λ k. absurd (cc))) refl)
      by Ordering.eq e ih =
          sym (rw ((string_eq.beq_iff (name D x) s).1 (text-IsOrder.cmp_eq (name D x) s e)) refl)
      by Ordering.gt e ih =
          sym (rw (other_name x (λ k. absurd (cc))) (find-past xs (h.0 (λ k. absurd (cc)))))

  pub at_place-binary_search_by :
      (xs : List (Instrument D)) → IsNamed D xs → at_place D xs (binary_search_by side xs) ≡ find xs
  at_place-binary_search_by xs h =
      ap (at_place D xs)
        (binary_search_by-scan side xs (Parted-Ascends side xs (IsNamed-Parted xs h)))
      ∙ at_place-scan xs (IsNamed-Parted xs h)
