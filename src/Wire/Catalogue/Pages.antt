-- ===== src/Wire/Catalogue/Pages.antt =====
-- `Catalogue::page` of crates/wire/src/catalogue.rs: the binary search for the cursor finds what a look
-- at every name finds.
use Prim.Native.Nat.{Ordering}
use Prim.Native.String.{compare}
use mooncat.Prelude.{
  ℕ, zero, suc, ◌+◌, ◌-◌, ◌≡◌, ◌≢◌, refl, sym, ap, ◌∙◌, false, not, List, [], ◌∷◌, Option, none,
  some, inl, inr, String, arith, if◌then◌else◌, All, All-weaken, Bool-cases, length, take, drop,
  keep_if, min, length-drop, ltb,
}
use mooncat.Prelude.Text.{text_leb}
use mooncat.Domain.Decimals.{Decimals}
use mooncat.Domain.Book.{Found, present, absent}
use mooncat.Domain.Book.Search.{scan, next_place, binary_search_by-scan}
use mooncat.Domain.Book.Parted.{Parted, Parted-Ascends}
use mooncat.Domain.Names.{text-IsOrder}
use mooncat.Domain.Instrument.{Instrument}
use mooncat.Wire.Catalogue.{name, place, partition_point, start_of, cut, last_name}
use mooncat.Wire.Catalogue.Names.{IsNamed, leb_total}

pub not_leb : (s t : String) → compare s t ≡ Ordering.lt → text_leb t s ≡ false
not_leb s t h = rw (text-IsOrder.lt_flip s t h) refl

module _ (D : Decimals) where
  -- The specification: what is listed after a cursor.
  abbrev pub later : Option String → List (Instrument D) → List (Instrument D)
  later none all = all
  later (some after) all = keep_if (λ i. not (text_leb (name D i) after)) all

  module _ (after : String) where
    abbrev side : Instrument D → Ordering
    side i = if text_leb (name D i) after then Ordering.lt else Ordering.gt

    -- What follows a name past the cursor is past it too.
    past :
        (x : Instrument D) (y : Instrument D)
        → side x ≢ Ordering.lt
        → compare (name D x) (name D y) ≡ Ordering.lt
        → text_leb (name D y) after ≡ false
    past x y n h = elim (Bool-cases (text_leb (name D x) after)) [
      | inl e ↦ absurd (n (ap (λ b. if b then Ordering.lt else Ordering.gt) e))
      | inr e ↦
          not_leb after (name D y)
            (text-IsOrder.lt_trans after (name D x) (name D y) (leb_total (name D x) after e) h)
    ]

    IsNamed-Parted : (xs : List (Instrument D)) → IsNamed D xs → Parted side xs
    IsNamed-Parted [] h = tt
    IsNamed-Parted (x ∷ xs) h = (
      λ n.
          All-weaken (λ y. side y ≡ Ordering.gt) (λ y. compare (name D x) (name D y) ≡ Ordering.lt)
            (λ y k. ap (λ b. if b then Ordering.lt else Ordering.gt) (past x y n k)) xs h.0,
      IsNamed-Parted xs h.1,
    )

    all_past :
        (xs : List (Instrument D))
        → All (λ y. text_leb (name D y) after ≡ false) xs
        → keep_if (λ i. not (text_leb (name D i) after)) xs ≡ xs
    all_past [] h = refl
    all_past (x ∷ xs) h = rw h.0 (ap (λ ys. x ∷ ys) (all_past xs h.1))

    drop-next_place :
        (x : Instrument D) (xs : List (Instrument D)) (r : Found)
        → drop (place (next_place r)) (x ∷ xs) ≡ drop (place r) xs
    drop-next_place x xs (present p) = refl
    drop-next_place x xs (absent p) = refl

    drop-scan :
        (xs : List (Instrument D))
        → IsNamed D xs
        → drop (place (scan side xs)) xs ≡ later (some after) xs
    unfolding scan
    drop-scan [] h = refl
    drop-scan (x ∷ xs) h = elim (Bool-cases (text_leb (name D x) after)) [
      | inl e ↦ rw e (drop-next_place x xs (scan side xs) ∙ drop-scan xs h.1)
      | inr e ↦ rw e (
          ap (λ ys. x ∷ ys)
            (sym (
              all_past xs (
                All-weaken (λ y. text_leb (name D y) after ≡ false)
                  (λ y. compare (name D x) (name D y) ≡ Ordering.lt) (λ y k. past x y (gt_here e) k)
                  xs h.0))))
    ]
      where
        gt_here : text_leb (name D x) after ≡ false → side x ≢ Ordering.lt
        gt_here e k =
            let gt : side x ≡ Ordering.gt = ap (λ b. if b then Ordering.lt else Ordering.gt) e in
            absurd (cc)

    drop-partition_point :
        (xs : List (Instrument D))
        → IsNamed D xs
        → drop (partition_point (λ i. text_leb (name D i) after) xs) xs ≡ later (some after) xs
    unfolding partition_point
    drop-partition_point xs h =
        ap (λ r. drop (place r) xs)
          (binary_search_by-scan side xs (Parted-Ascends side xs (IsNamed-Parted xs h)))
        ∙ drop-scan xs h

  pub drop-start_of :
      (all : List (Instrument D)) (cursor : Option String)
      → IsNamed D all
      → drop (start_of D all cursor) all ≡ later cursor all
  unfolding start_of
  drop-start_of all none h = refl
  drop-start_of all (some after) h = drop-partition_point after all h

  take-min-length : (k : ℕ) (xs : List (Instrument D)) → take (min k (length xs)) xs ≡ take k xs
  take-min-length zero xs = ap (λ j. take j xs) (none_asked (length xs))
    where
      none_asked : (n : ℕ) → min 0 n ≡ 0
      none_asked n = omega arith
  take-min-length (suc k) [] = ap (λ j. take {A = Instrument D} j []) (none_left k)
    where
      none_left : (k : ℕ) → min (suc k) 0 ≡ 0
      none_left k = omega arith
  take-min-length (suc k) (x ∷ xs) =
      ap (λ j. take j (x ∷ xs)) (both k (length xs)) ∙ ap (λ ys. x ∷ ys) (take-min-length k xs)
    where
      both : (k n : ℕ) → min (suc k) (suc n) ≡ suc (min k n)
      both k n = omega arith

  cut_lem :
      (size : ℕ) (all : List (Instrument D)) (start : ℕ)
      → cut D size all start ≡ (
        take size (drop start all),
        if ltb size (length (drop start all))
            then last_name D (take size (drop start all))
            else none,
      )
  unfolding cut
  cut_lem size all start =
      let rest = drop start all in
      let end = min (start + size) (length all) in
      let wide : end - start ≡ min size (length rest) = omega (arith, length-drop start all) in
      let more : ltb end (length all) ≡ ltb size (length rest) =
        ground (arith, length-drop start all) in
      ap (λ xs. (xs, if ltb end (length all) then last_name D xs else none))
        (ap (λ k. take k rest) wide ∙ take-min-length size rest)
      ∙ ap (λ b. (take size rest, if b then last_name D (take size rest) else none)) more

  -- A page of a list has the first items that are named after the cursor, and names the last of them
  -- exactly if more follow.
  pub cut-start_of :
      (size : ℕ) (all : List (Instrument D)) (cursor : Option String)
      → IsNamed D all
      → cut D size all (start_of D all cursor) ≡ (
        take size (later cursor all),
        if ltb size (length (later cursor all))
            then last_name D (take size (later cursor all))
            else none,
      )
  cut-start_of size all cursor h =
      cut_lem size all (start_of D all cursor)
      ∙ ap
          (λ (xs : List (Instrument D)).
            (take size xs, if ltb size (length xs) then last_name D (take size xs) else none))
          (drop-start_of all cursor h)
