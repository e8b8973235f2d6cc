-- ===== src/Wire/Catalogue/Walk.antt =====
-- Reading a market of crates/wire/src/catalogue.rs page by page, each page from the cursor of the one
-- before.
use Prim.Native.Nat.{Ordering}
use Prim.Native.String.{compare}
use mooncat.Prelude.{
  ℕ, zero, suc, ◌+◌, ◌≤◌, ◌<◌, ◌≡◌, refl, sym, ap, ◌∙◌, true, not, List, [], ◌∷◌, ◌++◌,
  append_assoc, Option, none, some, inl, inr, String, arith, if◌then◌else◌, All, Bool-cases, length,
  take, drop, keep_if, ltb, ltb→lt, ltb-false→le, length-append, subst,
}
use mooncat.Prelude.Assoc.{get, get-put_self}
use mooncat.Prelude.Text.{text_leb}
use mooncat.Domain.Decimals.{Decimals}
use mooncat.Domain.Names.{text-IsOrder}
use mooncat.Domain.Instrument.{Instrument}
use mooncat.Wire.Catalogue.{
  name, instruments_page, start_of, last_name, Market, market_eq, Catalogue, Page, page, page_on,
  replace, dedup_names, sort_names,
}
use mooncat.Wire.Catalogue.Names.{IsNamed, lt-leb, IsNamed-dedup_names}
use mooncat.Wire.Catalogue.Pages.{later, cut-start_of, drop-start_of, not_leb}

leb_self : (s : String) → text_leb s s ≡ true
leb_self s = rw (text-IsOrder.cmp_self s) refl

take-drop {ℓ} : {A : Type ℓ} (n : ℕ) (xs : List A) → take n xs ++ drop n xs ≡ xs
take-drop zero xs = refl
take-drop (suc n) [] = refl
take-drop (suc n) (x ∷ xs) = ap (λ ys. x ∷ ys) (take-drop n xs)

take_all {ℓ} : {A : Type ℓ} (n : ℕ) (xs : List A) → length xs ≤ n → take n xs ≡ xs
take_all zero [] h = refl
take_all zero (x ∷ xs) h = absurd (omega (arith, h))
take_all (suc n) [] h = refl
take_all (suc n) (x ∷ xs) h = ap (λ ys. x ∷ ys) (take_all n xs (omega (arith, h)))

module _ (D : Decimals) where
  -- The items of all pages from a cursor on; `none` if the market has no list, or the fuel runs out.
  abbrev before_rest :
      List (Instrument D) → Option (List (Instrument D)) → Option (List (Instrument D))
  before_rest items none = none
  before_rest items (some rest) = some (items ++ rest)

  abbrev with_more :
      (Option String → Option (List (Instrument D)))
      → List (Instrument D)
      → Option String
      → Option (List (Instrument D))
  with_more go items none = some items
  with_more go items (some after) = before_rest items (go (some after))

  abbrev of_page :
      (Option String → Option (List (Instrument D)))
      → Option (Page D)
      → Option (List (Instrument D))
  of_page go none = none
  of_page go (some p) = with_more go p.items p.cursor

  unfoldable pub walk : ℕ → Catalogue D → Market → Option String → Option (List (Instrument D))
  walk zero c m cursor = none
  walk (suc fuel) c m cursor = of_page (λ next. walk fuel c m next) (page D c m cursor)

  -- A list cut in two at a place inside it.
  record Parts (n : ℕ) (xs : List (Instrument D)) : Type 0 where
    front : List (Instrument D)
    at : Instrument D
    back : List (Instrument D)
    whole : xs ≡ front ++ at ∷ back
    taken : take (suc n) xs ≡ front ++ at ∷ []

  parts : (n : ℕ) (xs : List (Instrument D)) → n < length xs → Parts n xs
  parts n [] h = absurd (omega arith)
  parts zero (x ∷ xs) h = record { front = []; at = x; back = xs; whole = refl; taken = refl }
  parts (suc n) (x ∷ xs) h =
      let p = parts n xs (omega arith) in
      record {
        front = x ∷ p.front;
        at = p.at;
        back = p.back;
        whole = ap (λ ys. x ∷ ys) p.whole;
        taken = ap (λ ys. x ∷ ys) p.taken;
      }

  last_name-append :
      (xs : List (Instrument D)) (x : Instrument D) → last_name D (xs ++ x ∷ []) ≡ some (name D x)
  last_name-append [] x = refl
  last_name-append (y ∷ []) x = refl
  last_name-append (y ∷ z ∷ xs) x = last_name-append (z ∷ xs) x

  All-middle :
      (P : Instrument D → Type 0) (xs : List (Instrument D)) (x : Instrument D)
      (ys : List (Instrument D))
      → All P (xs ++ x ∷ ys)
      → P x
  All-middle P [] x ys h = h.0
  All-middle P (z ∷ xs) x ys h = All-middle P xs x ys h.1

  keep-past :
      (x : Instrument D) (ys : List (Instrument D))
      → All (λ y. compare (name D x) (name D y) ≡ Ordering.lt) ys
      → keep_if (λ i. not (text_leb (name D i) (name D x))) ys ≡ ys
  keep-past x [] h = refl
  keep-past x (y ∷ ys) h =
      rw (not_leb (name D x) (name D y) h.0) (ap (λ zs. y ∷ zs) (keep-past x ys h.1))

  -- After the name of an item comes what stands behind it.
  later-append :
      (xs : List (Instrument D)) (x : Instrument D) (ys : List (Instrument D))
      → IsNamed D (xs ++ x ∷ ys)
      → later D (some (name D x)) (xs ++ x ∷ ys) ≡ ys
  later-append [] x ys h = rw (leb_self (name D x)) (keep-past x ys h.0)
  later-append (z ∷ xs) x ys h =
      rw
        (lt-leb (name D z) (name D x)
          (All-middle (λ y. compare (name D z) (name D y) ≡ Ordering.lt) xs x ys h.0))
        (later-append xs x ys h.1)

  module _ (c : Catalogue D) (m : Market) (all : List (Instrument D))
      (held : get c.by_market m ≡ some all) (h : IsNamed D all) where
    abbrev cursor_of : ℕ → List (Instrument D) → Option String
    cursor_of size xs = if ltb size (length xs) then last_name D (take size xs) else none

    page_here :
        (cursor : Option String)
        → page D c m cursor
          ≡ some (record {
            market = m;
            items = take instruments_page (later D cursor all);
            cursor = cursor_of instruments_page (later D cursor all);
            rev = c.rev;
          })
    unfolding page
    page_here cursor =
        ap (page_on D c m cursor) held
        ∙ ap
            (λ (p : List (Instrument D) × Option String).
              some (record { market = m; items = p.0; cursor = p.1; rev = c.rev }))
            (cut-start_of D instruments_page all cursor h)

    -- What is named after the last item of a full page is the rest of what was to come.
    later-parts :
        (n : ℕ) (cursor : Option String) (p : Parts n (later D cursor all))
        → later D (some (name D p.at)) all ≡ p.back
    later-parts n cursor p =
        let before = take (start_of D all cursor) all in
        let split : all ≡ (before ++ p.front) ++ p.at ∷ p.back =
          sym (take-drop (start_of D all cursor) all)
          ∙ ap (λ xs. before ++ xs) (drop-start_of D all cursor h ∙ p.whole)
          ∙ sym (append_assoc before p.front (p.at ∷ p.back)) in
        ap (later D (some (name D p.at))) split
        ∙ later-append (before ++ p.front) p.at p.back (subst (IsNamed D) split h)

    shorter :
        (n : ℕ) (cursor : Option String) (p : Parts n (later D cursor all))
        → length (later D (some (name D p.at)) all) < length (later D cursor all)
    shorter n cursor p =
        let whole : length (later D cursor all) ≡ length p.front + length (p.at ∷ p.back) =
          ap length p.whole ∙ length-append p.front (p.at ∷ p.back) in
        omega (arith, whole, ap length (later-parts n cursor p))

    joins :
        (n : ℕ) (cursor : Option String) (p : Parts n (later D cursor all))
        → take (suc n) (later D cursor all) ++ later D (some (name D p.at)) all ≡ later D cursor all
    joins n cursor p =
        ap (λ xs. xs ++ later D (some (name D p.at)) all) p.taken
        ∙ ap (λ xs. (p.front ++ p.at ∷ []) ++ xs) (later-parts n cursor p)
        ∙ append_assoc p.front (p.at ∷ []) p.back
        ∙ sym p.whole

    continued :
        (n : ℕ) (go : Option String → Option (List (Instrument D))) (cursor : Option String)
        → ((next : Option String)
            → length (later D next all) < length (later D cursor all)
            → go next ≡ some (later D next all))
        → with_more go (take (suc n) (later D cursor all)) (cursor_of (suc n) (later D cursor all))
          ≡ some (later D cursor all)
    continued n go cursor ih = elim (Bool-cases (ltb (suc n) (length (later D cursor all)))) [
      | inl more ↦
          let p =
            parts n (later D cursor all)
              (omega (arith, ltb→lt (suc n) (length (later D cursor all)) more)) in
          let named : last_name D (take (suc n) (later D cursor all)) ≡ some (name D p.at) =
            ap (last_name D) p.taken ∙ last_name-append p.front p.at in
          let items = take (suc n) (later D cursor all) in
          ap (λ b. with_more go items (if b then last_name D items else none)) more
          ∙ ap (with_more go items) named
          ∙ ap (before_rest items) (ih (some (name D p.at)) (shorter n cursor p))
          ∙ ap some (joins n cursor p)
      | inr last ↦
          let items = take (suc n) (later D cursor all) in
          ap (λ b. with_more go items (if b then last_name D items else none)) last
          ∙ ap some (
              take_all (suc n) (later D cursor all)
                (ltb-false→le (suc n) (length (later D cursor all)) last))
    ]

    walk-later :
        (fuel : ℕ) (cursor : Option String)
        → length (later D cursor all) < fuel
        → walk fuel c m cursor ≡ some (later D cursor all)
    unfolding walk
    walk-later zero cursor l = absurd (omega (arith, l))
    walk-later (suc fuel) cursor l =
        ap (of_page (λ next. walk fuel c m next)) (page_here cursor)
        ∙ continued 1999 (λ next. walk fuel c m next) cursor
            (λ next k. walk-later fuel next (omega (arith, l, k)))

  -- After a market's list was replaced, reading it page by page from the start ends, and yields every
  -- instrument of the new list once: in the order of the names, without repeats. Fuel for one page
  -- more than there are instruments is enough.
  pub walk-replace :
      (c : Catalogue D) (m : Market) (incoming : List (Instrument D)) (fuel : ℕ)
      → length (dedup_names D (sort_names D incoming)) < fuel
      → walk fuel (replace D c m incoming).0 m none ≡ some (dedup_names D (sort_names D incoming))
  unfolding replace
  walk-replace c m incoming fuel l =
      walk-later (replace D c m incoming).0 m (dedup_names D (sort_names D incoming))
        (get-put_self c.by_market m _) (IsNamed-dedup_names D incoming) fuel none l
