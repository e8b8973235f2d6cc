-- ===== src/Domain/Book/Search.antt =====
-- The standard library's binary search, on a side of the book (crates/domain/src/market.rs): on a
-- list whose comparisons ascend it returns the place that a scan from the front finds.
use Prim.Native.Nat.{Ordering}
use mooncat.Prelude.{
  ℕ, zero, suc, ◌+◌, ◌-◌, ◌/◌, ◌≤◌, ◌<◌, ◌≡◌, refl, ◌⊎◌, inl, inr, List, [], ◌∷◌, ◌≢◌, arith, leb,
  length, Bool-cases, leb→le, leb-false→lt, dec_lt, ℕ_discrete, ap,
}
use mooncat.Domain.Book.{
  Found, present, absent, order_at, step_base, search_loop, verdict, binary_search_by,
}

-- The step of a scan from the front.
abbrev pub next_place : Found → Found
next_place (present p) = present (suc p)
next_place (absent p) = absent (suc p)

abbrev pub scan_head : Ordering → Found → Found
scan_head Ordering.eq r = present 0
scan_head Ordering.gt r = absent 0
scan_head Ordering.lt r = next_place r

module _ {A : Type 0} (f : A → Ordering) where
  -- The comparisons along a list are `lt`, then at most one `eq`, then `gt`.
  pub record Ascends (xs : List A) : Type 0 where
    pub lt_down :
        (i j : ℕ)
        → i < j
        → j < length xs
        → order_at f xs j ≡ Ordering.lt
        → order_at f xs i ≡ Ordering.lt
    pub gt_up :
        (i j : ℕ)
        → i < j
        → j < length xs
        → order_at f xs i ≡ Ordering.gt
        → order_at f xs j ≡ Ordering.gt
    pub eq_down :
        (i j : ℕ)
        → i < j
        → j < length xs
        → order_at f xs j ≡ Ordering.eq
        → order_at f xs i ≡ Ordering.lt
    pub eq_up :
        (i j : ℕ)
        → i < j
        → j < length xs
        → order_at f xs i ≡ Ordering.eq
        → order_at f xs j ≡ Ordering.gt

  -- The place of the searched value: its index, or the index to insert it at.
  abbrev pub Located : List A → Found → Type 0
  Located xs (present p) = (p < length xs) × (order_at f xs p ≡ Ordering.eq)
  Located xs (absent p) =
      (p ≤ length xs)
      × ((i : ℕ) → i < p → order_at f xs i ≡ Ordering.lt)
      × ((i : ℕ) → p ≤ i → i < length xs → order_at f xs i ≡ Ordering.gt)

  -- What the halving keeps: nothing past the window is less, and the base is not greater.
  record Window (xs : List A) (base size : ℕ) : Type 0 where
    nonempty : 0 < size
    inside : base + size ≤ length xs
    left : (base ≡ 0) ⊎ (order_at f xs base ≢ Ordering.gt)
    right : (base + size ≡ length xs) ⊎ (order_at f xs (base + size) ≡ Ordering.gt)

  module _ (xs : List A) (a : Ascends xs) where
    narrow_left :
        (base size : ℕ)
        → 1 < size
        → Window xs base size
        → order_at f xs (base + size / 2) ≡ Ordering.gt
        → Window xs base (size - size / 2)
    narrow_left base size h w o = record {
      nonempty = omega arith;
      inside = omega (arith, w.inside);
      left = w.left;
      right =
          narrow_right_end (size - size / 2) (omega arith) (omega arith) (omega (arith, w.inside));
    }
      where
        narrow_right_end :
            (k : ℕ)
            → size / 2 ≤ k
            → k ≤ size / 2 + 1
            → base + k ≤ length xs
            → (base + k ≡ length xs) ⊎ (order_at f xs (base + k) ≡ Ordering.gt)
        narrow_right_end k l u i = elim (dec_lt (base + k) (length xs)) [
          | no out ↦ inl (omega arith)
          | yes p ↦ elim (ℕ_discrete k (size / 2)) [
            | yes e ↦ inr (rw e o)
            | no ne ↦ inr (a.gt_up (base + size / 2) (base + k) (omega arith) p o)
          ]
        ]

    narrow_right :
        (base size : ℕ)
        → 1 < size
        → Window xs base size
        → order_at f xs (base + size / 2) ≢ Ordering.gt
        → Window xs (base + size / 2) (size - size / 2)
    narrow_right base size h w o =
        let e : base + size / 2 + (size - size / 2) ≡ base + size = omega arith in
        record {
          nonempty = omega arith;
          inside = omega (arith, w.inside);
          left = inr o;
          right = rw e w.right;
        }

    narrow :
        (base size : ℕ) (o : Ordering)
        → 1 < size
        → Window xs base size
        → order_at f xs (base + size / 2) ≡ o
        → Window xs (step_base f o base (base + size / 2)) (size - size / 2)
    narrow base size Ordering.gt h w e = narrow_left base size h w e
    narrow base size Ordering.lt h w e = narrow_right base size h w (λ k. cc)
    narrow base size Ordering.eq h w e = narrow_right base size h w (λ k. cc)

    search_loop-Window :
        (fuel base size : ℕ)
        → size ≤ fuel
        → Window xs base size
        → Window xs (search_loop f fuel xs base size) 1
    unfolding search_loop
    search_loop-Window zero base size h w = absurd (omega (arith, w.nonempty))
    search_loop-Window (suc fuel) base size h w = elim (Bool-cases (leb size 1)) [
      | inl done ↦
          rw done (let e : size ≡ 1 = omega (arith, w.nonempty, leb→le size 1 done) in rw e at w)
      | inr more ↦ rw more (
          search_loop-Window fuel _ _ (omega (arith, leb-false→lt size 1 more))
            (narrow base size _ (omega (arith, leb-false→lt size 1 more)) w refl))
    ]

    window-Located :
        (base : ℕ) (o : Ordering)
        → Window xs base 1
        → order_at f xs base ≡ o
        → Located xs (verdict f o base)
    window-Located base Ordering.eq w e = (omega (arith, w.inside), e)
    window-Located base Ordering.lt w e = (
      w.inside,
      (λ i h. below_base i (omega arith)),
      λ i h l. elim w.right [
        | inl end ↦ absurd (omega arith)
        | inr g ↦ elim (ℕ_discrete i (base + 1)) [
          | yes p ↦ rw p g
          | no p ↦ a.gt_up (base + 1) i (omega arith) l g
        ]
      ],
    )
      where
        below_base : (i : ℕ) → i ≤ base → order_at f xs i ≡ Ordering.lt
        below_base i h = elim (ℕ_discrete i base) [
          | yes p ↦ rw p e
          | no p ↦ a.lt_down i base (omega arith) (omega (arith, w.inside)) e
        ]
    window-Located base Ordering.gt w e = elim w.left [
      | inl z ↦ (omega (arith, w.inside), (λ i h. absurd (omega arith)), λ i h l. from_base i h l)
      | inr ng ↦ absurd (ng e)
    ]
      where
        from_base : (i : ℕ) → base ≤ i → i < length xs → order_at f xs i ≡ Ordering.gt
        from_base i h l = elim (ℕ_discrete i base) [
          | yes p ↦ rw p e
          | no p ↦ a.gt_up base i (omega arith) l e
        ]

  -- On a list whose comparisons ascend the search finds the value, or where to insert it.
  pub binary_search_by-Located : (xs : List A) → Ascends xs → Located xs (binary_search_by f xs)
  unfolding binary_search_by
  binary_search_by-Located [] a =
      (omega arith, (λ i h. absurd (omega arith)), λ i h l. absurd (omega arith))
  binary_search_by-Located (x ∷ xs) a =
      window-Located (x ∷ xs) a _ _
        (search_loop-Window (x ∷ xs) a (length (x ∷ xs)) 0 (length (x ∷ xs)) (omega arith) (record {
          nonempty = omega arith;
          inside = omega arith;
          left = inl refl;
          right = inl (omega arith);
        }))
        refl

  -- A scan from the front.
  unfoldable pub scan : List A → Found
  scan [] = absent 0
  scan (x ∷ xs) = scan_head (f x) (scan xs)

  Ascends-tail : (x : A) (xs : List A) → Ascends (x ∷ xs) → Ascends xs
  Ascends-tail x xs a = record {
    lt_down = λ i j h l. a.lt_down (suc i) (suc j) (omega arith) (omega arith);
    gt_up = λ i j h l. a.gt_up (suc i) (suc j) (omega arith) (omega arith);
    eq_down = λ i j h l. a.eq_down (suc i) (suc j) (omega arith) (omega arith);
    eq_up = λ i j h l. a.eq_up (suc i) (suc j) (omega arith) (omega arith);
  }

  Located-next :
      (x : A) (xs : List A) (r : Found)
      → f x ≡ Ordering.lt
      → Located xs r
      → Located (x ∷ xs) (next_place r)
  Located-next x xs (present p) e h = (omega (arith, h.0), h.1)
  Located-next x xs (absent p) e h = (omega (arith, h.0), (λ i l. before i l), λ i l k. after i l k)
    where
      before : (i : ℕ) → i < suc p → order_at f (x ∷ xs) i ≡ Ordering.lt
      before zero l = e
      before (suc i) l = h.1 i (omega arith)

      after : (i : ℕ) → suc p ≤ i → i < length (x ∷ xs) → order_at f (x ∷ xs) i ≡ Ordering.gt
      after zero l k = absurd (omega arith)
      after (suc i) l k = h.2 i (omega arith) (omega arith)

  scan_head-Located :
      (x : A) (xs : List A) (o : Ordering) (r : Found)
      → Ascends (x ∷ xs)
      → f x ≡ o
      → Located xs r
      → Located (x ∷ xs) (scan_head o r)
  scan_head-Located x xs Ordering.eq r a e h = (omega arith, e)
  scan_head-Located x xs Ordering.lt r a e h = Located-next x xs r e h
  scan_head-Located x xs Ordering.gt r a e h =
      (omega arith, (λ i l. absurd (omega arith)), λ i l k. after i k)
    where
      after : (i : ℕ) → i < length (x ∷ xs) → order_at f (x ∷ xs) i ≡ Ordering.gt
      after zero k = e
      after (suc i) k = a.gt_up 0 (suc i) (omega arith) k e

  scan-Located : (xs : List A) → Ascends xs → Located xs (scan xs)
  unfolding scan
  scan-Located [] a = (omega arith, (λ i l. absurd (omega arith)), λ i l k. absurd (omega arith))
  scan-Located (x ∷ xs) a =
      scan_head-Located x xs (f x) (scan xs) a refl (scan-Located xs (Ascends-tail x xs a))

  present_unique :
      (xs : List A) (p q : ℕ)
      → Ascends xs
      → Located xs (present p)
      → Located xs (present q)
      → present p ≡ present q
  present_unique xs p q a h k = elim (dec_lt p q) [
    | yes l ↦ cc (a.eq_up p q l k.0 h.1, k.1)
    | no l ↦ elim (dec_lt q p) [
      | yes m ↦ cc (a.eq_up q p m h.0 k.1, h.1)
      | no m ↦ ap present (omega arith)
    ]
  ]

  not-both : (xs : List A) (p q : ℕ) → Located xs (present p) → Located xs (absent q) → ⊥
  not-both xs p q h k = elim (dec_lt p q) [
    | yes l ↦ cc (k.1 p l, h.1)
    | no l ↦ cc (k.2 p (omega arith) h.0, h.1)
  ]

  absent_unique :
      (xs : List A) (p q : ℕ) → Located xs (absent p) → Located xs (absent q) → absent p ≡ absent q
  absent_unique xs p q h k = elim (dec_lt p q) [
    | yes l ↦ cc (h.2 p (omega arith) (omega (arith, k.0)), k.1 p l)
    | no l ↦ elim (dec_lt q p) [
      | yes m ↦ cc (k.2 q (omega arith) (omega (arith, h.0)), h.1 q m)
      | no m ↦ ap absent (omega arith)
    ]
  ]

  Located-unique : (xs : List A) (r s : Found) → Ascends xs → Located xs r → Located xs s → r ≡ s
  Located-unique xs (present p) (present q) a h k = present_unique xs p q a h k
  Located-unique xs (present p) (absent q) a h k = absurd (not-both xs p q h k)
  Located-unique xs (absent p) (present q) a h k = absurd (not-both xs q p k h)
  Located-unique xs (absent p) (absent q) a h k = absent_unique xs p q h k

  -- The halving search and the scan agree on a list whose comparisons ascend.
  pub binary_search_by-scan : (xs : List A) → Ascends xs → binary_search_by f xs ≡ scan xs
  binary_search_by-scan xs a =
      Located-unique xs _ _ a (binary_search_by-Located xs a) (scan-Located xs a)
