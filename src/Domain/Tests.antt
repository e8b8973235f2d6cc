-- ===== src/Domain/Tests.antt =====
-- Concrete runs of the domain model (crates/domain/src/{market,order,ids}.rs), with prices and
-- quantities that are whole numbers.
use mooncat.Prelude.{ℕ, ◌≡◌, refl, true, false, List, [], ◌∷◌, some, arith, inl, ◌<◌, sym, ap, ◌∙◌}
use mooncat.Prelude.Int.{pos}
use Prim.Native.Nat.{compare, Ordering}
use mooncat.Domain.Decimals.{Decimals, nat_decimals}
use mooncat.Domain.Ids.{Symbol, binance, spot}
use mooncat.Domain.Time.{from_millis}
use mooncat.Domain.Book.{
  BookLevel, OrderBook, BookDelta, applied, gap, apply, apply_level, binary_search_by, apply_side,
  cmp_price, merge_at, search_loop, order_at,
}
use mooncat.Domain.Book.Search.{Ascends}
use mooncat.Domain.Book.Levels.{upsert, apply_level-upsert}
use mooncat.Domain.Book.Contents.{qty_at, replayed}
use mooncat.Domain.Book.Chain.{IsValid, apply_contents, apply-IsValid}
use mooncat.Domain.Instrument.{Instrument}
use mooncat.Prelude.{All}
use mooncat.Prelude.Assoc.{get}
use mooncat.Domain.Registry.{found, resolve, new as new_registry}
use mooncat.Domain.Registry.Permanent.{Inv as RegistryInv, intern_all, intern_all-resolve}

abbrev pub D : Decimals
D = nat_decimals

abbrev pub level : ℕ → ℕ → BookLevel D
level p q = record { price = p; qty = q }

abbrev pub btc : Symbol
btc = record { exchange = binance; market = spot; raw = "BTCUSDT" }

-- Bids 99 × 1 and 98 × 2, asks 100 × 1 and 102 × 4, at update 10.
abbrev pub seeded : OrderBook D
seeded = record {
  symbol = some btc;
  bids = level 99 1 ∷ level 98 2 ∷ [];
  asks = level 100 1 ∷ level 102 4 ∷ [];
  last_update_id = 10;
  ts = from_millis (pos 5);
  synced = true;
}

-- Removes the best bid, and puts an ask between the two.
abbrev pub next : BookDelta D
next = record {
  symbol = btc;
  prev_update_id = 10;
  last_update_id = 12;
  bids = level 99 0 ∷ level 97 3 ∷ [];
  asks = level 101 7 ∷ [];
  ts = from_millis (pos 6);
}

abbrev pub later : BookDelta D
later = record next { prev_update_id = 13; last_update_id = 14 }

pub seeded-IsValid : IsValid D seeded
seeded-IsValid = record {
  bids_sorted = unfold cmp_price in ((refl, tt), (tt, tt));
  asks_sorted = unfold cmp_price in ((refl, tt), (tt, tt));
  bids_full = (refl, (refl, tt));
  asks_full = (refl, (refl, tt));
}

bids_after : (apply D seeded next).0.bids ≡ level 98 2 ∷ level 97 3 ∷ []
unfolding apply apply_side apply_level merge_at binary_search_by search_loop cmp_price
bids_after = refl

asks_after : (apply D seeded next).0.asks ≡ level 100 1 ∷ level 101 7 ∷ level 102 4 ∷ []
unfolding apply apply_side apply_level merge_at binary_search_by search_loop cmp_price
asks_after = refl

apply_ahead_run : apply D seeded later ≡ (seeded, gap 10 13)
unfolding apply
apply_ahead_run = refl

apply_contents_example :
    ((apply D seeded next).1 ≡ applied)
    × (qty_at D true (apply D seeded next).0.bids 99
        ≡ replayed D true next.bids 99 (qty_at D true seeded.bids 99))
    × (qty_at D false (apply D seeded next).0.asks 99
        ≡ replayed D false next.asks 99 (qty_at D false seeded.asks 99))
apply_contents_example =
    apply_contents D seeded next 99 seeded-IsValid (omega arith, inl (refl, refl))

apply-IsValid_example : IsValid D (apply D seeded next).0
apply-IsValid_example = apply-IsValid D seeded next seeded-IsValid

apply_level-upsert_example :
    apply_level D seeded.asks (level 101 7) false ≡ upsert D false seeded.asks (level 101 7)
apply_level-upsert_example =
    apply_level-upsert D false seeded.asks (level 101 7) seeded-IsValid.asks_sorted

-- Where 5 stands in 3, 5.
abbrev numbers : List ℕ
numbers = 3 ∷ 5 ∷ []

abbrev against_5 : ℕ → Ordering
against_5 n = compare n 5

first_pair : (i j : ℕ) → i < j → j < 2 → (◌≡◌ {A = ℕ} i 0) × (◌≡◌ {A = ℕ} j 1)
first_pair i j h k = (omega (arith, h, k), omega (arith, h, k))

against_5-Ascends : Ascends against_5 numbers
against_5-Ascends = record {
  lt_down = λ i j h k l. rw (first_pair i j h k).0 refl;
  gt_up = λ i j h k l.
      absurd (refuted (sym (ap (order_at against_5 numbers) (first_pair i j h k).0) ∙ l));
  eq_down = λ i j h k l. rw (first_pair i j h k).0 refl;
  eq_up = λ i j h k l.
      absurd (refuted_eq (sym (ap (order_at against_5 numbers) (first_pair i j h k).0) ∙ l));
}
  where
    refuted : Ordering.lt ≡ Ordering.gt → ⊥
    refuted h = cc

    refuted_eq : Ordering.lt ≡ Ordering.eq → ⊥
    refuted_eq h = cc

abbrev eth : Symbol
eth = record { exchange = binance; market = spot; raw = "ETHUSDT" }

empty_registry-Inv : RegistryInv (new_registry 7)
unfolding new_registry get
empty_registry-Inv = record { indexed = λ k. tt }

intern_all-resolve_example :
    All
      (λ p.
        resolve (intern_all (new_registry 7) (btc ∷ eth ∷ btc ∷ [])).0 p.1 (new_registry 7).epoch
        ≡ found p.0)
      (intern_all (new_registry 7) (btc ∷ eth ∷ btc ∷ [])).1
intern_all-resolve_example =
    intern_all-resolve (new_registry 7) (btc ∷ eth ∷ btc ∷ []) empty_registry-Inv
      (unfold new_registry in omega arith)

-- A tick of 5, a step of 2, at least 4 and a value of at least 100.
abbrev listing : Instrument D
listing = record {
  symbol = btc;
  base = "BTC";
  quote = "USDT";
  margin_asset = "USDT";
  tick_size = 5;
  step_size = 2;
  min_qty = 4;
  min_notional = 100;
  trading = true;
}
