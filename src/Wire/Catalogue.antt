-- ===== src/Wire/Catalogue.antt =====
-- crates/wire/src/catalogue.rs: what the venues list, and how a terminal reads it page by page.
pub mod Names
pub mod Lookup
pub mod Pages
pub mod Tests
pub mod Walk
use Prim.Native.Nat.{Ordering}
use Prim.Native.String.{compare}
use mooncat.Prelude.{
  ℕ, zero, suc, ◌+◌, ◌-◌, ◌≡◌, refl, ◌↔◌, Bool, true, false, not, ◌&&◌, List, [], ◌∷◌, ◌++◌, Option,
  none, some, String, arith, ltb, leb, ◌==◌, if◌then◌else◌, length, take, drop, keep_if, map, min,
  add_u64, get_elem?,
}
use mooncat.Prelude.Assoc.{Eq, get, put, string_eq}
use mooncat.Prelude.Text.{text_leb}
use mooncat.Domain.Decimals.{Decimals}
use mooncat.Domain.Ids.{
  Symbol, concat, exchange_str, ExchangeId, binance, bybit, MarketKind, spot, linear_perp,
  inverse_perp,
}
use mooncat.Domain.Book.{Found, present, absent, binary_search_by}
use mooncat.Domain.Instrument.{Instrument}

abbrev pub instruments_page : ℕ
instruments_page = 2000

abbrev pub Market : Type 0
Market = ExchangeId × MarketKind

abbrev exchange_at : ExchangeId → ℕ
exchange_at binance = 0
exchange_at bybit = 1

abbrev market_at : MarketKind → ℕ
market_at spot = 0
market_at linear_perp = 1
market_at inverse_perp = 2

abbrev market_beq : Market → Market → Bool
market_beq a b = exchange_at a.0 == exchange_at b.0 && market_at a.1 == market_at b.1

exchange_at-injective : (e f : ExchangeId) → exchange_at e ≡ exchange_at f → e ≡ f
exchange_at-injective binance binance h = refl
exchange_at-injective bybit bybit h = refl
exchange_at-injective e f h = absurd (omega (arith, h))

market_at-injective : (m n : MarketKind) → market_at m ≡ market_at n → m ≡ n
market_at-injective spot spot h = refl
market_at-injective linear_perp linear_perp h = refl
market_at-injective inverse_perp inverse_perp h = refl
market_at-injective m n h = absurd (omega (arith, h))

pub market_beq_iff : (a b : Market) → (market_beq a b ≡ true) ↔ (a ≡ b)
market_beq_iff a b = ground (arith, exchange_at-injective a.0 b.0, market_at-injective a.1 b.1)

instance abbrev pub market_eq : Eq Market
market_eq = record { beq = market_beq; beq_iff = market_beq_iff }

pub record Changed : Type 0 where
  pub added : List Symbol
  pub removed : List Symbol
  pub altered : List Symbol

abbrev nothing_in : List Symbol → Bool
nothing_in [] = true
nothing_in (s ∷ ss) = false

unfoldable pub is_empty : Changed → Bool
is_empty c = nothing_in c.added && (nothing_in c.removed && nothing_in c.altered)

-- `unwrap_or_else(|i| i)`.
abbrev pub place : Found → ℕ
place (present i) = i
place (absent i) = i

module _ {A : Type 0} (p : A → Bool) where
  -- The standard library's `partition_point`: a binary search for a boundary.
  unfoldable pub partition_point : List A → ℕ
  partition_point xs = place (binary_search_by (λ x. if p x then Ordering.lt else Ordering.gt) xs)

module _ (D : Decimals) where
  abbrev pub name : Instrument D → String
  name i = i.symbol.raw

  unfoldable pub insert_name : Instrument D → List (Instrument D) → List (Instrument D)
  insert_name x [] = x ∷ []
  insert_name x (y ∷ ys) =
      let rest = insert_name x ys in if text_leb (name x) (name y) then x ∷ y ∷ ys else y ∷ rest

  -- `sort_by` on the names, which is stable.
  unfoldable pub sort_names : List (Instrument D) → List (Instrument D)
  sort_names [] = []
  sort_names (x ∷ xs) = insert_name x (sort_names xs)

  unfoldable pub dedup_run : Instrument D → List (Instrument D) → List (Instrument D)
  dedup_run x [] = x ∷ []
  dedup_run x (y ∷ ys) =
      let same = string_eq.beq (name x) (name y) in
      let rest = dedup_run (if same then x else y) ys in if same then rest else x ∷ rest

  -- `dedup_by` on the names: the first of each run.
  unfoldable pub dedup_names : List (Instrument D) → List (Instrument D)
  dedup_names [] = []
  dedup_names (x ∷ xs) = dedup_run x xs

  abbrev pub all_of : Option (List (Instrument D)) → List (Instrument D)
  all_of none = []
  all_of (some is) = is

  -- A `HashMap` from names, of which a later entry counts.
  abbrev pub by_name_onto :
      List (String × Instrument D) → List (Instrument D) → List (String × Instrument D)
  by_name_onto m [] = m
  by_name_onto m (i ∷ is) = by_name_onto (put m (name i) i) is

  abbrev pub equal : D.Decimal → D.Decimal → Bool
  equal a b = elim (D.cmp a b) [ Ordering.eq ↦ true | _ ↦ false ]

  abbrev pub same_flag : Bool → Bool → Bool
  same_flag true b = b
  same_flag false b = not b

  unfoldable pub same_terms : Instrument D → Instrument D → Bool
  same_terms a b =
      equal a.tick_size b.tick_size
      && (equal a.step_size b.step_size
          && (equal a.min_qty b.min_qty
              && (equal a.min_notional b.min_notional
                  && (same_flag a.trading b.trading
                      && (string_eq.beq a.base b.base
                          && (string_eq.beq a.quote b.quote
                              && string_eq.beq a.margin_asset b.margin_asset))))))

  abbrev pub note_item : Changed → Instrument D → Option (Instrument D) → Changed
  note_item c i none = record c { added = c.added ++ i.symbol ∷ [] }
  note_item c i (some old) =
      if not (same_terms old i) then record c { altered = c.altered ++ i.symbol ∷ [] } else c

  abbrev pub note_all : Changed → List (String × Instrument D) → List (Instrument D) → Changed
  note_all c before [] = c
  note_all c before (i ∷ is) = note_all (note_item c i (get before (name i))) before is

  abbrev pub missing : Option (Instrument D) → Bool
  missing none = true
  missing (some i) = false

  -- What a new list changes of the one before.
  unfoldable pub changes : List (Instrument D) → List (Instrument D) → Changed
  changes previous incoming =
      let c =
        note_all (record { added = []; removed = []; altered = [] }) (by_name_onto [] previous)
          incoming in
      record c {
        removed =
            map (λ (i : Instrument D). i.symbol)
              (keep_if (λ i. missing (get (by_name_onto [] incoming) (name i))) previous);
      }

  pub record Catalogue : Type 0 where
    pub by_market : List (Market × List (Instrument D))
    pub rev : ℕ

  abbrev pub new : Catalogue
  new = record { by_market = []; rev = 0 }

  -- `Catalogue::replace`.
  unfoldable pub replace : Catalogue → Market → List (Instrument D) → Catalogue × Changed
  replace c m incoming =
      let now_listed = dedup_names (sort_names incoming) in
      let changed = changes (all_of (get c.by_market m)) now_listed in
      (
        record {
          by_market = put c.by_market m now_listed;
          rev = if is_empty changed then c.rev else add_u64 c.rev 1;
        },
        changed,
      )

  pub record Page : Type 0 where
    pub market : Market
    pub items : List (Instrument D)
    pub cursor : Option String
    pub rev : ℕ

  -- Strictly after the cursor, by name.
  unfoldable pub start_of : List (Instrument D) → Option String → ℕ
  start_of all none = 0
  start_of all (some after) = partition_point (λ i. text_leb (name i) after) all

  abbrev pub last_name : List (Instrument D) → Option String
  last_name [] = none
  last_name (i ∷ []) = some (name i)
  last_name (i ∷ j ∷ is) = last_name (j ∷ is)

  -- A page of a list, of a given size: its items, and the cursor for the next one.
  unfoldable pub cut : ℕ → List (Instrument D) → ℕ → List (Instrument D) × Option String
  cut size all start =
      let end = min (start + size) (length all) in
      let items = take (end - start) (drop start all) in
      (items, if ltb end (length all) then last_name items else none)

  abbrev pub page_of : Catalogue → Market → Option String → List (Instrument D) → Page
  page_of c m cursor all =
      let (items, next) = cut instruments_page all (start_of all cursor) in
      record { market = m; items = items; cursor = next; rev = c.rev }

  abbrev pub page_on :
      Catalogue → Market → Option String → Option (List (Instrument D)) → Option Page
  page_on c m cursor none = none
  page_on c m cursor (some all) = some (page_of c m cursor all)

  -- `Catalogue::page`; `none` for a market that was never filled in.
  unfoldable pub page : Catalogue → Market → Option String → Option Page
  page c m cursor = page_on c m cursor (get c.by_market m)

  pub len : Catalogue → Market → ℕ
  len c m = length (all_of (get c.by_market m))

  abbrev pub all_none : List (Market × List (Instrument D)) → Bool
  all_none [] = true
  all_none ((m, []) ∷ rest) = all_none rest
  all_none ((m, i ∷ is) ∷ rest) = false

  pub catalogue_is_empty : Catalogue → Bool
  catalogue_is_empty c = all_none c.by_market

  abbrev pub at_place : List (Instrument D) → Found → Option (Instrument D)
  at_place all (present at) = get_elem? all at
  at_place all (absent at) = none

  abbrev pub listed_on : Symbol → Option (List (Instrument D)) → Option (Instrument D)
  listed_on symbol none = none
  listed_on symbol (some all) =
      at_place all (binary_search_by (λ i. compare (name i) symbol.raw) all)

  -- `Catalogue::get`.
  unfoldable pub listed : Catalogue → Symbol → Option (Instrument D)
  listed c symbol = listed_on symbol (get c.by_market (symbol.exchange, symbol.market))

  abbrev pub tradable : Symbol → Option (Instrument D) → Option String
  tradable s none = some (concat s.raw (concat " is not listed on " (exchange_str s.exchange)))
  tradable s (some i) = if not i.trading then some (concat s.raw " is halted or delisted") else none

  -- `Catalogue::is_tradable`; `none` is its `Ok`.
  unfoldable pub is_tradable : Catalogue → Symbol → Option String
  is_tradable c symbol = tradable symbol (listed c symbol)
