-- ===== src/Binance/Wire/Listed.antt =====
-- `SymbolInfo::into_domain` of crates/binance/src/wire.rs against the venue's filters.
use mooncat.Prelude.{◌≡◌, refl, ap, ◌∙◌, List, [], ◌∷◌, Option, none, some}
use mooncat.Domain.Decimals.{Decimals}
use mooncat.Domain.Ids.{MarketKind, binance, concat}
use mooncat.Domain.Instrument.{Instrument}
use mooncat.Exchange.Error.{malformed}
use mooncat.Binance.Wire.{
  Checked, ok, err, SymbolInfo, Filter, price_filter, lot_size, min_notional_filter,
  notional_filter, other_filter, Terms, read_filter, read_filters, no_terms, instrument_with,
  instrument_of, unwrap_or, or, is_trading,
}

or_none {ℓ} : {A : Type ℓ} (o : Option A) → or o none ≡ o
or_none none = refl
or_none (some x) = refl

or_some {ℓ} :
    {A : Type ℓ} (o : Option A) (x : A) (q : Option A) → or (or o (some x)) q ≡ or o (some x)
or_some none x q = refl
or_some (some y) x q = refl

unwrap_or-some {ℓ} :
    {A : Type ℓ} (o : Option A) (x y : A) → unwrap_or (or o (some x)) y ≡ unwrap_or o x
unwrap_or-some none x y = refl
unwrap_or-some (some z) x y = refl

module _ (D : Decimals) where
  -- What one filter says of each term.
  abbrev pub tick_in : Filter D → Option D.Decimal
  tick_in (price_filter t) = some t
  tick_in f = none

  abbrev pub lot_in : Filter D → Option (D.Decimal × D.Decimal)
  lot_in (lot_size s q) = some (s, q)
  lot_in f = none

  abbrev pub notional_in : Filter D → Option D.Decimal
  notional_in (min_notional_filter a b) = some (unwrap_or (or a b) D.zero_dec)
  notional_in (notional_filter a) = some (unwrap_or a D.zero_dec)
  notional_in f = none

  -- The specification: the last filter of a kind counts.
  abbrev pub last_in : {A : Type 0} → (Filter D → Option A) → List (Filter D) → Option A
  last_in g [] = none
  last_in g (f ∷ fs) = or (last_in g fs) (g f)

  abbrev first_of : Option (D.Decimal × D.Decimal) → Option D.Decimal
  first_of none = none
  first_of (some p) = some p.0

  abbrev second_of : Option (D.Decimal × D.Decimal) → Option D.Decimal
  second_of none = none
  second_of (some p) = some p.1

  -- The terms that were read, from those before and the last filter of each kind.
  abbrev Latest :
      Terms D → Option D.Decimal → Option (D.Decimal × D.Decimal) → Option D.Decimal → Terms D
  Latest v t l n = record {
    tick_size = or t v.tick_size;
    step_size = or (first_of l) v.step_size;
    min_qty = or (second_of l) v.min_qty;
    min_notional = unwrap_or n v.min_notional;
  }

  or_first :
      (l : Option (D.Decimal × D.Decimal)) (p : D.Decimal × D.Decimal) (o : Option D.Decimal)
      → or (first_of (or l (some p))) o ≡ or (first_of l) (some p.0)
  or_first none p o = refl
  or_first (some x) p o = refl

  or_second :
      (l : Option (D.Decimal × D.Decimal)) (p : D.Decimal × D.Decimal) (o : Option D.Decimal)
      → or (second_of (or l (some p))) o ≡ or (second_of l) (some p.1)
  or_second none p o = refl
  or_second (some x) p o = refl

  or-Latest :
      (v : Terms D) (f : Filter D) (t : Option D.Decimal) (l : Option (D.Decimal × D.Decimal))
      (n : Option D.Decimal)
      → Latest (read_filter D v f) t l n
        ≡ Latest v (or t (tick_in f)) (or l (lot_in f)) (or n (notional_in f))
  or-Latest v (price_filter x) t l n = rw (or_none l, or_none n, or_some t x v.tick_size) refl
  or-Latest v (lot_size s q) t l n =
      rw (or_none t, or_none n, or_first l (s, q) v.step_size, or_second l (s, q) v.min_qty) refl
  or-Latest v (min_notional_filter a b) t l n =
      rw (or_none t, or_none l, unwrap_or-some n (unwrap_or (or a b) D.zero_dec) v.min_notional)
        refl
  or-Latest v (notional_filter a) t l n =
      rw (or_none t, or_none l, unwrap_or-some n (unwrap_or a D.zero_dec) v.min_notional) refl
  or-Latest v other_filter t l n = rw (or_none t, or_none l, or_none n) refl

  read_filters-Latest :
      (v : Terms D) (fs : List (Filter D))
      → read_filters D v fs
        ≡ Latest v (last_in tick_in fs) (last_in lot_in fs) (last_in notional_in fs)
  unfolding read_filters
  read_filters-Latest v [] = refl
  read_filters-Latest v (f ∷ fs) =
      read_filters-Latest (read_filter D v f) fs
      ∙ or-Latest v f (last_in tick_in fs) (last_in lot_in fs) (last_in notional_in fs)

  -- The instrument that the last filters make, or the filter that is missing.
  abbrev pub listing :
      SymbolInfo D
      → MarketKind
      → Option D.Decimal
      → Option (D.Decimal × D.Decimal)
      → Option D.Decimal
      → Checked (Instrument D)
  listing i m none l n = err (malformed (concat i.symbol " has no PRICE_FILTER filter"))
  listing i m (some t) none n = err (malformed (concat i.symbol " has no LOT_SIZE filter"))
  listing i m (some t) (some (s, q)) n = ok (record {
    symbol = record { exchange = binance; market = m; raw = i.symbol };
    base = i.base_asset;
    quote = i.quote_asset;
    margin_asset = unwrap_or i.margin_asset i.quote_asset;
    tick_size = t;
    step_size = s;
    min_qty = q;
    min_notional = unwrap_or n D.zero_dec;
    trading = is_trading D (or i.status i.contract_status);
  })

  -- A listed symbol is refused exactly if it has no price filter or no lot filter, and the refusal
  -- names the missing one; otherwise each term is what the last filter of its kind says, and no least
  -- value is asked for if no filter names one.
  pub instrument_of-listing :
      (i : SymbolInfo D) (m : MarketKind)
      → instrument_of D i m
        ≡ listing i m
            (last_in tick_in i.filters)
            (last_in lot_in i.filters)
            (last_in notional_in i.filters)
  unfolding instrument_of
  instrument_of-listing i m =
      ap (λ (v : Terms D). instrument_with D i m v.min_notional v.tick_size v.step_size v.min_qty)
        (read_filters-Latest (no_terms D) i.filters)
      ∙ of_terms (last_in tick_in i.filters) (last_in lot_in i.filters)
          (last_in notional_in i.filters)
    where
      of_terms :
          (t : Option D.Decimal) (l : Option (D.Decimal × D.Decimal)) (n : Option D.Decimal)
          → (let v = Latest (no_terms D) t l n in
              instrument_with D i m v.min_notional v.tick_size v.step_size v.min_qty)
            ≡ listing i m t l n
      of_terms none l n = refl
      of_terms (some t) none n = refl
      of_terms (some t) (some p) n = refl
