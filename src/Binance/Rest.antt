-- ===== src/Binance/Rest.antt =====
-- crates/binance/src/lib.rs: the requests to the venue. HTTP and JSON are third-party; a reply is what
-- came back of a request, and `parse` reads a body.
use mooncat.Prelude.{
  ℕ, zero, suc, Bool-cases, ◌≡◌, inl, inr, refl, Bool, true, false, not, ◌&&◌, ◌||◌, List, [], ◌∷◌,
  none, String, ltb, leb, ◌==◌, if◌then◌else◌,
}
use mooncat.Domain.Decimals.{Decimals}
use mooncat.Domain.Ids.{MarketKind, spot, linear_perp, inverse_perp, Symbol, concat}
use mooncat.Domain.Time.{Timestamp}
use mooncat.Domain.Book.{OrderBook}
use mooncat.Domain.Instrument.{Instrument}
use mooncat.Exchange.Error.{transport, rejected, rate_limited, malformed, unsupported, is_retryable}
use mooncat.Binance.Wire.{Checked, ok, err, DepthSnapshot, book_of, SymbolInfo, instrument_of}
use mooncat.Binance.Streams.{Texts, Endpoints, depth_url, exchange_info_url, legal_depth_limit}

-- What came back of a request: a failure of the transport, or a status and a body.
pub data Reply : Type 0 where
  broken : (reason : String) → Reply
  answer : (status : ℕ) (body : String) → Reply

-- What reads a body: a value, or why it is none.
pub data Parsed {ℓ} (A : Type ℓ) : Type ℓ where
  parsed : A → Parsed A
  unreadable : (reason : String) → Parsed A

-- The first `max` characters.
abbrev pub truncate : ℕ → String → String
truncate zero s = ""
truncate (suc n) String.[] = ""
truncate (suc n) (String.◌∷◌ c s) = String.◌∷◌ c (truncate n s)

-- `StatusCode::is_success`.
abbrev pub is_success : ℕ → Bool
is_success status = leb 200 status && ltb status 300

abbrev pub same_market : MarketKind → MarketKind → Bool
same_market spot spot = true
same_market linear_perp linear_perp = true
same_market inverse_perp inverse_perp = true
same_market _ _ = false

-- The transport failed, or the venue asked for less.
abbrev pub could_come : Reply → Bool
could_come (broken reason) = true
could_come (answer status body) = (status == 429) || (status == 418)

module _ {A : Type 0} (T : Texts) where
  abbrev pub read_body : String → Parsed A → Checked A
  read_body body (parsed x) = ok x
  read_body body (unreadable reason) =
      err (malformed (concat reason (concat ": " (truncate 200 body))))

  unfoldable pub get_json : (String → Parsed A) → Reply → Checked A
  get_json parse (broken reason) = err (transport reason)
  get_json parse (answer status body) =
      if (status == 429) || (status == 418)
      then err (rate_limited none)
      else if not (is_success status)
      then err (rejected (T.show_u64 status) body)
      else read_body body (parse body)

  -- Whether a refusal may be retried.
  abbrev pub retryable : Checked A → Bool
  retryable (ok x) = false
  retryable (err e) = is_retryable e

  body_final : (body : String) (p : Parsed A) → retryable (read_body body p) ≡ false
  unfolding is_retryable
  body_final body (parsed x) = refl
  body_final body (unreadable reason) = refl

  -- A refusal may be retried exactly if the transport failed or the venue asked for less: never one on
  -- its merits, and never a reply that cannot be read.
  pub retryable-get_json :
      (parse : String → Parsed A) (r : Reply) → retryable (get_json parse r) ≡ could_come r
  unfolding get_json is_retryable
  retryable-get_json parse (broken reason) = refl
  retryable-get_json parse (answer status body) =
      elim (Bool-cases ((status == 429) || (status == 418))) [
        | inl e ↦ rw e refl
        | inr e ↦ elim (Bool-cases (is_success status)) [
          | inl y ↦ rw (e, y) (body_final body (parse body))
          | inr n ↦ rw (e, n) refl
        ]
      ]

module _ (D : Decimals) (T : Texts) where
  abbrev pub snapshot_at : Symbol → Timestamp → Checked (DepthSnapshot D) → Checked (OrderBook D)
  snapshot_at s now (ok d) = ok (book_of D d s now)
  snapshot_at s now (err e) = err e

  -- `fetch_snapshot`: the venue's reply to a request, as a book.
  pub fetch_snapshot :
      (String → Reply)
      → (String → Parsed (DepthSnapshot D))
      → Endpoints
      → Symbol
      → ℕ
      → Timestamp
      → Checked (OrderBook D)
  fetch_snapshot ask parse endpoints symbol depth now =
      snapshot_at symbol now
        (get_json T parse (ask (depth_url T endpoints symbol.raw (legal_depth_limit depth))))

  abbrev pub cons_ok : Checked (Instrument D) → List (Instrument D) → List (Instrument D)
  cons_ok (ok i) is = i ∷ is
  cons_ok (err e) is = is

  -- What could not be understood is skipped.
  unfoldable pub instruments_of : List (SymbolInfo D) → MarketKind → List (Instrument D)
  instruments_of [] m = []
  instruments_of (i ∷ is) m = cons_ok (instrument_of D i m) (instruments_of is m)

  abbrev pub listed_in : MarketKind → Checked (List (SymbolInfo D)) → Checked (List (Instrument D))
  listed_in m (err e) = err e
  listed_in m (ok is) = ok (instruments_of is m)

  -- `instruments` of a connector for one market, asked for another or the same.
  pub instruments :
      (String → Reply)
      → (String → Parsed (List (SymbolInfo D)))
      → Endpoints
      → MarketKind
      → MarketKind
      → Checked (List (Instrument D))
  instruments ask parse endpoints own m =
      if not (same_market m own)
      then err (unsupported "instruments for another market" m)
      else listed_in m (get_json T parse (ask (exchange_info_url T endpoints)))
