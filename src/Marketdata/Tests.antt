-- ===== src/Marketdata/Tests.antt =====
-- Concrete runs of the book set (crates/marketdata/src/books.rs).
use mooncat.Prelude.{List, ℕ, refl, true, false, [], ◌∷◌, some, arith}
use mooncat.Prelude.Int.{pos}
use mooncat.Domain.Ids.{key}
use mooncat.Domain.Time.{Timestamp, from_millis}
use mooncat.Domain.Book.{OrderBook, BookDelta}
use mooncat.Domain.Book.Chain.{IsValid}
use mooncat.Domain.Tests.{D, btc, seeded, next, seeded-IsValid}
use mooncat.Marketdata.Books.{Entry, BookSet, fresh_entry, book}
use mooncat.Marketdata.Books.Invariant.{EntryInv}
use mooncat.Domain.Order.{buy}
use mooncat.Marketdata.Candles.{PublicTrade, ticks, time}
use mooncat.Marketdata.Candles.Shape.{
  fold_all, TickShape, TimeShape, fold_all-TickShape, fold_all-TimeShape,
}

abbrev at : ℕ → Timestamp
at n = from_millis (pos n)

-- A snapshot is a book that has not joined the stream.
abbrev snap : OrderBook D
snap = record seeded { synced = false }

abbrev second : BookDelta D
second = record next { prev_update_id = 12; last_update_id = 15 }

abbrev waiting : Entry D
waiting = record (fresh_entry D btc) { buffered = next ∷ second ∷ [] }

-- An entry whose book has joined the stream.
abbrev live : Entry D
live = record (fresh_entry D btc) { book = some seeded }

abbrev one_book : BookSet D
one_book = record { entries = (key btc, live) ∷ []; cooldown_ms = pos 1000 }

live-EntryInv : EntryInv D live
unfolding fresh_entry
live-EntryInv = record { valid = seeded-IsValid; drained = refl; bounded = omega arith }

snap-IsValid : IsValid D snap
snap-IsValid = record {
  bids_sorted = seeded-IsValid.bids_sorted;
  asks_sorted = seeded-IsValid.asks_sorted;
  bids_full = seeded-IsValid.bids_full;
  asks_full = seeded-IsValid.asks_full;
}

-- A fetch was asked for at 100 and never reported back.
abbrev lost : Entry D
lost = record (fresh_entry D btc) { awaiting = true; requested_at = some (at 100) }

-- Five prints, the fourth of them late.
abbrev print : ℕ → ℕ → ℕ → PublicTrade D
print price ms id = record {
  symbol = btc;
  price = price;
  qty = 1;
  taker_side = buy;
  ts = at ms;
  id = id;
}

abbrev tape : List (PublicTrade D)
tape = print 99 0 1 ∷ print 101 400 2 ∷ print 100 1200 3 ∷ print 98 300 4 ∷ print 102 1300 5 ∷ []

fold_all-TickShape_example : TickShape D 2 (fold_all D (ticks 2) 10 [] tape)
fold_all-TickShape_example = fold_all-TickShape D 2 10 [] tape (omega arith) (omega arith) tt

fold_all-TimeShape_example : TimeShape D (fold_all D (time (pos 1000)) 10 [] tape)
fold_all-TimeShape_example = fold_all-TimeShape D (pos 1000) 10 [] tape tt
