-- ===== src/Binance/Connector/Served.antt =====
-- The task of crates/binance/src/lib.rs with the read-model of crates/core/src/state.rs behind its sink,
-- over any history of the socket.
use mooncat.Prelude.{
  ◌≡◌, refl, sym, subst, Bool, true, false, List, [], ◌∷◌, Option, none, some, String,
}
use mooncat.Prelude.Assoc.{get, string_eq}
use mooncat.Domain.Decimals.{Decimals}
use mooncat.Domain.Book.{OrderBook}
use mooncat.Marketdata.Books.{book, stale_symbols, snapshot_failed, reset}
use mooncat.Marketdata.Books
use mooncat.Core.State.{MarketState}
use mooncat.Binance.Streams.{Texts}
use mooncat.Binance.Connector.{
  Effect, Task, Phase, dialing, live, sleeping, Input, Env, Decoded, print, delta, decode, shutdown,
  reconnect, on_text, frozen, Command, subscribe, unsubscribe, control, on_command, rearmed,
  on_connected, on_arm, move, step, run, enter_all, leave_all, connected, connect_failed, slept,
  command, text, ping, closed, stream_ended, other_message, tick, socket_error, fetched, failed,
  new_task, stale_after_ms, backoff_start,
}
use mooncat.Binance.Connector.Heard.{heard, heard-append, Quiet, Mirrors, quiet_step}
use mooncat.Binance.Connector.Mirror.{
  update_step, print_step, fetched_step, failed_step, exit_step, reset_step, map-Quiet,
}

module _ (D : Decimals) (T : Texts) where
  -- The core still has the connector's books after a move.
  abbrev Kept : MarketState D → Task D × List (Effect D) → Type 0
  Kept s (t, out) = Mirrors D t.books (heard D s out)

  -- Nothing, one thing and two things are said that are not of a book.
  silent : (t : Task D) (s : MarketState D) → Mirrors D t.books s → Mirrors D t.books (heard D s [])
  silent t s m = quiet_step D t.books s [] tt m

  says :
      (t : Task D) (s : MarketState D) (e : Effect D)
      → Quiet D e
      → Mirrors D t.books s
      → Mirrors D t.books (heard D s (e ∷ []))
  says t s e q m = quiet_step D t.books s (e ∷ []) (q, tt) m

  says_two :
      (t : Task D) (s : MarketState D) (e f : Effect D)
      → Quiet D e
      → Quiet D f
      → Mirrors D t.books s
      → Mirrors D t.books (heard D s (e ∷ f ∷ []))
  says_two t s e f q r m = quiet_step D t.books s (e ∷ f ∷ []) (q, (r, tt)) m

  control-Kept :
      (v : Env D) (t : Task D) (method : String) (names : List String) (written : Bool)
      (reason : String) (s : MarketState D)
      → Mirrors D t.books s
      → Kept s (control D T v t method names written reason)
  control-Kept v t method names true reason s m = says t s _ (λ k. refl) m
  control-Kept v t method names false reason s m = reset_step D t.books _

  command-Kept :
      (v : Env D) (t : Task D) (c : Option Command) (written : Bool) (s : MarketState D)
      → Mirrors D t.books s
      → Kept s (on_command D T v t c written)
  unfolding on_command
  command-Kept v t none written s m = exit_step D v t [] shutdown s tt m
  command-Kept v t (some (subscribe names)) written s m =
      control-Kept v (record t { active = enter_all t.active names }) "SUBSCRIBE" names written
        "subscribe write failed" s m
  command-Kept v t (some (unsubscribe names)) written s m =
      control-Kept v (record t { active = leave_all t.active names }) "UNSUBSCRIBE" names written
        "unsubscribe write failed" s m

  text-Kept :
      (v : Env D) (t : Task D) (d : Option (Decoded D)) (s : MarketState D)
      → Mirrors D t.books s
      → Kept s (on_text D v t d)
  text-Kept v t none s m = silent t s m
  text-Kept v t (some (print p)) s m = print_step D v t p s m
  text-Kept v t (some (delta d)) s m = update_step D v t d s m

  rearmed-Kept :
      (v : Env D) (t : Task D) (names : List String) (written : Bool) (s : MarketState D)
      → Mirrors D t.books s
      → Kept s (rearmed D T v t names written)
  rearmed-Kept v t [] written s m = says t s _ (λ k. refl) m
  rearmed-Kept v t (n ∷ ns) true s m = says_two t s _ _ (λ k. refl) (λ k. refl) m
  rearmed-Kept v t (n ∷ ns) false s m = reset_step D t.books _

  arm-Kept :
      (v : Env D) (t : Task D) (i : Input D) (s : MarketState D)
      → Mirrors D t.books s
      → Kept s (on_arm D T v t i)
  unfolding on_arm
  arm-Kept v t (command c written) s m = command-Kept v t c written s m
  arm-Kept v t (text f) s m = text-Kept v t (decode D f v.market_kind) s m
  arm-Kept v t (ping true) s m = silent t s m
  arm-Kept v t (ping false) s m = exit_step D v t [] (reconnect "pong write failed") s tt m
  arm-Kept v t closed s m = exit_step D v t [] (reconnect "server closed") s tt m
  arm-Kept v t stream_ended s m = exit_step D v t [] (reconnect "stream ended") s tt m
  arm-Kept v t (socket_error reason) s m = exit_step D v t [] (reconnect reason) s tt m
  arm-Kept v t (fetched snap) s m = fetched_step D v t snap s m
  arm-Kept v t (failed y) s m =
      silent (record t { books = snapshot_failed D t.books y }) s (failed_step D t.books y s m)
  arm-Kept v t tick s m =
      quiet_step D t.books s _
        (map-Quiet D (λ y. frozen D (v.at 1) y) (stale_symbols D t.books (v.at 0) stale_after_ms)
          (λ y k. refl))
        m
  arm-Kept v t other_message s m = silent t s m
  arm-Kept v t slept s m = silent t s m
  arm-Kept v t (connected written) s m = silent t s m
  arm-Kept v t (connect_failed reason) s m = silent t s m

  move-Kept :
      (v : Env D) (t : Task D) (p : Phase) (i : Input D) (s : MarketState D)
      → Mirrors D t.books s
      → Kept s (move D T v t p i)
  move-Kept v t live i s m = arm-Kept v t i s m
  move-Kept v t dialing (connected written) s m =
      unfold on_connected in
      rearmed-Kept v (record t { backoff = backoff_start; frame_id = 0; phase = live }) t.active
        written s m
  move-Kept v t dialing (connect_failed reason) s m = reset_step D t.books _
  move-Kept v t sleeping slept s m = says t s _ (λ k. refl) m
  move-Kept v t p i s m = silent t s m

  step-Kept :
      (v : Env D) (t : Task D) (i : Input D) (s : MarketState D)
      → Mirrors D t.books s
      → Kept s (step D T v t i)
  unfolding step
  step-Kept v t i s m = move-Kept v t t.phase i s m

  run-Kept :
      (t : Task D) (is : List (Env D × Input D)) (s : MarketState D)
      → Mirrors D t.books s
      → Kept s (run D T t is)
  unfolding run
  run-Kept t [] s m = silent t s m
  run-Kept t ((v, i) ∷ is) s m =
      let (t', out) = step D T v t i in
      let (t'', rest) = run D T t' is in
      subst (Mirrors D t''.books) (sym (heard-append D s out rest))
        (run-Kept t' is (heard D s out) (step-Kept v t i s m))

  new-Mirrors : (s : MarketState D) → Mirrors D (new_task D).books s
  unfolding new_task reset Books.new
  new-Mirrors s = reset_step D (new_task D).books s

  -- Through any history of the connector's socket, with its losses, late or failed snapshots, gaps and
  -- reconnects, whatever the core's state was before: whenever the connector has a live book of an
  -- instrument, the core has the same book of it.
  pub run-mirrored :
      (is : List (Env D × Input D)) (s : MarketState D) (k : String) (b : OrderBook D)
      → book D (run D T (new_task D) is).0.books k ≡ some b
      → get (heard D s (run D T (new_task D) is).1).books k ≡ some b
  run-mirrored is s k b h = (run-Kept (new_task D) is s (new-Mirrors s)).same k b h
