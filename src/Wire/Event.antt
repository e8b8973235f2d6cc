-- ===== src/Wire/Event.antt =====
-- crates/wire/src/event.rs: what a core tells a terminal. The variants keep their names; the fields
-- of a variant other than `CommandAck` are a payload that no modelled function reads.
use mooncat.Prelude.{ℕ, Bool, true, false, ◌||◌, ◌==◌}
use mooncat.Wire.Channel.{
  Channel, control, account, command, book, tape, candles as candles_channel, reference,
  settings as settings_channel, report, alerts as alerts_channel,
}

pub data AckStatus : Type 0 where
  accepted done rejected failed : AckStatus

-- Whether this is the last thing a terminal will hear about the request.
unfoldable pub is_final : AckStatus → Bool
is_final accepted = false
is_final done = true
is_final rejected = true
is_final failed = true

pub data EventKind : Type 0 where
  challenge welcome resumed enrolled sync_complete ping gap failed shutdown core_info core_log
        account_snapshot order_update order_removed orders_snapshot fill balances positions
        risk_state api_key_status transferable_assets command_progress book_snapshot book_delta
        book_resync trades liquidations candle candles candle_series_state instruments
        instruments_changed subscribed subscriptions settings core_runtime_state profit_state alert
        alert_deleted alerts alert_fired chart_annotations news new_listing report_schema
        report_page report_row report_row_deleted report_rows_deleted report_sync_complete
        report_query_result :
      EventKind

pub data ServerEvent (Body : Type 0) : Type 0 where
  command_ack : ℕ → AckStatus → Body → ServerEvent Body
  event : EventKind → Body → ServerEvent Body

unfoldable pub kind_channel : EventKind → Channel
kind_channel challenge = control
kind_channel welcome = control
kind_channel resumed = control
kind_channel enrolled = control
kind_channel sync_complete = control
kind_channel ping = control
kind_channel gap = control
kind_channel failed = control
kind_channel shutdown = control
kind_channel core_info = control
kind_channel core_log = control
kind_channel account_snapshot = account
kind_channel order_update = account
kind_channel order_removed = account
kind_channel orders_snapshot = account
kind_channel fill = account
kind_channel balances = account
kind_channel positions = account
kind_channel risk_state = account
kind_channel api_key_status = account
kind_channel transferable_assets = account
kind_channel command_progress = command
kind_channel book_snapshot = book
kind_channel book_delta = book
kind_channel book_resync = book
kind_channel trades = tape
kind_channel liquidations = tape
kind_channel candle = candles_channel
kind_channel candles = candles_channel
kind_channel candle_series_state = candles_channel
kind_channel instruments = reference
kind_channel instruments_changed = reference
kind_channel subscribed = reference
kind_channel subscriptions = reference
kind_channel settings = settings_channel
kind_channel core_runtime_state = settings_channel
kind_channel profit_state = settings_channel
kind_channel alert = alerts_channel
kind_channel alert_deleted = alerts_channel
kind_channel alerts = alerts_channel
kind_channel alert_fired = alerts_channel
kind_channel chart_annotations = alerts_channel
kind_channel news = alerts_channel
kind_channel new_listing = alerts_channel
kind_channel report_schema = report
kind_channel report_page = report
kind_channel report_row = report
kind_channel report_row_deleted = report
kind_channel report_rows_deleted = report
kind_channel report_sync_complete = report
kind_channel report_query_result = report

unfoldable pub kind_is_delta : EventKind → Bool
kind_is_delta order_update = true
kind_is_delta order_removed = true
kind_is_delta fill = true
kind_is_delta book_delta = true
kind_is_delta trades = true
kind_is_delta liquidations = true
kind_is_delta candle = true
kind_is_delta alert = true
kind_is_delta alert_deleted = true
kind_is_delta news = true
kind_is_delta report_page = true
kind_is_delta report_row = true
kind_is_delta report_row_deleted = true
kind_is_delta _ = false

-- The variants that are private although their channel is not.
unfoldable pub kind_is_private : EventKind → Bool
kind_is_private command_progress = true
kind_is_private profit_state = true
kind_is_private settings = true
kind_is_private report_schema = true
kind_is_private report_page = true
kind_is_private report_row = true
kind_is_private report_row_deleted = true
kind_is_private report_rows_deleted = true
kind_is_private report_sync_complete = true
kind_is_private report_query_result = true
kind_is_private _ = false

module _ {Body : Type 0} where
  unfoldable pub channel : ServerEvent Body → Channel
  unfolding kind_channel
  channel (command_ack req status detail) = command
  channel (event k b) = kind_channel k

  -- Whether losing this event leaves the terminal's state wrong until something repairs it.
  unfoldable pub is_delta : ServerEvent Body → Bool
  unfolding kind_is_delta
  is_delta (command_ack req status detail) = false
  is_delta (event k b) = kind_is_delta k

  -- Whether an unauthenticated session may not be sent this.
  unfoldable pub is_private : ServerEvent Body → Bool
  unfolding kind_is_private kind_channel
  is_private (command_ack req status detail) = true
  is_private (event k b) = (kind_channel k).number == 1 || kind_is_private k
