-- ===== src/Wire/Command.antt =====
-- crates/wire/src/command.rs: what a terminal asks of a core. The variants keep their names; their
-- fields are read by no function that is modelled here, and are left out.
use mooncat.Prelude.{ℕ, Bool, true, false}
use mooncat.Wire.Channel.{Channel, control, command, settings, report, alerts}

pub data Role : Type 0 where
  viewer trader admin : Role

-- The derived order on roles, by position.
unfoldable pub role_rank : Role → ℕ
role_rank viewer = 0
role_rank trader = 1
role_rank admin = 2

pub data Command : Type 0 where
  hello enroll resume rotate_device_key ping pong bye subscribe unsubscribe subscriptions_get
        book_resync_request tape_backfill candle_history place_order cancel_order amend_order
        cancel_all move_orders split_order orders_snapshot_request order_status_request
        close_position flatten_all set_protection set_volume_stop set_panic set_immune
        account_snapshot_request set_leverage set_margin_mode set_position_mode transfer_asset
        transferable_assets_refresh confirm_risk_limit api_key_status_request convert_dust
        settings_get settings_set auto_leverage_set profit_reset emu_trades core_restart
        alert_upsert alert_delete alerts_snapshot_request chart_annotations_request
        news_history_request report_schema_request report_sync_request report_page_ack
        report_check_rows report_set_rows_deleted report_query :
      Command

-- The channel a command belongs on.
unfoldable pub command_channel : Command → Channel
command_channel hello = control
command_channel enroll = control
command_channel resume = control
command_channel rotate_device_key = control
command_channel ping = control
command_channel pong = control
command_channel bye = control
command_channel subscribe = command
command_channel unsubscribe = command
command_channel subscriptions_get = command
command_channel book_resync_request = command
command_channel tape_backfill = command
command_channel candle_history = command
command_channel place_order = command
command_channel cancel_order = command
command_channel amend_order = command
command_channel cancel_all = command
command_channel move_orders = command
command_channel split_order = command
command_channel orders_snapshot_request = command
command_channel order_status_request = command
command_channel close_position = command
command_channel flatten_all = command
command_channel set_protection = command
command_channel set_volume_stop = command
command_channel set_panic = command
command_channel set_immune = command
command_channel account_snapshot_request = command
command_channel set_leverage = command
command_channel set_margin_mode = command
command_channel set_position_mode = command
command_channel transfer_asset = command
command_channel transferable_assets_refresh = command
command_channel confirm_risk_limit = command
command_channel api_key_status_request = command
command_channel convert_dust = command
command_channel settings_get = settings
command_channel settings_set = settings
command_channel auto_leverage_set = settings
command_channel profit_reset = settings
command_channel emu_trades = command
command_channel core_restart = control
command_channel alert_upsert = alerts
command_channel alert_delete = alerts
command_channel alerts_snapshot_request = alerts
command_channel chart_annotations_request = alerts
command_channel news_history_request = alerts
command_channel report_schema_request = report
command_channel report_sync_request = report
command_channel report_page_ack = report
command_channel report_check_rows = report
command_channel report_set_rows_deleted = report
command_channel report_query = report

-- Whether a terminal may resend the command after a timeout.
unfoldable pub retryable : Command → Bool
retryable move_orders = false
retryable split_order = false
retryable close_position = false
retryable flatten_all = false
retryable convert_dust = false
retryable profit_reset = false
retryable emu_trades = false
retryable core_restart = false
retryable _ = true

-- Lowest role that may send it.
unfoldable pub min_role : Command → Role
min_role hello = viewer
min_role enroll = viewer
min_role resume = viewer
min_role ping = viewer
min_role pong = viewer
min_role bye = viewer
min_role subscribe = viewer
min_role unsubscribe = viewer
min_role subscriptions_get = viewer
min_role book_resync_request = viewer
min_role tape_backfill = viewer
min_role candle_history = viewer
min_role orders_snapshot_request = viewer
min_role order_status_request = viewer
min_role account_snapshot_request = viewer
min_role set_position_mode = admin
min_role transfer_asset = admin
min_role transferable_assets_refresh = viewer
min_role api_key_status_request = admin
min_role convert_dust = admin
min_role settings_get = viewer
min_role profit_reset = admin
min_role core_restart = admin
min_role alerts_snapshot_request = viewer
min_role chart_annotations_request = viewer
min_role news_history_request = viewer
min_role report_schema_request = viewer
min_role report_sync_request = viewer
min_role report_page_ack = viewer
min_role report_check_rows = viewer
min_role report_query = viewer
min_role _ = trader
