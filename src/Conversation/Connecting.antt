-- ===== src/Conversation/Connecting.antt =====
-- network_task: the conversation over a WebSocket connection, which opens, hands its events to the two
-- callbacks and ends, round after round.
use veetee_vuqb.Base.{ℕ, Bool, true, false, ◌&&◌, Option, none, some, List, [], ◌∷◌}
use veetee_vuqb.Base.Esp.{EspError}
use veetee_vuqb.Json.{CJson}
use veetee_vuqb.Device.{connect, disconnect}
use veetee_vuqb.Transport.{
  TransportConfig, Transport, Action, send_text, send_bin, close, stop, destroy, start, on_text,
  on_audio,
}
use veetee_vuqb.McpTask.{McpTask}
use veetee_vuqb.Transport.Events.{handle}
use veetee_vuqb.Transport.Sessions.{Input}
use veetee_vuqb.Transport.Setup.{InitAnswers, init, stop_client}
use veetee_vuqb.Conversation.{
  App, InteractionMode, request_wake_arm, state_apply, clear_pending_tts_stop,
}
use veetee_vuqb.Conversation.Messages.{Setting, text_callback}
use veetee_vuqb.Conversation.Packets.{audio_callback}

-- vt_app_t: the conversation, and the field `transport`
pub record Link : Type 0 where
  pub app : App
  pub transport : Transport

-- `app->mcp_task != NULL`
abbrev is_running : Option McpTask → Bool
is_running none = false
is_running (some task) = true

-- The configuration of a round, from the constants of the build and the identity of the device.
unfoldable pub connection_config : Setting → TransportConfig → App → TransportConfig
connection_config setting config app = record config {
  mcp_enabled = setting.mcp_enabled && is_running app.mcp_task;
}

-- The beginning of a round, with the result of vt_transport_init.
unfoldable pub begin_connection : Setting → TransportConfig → InitAnswers → Link → EspError × Link
begin_connection setting config answers link =
    let (app, applied) = state_apply link.app connect in
    let (result, t) = init link.transport (connection_config setting config link.app) answers in
    (result, record { app = app; transport = t })

module _ (j : CJson) where
  -- The end of a round, where `up` is what the client says of its connection.
  unfoldable pub end_connection : Bool → Link → Link
  end_connection up link =
      let silent = record link.app { capture_active = false; wake_auto_capture = false } in
      let manual = record (clear_pending_tts_stop silent) {
        interaction_mode = InteractionMode.manual;
      } in
      let (app, applied) = state_apply (request_wake_arm manual) disconnect in
      record { app = app; transport = (stop_client j link.transport up).0 }

  -- What the handler asks of the two callbacks. The profile of the configuration is the constant that
  -- websocket_audio_callback decodes by.
  unfoldable pub deliver : Setting → ℕ → List (Action j) → App → App
  deliver setting profile [] app = app
  deliver setting profile (on_text message ∷ actions) app =
      deliver setting profile actions (text_callback j setting message app)
  deliver setting profile (on_audio bytes ∷ actions) app =
      deliver setting profile actions (audio_callback profile bytes app)
  deliver setting profile (send_text text ∷ actions) app = deliver setting profile actions app
  deliver setting profile (send_bin bytes ∷ actions) app = deliver setting profile actions app
  deliver setting profile (close ∷ actions) app = deliver setting profile actions app
  deliver setting profile (stop ∷ actions) app = deliver setting profile actions app
  deliver setting profile (destroy ∷ actions) app = deliver setting profile actions app
  deliver setting profile (start ∷ actions) app = deliver setting profile actions app

  -- An event of the client: what the handler makes of it, and the callbacks that it leads to, in the session
  -- that it leaves.
  unfoldable pub pass_on : Setting → App → Transport × List (Action j) → Link
  pass_on setting app (t, actions) = record {
    app = deliver (record setting { session_id = t.session_id }) t.config.profile actions app;
    transport = t;
  }

  unfoldable pub on_event : Setting → Link → Input → Link
  on_event setting link i =
      pass_on setting link.app (handle j link.transport i.allocated i.written i.event)
