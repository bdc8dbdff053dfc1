-- ===== src/Lib.antt =====
-- The portable core of the veetee firmware: the C code of veetee-firmware/main that decides what the
-- device does, below its drivers and network clients.
--
-- The parts and their files, paths from the root of the repository:
--   Device: veetee-firmware/main/veetee_state.c. `apply` is vt_state_apply, `event_allowed` and
--     `can_transition` are its two tests; Device.Graph has the transition table as a relation,
--     Device.Runs sequences of events.
--   Screen: veetee-firmware/main/veetee_screen_model.c, on the states of Device.
--   Ptt: veetee-firmware/main/veetee_ptt.c, the debouncer; Ptt.Filter runs it over samples.
--   Pairing: veetee-firmware/main/veetee_pairing.c, the six-digit pairing code; Storing has its load and its
--     hash in veetee-firmware/main/main.c.
--   Protocol: veetee-firmware/main/veetee_protocol.c, the audio frames of the WebSocket profiles.
--     `encode_frame` and `decode_frame` are vt_protocol_encode_audio and vt_protocol_decode_audio
--     with no pointer NULL, `encode_audio` and `decode_audio` add the tests for NULL.
--   MqttWire: veetee-firmware/main/veetee_mqtt_udp_wire.c, the frames of the MQTT profile's UDP path,
--     in the same manner.
--   MqttCrypto: veetee-firmware/main/veetee_mqtt_udp_crypto.c, AES-CTR over the frames of MqttWire:
--     the header of a frame is the IV of its payload. Session is about the key material, Packets
--     about one packet, Nonces about all packets of a session.
--   Mcp: veetee-firmware/main/veetee_mcp.c, the registry of tools. Mcp.Call has vt_mcp_registry_call
--     with its replay cache, Mcp.Setup the registration, Mcp.Cache the invariant of the cache,
--     Mcp.Calls and Mcp.Replay sequences of requests, Mcp.Digest the digest of a call.
--   McpWire: veetee-firmware/main/veetee_mcp_wire.c, the writer of MCP messages into a bounded buffer.
--     Messages has the messages as chains of appends, Appending what a chain writes, Documents the
--     documents that come out, Escaping the strings in them; ToolsList has the list of tools, Pages,
--     Rounds and Listing its loop and its document.
--   McpDispatch: veetee-firmware/main/veetee_mcp_dispatch.c, one MCP message from its envelope to its
--     response, over Mcp and McpWire. `dispatch_message` is vt_mcp_dispatch_message with no pointer
--     NULL; Rising is about the registry's high-water mark, Cursors about the cursor of a page.
--   McpTask: veetee-firmware/main/veetee_mcp_task.c, the task that owns the registry. The parent has its
--     queue and the calls on it, Setup is about the two ways to set it up, Steps cuts its loop into the
--     steps between which other tasks run; Steps.Rising, Order, Queue and Responses are about all
--     interleavings of these steps, Steps.Taking has what the receipts take from the queue.
--   BoardHal: veetee-firmware/main/veetee_board_hal.c, the manifest of the board's capabilities, whose
--     enabled tools are what the registry of Mcp is made of.
--   BoardTools: veetee-firmware/main/veetee_board_tools.c, the status tool and the two outputs. The parent has
--     the outputs and what invoke_output reads, Invoke the two callbacks, Setup vt_board_tools_init; Requests
--     and Levels are about the bounds of a level, Dimming about the brightness of an RGB output, Boards about
--     the manifest that BoardHal activates.
--   WireGuard: veetee-firmware/main/veetee_wire_guard.c, the test of a message's session.
--   Transport: veetee-firmware/main/veetee_transport.c, the WebSocket session. The parent has its state
--     and the hello that is sent and accepted, Events its event handler (`handle` is
--     transport_event_handler), Setup init, start, stop and the sends; Sessions, Deliveries and Calls
--     are about the session over events, what is delivered in it, and the calls.
--   Conversation: veetee-firmware/main/main.c, the turns of a conversation. The parent has the fields of
--     vt_app_t that a turn uses, the state lock, the graceful stop and service_playback_idle; Messages has
--     websocket_text_callback, Packets websocket_audio_callback and playback_task, Polling
--     ptt_task. Waking is about the wake word over a turn; Barrier, Turns and Stops are about the end of a
--     turn, Arrivals about audio on its way to the queue, Keeping, Callbacks, Rounds and Reach about what
--     all of them keep. Connecting joins it to Transport: a round of network_task begins a connection, hands
--     its events to the callbacks and ends it. Ending, Opening and Reopening are about one connection after
--     another, Network about what a connection brings in; Sending has send_control, send_listen_start and
--     mcp_send_text, Sent what they have sent.
--   Provisioning: veetee-firmware/main/main.c, the form of the provisioning page and its DNS responder. Forms
--     is about the encoding of a form, Accepting about the handler, Names about the responder.
--   AecReference: veetee-firmware/main/veetee_aec_reference.c, the delay line of speaker samples. Ring
--     reads the ring as a queue, Pushing and Popping are its two operations, Counters its statistics,
--     Life its beginning and reset; Resampler is the resampler of the same file.
--   Json: cJSON as a parameter of the parts that read or write messages.
--   Base: lists, C strings, byte buffers and Boolean tests that the parts share.
--   Examples: each theorem with binders or hypotheses at a concrete input.
--
-- Conventions. A struct is a record and an enum a data type; a buffer is the list of its bytes or
-- samples, a C string the list of its bytes before the terminator, a pointer that may be NULL an
-- Option. A function returns its result beside what it leaves behind its pointers. Unsigned numbers
-- are natural numbers, with `% 2 ^ w` where a w-bit store or sum could wrap; a signed one is a ℤ. A
-- write past the end of a list does nothing and a read there gives 0: the theorems ask for buffers
-- that have the stated capacity. Loops are structural recursion; the one fuel is the ten digits of
-- `decimal` in Base.Text, enough for any uint32_t, whose printed form is computed in full.
--
-- Code outside the repository is a parameter: the PSA library of MqttCrypto is a record of what its
-- calls answer, with the cipher's laws as the fields of `Ctr` and its success as those of `IsWorking`
-- only where a theorem needs them; the callbacks of Mcp are given their answers with each request;
-- whether calloc finds memory is an argument of `validate`; cJSON, with the values that it makes,
-- is the record CJson of Json; the WebSocket client, FreeRTOS, NVS, the
-- HTTP server, the GPIO driver and the LED strip answer by arguments.
--
-- Not modelled: the drivers, network clients and tasks (audio, display, wake word, and what main.c does
-- beside the conversation, the provisioning and the pairing code), functions that only give a name to
-- print, a callback that calls the registry again while it runs, and the OpenSSL branch that the host
-- build takes in place of PSA.
pub mod Base
pub mod Device
pub mod Screen
pub mod Ptt
pub mod Pairing
pub mod Protocol
pub mod MqttWire
pub mod MqttCrypto
pub mod Mcp
pub mod BoardHal
pub mod Conversation
pub mod BoardTools
pub mod Provisioning
pub mod WireGuard
pub mod McpWire
pub mod Json
pub mod McpDispatch
pub mod McpTask
pub mod Transport
pub mod AecReference
pub mod Examples
