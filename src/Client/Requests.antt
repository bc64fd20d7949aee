-- ===== src/Client/Requests.antt =====
-- src/client.cpp: the envelopes that the client sends, each with its target, and how it takes the
-- reply to an action.
use vynkor_sdk_cpp.Base.{ℕ, Bool, true, false, List, [], ◌++◌, text_eq}
use vynkor_sdk_cpp.Base.Text.{Text, lit}
use vynkor_sdk_cpp.Error.{Result, ok, throws, internal}
use vynkor_sdk_cpp.Mac.{Bytes}
use vynkor_sdk_cpp.Protocol.{
  Envelope, ActionResponse, action_request, action_response, action_stream_abort, error,
  status_unknown, action_request_chunk, action_response_chunk, session_close, event_ack,
}

abbrev pub Sent : Type 0
Sent = Text × Envelope

unfoldable pub subscribe : List Text → Sent
subscribe event_types = (lit "kernel", Envelope.subscribe event_types)

unfoldable pub unsubscribe : List Text → Sent
unsubscribe event_types = (lit "kernel", Envelope.unsubscribe event_types)

unfoldable pub ack_event : Text → Sent
ack_event event_id = (lit "kernel", event_ack event_id)

-- The id comes from the process-wide counter.
unfoldable pub send_action_streaming : Text → Text → ℕ → Text × Sent
send_action_streaming action_id action timeout_ms = (
  action_id,
  (
    lit "kernel",
    action_request (record {
      action_id = action_id;
      action = action;
      params_json = [];
      timeout_ms = timeout_ms;
      streaming = true;
      caller_plugin_id = [];
    }),
  ),
)

unfoldable pub send_request_chunk : Text → ℕ → Bytes → Bool → Sent
send_request_chunk action_id seq chunk is_final =
    (lit "kernel", action_request_chunk action_id seq chunk is_final)

unfoldable pub send_response_chunk : Text → ℕ → Bytes → Sent
send_response_chunk action_id seq chunk = (lit "kernel", action_response_chunk action_id seq chunk)

unfoldable pub close_session : Text → Text → Sent
close_session action_id reason = (lit "kernel", session_close action_id reason)

-- What ends the wait of `send_action`.
unfoldable pub ends_action : Text → Envelope → Bool
ends_action action_id (action_response r) = text_eq r.action_id action_id
ends_action action_id (action_stream_abort id reason) = text_eq id action_id
ends_action action_id (error code message details) = true
ends_action action_id _ = false

-- What reading an unset `action_response` gives.
abbrev pub default_response : ActionResponse
default_response = record { action_id = []; status = status_unknown; data_json = []; error = [] }

-- What `send_action` makes of the envelope.
unfoldable pub action_result : Envelope → Result ActionResponse
action_result (error code message details) =
    throws (internal (lit "kernel error: " ++ (message ++ (lit " (" ++ (details ++ lit ")")))))
action_result (action_stream_abort id reason) = throws (internal (lit "stream aborted: " ++ reason))
action_result (action_response r) = ok r
action_result _ = ok default_response
