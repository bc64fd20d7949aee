-- ===== src/Echo.antt =====
-- examples/echo_plugin.cpp: the demonstration plugin: it echoes an action, a streamed action chunk by chunk, and
-- publishes an event. What the calls of the client give are arguments; the printed lines are left out.
pub mod Stream
pub mod Tests
use vynkor_sdk_cpp.Base.{
  ℕ, ◌/◌, Bool, true, false, not, ◌&&◌, Option, none, some, List, [], ◌∷◌, ◌++◌, length, take, drop,
  ltb, ◌==◌, if◌then◌else◌, text_eq,
}
use vynkor_sdk_cpp.Base.Text.{Text, lit}
use vynkor_sdk_cpp.Error.{Result, ok, throws, what, ◌>>=◌}
use vynkor_sdk_cpp.Mac.{Bytes}
use vynkor_sdk_cpp.Protocol.{
  Envelope, Event, ActionStatus, ActionRequest, PluginManifest, action_request,
  action_request_chunk, action_response, action_response_chunk, session_close, status_ok,
  status_error, status_not_found,
}
use vynkor_sdk_cpp.Client.Replies.{PublishAck}
use vynkor_sdk_cpp.Client.Requests.{Sent, subscribe}

-- `std::map<uint32_t, std::string>`, in the order of the keys.
abbrev pub Chunks : Type 0
Chunks = List (ℕ × Bytes)

unfoldable pub assign : ℕ → Bytes → Chunks → Chunks
assign seq chunk [] = (seq, chunk) ∷ []
assign seq chunk ((k, old) ∷ chunks) =
    let rest = assign seq chunk chunks in
    if seq == k
    then (seq, chunk) ∷ chunks
    else if ltb seq k
    then (seq, chunk) ∷ ((k, old) ∷ chunks)
    else (k, old) ∷ rest

unfoldable pub joined : Chunks → Bytes
joined [] = []
joined ((k, chunk) ∷ chunks) = chunk ++ joined chunks

pub record EchoPlugin : Type 0 where
  pub stream_action_id : Text
  pub stream_chunks : Chunks

abbrev pub idle : EchoPlugin
idle = record { stream_action_id = []; stream_chunks = [] }

abbrev pub manifest : PluginManifest
manifest = record {
  permissions = lit "PERMISSION_EVENT_PUBLISH" ∷ [];
  actions = lit "echo" ∷ (lit "stream_echo" ∷ (lit "publish_test" ∷ []));
  events = [];
  ipc_targets = [];
  platforms = [];
  action_specs = [];
}

-- The plugin afterwards, what it sends, and what the handler gives.
pub record Handled : Type 0 where
  pub plugin : EchoPlugin
  pub sends : List Envelope
  pub reply : Result (Option Envelope)

abbrev pub answer : Text → ActionStatus → Bytes → Text → Envelope
answer action_id status data_json error =
    action_response
      (record { action_id = action_id; status = status; data_json = data_json; error = error })

-- From what `publish_event` gives; 1 is EVENT_PUBLISH_OK.
unfoldable pub publish_reply : Text → Result PublishAck → Envelope
publish_reply action_id (throws e) = answer action_id status_error [] (what e)
publish_reply action_id (ok (event_id, status, error)) =
    if status == 1 then answer action_id status_ok [] [] else answer action_id status_error [] error

unfoldable pub handle_publish_test : EchoPlugin → ActionRequest → Result PublishAck → Handled
handle_publish_test p req published = record {
  plugin = p;
  sends = [];
  reply = ok (some (publish_reply req.action_id published));
}

unfoldable pub handle_action : EchoPlugin → ActionRequest → Result PublishAck → Handled
handle_action p req published =
    if text_eq req.action (lit "stream_echo") && req.streaming
    then record {
      plugin = record { stream_action_id = req.action_id; stream_chunks = [] };
      sends = [];
      reply = ok (some (answer req.action_id status_ok [] []));
    }
    else if text_eq req.action (lit "publish_test")
    then handle_publish_test p req published
    else if text_eq req.action (lit "echo")
    then record {
      plugin = p;
      sends = [];
      reply = ok (some (answer req.action_id status_ok req.params_json []));
    }
    else record {
      plugin = p;
      sends = [];
      reply =
          ok (
            some (answer req.action_id status_not_found [] (lit "unknown action: " ++ req.action)));
    }

abbrev pub first_half : Bytes → Bytes
first_half full = take (length full / 2) full

abbrev pub second_half : Bytes → Bytes
second_half full = drop (length full / 2) full

-- The replies to a final chunk: two chunks and a response. A send that throws leaves the handler, and the stream
-- stays as it is. The last two arguments are what the sends give.
unfoldable pub finish_stream : EchoPlugin → Bytes → Result (Unit {0}) → Result (Unit {0}) → Handled
finish_stream p full (throws e) second = record {
  plugin = p;
  sends = action_response_chunk p.stream_action_id 0 (first_half full) ∷ [];
  reply = throws e;
}
finish_stream p full (ok done) (throws e) = record {
  plugin = p;
  sends =
      action_response_chunk p.stream_action_id 0 (first_half full)
      ∷ (action_response_chunk p.stream_action_id 1 (second_half full) ∷ []);
  reply = throws e;
}
finish_stream p full (ok done) (ok done') = record {
  plugin = idle;
  sends =
      action_response_chunk p.stream_action_id 0 (first_half full)
      ∷ (action_response_chunk p.stream_action_id 1 (second_half full) ∷ []);
  reply = ok (some (answer p.stream_action_id status_ok full []));
}

-- What the calls of the client give in one message: `publish_event`, and the two sends.
pub record Turn : Type 0 where
  pub published : Result PublishAck
  pub first : Result (Unit {0})
  pub second : Result (Unit {0})

abbrev pub silent : EchoPlugin → Handled
silent p = record { plugin = p; sends = []; reply = ok none }

unfoldable pub handle_request_chunk : EchoPlugin → Turn → Text → ℕ → Bytes → Bool → Handled
handle_request_chunk p turn action_id seq chunk is_final =
    let stored : EchoPlugin = record p { stream_chunks = assign seq chunk p.stream_chunks } in
    if not (text_eq action_id p.stream_action_id)
    then silent p
    else if not is_final
    then silent stored
    else finish_stream stored (joined stored.stream_chunks) turn.first turn.second

unfoldable pub on_message : EchoPlugin → Turn → Envelope → Handled
on_message p turn (action_request req) = handle_action p req turn.published
on_message p turn (action_request_chunk action_id seq chunk is_final) =
    handle_request_chunk p turn action_id seq chunk is_final
on_message p turn env = silent p

abbrev pub on_init : Sent
on_init = subscribe (lit "system.low_memory" ∷ [])

abbrev pub on_event : EchoPlugin → Event → Handled
on_event p ev = silent p
