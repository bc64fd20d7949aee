-- ===== src/Client/Replies.antt =====
-- src/client.cpp: the requests of the exchanges with the kernel, and what each makes of its reply.
use vynkor_sdk_cpp.Base.{ℕ, ◌-◌, Bool, true, false, some, [], ◌∷◌, ◌++◌}
use vynkor_sdk_cpp.Base.Text.{Text, lit, to_string}
use vynkor_sdk_cpp.Error.{Result, ok, throws, internal, ◌>>=◌}
use vynkor_sdk_cpp.Mac.{Bytes, OpenSsl, derive_session_key}
use vynkor_sdk_cpp.Protocol.{
  Envelope, PluginManifest, PluginRegisterAck, plugin_register, plugin_register_ack, kernel_command,
  kernel_command_ack, action_request, error, event_publish, event_publish_ack, pong,
}
use vynkor_sdk_cpp.Client.State.{VynkorClient}

-- The registration that `register_full` sends to the kernel.
unfoldable pub register_request : VynkorClient → Text → Text → PluginManifest → Text → Envelope
register_request c plugin_id version manifest jwt_token = plugin_register (record {
  plugin_id = plugin_id;
  version = version;
  manifest = manifest;
  jwt_token = jwt_token;
  device_id = c.device_id;
})

-- The session key that an acknowledgement gives, with the old one where it gives none.
unfoldable pub keyed_with : OpenSsl → VynkorClient → Text → Bytes → Bytes → Result VynkorClient
keyed_with o c plugin_id [] nonce = ok c
keyed_with o c plugin_id (b ∷ secret) [] = ok c
keyed_with o c plugin_id (b ∷ secret) (n ∷ nonce) =
    derive_session_key o (b ∷ secret) (n ∷ nonce) plugin_id >>= λ key.
    ok (record c { session_key = some key })

abbrev pub keyed_session : OpenSsl → VynkorClient → Text → PluginRegisterAck → Result VynkorClient
keyed_session o c plugin_id ack = keyed_with o c plugin_id c.secret ack.session_nonce

-- What `register_full` makes of the reply: an exception leaves the client as it is.
unfoldable pub registered :
    OpenSsl → Text → VynkorClient → Envelope → VynkorClient × Result PluginRegisterAck
registered o plugin_id c (plugin_register_ack ack) = elim (keyed_session o c plugin_id ack) [
  | throws e ↦ (c, throws e)
  | ok c' ↦ (c', ok ack)
]
registered o plugin_id c (error code message details) = (
  c,
  throws
      (internal (lit "registration rejected: " ++ (message ++ (lit " (" ++ (details ++ lit ")"))))),
)
registered o plugin_id c _ = (c, throws (internal (lit "expected PluginRegisterAck")))

-- The request that `send_action` sends.
unfoldable pub action_of : Text → Text → Bytes → ℕ → Envelope
action_of action_id action params_json timeout_ms = action_request (record {
  action_id = action_id;
  action = action;
  params_json = params_json;
  timeout_ms = timeout_ms;
  streaming = false;
  caller_plugin_id = [];
})

-- From the milliseconds of the system clock and the counter of the process.
abbrev pub next_action_id : ℕ → ℕ → Text
next_action_id now_ms seq = lit "act-" ++ (to_string now_ms ++ (lit "-" ++ to_string seq))

abbrev pub publish_request : Text → Bytes → Envelope
publish_request event_type payload_json = event_publish event_type payload_json

unfoldable pub ends_publish : Envelope → Bool
ends_publish (event_publish_ack event_id status text) = true
ends_publish (error code message details) = true
ends_publish _ = false

abbrev pub PublishAck : Type 0
PublishAck = Text × ℕ × Text

-- An unset reply reads as the default acknowledgement.
unfoldable pub publish_result : Envelope → Result PublishAck
publish_result (error code message details) =
    throws (internal (lit "kernel error: " ++ (message ++ (lit " (" ++ (details ++ lit ")")))))
publish_result (event_publish_ack event_id status text) = ok (event_id, status, text)
publish_result _ = ok ([], 0, [])

abbrev pub command_request : Text → Text → Bytes → Envelope
command_request command_id command params_json = kernel_command command_id command params_json

abbrev pub CommandAck : Type 0
CommandAck = Text × ℕ × Bytes × Text

-- What `send_command` makes of the reply.
unfoldable pub command_result : Envelope → Result CommandAck
command_result (kernel_command_ack command_id status result_json text) =
    ok (command_id, status, result_json, text)
command_result _ = throws (internal (lit "expected KernelCommandAck"))

-- The latency, from two readings of the clock.
unfoldable pub pong_result : ℕ → ℕ → Envelope → Result ℕ
pong_result before after (pong original server) = ok (after - before)
pong_result before after _ = throws (internal (lit "expected Pong"))
