-- ===== src/Plugin.antt =====
-- include/vynkor/plugin.hpp: `Plugin`, which registers a plugin and serves its messages. The handlers of a
-- plugin are virtual functions: what they give, and what each send gives, stands in the script of a run.
pub mod Shutdown
pub mod Tests
use vynkor_sdk_cpp.Base.{
  ℕ, Bool, true, false, Option, none, some, List, [], ◌∷◌, ◌++◌, if◌then◌else◌,
}
use vynkor_sdk_cpp.Base.Text.{Text, lit}
use vynkor_sdk_cpp.Error.{Exception, Result, ok, throws, permission_denied, ◌>>=◌}
use vynkor_sdk_cpp.Mac.{Bytes}
use vynkor_sdk_cpp.Protocol.{
  Envelope, Event, PluginRegisterAck, plugin_shutdown, event, event_ack, ping, pong,
}
use vynkor_sdk_cpp.Env.{WsCredentials, Kind, device, shared, no_credentials}
use vynkor_sdk_cpp.Client.State.{VynkorClient, connect_ws, connect_ws_device, connect_with_secret}

-- One pass of the receive loop: what `recv` gives, the clock for a pong, what the handler gives, and what the
-- sends of the pass give: the first of them (a pong, an acknowledgement or the reply to a message), and
-- the reply to an event.
pub record Turn : Type 0 where
  pub received : Result Envelope
  pub now : ℕ
  pub handled : Result (Option Envelope)
  pub first_send : Result (Unit {0})
  pub reply_send : Result (Unit {0})

-- What a run does, in order.
pub data Happened : Type 0 where
  initialised shut_down : Happened
  event_handled : Event → Happened
  message_handled : Envelope → Happened
  sends : Envelope → Happened

-- How a pass ends: the loop goes on, it is left, a handler's exception is captured, or an exception leaves
-- `serve` itself.
pub data Pass : Type 0 where
  goes_on left : Pass
  captured escaped : Exception → Pass

unfoldable pub on_ping : Turn → ℕ → List Happened × Pass
on_ping turn timestamp = (
  sends (pong timestamp turn.now) ∷ [],
  elim turn.first_send [ ok done ↦ goes_on | throws e ↦ escaped e ],
)

unfoldable pub on_event : Turn → Event → List Happened × Pass
on_event turn ev = elim turn.handled [
  | throws e ↦ (event_handled ev ∷ [], goes_on)
  | ok reply ↦ elim turn.first_send [
    | throws e ↦ (event_handled ev ∷ sends (event_ack ev.event_id) ∷ [], goes_on)
    | ok done ↦ elim reply [
      | none ↦ (event_handled ev ∷ sends (event_ack ev.event_id) ∷ [], goes_on)
      | some env ↦ (event_handled ev ∷ sends (event_ack ev.event_id) ∷ sends env ∷ [], goes_on)
    ]
  ]
]

unfoldable pub on_message : Turn → Envelope → List Happened × Pass
on_message turn env = elim turn.handled [
  | throws e ↦ (message_handled env ∷ [], captured e)
  | ok none ↦ (message_handled env ∷ [], goes_on)
  | ok (some reply) ↦ (
    message_handled env ∷ sends reply ∷ [],
    elim turn.first_send [ ok done ↦ goes_on | throws e ↦ captured e ],
  )
]

unfoldable pub dispatch : Turn → Envelope → List Happened × Pass
dispatch turn (plugin_shutdown reason grace) = ([], left)
dispatch turn (ping timestamp) = on_ping turn timestamp
dispatch turn (event ev) = on_event turn ev
dispatch turn env = on_message turn env

unfoldable pub pass : Turn → List Happened × Pass
pass turn = elim turn.received [ throws e ↦ ([], left) | ok env ↦ dispatch turn env ]

-- How the loop ends; it waits where the script ends.
pub data LoopEnd : Type 0 where
  finished loop_waits : LoopEnd
  handler_error send_error : Exception → LoopEnd

unfoldable pub serve_loop : List Turn → List Happened × LoopEnd
serve_loop [] = ([], loop_waits)
serve_loop (turn ∷ turns) =
    let rest = serve_loop turns in
    elim (pass turn).1 [
      | goes_on ↦ ((pass turn).0 ++ rest.0, rest.1)
      | left ↦ ((pass turn).0, finished)
      | captured e ↦ ((pass turn).0, handler_error e)
      | escaped e ↦ ((pass turn).0, send_error e)
    ]

-- What happened, whether `client_` is set afterwards, and how `serve` ends; none is a wait.
pub record Served : Type 0 where
  pub happened : List Happened
  pub client_set : Bool
  pub outcome : Option (Result (Unit {0}))

-- `on_shutdown`, then `client_` is cleared and `serve` ends with this result; an exception of `on_shutdown`
-- leaves instead, before `client_` is cleared.
unfoldable pub shut : Result (Unit {0}) → List Happened → Result (Unit {0}) → Served
shut stopped happened result = elim stopped [
  | ok done ↦ record {
    happened = initialised ∷ (happened ++ (shut_down ∷ []));
    client_set = false;
    outcome = some result;
  }
  | throws e ↦ record {
    happened = initialised ∷ (happened ++ (shut_down ∷ []));
    client_set = true;
    outcome = some (throws e);
  }
]

-- `stopped` is what `on_shutdown` gives.
unfoldable pub after_loop : Result (Unit {0}) → List Happened × LoopEnd → Served
after_loop stopped (happened, loop_waits) = record {
  happened = initialised ∷ happened;
  client_set = true;
  outcome = none;
}
after_loop stopped (happened, finished) = shut stopped happened (ok tt)
after_loop stopped (happened, handler_error e) = shut stopped happened (throws e)
after_loop stopped (happened, send_error e) = record {
  happened = initialised ∷ happened;
  client_set = true;
  outcome = some (throws e);
}

-- `registered` is what `register_full` gives, `started` what `on_init` gives.
unfoldable pub serve :
    Result PluginRegisterAck → Result (Unit {0}) → List Turn → Result (Unit {0}) → Served
serve registered started turns stopped = elim registered [
  | throws e ↦ record { happened = []; client_set = true; outcome = some (throws e) }
  | ok ack ↦
      if ack.accepted
      then elim started [
        | throws e ↦ shut stopped [] (throws e)
        | ok done ↦ after_loop stopped (serve_loop turns)
      ]
      else record {
        happened = [];
        client_set = false;
        outcome =
            some (throws (permission_denied (lit "registration rejected: " ++ ack.reject_reason)));
      }
]

-- The clients that `run_with` and `run_ws` serve, with the token and the secret that the environment gives.
unfoldable pub run_with : Option ℕ → Bool → Text → Result Bytes → Result VynkorClient
run_with socket connected socket_path secret =
    secret >>= λ s. connect_with_secret socket connected socket_path s

-- `handshake` is what `parse_ws_url` and the handshake give for a protocol header.
unfoldable pub run_ws :
    (Text → Result (Unit {0})) → Text → Result WsCredentials → Result VynkorClient
run_ws handshake token credentials = credentials >>= λ creds. elim creds.kind [
  | device ↦ connect_ws_device handshake token creds.device_id creds.secret
  | shared ↦ connect_ws handshake token creds.secret
  | no_credentials ↦ connect_ws handshake token creds.secret
]
