-- ===== src/Client/Session.antt =====
-- src/client.cpp: the exchanges with the kernel: a request is sent, and replies are read until one ends the
-- exchange. `serialize` and `parse_from_array` are the protobuf code, `written` is what the transport gives for
-- the frame of the request, and the arrivals are what it gives to the reads.
pub mod Loop
pub mod Deadline
pub mod Waits
pub mod Register
pub mod Tests
use vynkor_sdk_cpp.Base.{
  ℕ, zero, suc, ◌+◌, ◌-◌, Bool, true, false, Option, none, some, List, [], ◌∷◌, ◌++◌, length, leb,
  if◌then◌else◌,
}
use vynkor_sdk_cpp.Base.Text.{Text, lit, to_string}
use vynkor_sdk_cpp.Error.{Exception, Result, ok, throws, internal, timeout, ◌>>=◌}
use vynkor_sdk_cpp.Mac.{Bytes, OpenSsl, derive_session_key}
use vynkor_sdk_cpp.Framing.Zstd.{Zstd}
use vynkor_sdk_cpp.Protocol.{
  Envelope, PluginManifest, PluginRegisterAck, ActionResponse, plugin_register, plugin_register_ack,
  kernel_command, kernel_command_ack, action_request, error, event_publish, event_publish_ack, pong,
}
use vynkor_sdk_cpp.Client.State.{VynkorClient}
use vynkor_sdk_cpp.Client.Reassembly.{Streams}
use vynkor_sdk_cpp.Client.Requests.{ends_action, action_result}
use vynkor_sdk_cpp.Client.Send.{send}
use vynkor_sdk_cpp.Client.Receive.{
  Arrival, Received, complete, receive_throws, receive_waits, recv_frame, parsed, recv,
}
use vynkor_sdk_cpp.Client.Replies.{
  register_request, keyed_with, keyed_session, registered, action_of, next_action_id,
  publish_request, ends_publish, PublishAck, publish_result, command_request, CommandAck,
  command_result, pong_result,
}

-- The client afterwards, the frames that were written whole, the arrivals that were not read, and what the call
-- gives; none is a wait for a frame that does not arrive.
pub record Exchange {ℓ} (A : Type ℓ) : Type ℓ where
  pub client : VynkorClient
  pub sent : List Bytes
  pub later : List Arrival
  pub outcome : Option (Result A)

-- How the loop of `wait_for_response` ends.
pub data Waited : Type 0 where
  responded : Envelope → List Arrival → Waited
  wait_throws : Exception → List Arrival → Waited
  still_waiting out_of_fuel : Waited

-- The loop of `wait_for_response`, at most so many rounds.
unfoldable pub wait_loop :
    (Bytes → Option Envelope) → (Envelope → Bool) → ℕ → Streams → List Arrival → Streams × Waited
wait_loop parse_from_array is_terminal zero m arrivals = (m, out_of_fuel)
wait_loop parse_from_array is_terminal (suc fuel) m arrivals = elim (recv_frame m arrivals).1 [
  | receive_waits ↦ ((recv_frame m arrivals).0, still_waiting)
  | receive_throws e later ↦ ((recv_frame m arrivals).0, wait_throws e later)
  | complete frame later ↦ elim (parsed parse_from_array frame) [
    | throws e ↦ ((recv_frame m arrivals).0, wait_throws e later)
    | ok resp ↦ elim (is_terminal resp) [
      | true ↦ ((recv_frame m arrivals).0, responded resp later)
      | false ↦ wait_loop parse_from_array is_terminal fuel (recv_frame m arrivals).0 later
    ]
  ]
]

-- Each round reads an arrival or is the last. The reads are `recv_frame_with_deadline`, all with one deadline:
-- where it passes, the read of the arrival throws.
unfoldable pub wait_for_response :
    (Bytes → Option Envelope) → (Envelope → Bool) → Streams → List Arrival → Streams × Waited
wait_for_response parse_from_array is_terminal m arrivals =
    wait_loop parse_from_array is_terminal (suc (length arrivals)) m arrivals

-- The reads of a Unix socket with this deadline, each with the steady clock at its first round: from the deadline
-- on, `read_frame_full_with_deadline` throws `VynkorTimeout`.
unfoldable pub within : ℕ → List (ℕ × Arrival) → List Arrival
within deadline [] = []
within deadline ((clock, a) ∷ more) =
    let rest = within deadline more in
    (if leb deadline clock then record a { read = throws timeout } else a) ∷ rest

module _ (o : OpenSsl) (z : Zstd) (serialize : Envelope → Bytes)
    (parse_from_array : Bytes → Option Envelope) where
  -- A request to the kernel.
  abbrev pub outgoing : Result (Unit {0}) → VynkorClient → Envelope → Result Bytes
  outgoing written c env =
      send o z serialize c (lit "kernel") env >>= λ frame. written >>= λ done. ok frame

  -- `send`, then `recv`, and what the call makes of the reply.
  unfoldable pub ask {ℓ} :
      {A : Type ℓ}
      → Result (Unit {0})
      → VynkorClient
      → Envelope
      → (VynkorClient → Envelope → VynkorClient × Result A)
      → List Arrival
      → Exchange A
  ask written c env next arrivals = elim (outgoing written c env) [
    | throws e ↦ record { client = c; sent = []; later = arrivals; outcome = some (throws e) }
    | ok frame ↦
        let c' : VynkorClient = record c {
          reassembly = (recv parse_from_array c.reassembly arrivals).0;
        } in
        elim (recv parse_from_array c.reassembly arrivals).1 [
          | none ↦ record { client = c'; sent = frame ∷ []; later = []; outcome = none }
          | some (throws e, later) ↦ record {
            client = c';
            sent = frame ∷ [];
            later = later;
            outcome = some (throws e);
          }
          | some (ok reply, later) ↦ record {
            client = (next c' reply).0;
            sent = frame ∷ [];
            later = later;
            outcome = some (next c' reply).1;
          }
        ]
  ]

  -- `send`, then `wait_for_response`, and what the call makes of the reply.
  unfoldable pub ask_waiting {ℓ} :
      {A : Type ℓ}
      → Result (Unit {0})
      → VynkorClient
      → Envelope
      → (Envelope → Bool)
      → (Envelope → Result A)
      → List Arrival
      → Exchange A
  ask_waiting written c env is_terminal result arrivals = elim (outgoing written c env) [
    | throws e ↦ record { client = c; sent = []; later = arrivals; outcome = some (throws e) }
    | ok frame ↦
        let c' : VynkorClient = record c {
          reassembly = (wait_for_response parse_from_array is_terminal c.reassembly arrivals).0;
        } in
        elim (wait_for_response parse_from_array is_terminal c.reassembly arrivals).1 [
          | responded resp later ↦ record {
            client = c';
            sent = frame ∷ [];
            later = later;
            outcome = some (result resp);
          }
          | wait_throws e later ↦ record {
            client = c';
            sent = frame ∷ [];
            later = later;
            outcome = some (throws e);
          }
          | still_waiting ↦ record { client = c'; sent = frame ∷ []; later = []; outcome = none }
          | out_of_fuel ↦ record { client = c'; sent = frame ∷ []; later = []; outcome = none }
        ]
  ]

  unfoldable pub register_full :
      Result (Unit {0})
      → VynkorClient
      → Text
      → Text
      → PluginManifest
      → Text
      → List Arrival
      → Exchange PluginRegisterAck
  register_full written c plugin_id version manifest jwt_token arrivals =
      ask written c (register_request c plugin_id version manifest jwt_token)
        (registered o plugin_id) arrivals

  abbrev pub register_with_token :
      Result (Unit {0})
      → VynkorClient
      → Text
      → PluginManifest
      → Text
      → List Arrival
      → Exchange PluginRegisterAck
  register_with_token written c plugin_id manifest jwt_token arrivals =
      register_full written c plugin_id (lit "1.0.0") manifest jwt_token arrivals

  abbrev pub register_plugin :
      Result (Unit {0})
      → VynkorClient
      → Text
      → PluginManifest
      → List Arrival
      → Exchange PluginRegisterAck
  register_plugin written c plugin_id manifest arrivals =
      register_with_token written c plugin_id manifest [] arrivals

  unfoldable pub send_action :
      Result (Unit {0})
      → VynkorClient
      → Text
      → Text
      → Bytes
      → ℕ
      → List Arrival
      → Exchange ActionResponse
  send_action written c action_id action params_json timeout_ms arrivals =
      ask_waiting written c (action_of action_id action params_json timeout_ms)
        (ends_action action_id) action_result arrivals

  unfoldable pub publish_event :
      Result (Unit {0}) → VynkorClient → Text → Bytes → List Arrival → Exchange PublishAck
  publish_event written c event_type payload_json arrivals =
      ask_waiting written c (publish_request event_type payload_json) ends_publish publish_result
        arrivals

  unfoldable pub send_command :
      Result (Unit {0}) → VynkorClient → Text → Text → Bytes → List Arrival → Exchange CommandAck
  send_command written c command_id command params_json arrivals =
      ask written c (command_request command_id command params_json)
        (λ c' reply. (c', command_result reply)) arrivals

  -- `stamp` is the system clock, `before` and `after` are the steady one.
  unfoldable pub ping : Result (Unit {0}) → VynkorClient → ℕ → ℕ → ℕ → List Arrival → Exchange ℕ
  ping written c stamp before after arrivals =
      ask written c (Envelope.ping stamp) (λ c' reply. (c', pong_result before after reply))
        arrivals
