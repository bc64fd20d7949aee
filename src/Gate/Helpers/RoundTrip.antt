-- ===== src/Gate/Helpers/RoundTrip.antt =====
-- src/confirmation_gate.cpp: the helpers of the caller and the gate, joined by what the kernel delivers.
use vynkor_sdk_cpp.Base.{
  ◌+◌, ◌*◌, ◌^◌, ◌<◌, ◌≤◌, ◌≡◌, refl, ap, sym, subst, ◌∙◌, true, false, Option, none, some, List,
  [], ◌∷◌, ◌++◌,
}
use vynkor_sdk_cpp.Base.Text.{Text, lit}
use vynkor_sdk_cpp.Error.{Result, ok}
use vynkor_sdk_cpp.Mac.{Bytes, OpenSsl}
use vynkor_sdk_cpp.Framing.Zstd.{Zstd}
use vynkor_sdk_cpp.Protocol.{Envelope, ActionRequest, ActionResponse, action_response, status_ok}
use vynkor_sdk_cpp.Response.{response_envelope}
use vynkor_sdk_cpp.Gate.Callers.{Config, may_confirm}
use vynkor_sdk_cpp.Gate.Pending.{Clocks, sweep_expired, find, pending_id}
use vynkor_sdk_cpp.Gate.Route.{State, Executor, route, request_reply}
use vynkor_sdk_cpp.Gate.Route.EndToEnd.{request_reply-id, route_request_then_confirm}
use vynkor_sdk_cpp.Gate.Helpers.{
  confirm_params, id_of, then_id, send_confirmation_request, send_confirmation,
}
use vynkor_sdk_cpp.Client.State.{VynkorClient}
use vynkor_sdk_cpp.Client.Requests.{ends_action, action_result}
use vynkor_sdk_cpp.Client.Receive.{Arrival}
use vynkor_sdk_cpp.Client.Replies.{action_of}
use vynkor_sdk_cpp.Client.Session.{outgoing, send_action}
use vynkor_sdk_cpp.Client.Session.Loop.{Awaited}
use vynkor_sdk_cpp.Client.Session.Waits.{ask_waiting-sent, send_action_returns}

-- What the kernel delivers of an action that `send_action` sent: with the sender's id as the caller.
abbrev pub delivered : Text → Text → Text → Bytes → ActionRequest
delivered caller action_id action params_json = record {
  action_id = action_id;
  action = action;
  params_json = params_json;
  timeout_ms = 0;
  streaming = false;
  caller_plugin_id = caller;
}

-- The reply of the gate to a request.
abbrev pub gate_reply : Config → Text → Text → Text → ActionResponse
gate_reply gate action_id id action = record {
  action_id = action_id;
  status = status_ok;
  data_json = request_reply gate id action;
  error = [];
}

module _ (o : OpenSsl) (z : Zstd) (serialize : Envelope → Bytes)
    (parse_from_array : Bytes → Option Envelope) where
  send_confirmation_request-id :
      (gate : Config) (written : Result (Unit {0})) (c : VynkorClient) (action_id id : Text)
      (params_json : Bytes) (arrivals : List Arrival) (frame : Bytes)
      → outgoing o z serialize parse_from_array written c
          (action_of action_id (lit "request_" ++ gate.op) params_json 0)
        ≡ ok frame
      → Awaited parse_from_array
          (ends_action action_id)
          c.reassembly
          arrivals
          (action_response (gate_reply gate action_id id (lit "request_" ++ gate.op)))
      → (send_confirmation_request o z serialize parse_from_array written c action_id gate.op
          params_json arrivals).outcome
        ≡ some (ok id)
  unfolding send_confirmation_request id_of
  send_confirmation_request-id gate written c action_id id params_json arrivals frame out awaited =
      let came =
        send_action_returns o z serialize parse_from_array written c (lit "request_" ++ gate.op)
          params_json 0 arrivals frame (gate_reply gate action_id id (lit "request_" ++ gate.op))
          out awaited in
      ap (then_id gate.op) came
      ∙ ap some (rw (request_reply-id gate id (lit "request_" ++ gate.op), id_of) refl)

  send_confirmation-sent :
      (written : Result (Unit {0})) (c : VynkorClient) (action_id op id : Text)
      (arrivals : List Arrival) (frame : Bytes)
      → outgoing o z serialize parse_from_array written c
          (action_of action_id (lit "confirm_" ++ op) (confirm_params id) 0)
        ≡ ok frame
      → (send_confirmation o z serialize parse_from_array written c action_id op id arrivals).sent
        ≡ frame ∷ []
  unfolding send_confirmation send_action
  send_confirmation-sent written c action_id op id arrivals frame out =
      ask_waiting-sent o z serialize parse_from_array written c
        (action_of action_id (lit "confirm_" ++ op) (confirm_params id) 0) (ends_action action_id)
        action_result arrivals frame out

-- One plugin calls `send_confirmation_request`, the gate routes the action that is delivered, and its reply is the
-- first envelope that ends the wait; an admitted plugin calls `send_confirmation` with the id that the first was
-- given, and the gate routes that within the lifetime of the request, on the same clock. The lifetime in
-- nanoseconds fits 63 bits. Then the first call
-- returns the id of the pending request, the second sends the frame of the confirmation, and the gate runs the
-- executor with the parameters of the request. The id is not pending before.
pub send_confirmation-route :
    (o : OpenSsl) (z : Zstd) (serialize : Envelope → Bytes)
    (parse_from_array : Bytes → Option Envelope) (gate : Config) (c1 c2 : Clocks) (s : State)
    (executor : Executor) (written1 written2 : Result (Unit {0})) (client1 client2 : VynkorClient)
    (caller1 caller2 id1 id2 : Text) (params_json : Bytes) (arrivals1 arrivals2 : List Arrival)
    (frame1 frame2 : Bytes) (reply : Envelope)
    → outgoing o z serialize parse_from_array written1 client1
        (action_of id1 (lit "request_" ++ gate.op) params_json 0)
      ≡ ok frame1
    → outgoing o z serialize parse_from_array written2 client2
        (action_of id2 (lit "confirm_" ++ gate.op) (confirm_params (pending_id c1.millis s.seq)) 0)
      ≡ ok frame2
    → (route gate c1 s
        (delivered caller1 id1 (lit "request_" ++ gate.op) params_json)
        executor).reply
      ≡ ok (reply ∷ [])
    → Awaited parse_from_array (ends_action id1) client1.reassembly arrivals1 reply
    → may_confirm gate caller2 ≡ true
    → find (pending_id c1.millis s.seq) (sweep_expired gate.pending_ttl c1.steady s.pending) ≡ none
    → c1.created ≤ c2.steady
    → c2.steady < c1.created + gate.pending_ttl * 1000000
    → gate.pending_ttl * 1000000 < 2 ^ 63
    → ((send_confirmation_request o z serialize parse_from_array written1 client1 id1 gate.op
          params_json arrivals1).outcome
        ≡ some (ok (pending_id c1.millis s.seq)))
      × ((send_confirmation o z serialize parse_from_array written2 client2 id2 gate.op
            (pending_id c1.millis s.seq)
            arrivals2).sent
          ≡ frame2 ∷ [])
      × ((route gate c2
            (route gate c1 s
              (delivered caller1 id1 (lit "request_" ++ gate.op) params_json)
              executor).state
            (delivered caller2 id2
              (lit "confirm_" ++ gate.op)
              (confirm_params (pending_id c1.millis s.seq)))
            executor).executed
          ≡ some params_json)
unfolding response_envelope
send_confirmation-route o z serialize parse_from_array gate c1 c2 s executor written1 written2
      client1 client2 caller1 caller2 id1 id2 params_json arrivals1 arrivals2 frame1 frame2 reply
      out1 out2 routed awaited allowed fresh later early small =
    let id = pending_id c1.millis s.seq in
    let request = delivered caller1 id1 (lit "request_" ++ gate.op) params_json in
    let (answered, read, executed) =
      route_request_then_confirm gate c1 c2 s request
        (delivered caller2 id2 (lit "confirm_" ++ gate.op) (confirm_params id)) executor refl refl
        allowed refl fresh later early small in
    let same : reply ≡ action_response (gate_reply gate id1 id (lit "request_" ++ gate.op)) =
      cc (sym routed ∙ answered) in
    (
      send_confirmation_request-id o z serialize parse_from_array gate written1 client1 id1 id
          params_json arrivals1 frame1 out1
          (subst
            (λ env. Awaited parse_from_array (ends_action id1) client1.reassembly arrivals1 env)
            same awaited),
      send_confirmation-sent o z serialize parse_from_array written2 client2 id2 gate.op id
          arrivals2 frame2 out2,
      executed,
    )
