-- ===== src/Gate/Helpers.antt =====
-- src/confirmation_gate.cpp: the caller's side of the gate, on top of `send_action`. The id of the action comes
-- from the counter of the process.
pub mod RoundTrip
pub mod Tests
use vynkor_sdk_cpp.Base.{ℕ, Option, none, some, List, ◌++◌}
use vynkor_sdk_cpp.Base.Text.{Text, lit}
use vynkor_sdk_cpp.Error.{Result, ok, throws, internal, ◌>>=◌}
use vynkor_sdk_cpp.Mac.{Bytes, OpenSsl}
use vynkor_sdk_cpp.Framing.Zstd.{Zstd}
use vynkor_sdk_cpp.Protocol.{Envelope, ActionStatus, ActionResponse, status_ok}
use vynkor_sdk_cpp.Gate.Json.{json_escape, json_find_string}
use vynkor_sdk_cpp.Client.State.{VynkorClient}
use vynkor_sdk_cpp.Client.Receive.{Arrival}
use vynkor_sdk_cpp.Client.Session.{Exchange, send_action}

-- The parameters that `send_confirmation` sends.
unfoldable pub confirm_params : Text → Bytes
confirm_params id = lit "{\"pending_id\":\"" ++ (json_escape id ++ lit "\"}")

abbrev pub named_id : Option Text → Result Text
named_id none = throws (internal (lit "pending response missing pending_id"))
named_id (some id) = ok id

abbrev pub id_for : Text → ActionStatus → Bytes → Text → Result Text
id_for op status_ok data_json error =
    json_find_string data_json (lit "pending_id") >>= λ found. named_id found
id_for op _ data_json error =
    throws (internal (lit "request_" ++ (op ++ (lit " failed: " ++ error))))

-- What `send_confirmation_request` makes of the response.
unfoldable pub id_of : Text → ActionResponse → Result Text
id_of op resp = id_for op resp.status resp.data_json resp.error

abbrev pub then_id : Text → Option (Result ActionResponse) → Option (Result Text)
then_id op none = none
then_id op (some (throws e)) = some (throws e)
then_id op (some (ok resp)) = some (id_of op resp)

module _ (o : OpenSsl) (z : Zstd) (serialize : Envelope → Bytes)
    (parse_from_array : Bytes → Option Envelope) where
  unfoldable pub send_confirmation_request :
      Result (Unit {0}) → VynkorClient → Text → Text → Bytes → List Arrival → Exchange Text
  send_confirmation_request written c action_id op params_json arrivals =
      let asked =
        send_action o z serialize parse_from_array written c action_id (lit "request_" ++ op)
          params_json 0 arrivals in
      record {
        client = asked.client;
        sent = asked.sent;
        later = asked.later;
        outcome = then_id op asked.outcome;
      }

  unfoldable pub send_confirmation :
      Result (Unit {0}) → VynkorClient → Text → Text → Text → List Arrival → Exchange ActionResponse
  send_confirmation written c action_id op pending_id arrivals =
      send_action o z serialize parse_from_array written c action_id (lit "confirm_" ++ op)
        (confirm_params pending_id) 0 arrivals
