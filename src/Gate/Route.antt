-- ===== src/Gate/Route.antt =====
-- `ConfirmationGate::route`.
pub mod Safety
pub mod Trace
pub mod EndToEnd
use vynkor_sdk_cpp.Base.{
  ℕ, ◌+◌, ◌-◌, ◌/◌, ◌^◌, ◌==◌, Bool, true, false, not, Option, none, some, List, [], ◌∷◌, ◌++◌,
  drop, if◌then◌else◌, text_eq,
}
use vynkor_sdk_cpp.Base.Text.{Text, lit, starts_with, to_string}
use vynkor_sdk_cpp.Error.{Result, ok, throws, Exception}
use vynkor_sdk_cpp.Mac.{Bytes}
use vynkor_sdk_cpp.Protocol.{
  ActionRequest, ActionResult, Envelope, action_response, status_not_found,
}
use vynkor_sdk_cpp.Response.{response_envelope, result_ok, result_err}
use vynkor_sdk_cpp.Gate.Json.{json_escape, json_find_string}
use vynkor_sdk_cpp.Gate.Callers.{Config, may_confirm}
use vynkor_sdk_cpp.Gate.Pending.{
  PendingAction, PendingMap, Clocks, store_request, take_pending, is_negative,
}

-- The pending map of the gate and the counter of the process.
pub record State : Type 0 where
  pub pending : PendingMap
  pub seq : ℕ

-- The state after the call, what the executor was called with, and the reply or the exception.
pub record Outcome : Type 0 where
  pub state : State
  pub executed : Option Bytes
  pub reply : Result (List Envelope)

abbrev pub Executor : Type 0
Executor = Bytes → Result ActionResult

unfoldable pub not_found : Text → List Envelope
not_found action_id =
    action_response (record {
      action_id = action_id;
      status = status_not_found;
      data_json = [];
      error = lit "unknown action";
    })
    ∷ []

abbrev pub answer : State → Text → ActionResult → Outcome
answer s action_id result = record {
  state = s;
  executed = none;
  reply = ok (response_envelope action_id result ∷ []);
}

abbrev pub unknown : State → Text → Outcome
unknown s action_id = record { state = s; executed = none; reply = ok (not_found action_id) }

-- "a, b, c"
unfoldable pub join_callers : List Text → Text
join_callers [] = []
join_callers (c ∷ []) = c
join_callers (c ∷ d ∷ cs) = c ++ (lit ", " ++ join_callers (d ∷ cs))

-- The lifetime in whole seconds, rounded towards zero.
unfoldable pub ttl_secs : ℕ → Text
ttl_secs ttl =
    let below = (2 ^ 64 - ttl) / 1000 in
    if not (is_negative ttl)
    then to_string (ttl / 1000)
    else if below == 0
    then to_string 0
    else b'-' ∷ to_string below

unfoldable pub request_reply : Config → Text → Text → Bytes
request_reply gate id action =
    lit "{\"pending_id\":\""
    ++ (json_escape id
        ++ (lit "\",\"action\":\""
            ++ (json_escape action
                ++ (lit "\",\"ttl_secs\":" ++ (ttl_secs gate.pending_ttl ++ lit "}")))))

unfoldable pub route_request : Config → Clocks → State → ActionRequest → Outcome
route_request gate clocks s req =
    if not (text_eq (drop 8 req.action) gate.op)
    then unknown s req.action_id
    else let (id, pending, seq) = store_request gate.pending_ttl clocks s.seq s.pending req in
      answer (record { pending = pending; seq = seq }) req.action_id
        (result_ok (request_reply gate id req.action))

-- The executor's result is answered; what it throws leaves `route`, after the entry was erased.
unfoldable pub executed_with : State → Text → Bytes → Result ActionResult → Outcome
executed_with s action_id params (ok result) = record {
  state = s;
  executed = some params;
  reply = ok (response_envelope action_id result ∷ []);
}
executed_with s action_id params (throws e) = record {
  state = s;
  executed = some params;
  reply = throws e;
}

unfoldable pub denied_message : Config → Text → Text
denied_message gate caller =
    lit "permission denied: caller "
    ++ (caller
        ++ (lit " may not confirm "
            ++ (gate.op
                ++ (lit " (approved callers: " ++ (join_callers gate.confirm_callers ++ lit ")")))))

-- With the parsed `pending_id` of the parameters.
unfoldable pub confirm_pending : Config → Clocks → State → ActionRequest → Executor → Text → Outcome
confirm_pending gate clocks s req executor id =
    let (found, pending) = take_pending gate.pending_ttl clocks.steady s.pending id in
    elim found [
      | none ↦
          answer (record s { pending = pending }) req.action_id
            (result_err (lit "no pending " ++ (gate.op ++ (lit " request with id " ++ id))))
      | some p ↦
          executed_with (record s { pending = pending }) req.action_id p.params (executor p.params)
    ]

unfoldable pub route_confirm : Config → Clocks → State → ActionRequest → Executor → Outcome
route_confirm gate clocks s req executor =
    if not (text_eq (drop 8 req.action) gate.op)
    then unknown s req.action_id
    else if not (may_confirm gate req.caller_plugin_id)
    then answer s req.action_id (result_err (denied_message gate req.caller_plugin_id))
    else elim (json_find_string req.params_json (lit "pending_id")) [
      | throws e ↦ record { state = s; executed = none; reply = throws e }
      | ok none ↦ answer s req.action_id (
          result_err
            (lit "invalid confirm params: confirm params must include a string pending_id"))
      | ok (some id) ↦ confirm_pending gate clocks s req executor id
    ]

unfoldable pub route : Config → Clocks → State → ActionRequest → Executor → Outcome
route gate clocks s req executor =
    if starts_with req.action (lit "request_")
    then route_request gate clocks s req
    else if starts_with req.action (lit "confirm_")
    then route_confirm gate clocks s req executor
    else unknown s req.action_id
