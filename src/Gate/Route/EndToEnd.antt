-- ===== src/Gate/Route/EndToEnd.antt =====
-- A request and its confirmation: the id in the reply is the id that confirms.
use vynkor_sdk_cpp.Base.{
  ℕ, ◌+◌, ◌-◌, ◌*◌, ◌%◌, ◌^◌, ◌<◌, lt→leb_false, ◌≤◌, ◌≡◌, refl, ap, ◌∙◌, arith, true, false, none,
  some, [], ◌∷◌, ◌++◌, drop, text_eq, text_eq_refl,
}
use vynkor_sdk_cpp.Base.Text.{Text, lit, starts_with, starts_with-append}
use vynkor_sdk_cpp.Error.{ok}
use vynkor_sdk_cpp.Protocol.{ActionRequest}
use vynkor_sdk_cpp.Response.{response_envelope, result_ok}
use vynkor_sdk_cpp.Gate.Json.{json_escape, json_find_string}
use vynkor_sdk_cpp.Gate.Json.Escape.{json_find_string-json_escape}
use vynkor_sdk_cpp.Gate.Helpers.{confirm_params}
use vynkor_sdk_cpp.Gate.Callers.{Config, may_confirm}
use vynkor_sdk_cpp.Gate.Pending.{
  PendingAction, Clocks, is_expired, sweep_expired, find, store_request, take_pending, pending_id,
}
use vynkor_sdk_cpp.Gate.Pending.Laws.{find-emplace, find-sweep_expired_fresh}
use vynkor_sdk_cpp.Gate.Route.{
  State, Executor, route, route_request, confirm_pending, executed_with, request_reply, ttl_secs,
}
use vynkor_sdk_cpp.Gate.Route.Safety.{
  route_starts_request, route_starts_confirm, route_confirm_parsed,
}

-- An object whose first member is `pending_id`, with what follows the value.
abbrev id_object : Text → Text → Text
id_object id rest =
    b'{'
    ∷ ((0x22 ∷ (lit "pending_id" ++ (0x22 ∷ [])))
        ++ (b':' ∷ 0x22 ∷ (json_escape id ++ (0x22 ∷ rest))))

request_reply_lem :
    (gate : Config) (id action : Text)
    → request_reply gate id action
      ≡ id_object id (
          lit ",\"action\":\""
          ++ (json_escape action
              ++ (lit "\",\"ttl_secs\":" ++ (ttl_secs gate.pending_ttl ++ lit "}"))))
unfolding request_reply lit
request_reply_lem gate id action = refl

confirm_params_lem : (id : Text) → confirm_params id ≡ id_object id (lit "}")
unfolding confirm_params lit
confirm_params_lem id = refl

-- The id in the reply to a request, and in the parameters of a confirmation, is read back.
pub request_reply-id :
    (gate : Config) (id action : Text)
    → json_find_string (request_reply gate id action) (lit "pending_id") ≡ ok (some id)
request_reply-id gate id action =
    rw (request_reply_lem gate id action) (json_find_string-json_escape (lit "pending_id") id _)

confirm_params-id :
    (id : Text) → json_find_string (confirm_params id) (lit "pending_id") ≡ ok (some id)
confirm_params-id id =
    rw (confirm_params_lem id) (json_find_string-json_escape (lit "pending_id") id _)

drop_request : (op : Text) → drop 8 (lit "request_" ++ op) ≡ op
unfolding lit
drop_request op = refl

drop_confirm : (op : Text) → drop 8 (lit "confirm_" ++ op) ≡ op
unfolding lit
drop_confirm op = refl

module _ (gate : Config) (clocks : Clocks) (s : State) (req : ActionRequest)
    (executor : Executor) where
  route_request_lem :
      req.action ≡ lit "request_" ++ gate.op
      → route gate clocks s req executor ≡ record {
        state = record {
          pending = (store_request gate.pending_ttl clocks s.seq s.pending req).1;
          seq = (store_request gate.pending_ttl clocks s.seq s.pending req).2;
        };
        executed = none;
        reply = ok (
            response_envelope req.action_id
              (result_ok (request_reply gate (pending_id clocks.millis s.seq) req.action))
            ∷ []);
      }
  unfolding route_request store_request
  route_request_lem a =
      let starts : starts_with req.action (lit "request_") ≡ true =
        rw a (starts_with-append (lit "request_") gate.op) in
      let op : text_eq (drop 8 req.action) gate.op ≡ true =
        rw (ap (drop 8) a ∙ drop_request gate.op) (text_eq_refl gate.op) in
      route_starts_request gate clocks s req executor starts ∙ rw (op, route_request)

  route_confirm_lem :
      (id : Text) (p : PendingAction)
      → req.action ≡ lit "confirm_" ++ gate.op
      → may_confirm gate req.caller_plugin_id ≡ true
      → req.params_json ≡ confirm_params id
      → find id s.pending ≡ some p
      → is_expired gate.pending_ttl clocks.steady p ≡ false
      → (route gate clocks s req executor).executed ≡ some p.params
  unfolding confirm_pending take_pending executed_with
  route_confirm_lem id p a allowed named held fresh =
      let starts : starts_with req.action (lit "confirm_") ≡ true =
        rw a (starts_with-append (lit "confirm_") gate.op) in
      let op : text_eq (drop 8 req.action) gate.op ≡ true =
        rw (ap (drop 8) a ∙ drop_confirm gate.op) (text_eq_refl gate.op) in
      let parsed : json_find_string req.params_json (lit "pending_id") ≡ ok (some id) =
        rw named (confirm_params-id id) in
      let kept =
        find-sweep_expired_fresh id gate.pending_ttl clocks.steady s.pending p held fresh in
      rw
        (
          route_starts_confirm gate clocks s req executor starts,
          route_confirm_parsed gate clocks s req executor id op allowed parsed,
        )
        (ground (arith, kept))

is_expired-early :
    (ttl now : ℕ) (p : PendingAction)
    → p.created_at ≤ now
    → now < p.created_at + ttl * 1000000
    → ttl * 1000000 < 2 ^ 63
    → is_expired ttl now p ≡ false
unfolding is_expired
is_expired-early ttl now p later early small =
    let whole : ttl * 1000000 % 2 ^ 64 ≡ ttl * 1000000 = omega arith in
    rw
      (
        whole,
        lt→leb_false (2 ^ 63) (ttl * 1000000) small,
        lt→leb_false (ttl * 1000000) (now - p.created_at) (omega arith),
        is_expired,
      )
      refl

-- A caller requests the operation; its pending id is fresh, and an admitted caller confirms with that id
-- on the same steady clock, before the lifetime has passed; in nanoseconds that
-- fits 63 bits. Then the reply to the request carries the id, where
-- `send_confirmation_request` reads it, and the confirmation, as `send_confirmation` writes it, runs the
-- executor with the parameters of the request.
pub route_request_then_confirm :
    (gate : Config) (c1 c2 : Clocks) (s : State) (req conf : ActionRequest) (executor : Executor)
    → req.action ≡ lit "request_" ++ gate.op
    → conf.action ≡ lit "confirm_" ++ gate.op
    → may_confirm gate conf.caller_plugin_id ≡ true
    → conf.params_json ≡ confirm_params (pending_id c1.millis s.seq)
    → find (pending_id c1.millis s.seq) (sweep_expired gate.pending_ttl c1.steady s.pending) ≡ none
    → c1.created ≤ c2.steady
    → c2.steady < c1.created + gate.pending_ttl * 1000000
    → gate.pending_ttl * 1000000 < 2 ^ 63
    → ((route gate c1 s req executor).reply
        ≡ ok (
            response_envelope req.action_id
              (result_ok (request_reply gate (pending_id c1.millis s.seq) req.action))
            ∷ []))
      × (json_find_string
            (request_reply gate (pending_id c1.millis s.seq) req.action)
            (lit "pending_id")
          ≡ ok (some (pending_id c1.millis s.seq)))
      × ((route gate c2 (route gate c1 s req executor).state conf executor).executed
          ≡ some req.params_json)
unfolding store_request
route_request_then_confirm gate c1 c2 s req conf executor a b allowed named fresh later early
      small =
    let id = pending_id c1.millis s.seq in
    let p : PendingAction = record {
      action = req.action;
      params = req.params_json;
      caller_plugin_id = req.caller_plugin_id;
      created_at = c1.created;
    } in
    let asked = route_request_lem gate c1 s req executor a in
    (
      rw asked,
      request_reply-id gate id req.action,
      rw asked (
          route_confirm_lem gate c2 _ conf executor id p b allowed named
            (find-emplace id p (sweep_expired gate.pending_ttl c1.steady s.pending) fresh)
            (is_expired-early gate.pending_ttl c2.steady p later early small)),
    )
