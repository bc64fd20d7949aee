-- ===== src/Gate/Route/Safety.antt =====
-- When the executor runs, and with what; what a denied caller sees.
use vynkor_sdk_cpp.Base.{
  ◌≡◌, refl, arith, true, false, Option, none, some, [], ◌∷◌, drop, text_eq, text_eq_sound,
  Bool-cases, Option-cases, inl, inr,
}
use vynkor_sdk_cpp.Base.Text.{Text, lit, starts_with}
use vynkor_sdk_cpp.Error.{Result, ok, throws}
use vynkor_sdk_cpp.Mac.{Bytes}
use vynkor_sdk_cpp.Protocol.{ActionRequest}
use vynkor_sdk_cpp.Response.{result_err}
use vynkor_sdk_cpp.Gate.Json.{json_find_string}
use vynkor_sdk_cpp.Gate.Callers.{Config, may_confirm}
use vynkor_sdk_cpp.Gate.Pending.{
  PendingAction, PendingMap, Clocks, is_expired, sweep_expired, find, erase, take_pending,
}
use vynkor_sdk_cpp.Gate.Pending.Laws.{find-sweep_expired}
use vynkor_sdk_cpp.Gate.Route.{
  State, Executor, route, route_request, route_confirm, confirm_pending, executed_with, answer,
  unknown, denied_message,
}

-- An entry that the call takes out of the map and hands to the executor.
pub record Released (gate : Config) (clocks : Clocks) (s : State) (req : ActionRequest)
    (params : Bytes) (after : PendingMap) : Type 0 where
  pub id : Text
  pub entry : PendingAction
  pub named : json_find_string req.params_json (lit "pending_id") ≡ ok (some id)
  pub found : find id (sweep_expired gate.pending_ttl clocks.steady s.pending) ≡ some entry
  pub alive : is_expired gate.pending_ttl clocks.steady entry ≡ false
  pub stored : entry.params ≡ params
  pub removed : after ≡ erase id (sweep_expired gate.pending_ttl clocks.steady s.pending)

confirm-not_request :
    (action : Text)
    → starts_with action (lit "confirm_") ≡ true
    → starts_with action (lit "request_") ≡ false
unfolding lit starts_with
confirm-not_request [] h = refl
confirm-not_request (c ∷ action) h = ground (arith, h)

module _ (gate : Config) (clocks : Clocks) (s : State) (req : ActionRequest)
    (executor : Executor) where
  confirm_pending-Released :
      (id : Text) (params : Bytes)
      → json_find_string req.params_json (lit "pending_id") ≡ ok (some id)
      → (confirm_pending gate clocks s req executor id).executed ≡ some params
      → Released gate clocks s req params
          (confirm_pending gate clocks s req executor id).state.pending
  unfolding confirm_pending take_pending executed_with
  confirm_pending-Released id params named h =
      elim (Option-cases (find id (sweep_expired gate.pending_ttl clocks.steady s.pending))) [
        | inl e ↦ cc (rw (e, confirm_pending, take_pending) at h)
        | inr (p, e) ↦ record {
          id = id;
          entry = p;
          named = named;
          found = e;
          alive = find-sweep_expired id gate.pending_ttl clocks.steady s.pending p e;
          stored = ground (arith, e, h);
          removed = ground (arith, e);
        }
      ]

  -- A caller that the list does not admit is answered from the configuration alone.
  route_confirm_denied :
      text_eq (drop 8 req.action) gate.op ≡ true
      → may_confirm gate req.caller_plugin_id ≡ false
      → route_confirm gate clocks s req executor
        ≡ answer s req.action_id (result_err (denied_message gate req.caller_plugin_id))
  unfolding route_confirm
  route_confirm_denied op denied = rw (op, denied, route_confirm)

  route_confirm_other :
      text_eq (drop 8 req.action) gate.op ≡ false
      → route_confirm gate clocks s req executor ≡ unknown s req.action_id
  unfolding route_confirm
  route_confirm_other op = rw (op, route_confirm)

  pub route_confirm_parsed :
      (id : Text)
      → text_eq (drop 8 req.action) gate.op ≡ true
      → may_confirm gate req.caller_plugin_id ≡ true
      → json_find_string req.params_json (lit "pending_id") ≡ ok (some id)
      → route_confirm gate clocks s req executor ≡ confirm_pending gate clocks s req executor id
  unfolding route_confirm
  route_confirm_parsed id op allowed named = rw (op, allowed, named, route_confirm)

  -- The pending id of the parameters, once they were read.
  parsed-Released :
      (parsed : Result (Option Text)) (params : Bytes)
      → text_eq (drop 8 req.action) gate.op ≡ true
      → may_confirm gate req.caller_plugin_id ≡ true
      → json_find_string req.params_json (lit "pending_id") ≡ parsed
      → (route_confirm gate clocks s req executor).executed ≡ some params
      → Released gate clocks s req params (route_confirm gate clocks s req executor).state.pending
  unfolding route_confirm
  parsed-Released (throws e) params op allowed q h = cc (rw (op, allowed, q, route_confirm) at h)
  parsed-Released (ok none) params op allowed q h = cc (rw (op, allowed, q, route_confirm) at h)
  parsed-Released (ok (some id)) params op allowed q h =
      let e = route_confirm_parsed id op allowed q in
      rw e (confirm_pending-Released id params q (rw e at h))

  confirm-Released :
      (params : Bytes)
      → (route_confirm gate clocks s req executor).executed ≡ some params
      → (drop 8 req.action ≡ gate.op)
        × (may_confirm gate req.caller_plugin_id ≡ true)
        × Released gate clocks s req params (route_confirm gate clocks s req executor).state.pending
  confirm-Released params h = elim (Bool-cases (text_eq (drop 8 req.action) gate.op)) [
    | inr other ↦ cc (rw (route_confirm_other other) at h)
    | inl op ↦ elim (Bool-cases (may_confirm gate req.caller_plugin_id)) [
      | inr denied ↦ cc (rw (route_confirm_denied op denied) at h)
      | inl allowed ↦ (
        text_eq_sound _ _ op,
        allowed,
        parsed-Released (json_find_string req.params_json (lit "pending_id")) params op allowed refl
            h,
      )
    ]
  ]

  route_request-executed : (route_request gate clocks s req).executed ≡ none
  unfolding route_request
  route_request-executed = ground arith

  -- Which of the three parts of `route` answers.
  pub route_starts_request :
      starts_with req.action (lit "request_") ≡ true
      → route gate clocks s req executor ≡ route_request gate clocks s req
  unfolding route
  route_starts_request h = rw (h, route)

  pub route_starts_confirm :
      starts_with req.action (lit "confirm_") ≡ true
      → route gate clocks s req executor ≡ route_confirm gate clocks s req executor
  unfolding route
  route_starts_confirm h = rw (confirm-not_request req.action h, h, route)

  pub route_starts_other :
      starts_with req.action (lit "request_") ≡ false
      → starts_with req.action (lit "confirm_") ≡ false
      → route gate clocks s req executor ≡ unknown s req.action_id
  unfolding route
  route_starts_other h k = rw (h, k, route)

-- The executor runs only for a call of `confirm_<op>` by an admitted caller that names, by its
-- `pending_id`, an entry which has not run out; it runs with the parameters stored in that entry, and
-- the entry is erased.
pub route-executed :
    (gate : Config) (clocks : Clocks) (s : State) (req : ActionRequest) (executor : Executor)
    (params : Bytes)
    → (route gate clocks s req executor).executed ≡ some params
    → (starts_with req.action (lit "confirm_") ≡ true)
      × (drop 8 req.action ≡ gate.op)
      × (may_confirm gate req.caller_plugin_id ≡ true)
      × Released gate clocks s req params (route gate clocks s req executor).state.pending
route-executed gate clocks s req executor params h =
    elim (Bool-cases (starts_with req.action (lit "request_"))) [
      | inl r ↦ cc (
        rw (route_starts_request gate clocks s req executor r) at h,
        route_request-executed gate clocks s req executor,
      )
      | inr nr ↦ elim (Bool-cases (starts_with req.action (lit "confirm_"))) [
        | inr nc ↦ cc (rw (route_starts_other gate clocks s req executor nr nc) at h)
        | inl c ↦
            let e = route_starts_confirm gate clocks s req executor c in
            let (op, allowed, r) = confirm-Released gate clocks s req executor params (rw e at h) in
            (c, op, allowed, rw e r)
      ]
    ]

-- A caller that may not confirm learns nothing from `confirm_<op>` about the pending requests: the
-- reply is the same whatever the map holds, the state stays as it was, and nothing is executed.
pub route_denied :
    (gate : Config) (clocks clocks' : Clocks) (s s' : State) (req : ActionRequest)
    (executor : Executor)
    → starts_with req.action (lit "confirm_") ≡ true
    → may_confirm gate req.caller_plugin_id ≡ false
    → ((route gate clocks s req executor).reply ≡ (route gate clocks' s' req executor).reply)
      × ((route gate clocks s req executor).state ≡ s)
      × ((route gate clocks s req executor).executed ≡ none)
route_denied gate clocks clocks' s s' req executor c denied =
    rw
      (
        route_starts_confirm gate clocks s req executor c,
        route_starts_confirm gate clocks' s' req executor c,
      )
      (elim (Bool-cases (text_eq (drop 8 req.action) gate.op)) [
        | inr other ↦
            rw
              (
                route_confirm_other gate clocks s req executor other,
                route_confirm_other gate clocks' s' req executor other,
              )
              (refl, refl, refl)
        | inl op ↦
            rw
              (
                route_confirm_denied gate clocks s req executor op denied,
                route_confirm_denied gate clocks' s' req executor op denied,
              )
              (refl, refl, refl)
      ])
