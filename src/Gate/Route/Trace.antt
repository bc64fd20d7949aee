-- ===== src/Gate/Route/Trace.antt =====
-- Whole histories of a gate: each stored request is executed at most once.
use vynkor_sdk_cpp.Base.{
  ℕ, ◌+◌, ◌≤◌, ◌≡◌, refl, ap, arith, Bool, ◌&&◌, Option, none, some, List, [], ◌∷◌, drop,
  if◌then◌else◌, text_eq, Option-cases, inl, inr,
}
use vynkor_sdk_cpp.Base.Text.{Text, lit, starts_with}
use vynkor_sdk_cpp.Error.{Result, ok, throws}
use vynkor_sdk_cpp.Mac.{Bytes}
use vynkor_sdk_cpp.Protocol.{ActionRequest}
use vynkor_sdk_cpp.Gate.Json.{json_find_string}
use vynkor_sdk_cpp.Gate.Callers.{Config}
use vynkor_sdk_cpp.Gate.Pending.{
  Clocks, sweep_expired, find, store_request, take_pending, pending_id,
}
use vynkor_sdk_cpp.Gate.Pending.Laws.{count_params, count-sweep_expired, count-erase, count-emplace}
use vynkor_sdk_cpp.Gate.Route.{
  State, Executor, route, route_request, route_confirm, confirm_pending, executed_with,
}
use vynkor_sdk_cpp.Gate.Route.Safety.{route-executed}

pub record Call : Type 0 where
  pub clocks : Clocks
  pub req : ActionRequest

pub executions : Bytes → Option Bytes → ℕ
executions params none = 0
executions params (some p) = if text_eq p params then 1 else 0

-- The call stores the parameters as a pending request.
pub stores : Config → Bytes → ActionRequest → Bool
stores gate params req =
    starts_with req.action (lit "request_")
    && (text_eq (drop 8 req.action) gate.op && text_eq req.params_json params)

module _ (gate : Config) (executor : Executor) where
  -- The state after a history, how often the executor ran with `params`, and how often they were stored.
  pub run : State → List Call → State
  run s [] = s
  run s (c ∷ cs) = run (route gate c.clocks s c.req executor).state cs

  pub run_executions : Bytes → State → List Call → ℕ
  run_executions params s [] = 0
  run_executions params s (c ∷ cs) =
      executions params (route gate c.clocks s c.req executor).executed
      + run_executions params (route gate c.clocks s c.req executor).state cs

pub run_stores : Config → Bytes → List Call → ℕ
run_stores gate params [] = 0
run_stores gate params (c ∷ cs) =
    (if stores gate params c.req then 1 else 0) + run_stores gate params cs

module _ (gate : Config) (clocks : Clocks) (s : State) (req : ActionRequest) (executor : Executor)
    (params : Bytes) where
  store_count :
      count_params params (store_request gate.pending_ttl clocks s.seq s.pending req).1
      ≤ count_params params s.pending + (if text_eq req.params_json params then 1 else 0)
  unfolding store_request
  store_count = omega (
    arith,
    count-sweep_expired params gate.pending_ttl clocks.steady s.pending,
    count-emplace params (pending_id clocks.millis s.seq)
        (record {
          action = req.action;
          params = req.params_json;
          caller_plugin_id = req.caller_plugin_id;
          created_at = clocks.created;
        })
        (sweep_expired gate.pending_ttl clocks.steady s.pending),
  )

  request_count :
      count_params params (route_request gate clocks s req).state.pending
      ≤ (if text_eq (drop 8 req.action) gate.op && text_eq req.params_json params then 1 else 0)
        + count_params params s.pending
  unfolding route_request
  request_count = ground (arith, store_count)

  confirm_pending_count :
      (id : Text)
      → count_params params (confirm_pending gate clocks s req executor id).state.pending
        ≤ count_params params s.pending
  unfolding confirm_pending take_pending executed_with
  confirm_pending_count id =
      let swept = sweep_expired gate.pending_ttl clocks.steady s.pending in
      let fewer = count-sweep_expired params gate.pending_ttl clocks.steady s.pending in
      elim (Option-cases (find id swept)) [
        | inl e ↦ ground (arith, e, fewer)
        | inr (p, e) ↦ ground (arith, e, fewer, count-erase params id swept p e)
      ]

  parsed_count :
      (parsed : Result (Option Text))
      → json_find_string req.params_json (lit "pending_id") ≡ parsed
      → count_params params (route_confirm gate clocks s req executor).state.pending
        ≤ count_params params s.pending
  unfolding route_confirm
  parsed_count (throws e) q = ground (arith, q)
  parsed_count (ok none) q = ground (arith, q)
  parsed_count (ok (some id)) q = ground (arith, q, confirm_pending_count id)

  confirm_count :
      count_params params (route_confirm gate clocks s req executor).state.pending
      ≤ count_params params s.pending
  confirm_count = parsed_count (json_find_string req.params_json (lit "pending_id")) refl

  -- A call that executes nothing.
  idle_count :
      count_params params (route gate clocks s req executor).state.pending
      ≤ (if stores gate params req then 1 else 0) + count_params params s.pending
  unfolding route stores
  idle_count = ground (arith, request_count, confirm_count)

  busy_count :
      (p : Bytes)
      → (route gate clocks s req executor).executed ≡ some p
      → (if text_eq p params then 1 else 0)
          + count_params params (route gate clocks s req executor).state.pending
        ≤ count_params params s.pending
  busy_count p h =
      let (_, _, _, r) = route-executed gate clocks s req executor p h in
      rw r.removed (
        omega (
          arith,
          count-erase params r.id (sweep_expired gate.pending_ttl clocks.steady s.pending) r.entry
              r.found,
          ap {A = Bytes} {B = ℕ} (λ q. if text_eq q params then 1 else 0) r.stored,
          count-sweep_expired params gate.pending_ttl clocks.steady s.pending,
        ))

  -- One call: what it executes and what it leaves pending was pending before, or is stored by it.
  route_count :
      executions params (route gate clocks s req executor).executed
        + count_params params (route gate clocks s req executor).state.pending
      ≤ (if stores gate params req then 1 else 0) + count_params params s.pending
  unfolding executions
  route_count = elim (Option-cases (route gate clocks s req executor).executed) [
    | inl e ↦ rw (e, executions) (omega (arith, idle_count))
    | inr (p, e) ↦ rw (e, executions) (omega (arith, busy_count p e))
  ]

-- Over any history and for any parameters: the executor runs with them at most as often as they were
-- pending at the start or were stored by a `request_<op>` since, and each entry still pending at the end
-- has not been executed. So one confirmation cannot be replayed, and nothing else is ever executed.
pub run_at_most_once :
    (gate : Config) (executor : Executor) (params : Bytes) (s : State) (cs : List Call)
    → run_executions gate executor params s cs
        + count_params params (run gate executor s cs).pending
      ≤ run_stores gate params cs + count_params params s.pending
unfolding run run_executions run_stores
run_at_most_once gate executor params s [] = omega arith
run_at_most_once gate executor params s (c ∷ cs) = omega (
  arith,
  route_count gate c.clocks s c.req executor params,
  run_at_most_once gate executor params (route gate c.clocks s c.req executor).state cs,
)
