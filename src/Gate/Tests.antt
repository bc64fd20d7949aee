-- ===== src/Gate/Tests.antt =====
-- Runs of src/confirmation_gate.cpp: one gate, one stored request and its confirmation.
use vynkor_sdk_cpp.Base.{
  ◌+◌, ◌-◌, ◌^◌, ◌≤◌, ◌≡◌, ◌↔◌, refl, true, false, none, some, List, [], ◌∷◌, ◌++◌, drop, text_eq,
}
use vynkor_sdk_cpp.Base.Text.{Text, lit, starts_with, to_string}
use vynkor_sdk_cpp.Error.{ok}
use vynkor_sdk_cpp.Mac.{Bytes}
use vynkor_sdk_cpp.Protocol.{ActionRequest, risk_high}
use vynkor_sdk_cpp.Response.{result_ok}
use vynkor_sdk_cpp.Gate.Json.{
  json_escape, json_find_string, read_string, plain, find_value, value_start, escape_char,
}
use vynkor_sdk_cpp.Gate.Json.Escape.{read_string-json_escape, json_find_string-json_escape}
use vynkor_sdk_cpp.Gate.Callers.{Config, may_confirm, any_allows, entry_allows}
use vynkor_sdk_cpp.Gate.Callers.Allowed.{SomeAdmits, may_confirm_iff}
use vynkor_sdk_cpp.Gate.Pending.{
  Clocks, is_expired, sweep_expired, find, erase, take_pending, pending_id,
}
use vynkor_sdk_cpp.Gate.Pending.Laws.{count_params}
use vynkor_sdk_cpp.Gate.Route.{
  State, Executor, route, route_confirm, confirm_pending, executed_with,
}
use vynkor_sdk_cpp.Gate.Route.Safety.{Released, route-executed, route_denied}
use vynkor_sdk_cpp.Gate.Route.Trace.{Call, run, run_executions, run_stores, run_at_most_once}
use vynkor_sdk_cpp.Gate.Helpers.{confirm_params}

abbrev pub gate : Config
gate = record {
  op = lit "wipe";
  description = lit "wipe the disk";
  params_schema = [];
  risk = risk_high;
  confirm_callers = lit "phone.*" ∷ [];
  pending_ttl = 1000;
}

abbrev pub clocks : Clocks
clocks = record { steady = 5; created = 6; millis = 7 }

abbrev pub empty : State
empty = record { pending = []; seq = 0 }

abbrev pub call : Text → Bytes → Text → ActionRequest
call action params caller = record {
  action_id = lit "1";
  action = action;
  params_json = params;
  timeout_ms = 0;
  streaming = false;
  caller_plugin_id = caller;
}

abbrev pub asking : ActionRequest
asking = call (lit "request_" ++ lit "wipe") (1 ∷ []) (lit "ai")

abbrev pub confirming : Text → ActionRequest
confirming caller = call (lit "confirm_" ++ lit "wipe") (confirm_params (pending_id 7 0)) caller

abbrev pub executor : Executor
executor params = ok (result_ok params)

-- The state after the request.
abbrev asked : State
asked = record {
  pending =
      (
        pending_id 7 0,
        record {
          action = lit "request_" ++ lit "wipe";
          params = 1 ∷ [];
          caller_plugin_id = lit "ai";
          created_at = 6;
        },
      )
      ∷ [];
  seq = 1;
}

read_string-json_escape_example :
    read_string plain (json_escape (b'"' ∷ 10 ∷ []) ++ (0x22 ∷ [])) [] ≡ ok (some (b'"' ∷ 10 ∷ []))
read_string-json_escape_example = read_string-json_escape (b'"' ∷ 10 ∷ []) [] []

json_find_string-json_escape_example :
    json_find_string
      (b'{'
        ∷ ((0x22 ∷ (lit "id" ++ (0x22 ∷ [])))
            ++ (b':' ∷ 0x22 ∷ (json_escape (b'"' ∷ 1 ∷ []) ++ (0x22 ∷ b'}' ∷ [])))))
      (lit "id")
    ≡ ok (some (b'"' ∷ 1 ∷ []))
json_find_string-json_escape_example =
    json_find_string-json_escape (lit "id") (b'"' ∷ 1 ∷ []) (b'}' ∷ [])

-- The glob admits a device's capability and neither the bare id nor a longer id.
may_confirm_runs :
    (may_confirm gate (lit "phone.geo") ≡ true)
    × (may_confirm gate (lit "phone") ≡ false)
    × (may_confirm gate (lit "phone0.geo") ≡ false)
unfolding may_confirm any_allows entry_allows lit text_eq starts_with
may_confirm_runs = (refl, refl, refl)

may_confirm_iff_example :
    (may_confirm gate (lit "phone.geo") ≡ true) ↔ SomeAdmits (lit "phone.geo") (lit "phone.*" ∷ [])
may_confirm_iff_example = may_confirm_iff gate (lit "phone.geo")

confirmed :
    (route gate clocks asked (confirming (lit "phone.geo")) executor).executed ≡ some (1 ∷ [])
unfolding route route_confirm may_confirm any_allows entry_allows lit text_eq starts_with
    json_find_string json_escape confirm_params confirm_pending take_pending find erase
    sweep_expired is_expired executed_with to_string find_value value_start read_string escape_char
confirmed = refl

route-executed_example :
    (starts_with (lit "confirm_" ++ lit "wipe") (lit "confirm_") ≡ true)
    × (drop 8 (lit "confirm_" ++ lit "wipe") ≡ lit "wipe")
    × (may_confirm gate (lit "phone.geo") ≡ true)
    × Released gate clocks asked
        (confirming (lit "phone.geo"))
        (1 ∷ [])
        (route gate clocks asked (confirming (lit "phone.geo")) executor).state.pending
route-executed_example =
    route-executed gate clocks asked (confirming (lit "phone.geo")) executor (1 ∷ []) confirmed

route_denied_example :
    ((route gate clocks asked (confirming (lit "ai")) executor).reply
      ≡ (route gate clocks empty (confirming (lit "ai")) executor).reply)
    × ((route gate clocks asked (confirming (lit "ai")) executor).state ≡ asked)
    × ((route gate clocks asked (confirming (lit "ai")) executor).executed ≡ none)
unfolding starts_with lit may_confirm any_allows entry_allows text_eq
route_denied_example =
    route_denied gate clocks clocks asked empty (confirming (lit "ai")) executor refl refl

abbrev history : List Call
history =
    record { clocks = clocks; req = asking }
    ∷ record { clocks = clocks; req = confirming (lit "phone.geo") }
    ∷ record { clocks = clocks; req = confirming (lit "phone.geo") }
    ∷ []

run_at_most_once_example :
    run_executions gate executor (1 ∷ []) empty history
      + count_params (1 ∷ []) (run gate executor empty history).pending
    ≤ run_stores gate (1 ∷ []) history + count_params (1 ∷ []) []
run_at_most_once_example = run_at_most_once gate executor (1 ∷ []) empty history

-- A lifetime of a second lasts that long; the longest lifetime wraps around, and a request expires at once.
expiry :
    (is_expired 1000 1000000006
        (record { action = []; params = []; caller_plugin_id = []; created_at = 7 })
      ≡ false)
    × (is_expired 1000 1000000007
          (record { action = []; params = []; caller_plugin_id = []; created_at = 7 })
        ≡ true)
    × (is_expired
          (2 ^ 63 - 1)
          7
          (record { action = []; params = []; caller_plugin_id = []; created_at = 7 })
        ≡ true)
unfolding is_expired
expiry = (refl, refl, refl)
