-- ===== src/Concurrent/Tests.antt =====
-- A run of the concurrent loop: two actions, whose threads push in turn, and the end of the loop.
use vynkor_sdk_cpp.Base.{refl, false, none, List, [], ◌∷◌}
use vynkor_sdk_cpp.Error.{ok}
use vynkor_sdk_cpp.Protocol.{Envelope, action_request, ping, plugin_shutdown, pong}
use vynkor_sdk_cpp.Concurrent.{
  Loop, started, gave, envelopes_of, spawn_handler, Inbound, other_sends, dispatch, read_from,
  pushes, pops, reads, Steps, here, step,
}
use vynkor_sdk_cpp.Concurrent.Conserved.{IsConserved, Steps-IsConserved}

abbrev inbound : Envelope → List Envelope → Inbound
inbound env envelopes = record {
  received = ok env;
  now = 7;
  accepted = none;
  acted = gave envelopes;
  handled = ok none;
  acknowledged = ok tt;
}

abbrev request : Envelope
request = action_request (record {
  action_id = 1 ∷ [];
  action = [];
  params_json = [];
  timeout_ms = 0;
  streaming = false;
  caller_plugin_id = [];
})

abbrev first : Envelope
first = pong 1 1

abbrev second : Envelope
second = pong 2 2

abbrev stopped : Loop
stopped = record {
  queue = second ∷ [];
  workers = [] ∷ [] ∷ [];
  answered = first ∷ [];
  others = pong 4 7 ∷ [];
  running = false;
  produced = second ∷ first ∷ [];
  pushed = first ∷ second ∷ [];
}

-- The loop ends with an answer in the queue, which is then sent by no step.
run : Steps started stopped
unfolding spawn_handler envelopes_of dispatch other_sends read_from
run = step _ _ _ (reads started (inbound request (second ∷ [])) refl) (
    step _ _ _ (reads _ (inbound request (first ∷ [])) refl) (
      step _ _ _ (reads _ (inbound (ping 4) []) refl) (
        step _ _ _ (pushes _ [] ((second ∷ []) ∷ []) first [] refl) (
          step _ _ _ (pops _ first [] refl refl) (
            step _ _ _ (pushes _ ([] ∷ []) [] second [] refl)
              (step _ _ _ (reads _ (inbound (plugin_shutdown [] 0) []) refl) (here stopped)))))))

Steps-IsConserved_example : IsConserved stopped
Steps-IsConserved_example = Steps-IsConserved stopped run
