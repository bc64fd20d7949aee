-- ===== src/Concurrent.antt =====
-- src/concurrent.cpp: `run_concurrent_loop`, whose handler threads answer through a queue. A step of the
-- relation is one push of a thread, one pop of the loop, or one envelope that the loop reads.
pub mod Conserved
pub mod Serve
pub mod Wake
pub mod Tests
use vynkor_sdk_cpp.Base.{ℕ, ◌≡◌, Bool, true, false, Option, none, some, List, [], ◌∷◌, ◌++◌}
use vynkor_sdk_cpp.Base.Text.{Text, lit}
use vynkor_sdk_cpp.Error.{Exception, Result, ok, throws, what}
use vynkor_sdk_cpp.Protocol.{
  Envelope, ActionRequest, Event, ping, pong, plugin_shutdown, action_request, event, event_ack,
}
use vynkor_sdk_cpp.Response.{response_envelope, result_err}

-- `queue` is that of the `ResponseChannel`; `workers` are the envelopes that each started thread has still to push;
-- `answered` are those that were popped and given to `send_best_effort`, `others` what else is sent. The last two fields record,
-- for the statements, what handlers gave and in which order it was pushed.
pub record Loop : Type 0 where
  pub queue : List Envelope
  pub workers : List (List Envelope)
  pub answered : List Envelope
  pub others : List Envelope
  pub running : Bool
  pub produced : List Envelope
  pub pushed : List Envelope

abbrev pub started : Loop
started = record {
  queue = [];
  workers = [];
  answered = [];
  others = [];
  running = true;
  produced = [];
  pushed = [];
}

abbrev pub push : Envelope → Loop → Loop
push env s = record s { queue = s.queue ++ (env ∷ []); pushed = s.pushed ++ (env ∷ []) }

-- A `std::exception` with its text, or anything else.
pub data Thrown : Type 0 where
  standard : Exception → Thrown
  unknown : Thrown

unfoldable pub rejection : Text → Thrown → Envelope
rejection action_id (standard e) = response_envelope action_id (result_err (what e))
rejection action_id unknown = response_envelope action_id (result_err (lit "rejected"))

unfoldable pub panic : Text → Thrown → Envelope
panic action_id (standard e) =
    response_envelope action_id (result_err (lit "handler panicked: " ++ what e))
panic action_id unknown = response_envelope action_id (result_err (lit "handler panicked"))

-- What `on_action` gives: envelopes, or it throws.
pub data Acted : Type 0 where
  gave : List Envelope → Acted
  panicked : Thrown → Acted

unfoldable pub envelopes_of : Text → Acted → List Envelope
envelopes_of action_id (gave envelopes) = envelopes
envelopes_of action_id (panicked t) = panic action_id t ∷ []

-- `accepted` is what `accept` throws.
unfoldable pub spawn_handler : Text → Option Thrown → Acted → Loop → Loop
spawn_handler action_id (some t) acted s =
    push (rejection action_id t)
      (record s { produced = s.produced ++ (rejection action_id t ∷ []) })
spawn_handler action_id none acted s = record s {
  workers = envelopes_of action_id acted ∷ s.workers;
  produced = s.produced ++ envelopes_of action_id acted;
}

-- What `recv`, the clock, the handlers and the send of an acknowledgement give in one pass.
pub record Inbound : Type 0 where
  pub received : Result Envelope
  pub now : ℕ
  pub accepted : Option Thrown
  pub acted : Acted
  pub handled : Result (Option Envelope)
  pub acknowledged : Result (Unit {0})

abbrev pub reply_of : Option Envelope → List Envelope
reply_of none = []
reply_of (some env) = env ∷ []

unfoldable pub other_sends : Inbound → Envelope → List Envelope
other_sends i (ping timestamp) = pong timestamp i.now ∷ []
other_sends i (event ev) = elim i.handled [
  | throws e ↦ []
  | ok reply ↦ elim i.acknowledged [
    | throws e ↦ event_ack ev.event_id ∷ []
    | ok done ↦ event_ack ev.event_id ∷ reply_of reply
  ]
]
other_sends i env = elim i.handled [ throws e ↦ [] | ok reply ↦ reply_of reply ]

unfoldable pub dispatch : Inbound → Envelope → Loop → Loop
dispatch i (plugin_shutdown reason grace) s = record s { running = false }
dispatch i (action_request req) s = spawn_handler req.action_id i.accepted i.acted s
dispatch i env s = record s { others = s.others ++ other_sends i env }

unfoldable pub read_from : Result Envelope → Inbound → Loop → Loop
read_from (throws e) i s = record s { running = false }
read_from (ok env) i s = dispatch i env s

abbrev pub read_one : Inbound → Loop → Loop
read_one i s = read_from i.received i s

pub data Step : Loop → Loop → Type 0 where
  pushes :
      (s : Loop) (before after : List (List Envelope)) (env : Envelope) (envelopes : List Envelope)
      → s.workers ≡ before ++ ((env ∷ envelopes) ∷ after)
      → Step s (push env (record s { workers = before ++ (envelopes ∷ after) }))
  pops :
      (s : Loop) (env : Envelope) (queue : List Envelope)
      → s.running ≡ true
      → s.queue ≡ env ∷ queue
      → Step s (record s { queue = queue; answered = s.answered ++ (env ∷ []) })
  reads : (s : Loop) (i : Inbound) → s.running ≡ true → Step s (read_one i s)

pub data Steps : Loop → Loop → Type 0 where
  here : (s : Loop) → Steps s s
  step : (s t u : Loop) → Step s t → Steps t u → Steps s u
