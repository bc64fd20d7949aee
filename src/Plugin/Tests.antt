-- ===== src/Plugin/Tests.antt =====
-- Runs of `serve`: a ping, an event whose handler fails, one that is acknowledged, and the end.
use vynkor_sdk_cpp.Base.{◌≡◌, refl, true, false, Option, none, some, List, [], ◌∷◌}
use vynkor_sdk_cpp.Error.{Result, ok, throws, io, internal, timeout}
use vynkor_sdk_cpp.Protocol.{Envelope, Event, PluginRegisterAck, ping, pong, event, event_ack}
use vynkor_sdk_cpp.Plugin.{
  Turn, initialised, shut_down, event_handled, sends, on_ping, on_event, dispatch, pass, serve_loop,
  Served, shut, after_loop, serve,
}
use vynkor_sdk_cpp.Plugin.Shutdown.{IsShutDown, serve-IsShutDown}

abbrev ack : PluginRegisterAck
ack = record { accepted = true; reject_reason = []; session_nonce = [] }

abbrev turn : Result Envelope → Result (Option Envelope) → Result (Unit {0}) → Turn
turn received handled first_send = record {
  received = received;
  now = 9;
  handled = handled;
  first_send = first_send;
  reply_send = ok tt;
}

abbrev ev : Event
ev = record { event_id = 1 ∷ []; event_type = []; payload_json = []; retry_count = 0 }

abbrev turns : List Turn
turns =
    turn (ok (ping 4)) (ok none) (ok tt)
    ∷ turn (ok (event ev)) (throws (internal [])) (ok tt)
    ∷ turn (ok (event ev)) (ok none) (ok tt)
    ∷ turn (throws (io [])) (ok none) (ok tt)
    ∷ []

abbrev run : Served
run = serve (ok ack) (ok tt) turns (ok tt)

run_lem : run ≡ record {
  happened =
      initialised
      ∷ sends (pong 4 9)
      ∷ event_handled ev
      ∷ event_handled ev
      ∷ sends (event_ack (1 ∷ []))
      ∷ shut_down
      ∷ [];
  client_set = false;
  outcome = some (ok tt);
}
unfolding serve shut after_loop serve_loop pass dispatch on_ping on_event
run_lem = refl

serve-IsShutDown_example :
    IsShutDown (throws timeout) (ok tt) (serve (ok ack) (ok tt) turns (throws timeout))
unfolding serve shut after_loop serve_loop pass dispatch on_ping on_event
serve-IsShutDown_example =
    serve-IsShutDown ack (ok tt) turns (throws timeout) (throws timeout) refl
      (
        (λ timestamp e. refl),
        ((λ timestamp e. refl), ((λ timestamp e. refl), ((λ timestamp e. refl), tt))),
      )
      refl

-- A pong that cannot be sent: the exception leaves `serve`, `on_shutdown` does not run and `client_` stays.
unanswered :
    serve (ok ack) (ok tt) (turn (ok (ping 4)) (ok none) (throws (io [])) ∷ []) (ok tt) ≡ record {
      happened = initialised ∷ sends (pong 4 9) ∷ [];
      client_set = true;
      outcome = some (throws (io []));
    }
unfolding serve shut after_loop serve_loop pass dispatch on_ping
unanswered = refl
