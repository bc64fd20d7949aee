-- ===== src/Plugin/Shutdown.antt =====
-- include/vynkor/plugin.hpp, `serve`: when `on_shutdown` runs.
use vynkor_sdk_cpp.Base.{
  ℕ, suc, ◌+◌, ◌≡◌, refl, ap, subst, sym, ◌∙◌, arith, true, false, none, some, List, [], ◌∷◌, ◌++◌,
  All, Option-cases, inl, inr, ◌⊎◌,
}
use vynkor_sdk_cpp.Error.{Exception, Result, ok, throws, Result-cases}
use vynkor_sdk_cpp.Protocol.{
  Envelope, Event, PluginRegisterAck, ping, event, event_ack, pong, plugin_shutdown,
}
use vynkor_sdk_cpp.Plugin.{
  Turn, Happened, initialised, shut_down, event_handled, message_handled, sends, Pass, goes_on,
  left, captured, escaped, on_ping, on_event, on_message, dispatch, pass, LoopEnd, finished,
  loop_waits, handler_error, send_error, serve_loop, Served, shut, after_loop, serve,
}

abbrev pub shutdowns : List Happened → ℕ
shutdowns [] = 0
shutdowns (shut_down ∷ h) = suc (shutdowns h)
shutdowns (initialised ∷ h) = shutdowns h
shutdowns (event_handled ev ∷ h) = shutdowns h
shutdowns (message_handled env ∷ h) = shutdowns h
shutdowns (sends env ∷ h) = shutdowns h

-- A ping is answered.
abbrev pub IsAnswered : Turn → Type 0
IsAnswered turn = (timestamp : ℕ) → turn.received ≡ ok (ping timestamp) → turn.first_send ≡ ok tt

shutdowns-append : (h k : List Happened) → shutdowns (h ++ k) ≡ shutdowns h + shutdowns k
shutdowns-append [] k = omega arith
shutdowns-append (shut_down ∷ h) k = omega (arith, shutdowns-append h k)
shutdowns-append (initialised ∷ h) k = shutdowns-append h k
shutdowns-append (event_handled ev ∷ h) k = shutdowns-append h k
shutdowns-append (message_handled env ∷ h) k = shutdowns-append h k
shutdowns-append (sends env ∷ h) k = shutdowns-append h k

-- A pass does not shut down, and no exception leaves it where pings are answered.
abbrev Fair : Turn → List Happened × Pass → Type 0
Fair turn p =
    (shutdowns p.0 ≡ 0)
    × ((e : Exception)
        → p.1 ≡ escaped e
        → (timestamp : ℕ) × (turn.received ≡ ok (ping timestamp)) × (turn.first_send ≡ throws e))

-- A pass with this outcome, which is not an escape.
calm :
    (turn : Turn) (p : List Happened × Pass) (h : List Happened) (k : Pass)
    → p ≡ (h, k)
    → shutdowns h ≡ 0
    → ((e : Exception) → k ≡ escaped e → ⊥)
    → Fair turn p
calm turn p h k same none_yet inside =
    subst (Fair turn) (sym same) (none_yet, λ e x. absurd (inside e x))

on_event-Fair : (turn : Turn) (ev : Event) → Fair turn (on_event turn ev)
unfolding on_event
on_event-Fair turn ev = elim (Result-cases turn.handled) [
  | inr (e, failed) ↦
      calm turn (on_event turn ev) (event_handled ev ∷ []) goes_on (rw (failed, on_event) refl) refl
        (λ e x. cc x)
  | inl (reply, handled) ↦ elim (Result-cases turn.first_send) [
    | inr (e, failed) ↦
        calm turn (on_event turn ev) (event_handled ev ∷ sends (event_ack ev.event_id) ∷ []) goes_on
          (rw (handled, failed, on_event) refl) refl (λ e x. cc x)
    | inl (done, sent) ↦ elim (Option-cases reply) [
      | inl nothing ↦
          calm turn (on_event turn ev) (event_handled ev ∷ sends (event_ack ev.event_id) ∷ [])
            goes_on (rw (handled, sent, nothing, on_event) refl) refl (λ e x. cc x)
      | inr (env, there) ↦
          calm turn (on_event turn ev)
            (event_handled ev ∷ sends (event_ack ev.event_id) ∷ sends env ∷ []) goes_on
            (rw (handled, sent, there, on_event) refl) refl (λ e x. cc x)
    ]
  ]
]

on_message-Fair : (turn : Turn) (env : Envelope) → Fair turn (on_message turn env)
unfolding on_message
on_message-Fair turn env = elim (Result-cases turn.handled) [
  | inr (e, failed) ↦
      calm turn (on_message turn env) (message_handled env ∷ []) (captured e)
        (rw (failed, on_message) refl) refl (λ e x. cc x)
  | inl (none, handled) ↦
      calm turn (on_message turn env) (message_handled env ∷ []) goes_on
        (rw (handled, on_message) refl) refl (λ e x. cc x)
  | inl (some reply, handled) ↦ elim (Result-cases turn.first_send) [
    | inr (e, failed) ↦
        calm turn (on_message turn env) (message_handled env ∷ sends reply ∷ []) (captured e)
          (rw (handled, failed, on_message) refl) refl (λ e x. cc x)
    | inl (done, sent) ↦
        calm turn (on_message turn env) (message_handled env ∷ sends reply ∷ []) goes_on
          (rw (handled, sent, on_message) refl) refl (λ e x. cc x)
  ]
]

dispatch-Fair :
    (turn : Turn) (env : Envelope) → turn.received ≡ ok env → Fair turn (dispatch turn env)
unfolding dispatch on_ping
dispatch-Fair turn (plugin_shutdown reason grace) h = (refl, λ e x. cc x)
dispatch-Fair turn (ping timestamp) h = elim (Result-cases turn.first_send) [
  | inl (done, sent) ↦
      calm turn (on_ping turn timestamp) (sends (pong timestamp turn.now) ∷ []) goes_on
        (rw (sent, on_ping) refl) refl (λ e x. cc x)
  | inr (e, failed) ↦
      (refl, λ x ex. (timestamp, h, failed ∙ ap throws (cc (rw (failed, on_ping) at ex))))
]
dispatch-Fair turn (event ev) h = on_event-Fair turn ev
dispatch-Fair turn env h = on_message-Fair turn env

pass-Fair : (turn : Turn) → Fair turn (pass turn)
unfolding pass dispatch on_message on_event on_ping
pass-Fair turn = elim (Result-cases turn.received) [
  | inr (e, failed) ↦ calm turn (pass turn) [] left (rw (failed, pass) refl) refl (λ e x. cc x)
  | inl (env, there) ↦
      let same : pass turn ≡ dispatch turn env = rw (there, pass) refl in
      subst (Fair turn) (sym same) (dispatch-Fair turn env there)
]

Pass-cases :
    (p : Pass)
    → ((p ≡ goes_on) ⊎ (p ≡ left))
      ⊎ (((e : Exception) × (p ≡ captured e)) ⊎ ((e : Exception) × (p ≡ escaped e)))
Pass-cases goes_on = inl (inl refl)
Pass-cases left = inl (inr refl)
Pass-cases (captured e) = inr (inl (e, refl))
Pass-cases (escaped e) = inr (inr (e, refl))

abbrev LoopFair : List Happened × LoopEnd → Type 0
LoopFair out = (shutdowns out.0 ≡ 0) × ((e : Exception) → out.1 ≡ send_error e → ⊥)

-- The loop does not shut down, and no exception leaves it where pings are answered.
loop-Fair : (turns : List Turn) → All IsAnswered turns → LoopFair (serve_loop turns)
unfolding serve_loop
loop-Fair [] h = (refl, λ e x. cc x)
loop-Fair (turn ∷ turns) (answered, h) =
    let (quiet, escape) = pass-Fair turn in
    let (rest_quiet, rest_inside) = loop-Fair turns h in
    elim (Pass-cases (pass turn).1) [
      | inl (inl on) ↦
          let same : serve_loop (turn ∷ turns)
              ≡ ((pass turn).0 ++ (serve_loop turns).0, (serve_loop turns).1) =
            rw (on, serve_loop) refl in
          subst LoopFair (sym same) (
            omega (arith, quiet, rest_quiet, shutdowns-append (pass turn).0 (serve_loop turns).0),
            rest_inside,
          )
      | inl (inr over) ↦
          let same : serve_loop (turn ∷ turns) ≡ ((pass turn).0, finished) =
            rw (over, serve_loop) refl in
          subst LoopFair (sym same) (quiet, λ e x. cc x)
      | inr (inl (e, over)) ↦
          let same : serve_loop (turn ∷ turns) ≡ ((pass turn).0, handler_error e) =
            rw (over, serve_loop) refl in
          subst LoopFair (sym same) (quiet, λ e x. cc x)
      | inr (inr (e, out)) ↦
          let (timestamp, was_ping, failed) = escape e out in
          absurd (cc (answered timestamp was_ping, failed))
    ]

-- `on_shutdown` ran just once, as the last thing. Where it returns, `client_` is cleared and `serve` ends with
-- this result; where it throws, its exception leaves `serve` and `client_` stays set.
abbrev pub IsShutDown : Result (Unit {0}) → Result (Unit {0}) → Served → Type 0
IsShutDown stopped result s =
    (shutdowns s.happened ≡ 1)
    × ((before : List Happened) × (s.happened ≡ before ++ (shut_down ∷ [])))
    × (((stopped ≡ ok tt) × (s.client_set ≡ false) × (s.outcome ≡ some result))
        ⊎ ((e : Exception) × (stopped ≡ throws e)
            × (s.client_set ≡ true)
            × (s.outcome ≡ some (throws e))))

shut-IsShutDown :
    (stopped : Result (Unit {0})) (happened : List Happened) (result : Result (Unit {0}))
    → shutdowns happened ≡ 0
    → IsShutDown stopped result (shut stopped happened result)
unfolding shut
shut-IsShutDown (ok done) happened result quiet = (
  omega (arith, quiet, shutdowns-append happened (shut_down ∷ [])),
  (initialised ∷ happened, refl),
  inl (refl, refl, refl),
)
shut-IsShutDown (throws e) happened result quiet = (
  omega (arith, quiet, shutdowns-append happened (shut_down ∷ [])),
  (initialised ∷ happened, refl),
  inr (e, refl, refl, refl),
)

-- What the run gives to its caller where `on_shutdown` returns.
abbrev pub result_of : LoopEnd → Result (Unit {0})
result_of (handler_error e) = throws e
result_of _ = ok tt

after_loop-IsShutDown :
    (stopped : Result (Unit {0})) (out : List Happened × LoopEnd) (result : Result (Unit {0}))
    → LoopFair out
    → (after_loop stopped out).outcome ≡ some result
    → IsShutDown stopped (result_of out.1) (after_loop stopped out)
unfolding after_loop
after_loop-IsShutDown stopped (happened, loop_waits) result fair h = cc h
after_loop-IsShutDown stopped (happened, finished) result (quiet, inside) h =
    shut-IsShutDown stopped happened (ok tt) quiet
after_loop-IsShutDown stopped (happened, handler_error e) result (quiet, inside) h =
    shut-IsShutDown stopped happened (throws e) quiet
after_loop-IsShutDown stopped (happened, send_error e) result (quiet, inside) h =
    absurd (inside e refl)

-- The exception of `on_init`, else what the loop ends with.
abbrev pub run_result : Result (Unit {0}) → List Turn → Result (Unit {0})
run_result (throws e) turns = throws e
run_result (ok done) turns = result_of (serve_loop turns).1

-- The kernel accepts the plugin and every ping that is read is answered: then a run that ends, whatever
-- `on_init`, the handlers and `on_shutdown` throw, calls `on_shutdown` just once, as the last thing it does.
-- Where `on_shutdown` returns, `client_` is cleared and `serve` ends with the exception of `on_init` or of the
-- handler that ended the loop, if there is one; where it throws, its exception leaves and `client_` stays set.
pub serve-IsShutDown :
    (ack : PluginRegisterAck) (started : Result (Unit {0})) (turns : List Turn)
    (stopped result : Result (Unit {0}))
    → ack.accepted ≡ true
    → All IsAnswered turns
    → (serve (ok ack) started turns stopped).outcome ≡ some result
    → IsShutDown stopped (run_result started turns) (serve (ok ack) started turns stopped)
unfolding serve
serve-IsShutDown ack (throws e) turns stopped result accepted answered h =
    let same : serve (ok ack) (throws e) turns stopped ≡ shut stopped [] (throws e) =
      rw (accepted, serve) refl in
    subst (IsShutDown stopped (throws e)) (sym same) (shut-IsShutDown stopped [] (throws e) refl)
serve-IsShutDown ack (ok done) turns stopped result accepted answered h =
    let same : serve (ok ack) (ok done) turns stopped ≡ after_loop stopped (serve_loop turns) =
      rw (accepted, serve) refl in
    subst (IsShutDown stopped (result_of (serve_loop turns).1)) (sym same) (
      after_loop-IsShutDown stopped (serve_loop turns) result (loop-Fair turns answered)
        (ap (λ (s : Served). s.outcome) (sym same) ∙ h))
