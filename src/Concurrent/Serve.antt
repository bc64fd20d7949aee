-- ===== src/Concurrent/Serve.antt =====
-- src/concurrent.cpp: `serve_concurrent`, around the loop.
use vynkor_sdk_cpp.Base.{Bool, true, not, ◌≡◌, refl, List, [], ◌∷◌, ◌++◌, if◌then◌else◌}
use vynkor_sdk_cpp.Base.Text.{lit}
use vynkor_sdk_cpp.Error.{Result, ok, throws, io, internal, permission_denied, throw_if, ◌>>◌}
use vynkor_sdk_cpp.Protocol.{PluginRegisterAck}
use vynkor_sdk_cpp.Client.State.{VynkorClient}

-- What `run_concurrent_loop` does before its first poll: `pipe2`, then `native_handle`, which refuses a WebSocket.
unfoldable pub loop_start : Bool → VynkorClient → Result (Unit {0})
loop_start piped c =
    throw_if (not piped) (io (lit "pipe2 failed for concurrent loop wake channel"))
    >> throw_if c.ws (internal (lit "native_handle is only valid on the UDS transport"))

-- What happens to the handler, in order.
pub data Hook : Type 0 where
  initialised looped shut_down : Hook

abbrev pub Served : Type 0
Served = List Hook × Result (Unit {0})

-- `stopped` is what `on_shutdown` gives.
abbrev pub after_start : Result (Unit {0}) → Result (Unit {0}) → Served
after_start stopped (throws e) = (initialised ∷ [], throws e)
after_start stopped (ok done) = (initialised ∷ (looped ∷ (shut_down ∷ [])), stopped)

abbrev pub after_init : Result (Unit {0}) → Result (Unit {0}) → Bool → VynkorClient → Served
after_init stopped (throws e) piped c = (initialised ∷ (shut_down ∷ []), stopped >> throws e)
after_init stopped (ok done) piped c = after_start stopped (loop_start piped c)

-- From what `register_full`, `on_init`, `pipe2` and `on_shutdown` give; the loop ends.
unfoldable pub serve_concurrent :
    VynkorClient → Result PluginRegisterAck → Result (Unit {0}) → Bool → Result (Unit {0}) → Served
serve_concurrent c (throws e) initialises piped stopped = ([], throws e)
serve_concurrent c (ok ack) initialises piped stopped =
    if ack.accepted
    then after_init stopped initialises piped c
    else ([], throws (permission_denied (lit "registration rejected: " ++ ack.reject_reason)))

-- Over a WebSocket an accepted handler is initialised and never shut down.
serve_concurrent_ws :
    (c : VynkorClient) (ack : PluginRegisterAck) (stopped : Result (Unit {0}))
    → c.ws ≡ true
    → ack.accepted ≡ true
    → serve_concurrent c (ok ack) (ok tt) true stopped ≡ (
      initialised ∷ [],
      throws (internal (lit "native_handle is only valid on the UDS transport")),
    )
unfolding serve_concurrent loop_start
serve_concurrent_ws c ack stopped over_ws accepted =
    rw (accepted, over_ws, serve_concurrent, loop_start) refl
