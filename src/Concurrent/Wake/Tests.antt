-- ===== src/Concurrent/Wake/Tests.antt =====
-- A thread queues an answer while the loop is about to wait, and wakes it.
use vynkor_sdk_cpp.Base.{refl, arith}
use vynkor_sdk_cpp.Protocol.{pong}
use vynkor_sdk_cpp.Concurrent.Wake.{
  Channel, empty_channel, enqueue, signal, enqueues, signals, Runs, here, pushes,
}
use vynkor_sdk_cpp.Concurrent.Wake.Parked.{Empties, Runs-Empties}

abbrev answered : Channel
answered = signal 1 0 (enqueue (pong 1 2) empty_channel)

answered-run : Runs 1 empty_channel answered
unfolding enqueue signal
answered-run =
    pushes empty_channel (enqueue (pong 1 2) empty_channel) answered
      (enqueues empty_channel (pong 1 2))
      (pushes (enqueue (pong 1 2) empty_channel) answered answered
        (signals (enqueue (pong 1 2) empty_channel) 0 refl) (here answered))

Runs-Empties_example : Empties answered
unfolding signal
Runs-Empties_example = Runs-Empties 1 answered (omega arith) answered-run refl
