-- ===== src/Concurrent/Wake.antt =====
-- src/concurrent.cpp: the pipe that wakes the loop. A thread pushes in two steps, the queue and then the pipe; the
-- loop waits in `poll`, drains the pipe and pops until the queue is empty. The steps may happen in any order. What the
-- loop reads from the kernel, between popping and the next wait, is left out.
pub mod Parked
pub mod Tests
use vynkor_sdk_cpp.Base.{ℕ, zero, suc, ◌+◌, ◌<◌, ◌≡◌, List, [], ◌∷◌, ◌++◌, ltb, if◌then◌else◌}
use vynkor_sdk_cpp.Protocol.{Envelope}

-- The loop waits in `poll`, has seen the pipe readable, or pops.
pub data Phase : Type 0 where
  parked woken popping : Phase

-- `unsignalled` counts the threads that have queued an envelope and not written to the pipe yet, `pipe` its bytes;
-- `sent` are the envelopes that were popped and given to `send_best_effort`.
pub record Channel : Type 0 where
  pub queue : List Envelope
  pub unsignalled : ℕ
  pub pipe : ℕ
  pub sent : List Envelope
  pub phase : Phase

abbrev pub empty_channel : Channel
empty_channel = record { queue = []; unsignalled = 0; pipe = 0; sent = []; phase = parked }

-- The first half of `push`, under the lock.
unfoldable pub enqueue : Envelope → Channel → Channel
enqueue env s = record s { queue = s.queue ++ (env ∷ []); unsignalled = suc s.unsignalled }

-- `write` on the pipe, which does not block: where it is full, nothing is written.
unfoldable pub signal : ℕ → ℕ → Channel → Channel
signal capacity others s = record s {
  unsignalled = others;
  pipe = if ltb s.pipe capacity then s.pipe + 1 else s.pipe;
}

-- `drain_wake_pipe`: it ends where a read finds nothing.
unfoldable pub drain : Channel → Channel
drain s = record s { pipe = 0; phase = popping }

-- `try_pop` on a queue that is not empty, and the send.
unfoldable pub pop : Envelope → List Envelope → Channel → Channel
pop env queue s = record s { queue = queue; sent = s.sent ++ (env ∷ []) }

-- What the loop does on its own.
pub data LoopStep : Channel → Channel → Type 0 where
  wakes : (s : Channel) → s.phase ≡ parked → 0 < s.pipe → LoopStep s (record s { phase = woken })
  drains : (s : Channel) → s.phase ≡ woken → LoopStep s (drain s)
  pops :
      (s : Channel) (env : Envelope) (queue : List Envelope)
      → s.phase ≡ popping
      → s.queue ≡ env ∷ queue
      → LoopStep s (pop env queue s)
  parks :
      (s : Channel) → s.phase ≡ popping → s.queue ≡ [] → LoopStep s (record s { phase = parked })

-- What the threads do.
pub data PushStep (capacity : ℕ) : Channel → Channel → Type 0 where
  enqueues : (s : Channel) (env : Envelope) → PushStep capacity s (enqueue env s)
  signals :
      (s : Channel) (others : ℕ)
      → s.unsignalled ≡ suc others
      → PushStep capacity s (signal capacity others s)

-- The loop alone.
pub data LoopSteps : Channel → Channel → Type 0 where
  stays : (s : Channel) → LoopSteps s s
  next : (s t u : Channel) → LoopStep s t → LoopSteps t u → LoopSteps s u

-- The loop and the threads, interleaved.
pub data Runs (capacity : ℕ) : Channel → Channel → Type 0 where
  here : (s : Channel) → Runs capacity s s
  loops : (s t u : Channel) → LoopStep s t → Runs capacity t u → Runs capacity s u
  pushes : (s t u : Channel) → PushStep capacity s t → Runs capacity t u → Runs capacity s u
