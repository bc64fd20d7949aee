-- ===== src/Concurrent/Wake/Parked.antt =====
-- src/concurrent.cpp: no wake-up is lost.
use vynkor_sdk_cpp.Base.{
  ℕ, ◌+◌, ◌<◌, ◌≡◌, ◌⊎◌, inl, inr, refl, ap, sym, ◌∙◌, arith, List, [], ◌∷◌, ◌++◌, append-nil,
  append_assoc,
}
use vynkor_sdk_cpp.Protocol.{Envelope}
use vynkor_sdk_cpp.Concurrent.Wake.{
  Phase, parked, woken, popping, Channel, empty_channel, enqueue, signal, drain, pop, LoopStep,
  wakes, drains, pops, parks, PushStep, enqueues, signals, LoopSteps, stays, next, Runs, here,
  loops, pushes,
}

-- Who is to wake a loop that waits: the pipe, or a thread that has still to write.
abbrev pub Wakes : Channel → Type 0
Wakes s = (s.phase ≡ parked) → (s.queue ≡ []) ⊎ (0 < s.pipe + s.unsignalled)

LoopStep-Wakes : (s t : Channel) → LoopStep s t → Wakes s → Wakes t
unfolding drain pop
LoopStep-Wakes a b (wakes s at readable) h = λ p. cc p
LoopStep-Wakes a b (drains s at) h = λ p. cc p
LoopStep-Wakes a b (pops s env queue at front) h = λ p. cc (at, p)
LoopStep-Wakes a b (parks s at empty) h = λ p. inl empty

PushStep-Wakes :
    (capacity : ℕ) (s t : Channel) → 0 < capacity → PushStep capacity s t → Wakes s → Wakes t
unfolding enqueue signal
PushStep-Wakes capacity a b room (enqueues s env) h = λ p. inr (omega arith)
PushStep-Wakes capacity a b room (signals s others there) h = λ p. inr (ground (arith, room))

Runs-Wakes : (capacity : ℕ) (s t : Channel) → 0 < capacity → Runs capacity s t → Wakes s → Wakes t
Runs-Wakes capacity a b room (here s) h = h
Runs-Wakes capacity a b room (loops s t u move rest) h =
    Runs-Wakes capacity t u room rest (LoopStep-Wakes s t move h)
Runs-Wakes capacity a b room (pushes s t u move rest) h =
    Runs-Wakes capacity t u room rest (PushStep-Wakes capacity s t room move h)

-- A loop that pops sends the whole queue and waits again.
popping-sends :
    (queue : List Envelope) (s : Channel)
    → s.phase ≡ popping
    → s.queue ≡ queue
    → (t : Channel) × LoopSteps s t
      × (t.queue ≡ [])
      × (t.sent ≡ s.sent ++ queue)
      × (t.phase ≡ parked)
unfolding pop
popping-sends [] s at all = (
  record s { phase = parked },
  next s _ _ (parks s at all) (stays _),
  all,
  sym (append-nil s.sent),
  refl,
)
popping-sends (env ∷ queue) s at all =
    let (t, steps, emptied, sent, waits) = popping-sends queue (pop env queue s) at refl in
    (
      t,
      next s _ t (pops s env queue at all) steps,
      emptied,
      sent ∙ append_assoc s.sent (env ∷ []) queue,
      waits,
    )

Phase-cases : (p : Phase) → (p ≡ parked) ⊎ ((p ≡ woken) ⊎ (p ≡ popping))
Phase-cases parked = inl refl
Phase-cases woken = inr (inl refl)
Phase-cases popping = inr (inr refl)

-- The loop alone comes to a wait with an empty queue, and has sent what was queued.
abbrev pub Empties : Channel → Type 0
Empties s =
    (t : Channel) × LoopSteps s t
    × (t.queue ≡ [])
    × (t.sent ≡ s.sent ++ s.queue)
    × (t.phase ≡ parked)

woken-Empties : (s : Channel) → s.phase ≡ woken → Empties s
unfolding drain
woken-Empties s at =
    let (t, steps, emptied, sent, waits) = popping-sends s.queue (drain s) refl refl in
    (t, next s _ t (drains s at) steps, emptied, sent, waits)

-- In every state that the loop and the threads reach in any interleaving, with a pipe of any size: once no thread
-- stands between its two steps, the loop comes, by its own steps, to a wait with an empty queue, and has then sent
-- all that was queued, in order. So it never waits for good with an answer in the queue. What the loop reads from the
-- kernel in between is left out.
pub Runs-Empties :
    (capacity : ℕ) (s : Channel)
    → 0 < capacity
    → Runs capacity empty_channel s
    → s.unsignalled ≡ 0
    → Empties s
Runs-Empties capacity s room run quiet = elim (Phase-cases s.phase) [
  | inr (inr at) ↦ popping-sends s.queue s at refl
  | inr (inl at) ↦ woken-Empties s at
  | inl at ↦ elim (Runs-Wakes capacity empty_channel s room run (λ p. inl refl) at) [
    | inl empty ↦ (s, stays s, empty, sym (ap (λ t. s.sent ++ t) empty ∙ append-nil s.sent), at)
    | inr readable ↦
        let (t, steps, emptied, sent, waits) = woken-Empties (record s { phase = woken }) refl in
        (t, next s _ t (wakes s at (omega (arith, readable, quiet))) steps, emptied, sent, waits)
  ]
]
