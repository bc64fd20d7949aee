-- ===== src/Framing/Read/Timeouts.antt =====
-- The deadlines of the frame readers, src/framing.cpp: no reader waits past them.
use vynkor_sdk_cpp.Base.{
  ℕ, zero, suc, ◌+◌, ◌-◌, ◌/◌, ◌%◌, ◌^◌, max, ◌≤◌, ◌≡◌, ◌≢◌, sym, ◌⊎◌, inl, inr, refl, true, Option,
  List, [], ◌∷◌, ◌++◌, length, take, drop, min, leb, ltb, le→leb, Bool-cases, arith,
}
use vynkor_sdk_cpp.Error.{Exception, frame_read_timeout, Result, ok, throws}
use vynkor_sdk_cpp.Mac.{Bytes, OpenSsl}
use vynkor_sdk_cpp.Framing.Zstd.{Zstd}
use vynkor_sdk_cpp.Framing.Header.{read_be16, read_be32, frame_header_size, max_payload_size}
use vynkor_sdk_cpp.Framing.Parse.{parse_frame_bytes, tag_size}
use vynkor_sdk_cpp.Framing.Read.{
  PollAnswer, poll_interrupted, poll_failed, expired, ready, Tick, Recv, got, raised, waiting,
  and_then, lift, Script, Round, stop, again, reads, round_of, recv_exact, recv_exact_deadline,
  read_body, read_frame_until, int_deadline, read_frame_full_with_deadline,
}

-- The clock reaches the deadline in one of these rounds.
abbrev pub Reaches : ℕ → List Tick → Type 0
Reaches deadline [] = ⊥
Reaches deadline (t ∷ script) = (deadline ≤ t.now) ⊎ Reaches deadline script

-- One of the rounds before the first byte is late, or `poll` answers in it and is not interrupted.
abbrev pub IsPolled : ℕ → List (ℕ × PollAnswer) → Type 0
IsPolled deadline [] = ⊥
IsPolled deadline ((now, poll) ∷ waits) =
    (deadline ≤ now) ⊎ ((poll ≢ poll_interrupted) ⊎ IsPolled deadline waits)

and_then-Ends :
    {A B : Type 0} (m : Recv A) (next : A → Bytes → Recv B)
    → m ≢ waiting
    → ((a : A) (left : Bytes) → next a left ≢ waiting)
    → and_then m next ≢ waiting
and_then-Ends (got a left) next ends then_ends = then_ends a left
and_then-Ends (raised e) next ends then_ends = λ h. cc h
and_then-Ends waiting next ends then_ends = λ h. ends refl

lift-Ends : {A : Type 0} (r : Result A) (left : Bytes) → lift r left ≢ waiting
lift-Ends (ok a) left h = cc h
lift-Ends (throws e) left h = cc h

Round-cases :
    (r : Round) → ((e : Exception) × (r ≡ stop e)) ⊎ ((r ≡ again) ⊎ ((k : ℕ) × (r ≡ reads k)))
Round-cases (stop e) = inl (e, refl)
Round-cases again = inr (inl refl)
Round-cases (reads k) = inr (inr (k, refl))

late_stops :
    (deadline : ℕ) (t : Tick) (r : Round)
    → round_of deadline t ≡ r
    → ((e : Exception) → r ≢ stop e)
    → leb deadline t.now ≡ true
    → ⊥
unfolding round_of
late_stops deadline t r same goes_on late =
    let stops : stop frame_read_timeout ≡ r = rw (late, round_of) at same in
    goes_on frame_read_timeout (sym stops)

still_reached :
    (deadline : ℕ) (t : Tick) (script : List Tick) (r : Round)
    → round_of deadline t ≡ r
    → ((e : Exception) → r ≢ stop e)
    → Reaches deadline (t ∷ script)
    → Reaches deadline script
still_reached deadline t script r same goes_on (inl late) =
    absurd (late_stops deadline t r same goes_on (le→leb deadline t.now late))
still_reached deadline t script r same goes_on (inr later) = later

recv_exact_deadline-Ends :
    (deadline : ℕ) (script : List Tick) (n : ℕ) (incoming : Bytes)
    → Reaches deadline script
    → recv_exact_deadline deadline script n incoming ≢ waiting
unfolding recv_exact_deadline
recv_exact_deadline-Ends deadline script zero incoming reached = λ h. cc h
recv_exact_deadline-Ends deadline [] (suc n) incoming reached = absurd reached
recv_exact_deadline-Ends deadline (t ∷ script) (suc n) incoming reached =
    elim (Round-cases (round_of deadline t)) [
      | inl (e, stops) ↦ λ h. cc (rw (stops, recv_exact_deadline) at h)
      | inr (inl on) ↦
          let later = still_reached deadline t script again on (λ e x. cc x) reached in
          rw (on, recv_exact_deadline)
            (recv_exact_deadline-Ends deadline script (suc n) incoming later)
      | inr (inr (k, taken)) ↦
          let later = still_reached deadline t script (reads k) taken (λ e x. cc x) reached in
          elim incoming
            as (λ inc. recv_exact_deadline deadline (t ∷ script) (suc n) inc ≢ waiting) [
              | [] ↦ λ h. cc (rw (taken, recv_exact_deadline) at h)
              | b ∷ bs ↦
                  let chunk = take (min k n) bs in
                  rw (taken, recv_exact_deadline)
                    (and_then-Ends
                      (recv_exact_deadline deadline script (n - length chunk) (drop (min k n) bs))
                      (λ more left. got (b ∷ (chunk ++ more)) left)
                      (recv_exact_deadline-Ends deadline script (n - length chunk)
                        (drop (min k n) bs) later)
                      (λ more left x. cc x))
            ]
    ]

module _ (o : OpenSsl) (z : Zstd) (key : Option Bytes) where
  read_body-Ends :
      (deadline : ℕ) (script : List Tick) (header incoming : Bytes)
      → Reaches deadline script
      → read_body o z key deadline script header incoming ≢ waiting
  unfolding read_body
  read_body-Ends deadline script header incoming reached =
      let len = read_be32 header 4 in
      elim (Bool-cases (ltb max_payload_size len)) [
        | inl large ↦ λ h. cc (rw (large, read_body) at h)
        | inr fits ↦
            rw (fits, read_body)
              (and_then-Ends
                (recv_exact_deadline deadline script (len + tag_size (read_be16 header 2)) incoming)
                _ (recv_exact_deadline-Ends deadline script _ incoming reached)
                (λ body left.
                  and_then-Ends (lift (parse_frame_bytes o z (header ++ body) key) left)
                    (λ parsed left'. got parsed.0 left')
                    (lift-Ends (parse_frame_bytes o z (header ++ body) key) left)
                    (λ parsed left' x. cc x)))
      ]

  read_frame_until-Ends :
      (deadline : ℕ) (script : Script) (incoming : Bytes)
      → recv_exact script.first 1 incoming ≢ waiting
      → Reaches deadline script.header
      → Reaches deadline script.body
      → read_frame_until o z key deadline script incoming ≢ waiting
  read_frame_until-Ends deadline script incoming first header body =
      and_then-Ends (recv_exact script.first 1 incoming) _ first (λ b left.
        and_then-Ends (recv_exact_deadline deadline script.header (frame_header_size - 1) left) _
          (recv_exact_deadline-Ends deadline script.header _ left header)
          (λ more left'. read_body-Ends deadline script.body (b ++ more) left' body))

  -- The deadline of a frame whose first byte is there, as the reader sets it.
  abbrev pub frame_deadline : ℕ → ℕ → ℕ → ℕ
  frame_deadline deadline now2 begun =
      int_deadline begun (max 1 ((deadline - now2) / 1000000) % 2 ^ 32)

  -- A reader with a deadline returns or throws, and does not wait for more, however its reads are split and
  -- interrupted, where a round before the first byte is at or after the deadline or has an answer of `poll` that is
  -- not an interruption, the read of the first byte does not wait, and the clock of each of the two
  -- loops behind it, for the header and for the body, reaches the deadline of the frame in some round.
  pub read_frame_full_with_deadline-Ends :
      (deadline now2 : ℕ) (waits : List (ℕ × PollAnswer)) (script : Script) (incoming : Bytes)
      → IsPolled deadline waits
      → recv_exact script.first 1 incoming ≢ waiting
      → Reaches (frame_deadline deadline now2 script.begun) script.header
      → Reaches (frame_deadline deadline now2 script.begun) script.body
      → read_frame_full_with_deadline o z key deadline waits now2 script incoming ≢ waiting
  unfolding read_frame_full_with_deadline
  read_frame_full_with_deadline-Ends deadline now2 [] script incoming polled first header body =
      absurd polled
  read_frame_full_with_deadline-Ends deadline now2 ((now, poll_interrupted) ∷ waits) script incoming
        polled first header body =
      elim (Bool-cases (leb deadline now)) [
        | inl late ↦ λ h. cc (rw (late, read_frame_full_with_deadline) at h)
        | inr early ↦ elim polled [
          | inl late ↦ cc (early, le→leb deadline now late)
          | inr (inl answered) ↦ absurd (answered refl)
          | inr (inr later) ↦
              rw (early, read_frame_full_with_deadline)
                (read_frame_full_with_deadline-Ends deadline now2 waits script incoming later first
                  header body)
        ]
      ]
  read_frame_full_with_deadline-Ends deadline now2 ((now, poll_failed) ∷ waits) script incoming
        polled first header body =
      ground arith
  read_frame_full_with_deadline-Ends deadline now2 ((now, expired) ∷ waits) script incoming polled
        first header body =
      ground arith
  read_frame_full_with_deadline-Ends deadline now2 ((now, ready) ∷ waits) script incoming polled
        first header body =
      elim (Bool-cases (leb deadline now)) [
        | inl late ↦ λ h. cc (rw (late, read_frame_full_with_deadline) at h)
        | inr early ↦
            rw (early, read_frame_full_with_deadline)
              (read_frame_until-Ends (frame_deadline deadline now2 script.begun) script incoming
                first header body)
      ]
