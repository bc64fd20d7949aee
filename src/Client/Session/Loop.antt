-- ===== src/Client/Session/Loop.antt =====
-- src/client.cpp: the loop of `wait_for_response`: it ends, and what it returns.
use vynkor_sdk_cpp.Base.{
  ℕ, zero, suc, ◌<◌, ◌≡◌, refl, ap, sym, ◌∙◌, arith, Bool, true, false, Option, none, some, List,
  [], ◌∷◌, length, inl, inr, ◌⊎◌, Bool-cases, Option-cases,
}
use vynkor_sdk_cpp.Base.Text.{lit}
use vynkor_sdk_cpp.Error.{Exception, ok, throws, proto, Result-cases}
use vynkor_sdk_cpp.Mac.{Bytes}
use vynkor_sdk_cpp.Framing.Parse.{FrameResult}
use vynkor_sdk_cpp.Protocol.{Envelope}
use vynkor_sdk_cpp.Client.Reassembly.{Streams, absorb_fragment}
use vynkor_sdk_cpp.Client.Receive.{
  Arrival, Received, complete, receive_throws, receive_waits, recv_frame, is_fragment, parsed,
}
use vynkor_sdk_cpp.Client.Session.{Waited, responded, wait_loop}

pub none_below : (n : ℕ) → n < 0 → ⊥
none_below n h = omega (arith, h)

pub Received-cases :
    (r : Received)
    → ((frame : FrameResult) × (later : List Arrival) × (r ≡ complete frame later))
      ⊎ (((e : Exception) × (later : List Arrival) × (r ≡ receive_throws e later))
          ⊎ (r ≡ receive_waits))
Received-cases (complete frame later) = inl (frame, later, refl)
Received-cases (receive_throws e later) = inr (inl (e, later, refl))
Received-cases receive_waits = inr (inr refl)

-- A complete frame takes an arrival at least.
pub complete-reads :
    (m : Streams) (arrivals : List Arrival) (frame : FrameResult) (later : List Arrival)
    → (recv_frame m arrivals).1 ≡ complete frame later
    → length later < length arrivals
unfolding recv_frame
complete-reads m [] frame later h = cc h
complete-reads m (a ∷ arrivals) frame later h = elim (Result-cases a.read) [
  | inr (e, failed) ↦ cc (rw (failed, recv_frame) at h)
  | inl (got, fine) ↦ elim (Bool-cases (is_fragment got)) [
    | inr plain ↦
        let same : arrivals ≡ later = cc (rw (fine, plain, recv_frame) at h) in
        omega (arith, ap (λ (l : List Arrival). length l) same)
    | inl marked ↦ elim (Result-cases (absorb_fragment a.now a.seen m got).1) [
      | inr (e, failed) ↦ cc (rw (fine, marked, failed, recv_frame) at h)
      | inl (some whole, kept) ↦
          let same : arrivals ≡ later = cc (rw (fine, marked, kept, recv_frame) at h) in
          omega (arith, ap (λ (l : List Arrival). length l) same)
      | inl (none, kept) ↦
          let fewer : length later < length arrivals =
            complete-reads (absorb_fragment a.now a.seen m got).0 arrivals frame later
              (rw (fine, marked, kept, recv_frame) at h) in
          omega (arith, fewer)
    ]
  ]
]

module _ (parse_from_array : Bytes → Option Envelope) (is_terminal : Envelope → Bool) where
  -- What the loop of `wait_for_response` is to return: the first envelope that ends the wait, where the frames
  -- in front of it are whole and carry envelopes that do not.
  pub data Awaited : Streams → List Arrival → Envelope → Type 0 where
    now :
        (m m' : Streams) (arrivals later : List Arrival) (frame : FrameResult) (env : Envelope)
        → recv_frame m arrivals ≡ (m', complete frame later)
        → parse_from_array frame.payload ≡ some env
        → is_terminal env ≡ true
        → Awaited m arrivals env
    skip :
        (m m' : Streams) (arrivals later : List Arrival) (frame : FrameResult)
        (other env : Envelope)
        → recv_frame m arrivals ≡ (m', complete frame later)
        → parse_from_array frame.payload ≡ some other
        → is_terminal other ≡ false
        → Awaited m' later env
        → Awaited m arrivals env

  parsed-cases :
      (frame : FrameResult)
      → ((env : Envelope) × (parse_from_array frame.payload ≡ some env)
          × (parsed parse_from_array frame ≡ ok env))
        ⊎ ((e : Exception) × (parsed parse_from_array frame ≡ throws e))
  parsed-cases frame = elim (Option-cases (parse_from_array frame.payload)) [
    | inl missing ↦ inr (proto (lit "protobuf parse failed"), rw (missing, parsed) refl)
    | inr (env, there) ↦ inl (env, there, rw (there, parsed) refl)
  ]

  both : {A B : Type 0} (p : A × B) (b : B) → p.1 ≡ b → p ≡ (p.0, b)
  both (x, y) b h = ap (λ t. (x, t)) h

  pub wait_loop-Awaited :
      (fuel : ℕ) (m : Streams) (arrivals later : List Arrival) (env : Envelope)
      → (wait_loop parse_from_array is_terminal fuel m arrivals).1 ≡ responded env later
      → Awaited m arrivals env × (is_terminal env ≡ true)
  unfolding wait_loop
  wait_loop-Awaited zero m arrivals later env h = cc h
  wait_loop-Awaited (suc fuel) m arrivals later env h =
      elim (Received-cases (recv_frame m arrivals).1) [
        | inr (inr waits) ↦ cc (rw (waits, wait_loop) at h)
        | inr (inl (e, rest, failed)) ↦ cc (rw (failed, wait_loop) at h)
        | inl (frame, rest, got) ↦
            let whole = both (recv_frame m arrivals) (complete frame rest) got in
            elim (parsed-cases frame) [
              | inr (e, failed) ↦ cc (rw (got, failed, wait_loop) at h)
              | inl (read, there, fine) ↦ elim (Bool-cases (is_terminal read)) [
                | inl ends ↦
                    let same : read ≡ env = cc (rw (got, fine, ends, wait_loop) at h) in
                    let terminal : is_terminal env ≡ true = ap is_terminal (sym same) ∙ ends in
                    (
                      now m (recv_frame m arrivals).0 arrivals rest frame env whole
                          (there ∙ ap some same) terminal,
                      terminal,
                    )
                | inr other ↦
                    let (awaited, terminal) =
                      wait_loop-Awaited fuel (recv_frame m arrivals).0 rest later env
                        (rw (got, fine, other, wait_loop) at h) in
                    (
                      skip m (recv_frame m arrivals).0 arrivals rest frame read env whole there
                          other awaited,
                      terminal,
                    )
              ]
            ]
      ]

  pub Awaited-wait_loop :
      (fuel : ℕ) (m : Streams) (arrivals : List Arrival) (env : Envelope)
      → length arrivals < fuel
      → Awaited m arrivals env
      → (later : List Arrival) × ((wait_loop parse_from_array is_terminal fuel m arrivals).1
          ≡ responded env later)
  unfolding wait_loop
  Awaited-wait_loop zero m arrivals env h awaited = elim (none_below (length arrivals) h) [ ]
  Awaited-wait_loop (suc fuel) m arrivals env h (now m1 m' ar later frame env1 got there ends) =
      (later, rw (got, there, ends, wait_loop) refl)
  Awaited-wait_loop (suc fuel) m arrivals env h
        (skip m1 m' ar later frame other env1 got there goes awaited) =
      let fewer : length later < fuel = omega (
        arith,
        h,
        complete-reads m arrivals frame later (ap (λ (x : Streams × Received). x.1) got),
      ) in
      let left : (recv_frame m arrivals).0 ≡ m' = ap (λ (x : Streams × Received). x.0) got in
      let came : (recv_frame m arrivals).1 ≡ complete frame later =
        ap (λ (x : Streams × Received). x.1) got in
      let step : wait_loop parse_from_array is_terminal (suc fuel) m arrivals
          ≡ wait_loop parse_from_array is_terminal fuel (recv_frame m arrivals).0 later =
        rw (came, there, goes, wait_loop) refl in
      let (rest, found) = Awaited-wait_loop fuel m' later env fewer awaited in
      (
        rest,
        ap (λ (x : Streams × Waited). x.1)
              (step
                ∙ ap (λ (n : Streams). wait_loop parse_from_array is_terminal fuel n later) left)
            ∙ found,
      )
