-- ===== src/Client/Session/Waits.antt =====
-- src/client.cpp: the calls that stand on `wait_for_response`.
use vynkor_sdk_cpp.Base.{
  ℕ, suc, ◌≡◌, refl, ap, sym, subst, ◌∙◌, arith, Bool, true, Option, some, List, [], ◌∷◌, length,
  text_eq_sound, inl, inr, ◌⊎◌,
}
use vynkor_sdk_cpp.Base.Text.{Text}
use vynkor_sdk_cpp.Error.{Exception, Result, ok, Result-cases}
use vynkor_sdk_cpp.Mac.{Bytes, OpenSsl}
use vynkor_sdk_cpp.Framing.Zstd.{Zstd}
use vynkor_sdk_cpp.Protocol.{Envelope, ActionResponse, error, action_stream_abort, action_response}
use vynkor_sdk_cpp.Client.State.{VynkorClient}
use vynkor_sdk_cpp.Client.Requests.{ends_action, action_result}
use vynkor_sdk_cpp.Client.Receive.{Arrival}
use vynkor_sdk_cpp.Client.Replies.{action_of}
use vynkor_sdk_cpp.Client.Session.{
  Waited, responded, wait_throws, still_waiting, out_of_fuel, wait_for_response, outgoing,
  ask_waiting, send_action,
}
use vynkor_sdk_cpp.Client.Session.Loop.{Awaited, wait_loop-Awaited, Awaited-wait_loop}

Waited-cases :
    (w : Waited)
    → ((env : Envelope) × (later : List Arrival) × (w ≡ responded env later))
      ⊎ (((e : Exception) × (later : List Arrival) × (w ≡ wait_throws e later))
          ⊎ ((w ≡ still_waiting) ⊎ (w ≡ out_of_fuel)))
Waited-cases (responded env later) = inl (env, later, refl)
Waited-cases (wait_throws e later) = inr (inl (e, later, refl))
Waited-cases still_waiting = inr (inr (inl refl))
Waited-cases out_of_fuel = inr (inr (inr refl))

action_result_lem :
    (action_id : Text) (env : Envelope) (r : ActionResponse)
    → ends_action action_id env ≡ true
    → action_result env ≡ ok r
    → env ≡ action_response r
unfolding ends_action action_result
action_result_lem action_id (action_response q) r e h = ap action_response (cc h)
action_result_lem action_id (action_stream_abort id reason) r e h = cc h
action_result_lem action_id (error code message details) r e h = cc h
action_result_lem action_id env r e h = cc e

module _ (o : OpenSsl) (z : Zstd) (serialize : Envelope → Bytes)
    (parse_from_array : Bytes → Option Envelope) where
  ask_waiting-responded :
      {A : Type 0} (written : Result (Unit {0})) (c : VynkorClient) (env : Envelope)
      (is_terminal : Envelope → Bool) (result : Envelope → Result A) (arrivals : List Arrival)
      (value : A)
      → (ask_waiting o z serialize parse_from_array written c env is_terminal result
          arrivals).outcome
        ≡ some (ok value)
      → (reply : Envelope) × Awaited parse_from_array is_terminal c.reassembly arrivals reply
        × (is_terminal reply ≡ true)
        × (result reply ≡ ok value)
  unfolding ask_waiting wait_for_response
  ask_waiting-responded written c env is_terminal result arrivals value h =
      elim (Result-cases (outgoing o z serialize parse_from_array written c env)) [
        | inr (e, failed) ↦ cc (rw (failed, ask_waiting) at h)
        | inl (frame, out) ↦
            elim (Waited-cases
              (wait_for_response parse_from_array is_terminal c.reassembly arrivals).1) [
                | inr (inr (inr over)) ↦ cc (rw (out, over, ask_waiting) at h)
                | inr (inr (inl waits)) ↦ cc (rw (out, waits, ask_waiting) at h)
                | inr (inl (e, later, failed)) ↦ cc (rw (out, failed, ask_waiting) at h)
                | inl (reply, later, came) ↦
                    let (awaited, ends) =
                      wait_loop-Awaited parse_from_array is_terminal (suc (length arrivals))
                        c.reassembly arrivals later reply came in
                    (reply, awaited, ends, cc (rw (out, came, ask_waiting) at h))
              ]
      ]

  ask_waiting-returns :
      {A : Type 0} (written : Result (Unit {0})) (c : VynkorClient) (env : Envelope)
      (is_terminal : Envelope → Bool) (result : Envelope → Result A) (arrivals : List Arrival)
      (frame : Bytes) (reply : Envelope)
      → outgoing o z serialize parse_from_array written c env ≡ ok frame
      → Awaited parse_from_array is_terminal c.reassembly arrivals reply
      → (ask_waiting o z serialize parse_from_array written c env is_terminal result
          arrivals).outcome
        ≡ some (result reply)
  unfolding ask_waiting wait_for_response
  ask_waiting-returns written c env is_terminal result arrivals frame reply out awaited =
      let (later, came) =
        Awaited-wait_loop parse_from_array is_terminal (suc (length arrivals)) c.reassembly arrivals
          reply (omega arith) awaited in
      let found : (wait_for_response parse_from_array is_terminal c.reassembly arrivals).1
          ≡ responded reply later =
        came in
      rw (out, found, ask_waiting) refl

  -- What was sent does not depend on what comes back.
  pub ask_waiting-sent :
      {A : Type 0} (written : Result (Unit {0})) (c : VynkorClient) (env : Envelope)
      (is_terminal : Envelope → Bool) (result : Envelope → Result A) (arrivals : List Arrival)
      (frame : Bytes)
      → outgoing o z serialize parse_from_array written c env ≡ ok frame
      → (ask_waiting o z serialize parse_from_array written c env is_terminal result arrivals).sent
        ≡ frame ∷ []
  unfolding ask_waiting
  ask_waiting-sent written c env is_terminal result arrivals frame out =
      elim (Waited-cases (wait_for_response parse_from_array is_terminal c.reassembly arrivals).1) [
        | inr (inr (inr over)) ↦ rw (out, over, ask_waiting) refl
        | inr (inr (inl waits)) ↦ rw (out, waits, ask_waiting) refl
        | inr (inl (e, later, failed)) ↦ rw (out, failed, ask_waiting) refl
        | inl (reply, later, came) ↦ rw (out, came, ask_waiting) refl
      ]

-- A response that `send_action` returns was read from the transport, carries the id of the request, and
-- is the first envelope that ends the wait: the frames in front of it carry envelopes that do not.
pub send_action_sound :
    (o : OpenSsl) (z : Zstd) (serialize : Envelope → Bytes)
    (parse_from_array : Bytes → Option Envelope) (written : Result (Unit {0})) (c : VynkorClient)
    (action_id action : Text) (params_json : Bytes) (timeout_ms : ℕ) (arrivals : List Arrival)
    (r : ActionResponse)
    → (send_action o z serialize parse_from_array written c action_id action params_json timeout_ms
        arrivals).outcome
      ≡ some (ok r)
    → Awaited parse_from_array (ends_action action_id) c.reassembly arrivals (action_response r)
      × (r.action_id ≡ action_id)
unfolding send_action ends_action
send_action_sound o z serialize parse_from_array written c action_id action params_json timeout_ms
      arrivals r h =
    let (reply, awaited, ends, result) =
      ask_waiting-responded o z serialize parse_from_array written c
        (action_of action_id action params_json timeout_ms) (ends_action action_id) action_result
        arrivals r h in
    let same = action_result_lem action_id reply r ends result in
    (
      subst (λ env. Awaited parse_from_array (ends_action action_id) c.reassembly arrivals env) same
          awaited,
      text_eq_sound r.action_id action_id (ap (ends_action action_id) (sym same) ∙ ends),
    )

-- Where the request was packed and written, `send_action` returns the response with the id of the request, if the
-- frames read in front of it, fragmented or not, are whole and parse as envelopes that do not end the wait.
pub send_action_returns :
    (o : OpenSsl) (z : Zstd) (serialize : Envelope → Bytes)
    (parse_from_array : Bytes → Option Envelope) (written : Result (Unit {0})) (c : VynkorClient)
    (action : Text) (params_json : Bytes) (timeout_ms : ℕ) (arrivals : List Arrival) (frame : Bytes)
    (r : ActionResponse)
    → outgoing o z serialize parse_from_array written c
        (action_of r.action_id action params_json timeout_ms)
      ≡ ok frame
    → Awaited parse_from_array (ends_action r.action_id) c.reassembly arrivals (action_response r)
    → (send_action o z serialize parse_from_array written c r.action_id action params_json
        timeout_ms arrivals).outcome
      ≡ some (ok r)
unfolding send_action action_result
send_action_returns o z serialize parse_from_array written c action params_json timeout_ms arrivals
      frame r out awaited =
    ask_waiting-returns o z serialize parse_from_array written c
      (action_of r.action_id action params_json timeout_ms) (ends_action r.action_id) action_result
      arrivals frame (action_response r) out awaited
