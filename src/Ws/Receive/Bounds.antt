-- ===== src/Ws/Receive/Bounds.antt =====
-- src/ws.cpp: the size of the messages that `receive_binary_deadline` returns.
use vynkor_sdk_cpp.Base.{
  ◌≤◌, ◌≡◌, refl, subst, not, List, [], ◌∷◌, ◌++◌, length, ltb, ◌==◌, ltb_false→le, inl, inr, ◌⊎◌,
  Bool-cases,
}
use vynkor_sdk_cpp.Error.{Exception, Result-cases}
use vynkor_sdk_cpp.Mac.{Bytes}
use vynkor_sdk_cpp.Ws.Codec.{
  WsIncomingFrame, ws_try_decode_server_frame, ws_max_message_size, op_binary, op_cont, op_text,
  op_ping, op_pong, op_close,
}
use vynkor_sdk_cpp.Ws.Codec.Stable.{ws_try_decode_server_frame_append}
use vynkor_sdk_cpp.Ws.Stream.{Fill, filled, fill_throws, fill_waits}
use vynkor_sdk_cpp.Ws.Receive.{
  Next, frame_at, stopped, blocked, try_frame, next_frame, Reply, Rx, delivers, on_binary, on_cont,
  on_ping, answered, on_frame, received, receive_loop,
}
use vynkor_sdk_cpp.Ws.Receive.Frames.{decode-cases}
use vynkor_sdk_cpp.Ws.Receive.Message.{Step-cases}

module _ (frame : WsIncomingFrame) (left : Bytes) (later : List Fill) where
  try_frame-small :
      (fills : List Fill) (buf : Bytes) (next : Next)
      → (next ≡ frame_at frame left later → length frame.payload ≤ ws_max_message_size)
      → try_frame fills buf next ≡ frame_at frame left later
      → length frame.payload ≤ ws_max_message_size
  unfolding try_frame
  try_frame-small fills buf next after h = elim (decode-cases (ws_try_decode_server_frame buf)) [
    | inl (x, e) ↦ cc (rw (e, try_frame) at h)
    | inr (inl e) ↦ elim (Bool-cases (ltb ws_max_message_size (length buf))) [
      | inl big ↦ cc (rw (e, big, try_frame) at h)
      | inr fits ↦ after (rw (e, fits, try_frame) at h)
    ]
    | inr (inr (f, n, e)) ↦
        let (_, (_, (_, small))) = ws_try_decode_server_frame_append buf [] f n e in
        let same : f ≡ frame = cc (rw (e, try_frame) at h) in
        subst (λ (g : WsIncomingFrame). length g.payload ≤ ws_max_message_size) same small
  ]

  next_frame-small :
      (fills : List Fill) (buf : Bytes)
      → next_frame fills buf ≡ frame_at frame left later
      → length frame.payload ≤ ws_max_message_size
  unfolding next_frame
  next_frame-small [] buf h = try_frame-small [] buf blocked (λ e. cc e) h
  next_frame-small (filled b bs ∷ fills) buf h =
      try_frame-small (filled b bs ∷ fills) buf (next_frame fills (buf ++ (b ∷ bs)))
        (next_frame-small fills (buf ++ (b ∷ bs))) h
  next_frame-small (fill_throws x ∷ fills) buf h =
      try_frame-small (fill_throws x ∷ fills) buf (stopped x) (λ e. cc e) h
  next_frame-small (fill_waits ∷ fills) buf h =
      try_frame-small (fill_waits ∷ fills) buf blocked (λ e. cc e) h

module _ (reply : Reply) (s : Rx) (frame : WsIncomingFrame) (m : Bytes)
    (small : length frame.payload ≤ ws_max_message_size) where
  on_binary-small : on_binary s frame ≡ delivers m → length m ≤ ws_max_message_size
  unfolding on_binary
  on_binary-small h = elim (Bool-cases s.in_message) [
    | inl e ↦ cc (rw (e, on_binary) at h)
    | inr e ↦ elim (Bool-cases frame.fin) [
      | inr f ↦ cc (rw (e, f, on_binary) at h)
      | inl f ↦
          let same : frame.payload ≡ m = cc (rw (e, f, on_binary) at h) in
          subst (λ t. length t ≤ ws_max_message_size) same small
    ]
  ]

  on_cont-small : on_cont s frame ≡ delivers m → length m ≤ ws_max_message_size
  unfolding on_cont
  on_cont-small h = elim (Bool-cases (not s.in_message)) [
    | inl e ↦ cc (rw (e, on_cont) at h)
    | inr e ↦ elim (Bool-cases (ltb ws_max_message_size (length (s.message ++ frame.payload)))) [
      | inl big ↦ cc (rw (e, big, on_cont) at h)
      | inr fits ↦ elim (Bool-cases frame.fin) [
        | inr f ↦ cc (rw (e, fits, f, on_cont) at h)
        | inl f ↦
            let same : s.message ++ frame.payload ≡ m = cc (rw (e, fits, f, on_cont) at h) in
            subst (λ t. length t ≤ ws_max_message_size) same (ltb_false→le _ _ fits)
      ]
    ]
  ]

  on_ping-silent : on_ping reply s frame ≡ delivers m → ⊥
  unfolding on_ping
  on_ping-silent h = elim (Result-cases (answered reply op_pong frame.payload)) [
    | inl (pong, e) ↦ cc (rw (e, on_ping) at h)
    | inr (x, e) ↦ cc (rw (e, on_ping) at h)
  ]

  on_frame-small : on_frame reply s frame ≡ delivers m → length m ≤ ws_max_message_size
  unfolding on_frame
  on_frame-small h = elim (Bool-cases (frame.opcode == op_binary)) [
    | inl e ↦ on_binary-small (rw (e, on_frame) at h)
    | inr n1 ↦ elim (Bool-cases (frame.opcode == op_cont)) [
      | inl e ↦ on_cont-small (rw (n1, e, on_frame) at h)
      | inr n2 ↦ elim (Bool-cases (frame.opcode == op_text)) [
        | inl e ↦ cc (rw (n1, n2, e, on_frame) at h)
        | inr n3 ↦ elim (Bool-cases (frame.opcode == op_ping)) [
          | inl e ↦ absurd (on_ping-silent (rw (n1, n2, n3, e, on_frame) at h))
          | inr n4 ↦ elim (Bool-cases (frame.opcode == op_pong)) [
            | inl e ↦ cc (rw (n1, n2, n3, n4, e, on_frame) at h)
            | inr n5 ↦ elim (Bool-cases (frame.opcode == op_close)) [
              | inl e ↦ cc (rw (n1, n2, n3, n4, n5, e, on_frame) at h)
              | inr n6 ↦ cc (rw (n1, n2, n3, n4, n5, n6, on_frame) at h)
            ]
          ]
        ]
      ]
    ]
  ]

Next-cases :
    (n : Next)
    → ((n ≡ blocked) ⊎ ((e : Exception) × (n ≡ stopped e)))
      ⊎ ((frame : WsIncomingFrame) × (left : Bytes) × (later : List Fill) × (n
            ≡ frame_at frame left later))
Next-cases blocked = inl (inl refl)
Next-cases (stopped e) = inl (inr (e, refl))
Next-cases (frame_at frame left later) = inr (frame, left, later, refl)

-- Whatever the server sends and however it is cut, a message that the call returns has at most 4 MiB.
pub receive_loop_bounded :
    (replies : List Reply) (fills : List Fill) (buf : Bytes) (s : Rx) (m left : Bytes)
    (later : List Fill) (sent : List Bytes)
    → receive_loop replies fills buf s ≡ received m left later sent
    → length m ≤ ws_max_message_size
unfolding receive_loop
receive_loop_bounded [] fills buf s m left later sent h = cc h
receive_loop_bounded (reply ∷ replies) fills buf s m left later sent h =
    elim (Next-cases (next_frame fills buf)) [
      | inl (inl e) ↦ cc (rw (e, receive_loop) at h)
      | inl (inr (x, e)) ↦ cc (rw (e, receive_loop) at h)
      | inr (frame, left', later', e) ↦ elim (Step-cases (on_frame reply s frame)) [
        | inl (d, t) ↦
            let same : d ≡ m = cc (rw (e, t, receive_loop) at h) in
            subst (λ b. length b ≤ ws_max_message_size) same
              (on_frame-small reply s frame d (next_frame-small frame left' later' fills buf e) t)
        | inr (inl (x, t)) ↦ cc (rw (e, t, receive_loop) at h)
        | inr (inr (s', t)) ↦
            receive_loop_bounded replies later' left' s' m left later sent
              (rw (e, t, receive_loop) at h)
      ]
    ]
