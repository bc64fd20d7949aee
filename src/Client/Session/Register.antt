-- ===== src/Client/Session/Register.antt =====
-- src/client.cpp: the registration, and the frames that follow it.
use vynkor_sdk_cpp.Base.{
  ℕ, ◌≡◌, refl, ap, sym, ◌∙◌, arith, true, Option, some, List, [], ◌∷◌, ◌++◌, length, All, inl, inr,
  ltb, Bool-cases, Option-cases,
}
use vynkor_sdk_cpp.Base.Text.{Text}
use vynkor_sdk_cpp.Error.{Result, ok, throws, Result-cases}
use vynkor_sdk_cpp.Mac.{Bytes, IsByte, OpenSsl, IsOpenSsl, derive_session_key}
use vynkor_sdk_cpp.Framing.Header.{max_payload_size}
use vynkor_sdk_cpp.Framing.Zstd.{Zstd, IsZstd}
use vynkor_sdk_cpp.Framing.Parse.{FrameResult, parse_frame_bytes}
use vynkor_sdk_cpp.Framing.RoundTrip.{
  parse_frame_bytes-pack_frame_raw, parse_frame_bytes-pack_frame_ws,
}
use vynkor_sdk_cpp.Protocol.{
  Envelope, PluginManifest, PluginRegisterAck, plugin_register_ack, error,
}
use vynkor_sdk_cpp.Client.State.{VynkorClient}
use vynkor_sdk_cpp.Client.Send.{send_raw, send_raw_with_flags}
use vynkor_sdk_cpp.Client.Receive.{Arrival, recv}
use vynkor_sdk_cpp.Client.Replies.{keyed_with, registered, register_request}
use vynkor_sdk_cpp.Client.Session.{Exchange, outgoing, ask, register_full}

-- The key that both ends derive.
registered-keyed :
    (o : OpenSsl) (c : VynkorClient) (plugin_id : Text) (reply : Envelope) (ack : PluginRegisterAck)
    (s n : ℕ) (secret nonce key : Bytes)
    → c.secret ≡ s ∷ secret
    → ack.session_nonce ≡ n ∷ nonce
    → derive_session_key o (s ∷ secret) (n ∷ nonce) plugin_id ≡ ok key
    → (registered o plugin_id c reply).1 ≡ ok ack
    → (registered o plugin_id c reply).0.session_key ≡ some key
unfolding registered keyed_with
registered-keyed o c plugin_id (plugin_register_ack a) ack s n secret nonce key es en ek h =
    elim (Result-cases (keyed_with o c plugin_id c.secret a.session_nonce)) [
      | inr (e, failed) ↦ cc (rw (failed, registered) at h)
      | inl (c', joined) ↦
          let same : a ≡ ack = cc (rw (joined, registered) at h) in
          let derived : keyed_with o c plugin_id c.secret a.session_nonce
              ≡ ok (record c { session_key = some key }) =
            ap (λ t. keyed_with o c plugin_id t a.session_nonce) es
            ∙ (ap (keyed_with o c plugin_id (s ∷ secret))
                  (ap (λ (t : PluginRegisterAck). t.session_nonce) same ∙ en)
                ∙ rw (ek, keyed_with) refl) in
          rw (derived, registered) refl
    ]
registered-keyed o c plugin_id (error code message details) ack s n secret nonce key es en ek h =
    cc h
registered-keyed o c plugin_id reply ack s n secret nonce key es en ek h = cc h

keyed-send_raw :
    (o : OpenSsl) (z : Zstd) (c : VynkorClient) (target : Text) (key payload frame rest : Bytes)
    → IsOpenSsl o
    → IsZstd z
    → c.session_key ≡ some key
    → All IsByte payload
    → send_raw o z c target payload ≡ ok frame
    → (r : FrameResult) × (parse_frame_bytes o z (frame ++ rest) (some key) ≡ ok (r, length frame))
      × (r.payload ≡ payload)
      × (r.has_mac ≡ true)
unfolding send_raw send_raw_with_flags
keyed-send_raw o z c target key payload frame rest lo lz keyed bytes h = elim (Bool-cases c.ws) [
  | inl over_ws ↦ elim (Bool-cases (ltb max_payload_size (length payload))) [
    | inl big ↦ cc (rw (over_ws, big, send_raw, send_raw_with_flags) at h)
    | inr fits ↦
        let (r, parsed, same, _, mac, _) =
          parse_frame_bytes-pack_frame_ws o z target 1 payload (some key) frame rest lo lz
            (omega arith) refl refl bytes
            (rw (keyed, over_ws, fits, send_raw, send_raw_with_flags) at h) in
        (r, parsed, same, mac)
  ]
  | inr over_uds ↦
      let (r, parsed, same, _, mac, _) =
        parse_frame_bytes-pack_frame_raw o z target 1 payload (some key) frame rest lo lz
          (omega arith) refl refl bytes
          (rw (keyed, over_uds, send_raw, send_raw_with_flags) at h) in
      (r, parsed, same, mac)
]

module _ (o : OpenSsl) (z : Zstd) (serialize : Envelope → Bytes)
    (parse_from_array : Bytes → Option Envelope) where
  register_full-keyed :
      (written : Result (Unit {0})) (c : VynkorClient) (plugin_id version : Text)
      (manifest : PluginManifest) (token : Text) (arrivals : List Arrival) (ack : PluginRegisterAck)
      (s n : ℕ) (secret nonce key : Bytes)
      → c.secret ≡ s ∷ secret
      → ack.session_nonce ≡ n ∷ nonce
      → derive_session_key o (s ∷ secret) (n ∷ nonce) plugin_id ≡ ok key
      → (register_full o z serialize parse_from_array written c plugin_id version manifest token
          arrivals).outcome
        ≡ some (ok ack)
      → (register_full o z serialize parse_from_array written c plugin_id version manifest token
          arrivals).client.session_key
        ≡ some key
  unfolding register_full ask
  register_full-keyed written c plugin_id version manifest token arrivals ack s n secret nonce key
        es en ek h =
      elim (Result-cases (
        outgoing o z serialize parse_from_array written c
          (register_request c plugin_id version manifest token))) [
            | inr (e, failed) ↦ cc (rw (failed, register_full, ask) at h)
            | inl (frame, out) ↦
                elim (Option-cases (recv parse_from_array c.reassembly arrivals).1) [
                  | inl waits ↦ cc (rw (out, waits, register_full, ask) at h)
                  | inr ((throws e, later), got) ↦ cc (rw (out, got, register_full, ask) at h)
                  | inr ((ok reply, later), got) ↦
                      let c' : VynkorClient = record c {
                        reassembly = (recv parse_from_array c.reassembly arrivals).0;
                      } in
                      let end : Exchange PluginRegisterAck = record {
                        client = (registered o plugin_id c' reply).0;
                        sent = frame ∷ [];
                        later = later;
                        outcome = some (registered o plugin_id c' reply).1;
                      } in
                      let same : register_full o z serialize parse_from_array written c plugin_id
                            version manifest token arrivals
                          ≡ end =
                        rw (out, got, register_full, ask) refl in
                      let acked : (registered o plugin_id c' reply).1 ≡ ok ack =
                        cc (sym (ap (λ (x : Exchange PluginRegisterAck). x.outcome) same) ∙ h) in
                      ap (λ (x : Exchange PluginRegisterAck). x.client.session_key) same
                      ∙ registered-keyed o c' plugin_id reply ack s n secret nonce key es en ek
                          acked
                ]
          ]

-- After `register_full` has returned an acknowledgement with a nonce to a client with a secret, a peer that
-- derived the same key reads every frame that the client sends with `send_raw`, with the payload that was sent
-- and an authentication tag that it has checked.
pub register_full-send_raw :
    (o : OpenSsl) (z : Zstd) (serialize : Envelope → Bytes)
    (parse_from_array : Bytes → Option Envelope) (written : Result (Unit {0})) (c : VynkorClient)
    (plugin_id version : Text) (manifest : PluginManifest) (token : Text) (arrivals : List Arrival)
    (ack : PluginRegisterAck) (s n : ℕ) (secret nonce key : Bytes) (target : Text)
    (payload frame rest : Bytes)
    → IsOpenSsl o
    → IsZstd z
    → c.secret ≡ s ∷ secret
    → ack.session_nonce ≡ n ∷ nonce
    → derive_session_key o (s ∷ secret) (n ∷ nonce) plugin_id ≡ ok key
    → (register_full o z serialize parse_from_array written c plugin_id version manifest token
        arrivals).outcome
      ≡ some (ok ack)
    → All IsByte payload
    → send_raw o z
        (register_full o z serialize parse_from_array written c plugin_id version manifest token
          arrivals).client
        target
        payload
      ≡ ok frame
    → (r : FrameResult) × (parse_frame_bytes o z (frame ++ rest) (some key) ≡ ok (r, length frame))
      × (r.payload ≡ payload)
      × (r.has_mac ≡ true)
register_full-send_raw o z serialize parse_from_array written c plugin_id version manifest token
      arrivals ack s n secret nonce key target payload frame rest lo lz es en ek h bytes sent =
    keyed-send_raw o z _ target key payload frame rest lo lz
      (register_full-keyed o z serialize parse_from_array written c plugin_id version manifest token
        arrivals ack s n secret nonce key es en ek h)
      bytes sent
