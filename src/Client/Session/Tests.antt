-- ===== src/Client/Session/Tests.antt =====
-- Runs of the exchanges with the kernel.
use vynkor_sdk_cpp.Base.{
  ℕ, ◌≡◌, refl, arith, true, Option, none, some, List, [], ◌∷◌, ◌++◌, length, text_eq,
}
use vynkor_sdk_cpp.Base.Text.{lit}
use vynkor_sdk_cpp.Error.{Result, ok, throws, timeout}
use vynkor_sdk_cpp.Mac.{
  Bytes, derive_session_key, hkdf_extract, hkdf_expand, hmac_sha256, compute_tag,
}
use vynkor_sdk_cpp.Mac.Tests.{toy_ssl, toy_ssl-IsOpenSsl}
use vynkor_sdk_cpp.Framing.Tests.{toy_zstd, toy_zstd-IsZstd}
use vynkor_sdk_cpp.Framing.Pack.{pack_frame_raw, wire_form, is_candidate, tag_of}
use vynkor_sdk_cpp.Framing.Parse.{FrameResult, parse_frame_bytes}
use vynkor_sdk_cpp.Protocol.{
  Envelope, ActionResponse, PluginManifest, PluginRegisterAck, status_ok, pong, action_response,
  plugin_register_ack,
}
use vynkor_sdk_cpp.Client.State.{VynkorClient, adopt_fd}
use vynkor_sdk_cpp.Client.Reassembly.{whole_frame}
use vynkor_sdk_cpp.Client.Requests.{ends_action, action_result}
use vynkor_sdk_cpp.Client.Send.{send, send_raw, send_raw_with_flags}
use vynkor_sdk_cpp.Client.Receive.{Arrival, recv_frame, recv, envelope_of}
use vynkor_sdk_cpp.Client.Replies.{registered, keyed_with, action_of, register_request}
use vynkor_sdk_cpp.Client.Session.{
  Exchange, wait_throws, within, wait_loop, wait_for_response, send_action, register_full, ask,
  ask_waiting,
}
use vynkor_sdk_cpp.Client.Session.Loop.{Awaited, now, skip}
use vynkor_sdk_cpp.Client.Session.Waits.{send_action_sound, send_action_returns}
use vynkor_sdk_cpp.Client.Session.Register.{register_full-send_raw}

abbrev response : ActionResponse
response = record { action_id = b'a' ∷ []; status = status_ok; data_json = []; error = [] }

abbrev ack : PluginRegisterAck
ack = record { accepted = true; reject_reason = []; session_nonce = 2 ∷ [] }

abbrev toy_parse : Bytes → Option Envelope
toy_parse [] = some (pong 1 2)
toy_parse (b ∷ []) = some (action_response response)
toy_parse (b ∷ c ∷ []) = some (plugin_register_ack ack)
toy_parse (b ∷ c ∷ d ∷ bs) = none

abbrev toy_serialize : Envelope → Bytes
toy_serialize env = 4 ∷ []

abbrev arrival : Bytes → Arrival
arrival payload = record { now = 0; seen = 0; read = ok (whole_frame 0 payload) }

abbrev arrivals : List Arrival
arrivals = arrival [] ∷ (arrival (7 ∷ []) ∷ [])

abbrev client : VynkorClient
client = adopt_fd 3 (1 ∷ [])

abbrev bytes_of : Result Bytes → Bytes
bytes_of (ok bytes) = bytes
bytes_of (throws e) = []

abbrev request : Bytes
request = bytes_of (
    send toy_ssl toy_zstd toy_serialize client (lit "kernel")
      (action_of (b'a' ∷ []) (lit "x") [] 5))

arrivals-Awaited :
    Awaited toy_parse (ends_action (b'a' ∷ [])) [] arrivals (action_response response)
unfolding recv_frame ends_action text_eq
arrivals-Awaited =
    skip [] [] arrivals (arrival (7 ∷ []) ∷ []) (whole_frame 0 []) (pong 1 2)
      (action_response response) refl refl refl
      (now [] [] (arrival (7 ∷ []) ∷ []) [] (whole_frame 0 (7 ∷ [])) (action_response response) refl
        refl refl)

send_action_sound_example :
    Awaited toy_parse (ends_action (b'a' ∷ [])) [] arrivals (action_response response)
    × (response.action_id ≡ b'a' ∷ [])
unfolding send_action ask_waiting send send_raw send_raw_with_flags pack_frame_raw tag_of wire_form
    is_candidate wait_for_response wait_loop recv_frame ends_action action_result text_eq
send_action_sound_example =
    send_action_sound toy_ssl toy_zstd toy_serialize toy_parse (ok tt) client (b'a' ∷ []) (lit "x")
      [] 5 arrivals response refl

send_action_returns_example :
    (send_action toy_ssl toy_zstd toy_serialize toy_parse
      (ok tt)
      client
      (b'a' ∷ [])
      (lit "x")
      []
      5
      arrivals).outcome
    ≡ some (ok response)
unfolding send send_raw send_raw_with_flags pack_frame_raw tag_of wire_form is_candidate action_of
send_action_returns_example =
    send_action_returns toy_ssl toy_zstd toy_serialize toy_parse (ok tt) client (lit "x") [] 5
      arrivals request response refl arrivals-Awaited

-- Unrelated traffic before the deadline, and a response that comes too late.
abbrev timed : List (ℕ × Arrival)
timed = (3, arrival []) ∷ (8, arrival (7 ∷ [])) ∷ []

late :
    (wait_for_response toy_parse (ends_action (b'a' ∷ [])) [] (within 8 timed)).1
    ≡ wait_throws timeout []
unfolding within wait_for_response wait_loop recv_frame ends_action text_eq
late = refl

abbrev key : Bytes
key = bytes_of (derive_session_key toy_ssl (1 ∷ []) (2 ∷ []) (lit "p"))

key_lem : derive_session_key toy_ssl (1 ∷ []) (2 ∷ []) (lit "p") ≡ ok key
unfolding derive_session_key hkdf_extract hkdf_expand hmac_sha256
key_lem = refl

abbrev manifest : PluginManifest
manifest = record {
  permissions = [];
  actions = [];
  events = [];
  ipc_targets = [];
  platforms = [];
  action_specs = [];
}

abbrev joined : Exchange PluginRegisterAck
joined =
    register_full toy_ssl toy_zstd toy_serialize toy_parse (ok tt) client (lit "p") (lit "1")
      manifest [] (arrival (7 ∷ 7 ∷ []) ∷ [])

joined_lem : joined.outcome ≡ some (ok ack)
unfolding register_full ask send send_raw send_raw_with_flags pack_frame_raw tag_of wire_form
    is_candidate recv recv_frame envelope_of registered keyed_with derive_session_key hkdf_extract
    hkdf_expand hmac_sha256 register_request
joined_lem = refl

abbrev frame : Bytes
frame = bytes_of (send_raw toy_ssl toy_zstd joined.client (lit "k") (5 ∷ []))

frame_lem : send_raw toy_ssl toy_zstd joined.client (lit "k") (5 ∷ []) ≡ ok frame
unfolding register_full ask send send_raw send_raw_with_flags pack_frame_raw tag_of compute_tag
    wire_form is_candidate recv recv_frame envelope_of registered keyed_with derive_session_key
    hkdf_extract hkdf_expand hmac_sha256 register_request
frame_lem = refl

register_full-send_raw_example :
    (r : FrameResult) × (parse_frame_bytes toy_ssl toy_zstd (frame ++ (9 ∷ [])) (some key)
      ≡ ok (r, length frame))
    × (r.payload ≡ 5 ∷ [])
    × (r.has_mac ≡ true)
register_full-send_raw_example =
    register_full-send_raw toy_ssl toy_zstd toy_serialize toy_parse (ok tt) client (lit "p")
      (lit "1") manifest [] (arrival (7 ∷ 7 ∷ []) ∷ []) ack 1 2 [] [] key (lit "k") (5 ∷ []) frame
      (9 ∷ []) toy_ssl-IsOpenSsl toy_zstd-IsZstd refl refl key_lem joined_lem (omega arith, tt)
      frame_lem
