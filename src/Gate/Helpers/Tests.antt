-- ===== src/Gate/Helpers/Tests.antt =====
-- A confirmation, from the request of one plugin to the executor.
use vynkor_sdk_cpp.Base.{◌≡◌, refl, arith, Option, some, List, [], ◌∷◌, ◌++◌, text_eq}
use vynkor_sdk_cpp.Base.Text.{Text, lit, starts_with}
use vynkor_sdk_cpp.Error.{Result, ok, throws}
use vynkor_sdk_cpp.Mac.{Bytes}
use vynkor_sdk_cpp.Mac.Tests.{toy_ssl}
use vynkor_sdk_cpp.Framing.Tests.{toy_zstd}
use vynkor_sdk_cpp.Framing.Pack.{pack_frame_raw, wire_form, is_candidate, tag_of}
use vynkor_sdk_cpp.Protocol.{Envelope, action_response}
use vynkor_sdk_cpp.Response.{response_envelope}
use vynkor_sdk_cpp.Gate.Callers.{may_confirm, any_allows, entry_allows}
use vynkor_sdk_cpp.Gate.Pending.{Clocks, find, sweep_expired, store_request, pending_id}
use vynkor_sdk_cpp.Gate.Route.{route, route_request}
use vynkor_sdk_cpp.Gate.Tests.{gate, clocks, empty, executor}
use vynkor_sdk_cpp.Gate.Helpers.{confirm_params, send_confirmation_request, send_confirmation}
use vynkor_sdk_cpp.Gate.Helpers.RoundTrip.{delivered, gate_reply, send_confirmation-route}
use vynkor_sdk_cpp.Client.State.{VynkorClient, adopt_fd}
use vynkor_sdk_cpp.Client.Reassembly.{whole_frame}
use vynkor_sdk_cpp.Client.Requests.{ends_action}
use vynkor_sdk_cpp.Client.Send.{send, send_raw, send_raw_with_flags}
use vynkor_sdk_cpp.Client.Receive.{Arrival, recv_frame}
use vynkor_sdk_cpp.Client.Replies.{action_of}
use vynkor_sdk_cpp.Client.Session.Loop.{Awaited, now}

abbrev id : Text
id = pending_id 7 0

abbrev reply : Envelope
reply = action_response (gate_reply gate (lit "a") id (lit "request_" ++ lit "wipe"))

abbrev toy_parse : Bytes → Option Envelope
toy_parse payload = some reply

abbrev toy_serialize : Envelope → Bytes
toy_serialize env = 4 ∷ []

abbrev client : VynkorClient
client = adopt_fd 3 []

abbrev arrivals : List Arrival
arrivals = record { now = 0; seen = 0; read = ok (whole_frame 0 []) } ∷ []

abbrev bytes_of : Result Bytes → Bytes
bytes_of (ok bytes) = bytes
bytes_of (throws e) = []

abbrev request : Bytes
request = bytes_of (
    send toy_ssl toy_zstd toy_serialize client (lit "kernel")
      (action_of (lit "a") (lit "request_" ++ lit "wipe") (1 ∷ []) 0))

abbrev later_clocks : Clocks
later_clocks = record { steady = 8; created = 9; millis = 7 }

routed :
    (route gate clocks empty
      (delivered (lit "ai") (lit "a") (lit "request_" ++ lit "wipe") (1 ∷ []))
      executor).reply
    ≡ ok (reply ∷ [])
unfolding route route_request store_request response_envelope lit starts_with text_eq
routed = refl

awaited : Awaited toy_parse (ends_action (lit "a")) [] arrivals reply
unfolding recv_frame ends_action text_eq lit
awaited = now [] [] arrivals [] (whole_frame 0 []) reply refl refl refl

send_confirmation-route_example :
    ((send_confirmation_request toy_ssl toy_zstd toy_serialize toy_parse
        (ok tt)
        client
        (lit "a")
        (lit "wipe")
        (1 ∷ [])
        arrivals).outcome
      ≡ some (ok id))
    × ((send_confirmation toy_ssl toy_zstd toy_serialize toy_parse
          (ok tt)
          client
          (lit "b")
          (lit "wipe")
          id
          []).sent
        ≡ request ∷ [])
    × ((route gate later_clocks
          (route gate clocks empty
            (delivered (lit "ai") (lit "a") (lit "request_" ++ lit "wipe") (1 ∷ []))
            executor).state
          (delivered (lit "phone.geo") (lit "b") (lit "confirm_" ++ lit "wipe") (confirm_params id))
          executor).executed
        ≡ some (1 ∷ []))
unfolding send send_raw send_raw_with_flags pack_frame_raw tag_of wire_form is_candidate action_of
    may_confirm any_allows entry_allows lit text_eq starts_with find sweep_expired
send_confirmation-route_example =
    send_confirmation-route toy_ssl toy_zstd toy_serialize toy_parse gate clocks later_clocks empty
      executor (ok tt) (ok tt) client client (lit "ai") (lit "phone.geo") (lit "a") (lit "b")
      (1 ∷ []) arrivals [] request request reply refl refl routed awaited refl refl (omega arith)
      (omega arith) (omega arith)
