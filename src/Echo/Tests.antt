-- ===== src/Echo/Tests.antt =====
-- Runs of the echo plugin.
use vynkor_sdk_cpp.Base.{◌≡◌, refl, true, some, [], ◌∷◌, ◌++◌, text_eq}
use vynkor_sdk_cpp.Base.Text.{Text, lit}
use vynkor_sdk_cpp.Error.{ok, throws, timeout, what}
use vynkor_sdk_cpp.Protocol.{ActionRequest, action_request, status_ok, status_error}
use vynkor_sdk_cpp.Echo.{
  idle, answer, Turn, assign, joined, handle_action, handle_publish_test, publish_reply, first_half,
  second_half,
}
use vynkor_sdk_cpp.Echo.Stream.{feed, numbered, whole, echoed, feed-stream_echo}

abbrev turn : Turn
turn = record { published = throws timeout; first = ok tt; second = ok tt }

abbrev asks : Text → ActionRequest
asks action = record {
  action_id = lit "s";
  action = action;
  params_json = 5 ∷ [];
  timeout_ms = 0;
  streaming = true;
  caller_plugin_id = [];
}

chunks_in_order :
    joined (assign 0 (1 ∷ []) (assign 2 (3 ∷ []) (assign 1 (2 ∷ []) []))) ≡ 1 ∷ (2 ∷ (3 ∷ []))
unfolding joined assign
chunks_in_order = refl

publish_fails :
    (handle_action idle (asks (lit "publish_test")) (throws timeout)).reply
    ≡ ok (some (answer (lit "s") status_error [] (lit "operation timed out")))
unfolding handle_action handle_publish_test publish_reply text_eq lit what
publish_fails = refl

feed-stream_echo_example :
    (feed turn idle (
        action_request (asks (lit "stream_echo"))
        ∷ numbered (lit "s") 0 (1 ∷ (2 ∷ [])) ((3 ∷ []) ∷ []))
      ≡ (
        idle,
        answer (lit "s") status_ok [] [] ∷ echoed (lit "s") (whole (1 ∷ (2 ∷ [])) ((3 ∷ []) ∷ [])),
      ))
    × (first_half (whole (1 ∷ (2 ∷ [])) ((3 ∷ []) ∷ []))
          ++ second_half (whole (1 ∷ (2 ∷ [])) ((3 ∷ []) ∷ []))
        ≡ whole (1 ∷ (2 ∷ [])) ((3 ∷ []) ∷ []))
feed-stream_echo_example =
    feed-stream_echo turn idle (asks (lit "stream_echo")) (1 ∷ (2 ∷ [])) ((3 ∷ []) ∷ []) refl refl
      refl refl
