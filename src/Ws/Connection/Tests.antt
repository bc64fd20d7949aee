-- ===== src/Ws/Connection/Tests.antt =====
-- Runs of `connect` and `close`.
use vynkor_sdk_cpp.Base.{ℕ, ◌≡◌, refl, false, none, some, [], ◌∷◌}
use vynkor_sdk_cpp.Base.Text.{Text, lit}
use vynkor_sdk_cpp.Ws.Stream.{all_written}
use vynkor_sdk_cpp.Ws.Handshake.Tests.{toy_digests, url, fills}
use vynkor_sdk_cpp.Ws.Codec.{op_close}
use vynkor_sdk_cpp.Ws.Connection.{
  fresh, socket_opened, socket_closed, no_socket, refused, accepted, shaken, connect,
  connect_throws, connect_failed, try_addresses, teardown, write_frame, close,
}
use vynkor_sdk_cpp.Ws.Connection.Released.{run, nothing, holding, IsReleased, connect-close}

abbrev strerror : ℕ → Text
strerror errno = lit "refused"

connect_refused :
    connect toy_digests strerror url []
      (some (no_socket 97 ∷ (refused 4 111 ∷ [])))
      shaken
      none
      all_written
      []
    ≡ (socket_opened 4 ∷ (socket_closed 4 ∷ []), connect_throws (connect_failed strerror url 111))
unfolding connect try_addresses teardown
connect_refused = refl

connect-close_example :
    (run
        (connect toy_digests strerror url []
          (some (refused 4 111 ∷ (accepted 5 ∷ [])))
          shaken
          (some [])
          all_written
          fills).0
        nothing
      ≡ some (
          holding
            (connect toy_digests strerror url []
              (some (refused 4 111 ∷ (accepted 5 ∷ [])))
              shaken
              (some [])
              all_written
              fills).1))
    × IsReleased
        (record fresh { fd = some 5 })
        (write_frame false none [] op_close []).1
        (close (record fresh { fd = some 5 }) none []).1
connect-close_example =
    connect-close toy_digests strerror url [] (some (refused 4 111 ∷ (accepted 5 ∷ []))) shaken
      (some []) all_written fills (record fresh { fd = some 5 }) none []
