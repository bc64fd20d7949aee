-- ===== src/Framing/Read/Tests.antt =====
-- Runs of the frame readers: a keyed frame in three reads, with an interruption.
use vynkor_sdk_cpp.Base.{
  ℕ, ◌≡◌, ◌≢◌, inl, inr, refl, arith, some, [], ◌∷◌, ◌++◌, length, List, zero, suc,
}
use vynkor_sdk_cpp.Error.{frame_read_timeout}
use vynkor_sdk_cpp.Mac.Tests.{toy_ssl}
use vynkor_sdk_cpp.Framing.Tests.{toy_zstd, raw_frame, raw_result, raw_result_whole}
use vynkor_sdk_cpp.Framing.Read.{
  interrupted, up_to, poll_interrupted, expired, ready, Tick, Script, got, raised, waiting,
  round_of, recv_exact, recv_exact_deadline, read_frame_full_with_timeout,
  read_frame_full_with_deadline,
}
use vynkor_sdk_cpp.Framing.Read.Exact.{IsTimely, progress}
use vynkor_sdk_cpp.Framing.Read.Frames.{
  IsFront, IsPrompt, read_frame_full_with_timeout-IsFront, read_frame_full_with_timeout_progress,
}
use vynkor_sdk_cpp.Framing.Read.Timeouts.{read_frame_full_with_deadline-Ends}

abbrev tick : ℕ → Tick
tick k = record { now = 5; poll = ready; read = up_to k }

abbrev ticks : ℕ → List Tick
ticks zero = []
ticks (suc n) = tick n ∷ ticks n

abbrev script : Script
script = record {
  first = interrupted ∷ up_to 0 ∷ [];
  begun = 4;
  header = record { now = 5; poll = poll_interrupted; read = interrupted } ∷ ticks 43;
  body = ticks 34;
}

ticks-IsTimely : (n : ℕ) → IsTimely 10000000004 (ticks n)
unfolding round_of
ticks-IsTimely zero = tt
ticks-IsTimely (suc n) = (tt, ticks-IsTimely n)

progress-ticks : (n : ℕ) → progress 10000000004 (ticks n) ≡ n
unfolding round_of
progress-ticks zero = refl
progress-ticks (suc n) = omega (arith, progress-ticks n)

script-IsPrompt : IsPrompt toy_ssl toy_zstd (some (1 ∷ [])) 10000 (length raw_frame) script
unfolding round_of
script-IsPrompt = (
  tt,
  (
    ((tt, ticks-IsTimely 43), omega (arith, progress-ticks 43)),
    (ticks-IsTimely 34, omega (arith, progress-ticks 34, raw_result_whole.0)),
  ),
)

read_frame_full_with_timeout_progress_example :
    read_frame_full_with_timeout toy_ssl toy_zstd
      (some (1 ∷ []))
      10000
      script
      (raw_frame ++ (9 ∷ []))
    ≡ got raw_result (9 ∷ [])
read_frame_full_with_timeout_progress_example =
    read_frame_full_with_timeout_progress toy_ssl toy_zstd (some (1 ∷ [])) 10000 script raw_frame
      (9 ∷ []) raw_result raw_result_whole.1 script-IsPrompt

received :
    read_frame_full_with_timeout toy_ssl toy_zstd
      (some (1 ∷ []))
      10000
      script
      (raw_frame ++ (9 ∷ []))
    ≡ got raw_result (9 ∷ [])
received =
    read_frame_full_with_timeout_progress toy_ssl toy_zstd (some (1 ∷ [])) 10000 script raw_frame
      (9 ∷ []) raw_result raw_result_whole.1 script-IsPrompt

read_frame_full_with_timeout-IsFront_example :
    IsFront toy_ssl toy_zstd (some (1 ∷ [])) (raw_frame ++ (9 ∷ [])) raw_result (9 ∷ [])
read_frame_full_with_timeout-IsFront_example =
    read_frame_full_with_timeout-IsFront toy_ssl toy_zstd (some (1 ∷ [])) 10000 script
      (raw_frame ++ (9 ∷ [])) raw_result (9 ∷ []) received

-- The header stalls after its first two bytes.
abbrev stalling : Script
stalling = record {
  first = up_to 0 ∷ [];
  begun = 4;
  header =
      tick 0
      ∷ record { now = 6; poll = poll_interrupted; read = interrupted }
      ∷ record { now = 1000004; poll = ready; read = up_to 0 }
      ∷ [];
  body = record { now = 1000004; poll = expired; read = interrupted } ∷ [];
}

stalls :
    read_frame_full_with_deadline toy_ssl toy_zstd
      (some (1 ∷ []))
      9
      ((6, poll_interrupted) ∷ (6, ready) ∷ [])
      8
      stalling
      (1 ∷ 2 ∷ 3 ∷ [])
    ≡ raised frame_read_timeout
unfolding read_frame_full_with_deadline recv_exact recv_exact_deadline round_of
stalls = refl

read_frame_full_with_deadline-Ends_example :
    read_frame_full_with_deadline toy_ssl toy_zstd
      (some (1 ∷ []))
      9
      ((6, poll_interrupted) ∷ (6, ready) ∷ [])
      8
      stalling
      (1 ∷ 2 ∷ 3 ∷ [])
    ≢ waiting
unfolding recv_exact
read_frame_full_with_deadline-Ends_example =
    read_frame_full_with_deadline-Ends toy_ssl toy_zstd (some (1 ∷ [])) 9 8
      ((6, poll_interrupted) ∷ (6, ready) ∷ []) stalling (1 ∷ 2 ∷ 3 ∷ [])
      (inr (inr (inr (inl (λ e. cc e))))) (λ e. cc e) (inr (inr (inl (omega arith))))
      (inl (omega arith))
