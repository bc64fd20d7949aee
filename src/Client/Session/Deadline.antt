-- ===== src/Client/Session/Deadline.antt =====
-- src/client.cpp: the calls that stand on `wait_for_response` do not outlast their deadline.
use vynkor_sdk_cpp.Base.{ℕ, ◌≤◌, ◌≡◌, ◌⊎◌, List, [], ◌∷◌}
use vynkor_sdk_cpp.Error.{Exception, throws}
use vynkor_sdk_cpp.Base.Text.{Text}
use vynkor_sdk_cpp.Framing.Zstd.{Zstd}
use vynkor_sdk_cpp.Protocol.{Envelope}
use vynkor_sdk_cpp.Client.Receive.{Arrival}
use vynkor_sdk_cpp.Client.Session.{Waited, responded, wait_throws}

-- One of the reads throws.
abbrev Breaks : List Arrival → Type 0
Breaks [] = ⊥
Breaks (a ∷ arrivals) = ((e : Exception) × (a.read ≡ throws e)) ⊎ Breaks arrivals

-- The clock is at the deadline or past it at one of the reads.
abbrev pub IsReached : ℕ → List (ℕ × Arrival) → Type 0
IsReached deadline [] = ⊥
IsReached deadline ((clock, a) ∷ more) = (deadline ≤ clock) ⊎ IsReached deadline more

-- The wait is over: with an envelope or with an exception.
abbrev IsOver : Waited → Type 0
IsOver w =
    ((env : Envelope) × (later : List Arrival) × (w ≡ responded env later))
    ⊎ ((e : Exception) × (later : List Arrival) × (w ≡ wait_throws e later))
