-- ===== src/Client/Write.antt =====
-- src/client.cpp, `write_all`, over a script of what the calls of `write` answer.
use vynkor_sdk_cpp.Base.{
  ℕ, ◌≡◌, ◌↔◌, refl, ap, ◌∙◌, List, [], ◌∷◌, ◌++◌, append_assoc, take, drop, take-append-drop,
}
use vynkor_sdk_cpp.Mac.{Bytes}

-- One answer: EINTR, a failure or an end of file, or the number of bytes taken, less one.
pub data Answer : Type 0 where
  interrupted refused : Answer
  took : ℕ → Answer

pub data Status : Type 0 where
  done waiting failed : Status

-- What the peer received, and whether the loop returned, still waits for an answer, or threw.
unfoldable pub write_all : List Answer → Bytes → Bytes × Status
write_all script [] = ([], done)
write_all [] (b ∷ bs) = ([], waiting)
write_all (interrupted ∷ script) (b ∷ bs) = write_all script (b ∷ bs)
write_all (refused ∷ script) (b ∷ bs) = ([], failed)
write_all (took n ∷ script) (b ∷ bs) =
    let (sent, status) = write_all script (drop n bs) in (b ∷ (take n bs ++ sent), status)

-- However the system splits or interrupts the writes, what the peer has received is a prefix of the
-- frame, and the loop returns exactly when nothing of the frame is left.
pub write_all_prefix :
    (script : List Answer) (frame : Bytes)
    → (rest : Bytes) × ((write_all script frame).0 ++ rest ≡ frame)
      × (((write_all script frame).1 ≡ done) ↔ (rest ≡ []))
unfolding write_all
write_all_prefix [] [] = ([], refl, (λ h. refl, λ h. refl))
write_all_prefix (a ∷ script) [] = ([], refl, (λ h. refl, λ h. refl))
write_all_prefix [] (b ∷ bs) = (b ∷ bs, refl, (λ h. cc h, λ h. cc h))
write_all_prefix (interrupted ∷ script) (b ∷ bs) = write_all_prefix script (b ∷ bs)
write_all_prefix (refused ∷ script) (b ∷ bs) = (b ∷ bs, refl, (λ h. cc h, λ h. cc h))
write_all_prefix (took n ∷ script) (b ∷ bs) =
    let (rest, whole, over) = write_all_prefix script (drop n bs) in
    (
      rest,
      ap (λ s. b ∷ s)
          (append_assoc (take n bs) (write_all script (drop n bs)).0 rest
            ∙ (ap (λ s. take n bs ++ s) whole ∙ take-append-drop n bs)),
      over,
    )
