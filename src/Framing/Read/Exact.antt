-- ===== src/Framing/Read/Exact.antt =====
-- The two loops that collect a number of bytes: whatever the system calls answer, what they return
-- is the next bytes of the stream, and answers that make progress are enough.
use vynkor_sdk_cpp.Base.{
  ℕ, zero, suc, ◌+◌, ◌-◌, ◌≤◌, ◌≡◌, ◌⊎◌, inl, inr, refl, ap, sym, ◌∙◌, subst, arith, min, List, [],
  ◌∷◌, ◌++◌, length, take, drop, length-take, length-append, append_assoc, take-append-drop,
  length-drop, All,
}
use vynkor_sdk_cpp.Error.{Exception}
use vynkor_sdk_cpp.Mac.{Bytes}
use vynkor_sdk_cpp.Framing.Read.{
  ReadAnswer, interrupted, failed, up_to, Tick, Recv, got, raised, waiting, and_then, prepend,
  recv_exact, Round, stop, again, reads, round_of, recv_exact_deadline,
}

pub and_then-eq-got :
    {A B : Type 0} (m : Recv A) (next : A → Bytes → Recv B) (b : B) (left : Bytes)
    → and_then m next ≡ got b left
    → (a : A) × (mid : Bytes) × (m ≡ got a mid) × (next a mid ≡ got b left)
and_then-eq-got (got a mid) next b left h = (a, mid, refl, h)
and_then-eq-got (raised e) next b left h = cc h
and_then-eq-got waiting next b left h = cc h

-- The next `n` bytes of the stream.
abbrev pub IsNext : ℕ → Bytes → Bytes → Bytes → Type 0
IsNext n incoming x left = (x ++ left ≡ incoming) × (length x ≡ n)

-- A first chunk and the rest.
prepend-IsNext :
    (n m : ℕ) (b : ℕ) (bs x left : Bytes) (rest : Recv Bytes)
    → m ≤ n
    → prepend (b ∷ take m bs) rest ≡ got x left
    → ((more : Bytes)
        → rest ≡ got more left
        → IsNext (n - length (take m bs)) (drop m bs) more left)
    → IsNext (suc n) (b ∷ bs) x left
prepend-IsNext n m b bs x left rest fits h later =
    let (more, mid, e, f) = and_then-eq-got rest _ x left h in
    let (whole, sized) = later more (cc (e, f)) in
    let chunk = take m bs in
    let x_lem : x ≡ b ∷ (chunk ++ more) = cc f in
    (
      ap (λ t. t ++ left) x_lem
          ∙ ap (λ t. b ∷ t)
              (append_assoc chunk more left ∙ (ap (λ t. chunk ++ t) whole ∙ take-append-drop m bs)),
      omega (arith, ap length x_lem, length-append chunk more, sized, length-take m bs),
    )

nothing-IsNext :
    (incoming x left : Bytes)
    → ◌≡◌ {A = Recv Bytes} (got [] incoming) (got x left)
    → IsNext 0 incoming x left
nothing-IsNext incoming x left h =
    let e : [] ≡ x = cc h in
    let f : incoming ≡ left = cc h in (ap (λ t. t ++ left) (sym e) ∙ sym f, ap length (sym e))

pub recv_exact-IsNext :
    (script : List ReadAnswer) (n : ℕ) (incoming x left : Bytes)
    → recv_exact script n incoming ≡ got x left
    → IsNext n incoming x left
unfolding recv_exact
recv_exact-IsNext [] zero incoming x left h = nothing-IsNext incoming x left h
recv_exact-IsNext (a ∷ script) zero incoming x left h = nothing-IsNext incoming x left h
recv_exact-IsNext [] (suc n) incoming x left h = cc h
recv_exact-IsNext (interrupted ∷ script) (suc n) incoming x left h =
    recv_exact-IsNext script (suc n) incoming x left h
recv_exact-IsNext (failed ∷ script) (suc n) incoming x left h = cc h
recv_exact-IsNext (up_to k ∷ script) (suc n) [] x left h = cc h
recv_exact-IsNext (up_to k ∷ script) (suc n) (b ∷ bs) x left h =
    prepend-IsNext n (min k n) b bs x left _ (omega arith) h (λ more e.
      recv_exact-IsNext script (n - length (take (min k n) bs)) (drop (min k n) bs) more left e)

Round-cases :
    (r : Round) → ((e : Exception) × (r ≡ stop e)) ⊎ ((r ≡ again) ⊎ ((k : ℕ) × (r ≡ reads k)))
Round-cases (stop e) = inl (e, refl)
Round-cases again = inr (inl refl)
Round-cases (reads k) = inr (inr (k, refl))

pub recv_exact_deadline-IsNext :
    (deadline : ℕ) (script : List Tick) (n : ℕ) (incoming x left : Bytes)
    → recv_exact_deadline deadline script n incoming ≡ got x left
    → IsNext n incoming x left
unfolding recv_exact_deadline
recv_exact_deadline-IsNext deadline [] zero incoming x left h = nothing-IsNext incoming x left h
recv_exact_deadline-IsNext deadline (t ∷ script) zero incoming x left h =
    nothing-IsNext incoming x left h
recv_exact_deadline-IsNext deadline [] (suc n) incoming x left h = cc h
recv_exact_deadline-IsNext deadline (t ∷ script) (suc n) [] x left h =
    elim (Round-cases (round_of deadline t)) [
      | inl (e, f) ↦ cc (rw (f, recv_exact_deadline) at h)
      | inr (inl f) ↦
          recv_exact_deadline-IsNext deadline script (suc n) [] x left
            (rw (f, recv_exact_deadline) at h)
      | inr (inr (k, f)) ↦ cc (rw (f, recv_exact_deadline) at h)
    ]
recv_exact_deadline-IsNext deadline (t ∷ script) (suc n) (b ∷ bs) x left h =
    elim (Round-cases (round_of deadline t)) [
      | inl (e, f) ↦ cc (rw (f, recv_exact_deadline) at h)
      | inr (inl f) ↦
          recv_exact_deadline-IsNext deadline script (suc n) (b ∷ bs) x left
            (rw (f, recv_exact_deadline) at h)
      | inr (inr (k, f)) ↦
          prepend-IsNext n (min k n) b bs x left _ (omega arith) (rw (f, recv_exact_deadline) at h)
            (λ more e.
              recv_exact_deadline-IsNext deadline script (n - length (take (min k n) bs))
                (drop (min k n) bs) more left e)
    ]

-- Scripts in which no round stops, and how many of their rounds read.
abbrev pub NotStop : Round → Type 0
NotStop (stop e) = ⊥
NotStop again = Unit {0}
NotStop (reads k) = Unit {0}

abbrev pub IsTimely : ℕ → List Tick → Type 0
IsTimely deadline script = All (λ t. NotStop (round_of deadline t)) script

abbrev pub one_if_reads : Round → ℕ
one_if_reads (stop e) = 0
one_if_reads again = 0
one_if_reads (reads k) = 1

abbrev pub progress : ℕ → List Tick → ℕ
progress deadline [] = 0
progress deadline (t ∷ script) = one_if_reads (round_of deadline t) + progress deadline script

prepend_got :
    (chunk : Bytes) (rest : Recv Bytes)
    → ((x : Bytes) × (left : Bytes) × (rest ≡ got x left))
    → (x : Bytes) × (left : Bytes) × (prepend chunk rest ≡ got x left)
prepend_got chunk rest (x, left, e) = (chunk ++ x, left, rw e refl)

pub recv_exact_deadline-progress :
    (deadline : ℕ) (script : List Tick) (n : ℕ) (incoming : Bytes)
    → IsTimely deadline script
    → n ≤ progress deadline script
    → n ≤ length incoming
    → (x : Bytes) × (left : Bytes) × (recv_exact_deadline deadline script n incoming ≡ got x left)
unfolding recv_exact_deadline
recv_exact_deadline-progress deadline [] zero incoming timely enough there = ([], incoming, refl)
recv_exact_deadline-progress deadline (t ∷ script) zero incoming timely enough there =
    ([], incoming, refl)
recv_exact_deadline-progress deadline [] (suc n) incoming timely enough there = absurd (omega arith)
recv_exact_deadline-progress deadline (t ∷ script) (suc n) [] timely enough there =
    absurd (omega arith)
recv_exact_deadline-progress deadline (t ∷ script) (suc n) (b ∷ bs) (fine, timely) enough there =
    elim (Round-cases (round_of deadline t)) [
      | inl (e, f) ↦ absurd (subst NotStop f fine)
      | inr (inl f) ↦
          rw (f, recv_exact_deadline)
            (recv_exact_deadline-progress deadline script (suc n) (b ∷ bs) timely
              (omega (arith, ap one_if_reads f)) there)
      | inr (inr (k, f)) ↦
          rw (f, recv_exact_deadline)
            (prepend_got (b ∷ take (min k n) bs) _ (
              recv_exact_deadline-progress deadline script (n - length (take (min k n) bs))
                (drop (min k n) bs) timely (omega (arith, ap one_if_reads f))
                (omega (arith, length-take (min k n) bs, length-drop (min k n) bs))))
    ]

-- The same for `recv_exact`, for one byte.
abbrev pub Reads : List ReadAnswer → Type 0
Reads [] = ⊥
Reads (interrupted ∷ script) = Reads script
Reads (failed ∷ script) = ⊥
Reads (up_to k ∷ script) = Unit {0}

recv_exact_none :
    (script : List ReadAnswer) (incoming : Bytes) → recv_exact script 0 incoming ≡ got [] incoming
unfolding recv_exact
recv_exact_none [] incoming = refl
recv_exact_none (a ∷ script) incoming = refl

pub recv_exact_one :
    (script : List ReadAnswer) (b : ℕ) (incoming : Bytes)
    → Reads script
    → recv_exact script 1 (b ∷ incoming) ≡ got (b ∷ []) incoming
unfolding recv_exact
recv_exact_one [] b incoming h = absurd h
recv_exact_one (interrupted ∷ script) b incoming h = recv_exact_one script b incoming h
recv_exact_one (failed ∷ script) b incoming h = absurd h
recv_exact_one (up_to k ∷ script) b incoming h =
    ap {A = ℕ}
      (λ m.
        prepend (b ∷ take m incoming)
          (recv_exact script (0 - length (take m incoming)) (drop m incoming)))
      {x = min k 0} {y = 0} (omega arith)
    ∙ ap (prepend (b ∷ [])) (recv_exact_none script incoming)
