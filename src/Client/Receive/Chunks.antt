-- ===== src/Client/Receive/Chunks.antt =====
-- src/client.cpp, `absorb_fragment`: a buffer that holds the fragments below a sequence number.
use vynkor_sdk_cpp.Base.{
  ℕ, zero, suc, ◌+◌, ◌≤◌, ◌<◌, ◌≡◌, refl, ap, ◌∙◌, subst, arith, false, none, some, [], ◌++◌,
  length, ◌==◌, inl, inr, Bool-cases,
}
use vynkor_sdk_cpp.Error.{ok}
use vynkor_sdk_cpp.Mac.{Bytes}
use vynkor_sdk_cpp.Client.Reassembly.{Fragments, find, assign, gather}
use vynkor_sdk_cpp.Client.Reassembly.Maps.{find-assign, find-assign_other, length-assign_fresh}

module _ (chunk : ℕ → Bytes) where
  -- The fragments below a sequence number.
  unfoldable pub upto : ℕ → Fragments
  upto zero = []
  upto (suc k) = assign k (chunk k) (upto k)

  unfoldable pub joined : ℕ → ℕ → Bytes
  joined zero seq = []
  joined (suc n) seq = chunk seq ++ joined n (seq + 1)

  unfoldable pub bytes_upto : ℕ → ℕ
  bytes_upto zero = 0
  bytes_upto (suc k) = bytes_upto k + length (chunk k)

  pub find-upto-none : (k j : ℕ) → k ≤ j → find j (upto k) ≡ none
  unfolding upto find
  find-upto-none zero j h = refl
  find-upto-none (suc k) j h =
      let other : (k == j) ≡ false = ground (arith, h) in
      find-assign_other k j (chunk k) (upto k) other ∙ find-upto-none k j (omega (arith, h))

  find-upto : (k j : ℕ) → j < k → find j (upto k) ≡ some (chunk j)
  unfolding upto
  find-upto zero j h = absurd (omega (arith, h))
  find-upto (suc k) j h = elim (Bool-cases (k == j)) [
    | inl e ↦
        let same : k ≡ j = ground (arith, e) in
        subst (λ i. find i (assign k (chunk k) (upto k)) ≡ some (chunk i)) same
          (find-assign k (chunk k) (upto k))
    | inr e ↦ find-assign_other k j (chunk k) (upto k) e ∙ find-upto k j (ground (arith, h, e))
  ]

  pub length-upto : (k : ℕ) → length (upto k) ≡ k
  unfolding upto
  length-upto zero = refl
  length-upto (suc k) =
      length-assign_fresh k (chunk k) (upto k) (find-upto-none k k (omega arith))
      ∙ ap suc (length-upto k)

  pub gather-upto : (k n seq : ℕ) → seq + n ≤ k → gather (upto k) n seq ≡ ok (joined n seq)
  unfolding gather joined
  gather-upto k zero seq h = refl
  gather-upto k (suc n) seq h =
      rw
        (
          find-upto k seq (omega (arith, h)),
          gather-upto k n (seq + 1) (omega (arith, h)),
          gather,
          joined,
        )
        refl
