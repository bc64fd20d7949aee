-- ===== src/Client/Send/Chunks.antt =====
-- src/client.cpp, `send_fragmented`: the chunks of a payload, and how many there are.
use vynkor_sdk_cpp.Base.{
  ℕ, zero, suc, ◌+◌, ◌-◌, ◌*◌, ◌/◌, ◌%◌, ◌^◌, ◌≤◌, ◌<◌, ◌≡◌, ap, sym, ◌∙◌, subst, arith, false, [],
  ◌∷◌, ◌++◌, length, take, drop, min, ltb, leb, ◌==◌, ◌||◌, inl, inr, Bool-cases, take-append-drop,
  take_all, drop_all, length-drop, length-take, drop-drop, ltb_false→le,
}
use native.Mathlib.Nat.{lt-div-mul-add, suc-mul}
use vynkor_sdk_cpp.Error.{ok, throw_if-eq-ok}
use vynkor_sdk_cpp.Mac.{Bytes}
use vynkor_sdk_cpp.Framing.Header.{max_payload_size}
use vynkor_sdk_cpp.Framing.Fragment.{frag_header_size}
use vynkor_sdk_cpp.Client.State.{VynkorClient}
use vynkor_sdk_cpp.Client.Receive.Chunks.{joined, bytes_upto}
use vynkor_sdk_cpp.Client.Send.{chunk_at, fragment_count, fragment_total}

module _ (chunk_size : ℕ) (payload : Bytes) where
  abbrev chunk : ℕ → Bytes
  chunk = chunk_at chunk_size payload

  -- The last chunk may be shorter.
  take-min : (n : ℕ) (xs : Bytes) → take (min n (length xs)) xs ≡ take n xs
  take-min n xs = elim (Bool-cases (leb (length xs) n)) [
    | inl all ↦
        ap {A = ℕ} (λ k. take k xs) {x = min n (length xs)} {y = length xs} (ground (arith, all))
        ∙ (take_all (length xs) xs (omega arith) ∙ sym (take_all n xs (ground (arith, all))))
    | inr some_of ↦
        ap {A = ℕ} (λ k. take k xs) {x = min n (length xs)} {y = n} (ground (arith, some_of))
  ]

  chunk_at_lem : (seq : ℕ) → chunk seq ≡ take chunk_size (drop (seq * chunk_size) payload)
  unfolding chunk_at
  chunk_at_lem seq =
      ap {A = ℕ} (λ k. take (min chunk_size k) (drop (seq * chunk_size) payload))
        (sym (length-drop (seq * chunk_size) payload))
      ∙ take-min chunk_size (drop (seq * chunk_size) payload)

  next_start : (seq : ℕ) → seq * chunk_size + chunk_size ≡ (seq + 1) * chunk_size
  next_start seq =
      sym (suc-mul seq chunk_size)
      ∙ ap {A = ℕ} (λ k. k * chunk_size) {x = suc seq} {y = seq + 1} (omega arith)

  pub joined-chunks :
      (n seq : ℕ)
      → length payload ≤ (seq + n) * chunk_size
      → joined chunk n seq ≡ drop (seq * chunk_size) payload
  unfolding joined
  joined-chunks zero seq h = sym (
      drop_all (seq * chunk_size) payload (
        subst {A = ℕ} (λ k. length payload ≤ k * chunk_size) {x = seq + 0} {y = seq} (omega arith)
          h))
  joined-chunks (suc n) seq h =
      let later : joined chunk n (seq + 1) ≡ drop ((seq + 1) * chunk_size) payload =
        joined-chunks n (seq + 1) (
          subst {A = ℕ} (λ k. length payload ≤ k * chunk_size) {x = seq + suc n} {y = seq + 1 + n}
            (omega arith) h) in
      let split : drop ((seq + 1) * chunk_size) payload
          ≡ drop chunk_size (drop (seq * chunk_size) payload) =
        ap {A = ℕ} (λ k. drop k payload) (sym (next_start seq))
        ∙ sym (drop-drop (seq * chunk_size) chunk_size payload) in
      ap (λ t. t ++ joined chunk n (seq + 1)) (chunk_at_lem seq)
      ∙ (ap (λ t. take chunk_size (drop (seq * chunk_size) payload) ++ t) (later ∙ split)
          ∙ take-append-drop chunk_size (drop (seq * chunk_size) payload))

  pub bytes-chunks :
      (k : ℕ) → bytes_upto chunk k ≤ length payload - length (drop (k * chunk_size) payload)
  unfolding bytes_upto
  bytes-chunks zero = omega arith
  bytes-chunks (suc k) = omega (
    arith,
    bytes-chunks k,
    ap length (chunk_at_lem k),
    length-take chunk_size (drop (k * chunk_size) payload),
    length-drop (k * chunk_size) payload,
    length-drop (suc k * chunk_size) payload,
    suc-mul k chunk_size,
  )

some_quotient : (q size n : ℕ) → n + size - 1 < q * size + size → 1 ≤ n → 1 ≤ q
some_quotient zero size n h some_n = absurd (omega (arith, h, some_n))
some_quotient (suc q) size n h some_n = omega arith

fragment_count_lem :
    (payload : Bytes) (chunk_size : ℕ)
    → length payload ≤ max_payload_size
    → 0 < chunk_size
    → chunk_size ≤ max_payload_size
    → (0 < fragment_count payload chunk_size)
      × (length payload ≤ fragment_count payload chunk_size * chunk_size)
unfolding fragment_count
fragment_count_lem [] chunk_size fits some_size small = (omega arith, omega arith)
fragment_count_lem (b ∷ bs) chunk_size fits some_size small =
    let a = length (b ∷ bs) + chunk_size - 1 in
    let whole : a % 2 ^ 64 ≡ a = omega (arith, fits, small) in
    let bound : a < a / chunk_size * chunk_size + chunk_size = lt-div-mul-add some_size in
    rw whole (
      some_quotient (a / chunk_size) chunk_size (suc (length bs)) bound (omega arith),
      omega (arith, bound),
    )

-- The checks in front of the loop passed.
pub record Counted (c : VynkorClient) (payload : Bytes) (chunk_size total : ℕ) : Type 0 where
  pub on_uds : c.ws ≡ false
  pub fits : length payload ≤ max_payload_size
  pub sized :
      ((chunk_size == 0) || ltb max_payload_size ((chunk_size + frag_header_size) % 2 ^ 64)) ≡ false
  pub counted : fragment_count payload chunk_size ≡ total
  pub few : total ≤ 0xffff

pub fragment_total-Counted :
    (c : VynkorClient) (payload : Bytes) (chunk_size total : ℕ)
    → fragment_total c payload chunk_size ≡ ok total
    → Counted c payload chunk_size total
unfolding fragment_total
fragment_total-Counted c payload chunk_size total h =
    let (uds, h1) = throw_if-eq-ok c.ws _ _ h in
    let (fits, h2) = throw_if-eq-ok _ _ _ h1 in
    let (sized, h3) = throw_if-eq-ok _ _ _ h2 in
    let (few, h4) = throw_if-eq-ok _ _ (ok (fragment_count payload chunk_size)) h3 in
    record {
      on_uds = uds;
      fits = ltb_false→le _ _ fits;
      sized = sized;
      counted = cc h4;
      few =
          subst {A = ℕ} (λ k. k ≤ 0xffff) {x = fragment_count payload chunk_size} {y = total}
            (cc h4) (ltb_false→le _ _ few);
    }

pub Counted-enough :
    (c : VynkorClient) (payload : Bytes) (chunk_size total : ℕ)
    → chunk_size + frag_header_size < 2 ^ 64
    → Counted c payload chunk_size total
    → (0 < total) × (length payload ≤ total * chunk_size)
Counted-enough c payload chunk_size total no_wrap counted =
    let some_size : 0 < chunk_size = ground (arith, counted.sized) in
    let whole : (chunk_size + frag_header_size) % 2 ^ 64 ≡ chunk_size + frag_header_size =
      omega (arith, no_wrap) in
    let small : chunk_size ≤ max_payload_size = ground (arith, counted.sized, whole) in
    subst {A = ℕ} (λ n. (0 < n) × (length payload ≤ n * chunk_size)) counted.counted
      (fragment_count_lem payload chunk_size counted.fits some_size small)
