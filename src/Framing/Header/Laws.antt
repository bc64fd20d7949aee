-- ===== src/Framing/Header/Laws.antt =====
-- The header as five fields one after the other, and what is read back from it.
use vynkor_sdk_cpp.Base.{
  ℕ, ◌+◌, ◌-◌, ◌<◌, ◌≡◌, refl, ap, ◌∙◌, arith, [], ◌∷◌, ◌++◌, length, take, drop, replicate, min,
  append_assoc, length-append, length-take, length-replicate, take_append, drop_append, get_or, suc,
  zero, append-nil, lt→ltb,
}
use vynkor_sdk_cpp.Base.Text.{Text}
use vynkor_sdk_cpp.Mac.{Bytes}
use vynkor_sdk_cpp.Framing.Crc.{vynkor_crc32}
use vynkor_sdk_cpp.Framing.Header.{
  be16, be32, read_be16, read_be32, build_header, target_to_bytes, frame_magic,
}

pub drop-replicate : (n k : ℕ) → drop n (replicate k 0) ≡ replicate {A = ℕ} (k - n) 0
drop-replicate zero k = ap {A = ℕ} (λ m. replicate m 0) {x = k} (omega arith)
drop-replicate (suc n) zero = ap {A = ℕ} (λ m. replicate m 0) {x = 0} (omega arith)
drop-replicate (suc n) (suc k) =
    drop-replicate n k ∙ ap {A = ℕ} (λ m. replicate m 0) {x = k - n} (omega arith)

-- The fields in wire order.
abbrev pub fields : ℕ → Bytes → Bytes → Bytes
fields flags target payload =
    be16 frame_magic
    ++ (be16 flags ++ (be32 (length payload) ++ (target ++ be32 (vynkor_crc32 payload))))

pub tail_lem :
    (target z c : Bytes)
    → length target ≡ 32
    → length z ≡ 4
    → take 32 (target ++ z) ++ (c ++ drop 36 (target ++ z)) ≡ target ++ c
tail_lem target z c h k = rw (take_append 32 target z h) (
    ap (λ t. target ++ (c ++ t))
      (drop_append-nil 36 (target ++ z) (omega (arith, length-append target z)))
    ∙ ap (◌++◌ target) (append-nil c))
  where
    drop_append-nil : (n : ℕ) (xs : Bytes) → length xs ≡ n → drop n xs ≡ []
    drop_append-nil n xs e = rw (append-nil) at (drop_append n xs [] e)

pub build_header_lem :
    (flags : ℕ) (target payload : Bytes)
    → length target ≡ 32
    → build_header flags target payload ≡ fields flags target payload
unfolding build_header
build_header_lem flags target payload h = rw h (
    ap (λ t. be16 frame_magic ++ (be16 flags ++ (be32 (length payload) ++ t)))
      (tail_lem target (replicate 4 0) (be32 (vynkor_crc32 payload)) h refl))

pub take-min : (k : ℕ) (xs : Bytes) → take (min (length xs) k) xs ≡ take k xs
take-min zero [] = ap {A = ℕ} (λ n. take n []) {x = min 0 0} {y = 0} (omega arith)
take-min (suc k) [] = ap {A = ℕ} (λ n. take n []) {x = min 0 (suc k)} {y = 0} (omega arith)
take-min zero (x ∷ xs) =
    ap {A = ℕ} (λ n. take n (x ∷ xs)) {x = min (suc (length xs)) 0} {y = 0} (omega arith)
take-min (suc k) (x ∷ xs) =
    ap {A = ℕ} (λ n. take n (x ∷ xs)) {x = min (suc (length xs)) (suc k)}
      {y = suc (min (length xs) k)} (omega arith)
    ∙ ap (◌∷◌ x) (take-min k xs)

pub target_to_bytes_lem :
    (target : Text)
    → target_to_bytes target ≡ take 32 target ++ replicate (32 - min (length target) 32) 0
unfolding target_to_bytes
target_to_bytes_lem [] = refl
target_to_bytes_lem (c ∷ target) =
    let copied = take-min 32 (c ∷ target) in
    rw (lt→ltb 0 (min (length (c ∷ target)) 32) (omega arith), copied)
      (ap (λ t. take 32 (c ∷ target) ++ t)
        (drop-replicate (0 + length (take 32 (c ∷ target))) 32
          ∙ ap {A = ℕ} (λ n. replicate n 0) {x = 32 - (0 + length (take 32 (c ∷ target)))}
              (omega (arith, length-take 32 (c ∷ target)))))

pub length-target_to_bytes : (target : Text) → length (target_to_bytes target) ≡ 32
length-target_to_bytes target =
    rw (target_to_bytes_lem target, length-append, length-take, length-replicate) (omega arith)

get_or-append :
    (n k : ℕ) (xs ys : Bytes) → length xs ≡ n → get_or (xs ++ ys) (n + k) 0 ≡ get_or ys k 0
get_or-append zero k [] ys h = ap {A = ℕ} (λ i. get_or ys i 0) {x = 0 + k} (omega arith)
get_or-append zero k (x ∷ xs) ys h = absurd (omega arith)
get_or-append (suc n) k [] ys h = absurd (omega arith)
get_or-append (suc n) k (x ∷ xs) ys h =
    ap {A = ℕ} (λ i. get_or (x ∷ (xs ++ ys)) i 0) {x = suc n + k} {y = suc (n + k)} (omega arith)
    ∙ get_or-append n k xs ys (omega arith)

pub length-fields :
    (flags : ℕ) (target payload : Bytes)
    → length target ≡ 32
    → length (fields flags target payload) ≡ 44
length-fields flags target payload h =
    omega (arith, length-append target (be32 (vynkor_crc32 payload)))

-- What a reader finds at the fixed offsets of a header that these fields make up.
module _ (flags : ℕ) (target payload rest : Bytes) (h : length target ≡ 32) where
  pub read_flags : flags < 0x10000 → read_be16 (fields flags target payload ++ rest) 2 ≡ flags
  read_flags f = omega arith

  pub read_length :
      length payload < 0x100000000
      → read_be32 (fields flags target payload ++ rest) 4 ≡ length payload
  read_length l = omega arith

  pub read_crc :
      vynkor_crc32 payload < 0x100000000
      → read_be32 (fields flags target payload ++ rest) 40 ≡ vynkor_crc32 payload
  read_crc c =
      let crc = be32 (vynkor_crc32 payload) in
      omega (
        arith,
        ap (λ t. get_or t 32 0) (append_assoc target crc rest),
        ap (λ t. get_or t 33 0) (append_assoc target crc rest),
        ap (λ t. get_or t 34 0) (append_assoc target crc rest),
        ap (λ t. get_or t 35 0) (append_assoc target crc rest),
        get_or-append 32 0 target (crc ++ rest) h,
        get_or-append 32 1 target (crc ++ rest) h,
        get_or-append 32 2 target (crc ++ rest) h,
        get_or-append 32 3 target (crc ++ rest) h,
      )

  pub read_target : take 32 (drop 8 (fields flags target payload ++ rest)) ≡ target
  read_target =
      ap (take 32) (append_assoc target (be32 (vynkor_crc32 payload)) rest)
      ∙ take_append 32 target (be32 (vynkor_crc32 payload) ++ rest) h

  pub read_header : take 44 (fields flags target payload ++ rest) ≡ fields flags target payload
  read_header =
      take_append 44 (fields flags target payload) rest (length-fields flags target payload h)

  pub read_rest : drop 44 (fields flags target payload ++ rest) ≡ rest
  read_rest =
      drop_append 44 (fields flags target payload) rest (length-fields flags target payload h)
