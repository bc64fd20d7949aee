-- ===== src/Ws/Handshake/Head.antt =====
-- src/ws.cpp, `WsConnection::connect`: the head of the response is the stream up to the first empty line.
use vynkor_sdk_cpp.Base.{
  ℕ, suc, ◌+◌, ◌≤◌, ◌≡◌, refl, ap, sym, subst, ◌∙◌, arith, true, false, ◌&&◌, none, some, List, [],
  ◌∷◌, ◌++◌, append_assoc, append-nil, length, take, drop, take_append_within, drop_append_within,
  ltb, leb, leb→le, ◌==◌, inl, inr, Bool-cases, Option-cases,
}
use vynkor_sdk_cpp.Base.Text.{Text, starts_with}
use vynkor_sdk_cpp.Mac.{Bytes}
use vynkor_sdk_cpp.Ws.Stream.{Fill, filled, fill_throws, fill_waits}
use vynkor_sdk_cpp.Ws.Handshake.{
  find_head_end, Headed, headed, head_throws, head_waits, try_head, read_head, max_head,
}

-- The bytes of the fills in front of the first that fails or waits.
unfoldable pub gathered : List Fill → Bytes
gathered [] = []
gathered (filled b bs ∷ fills) = (b ∷ bs) ++ gathered fills
gathered (fill_throws e ∷ fills) = []
gathered (fill_waits ∷ fills) = []

abbrev pub marker : Bytes
marker = 13 ∷ 10 ∷ 13 ∷ 10 ∷ []

too_long : (p : Text) → length p + 1 ≤ 0 → ⊥
too_long p h = omega (arith, h)

starts_with-longer :
    (s p more : Text) → length p ≤ length s → starts_with (s ++ more) p ≡ starts_with s p
unfolding starts_with
starts_with-longer s [] more h = refl
starts_with-longer [] (c ∷ p) more h = elim (too_long p (omega (arith, h))) [ ]
starts_with-longer (b ∷ s) (c ∷ p) more h =
    ap (λ rest. (b == c) && rest) (starts_with-longer s p more (omega (arith, h)))

starts_with-more : (s p more : Text) → starts_with s p ≡ true → starts_with (s ++ more) p ≡ true
unfolding starts_with
starts_with-more s [] more h = refl
starts_with-more [] (c ∷ p) more h = cc h
starts_with-more (b ∷ s) (c ∷ p) more h = ground (arith, h, starts_with-more s p more)

starts_with-le : (s p : Text) → starts_with s p ≡ true → length p ≤ length s
unfolding starts_with
starts_with-le s [] h = omega arith
starts_with-le [] (c ∷ p) h = cc h
starts_with-le (b ∷ s) (c ∷ p) h =
    let rest : starts_with s p ≡ true = ground (arith, h) in omega (arith, starts_with-le s p rest)

starts_with-drop : (s p : Text) → starts_with s p ≡ true → s ≡ p ++ drop (length p) s
unfolding starts_with
starts_with-drop s [] h = refl
starts_with-drop [] (c ∷ p) h = cc h
starts_with-drop (b ∷ s) (c ∷ p) h =
    let rest : starts_with s p ≡ true = ground (arith, h) in
    let same : b ≡ c = ground (arith, h) in rw same (ap (λ t. c ∷ t) (starts_with-drop s p rest))

-- How a search goes on behind the first byte.
find_head_end-later :
    (b : ℕ) (buf : Bytes) (i : ℕ)
    → starts_with (b ∷ buf) marker ≡ false
    → find_head_end (b ∷ buf) ≡ some i
    → (j : ℕ) × (find_head_end buf ≡ some j) × (i ≡ suc j)
unfolding find_head_end
find_head_end-later b buf i later h = elim (Option-cases (find_head_end buf)) [
  | inl missing ↦ cc (rw (later, missing, find_head_end) at h)
  | inr (j, there) ↦ (j, there, sym (cc (rw (later, there, find_head_end) at h)))
]

find_head_end-here :
    (b : ℕ) (buf : Bytes) → starts_with (b ∷ buf) marker ≡ true → find_head_end (b ∷ buf) ≡ some 0
unfolding find_head_end
find_head_end-here b buf here = rw (here, find_head_end) refl

find_head_end-step :
    (b : ℕ) (buf : Bytes) (j : ℕ)
    → starts_with (b ∷ buf) marker ≡ false
    → find_head_end buf ≡ some j
    → find_head_end (b ∷ buf) ≡ some (suc j)
unfolding find_head_end
find_head_end-step b buf j later there = rw (later, there, find_head_end) refl

find_head_end-le : (buf : Bytes) (i : ℕ) → find_head_end buf ≡ some i → i + 4 ≤ length buf
unfolding find_head_end
find_head_end-le [] i h = cc h
find_head_end-le (b ∷ buf) i h = elim (Bool-cases (starts_with (b ∷ buf) marker)) [
  | inl here ↦
      let first : 0 ≡ i = cc (sym (find_head_end-here b buf here) ∙ h) in
      omega (arith, first, starts_with-le (b ∷ buf) marker here)
  | inr later ↦
      let (j, there, next) = find_head_end-later b buf i later h in
      omega (arith, next, find_head_end-le buf j there)
]

-- A head that is found stays where it is when more bytes arrive.
find_head_end-append :
    (buf more : Bytes) (i : ℕ) → find_head_end buf ≡ some i → find_head_end (buf ++ more) ≡ some i
unfolding find_head_end
find_head_end-append [] more i h = cc h
find_head_end-append (b ∷ buf) more i h = elim (Bool-cases (starts_with (b ∷ buf) marker)) [
  | inl here ↦
      find_head_end-here b (buf ++ more) (starts_with-more (b ∷ buf) marker more here)
      ∙ (sym (find_head_end-here b buf here) ∙ h)
  | inr later ↦
      let (j, there, next) = find_head_end-later b buf i later h in
      let long = find_head_end-le buf j there in
      find_head_end-step b (buf ++ more) j
        (starts_with-longer (b ∷ buf) marker more (omega (arith, long)) ∙ later)
        (find_head_end-append buf more j there)
      ∙ ap some (sym next)
]

-- And it is found as soon as it is whole.
find_head_end-prefix :
    (buf more : Bytes) (i : ℕ)
    → i + 4 ≤ length buf
    → find_head_end (buf ++ more) ≡ some i
    → find_head_end buf ≡ some i
find_head_end-prefix [] more i long h =
    elim (too_long (13 ∷ 10 ∷ 13 ∷ []) (omega (arith, long))) [ ]
find_head_end-prefix (b ∷ buf) more i long h = elim (Bool-cases (starts_with (b ∷ buf) marker)) [
  | inl here ↦
      let first : 0 ≡ i = cc (
        sym (find_head_end-here b (buf ++ more) (starts_with-more (b ∷ buf) marker more here))
        ∙ h) in
      find_head_end-here b buf here ∙ ap some first
  | inr later ↦
      let not_here = starts_with-longer (b ∷ buf) marker more (omega (arith, long)) ∙ later in
      let (j, there, next) = find_head_end-later b (buf ++ more) i not_here h in
      find_head_end-step b buf j later
        (find_head_end-prefix buf more j (omega (arith, long, next)) there)
      ∙ ap some (sym next)
]

pub find_head_end-split :
    (buf : Bytes) (i : ℕ)
    → find_head_end buf ≡ some i
    → buf ≡ take i buf ++ (marker ++ drop (i + 4) buf)
unfolding find_head_end
find_head_end-split [] i h = cc h
find_head_end-split (b ∷ buf) i h = elim (Bool-cases (starts_with (b ∷ buf) marker)) [
  | inl here ↦
      let first : i ≡ 0 = cc (sym h ∙ find_head_end-here b buf here) in
      rw first (starts_with-drop (b ∷ buf) marker here)
  | inr later ↦
      let (j, there, next) = find_head_end-later b buf i later h in
      rw next (
        ap (λ t. b ∷ t) (find_head_end-split buf j there)
        ∙ ap (λ k. b ∷ (take j buf ++ (marker ++ drop k (b ∷ buf)))) {x = suc (j + 4)}
            {y = suc j + 4} (omega arith))
]

-- What the loop gives where the head ends at `i` of the stream: the head, and a front of what is behind it.
abbrev pub HeadAt : Bytes → ℕ → Headed → Type 0
HeadAt stream i out =
    (left : Bytes) × (rest : Bytes) × (out ≡ headed (take i stream) left)
    × (drop (i + 4) stream ≡ left ++ rest)

try_head-found :
    (buf more : Bytes) (later : Headed) (i : ℕ)
    → find_head_end buf ≡ some i
    → HeadAt (buf ++ more) i (try_head buf later)
unfolding try_head
try_head-found buf more later i h =
    let long = find_head_end-le buf i h in
    (
      drop (i + 4) buf,
      more,
      rw (h, try_head)
          (ap (λ t. headed t (drop (i + 4) buf))
            (sym (take_append_within i buf more (omega (arith, long))))),
      drop_append_within (i + 4) buf more long,
    )

try_head-none :
    (buf : Bytes) (later : Headed)
    → find_head_end buf ≡ none
    → length buf ≤ max_head
    → try_head buf later ≡ later
unfolding try_head
try_head-none buf later h short =
    let fits : ltb max_head (length buf) ≡ false = ground (arith, short) in
    rw (h, fits, try_head) refl

try_head-HeadAt :
    (buf more : Bytes) (later : Headed) (i : ℕ)
    → find_head_end (buf ++ more) ≡ some i
    → i + 4 ≤ max_head
    → (find_head_end buf ≡ none → HeadAt (buf ++ more) i later)
    → HeadAt (buf ++ more) i (try_head buf later)
try_head-HeadAt buf more later i h small go_on = elim (Option-cases (find_head_end buf)) [
  | inr (j, there) ↦
      let same : j ≡ i = cc (sym (find_head_end-append buf more j there) ∙ h) in
      try_head-found buf more later i (there ∙ ap some same)
  | inl missing ↦ elim (Bool-cases (leb (i + 4) (length buf))) [
    | inl long ↦
        cc (sym missing ∙ find_head_end-prefix buf more i (leb→le (i + 4) (length buf) long) h)
    | inr short ↦
        subst (HeadAt (buf ++ more) i)
          (sym (try_head-none buf later missing (ground (arith, short, small)))) (go_on missing)
  ]
]

-- Without bytes to come, what is not found in the buffer is not in the stream.
no_more :
    (buf : Bytes) (i : ℕ) (later : Headed)
    → find_head_end (buf ++ []) ≡ some i
    → find_head_end buf ≡ none
    → HeadAt (buf ++ []) i later
no_more buf i later h missing = cc (sym missing ∙ (ap find_head_end (sym (append-nil buf)) ∙ h))

-- The loop finds the head wherever the fills split it, if it ends within the bound.
pub read_head-finds :
    (fills : List Fill) (buf : Bytes) (i : ℕ)
    → find_head_end (buf ++ gathered fills) ≡ some i
    → i + 4 ≤ max_head
    → HeadAt (buf ++ gathered fills) i (read_head fills buf)
unfolding read_head gathered
read_head-finds [] buf i h small =
    try_head-HeadAt buf [] head_waits i h small (no_more buf i head_waits h)
read_head-finds (fill_throws e ∷ fills) buf i h small =
    try_head-HeadAt buf [] (head_throws e) i h small (no_more buf i (head_throws e) h)
read_head-finds (fill_waits ∷ fills) buf i h small =
    try_head-HeadAt buf [] head_waits i h small (no_more buf i head_waits h)
read_head-finds (filled b bs ∷ fills) buf i h small =
    let regroup = append_assoc buf (b ∷ bs) (gathered fills) in
    try_head-HeadAt buf ((b ∷ bs) ++ gathered fills) (read_head fills (buf ++ (b ∷ bs))) i h small
      (λ missing.
        subst (λ stream. HeadAt stream i (read_head fills (buf ++ (b ∷ bs)))) regroup
          (read_head-finds fills (buf ++ (b ∷ bs)) i (ap find_head_end regroup ∙ h) small))

-- A head with its place in the stream.
abbrev pub Heads : Bytes → Headed → Type 0
Heads stream out = (i : ℕ) × (find_head_end stream ≡ some i) × HeadAt stream i out

try_head-Heads :
    (buf more : Bytes) (later : Headed) (head : Text) (left : Bytes)
    → try_head buf later ≡ headed head left
    → (later ≡ headed head left → Heads (buf ++ more) (headed head left))
    → Heads (buf ++ more) (headed head left)
unfolding try_head
try_head-Heads buf more later head left h go_on = elim (Option-cases (find_head_end buf)) [
  | inr (i, there) ↦ (
    i,
    find_head_end-append buf more i there,
    subst (HeadAt (buf ++ more) i) h (try_head-found buf more later i there),
  )
  | inl missing ↦ elim (Bool-cases (ltb max_head (length buf))) [
    | inl long ↦ cc (rw (missing, long, try_head) at h)
    | inr short ↦ go_on (rw (missing, short, try_head) at h)
  ]
]

-- Whatever head the loop returns is the front of the stream, and what it leaves follows the empty line.
pub read_head-Heads :
    (fills : List Fill) (buf : Bytes) (head : Text) (left : Bytes)
    → read_head fills buf ≡ headed head left
    → Heads (buf ++ gathered fills) (headed head left)
unfolding read_head gathered
read_head-Heads [] buf head left h = try_head-Heads buf [] head_waits head left h (λ e. cc e)
read_head-Heads (fill_throws e ∷ fills) buf head left h =
    try_head-Heads buf [] (head_throws e) head left h (λ e'. cc e')
read_head-Heads (fill_waits ∷ fills) buf head left h =
    try_head-Heads buf [] head_waits head left h (λ e. cc e)
read_head-Heads (filled b bs ∷ fills) buf head left h =
    try_head-Heads buf ((b ∷ bs) ++ gathered fills) (read_head fills (buf ++ (b ∷ bs))) head left h
      (λ later.
        subst (λ stream. Heads stream (headed head left))
          (append_assoc buf (b ∷ bs) (gathered fills))
          (read_head-Heads fills (buf ++ (b ∷ bs)) head left later))
