-- ===== src/Client/Reassembly/Bounds.antt =====
-- The memory that unfinished streams can hold.
use vynkor_sdk_cpp.Base.{
  ℕ, ◌+◌, ◌-◌, ◌≤◌, ◌≡◌, refl, arith, false, ◌||◌, Option, some, [], ◌∷◌, length, drop, ltb, leb,
  ◌==◌, All, Bool-cases, Option-cases, inl, inr, ltb_false→le, ==_refl, subst, sym,
}
use vynkor_sdk_cpp.Base.Text.{lit}
use vynkor_sdk_cpp.Error.{Exception, internal, Result, ok, throws, Result-cases}
use vynkor_sdk_cpp.Mac.{Bytes}
use vynkor_sdk_cpp.Framing.Header.{max_payload_size}
use vynkor_sdk_cpp.Framing.Fragment.{FragmentHeader, frag_header_size, parse_frag_header}
use vynkor_sdk_cpp.Framing.Parse.{FrameResult}
use vynkor_sdk_cpp.Client.Reassembly.{
  Fragments, ReassemblyBuf, Streams, max_reassembly_streams, find, erase, assign, prune_stale,
  new_buf, open_stream, replaced_len, with_chunk, finish, store_chunk, absorb_fragment, is_complete,
  reassemble, whole_frame, reassembly_timeout,
}

abbrev pub sum_lengths : Fragments → ℕ
sum_lengths [] = 0
sum_lengths ((k, chunk) ∷ m) = length chunk + sum_lengths m

-- The counter is exact, and at most 1 MiB.
abbrev pub IsAccounted : ℕ × ReassemblyBuf → Type 0
IsAccounted entry =
    (entry.1.buffered_bytes ≡ sum_lengths entry.1.fragments)
    × (entry.1.buffered_bytes ≤ max_payload_size)

-- At most 64 streams, each accounted for.
abbrev pub IsBounded : Streams → Type 0
IsBounded m = (length m ≤ max_reassembly_streams) × All IsAccounted m

sum_lengths-assign :
    (k : ℕ) (chunk : Bytes) (m : Fragments)
    → sum_lengths (assign k chunk m) + replaced_len k m ≡ sum_lengths m + length chunk
unfolding assign find
sum_lengths-assign k chunk [] = omega arith
sum_lengths-assign k chunk ((j, x) ∷ m) = ground (arith, sum_lengths-assign k chunk m)

All-erase : (k : ℕ) (m : Streams) → All IsAccounted m → All IsAccounted (erase k m)
unfolding erase
All-erase k [] h = tt
All-erase k ((j, x) ∷ m) (p, h) = elim (Bool-cases (j == k)) [
  | inl e ↦ rw e h
  | inr e ↦ rw e (p, All-erase k m h)
]

length-erase : (k : ℕ) (m : Streams) → length (erase k m) ≤ length m
unfolding erase
length-erase k [] = omega arith
length-erase k ((j, x) ∷ m) = ground (arith, length-erase k m)

All-assign :
    (k : ℕ) (buf : ReassemblyBuf) (m : Streams)
    → ((j : ℕ) → IsAccounted (j, buf))
    → All IsAccounted m
    → All IsAccounted (assign k buf m)
unfolding assign
All-assign k buf [] q h = (q k, tt)
All-assign k buf ((j, x) ∷ m) q (p, h) = elim (Bool-cases (j == k)) [
  | inl e ↦ rw e (q j, h)
  | inr e ↦ rw e (p, All-assign k buf m q h)
]

length-assign_found :
    (k : ℕ) (buf old : ReassemblyBuf) (m : Streams)
    → find k m ≡ some old
    → length (assign k buf m) ≡ length m
unfolding assign find
length-assign_found k buf old [] h = cc
length-assign_found k buf old ((j, x) ∷ m) h = elim (Bool-cases (j == k)) [
  | inl e ↦ rw e refl
  | inr e ↦ ground (arith, e, h, length-assign_found k buf old m)
]

length-assign : (k : ℕ) (buf : ReassemblyBuf) (m : Streams) → length (assign k buf m) ≤ length m + 1
unfolding assign
length-assign k buf [] = omega arith
length-assign k buf ((j, x) ∷ m) = ground (arith, length-assign k buf m)

find-assign : (k : ℕ) (buf : ReassemblyBuf) (m : Streams) → find k (assign k buf m) ≡ some buf
unfolding assign find
find-assign k buf [] = rw (==_refl k)
find-assign k buf ((j, x) ∷ m) = elim (Bool-cases (j == k)) [
  | inl e ↦ rw (e, e)
  | inr e ↦ rw (e, e) (find-assign k buf m)
]

same_buf : (k : ℕ) (x buf : ReassemblyBuf) → x ≡ buf → IsAccounted (k, x) → IsAccounted (k, buf)
same_buf k x buf e p = subst (λ b. IsAccounted (k, b)) e p

replaced_len-sum_lengths : (k : ℕ) (m : Fragments) → replaced_len k m ≤ sum_lengths m
unfolding find
replaced_len-sum_lengths k [] = omega arith
replaced_len-sum_lengths k ((j, x) ∷ m) = ground (arith, replaced_len-sum_lengths k m)

find-IsAccounted :
    (k : ℕ) (buf : ReassemblyBuf) (m : Streams)
    → find k m ≡ some buf
    → All IsAccounted m
    → IsAccounted (k, buf)
unfolding find
find-IsAccounted k buf [] e h = cc
find-IsAccounted k buf ((j, x) ∷ m) e (p, h) = elim (Bool-cases (j == k)) [
  | inl f ↦ same_buf k x buf (cc (rw f at e)) p
  | inr f ↦ find-IsAccounted k buf m (rw f at e) h
]

prune_stale-IsAccounted :
    (now : ℕ) (m : Streams) → All IsAccounted m → All IsAccounted (prune_stale now m)
unfolding prune_stale
prune_stale-IsAccounted now [] h = tt
prune_stale-IsAccounted now ((id, buf) ∷ m) (p, h) =
    elim (Bool-cases (leb reassembly_timeout (now - buf.first_seen))) [
      | inl e ↦ rw e (prune_stale-IsAccounted now m h)
      | inr e ↦ rw e (p, prune_stale-IsAccounted now m h)
    ]

pub length-prune_stale : (now : ℕ) (m : Streams) → length (prune_stale now m) ≤ length m
unfolding prune_stale
length-prune_stale now [] = omega arith
length-prune_stale now ((id, buf) ∷ m) = ground (arith, length-prune_stale now m)

erase-IsBounded : (k : ℕ) (m : Streams) → IsBounded m → IsBounded (erase k m)
erase-IsBounded k m (few, h) = (omega (arith, length-erase k m), All-erase k m h)

-- A buffer that is found, or emplaced, stands in the map.
record Opened (k : ℕ) (m : Streams) (buf : ReassemblyBuf) : Type 0 where
  found : find k m ≡ some buf
  bounded : IsBounded m

replace-IsBounded :
    (k : ℕ) (old buf : ReassemblyBuf) (m : Streams)
    → Opened k m old
    → ((j : ℕ) → IsAccounted (j, buf))
    → IsBounded (assign k buf m)
replace-IsBounded k old buf m o q = (
  omega (arith, length-assign_found k buf old m o.found, o.bounded.0),
  All-assign k buf m q o.bounded.1,
)

finish-IsBounded :
    (k : ℕ) (old buf : ReassemblyBuf) (m : Streams)
    → Opened k m old
    → ((j : ℕ) → IsAccounted (j, buf))
    → IsBounded (finish m k buf).0
unfolding finish
finish-IsBounded k old buf m o q = elim (Bool-cases (is_complete buf)) [
  | inr e ↦ rw e (replace-IsBounded k old buf m o q)
  | inl e ↦ rw e (reassembled (reassemble buf))
]
  where
    reassembled :
        (r : Result Bytes)
        → IsBounded
            (elim r as (λ x. Streams × Result (Option FrameResult)) [
              | throws e ↦ (assign k buf m, throws e)
              | ok payload ↦ (erase k m, ok (some (whole_frame buf.flags payload)))
            ]).0
    reassembled (throws e) = replace-IsBounded k old buf m o q
    reassembled (ok payload) = erase-IsBounded k m o.bounded

store_chunk-IsBounded :
    (m : Streams) (hdr : FragmentHeader) (buf : ReassemblyBuf) (chunk : Bytes)
    → Opened hdr.stream_id m buf
    → IsBounded (store_chunk m hdr buf chunk).0
unfolding store_chunk
store_chunk-IsBounded m hdr buf chunk o =
    let (exact, small) = find-IsAccounted hdr.stream_id buf m o.found o.bounded.1 in
    let summed = sum_lengths-assign hdr.sequence chunk buf.fragments in
    let new_total = buf.buffered_bytes - replaced_len hdr.sequence buf.fragments + length chunk in
    elim (Bool-cases (ltb max_payload_size new_total)) [
      | inl e ↦ rw e (erase-IsBounded hdr.stream_id m o.bounded)
      | inr e ↦ rw e (
          finish-IsBounded hdr.stream_id buf (with_chunk buf hdr.sequence chunk new_total) m o (λ j.
            (
              omega (arith, exact, summed, replaced_len-sum_lengths hdr.sequence buf.fragments),
              ltb_false→le _ _ e,
            )))
    ]

-- What is left of the map, and a buffer that is returned stands in it.
abbrev IsOpened : ℕ → Streams × Result ReassemblyBuf → Type 0
IsOpened k pair = IsBounded pair.0 × ((buf : ReassemblyBuf) → pair.1 ≡ ok buf → Opened k pair.0 buf)

throws-IsOpened : (k : ℕ) (m : Streams) (e : Exception) → IsBounded m → IsOpened k (m, throws e)
throws-IsOpened k m e b = (b, λ buf h. cc h)

ok-IsOpened :
    (k : ℕ) (m : Streams) (old : ReassemblyBuf)
    → find k m ≡ some old
    → IsBounded m
    → IsOpened k (m, ok old)
ok-IsOpened k m old found b = (b, λ buf h. record { found = cc (found, h); bounded = b })

assign_fresh-IsBounded :
    (now : ℕ) (m : Streams) (hdr : FragmentHeader) (flags : ℕ)
    → IsBounded m
    → leb max_reassembly_streams (length m) ≡ false
    → IsBounded (assign hdr.stream_id (new_buf now hdr flags) m)
assign_fresh-IsBounded now m hdr flags b room =
    let few : length m + 1 ≤ max_reassembly_streams = ground (arith, room) in
    (
      omega (arith, length-assign hdr.stream_id (new_buf now hdr flags) m, few),
      All-assign hdr.stream_id (new_buf now hdr flags) m (λ j. (refl, omega arith)) b.1,
    )

open_stream-IsOpened :
    (now : ℕ) (m : Streams) (hdr : FragmentHeader) (flags : ℕ)
    → IsBounded m
    → IsOpened hdr.stream_id (open_stream now m hdr flags)
unfolding open_stream
open_stream-IsOpened now m hdr flags b = elim (Option-cases (find hdr.stream_id m)) [
  | inr (old, e) ↦ elim (Bool-cases (old.total == hdr.total)) [
    | inl t ↦
        subst (IsOpened hdr.stream_id) (sym (rw (e, t, open_stream)))
          (ok-IsOpened hdr.stream_id m old e b)
    | inr t ↦ subst (IsOpened hdr.stream_id) (sym (rw (e, t, open_stream))) (
        throws-IsOpened hdr.stream_id (erase hdr.stream_id m)
          (internal (lit "fragment total mismatch within stream"))
          (erase-IsBounded hdr.stream_id m b))
  ]
  | inl e ↦ elim (Bool-cases (leb max_reassembly_streams (length m))) [
    | inl t ↦
        subst (IsOpened hdr.stream_id) (sym (rw (e, t, open_stream))) (
          throws-IsOpened hdr.stream_id m (internal (lit "too many concurrent fragment streams")) b)
    | inr t ↦ subst (IsOpened hdr.stream_id) (sym (rw (e, t, open_stream))) (
        ok-IsOpened hdr.stream_id (assign hdr.stream_id (new_buf now hdr flags) m)
          (new_buf now hdr flags) (find-assign hdr.stream_id (new_buf now hdr flags) m)
          (assign_fresh-IsBounded now m hdr flags b t))
  ]
]

-- Whatever frame arrives and whatever happens to it, also when an exception is thrown: at most 64
-- streams are in flight, each stream's byte counter is the sum of the lengths of its buffered
-- fragments, and no stream buffers more than 1 MiB.
pub absorb_fragment-IsBounded :
    (now seen : ℕ) (m : Streams) (frame : FrameResult)
    → IsBounded m
    → IsBounded (absorb_fragment now seen m frame).0
unfolding absorb_fragment
absorb_fragment-IsBounded now seen m frame b =
    let p = prune_stale now m in
    let kept : IsBounded p =
      (omega (arith, length-prune_stale now m, b.0), prune_stale-IsAccounted now m b.1) in
    elim (Option-cases (parse_frag_header frame.payload)) [
      | inl e ↦
          let left : (absorb_fragment now seen m frame).0 ≡ p = rw (e, absorb_fragment) in
          subst IsBounded (sym left) kept
      | inr (hdr, e) ↦ elim (Bool-cases ((hdr.total == 0) || leb hdr.total hdr.sequence)) [
        | inl bad ↦
            let left : (absorb_fragment now seen m frame).0 ≡ p = rw (e, bad, absorb_fragment) in
            subst IsBounded (sym left) kept
        | inr good ↦
            let o = open_stream seen p hdr frame.flags in
            let chunk = drop frag_header_size frame.payload in
            let (bounded, opened) = open_stream-IsOpened seen p hdr frame.flags kept in
            elim (Result-cases o.1) [
              | inl (buf, h) ↦
                  let left : (absorb_fragment now seen m frame).0
                      ≡ (store_chunk o.0 hdr buf chunk).0 =
                    rw (e, good, h, absorb_fragment) in
                  subst IsBounded (sym left)
                    (store_chunk-IsBounded o.0 hdr buf chunk (opened buf h))
              | inr (x, h) ↦
                  let left : (absorb_fragment now seen m frame).0 ≡ o.0 =
                    rw (e, good, h, absorb_fragment) in
                  subst IsBounded (sym left) bounded
            ]
      ]
    ]
