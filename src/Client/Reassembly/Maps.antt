-- ===== src/Client/Reassembly/Maps.antt =====
-- The maps of `absorb_fragment`, include/vynkor/client.hpp: what is found after a change.
use vynkor_sdk_cpp.Base.{
  ℕ, suc, ◌-◌, ◌≡◌, refl, ap, ◌∙◌, arith, false, none, some, List, [], ◌∷◌, length, leb, ◌==◌,
  ==_refl, Bool-cases, inl, inr,
}
use vynkor_sdk_cpp.Client.Reassembly.{
  ReassemblyBuf, Streams, find, assign, prune_stale, reassembly_timeout,
}

module _ {ℓ} {A : Type ℓ} where
  pub find-assign : (k : ℕ) (x : A) (m : List (ℕ × A)) → find k (assign k x m) ≡ some x
  unfolding assign find
  find-assign k x [] = rw (==_refl k)
  find-assign k x ((j, y) ∷ m) = elim (Bool-cases (j == k)) [
    | inl e ↦ rw (e, e)
    | inr e ↦ rw (e, e) (find-assign k x m)
  ]

  pub find-assign_other :
      (k i : ℕ) (x : A) (m : List (ℕ × A)) → (k == i) ≡ false → find i (assign k x m) ≡ find i m
  unfolding assign find
  find-assign_other k i x [] other = rw other
  find-assign_other k i x ((j, y) ∷ m) other = elim (Bool-cases (j == k)) [
    | inl e ↦ let other_j : (j == i) ≡ false = ground (arith, e, other) in rw (e, other_j) refl
    | inr e ↦ elim (Bool-cases (j == i)) [
      | inl f ↦ rw (e, f)
      | inr f ↦ rw (e, f, find) (find-assign_other k i x m other)
    ]
  ]

  pub length-assign_fresh :
      (k : ℕ) (x : A) (m : List (ℕ × A)) → find k m ≡ none → length (assign k x m) ≡ suc (length m)
  unfolding assign find
  length-assign_fresh k x [] fresh = refl
  length-assign_fresh k x ((j, y) ∷ m) fresh = elim (Bool-cases (j == k)) [
    | inl e ↦ cc (rw e at fresh)
    | inr e ↦ ground (arith, e, length-assign_fresh k x m (rw e at fresh))
  ]

pub find-prune_none :
    (now k : ℕ) (m : Streams) → find k m ≡ none → find k (prune_stale now m) ≡ none
unfolding find prune_stale
find-prune_none now k [] h = refl
find-prune_none now k ((j, buf) ∷ m) h = elim (Bool-cases (j == k)) [
  | inl e ↦ cc (rw e at h)
  | inr e ↦ elim (Bool-cases (leb reassembly_timeout (now - buf.first_seen))) [
    | inl old ↦ rw old (find-prune_none now k m (rw e at h))
    | inr young ↦ rw (young, e) (find-prune_none now k m (rw e at h))
  ]
]

-- A stream that is not stale is kept.
pub find-prune_some :
    (now k : ℕ) (buf : ReassemblyBuf) (m : Streams)
    → leb reassembly_timeout (now - buf.first_seen) ≡ false
    → find k m ≡ some buf
    → find k (prune_stale now m) ≡ some buf
unfolding find prune_stale
find-prune_some now k buf [] young h = cc h
find-prune_some now k buf ((j, b) ∷ m) young h = elim (Bool-cases (j == k)) [
  | inl e ↦
      let same : b ≡ buf = cc (rw e at h) in
      let fresh : leb reassembly_timeout (now - b.first_seen) ≡ false =
        ap (λ t. leb reassembly_timeout (now - t.first_seen)) same ∙ young in
      rw (fresh, e) (ap some same)
  | inr e ↦ elim (Bool-cases (leb reassembly_timeout (now - b.first_seen))) [
    | inl old ↦ rw old (find-prune_some now k buf m young (rw e at h))
    | inr fine ↦ rw (fine, e) (find-prune_some now k buf m young (rw e at h))
  ]
]
