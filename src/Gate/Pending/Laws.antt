-- ===== src/Gate/Pending/Laws.antt =====
-- The pending map: what a sweep, a look-up and an erasure do to it.
use vynkor_sdk_cpp.Base.{
  ℕ, ◌+◌, ◌≤◌, ◌≡◌, refl, arith, false, none, some, [], ◌∷◌, if◌then◌else◌, text_eq, text_eq_iff,
  text_eq_refl,
}
use vynkor_sdk_cpp.Base.Text.{Text}
use vynkor_sdk_cpp.Mac.{Bytes}
use vynkor_sdk_cpp.Gate.Pending.{
  PendingAction, PendingMap, is_expired, sweep_expired, find, erase, emplace,
}

-- How many entries hold the parameters.
pub count_params : Bytes → PendingMap → ℕ
count_params params [] = 0
count_params params ((id, p) ∷ m) =
    (if text_eq p.params params then 1 else 0) + count_params params m

pub count-sweep_expired :
    (params : Bytes) (ttl now : ℕ) (m : PendingMap)
    → count_params params (sweep_expired ttl now m) ≤ count_params params m
unfolding count_params sweep_expired
count-sweep_expired params ttl now [] = omega arith
count-sweep_expired params ttl now ((id, p) ∷ m) =
    ground (arith, count-sweep_expired params ttl now m)

-- What is found and erased was counted.
pub count-erase :
    (params : Bytes) (id : Text) (m : PendingMap) (p : PendingAction)
    → find id m ≡ some p
    → count_params params (erase id m) + (if text_eq p.params params then 1 else 0)
      ≡ count_params params m
unfolding count_params erase find
count-erase params id [] p h = cc
count-erase params id ((j, q) ∷ m) p h = ground (arith, count-erase params id m p)

pub count-emplace :
    (params : Bytes) (id : Text) (p : PendingAction) (m : PendingMap)
    → count_params params (emplace id p m)
      ≤ count_params params m + (if text_eq p.params params then 1 else 0)
unfolding emplace count_params
count-emplace params id p m = ground arith

-- What is found after a sweep was there before it, and had not run out.
pub find-sweep_expired :
    (id : Text) (ttl now : ℕ) (m : PendingMap) (p : PendingAction)
    → find id (sweep_expired ttl now m) ≡ some p
    → is_expired ttl now p ≡ false
unfolding find sweep_expired
find-sweep_expired id ttl now [] p h = cc
find-sweep_expired id ttl now ((j, q) ∷ m) p h = ground (arith, find-sweep_expired id ttl now m p)

-- No two entries have the same id.
abbrev pub Absent : Text → PendingMap → Type 0
Absent id m = find id m ≡ none

pub DistinctIds : PendingMap → Type 0
DistinctIds [] = Unit {0}
DistinctIds ((id, p) ∷ m) = Absent id m × DistinctIds m

Absent-sweep_expired :
    (id : Text) (ttl now : ℕ) (m : PendingMap) → Absent id m → Absent id (sweep_expired ttl now m)
unfolding find sweep_expired
Absent-sweep_expired id ttl now [] h = refl
Absent-sweep_expired id ttl now ((j, q) ∷ m) h = ground (arith, Absent-sweep_expired id ttl now m)

Absent-erase : (id j : Text) (m : PendingMap) → Absent id m → Absent id (erase j m)
unfolding find erase
Absent-erase id j [] h = refl
Absent-erase id j ((k, q) ∷ m) h = ground (arith, Absent-erase id j m)

pub sweep_expired-DistinctIds :
    (ttl now : ℕ) (m : PendingMap) → DistinctIds m → DistinctIds (sweep_expired ttl now m)
unfolding DistinctIds sweep_expired
sweep_expired-DistinctIds ttl now [] d = tt
sweep_expired-DistinctIds ttl now ((j, q) ∷ m) d =
    ground (arith, sweep_expired-DistinctIds ttl now m d.1, Absent-sweep_expired j ttl now m d.0)

pub erase-DistinctIds : (id : Text) (m : PendingMap) → DistinctIds m → DistinctIds (erase id m)
unfolding DistinctIds erase
erase-DistinctIds id [] d = tt
erase-DistinctIds id ((j, q) ∷ m) d =
    ground (arith, erase-DistinctIds id m d.1, Absent-erase j id m d.0)

pub emplace-DistinctIds :
    (id : Text) (p : PendingAction) (m : PendingMap) → DistinctIds m → DistinctIds (emplace id p m)
unfolding DistinctIds emplace
emplace-DistinctIds id p m d = ground arith

-- An erased id is gone.
pub find-erase : (id : Text) (m : PendingMap) → DistinctIds m → Absent id (erase id m)
unfolding DistinctIds find erase
find-erase id [] d = refl
find-erase id ((j, q) ∷ m) d = ground (arith, find-erase id m d.1, text_eq_iff j id, d.0)

pub find-emplace :
    (id : Text) (p : PendingAction) (m : PendingMap)
    → Absent id m
    → find id (emplace id p m) ≡ some p
unfolding emplace find
find-emplace id p m h = ground (arith, text_eq_refl id)

pub find-sweep_expired_fresh :
    (id : Text) (ttl now : ℕ) (m : PendingMap) (p : PendingAction)
    → find id m ≡ some p
    → is_expired ttl now p ≡ false
    → find id (sweep_expired ttl now m) ≡ some p
unfolding find sweep_expired
find-sweep_expired_fresh id ttl now [] p h f = cc
find-sweep_expired_fresh id ttl now ((j, q) ∷ m) p h f =
    ground (arith, find-sweep_expired_fresh id ttl now m p)
