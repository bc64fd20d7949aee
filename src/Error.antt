-- ===== src/Error.antt =====
-- include/vynkor/error.hpp: the exceptions that the SDK throws, with the text that `what()` returns,
-- and the standard library's that can leave a function of the SDK. A function that may throw
-- returns a `Result`.
use vynkor_sdk_cpp.Base.{ℕ, ◌≡◌, refl, ◌++◌, Bool, true, false, ◌⊎◌, inl, inr}
use vynkor_sdk_cpp.Base.Text.{Text, lit, to_string}

pub data Exception : Type 0 where
  io proto permission_denied internal : Text → Exception
  payload_too_large : ℕ → Exception
  frame_magic_mismatch frame_crc_mismatch frame_read_timeout timeout : Exception
  invalid_argument : Text → Exception
  out_of_range : Exception

unfoldable pub what : Exception → Text
what (io m) = lit "io error: " ++ m
what (proto m) = lit "proto decode error: " ++ m
what (permission_denied m) = lit "permission denied: " ++ m
what (internal m) = lit "internal error: " ++ m
what (payload_too_large n) = lit "payload too large: " ++ (to_string n ++ lit " bytes")
what frame_magic_mismatch = lit "frame magic mismatch"
what frame_crc_mismatch = lit "frame crc mismatch"
what frame_read_timeout = lit "timed out reading frame body"
what timeout = lit "operation timed out"
what (invalid_argument m) = m
what out_of_range = lit "out_of_range"

pub data Result {ℓ} (A : Type ℓ) : Type ℓ where
  ok : A → Result A
  throws : Exception → Result A

-- What follows a call: an exception skips it.
infixl 5 ◌>>=◌
abbrev pub ◌>>=◌ {κ ℓ} : {B : Type κ} {A : Type ℓ} → Result B → (B → Result A) → Result A
throws e >>= next = throws e
ok value >>= next = next value

infixl 5 ◌>>◌
abbrev pub ◌>>◌ {ℓ} : {A : Type ℓ} → Result (Unit {0}) → Result A → Result A
check >> rest = check >>= λ done. rest

-- `if (bad) throw e;`
abbrev pub throw_if : Bool → Exception → Result (Unit {0})
throw_if true e = throws e
throw_if false e = ok tt

pub >>=-eq-ok {κ ℓ} :
    {B : Type κ} {A : Type ℓ} {value : A} (call : Result B) (next : B → Result A)
    → (call >>= next) ≡ ok value
    → (result : B) × (call ≡ ok result) × (next result ≡ ok value)
>>=-eq-ok (throws e) next h = cc
>>=-eq-ok (ok result) next h = (result, refl, h)

pub throw_if-eq-ok {ℓ} :
    {A : Type ℓ} (b : Bool) (e : Exception) (k : Result A) {a : A}
    → (throw_if b e >> k) ≡ ok a
    → (b ≡ false) × (k ≡ ok a)
throw_if-eq-ok true e k h = cc
throw_if-eq-ok false e k h = (refl, h)

pub Result-cases {ℓ} :
    {A : Type ℓ} (r : Result A)
    → ((value : A) × (r ≡ ok value)) ⊎ ((e : Exception) × (r ≡ throws e))
Result-cases (ok value) = inl (value, refl)
Result-cases (throws e) = inr (e, refl)
