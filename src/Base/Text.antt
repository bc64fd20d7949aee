-- ===== src/Base/Text.antt =====
-- `std::string` as a list of bytes, and the library functions that the sources call on it.
use Prim.Native.Nat.{ℕ, zero, suc, ◌+◌, ◌/◌, ◌%◌}
use Prim.Native.Char.{code}
use Prim.Native.String.{String}
use mathlib.Core.Bool.{Bool, true, false, ◌&&◌, ◌||◌}
use mathlib.Core.List.{List, [], ◌∷◌, ◌++◌}
use mathlib.Core.Option.{Option, none, some}
use mathlib.Core.Path.{◌≡◌, refl}
use native.Mathlib.Omega.{arith}
use vynkor_sdk_cpp.Base.Tests.{ltb, leb, ◌==◌, if◌then◌else◌}

abbrev pub Text : Type 0
Text = List ℕ

-- The UTF-8 bytes of a code point.
abbrev utf8 : ℕ → Text
utf8 c =
    if ltb c 0x80
    then c ∷ []
    else if ltb c 0x800
    then (0xc0 + c / 64) ∷ (0x80 + c % 64) ∷ []
    else (0xe0 + c / 4096) ∷ (0x80 + c / 64 % 64) ∷ (0x80 + c % 64) ∷ []

-- The bytes of a literal of the sources, which stay in the basic multilingual plane.
unfoldable pub lit : String → Text
lit String.[] = []
lit (String.◌∷◌ c s) = utf8 (code c) ++ lit s

-- `std::to_string` on an unsigned number; the fuel is the number of digits at most.
unfoldable pub digits_of : ℕ → ℕ → Text → Text
digits_of zero n acc = acc
digits_of (suc fuel) n acc =
    let more = digits_of fuel (n / 10) ((b'0' + n % 10) ∷ acc) in
    if ltb n 10 then (b'0' + n) ∷ acc else more

-- Every value that the sources print is below 2 ^ 64, which has 20 digits.
unfoldable pub to_string : ℕ → Text
unfolding digits_of
to_string n = digits_of 20 n []

-- `s.rfind(prefix, 0) == 0`
unfoldable pub starts_with : Text → Text → Bool
starts_with s [] = true
starts_with [] (p ∷ ps) = false
starts_with (c ∷ s) (p ∷ ps) = (c == p) && starts_with s ps

pub starts_with_sound : (s p : Text) → starts_with s p ≡ true → (rest : Text) × (s ≡ p ++ rest)
unfolding starts_with
starts_with_sound s [] h = (s, refl)
starts_with_sound [] (p ∷ ps) h = cc
starts_with_sound (c ∷ s) (p ∷ ps) h =
    let (rest, e) = starts_with_sound s ps (ground (arith, h)) in (rest, ground (arith, h, e))

pub starts_with-append : (p s : Text) → starts_with (p ++ s) p ≡ true
unfolding starts_with
starts_with-append [] [] = refl
starts_with-append [] (c ∷ s) = refl
starts_with-append (c ∷ p) s = ground (arith, starts_with-append p s)

-- `s.find(c)`
unfoldable pub find_char : ℕ → Text → Option ℕ
find_char c [] = none
find_char c (x ∷ s) =
    if x == c then some 0 else elim (find_char c s) [ none ↦ none | some i ↦ some (i + 1) ]

-- `s.rfind(c)`
unfoldable pub rfind_char : ℕ → Text → Option ℕ
rfind_char c [] = none
rfind_char c (x ∷ s) = elim (rfind_char c s) [
  | some i ↦ some (i + 1)
  | none ↦ if x == c then some 0 else none
]

abbrev pub is_empty : Text → Bool
is_empty [] = true
is_empty (c ∷ s) = false

-- `isspace` in the C locale.
abbrev pub is_space : ℕ → Bool
is_space c = (c == 0x20) || (leb 0x09 c && leb c 0x0d)

unfoldable pub skip_space : Text → Text
skip_space [] = []
skip_space (c ∷ s) = if is_space c then skip_space s else c ∷ s

to_string_run : to_string 65535 ≡ lit "65535"
unfolding to_string lit
to_string_run = refl

lit_dash : lit "—" ≡ 0xe2 ∷ 0x80 ∷ 0x94 ∷ []
unfolding lit
lit_dash = refl
