-- ===== src/Gate/Json.antt =====
-- src/confirmation_gate.cpp: escaping a JSON string, and finding the string value of a key without a
-- JSON library. A position in the text is the rest of the text from there, with the character before.
pub mod Escape
use vynkor_sdk_cpp.Base.{
  ℕ, zero, suc, ◌+◌, ◌-◌, ◌*◌, ◌/◌, ◌%◌, ◌^◌, Bool, true, false, not, ◌&&◌, ◌||◌, Option, none,
  some, List, [], ◌∷◌, ◌++◌, length, drop, ltb, leb, ◌==◌, if◌then◌else◌, bit_and, bit_or,
}
use vynkor_sdk_cpp.Base.Text.{Text, lit, starts_with, skip_space}
use vynkor_sdk_cpp.Error.{Result, ok, throws, invalid_argument}

-- A digit as `%x` prints it.
abbrev pub hex_digit : ℕ → ℕ
hex_digit d = if ltb d 10 then b'0' + d else b'a' + d - 10

-- `snprintf("%04x", c)` on a number below 2 ^ 16.
abbrev pub hex4 : ℕ → Text
hex4 c =
    hex_digit (c / 0x1000 % 16)
    ∷ hex_digit (c / 0x100 % 16)
    ∷ hex_digit (c / 16 % 16)
    ∷ hex_digit (c % 16)
    ∷ []

unfoldable pub escape_char : ℕ → Text
escape_char c =
    if c == 0x22
    then 0x5c ∷ 0x22 ∷ []
    else if c == 0x5c
    then 0x5c ∷ 0x5c ∷ []
    else if c == 0x08
    then 0x5c ∷ b'b' ∷ []
    else if c == 0x0c
    then 0x5c ∷ b'f' ∷ []
    else if c == 0x0a
    then 0x5c ∷ b'n' ∷ []
    else if c == 0x0d
    then 0x5c ∷ b'r' ∷ []
    else if c == 0x09
    then 0x5c ∷ b't' ∷ []
    else if ltb c 0x20
    then 0x5c ∷ b'u' ∷ hex4 c
    else c ∷ []

unfoldable pub json_escape : Text → Text
json_escape [] = []
json_escape (c ∷ s) = escape_char c ++ json_escape s

-- `std::stoul(text, nullptr, 16)` converted to `unsigned`: leading space, a sign, a prefix 0x, then
-- the digits up to the first other character; without a digit it throws.
abbrev pub hex_value : ℕ → Option ℕ
hex_value c =
    if leb b'0' c && leb c b'9'
    then some (c - b'0')
    else if leb b'a' c && leb c b'f'
    then some (c - b'a' + 10)
    else if leb b'A' c && leb c b'F'
    then some (c - b'A' + 10)
    else none

-- The number so far, and whether a digit was seen.
unfoldable pub hex_number : Text → ℕ → Bool → ℕ × Bool
hex_number [] n seen = (n, seen)
hex_number (c ∷ s) n seen = elim (hex_value c) [
  | none ↦ (n, seen)
  | some d ↦ hex_number s (n * 16 + d) true
]

-- A prefix with no digit behind it leaves the number zero.
unfoldable pub hex_prefixed : Text → ℕ × Bool
unfolding hex_number
hex_prefixed (z ∷ x ∷ s) =
    let plain = hex_number (z ∷ x ∷ s) 0 false in
    if (z == b'0') && ((x == b'x') || (x == b'X')) then ((hex_number s 0 true).0, true) else plain
hex_prefixed s = hex_number s 0 false

unfoldable pub stoul_16 : Text → Result ℕ
unfolding skip_space hex_prefixed
stoul_16 text =
    let s = skip_space text in
    let minus = starts_with s (b'-' ∷ []) in
    let plus = starts_with s (b'+' ∷ []) in
    let (n, seen) = hex_prefixed (if minus || plus then drop 1 s else s) in
    if not seen
    then throws (invalid_argument (lit "stoul"))
    else ok (if minus then (2 ^ 32 - n) % 2 ^ 32 else n)

-- The bytes appended for a code point; a `static_cast<char>` keeps the low byte.
abbrev pub utf8_bytes : ℕ → Text
utf8_bytes cp =
    if ltb cp 0x80
    then cp ∷ []
    else if ltb cp 0x800
    then (bit_or 0xc0 (cp / 64) % 256) ∷ (bit_or 0x80 (bit_and cp 0x3f) % 256) ∷ []
    else (bit_or 0xe0 (cp / 4096) % 256)
      ∷ (bit_or 0x80 (bit_and (cp / 64) 0x3f) % 256)
      ∷ (bit_or 0x80 (bit_and cp 0x3f) % 256)
      ∷ []

abbrev pub simple_escape : ℕ → Option ℕ
simple_escape e =
    if e == 0x22
    then some 0x22
    else if e == 0x5c
    then some 0x5c
    else if e == b'/'
    then some b'/'
    else if e == b'b'
    then some 0x08
    else if e == b'f'
    then some 0x0c
    else if e == b'n'
    then some 0x0a
    else if e == b'r'
    then some 0x0d
    else if e == b't'
    then some 0x09
    else none

-- Where the loop over the value stands: between characters, behind a backslash, or behind `\u` with
-- the digits read so far (all four must be there before they are converted).
pub data Mode : Type 0 where
  plain escaped : Mode
  unicode : ℕ → Text → Mode

unfoldable pub read_string : Mode → Text → Text → Result (Option Text)
read_string m [] value = ok none
read_string plain (c ∷ s) value =
    let more = read_string plain s (value ++ (c ∷ [])) in
    let escape = read_string escaped s value in
    if c == 0x22 then ok (some value) else if not (c == 0x5c) then more else escape
read_string escaped (e ∷ s) value =
    let digits = read_string (unicode 3 []) s value in
    if e == b'u' then digits else elim (simple_escape e) [
      | none ↦ ok none
      | some c ↦ read_string plain s (value ++ (c ∷ []))
    ]
read_string (unicode (suc k) read) (c ∷ s) value =
    read_string (unicode k (read ++ (c ∷ []))) s value
read_string (unicode zero read) (c ∷ s) value = elim (stoul_16 (read ++ (c ∷ []))) [
  | throws e ↦ throws e
  | ok cp ↦ read_string plain s (value ++ utf8_bytes cp)
]

unfoldable pub skip_blank : Text → Text
skip_blank [] = []
skip_blank (c ∷ s) = if (c == 0x20) || (c == 0x09) then skip_blank s else c ∷ s

-- Behind the key: blanks, a colon, blanks, and a quote; then the rest of the value.
unfoldable pub value_start : Text → Option Text
unfolding skip_blank
value_start s = elim (skip_blank s) [
  | [] ↦ none
  | c ∷ s1 ↦
      if not (c == b':')
      then none
      else elim (skip_blank s1) [ [] ↦ none | q ∷ s2 ↦ if not (q == 0x22) then none else some s2 ]
]

-- A key stands at the start, or behind a brace or a comma.
abbrev pub key_start_ok : Option ℕ → Bool
key_start_ok none = true
key_start_ok (some p) = (p == b'{') || (p == b',')

-- `json.find(needle, pos)` in a loop: `before` is the character at `pos - 1`, and `skip` counts the
-- characters of a needle that was found and rejected.
unfoldable pub find_value : Text → ℕ → Option ℕ → Text → Option Text
find_value needle skip before [] = none
find_value needle (suc k) before (c ∷ s) = find_value needle k (some c) s
find_value needle zero before (c ∷ s) =
    let rejected = find_value needle (length needle - 1) (some c) s in
    let onward = find_value needle zero (some c) s in
    if not (starts_with (c ∷ s) needle)
    then onward
    else if not (key_start_ok before)
    then rejected
    else elim (value_start (drop (length needle) (c ∷ s))) [
      | none ↦ rejected
      | some rest ↦ some rest
    ]

unfoldable pub json_find_string : Text → Text → Result (Option Text)
json_find_string json key = elim (find_value (0x22 ∷ (key ++ (0x22 ∷ []))) 0 none json) [
  | none ↦ ok none
  | some rest ↦ read_string plain rest []
]
