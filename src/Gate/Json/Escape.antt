-- ===== src/Gate/Json/Escape.antt =====
-- What `json_escape` writes between quotes, `json_find_string` reads back.
use vynkor_sdk_cpp.Base.{
  ℕ, zero, suc, ◌<◌, ◌≡◌, refl, ap, sym, ◌∙◌, arith, Bool, true, false, ◌&&◌, ◌≢◌, Option, none,
  some, [], ◌∷◌, ◌++◌, length, ltb, ◌==◌, Bool-cases, inl, inr, append_assoc, append-nil, ==_iff,
  ltb→lt, drop_append,
}
use vynkor_sdk_cpp.Base.Text.{Text, starts_with, starts_with-append}
use vynkor_sdk_cpp.Error.{Result, ok, throws}
use vynkor_sdk_cpp.Gate.Json.{
  escape_char, json_escape, hex4, stoul_16, plain, read_string, value_start, find_value,
  json_find_string, key_start_ok,
}

reads_as : Result ℕ → ℕ → Bool
reads_as (throws e) c = false
reads_as (ok n) c = n == c

reads_as_sound : (r : Result ℕ) (c : ℕ) → reads_as r c ≡ true → r ≡ ok c
unfolding reads_as
reads_as_sound (throws e) c h = cc
reads_as_sound (ok n) c h = ap ok ((==_iff n c).0 h)

all_controls : ℕ → Bool
all_controls zero = true
all_controls (suc n) = reads_as (stoul_16 (hex4 n)) n && all_controls n

all_controls_sound : (n c : ℕ) → all_controls n ≡ true → c < n → stoul_16 (hex4 c) ≡ ok c
unfolding all_controls
all_controls_sound zero c h l = absurd (omega arith)
all_controls_sound (suc n) c h l =
    ground (arith, all_controls_sound n c, reads_as_sound (stoul_16 (hex4 n)) n)

controls : all_controls 32 ≡ true
unfolding all_controls reads_as stoul_16 starts_with
controls = refl

-- The four digits that `%04x` prints for a control character are read back.
stoul_16-hex4 : (c : ℕ) → c < 32 → stoul_16 (hex4 c) ≡ ok c
stoul_16-hex4 c h = all_controls_sound 32 c controls h

read_control :
    (c : ℕ) (s value : Text)
    → c < 32
    → read_string plain (0x5c ∷ b'u' ∷ (hex4 c ++ s)) value
      ≡ read_string plain s (value ++ (c ∷ []))
unfolding read_string
read_control c s value h =
    let small : ltb c 0x80 ≡ true = ground arith in rw (stoul_16-hex4 c h, small)

read_other :
    (c : ℕ) (s value : Text)
    → (c == 0x22) ≡ false
    → (c == 0x5c) ≡ false
    → read_string plain (c ∷ s) value ≡ read_string plain s (value ++ (c ∷ []))
unfolding read_string
read_other c s value q b = rw (q, b)

-- One character, escaped or not, adds itself to the value.
read-escape_char :
    (c : ℕ) (s value : Text)
    → read_string plain (escape_char c ++ s) value ≡ read_string plain s (value ++ (c ∷ []))
unfolding escape_char
read-escape_char c s value = elim (Bool-cases (c == 0x22)) [
  | inl t ↦ rw ((==_iff c 0x22).0 t) (unfold read_string in refl)
  | inr f0 ↦ elim (Bool-cases (c == 0x5c)) [
    | inl t ↦ rw ((==_iff c 0x5c).0 t) (unfold read_string in refl)
    | inr f1 ↦ elim (Bool-cases (c == 0x08)) [
      | inl t ↦ rw ((==_iff c 0x08).0 t) (unfold read_string in refl)
      | inr f2 ↦ elim (Bool-cases (c == 0x0c)) [
        | inl t ↦ rw ((==_iff c 0x0c).0 t) (unfold read_string in refl)
        | inr f3 ↦ elim (Bool-cases (c == 0x0a)) [
          | inl t ↦ rw ((==_iff c 0x0a).0 t) (unfold read_string in refl)
          | inr f4 ↦ elim (Bool-cases (c == 0x0d)) [
            | inl t ↦ rw ((==_iff c 0x0d).0 t) (unfold read_string in refl)
            | inr f5 ↦ elim (Bool-cases (c == 0x09)) [
              | inl t ↦ rw ((==_iff c 0x09).0 t) (unfold read_string in refl)
              | inr f6 ↦ elim (Bool-cases (ltb c 0x20)) [
                | inl t ↦
                    rw (f0, f1, f2, f3, f4, f5, f6, t) (read_control c s value (ltb→lt c 0x20 t))
                | inr f7 ↦ rw (f0, f1, f2, f3, f4, f5, f6, f7) (read_other c s value f0 f1)
              ]
            ]
          ]
        ]
      ]
    ]
  ]
]

-- The reader stops at the quote behind the escaped text and has gathered the text.
pub read_string-json_escape :
    (text rest value : Text)
    → read_string plain (json_escape text ++ (0x22 ∷ rest)) value ≡ ok (some (value ++ text))
unfolding json_escape
read_string-json_escape [] rest value =
    unfold read_string in ap (λ t. ok (some t)) (sym (append-nil value))
read_string-json_escape (c ∷ text) rest value =
    rw (append_assoc (escape_char c) (json_escape text) (0x22 ∷ rest)) (
      read-escape_char c (json_escape text ++ (0x22 ∷ rest)) value
      ∙ read_string-json_escape text rest (value ++ (c ∷ []))
      ∙ ap (λ t. ok (some t)) (append_assoc value (c ∷ []) text))

find_value_here :
    (needle s rest : Text) (c : ℕ)
    → key_start_ok (some c) ≡ true
    → value_start s ≡ some rest
    → needle ≢ []
    → find_value needle 0 (some c) (needle ++ s) ≡ some rest
unfolding find_value
find_value_here [] s rest c k e h = absurd (h refl)
find_value_here (n ∷ needle) s rest c k e h =
    rw (starts_with-append (n ∷ needle) s, k, drop_append (length needle) needle s refl, e)

find_value_skip :
    (n c : ℕ) (needle s : Text) (before : Option ℕ)
    → (c == n) ≡ false
    → find_value (n ∷ needle) 0 before (c ∷ s) ≡ find_value (n ∷ needle) 0 (some c) s
unfolding find_value starts_with
find_value_skip n c needle s before h = rw h

colon_quote : (rest : Text) → value_start (b':' ∷ 0x22 ∷ rest) ≡ some rest
unfolding value_start
colon_quote rest = refl

found_lem :
    (json key rest : Text)
    → find_value (0x22 ∷ (key ++ (0x22 ∷ []))) 0 none json ≡ some rest
    → json_find_string json key ≡ read_string plain rest []
unfolding json_find_string
found_lem json key rest h = rw (h, json_find_string)

-- The string value of the first member of an object is read back, for any key and any value, escaped
-- by `json_escape`, and whatever follows the value.
pub json_find_string-json_escape :
    (key text rest : Text)
    → json_find_string
        (b'{'
          ∷ ((0x22 ∷ (key ++ (0x22 ∷ []))) ++ (b':' ∷ 0x22 ∷ (json_escape text ++ (0x22 ∷ rest)))))
        key
      ≡ ok (some text)
json_find_string-json_escape key text rest =
    let needle = 0x22 ∷ (key ++ (0x22 ∷ [])) in
    let value = json_escape text ++ (0x22 ∷ rest) in
    found_lem _ key value (
      find_value_skip 0x22 b'{' (key ++ (0x22 ∷ [])) (needle ++ (b':' ∷ 0x22 ∷ value)) none refl
      ∙ find_value_here needle (b':' ∷ 0x22 ∷ value) value b'{' refl (colon_quote value) (λ e. cc))
    ∙ read_string-json_escape text rest []
