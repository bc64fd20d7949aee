-- ===== src/Ws/Url/Numbers.antt =====
-- `std::stoi` reads what `std::to_string` wrote, and the searches of `std::string` in what is put together.
use vynkor_sdk_cpp.Base.{
  ℕ, zero, suc, ◌+◌, ◌-◌, ◌*◌, ◌/◌, ◌%◌, ◌^◌, ◌<◌, ◌≤◌, ◌≡◌, ◌⊎◌, refl, ap, sym, subst, ◌∙◌, arith,
  Bool, true, false, none, some, [], ◌∷◌, ◌++◌, length, All, ltb, leb, ltb→lt, ltb_false→le, ◌==◌,
  inl, inr, Bool-cases,
}
use vynkor_sdk_cpp.Base.Text.{
  Text, find_char, rfind_char, digits_of, to_string, skip_space, is_space, starts_with,
}
use vynkor_sdk_cpp.Error.{ok}
use vynkor_sdk_cpp.Ws.Url.{decimal, stoi, port_of}

abbrev pub IsNot : ℕ → ℕ → Type 0
IsNot c x = (x == c) ≡ false

pub find_char-append :
    (c : ℕ) (xs ys : Text) → All (IsNot c) xs → find_char c (xs ++ (c ∷ ys)) ≡ some (length xs)
unfolding find_char
find_char-append c [] ys h = ground arith
find_char-append c (x ∷ xs) ys (other, h) =
    rw (other, find_char-append c xs ys h, find_char) (ap some (omega arith))

rfind_char-none : (c : ℕ) (xs : Text) → All (IsNot c) xs → rfind_char c xs ≡ none
unfolding rfind_char
rfind_char-none c [] h = refl
rfind_char-none c (x ∷ xs) (other, h) = rw (rfind_char-none c xs h, other, rfind_char) refl

pub rfind_char-append :
    (c : ℕ) (xs ys : Text) → All (IsNot c) ys → rfind_char c (xs ++ (c ∷ ys)) ≡ some (length xs)
unfolding rfind_char
rfind_char-append c [] ys h = rw (rfind_char-none c ys h, rfind_char) (ground arith)
rfind_char-append c (x ∷ xs) ys h =
    rw (rfind_char-append c xs ys h, rfind_char) (ap some (omega arith))

abbrev pub IsDigit : ℕ → Type 0
IsDigit c = (47 < c) × (c < 58)

pub IsDigit-IsNot : (c : ℕ) → (57 < c) ⊎ (c < 48) → (xs : Text) → All IsDigit xs → All (IsNot c) xs
IsDigit-IsNot c far [] h = tt
IsDigit-IsNot c far (x ∷ xs) ((low, high), h) =
    (ground (arith, low, high, far), IsDigit-IsNot c far xs h)

-- The first number that does not have so many digits.
abbrev ten_to : ℕ → ℕ
ten_to zero = 1
ten_to (suc n) = ten_to n * 10

digits_of-IsDigit : (fuel n : ℕ) (acc : Text) → All IsDigit acc → All IsDigit (digits_of fuel n acc)
unfolding digits_of
digits_of-IsDigit zero n acc h = h
digits_of-IsDigit (suc fuel) n acc h = elim (Bool-cases (ltb n 10)) [
  | inl small ↦ rw (small, digits_of) ((ground (arith, small), ground (arith, small)), h)
  | inr big ↦
      rw (big, digits_of)
        (digits_of-IsDigit fuel (n / 10) ((b'0' + n % 10) ∷ acc) ((omega arith, omega arith), h))
]

digits_of-cons :
    (fuel n c : ℕ) (acc : Text) → (d : ℕ) × (ds : Text) × (digits_of fuel n (c ∷ acc) ≡ d ∷ ds)
unfolding digits_of
digits_of-cons zero n c acc = (c, acc, refl)
digits_of-cons (suc fuel) n c acc = elim (Bool-cases (ltb n 10)) [
  | inl small ↦ (b'0' + n, c ∷ acc, rw (small, digits_of) refl)
  | inr big ↦
      let (d, ds, e) = digits_of-cons fuel (n / 10) (b'0' + n % 10) (c ∷ acc) in
      (d, ds, rw (big, digits_of) e)
]

to_string-cons : (n : ℕ) → (d : ℕ) × (ds : Text) × (to_string n ≡ d ∷ ds)
unfolding to_string digits_of
to_string-cons n = elim (Bool-cases (ltb n 10)) [
  | inl small ↦ (b'0' + n, [], rw (small, to_string, digits_of) refl)
  | inr big ↦
      let (d, ds, e) = digits_of-cons 19 (n / 10) (b'0' + n % 10) [] in
      (d, ds, rw (big, to_string, digits_of) e)
]

pub to_string-IsDigit : (n : ℕ) → All IsDigit (to_string n)
unfolding to_string
to_string-IsDigit n = digits_of-IsDigit 20 n [] tt

decimal-digit :
    (d n : ℕ) (s : Text) (seen : Bool)
    → d < 10
    → decimal ((b'0' + d) ∷ s) n seen ≡ decimal s (n * 10 + d) true
unfolding decimal
decimal-digit d n s seen h =
    let low : leb b'0' (b'0' + d) ≡ true = ground (arith, h) in
    let high : leb (b'0' + d) b'9' ≡ true = ground (arith, h) in
    rw (low, high)
      (ap (λ k. decimal s k true) {x = n * 10 + (b'0' + d - b'0')} {y = n * 10 + d} (omega arith))

more_fuel : (fuel n : ℕ) → n < ten_to (suc fuel) → 10 ≤ n → 0 < fuel
more_fuel zero n h big = omega (arith, h, big)
more_fuel (suc fuel) n h big = omega arith

none_left : 0 < 0 → ⊥
none_left p = omega (arith, p)

decimal-digits_of :
    (fuel n : ℕ) (acc : Text) (seen : Bool)
    → n < ten_to fuel
    → 0 < fuel
    → decimal (digits_of fuel n acc) 0 seen ≡ decimal acc n true
unfolding digits_of
decimal-digits_of zero n acc seen h p = elim (none_left p) [ ]
decimal-digits_of (suc fuel) n acc seen h p = elim (Bool-cases (ltb n 10)) [
  | inl small ↦
      rw (small, digits_of)
        (decimal-digit n 0 acc seen (ltb→lt n 10 small)
          ∙ ap (λ k. decimal acc k true) {x = 0 * 10 + n} {y = n} (omega arith))
  | inr big ↦
      let rest =
        decimal-digits_of fuel (n / 10) ((b'0' + n % 10) ∷ acc) seen (omega (arith, h))
          (more_fuel fuel n h (ltb_false→le n 10 big)) in
      rw (big, digits_of)
        (rest
          ∙ (decimal-digit (n % 10) (n / 10) acc true (omega arith)
              ∙ ap (λ k. decimal acc k true) {x = n / 10 * 10 + n % 10} {y = n} (omega arith)))
]

decimal-to_string : (n : ℕ) → n < 2 ^ 16 → decimal (to_string n) 0 false ≡ (n, true)
unfolding to_string decimal
decimal-to_string n h = decimal-digits_of 20 n [] false (omega (arith, h)) (omega arith)

skip_space-digit : (d : ℕ) (ds : Text) → IsDigit d → skip_space (d ∷ ds) ≡ d ∷ ds
unfolding skip_space
skip_space-digit d ds (low, high) =
    let space : is_space d ≡ false = ground (arith, low, high) in rw (space, skip_space) refl

starts_with-digit :
    (d sign : ℕ) (ds : Text) → IsDigit d → sign < 48 → starts_with (d ∷ ds) (sign ∷ []) ≡ false
unfolding starts_with
starts_with-digit d sign ds (low, high) h = ground (arith, low, h)

stoi-digits :
    (d n : ℕ) (ds : Text)
    → IsDigit d
    → n < 2 ^ 16
    → decimal (d ∷ ds) 0 false ≡ (n, true)
    → stoi (d ∷ ds) ≡ ok n
unfolding stoi
stoi-digits d n ds digit small e =
    let fits : ltb 2147483647 n ≡ false = ground (arith, small) in
    rw
      (
        skip_space-digit d ds digit,
        starts_with-digit d b'-' ds digit (omega arith),
        starts_with-digit d b'+' ds digit (omega arith),
        e,
        fits,
        stoi,
      )
      refl

-- A port that is printed is read.
pub port_of-to_string : (n : ℕ) → n < 2 ^ 16 → port_of (to_string n) ≡ ok n
port_of-to_string n h =
    let (d, ds, e) = to_string-cons n in
    let digit : All IsDigit (d ∷ ds) = subst (All IsDigit) e (to_string-IsDigit n) in
    let read : stoi (to_string n) ≡ ok n =
      rw e (stoi-digits d n ds digit.0 h (rw (sym e) (decimal-to_string n h))) in
    rw (read, port_of) (ap ok (omega (arith, h)))
