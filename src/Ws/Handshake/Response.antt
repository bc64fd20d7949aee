-- ===== src/Ws/Handshake/Response.antt =====
-- src/ws.cpp, `WsConnection::connect`: the tests of the response's head, read as statements on its text.
use vynkor_sdk_cpp.Base.{
  ℕ, ◌+◌, ◌≤◌, ◌≡◌, ◌⊎◌, ◌↔◌, inl, inr, refl, ap, arith, Bool, true, ◌&&◌, [], ◌∷◌, ◌++◌, ◌==◌,
  Bool-cases, text_eq, text_eq_iff,
}
use vynkor_sdk_cpp.Base.Text.{Text, lit, starts_with, starts_with_sound, starts_with-append}
use vynkor_sdk_cpp.Ws.Handshake.{to_lower, iequal, contains, status_fits, is_upgrade, is_accept}

-- The same letter, small or capital.
abbrev pub AreAlike : ℕ → ℕ → Type 0
AreAlike a b =
    (a ≡ b) ⊎ (((b'A' ≤ a) × (a ≤ b'Z') × (b ≡ a + 32)) ⊎ ((b'A' ≤ b) × (b ≤ b'Z') × (a ≡ b + 32)))

-- The same text but for small and capital letters.
abbrev pub IsSameWord : Text → Text → Type 0
IsSameWord [] [] = Unit {0}
IsSameWord [] (c ∷ t) = ⊥
IsSameWord (b ∷ s) [] = ⊥
IsSameWord (b ∷ s) (c ∷ t) = AreAlike b c × IsSameWord s t

alike_sound : (a b : ℕ) → (to_lower a == to_lower b) ≡ true → AreAlike a b
alike_sound a b h = ground (arith, h)

alike_complete : (a b : ℕ) → AreAlike a b → (to_lower a == to_lower b) ≡ true
alike_complete a b (inl same) = ground (arith, same)
alike_complete a b (inr (inl (low, high, same))) = ground (arith, low, high, same)
alike_complete a b (inr (inr (low, high, same))) = ground (arith, low, high, same)

&&-true : (a b : Bool) → a && b ≡ true → (a ≡ true) × (b ≡ true)
&&-true a b h = ground (arith, h)

pub iequal_sound : (s t : Text) → iequal s t ≡ true → IsSameWord s t
unfolding iequal
iequal_sound [] [] h = tt
iequal_sound [] (c ∷ t) h = cc h
iequal_sound (b ∷ s) [] h = cc h
iequal_sound (b ∷ s) (c ∷ t) h =
    let (first, more) = &&-true (to_lower b == to_lower c) (iequal s t) h in
    (alike_sound b c first, iequal_sound s t more)

iequal_complete : (s t : Text) → IsSameWord s t → iequal s t ≡ true
unfolding iequal
iequal_complete [] [] h = refl
iequal_complete [] (c ∷ t) h = absurd h
iequal_complete (b ∷ s) [] h = absurd h
iequal_complete (b ∷ s) (c ∷ t) (first, more) =
    rw (alike_complete b c first) (iequal_complete s t more)

-- The header of the upgrade.
abbrev pub IsUpgradeHeader : Text × Text → Type 0
IsUpgradeHeader (name, value) = IsSameWord name (lit "upgrade") × IsSameWord value (lit "websocket")

-- The header of the accept value, with just this value.
abbrev pub IsAcceptHeader : Text → Text × Text → Type 0
IsAcceptHeader expected (name, value) =
    IsSameWord name (lit "sec-websocket-accept") × (value ≡ expected)

pub is_upgrade_iff : (header : Text × Text) → (is_upgrade header ≡ true) ↔ IsUpgradeHeader header
is_upgrade_iff (name, value) = (
  λ h.
      let (named, valued) =
        &&-true (iequal name (lit "upgrade")) (iequal value (lit "websocket")) h in
      (iequal_sound name (lit "upgrade") named, iequal_sound value (lit "websocket") valued),
  λ (named, valued).
      rw (iequal_complete name (lit "upgrade") named)
        (iequal_complete value (lit "websocket") valued),
)

pub is_accept_iff :
    (expected : Text) (header : Text × Text)
    → (is_accept expected header ≡ true) ↔ IsAcceptHeader expected header
is_accept_iff expected (name, value) = (
  λ h.
      let (named, valued) =
        &&-true (iequal name (lit "sec-websocket-accept")) (text_eq value expected) h in
      (iequal_sound name (lit "sec-websocket-accept") named, (text_eq_iff value expected).0 valued),
  λ (named, valued).
      rw (iequal_complete name (lit "sec-websocket-accept") named)
        ((text_eq_iff value expected).1 valued),
)

contains_sound :
    (s needle : Text)
    → contains s needle ≡ true
    → (before : Text) × (after : Text) × (s ≡ before ++ (needle ++ after))
unfolding contains
contains_sound [] needle h = let (rest, e) = starts_with_sound [] needle h in ([], rest, e)
contains_sound (c ∷ s) needle h = elim (Bool-cases (starts_with (c ∷ s) needle)) [
  | inl here ↦ let (rest, e) = starts_with_sound (c ∷ s) needle here in ([], rest, e)
  | inr not_here ↦
      let (before, after, e) = contains_sound s needle (ground (arith, h, not_here)) in
      (c ∷ before, after, ap (λ t. c ∷ t) e)
]

starts_with-contains : (s needle : Text) → starts_with s needle ≡ true → contains s needle ≡ true
unfolding contains
starts_with-contains [] needle h = h
starts_with-contains (c ∷ s) needle h = rw h refl

contains_complete :
    (before needle after : Text) → contains (before ++ (needle ++ after)) needle ≡ true
unfolding contains
contains_complete [] needle after =
    starts_with-contains (needle ++ after) needle (starts_with-append needle after)
contains_complete (c ∷ before) needle after = ground (arith, contains_complete before needle after)

-- A status line with the status 101.
abbrev pub IsSwitching : Text → Type 0
IsSwitching line =
    ((before : Text) × (after : Text) × (line ≡ before ++ (lit " 101 " ++ after)))
    ⊎ ((rest : Text) × (line ≡ lit "HTTP/1.1 101" ++ rest))

pub status_fits_sound : (line : Text) → status_fits line ≡ true → IsSwitching line
status_fits_sound line h = elim (Bool-cases (contains line (lit " 101 "))) [
  | inl inside ↦ inl (contains_sound line (lit " 101 ") inside)
  | inr without ↦ inr (starts_with_sound line (lit "HTTP/1.1 101") (ground (arith, h, without)))
]

pub status_fits_complete : (line : Text) → IsSwitching line → status_fits line ≡ true
status_fits_complete line (inl (before, after, e)) =
    let inside : contains line (lit " 101 ") ≡ true =
      rw e (contains_complete before (lit " 101 ") after) in
    rw inside refl
status_fits_complete line (inr (rest, e)) =
    let front : starts_with line (lit "HTTP/1.1 101") ≡ true =
      rw e (starts_with-append (lit "HTTP/1.1 101") rest) in
    ground (arith, front)
