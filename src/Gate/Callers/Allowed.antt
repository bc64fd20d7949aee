-- ===== src/Gate/Callers/Allowed.antt =====
-- Whom the list of confirming callers admits.
use vynkor_sdk_cpp.Base.{
  ◌-◌, ◌<◌, ◌≡◌, ◌≢◌, ◌⊎◌, ◌↔◌, inl, inr, refl, ap, sym, ◌∙◌, arith, Bool, true, ◌&&◌, List, [],
  ◌∷◌, ◌++◌, length, take, drop, get_or, ltb, ◌==◌, if◌then◌else◌, text_eq, text_eq_iff, Bool-cases,
  take-append-drop, take_append, drop_append, length-append, length-take, text_eq_refl,
  text_eq_sound, lt→ltb,
}
use mathlib.Core.Bool.{false≢true}
use vynkor_sdk_cpp.Base.Text.{Text, starts_with}
use vynkor_sdk_cpp.Gate.Callers.{Config, entry_allows, any_allows, may_confirm}

abbrev pub glob : Text
glob = b'.' ∷ b'*' ∷ []

-- An entry `prefix.*`, with a prefix.
abbrev pub IsGlob : Text → Text → Type 0
IsGlob prefix allowed = (prefix ≢ []) × (allowed ≡ prefix ++ glob)

-- A glob admits the ids that continue its prefix by a dot; any other entry admits itself.
abbrev pub Admits : Text → Text → Type 0
Admits caller allowed =
    ((prefix : Text) × (rest : Text) × IsGlob prefix allowed × (caller ≡ prefix ++ (b'.' ∷ rest)))
    ⊎ ((caller ≡ allowed) × ((prefix : Text) → ¬ IsGlob prefix allowed))

-- Some entry of the list admits the caller.
abbrev pub SomeAdmits : Text → List Text → Type 0
SomeAdmits caller [] = ⊥
SomeAdmits caller (allowed ∷ rest) = Admits caller allowed ⊎ SomeAdmits caller rest

is_glob : Text → Bool
is_glob allowed = ltb 2 (length allowed) && text_eq (drop (length allowed - 2) allowed) glob

is_glob_sound :
    (allowed : Text) → is_glob allowed ≡ true → IsGlob (take (length allowed - 2) allowed) allowed
unfolding is_glob
is_glob_sound allowed h =
    let long : 2 < length allowed = ground arith in
    let cut = length allowed - 2 in
    let tail : drop cut allowed ≡ glob =
      (text_eq_iff (drop cut allowed) glob).0 (ground (arith, h)) in
    (
      λ e. absurd (omega (arith, ap length e, length-take cut allowed)),
      sym (take-append-drop cut allowed) ∙ ap (◌++◌ (take cut allowed)) tail,
    )

cut_prefix : (prefix : Text) → length (prefix ++ glob) - 2 ≡ length prefix
cut_prefix prefix = omega (arith, length-append prefix glob)

take_prefix : (prefix : Text) → take (length (prefix ++ glob) - 2) (prefix ++ glob) ≡ prefix
take_prefix prefix = rw (cut_prefix prefix) (take_append (length prefix) prefix glob refl)

is_glob_complete : (prefix allowed : Text) → IsGlob prefix allowed → is_glob allowed ≡ true
unfolding is_glob
is_glob_complete [] allowed (ne, e) = absurd (ne refl)
is_glob_complete (c ∷ prefix) allowed (ne, e) =
    let whole = c ∷ prefix in
    let long : ltb 2 (length (whole ++ glob)) ≡ true =
      lt→ltb _ _ (omega (arith, length-append whole glob)) in
    rw (e, long, cut_prefix whole, drop_append (length whole) whole glob refl) (text_eq_refl glob)

-- What a glob's test asks of the caller.
continues : Text → Text → Bool
continues caller prefix =
    starts_with caller prefix
    && (ltb (length prefix) (length caller) && get_or caller (length prefix) 0 == b'.')

continues_sound :
    (caller prefix : Text)
    → continues caller prefix ≡ true
    → (rest : Text) × (caller ≡ prefix ++ (b'.' ∷ rest))
unfolding continues starts_with
continues_sound [] [] h = cc
continues_sound (c ∷ caller) [] h = (caller, ground (arith, h))
continues_sound [] (p ∷ prefix) h = cc
continues_sound (c ∷ caller) (p ∷ prefix) h =
    let (rest, e) = continues_sound caller prefix (ground (arith, h)) in
    (rest, ground (arith, h, e))

continues_complete : (prefix rest : Text) → continues (prefix ++ (b'.' ∷ rest)) prefix ≡ true
unfolding continues starts_with
continues_complete [] rest = ground arith
continues_complete (p ∷ prefix) rest = ground (arith, continues_complete prefix rest)

entry_allows_lem :
    (caller allowed : Text)
    → entry_allows caller allowed ≡ (
        if is_glob allowed
        then continues caller (take (length allowed - 2) allowed)
        else text_eq caller allowed)
unfolding entry_allows is_glob continues
entry_allows_lem caller allowed = refl

entry_allows_iff :
    (caller allowed : Text) → (entry_allows caller allowed ≡ true) ↔ Admits caller allowed
entry_allows_iff caller allowed = (sound, complete)
  where
    sound : entry_allows caller allowed ≡ true → Admits caller allowed
    sound h = elim (Bool-cases (is_glob allowed)) [
      | inl g ↦
          let (rest, e) = continues_sound caller _ (rw (entry_allows_lem caller allowed, g) at h) in
          inl (take (length allowed - 2) allowed, rest, is_glob_sound allowed g, e)
      | inr f ↦ inr (
        text_eq_sound caller allowed (rw (entry_allows_lem caller allowed, f) at h),
        λ prefix g. false≢true (sym f ∙ is_glob_complete prefix allowed g),
      )
    ]

    complete : Admits caller allowed → entry_allows caller allowed ≡ true
    complete (inl (prefix, rest, g, e)) =
        rw
          (
            entry_allows_lem caller allowed,
            is_glob_complete prefix allowed g,
            g.1,
            take_prefix prefix,
            e,
          )
          (continues_complete prefix rest)
    complete (inr (e, other)) = elim (Bool-cases (is_glob allowed)) [
      | inl g ↦ absurd (other _ (is_glob_sound allowed g))
      | inr f ↦ rw (entry_allows_lem caller allowed, f, e) (text_eq_refl allowed)
    ]

any_allows_sound :
    (caller : Text) (l : List Text) → any_allows caller l ≡ true → SomeAdmits caller l
unfolding any_allows
any_allows_sound caller [] h = cc
any_allows_sound caller (a ∷ l) h = elim (Bool-cases (entry_allows caller a)) [
  | inl e ↦ inl ((entry_allows_iff caller a).0 e)
  | inr f ↦ inr (any_allows_sound caller l (ground (arith, h, f)))
]

any_allows_complete :
    (caller : Text) (l : List Text) → SomeAdmits caller l → any_allows caller l ≡ true
unfolding any_allows
any_allows_complete caller [] h = absurd h
any_allows_complete caller (a ∷ l) (inl e) = ground (arith, (entry_allows_iff caller a).1 e)
any_allows_complete caller (a ∷ l) (inr r) = ground (arith, any_allows_complete caller l r)

-- A caller may confirm exactly if some entry of the list admits it: an entry `prefix.*` with a
-- non-empty prefix admits the ids `prefix.rest` (so neither `prefix` nor `prefix0.rest`), and any other
-- entry admits only itself.
pub may_confirm_iff :
    (gate : Config) (caller : Text)
    → (may_confirm gate caller ≡ true) ↔ SomeAdmits caller gate.confirm_callers
unfolding may_confirm
may_confirm_iff gate caller =
    (any_allows_sound caller gate.confirm_callers, any_allows_complete caller gate.confirm_callers)
