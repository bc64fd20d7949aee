-- ===== src/Gate/Callers.antt =====
-- The constructor's checks, the manifest entries and the list of callers that may confirm.
pub mod Allowed
use vynkor_sdk_cpp.Base.{
  ℕ, ◌+◌, ◌-◌, ◌%◌, ◌^◌, Bool, true, false, not, ◌&&◌, ◌||◌, List, [], ◌∷◌, ◌++◌, length, take,
  drop, get_or, ltb, leb, ◌==◌, if◌then◌else◌, text_eq,
}
use vynkor_sdk_cpp.Base.Text.{Text, lit, starts_with, is_empty}
use vynkor_sdk_cpp.Error.{Result, ok, throws, invalid_argument, ◌>>=◌, ◌>>◌, throw_if}
use vynkor_sdk_cpp.Protocol.{ActionRisk, ActionSpec}

-- What the gate is constructed with, and the lifetime that `with_pending_ttl` overrides: the 64 bits of a number of
-- milliseconds with a sign.
pub record Config : Type 0 where
  pub op : Text
  pub description : Text
  pub params_schema : Text
  pub risk : ActionRisk
  pub confirm_callers : List Text
  pub pending_ttl : ℕ

abbrev pub default_pending_ttl : ℕ
default_pending_ttl = 300000

-- `isalnum` in the C locale, '-' or '_'.
abbrev pub is_op_char : ℕ → Bool
is_op_char c =
    (leb b'0' c && leb c b'9')
    || ((leb b'A' c && leb c b'Z') || ((leb b'a' c && leb c b'z') || ((c == b'-') || (c == b'_'))))

unfoldable pub all_op_chars : Text → Bool
all_op_chars [] = true
all_op_chars (c ∷ s) = is_op_char c && all_op_chars s

abbrev pub no_callers : List Text → Bool
no_callers [] = true
no_callers (c ∷ cs) = false

invalid : Text → Text
invalid why = lit "ConfirmationGate: " ++ why

unfoldable pub new_gate : Text → Text → Text → ActionRisk → List Text → Result Config
unfolding invalid
new_gate op description params_schema risk confirm_callers = do
  throw_if (is_empty op) (invalid_argument (invalid (lit "operation name must not be empty")))
  throw_if (not (all_op_chars op)) (
      invalid_argument
        (invalid (lit "operation name may only contain ASCII alphanumerics, '-' and '_'")))
  throw_if (starts_with op (lit "request_") || starts_with op (lit "confirm_")) (
      invalid_argument (
        invalid (
          lit
            "operation name must not start with request_/confirm_ (would collide with the gate's own action names)")))
  throw_if (is_empty description) (invalid_argument (invalid (lit "description must not be empty")))
  throw_if (no_callers confirm_callers) (
      invalid_argument
        (invalid (lit "confirm_callers must name at least one caller allowed to confirm")))
  ok (record {
    op = op;
    description = description;
    params_schema = params_schema;
    risk = risk;
    confirm_callers = confirm_callers;
    pending_ttl = default_pending_ttl;
  })

unfoldable pub with_pending_ttl : Config → ℕ → Config
with_pending_ttl gate ttl = record gate { pending_ttl = ttl % 2 ^ 64 }

unfoldable pub manifest_entries : Config → List Text × List ActionSpec
manifest_entries gate =
    let request = lit "request_" ++ gate.op in
    let confirm = lit "confirm_" ++ gate.op in
    (
      request ∷ confirm ∷ [],
      record {
        name = request;
        description =
            gate.description
            ++ lit
                " — requests execution; the operation only runs after an approved caller confirms (requires_confirmation).";
        params_schema = gate.params_schema;
        risk = gate.risk;
        requires_confirmation = true;
      }
          ∷ record {
            name = confirm;
            description =
                gate.description
                ++ lit
                    " — executes a previously requested operation; only approved callers may invoke.";
            params_schema =
                lit
                  "{\"type\":\"object\",\"properties\":{\"pending_id\":{\"type\":\"string\"}},\"required\":[\"pending_id\"]}";
            risk = gate.risk;
            requires_confirmation = false;
          }
          ∷ [],
    )

-- One entry of the list: `prefix.*` admits what continues the prefix by a dot, any other entry itself.
unfoldable pub entry_allows : Text → Text → Bool
entry_allows caller allowed =
    let cut = length allowed - 2 in
    let prefix = take cut allowed in
    if ltb 2 (length allowed) && text_eq (drop cut allowed) (b'.' ∷ b'*' ∷ [])
    then starts_with caller prefix
      && (ltb (length prefix) (length caller) && get_or caller (length prefix) 0 == b'.')
    else text_eq caller allowed

unfoldable pub any_allows : Text → List Text → Bool
any_allows caller [] = false
any_allows caller (allowed ∷ rest) = entry_allows caller allowed || any_allows caller rest

unfoldable pub may_confirm : Config → Text → Bool
may_confirm gate caller = any_allows caller gate.confirm_callers
