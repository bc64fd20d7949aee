-- ===== src/Gate/Pending.antt =====
-- The map of pending requests.
pub mod Laws
use vynkor_sdk_cpp.Base.{
  ℕ, ◌+◌, ◌-◌, ◌*◌, ◌%◌, ◌^◌, Bool, true, false, Option, none, some, List, [], ◌∷◌, ◌++◌, ◌||◌,
  length, leb, if◌then◌else◌, text_eq,
}
use vynkor_sdk_cpp.Base.Text.{Text, lit, to_string}
use vynkor_sdk_cpp.Mac.{Bytes}
use vynkor_sdk_cpp.Protocol.{ActionRequest}

pub record PendingAction : Type 0 where
  pub action : Text
  pub params : Bytes
  pub caller_plugin_id : Text
  pub created_at : ℕ

abbrev pub PendingMap : Type 0
PendingMap = List (Text × PendingAction)

-- What a call reads from outside: the steady clock at the sweep and at the creation of an entry, and
-- the wall clock in milliseconds.
pub record Clocks : Type 0 where
  pub steady : ℕ
  pub created : ℕ
  pub millis : ℕ

-- Whether these bits are a negative number of 64 bits.
abbrev pub is_negative : ℕ → Bool
is_negative bits = leb (2 ^ 63) bits

-- `now - created_at >= pending_ttl_`: the milliseconds are converted to nanoseconds of 64 bits with a sign, which
-- wrap around. The steady clock does not go back, and its times fit 63 bits.
unfoldable pub is_expired : ℕ → ℕ → PendingAction → Bool
is_expired ttl now p =
    let limit = ttl * 1000000 % 2 ^ 64 in is_negative limit || leb limit (now - p.created_at)

unfoldable pub sweep_expired : ℕ → ℕ → PendingMap → PendingMap
sweep_expired ttl now [] = []
sweep_expired ttl now ((id, p) ∷ m) =
    let rest = sweep_expired ttl now m in if is_expired ttl now p then rest else (id, p) ∷ rest

unfoldable pub find : Text → PendingMap → Option PendingAction
find id [] = none
find id ((j, p) ∷ m) = if text_eq j id then some p else find id m

unfoldable pub erase : Text → PendingMap → PendingMap
erase id [] = []
erase id ((j, p) ∷ m) = if text_eq j id then m else (j, p) ∷ erase id m

-- `std::map::emplace` keeps an entry that is there.
unfoldable pub emplace : Text → PendingAction → PendingMap → PendingMap
unfolding find
emplace id p m = elim (find id m) [ none ↦ (id, p) ∷ m | some old ↦ m ]

-- The process-wide counter: the value handed out, and the counter afterwards.
abbrev pub next_seq : ℕ → ℕ × ℕ
next_seq seq = (seq, (seq + 1) % 2 ^ 64)

abbrev pub pending_id : ℕ → ℕ → Text
pending_id millis seq = lit "pending-" ++ (to_string millis ++ (lit "-" ++ to_string seq))

-- The id, the map and the counter after the call.
unfoldable pub store_request : ℕ → Clocks → ℕ → PendingMap → ActionRequest → Text × PendingMap × ℕ
store_request ttl clocks seq m req =
    let swept = sweep_expired ttl clocks.steady m in
    let (n, seq') = next_seq seq in
    let id = pending_id clocks.millis n in
    let pending : PendingAction = record {
      action = req.action;
      params = req.params_json;
      caller_plugin_id = req.caller_plugin_id;
      created_at = clocks.created;
    } in
    (id, emplace id pending swept, seq')

unfoldable pub take_pending : ℕ → ℕ → PendingMap → Text → Option PendingAction × PendingMap
unfolding find
take_pending ttl now m id =
    let swept = sweep_expired ttl now m in
    elim (find id swept) [ none ↦ (none, swept) | some p ↦ (some p, erase id swept) ]

abbrev pub pending_count : PendingMap → ℕ
pending_count pending = length pending
