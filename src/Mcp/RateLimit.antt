-- ===== src/Mcp/RateLimit.antt =====
-- apps/mcp/src/rate-limit.ts: `FixedWindowRateLimiter`. The map of windows is an association list.
pub mod Window
pub mod Tests
use dailydraft_fun.Prelude.{
  ℕ, ◌+◌, ◌-◌, ◌/◌, Bool, true, false, Option, none, some, List, [], ◌∷◌, max, ltb, leb,
  if◌then◌else◌, length, select,
}
use dailydraft_fun.Js.Text.{Text, text_eq}

pub record RateLimitResult : Type 0 where
  pub allowed : Bool
  pub limit : ℕ
  pub remaining : ℕ
  pub retry_after_seconds : ℕ

pub record WindowState : Type 0 where
  pub count : ℕ
  pub reset_at : ℕ

pub record Limiter : Type 0 where
  pub limit : ℕ
  pub window_ms : ℕ

pub record Entry : Type 0 where
  pub key : Text
  pub state : WindowState

-- `Map.get`
unfoldable pub find_state : Text → List Entry → Option WindowState
find_state key [] = none
find_state key (e ∷ es) = if text_eq e.key key then some e.state else find_state key es

-- `Map.set`
unfoldable pub set_state : Text → WindowState → List Entry → List Entry
set_state key state [] = record { key = key; state = state } ∷ []
set_state key state (e ∷ es) =
    if text_eq e.key key
    then record { key = e.key; state = state } ∷ es
    else e ∷ set_state key state es

-- `#removeExpired`
unfoldable pub remove_expired : ℕ → List Entry → List Entry
remove_expired now entries =
    if ltb (length entries) 1_000 then entries else select (λ e. ltb now e.state.reset_at) entries

-- The window that a call counts in, before it is counted.
unfoldable pub current_window : Limiter → ℕ → Option WindowState → WindowState
current_window l now none = record { count = 0; reset_at = now + l.window_ms }
current_window l now (some s) =
    if leb s.reset_at now then record { count = 0; reset_at = now + l.window_ms } else s

unfoldable pub result_of : Limiter → ℕ → WindowState → RateLimitResult
result_of l now s = record {
  allowed = leb s.count l.limit;
  limit = l.limit;
  remaining = l.limit - s.count;
  retry_after_seconds = max 1 ((s.reset_at - now + 999) / 1_000);
}

-- `consume`
unfoldable pub consume : Limiter → Text → ℕ → List Entry → RateLimitResult × List Entry
unfolding find_state set_state remove_expired current_window result_of
consume l key now entries =
    let live = remove_expired now entries in
    let window = current_window l now (find_state key live) in
    let state : WindowState = record { count = window.count + 1; reset_at = window.reset_at } in
    (result_of l now state, set_state key state live)
