-- ===== src/Mcp/RateLimit/Tests.antt =====
-- Runs of the rate limiter, and its theorem at a concrete input.
use dailydraft_fun.Prelude.{ℕ, ◌+◌, ◌≡◌, refl, min, List, [], ◌∷◌, String, arith}
use dailydraft_fun.Js.Text.{text, text_eq}
use dailydraft_fun.Mcp.RateLimit.{
  Limiter, Entry, find_state, set_state, remove_expired, current_window, result_of, consume,
}
use dailydraft_fun.Mcp.RateLimit.Window.{Call, count_allowed, count_calls, count_allowed-window}

abbrev limiter : Limiter
limiter = record { limit = 2; window_ms = 60_000 }

abbrev call : String → ℕ → Call
call key now = record { key = text key; now = now }

abbrev calls : List Call
calls = call "b" 11 ∷ call "a" 30 ∷ call "a" 59_000 ∷ call "a" 60_009 ∷ []

-- A window of the key that ended before the calls.
abbrev entries : List Entry
entries = record { key = text "a"; state = record { count = 5; reset_at = 10 } } ∷ []

calls-run : count_allowed limiter (text "a") (call "a" 10 ∷ calls) entries ≡ 2
unfolding count_allowed consume find_state set_state remove_expired current_window result_of text_eq
calls-run = refl

count_allowed-window_example :
    count_allowed limiter (text "a") (call "a" 10 ∷ calls) entries
    ≡ min (count_calls (text "a") calls + 1) 2
count_allowed-window_example =
    count_allowed-window limiter (text "a") 10 calls entries ((λ _. omega arith), tt)
      (omega arith, (omega arith, (omega arith, (omega arith, tt))))
