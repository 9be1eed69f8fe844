-- ===== src/Mcp/RateLimit/Window.antt =====
-- How many calls of one key a window allows, whatever other keys do meanwhile.
use dailydraft_fun.Prelude.{
  ℕ, ◌+◌, ◌-◌, ◌≤◌, ◌<◌, ◌≡◌, refl, ◌∙◌, Bool, true, false, inl, inr, Option, none, some, List, [],
  ◌∷◌, min, arith, ltb, leb, if◌then◌else◌, Bool-cases, All, length, select,
}
use dailydraft_fun.Js.Text.{Text, text_eq, text_eq_iff, text_eq_refl}
use dailydraft_fun.Mcp.RateLimit.{
  WindowState, Limiter, Entry, find_state, set_state, remove_expired, current_window, result_of,
  consume,
}

-- A call of `consume`: its key and its time.
pub record Call : Type 0 where
  pub key : Text
  pub now : ℕ

-- The calls of a key that are allowed, and all calls of it.
unfoldable pub count_allowed : Limiter → Text → List Call → List Entry → ℕ
count_allowed l key [] entries = 0
count_allowed l key (c ∷ cs) entries =
    let (result, entries') = consume l c.key c.now entries in
    let rest = count_allowed l key cs entries' in
    if text_eq c.key key then (if result.allowed then rest + 1 else rest) else rest

unfoldable pub count_calls : Text → List Call → ℕ
count_calls key [] = 0
count_calls key (c ∷ cs) =
    let rest = count_calls key cs in if text_eq c.key key then rest + 1 else rest

-- A live window survives the removal of expired ones.
find_state-select :
    (key : Text) (now : ℕ) (entries : List Entry) {s : WindowState}
    → find_state key entries ≡ some s
    → now < s.reset_at
    → find_state key (select (λ e. ltb now e.state.reset_at) entries) ≡ some s
unfolding find_state
find_state-select key now [] h live = cc
find_state-select key now (e ∷ es) {s} h live = elim (Bool-cases (ltb now e.state.reset_at)) [
  | inl kept ↦
      rw kept
        (ground (arith, λ (k : find_state key es ≡ some s). find_state-select key now es k live))
  | inr dropped ↦ rw dropped (find_state-select key now es (ground (arith, h, live, dropped)) live)
]

find_state-remove_expired :
    (key : Text) (now : ℕ) (entries : List Entry) {s : WindowState}
    → find_state key entries ≡ some s
    → now < s.reset_at
    → find_state key (remove_expired now entries) ≡ some s
unfolding remove_expired
find_state-remove_expired key now entries h live =
    ground (arith, find_state-select key now entries h live)

-- A write reaches its own key and no other.
find_state-set_state :
    (key written : Text) (s : WindowState) (entries : List Entry)
    → find_state key (set_state written s entries)
      ≡ (if text_eq written key then some s else find_state key entries)
unfolding find_state set_state
find_state-set_state key written s [] = refl
find_state-set_state key written s (e ∷ es) = ground (
  arith,
  find_state-set_state key written s es,
  text_eq_iff e.key written,
  text_eq_iff e.key key,
  text_eq_iff written key,
)

-- The window after one more call.
abbrev pub counted : WindowState → WindowState
counted s = record { count = s.count + 1; reset_at = s.reset_at }

consume-own :
    (l : Limiter) (key : Text) (now : ℕ) (entries : List Entry) (s : WindowState)
    → find_state key entries ≡ some s
    → now < s.reset_at
    → ((consume l key now entries).0.allowed ≡ leb (s.count + 1) l.limit)
      × (find_state key (consume l key now entries).1 ≡ some (counted s))
unfolding consume result_of current_window
consume-own l key now entries s h live =
    let kept = find_state-remove_expired key now entries h live in
    let still : leb s.reset_at now ≡ false = ground (arith, live) in
    rw (kept, still) (refl, find_state-set_state key key _ _ ∙ rw (text_eq_refl key) refl)

consume-other :
    (l : Limiter) (key other : Text) (now : ℕ) (entries : List Entry) (s : WindowState)
    → find_state key entries ≡ some s
    → now < s.reset_at
    → text_eq other key ≡ false
    → find_state key (consume l other now entries).1 ≡ some s
unfolding consume
consume-other l key other now entries s h live differs =
    find_state-set_state key other _ (remove_expired now entries)
    ∙ rw differs (find_state-remove_expired key now entries h live)

-- While the window of a key is live, the calls of it that are allowed are as many as there are, up to
-- what is left of the limit, whatever calls of other keys come between.
pub count_allowed-live :
    (l : Limiter) (key : Text) (cs : List Call) (entries : List Entry) (s : WindowState)
    → find_state key entries ≡ some s
    → All (λ c. c.now < s.reset_at) cs
    → count_allowed l key cs entries ≡ min (count_calls key cs) (l.limit - s.count)
unfolding count_allowed count_calls
count_allowed-live l key [] entries s h early = omega arith
count_allowed-live l key (c ∷ cs) entries s h early = elim (Bool-cases (text_eq c.key key)) [
  | inl own ↦
      let same : c.key ≡ key = (text_eq_iff c.key key).0 own in
      let (allows, next) = consume-own l key c.now entries s h early.0 in
      let rest =
        count_allowed-live l key cs (consume l key c.now entries).1 (counted s) next early.1 in
      rw (same, text_eq_refl key, allows, rest) (ground arith)
  | inr other ↦ rw other (
      count_allowed-live l key cs (consume l c.key c.now entries).1 s
        (consume-other l key c.key c.now entries s h early.0 other) early.1)
]

-- No window of the key is live.
abbrev pub IsIdle : Text → ℕ → List Entry → Type 0
IsIdle key now entries = All (λ e. text_eq e.key key ≡ true → e.state.reset_at ≤ now) entries

IsIdle-select :
    (key : Text) (now : ℕ) (p : Entry → Bool) (entries : List Entry)
    → IsIdle key now entries
    → IsIdle key now (select p entries)
IsIdle-select key now p [] idle = tt
IsIdle-select key now p (e ∷ es) idle = elim (Bool-cases (p e)) [
  | inl kept ↦ rw kept (idle.0, IsIdle-select key now p es idle.1)
  | inr dropped ↦ rw dropped (IsIdle-select key now p es idle.1)
]

IsIdle-remove_expired :
    (key : Text) (now : ℕ) (entries : List Entry)
    → IsIdle key now entries
    → IsIdle key now (remove_expired now entries)
unfolding remove_expired
IsIdle-remove_expired key now entries idle = elim (Bool-cases (ltb (length entries) 1_000)) [
  | inl small ↦ rw small idle
  | inr large ↦ rw large (IsIdle-select key now (λ e. ltb now e.state.reset_at) entries idle)
]

find_state-IsIdle :
    (key : Text) (now : ℕ) (entries : List Entry) {s : WindowState}
    → IsIdle key now entries
    → find_state key entries ≡ some s
    → s.reset_at ≤ now
unfolding find_state
find_state-IsIdle key now [] idle h = cc
find_state-IsIdle key now (e ∷ es) {s} idle h =
    let later : find_state key es ≡ some s → s.reset_at ≤ now =
      find_state-IsIdle key now es idle.1 in
    ground (arith, idle.0, later, h)

current_window-idle :
    (l : Limiter) (now : ℕ) (o : Option WindowState)
    → ((s : WindowState) → o ≡ some s → s.reset_at ≤ now)
    → current_window l now o ≡ record { count = 0; reset_at = now + l.window_ms }
unfolding current_window
current_window-idle l now none h = refl
current_window-idle l now (some s) h =
    let over : leb s.reset_at now ≡ true = ground (arith, h s refl) in rw over refl

consume-first :
    (l : Limiter) (key : Text) (now : ℕ) (entries : List Entry)
    → IsIdle key now entries
    → ((consume l key now entries).0.allowed ≡ leb 1 l.limit)
      × (find_state key (consume l key now entries).1
          ≡ some (record { count = 1; reset_at = now + l.window_ms }))
unfolding consume result_of
consume-first l key now entries idle =
    let fresh =
      current_window-idle l now (find_state key (remove_expired now entries))
        (λ s e. find_state-IsIdle key now _ (IsIdle-remove_expired key now entries idle) e) in
    rw fresh (refl, find_state-set_state key key _ _ ∙ rw (text_eq_refl key) refl)

-- A call of a key that has no live window opens one. Of that call and all calls of the key before the
-- window ends as many are allowed as there are, up to the limit, whatever calls of other keys come
-- between.
pub count_allowed-window :
    (l : Limiter) (key : Text) (now : ℕ) (cs : List Call) (entries : List Entry)
    → IsIdle key now entries
    → All (λ c. c.now < now + l.window_ms) cs
    → count_allowed l key (record { key = key; now = now } ∷ cs) entries
      ≡ min (count_calls key cs + 1) l.limit
unfolding count_allowed
count_allowed-window l key now cs entries idle early =
    let (allows, opened) = consume-first l key now entries idle in
    let rest = count_allowed-live l key cs (consume l key now entries).1 _ opened early in
    rw (text_eq_refl key, allows, rest) (ground arith)
