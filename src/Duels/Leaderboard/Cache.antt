-- ===== src/Duels/Leaderboard/Cache.antt =====
-- apps/api/src/duels/public-duel-leaderboard.ts: `PublicDuelLeaderboardCache`. A promise is the number of
-- its load; an entry object is told by its promise, since each has its own.
pub mod Fresh
use dailydraft_fun.Prelude.{ℕ, ◌+◌, Bool, true, false, Option, none, some, ltb, ◌==◌, if◌then◌else◌}

-- `LEADERBOARD_SNAPSHOT_TTL_MS`
abbrev pub snapshot_ttl_ms : ℕ
snapshot_ttl_ms = 30_000

-- `LeaderboardCacheEntry`
pub record CacheEntry : Type 0 where
  pub expires_at : Option ℕ
  pub snapshot : ℕ

-- `entry.expiresAt === null || entry.expiresAt > now`
abbrev pub is_live : ℕ → Option ℕ → Bool
is_live now none = true
is_live now (some t) = ltb now t

abbrev pub new_entry : ℕ → CacheEntry
new_entry load = record { expires_at = none; snapshot = load }

-- `get`: the promise that it returns, and the entry that it leaves; `load` is the promise it would start.
unfoldable pub get_snapshot : ℕ → ℕ → Option CacheEntry → ℕ × Option CacheEntry
get_snapshot now load none = (load, some (new_entry load))
get_snapshot now load (some e) =
    if is_live now e.expires_at then (e.snapshot, some e) else (load, some (new_entry load))

-- What runs when a promise is fulfilled.
unfoldable pub on_loaded : ℕ → ℕ → ℕ → Option CacheEntry → Option CacheEntry
on_loaded ttl now load none = none
on_loaded ttl now load (some e) =
    if e.snapshot == load then some (record e { expires_at = some (now + ttl) }) else some e

-- What runs when a promise is rejected.
unfoldable pub on_rejected : ℕ → Option CacheEntry → Option CacheEntry
on_rejected load none = none
on_rejected load (some e) = if e.snapshot == load then none else some e
