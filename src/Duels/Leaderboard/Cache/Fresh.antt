-- ===== src/Duels/Leaderboard/Cache/Fresh.antt =====
-- The leaderboard cache over any sequence of requests and of loads that end.
use dailydraft_fun.Prelude.{
  ℕ, ◌+◌, ◌≤◌, ◌<◌, ◌≡◌, ◌≢◌, refl, ◌⊎◌, inl, inr, Option, none, some, List, [], ◌∷◌, arith, All,
  All-both, ltb, ◌==◌, Bool-cases,
}
use dailydraft_fun.Duels.Leaderboard.Cache.{
  CacheEntry, is_live, get_snapshot, on_loaded, on_rejected,
}

-- A load that ended well, and when.
pub record Load : Type 0 where
  pub load : ℕ
  pub time : ℕ

-- The cache, the loads that ended well, the ones that were rejected, and how many were started.
pub record State : Type 0 where
  pub entry : Option CacheEntry
  pub loads : List Load
  pub rejections : List ℕ
  pub started : ℕ

abbrev pub WasLoaded : ℕ → ℕ → List Load → Type 0
WasLoaded load time [] = ⊥
WasLoaded load time (l ∷ ls) = ((l.load ≡ load) × (l.time ≡ time)) ⊎ WasLoaded load time ls

abbrev pub NeverLoaded : ℕ → List Load → Type 0
NeverLoaded load ls = All (λ l. l.load ≢ load) ls

abbrev pub NeverRejected : ℕ → List ℕ → Type 0
NeverRejected load rs = All (λ r. r ≢ load) rs

-- A request that starts a load takes the next number.
abbrev pub after_get : ℕ → State → State
after_get now s =
    let (_, entry) = get_snapshot now s.started s.entry in
    record s { entry = entry; started = s.started + 1 }

abbrev pub after_load : ℕ → ℕ → ℕ → State → State
after_load ttl now load s = record s {
  entry = on_loaded ttl now load s.entry;
  loads = record { load = load; time = now } ∷ s.loads;
}

abbrev pub after_rejection : ℕ → State → State
after_rejection load s = record s {
  entry = on_rejected load s.entry;
  rejections = load ∷ s.rejections;
}

abbrev pub empty_cache : State
empty_cache = record { entry = none; loads = []; rejections = []; started = 0 }

-- The states that any requests and ends of started loads lead to, at any times.
pub data Reached (ttl : ℕ) : State → Type 0 where
  at_start : Reached ttl empty_cache
  requested : (now : ℕ) {s : State} → Reached ttl s → Reached ttl (after_get now s)
  fulfilled :
      (now load : ℕ) {s : State}
      → load < s.started
      → Reached ttl s
      → Reached ttl (after_load ttl now load s)
  rejected :
      (load : ℕ) {s : State}
      → load < s.started
      → Reached ttl s
      → Reached ttl (after_rejection load s)

-- What an entry may promise.
abbrev IsEntry : ℕ → List Load → Option ℕ → ℕ → Type 0
IsEntry ttl loads none load = NeverLoaded load loads
IsEntry ttl loads (some t) load = (time : ℕ) × WasLoaded load time loads × (t ≡ time + ttl)

abbrev IsCache : ℕ → List Load → ℕ → Option CacheEntry → Type 0
IsCache ttl loads started none = Unit
IsCache ttl loads started (some e) =
    (e.snapshot < started) × IsEntry ttl loads e.expires_at e.snapshot

-- The load of the entry was not rejected.
abbrev IsUnrejected : List ℕ → Option CacheEntry → Type 0
IsUnrejected rs none = Unit
IsUnrejected rs (some e) = NeverRejected e.snapshot rs

record IsSound (ttl : ℕ) (s : State) : Type 0 where
  known : All (λ l. l.load < s.started) s.loads
  seen : All (λ r. r < s.started) s.rejections
  unrejected : IsUnrejected s.rejections s.entry
  entry : IsCache ttl s.loads s.started s.entry

known-suc : (n : ℕ) (ls : List Load) → All (λ l. l.load < n) ls → All (λ l. l.load < n + 1) ls
known-suc n ls all =
    All-both (λ l. l.load < n) (λ l. l.load < n) (λ l. l.load < n + 1) ls
      (λ l h _. omega (arith, h)) all all

known-NeverLoaded : (n : ℕ) (ls : List Load) → All (λ l. l.load < n) ls → NeverLoaded n ls
known-NeverLoaded n ls all =
    All-both (λ l. l.load < n) (λ l. l.load < n) (λ l. l.load ≢ n) ls (λ l h _. omega (arith, h))
      all all

get_snapshot-IsCache :
    (ttl now n : ℕ) (ls : List Load) (o : Option CacheEntry)
    → All (λ l. l.load < n) ls
    → IsCache ttl ls n o
    → IsCache ttl ls (n + 1) (get_snapshot now n o).1
unfolding get_snapshot
get_snapshot-IsCache ttl now n ls none known cache = (omega arith, known-NeverLoaded n ls known)
get_snapshot-IsCache ttl now n ls (some e) known cache =
    elim (Bool-cases (is_live now e.expires_at)) [
      | inl live ↦ rw live (omega (arith, cache.0), cache.1)
      | inr dead ↦ rw dead (omega arith, known-NeverLoaded n ls known)
    ]

IsEntry-later :
    (ttl : ℕ) (l : Load) (ls : List Load) (x : Option ℕ) (load : ℕ)
    → l.load ≢ load
    → IsEntry ttl ls x load
    → IsEntry ttl (l ∷ ls) x load
IsEntry-later ttl l ls none load other never = (other, never)
IsEntry-later ttl l ls (some t) load other (time, was, e) = (time, inr was, e)

on_loaded-IsCache :
    (ttl now load n : ℕ) (ls : List Load) (o : Option CacheEntry)
    → IsCache ttl ls n o
    → IsCache ttl (record { load = load; time = now } ∷ ls) n (on_loaded ttl now load o)
unfolding on_loaded
on_loaded-IsCache ttl now load n ls none cache = tt
on_loaded-IsCache ttl now load n ls (some e) cache = elim (Bool-cases (e.snapshot == load)) [
  | inl own ↦ rw own (cache.0, (now, inl (ground arith, refl), refl))
  | inr other ↦ rw other (
    cache.0,
    IsEntry-later ttl (record { load = load; time = now }) ls e.expires_at e.snapshot (ground arith)
        cache.1,
  )
]

on_rejected-IsCache :
    (ttl load n : ℕ) (ls : List Load) (o : Option CacheEntry)
    → IsCache ttl ls n o
    → IsCache ttl ls n (on_rejected load o)
unfolding on_rejected
on_rejected-IsCache ttl load n ls none cache = tt
on_rejected-IsCache ttl load n ls (some e) cache = elim (Bool-cases (e.snapshot == load)) [
  | inl own ↦ rw own tt
  | inr other ↦ rw other cache
]

seen-suc : (n : ℕ) (rs : List ℕ) → All (λ r. r < n) rs → All (λ r. r < n + 1) rs
seen-suc n [] all = tt
seen-suc n (r ∷ rs) (h, all) = (omega (arith, h), seen-suc n rs all)

seen-NeverRejected : (n : ℕ) (rs : List ℕ) → All (λ r. r < n) rs → NeverRejected n rs
seen-NeverRejected n [] all = tt
seen-NeverRejected n (r ∷ rs) (h, all) = (omega (arith, h), seen-NeverRejected n rs all)

get_snapshot-IsUnrejected :
    (now n : ℕ) (rs : List ℕ) (o : Option CacheEntry)
    → All (λ r. r < n) rs
    → IsUnrejected rs o
    → IsUnrejected rs (get_snapshot now n o).1
unfolding get_snapshot
get_snapshot-IsUnrejected now n rs none seen fine = seen-NeverRejected n rs seen
get_snapshot-IsUnrejected now n rs (some e) seen fine =
    elim (Bool-cases (is_live now e.expires_at)) [
      | inl live ↦ rw live fine
      | inr dead ↦ rw dead (seen-NeverRejected n rs seen)
    ]

on_loaded-IsUnrejected :
    (ttl now load : ℕ) (rs : List ℕ) (o : Option CacheEntry)
    → IsUnrejected rs o
    → IsUnrejected rs (on_loaded ttl now load o)
unfolding on_loaded
on_loaded-IsUnrejected ttl now load rs none fine = tt
on_loaded-IsUnrejected ttl now load rs (some e) fine = elim (Bool-cases (e.snapshot == load)) [
  | inl own ↦ rw own fine
  | inr other ↦ rw other fine
]

-- A rejection clears the entry of its own load.
on_rejected-IsUnrejected :
    (load : ℕ) (rs : List ℕ) (o : Option CacheEntry)
    → IsUnrejected rs o
    → IsUnrejected (load ∷ rs) (on_rejected load o)
unfolding on_rejected
on_rejected-IsUnrejected load rs none fine = tt
on_rejected-IsUnrejected load rs (some e) fine = elim (Bool-cases (e.snapshot == load)) [
  | inl own ↦ rw own tt
  | inr other ↦ rw other (ground arith, fine)
]

Reached-IsSound : (ttl : ℕ) {s : State} → Reached ttl s → IsSound ttl s
Reached-IsSound ttl at_start = record { known = tt; seen = tt; unrejected = tt; entry = tt }
Reached-IsSound ttl (requested now {s} run) =
    let i = Reached-IsSound ttl run in
    record {
      known = known-suc s.started s.loads i.known;
      seen = seen-suc s.started s.rejections i.seen;
      unrejected = get_snapshot-IsUnrejected now s.started s.rejections s.entry i.seen i.unrejected;
      entry = get_snapshot-IsCache ttl now s.started s.loads s.entry i.known i.entry;
    }
Reached-IsSound ttl (fulfilled now load {s} before run) =
    let i = Reached-IsSound ttl run in
    record {
      known = (before, i.known);
      seen = i.seen;
      unrejected = on_loaded-IsUnrejected ttl now load s.rejections s.entry i.unrejected;
      entry = on_loaded-IsCache ttl now load s.started s.loads s.entry i.entry;
    }
Reached-IsSound ttl (rejected load {s} before run) =
    let i = Reached-IsSound ttl run in
    record {
      known = i.known;
      seen = (before, i.seen);
      unrejected = on_rejected-IsUnrejected load s.rejections s.entry i.unrejected;
      entry = on_rejected-IsCache ttl load s.started s.loads s.entry i.entry;
    }

-- The entry of the cache is of this load.
abbrev pub Holds : Option CacheEntry → ℕ → Type 0
Holds none load = ⊥
Holds (some e) load = e.snapshot ≡ load

-- What a request returns: the load of the entry, which was not rejected and is pending or was loaded less
-- than the lifetime ago; or a new load, where there is no entry or its load is as old as the lifetime.
abbrev pub IsAnswer : ℕ → ℕ → State → ℕ → Type 0
IsAnswer ttl now s answer =
    ((answer < s.started)
      × Holds s.entry answer
      × NeverRejected answer s.rejections
      × (NeverLoaded answer s.loads
          ⊎ ((time : ℕ) × WasLoaded answer time s.loads × (now < time + ttl))))
    ⊎ ((answer ≡ s.started)
        × ((s.entry ≡ none)
            ⊎ ((load time : ℕ) × Holds s.entry load
                × WasLoaded load time s.loads
                × (time + ttl ≤ now))))

entry-IsAnswer :
    (ttl now n : ℕ) (ls : List Load) (rs : List ℕ) (x : Option ℕ) (load : ℕ)
    → load < n
    → NeverRejected load rs
    → IsEntry ttl ls x load
    → (let o : Option CacheEntry = some (record { expires_at = x; snapshot = load }) in
        IsAnswer ttl now
          (record { entry = o; loads = ls; rejections = rs; started = n })
          (get_snapshot now n o).0)
unfolding get_snapshot
entry-IsAnswer ttl now n ls rs none load old fine never = inl (old, refl, fine, inl never)
entry-IsAnswer ttl now n ls rs (some t) load old fine (time, was, e) =
    elim (Bool-cases (ltb now t)) [
      | inl live ↦ rw live (inl (old, refl, fine, inr (time, was, ground arith)))
      | inr dead ↦ rw dead (inr (refl, inr (load, time, refl, was, ground arith)))
    ]

answer_lem :
    (ttl now n : ℕ) (ls : List Load) (rs : List ℕ) (o : Option CacheEntry)
    → IsUnrejected rs o
    → IsCache ttl ls n o
    → IsAnswer ttl now
        (record { entry = o; loads = ls; rejections = rs; started = n })
        (get_snapshot now n o).0
unfolding get_snapshot
answer_lem ttl now n ls rs none fine cache = inr (refl, inl refl)
answer_lem ttl now n ls rs (some e) fine cache =
    entry-IsAnswer ttl now n ls rs e.expires_at e.snapshot cache.0 fine cache.1

-- In every state that requests and ends of loads lead to, a request returns the load of the entry only if it
-- was not rejected, while it is pending or for less than the lifetime after it ended well; and it starts a new
-- load only if there is no entry, or its load ended at least the lifetime ago.
pub get_snapshot-IsAnswer :
    (ttl now : ℕ) {s : State}
    → Reached ttl s
    → IsAnswer ttl now s (get_snapshot now s.started s.entry).0
get_snapshot-IsAnswer ttl now {s} run =
    let i = Reached-IsSound ttl run in
    answer_lem ttl now s.started s.loads s.rejections s.entry i.unrejected i.entry
