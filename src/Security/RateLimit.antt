-- ===== src/Security/RateLimit.antt =====
-- internal/security/ratelimit.go: a sliding window for each key. A call holds the lock, so calls
-- come one after the other; each is given the time that it reads.
mod Tests
mod Windows
pub mod History
use owl_invites.Base.{
  ℕ, suc, ◌+◌, Bool, true, false, Option, none, some, List, [], ◌∷◌, ◌++◌, leb, length,
  if◌then◌else◌,
}
use owl_invites.Text.{Text}
use owl_invites.Map.{Map, lookup, insert, remove}

pub record RateLimiter : Type 0 where
  pub windows : Map (List ℕ)
  pub limit : ℕ
  pub window : ℕ

unfoldable pub new_rate_limiter : ℕ → ℕ → RateLimiter
new_rate_limiter limit window = record { windows = []; limit = limit; window = window }

-- `pruneEntries` with the cutoff `now - window`: an entry is kept that is not before it.
unfoldable pub prune_entries : ℕ → ℕ → List ℕ → List ℕ
prune_entries window now [] = []
prune_entries window now (e ∷ es) =
    let rest = prune_entries window now es in if leb now (e + window) then e ∷ rest else rest

abbrev pub or_empty : Option (List ℕ) → List ℕ
or_empty none = []
or_empty (some entries) = entries

-- The entries of a key; a key that is missing has none.
abbrev pub entries_of : Text → Map (List ℕ) → List ℕ
entries_of key windows = or_empty (lookup key windows)

-- The verdict, and the limiter afterwards.
unfoldable pub allow : RateLimiter → Text → ℕ → Bool × RateLimiter
allow rl key now =
    let entries = prune_entries rl.window now (entries_of key rl.windows) in
    if leb rl.limit (length entries)
    then (false, record rl { windows = insert key entries rl.windows })
    else (true, record rl { windows = insert key (entries ++ now ∷ []) rl.windows })

unfoldable pub reset : RateLimiter → Text → RateLimiter
reset rl key = record rl { windows = remove key rl.windows }

abbrev pub add_window : Text → List ℕ → Map (List ℕ) → Map (List ℕ)
add_window key [] rest = rest
add_window key (e ∷ es) rest = (key, e ∷ es) ∷ rest

-- Every key is pruned, and dropped if nothing is left of it.
unfoldable pub cleanup_windows : ℕ → ℕ → Map (List ℕ) → Map (List ℕ)
cleanup_windows window now [] = []
cleanup_windows window now ((key, entries) ∷ rest) =
    add_window key (prune_entries window now entries) (cleanup_windows window now rest)

unfoldable pub cleanup : RateLimiter → ℕ → RateLimiter
cleanup rl now = record rl { windows = cleanup_windows rl.window now rl.windows }
