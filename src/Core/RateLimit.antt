-- ===== src/Core/RateLimit.antt =====
-- app/core/ratelimit.py: `SlidingWindowRateLimiter`. The clock is an argument, in any unit.
pub mod Window
use alfa_hackaton.Prelude.{
  ℕ, ◌+◌, Bool, true, false, Option, none, some, List, [], ◌∷◌, ◌++◌, Text, text_eq, length, leb,
  if◌then◌else◌,
}
use alfa_hackaton.Prelude.Dict.{lookup, insert}

pub record Limiter : Type 0 where
  pub max_requests : ℕ
  pub window_seconds : ℕ
  -- the times of the admitted requests of each key, the oldest first
  pub hits : List (Text × List ℕ)

-- what `setdefault` gives
unfoldable pub window_of : Text → Limiter → List ℕ
window_of k m = elim (lookup text_eq k m.hits) [ none ↦ [] | some w ↦ w ]

-- The loop of `popleft`. The difference of the clocks may be negative in the source.
unfoldable pub drop_old : ℕ → ℕ → List ℕ → List ℕ
drop_old now seconds [] = []
drop_old now seconds (h ∷ hs) =
    let rest = drop_old now seconds hs in if leb (h + seconds) now then rest else h ∷ hs

-- `allow`
unfoldable pub allow : ℕ → Text → Limiter → Bool × Limiter
unfolding window_of drop_old
allow now k m =
    let window = drop_old now m.window_seconds (window_of k m) in
    if leb m.max_requests (length window)
    then (false, record m { hits = insert text_eq k window m.hits })
    else (true, record m { hits = insert text_eq k (window ++ now ∷ []) m.hits })
