-- ===== src/Tests/Core.antt =====
-- The theorem on app/core/ratelimit.py at a concrete input.
use alfa_hackaton.Prelude.{ℕ, refl, [], ◌∷◌, arith, Text, codes}
use alfa_hackaton.Core.RateLimit.{Limiter, allow, window_of}
use alfa_hackaton.Core.RateLimit.Window.{IsValid, Admits, allow-Admits}

abbrev limiter : Limiter
limiter = record { max_requests = 2; window_seconds = 10; hits = [] }

limiter-IsValid : IsValid 0 limiter
unfolding window_of alfa_hackaton.Prelude.Dict.lookup
limiter-IsValid k = record { ascending = tt; past = tt; bounded = omega arith }

allow-Admits_example : Admits 5 (codes "a") limiter (allow 5 (codes "a") limiter)
allow-Admits_example = allow-Admits 0 5 (codes "a") limiter (omega arith) limiter-IsValid
