-- ===== src/Restoration/Redis/Atomic.antt =====
-- What a transition amounts to among other clients.
use alfa_hackaton.Prelude.{ℕ, ◌≤◌, ◌<◌, ◌≡◌, ◌⊎◌, true, none, Option, Text}
use alfa_hackaton.Core.Errors.{Error, Result, ok, err, ◌>>=◌}
use alfa_hackaton.Restoration.State.{RestorationState}
use alfa_hackaton.Restoration.State.Libraries.{Codec}
use alfa_hackaton.Restoration.Redis.{
  Redis, Round, contention, key_of, decode_reply, commit, attempt, is_watch_broken,
}

module _ (c : Codec) (redis : Redis c.Token) (hmac : Text → Text) (ttl_seconds : ℕ)
    (rounds : ℕ → Round c redis hmac ttl_seconds) (payload_id : Text)
    (fn : Option RestorationState → Result (Option RestorationState)) where
  -- Another client touched the key during an attempt, after WATCH and before EXEC.
  abbrev pub IsTouched : ℕ → Type 0
  IsTouched i = is_watch_broken c redis hmac ttl_seconds (rounds i) payload_id ≡ true

  -- The clock does not go back from GET to EXEC.
  abbrev pub IsTimed : Type 0
  IsTimed = (i : ℕ) → (rounds i).read_at ≤ (rounds i).write_at

  -- What GET would give at the moment of EXEC.
  abbrev pub reply_at : ℕ → Option c.Token
  reply_at i =
      redis.get (rounds i).write_at (key_of c redis hmac ttl_seconds payload_id) (rounds i).after

  -- What the callback would make of the state at the moment of EXEC.
  abbrev pub given_at : ℕ → Result (Option RestorationState)
  given_at i = decode_reply c redis hmac ttl_seconds payload_id (reply_at i) >>= fn

  -- The ends of the loop from an attempt on.
  pub data IsAtomic (first last : ℕ) (out : Result (Option RestorationState) × redis.Db)
      : Type 0 where
    -- Attempt `i` took effect, after attempts that all were touched. It wrote what the callback made
    -- of its own reading, and would make of a reading at the moment of EXEC too, if the time of the
    -- key was not over in between.
    took_effect :
        (i : ℕ) (new_state : Option RestorationState)
        → first ≤ i
        → i < last
        → ((j : ℕ) → first ≤ j → j < i → IsTouched j)
        → attempt c redis hmac ttl_seconds (rounds i) payload_id fn ≡ ok new_state
        → (given_at i ≡ ok new_state) ⊎ (reply_at i ≡ none)
        → out ≡ (
          ok new_state,
          commit c redis hmac ttl_seconds
              (rounds i).write_at
              (rounds i).iv
              payload_id
              new_state
              (rounds i).after,
        )
        → IsAtomic first last out
    -- The callback raised on what it was given; nothing was written.
    raised :
        (i : ℕ) (e : Error)
        → first ≤ i
        → i < last
        → ((j : ℕ) → first ≤ j → j < i → IsTouched j)
        → attempt c redis hmac ttl_seconds (rounds i) payload_id fn ≡ err e
        → out ≡ (err e, (rounds i).after)
        → IsAtomic first last out
    -- Every attempt was touched.
    gave_up :
        ((j : ℕ) → first ≤ j → j < last → IsTouched j)
        → out.0 ≡ err contention
        → IsAtomic first last out
