-- ===== src/Restoration/Redis.antt =====
-- app/restoration/redis_store.py: `RedisRestorationStore`. The server is a parameter: its state is
-- passed on, and the clock is that of the server. The pauses between attempts are left out.
pub mod Atomic
pub mod Instance
use alfa_hackaton.Prelude.{
  ℕ, zero, suc, ◌+◌, ◌≤◌, ◌≡◌, ◌⊎◌, ◌||◌, Bool, true, false, Option, none, some, Text, ◌++◌, codes,
  text_eq, ltb, if◌then◌else◌,
}
use alfa_hackaton.Core.Errors.{Error, Result, ok, err, ◌>>=◌, service_overloaded}
use alfa_hackaton.Restoration.State.{RestorationState, to_json}
use alfa_hackaton.Restoration.State.Libraries.{Codec}
use alfa_hackaton.Restoration.Memory.{decode}

-- What is documented of the server: GET, SET with EX, DEL, and whether a key was touched from one
-- state of the server to a later one, by which EXEC fails. The end of a key's time is no touch: the
-- state keeps the key with its time, and GET tests it.
pub record Redis (Token : Type 0) : Type 1 where
  pub Db : Type 0
  pub get : ℕ → Text → Db → Option Token
  pub set : ℕ → Text → Token → ℕ → Db → Db
  pub delete : Text → Db → Db
  pub is_touched : Text → Db → Db → Bool
  pub get-set :
      (now t ex : ℕ) (k j : Text) (v : Token) (d : Db)
      → now ≤ t
      → get t j (set now k v ex d)
        ≡ (if text_eq k j then (if ltb t (now + ex) then some v else none) else get t j d)
  pub get-delete :
      (t : ℕ) (k j : Text) (d : Db)
      → get t j (delete k d) ≡ (if text_eq k j then none else get t j d)
  pub get-untouched :
      (t : ℕ) (k : Text) (d d' : Db) → is_touched k d d' ≡ false → get t k d' ≡ get t k d
  -- with time a key can only go
  pub get-later :
      (t u : ℕ) (k : Text) (d : Db) → t ≤ u → (get u k d ≡ get t k d) ⊎ (get u k d ≡ none)
  pub untouched_self : (k : Text) (d : Db) → is_touched k d d ≡ false

-- `_MAX_CAS_RETRIES`
abbrev pub max_cas_retries : ℕ
max_cas_retries = 5

abbrev pub contention : Error
contention = service_overloaded (codes "concurrent modification of restoration state") 1

module _ (c : Codec) (redis : Redis c.Token) (hmac : Text → Text) (ttl_seconds : ℕ) where
  open redis use {Db}

  -- `_key`
  unfoldable pub key_of : Text → Text
  key_of payload_id = codes "pii:restore:" ++ hmac payload_id

  -- `_encode`, with the random part of the token
  unfoldable pub encode : ℕ → RestorationState → c.Token
  encode iv s = c.encrypt iv (to_json c s)

  -- What a reply of GET is decoded to.
  unfoldable pub decode_reply : Text → Option c.Token → Result (Option RestorationState)
  unfolding decode
  decode_reply payload_id none = ok none
  decode_reply payload_id (some token) = decode c payload_id token >>= (λ s. ok (some s))

  -- `get`
  unfoldable pub get : ℕ → Text → Db → Result (Option RestorationState) × Db
  unfolding decode_reply key_of
  get now payload_id d = (decode_reply payload_id (redis.get now (key_of payload_id) d), d)

  -- `save`
  unfoldable pub save : ℕ → ℕ → Text → RestorationState → Db → Db
  unfolding key_of encode
  save now iv payload_id s d = redis.set now (key_of payload_id) (encode iv s) ttl_seconds d

  -- `delete`
  unfoldable pub delete : Text → Db → Db
  unfolding key_of
  delete payload_id d = redis.delete (key_of payload_id) d

  -- One attempt of `transition`: the server at WATCH, at GET and at EXEC, with the times of GET and
  -- EXEC. Other clients may write between any two of them.
  pub record Round : Type 0 where
    pub read_at : ℕ
    pub write_at : ℕ
    pub iv : ℕ
    pub watched : Db
    pub read : Db
    pub after : Db

  -- Does EXEC fail? The key was touched between WATCH and GET, or between GET and EXEC.
  unfoldable pub is_watch_broken : Round → Text → Bool
  unfolding key_of
  is_watch_broken r payload_id =
      redis.is_touched (key_of payload_id) r.watched r.read
      || redis.is_touched (key_of payload_id) r.read r.after

  -- The commands that EXEC runs.
  unfoldable pub commit : ℕ → ℕ → Text → Option RestorationState → Db → Db
  unfolding save delete
  commit now iv payload_id none d = delete payload_id d
  commit now iv payload_id (some s) d = save now iv payload_id s d

  -- What the callback makes of what GET gave.
  unfoldable pub attempt :
      Round
      → Text
      → (Option RestorationState → Result (Option RestorationState))
      → Result (Option RestorationState)
  unfolding decode_reply key_of
  attempt r payload_id fn =
      decode_reply payload_id (redis.get r.read_at (key_of payload_id) r.read) >>= fn

  -- The end of an attempt that the callback lets pass: `rest` are the later attempts.
  unfoldable pub execute :
      Round
      → Text
      → Option RestorationState
      → Result (Option RestorationState) × Db
      → Result (Option RestorationState) × Db
  unfolding is_watch_broken commit
  execute r payload_id new_state rest =
      if is_watch_broken r payload_id
      then rest
      else (ok new_state, commit r.write_at r.iv payload_id new_state r.after)

  -- The loop over the attempts that are left, of which the first is `rounds i`; `d` is the server
  -- when none is left.
  unfoldable pub attempts :
      (left i : ℕ)
      → (ℕ → Round)
      → Text
      → (Option RestorationState → Result (Option RestorationState))
      → Db
      → Result (Option RestorationState) × Db
  unfolding attempt execute
  attempts zero i rounds payload_id fn d = (err contention, d)
  attempts (suc left) i rounds payload_id fn d =
      let rest = attempts left (suc i) rounds payload_id fn (rounds i).after in
      elim (attempt (rounds i) payload_id fn) [
        | err e ↦ (err e, (rounds i).after)
        | ok new_state ↦ execute (rounds i) payload_id new_state rest
      ]

  -- `transition`, where other clients work between the commands as the rounds say.
  unfoldable pub transition :
      (ℕ → Round)
      → Text
      → (Option RestorationState → Result (Option RestorationState))
      → Result (Option RestorationState) × Db
  unfolding attempts
  transition rounds payload_id fn =
      attempts max_cas_retries 0 rounds payload_id fn (rounds 0).watched
