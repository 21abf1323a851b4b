-- ===== src/Restoration/Redis/Instance.antt =====
-- app/restoration/redis_store.py behind the interface of the stores, with no other client.
use alfa_hackaton.Prelude.{
  ℕ, ◌+◌, ◌≤◌, ◌≡◌, refl, sym, ap, ◌∙◌, inl, inr, Bool, true, false, Option, none, some, Text, ◌++◌,
  codes, text_eq, text_eq_iff, ltb, if◌then◌else◌, Bool-cases,
}
use alfa_hackaton.Core.Errors.{Error, Result, ok, err, ◌>>=◌}
use alfa_hackaton.Restoration.State.{RestorationState}
use alfa_hackaton.Restoration.State.Libraries.{Codec}
use alfa_hackaton.Restoration.Store.{Moment, RestorationStore, keyed}
use alfa_hackaton.Restoration.Memory.Views.{decode-encrypt}
use alfa_hackaton.Restoration.Redis.{
  Redis, Round, key_of, encode, decode_reply, get, save, commit, attempt, execute, is_watch_broken,
  attempts, transition,
}
use mathlib.Core.List.{append_cancel_left}

both_true : (a b : Bool) → (a ≡ true → b ≡ true) → (b ≡ true → a ≡ true) → a ≡ b
both_true true true f g = refl
both_true false false f g = refl
both_true true false f g = sym (f refl)
both_true false true f g = g refl

module _ (c : Codec) (redis : Redis c.Token) (hmac : Text → Text) (ttl_seconds : ℕ) where
  -- every attempt as the first, with nothing between its commands
  abbrev pub alone : Moment → redis.Db → ℕ → Round c redis hmac ttl_seconds
  alone t d i = record {
    read_at = t.later;
    write_at = t.last;
    iv = t.iv;
    watched = d;
    read = d;
    after = d;
  }

  abbrev pub redis_store : RestorationStore
  redis_store = record {
    Store = redis.Db;
    get = get c redis hmac ttl_seconds;
    transition = λ t k fn d. transition c redis hmac ttl_seconds (alone t d) k fn;
  }

  abbrev pub view : ℕ → Text → redis.Db → Result (Option RestorationState)
  view now k d =
      decode_reply c redis hmac ttl_seconds k (redis.get now (key_of c redis hmac ttl_seconds k) d)

  pub executed :
      (t : Moment) (k : Text) (fn : Option RestorationState → Result (Option RestorationState))
      (d : redis.Db) (s : RestorationState)
      → (view t.later k d >>= fn) ≡ ok (some s)
      → transition c redis hmac ttl_seconds (alone t d) k fn
        ≡ (ok (some s), save c redis hmac ttl_seconds t.last t.iv k s d)
  unfolding transition attempts attempt execute is_watch_broken commit
  executed t k fn d s h =
      rw (h, attempts)
        (rw (redis.untouched_self (key_of c redis hmac ttl_seconds k) d, execute) refl)

  pub raised :
      (t : Moment) (k : Text) (fn : Option RestorationState → Result (Option RestorationState))
      (d : redis.Db) (e : Error)
      → (view t.later k d >>= fn) ≡ err e
      → transition c redis hmac ttl_seconds (alone t d) k fn ≡ (err e, d)
  unfolding transition attempts attempt
  raised t k fn d e h = rw (h, attempts) refl

  keys_equal :
      ((k j : Text) → hmac k ≡ hmac j → k ≡ j)
      → (k j : Text)
      → text_eq (key_of c redis hmac ttl_seconds k) (key_of c redis hmac ttl_seconds j)
        ≡ text_eq k j
  unfolding key_of
  keys_equal injective k j =
      both_true _ _
        (λ h. (text_eq_iff k j).1 (
          injective k j
            (append_cancel_left (codes "pii:restore:") (hmac k) (hmac j) ((text_eq_iff _ _).0 h))))
        (λ h.
          (text_eq_iff _ _).1 (ap (λ x. codes "pii:restore:" ++ hmac x) ((text_eq_iff k j).0 h)))

  stored_reply :
      (now iv u : ℕ) (k j : Text) (s : RestorationState)
      → k ≡ j
      → decode_reply c redis hmac ttl_seconds j
          (if ltb u (now + ttl_seconds) then some (encode c redis hmac ttl_seconds iv s) else none)
        ≡ (if ltb u (now + ttl_seconds) then ok (some (keyed k s)) else ok none)
  unfolding decode_reply encode
  stored_reply now iv u k j s e = rw e (elim (Bool-cases (ltb u (now + ttl_seconds))) [
    | inr late ↦ simp late
    | inl early ↦
        simp early
          (ap (λ (x : Result RestorationState). x >>= (λ s. ok (some s))) (decode-encrypt c j iv s))
  ])

  -- What a reader sees after a state was stored.
  pub seen_after :
      ((k j : Text) → hmac k ≡ hmac j → k ≡ j)
      → (now iv u : ℕ) (k j : Text) (s : RestorationState) (d : redis.Db) → now ≤ u
      → view u j (save c redis hmac ttl_seconds now iv k s d) ≡ (
          if text_eq k j
          then (if ltb u (now + ttl_seconds) then ok (some (keyed k s)) else ok none)
          else view u j d)
  unfolding save
  seen_after injective now iv u k j s d p =
      let key = key_of c redis hmac ttl_seconds in
      let token = encode c redis hmac ttl_seconds iv s in
      ap (decode_reply c redis hmac ttl_seconds j) (
        redis.get-set now u ttl_seconds (key k) (key j) token d p
        ∙ ap
            (λ b.
              if b
              then (if ltb u (now + ttl_seconds) then some token else none)
              else redis.get u (key j) d)
            (keys_equal injective k j))
      ∙ elim (Bool-cases (text_eq k j)) [
        | inl own ↦ simp own (stored_reply now iv u k j s ((text_eq_iff k j).0 own))
        | inr other ↦ simp other
      ]
