-- ===== src/Restoration/Memory.antt =====
-- app/restoration/memory.py: `InMemoryRestorationStore`. Each reading of the clock is an argument.
pub mod Expiry
pub mod Invariant
pub mod Views
pub mod Evicted
pub mod Transition
pub mod Instance
use alfa_hackaton.Prelude.{
  ℕ, ◌+◌, ◌≡◌, Bool, true, false, not, ◌&&◌, Option, none, some, List, [], ◌∷◌, ◌++◌, Text, codes,
  text_eq, length, ltb, leb, if◌then◌else◌,
}
use alfa_hackaton.Prelude.Dict.{lookup, insert, remove}
use alfa_hackaton.Core.Errors.{Error, Result, ok, err, ◌>>=◌, service_overloaded, unexpected}
use alfa_hackaton.Restoration.State.{RestorationState, to_json, from_json}
use alfa_hackaton.Restoration.State.Libraries.{Codec}

-- The `OrderedDict` of the store, from a key to its expiry and its encrypted state.
abbrev pub Entries : Type 0 → Type 0
Entries A = List (Text × (ℕ × A))

module _ {A : Type 0} where
  -- d.move_to_end(k)
  unfoldable pub move_to_end : Text → Entries A → Entries A
  move_to_end k d = elim (lookup text_eq k d) [
    | none ↦ d
    | some v ↦ remove text_eq k d ++ (k, v) ∷ []
  ]

  unfoldable pub contains : Text → Entries A → Bool
  contains k d = elim (lookup text_eq k d) [ none ↦ false | some _ ↦ true ]

  -- `_evict_expired_locked`
  unfoldable pub evict_expired : ℕ → Entries A → Entries A
  evict_expired now [] = []
  evict_expired now ((k, (expires_at, v)) ∷ d) =
      let rest = evict_expired now d in
      if ltb now expires_at then (k, (expires_at, v)) ∷ d else rest

  -- `if k in d: d.move_to_end(k)`, then `d[k] = (expires_at, v)`
  unfoldable pub refresh : Text → ℕ → A → Entries A → Entries A
  unfolding move_to_end contains
  refresh k expires_at v d =
      insert text_eq k (expires_at, v) (if contains k d then move_to_end k d else d)

pub record MemoryStore (A : Type 0) : Type 0 where
  pub ttl_seconds : ℕ
  pub max_entries : ℕ
  pub entries : Entries A

-- `__init__`
unfoldable pub new_store : {A : Type 0} → ℕ → ℕ → MemoryStore A
new_store ttl_seconds max_entries = record {
  ttl_seconds = ttl_seconds;
  max_entries = max_entries;
  entries = [];
}

abbrev pub capacity_exceeded : Error
capacity_exceeded = service_overloaded (codes "restoration store capacity exceeded") 1

-- Not in the store, and the store is full.
unfoldable pub has_no_room : {A : Type 0} → Text → MemoryStore A → Bool
unfolding contains
has_no_room k m = not (contains k m.entries) && leb m.max_entries (length m.entries)

module _ (c : Codec) where
  open c use {Token, encrypt, decrypt}

  -- decrypt and parse
  unfoldable pub decode : Text → Token → Result RestorationState
  decode k token = elim (decrypt token) [
    | none ↦ err (unexpected (codes "InvalidToken"))
    | some raw ↦ from_json c k raw
  ]

  unfoldable pub get :
      ℕ → Text → MemoryStore Token → Result (Option RestorationState) × MemoryStore Token
  unfolding decode
  get now k m = elim (lookup text_eq k m.entries) [
    | none ↦ (ok none, m)
    | some (expires_at, token) ↦
        if leb expires_at now
        then (ok none, record m { entries = remove text_eq k m.entries })
        else (decode k token >>= (λ s. ok (some s)), m)
  ]

  -- The write under the lock that `save` and `transition` share.
  unfoldable pub write :
      ℕ → ℕ → Text → RestorationState → MemoryStore Token → Result (Unit {0}) × MemoryStore Token
  unfolding has_no_room refresh
  write now iv k s m = if has_no_room k m then (err capacity_exceeded, m) else (
    ok tt,
    record m { entries = refresh k (now + m.ttl_seconds) (encrypt iv (to_json c s)) m.entries },
  )

  unfoldable pub save :
      (now later iv : ℕ)
      → Text
      → RestorationState
      → MemoryStore Token
      → Result (Unit {0}) × MemoryStore Token
  unfolding evict_expired write
  save now later iv k s m = write later iv k s (record m { entries = evict_expired now m.entries })

  unfoldable pub delete : Text → MemoryStore Token → MemoryStore Token
  delete k m = record m { entries = remove text_eq k m.entries }

  -- The lookup of `transition` once the expired entries are gone.
  unfoldable pub check :
      ℕ → Text → MemoryStore Token → Result (Option RestorationState) × MemoryStore Token
  unfolding decode
  check now k m = elim (lookup text_eq k m.entries) [
    | none ↦ (ok none, m)
    | some (expires_at, token) ↦
        if ltb now expires_at
        then (decode k token >>= (λ s. ok (some s)), m)
        else (ok none, record m { entries = remove text_eq k m.entries })
  ]

  -- `transition` up to the callback: evict, then read the entry of the key.
  unfoldable pub read :
      (now later : ℕ)
      → Text
      → MemoryStore Token
      → Result (Option RestorationState) × MemoryStore Token
  unfolding evict_expired check
  read now later k m = check later k (record m { entries = evict_expired now m.entries })

  -- `transition` after the callback.
  unfoldable pub commit :
      ℕ
      → ℕ
      → Text
      → Option RestorationState
      → MemoryStore Token
      → Result (Option RestorationState) × MemoryStore Token
  unfolding delete write
  commit now iv k none m = (ok none, delete k m)
  commit now iv k (some s) m = let (r, m') = write now iv k s m in (r >>= (λ _. ok (some s)), m')

  unfoldable pub after_callback :
      ℕ
      → ℕ
      → Text
      → Result (Option RestorationState)
      → MemoryStore Token
      → Result (Option RestorationState) × MemoryStore Token
  unfolding commit
  after_callback now iv k (err e) m = (err e, m)
  after_callback now iv k (ok new_state) m = commit now iv k new_state m

  -- The whole of `transition`, with no other thread in between; the callback may raise.
  unfoldable pub transition :
      (now later last iv : ℕ)
      → Text
      → (Option RestorationState → Result (Option RestorationState))
      → MemoryStore Token
      → Result (Option RestorationState) × MemoryStore Token
  unfolding read after_callback
  transition now later last iv k fn m =
      let (current, m') = read now later k m in after_callback last iv k (current >>= fn) m'
