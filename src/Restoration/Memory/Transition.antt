-- ===== src/Restoration/Memory/Transition.antt =====
-- `save` and `transition` of the store against what a caller sees of it.
use alfa_hackaton.Prelude.{
  ℕ, ◌+◌, ◌≤◌, ◌≡◌, refl, sym, ap, ◌∙◌, ◌⊎◌, inl, inr, true, Option, none, some, arith, Text,
  length, text_eq, text_eq_iff, Bool-cases,
}
use alfa_hackaton.Prelude.Dict.{lookup, remove, lookup-remove}
use alfa_hackaton.Core.Errors.{Result, ok, err, ◌>>=◌}
use alfa_hackaton.Restoration.State.{RestorationState, to_json}
use alfa_hackaton.Restoration.State.Libraries.{Codec}
use alfa_hackaton.Restoration.Memory.{
  MemoryStore, has_no_room, capacity_exceeded, check, write, save, delete, read, commit,
  after_callback, transition,
}
use alfa_hackaton.Restoration.Memory.Expiry.{live_entries}
use alfa_hackaton.Restoration.Memory.Invariant.{
  IsValid, IsValid-later, IsOrdered-remove, IsOrdered-refresh, length-remove-le, length-refresh,
  kept,
}
use alfa_hackaton.Restoration.Memory.Views.{
  unexpired, live, decoded, view, lookup-refresh, get_lem, check-eq-get, length-get-le,
}
use alfa_hackaton.Restoration.Memory.Evicted.{
  Unchanged, Updated, Unchanged-Updated, unexpired-if, evicted, IsValid-evicted, Unchanged-evicted,
  length-evicted,
}

module _ (c : Codec) where
  open c use {Token}

  -- How a write ends: refused with the store as it was, since it has `max_entries` others; or done.
  abbrev pub Written :
      ℕ
      → ℕ
      → Text
      → RestorationState
      → MemoryStore Token
      → Result (Unit {0}) × MemoryStore Token
      → Type 0
  Written now iv k s m (r, m') =
      ((r ≡ err capacity_exceeded)
        × (lookup text_eq k m.entries ≡ none)
        × (m.max_entries ≤ length m.entries)
        × (m' ≡ m))
      ⊎ ((r ≡ ok tt) × Updated now k (some (now + m.ttl_seconds, c.encrypt iv (to_json c s))) m m')

  full_absent :
      (k : Text) (m : MemoryStore Token)
      → has_no_room k m ≡ true
      → lookup text_eq k m.entries ≡ none
  unfolding has_no_room
  full_absent k m h = ground arith

  full_length :
      (k : Text) (m : MemoryStore Token) → has_no_room k m ≡ true → m.max_entries ≤ length m.entries
  unfolding has_no_room
  full_length k m h = ground arith

  write_lem :
      (now iv : ℕ) (k : Text) (s : RestorationState) (m : MemoryStore Token)
      → IsValid now m
      → IsValid now (write c now iv k s m).1 × Written now iv k s m (write c now iv k s m)
  unfolding write
  write_lem now iv k s m v =
      let token = c.encrypt iv (to_json c s) in
      let after = now + m.ttl_seconds in
      elim (Bool-cases (has_no_room k m)) [
        | inl full ↦
            rw (full, write) (v, inl (refl, full_absent k m full, full_length k m full, refl))
        | inr room ↦
            rw (room, write)
              (
                record {
                  entries = IsOrdered-refresh after k token m.entries v.entries;
                  fits = length-refresh after k token m room v.fits;
                },
                inr (
                  refl,
                  λ t j p.
                      ap (unexpired t) (lookup-refresh k j after token m.entries)
                      ∙ unexpired-if t (text_eq k j) (some (after, token))
                          (lookup text_eq j m.entries),
                ),
              )
      ]

  -- The read under the lock: the state at the time of the second reading of the clock; nothing
  -- live changes.
  read_lem :
      (now later : ℕ) (k : Text) (m : MemoryStore Token)
      → now ≤ later
      → IsValid now m
      → ((read c now later k m).0 ≡ view c later k m)
        × IsValid later (read c now later k m).1
        × Unchanged later m (read c now later k m).1
        × (length (read c now later k m).1.entries ≤ length (live_entries now m.entries))
  unfolding read evicted
  read_lem now later k m p v =
      let m' = evicted now m in
      let same = Unchanged-evicted now m v in
      let (got, valid, keeps) =
        get_lem c later k m' (IsValid-later m' p (IsValid-evicted now m v)) in
      let shorter = length-get-le c later k m' in
      rw (check-eq-get c later k m') (
        got ∙ ap (decoded c k) (same later k p),
        valid,
        (λ t j q. keeps t j q ∙ same t j (omega arith)),
        omega (arith, shorter, length-evicted now m v),
      )

  -- How a call that stores a state ends. It is refused only when `max_entries` entries are live and
  -- the key has none, and then nothing live changes; or the key has the encrypted state until its time to live is over,
  -- and every other key what it had.
  abbrev pub Stored :
      {R : Type 0}
      → R
      → ℕ
      → ℕ
      → ℕ
      → Text
      → RestorationState
      → MemoryStore Token
      → Result R × MemoryStore Token
      → Type 0
  Stored done now last iv k s m out =
      (out.0 ≡ err capacity_exceeded)
        × (live last k m ≡ none)
        × (m.max_entries ≤ length (live_entries now m.entries))
        × Unchanged last m out.1
      ⊎ (out.0 ≡ ok done)
        × Updated last k (some (last + m.ttl_seconds, c.encrypt iv (to_json c s))) m out.1

  -- A write to a store that shows what `m` shows.
  Stored-of_Written :
      (now from last iv : ℕ) (k : Text) (s : RestorationState) (m m' : MemoryStore Token)
      (out : Result (Unit {0}) × MemoryStore Token)
      → from ≤ last
      → Unchanged from m m'
      → length m'.entries ≤ length (live_entries now m.entries)
      → m'.max_entries ≡ m.max_entries
      → m'.ttl_seconds ≡ m.ttl_seconds
      → Written last iv k s m' out
      → Stored tt now last iv k s m out
  Stored-of_Written now from last iv k s m m' (r, m'') p u l e f (inl (q, absent, full, same)) =
      inl (
        q,
        sym (u last k p) ∙ ap (unexpired last) absent,
        omega (arith, full),
        λ t j h. ap (live t j) same ∙ u t j (omega arith),
      )
  Stored-of_Written now from last iv k s m m' (r, m'') p u l e f (inr (q, w)) = inr (
    q,
    Unchanged-Updated from last k (some (last + m.ttl_seconds, c.encrypt iv (to_json c s))) m m' m''
        p u (rw f at w),
  )

  Stored-done :
      {R : Type 0} (done : R) (now last iv : ℕ) (k : Text) (s : RestorationState)
      (m : MemoryStore Token) (out : Result (Unit {0}) × MemoryStore Token)
      → Stored tt now last iv k s m out
      → Stored done now last iv k s m (out.0 >>= (λ _. ok done), out.1)
  Stored-done done now last iv k s m out (inl (q, absent, full, u)) = inl (rw q, absent, full, u)
  Stored-done done now last iv k s m out (inr (q, u)) = inr (rw q, u)

  -- `save` keeps the invariant, and it is refused or stores the state.
  pub save-Stored :
      (now later iv : ℕ) (k : Text) (s : RestorationState) (m : MemoryStore Token)
      → now ≤ later
      → IsValid now m
      → IsValid later (save c now later iv k s m).1
        × Stored tt now later iv k s m (save c now later iv k s m)
  unfolding save evicted
  save-Stored now later iv k s m p v =
      let m' = evicted now m in
      let (valid, written) =
        write_lem later iv k s m' (IsValid-later m' p (IsValid-evicted now m v)) in
      (
        valid,
        Stored-of_Written now now later iv k s m m' (save c now later iv k s m) p
            (Unchanged-evicted now m v) (omega (arith, length-evicted now m v)) refl refl written,
      )

  pub read_config :
      (now later : ℕ) (k : Text) (m : MemoryStore Token)
      → ((read c now later k m).1.max_entries ≡ m.max_entries)
        × ((read c now later k m).1.ttl_seconds ≡ m.ttl_seconds)
  unfolding read check
  read_config now later k m = ground arith

  -- How `transition` ends, by what the callback gave: an error leaves every live entry; no state
  -- deletes the key; a state is stored or refused.
  abbrev pub Ends :
      ℕ
      → ℕ
      → ℕ
      → Text
      → MemoryStore Token
      → Result (Option RestorationState)
      → Result (Option RestorationState) × MemoryStore Token
      → Type 0
  Ends now last iv k m (err e) out = (out.0 ≡ err e) × Unchanged last m out.1
  Ends now last iv k m (ok none) out = (out.0 ≡ ok none) × Updated last k none m out.1
  Ends now last iv k m (ok (some s)) out = Stored (some s) now last iv k s m out

  Updated-delete :
      (from : ℕ) (k : Text) (m : MemoryStore Token) → Updated from k none m (delete c k m)
  unfolding delete
  Updated-delete from k m t j h = ground (arith, lookup-remove text_eq text_eq_iff k j m.entries)

  Ends-after_callback :
      (now from last iv : ℕ) (k : Text) (m m' : MemoryStore Token)
      (given : Result (Option RestorationState))
      → from ≤ last
      → IsValid from m'
      → Unchanged from m m'
      → length m'.entries ≤ length (live_entries now m.entries)
      → m'.max_entries ≡ m.max_entries
      → m'.ttl_seconds ≡ m.ttl_seconds
      → IsValid last (after_callback c last iv k given m').1
        × Ends now last iv k m given (after_callback c last iv k given m')
  unfolding after_callback commit delete
  Ends-after_callback now from last iv k m m' (err x) p v u l e f =
      (IsValid-later m' p v, (refl, λ t j h. u t j (omega arith)))
  Ends-after_callback now from last iv k m m' (ok none) p v u l e f =
      let w = IsValid-later m' p v in
      (
        kept last m' (remove text_eq k m'.entries)
            (IsOrdered-remove (last + m'.ttl_seconds) k m'.entries w.entries)
            (length-remove-le k m'.entries) w,
        (
          refl,
          Unchanged-Updated from last k none m m' (delete c k m') p u (Updated-delete last k m'),
        ),
      )
  Ends-after_callback now from last iv k m m' (ok (some s)) p v u l e f =
      let (valid, written) = write_lem last iv k s m' (IsValid-later m' p v) in
      (
        valid,
        Stored-done (some s) now last iv k s m (write c last iv k s m') (
            Stored-of_Written now from last iv k s m m' (write c last iv k s m') p u l e f written),
      )

  -- On a valid store, with a clock that does not go back, `transition` hands to the callback the
  -- state that is live under the key. An error of the callback is passed on and every live entry
  -- stays; no state deletes the key; a state is stored, or refused, which happens only when the key
  -- has no live entry and `max_entries` entries are live, and then every live entry stays. The
  -- store stays valid.
  pub transition-Ends :
      (now later last iv : ℕ) (k : Text)
      (fn : Option RestorationState → Result (Option RestorationState)) (m : MemoryStore Token)
      → now ≤ later
      → later ≤ last
      → IsValid now m
      → IsValid last (transition c now later last iv k fn m).1
        × Ends now last iv k m (view c later k m >>= fn) (transition c now later last iv k fn m)
  unfolding transition
  transition-Ends now later last iv k fn m p q v =
      let (got, valid, same, shorter) = read_lem now later k m p v in
      let (e, f) = read_config now later k m in
      rw (← got) (
        Ends-after_callback now later last iv k m (read c now later k m).1
          ((read c now later k m).0 >>= fn) q valid same shorter e f)
