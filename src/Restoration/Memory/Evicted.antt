-- ===== src/Restoration/Memory/Evicted.antt =====
-- The entries after an eviction.
use alfa_hackaton.Prelude.{
  ℕ, ◌+◌, ◌≤◌, ◌≡◌, refl, ap, ◌∙◌, Bool, true, false, Option, arith, Text, length, text_eq,
  if◌then◌else◌,
}
use alfa_hackaton.Restoration.Memory.{MemoryStore, evict_expired}
use alfa_hackaton.Restoration.Memory.Expiry.{live_entries, evict_expired_lem}
use alfa_hackaton.Restoration.Memory.Invariant.{IsValid, IsOrdered-evict_expired, kept}
use alfa_hackaton.Restoration.Memory.Views.{unexpired, live, evicts_only_expired}

module _ {A : Type 0} where
  -- From a time on every key has the live entry that it had.
  abbrev pub Unchanged : ℕ → MemoryStore A → MemoryStore A → Type 0
  Unchanged from m m' = (t : ℕ) (j : Text) → from ≤ t → live t j m' ≡ live t j m

  -- From a time on one key has the given entry, until it expires, and every other key has the live
  -- entry that it had.
  abbrev pub Updated : ℕ → Text → Option (ℕ × A) → MemoryStore A → MemoryStore A → Type 0
  Updated from k o m m' =
      (t : ℕ) (j : Text)
      → from ≤ t
      → live t j m' ≡ (if text_eq k j then unexpired t o else live t j m)

  pub Unchanged-Updated :
      (from later : ℕ) (k : Text) (o : Option (ℕ × A)) (m n p : MemoryStore A)
      → from ≤ later
      → Unchanged from m n
      → Updated later k o n p
      → Updated later k o m p
  Unchanged-Updated from later k o m n p q u w t j h =
      w t j h ∙ ap (λ x. if text_eq k j then unexpired t o else x) (u t j (omega arith))

  Unchanged-trans :
      (from later : ℕ) (m n p : MemoryStore A)
      → from ≤ later
      → Unchanged from m n
      → Unchanged later n p
      → Unchanged later m p
  Unchanged-trans from later m n p q u w t j h = w t j h ∙ u t j (omega arith)

  pub unexpired-if :
      (t : ℕ) (b : Bool) (o p : Option (ℕ × A))
      → unexpired t (if b then o else p) ≡ (if b then unexpired t o else unexpired t p)
  unexpired-if t true o p = refl
  unexpired-if t false o p = refl

  unfoldable pub evicted : ℕ → MemoryStore A → MemoryStore A
  evicted now m = record m { entries = evict_expired now m.entries }

  pub IsValid-evicted : (now : ℕ) (m : MemoryStore A) → IsValid now m → IsValid now (evicted now m)
  unfolding evicted
  IsValid-evicted now m v =
      let (o, l) = IsOrdered-evict_expired (now + m.ttl_seconds) now m.entries v.entries in
      kept now m (evict_expired now m.entries) o l v

  pub Unchanged-evicted :
      (now : ℕ) (m : MemoryStore A) → IsValid now m → Unchanged now m (evicted now m)
  unfolding evicted
  Unchanged-evicted now m v t j p = evicts_only_expired now t j m.entries v.entries.distinct p

  pub length-evicted :
      (now : ℕ) (m : MemoryStore A)
      → IsValid now m
      → length (evicted now m).entries ≡ length (live_entries now m.entries)
  unfolding evicted
  length-evicted now m v = ap length (evict_expired_lem now m.entries v.entries.ordered)
