-- ===== src/Tests/Restoration.antt =====
-- The theorems on app/restoration at concrete inputs.
use alfa_hackaton.Prelude.{
  ℕ, ◌≤◌, ◌≡◌, ◌⊎◌, refl, inl, inr, Option, none, some, [], ◌∷◌, ◌++◌, arith, Text, codes,
}
use alfa_hackaton.Core.Errors.{Result, ok, ◌>>=◌}
use alfa_hackaton.Restoration.State.{RestorationState, to_json, from_json}
use alfa_hackaton.Restoration.State.RoundTrip.{from_json-to_json}
use alfa_hackaton.Restoration.Store.{KeepsPromise}
use alfa_hackaton.Restoration.Memory.{
  Entries, new_store, capacity_exceeded, evict_expired, get, save, transition,
}
use alfa_hackaton.Restoration.Memory.Expiry.{evict_expired_lem}
use alfa_hackaton.Restoration.Memory.Invariant.{IsValid}
use alfa_hackaton.Restoration.Memory.Views.{view, live, get_lem}
use alfa_hackaton.Restoration.Memory.Transition.{Stored, Ends, save-Stored, transition-Ends}
use alfa_hackaton.Restoration.Memory.Instance.{memory_store, IsValidFor, memory_store-KeepsPromise}
use alfa_hackaton.Tests.World.{codec, empty_store, empty_store-IsValid, prepared, consumer_key}

from_json-to_json_example : from_json codec consumer_key (to_json codec prepared) ≡ ok prepared
from_json-to_json_example = from_json-to_json codec consumer_key prepared

abbrev entries : Entries ℕ
entries = (codes "a", (3, 0)) ∷ (codes "b", (5, 1)) ∷ (codes "c", (9, 2)) ∷ []

evict_expired_lem_example : evict_expired 5 entries ≡ (codes "c", (9, 2)) ∷ []
evict_expired_lem_example =
    evict_expired_lem 5 entries ((omega arith, (omega arith, tt)), ((omega arith, tt), (tt, tt)))

get_lem_example :
    ((get codec 0 consumer_key empty_store).0 ≡ ok none)
    × IsValid 0 (get codec 0 consumer_key empty_store).1
    × ((t : ℕ) (j : Text)
        → 0 ≤ t
        → live t j (get codec 0 consumer_key empty_store).1 ≡ live t j empty_store)
unfolding get alfa_hackaton.Prelude.Dict.lookup
get_lem_example = get_lem codec 0 consumer_key empty_store empty_store-IsValid

save-Stored_example :
    IsValid 2 (save codec 0 2 7 consumer_key prepared empty_store).1
    × Stored codec tt 0 2 7 consumer_key prepared empty_store
        (save codec 0 2 7 consumer_key prepared empty_store)
save-Stored_example =
    save-Stored codec 0 2 7 consumer_key prepared empty_store (omega arith) empty_store-IsValid

abbrev keep : Option RestorationState → Result (Option RestorationState)
keep o = ok (some prepared)

transition-Ends_example :
    IsValid 3 (transition codec 0 2 3 7 consumer_key keep empty_store).1
    × Ends codec 0 3 7 consumer_key empty_store
        (view codec 2 consumer_key empty_store >>= keep)
        (transition codec 0 2 3 7 consumer_key keep empty_store)
transition-Ends_example =
    transition-Ends codec 0 2 3 7 consumer_key keep empty_store (omega arith) (omega arith)
      empty_store-IsValid

memory_store-KeepsPromise_example :
    ((now : ℕ) → IsValidFor codec 100 now (new_store 100 2))
    × ((now : ℕ) (k : Text) → view codec now k (new_store 100 2) ≡ ok none)
    × KeepsPromise (memory_store codec) 100 capacity_exceeded (IsValidFor codec 100) (view codec)
memory_store-KeepsPromise_example = memory_store-KeepsPromise codec 100 2
