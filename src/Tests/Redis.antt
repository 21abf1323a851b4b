-- ===== src/Tests/Redis.antt =====
-- The theorems on app/restoration/redis_store.py at concrete inputs.
use alfa_hackaton.Prelude.{◌≡◌, refl, ℕ, ◌+◌, Option, none, some, [], ◌==◌, if◌then◌else◌}
use alfa_hackaton.Core.Errors.{Result, ok}
use alfa_hackaton.Restoration.State.{RestorationState}
use alfa_hackaton.Restoration.Redis.{Round, save, transition}
use alfa_hackaton.Tests.World.{codec, prepared, consumer_key}
use alfa_hackaton.Tests.Server.{server}

-- Another client stores its state between WATCH and GET of the first attempt, and again between GET
-- and EXEC of the second.
abbrev rounds : ℕ → Round codec server (λ s. s) 100
rounds i =
    let taken = save codec server (λ s. s) 100 1 9 consumer_key prepared [] in
    let again = save codec server (λ s. s) 100 3 9 consumer_key prepared taken in
    record {
      read_at = i + 2;
      write_at = i + 3;
      iv = 5;
      watched = if i == 0 then [] else (if i == 1 then taken else again);
      read = if i == 0 then taken else (if i == 1 then taken else again);
      after = if i == 0 then taken else again;
    }

-- the callback puts its own state in the place of any other: the third attempt takes effect
abbrev replace_any : Option RestorationState → Result (Option RestorationState)
replace_any o = ok (some prepared)

third_attempt :
    (transition codec server (λ s. s) 100 rounds consumer_key replace_any).0 ≡ ok (some prepared)
unfolding transition alfa_hackaton.Prelude.Dict.lookup alfa_hackaton.Prelude.Dict.insert
    alfa_hackaton.Prelude.text_eq alfa_hackaton.Restoration.State.from_json
    alfa_hackaton.Restoration.State.to_json alfa_hackaton.Restoration.State.from_fields
    alfa_hackaton.Restoration.State.to_fields alfa_hackaton.Restoration.State.read_status
    alfa_hackaton.Restoration.State.read_date alfa_hackaton.Restoration.State.read_optional_date
    alfa_hackaton.Restoration.State.read_pairs alfa_hackaton.Restoration.State.read_texts
    alfa_hackaton.Tests.YamlEq.yaml_eq
third_attempt = refl
