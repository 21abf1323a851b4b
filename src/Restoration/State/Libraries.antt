-- ===== src/Restoration/State/Libraries.antt =====
-- What the stores use of libraries: `json`, `datetime` and Fernet, with what is documented of them.
use alfa_hackaton.Prelude.{ℕ, ◌≡◌, ◌≢◌, Option, some, [], Text}
use alfa_hackaton.Core.Yaml.{Yaml}

pub record Codec : Type 1 where
  -- a JSON text
  pub Document : Type 0
  pub dumps : Yaml → Document
  pub loads : Document → Option Yaml
  pub loads-dumps : (v : Yaml) → loads (dumps v) ≡ some v
  pub isoformat : ℕ → Text
  pub fromisoformat : Text → Option ℕ
  pub fromisoformat-isoformat : (t : ℕ) → fromisoformat (isoformat t) ≡ some t
  pub isoformat-ne_nil : (t : ℕ) → isoformat t ≢ []
  -- A Fernet token holds a random part, the first argument.
  pub Token : Type 0
  pub encrypt : ℕ → Document → Token
  -- `none` is InvalidToken.
  pub decrypt : Token → Option Document
  pub decrypt-encrypt : (iv : ℕ) (s : Document) → decrypt (encrypt iv s) ≡ some s
