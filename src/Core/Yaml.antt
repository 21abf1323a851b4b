-- ===== src/Core/Yaml.antt =====
-- What `yaml.safe_load` and `json.loads` hand to the program: values with string keys.
use alfa_hackaton.Prelude.{
  ℕ, Bool, true, false, not, Option, none, some, [], Text, text_eq, ◌==◌, if◌then◌else◌,
}

mutual
  pub data Yaml : Type 0 where
    null : Yaml
    boolean : Bool → Yaml
    number : ℕ → Yaml
    text : Text → Yaml
    sequence : Items → Yaml
    mapping : Fields → Yaml

  pub data Items : Type 0 where
    nil : Items
    cons : Yaml → Items → Items

  pub data Fields : Type 0 where
    end : Fields
    field : Text → Yaml → Fields → Fields

-- d.get(k)
unfoldable pub get : Text → Fields → Option Yaml
get k end = none
get k (field j v d) = if text_eq j k then some v else get k d

-- bool(v)
unfoldable pub truthy : Yaml → Bool
truthy null = false
truthy (boolean b) = b
truthy (number n) = not (n == 0)
truthy (text s) = not (text_eq s [])
truthy (sequence nil) = false
truthy (sequence (cons _ _)) = true
truthy (mapping end) = false
truthy (mapping (field _ _ _)) = true
