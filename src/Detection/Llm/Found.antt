-- ===== src/Detection/Llm/Found.antt =====
-- What the detector finds.
use alfa_hackaton.Prelude.{
  ℕ, ◌+◌, ◌≤◌, ◌≡◌, refl, ap, ◌∙◌, true, Option, none, some, List, [], ◌∷◌, Text, slice, length,
  codes,
}
use alfa_hackaton.Prelude.Int.{pos}
use alfa_hackaton.Prelude.Search.{find, find-slice}
use alfa_hackaton.Core.Enums.{PiiType, parse_pii_type}
use alfa_hackaton.Core.Errors.{Result, ok, ◌>>=◌}
use alfa_hackaton.Core.Models.{PiiEntity, DetectionContext}
use alfa_hackaton.Core.Yaml.{Yaml, Items}
use alfa_hackaton.Detection.Llm.{
  or_nothing, needle_of, type_or_skip, get_item, iterate, entity_at, entity_found, parse_items,
  parse_response, detect,
}

-- An entity at the first place where its value stands in the text.
pub record IsFirst (text : Text) (e : PiiEntity) : Type 0 where
  pub start : ℕ
  pub found : find e.value text ≡ some start
  pub starts : e.start ≡ pos start
  pub ends : e.end ≡ pos (start + length e.value)
  pub stands : slice text start (start + length e.value) ≡ e.value
  pub inside : start + length e.value ≤ length text

-- An item of an answer names a type and a value.
abbrev pub IsItem : Yaml → Text → Text → Type 0
IsItem item kind needle =
    (get_item (codes "type") item ≡ ok (Yaml.text kind))
    × (get_item (codes "text") item ≡ ok (Yaml.text needle))

-- The items of an answer and what they name.
abbrev pub AreItems : Items → List (Text × Text) → Type 0
AreItems Items.nil [] = Unit
AreItems (Items.cons item l) ((kind, needle) ∷ named) = IsItem item kind needle × AreItems l named
AreItems _ _ = ⊥

-- What a model answered: a document with a list of items under the key of the entities.
pub record IsAnswer (loads : Text → Option Yaml) (response : Text) (named : List (Text × Text))
    : Type 0 where
  pub payload : Yaml
  pub entities : Yaml
  pub items : Items
  pub read : loads response ≡ some payload
  pub listed : get_item (codes "entities") payload ≡ ok entities
  pub iterated : iterate entities ≡ ok items
  pub are_items : AreItems items named

-- The entities are those that the items name, in order: one for each item of a known type whose value
-- stands in the text, none for the others.
pub data Reports (text : Text) : List (Text × Text) → List PiiEntity → Type 0 where
  done : Reports text [] []
  unknown :
      {kind needle : Text} {named : List (Text × Text)} {es : List PiiEntity}
      → parse_pii_type kind ≡ none
      → Reports text named es
      → Reports text ((kind, needle) ∷ named) es
  absent :
      {kind needle : Text} {named : List (Text × Text)} {es : List PiiEntity}
      → find needle text ≡ none
      → Reports text named es
      → Reports text ((kind, needle) ∷ named) es
  reported :
      {kind needle : Text} {named : List (Text × Text)} {es : List PiiEntity} (e : PiiEntity)
      → parse_pii_type kind ≡ some e.type
      → e.value ≡ needle
      → IsFirst text e
      → Reports text named es
      → Reports text ((kind, needle) ∷ named) (e ∷ es)

bind_ok : {A B : Type 0} (x : Result A) (a : A) (f : A → Result B) → x ≡ ok a → (x >>= f) ≡ f a
bind_ok x a f h = rw h refl

module _ (text : Text) where
  -- What the loop gives for the items.
  abbrev Gives : List (Text × Text) → Result (List PiiEntity) → Type 0
  Gives named out = (es : List PiiEntity) × (out ≡ ok es) × Reports text named es

  entity_at-IsFirst :
      (t : PiiType) (needle : Text) (i : ℕ)
      → find needle text ≡ some i
      → IsFirst text (entity_at t needle i)
  unfolding entity_at
  entity_at-IsFirst t needle i e =
      let (stands, inside) = find-slice needle text i (i + length needle) e refl in
      record { start = i; found = e; starts = refl; ends = refl; stands = stands; inside = inside }

  entity_found-Reports :
      (kind needle : Text) (t : PiiType) (o : Option ℕ) (named : List (Text × Text))
      (rest : List PiiEntity)
      → parse_pii_type kind ≡ some t
      → find needle text ≡ o
      → Reports text named rest
      → Reports text ((kind, needle) ∷ named) (entity_found t needle o rest)
  unfolding entity_found
  entity_found-Reports kind needle t none named rest known f h = absent f h
  entity_found-Reports kind needle t (some i) named rest known f h =
      reported (entity_at t needle i) (known ∙ unfold entity_at in refl) (unfold entity_at in refl)
        (entity_at-IsFirst t needle i f) h

  -- What an item adds to the entities of the later ones, with its type, if it is known.
  abbrev named_by : Option PiiType → Text → List PiiEntity → List PiiEntity
  named_by none needle es = es
  named_by (some t) needle es = entity_found t needle (find needle text) es

  named_by-Reports :
      (kind needle : Text) (o : Option PiiType) (named : List (Text × Text)) (es : List PiiEntity)
      → parse_pii_type kind ≡ o
      → Reports text named es
      → Reports text ((kind, needle) ∷ named) (named_by o needle es)
  named_by-Reports kind needle none named es q h = unknown q h
  named_by-Reports kind needle (some t) named es q h =
      entity_found-Reports kind needle t (find needle text) named es q refl h

  item-named_by :
      (o : Option PiiType) (item : Yaml) (needle : Text) (rest : Result (List PiiEntity))
      (es : List PiiEntity)
      → get_item (codes "text") item ≡ ok (Yaml.text needle)
      → rest ≡ ok es
      → (elim o [
        | none ↦ rest
        | some t ↦ get_item (codes "text") item >>= λ v. needle_of v >>= λ needle.
            rest >>= λ es. ok (entity_found t needle (find needle text) es)
      ])
        ≡ ok (named_by o needle es)
  unfolding needle_of
  item-named_by none item needle rest es valued q = q
  item-named_by (some t) item needle rest es valued q = rw valued (rw q refl)

  parse_items-Reports :
      (l : Items) (named : List (Text × Text)) → AreItems l named → Gives named (parse_items text l)
  unfolding parse_items type_or_skip
  parse_items-Reports Items.nil [] h = ([], refl, done)
  parse_items-Reports Items.nil (n ∷ named) h = elim h [ ]
  parse_items-Reports (Items.cons item l) [] h = elim h [ ]
  parse_items-Reports (Items.cons item l) ((kind, needle) ∷ named) ((typed, valued), h) =
      let (es, rest, reports) = parse_items-Reports l named h in
      (
        named_by (parse_pii_type kind) needle es,
        bind_ok (get_item (codes "type") item) (Yaml.text kind) _ typed
            ∙ item-named_by (parse_pii_type kind) item needle (parse_items text l) es valued rest,
        named_by-Reports kind needle (parse_pii_type kind) named es refl reports,
      )

  response_items :
      (loads : Text → Option Yaml) (complete : Text → Result Text) (response : Text)
      (named : List (Text × Text)) (a : IsAnswer loads response named)
      → parse_response loads complete text response ≡ parse_items text a.items
  unfolding parse_response
  response_items loads complete response named a =
      rw (a.read, parse_response)
        (bind_ok (get_item (codes "entities") a.payload) a.entities _ a.listed
          ∙ bind_ok (iterate a.entities) a.items _ a.iterated)

  -- Where the model gives a well-formed answer, whose items each name a type and a value, the enabled
  -- detector does not fail, and it reports exactly what the items name, in order: one entity for each item
  -- of a known type whose value stands in the text, at the first place where it stands, and none for
  -- the other items.
  pub detect-Reports :
      (loads : Text → Option Yaml) (complete : Text → Result Text) (context : DetectionContext)
      (response : Text) (named : List (Text × Text))
      → complete text ≡ ok response
      → IsAnswer loads response named
      → (es : List PiiEntity) × (detect loads complete true text context ≡ ok es)
        × Reports text named es
  unfolding detect
  detect-Reports loads complete context response named answered a =
      let given =
        bind_ok (complete text) response (parse_response loads complete text) answered
        ∙ response_items loads complete response named a in
      let (es, parsed, reports) = parse_items-Reports a.items named a.are_items in
      (es, ap (λ x. ok (or_nothing loads complete x)) (given ∙ parsed), reports)
