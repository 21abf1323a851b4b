-- ===== src/Core/Enums.antt =====
-- app/core/enums.py: the enums, their string values, and parsing a value back.
use alfa_hackaton.Prelude.{
  ℕ, ◌≡◌, refl, ap, ◌↔◌, Bool, true, Option, none, some, List, [], ◌∷◌, Text, codes, text_eq, ◌==◌,
  ==_iff, if◌then◌else◌, get_elem?,
}

pub data PiiType : Type 0 where
  person_name birth_date birth_place : PiiType
  passport_number citizenship passport_issuer passport_division_code passport_issue_date : PiiType
  driver_license : PiiType
  address country postal_code city street house apartment : PiiType
  email phone inn : PiiType
  bank_card cvv pin cardholder_name : PiiType

pub data MaskingStrategy : Type 0 where
  full_mask partial_mask tokenize synthetic : MaskingStrategy

pub data Operation : Type 0 where
  mask demask : Operation

pub data RestorationStateStatus : Type 0 where
  masked demasked : RestorationStateStatus

-- `t.value`, the string of the member
unfoldable pub value : PiiType → Text
value person_name = codes "PERSON_NAME"
value birth_date = codes "BIRTH_DATE"
value birth_place = codes "BIRTH_PLACE"
value passport_number = codes "PASSPORT_NUMBER"
value citizenship = codes "CITIZENSHIP"
value passport_issuer = codes "PASSPORT_ISSUER"
value passport_division_code = codes "PASSPORT_DIVISION_CODE"
value passport_issue_date = codes "PASSPORT_ISSUE_DATE"
value driver_license = codes "DRIVER_LICENSE"
value address = codes "ADDRESS"
value country = codes "COUNTRY"
value postal_code = codes "POSTAL_CODE"
value city = codes "CITY"
value street = codes "STREET"
value house = codes "HOUSE"
value apartment = codes "APARTMENT"
value email = codes "EMAIL"
value phone = codes "PHONE"
value inn = codes "INN"
value bank_card = codes "BANK_CARD"
value cvv = codes "CVV"
value pin = codes "PIN"
value cardholder_name = codes "CARDHOLDER_NAME"

-- the members in the order of their declaration
unfoldable pub members : List PiiType
members =
    person_name ∷ birth_date ∷ birth_place ∷ passport_number ∷ citizenship ∷ passport_issuer
    ∷ passport_division_code ∷ passport_issue_date ∷ driver_license ∷ address ∷ country
    ∷ postal_code ∷ city ∷ street ∷ house ∷ apartment ∷ email ∷ phone ∷ inn ∷ bank_card ∷ cvv ∷ pin
    ∷ cardholder_name ∷ []

find_value : Text → List PiiType → Option PiiType
find_value s [] = none
find_value s (t ∷ ts) = if text_eq (value t) s then some t else find_value s ts

-- `PIIType(s)`; `none` is the ValueError
unfoldable pub parse_pii_type : Text → Option PiiType
unfolding find_value members
parse_pii_type s = find_value s members

-- `MaskingStrategy(s)`; `none` is the ValueError
unfoldable pub parse_strategy : Text → Option MaskingStrategy
parse_strategy s =
    if text_eq (codes "FULL_MASK") s
    then some full_mask
    else if text_eq (codes "PARTIAL_MASK") s
    then some partial_mask
    else if text_eq (codes "TOKENIZE") s
    then some tokenize
    else if text_eq (codes "SYNTHETIC") s
    then some synthetic
    else none

-- `operation.value`
unfoldable pub operation_value : Operation → Text
operation_value mask = codes "MASK"
operation_value demask = codes "DEMASK"

-- `state.value`
unfoldable pub status_value : RestorationStateStatus → Text
status_value masked = codes "MASKED"
status_value demasked = codes "DEMASKED"

-- `RestorationStateStatus(s)`; `none` is the ValueError
unfoldable pub parse_status : Text → Option RestorationStateStatus
parse_status s =
    if text_eq (codes "MASKED") s
    then some masked
    else if text_eq (codes "DEMASKED") s
    then some demasked
    else none

-- the place of a member among `members`
unfoldable pub type_index : PiiType → ℕ
type_index person_name = 0
type_index birth_date = 1
type_index birth_place = 2
type_index passport_number = 3
type_index citizenship = 4
type_index passport_issuer = 5
type_index passport_division_code = 6
type_index passport_issue_date = 7
type_index driver_license = 8
type_index address = 9
type_index country = 10
type_index postal_code = 11
type_index city = 12
type_index street = 13
type_index house = 14
type_index apartment = 15
type_index email = 16
type_index phone = 17
type_index inn = 18
type_index bank_card = 19
type_index cvv = 20
type_index pin = 21
type_index cardholder_name = 22

-- s == t of two members
unfoldable pub type_eq : PiiType → PiiType → Bool
unfolding type_index
type_eq s t = type_index s == type_index t

get_members-type_index : (t : PiiType) → get_elem? members (type_index t) ≡ some t
unfolding members type_index
get_members-type_index person_name = refl
get_members-type_index _ = refl

-- The string value of a member parses back to the member.
pub parse_pii_type-value : (t : PiiType) → parse_pii_type (value t) ≡ some t
unfolding parse_pii_type value text_eq
parse_pii_type-value person_name = refl
parse_pii_type-value _ = refl

pub type_eq_refl : (t : PiiType) → type_eq t t ≡ true
unfolding type_eq
type_eq_refl person_name = refl
type_eq_refl _ = refl

pub type_eq_sound : (s t : PiiType) → type_eq s t ≡ true → s ≡ t
type_eq_sound s t h =
    let e : type_index s ≡ type_index t =
      (unfold type_eq in (==_iff (type_index s) (type_index t)).0 h) in
    cc (get_members-type_index s, get_members-type_index t, ap (get_elem? members) e)

pub type_eq_iff : (s t : PiiType) → (type_eq s t ≡ true) ↔ (s ≡ t)
type_eq_iff s t = (type_eq_sound s t, λ e. rw (← e) (type_eq_refl s))
