-- ===== src/Detection/Regex/Tables.antt =====
-- app/detection/regex/detector.py: the tables of the detector.
use alfa_hackaton.Prelude.{ℕ, Option, none, some, List, [], ◌∷◌, Text, codes}
use alfa_hackaton.Core.Enums.{
  PiiType, person_name, birth_date, birth_place, passport_number, citizenship, passport_issuer,
  passport_division_code, passport_issue_date, driver_license, address, country, postal_code, city,
  street, house, apartment, email, phone, inn, bank_card, cvv, pin, cardholder_name,
}
use alfa_hackaton.Detection.Regex.Patterns.{
  email_re, phone_re, bank_card_re, inn_re, passport_number_re, passport_division_code_re,
  birth_date_re, cvv_re, pin_re, person_name_re, birth_place_re, citizenship_re, passport_issuer_re,
  passport_issue_date_re, driver_license_re, address_re, country_re, postal_code_re, city_re,
  street_re, house_re, apartment_re, cardholder_name_re,
}

-- `_RULES`, in the order of its iteration
unfoldable pub rules : List (PiiType × Text)
rules =
    (email, email_re)
    ∷ (phone, phone_re)
    ∷ (bank_card, bank_card_re)
    ∷ (inn, inn_re)
    ∷ (passport_number, passport_number_re)
    ∷ (passport_division_code, passport_division_code_re)
    ∷ (birth_date, birth_date_re)
    ∷ (cvv, cvv_re)
    ∷ (pin, pin_re)
    ∷ (person_name, person_name_re)
    ∷ (birth_place, birth_place_re)
    ∷ (citizenship, citizenship_re)
    ∷ (passport_issuer, passport_issuer_re)
    ∷ (passport_issue_date, passport_issue_date_re)
    ∷ (driver_license, driver_license_re)
    ∷ (address, address_re)
    ∷ (country, country_re)
    ∷ (postal_code, postal_code_re)
    ∷ (city, city_re)
    ∷ (street, street_re)
    ∷ (house, house_re)
    ∷ (apartment, apartment_re)
    ∷ (cardholder_name, cardholder_name_re)
    ∷ []

-- `_GROUPED_TYPES`
unfoldable pub grouped_types : List PiiType
grouped_types =
    person_name ∷ birth_place ∷ citizenship ∷ passport_issuer ∷ passport_issue_date ∷ driver_license
    ∷ address ∷ country ∷ postal_code ∷ city ∷ street ∷ house ∷ apartment ∷ cardholder_name ∷ []

-- `_MARKER_WINDOW`
abbrev pub marker_window : ℕ
marker_window = 40

-- `_MARKER_TYPES.get(t)`
unfoldable pub markers_of : PiiType → Option (List Text)
markers_of cvv = some (codes "cvv" ∷ codes "cvc" ∷ codes "код проверки" ∷ [])
markers_of pin = some (codes "pin" ∷ codes "пин" ∷ [])
markers_of birth_date = some (
    codes "г.р."
    ∷ codes "дата рожд"
    ∷ codes "дата рождения"
    ∷ codes "род."
    ∷ codes "родился"
    ∷ codes "родилась"
    ∷ [])
markers_of passport_number = some (codes "паспорт" ∷ codes "серия" ∷ codes "выдан" ∷ [])
markers_of _ = none

-- `_COUNTRY_NAMES`
unfoldable pub country_names : List Text
country_names =
    codes "российская федерация"
    ∷ codes "российской федерации"
    ∷ codes "рф"
    ∷ codes "россия"
    ∷ codes "россии"
    ∷ codes "республика беларусь"
    ∷ codes "республики беларусь"
    ∷ codes "беларусь"
    ∷ codes "беларуси"
    ∷ codes "казахстан"
    ∷ codes "казахстана"
    ∷ codes "республика казахстан"
    ∷ codes "республики казахстан"
    ∷ codes "украина"
    ∷ codes "украины"
    ∷ codes "узбекистан"
    ∷ codes "узбекистана"
    ∷ codes "армения"
    ∷ codes "армении"
    ∷ codes "грузия"
    ∷ codes "грузии"
    ∷ codes "таджикистан"
    ∷ codes "таджикистана"
    ∷ codes "киргизия"
    ∷ codes "киргизии"
    ∷ codes "молдова"
    ∷ codes "молдовы"
    ∷ codes "туркменистан"
    ∷ codes "туркменистана"
    ∷ codes "азербайджан"
    ∷ codes "азербайджана"
    ∷ codes "литва"
    ∷ codes "литвы"
    ∷ codes "латвия"
    ∷ codes "латвии"
    ∷ codes "эстония"
    ∷ codes "эстонии"
    ∷ []

-- `_ADDRESS_COMPONENT_TYPES`
unfoldable pub address_component_types : List PiiType
address_component_types = address ∷ city ∷ street ∷ house ∷ apartment ∷ postal_code ∷ phone ∷ []

-- the words of `_is_bank_context`
unfoldable pub bank_words : List Text
bank_words = codes "банк" ∷ codes "отделение" ∷ []

unfoldable pub personal_words : List Text
personal_words =
    codes "личный"
    ∷ codes "личного"
    ∷ codes "личному"
    ∷ codes "мой"
    ∷ codes "моя"
    ∷ codes "моего"
    ∷ codes "его"
    ∷ codes "её"
    ∷ codes "ее"
    ∷ codes "клиента"
    ∷ codes "клиент"
    ∷ codes "заявителя"
    ∷ codes "пациента"
    ∷ codes "сотрудника"
    ∷ []
