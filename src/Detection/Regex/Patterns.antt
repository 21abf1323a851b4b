-- ===== src/Detection/Regex/Patterns.antt =====
-- app/detection/regex/detector.py: the patterns, in the language of `re`.
use alfa_hackaton.Prelude.{◌++◌, Text, codes}

unfoldable pub email_re : Text
email_re = codes "[A-Za-z0-9._%+-]+@[A-Za-z0-9.-]+\\.[A-Za-z]{2,}"

unfoldable pub phone_re : Text
phone_re =
    codes "(?<!\\d)(?:\\+7|8)[\\s\\-]?(?:\\(\\d{3}\\)|\\d{3})[\\s\\-]?\\d{3}[\\s\\-]?\\d{2}[\\s\\"
    ++ codes "-]?\\d{2}(?!\\d)"

unfoldable pub bank_card_re : Text
bank_card_re = codes "(?<!\\d)(?:\\d[\\s\\-]?){12,18}\\d(?!\\d)"

unfoldable pub inn_re : Text
inn_re = codes "(?<!\\d)\\d{10}(?!\\d)|(?<!\\d)\\d{12}(?!\\d)"

unfoldable pub passport_number_re : Text
passport_number_re = codes "(?<!\\d)\\d{4}\\s?\\d{6}(?!\\d)"

unfoldable pub passport_division_code_re : Text
passport_division_code_re = codes "(?<!\\d)\\d{3}-\\d{3}(?!\\d)"

unfoldable pub birth_date_re : Text
birth_date_re =
    codes "(?<!\\d)(?:\\d{2}[./]\\d{2}[./]\\d{4}|\\d{4}-\\d{2}-\\d{2}|\\d{1,2}\\s+\\w+\\s+\\d"
    ++ codes "{4})(?!\\d)"

unfoldable pub cvv_re : Text
cvv_re = codes "(?<!\\d)\\d{3,4}(?!\\d)"

unfoldable pub pin_re : Text
pin_re = codes "(?<!\\d)\\d{4}(?!\\d)"

unfoldable pub person_name_re : Text
person_name_re =
    codes "(?i:клиент|гражданин|гражданка|заявитель|пациент|сотрудник|менеджер|"
    ++ codes "директор|держатель|владелец|представитель|покупатель|абонент|"
    ++ codes "пользователь|получатель|отправитель)\\s+"
    ++ codes "([А-ЯЁ][а-яё]+(?:\\s+[А-ЯЁ][а-яё]+){0,2})"

unfoldable pub birth_place_re : Text
birth_place_re =
    codes "(?i:место рождения|родился в|родилась в|уроженец|уроженка|родом из)\\s*"
    ++ codes ":?\\s*[—–-]?\\s*"
    ++ codes "(?:г\\.\\s*|городе\\s+|города\\s+|город\\s+|село\\s+|села\\s+|с\\.\\s*|"
    ++ codes "деревня\\s+|деревни\\s+|д\\.\\s*)?"
    ++ codes "([А-ЯЁ][а-яё]+(?:-[а-яё]+-[А-ЯЁ][а-яё]+|-[А-ЯЁ][а-яё]+)*"
    ++ codes "(?:\\s+[А-ЯЁ][а-яё]+(?:-[а-яё]+-[А-ЯЁ][а-яё]+|-[А-ЯЁ][а-яё]+)*){0,1}"
    ++ codes "(?:\\s+[А-ЯЁ][а-яё]+(?:ской|ского|ский|ого|ая|ое)\\s+(?:области|область|"
    ++ codes "обл\\.|района|район|края|край))?)"

unfoldable pub citizenship_re : Text
citizenship_re =
    codes "(?i:гражданство|гражданин|гражданка)\\s*:?\\s*"
    ++ codes "([А-ЯЁ][А-ЯЁа-яё]*(?:\\s+[А-ЯЁ][А-ЯЁа-яё]*){0,2})"

unfoldable pub passport_issuer_re : Text
passport_issuer_re =
    codes "(?i:кем выдан|выдан\\b|выдано\\b|орган, выдавший)\\s*:?\\s*"
    ++ codes "([А-ЯЁа-яё0-9№-]+\\.?(?:\\s+[А-ЯЁа-яё0-9№-]+\\.?)*)"

unfoldable pub passport_issue_date_re : Text
passport_issue_date_re =
    codes "(?i:дата выдачи|выдан|выдано)(?:[^0-9]{0,80}?)"
    ++ codes "(\\d{2}[./]\\d{2}[./]\\d{4}|\\d{4}-\\d{2}-\\d{2})"

unfoldable pub driver_license_re : Text
driver_license_re =
    codes "(?i:водительское удостоверение|водительские права|права|в\\.у\\.|ву)\\s*:"
    ++ codes "?\\s*"
    ++ codes "(\\d{2}\\s?[А-ЯЁ]{2}\\s?\\d{6}|\\d{2}\\s?\\d{2}\\s?\\d{6}|\\d{10})"

unfoldable pub address_re : Text
address_re =
    codes "(?i:адрес регистрации|адрес проживания|адрес|место жительства|"
    ++ codes "место регистрации|проживает|живет|живёт|"
    ++ codes "зарегистрирован|зарегистрирована|прописан|прописана)"
    ++ codes "(?:\\s+по\\s+адресу)?\\s*:?\\s*"
    ++ codes "((?:[А-ЯЁа-яё0-9-]+\\.?\\s*[,.]?\\s*){2,10})"

unfoldable pub country_re : Text
country_re = codes "(?i:страна)\\s*:?\\s*([А-ЯЁ][а-яё]+(?:\\s+[А-ЯЁ][а-яё]+)?)"

unfoldable pub postal_code_re : Text
postal_code_re = codes "(?i:индекс|почтовый индекс)\\s*:?\\s*(\\d{6})"

unfoldable pub city_re : Text
city_re = codes "(?i:город|г\\.)\\s*:?\\s*([А-ЯЁ][а-яё]+(?:-[А-ЯЁ][а-яё]+)?)"

unfoldable pub street_re : Text
street_re =
    codes "(?i:улица|ул\\.|проспект|пр-т|переулок|пер\\.)\\s*:?\\s*"
    ++ codes "([А-ЯЁ][а-яё]+(?:\\s+[А-ЯЁ][а-яё]+)?)"

unfoldable pub house_re : Text
house_re = codes "(?i:дом|д\\.)\\s*:?\\s*(\\d{1,4}(?:[А-ЯЁа-яё])?)"

unfoldable pub apartment_re : Text
apartment_re = codes "(?i:квартира|кв\\.)\\s*:?\\s*(\\d{1,4})"

unfoldable pub cardholder_name_re : Text
cardholder_name_re =
    codes "(?i:держатель карты|cardholder|имя на карте|владелец карты)\\s*:?\\s*"
    ++ codes "([A-ZА-ЯЁ][A-Za-zА-ЯЁа-яё]+(?:\\s+[A-ZА-ЯЁ][A-Za-zА-ЯЁа-яё]+)?)"
