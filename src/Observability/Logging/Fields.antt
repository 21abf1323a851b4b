-- ===== src/Observability/Logging/Fields.antt =====
-- What a line of the log depends on.
use alfa_hackaton.Prelude.{
  ◌≡◌, refl, ap, ◌∙◌, arith, Option, none, some, List, [], ◌∷◌, All, Text, codes, text_eq,
}
use alfa_hackaton.Prelude.Dict.{lookup}
use alfa_hackaton.Core.Yaml.{Yaml, null, text}
use alfa_hackaton.Observability.Logging.{
  LogRecord, Payload, structured_fields, getattr, put, request_id_of, put_fields, put_exception,
  header_of, format,
}

-- the name of the class of an exception
abbrev pub class_of : Option (Option Text × Text) → Option Text
class_of none = none
class_of (some (name, trace)) = name

-- Both records have the attribute, or neither, with the same value.
abbrev pub IsSameAt : LogRecord → LogRecord → Text → Type 0
IsSameAt r s f = lookup text_eq f r.attributes ≡ lookup text_eq f s.attributes

getattr-IsSameAt :
    (r s : LogRecord) (f : Text) (default : Yaml)
    → IsSameAt r s f
    → getattr r f default ≡ getattr s f default
unfolding getattr
getattr-IsSameAt r s f default q = ap (λ o. elim o [ none ↦ default | some v ↦ v ]) q

put_fields-IsSameAt :
    (r s : LogRecord) (fs : List Text) (p : Payload)
    → All (IsSameAt r s) fs
    → put_fields r fs p ≡ put_fields s fs p
unfolding put_fields
put_fields-IsSameAt r s [] p h = refl
put_fields-IsSameAt r s (f ∷ fs) p (q, h) =
    ap (λ v. put_fields r fs (put f v p)) (getattr-IsSameAt r s f null q)
    ∙ put_fields-IsSameAt r s fs _ h

put_exception-class_of :
    (x y : Option (Option Text × Text)) (p : Payload)
    → class_of x ≡ class_of y
    → put_exception x p ≡ put_exception y p
unfolding put_exception
put_exception-class_of none none p h = refl
put_exception-class_of none (some (none, t)) p h = refl
put_exception-class_of none (some (some c, t)) p h = absurd (ground arith)
put_exception-class_of (some (none, t)) none p h = refl
put_exception-class_of (some (none, t)) (some (none, u)) p h = refl
put_exception-class_of (some (none, t)) (some (some c, u)) p h = absurd (ground arith)
put_exception-class_of (some (some c, t)) none p h = absurd (ground arith)
put_exception-class_of (some (some c, t)) (some (none, u)) p h = absurd (ground arith)
put_exception-class_of (some (some c, t)) (some (some d, u)) p h = ground arith

event-IsSameAt :
    (r s : LogRecord)
    → IsSameAt r s (codes "event")
    → (lookup text_eq (codes "event") r.attributes ≡ none → r.message ≡ s.message)
    → getattr r (codes "event") (text r.message) ≡ getattr s (codes "event") (text s.message)
unfolding getattr
event-IsSameAt r s q h = ground (arith, q, h)

header_of-IsSameAt :
    (r s : LogRecord) (current : Yaml)
    → r.created ≡ s.created
    → r.levelname ≡ s.levelname
    → r.name ≡ s.name
    → IsSameAt r s (codes "request_id")
    → getattr r (codes "event") (text r.message) ≡ getattr s (codes "event") (text s.message)
    → header_of r current ≡ header_of s current
unfolding header_of request_id_of
header_of-IsSameAt r s current created level name request event =
    rw (getattr-IsSameAt r s (codes "request_id") null request)
      (rw (created, level, name, event) refl)

-- A line of the log depends on the time, the level, the name of the logger, the listed attributes,
-- the message only where there is no event, and the class of the exception: not on any other
-- attribute of the record, and not on the text or the traceback of the exception.
pub format-IsSameAt :
    (dumps : Payload → Text) (current : Yaml) (r s : LogRecord)
    → r.created ≡ s.created
    → r.levelname ≡ s.levelname
    → r.name ≡ s.name
    → All (IsSameAt r s) structured_fields
    → (lookup text_eq (codes "event") r.attributes ≡ none → r.message ≡ s.message)
    → class_of r.exc_info ≡ class_of s.exc_info
    → format dumps r current ≡ format dumps s current
unfolding format
format-IsSameAt dumps current r s created level name same message exception =
    let (event, (request, rest)) = same in
    ap dumps (
      put_exception-class_of r.exc_info s.exc_info _ exception
      ∙ ap (put_exception s.exc_info) (
          put_fields-IsSameAt r s structured_fields _ same
          ∙ ap (put_fields s structured_fields) (
              header_of-IsSameAt r s current created level name request
                (event-IsSameAt r s event message))))
