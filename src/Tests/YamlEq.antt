-- ===== src/Tests/YamlEq.antt =====
-- A test of equality of the values of json, for the server of the tests.
use alfa_hackaton.Prelude.{
  ◌≡◌, refl, ap, Bool, true, false, not, ◌&&◌, Text, text_eq, text_eq_iff, text_eq_refl, ◌==◌,
  arith,
}
use alfa_hackaton.Core.Yaml.{
  Yaml, null, boolean, number, text, sequence, mapping, Items, nil, cons, Fields, end, field,
}

abbrev same_boolean : Bool → Bool → Bool
same_boolean true b = b
same_boolean false b = not b

unfoldable mutual
  pub yaml_eq : Yaml → Yaml → Bool
  yaml_eq null null = true
  yaml_eq (boolean a) (boolean b) = same_boolean a b
  yaml_eq (number a) (number b) = a == b
  yaml_eq (text a) (text b) = text_eq a b
  yaml_eq (sequence a) (sequence b) = items_eq a b
  yaml_eq (mapping a) (mapping b) = fields_eq a b
  yaml_eq _ _ = false

  pub items_eq : Items → Items → Bool
  items_eq nil nil = true
  items_eq (cons v l) (cons w m) = yaml_eq v w && items_eq l m
  items_eq _ _ = false

  pub fields_eq : Fields → Fields → Bool
  fields_eq end end = true
  fields_eq (field j v d) (field k w e) = text_eq j k && (yaml_eq v w && fields_eq d e)
  fields_eq _ _ = false

both : (a b : Bool) → a && b ≡ true → (a ≡ true) × (b ≡ true)
both a b h = ground arith

same_field :
    (j k : Text) (v w : Yaml) (d e : Fields) → j ≡ k → v ≡ w → d ≡ e → field j v d ≡ field k w e
same_field j k v w d e p q r = cc (p, q, r)

mutual
  unfolding yaml_eq items_eq fields_eq

  pub yaml_eq_sound : (v w : Yaml) → yaml_eq v w ≡ true → v ≡ w
  yaml_eq_sound null null h = refl
  yaml_eq_sound null (boolean b') h = absurd (ground arith)
  yaml_eq_sound null (number n') h = absurd (ground arith)
  yaml_eq_sound null (text s') h = absurd (ground arith)
  yaml_eq_sound null (sequence l') h = absurd (ground arith)
  yaml_eq_sound null (mapping d') h = absurd (ground arith)
  yaml_eq_sound (boolean b) null h = absurd (ground arith)
  yaml_eq_sound (boolean b) (boolean b') h = ground arith
  yaml_eq_sound (boolean b) (number n') h = absurd (ground arith)
  yaml_eq_sound (boolean b) (text s') h = absurd (ground arith)
  yaml_eq_sound (boolean b) (sequence l') h = absurd (ground arith)
  yaml_eq_sound (boolean b) (mapping d') h = absurd (ground arith)
  yaml_eq_sound (number n) null h = absurd (ground arith)
  yaml_eq_sound (number n) (boolean b') h = absurd (ground arith)
  yaml_eq_sound (number n) (number n') h = ground arith
  yaml_eq_sound (number n) (text s') h = absurd (ground arith)
  yaml_eq_sound (number n) (sequence l') h = absurd (ground arith)
  yaml_eq_sound (number n) (mapping d') h = absurd (ground arith)
  yaml_eq_sound (text s) null h = absurd (ground arith)
  yaml_eq_sound (text s) (boolean b') h = absurd (ground arith)
  yaml_eq_sound (text s) (number n') h = absurd (ground arith)
  yaml_eq_sound (text s) (text s') h = ground (arith, text_eq_iff s s')
  yaml_eq_sound (text s) (sequence l') h = absurd (ground arith)
  yaml_eq_sound (text s) (mapping d') h = absurd (ground arith)
  yaml_eq_sound (sequence l) null h = absurd (ground arith)
  yaml_eq_sound (sequence l) (boolean b') h = absurd (ground arith)
  yaml_eq_sound (sequence l) (number n') h = absurd (ground arith)
  yaml_eq_sound (sequence l) (text s') h = absurd (ground arith)
  yaml_eq_sound (sequence l) (sequence l') h = ap sequence (items_eq_sound l l' h)
  yaml_eq_sound (sequence l) (mapping d') h = absurd (ground arith)
  yaml_eq_sound (mapping d) null h = absurd (ground arith)
  yaml_eq_sound (mapping d) (boolean b') h = absurd (ground arith)
  yaml_eq_sound (mapping d) (number n') h = absurd (ground arith)
  yaml_eq_sound (mapping d) (text s') h = absurd (ground arith)
  yaml_eq_sound (mapping d) (sequence l') h = absurd (ground arith)
  yaml_eq_sound (mapping d) (mapping d') h = ap mapping (fields_eq_sound d d' h)

  items_eq_sound : (l m : Items) → items_eq l m ≡ true → l ≡ m
  items_eq_sound nil nil h = refl
  items_eq_sound nil (cons w m) h = absurd (ground arith)
  items_eq_sound (cons v l) nil h = absurd (ground arith)
  items_eq_sound (cons v l) (cons w m) h = ground (arith, yaml_eq_sound v w, items_eq_sound l m)

  fields_eq_sound : (d e : Fields) → fields_eq d e ≡ true → d ≡ e
  fields_eq_sound end end h = refl
  fields_eq_sound end (field k w e) h = absurd (ground arith)
  fields_eq_sound (field j v d) end h = absurd (ground arith)
  fields_eq_sound (field j v d) (field k w e) h =
      let (p, q) = both (text_eq j k) (yaml_eq v w && fields_eq d e) h in
      let (q', r) = both (yaml_eq v w) (fields_eq d e) q in
      same_field j k v w d e ((text_eq_iff j k).0 p) (yaml_eq_sound v w q') (fields_eq_sound d e r)

mutual
  unfolding yaml_eq items_eq fields_eq

  pub yaml_eq_refl : (v : Yaml) → yaml_eq v v ≡ true
  yaml_eq_refl null = refl
  yaml_eq_refl (boolean true) = refl
  yaml_eq_refl (boolean false) = refl
  yaml_eq_refl (number n) = ground arith
  yaml_eq_refl (text s) = text_eq_refl s
  yaml_eq_refl (sequence l) = items_eq_refl l
  yaml_eq_refl (mapping d) = fields_eq_refl d

  items_eq_refl : (l : Items) → items_eq l l ≡ true
  items_eq_refl nil = refl
  items_eq_refl (cons v l) = ground (arith, yaml_eq_refl v, items_eq_refl l)

  fields_eq_refl : (d : Fields) → fields_eq d d ≡ true
  fields_eq_refl end = refl
  fields_eq_refl (field k v d) = ground (arith, text_eq_refl k, yaml_eq_refl v, fields_eq_refl d)
