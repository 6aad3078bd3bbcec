-- ===== src/Codec/RoundTrip.antt =====
-- Decoding takes back what the tagged encoding gives.
use doxajs.Base.{
  String, Bool, true, false, Option, some, ◌≡◌, refl, ap, subst, Bool-cases, bind-eq-some, ◌∙◌,
  of_some, inl, inr, str_eq, if◌then◌else◌, ◌>>=?◌,
}
use doxajs.Js.{
  Value, undefined, null, bool, number, string, array, object, instance_of, Items, nil, cons,
  Fields, end, field, property, has_own, key_count,
}
use doxajs.Codec.{
  DateTimeTag, graphite, instant, local_date, duration, tag_name, tag_named, object_tag, DateTimes,
  Representation, tagged, encode_instance, encode_object, encode, encode_items, encode_fields,
  encode_date_time_values, decode, decode_items, decode_fields,
}
use doxajs.Codec.Equations.{
  encode-array, encode-object, encode-instance, encode_items-cons, encode_fields-field,
  decode-array, decode-object, decode_items-cons, decode_fields-field, decode_inner-field,
  decode_entries-object,
}

tag_named-tag_name : (t : DateTimeTag) → tag_named (tag_name t) ≡ some t
tag_named-tag_name graphite = refl
tag_named-tag_name instant = refl
tag_named-tag_name local_date = refl
tag_named-tag_name duration = refl

tag_name-ne : (t : DateTimeTag) → str_eq (tag_name t) object_tag ≡ false
tag_name-ne graphite = refl
tag_name-ne instant = refl
tag_name-ne local_date = refl
tag_name-ne duration = refl

-- Reading back what an instance prints gives the instance.
abbrev pub IsRestored : {D : Type 0} → DateTimes D → D → Type 0
IsRestored dt d = (t : DateTimeTag) → dt.tag_of d ≡ some t → dt.parse t (dt.print d) ≡ some d

module _ {N D : Type 0} (is_finite : N → Bool) (dt : DateTimes D) where
  unfoldable mutual
    -- So for every instance in a value.
    pub Restores : Value N D → Type 0
    Restores undefined = Unit
    Restores null = Unit
    Restores (bool b) = Unit
    Restores (number n) = Unit
    Restores (string s) = Unit
    Restores (array xs) = RestoresItems xs
    Restores (object fs) = RestoresFields fs
    Restores (instance_of d) = IsRestored dt d

    pub RestoresItems : Items N D → Type 0
    RestoresItems nil = Unit
    RestoresItems (cons v xs) = Restores v × RestoresItems xs

    pub RestoresFields : Fields N D → Type 0
    RestoresFields end = Unit
    RestoresFields (field k v fs) = Restores v × RestoresFields fs

  decode_instance :
      (d : D) (t : DateTimeTag)
      → dt.parse t (dt.print d) ≡ some d
      → decode is_finite dt (encode_instance is_finite dt tagged t (dt.print d))
        ≡ some (instance_of d)
  unfolding decode property has_own key_count
  decode_instance d t e = rw (tag_name-ne t, tag_named-tag_name t, e)

  decode_wrapped :
      (gs : Fields N D) (o : Option (Value N D))
      → (decode_fields is_finite dt gs >>=? λ hs. some (object hs)) ≡ o
      → decode is_finite dt (encode_object is_finite dt tagged true gs) ≡ o
  unfolding has_own property key_count
  decode_wrapped gs o e =
      rw (decode-object, decode_inner-field, decode_inner-field, decode_entries-object) e

  decode_plain :
      (gs : Fields N D)
      → has_own "$doxa" gs ≡ false
      → decode is_finite dt (object gs)
        ≡ (decode_fields is_finite dt gs >>=? λ hs. some (object hs))
  decode_plain gs lacks = rw (decode-object, lacks)

  encode_fields-field_inv :
      (r : Representation) (k : String) (v : Value N D) (fs gs : Fields N D)
      → encode_fields is_finite dt r (field k v fs) ≡ some gs
      → (w : Value N D) × (hs : Fields N D) × (encode is_finite dt r v ≡ some w)
        × (encode_fields is_finite dt r fs ≡ some hs)
        × (field k w hs ≡ gs)
  encode_fields-field_inv r k v fs gs e =
      let (w, ew, rest) = bind-eq-some (encode is_finite dt r v) _ (rw encode_fields-field at e) in
      let (hs, eh, same) = bind-eq-some (encode_fields is_finite dt r fs) _ rest in
      (w, hs, ew, eh, of_some same)

  ends : (gs : Fields N D) → encode_fields is_finite dt tagged end ≡ some gs → end ≡ gs
  unfolding encode
  ends gs e = of_some e

  -- The keys stay.
  has_own-encode_fields :
      (k : String) (fs gs : Fields N D)
      → encode_fields is_finite dt tagged fs ≡ some gs
      → has_own k gs ≡ has_own k fs
  unfolding has_own
  has_own-encode_fields k end gs e =
      subst (λ (g : Fields N D). has_own k g ≡ false) {x = end} (ends gs e) refl
  has_own-encode_fields k (field j v fs) gs e =
      let (w, hs, ew, eh, same) = encode_fields-field_inv tagged j v fs gs e in
      subst (λ (g : Fields N D). has_own k g ≡ has_own k (field j v fs)) same
        (ap (λ (b : Bool). if str_eq j k then true else b) (has_own-encode_fields k fs hs eh))

  round_object :
      (fs : Fields N D) (e : Value N D)
      → ((gs : Fields N D)
          → encode_fields is_finite dt tagged fs ≡ some gs
          → decode_fields is_finite dt gs ≡ some fs)
      → encode is_finite dt tagged (object fs) ≡ some e
      → decode is_finite dt e ≡ some (object fs)
  round_object fs e back h =
      let (gs, eg, same) =
        bind-eq-some (encode_fields is_finite dt tagged fs) _ (rw encode-object at h) in
      let decoded : (decode_fields is_finite dt gs >>=? λ hs. some (object hs)) ≡ some (object fs) =
        rw (back gs eg) in
      subst (λ (u : Value N D). decode is_finite dt u ≡ some (object fs)) (of_some same)
        (elim (Bool-cases (has_own "$doxa" fs)) [
          | inl owns ↦ rw owns (decode_wrapped gs (some (object fs)) decoded)
          | inr lacks ↦
              rw lacks (decode_plain gs (has_own-encode_fields "$doxa" fs gs eg ∙ lacks) ∙ decoded)
        ])

  round_array :
      (xs : Items N D) (e : Value N D)
      → ((ys : Items N D)
          → encode_items is_finite dt tagged xs ≡ some ys
          → decode_items is_finite dt ys ≡ some xs)
      → encode is_finite dt tagged (array xs) ≡ some e
      → decode is_finite dt e ≡ some (array xs)
  round_array xs e back h =
      let (ys, ey, same) =
        bind-eq-some (encode_items is_finite dt tagged xs) _ (rw encode-array at h) in
      subst (λ (u : Value N D). decode is_finite dt u ≡ some (array xs)) (of_some same)
        (rw (decode-array, back ys ey))

  round_instance :
      (d : D) (e : Value N D)
      → IsRestored dt d
      → encode is_finite dt tagged (instance_of d) ≡ some e
      → decode is_finite dt e ≡ some (instance_of d)
  round_instance d e restored h =
      let (t, et, same) = bind-eq-some (dt.tag_of d) _ (rw encode-instance at h) in
      subst (λ (u : Value N D). decode is_finite dt u ≡ some (instance_of d)) (of_some same)
        (decode_instance d t (restored t et))

  round_number :
      (n : N) (e : Value N D)
      → encode is_finite dt tagged (number n) ≡ some e
      → decode is_finite dt e ≡ some (number n)
  unfolding encode decode
  round_number n e h = elim (Bool-cases (is_finite n)) [
    | inl fine ↦
        subst (λ (u : Value N D). decode is_finite dt u ≡ some (number n)) {x = number n}
          (of_some (rw fine at h)) refl
    | inr bad ↦ absurd (cc (rw bad at h))
  ]

  round_cons :
      (v w : Value N D) (xs ys : Items N D)
      → decode is_finite dt w ≡ some v
      → decode_items is_finite dt ys ≡ some xs
      → decode_items is_finite dt (cons w ys) ≡ some (cons v xs)
  round_cons v w xs ys a b = rw (decode_items-cons, a, b)

  round_field :
      (k : String) (v w : Value N D) (fs gs : Fields N D)
      → decode is_finite dt w ≡ some v
      → decode_fields is_finite dt gs ≡ some fs
      → decode_fields is_finite dt (field k w gs) ≡ some (field k v fs)
  round_field k v w fs gs a b = rw (decode_fields-field, a, b)

  encode_items-cons_inv :
      (r : Representation) (v : Value N D) (xs zs : Items N D)
      → encode_items is_finite dt r (cons v xs) ≡ some zs
      → (w : Value N D) × (ys : Items N D) × (encode is_finite dt r v ≡ some w)
        × (encode_items is_finite dt r xs ≡ some ys)
        × (cons w ys ≡ zs)
  encode_items-cons_inv r v xs zs e =
      let (w, ew, rest) = bind-eq-some (encode is_finite dt r v) _ (rw encode_items-cons at e) in
      let (ys, ey, same) = bind-eq-some (encode_items is_finite dt r xs) _ rest in
      (w, ys, ew, ey, of_some same)

  mutual
    unfolding encode decode Restores

    round :
        (v e : Value N D)
        → Restores v
        → encode is_finite dt tagged v ≡ some e
        → decode is_finite dt e ≡ some v
    round undefined e r h = absurd (cc)
    round null e r h =
        subst (λ (u : Value N D). decode is_finite dt u ≡ some null) {x = null} (of_some h) refl
    round (bool b) e r h =
        subst (λ (u : Value N D). decode is_finite dt u ≡ some (bool b)) {x = bool b} (of_some h)
          refl
    round (number n) e r h = round_number n e h
    round (string s) e r h =
        subst (λ (u : Value N D). decode is_finite dt u ≡ some (string s)) {x = string s}
          (of_some h) refl
    round (array xs) e r h = round_array xs e (λ ys ey. round_items xs ys r ey) h
    round (object fs) e r h = round_object fs e (λ gs eg. round_fields fs gs r eg) h
    round (instance_of d) e r h = round_instance d e r h

    round_items :
        (xs zs : Items N D)
        → RestoresItems xs
        → encode_items is_finite dt tagged xs ≡ some zs
        → decode_items is_finite dt zs ≡ some xs
    round_items nil zs r h =
        subst (λ (u : Items N D). decode_items is_finite dt u ≡ some nil) {x = nil} (of_some h) refl
    round_items (cons v xs) zs r h =
        let (w, ys, ew, ey, same) = encode_items-cons_inv tagged v xs zs h in
        subst (λ (u : Items N D). decode_items is_finite dt u ≡ some (cons v xs)) {x = cons w ys}
          same (round_cons v w xs ys (round v w r.0 ew) (round_items xs ys r.1 ey))

    round_fields :
        (fs zs : Fields N D)
        → RestoresFields fs
        → encode_fields is_finite dt tagged fs ≡ some zs
        → decode_fields is_finite dt zs ≡ some fs
    round_fields end zs r h =
        subst (λ (u : Fields N D). decode_fields is_finite dt u ≡ some end) {x = end} (of_some h)
          refl
    round_fields (field k v fs) zs r h =
        let (w, gs, ew, eg, same) = encode_fields-field_inv tagged k v fs zs h in
        subst (λ (u : Fields N D). decode_fields is_finite dt u ≡ some (field k v fs))
          {x = field k w gs} same
          (round_field k v w fs gs (round v w r.0 ew) (round_fields fs gs r.1 eg))

  -- If the tagged encoding of a value gives a result, and each instance in the value is read back
  -- from what it prints, then decoding the result gives the value, objects with a `$doxa` key included.
  pub decode-encode :
      (v e : Value N D)
      → Restores v
      → encode_date_time_values is_finite dt v ≡ some e
      → decode is_finite dt e ≡ some v
  unfolding encode_date_time_values
  decode-encode v e r h = round v e r h
