-- ===== src/Codec/Accepts.antt =====
-- Which values the encoder accepts.
use doxajs.Base.{String, Bool, true, some, ◌≡◌, ◌↔◌, refl, Bool-cases, bind-eq-some, inl, inr}
use doxajs.Js.{
  Value, undefined, null, bool, number, string, array, object, instance_of, Items, nil, cons,
  Fields, end, field, has_own,
}
use doxajs.Codec.{
  DateTimeTag, DateTimes, Representation, encode_instance, encode_object, encode, encode_items,
  encode_fields,
}
use doxajs.Codec.Equations.{
  encode-array, encode-object, encode-instance, encode_items-cons, encode_fields-field,
}

module _ {N D : Type 0} (is_finite : N → Bool) (dt : DateTimes D) where
  unfoldable mutual
    -- JSON values with finite numbers, and instances of the four classes.
    pub IsEncodable : Value N D → Type 0
    IsEncodable undefined = ⊥
    IsEncodable null = Unit
    IsEncodable (bool b) = Unit
    IsEncodable (number n) = is_finite n ≡ true
    IsEncodable (string s) = Unit
    IsEncodable (array xs) = AreEncodable xs
    IsEncodable (object fs) = HasEncodable fs
    IsEncodable (instance_of d) = (t : DateTimeTag) × (dt.tag_of d ≡ some t)

    pub AreEncodable : Items N D → Type 0
    AreEncodable nil = Unit
    AreEncodable (cons v xs) = IsEncodable v × AreEncodable xs

    pub HasEncodable : Fields N D → Type 0
    HasEncodable end = Unit
    HasEncodable (field k v fs) = IsEncodable v × HasEncodable fs

  abbrev pub Gives : Representation → Value N D → Type 0
  Gives r v = (e : Value N D) × (encode is_finite dt r v ≡ some e)

  abbrev GivesItems : Representation → Items N D → Type 0
  GivesItems r xs = (ys : Items N D) × (encode_items is_finite dt r xs ≡ some ys)

  abbrev GivesFields : Representation → Fields N D → Type 0
  GivesFields r fs = (gs : Fields N D) × (encode_fields is_finite dt r fs ≡ some gs)

  array-Gives : (r : Representation) (xs : Items N D) → GivesItems r xs ↔ Gives r (array xs)
  array-Gives r xs = (
    (λ g. (array g.0, rw (encode-array, g.1))),
    λ g.
        let (ys, e, same) =
          bind-eq-some (encode_items is_finite dt r xs) _ (rw encode-array at g.1) in
        (ys, e),
  )

  object-Gives : (r : Representation) (fs : Fields N D) → GivesFields r fs ↔ Gives r (object fs)
  object-Gives r fs = (
    (λ g. (encode_object is_finite dt r (has_own "$doxa" fs) g.0, rw (encode-object, g.1))),
    λ g.
        let (gs, e, same) =
          bind-eq-some (encode_fields is_finite dt r fs) _ (rw encode-object at g.1) in
        (gs, e),
  )

  instance-Gives :
      (r : Representation) (d : D)
      → ((t : DateTimeTag) × (dt.tag_of d ≡ some t)) ↔ Gives r (instance_of d)
  instance-Gives r d = (
    (λ g. (encode_instance is_finite dt r g.0 (dt.print d), rw (encode-instance, g.1))),
    λ g. let (t, e, same) = bind-eq-some (dt.tag_of d) _ (rw encode-instance at g.1) in (t, e),
  )

  cons-Gives :
      (r : Representation) (v : Value N D) (xs : Items N D)
      → (Gives r v × GivesItems r xs) ↔ GivesItems r (cons v xs)
  cons-Gives r v xs = (
    (λ g. (cons g.0.0 g.1.0, rw (encode_items-cons, g.0.1, g.1.1))),
    λ g.
        let (w, e, rest) = bind-eq-some (encode is_finite dt r v) _ (rw encode_items-cons at g.1) in
        let (ys, f, same) = bind-eq-some (encode_items is_finite dt r xs) _ rest in
        ((w, e), (ys, f)),
  )

  field-Gives :
      (r : Representation) (k : String) (v : Value N D) (fs : Fields N D)
      → (Gives r v × GivesFields r fs) ↔ GivesFields r (field k v fs)
  field-Gives r k v fs = (
    (λ g. (field k g.0.0 g.1.0, rw (encode_fields-field, g.0.1, g.1.1))),
    λ g.
        let (w, e, rest) =
          bind-eq-some (encode is_finite dt r v) _ (rw encode_fields-field at g.1) in
        let (gs, f, same) = bind-eq-some (encode_fields is_finite dt r fs) _ rest in
        ((w, e), (gs, f)),
  )

  number-Gives : (r : Representation) (n : N) → (is_finite n ≡ true) ↔ Gives r (number n)
  unfolding encode
  number-Gives r n = (
    (λ fine. (number n, rw fine)),
    λ g. elim (Bool-cases (is_finite n)) [
      | inl fine ↦ fine
      | inr bad ↦ absurd (cc (rw bad at g.1))
    ],
  )

  mutual
    unfolding encode IsEncodable

    accepts : (r : Representation) (v : Value N D) → IsEncodable v → Gives r v
    accepts r undefined h = absurd h
    accepts r null h = (null, refl)
    accepts r (bool b) h = (bool b, refl)
    accepts r (number n) h = (number-Gives r n).0 h
    accepts r (string s) h = (string s, refl)
    accepts r (array xs) h = (array-Gives r xs).0 (accepts_items r xs h)
    accepts r (object fs) h = (object-Gives r fs).0 (accepts_fields r fs h)
    accepts r (instance_of d) h = (instance-Gives r d).0 h

    accepts_items : (r : Representation) (xs : Items N D) → AreEncodable xs → GivesItems r xs
    accepts_items r nil h = (nil, refl)
    accepts_items r (cons v xs) h = (cons-Gives r v xs).0 (accepts r v h.0, accepts_items r xs h.1)

    accepts_fields : (r : Representation) (fs : Fields N D) → HasEncodable fs → GivesFields r fs
    accepts_fields r end h = (end, refl)
    accepts_fields r (field k v fs) h =
        (field-Gives r k v fs).0 (accepts r v h.0, accepts_fields r fs h.1)

  mutual
    unfolding encode IsEncodable

    rejects : (r : Representation) (v : Value N D) → Gives r v → IsEncodable v
    rejects r undefined g = absurd (cc (g.1))
    rejects r null g = tt
    rejects r (bool b) g = tt
    rejects r (number n) g = (number-Gives r n).1 g
    rejects r (string s) g = tt
    rejects r (array xs) g = rejects_items r xs ((array-Gives r xs).1 g)
    rejects r (object fs) g = rejects_fields r fs ((object-Gives r fs).1 g)
    rejects r (instance_of d) g = (instance-Gives r d).1 g

    rejects_items : (r : Representation) (xs : Items N D) → GivesItems r xs → AreEncodable xs
    rejects_items r nil g = tt
    rejects_items r (cons v xs) g =
        let both = (cons-Gives r v xs).1 g in (rejects r v both.0, rejects_items r xs both.1)

    rejects_fields : (r : Representation) (fs : Fields N D) → GivesFields r fs → HasEncodable fs
    rejects_fields r end g = tt
    rejects_fields r (field k v fs) g =
        let both = (field-Gives r k v fs).1 g in (rejects r v both.0, rejects_fields r fs both.1)

  -- In both representations the encoder gives a result exactly for the values built from null,
  -- booleans, texts, finite numbers, instances of the four classes, lists and plain objects.
  pub encode_iff : (r : Representation) (v : Value N D) → IsEncodable v ↔ Gives r v
  encode_iff r v = (accepts r v, rejects r v)
