-- ===== src/Codec/Equations.antt =====
-- The clauses of the codec that recurse, as equations: proofs use them and keep the codec shut.
use doxajs.Base.{String, Bool, str_eq, some, ◌≡◌, refl, if◌then◌else◌, ◌>>=?◌}
use doxajs.Js.{Value, array, object, instance_of, Items, cons, Fields, field, has_own}
use doxajs.Codec.{
  DateTimes, Representation, encode_object, encode_instance, encode, encode_items, encode_fields,
  decode, decode_items, decode_fields, decode_inner, decode_entries, decode_tagged,
}

module _ {N D : Type 0} (is_finite : N → Bool) (dt : DateTimes D) where
  pub encode-array :
      (r : Representation) (xs : Items N D)
      → encode is_finite dt r (array xs)
        ≡ (encode_items is_finite dt r xs >>=? λ ys. some (array ys))
  unfolding encode
  encode-array r xs = refl

  pub encode-object :
      (r : Representation) (fs : Fields N D)
      → encode is_finite dt r (object fs) ≡ (
          encode_fields is_finite dt r fs >>=? λ gs.
          some (encode_object is_finite dt r (has_own "$doxa" fs) gs))
  unfolding encode
  encode-object r fs = refl

  pub encode-instance :
      (r : Representation) (d : D)
      → encode is_finite dt r (instance_of d)
        ≡ (dt.tag_of d >>=? λ t. some (encode_instance is_finite dt r t (dt.print d)))
  unfolding encode
  encode-instance r d = refl

  pub encode_items-cons :
      (r : Representation) (v : Value N D) (xs : Items N D)
      → encode_items is_finite dt r (cons v xs) ≡ (
          encode is_finite dt r v >>=? λ w.
          encode_items is_finite dt r xs >>=? λ ys. some (cons w ys))
  unfolding encode
  encode_items-cons r v xs = refl

  pub encode_fields-field :
      (r : Representation) (k : String) (v : Value N D) (fs : Fields N D)
      → encode_fields is_finite dt r (field k v fs) ≡ (
          encode is_finite dt r v >>=? λ w.
          encode_fields is_finite dt r fs >>=? λ gs. some (field k w gs))
  unfolding encode
  encode_fields-field r k v fs = refl

  pub decode-array :
      (xs : Items N D)
      → decode is_finite dt (array xs) ≡ (decode_items is_finite dt xs >>=? λ ys. some (array ys))
  unfolding decode
  decode-array xs = refl

  pub decode-object :
      (fs : Fields N D)
      → decode is_finite dt (object fs) ≡ (
          if has_own "$doxa" fs
          then decode_tagged is_finite dt fs (decode_inner is_finite dt fs)
          else (decode_fields is_finite dt fs >>=? λ gs. some (object gs)))
  unfolding decode
  decode-object fs = refl

  pub decode_items-cons :
      (v : Value N D) (xs : Items N D)
      → decode_items is_finite dt (cons v xs)
        ≡ (decode is_finite dt v >>=? λ w. decode_items is_finite dt xs >>=? λ ys. some (cons w ys))
  unfolding decode
  decode_items-cons v xs = refl

  pub decode_fields-field :
      (k : String) (v : Value N D) (fs : Fields N D)
      → decode_fields is_finite dt (field k v fs) ≡ (
          decode is_finite dt v >>=? λ w.
          decode_fields is_finite dt fs >>=? λ gs. some (field k w gs))
  unfolding decode
  decode_fields-field k v fs = refl

  pub decode_inner-field :
      (k : String) (v : Value N D) (fs : Fields N D)
      → decode_inner is_finite dt (field k v fs)
        ≡ (if str_eq k "value" then decode_entries is_finite dt v else decode_inner is_finite dt fs)
  unfolding decode
  decode_inner-field k v fs = refl

  pub decode_entries-object :
      (fs : Fields N D)
      → decode_entries is_finite dt (object fs)
        ≡ (decode_fields is_finite dt fs >>=? λ gs. some (object gs))
  unfolding decode
  decode_entries-object fs = refl
