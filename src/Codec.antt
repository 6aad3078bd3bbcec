-- ===== src/Codec.antt =====
-- packages/core/src/datetime-codec.ts: values with datetimes as JSON, and back.
pub mod Equations
pub mod RoundTrip
pub mod Accepts
mod Tests
use doxajs.Base.{
  ℕ, String, Bool, true, false, Option, none, some, str_eq, nat_eq, if◌then◌else◌, ◌>>=?◌,
}
use doxajs.Js.{
  Value, undefined, null, bool, number, string, array, object, instance_of, Items, nil, cons,
  Fields, end, field, property, has_own, key_count,
}

-- `DateTimeTag`
pub data DateTimeTag : Type 0 where
  graphite instant local_date duration : DateTimeTag

abbrev pub tag_name : DateTimeTag → String
tag_name graphite = "graphite@1"
tag_name instant = "instant@1"
tag_name local_date = "local-date@1"
tag_name duration = "duration@1"

-- The `switch` on `value.$doxa`.
abbrev pub tag_named : String → Option DateTimeTag
tag_named s =
    if str_eq s "graphite@1"
    then some graphite
    else if str_eq s "instant@1"
    then some instant
    else if str_eq s "local-date@1"
    then some local_date
    else if str_eq s "duration@1"
    then some duration
    else none

abbrev pub object_tag : String
object_tag = "json-object@1"

-- The classes of packages/core/src/graphite.ts: which of them an instance belongs to, if any, and
-- their `toString` and `parse`, where `none` is a throw.
pub record DateTimes (D : Type 0) : Type 0 where
  pub tag_of : D → Option DateTimeTag
  pub print : D → String
  pub parse : DateTimeTag → String → Option D

pub data Representation : Type 0 where
  tagged text : Representation

module _ {N D : Type 0} (is_finite : N → Bool) (dt : DateTimes D) where
  -- `{ $doxa: tag, value }`
  abbrev pub tagged_value : String → Value N D → Value N D
  tagged_value tag v = object (field "$doxa" (string tag) (field "value" v end))

  abbrev pub encode_instance : Representation → DateTimeTag → String → Value N D
  encode_instance tagged t s = tagged_value (tag_name t) (string s)
  encode_instance text t s = string s

  abbrev pub encode_object : Representation → Bool → Fields N D → Value N D
  encode_object tagged true fs = tagged_value object_tag (object fs)
  encode_object tagged false fs = object fs
  encode_object text _ fs = object fs

  unfoldable mutual
    -- `none` is the thrown TypeError.
    pub encode : Representation → Value N D → Option (Value N D)
    encode r undefined = none
    encode r null = some null
    encode r (bool b) = some (bool b)
    encode r (number n) = if is_finite n then some (number n) else none
    encode r (string s) = some (string s)
    encode r (array xs) = encode_items r xs >>=? λ ys. some (array ys)
    encode r (object fs) =
        encode_fields r fs >>=? λ gs. some (encode_object r (has_own "$doxa" fs) gs)
    encode r (instance_of d) = dt.tag_of d >>=? λ t. some (encode_instance r t (dt.print d))

    pub encode_items : Representation → Items N D → Option (Items N D)
    encode_items r nil = some nil
    encode_items r (cons v xs) = encode r v >>=? λ w. encode_items r xs >>=? λ ys. some (cons w ys)

    pub encode_fields : Representation → Fields N D → Option (Fields N D)
    encode_fields r end = some end
    encode_fields r (field k v fs) =
        encode r v >>=? λ w. encode_fields r fs >>=? λ gs. some (field k w gs)

  unfoldable pub encode_date_time_values : Value N D → Option (Value N D)
  unfolding encode
  encode_date_time_values v = encode tagged v

  unfoldable pub encode_date_time_strings : Value N D → Option (Value N D)
  unfolding encode
  encode_date_time_strings v = encode text v

  -- `default: throw`, and the calls of `parse`.
  abbrev pub parse_tagged : String → Option (Value N D) → Option (Value N D)
  parse_tagged tag (some (string s)) =
      tag_named tag >>=? λ t. dt.parse t s >>=? λ d. some (instance_of d)
  parse_tagged tag _ = none

  -- `decodeTagged`, with the decoded entries of `value.value` passed in.
  abbrev pub decode_tagged : Fields N D → Option (Value N D) → Option (Value N D)
  decode_tagged fs inner =
      if nat_eq (key_count fs) 2
      then (elim (property "$doxa" fs) [
        | some (string tag) ↦
            if str_eq tag object_tag then inner else parse_tagged tag (property "value" fs)
        | _ ↦ none
      ])
      else none

  unfoldable mutual
    -- `none` is a throw. The input is JSON: it holds no class instance.
    pub decode : Value N D → Option (Value N D)
    decode undefined = some undefined
    decode null = some null
    decode (bool b) = some (bool b)
    decode (number n) = some (number n)
    decode (string s) = some (string s)
    decode (array xs) = decode_items xs >>=? λ ys. some (array ys)
    decode (object fs) =
        if has_own "$doxa" fs
        then decode_tagged fs (decode_inner fs)
        else (decode_fields fs >>=? λ gs. some (object gs))
    decode (instance_of d) = some (instance_of d)

    pub decode_items : Items N D → Option (Items N D)
    decode_items nil = some nil
    decode_items (cons v xs) = decode v >>=? λ w. decode_items xs >>=? λ ys. some (cons w ys)

    pub decode_fields : Fields N D → Option (Fields N D)
    decode_fields end = some end
    decode_fields (field k v fs) =
        decode v >>=? λ w. decode_fields fs >>=? λ gs. some (field k w gs)

    -- The entries of `value.value`, which must be an object, decoded.
    pub decode_inner : Fields N D → Option (Value N D)
    decode_inner end = none
    decode_inner (field k v fs) = if str_eq k "value" then decode_entries v else decode_inner fs

    pub decode_entries : Value N D → Option (Value N D)
    decode_entries (object fs) = decode_fields fs >>=? λ gs. some (object gs)
    decode_entries _ = none
