-- ===== src/Codec/Tests.antt =====
-- A value with a datetime and with an object that looks like a tag.
use doxajs.Base.{ℕ, String, Bool, true, some, ◌≡◌, ◌↔◌, refl}
use doxajs.Js.{Value, number, string, object, instance_of, field, end}
use doxajs.Codec.{DateTimeTag, instant, DateTimes, text, encode_date_time_values, decode}
use doxajs.Codec.RoundTrip.{Restores, decode-encode}
use doxajs.Codec.Accepts.{IsEncodable, Gives, encode_iff}

abbrev Stamp : Type 0
Stamp = DateTimeTag × String

abbrev stamps : DateTimes Stamp
stamps = record { tag_of = λ d. some d.0; print = λ d. d.1; parse = λ t s. some (t, s) }

abbrev finite : ℕ → Bool
finite n = true

abbrev sample : Value ℕ Stamp
sample = object (
    field "at" (instance_of (instant, "2026-01-01T00:00:00.000000Z"))
      (field "$doxa" (string "instant@1") (field "n" (number 1) end)))

abbrev encoded : Value ℕ Stamp
encoded = object (
    field "$doxa" (string "json-object@1") (
      field "value"
        (object (
          field "at"
            (object (
              field "$doxa" (string "instant@1")
                (field "value" (string "2026-01-01T00:00:00.000000Z") end)))
            (field "$doxa" (string "instant@1") (field "n" (number 1) end))))
        end))

sample_encodes : encode_date_time_values finite stamps sample ≡ some encoded
unfolding encode_date_time_values doxajs.Js.has_own
sample_encodes = refl

sample-Restores : Restores finite stamps sample
unfolding Restores
sample-Restores = ((λ t e. cc e), (tt, (tt, tt)))

decode-encode_example : decode finite stamps encoded ≡ some sample
decode-encode_example = decode-encode finite stamps sample encoded sample-Restores sample_encodes

encode_iff_example : IsEncodable finite stamps sample ↔ Gives finite stamps text sample
encode_iff_example = encode_iff finite stamps text sample
