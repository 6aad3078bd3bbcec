-- ===== src/Keryx/Protocol/Tests.antt =====
-- A subscription and a command, read from their JSON.
use doxajs.Base.{has, false, ℕ, String, Bool, true, Option, some, ◌≡◌, ◌↔◌, refl, leb, nat_eq, ◌-◌}
use doxajs.Js.Samples.{naturals, texts}
use doxajs.Js.{
  Value, undefined, null, bool, number, string, array, object, nil, cons, field, end, Numbers,
  Texts,
}
use doxajs.Keryx.Json.{assert_json, Nested, assert_json_iff}
use doxajs.Keryx.Protocol.{
  Grammar, Destination, ClientFrame, subscribe, command, ok, channel_kinds, parse_client_frame,
}
use doxajs.Keryx.Protocol.Laws.{KnownFrame, is_plain, parse_client_frame-Valid}
use doxajs.Keryx.Protocol.RoundTrip.{frame_json, parse_client_frame-json}

abbrev grammar : Grammar
grammar = record {
  trim = λ s. s;
  is_channel = λ s. true;
  is_command = λ s. true;
  is_event = λ s. true;
  is_date = λ s. true;
}

abbrev orders : Destination ℕ
orders = record { name = "orders"; kind = string "private" }

abbrev payload : Value ℕ ⊥
payload = array (cons (number 4) (cons null nil))

abbrev frame : ClientFrame ℕ
frame = command "id" "ship" payload

frame_parses :
    parse_client_frame naturals texts grammar (some (frame_json naturals texts grammar frame))
    ≡ ok frame
unfolding parse_client_frame doxajs.Js.property assert_json
frame_parses = refl

assert_json_iff_example : (assert_json naturals 0 payload ≡ true) ↔ Nested naturals 100 payload
assert_json_iff_example = assert_json_iff naturals payload

-- `String` on arrays of one element and on plain values.
abbrev shown : Value ℕ ⊥ → String
shown (string s) = s
shown (array (cons (string s) nil)) = s
shown v = "other"

abbrev shown_texts : Texts ℕ
shown_texts = record { to_string = shown; units = λ s. 5; json_length = λ v. 2 }

-- An array of one kind is taken for a kind, and is what the frame keeps.
abbrev array_kind : Value ℕ ⊥
array_kind = object (
    field "protocol" (number 3) (
      field "type" (string "subscribe") (
        field "channel"
          (object (
            field "name" (string "orders")
              (field "kind" (array (cons (string "private") nil)) end)))
          end)))

array_kind_passes :
    parse_client_frame naturals shown_texts grammar (some array_kind)
    ≡ ok (subscribe (record { name = "orders"; kind = array (cons (string "private") nil) }))
unfolding parse_client_frame doxajs.Js.property doxajs.Keryx.Protocol.normalize_destination
    doxajs.Base.has
array_kind_passes = refl

plain_is_no_kind :
    (v : Value ℕ ⊥)
    → is_plain naturals shown_texts grammar v ≡ true
    → has (shown v) channel_kinds ≡ false
unfolding doxajs.Base.has
plain_is_no_kind undefined h = refl
plain_is_no_kind null h = refl
plain_is_no_kind (bool b) h = refl
plain_is_no_kind (number n) h = refl
plain_is_no_kind _ h = absurd (cc)

parse_client_frame-Valid_example :
    KnownFrame naturals shown_texts grammar
      (subscribe (record { name = "orders"; kind = array (cons (string "private") nil) }))
parse_client_frame-Valid_example =
    parse_client_frame-Valid naturals shown_texts grammar (λ s. refl) plain_is_no_kind
      (some array_kind)
      (subscribe (record { name = "orders"; kind = array (cons (string "private") nil) }))
      array_kind_passes

parse_client_frame-json_example :
    parse_client_frame naturals texts grammar
      (some (frame_json naturals texts grammar (subscribe orders)))
    ≡ ok (subscribe orders)
unfolding doxajs.Base.has
parse_client_frame-json_example =
    parse_client_frame-json naturals texts grammar (subscribe orders) refl (refl, refl) refl
