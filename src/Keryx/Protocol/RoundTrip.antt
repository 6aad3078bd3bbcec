-- ===== src/Keryx/Protocol/RoundTrip.antt =====
-- Each valid frame is read back from the JSON that a client sends for it.
use doxajs.Base.{String, true, none, some, ◌≡◌, refl}
use doxajs.Js.{Value, number, string, object, Fields, end, field, Numbers, Texts}
use doxajs.Keryx.Json.{assert_json_iff}
use doxajs.Keryx.Protocol.{
  Grammar, Destination, ClientFrame, subscribe, unsubscribe, ping, command, ok,
  normalize_destination, is_protocol, parse_client_frame,
}
use doxajs.Keryx.Protocol.Laws.{ValidFrame, ValidDestination}

module _ {N : Type 0} (ns : Numbers N) (ts : Texts N) (gr : Grammar) where
  abbrev destination_json : Destination N → Value N ⊥
  destination_json d = object (field "name" (string d.name) (field "kind" d.kind end))

  abbrev header : String → Fields N ⊥ → Value N ⊥
  header type rest =
      object (field "protocol" (number (ns.natural 3)) (field "type" (string type) rest))

  -- The members of `ClientFrame` as a client writes them.
  abbrev pub frame_json : ClientFrame N → Value N ⊥
  frame_json (subscribe d) = header "subscribe" (field "channel" (destination_json d) end)
  frame_json (unsubscribe d) = header "unsubscribe" (field "channel" (destination_json d) end)
  frame_json (ping none) = header "ping" end
  frame_json (ping (some i)) = header "ping" (field "id" (string i) end)
  frame_json (command id name payload) =
      header "command"
        (field "id" (string id) (field "command" (string name) (field "payload" payload end)))

  -- A channel name without white space around it.
  abbrev pub Trimmed : ClientFrame N → Type 0
  Trimmed (subscribe d) = gr.trim d.name ≡ d.name
  Trimmed (unsubscribe d) = gr.trim d.name ≡ d.name
  Trimmed f = Unit

  normalize_destination-json :
      (d : Destination N)
      → ValidDestination ns ts gr d
      → gr.trim d.name ≡ d.name
      → normalize_destination ns ts gr (destination_json d) ≡ some d
  unfolding normalize_destination doxajs.Js.property
  normalize_destination-json d (kind, name) trimmed = rw (kind, trimmed, name) refl

  -- A valid frame, whose channel has no white space around its name, is what `parseClientFrame`
  -- returns for its JSON, when the literal 3 equals itself.
  pub parse_client_frame-json :
      (f : ClientFrame N)
      → is_protocol ns ts gr (number (ns.natural 3)) ≡ true
      → ValidFrame ns ts gr f
      → Trimmed f
      → parse_client_frame ns ts gr (some (frame_json f)) ≡ ok f
  unfolding parse_client_frame doxajs.Js.property
  parse_client_frame-json (subscribe d) three valid trimmed =
      rw (three, normalize_destination-json d valid trimmed) refl
  parse_client_frame-json (unsubscribe d) three valid trimmed =
      rw (three, normalize_destination-json d valid trimmed) refl
  parse_client_frame-json (ping none) three valid trimmed = rw three refl
  parse_client_frame-json (ping (some i)) three valid trimmed = rw three refl
  parse_client_frame-json (command id name payload) three (bounded, (named, nested)) trimmed =
      rw (three, bounded, named, (assert_json_iff ns payload).1 nested) refl
