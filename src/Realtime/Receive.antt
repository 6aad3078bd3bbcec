-- ===== src/Realtime/Receive.antt =====
-- `#receive`, `#receiveError` and `#receiveCommandAck`, over frames of unknown shape.
use doxajs.Base.{
  String, Bool, true, false, not, ◌&&◌, ◌||◌, Option, none, some, [], ◌∷◌, str_eq, has,
  if◌then◌else◌,
}
use doxajs.Js.{Value, null, bool, number, string, Numbers, Texts, get, is_record}
use doxajs.Realtime.State.{authenticated, subscribed, Control, Client}
use doxajs.Realtime.Connection.{connection_error, close_socket}
use doxajs.Realtime.Channels.{
  channel_key, with_state, fail, find_subscription, update_channel, drop_channel, on_channels,
  subscribe_each, settle,
}

-- `#protocolError`
abbrev pub protocol_error : String → Bool → Client → Client
protocol_error code true c = record c {
  control = record (c.control) {
    last_error = some code;
    terminal_failure = true;
    socket = close_socket c.control.socket;
  };
}
protocol_error code false c = record c { control = connection_error code c.control }

abbrev pub fatal_error : Bool → Client → Client
fatal_error true c = record c {
  control = record (c.control) { terminal_failure = true; socket = close_socket c.control.socket };
}
fatal_error false c = c

-- The part of `onconnected` that is about the connection.
abbrev pub connected_control : Control → Control
connected_control c = record c {
  connection_timer = none;
  attempt = 0;
  last_error = none;
  state = authenticated;
}

abbrev pub receive_connected : Client → Client
receive_connected c =
    let c' = record c { control = connected_control c.control } in
    subscribe_each c'.channels.subscriptions c'

abbrev pub settle_command : String → Option String → Client → Client
settle_command i code c = record c { commands = settle i code c.commands }

module _ {N : Type 0} (ns : Numbers N) (ts : Texts N) where
  abbrev pub text_in : Value N ⊥ → Option String
  text_in (string s) = some s
  text_in v = none

  abbrev pub is_text : Value N ⊥ → Bool
  is_text (string s) = true
  is_text v = false

  -- `value === true`
  abbrev pub is_true : Value N ⊥ → Bool
  is_true (bool b) = b
  is_true v = false

  abbrev pub is_protocol : Value N ⊥ → Bool
  is_protocol (number n) = ns.at_most n (ns.natural 3) && ns.at_most (ns.natural 3) n
  is_protocol v = false

  abbrev pub is_channel_kind : Value N ⊥ → Bool
  is_channel_kind v = has (ts.to_string v) ("public" ∷ "private" ∷ "presence" ∷ [])

  -- `isChannel`, with the key of the channel.
  abbrev pub channel_in : Value N ⊥ → Option String
  channel_in v = elim (text_in (get "name" v)) [
    | none ↦ none
    | some n ↦
        if is_channel_kind (get "kind" v)
        then some (channel_key (ts.to_string (get "kind" v)) n)
        else none
  ]

  abbrev pub is_channel : Value N ⊥ → Bool
  is_channel v = elim (channel_in v) [ none ↦ false | some _ ↦ true ]

  abbrev pub is_event_frame : Value N ⊥ → Bool
  is_event_frame f =
      is_text (get "id" f)
      && (is_text (get "event" f) && (is_channel (get "channel" f) && is_text (get "occurredAt" f)))

  abbrev pub error_code : Value N ⊥ → String
  error_code f = elim (text_in (get "code" f)) [ none ↦ "keryx_error" | some s ↦ s ]

  abbrev pub report_error : Option String → String → Client → Client
  report_error none code c = record c { control = connection_error code c.control }
  report_error (some k) code c = on_channels (update_channel k (fail code)) c

  unfoldable pub receive_error : Value N ⊥ → Client → Client
  receive_error f c =
      fatal_error (is_true (get "fatal" f))
        (report_error (channel_in (get "channel" f)) (error_code f) c)

  -- A refusal without a proper error is reported, and the command fails with a general code.
  abbrev pub refuse_command : String → Value N ⊥ → Client → Client
  refuse_command i e c =
      if is_record e && (is_text (get "code" e) && is_text (get "message" e))
      then settle_command i (text_in (get "code" e)) c
      else settle_command i (some "command_failed") (protocol_error "invalid_command_ack" false c)

  abbrev pub acknowledge : String → Bool → Value N ⊥ → Client → Client
  acknowledge i okay e c =
      if not (has i c.commands.waiting)
      then c
      else if okay
      then settle_command i none c
      else refuse_command i e c

  abbrev pub acknowledge_flag : String → Value N ⊥ → Value N ⊥ → Client → Client
  acknowledge_flag i (bool okay) e c = acknowledge i okay e c
  acknowledge_flag i v e c = protocol_error "invalid_command_ack" false c

  unfoldable pub receive_command_ack : Value N ⊥ → Client → Client
  receive_command_ack f c = elim (text_in (get "id" f)) [
    | none ↦ protocol_error "invalid_command_ack" false c
    | some i ↦ acknowledge_flag i (get "ok" f) (get "error" f) c
  ]

  abbrev pub receive_subscription : String → String → Client → Client
  receive_subscription type k c =
      if str_eq type "subscribed"
      then on_channels (update_channel k (with_state subscribed)) c
      else if str_eq type "unsubscribed"
      then on_channels (drop_channel k) c
      else if str_eq type "presence_joined" || str_eq type "presence_left"
      then c
      else protocol_error "unsupported_frame" false c

  -- Frames about a channel; one without a subscription is passed over.
  unfoldable pub receive_channel : String → Option String → Client → Client
  receive_channel type none c = protocol_error "invalid_frame" false c
  receive_channel type (some k) c = elim (find_subscription k c.channels.subscriptions) [
    | none ↦ c
    | some _ ↦ receive_subscription type k c
  ]

  abbrev pub receive_type : Value N ⊥ → String → Client → Client
  receive_type f type c =
      if str_eq type "connected"
      then (if is_text (get "connectionId" f)
          then receive_connected c
          else protocol_error "invalid_connected" true c)
      else if str_eq type "error"
      then receive_error f c
      else if str_eq type "event" && is_event_frame f
      then c
      else if str_eq type "command_ack"
      then receive_command_ack f c
      else if str_eq type "pong"
      then c
      else receive_channel type (channel_in (get "channel" f)) c

  abbrev pub receive_text : Value N ⊥ → Option String → Client → Client
  receive_text f none c = protocol_error "unsupported_protocol" true c
  receive_text f (some type) c =
      if not (is_protocol (get "protocol" f))
      then protocol_error "unsupported_protocol" true c
      else receive_type f type c

  abbrev pub receive_value : Value N ⊥ → Client → Client
  receive_value null c = c
  receive_value f c = receive_text f (text_in (get "type" f)) c

  -- The argument is what `JSON.parse` gives. Reading a property of null throws, and leaves the client
  -- as it was.
  unfoldable pub receive : Option (Value N ⊥) → Client → Client
  receive none c = protocol_error "invalid_json" true c
  receive (some f) c = receive_value f c
