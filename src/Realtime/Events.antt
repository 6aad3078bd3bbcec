-- ===== src/Realtime/Events.antt =====
-- What happens to a client: calls of its methods, and events of sockets, timers and exchanges.
use doxajs.Base.{
  ℕ, String, Bool, true, false, Option, none, some, List, [], ◌∷◌, str_eq, has, if◌then◌else◌,
}
use doxajs.Js.{Value, Numbers, Texts}
use doxajs.Realtime.State.{
  pending, Options, Subscription, Timer, Commands, command, Control, Client, is_authenticated, send,
}
use doxajs.Realtime.Connection.{
  connect, disconnect_control, is_socket, on_open, on_error, on_close_control,
  on_connection_timeout, on_reconnect,
}
use doxajs.Realtime.Authorization.{Exchange, request_connection_ticket, authorize_and_open}
use doxajs.Realtime.Channels.{
  find_subscription, channel_key, on_channels, subscribe_channel, leave, reset_after_close,
  reset_after_disconnect, on_subscription_timeout, settle_pending_commands, expire_command,
}
use doxajs.Realtime.Receive.{receive}

-- The flags say whether the factory makes a socket; a name or a command that is not valid throws
-- before anything changes, and is no event.
pub data Event (N : Type 0) : Type 0 where
  call_connect : Bool → Event N
  call_disconnect : Event N
  call_channel : Bool → String → String → Event N
  call_leave : String → Option String → Event N
  call_command : String → Event N
  exchange_ends : Bool → ℕ → Exchange N → Event N
  socket_opens : ℕ → Event N
  socket_fails : ℕ → Event N
  socket_closes : ℕ → ℕ → Event N
  message_arrives : ℕ → Option (Value N ⊥) → Event N
  connection_times_out : Event N
  reconnect_fires : Bool → Event N
  subscription_times_out : String → Event N
  command_times_out : String → Event N

abbrev pub on_control : (Control → Control) → Client → Client
on_control f c = record c { control = f c.control }

-- `disconnect`
unfoldable pub disconnect : Client → Client
disconnect c = record c {
  control = disconnect_control c.control;
  channels = record {
    subscriptions = reset_after_disconnect c.channels.subscriptions;
    timers = [];
  };
  commands = settle_pending_commands "command_disconnected" c.commands;
}

-- `socket.onclose` of the current socket.
abbrev pub close_current : Options → ℕ → Client → Client
close_current o code c = record c {
  control = on_close_control o code c.control;
  channels = record { subscriptions = reset_after_close c.channels.subscriptions; timers = [] };
  commands = settle_pending_commands "command_disconnected" c.commands;
}

unfoldable pub on_close : Options → ℕ → ℕ → Client → Client
on_close o i code c = if is_socket i c.control.socket then close_current o code c else c

abbrev pub new_subscription : String → String → Subscription
new_subscription name kind = record { name = name; kind = kind; state = pending; last_error = none }

unfoldable pub append_subscription : List Subscription → Subscription → List Subscription
append_subscription [] s = s ∷ []
append_subscription (t ∷ ts) s = t ∷ append_subscription ts s

abbrev pub subscribe_if : Bool → Subscription → Client → Client
subscribe_if true s c = subscribe_channel s c
subscribe_if false s c = c

abbrev pub add_channel : Options → Bool → Subscription → Client → Client
add_channel o made s c =
    let c' = on_control (connect o made) (
      on_channels (λ ch. record ch { subscriptions = append_subscription ch.subscriptions s }) c) in
    subscribe_if (is_authenticated c'.control.state) s c'

-- `#channel`
unfoldable pub open_channel : Options → Bool → String → String → Client → Client
open_channel o made name kind c =
    elim (find_subscription (channel_key kind name) c.channels.subscriptions) [
      | some _ ↦ c
      | none ↦ add_channel o made (new_subscription name kind) c
    ]

abbrev pub wait_for : String → Commands → Commands
wait_for i cs = record { waiting = i ∷ cs.waiting; timers = i ∷ cs.timers; settled = cs.settled }

abbrev pub not_connected : String → Commands → Commands
not_connected i cs = record {
  waiting = cs.waiting;
  timers = cs.timers;
  settled = record { id = i; code = some "command_not_connected" } ∷ cs.settled;
}

-- `command`, with the id that it makes.
unfoldable pub send_command : String → Client → Client
send_command i c =
    if is_authenticated c.control.state
    then send (command i) (record c { commands = wait_for i c.commands })
    else record c { commands = not_connected i c.commands }

unfoldable pub find_timer : String → List Timer → Option Timer
find_timer k [] = none
find_timer k (t ∷ ts) = if str_eq t.key k then some t else find_timer k ts

abbrev pub fire_subscription_timeout : Option Timer → Client → Client
fire_subscription_timeout none c = c
fire_subscription_timeout (some t) c = on_channels (on_subscription_timeout t) c

abbrev pub time_out_subscription : String → Client → Client
time_out_subscription k c = fire_subscription_timeout (find_timer k c.channels.timers) c

-- The timer of a command fires only while it is set and not cleared.
abbrev pub time_out_command : String → Client → Client
time_out_command i c =
    if has i c.commands.timers then record c { commands = expire_command i c.commands } else c

module _ {N : Type 0} (ns : Numbers N) (ts : Texts N) (is_ticket : String → Bool)
    (o : Options) where
  abbrev pub on_message : ℕ → Option (Value N ⊥) → Client → Client
  on_message i data_in c = if is_socket i c.control.socket then receive ns ts data_in c else c

  unfoldable pub handle : Event N → Client → Client
  handle (call_connect made) c = on_control (connect o made) c
  handle call_disconnect c = disconnect c
  handle (call_channel made name kind) c = open_channel o made name kind c
  handle (call_leave name kind) c = leave name kind c
  handle (call_command i) c = send_command i c
  handle (exchange_ends made sequence x) c =
      on_control (authorize_and_open o made sequence (request_connection_ticket is_ticket x)) c
  handle (socket_opens i) c = on_control (on_open i) c
  handle (socket_fails i) c = on_control (on_error i) c
  handle (socket_closes i code) c = on_close o i code c
  handle (message_arrives i data_in) c = on_message i data_in c
  handle connection_times_out c = on_control on_connection_timeout c
  handle (reconnect_fires made) c = on_control (on_reconnect o made) c
  handle (subscription_times_out k) c = time_out_subscription k c
  handle (command_times_out i) c = time_out_command i c

  unfoldable pub run : List (Event N) → Client → Client
  run [] c = c
  run (e ∷ es) c = run es (handle e c)
