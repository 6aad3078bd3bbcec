-- ===== src/Realtime/Connection.antt =====
-- `connect`, `disconnect` and the opening of sockets.
use doxajs.Base.{
  ℕ, zero, suc, String, Bool, true, false, not, ◌||◌, ◌*◌, ◌+◌, ◌/◌, min, Option, none, some,
  nat_eq, ltb, if◌then◌else◌,
}
use doxajs.Realtime.State.{
  ConnectionState, connecting, transport_open, reconnecting, disconnected, Options, Socket, Control,
  is_authenticated,
}

abbrev pub transition : ConnectionState → Control → Control
transition s c = record c { state = s }

-- `#connectionError`, which keeps the error and tells the listeners.
abbrev pub connection_error : String → Control → Control
connection_error code c = record c { last_error = some code }

abbrev pub is_some : {A : Type 0} → Option A → Bool
is_some none = false
is_some (some a) = true

-- `2 ** n`
unfoldable pub power_of_two : ℕ → ℕ
power_of_two zero = 1
power_of_two (suc n) = 2 * power_of_two n

abbrev pub exponential : Options → ℕ → ℕ
exponential o attempt = min o.maximum (o.minimum * power_of_two attempt)

-- `Math.round(exponential * (0.75 + random * 0.5))`, where the random number is a fraction with the
-- denominator 1000000.
abbrev pub jittered : ℕ → ℕ → ℕ
jittered e random = (e * (1500000 + random) + 1000000) / 2000000

unfoldable pub schedule_reconnect : Options → Control → Control
schedule_reconnect o c =
    if is_some c.reconnect_timer
      || (c.explicitly_disconnected || (c.terminal_failure || not o.reconnect))
    then c
    else record c {
      state = reconnecting;
      attempt = suc c.attempt;
      reconnect_timer = some (exponential o c.attempt);
    }

-- Whether the factory makes a socket, or throws, is up to the environment.
unfoldable pub open_socket : Options → Bool → ℕ → Control → Control
open_socket o made sequence c =
    if not (nat_eq sequence c.sequence) || c.explicitly_disconnected
    then c
    else if made
    then record c {
      socket = some (record { id = c.next_socket; ready = 0 });
      next_socket = suc c.next_socket;
      connection_timer = some c.next_socket;
    }
    else schedule_reconnect o (connection_error "connection_failed" c)

abbrev pub is_active : Option Socket → Bool
is_active none = false
is_active (some s) = ltb s.ready 2

abbrev pub connecting_state : ℕ → ConnectionState
connecting_state attempt = if nat_eq attempt 0 then connecting else reconnecting

abbrev pub begin_connection : Control → Control
begin_connection c = record c {
  explicitly_disconnected = false;
  terminal_failure = false;
  state = connecting_state c.attempt;
  sequence = suc c.sequence;
}

unfoldable pub connect : Options → Bool → Control → Control
connect o made c =
    if is_active c.socket || c.authorization_pending
    then c
    else let c' = begin_connection c in
      if o.authorizes
      then record c' { authorization_pending = true }
      else open_socket o made c'.sequence c'

-- The part of `disconnect` that is about the connection.
abbrev pub disconnect_control : Control → Control
disconnect_control c = record c {
  sequence = suc c.sequence;
  authorization_pending = false;
  explicitly_disconnected = true;
  terminal_failure = false;
  reconnect_timer = none;
  connection_timer = none;
  socket = none;
  state = disconnected;
}

-- `socket.close(…)`: the socket is closing until its close event.
abbrev pub close_socket : Option Socket → Option Socket
close_socket none = none
close_socket (some s) = some (record s { ready = if ltb s.ready 2 then 2 else s.ready })

abbrev pub is_socket : ℕ → Option Socket → Bool
is_socket i none = false
is_socket i (some s) = nat_eq s.id i

abbrev pub ready_socket : ℕ → Option Socket → Option Socket
ready_socket r none = none
ready_socket r (some s) = some (record s { ready = r })

-- `socket.onopen`
abbrev pub on_open : ℕ → Control → Control
on_open i c =
    if is_socket i c.socket
    then record c { socket = ready_socket 1 c.socket; state = transport_open }
    else c

-- `socket.onerror`
abbrev pub on_error : ℕ → Control → Control
on_error i c = if is_socket i c.socket then connection_error "transport_error" c else c

-- `event.code === 4401 || event.code === 4403`
abbrev pub authentication_failure : ℕ → Bool
authentication_failure code = nat_eq code 4401 || nat_eq code 4403

abbrev pub fail_authentication : Bool → Control → Control
fail_authentication true c = record c {
  terminal_failure = true;
  last_error = some "authentication_failed";
}
fail_authentication false c = c

-- The part of `socket.onclose` that is about the connection, for the current socket.
unfoldable pub on_close_control : Options → ℕ → Control → Control
on_close_control o code c = schedule_reconnect o (
    transition disconnected (
      fail_authentication (authentication_failure code)
        (record c { socket = none; connection_timer = none })))

abbrev pub fire_connection_timeout : Option ℕ → Control → Control
fire_connection_timeout none c = c
fire_connection_timeout (some i) c =
    if not (is_socket i c.socket) || is_authenticated c.state
    then record c { connection_timer = none }
    else record c {
      connection_timer = none;
      last_error = some "connection_timeout";
      socket = close_socket c.socket;
    }

-- The timer of `#startConnectionTimeout` on a socket.
abbrev pub on_connection_timeout : Control → Control
on_connection_timeout c = fire_connection_timeout c.connection_timer c

abbrev pub fire_reconnect : Options → Bool → Option ℕ → Control → Control
fire_reconnect o made none c = c
fire_reconnect o made (some _) c = connect o made (record c { reconnect_timer = none })

-- The timer of `#scheduleReconnect`.
abbrev pub on_reconnect : Options → Bool → Control → Control
on_reconnect o made c = fire_reconnect o made c.reconnect_timer c
