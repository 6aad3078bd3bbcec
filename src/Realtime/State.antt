-- ===== src/Realtime/State.antt =====
-- The fields of the class `Realtime`, grouped by what they are about. Listeners are left out.
use doxajs.Base.{
  ℕ, String, Bool, true, false, Option, none, some, List, [], ◌∷◌, nat_eq, if◌then◌else◌,
}

pub data ConnectionState : Type 0 where
  idle connecting transport_open authenticated reconnecting disconnected : ConnectionState

pub data SubscriptionState : Type 0 where
  pending subscribing subscribed failed leaving left : SubscriptionState

-- What the client reads of `RealtimeOptions`: whether there is an authorization endpoint, and the
-- bounds of the reconnection delay.
pub record Options : Type 0 where
  pub authorizes : Bool
  pub reconnect : Bool
  pub minimum : ℕ
  pub maximum : ℕ

-- A socket that the factory has made, with its `readyState`.
pub record Socket : Type 0 where
  pub id : ℕ
  pub ready : ℕ

-- The delay of `reconnect_timer` is the one before the jitter, and `connection_timer` names the
-- socket that it watches.
pub record Control : Type 0 where
  pub socket : Option Socket
  pub next_socket : ℕ
  pub attempt : ℕ
  pub reconnect_timer : Option ℕ
  pub connection_timer : Option ℕ
  pub authorization_pending : Bool
  pub sequence : ℕ
  pub explicitly_disconnected : Bool
  pub terminal_failure : Bool
  pub state : ConnectionState
  pub last_error : Option String

pub record Subscription : Type 0 where
  pub name : String
  pub kind : String
  pub state : SubscriptionState
  pub last_error : Option String

pub record Timer : Type 0 where
  pub key : String
  pub operation : String

-- The maps `#subscriptions` and `#subscriptionTimers`.
pub record Channels : Type 0 where
  pub subscriptions : List Subscription
  pub timers : List Timer

-- How the promise of a command is resolved.
pub record Settled : Type 0 where
  pub id : String
  pub code : Option String

-- The keys of `#pendingCommands`, the commands whose timers are set and not cleared, and the calls of
-- `resolve` so far, newest first.
pub record Commands : Type 0 where
  pub waiting : List String
  pub timers : List String
  pub settled : List Settled

-- A frame that was sent, newest first: its type, with a channel or the id of a command.
pub data Sent : Type 0 where
  subscribe unsubscribe : String → String → Sent
  command : String → Sent

pub record Client : Type 0 where
  pub control : Control
  pub channels : Channels
  pub commands : Commands
  pub sent : List Sent

-- `new Realtime(options)`
abbrev pub fresh_control : Control
fresh_control = record {
  socket = none;
  next_socket = 0;
  attempt = 0;
  reconnect_timer = none;
  connection_timer = none;
  authorization_pending = false;
  sequence = 0;
  explicitly_disconnected = false;
  terminal_failure = false;
  state = idle;
  last_error = none;
}

abbrev pub fresh_client : Client
fresh_client = record {
  control = fresh_control;
  channels = record { subscriptions = []; timers = [] };
  commands = record { waiting = []; timers = []; settled = [] };
  sent = [];
}

abbrev pub is_authenticated : ConnectionState → Bool
is_authenticated authenticated = true
is_authenticated s = false

-- `readyState === 1`
abbrev pub is_open : Option Socket → Bool
is_open none = false
is_open (some s) = nat_eq s.ready 1

-- `#send`, for a socket whose `send` does not throw while it is open.
abbrev pub send : Sent → Client → Client
send frame c = if is_open c.control.socket then record c { sent = frame ∷ c.sent } else c
