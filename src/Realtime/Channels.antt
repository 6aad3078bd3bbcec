-- ===== src/Realtime/Channels.antt =====
-- The subscriptions, their timers, and the pending commands.
use doxajs.Base.{
  String, Bool, true, false, ◌&&◌, Option, none, some, List, [], ◌∷◌, str_eq, delete, text_append,
  if◌then◌else◌,
}
use doxajs.Realtime.State.{
  SubscriptionState, pending, subscribing, failed, leaving, left, Subscription, Timer, Channels,
  Settled, Commands, subscribe, unsubscribe, Client, is_authenticated, send,
}

-- `channelKey`
abbrev pub channel_key : String → String → String
channel_key kind name = text_append kind (text_append ":" name)

abbrev pub key_of : Subscription → String
key_of s = channel_key s.kind s.name

abbrev pub with_state : SubscriptionState → Subscription → Subscription
with_state st s = record s { state = st }

-- `subscription.reset()`
abbrev pub reset : Subscription → Subscription
reset s = record s { state = pending; last_error = none }

-- `subscription.fail(error)`
abbrev pub fail : String → Subscription → Subscription
fail code s = record s { state = failed; last_error = some code }

unfoldable pub find_subscription : String → List Subscription → Option Subscription
find_subscription k [] = none
find_subscription k (s ∷ ss) = if str_eq (key_of s) k then some s else find_subscription k ss

-- A change of the subscription with a key.
unfoldable pub update_subscription :
    String → (Subscription → Subscription) → List Subscription → List Subscription
update_subscription k f [] = []
update_subscription k f (s ∷ ss) =
    let rest = update_subscription k f ss in if str_eq (key_of s) k then f s ∷ rest else s ∷ rest

-- `subscriptions.delete(key)`
unfoldable pub drop_subscription : String → List Subscription → List Subscription
drop_subscription k [] = []
drop_subscription k (s ∷ ss) =
    let rest = drop_subscription k ss in if str_eq (key_of s) k then rest else s ∷ rest

-- `#clearSubscriptionTimer`
unfoldable pub clear_timer : String → List Timer → List Timer
clear_timer k [] = []
clear_timer k (t ∷ ts) = let rest = clear_timer k ts in if str_eq t.key k then rest else t ∷ rest

-- `#startSubscriptionTimeout`
abbrev pub start_timer : String → String → List Timer → List Timer
start_timer k op ts = record { key = k; operation = op } ∷ clear_timer k ts

abbrev pub on_channels : (Channels → Channels) → Client → Client
on_channels f c = record c { channels = f c.channels }

abbrev pub update_channel : String → (Subscription → Subscription) → Channels → Channels
update_channel k f ch = record {
  subscriptions = update_subscription k f ch.subscriptions;
  timers = clear_timer k ch.timers;
}

abbrev pub drop_channel : String → Channels → Channels
drop_channel k ch = record {
  subscriptions = drop_subscription k ch.subscriptions;
  timers = clear_timer k ch.timers;
}

abbrev pub is_gone : SubscriptionState → Bool
is_gone leaving = true
is_gone left = true
is_gone st = false

-- The change and the timer of `#subscribe`, for a subscription that is not being left.
abbrev pub mark_subscribing : String → Channels → Channels
mark_subscribing k ch = record {
  subscriptions = update_subscription k (with_state subscribing) ch.subscriptions;
  timers = start_timer k "subscribe" ch.timers;
}

abbrev pub mark_leaving : String → Channels → Channels
mark_leaving k ch = record {
  subscriptions = update_subscription k (with_state leaving) ch.subscriptions;
  timers = start_timer k "unsubscribe" ch.timers;
}

-- `#subscribe`
unfoldable pub subscribe_channel : Subscription → Client → Client
subscribe_channel s c =
    if is_gone s.state
    then c
    else send (subscribe s.kind s.name) (on_channels (mark_subscribing (key_of s)) c)

-- The loop over `#subscriptions` on the `connected` frame.
unfoldable pub subscribe_each : List Subscription → Client → Client
subscribe_each [] c = c
subscribe_each (s ∷ ss) c = subscribe_each ss (subscribe_channel s c)

abbrev pub kind_matches : Option String → String → Bool
kind_matches none k = true
kind_matches (some j) k = str_eq j k

abbrev pub leave_one : Subscription → Client → Client
leave_one s c =
    if is_authenticated c.control.state
    then on_channels (mark_leaving (key_of s)) (send (unsubscribe s.kind s.name) c)
    else on_channels (drop_channel (key_of s)) c

-- The loop of `leave`.
unfoldable pub leave_each : String → Option String → List Subscription → Client → Client
leave_each name kind [] c = c
leave_each name kind (s ∷ ss) c =
    leave_each name kind ss
      (if str_eq s.name name && kind_matches kind s.kind then leave_one s c else c)

unfoldable pub leave : String → Option String → Client → Client
leave name kind c = leave_each name kind c.channels.subscriptions c

-- The loops of `onclose` and of `disconnect` over the subscriptions.
unfoldable pub reset_after_close : List Subscription → List Subscription
reset_after_close [] = []
reset_after_close (s ∷ ss) =
    let rest = reset_after_close ss in if is_gone s.state then s ∷ rest else reset s ∷ rest

abbrev pub is_left : SubscriptionState → Bool
is_left left = true
is_left st = false

unfoldable pub reset_after_disconnect : List Subscription → List Subscription
reset_after_disconnect [] = []
reset_after_disconnect (s ∷ ss) =
    let rest = reset_after_disconnect ss in if is_left s.state then s ∷ rest else reset s ∷ rest

-- The timer of a subscription fires.
abbrev pub timeout_code : String → String
timeout_code operation = text_append operation "_timeout"

abbrev pub on_subscription_timeout : Timer → Channels → Channels
on_subscription_timeout t ch = update_channel t.key (fail (timeout_code t.operation)) ch

unfoldable pub settle_all : String → List String → List Settled → List Settled
settle_all code [] done = done
settle_all code (i ∷ is) done = settle_all code is (record { id = i; code = some code } ∷ done)

-- `clearTimeout` of every pending command.
unfoldable pub clear_each : List String → List String → List String
clear_each [] timers = timers
clear_each (i ∷ is) timers = clear_each is (delete i timers)

-- `#settlePendingCommands`
abbrev pub settle_pending_commands : String → Commands → Commands
settle_pending_commands code cs = record {
  waiting = [];
  timers = clear_each cs.waiting cs.timers;
  settled = settle_all code cs.waiting cs.settled;
}

-- An acknowledged command, which is pending: its timer is cleared.
abbrev pub settle : String → Option String → Commands → Commands
settle i code cs = record {
  waiting = delete i cs.waiting;
  timers = delete i cs.timers;
  settled = record { id = i; code = code } ∷ cs.settled;
}

-- The timer of a command fires; what it resolves is not looked up.
abbrev pub expire_command : String → Commands → Commands
expire_command i cs = record {
  waiting = delete i cs.waiting;
  timers = delete i cs.timers;
  settled = record { id = i; code = some "command_ack_timeout" } ∷ cs.settled;
}
