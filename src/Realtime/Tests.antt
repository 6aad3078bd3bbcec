-- ===== src/Realtime/Tests.antt =====
-- Connections that drop, commands that are acknowledged, and channels that are being left.
use doxajs.Base.{
  ℕ, String, Bool, true, false, Option, none, some, List, [], ◌∷◌, ◌++◌, ◌≡◌, refl, ◌⊎◌, inl, inr,
}
use doxajs.Js.{Value, bool, number, string, object, field, end, Numbers, Texts}
use doxajs.Js.Samples.{naturals, texts}
use doxajs.Realtime.State.{
  Options, Client, Subscription, SubscriptionState, subscribing, leaving, fresh_client,
}
use doxajs.Realtime.Events.{
  Event, call_connect, call_disconnect, call_channel, call_leave, call_command, socket_opens,
  socket_closes, message_arrives, reconnect_fires, handle, run,
}
use doxajs.Realtime.Driven.{Driven}
use doxajs.Realtime.Invariant.{run-Driven}
use doxajs.Realtime.Commands.{Once, Accounted, run-Once, run-Accounted}

abbrev options : Options
options = record { authorizes = false; reconnect = true; minimum = 250; maximum = 10000 }

abbrev any_ticket : String → Bool
any_ticket s = true

abbrev frame_of : String → Value ℕ ⊥
frame_of type = object (
    field "protocol" (number 3) (
      field "type" (string type) (
        field "connectionId" (string "c")
          (field "id" (string "one") (field "ok" (bool true) end)))))

abbrev joined : List (Event ℕ)
joined =
    call_channel true "orders" "private"
    ∷ socket_opens 0
    ∷ message_arrives 0 (some (frame_of "connected"))
    ∷ []

-- The connection drops while a channel is being left: it is subscribed to no more, and a new call
-- of `channel` gives the subscription that stays so.
abbrev left_at_close : List (Event ℕ)
left_at_close =
    call_leave "orders" none
    ∷ socket_closes 0 1006
    ∷ reconnect_fires true
    ∷ socket_opens 1
    ∷ message_arrives 1 (some (frame_of "connected"))
    ∷ call_channel true "orders" "private"
    ∷ []

-- The client disconnects while a channel is being left, and the channel comes back.
abbrev left_at_disconnect : List (Event ℕ)
left_at_disconnect =
    call_leave "orders" none
    ∷ call_disconnect
    ∷ call_connect true
    ∷ socket_opens 1
    ∷ message_arrives 1 (some (frame_of "connected"))
    ∷ []

abbrev with_command : List (Event ℕ)
with_command = call_command "one" ∷ message_arrives 0 (some (frame_of "command_ack")) ∷ []

abbrev state_list : List Subscription → List SubscriptionState
state_list [] = []
state_list (s ∷ ss) = s.state ∷ state_list ss

abbrev states : List (Event ℕ) → List SubscriptionState
states es =
    state_list (run naturals texts any_ticket options es fresh_client).channels.subscriptions

joined_subscribes : states joined ≡ subscribing ∷ []
unfolding run handle doxajs.Realtime.Connection.connect doxajs.Realtime.Connection.open_socket
    doxajs.Realtime.Connection.schedule_reconnect doxajs.Realtime.Connection.power_of_two
    doxajs.Realtime.Connection.on_close_control doxajs.Realtime.Channels.leave
    doxajs.Realtime.Channels.leave_each doxajs.Realtime.Channels.subscribe_channel
    doxajs.Realtime.Channels.subscribe_each doxajs.Realtime.Channels.find_subscription
    doxajs.Realtime.Channels.update_subscription doxajs.Realtime.Channels.clear_timer
    doxajs.Realtime.Channels.drop_subscription doxajs.Realtime.Channels.reset_after_close
    doxajs.Realtime.Channels.reset_after_disconnect doxajs.Realtime.Channels.settle_all
    doxajs.Realtime.Channels.clear_each doxajs.Realtime.Receive.receive
    doxajs.Realtime.Receive.receive_channel doxajs.Realtime.Receive.receive_command_ack
    doxajs.Realtime.Events.disconnect doxajs.Realtime.Events.on_close
    doxajs.Realtime.Events.open_channel doxajs.Realtime.Events.append_subscription
    doxajs.Realtime.Events.send_command doxajs.Realtime.Events.find_timer doxajs.Base.text_append
    doxajs.Js.property doxajs.Base.has doxajs.Base.delete
joined_subscribes = refl

left_at_close_stays : states (joined ++ left_at_close) ≡ leaving ∷ []
unfolding run handle doxajs.Realtime.Connection.connect doxajs.Realtime.Connection.open_socket
    doxajs.Realtime.Connection.schedule_reconnect doxajs.Realtime.Connection.power_of_two
    doxajs.Realtime.Connection.on_close_control doxajs.Realtime.Channels.leave
    doxajs.Realtime.Channels.leave_each doxajs.Realtime.Channels.subscribe_channel
    doxajs.Realtime.Channels.subscribe_each doxajs.Realtime.Channels.find_subscription
    doxajs.Realtime.Channels.update_subscription doxajs.Realtime.Channels.clear_timer
    doxajs.Realtime.Channels.drop_subscription doxajs.Realtime.Channels.reset_after_close
    doxajs.Realtime.Channels.reset_after_disconnect doxajs.Realtime.Channels.settle_all
    doxajs.Realtime.Channels.clear_each doxajs.Realtime.Receive.receive
    doxajs.Realtime.Receive.receive_channel doxajs.Realtime.Receive.receive_command_ack
    doxajs.Realtime.Events.disconnect doxajs.Realtime.Events.on_close
    doxajs.Realtime.Events.open_channel doxajs.Realtime.Events.append_subscription
    doxajs.Realtime.Events.send_command doxajs.Realtime.Events.find_timer doxajs.Base.text_append
    doxajs.Js.property doxajs.Base.has doxajs.Base.delete
left_at_close_stays = refl

left_at_disconnect_returns : states (joined ++ left_at_disconnect) ≡ subscribing ∷ []
unfolding run handle doxajs.Realtime.Connection.connect doxajs.Realtime.Connection.open_socket
    doxajs.Realtime.Connection.schedule_reconnect doxajs.Realtime.Connection.power_of_two
    doxajs.Realtime.Connection.on_close_control doxajs.Realtime.Channels.leave
    doxajs.Realtime.Channels.leave_each doxajs.Realtime.Channels.subscribe_channel
    doxajs.Realtime.Channels.subscribe_each doxajs.Realtime.Channels.find_subscription
    doxajs.Realtime.Channels.update_subscription doxajs.Realtime.Channels.clear_timer
    doxajs.Realtime.Channels.drop_subscription doxajs.Realtime.Channels.reset_after_close
    doxajs.Realtime.Channels.reset_after_disconnect doxajs.Realtime.Channels.settle_all
    doxajs.Realtime.Channels.clear_each doxajs.Realtime.Receive.receive
    doxajs.Realtime.Receive.receive_channel doxajs.Realtime.Receive.receive_command_ack
    doxajs.Realtime.Events.disconnect doxajs.Realtime.Events.on_close
    doxajs.Realtime.Events.open_channel doxajs.Realtime.Events.append_subscription
    doxajs.Realtime.Events.send_command doxajs.Realtime.Events.find_timer doxajs.Base.text_append
    doxajs.Js.property doxajs.Base.has doxajs.Base.delete
left_at_disconnect_returns = refl

abbrev client_joined : Client
client_joined = run naturals texts any_ticket options joined fresh_client

command_settles :
    (run naturals texts any_ticket options (joined ++ with_command) fresh_client).commands.waiting
    ≡ []
unfolding run handle doxajs.Realtime.Connection.connect doxajs.Realtime.Connection.open_socket
    doxajs.Realtime.Connection.schedule_reconnect doxajs.Realtime.Connection.power_of_two
    doxajs.Realtime.Connection.on_close_control doxajs.Realtime.Channels.leave
    doxajs.Realtime.Channels.leave_each doxajs.Realtime.Channels.subscribe_channel
    doxajs.Realtime.Channels.subscribe_each doxajs.Realtime.Channels.find_subscription
    doxajs.Realtime.Channels.update_subscription doxajs.Realtime.Channels.clear_timer
    doxajs.Realtime.Channels.drop_subscription doxajs.Realtime.Channels.reset_after_close
    doxajs.Realtime.Channels.reset_after_disconnect doxajs.Realtime.Channels.settle_all
    doxajs.Realtime.Channels.clear_each doxajs.Realtime.Receive.receive
    doxajs.Realtime.Receive.receive_channel doxajs.Realtime.Receive.receive_command_ack
    doxajs.Realtime.Events.disconnect doxajs.Realtime.Events.on_close
    doxajs.Realtime.Events.open_channel doxajs.Realtime.Events.append_subscription
    doxajs.Realtime.Events.send_command doxajs.Realtime.Events.find_timer doxajs.Base.text_append
    doxajs.Js.property doxajs.Base.has doxajs.Base.delete
command_settles = refl

run-Driven_example :
    Driven (run naturals texts any_ticket options (joined ++ left_at_close) fresh_client).control
run-Driven_example = run-Driven options refl naturals texts any_ticket (joined ++ left_at_close)

run-Once_example : Once (run naturals texts any_ticket options with_command fresh_client).commands
run-Once_example =
    run-Once naturals texts any_ticket options with_command fresh_client
      (((λ m. m), (λ m. m)), (tt, tt))
      (record { waiting_once = tt; settled_once = tt; apart = λ k m n. m; armed = refl })

abbrev waiting_client : Client
waiting_client = record fresh_client {
  commands = record { waiting = "one" ∷ []; timers = "one" ∷ []; settled = [] };
}

run-Accounted_example :
    Accounted "one"
      (run naturals texts any_ticket options (call_disconnect ∷ []) waiting_client).commands
run-Accounted_example =
    run-Accounted naturals texts any_ticket options "one" (call_disconnect ∷ []) waiting_client
      (inl (inl refl))
