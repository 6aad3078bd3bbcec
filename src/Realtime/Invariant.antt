-- ===== src/Realtime/Invariant.antt =====
-- Every event leaves the client driven.
use doxajs.Base.{
  ℕ, String, Bool, true, false, not, ◌&&◌, ◌||◌, ◌≡◌, refl, sym, ◌∙◌, subst, Option, none, some,
  List, [], ◌∷◌, str_eq, has, if-cases, Option-cases, inl, inr,
}
use doxajs.Js.{
  Value, undefined, null, bool, number, string, array, object, instance_of, Numbers, Texts, get,
}
use doxajs.Realtime.State.{
  Options, Timer, Subscription, Control, Client, Sent, send, is_open, fresh_client,
  is_authenticated,
}
use doxajs.Realtime.Connection.{is_some, is_socket}
use doxajs.Realtime.Channels.{
  subscribe_channel, subscribe_each, is_gone, leave_one, leave_each, leave, kind_matches,
  find_subscription, channel_key,
}
use doxajs.Realtime.Receive.{
  protocol_error, fatal_error, connected_control, receive_connected, channel_in, is_text, is_true,
  is_event_frame, report_error, is_protocol, text_in, receive, receive_text, receive_type,
  receive_error, receive_command_ack, acknowledge_flag, acknowledge, refuse_command,
  receive_channel, receive_subscription,
}
use doxajs.Realtime.Events.{
  Event, call_connect, call_disconnect, call_channel, call_leave, call_command, exchange_ends,
  socket_opens, socket_fails, socket_closes, message_arrives, connection_times_out, reconnect_fires,
  subscription_times_out, command_times_out, disconnect, on_close, send_command, find_timer,
  fire_subscription_timeout, on_message, subscribe_if, open_channel, handle, run,
}
use doxajs.Realtime.Driven.{
  Driven, at_rest, told, held, connect-Driven, on_close_control-Driven, fire_reconnect-Driven,
  on_open-Driven, on_error-Driven, fire_connection_timeout-Driven, is_some-of_socket, is_some-close,
}
use doxajs.Realtime.Exchanges.{request_connection_ticket-Graded, authorize_and_open-Driven}

-- The functions on channels leave the connection as it is.
send-control : (f : Sent) (c : Client) → (send f c).control ≡ c.control
send-control f c =
    if-cases (λ (d : Client). d.control ≡ c.control) (is_open c.control.socket) _ _ (λ h. refl)
      (λ h. refl)

subscribe_channel-control :
    (s : Subscription) (c : Client) → (subscribe_channel s c).control ≡ c.control
unfolding subscribe_channel
subscribe_channel-control s c =
    if-cases (λ (d : Client). d.control ≡ c.control) (is_gone s.state) _ _ (λ h. refl)
      (λ h. send-control _ _)

subscribe_each-control :
    (ss : List Subscription) (c : Client) → (subscribe_each ss c).control ≡ c.control
unfolding subscribe_each
subscribe_each-control [] c = refl
subscribe_each-control (s ∷ ss) c =
    subscribe_each-control ss (subscribe_channel s c) ∙ subscribe_channel-control s c

leave_one-control : (s : Subscription) (c : Client) → (leave_one s c).control ≡ c.control
leave_one-control s c =
    if-cases (λ (d : Client). d.control ≡ c.control) (is_authenticated c.control.state) _ _
      (λ h. send-control _ c) (λ h. refl)

leave_each-control :
    (name : String) (kind : Option String) (ss : List Subscription) (c : Client)
    → (leave_each name kind ss c).control ≡ c.control
unfolding leave_each
leave_each-control name kind [] c = refl
leave_each-control name kind (s ∷ ss) c =
    leave_each-control name kind ss _
    ∙ if-cases (λ (d : Client). d.control ≡ c.control)
        (str_eq s.name name && kind_matches kind s.kind) _ _ (λ h. leave_one-control s c)
        (λ h. refl)

-- The client has a socket.
abbrev Held : Client → Type 0
Held c = is_some c.control.socket ≡ true

protocol_error-Held :
    (code : String) (f : Bool) (c : Client) → Held c → Held (protocol_error code f c)
protocol_error-Held code true c h = is_some-close c.control.socket h
protocol_error-Held code false c h = h

fatal_error-Held : (f : Bool) (c : Client) → Held c → Held (fatal_error f c)
fatal_error-Held true c h = is_some-close c.control.socket h
fatal_error-Held false c h = h

receive_connected-Held : (c : Client) → Held c → Held (receive_connected c)
receive_connected-Held c h =
    subst (λ (k : Control). is_some k.socket ≡ true)
      (sym (
        subscribe_each-control c.channels.subscriptions
          (record c { control = connected_control c.control })))
      h

module _ {N : Type 0} (ns : Numbers N) (ts : Texts N) where
  report_error-Held :
      (k : Option String) (code : String) (c : Client) → Held c → Held (report_error ns ts k code c)
  report_error-Held none code c h = h
  report_error-Held (some k) code c h = h

  receive_error-Held : (f : Value N ⊥) (c : Client) → Held c → Held (receive_error ns ts f c)
  unfolding receive_error
  receive_error-Held f c h =
      fatal_error-Held (is_true ns ts (get "fatal" f)) _ (report_error-Held _ _ c h)

  refuse_command-Held :
      (i : String) (e : Value N ⊥) (c : Client) → Held c → Held (refuse_command ns ts i e c)
  refuse_command-Held i e c h = if-cases Held _ _ _ (λ _. h) (λ _. h)

  acknowledge-Held :
      (i : String) (okay : Bool) (e : Value N ⊥) (c : Client)
      → Held c
      → Held (acknowledge ns ts i okay e c)
  acknowledge-Held i okay e c h =
      if-cases Held (not (has i c.commands.waiting)) _ _ (λ _. h)
        (λ _. if-cases Held okay _ _ (λ _. h) (λ _. refuse_command-Held i e c h))

  acknowledge_flag-Held :
      (i : String) (v e : Value N ⊥) (c : Client) → Held c → Held (acknowledge_flag ns ts i v e c)
  acknowledge_flag-Held i (bool okay) e c h = acknowledge-Held i okay e c h
  acknowledge_flag-Held i undefined e c h = h
  acknowledge_flag-Held i null e c h = h
  acknowledge_flag-Held i (number n) e c h = h
  acknowledge_flag-Held i (string s) e c h = h
  acknowledge_flag-Held i (array xs) e c h = h
  acknowledge_flag-Held i (object fs) e c h = h
  acknowledge_flag-Held i (instance_of d) e c h = h

  receive_command_ack-Held :
      (f : Value N ⊥) (c : Client) → Held c → Held (receive_command_ack ns ts f c)
  unfolding receive_command_ack
  receive_command_ack-Held f c h = elim (Option-cases (text_in ns ts (get "id" f))) [
    | inl e ↦ rw (receive_command_ack, e) h
    | inr (i, e) ↦
        rw (receive_command_ack, e) (acknowledge_flag-Held i (get "ok" f) (get "error" f) c h)
  ]

  receive_subscription-Held :
      (type k : String) (c : Client) → Held c → Held (receive_subscription ns ts type k c)
  receive_subscription-Held type k c h =
      if-cases Held (str_eq type "subscribed") _ _ (λ _. h)
        (λ _.
          if-cases Held (str_eq type "unsubscribed") _ _ (λ _. h)
            (λ _.
              if-cases Held (str_eq type "presence_joined" || str_eq type "presence_left") _ _
                (λ _. h) (λ _. h)))

  receive_channel-Held :
      (type : String) (k : Option String) (c : Client)
      → Held c
      → Held (receive_channel ns ts type k c)
  unfolding receive_channel
  receive_channel-Held type none c h = h
  receive_channel-Held type (some k) c h =
      elim (Option-cases (find_subscription k c.channels.subscriptions)) [
        | inl e ↦ rw (receive_channel, e) h
        | inr (s, e) ↦ rw (receive_channel, e) (receive_subscription-Held type k c h)
      ]

  receive_type-Held :
      (f : Value N ⊥) (type : String) (c : Client) → Held c → Held (receive_type ns ts f type c)
  receive_type-Held f type c h =
      if-cases Held (str_eq type "connected") _ _
        (λ _.
          if-cases Held (is_text ns ts (get "connectionId" f)) _ _ (λ _. receive_connected-Held c h)
            (λ _. protocol_error-Held "invalid_connected" true c h))
        (λ _.
          if-cases Held (str_eq type "error") _ _ (λ _. receive_error-Held f c h)
            (λ _.
              if-cases Held (str_eq type "event" && is_event_frame ns ts f) _ _ (λ _. h)
                (λ _.
                  if-cases Held (str_eq type "command_ack") _ _
                    (λ _. receive_command_ack-Held f c h)
                    (λ _.
                      if-cases Held (str_eq type "pong") _ _ (λ _. h)
                        (λ _.
                          receive_channel-Held type (channel_in ns ts (get "channel" f)) c h)))))

  receive_text-Held :
      (f : Value N ⊥) (o : Option String) (c : Client) → Held c → Held (receive_text ns ts f o c)
  receive_text-Held f none c h = protocol_error-Held "unsupported_protocol" true c h
  receive_text-Held f (some type) c h =
      if-cases Held (not (is_protocol ns ts (get "protocol" f))) _ _
        (λ _. protocol_error-Held "unsupported_protocol" true c h)
        (λ _. receive_type-Held f type c h)

  receive-Held : (d : Option (Value N ⊥)) (c : Client) → Held c → Held (receive ns ts d c)
  unfolding receive
  receive-Held none c h = protocol_error-Held "invalid_json" true c h
  receive-Held (some undefined) c h = receive_text-Held undefined none c h
  receive-Held (some null) c h = h
  receive-Held (some (bool b)) c h = receive_text-Held (bool b) none c h
  receive-Held (some (number n)) c h = receive_text-Held (number n) none c h
  receive-Held (some (string s)) c h = receive_text-Held (string s) none c h
  receive-Held (some (array xs)) c h = receive_text-Held (array xs) none c h
  receive-Held (some (object fs)) c h =
      receive_text-Held (object fs) (text_in ns ts (get "type" (object fs))) c h
  receive-Held (some (instance_of i)) c h = elim i [ ]

subscribe_if-control :
    (b : Bool) (s : Subscription) (c : Client) → (subscribe_if b s c).control ≡ c.control
subscribe_if-control true s c = subscribe_channel-control s c
subscribe_if-control false s c = refl

abbrev IsDriven : Client → Type 0
IsDriven c = Driven c.control

module _ (o : Options) (again : o.reconnect ≡ true) where
  open_channel-Driven :
      (made : Bool) (name kind : String) (c : Client)
      → IsDriven c
      → IsDriven (open_channel o made name kind c)
  unfolding open_channel
  open_channel-Driven made name kind c d =
      elim (Option-cases (find_subscription (channel_key kind name) c.channels.subscriptions)) [
        | inr (s, e) ↦ rw (open_channel, e) d
        | inl e ↦
            rw (open_channel, e)
              (subst Driven (sym (subscribe_if-control _ _ _))
                (connect-Driven o again made c.control))
      ]

  on_close-Driven : (i code : ℕ) (c : Client) → IsDriven c → IsDriven (on_close o i code c)
  unfolding on_close
  on_close-Driven i code c d =
      if-cases IsDriven (is_socket i c.control.socket) _ _
        (λ h. on_close_control-Driven o again code c.control) (λ h. d)

  send_command-Driven : (i : String) (c : Client) → IsDriven c → IsDriven (send_command i c)
  unfolding send_command
  send_command-Driven i c d =
      if-cases IsDriven (is_authenticated c.control.state) _ _
        (λ h. subst Driven (sym (send-control _ _)) d) (λ h. d)

  fire_subscription_timeout-Driven :
      (t : Option Timer) (c : Client) → IsDriven c → IsDriven (fire_subscription_timeout t c)
  fire_subscription_timeout-Driven none c d = d
  fire_subscription_timeout-Driven (some t) c d = d

  module _ {N : Type 0} (ns : Numbers N) (ts : Texts N) (is_ticket : String → Bool) where
    on_message-Driven :
        (i : ℕ) (v : Option (Value N ⊥)) (c : Client)
        → IsDriven c
        → IsDriven (on_message ns ts is_ticket o i v c)
    on_message-Driven i v c d =
        if-cases IsDriven (is_socket i c.control.socket) _ _
          (λ h. held (receive-Held ns ts v c (is_some-of_socket i c.control.socket h))) (λ h. d)

    handle-Driven :
        (e : Event N) (c : Client) → IsDriven c → IsDriven (handle ns ts is_ticket o e c)
    unfolding handle disconnect leave
    handle-Driven (call_connect made) c d = connect-Driven o again made c.control
    handle-Driven call_disconnect c d = told refl
    handle-Driven (call_channel made name kind) c d = open_channel-Driven made name kind c d
    handle-Driven (call_leave name kind) c d =
        subst Driven (sym (leave_each-control name kind c.channels.subscriptions c)) d
    handle-Driven (call_command i) c d = send_command-Driven i c d
    handle-Driven (exchange_ends made sequence x) c d =
        authorize_and_open-Driven o again made sequence _ c.control
          (request_connection_ticket-Graded is_ticket x) d
    handle-Driven (socket_opens i) c d = on_open-Driven o again i c.control d
    handle-Driven (socket_fails i) c d = on_error-Driven o again i c.control d
    handle-Driven (socket_closes i code) c d = on_close-Driven i code c d
    handle-Driven (message_arrives i v) c d = on_message-Driven i v c d
    handle-Driven connection_times_out c d =
        fire_connection_timeout-Driven o again c.control.connection_timer c.control d
    handle-Driven (reconnect_fires made) c d =
        fire_reconnect-Driven o again made c.control.reconnect_timer c.control d
    handle-Driven (subscription_times_out k) c d =
        fire_subscription_timeout-Driven (find_timer k c.channels.timers) c d
    handle-Driven (command_times_out i) c d =
        if-cases IsDriven (has i c.commands.timers) _ _ (λ _. d) (λ _. d)

    run-from :
        (es : List (Event N)) (c : Client) → IsDriven c → IsDriven (run ns ts is_ticket o es c)
    unfolding run
    run-from [] c d = d
    run-from (e ∷ es) c d = run-from es _ (handle-Driven e c d)

    -- After any events, a new client that may reconnect is at rest, told to disconnect, in a terminal
    -- failure, or it has a socket, an exchange with the authorization endpoint, or a timer to reconnect.
    pub run-Driven : (es : List (Event N)) → Driven (run ns ts is_ticket o es fresh_client).control
    run-Driven es = run-from es fresh_client (at_rest refl)
