-- ===== src/Realtime/Settling.antt =====
-- The events of a client change its commands by settling them, and by sending new ones.
use doxajs.Base.{
  String, Bool, true, false, not, ◌&&◌, ◌||◌, ◌≡◌, refl, sym, ◌∙◌, subst, Option, none, some, List,
  [], ◌∷◌, str_eq, has, not-false, if-cases, Option-cases, inl, inr,
}
use doxajs.Js.{
  Value, undefined, null, bool, number, string, array, object, instance_of, Numbers, Texts, get,
  is_record,
}
use doxajs.Realtime.State.{
  Options, Timer, Subscription, Commands, Client, Sent, subscribe, unsubscribe, command, send,
  is_open, is_authenticated,
}
use doxajs.Realtime.Connection.{is_socket}
use doxajs.Realtime.Channels.{
  on_channels, mark_subscribing, key_of, subscribe_channel, subscribe_each, is_gone, leave_one,
  leave_each, leave, kind_matches, find_subscription, channel_key, settle, expire_command,
  settle_pending_commands,
}
use doxajs.Realtime.Receive.{
  settle_command, protocol_error, fatal_error, connected_control, channel_in, is_text, is_true,
  is_event_frame, report_error, is_protocol, text_in, receive, receive_text, receive_type,
  receive_error, receive_command_ack, acknowledge_flag, acknowledge, refuse_command,
  receive_channel, receive_subscription,
}
use doxajs.Realtime.Events.{
  Event, call_connect, call_disconnect, call_channel, call_leave, call_command, exchange_ends,
  socket_opens, socket_fails, socket_closes, message_arrives, connection_times_out, reconnect_fires,
  subscription_times_out, command_times_out, disconnect, on_close, send_command, wait_for,
  not_connected, find_timer, fire_subscription_timeout, subscribe_if, open_channel, handle,
}

send-commands : (f : Sent) (c : Client) → (send f c).commands ≡ c.commands
send-commands f c =
    if-cases (λ (d : Client). d.commands ≡ c.commands) (is_open c.control.socket) _ _ (λ h. refl)
      (λ h. refl)

subscribe_channel-commands :
    (s : Subscription) (c : Client) → (subscribe_channel s c).commands ≡ c.commands
unfolding subscribe_channel
subscribe_channel-commands s c =
    if-cases (λ (d : Client). d.commands ≡ c.commands) (is_gone s.state) _ _ (λ h. refl)
      (λ h. send-commands (subscribe s.kind s.name) (on_channels (mark_subscribing (key_of s)) c))

subscribe_each-commands :
    (ss : List Subscription) (c : Client) → (subscribe_each ss c).commands ≡ c.commands
unfolding subscribe_each
subscribe_each-commands [] c = refl
subscribe_each-commands (s ∷ ss) c =
    subscribe_each-commands ss (subscribe_channel s c) ∙ subscribe_channel-commands s c

leave_one-commands : (s : Subscription) (c : Client) → (leave_one s c).commands ≡ c.commands
leave_one-commands s c =
    if-cases (λ (d : Client). d.commands ≡ c.commands) (is_authenticated c.control.state) _ _
      (λ h. send-commands (unsubscribe s.kind s.name) c) (λ h. refl)

leave_each-commands :
    (name : String) (kind : Option String) (ss : List Subscription) (c : Client)
    → (leave_each name kind ss c).commands ≡ c.commands
unfolding leave_each
leave_each-commands name kind [] c = refl
leave_each-commands name kind (s ∷ ss) c =
    leave_each-commands name kind ss _
    ∙ if-cases (λ (d : Client). d.commands ≡ c.commands)
        (str_eq s.name name && kind_matches kind s.kind) _ _ (λ h. leave_one-commands s c)
        (λ h. refl)

subscribe_if-commands :
    (b : Bool) (s : Subscription) (c : Client) → (subscribe_if b s c).commands ≡ c.commands
subscribe_if-commands true s c = subscribe_channel-commands s c
subscribe_if-commands false s c = refl

-- A property of the commands that settling keeps.
module _ (P : Commands → Type 0)
    (settles : (i : String) (code : Option String) (cs : Commands)
      → has i cs.waiting ≡ true
      → P cs
      → P (settle i code cs))
    (expires : (i : String) (cs : Commands)
      → has i cs.timers ≡ true
      → P cs
      → P (expire_command i cs))
    (settles_all : (code : String) (cs : Commands)
      → P cs
      → P (settle_pending_commands code cs)) where
  abbrev Q : Client → Type 0
  Q c = P c.commands

  protocol_error-Q : (code : String) (f : Bool) (c : Client) → Q c → Q (protocol_error code f c)
  protocol_error-Q code true c h = h
  protocol_error-Q code false c h = h

  fatal_error-Q : (f : Bool) (c : Client) → Q c → Q (fatal_error f c)
  fatal_error-Q true c h = h
  fatal_error-Q false c h = h

  module _ {N : Type 0} (ns : Numbers N) (ts : Texts N) where
    report_error-Q :
        (k : Option String) (code : String) (c : Client) → Q c → Q (report_error ns ts k code c)
    report_error-Q none code c h = h
    report_error-Q (some k) code c h = h

    receive_error-Q : (f : Value N ⊥) (c : Client) → Q c → Q (receive_error ns ts f c)
    unfolding receive_error
    receive_error-Q f c h = fatal_error-Q (is_true ns ts (get "fatal" f)) _ (report_error-Q _ _ c h)

    refuse_command-Q :
        (i : String) (e : Value N ⊥) (c : Client)
        → has i c.commands.waiting ≡ true
        → Q c
        → Q (refuse_command ns ts i e c)
    refuse_command-Q i e c waits h =
        if-cases Q
          (is_record e && (is_text ns ts (get "code" e) && is_text ns ts (get "message" e)))
          (settle_command i (text_in ns ts (get "code" e)) c)
          (settle_command i (some "command_failed") (protocol_error "invalid_command_ack" false c))
          (λ _. settles i (text_in ns ts (get "code" e)) c.commands waits h)
          (λ _. settles i (some "command_failed") c.commands waits h)

    acknowledge-Q :
        (i : String) (okay : Bool) (e : Value N ⊥) (c : Client)
        → Q c
        → Q (acknowledge ns ts i okay e c)
    acknowledge-Q i okay e c h =
        if-cases Q (not (has i c.commands.waiting)) _ _ (λ _. h)
          (λ n.
            let waits = not-false _ n in
            if-cases Q okay (settle_command i none c) (refuse_command ns ts i e c)
              (λ _. settles i none c.commands waits h) (λ _. refuse_command-Q i e c waits h))

    acknowledge_flag-Q :
        (i : String) (v e : Value N ⊥) (c : Client) → Q c → Q (acknowledge_flag ns ts i v e c)
    acknowledge_flag-Q i (bool okay) e c h = acknowledge-Q i okay e c h
    acknowledge_flag-Q i undefined e c h = h
    acknowledge_flag-Q i null e c h = h
    acknowledge_flag-Q i (number n) e c h = h
    acknowledge_flag-Q i (string s) e c h = h
    acknowledge_flag-Q i (array xs) e c h = h
    acknowledge_flag-Q i (object fs) e c h = h
    acknowledge_flag-Q i (instance_of d) e c h = h

    receive_command_ack-Q : (f : Value N ⊥) (c : Client) → Q c → Q (receive_command_ack ns ts f c)
    unfolding receive_command_ack
    receive_command_ack-Q f c h = elim (Option-cases (text_in ns ts (get "id" f))) [
      | inl e ↦ rw (receive_command_ack, e) h
      | inr (i, e) ↦
          rw (receive_command_ack, e) (acknowledge_flag-Q i (get "ok" f) (get "error" f) c h)
    ]

    receive_subscription-Q :
        (type k : String) (c : Client) → Q c → Q (receive_subscription ns ts type k c)
    receive_subscription-Q type k c h =
        if-cases Q (str_eq type "subscribed") _ _ (λ _. h)
          (λ _.
            if-cases Q (str_eq type "unsubscribed") _ _ (λ _. h)
              (λ _.
                if-cases Q (str_eq type "presence_joined" || str_eq type "presence_left") _ _
                  (λ _. h) (λ _. h)))

    receive_channel-Q :
        (type : String) (k : Option String) (c : Client) → Q c → Q (receive_channel ns ts type k c)
    unfolding receive_channel
    receive_channel-Q type none c h = h
    receive_channel-Q type (some k) c h =
        elim (Option-cases (find_subscription k c.channels.subscriptions)) [
          | inl e ↦ rw (receive_channel, e) h
          | inr (s, e) ↦ rw (receive_channel, e) (receive_subscription-Q type k c h)
        ]

    receive_type-Q :
        (f : Value N ⊥) (type : String) (c : Client) → Q c → Q (receive_type ns ts f type c)
    receive_type-Q f type c h =
        if-cases Q (str_eq type "connected") _ _
          (λ _.
            if-cases Q (is_text ns ts (get "connectionId" f)) _ _
              (λ _.
                subst P
                  (sym (
                    subscribe_each-commands c.channels.subscriptions
                      (record c { control = connected_control c.control })))
                  h)
              (λ _. protocol_error-Q "invalid_connected" true c h))
          (λ _.
            if-cases Q (str_eq type "error") _ _ (λ _. receive_error-Q f c h)
              (λ _.
                if-cases Q (str_eq type "event" && is_event_frame ns ts f) _ _ (λ _. h)
                  (λ _.
                    if-cases Q (str_eq type "command_ack") _ _ (λ _. receive_command_ack-Q f c h)
                      (λ _.
                        if-cases Q (str_eq type "pong") _ _ (λ _. h)
                          (λ _. receive_channel-Q type (channel_in ns ts (get "channel" f)) c h)))))

    receive_text-Q :
        (f : Value N ⊥) (o : Option String) (c : Client) → Q c → Q (receive_text ns ts f o c)
    receive_text-Q f none c h = h
    receive_text-Q f (some type) c h =
        if-cases Q (not (is_protocol ns ts (get "protocol" f))) _ _ (λ _. h)
          (λ _. receive_type-Q f type c h)

    receive-Q : (d : Option (Value N ⊥)) (c : Client) → Q c → Q (receive ns ts d c)
    unfolding receive
    receive-Q none c h = h
    receive-Q (some undefined) c h = receive_text-Q undefined none c h
    receive-Q (some null) c h = h
    receive-Q (some (bool b)) c h = receive_text-Q (bool b) none c h
    receive-Q (some (number n)) c h = receive_text-Q (number n) none c h
    receive-Q (some (string s)) c h = receive_text-Q (string s) none c h
    receive-Q (some (array xs)) c h = receive_text-Q (array xs) none c h
    receive-Q (some (object fs)) c h =
        receive_text-Q (object fs) (text_in ns ts (get "type" (object fs))) c h
    receive-Q (some (instance_of i)) c h = elim i [ ]

    -- What the call of a command needs of the property.
    abbrev pub Sends : Event N → Client → Type 0
    Sends (call_command i) c = P (wait_for i c.commands) × P (not_connected i c.commands)
    Sends e c = Unit

    module _ (is_ticket : String → Bool) (o : Options) where
      open_channel-Q :
          (made : Bool) (name kind : String) (c : Client)
          → Q c
          → Q (open_channel o made name kind c)
      unfolding open_channel
      open_channel-Q made name kind c h =
          elim (Option-cases (find_subscription (channel_key kind name) c.channels.subscriptions)) [
            | inr (s, e) ↦ rw (open_channel, e) h
            | inl e ↦ rw (open_channel, e) (subst P (sym (subscribe_if-commands _ _ _)) h)
          ]

      send_command-Q :
          (i : String) (c : Client)
          → P (wait_for i c.commands) × P (not_connected i c.commands)
          → Q (send_command i c)
      unfolding send_command
      send_command-Q i c (w, n) =
          if-cases Q (is_authenticated c.control.state) _ _
            (λ h.
              subst P
                (sym (send-commands (command i) (record c { commands = wait_for i c.commands }))) w)
            (λ h. n)

      fire_subscription_timeout-Q :
          (t : Option Timer) (c : Client) → Q c → Q (fire_subscription_timeout t c)
      fire_subscription_timeout-Q none c h = h
      fire_subscription_timeout-Q (some t) c h = h

      pub handle-Q : (e : Event N) (c : Client) → Sends e c → Q c → Q (handle ns ts is_ticket o e c)
      unfolding handle disconnect leave on_close
      handle-Q (call_connect made) c s h = h
      handle-Q call_disconnect c s h = settles_all "command_disconnected" c.commands h
      handle-Q (call_channel made name kind) c s h = open_channel-Q made name kind c h
      handle-Q (call_leave name kind) c s h =
          subst P (sym (leave_each-commands name kind c.channels.subscriptions c)) h
      handle-Q (call_command i) c s h = send_command-Q i c s
      handle-Q (exchange_ends made sequence x) c s h = h
      handle-Q (socket_opens i) c s h = h
      handle-Q (socket_fails i) c s h = h
      handle-Q (socket_closes i code) c s h =
          if-cases Q (is_socket i c.control.socket) _ _
            (λ _. settles_all "command_disconnected" c.commands h) (λ _. h)
      handle-Q (message_arrives i v) c s h =
          if-cases Q (is_socket i c.control.socket) _ _ (λ _. receive-Q v c h) (λ _. h)
      handle-Q connection_times_out c s h = h
      handle-Q (reconnect_fires made) c s h = h
      handle-Q (subscription_times_out k) c s h =
          fire_subscription_timeout-Q (find_timer k c.channels.timers) c h
      handle-Q (command_times_out i) c s h =
          if-cases Q (has i c.commands.timers) _ _ (λ set_still. expires i c.commands set_still h)
            (λ _. h)
