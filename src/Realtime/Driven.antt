-- ===== src/Realtime/Driven.antt =====
-- A client that may reconnect never waits for nothing: it is at rest, told to disconnect, in a
-- terminal failure, or has a socket, an exchange or a timer that goes on.
use doxajs.Base.{
  ℕ, String, Bool, true, false, not, ◌||◌, ◌≡◌, refl, Option, none, some, nat_eq, not-false,
  or-false, if-cases, or-cases, not-true, nat_eq_refl, inl, inr,
}
use doxajs.Realtime.State.{idle, Options, Socket, Control, is_authenticated}
use doxajs.Realtime.Connection.{
  is_some, connection_error, schedule_reconnect, open_socket, is_active, begin_connection, connect,
  is_socket, on_open, on_error, on_close_control, close_socket, ready_socket,
  fire_connection_timeout, fire_reconnect,
}
use doxajs.Realtime.Authorization.{end_authorization}

pub data Driven (c : Control) : Type 0 where
  at_rest : c.state ≡ idle → Driven c
  told : c.explicitly_disconnected ≡ true → Driven c
  over : c.terminal_failure ≡ true → Driven c
  held : is_some c.socket ≡ true → Driven c
  asking : c.authorization_pending ≡ true → Driven c
  timed : is_some c.reconnect_timer ≡ true → Driven c

-- Driven by something else than the exchange with the authorization endpoint.
pub data Settled (c : Control) : Type 0 where
  s_told : c.explicitly_disconnected ≡ true → Settled c
  s_over : c.terminal_failure ≡ true → Settled c
  s_held : is_some c.socket ≡ true → Settled c
  s_timed : is_some c.reconnect_timer ≡ true → Settled c

Driven-of_Settled : (c : Control) → Settled c → Driven c
Driven-of_Settled c (s_told h) = told h
Driven-of_Settled c (s_over h) = over h
Driven-of_Settled c (s_held h) = held h
Driven-of_Settled c (s_timed h) = timed h

-- A socket that is closing, or whose state changes, is still there.
pub is_some-close : (s : Option Socket) → is_some s ≡ true → is_some (close_socket s) ≡ true
is_some-close none h = h
is_some-close (some s) h = refl

is_some-ready : (r : ℕ) (s : Option Socket) → is_some s ≡ true → is_some (ready_socket r s) ≡ true
is_some-ready r none h = h
is_some-ready r (some s) h = refl

pub is_some-of_socket : (i : ℕ) (s : Option Socket) → is_socket i s ≡ true → is_some s ≡ true
is_some-of_socket i none h = absurd (cc)
is_some-of_socket i (some s) h = refl

module _ (o : Options) (again : o.reconnect ≡ true) where
  pub schedule_reconnect-Settled : (c : Control) → Settled (schedule_reconnect o c)
  unfolding schedule_reconnect
  schedule_reconnect-Settled c =
      if-cases Settled
        (is_some c.reconnect_timer
          || (c.explicitly_disconnected || (c.terminal_failure || not o.reconnect)))
        _ _
        (λ h. elim (or-cases (is_some c.reconnect_timer) _ h) [
          | inl set ↦ s_timed set
          | inr h' ↦ elim (or-cases c.explicitly_disconnected _ h') [
            | inl gone ↦ s_told gone
            | inr h'' ↦ elim (or-cases c.terminal_failure _ h'') [
              | inl lost ↦ s_over lost
              | inr never ↦ absurd (cc (not-true o.reconnect never, again))
            ]
          ]
        ])
        (λ h. s_timed refl)

  -- For the sequence at hand, there is a socket, or a reason why there is none.
  pub open_socket-Settled : (made : Bool) (c : Control) → Settled (open_socket o made c.sequence c)
  unfolding open_socket
  open_socket-Settled made c =
      if-cases Settled (not (nat_eq c.sequence c.sequence) || c.explicitly_disconnected) _ _
        (λ h. elim (or-cases (not (nat_eq c.sequence c.sequence)) _ h) [
          | inl other ↦ absurd (cc (not-true _ other, nat_eq_refl c.sequence))
          | inr gone ↦ s_told gone
        ])
        (λ h.
          if-cases Settled made _ _ (λ h'. s_held refl)
            (λ h'. schedule_reconnect-Settled (connection_error "connection_failed" c)))

  pub connect-Driven : (made : Bool) (c : Control) → Driven (connect o made c)
  unfolding connect
  connect-Driven made c =
      if-cases Driven (is_active c.socket || c.authorization_pending) _ _
        (λ h. elim (or-cases (is_active c.socket) _ h) [
          | inl active ↦ held (is_active-some c.socket active)
          | inr pending ↦ asking pending
        ])
        (λ h.
          if-cases Driven o.authorizes _ _ (λ asks. asking refl)
            (λ opens. Driven-of_Settled _ (open_socket-Settled made (begin_connection c))))
    where
      is_active-some : (s : Option Socket) → is_active s ≡ true → is_some s ≡ true
      is_active-some none h = h
      is_active-some (some s) h = refl

  pub on_close_control-Driven : (code : ℕ) (c : Control) → Driven (on_close_control o code c)
  unfolding on_close_control
  on_close_control-Driven code c = Driven-of_Settled _ (schedule_reconnect-Settled _)

  pub fire_reconnect-Driven :
      (made : Bool) (t : Option ℕ) (c : Control) → Driven c → Driven (fire_reconnect o made t c)
  fire_reconnect-Driven made none c d = d
  fire_reconnect-Driven made (some _) c d =
      connect-Driven made (record c { reconnect_timer = none })

  pub on_open-Driven : (i : ℕ) (c : Control) → Driven c → Driven (on_open i c)
  on_open-Driven i c d =
      if-cases Driven (is_socket i c.socket) _ _
        (λ h. held (is_some-ready 1 c.socket (is_some-of_socket i c.socket h))) (λ h. d)

  -- Another error or another timer of the connection changes none of it.
  with_error :
      (code : Option String) (t : Option ℕ) (c : Control)
      → Driven c
      → Driven (record c { last_error = code; connection_timer = t })
  with_error code t c (at_rest h) = at_rest h
  with_error code t c (told h) = told h
  with_error code t c (over h) = over h
  with_error code t c (held h) = held h
  with_error code t c (asking h) = asking h
  with_error code t c (timed h) = timed h

  pub on_error-Driven : (i : ℕ) (c : Control) → Driven c → Driven (on_error i c)
  on_error-Driven i c d =
      if-cases Driven (is_socket i c.socket) _ _
        (λ h. with_error (some "transport_error") c.connection_timer c d) (λ h. d)

  pub fire_connection_timeout-Driven :
      (t : Option ℕ) (c : Control) → Driven c → Driven (fire_connection_timeout t c)
  fire_connection_timeout-Driven none c d = d
  fire_connection_timeout-Driven (some i) c d =
      if-cases Driven (not (is_socket i c.socket) || is_authenticated c.state) _ _
        (λ h. with_error c.last_error none c d)
        (λ h.
          held (
            is_some-close c.socket (is_some-of_socket i c.socket (not-false _ (or-false _ _ h).0))))

  -- The end of an exchange keeps what drives the client besides the exchange.
  pub end_authorization-Settled :
      (sequence : ℕ) (c : Control) → Settled c → Driven (end_authorization sequence c)
  end_authorization-Settled sequence c d =
      if-cases Driven (nat_eq sequence c.sequence) _ _ (λ h. Driven-of_Settled _ (keep d))
        (λ h. Driven-of_Settled c d)
    where
      keep : Settled c → Settled (record c { authorization_pending = false })
      keep (s_told h) = s_told h
      keep (s_over h) = s_over h
      keep (s_held h) = s_held h
      keep (s_timed h) = s_timed h

  -- The end of an exchange of another sequence changes nothing.
  pub end_authorization-other :
      (sequence : ℕ) (c : Control)
      → nat_eq sequence c.sequence ≡ false
      → end_authorization sequence c ≡ c
  end_authorization-other sequence c h = rw h refl
