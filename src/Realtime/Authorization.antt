-- ===== src/Realtime/Authorization.antt =====
-- `#requestConnectionTicket` and `#authorizeAndOpen`.
use doxajs.Base.{
  ℕ, String, Bool, true, false, not, ◌&&◌, ◌||◌, Option, none, some, nat_eq, ltb, leb,
  if◌then◌else◌,
}
use doxajs.Js.{Value, string, is_record, get}
use doxajs.Realtime.State.{Options, Control, disconnected}
use doxajs.Realtime.Connection.{transition, connection_error, schedule_reconnect, open_socket}

-- What the exchange with the endpoint comes to: no fetch, a rejected fetch, or a status with the
-- body, which is `none` if it is no JSON.
pub data Exchange (N : Type 0) : Type 0 where
  unavailable rejected : Exchange N
  answered : ℕ → Option (Value N ⊥) → Exchange N

-- A ticket, or a `RealtimeAuthorizationFailure` with its code, and whether it is retryable and fatal.
pub data Ticket : Type 0 where
  ticket : String → Ticket
  failure : String → Bool → Bool → Ticket

-- `response.ok`
abbrev pub is_ok : ℕ → Bool
is_ok status = leb 200 status && ltb status 300

abbrev pub is_retryable : ℕ → Bool
is_retryable status = nat_eq status 408 || (nat_eq status 429 || leb 500 status)

abbrev pub denied_code : ℕ → String
denied_code status =
    if nat_eq status 401 || nat_eq status 403
    then "authorization_denied"
    else "authorization_failed"

-- `is_ticket` is the pattern of a ticket together with its length.
module _ {N : Type 0} (is_ticket : String → Bool) where
  abbrev pub ticket_in : Value N ⊥ → Ticket
  ticket_in (string s) =
      if is_ticket s then ticket s else failure "authorization_invalid" false true
  ticket_in v = failure "authorization_invalid" false true

  abbrev pub read_document : Option (Value N ⊥) → Ticket
  read_document none = failure "authorization_invalid" false true
  read_document (some d) =
      if is_record d && is_record (get "data" d)
      then ticket_in (get "ticket" (get "data" d))
      else failure "authorization_invalid" false true

  unfoldable pub request_connection_ticket : Exchange N → Ticket
  request_connection_ticket unavailable = failure "authorization_unavailable" false true
  request_connection_ticket rejected = failure "authorization_failed" true false
  request_connection_ticket (answered status body) =
      if is_ok status
      then read_document body
      else failure (denied_code status) (is_retryable status) (not (is_retryable status))

-- The `finally`.
abbrev pub end_authorization : ℕ → Control → Control
end_authorization sequence c =
    if nat_eq sequence c.sequence then record c { authorization_pending = false } else c

abbrev pub retry_if : Options → Bool → Control → Control
retry_if o true c = schedule_reconnect o c
retry_if o false c = c

abbrev pub reject_authorization : Options → ℕ → String → Bool → Bool → Control → Control
reject_authorization o sequence code retryable fatal c =
    if not (nat_eq sequence c.sequence) || c.explicitly_disconnected
    then c
    else retry_if o retryable
        (transition disconnected (connection_error code (record c { terminal_failure = fatal })))

abbrev pub authorized : Options → Bool → ℕ → Ticket → Control → Control
authorized o made sequence (ticket t) c = open_socket o made sequence c
authorized o made sequence (failure code retryable fatal) c =
    reject_authorization o sequence code retryable fatal c

-- What `#authorizeAndOpen` does when the exchange ends.
unfoldable pub authorize_and_open : Options → Bool → ℕ → Ticket → Control → Control
authorize_and_open o made sequence t c = end_authorization sequence (authorized o made sequence t c)
