-- ===== src/Realtime/Exchanges.antt =====
-- The end of an exchange with the authorization endpoint leaves the client driven.
use doxajs.Base.{
  ℕ, String, Bool, true, false, not, ◌||◌, ◌&&◌, ◌≡◌, refl, subst, sym, ap, Option, none, some,
  nat_eq, of_nat_eq, nat_eq_refl, if-cases, or-cases, not-true, Bool-cases, inl, inr,
}
use doxajs.Js.{
  Value, undefined, null, bool, number, string, array, object, instance_of, get, is_record,
}
use doxajs.Realtime.State.{Options, Control}
use doxajs.Realtime.Connection.{open_socket}
use doxajs.Realtime.Authorization.{
  Exchange, unavailable, rejected, answered, Ticket, ticket, failure, ticket_in, read_document,
  is_ok, request_connection_ticket, end_authorization, authorized, authorize_and_open,
}
use doxajs.Realtime.Driven.{
  Driven, Settled, s_told, s_over, schedule_reconnect-Settled, open_socket-Settled,
  end_authorization-Settled, end_authorization-other,
}

-- A failure is fatal exactly if it is not retryable.
abbrev pub Graded : Ticket → Type 0
Graded (ticket t) = Unit
Graded (failure code retryable fatal) = fatal ≡ not retryable

module _ {N : Type 0} (is_ticket : String → Bool) where
  ticket_in-Graded : (v : Value N ⊥) → Graded (ticket_in is_ticket v)
  ticket_in-Graded (string s) = if-cases Graded (is_ticket s) _ _ (λ h. tt) (λ h. refl)
  ticket_in-Graded undefined = refl
  ticket_in-Graded null = refl
  ticket_in-Graded (bool b) = refl
  ticket_in-Graded (number n) = refl
  ticket_in-Graded (array xs) = refl
  ticket_in-Graded (object fs) = refl
  ticket_in-Graded (instance_of d) = elim d [ ]

  read_document-Graded : (d : Option (Value N ⊥)) → Graded (read_document is_ticket d)
  read_document-Graded none = refl
  read_document-Graded (some d) =
      if-cases Graded (is_record d && is_record (get "data" d)) _ _
        (λ h. ticket_in-Graded (get "ticket" (get "data" d))) (λ h. refl)

  pub request_connection_ticket-Graded :
      (x : Exchange N) → Graded (request_connection_ticket is_ticket x)
  unfolding request_connection_ticket
  request_connection_ticket-Graded unavailable = refl
  request_connection_ticket-Graded rejected = refl
  request_connection_ticket-Graded (answered status body) =
      if-cases Graded (is_ok status) _ _ (λ h. read_document-Graded body) (λ h. refl)

module _ (o : Options) (again : o.reconnect ≡ true) (made : Bool) where
  -- For another sequence nothing happens.
  authorized-other :
      (sequence : ℕ) (t : Ticket) (c : Control)
      → nat_eq sequence c.sequence ≡ false
      → authorized o made sequence t c ≡ c
  unfolding open_socket
  authorized-other sequence (ticket t) c h = rw h refl
  authorized-other sequence (failure code retryable fatal) c h = rw h refl

  authorized-Settled :
      (t : Ticket) (c : Control) → Graded t → Settled (authorized o made c.sequence t c)
  authorized-Settled (ticket t) c g = open_socket-Settled o again made c
  authorized-Settled (failure code true fatal) c g =
      if-cases Settled (not (nat_eq c.sequence c.sequence) || c.explicitly_disconnected) _ _
        (λ h. elim (or-cases (not (nat_eq c.sequence c.sequence)) _ h) [
          | inl other ↦ absurd (cc (not-true _ other, nat_eq_refl c.sequence))
          | inr gone ↦ s_told gone
        ])
        (λ h. schedule_reconnect-Settled o again _)
  authorized-Settled (failure code false fatal) c g =
      if-cases Settled (not (nat_eq c.sequence c.sequence) || c.explicitly_disconnected) _ _
        (λ h. elim (or-cases (not (nat_eq c.sequence c.sequence)) _ h) [
          | inl other ↦ absurd (cc (not-true _ other, nat_eq_refl c.sequence))
          | inr gone ↦ s_told gone
        ])
        (λ h. s_over g)

  pub authorize_and_open-Driven :
      (sequence : ℕ) (t : Ticket) (c : Control)
      → Graded t
      → Driven c
      → Driven (authorize_and_open o made sequence t c)
  unfolding authorize_and_open
  authorize_and_open-Driven sequence t c g d = elim (Bool-cases (nat_eq sequence c.sequence)) [
    | inr other ↦
        subst Driven (sym (ap (end_authorization sequence) (authorized-other sequence t c other)))
          (subst Driven (sym (end_authorization-other o again sequence c other)) d)
    | inl same ↦
        subst (λ n. Driven (end_authorization n (authorized o made n t c)))
          (sym (of_nat_eq sequence c.sequence same))
          (end_authorization-Settled o again c.sequence _ (authorized-Settled t c g))
  ]
