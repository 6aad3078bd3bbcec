-- ===== src/Keryx/Tickets/Tests.antt =====
-- A ticket that opens before it expires, and not after.
use doxajs.Base.{
  ℕ, String, Option, none, some, List, [], ◌∷◌, ◌≡◌, refl, leb, nat_eq, ◌-◌, true, str_eq,
  if◌then◌else◌,
}
use doxajs.Js.Samples.{naturals, texts}
use doxajs.Js.{
  Value, undefined, number, string, array, object, nil, Fields, field, end, Numbers, Texts,
}
use doxajs.Keryx.Tickets.{
  Whole, from_epoch, Times, Cipher, Admission, TicketAuthentication, open_ticket,
}
use doxajs.Keryx.Tickets.Laws.{Opened, open_ticket-Genuine}

abbrev times : Times ℕ ℕ
times = record {
  parse_instant = λ s. some 9000000;
  microseconds = λ i. i;
  whole = λ n. some (from_epoch n);
}

abbrev user : Value ℕ ⊥
user = object (field "kind" (string "user") (field "id" (string "a") end))

abbrev payload : Value ℕ ⊥
payload = object (
    field "version" (number 1) (
      field "applicationId" (string "app") (
        field "ticketId" (string "t") (
          field "issuedAt" (number 4000) (
            field "expiresAt" (string "9 s") (
              field "origin" (string "https://a.example") (
                field "actor" user (
                  field "delegation" (array nil) (
                    field "authentication" (object (field "state" (string "authenticated") end))
                      (field "correlationId" (string "c") end))))))))))

abbrev cipher : Cipher ℕ
cipher = record {
  split = λ s. "v1" ∷ "iv" ∷ "payload" ∷ "tag" ∷ [];
  byte_length = λ s. if str_eq s "tag" then 16 else 12;
  decipher = λ iv p t. some "json";
  parse_json = λ s. some payload;
}

abbrev opened : Admission ℕ ℕ
opened = record {
  ticket_id = "t";
  actor = record { kind = string "user"; id = some "a" };
  initiator = none;
  delegation = some [];
  authentication = record {
    state = string "authenticated";
    identity_id = none;
    method = none;
    assurance = undefined;
    authenticated_at = none;
    session_id = none;
    impersonation_grant_id = none;
    credential_id = none;
    constraints = none;
  };
  tenant = none;
  correlation_id = "c";
  expires_at = 9000000;
}

ticket_opens :
    open_ticket naturals texts times "app" 6000 cipher "ticket" (some "https://a.example") 8000
    ≡ some opened
unfolding open_ticket doxajs.Keryx.Tickets.refuse_if doxajs.Keryx.Tickets.◌or_if◌
    doxajs.Keryx.Tickets.parse_payload doxajs.Keryx.Tickets.admission_of
    doxajs.Keryx.Tickets.parse_ticket_actor doxajs.Keryx.Tickets.parse_ticket_delegation
    doxajs.Keryx.Tickets.parse_ticket_hops doxajs.Keryx.Tickets.parse_ticket_authentication
    doxajs.Keryx.Tickets.parse_ticket_tenant doxajs.Js.property doxajs.Js.count doxajs.Base.has
ticket_opens = refl

ticket_expires :
    open_ticket naturals texts times "app" 6000 cipher "ticket" (some "https://a.example") 9000
    ≡ none
unfolding open_ticket doxajs.Keryx.Tickets.refuse_if doxajs.Keryx.Tickets.◌or_if◌
    doxajs.Keryx.Tickets.parse_payload doxajs.Js.property
ticket_expires = refl

open_ticket-Genuine_example :
    Opened naturals texts times "app" 6000 cipher "ticket" (some "https://a.example") 8000 opened
open_ticket-Genuine_example =
    open_ticket-Genuine naturals texts times "app" 6000 cipher "ticket" (some "https://a.example")
      8000 opened ticket_opens
