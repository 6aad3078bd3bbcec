-- ===== src/Keryx/Tickets.antt =====
-- `KeryxAdmissionTickets.open` of packages/keryx/src/security.ts: a ticket from an untrusted client.
pub mod Laws
mod Tests
use doxajs.Base.{
  ℕ, suc, String, Bool, true, false, not, ◌&&◌, ◌||◌, ◌+◌, ◌-◌, ◌*◌, Option, none, some, List, [],
  ◌∷◌, str_eq, leb, ltb, nat_eq, has, if◌then◌else◌, ◌>>=?◌,
}
use doxajs.Js.{
  Value, undefined, null, bool, number, string, array, object, Items, nil, cons, Numbers, Texts,
  get, is_undefined, is_record, is_array, truthy, elements, count,
}
use doxajs.Keryx.Protocol.{Actor}

-- A safe integer, which is negative if it lies before the epoch.
pub data Whole : Type 0 where
  from_epoch to_epoch : ℕ → Whole

-- `Instant.parse`, `epochMicroseconds` (an instant before the epoch has expired, as 0 has), and the
-- safe integers among the numbers.
pub record Times (N I : Type 0) : Type 0 where
  pub parse_instant : String → Option I
  pub microseconds : I → ℕ
  pub whole : N → Option Whole

-- What the deciphering asks of node:crypto and Buffer; `none` is a throw.
pub record Cipher (N : Type 0) : Type 0 where
  pub split : String → List String
  pub byte_length : String → ℕ
  pub decipher : String → String → String → Option String
  pub parse_json : String → Option (Value N ⊥)

pub record TicketHop (N I : Type 0) : Type 0 where
  pub from : Actor N
  pub to : Actor N
  pub grant_id : String
  pub reason : String
  pub expires_at : Option I

pub record TicketAuthentication (N I : Type 0) : Type 0 where
  pub state : Value N ⊥
  pub identity_id : Option String
  pub method : Option String
  pub assurance : Value N ⊥
  pub authenticated_at : Option I
  pub session_id : Option String
  pub impersonation_grant_id : Option String
  pub credential_id : Option String
  pub constraints : Option (Items N ⊥)

pub record Admission (N I : Type 0) : Type 0 where
  pub ticket_id : String
  pub actor : Actor N
  pub initiator : Option (Actor N)
  pub delegation : Option (List (TicketHop N I))
  pub authentication : TicketAuthentication N I
  pub tenant : Option String
  pub correlation_id : String
  pub expires_at : I

-- `if (bad) throw`, and then the rest.
unfoldable pub refuse_if : {A : Type 0} → Bool → Option A → Option A
refuse_if true rest = none
refuse_if false rest = rest

-- `a || b`, kept as it is written.
infixr 2 ◌or_if◌
unfoldable pub ◌or_if◌ : Bool → Bool → Bool
true or_if b = true
false or_if b = b

-- `expiresAtMicroseconds <= issuedAtMicroseconds`
abbrev pub not_after_issue : ℕ → Whole → Bool
not_after_issue e (from_epoch i) = leb e (i * 1000)
not_after_issue e (to_epoch i) = false

-- `expiresAtMicroseconds - issuedAtMicroseconds`, once the first is later.
abbrev pub lasting : ℕ → Whole → ℕ
lasting e (from_epoch i) = e - i * 1000
lasting e (to_epoch i) = e + i * 1000

-- `value.issuedAt > now + 5_000`
abbrev pub from_future : ℕ → Whole → Bool
from_future now (from_epoch i) = ltb (now + 5000) i
from_future now (to_epoch i) = false

module _ {N I : Type 0} (ns : Numbers N) (ts : Texts N) (tm : Times N I) where
  abbrev pub string_in : Value N ⊥ → Option String
  string_in (string s) = some s
  string_in v = none

  abbrev pub optional_string : Value N ⊥ → Bool
  optional_string undefined = true
  optional_string (string s) = true
  optional_string v = false

  abbrev pub non_empty_string : Value N ⊥ → Option String
  non_empty_string (string s) = if ltb 0 (ts.units s) && leb (ts.units s) 512 then some s else none
  non_empty_string v = none

  unfoldable pub parse_ticket_tenant : Value N ⊥ → Option String
  parse_ticket_tenant v = if is_record v then non_empty_string (get "id" v) else none

  unfoldable pub parse_ticket_actor : Value N ⊥ → Option (Actor N)
  parse_ticket_actor v =
      if not (is_record v)
        || (not
              (has (ts.to_string (get "kind" v)) ("anonymous" ∷ "user" ∷ "service" ∷ "system" ∷ []))
            || not (optional_string (get "id" v)))
      then none
      else some (record { kind = get "kind" v; id = string_in (get "id" v) })

  -- An instant that may be left out; `none` is a throw.
  abbrev pub parse_optional_instant : Value N ⊥ → Option (Option I)
  parse_optional_instant undefined = some none
  parse_optional_instant (string s) = tm.parse_instant s >>=? λ i. some (some i)
  parse_optional_instant v = none

  unfoldable pub parse_ticket_hop : Value N ⊥ → Option (TicketHop N I)
  parse_ticket_hop v =
      if not (is_record v)
      then none
      else (parse_optional_instant (get "expiresAt" v) >>=? λ e.
          parse_ticket_actor (get "from" v) >>=? λ f. parse_ticket_actor (get "to" v) >>=? λ t.
          non_empty_string (get "grantId" v) >>=? λ g. non_empty_string (get "reason" v) >>=? λ r.
          some (record { from = f; to = t; grant_id = g; reason = r; expires_at = e }))

  unfoldable pub parse_ticket_hops : Items N ⊥ → Option (List (TicketHop N I))
  parse_ticket_hops nil = some []
  parse_ticket_hops (cons v xs) =
      parse_ticket_hop v >>=? λ h. parse_ticket_hops xs >>=? λ hs. some (h ∷ hs)

  unfoldable pub parse_ticket_delegation : Value N ⊥ → Option (List (TicketHop N I))
  parse_ticket_delegation v =
      refuse_if (not (is_array v) or_if ltb 16 (count (elements v)))
        (parse_ticket_hops (elements v))

  unfoldable pub all_strings : Items N ⊥ → Bool
  all_strings nil = true
  all_strings (cons (string s) xs) = all_strings xs
  all_strings (cons v xs) = false

  abbrev pub listed_strings : Value N ⊥ → Option (Option (Items N ⊥))
  listed_strings undefined = some none
  listed_strings (array xs) = if all_strings xs then some (some xs) else none
  listed_strings v = none

  abbrev pub bad_assurance : Value N ⊥ → Bool
  bad_assurance undefined = false
  bad_assurance v =
      not (has (ts.to_string v) ("single-factor" ∷ "multi-factor" ∷ "phishing-resistant" ∷ []))

  unfoldable pub parse_ticket_authentication : Value N ⊥ → Option (TicketAuthentication N I)
  parse_ticket_authentication v =
      if not (is_record v)
        || (not (has (ts.to_string (get "state" v)) ("anonymous" ∷ "authenticated" ∷ []))
            || (not (optional_string (get "identityId" v))
                || (not (optional_string (get "method" v))
                    || (not (optional_string (get "sessionId" v))
                        || (not (optional_string (get "impersonationGrantId" v))
                            || (not (optional_string (get "credentialId" v))
                                || bad_assurance (get "assurance" v)))))))
      then none
      else (listed_strings (get "constraints" v) >>=? λ cs.
          parse_optional_instant (get "authenticatedAt" v) >>=? λ at. some (record {
            state = get "state" v;
            identity_id = string_in (get "identityId" v);
            method = string_in (get "method" v);
            assurance = if truthy ns (get "assurance" v) then get "assurance" v else undefined;
            authenticated_at = at;
            session_id = string_in (get "sessionId" v);
            impersonation_grant_id = string_in (get "impersonationGrantId" v);
            credential_id = string_in (get "credentialId" v);
            constraints = cs;
          }))

  -- `value === undefined ? {} : { key: parse(value) }`
  abbrev pub unless_undefined :
      {A : Type 0} → (Value N ⊥ → Option A) → Value N ⊥ → Option (Option A)
  unless_undefined parse undefined = some none
  unless_undefined parse v = parse v >>=? λ a. some (some a)

  abbrev pub whole_in : Value N ⊥ → Option Whole
  whole_in (number n) = tm.whole n
  whole_in v = none

  abbrev pub is_text : Value N ⊥ → String → Bool
  is_text (string s) t = str_eq s t
  is_text v t = false

  abbrev pub is_version : Value N ⊥ → Bool
  is_version (number n) = ns.at_most n (ns.natural 1) && ns.at_most (ns.natural 1) n
  is_version v = false

  -- The fields of the admission, once the payload is in its time.
  unfoldable pub admission_of : Value N ⊥ → I → Option (Admission N I)
  admission_of v expires = non_empty_string (get "ticketId" v) >>=? λ id.
      parse_ticket_actor (get "actor" v) >>=? λ a.
      unless_undefined parse_ticket_actor (get "initiator" v) >>=? λ first.
      unless_undefined parse_ticket_delegation (get "delegation" v) >>=? λ hops.
      parse_ticket_authentication (get "authentication" v) >>=? λ auth.
      unless_undefined parse_ticket_tenant (get "tenant" v) >>=? λ t.
      non_empty_string (get "correlationId" v) >>=? λ c. some (record {
        ticket_id = id;
        actor = a;
        initiator = first;
        delegation = hops;
        authentication = auth;
        tenant = t;
        correlation_id = c;
        expires_at = expires;
      })

  -- The application, the lifetime in milliseconds, and the origin of the caller, normalised by
  -- `normalizeBrowserOrigin`, where `none` is a throw. Each throw ends as the one error of `open`.
  module _ (application : String) (lifetime : ℕ) (cipher : Cipher N) where
    abbrev pub out_of_time : ℕ → ℕ → Whole → Bool
    out_of_time now e issued =
        leb e (now * 1000)
        or_if (not_after_issue e issued or_if ltb (lifetime * 1000) (lasting e issued))

    unfoldable pub parse_payload : Value N ⊥ → Option String → ℕ → Option (Admission N I)
    parse_payload v origin now = origin >>=? λ o. whole_in (get "issuedAt" v) >>=? λ issued.
        string_in (get "expiresAt" v) >>=? λ printed.
        refuse_if
          (not (is_record v)
            or_if (not (is_version (get "version" v))
                or_if (not (is_text (get "applicationId" v) application)
                    or_if (from_future now issued or_if not (is_text (get "origin" v) o)))))
          (tm.parse_instant printed >>=? λ expires.
            refuse_if (out_of_time now (tm.microseconds expires) issued) (admission_of v expires))

    abbrev pub open_parts : List String → Option String → ℕ → Option (Admission N I)
    open_parts (v ∷ iv ∷ payload ∷ tag ∷ []) origin now =
        refuse_if
          (not (str_eq v "v1") or_if (str_eq iv "" or_if (str_eq payload "" or_if str_eq tag "")))
          (refuse_if
            (not (nat_eq (cipher.byte_length iv) 12)
              or_if (nat_eq (cipher.byte_length payload) 0
                  or_if not (nat_eq (cipher.byte_length tag) 16)))
            (cipher.decipher iv payload tag >>=? λ decoded.
              cipher.parse_json decoded >>=? λ v'. parse_payload v' origin now))
    open_parts parts origin now = none

    -- `none` is the error `admission_ticket_invalid`.
    unfoldable pub open_ticket : String → Option String → ℕ → Option (Admission N I)
    open_ticket ticket origin now =
        refuse_if (nat_eq (ts.units ticket) 0 or_if ltb 8192 (ts.units ticket))
          (open_parts (cipher.split ticket) origin now)
