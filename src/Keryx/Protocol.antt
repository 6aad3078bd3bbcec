-- ===== src/Keryx/Protocol.antt =====
-- packages/keryx/src/protocol.ts: the frames of clients and the messages of publishers, from JSON
-- of unknown shape.
pub mod Laws
pub mod RoundTrip
mod Tests
use doxajs.Base.{
  ℕ, String, Bool, true, false, not, ◌&&◌, Option, none, some, List, [], ◌∷◌, str_eq, leb, ltb, has,
  if◌then◌else◌, ◌>>=?◌,
}
use doxajs.Js.{
  Value, undefined, null, bool, number, string, array, object, Items, nil, cons, Numbers, Texts,
  get, is_undefined, is_record, is_array, elements, count,
}
use doxajs.Keryx.Json.{assert_json}

-- The patterns of the checks, `trim`, and whether `Date.parse` of a text is finite.
pub record Grammar : Type 0 where
  pub trim : String → String
  pub is_channel : String → Bool
  pub is_command : String → Bool
  pub is_event : String → Bool
  pub is_date : String → Bool

-- A `BroadcastDestination`; its kind is the value that came in.
pub record Destination (N : Type 0) : Type 0 where
  pub name : String
  pub kind : Value N ⊥

pub data Operation : Type 0 where
  connect subscribing unsubscribing commanding publish receive : Operation

-- `KeryxProtocolError`, without its message: code, operation, retryable, fatal.
pub record ProtocolError : Type 0 where
  pub code : String
  pub operation : Operation
  pub retryable : Bool
  pub fatal : Bool

pub data ClientFrame (N : Type 0) : Type 0 where
  subscribe unsubscribe : Destination N → ClientFrame N
  ping : Option String → ClientFrame N
  command : String → String → Value N ⊥ → ClientFrame N

-- `type_error` is any other throw.
pub data Outcome (A : Type 0) : Type 0 where
  ok : A → Outcome A
  protocol_error : ProtocolError → Outcome A
  type_error : Outcome A

pub record Message (N : Type 0) : Type 0 where
  pub id : String
  pub event : String
  pub channels : List (Destination N)
  pub data_of : Value N ⊥
  pub occurred_at : String

pub record Actor (N : Type 0) : Type 0 where
  pub kind : Value N ⊥
  pub id : Option String

abbrev pub channel_kinds : List String
channel_kinds = "public" ∷ "private" ∷ "presence" ∷ []

abbrev pub actor_kinds : List String
actor_kinds = "anonymous" ∷ "user" ∷ "service" ∷ "system" ∷ []

module _ {N : Type 0} (ns : Numbers N) (ts : Texts N) (gr : Grammar) where
  -- `typeof value === 'string'` and its text.
  abbrev pub text_in : Value N ⊥ → Option String
  text_in (string s) = some s
  text_in v = none

  abbrev pub refused : {A : Type 0} → String → Operation → Bool → Outcome A
  refused c o f = protocol_error (record { code = c; operation = o; retryable = false; fatal = f })

  abbrev pub valid_channel_name : String → Bool
  valid_channel_name s = ltb 0 (ts.units s) && (leb (ts.units s) 200 && gr.is_channel s)

  -- `validateBroadcastChannelName` of packages/core/src/broadcasting.ts, where `none` is a throw.
  abbrev pub validate_broadcast_channel_name : String → Option String
  validate_broadcast_channel_name name =
      let normalized = gr.trim name in
      if valid_channel_name normalized then some normalized else none

  unfoldable pub normalize_destination : Value N ⊥ → Option (Destination N)
  normalize_destination value =
      if not (is_record value)
      then none
      else if not (has (ts.to_string (get "kind" value)) channel_kinds)
      then none
      else (text_in (get "name" value) >>=? λ s. validate_broadcast_channel_name s >>=? λ n.
          some (record { name = n; kind = get "kind" value }))

  -- `value.channels.map(normalizeDestination)`
  unfoldable pub normalize_destinations : Items N ⊥ → Option (List (Destination N))
  normalize_destinations nil = some []
  normalize_destinations (cons v xs) =
      normalize_destination v >>=? λ d. normalize_destinations xs >>=? λ ds. some (d ∷ ds)

  abbrev pub bounded_id : String → Bool
  bounded_id s = ltb 0 (ts.units s) && leb (ts.units s) 200

  abbrev pub is_protocol : Value N ⊥ → Bool
  is_protocol (number n) = ns.at_most n (ns.natural 3) && ns.at_most (ns.natural 3) n
  is_protocol v = false

  abbrev pub parse_ping : Value N ⊥ → Outcome (ClientFrame N)
  parse_ping undefined = ok (ping none)
  parse_ping (string s) = ok (ping (some s))
  parse_ping v = refused "invalid_frame" receive false

  abbrev pub command_name : Option String → Value N ⊥ → String → Outcome (ClientFrame N)
  command_name none payload id = refused "invalid_frame" commanding false
  command_name (some name) payload id =
      if not (gr.is_command name)
      then refused "invalid_frame" commanding false
      else if assert_json ns 0 payload
      then ok (command id name payload)
      else type_error

  abbrev pub parse_command : Option String → Value N ⊥ → Value N ⊥ → Outcome (ClientFrame N)
  parse_command none name payload = refused "invalid_frame" commanding false
  parse_command (some id) name payload =
      if not (bounded_id id)
      then refused "invalid_frame" commanding false
      else command_name (text_in name) payload id

  abbrev pub parse_channel :
      Operation → (Destination N → ClientFrame N) → Option (Destination N) → Outcome (ClientFrame N)
  parse_channel o f none = refused "invalid_channel" o false
  parse_channel o f (some d) = ok (f d)

  abbrev pub parse_type : Value N ⊥ → Option String → Outcome (ClientFrame N)
  parse_type frame none = refused "unsupported_operation" receive false
  parse_type frame (some type) =
      if str_eq type "ping"
      then parse_ping (get "id" frame)
      else if str_eq type "command"
      then parse_command (text_in (get "id" frame)) (get "command" frame) (get "payload" frame)
      else if str_eq type "subscribe"
      then parse_channel subscribing subscribe (normalize_destination (get "channel" frame))
      else if str_eq type "unsubscribe"
      then parse_channel unsubscribing unsubscribe (normalize_destination (get "channel" frame))
      else refused "unsupported_operation" receive false

  abbrev pub parse_value : Value N ⊥ → Outcome (ClientFrame N)
  parse_value null = type_error
  parse_value frame =
      if not (is_protocol (get "protocol" frame))
      then refused "unsupported_protocol" receive true
      else parse_type frame (text_in (get "type" frame))

  -- The argument is what `JSON.parse` gives: `none` for a text that is not JSON. Reading a property
  -- of null throws.
  unfoldable pub parse_client_frame : Option (Value N ⊥) → Outcome (ClientFrame N)
  parse_client_frame none = refused "invalid_json" receive true
  parse_client_frame (some v) = parse_value v

  abbrev pub filled : Items N ⊥ → Bool
  filled nil = false
  filled (cons v xs) = true

  unfoldable pub parse_published_message : Value N ⊥ → Option (Message N)
  parse_published_message value =
      if not (is_record value)
      then none
      else (text_in (get "id" value) >>=? λ i. text_in (get "event" value) >>=? λ e.
          text_in (get "occurredAt" value) >>=? λ o.
          if not (
            bounded_id i
            && (gr.is_event e
                && (is_array (get "channels" value)
                    && (filled (elements (get "channels" value))
                        && (gr.is_date o && assert_json ns 0 (get "data" value))))))
          then none
          else (normalize_destinations (elements (get "channels" value)) >>=? λ ds. some (record {
            id = i;
            event = e;
            channels = ds;
            data_of = get "data" value;
            occurred_at = o;
          })))

  abbrev pub actor_id : Value N ⊥ → Option (Option String)
  actor_id undefined = some none
  actor_id (string s) = some (some s)
  actor_id v = none

  unfoldable pub parse_actor : Value N ⊥ → Option (Actor N)
  parse_actor value =
      if not (is_record value && has (ts.to_string (get "kind" value)) actor_kinds)
      then none
      else (actor_id (get "id" value) >>=? λ i. some (record { kind = get "kind" value; id = i }))
