-- ===== src/Keryx/Protocol/Laws.antt =====
-- A frame that is accepted is a valid one, and each valid frame is accepted from its JSON.
use doxajs.Base.{
  String, Bool, true, false, not, Option, none, some, ◌≡◌, refl, subst, Option-cases, inl, inr,
  Bool-cases, bind-eq-some, of_some, str_eq, has, if◌then◌else◌,
}
use doxajs.Js.{
  Value, undefined, null, bool, number, string, array, object, instance_of, Numbers, Texts, get,
  is_record,
}
use doxajs.Keryx.Json.{assert_json, Nested, assert_json_iff}
use doxajs.Keryx.Protocol.{
  validate_broadcast_channel_name, Grammar, Destination, Operation, subscribing, unsubscribing,
  ClientFrame, subscribe, unsubscribe, ping, command, Outcome, ok, protocol_error, type_error,
  channel_kinds, text_in, valid_channel_name, normalize_destination, bounded_id, is_protocol,
  parse_ping, command_name, parse_command, parse_channel, parse_type, parse_value,
  parse_client_frame,
}

module _ {N : Type 0} (ns : Numbers N) (ts : Texts N) (gr : Grammar) where
  abbrev pub ValidDestination : Destination N → Type 0
  ValidDestination d =
      (has (ts.to_string d.kind) channel_kinds ≡ true) × (valid_channel_name ns ts gr d.name ≡ true)

  -- The frames that the server may handle.
  abbrev pub ValidFrame : ClientFrame N → Type 0
  ValidFrame (subscribe d) = ValidDestination d
  ValidFrame (unsubscribe d) = ValidDestination d
  ValidFrame (ping i) = Unit
  ValidFrame (command id name payload) =
      (bounded_id ns ts gr id ≡ true) × ((gr.is_command name ≡ true) × Nested ns 100 payload)

  validate-Valid :
      (s n : String)
      → validate_broadcast_channel_name ns ts gr s ≡ some n
      → valid_channel_name ns ts gr n ≡ true
  validate-Valid s n h = elim (Bool-cases (valid_channel_name ns ts gr (gr.trim s))) [
    | inl holds ↦ subst (λ m. valid_channel_name ns ts gr m ≡ true) (of_some (rw holds at h)) holds
    | inr fails ↦ absurd (cc (rw fails at h))
  ]

  normalize_destination-Valid :
      (v : Value N ⊥) (d : Destination N)
      → normalize_destination ns ts gr v ≡ some d
      → ValidDestination d
  unfolding normalize_destination
  normalize_destination-Valid v d h = elim (Bool-cases (is_record v)) [
    | inr fails ↦ absurd (cc (rw fails at h))
    | inl holds ↦ elim (Bool-cases (has (ts.to_string (get "kind" v)) channel_kinds)) [
      | inr fails ↦ absurd (cc (rw (holds, fails) at h))
      | inl kind ↦
          let (s, named, g) =
            bind-eq-some (text_in ns ts gr (get "name" v)) _ (rw (holds, kind) at h) in
          let (n, valid, made) = bind-eq-some (validate_broadcast_channel_name ns ts gr s) _ g in
          subst ValidDestination (of_some made) (kind, validate-Valid s n valid)
    ]
  ]

  abbrev ValidOutcome : Outcome (ClientFrame N) → Type 0
  ValidOutcome (ok f) = ValidFrame f
  ValidOutcome (protocol_error e) = Unit
  ValidOutcome type_error = Unit

  split :
      (b : Bool) (x y : Outcome (ClientFrame N))
      → (b ≡ true → ValidOutcome x)
      → (b ≡ false → ValidOutcome y)
      → ValidOutcome (if b then x else y)
  split true x y f g = f refl
  split false x y f g = g refl

  parse_channel-Valid :
      (o : Operation) (f : Destination N → ClientFrame N) (v : Value N ⊥)
      → ((d : Destination N) → ValidDestination d → ValidFrame (f d))
      → ValidOutcome (parse_channel ns ts gr o f (normalize_destination ns ts gr v))
  parse_channel-Valid o f v valid = elim (Option-cases (normalize_destination ns ts gr v)) [
    | inl none_given ↦ rw none_given tt
    | inr (d, given) ↦ rw given (valid d (normalize_destination-Valid v d given))
  ]

  not-false : (b : Bool) → not b ≡ false → b ≡ true
  not-false true h = refl
  not-false false h = absurd (cc)

  parse_ping-Valid : (v : Value N ⊥) → ValidOutcome (parse_ping ns ts gr v)
  parse_ping-Valid undefined = tt
  parse_ping-Valid null = tt
  parse_ping-Valid (bool b) = tt
  parse_ping-Valid (number n) = tt
  parse_ping-Valid (string s) = tt
  parse_ping-Valid (array xs) = tt
  parse_ping-Valid (object fs) = tt
  parse_ping-Valid (instance_of d) = tt

  command_name-Valid :
      (o : Option String) (payload : Value N ⊥) (id : String)
      → bounded_id ns ts gr id ≡ true
      → ValidOutcome (command_name ns ts gr o payload id)
  command_name-Valid none payload id bounded = tt
  command_name-Valid (some name) payload id bounded =
      split (not (gr.is_command name)) _ _ (λ h. tt)
        (λ named.
          split (assert_json ns 0 payload) (ok (command id name payload)) type_error
            (λ json. (bounded, (not-false _ named, (assert_json_iff ns payload).0 json))) (λ h. tt))

  parse_command-Valid :
      (o : Option String) (name payload : Value N ⊥)
      → ValidOutcome (parse_command ns ts gr o name payload)
  parse_command-Valid none name payload = tt
  parse_command-Valid (some id) name payload =
      split (not (bounded_id ns ts gr id)) _ _ (λ h. tt)
        (λ bounded. command_name-Valid (text_in ns ts gr name) payload id (not-false _ bounded))

  parse_type-Valid : (v : Value N ⊥) (o : Option String) → ValidOutcome (parse_type ns ts gr v o)
  parse_type-Valid v none = tt
  parse_type-Valid v (some type) =
      split (str_eq type "ping") _ _ (λ h. parse_ping-Valid (get "id" v))
        (λ _.
          split (str_eq type "command") _ _
            (λ h.
              parse_command-Valid (text_in ns ts gr (get "id" v)) (get "command" v)
                (get "payload" v))
            (λ _.
              split (str_eq type "subscribe") _ _
                (λ h. parse_channel-Valid subscribing subscribe (get "channel" v) (λ d k. k))
                (λ _.
                  split (str_eq type "unsubscribe") _ _
                    (λ h.
                      parse_channel-Valid unsubscribing unsubscribe (get "channel" v) (λ d k. k))
                    (λ h. tt))))

  parse_value-Valid : (v : Value N ⊥) → ValidOutcome (parse_value ns ts gr v)
  parse_value-Valid null = tt
  parse_value-Valid (object fs) =
      split (not (is_protocol ns ts gr (get "protocol" (object fs)))) _ _ (λ h. tt)
        (λ h. parse_type-Valid (object fs) (text_in ns ts gr (get "type" (object fs))))
  parse_value-Valid undefined = tt
  parse_value-Valid (bool b) = tt
  parse_value-Valid (number n) = tt
  parse_value-Valid (string s) = tt
  parse_value-Valid (array xs) = tt
  parse_value-Valid (instance_of d) = elim d [ ]

  frame_is_valid :
      (o : Option (Value N ⊥)) (f : ClientFrame N)
      → parse_client_frame ns ts gr o ≡ ok f
      → ValidFrame f
  unfolding parse_client_frame
  frame_is_valid none f h = absurd (cc)
  frame_is_valid (some v) f h = subst ValidOutcome h (parse_value-Valid v)

  -- The kind is one of the three texts, or an array or an object that `String` turns into one.
  abbrev pub KnownKind : Value N ⊥ → Type 0
  KnownKind (string s) = has s channel_kinds ≡ true
  KnownKind (array xs) = has (ts.to_string (array xs)) channel_kinds ≡ true
  KnownKind (object fs) = has (ts.to_string (object fs)) channel_kinds ≡ true
  KnownKind v = ⊥

  abbrev pub KnownDestination : Destination N → Type 0
  KnownDestination d = KnownKind d.kind × (valid_channel_name ns ts gr d.name ≡ true)

  abbrev pub KnownFrame : ClientFrame N → Type 0
  KnownFrame (subscribe d) = KnownDestination d
  KnownFrame (unsubscribe d) = KnownDestination d
  KnownFrame (ping i) = Unit
  KnownFrame (command id name payload) =
      (bounded_id ns ts gr id ≡ true) × ((gr.is_command name ≡ true) × Nested ns 100 payload)

  -- What is neither a text, nor an array, nor an object.
  abbrev pub is_plain : Value N ⊥ → Bool
  is_plain undefined = true
  is_plain null = true
  is_plain (bool b) = true
  is_plain (number n) = true
  is_plain v = false

  module _ (same_text : (s : String) → ts.to_string (string s) ≡ s)
      (plain_text : (v : Value N ⊥)
        → is_plain v ≡ true
        → has (ts.to_string v) channel_kinds ≡ false) where
    known_kind : (v : Value N ⊥) → has (ts.to_string v) channel_kinds ≡ true → KnownKind v
    known_kind (string s) h = subst (λ t. has t channel_kinds ≡ true) (same_text s) h
    known_kind (array xs) h = h
    known_kind (object fs) h = h
    known_kind undefined h = absurd (cc (plain_text undefined refl))
    known_kind null h = absurd (cc (plain_text null refl))
    known_kind (bool b) h = absurd (cc (plain_text (bool b) refl))
    known_kind (number n) h = absurd (cc (plain_text (number n) refl))
    known_kind (instance_of d) h = elim d [ ]

    known_frame : (f : ClientFrame N) → ValidFrame f → KnownFrame f
    known_frame (subscribe d) (k, n) = (known_kind d.kind k, n)
    known_frame (unsubscribe d) (k, n) = (known_kind d.kind k, n)
    known_frame (ping i) h = h
    known_frame (command id name payload) h = h

    -- If `String` keeps a text and makes no kind of undefined, null, a boolean or a number, a frame that
    -- `parseClientFrame` returns has a channel with a valid name, whose kind is one of the three texts or
    -- an array or an object that `String` turns into one; or it is a ping; or it is a command with an id
    -- of 1 to 200 units, a valid name, and a payload that is JSON nested at most 100 deep.
    pub parse_client_frame-Valid :
        (o : Option (Value N ⊥)) (f : ClientFrame N)
        → parse_client_frame ns ts gr o ≡ ok f
        → KnownFrame f
    parse_client_frame-Valid o f h = known_frame f (frame_is_valid o f h)
