-- ===== src/Queue/Checks.antt =====
-- What the checks of a queued delivery are made of: texts, numbers, dates and traces of unknown shape.
use doxajs.Base.{
  ℕ, String, Bool, true, false, ◌&&◌, Option, none, some, List, [], ◌∷◌, leb, ltb, if◌then◌else◌,
}
use doxajs.Js.{
  Value, undefined, number, string, Numbers, Texts, get, is_record, is_boolean, is_array, truthy,
  elements, count, every, only_keys,
}

-- Which actor is checked.
pub data Label : Type 0 where
  actor initiator : Label
  hop_from hop_to : ℕ → Label

-- The reason in the `OperationDispatchError`.
pub data Invalid : Type 0 where
  invalid : String → Invalid
  invalid_actor : Label → String → Invalid
  invalid_hop : ℕ → String → Invalid

-- `if (bad) invalid(message)`, and then the rest.
unfoldable pub refuse : Bool → Invalid → Option Invalid → Option Invalid
refuse true m rest = some m
refuse false m rest = rest

unfoldable pub and_then : Option Invalid → Option Invalid → Option Invalid
and_then (some m) rest = some m
and_then none rest = rest

-- The patterns of `uuid`, `validTraceId`, `validSpanId`, and whether `Instant.parse` takes a text.
pub record Patterns (I : Type 0) : Type 0 where
  pub is_uuid : String → Bool
  pub is_trace_id : String → Bool
  pub is_span_id : String → Bool
  pub parse_instant : String → Option I

-- `a && b`, kept as it is written in the long conditions.
infixr 3 ◌also◌
unfoldable pub ◌also◌ : Bool → Bool → Bool
true also b = b
false also b = false

abbrev pub context_keys : List String
context_keys =
    "version" ∷ "sourceExecutionId" ∷ "correlationId" ∷ "causationId" ∷ "actor" ∷ "initiator"
    ∷ "delegation" ∷ "tenant" ∷ "authentication" ∷ "trace" ∷ "locale" ∷ "timeZone" ∷ []

abbrev pub actor_keys : List String
actor_keys = "kind" ∷ "id" ∷ []

abbrev pub delegation_keys : List String
delegation_keys = "from" ∷ "to" ∷ "grantId" ∷ "reason" ∷ "expiresAt" ∷ []

abbrev pub tenant_keys : List String
tenant_keys = "id" ∷ []

abbrev pub authentication_keys : List String
authentication_keys =
    "state" ∷ "identityId" ∷ "method" ∷ "assurance" ∷ "authenticatedAt" ∷ "credentialId"
    ∷ "constraints" ∷ []

abbrev pub trace_keys : List String
trace_keys =
    "traceId" ∷ "spanId" ∷ "parentSpanId" ∷ "isRemote" ∷ "parentIsRemote" ∷ "traceFlags" ∷ "links"
    ∷ []

abbrev pub span_link_keys : List String
span_link_keys = "traceId" ∷ "spanId" ∷ "attributes" ∷ []

module _ {N I : Type 0} (ns : Numbers N) (ts : Texts N) (ps : Patterns I) where
  abbrev pub text_that : (String → Bool) → Value N ⊥ → Bool
  text_that p (string s) = p s
  text_that p v = false

  abbrev pub bounded_text : Value N ⊥ → ℕ → Bool
  bounded_text v maximum = text_that (λ s. ltb 0 (ts.units s) && leb (ts.units s) maximum) v

  abbrev pub integer_between : Value N ⊥ → ℕ → ℕ → Bool
  integer_between (number n) lo hi =
      ns.is_safe_integer n && (ns.at_most (ns.natural lo) n && ns.at_most n (ns.natural hi))
  integer_between v lo hi = false

  abbrev pub finite_between : Value N ⊥ → ℕ → ℕ → Bool
  finite_between (number n) lo hi =
      ns.is_finite n && (ns.at_most (ns.natural lo) n && ns.at_most n (ns.natural hi))
  finite_between v lo hi = false

  abbrev pub is_parsed : Option I → Bool
  is_parsed none = false
  is_parsed (some i) = true

  abbrev pub valid_iso_date : Value N ⊥ → Bool
  valid_iso_date v = text_that (λ s. is_parsed (ps.parse_instant s)) v

  -- `value === undefined || test(value)`
  abbrev pub optional : (Value N ⊥ → Bool) → Value N ⊥ → Bool
  optional p undefined = true
  optional p v = p v

  abbrev pub valid_json_object : Value N ⊥ → Bool
  valid_json_object v = if is_record v then leb (ts.json_length v) 16384 else false

  unfoldable pub valid_span_link : Value N ⊥ → Bool
  valid_span_link link =
      truthy ns link
      && (only_keys link span_link_keys
          && (text_that ps.is_trace_id (get "traceId" link)
              && (text_that ps.is_span_id (get "spanId" link)
                  && optional valid_json_object (get "attributes" link))))

  abbrev pub valid_links : Value N ⊥ → Bool
  valid_links links =
      is_array links && (leb (count (elements links)) 32 && every valid_span_link (elements links))

  unfoldable pub valid_trace : Value N ⊥ → Bool
  valid_trace trace =
      only_keys trace trace_keys
      also (optional (text_that ps.is_trace_id) (get "traceId" trace)
          also (optional (text_that ps.is_span_id) (get "spanId" trace)
              also (optional (text_that ps.is_span_id) (get "parentSpanId" trace)
                  also (optional is_boolean (get "isRemote" trace)
                      also (optional is_boolean (get "parentIsRemote" trace)
                          also (optional (λ v. integer_between v 0 255) (get "traceFlags" trace)
                              also optional valid_links (get "links" trace)))))))
