-- ===== src/Queue/Seed.antt =====
-- `queueSeed` of packages/runtime/src/runtime.ts: the seed of the execution that runs a delivery.
use doxajs.Base.{String, true, Option, none, some, List, [], ◌∷◌, if◌then◌else◌, ◌>>=?◌}
use doxajs.Js.{
  Value, undefined, null, bool, number, string, array, object, Items, nil, cons, Fields, end, field,
  Numbers, get, truthy, assign,
}
use doxajs.Queue.Checks.{Patterns}

-- A `DelegationHop`, of which `from` and `to` are spread copies.
pub record Hop (N I : Type 0) : Type 0 where
  pub from : Fields N ⊥
  pub to : Fields N ⊥
  pub grant_id : Value N ⊥
  pub reason : Value N ⊥
  pub expires_at : Option I

-- An `AuthenticationContext`, where an omitted entry is undefined.
pub record Authentication (N I : Type 0) : Type 0 where
  pub state : Value N ⊥
  pub identity_id : Value N ⊥
  pub method : Value N ⊥
  pub assurance : Value N ⊥
  pub authenticated_at : Option I
  pub credential_id : Value N ⊥
  pub constraints : Option (Items N ⊥)

-- The `ExecutionContextSeed`; its transport has the kind `job`.
pub record Seed (N I : Type 0) : Type 0 where
  pub source_execution_id : Value N ⊥
  pub correlation_id : Value N ⊥
  pub causation_id : Value N ⊥
  pub actor : Fields N ⊥
  pub initiator : Fields N ⊥
  pub delegation : List (Hop N I)
  pub tenant : Option (Fields N ⊥)
  pub authentication : Authentication N I
  pub transport_name : Value N ⊥
  pub trace : Fields N ⊥
  pub locale : Value N ⊥
  pub time_zone : Value N ⊥

-- The trace and the span of the attempt before.
pub record Prior : Type 0 where
  pub trace_id : String
  pub span_id : String

module _ {N I : Type 0} (ns : Numbers N) (ps : Patterns I) where
  -- `{ ...value }` of an object; no other value that is spread here passes the checks.
  abbrev pub spread : Value N ⊥ → Fields N ⊥
  spread (object fs) = fs
  spread v = end

  -- `...(value ? { key: value } : {})`
  abbrev pub kept : Value N ⊥ → Value N ⊥
  kept v = if truthy ns v then v else undefined

  -- `a ?? b`
  abbrev pub or_else : Value N ⊥ → Value N ⊥ → Value N ⊥
  or_else undefined b = b
  or_else null b = b
  or_else a b = a

  -- `[...value]` of an array; other values throw here.
  abbrev pub iterate : Value N ⊥ → Option (Items N ⊥)
  iterate (array xs) = some xs
  iterate v = none

  -- `Instant.parse(value)`, where `none` is a throw.
  abbrev pub parse_value : Value N ⊥ → Option I
  parse_value (string s) = ps.parse_instant s
  parse_value v = none

  -- `...(value ? { key: Instant.parse(value) } : {})`
  abbrev pub parse_kept : Value N ⊥ → Option (Option I)
  parse_kept v = if truthy ns v then (parse_value v >>=? λ i. some (some i)) else some none

  abbrev pub iterate_kept : Value N ⊥ → Option (Option (Items N ⊥))
  iterate_kept v = if truthy ns v then (iterate v >>=? λ xs. some (some xs)) else some none

  unfoldable pub seed_hop : Value N ⊥ → Option (Hop N I)
  seed_hop hop = parse_kept (get "expiresAt" hop) >>=? λ expires. some (record {
    from = spread (get "from" hop);
    to = spread (get "to" hop);
    grant_id = get "grantId" hop;
    reason = get "reason" hop;
    expires_at = expires;
  })

  -- `context.delegation.map(…)`
  unfoldable pub seed_hops : Items N ⊥ → Option (List (Hop N I))
  seed_hops nil = some []
  seed_hops (cons hop hops) = seed_hop hop >>=? λ h. seed_hops hops >>=? λ hs. some (h ∷ hs)

  unfoldable pub seed_authentication : Value N ⊥ → Option (Authentication N I)
  seed_authentication a = parse_kept (get "authenticatedAt" a) >>=? λ at.
      iterate_kept (get "constraints" a) >>=? λ held. some (record {
        state = get "state" a;
        identity_id = kept (get "identityId" a);
        method = kept (get "method" a);
        assurance = kept (get "assurance" a);
        authenticated_at = at;
        credential_id = kept (get "credentialId" a);
        constraints = held;
      })

  abbrev pub retry_link : N → Prior → Value N ⊥
  retry_link attempt prior = object (
      field "traceId" (string prior.trace_id) (
        field "spanId" (string prior.span_id) (
          field "attributes"
            (object (
              field "relationship" (string "retry")
                (field "attempt" (number (ns.minus attempt (ns.natural 1))) end)))
            end)))

  unfoldable append_item : Items N ⊥ → Value N ⊥ → Items N ⊥
  append_item nil w = cons w nil
  append_item (cons v xs) w = cons v (append_item xs w)

  -- The trace of the envelope, marked as remote, with a link to the attempt before a retry.
  unfoldable pub seed_trace : Value N ⊥ → N → Option Prior → Option (Fields N ⊥)
  unfolding append_item
  seed_trace trace attempt none = some (assign "isRemote" (bool true) (spread trace))
  seed_trace trace attempt (some prior) =
      if ns.at_most attempt (ns.natural 1)
      then some (assign "isRemote" (bool true) (spread trace))
      else (iterate (or_else (get "links" trace) (array nil)) >>=? λ links. some (
          assign "links" (array (append_item links (retry_link attempt prior)))
            (assign "isRemote" (bool true) (spread trace))))

  -- `...(context.tenant ? { tenant: { ...context.tenant } } : {})`
  abbrev pub seed_tenant : Value N ⊥ → Option (Fields N ⊥)
  seed_tenant v = if truthy ns v then some (spread v) else none

  unfoldable pub queue_seed : Value N ⊥ → N → Option Prior → Option (Seed N I)
  queue_seed e attempt prior =
      let c = get "context" e in
      iterate (get "delegation" c) >>=? λ hops. seed_hops hops >>=? λ delegation.
      seed_authentication (get "authentication" c) >>=? λ authentication.
      seed_trace (get "trace" c) attempt prior >>=? λ trace. some (record {
        source_execution_id = get "sourceExecutionId" c;
        correlation_id = get "correlationId" c;
        causation_id = or_else (get "scheduleId" e) (get "id" e);
        actor = spread (get "actor" c);
        initiator = spread (get "initiator" c);
        delegation = delegation;
        tenant = seed_tenant (get "tenant" c);
        authentication = authentication;
        transport_name = get "targetId" e;
        trace = trace;
        locale = kept (get "locale" c);
        time_zone = kept (get "timeZone" c);
      })
