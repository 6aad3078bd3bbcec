-- ===== src/Queue/Validation.antt =====
-- `assertQueueDelivery` of packages/runtime/src/runtime.ts, over an envelope of unknown shape.
use doxajs.Base.{
  ℕ, suc, Bool, not, ◌&&◌, ◌||◌, Option, none, [], ◌∷◌, str_eq, leb, has, if◌then◌else◌,
}
use doxajs.Js.{
  Value, number, Items, nil, cons, Numbers, Texts, get, is_undefined, is_record, is_boolean,
  is_array, truthy, elements, count, every, only_keys,
}
use doxajs.Queue.Checks.{
  ◌also◌, Label, actor, initiator, hop_from, hop_to, Invalid, invalid, invalid_actor, invalid_hop,
  refuse, and_then, Patterns, context_keys, actor_keys, delegation_keys, tenant_keys,
  authentication_keys, text_that, bounded_text, integer_between, finite_between, valid_iso_date,
  optional, valid_trace,
}

module _ {N I : Type 0} (ns : Numbers N) (ts : Texts N) (ps : Patterns I) where
  -- `actor.kind === 'anonymous' ? actor.id !== undefined : !boundedText(actor.id, 256)`
  abbrev pub bad_identity : Value N ⊥ → Value N ⊥ → Bool
  bad_identity kind id =
      if text_that ns ts ps (λ s. str_eq s "anonymous") kind
      then not (is_undefined id)
      else not (bounded_text ns ts ps id 256)

  unfoldable pub assert_queued_actor : Value N ⊥ → Label → Option Invalid
  assert_queued_actor a label =
      refuse
        (not (
          truthy ns a
          && has (ts.to_string (get "kind" a)) ("anonymous" ∷ "user" ∷ "service" ∷ "system" ∷ [])))
        (invalid_actor label "is invalid.")
        (refuse (not (only_keys a actor_keys)) (invalid_actor label "includes unsupported fields.")
          (refuse (bad_identity (get "kind" a) (get "id" a))
            (invalid_actor label "identity is invalid.") none))

  unfoldable pub assert_hop : ℕ → Value N ⊥ → Option Invalid
  assert_hop index hop =
      refuse (not (is_record hop || is_array hop)) (invalid_hop index "is invalid.") (
        refuse (not (only_keys hop delegation_keys))
          (invalid_hop index "includes unsupported fields.")
          (and_then (assert_queued_actor (get "from" hop) (hop_from index)) (
            and_then (assert_queued_actor (get "to" hop) (hop_to index)) (
              refuse
                (not (bounded_text ns ts ps (get "grantId" hop) 256)
                  || not (bounded_text ns ts ps (get "reason" hop) 512))
                (invalid_hop index "metadata is invalid.")
                (refuse (not (optional ns ts ps (valid_iso_date ns ts ps) (get "expiresAt" hop)))
                  (invalid_hop index "expiry is invalid.") none)))))

  -- The loop over `delegation.entries()`.
  unfoldable pub assert_hops : ℕ → Items N ⊥ → Option Invalid
  assert_hops index nil = none
  assert_hops index (cons hop hops) = and_then (assert_hop index hop) (assert_hops (suc index) hops)

  unfoldable pub valid_policy : Value N ⊥ → Bool
  valid_policy policy =
      truthy ns policy
      && (integer_between ns ts ps (get "retries" policy) 0 100
          && (finite_between ns ts ps (get "retryDelay" policy) 0 86400
              && (is_boolean (get "backoff" policy)
                  && finite_between ns ts ps (get "timeout" policy) 1 86400)))

  abbrev pub valid_tenant : Value N ⊥ → Bool
  valid_tenant tenant =
      truthy ns tenant
      && (only_keys tenant tenant_keys && bounded_text ns ts ps (get "id" tenant) 256)

  abbrev pub valid_constraints : Value N ⊥ → Bool
  valid_constraints constraints =
      is_array constraints
      && (leb (count (elements constraints)) 100
          && every (λ value. bounded_text ns ts ps value 128) (elements constraints))

  unfoldable pub valid_authentication : Value N ⊥ → Bool
  valid_authentication a =
      truthy ns a
      also (only_keys a authentication_keys
          also (has (ts.to_string (get "state" a)) ("anonymous" ∷ "authenticated" ∷ [])
              also (optional ns ts ps (λ v. bounded_text ns ts ps v 256) (get "identityId" a)
                  also (optional ns ts ps (λ v. bounded_text ns ts ps v 128) (get "method" a)
                      also (optional ns ts ps
                            (λ v.
                              has (ts.to_string v)
                                ("single-factor" ∷ "multi-factor" ∷ "phishing-resistant" ∷ []))
                            (get "assurance" a)
                          also (optional ns ts ps (λ v. bounded_text ns ts ps v 256)
                                (get "credentialId" a)
                              also (optional ns ts ps (valid_iso_date ns ts ps)
                                    (get "authenticatedAt" a)
                                  also optional ns ts ps valid_constraints
                                      (get "constraints" a))))))))

  -- `validAuthentication.state === 'anonymous' && validAuthentication.identityId !== undefined`
  abbrev pub anonymous_with_identity : Value N ⊥ → Bool
  anonymous_with_identity a =
      text_that ns ts ps (λ s. str_eq s "anonymous") (get "state" a)
      && not (is_undefined (get "identityId" a))

  -- The part of the checks that is about the context.
  unfoldable pub assert_context : Value N ⊥ → Option Invalid
  assert_context c =
      refuse (not (truthy ns c && integer_between ns ts ps (get "version" c) 1 1))
        (invalid "context version is unsupported.")
        (refuse (not (only_keys c context_keys)) (invalid "context includes unsupported fields.") (
          refuse (not (text_that ns ts ps ps.is_uuid (get "sourceExecutionId" c)))
            (invalid "sourceExecutionId is invalid.")
            (refuse (not (bounded_text ns ts ps (get "correlationId" c) 256))
              (invalid "correlationId is invalid.")
              (refuse
                (not (optional ns ts ps (λ v. bounded_text ns ts ps v 256) (get "causationId" c)))
                (invalid "causationId is invalid.")
                (and_then (assert_queued_actor (get "actor" c) actor) (
                  and_then (assert_queued_actor (get "initiator" c) initiator) (
                    refuse
                      (not (
                        is_array (get "delegation" c)
                        && leb (count (elements (get "delegation" c))) 16))
                      (invalid "delegation is invalid.")
                      (and_then (assert_hops 0 (elements (get "delegation" c))) (
                        refuse (not (optional ns ts ps valid_tenant (get "tenant" c)))
                          (invalid "tenant context is invalid.")
                          (refuse
                            (not (
                              optional ns ts ps (λ v. bounded_text ns ts ps v 128)
                                (get "locale" c)))
                            (invalid "locale is invalid.")
                            (refuse
                              (not (
                                optional ns ts ps (λ v. bounded_text ns ts ps v 128)
                                  (get "timeZone" c)))
                              (invalid "timeZone is invalid.")
                              (refuse (not (valid_authentication (get "authentication" c)))
                                (invalid "authentication context is invalid.")
                                (refuse (anonymous_with_identity (get "authentication" c))
                                  (invalid "anonymous authentication includes an identity.")
                                  (refuse
                                    (not (
                                      truthy ns (get "trace" c)
                                      && valid_trace ns ts ps (get "trace" c)))
                                    (invalid "trace context is invalid.") none))))))))))))))

  -- `none` is a delivery that passes. The attempt is a number of the queue adapter.
  unfoldable pub assert_queue_delivery : Value N ⊥ → N → Option Invalid
  assert_queue_delivery e attempt =
      refuse (not (is_record e)) (invalid "envelope is not an object.") (
        refuse (not (text_that ns ts ps ps.is_uuid (get "id" e))) (invalid "id is not a UUID.") (
          refuse
            (not (
              has (ts.to_string (get "kind" e))
                ("job" ∷ "listener" ∷ "broadcast" ∷ "mail" ∷ "sms" ∷ [])))
            (invalid "kind is unsupported.")
            (refuse (not (bounded_text ns ts ps (get "targetId" e) 256))
              (invalid "targetId is invalid.")
              (refuse (not (integer_between ns ts ps (number attempt) 1 101))
                (invalid "attempt is invalid.")
                (refuse (not (valid_policy (get "policy" e))) (invalid "retry policy is invalid.") (
                  refuse (not (optional ns ts ps (valid_iso_date ns ts ps) (get "availableAt" e)))
                    (invalid "availableAt is invalid.")
                    (refuse
                      (not (
                        optional ns ts ps (λ v. bounded_text ns ts ps v 512)
                          (get "idempotencyKey" e)))
                      (invalid "idempotencyKey is invalid.")
                      (assert_context (get "context" e)))))))))
