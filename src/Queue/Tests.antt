-- ===== src/Queue/Tests.antt =====
-- A delivery with one hop, its second attempt, and an anonymous one that names an identity.
use doxajs.Base.{ℕ, String, Bool, true, false, Option, none, some, ◌≡◌, refl, ◌-◌, leb, nat_eq}
use doxajs.Js.Samples.{naturals, texts}
use doxajs.Js.{
  Value, null, bool, number, string, array, object, nil, cons, Fields, end, field, Numbers, Texts,
}
use doxajs.Queue.Checks.{Patterns, invalid}
use doxajs.Queue.Validation.{assert_queue_delivery}
use doxajs.Queue.Seed.{Seed, Prior, queue_seed}
use doxajs.Queue.Accepted.{Trusted, queue_seed-Trusted}

abbrev patterns : Patterns String
patterns = record {
  is_uuid = λ s. true;
  is_trace_id = λ s. true;
  is_span_id = λ s. true;
  parse_instant = λ s. some s;
}

abbrev user : String → Value ℕ ⊥
user id = object (field "kind" (string "user") (field "id" (string id) end))

abbrev hop : Value ℕ ⊥
hop = object (
    field "from" (user "a") (
      field "to" (user "b") (
        field "grantId" (string "g")
          (field "reason" (string "r") (field "expiresAt" (string "2027") end)))))

abbrev signed_in : Fields ℕ ⊥
signed_in = field "state" (string "authenticated") (field "identityId" (string "a") end)

abbrev named_guest : Fields ℕ ⊥
named_guest = field "state" (string "anonymous") (field "identityId" (string "a") end)

abbrev context : Fields ℕ ⊥ → Value ℕ ⊥
context authentication = object (
    field "version" (number 1) (
      field "sourceExecutionId" (string "e") (
        field "correlationId" (string "c") (
          field "actor" (user "b") (
            field "initiator" (user "a") (
              field "delegation" (array (cons hop nil)) (
                field "authentication" (object authentication)
                  (field "trace" (object end) end))))))))

abbrev policy : Value ℕ ⊥
policy = object (
    field "retries" (number 3) (
      field "retryDelay" (number 5)
        (field "backoff" (bool true) (field "timeout" (number 30) end))))

abbrev delivery : Fields ℕ ⊥ → Value ℕ ⊥
delivery authentication = object (
    field "id" (string "i") (
      field "kind" (string "job") (
        field "targetId" (string "t")
          (field "policy" policy (field "context" (context authentication) end)))))

delivery_passes : assert_queue_delivery naturals texts patterns (delivery signed_in) 2 ≡ none
unfolding assert_queue_delivery doxajs.Queue.Validation.assert_context
    doxajs.Queue.Validation.assert_queued_actor doxajs.Queue.Validation.assert_hop
    doxajs.Queue.Validation.assert_hops doxajs.Queue.Validation.valid_policy
    doxajs.Queue.Validation.valid_authentication doxajs.Queue.Checks.valid_trace
    doxajs.Queue.Checks.refuse doxajs.Queue.Checks.and_then doxajs.Queue.Checks.◌also◌
    doxajs.Js.property doxajs.Js.keys_within doxajs.Js.count doxajs.Base.has
delivery_passes = refl

named_guest_fails :
    assert_queue_delivery naturals texts patterns (delivery named_guest) 2
    ≡ some (invalid "anonymous authentication includes an identity.")
unfolding assert_queue_delivery doxajs.Queue.Validation.assert_context
    doxajs.Queue.Validation.assert_queued_actor doxajs.Queue.Validation.assert_hop
    doxajs.Queue.Validation.assert_hops doxajs.Queue.Validation.valid_policy
    doxajs.Queue.Validation.valid_authentication doxajs.Queue.Checks.valid_trace
    doxajs.Queue.Checks.refuse doxajs.Queue.Checks.and_then doxajs.Queue.Checks.◌also◌
    doxajs.Js.property doxajs.Js.keys_within doxajs.Js.count doxajs.Base.has
named_guest_fails = refl

abbrev first_attempt : Prior
first_attempt = record { trace_id = "1"; span_id = "2" }

queue_seed-Trusted_example :
    (s : Seed ℕ String) × (queue_seed naturals patterns (delivery signed_in) 2 (some first_attempt)
      ≡ some s)
    × Trusted naturals texts patterns (delivery signed_in) s
queue_seed-Trusted_example =
    queue_seed-Trusted naturals texts patterns (delivery signed_in) 2 (some first_attempt)
      delivery_passes
