-- ===== src/Queue/Accepted.antt =====
-- What the checks of a delivery ensure for the execution that its seed starts.
use doxajs.Base.{
  ◌∙◌, String, Bool, true, false, not, Option, none, some, ◌≡◌, refl, ◌≤◌, leb, str_eq, length,
  subst, sym, ◌&&◌,
}
use doxajs.Js.{
  Value, undefined, null, bool, number, string, array, object, instance_of, Numbers, Texts, get,
  is_undefined, is_array, truthy, elements, count,
}
use doxajs.Queue.Checks.{Label, actor, Patterns, text_that, valid_trace}
use doxajs.Queue.Validation.{
  assert_queued_actor, bad_identity, assert_hops, valid_authentication, anonymous_with_identity,
  assert_context, assert_queue_delivery,
}
use doxajs.Queue.Seed.{Seed, Prior, spread, kept, queue_seed}
use doxajs.Queue.Laws.{
  refuse-none, and_then-none, not-false, leb-true, iterate-array, seed_hops-Given,
  seed_authentication-Given, seed_trace-Given,
}

module _ {N I : Type 0} (ns : Numbers N) (ts : Texts N) (ps : Patterns I) where
  -- What a passed context has.
  record Passed (c : Value N ⊥) : Type 0 where
    actor_ok : assert_queued_actor ns ts ps (get "actor" c) actor ≡ none
    listed : is_array (get "delegation" c) ≡ true
    few : leb (count (elements (get "delegation" c))) 16 ≡ true
    hops_ok : assert_hops ns ts ps 0 (elements (get "delegation" c)) ≡ none
    authentic : valid_authentication ns ts ps (get "authentication" c) ≡ true
    unnamed : anonymous_with_identity ns ts ps (get "authentication" c) ≡ false
    traced : valid_trace ns ts ps (get "trace" c) ≡ true

  both-true : (a b : Bool) → (a && b) ≡ true → (a ≡ true) × (b ≡ true)
  both-true true b h = (refl, h)
  both-true false b h = absurd (cc)

  assert_context-Passed : (c : Value N ⊥) → assert_context ns ts ps c ≡ none → Passed c
  unfolding assert_context
  assert_context-Passed c ok =
      let (_, a) = refuse-none _ _ _ ok in
      let (_, b) = refuse-none _ _ _ a in
      let (_, d) = refuse-none _ _ _ b in
      let (_, e) = refuse-none _ _ _ d in
      let (_, f) = refuse-none _ _ _ e in
      let (acted, g) = and_then-none _ _ f in
      let (_, h) = and_then-none _ _ g in
      let (list, i) = refuse-none _ _ _ h in
      let (hops, j) = and_then-none _ _ i in
      let (_, k) = refuse-none _ _ _ j in
      let (_, l) = refuse-none _ _ _ k in
      let (_, m) = refuse-none _ _ _ l in
      let (auth, n) = refuse-none _ _ _ m in
      let (anonymous, o) = refuse-none _ _ _ n in
      let (trace, _) = refuse-none _ _ _ o in
      let (is, short) =
        both-true (is_array (get "delegation" c)) (leb (count (elements (get "delegation" c))) 16)
          (not-false _ list) in
      record {
        actor_ok = acted;
        listed = is;
        few = short;
        hops_ok = hops;
        authentic = not-false _ auth;
        unnamed = anonymous;
        traced =
            (both-true (truthy ns (get "trace" c)) (valid_trace ns ts ps (get "trace" c))
              (not-false _ trace)).1;
      }

  assert_queue_delivery-context :
      (e : Value N ⊥) (attempt : N)
      → assert_queue_delivery ns ts ps e attempt ≡ none
      → assert_context ns ts ps (get "context" e) ≡ none
  unfolding assert_queue_delivery
  assert_queue_delivery-context e attempt ok =
      let (_, a) = refuse-none _ _ _ ok in
      let (_, b) = refuse-none _ _ _ a in
      let (_, c) = refuse-none _ _ _ b in
      let (_, d) = refuse-none _ _ _ c in
      let (_, f) = refuse-none _ _ _ d in
      let (_, g) = refuse-none _ _ _ f in
      let (_, h) = refuse-none _ _ _ g in (refuse-none _ _ _ h).1

  get-spread : (k : String) (v : Value N ⊥) → get k (object (spread ns ps v)) ≡ get k v
  unfolding doxajs.Js.property
  get-spread k undefined = refl
  get-spread k null = refl
  get-spread k (bool b) = refl
  get-spread k (number n) = refl
  get-spread k (string s) = refl
  get-spread k (array xs) = refl
  get-spread k (object fs) = refl
  get-spread k (instance_of d) = elim d [ ]

  assert_queued_actor-identity :
      (a : Value N ⊥) (label : Label)
      → assert_queued_actor ns ts ps a label ≡ none
      → bad_identity ns ts ps (get "kind" a) (get "id" a) ≡ false
  unfolding assert_queued_actor
  assert_queued_actor-identity a label ok =
      let (_, b) = refuse-none _ _ _ ok in
      let (_, c) = refuse-none _ _ _ b in (refuse-none _ _ _ c).0

  kept-undefined : (v : Value N ⊥) → is_undefined v ≡ true → kept ns ps v ≡ undefined
  kept-undefined undefined h = refl
  kept-undefined null h = absurd (cc)
  kept-undefined (bool b) h = absurd (cc)
  kept-undefined (number n) h = absurd (cc)
  kept-undefined (string s) h = absurd (cc)
  kept-undefined (array xs) h = absurd (cc)
  kept-undefined (object fs) h = absurd (cc)
  kept-undefined (instance_of d) h = elim d [ ]

  not-both : (a b : Bool) → (a && not b) ≡ false → a ≡ true → b ≡ true
  not-both true true h e = refl
  not-both true false h e = absurd (cc)
  not-both false b h e = absurd (cc)

  kept-anonymous :
      (a : Value N ⊥)
      → anonymous_with_identity ns ts ps a ≡ false
      → text_that ns ts ps (λ s. str_eq s "anonymous") (get "state" a) ≡ true
      → kept ns ps (get "identityId" a) ≡ undefined
  kept-anonymous a ok anonymous = kept-undefined (get "identityId" a) (
      not-both (text_that ns ts ps (λ s. str_eq s "anonymous") (get "state" a))
        (is_undefined (get "identityId" a)) ok anonymous)

  -- What an execution may rely on: few hops of delegation, an anonymous caller without identity, and
  -- an actor whose id fits its kind.
  pub record Trusted (e : Value N ⊥) (s : Seed N I) : Type 0 where
    pub few_hops : length s.delegation ≤ 16
    pub anonymous_unnamed :
        text_that ns ts ps (λ t. str_eq t "anonymous") s.authentication.state ≡ true
        → s.authentication.identity_id ≡ undefined
    pub actor_identity :
        bad_identity ns ts ps (get "kind" (object s.actor)) (get "id" (object s.actor)) ≡ false
    pub named : s.transport_name ≡ get "targetId" e

  -- A delivery that passes `assertQueueDelivery` is seeded without a throw, whatever the attempt
  -- before was; the seed has at most 16 hops of delegation, no identity if its authentication is
  -- anonymous, an actor whose id fits its kind, and the name of the delivery's target.
  pub queue_seed-Trusted :
      (e : Value N ⊥) (attempt : N) (prior : Option Prior)
      → assert_queue_delivery ns ts ps e attempt ≡ none
      → (s : Seed N I) × (queue_seed ns ps e attempt prior ≡ some s) × Trusted e s
  unfolding queue_seed
  queue_seed-Trusted e attempt prior ok =
      let c = get "context" e in
      let passed : Passed c =
        assert_context-Passed c (assert_queue_delivery-context e attempt ok) in
      let (hs, hops, counted) =
        seed_hops-Given ns ts ps 0 (elements (get "delegation" c)) passed.hops_ok in
      let (r, auth, state, identity) =
        seed_authentication-Given ns ts ps (get "authentication" c) passed.authentic in
      let (t, traced) = seed_trace-Given ns ts ps (get "trace" c) attempt prior passed.traced in
      rw (iterate-array ns ts ps (get "delegation" c) passed.listed, hops, auth, traced)
        (
          _,
          refl,
          record {
            few_hops = subst (λ n. n ≤ 16) (sym counted) (leb-true _ 16 passed.few);
            anonymous_unnamed = λ h.
                identity ∙ kept-anonymous (get "authentication" c) passed.unnamed (rw state at h);
            actor_identity =
                rw (get-spread "kind" (get "actor" c), get-spread "id" (get "actor" c))
                  (assert_queued_actor-identity (get "actor" c) actor passed.actor_ok);
            named = refl;
          },
        )
