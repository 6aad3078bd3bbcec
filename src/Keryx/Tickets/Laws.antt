-- ===== src/Keryx/Tickets/Laws.antt =====
-- What an opened ticket ensures.
use doxajs.Base.{
  ◌&&◌, ◌∙◌, eq_iff, of_nat_eq, not-false, if-cases, ℕ, suc, String, Bool, true, false, ◌≡◌, refl,
  sym, ap, subst, ◌≤◌, ◌<◌, ◌*◌, Option, none, some, List, [], ◌∷◌, leb, ltb, length, of_some,
  bind-eq-some, arith, ◌>>=?◌,
}
use doxajs.Js.{
  Value, undefined, null, bool, number, string, array, object, instance_of, Items, nil, cons,
  Numbers, Texts, get, elements, count,
}
use doxajs.Keryx.Tickets.{
  non_empty_string, parse_ticket_actor, parse_ticket_authentication, parse_ticket_tenant, string_in,
  Whole, Times, Cipher, TicketHop, Admission, refuse_if, ◌or_if◌, lasting, from_future,
  parse_ticket_hop, parse_ticket_hops, parse_ticket_delegation, unless_undefined, whole_in, is_text,
  admission_of, parse_payload, open_parts, open_ticket,
}

refuse_if-some :
    {A : Type 0} {a : A} (b : Bool) (rest : Option A)
    → refuse_if b rest ≡ some a
    → (b ≡ false) × (rest ≡ some a)
unfolding refuse_if
refuse_if-some true rest h = absurd (cc)
refuse_if-some false rest h = (refl, h)

or_if-false : (a b : Bool) → (a or_if b) ≡ false → (a ≡ false) × (b ≡ false)
unfolding ◌or_if◌
or_if-false true b h = absurd (cc)
or_if-false false b h = (refl, h)

below : (a b : ℕ) → leb a b ≡ false → b < a
below a b h = ground arith

at_most : (a b : ℕ) → ltb b a ≡ false → a ≤ b
at_most a b h = ground arith

abbrev pub hop_count : {N I : Type 0} → Option (List (TicketHop N I)) → ℕ
hop_count none = 0
hop_count (some hs) = length hs

module _ {N I : Type 0} (ns : Numbers N) (ts : Texts N) (tm : Times N I) where
  length-hops :
      (xs : Items N ⊥) (hs : List (TicketHop N I))
      → parse_ticket_hops ns ts tm xs ≡ some hs
      → length hs ≡ count xs
  unfolding parse_ticket_hops count
  length-hops nil hs h = ap length (sym (of_some h))
  length-hops (cons v xs) hs h =
      let (hop, _, g) = bind-eq-some (parse_ticket_hop ns ts tm v) _ h in
      let (rest, found, k) = bind-eq-some (parse_ticket_hops ns ts tm xs) _ g in
      subst (λ (l : List (TicketHop N I)). length l ≡ suc (count xs)) (of_some k)
        (ap suc (length-hops xs rest found))

  few_hops :
      (v : Value N ⊥) (hs : List (TicketHop N I))
      → parse_ticket_delegation ns ts tm v ≡ some hs
      → length hs ≤ 16
  unfolding parse_ticket_delegation
  few_hops v hs h =
      let (ok, parsed) = refuse_if-some _ _ h in
      let (_, few) = or_if-false _ _ ok in
      subst (λ n. n ≤ 16) (sym (length-hops (elements v) hs parsed))
        (at_most (count (elements v)) 16 few)

  parsed-hops :
      (v : Value N ⊥) (o : Option (List (TicketHop N I)))
      → (parse_ticket_delegation ns ts tm v >>=? λ hs. some (some hs)) ≡ some o
      → hop_count o ≤ 16
  parsed-hops v o h =
      let (hs, parsed, k) = bind-eq-some (parse_ticket_delegation ns ts tm v) _ h in
      subst (λ (p : Option (List (TicketHop N I))). hop_count p ≤ 16) (of_some k)
        (few_hops v hs parsed)

  unless_undefined-hops :
      (v : Value N ⊥) (o : Option (List (TicketHop N I)))
      → unless_undefined ns ts tm (parse_ticket_delegation ns ts tm) v ≡ some o
      → hop_count o ≤ 16
  unless_undefined-hops undefined o h =
      subst (λ (p : Option (List (TicketHop N I))). hop_count p ≤ 16) (of_some h) (omega arith)
  unless_undefined-hops null o h = parsed-hops null o h
  unless_undefined-hops (bool b) o h = parsed-hops (bool b) o h
  unless_undefined-hops (number n) o h = parsed-hops (number n) o h
  unless_undefined-hops (string s) o h = parsed-hops (string s) o h
  unless_undefined-hops (array xs) o h = parsed-hops (array xs) o h
  unless_undefined-hops (object fs) o h = parsed-hops (object fs) o h
  unless_undefined-hops (instance_of d) o h = elim d [ ]

  string_in-text : (v : Value N ⊥) (s : String) → string_in ns ts tm v ≡ some s → v ≡ string s
  string_in-text (string t) s h = ap string (of_some h)
  string_in-text undefined s h = absurd (cc)
  string_in-text null s h = absurd (cc)
  string_in-text (bool b) s h = absurd (cc)
  string_in-text (number n) s h = absurd (cc)
  string_in-text (array xs) s h = absurd (cc)
  string_in-text (object fs) s h = absurd (cc)
  string_in-text (instance_of d) s h = absurd (cc)

  is_text-text : (v : Value N ⊥) (s : String) → is_text ns ts tm v s ≡ true → v ≡ string s
  is_text-text (string t) s h = ap string ((eq_iff t s).0 h)
  is_text-text undefined s h = absurd (cc)
  is_text-text null s h = absurd (cc)
  is_text-text (bool b) s h = absurd (cc)
  is_text-text (number n) s h = absurd (cc)
  is_text-text (array xs) s h = absurd (cc)
  is_text-text (object fs) s h = absurd (cc)
  is_text-text (instance_of d) s h = absurd (cc)

  non_empty_string-text :
      (v : Value N ⊥) (s : String) → non_empty_string ns ts tm v ≡ some s → v ≡ string s
  non_empty_string-text (string t) s =
      if-cases (λ o. o ≡ some s → ◌≡◌ {A = Value N ⊥} (string t) (string s))
        (ltb 0 (ts.units t) && leb (ts.units t) 512) _ _ (λ _ h. ap string (of_some h))
        (λ _ h. absurd (cc))
  non_empty_string-text undefined s = λ h. absurd (cc)
  non_empty_string-text null s = λ h. absurd (cc)
  non_empty_string-text (bool b) s = λ h. absurd (cc)
  non_empty_string-text (number n) s = λ h. absurd (cc)
  non_empty_string-text (array xs) s = λ h. absurd (cc)
  non_empty_string-text (object fs) s = λ h. absurd (cc)
  non_empty_string-text (instance_of d) s = λ h. absurd (cc)

  -- The admission has the expiry that was checked, few hops, and the ids and the actor of the payload.
  admission_of-kept :
      (v : Value N ⊥) (e : I) (a : Admission N I)
      → admission_of ns ts tm v e ≡ some a
      → (a.expires_at ≡ e)
        × (hop_count a.delegation ≤ 16)
        × (get "ticketId" v ≡ string a.ticket_id)
        × (get "correlationId" v ≡ string a.correlation_id)
        × (parse_ticket_actor ns ts tm (get "actor" v) ≡ some a.actor)
  unfolding admission_of
  admission_of-kept v e a h =
      let (id, named, h1) = bind-eq-some (non_empty_string ns ts tm (get "ticketId" v)) _ h in
      let (who, acts, h2) = bind-eq-some (parse_ticket_actor ns ts tm (get "actor" v)) _ h1 in
      let (_, _, h3) =
        bind-eq-some (unless_undefined ns ts tm (parse_ticket_actor ns ts tm) (get "initiator" v)) _
          h2 in
      let (o, hops, h4) =
        bind-eq-some
          (unless_undefined ns ts tm (parse_ticket_delegation ns ts tm) (get "delegation" v)) _
          h3 in
      let (_, _, h5) =
        bind-eq-some (parse_ticket_authentication ns ts tm (get "authentication" v)) _ h4 in
      let (_, _, h6) =
        bind-eq-some (unless_undefined ns ts tm (parse_ticket_tenant ns ts tm) (get "tenant" v)) _
          h5 in
      let (k, linked, h7) = bind-eq-some (non_empty_string ns ts tm (get "correlationId" v)) _ h6 in
      let made = of_some h7 in
      (
        sym (ap (λ b. b.expires_at) made),
        subst (λ p. hop_count p ≤ 16) (ap (λ b. b.delegation) made)
            (unless_undefined-hops (get "delegation" v) o hops),
        non_empty_string-text (get "ticketId" v) id named ∙ ap (λ b. string b.ticket_id) made,
        non_empty_string-text (get "correlationId" v) k linked
            ∙ ap (λ b. string b.correlation_id) made,
        acts ∙ ap (λ b. some b.actor) made,
      )

  module _ (application : String) (lifetime : ℕ) (cipher : Cipher N) where
    -- What a payload and the admission from it have, at a time and for an origin.
    pub record Genuine (v : Value N ⊥) (origin : Option String) (now : ℕ) (a : Admission N I)
        : Type 0 where
      pub issued : Whole
      pub caller : String
      pub dated : whole_in ns ts tm (get "issuedAt" v) ≡ some issued
      pub from_caller : origin ≡ some caller
      pub same_application : get "applicationId" v ≡ string application
      pub same_origin : get "origin" v ≡ string caller
      pub printed : String
      pub expiry_text : get "expiresAt" v ≡ string printed
      pub expiry : tm.parse_instant printed ≡ some a.expires_at
      pub not_future : from_future now issued ≡ false
      pub alive : now * 1000 < tm.microseconds a.expires_at
      pub short : lasting (tm.microseconds a.expires_at) issued ≤ lifetime * 1000
      pub few : hop_count a.delegation ≤ 16
      pub ticket : get "ticketId" v ≡ string a.ticket_id
      pub correlation : get "correlationId" v ≡ string a.correlation_id
      pub actor : parse_ticket_actor ns ts tm (get "actor" v) ≡ some a.actor

    parse_payload-Genuine :
        (v : Value N ⊥) (origin : Option String) (now : ℕ) (a : Admission N I)
        → parse_payload ns ts tm application lifetime cipher v origin now ≡ some a
        → Genuine v origin now a
    unfolding parse_payload
    parse_payload-Genuine v origin now a h =
        let (o, from, h1) = bind-eq-some origin _ h in
        let (i, dated, h2) = bind-eq-some (whole_in ns ts tm (get "issuedAt" v)) _ h1 in
        let (text, stamped, h3) = bind-eq-some (string_in ns ts tm (get "expiresAt" v)) _ h2 in
        let (checks, h4) = refuse_if-some _ _ h3 in
        let (_, c1) = or_if-false _ _ checks in
        let (_, c2) = or_if-false _ _ c1 in
        let (app, c3) = or_if-false _ _ c2 in
        let (future, here) = or_if-false _ _ c3 in
        let (e, read, h5) = bind-eq-some (tm.parse_instant text) _ h4 in
        let (times, h6) = refuse_if-some _ _ h5 in
        let (over, t1) = or_if-false _ _ times in
        let (_, long) = or_if-false _ _ t1 in
        let (expires, hops, id, correlated, acts) = admission_of-kept v e a h6 in
        record {
          issued = i;
          caller = o;
          dated = dated;
          from_caller = from;
          same_application = is_text-text (get "applicationId" v) application (not-false _ app);
          same_origin = is_text-text (get "origin" v) o (not-false _ here);
          printed = text;
          expiry_text = string_in-text (get "expiresAt" v) text stamped;
          expiry = read ∙ ap some (sym expires);
          not_future = future;
          alive =
              subst (λ x. now * 1000 < tm.microseconds x) (sym expires)
                (below (tm.microseconds e) (now * 1000) over);
          short =
              subst (λ x. lasting (tm.microseconds x) i ≤ lifetime * 1000) (sym expires)
                (at_most (lasting (tm.microseconds e) i) (lifetime * 1000) long);
          few = hops;
          ticket = id;
          correlation = correlated;
          actor = acts;
        }

    -- The text of a ticket: four parts of the first version, a nonce of 12 bytes and a seal of 16, which
    -- are deciphered to the JSON of a payload.
    pub record Opened (ticket : String) (origin : Option String) (now : ℕ) (a : Admission N I)
        : Type 0 where
      pub iv : String
      pub payload : String
      pub tag : String
      pub decoded : String
      pub content : Value N ⊥
      pub short_text : ts.units ticket ≤ 8192
      pub parts : cipher.split ticket ≡ "v1" ∷ iv ∷ payload ∷ tag ∷ []
      pub nonce : cipher.byte_length iv ≡ 12
      pub seal : cipher.byte_length tag ≡ 16
      pub deciphered : cipher.decipher iv payload tag ≡ some decoded
      pub parsed : cipher.parse_json decoded ≡ some content
      pub genuine : Genuine content origin now a

    open_parts-Opened :
        (ticket : String) (parts : List String) (origin : Option String) (now : ℕ)
        (a : Admission N I)
        → ts.units ticket ≤ 8192
        → cipher.split ticket ≡ parts
        → open_parts ns ts tm application lifetime cipher parts origin now ≡ some a
        → Opened ticket origin now a
    open_parts-Opened ticket [] origin now a small e h = absurd (cc)
    open_parts-Opened ticket (p ∷ []) origin now a small e h = absurd (cc)
    open_parts-Opened ticket (p ∷ q ∷ []) origin now a small e h = absurd (cc)
    open_parts-Opened ticket (p ∷ q ∷ r ∷ []) origin now a small e h = absurd (cc)
    open_parts-Opened ticket (p ∷ i ∷ body ∷ t ∷ []) origin now a small e h =
        let (version, h1) = refuse_if-some _ _ h in
        let (first, _) = or_if-false _ _ version in
        let (sizes, h2) = refuse_if-some _ _ h1 in
        let (twelve, s1) = or_if-false _ _ sizes in
        let (_, sixteen) = or_if-false _ _ s1 in
        let (text, plain, h3) = bind-eq-some (cipher.decipher i body t) _ h2 in
        let (v, json, h4) = bind-eq-some (cipher.parse_json text) _ h3 in
        record {
          iv = i;
          payload = body;
          tag = t;
          decoded = text;
          content = v;
          short_text = small;
          parts = e ∙ ap (λ w. w ∷ i ∷ body ∷ t ∷ []) ((eq_iff p "v1").0 (not-false _ first));
          nonce = of_nat_eq (cipher.byte_length i) 12 (not-false _ twelve);
          seal = of_nat_eq (cipher.byte_length t) 16 (not-false _ sixteen);
          deciphered = plain;
          parsed = json;
          genuine = parse_payload-Genuine v origin now a h4;
        }
    open_parts-Opened ticket (p ∷ q ∷ r ∷ s ∷ t ∷ u) origin now a small e h = absurd (cc)

    -- A ticket that opens has at most 8192 units and four parts, the first `v1`, a nonce of 12 bytes and
    -- a seal of 16; what they are deciphered to is the JSON of a payload of this application and of the
    -- caller's origin, issued at most 5 seconds ahead of the clock. The admission has the payload's
    -- ticket id, correlation id, actor and expiry, has not expired, lasts at most the lifetime from the
    -- issue, and has at most 16 hops of delegation.
    pub open_ticket-Genuine :
        (ticket : String) (origin : Option String) (now : ℕ) (a : Admission N I)
        → open_ticket ns ts tm application lifetime cipher ticket origin now ≡ some a
        → Opened ticket origin now a
    unfolding open_ticket
    open_ticket-Genuine ticket origin now a h =
        let (size, h1) = refuse_if-some _ _ h in
        let (_, long) = or_if-false _ _ size in
        open_parts-Opened ticket (cipher.split ticket) origin now a
          (at_most (ts.units ticket) 8192 long) refl h1
