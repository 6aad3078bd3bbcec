-- ===== src/Keryx/Json.antt =====
-- `assertJson` of packages/keryx/src/protocol.ts: finite JSON, nested at most 100 deep.
use doxajs.Base.{ℕ, zero, suc, Bool, true, false, ◌&&◌, ◌≡◌, ◌↔◌, refl, subst, ◌+◌, leb, arith}
use doxajs.Js.{
  Value, undefined, null, bool, number, string, array, object, instance_of, Items, nil, cons,
  Fields, end, field, Numbers,
}

module _ {N : Type 0} (ns : Numbers N) where
  unfoldable mutual
    -- Whether the call returns: `false` is a throw.
    pub assert_json : ℕ → Value N ⊥ → Bool
    assert_json depth undefined = false
    assert_json depth null = leb depth 100
    assert_json depth (bool b) = leb depth 100
    assert_json depth (number n) = leb depth 100 && ns.is_finite n
    assert_json depth (string s) = leb depth 100
    assert_json depth (array xs) = leb depth 100 && assert_items (suc depth) xs
    assert_json depth (object fs) = leb depth 100 && assert_fields (suc depth) fs
    assert_json depth (instance_of d) = false

    pub assert_items : ℕ → Items N ⊥ → Bool
    assert_items depth nil = true
    assert_items depth (cons v xs) = assert_json depth v && assert_items depth xs

    pub assert_fields : ℕ → Fields N ⊥ → Bool
    assert_fields depth end = true
    assert_fields depth (field k v fs) = assert_json depth v && assert_fields depth fs

  -- JSON with finite numbers, in which no entry lies more than `n` levels down.
  unfoldable mutual
    pub Nested : ℕ → Value N ⊥ → Type 0
    Nested n undefined = ⊥
    Nested n null = Unit
    Nested n (bool b) = Unit
    Nested n (number m) = ns.is_finite m ≡ true
    Nested n (string s) = Unit
    Nested n (array xs) = NestedItems n xs
    Nested n (object fs) = NestedFields n fs
    Nested n (instance_of d) = ⊥

    pub NestedItems : ℕ → Items N ⊥ → Type 0
    NestedItems n nil = Unit
    NestedItems zero (cons v xs) = ⊥
    NestedItems (suc n) (cons v xs) = Nested n v × NestedItems (suc n) xs

    pub NestedFields : ℕ → Fields N ⊥ → Type 0
    NestedFields n end = Unit
    NestedFields zero (field k v fs) = ⊥
    NestedFields (suc n) (field k v fs) = Nested n v × NestedFields (suc n) fs

  both : (a b : Bool) → (a && b) ≡ true → (a ≡ true) × (b ≡ true)
  both true b h = (refl, h)
  both false b h = absurd (cc)

  both-true : (a b : Bool) → a ≡ true → b ≡ true → (a && b) ≡ true
  both-true a b h i = cc

  shallow : (d n : ℕ) → d + n ≡ 100 → leb d 100 ≡ true
  shallow d n e = ground arith

  deep : (v : Value N ⊥) → assert_json 101 v ≡ false
  unfolding assert_json
  deep undefined = refl
  deep null = refl
  deep (bool b) = refl
  deep (number m) = refl
  deep (string s) = refl
  deep (array xs) = refl
  deep (object fs) = refl
  deep (instance_of d) = refl

  too_deep : (d : ℕ) (v : Value N ⊥) → d + 0 ≡ 100 → assert_json (suc d) v ≡ true → ⊥
  too_deep d v e h =
      let at : d ≡ 100 = omega (arith, e) in
      cc (deep v, subst (λ j. assert_json (suc j) v ≡ true) at h)

  mutual
    unfolding assert_json Nested

    sound : (d n : ℕ) (v : Value N ⊥) → d + n ≡ 100 → assert_json d v ≡ true → Nested n v
    sound d n undefined e h = cc
    sound d n null e h = tt
    sound d n (bool b) e h = tt
    sound d n (number m) e h = (both _ (ns.is_finite m) h).1
    sound d n (string s) e h = tt
    sound d n (array xs) e h = sound_items d n xs e (both (leb d 100) (assert_items (suc d) xs) h).1
    sound d n (object fs) e h =
        sound_fields d n fs e (both (leb d 100) (assert_fields (suc d) fs) h).1
    sound d n (instance_of i) e h = i

    sound_items :
        (d n : ℕ) (xs : Items N ⊥) → d + n ≡ 100 → assert_items (suc d) xs ≡ true → NestedItems n xs
    sound_items d n nil e h = tt
    sound_items d zero (cons v xs) e h =
        too_deep d v e (both (assert_json (suc d) v) (assert_items (suc d) xs) h).0
    sound_items d (suc n) (cons v xs) e h =
        let (first, rest) = both (assert_json (suc d) v) (assert_items (suc d) xs) h in
        (sound (suc d) n v (omega (arith, e)) first, sound_items d (suc n) xs e rest)

    sound_fields :
        (d n : ℕ) (fs : Fields N ⊥)
        → d + n ≡ 100
        → assert_fields (suc d) fs ≡ true
        → NestedFields n fs
    sound_fields d n end e h = tt
    sound_fields d zero (field k v fs) e h =
        too_deep d v e (both (assert_json (suc d) v) (assert_fields (suc d) fs) h).0
    sound_fields d (suc n) (field k v fs) e h =
        let (first, rest) = both (assert_json (suc d) v) (assert_fields (suc d) fs) h in
        (sound (suc d) n v (omega (arith, e)) first, sound_fields d (suc n) fs e rest)

  mutual
    unfolding assert_json Nested

    complete : (d n : ℕ) (v : Value N ⊥) → d + n ≡ 100 → Nested n v → assert_json d v ≡ true
    complete d n undefined e h = elim h [ ]
    complete d n null e h = shallow d n e
    complete d n (bool b) e h = shallow d n e
    complete d n (number m) e h = both-true (leb d 100) (ns.is_finite m) (shallow d n e) h
    complete d n (string s) e h = shallow d n e
    complete d n (array xs) e h =
        both-true (leb d 100) (assert_items (suc d) xs) (shallow d n e) (complete_items d n xs e h)
    complete d n (object fs) e h =
        both-true (leb d 100) (assert_fields (suc d) fs) (shallow d n e)
          (complete_fields d n fs e h)
    complete d n (instance_of i) e h = elim h [ ]

    complete_items :
        (d n : ℕ) (xs : Items N ⊥) → d + n ≡ 100 → NestedItems n xs → assert_items (suc d) xs ≡ true
    complete_items d n nil e h = refl
    complete_items d zero (cons v xs) e h = elim h [ ]
    complete_items d (suc n) (cons v xs) e (a, b) =
        both-true (assert_json (suc d) v) (assert_items (suc d) xs)
          (complete (suc d) n v (omega (arith, e)) a) (complete_items d (suc n) xs e b)

    complete_fields :
        (d n : ℕ) (fs : Fields N ⊥)
        → d + n ≡ 100
        → NestedFields n fs
        → assert_fields (suc d) fs ≡ true
    complete_fields d n end e h = refl
    complete_fields d zero (field k v fs) e h = elim h [ ]
    complete_fields d (suc n) (field k v fs) e (a, b) =
        both-true (assert_json (suc d) v) (assert_fields (suc d) fs)
          (complete (suc d) n v (omega (arith, e)) a) (complete_fields d (suc n) fs e b)

  -- `assertJson` lets exactly those values through that are JSON with finite numbers and have no
  -- entry more than 100 levels down.
  pub assert_json_iff : (v : Value N ⊥) → (assert_json 0 v ≡ true) ↔ Nested 100 v
  assert_json_iff v = (sound 0 100 v refl, complete 0 100 v refl)
