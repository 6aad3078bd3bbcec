-- ===== src/Passwords/Limits.antt =====
-- The limits on records and PHC texts, and what a comparison that agrees says.
use doxajs.Base.{
  of_nat_eq, not-false, ◌&&◌, ◌*◌, ℕ, String, Bool, true, false, ◌≤◌, ◌≡◌, refl, Option, none, some,
  List, ltb, length, or-false, arith,
}
use doxajs.Js.{truthy, get, Value}
use doxajs.Passwords.{
  Phc, Platform, literal, same_bytes, matches, verify_hash, derived, verify_password,
  is_invalid_record, is_invalid_phc,
}

module _ {N : Type 0} (env : Platform N) where
  pub ltb-false : (a b : ℕ) → ltb a b ≡ false → b ≤ a
  ltb-false a b h = ground arith

  -- The limits on a record: each comparison that would refuse it is false.
  pub record RecordLimits (r : Value N ⊥) : Type 0 where
    pub version : env.less (get "version" r) (literal env 1) ≡ false
    pub algorithm : env.is_text (get "algorithm" (get "parameters" r)) "argon2id" ≡ true
    pub memory_low :
        env.less
          (get "memory" (get "parameters" r))
          (env.eightfold (get "parallelism" (get "parameters" r)))
        ≡ false
    pub memory_high : env.less (literal env 262144) (get "memory" (get "parameters" r)) ≡ false
    pub passes_low : env.less (get "passes" (get "parameters" r)) (literal env 1) ≡ false
    pub passes_high : env.less (literal env 10) (get "passes" (get "parameters" r)) ≡ false
    pub parallelism_low : env.less (get "parallelism" (get "parameters" r)) (literal env 1) ≡ false
    pub parallelism_high : env.less (literal env 8) (get "parallelism" (get "parameters" r)) ≡ false
    pub tag_low : env.less (get "tagLength" (get "parameters" r)) (literal env 16) ≡ false
    pub tag_high : env.less (literal env 64) (get "tagLength" (get "parameters" r)) ≡ false
    pub salt : truthy env.numbers (get "salt" r) ≡ true
    pub hash : truthy env.numbers (get "hash" r) ≡ true

  -- The password and the record's salt give the record's hash.
  pub record Derives (password : String) (r : Value N ⊥) : Type 0 where
    pub salt_bytes : List ℕ
    pub hash_bytes : List ℕ
    pub candidate : List ℕ
    pub salt_read : env.bytes_of_base64url (get "salt" r) ≡ some salt_bytes
    pub hash_read : env.bytes_of_base64url (get "hash" r) ≡ some hash_bytes
    pub made : env.derive password salt_bytes (get "parameters" r) ≡ some candidate
    pub same_length : length candidate ≡ length hash_bytes
    pub same_content : env.timing_safe_equal candidate hash_bytes ≡ true

  -- The limits on the parts of a PHC text.
  pub record PhcLimits (m : Phc) : Type 0 where
    pub memory_low : 8 * m.parallelism ≤ m.memory
    pub memory_high : m.memory ≤ 262144
    pub passes_low : 1 ≤ m.passes
    pub passes_high : m.passes ≤ 10
    pub parallelism_low : 1 ≤ m.parallelism
    pub parallelism_high : m.parallelism ≤ 8
    pub salt_low : 8 ≤ length m.salt
    pub hash_low : 16 ≤ length m.expected
    pub hash_high : length m.expected ≤ 64

  pub and-both : (a b : Bool) → (a && b) ≡ true → (a ≡ true) × (b ≡ true)
  and-both true b h = (refl, h)
  and-both false b h = absurd (cc)

  pub of_same_bytes :
      (xs ys : List ℕ)
      → same_bytes env xs ys ≡ true
      → (length xs ≡ length ys) × (env.timing_safe_equal xs ys ≡ true)
  of_same_bytes xs ys h =
      let (n, same) = and-both _ _ h in (of_nat_eq (length xs) (length ys) n, same)

  pub of_matches :
      (o : Option (List ℕ)) (ys : List ℕ)
      → matches env o ys ≡ true
      → (xs : List ℕ) × (o ≡ some xs)
        × (length xs ≡ length ys)
        × (env.timing_safe_equal xs ys ≡ true)
  of_matches none ys h = absurd (cc)
  of_matches (some xs) ys h = let (n, same) = of_same_bytes xs ys h in (xs, refl, n, same)

  pub verify_password-Derives :
      (password : String) (r : Value N ⊥)
      → verify_password env password r ≡ true
      → Derives password r
  unfolding verify_password
  verify_password-Derives password r = with_hash (env.bytes_of_base64url (get "hash" r)) refl
    where
      with_salt :
          (o : Option (List ℕ)) (ys : List ℕ)
          → env.bytes_of_base64url (get "salt" r) ≡ o
          → env.bytes_of_base64url (get "hash" r) ≡ some ys
          → matches env (derived env password o (get "parameters" r)) ys ≡ true
          → Derives password r
      with_salt none ys e e' h = absurd (cc)
      with_salt (some salt) ys e e' h =
          let (xs, made, n, same) = of_matches _ ys h in
          record {
            salt_bytes = salt;
            hash_bytes = ys;
            candidate = xs;
            salt_read = e;
            hash_read = e';
            made = made;
            same_length = n;
            same_content = same;
          }

      with_hash :
          (o : Option (List ℕ))
          → env.bytes_of_base64url (get "hash" r) ≡ o
          → verify_hash env password r o ≡ true
          → Derives password r
      with_hash none e = λ h. absurd (cc)
      with_hash (some ys) e = λ h. with_salt (env.bytes_of_base64url (get "salt" r)) ys refl e h

  pub record-Limits : (r : Value N ⊥) → is_invalid_record env r ≡ false → RecordLimits r
  unfolding is_invalid_record
  record-Limits r fine =
      let (_, f1) = or-false _ _ fine in
      let (version, f2) = or-false _ _ f1 in
      let (_, f3) = or-false _ _ f2 in
      let (parameters, secrets) = or-false _ _ f3 in
      let (a, p1) = or-false _ _ parameters in
      let (b, p2) = or-false _ _ p1 in
      let (c, p3) = or-false _ _ p2 in
      let (d, p4) = or-false _ _ p3 in
      let (e, p5) = or-false _ _ p4 in
      let (f, p6) = or-false _ _ p5 in
      let (g, p7) = or-false _ _ p6 in
      let (h, i) = or-false _ _ p7 in
      let (s, k) = or-false _ _ secrets in
      record {
        version = version;
        algorithm = not-false _ a;
        memory_low = b;
        memory_high = c;
        passes_low = d;
        passes_high = e;
        parallelism_low = f;
        parallelism_high = g;
        tag_low = h;
        tag_high = i;
        salt = not-false _ s;
        hash = not-false _ k;
      }

  pub phc-Limits : (m : Phc) → is_invalid_phc env m ≡ false → PhcLimits m
  phc-Limits m fine =
      let (a, f1) = or-false _ _ fine in
      let (b, f2) = or-false _ _ f1 in
      let (c, f3) = or-false _ _ f2 in
      let (d, f4) = or-false _ _ f3 in
      let (e, f5) = or-false _ _ f4 in
      let (f, f6) = or-false _ _ f5 in
      let (g, f7) = or-false _ _ f6 in
      let (h, i) = or-false _ _ f7 in
      record {
        memory_low = ltb-false m.memory (8 * m.parallelism) a;
        memory_high = ltb-false 262144 m.memory b;
        passes_low = ltb-false m.passes 1 c;
        passes_high = ltb-false 10 m.passes d;
        parallelism_low = ltb-false m.parallelism 1 e;
        parallelism_high = ltb-false 8 m.parallelism f;
        salt_low = ltb-false (length m.salt) 8 g;
        hash_low = ltb-false (length m.expected) 16 h;
        hash_high = ltb-false 64 (length m.expected) i;
      }
