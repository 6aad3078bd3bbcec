-- ===== src/Runtime/Settings.antt =====
-- Where the values of the configurations come from: `materializeConfigurations` and
-- `resolveConfigurationValue` of packages/runtime/src/runtime.ts.
pub mod Values
pub mod Laws
mod Tests
use doxajs.Base.{
  String, Bool, true, false, not, Option, none, some, List, [], ◌∷◌, ◌++◌, has, str_eq,
  if◌then◌else◌,
}
use doxajs.Js.{
  Value, undefined, bool, number, string, Fields, property, has_own, is_undefined, Numbers, Texts,
}

pub data Kind : Type 0 where
  text_kind number_kind boolean_kind literal_union secret_kind : Kind

pub data Default (N : Type 0) : Type 0 where
  text : String → Default N
  numeric : N → Default N
  flag : Bool → Default N

pub record Property (N : Type 0) : Type 0 where
  pub name : String
  pub environment_key : String
  pub kind : Kind
  pub allowed_values : Option (List (Default N))
  pub optional : Bool
  pub default_value : Option (Default N)

pub record Configuration (N : Type 0) : Type 0 where
  pub id : String
  pub name : String
  pub properties : List (Property N)

-- The value of a property: `absent` is `undefined`, and `secret` a SecretString.
pub data Setting (N : Type 0) : Type 0 where
  absent : Setting N
  plain : Default N → Setting N
  secret : String → Setting N

-- The errors that `resolveConfigurationValue` throws, in the order in which it can.
pub data Refusal : Type 0 where
  missing_value expected_one_of expected_text expected_secret expected_number expected_boolean :
      Refusal

pub data Outcome (N : Type 0) : Type 0 where
  resolved : Setting N → Outcome N
  refused : Refusal → Outcome N

-- What the platform gives: `Number(text)`, `text.trim() === ''`, `process.env`, the file that
-- `loadDotenv` reads, and the constructors of the registry.
pub record Platform (N : Type 0) : Type 0 where
  pub numbers : Numbers N
  pub texts : Texts N
  pub to_number : String → N
  pub is_blank : String → Bool
  pub environment : String → Option String
  pub dotenv : String → Option String
  pub has_constructor : String → Bool

pub record Issue : Type 0 where
  pub configuration : String
  pub property : String
  pub key : String
  pub why : Refusal

-- The loop over the configurations: the instances it made, and the issues; or the id that the
-- registry misses.
pub data Gathering (N : Type 0) : Type 0 where
  unregistered : String → Gathering N
  gathered : List (String × List (String × Setting N)) → List Issue → Gathering N

pub data Materialized (N : Type 0) : Type 0 where
  no_constructor : String → Materialized N
  invalid : List Issue → Materialized N
  configured : List (String × List (String × Setting N)) → Materialized N

abbrev pub includes : Option (List String) → String → Bool
includes none id = true
includes (some ids) id = has id ids

module _ {N : Type 0} where
  abbrev pub value_of : Default N → Value N ⊥
  value_of (text s) = string s
  value_of (numeric n) = number n
  value_of (flag b) = bool b

  abbrev pub value_of_option : Option (Default N) → Value N ⊥
  value_of_option none = undefined
  value_of_option (some d) = value_of d

  abbrev pub first_of : Option String → Value N ⊥ → Value N ⊥
  first_of none v = v
  first_of (some s) v = string s

  abbrev pub listed_property : String → Fields N ⊥ → Value N ⊥
  listed_property k fs = elim (property k fs) [ none ↦ undefined | some v ↦ v ]

  -- An override comes first, then the environment, the file, and the default.
  unfoldable pub source_of : Platform N → Fields N ⊥ → Property N → Value N ⊥
  source_of env overrides p =
      if has_own p.name overrides
      then listed_property p.name overrides
      else first_of (env.environment p.environment_key)
          (first_of (env.dotenv p.environment_key) (value_of_option p.default_value))

  -- `allowedValues.find((allowed) => String(allowed) === String(source))`
  unfoldable pub find_allowed : Texts N → String → List (Default N) → Option (Default N)
  find_allowed ts s [] = none
  find_allowed ts s (d ∷ ds) =
      let later = find_allowed ts s ds in
      if str_eq (ts.to_string (value_of d)) s then some d else later

  abbrev pub find_listed : Texts N → String → Option (List (Default N)) → Option (Default N)
  find_listed ts s none = none
  find_listed ts s (some ds) = find_allowed ts s ds

  abbrev pub matched : Option (Default N) → Outcome N
  matched none = refused expected_one_of
  matched (some d) = resolved (plain d)

  abbrev pub resolve_text : Value N ⊥ → Outcome N
  resolve_text (string s) = resolved (plain (text s))
  resolve_text v = refused expected_text

  abbrev pub resolve_secret : Value N ⊥ → Outcome N
  resolve_secret (string s) = resolved (secret s)
  resolve_secret v = refused expected_secret

  abbrev pub finite : Platform N → N → Outcome N
  finite env n =
      if env.numbers.is_finite n then resolved (plain (numeric n)) else refused expected_number

  abbrev pub resolve_number : Platform N → Value N ⊥ → Outcome N
  resolve_number env (number n) = finite env n
  resolve_number env (string s) =
      if env.is_blank s then refused expected_number else finite env (env.to_number s)
  resolve_number env v = refused expected_number

  abbrev pub resolve_boolean : Value N ⊥ → Outcome N
  resolve_boolean (bool b) = resolved (plain (flag b))
  resolve_boolean (string s) =
      if str_eq s "true"
      then resolved (plain (flag true))
      else if str_eq s "false"
      then resolved (plain (flag false))
      else refused expected_boolean
  resolve_boolean v = refused expected_boolean

  abbrev pub resolve_kind : Platform N → Property N → Kind → Value N ⊥ → Outcome N
  resolve_kind env p literal_union v =
      matched (find_listed env.texts (env.texts.to_string v) p.allowed_values)
  resolve_kind env p text_kind v = resolve_text v
  resolve_kind env p secret_kind v = resolve_secret v
  resolve_kind env p number_kind v = resolve_number env v
  resolve_kind env p boolean_kind v = resolve_boolean v

  unfoldable pub resolve_configuration_value : Platform N → Property N → Value N ⊥ → Outcome N
  resolve_configuration_value env p v =
      if is_undefined v
      then (if p.optional then resolved absent else refused missing_value)
      else resolve_kind env p p.kind v

  abbrev pub keep :
      Configuration N
      → Property N
      → Outcome N
      → List (String × Setting N) × List Issue
      → List (String × Setting N) × List Issue
  keep c p (resolved r) (i, q) = ((p.name, r) ∷ i, q)
  keep c p (refused e) (i, q) = (
    i,
    record { configuration = c.name; property = p.name; key = p.environment_key; why = e } ∷ q,
  )

  unfoldable pub materialize_properties :
      Platform N
      → Fields N ⊥
      → Configuration N
      → List (Property N)
      → List (String × Setting N) × List Issue
  materialize_properties env overrides c [] = ([], [])
  materialize_properties env overrides c (p ∷ ps) =
      keep c p (resolve_configuration_value env p (source_of env overrides p))
        (materialize_properties env overrides c ps)

  abbrev pub gather : String → List (String × Setting N) × List Issue → Gathering N → Gathering N
  gather id m (unregistered k) = unregistered k
  gather id (i, q) (gathered is qs) = gathered ((id, i) ∷ is) (q ++ qs)

  -- `overrides` are `configurationOverrides[id] ?? {}`.
  unfoldable pub materialize_each :
      Platform N
      → (String → Fields N ⊥)
      → Option (List String)
      → List (Configuration N)
      → Gathering N
  materialize_each env overrides included [] = gathered [] []
  materialize_each env overrides included (c ∷ cs) =
      let later = materialize_each env overrides included cs in
      if not (includes included c.id)
      then later
      else if not (env.has_constructor c.id)
      then unregistered c.id
      else gather c.id (materialize_properties env (overrides c.id) c c.properties) later

  abbrev pub conclude : Gathering N → Materialized N
  conclude (unregistered id) = no_constructor id
  conclude (gathered is []) = configured is
  conclude (gathered is (q ∷ qs)) = invalid (q ∷ qs)

  unfoldable pub materialize_configurations :
      Platform N
      → (String → Fields N ⊥)
      → Option (List String)
      → List (Configuration N)
      → Materialized N
  unfolding materialize_each materialize_properties resolve_configuration_value find_allowed
      source_of has_own property has
  materialize_configurations env overrides included cs =
      conclude (materialize_each env overrides included cs)
