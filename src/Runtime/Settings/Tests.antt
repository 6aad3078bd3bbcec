-- ===== src/Runtime/Settings/Tests.antt =====
-- A database whose settings come from an override, the environment, the file and a default.
use doxajs.Base.{
  ℕ, String, true, false, Option, none, some, [], ◌∷◌, ◌≡◌, refl, str_eq, if◌then◌else◌,
}
use doxajs.Js.{string, Fields, field, end}
use doxajs.Js.Samples.{naturals, texts}
use doxajs.Runtime.Settings.{
  Kind, text_kind, number_kind, secret_kind, Default, text, numeric, Property, Configuration, plain,
  secret, Platform, expected_number, invalid, configured, materialize_configurations,
}
use doxajs.Runtime.Settings.Laws.{Verdict, materialize_configurations-Verdict}

abbrev no_default : Option (Default ℕ)
no_default = none

abbrev declares : String → Kind → Option (Default ℕ) → Property ℕ
declares key kind value = record {
  name = key;
  environment_key = key;
  kind = kind;
  allowed_values = none;
  optional = false;
  default_value = value;
}

abbrev database : Configuration ℕ
database = record {
  id = "database";
  name = "Database";
  properties =
      declares "host" text_kind (some (text "localhost"))
      ∷ declares "port" number_kind (some (numeric 5432))
      ∷ declares "password" secret_kind no_default
      ∷ [];
}

abbrev platform : Platform ℕ
platform = record {
  numbers = naturals;
  texts = texts;
  to_number = λ s. 1;
  is_blank = λ s. str_eq s "";
  environment = λ k. if str_eq k "password" then some "hunter2" else none;
  dotenv = λ k. if str_eq k "host" then some "db.local" else none;
  has_constructor = λ id. true;
}

abbrev nothing_set : String → Fields ℕ ⊥
nothing_set id = end

abbrev blank_port : String → Fields ℕ ⊥
blank_port id = field "port" (string "") end

settings_in_order :
    materialize_configurations platform nothing_set none (database ∷ [])
    ≡ configured (
        (
          "database",
          ("host", plain (text "db.local"))
              ∷ ("port", plain (numeric 5432))
              ∷ ("password", secret "hunter2")
              ∷ [],
        )
        ∷ [])
unfolding materialize_configurations
settings_in_order = refl

blank_port_is_refused :
    materialize_configurations platform blank_port none (database ∷ [])
    ≡ invalid (
        record {
          configuration = "Database";
          property = "port";
          key = "port";
          why = expected_number;
        }
        ∷ [])
unfolding materialize_configurations
blank_port_is_refused = refl

materialize_configurations-Verdict_example :
    Verdict platform blank_port none
      (database ∷ [])
      (materialize_configurations platform blank_port none (database ∷ []))
materialize_configurations-Verdict_example =
    materialize_configurations-Verdict platform blank_port none (database ∷ [])
