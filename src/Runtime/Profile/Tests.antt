-- ===== src/Runtime/Profile/Tests.antt =====
-- The model reader of an application with a database and a mailer.
use doxajs.Base.{String, some, none, List, [], ◌∷◌, ◌≡◌, refl, false, Elem}
use doxajs.Js.{string}
use doxajs.Compiler.Manifest.{
  by_constructor, Provider, Dependency, Capability, transactions, mail, service, singleton,
}
use doxajs.Runtime.Profile.{
  only, no_transactions, model_reader, normalize_runtime_profile, provider_ids_for_profile,
  configuration_ids_for_providers,
}
use doxajs.Runtime.Profile.Closure.{Needs}
use doxajs.Runtime.Profile.Laws.{
  Wanted, provider_ids_for_profile-Needs, configuration_ids_for_providers-Wanted,
}

abbrev on : String → Dependency
on id = record { kind = by_constructor; token = id; target_id = some id; optional = false }

abbrev provides : String → List Capability → List Dependency → Provider
provides id capabilities ds = record {
  id = id;
  name = id;
  role = service;
  scope = singleton;
  capabilities = capabilities;
  dependencies = ds;
}

abbrev mailer : Provider
mailer = provides "mailer" (mail ∷ []) (on "mail_settings" ∷ [])

abbrev database : Provider
database = provides "database" (transactions ∷ []) (on "pool" ∷ on "database_settings" ∷ [])

abbrev pool : Provider
pool = provides "pool" [] (on "database" ∷ on "pool_settings" ∷ [])

abbrev providers : List Provider
providers = mailer ∷ database ∷ pool ∷ []

abbrev settings : List String
settings = "mail_settings" ∷ "database_settings" ∷ "pool_settings" ∷ []

reader_providers : provider_ids_for_profile providers model_reader ≡ only ("pool" ∷ "database" ∷ [])
unfolding provider_ids_for_profile
reader_providers = refl

no_database : provider_ids_for_profile (mailer ∷ []) model_reader ≡ no_transactions
unfolding provider_ids_for_profile
no_database = refl

reader_settings :
    configuration_ids_for_providers providers settings (some ("pool" ∷ "database" ∷ []))
    ≡ some ("pool_settings" ∷ "database_settings" ∷ [])
unfolding configuration_ids_for_providers
reader_settings = refl

unknown_profile : normalize_runtime_profile {N = ⊥} (string "reader") ≡ none
unknown_profile = refl

provider_ids_for_profile-Needs_example :
    (set : List String) × (provider_ids_for_profile providers model_reader ≡ only set)
    × ((k : String)
        → (Elem k set → Needs providers "database" k) × (Needs providers "database" k → Elem k set))
unfolding provider_ids_for_profile
provider_ids_for_profile-Needs_example = provider_ids_for_profile-Needs providers database refl

configuration_ids_for_providers-Wanted_example :
    (set : List String) × (configuration_ids_for_providers providers settings
        (some ("database" ∷ []))
      ≡ some set)
    × ((k : String)
        → (Elem k set → Wanted settings ("database" ∷ []) providers k)
          × (Wanted settings ("database" ∷ []) providers k → Elem k set))
configuration_ids_for_providers-Wanted_example =
    configuration_ids_for_providers-Wanted providers settings ("database" ∷ [])
