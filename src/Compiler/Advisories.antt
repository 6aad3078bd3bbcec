-- ===== src/Compiler/Advisories.antt =====
-- The advisories of packages/compiler/src/manifest-validation.ts on where components are kept.
pub mod Laws
mod Tests
use doxajs.Base.{
  ℕ, suc, String, Bool, true, false, not, ◌&&◌, ◌||◌, Option, none, some, List, [], ◌∷◌, ◌++◌,
  str_eq, has, reverse, if◌then◌else◌,
}

pub data ComponentKind : Type 0 where
  action_kind command_kind realtime_command configuration event job listener model observer
        permission_source :
      ComponentKind
  policy provider_kind query route schedule service signal signal_handler : ComponentKind

-- The source is the file of its provenance.
pub record Component : Type 0 where
  pub id : String
  pub name : String
  pub file : String

pub data AdvisoryCode : Type 0 where
  structure_001 structure_002 structure_003 structure_004 structure_005 : AdvisoryCode

pub record Advisory : Type 0 where
  pub code : AdvisoryCode
  pub component_id : String
  pub guide_id : String
  pub file : String

-- The components of a manifest by their lists; `services` and `infrastructure` are the providers
-- with the roles service and provider.
pub record Components : Type 0 where
  pub actions : List Component
  pub commands : List Component
  pub realtime_commands : List Component
  pub configurations : List Component
  pub events : List Component
  pub jobs : List Component
  pub listeners : List Component
  pub models : List Component
  pub observers : List Component
  pub permission_source_entry : Option Component
  pub policies : List Component
  pub infrastructure : List Component
  pub queries : List Component
  pub routes : List Component
  pub schedules : List Component
  pub services : List Component
  pub signals : List Component
  pub signal_handlers : List Component

pub record Entry : Type 0 where
  pub kind : ComponentKind
  pub entry : Component

abbrev pub entry_of : ComponentKind → Component → Entry
entry_of k c = record { kind = k; entry = c }

-- `add` of `componentEntries`
unfoldable pub entries_of : ComponentKind → List Component → List Entry
entries_of k [] = []
entries_of k (c ∷ cs) = entry_of k c ∷ entries_of k cs

abbrev pub optional_entry : Option Component → List Component
optional_entry none = []
optional_entry (some c) = c ∷ []

unfoldable pub component_entries : Components → List Entry
component_entries m =
    entries_of action_kind m.actions
    ++ (entries_of command_kind m.commands
        ++ (entries_of realtime_command m.realtime_commands
            ++ (entries_of configuration m.configurations
                ++ (entries_of event m.events
                    ++ (entries_of job m.jobs
                        ++ (entries_of listener m.listeners
                            ++ (entries_of model m.models
                                ++ (entries_of observer m.observers
                                    ++ (entries_of permission_source
                                          (optional_entry m.permission_source_entry)
                                        ++ (entries_of policy m.policies
                                            ++ (entries_of provider_kind m.infrastructure
                                                ++ (entries_of query m.queries
                                                    ++ (entries_of route m.routes
                                                        ++ (entries_of schedule m.schedules
                                                            ++ (entries_of service m.services
                                                            ++ (entries_of signal m.signals
                                                            ++ entries_of signal_handler
                                                            m.signal_handlers))))))))))))))))

abbrev pub canonical_role_folders : List String
canonical_role_folders =
    "actions" ∷ "commands" ∷ "realtime-commands" ∷ "config" ∷ "events" ∷ "http" ∷ "jobs"
    ∷ "listeners" ∷ "models" ∷ "observers" ∷ "permission-sources" ∷ "policies" ∷ "providers"
    ∷ "queries" ∷ "schedules" ∷ "services" ∷ "signals" ∷ "signal-handlers" ∷ []

abbrev pub canonical_folder : ComponentKind → String
canonical_folder action_kind = "actions"
canonical_folder command_kind = "commands"
canonical_folder realtime_command = "realtime-commands"
canonical_folder configuration = "config"
canonical_folder event = "events"
canonical_folder job = "jobs"
canonical_folder listener = "listeners"
canonical_folder model = "models"
canonical_folder observer = "observers"
canonical_folder permission_source = "permission-sources"
canonical_folder policy = "policies"
canonical_folder provider_kind = "providers"
canonical_folder query = "queries"
canonical_folder route = "http"
canonical_folder schedule = "schedules"
canonical_folder service = "services"
canonical_folder signal = "signals"
canonical_folder signal_handler = "signal-handlers"

abbrev pub is_service : ComponentKind → Bool
is_service service = true
is_service k = false

abbrev pub is_provider : ComponentKind → Bool
is_provider provider_kind = true
is_provider k = false

abbrev pub tail_of : List String → List String
tail_of [] = []
tail_of (s ∷ ss) = ss

-- The segments from `segments.lastIndexOf('features') + 2` on, or all of them.
unfoldable pub after_features : List String → Option (List String)
after_features [] = none
after_features (s ∷ ss) =
    let rest = after_features ss in
    elim rest [
      | some found ↦ some found
      | none ↦ if str_eq s "features" then some (tail_of ss) else none
    ]

abbrev pub or_all : List String → Option (List String) → List String
or_all all none = all
or_all all (some found) = found

-- The loop from the last segment down.
unfoldable pub last_canonical : List String → Option String
last_canonical [] = none
last_canonical (s ∷ ss) =
    let rest = last_canonical ss in
    elim rest [
      | some found ↦ some found
      | none ↦ if has s canonical_role_folders then some s else none
    ]

unfoldable pub nearest_role_folder : List String → Option String
nearest_role_folder segments = last_canonical (or_all segments (after_features segments))

abbrev pub folder_is : Option String → String → Bool
folder_is none s = false
folder_is (some f) s = str_eq f s

-- `conflictingFolder`
abbrev pub conflicting_folder : Option String → String → Option String
conflicting_folder none expected = none
conflicting_folder (some f) expected = if str_eq f expected then none else some f

abbrev pub is_some : Option String → Bool
is_some none = false
is_some (some s) = true

abbrev pub warn_if : Bool → Advisory → List Advisory → List Advisory
warn_if true a rest = a ∷ rest
warn_if false a rest = rest

abbrev pub advisory : AdvisoryCode → String → Component → Advisory
advisory c guide entry = record {
  code = c;
  component_id = entry.id;
  guide_id = guide;
  file = entry.file;
}

abbrev pub location : String
location = "diagnostic.provider-service-location"

-- `segments_of` is the path in lower case with slashes, split; `ends` tests how a name ends.
module _ (segments_of : String → List String) (ends : String → String → Bool) where
  unfoldable pub component_advisories : ComponentKind → Component → List Advisory
  component_advisories kind entry =
      let folder = nearest_role_folder (segments_of entry.file) in
      let conflict = conflicting_folder folder (canonical_folder kind) in
      let reported =
        (is_service kind && folder_is conflict "providers")
        || (is_provider kind && folder_is conflict "services") in
      warn_if (is_service kind && folder_is folder "providers")
        (advisory structure_001 location entry)
        (warn_if (is_provider kind && folder_is folder "services")
          (advisory structure_002 location entry)
          (warn_if (is_service kind && ends "Provider" entry.name)
            (advisory structure_003 location entry)
            (warn_if (is_provider kind && ends "Service" entry.name)
              (advisory structure_004 location entry)
              (warn_if (is_some conflict && not reported)
                (advisory structure_005 "diagnostic.canonical-folder" entry) []))))

  -- The advisories of every component, in the order of the entries, before they are sorted.
  unfoldable pub all_advisories : List Entry → List Advisory
  all_advisories [] = []
  all_advisories (e ∷ es) = component_advisories e.kind e.entry ++ all_advisories es
