-- ===== src/Compiler/Advisories/Tests.antt =====
-- A service under a providers folder of a feature.
use doxajs.Base.{String, Bool, true, false, Option, some, List, [], ◌∷◌, ◌≡◌, ◌↔◌, refl}
use doxajs.Compiler.Advisories.{
  Component, Advisory, service, structure_001, location, advisory, nearest_role_folder,
  component_advisories, action_kind,
}
use doxajs.Compiler.Advisories.Laws.{InPlace, WellNamed, component_advisories-nil_iff}

abbrev segments : String → List String
segments s = "src" ∷ "features" ∷ "jobs" ∷ "providers" ∷ "mailer.ts" ∷ []

abbrev ends : String → String → Bool
ends suffix name = false

abbrev mailer : Component
mailer = record { id = "mailer"; name = "Mailer"; file = "src/features/jobs/providers/mailer.ts" }

mailer_folder : nearest_role_folder (segments mailer.file) ≡ some "providers"
unfolding nearest_role_folder doxajs.Compiler.Advisories.after_features
    doxajs.Compiler.Advisories.last_canonical doxajs.Base.has
mailer_folder = refl

mailer_advised :
    component_advisories segments ends service mailer ≡ advisory structure_001 location mailer ∷ []
unfolding component_advisories nearest_role_folder doxajs.Compiler.Advisories.after_features
    doxajs.Compiler.Advisories.last_canonical doxajs.Base.has
mailer_advised = refl

component_advisories-nil_iff_example : (component_advisories segments ends service mailer ≡ []) ↔ (
    InPlace (nearest_role_folder (segments mailer.file)) service
    × WellNamed segments ends service mailer.name)
component_advisories-nil_iff_example = component_advisories-nil_iff segments ends service mailer
