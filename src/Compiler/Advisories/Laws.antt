-- ===== src/Compiler/Advisories/Laws.antt =====
-- When a component is left without advisory, and how the nearest role folder is found.
use doxajs.Base.{
  String, Bool, true, false, not, ◌&&◌, ◌||◌, Option, none, some, List, [], ◌≡◌, ◌↔◌, ◌⊎◌, inl, inr,
  refl, ap, str_eq, eq_iff, eq_refl, Bool-cases,
}
use doxajs.Compiler.Advisories.{
  ComponentKind, Component, service, provider_kind, canonical_folder, is_service, is_provider,
  folder_is, conflicting_folder, is_some, warn_if, component_advisories, nearest_role_folder,
  Advisory,
}

warn_if-nil :
    (b : Bool) (a : Advisory) (rest : List Advisory)
    → warn_if b a rest ≡ []
    → (b ≡ false) × (rest ≡ [])
warn_if-nil true a rest h = absurd (cc)
warn_if-nil false a rest h = (refl, h)

-- The folder is no role folder, or the one of the kind.
abbrev pub InPlace : Option String → ComponentKind → Type 0
InPlace folder kind = (folder ≡ none) ⊎ (folder ≡ some (canonical_folder kind))

module _ (segments_of : String → List String) (ends : String → String → Bool) where
  -- The name of a service does not end in Provider, nor that of a provider in Service.
  abbrev pub WellNamed : ComponentKind → String → Type 0
  WellNamed kind name =
      (is_service kind && ends "Provider" name ≡ false)
      × (is_provider kind && ends "Service" name ≡ false)

  conflicting-none :
      (folder : Option String) (kind : ComponentKind)
      → conflicting_folder folder (canonical_folder kind) ≡ none
      → InPlace folder kind
  conflicting-none none kind h = inl refl
  conflicting-none (some f) kind h = elim (Bool-cases (str_eq f (canonical_folder kind))) [
    | inl same ↦ inr (ap some ((eq_iff f (canonical_folder kind)).0 same))
    | inr other ↦ absurd (cc (rw other at h))
  ]

  is-conflicting :
      (folder : Option String) (e s : String)
      → folder_is (conflicting_folder folder e) s ≡ true
      → folder_is folder s ≡ true
  is-conflicting none e s h = h
  is-conflicting (some f) e s h = elim (Bool-cases (str_eq f e)) [
    | inl same ↦ absurd (cc (rw same at h))
    | inr other ↦ rw other at h
  ]

  and_false : (a b c : Bool) → (a && b) ≡ false → (c ≡ true → b ≡ true) → (a && c) ≡ false
  and_false false b c h f = refl
  and_false true b false h f = refl
  and_false true b true h f = absurd (cc (f refl))

  or_false : (a b : Bool) → a ≡ false → b ≡ false → (a || b) ≡ false
  or_false false b h i = i
  or_false true b h i = absurd (cc)

  unreported : (o : Option String) (r : Bool) → (is_some o && not r) ≡ false → r ≡ false → o ≡ none
  unreported none r h i = refl
  unreported (some s) false h i = absurd (cc)
  unreported (some s) true h i = absurd (cc)

  InPlace-conflict :
      (folder : Option String) (kind : ComponentKind)
      → InPlace folder kind
      → conflicting_folder folder (canonical_folder kind) ≡ none
  InPlace-conflict folder kind (inl e) = rw e refl
  InPlace-conflict folder kind (inr e) = rw (e, eq_refl (canonical_folder kind)) refl

  service-InPlace :
      (folder : Option String) (kind : ComponentKind)
      → InPlace folder kind
      → (is_service kind && folder_is folder "providers") ≡ false
  service-InPlace folder service (inl e) = rw e refl
  service-InPlace folder service (inr e) = rw e refl
  service-InPlace folder kind p = refl

  provider-InPlace :
      (folder : Option String) (kind : ComponentKind)
      → InPlace folder kind
      → (is_provider kind && folder_is folder "services") ≡ false
  provider-InPlace folder provider_kind (inl e) = rw e refl
  provider-InPlace folder provider_kind (inr e) = rw e refl
  provider-InPlace folder kind p = refl

  -- A component gets no advisory exactly if its nearest role folder, if any, is the one of its kind,
  -- and its name does not speak of the other of service and provider.
  pub component_advisories-nil_iff :
      (kind : ComponentKind) (entry : Component)
      → (component_advisories segments_of ends kind entry ≡ [])
        ↔ (InPlace (nearest_role_folder (segments_of entry.file)) kind × WellNamed kind entry.name)
  unfolding component_advisories
  component_advisories-nil_iff kind entry =
      let folder = nearest_role_folder (segments_of entry.file) in
      (
        λ h.
            let (a, h1) = warn_if-nil (is_service kind && folder_is folder "providers") _ _ h in
            let (b, h2) = warn_if-nil (is_provider kind && folder_is folder "services") _ _ h1 in
            let (c, h3) = warn_if-nil (is_service kind && ends "Provider" entry.name) _ _ h2 in
            let (d, h4) = warn_if-nil (is_provider kind && ends "Service" entry.name) _ _ h3 in
            let (e, _) = warn_if-nil _ _ _ h4 in
            let conflict = conflicting_folder folder (canonical_folder kind) in
            (
              conflicting-none folder kind (
                  unreported conflict _ e (
                    or_false _ _
                      (and_false (is_service kind) _ (folder_is conflict "providers") a
                        (is-conflicting folder _ "providers"))
                      (and_false (is_provider kind) _ (folder_is conflict "services") b
                        (is-conflicting folder _ "services")))),
              (c, d),
            ),
        λ (place, (c, d)).
            rw
              (
                service-InPlace folder kind place,
                provider-InPlace folder kind place,
                c,
                d,
                InPlace-conflict folder kind place,
              )
              refl,
      )
