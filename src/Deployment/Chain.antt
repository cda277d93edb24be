-- ===== src/Deployment/Chain.antt =====
-- The chains of steps of a deployment, and what staging leaves.
use essentials_calls.Base.{
  String, ◌≡◌, refl, sym, ap, ◌∙◌, Bool, true, false, inl, inr, Option, none, some, ◌∷◌, Bool-cases,
}
use essentials_calls.Base.Entries.{lookup, is_some}
use essentials_calls.Base.Texts.{◌<>◌}
use essentials_calls.Generator.Files.{GeneratedConfigs, generate_all}
use essentials_calls.Generator.Values.{Outcome, done, thrown}
use essentials_calls.Model.{Topology}
use essentials_calls.Deployment.Configs.{are_valid}
use essentials_calls.Deployment.Health.{Fault}
use essentials_calls.Deployment.Staging.{
  StagedConfig, World, staged, write_version, stage_configs, stage_outcome, stage_generated_configs,
  is_deployment_id,
}
use essentials_calls.Deployment.Run.{Progress, Attempt, ◌>=>◌, calling}

-- Where the attempt ends: with a fault in a state of the one kind, or without in one of the other.
abbrev pub EndsIn : (Progress → Type 0) → (Progress → Type 0) → Attempt → Type 0
EndsIn F Q (none, p) = Q p
EndsIn F Q (some fault, p) = F p

module _ (F : Progress → Type 0) where
  pub >=>_ends :
      (P Q : Progress → Type 0) (m : Attempt) (k : Progress → Attempt)
      → EndsIn F P m
      → ((p : Progress) → P p → EndsIn F Q (k p))
      → EndsIn F Q (m >=> k)
  >=>_ends P Q (none, p) k h f = f p h
  >=>_ends P Q (some fault, p) k h f = h

  pub calling_ends :
      (Q : Progress → Type 0) (o : Option String) (f : Progress → Progress) (p : Progress)
      → F p
      → Q (f p)
      → EndsIn F Q (calling o f p)
  unfolding calling
  calling_ends Q none f p h g = g
  calling_ends Q (some m) f p h g = h

  -- A test that changes nothing.
  pub test_ends :
      (Q : Progress → Type 0) (o : Option Fault) (p : Progress)
      → F p
      → (o ≡ none → Q p)
      → EndsIn F Q (o, p)
  test_ends Q none p h g = g refl
  test_ends Q (some fault) p h g = h

-- What staging leaves of the world: a version more.
pub record IsStaged (id : String) (v : StagedConfig) (w w' : World) : Type 0 where
  pub world : w' ≡ record w { versions = (id, v) ∷ w.versions }
  pub target : v.target ≡ "versions/" <> id
  pub valid : are_valid v.configs ≡ true

module _ (md5 sha256 : String → String) where
  staged_injective :
      (v v' : StagedConfig) (w w' : World) → staged v w ≡ staged v' w' → (v ≡ v') × (w ≡ w')
  staged_injective v v' w w' h = (cc h, cc h)

  write_version-IsStaged :
      (id : String) (u v : StagedConfig) (io : Option String) (w w' : World)
      → write_version id u io w ≡ staged v w'
      → (u ≡ v) × (w' ≡ record w { versions = (id, v) ∷ w.versions })
  unfolding write_version
  write_version-IsStaged id u v (some m) w w' h = cc h
  write_version-IsStaged id u v none w w' h = elim (Bool-cases (is_some (lookup id w.versions))) [
    | inl e ↦ cc (rw e at h)
    | inr e ↦
        let (same, world) = staged_injective u v _ w' (rw e at h) in
        (
          same,
          sym world ∙ ap (λ (x : StagedConfig). record w { versions = (id, x) ∷ w.versions }) same,
        )
  ]

  stage_configs-IsStaged :
      (configs : GeneratedConfigs) (id : String) (io : Option String) (w w' : World)
      (v : StagedConfig)
      → stage_configs md5 sha256 configs id io w ≡ staged v w'
      → IsStaged id v w w'
  unfolding stage_configs
  stage_configs-IsStaged configs id io w w' v h = elim (Bool-cases (are_valid configs)) [
    | inr e ↦ cc (rw e at h)
    | inl e ↦
        let (same, world) = write_version-IsStaged id _ v io w w' (rw e at h) in
        record {
          world = world;
          target = sym (ap (λ (x : StagedConfig). x.target) same);
          valid = ap are_valid (sym (ap (λ (x : StagedConfig). x.configs) same)) ∙ e;
        }
  ]

  stage_outcome-IsStaged :
      (o : Outcome GeneratedConfigs) (id : String) (io : Option String) (w w' : World)
      (v : StagedConfig)
      → stage_outcome md5 sha256 o id io w ≡ staged v w'
      → IsStaged id v w w'
  unfolding stage_outcome
  stage_outcome-IsStaged (thrown e) id io w w' v h = cc h
  stage_outcome-IsStaged (done configs) id io w w' v h = stage_configs-IsStaged _ id io w w' v h

  pub stage_generated_configs-IsStaged :
      (t : Topology) (id : String) (test : Bool) (io : Option String) (w w' : World)
      (v : StagedConfig)
      → stage_generated_configs md5 sha256 t id test io w ≡ staged v w'
      → IsStaged id v w w'
  unfolding stage_generated_configs
  stage_generated_configs-IsStaged t id true io w w' v h = cc h
  stage_generated_configs-IsStaged t id false io w w' v h =
      elim (Bool-cases (is_deployment_id id)) [
        | inr e ↦ cc (rw e at h)
        | inl e ↦ stage_outcome-IsStaged (generate_all md5 t) id io w w' v (rw e at h)
      ]
