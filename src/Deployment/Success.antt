-- ===== src/Deployment/Success.antt =====
-- What an attempt that ends without a fault has done.
use essentials_calls.Base.{ℕ, String, ◌≡◌, refl, sym, ap, ◌∙◌, true, not, Option, none, some}
use essentials_calls.Base.Texts.{◌<>◌}
use essentials_calls.Model.{Topology}
use essentials_calls.Database.Store.{
  Actor, TopologyState, PbxDatabase, Result, ok, err, unless_ok, ok_injective,
}
use essentials_calls.Database.Deployments.{has_revision, mark_deployment_active}
use essentials_calls.Deployment.Configs.{are_valid}
use essentials_calls.Deployment.Health.{Fault, runtime_health}
use essentials_calls.Deployment.Staging.{
  StagedConfig, World, Staged, staged, unstaged, stage_generated_configs, switch_current,
  validate_staged_with_asterisk,
}
use essentials_calls.Deployment.Run.{
  Calls, Progress, target_of, stage, activate, mark_good, mark_revision, attempt, begin,
}
use essentials_calls.Deployment.Chain.{
  EndsIn, >=>_ends, calling_ends, test_ends, stage_generated_configs-IsStaged,
}

-- A deployment that succeeded: the new version, whose files are valid, is what the link leads to,
-- what the last good link leads to and what the PBX runs; the answers of the PBX were good, and the
-- revision is the active and the last good one.
pub record IsDeployed (calls : Calls) (t : Topology) (id : String) (revision : ℕ) (w' : World)
    : Type 0 where
  pub version : StagedConfig
  pub valid : are_valid version.configs ≡ true
  pub target : version.target ≡ "versions/" <> id
  pub current : w'.current ≡ some version.target
  pub last_good_link : w'.last_good ≡ some version.target
  pub running : w'.running ≡ some version.target
  pub healthy : runtime_health calls.health t (some id) ≡ none
  pub preflight : validate_staged_with_asterisk calls.preflight ≡ none
  pub active : w'.database.state.active ≡ some revision
  pub last_good : w'.database.state.last_good ≡ some revision

-- A version was staged, and its files are valid.
pub record HasVersion (id : String) (o : Option StagedConfig) : Type 0 where
  pub version : StagedConfig
  pub is : o ≡ some version
  pub valid : are_valid version.configs ≡ true
  pub target : version.target ≡ "versions/" <> id

marked :
    (r : ℕ) (d d' : PbxDatabase)
    → mark_deployment_active r d ≡ ok d'
    → (d'.state.active ≡ some r) × (d'.state.last_good ≡ some r)
unfolding mark_deployment_active
marked r d d' h =
    let (_, e) = unless_ok (not (has_revision r d)) _ _ d' h in
    (
      ap (λ (x : PbxDatabase). x.state.active) (sym (ok_injective _ _ e)),
      ap (λ (x : PbxDatabase). x.state.last_good) (sym (ok_injective _ _ e)),
    )

module _ (md5 sha256 : String → String) (message : Fault → String) (now : String) (calls : Calls)
    (t : Topology) (revision : ℕ) (actor : Actor) (id : String) where
  -- The steps of the attempt, each with what the ones before it have done.
  abbrev pub Tested : Progress → Type 0
  Tested p = HasVersion id p.version × (validate_staged_with_asterisk calls.preflight ≡ none)

  abbrev pub Switched : Progress → Type 0
  Switched p = Tested p × (p.world.current ≡ target_of p.version)

  abbrev pub Reloaded : Progress → Type 0
  Reloaded p = Switched p × (p.world.running ≡ target_of p.version)

  abbrev pub Healthy : Progress → Type 0
  Healthy p = Reloaded p × (runtime_health calls.health t (some id) ≡ none)

  abbrev pub Linked : Progress → Type 0
  Linked p = Healthy p × (p.world.last_good ≡ target_of p.version)

  abbrev pub IsActive : Progress → Type 0
  IsActive p =
      Linked p
      × (p.world.database.state.active ≡ some revision)
      × (p.world.database.state.last_good ≡ some revision)

  abbrev Any : Progress → Type 0
  Any p = Unit

  stage-HasVersion :
      (w : World) (r : Staged)
      → stage_generated_configs md5 sha256 t id calls.test_failure calls.write w ≡ r
      → EndsIn Any (λ p. HasVersion id p.version) (stage (begin w) r)
  unfolding stage
  stage-HasVersion w (unstaged f) e = tt
  stage-HasVersion w (staged v w') e =
      let s =
        stage_generated_configs-IsStaged md5 sha256 t id calls.test_failure calls.write w w' v e in
      record { version = v; is = refl; valid = s.valid; target = s.target }

  mark-IsActive :
      (p : Progress) (r : Result PbxDatabase)
      → mark_deployment_active revision p.world.database ≡ r
      → Linked p
      → EndsIn Any IsActive (mark_revision p r)
  unfolding mark_revision
  mark-IsActive p (err e) h l = tt
  mark-IsActive p (ok d) h l =
      let (active, last_good) = marked revision p.world.database d h in (l, active, last_good)

  pub attempt-IsActive :
      (w : World)
      → EndsIn Any IsActive (attempt md5 sha256 message now calls t revision actor id (begin w))
  unfolding attempt activate switch_current mark_good
  attempt-IsActive w =
      let V = λ (p : Progress). HasVersion id p.version in
      >=>_ends Any Linked IsActive _ _
        (>=>_ends Any Healthy Linked _ _
          (>=>_ends Any Reloaded Healthy _ _
            (>=>_ends Any Switched Reloaded _ _
              (>=>_ends Any Tested Switched _ _
                (>=>_ends Any Tested Tested _ _
                  (>=>_ends Any Tested Tested _ _
                    (>=>_ends Any Tested Tested _ _
                      (>=>_ends Any V Tested _ _ (stage-HasVersion w _ refl)
                        (λ p h. test_ends Any Tested _ p tt (λ e. (h, e))))
                      (λ p h. calling_ends Any Tested _ _ p tt h))
                    (λ p h. calling_ends Any Tested _ _ p tt h))
                  (λ p h. calling_ends Any Tested _ _ p tt h))
                (λ p h. calling_ends Any Switched _ _ p tt (h, refl)))
              (λ p h. calling_ends Any Reloaded _ _ p tt (h, h.1)))
            (λ p h. test_ends Any Healthy _ p tt (λ e. (h, e))))
          (λ p h. calling_ends Any Linked _ _ p tt (h, refl)))
        (λ p h. mark-IsActive p _ refl h)

  -- The world of an attempt that did all of it.
  pub active-IsDeployed :
      (p : Progress)
      → IsActive p
      → (w' : World) → w'.current ≡ p.world.current
      → w'.last_good ≡ p.world.last_good
      → w'.running ≡ p.world.running
      → w'.database.state ≡ p.world.database.state
      → IsDeployed calls t id revision w'
  active-IsDeployed p ((((((has, pre), current), running), healthy), link), active, last_good) w' c
        l r s =
      let it : target_of p.version ≡ some has.version.target = ap target_of has.is in
      record {
        version = has.version;
        valid = has.valid;
        target = has.target;
        current = c ∙ current ∙ it;
        last_good_link = l ∙ link ∙ it;
        running = r ∙ running ∙ it;
        healthy = healthy;
        preflight = pre;
        active = ap (λ (x : TopologyState). x.active) s ∙ active;
        last_good = ap (λ (x : TopologyState). x.last_good) s ∙ last_good;
      }
