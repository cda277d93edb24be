-- ===== src/Deployment/Transition.antt =====
-- The active version before and behind `deployTopology`.
use essentials_calls.Base.{
  ℕ, String, ◌≡◌, refl, sym, ap, ◌∙◌, subst, Bool, true, false, ◌⊎◌, inl, inr, Option, none, some,
  if_split,
}
use essentials_calls.Model.{Topology}
use essentials_calls.Database.Store.{
  Actor, PbxDatabase, Result, ok, err, unless_ok, ok_injective, audit,
}
use essentials_calls.Database.Deployments.{create_deployment, finish_deployment}
use essentials_calls.Deployment.Health.{Fault}
use essentials_calls.Deployment.Staging.{
  World, Staged, staged, unstaged, stage_generated_configs, switch_current,
}
use essentials_calls.Deployment.Run.{
  Calls, Progress, Attempt, DeployResult, stage, activate, mark_good, mark_revision, attempt,
  back_health, probe_previous, back, roll_back, close, succeeded, give_up, after_roll_back,
  failed_attempt, conclude, begin, deploy_created, deploy_topology,
}
use essentials_calls.Deployment.Success.{IsDeployed, IsActive, attempt-IsActive, active-IsDeployed}
use essentials_calls.Deployment.Chain.{
  EndsIn, >=>_ends, calling_ends, test_ends, stage_generated_configs-IsStaged,
}

-- A deployment that failed: the database names the same revisions as before, and where no error of
-- the way back is reported, the link leads where it led, and the PBX runs what it ran or what the
-- link leads to.
pub record IsKept (w w' : World) (problem : Option Fault) : Type 0 where
  pub state : w'.database.state ≡ w.database.state
  pub current : problem ≡ none → w'.current ≡ w.current
  pub running : problem ≡ none → (w'.running ≡ w.running) ⊎ (w'.running ≡ w.current)

-- Before the activation nothing is touched; behind it the previous target is known.
record IsUntouched (w : World) (p : Progress) : Type 0 where
  pub inactive : p.activated ≡ false
  pub state : p.world.database.state ≡ w.database.state
  pub current : p.world.current ≡ w.current
  pub running : p.world.running ≡ w.running

record IsActivated (w : World) (p : Progress) : Type 0 where
  pub active : p.activated ≡ true
  pub state : p.world.database.state ≡ w.database.state
  pub previous : p.previous ≡ w.current

abbrev IsOnTheWay : World → Progress → Type 0
IsOnTheWay w p = IsUntouched w p ⊎ IsActivated w p

created_state :
    (now id : String) (r : ℕ) (actor : Actor) (d d' : PbxDatabase)
    → create_deployment now id r actor d ≡ ok d'
    → d'.state ≡ d.state
unfolding create_deployment
created_state now id r actor d d' h =
    let (_, e) = unless_ok _ _ _ d' h in
    ap (λ (x : PbxDatabase). x.state) (sym (ok_injective _ _ e))

module _ (md5 sha256 : String → String) (message : Fault → String) (now : String) (calls : Calls)
    (t : Topology) (revision : ℕ) (actor : Actor) (id : String) where
  stage-IsUntouched :
      (w : World) (r : Staged)
      → stage_generated_configs md5 sha256 t id calls.test_failure calls.write w ≡ r
      → EndsIn (IsOnTheWay w) (IsUntouched w) (stage (begin w) r)
  unfolding stage
  stage-IsUntouched w (unstaged f) e =
      inl (record { inactive = refl; state = refl; current = refl; running = refl })
  stage-IsUntouched w (staged v w') e =
      let s =
        stage_generated_configs-IsStaged md5 sha256 t id calls.test_failure calls.write w w' v e in
      record {
        inactive = refl;
        state = ap (λ (x : World). x.database.state) s.world;
        current = ap (λ (x : World). x.current) s.world;
        running = ap (λ (x : World). x.running) s.world;
      }

  activate-IsActivated : (w : World) (p : Progress) → IsUntouched w p → IsActivated w (activate p)
  unfolding activate switch_current
  activate-IsActivated w p h = record { active = refl; state = h.state; previous = h.current }

  mark-fault :
      (w : World) (p : Progress) (r : Result PbxDatabase)
      → IsActivated w p
      → EndsIn (IsOnTheWay w) (λ q. Unit) (mark_revision p r)
  unfolding mark_revision
  mark-fault w p (err e) h = inr h
  mark-fault w p (ok d) h = tt

  -- An attempt that ends with a fault leaves the database, and knows the way back.
  attempt-IsOnTheWay :
      (w : World)
      → EndsIn
          (IsOnTheWay w)
          (λ q. Unit)
          (attempt md5 sha256 message now calls t revision actor id (begin w))
  unfolding attempt mark_good
  attempt-IsOnTheWay w =
      let F = IsOnTheWay w in
      let P = IsUntouched w in
      let Q = IsActivated w in
      >=>_ends F Q (λ q. Unit) _ _
        (>=>_ends F Q Q _ _
          (>=>_ends F Q Q _ _
            (>=>_ends F Q Q _ _
              (>=>_ends F P Q _ _
                (>=>_ends F P P _ _
                  (>=>_ends F P P _ _
                    (>=>_ends F P P _ _
                      (>=>_ends F P P _ _ (stage-IsUntouched w _ refl)
                        (λ p h. test_ends F P _ p (inl h) (λ _. h)))
                      (λ p h. calling_ends F P _ _ p (inl h) h))
                    (λ p h. calling_ends F P _ _ p (inl h) h))
                  (λ p h. calling_ends F P _ _ p (inl h) h))
                (λ p h. calling_ends F Q _ _ p (inl h) (activate-IsActivated w p h)))
              (λ p h.
                calling_ends F Q _ _ p (inr h)
                  (record { active = h.active; state = h.state; previous = h.previous })))
            (λ p h. test_ends F Q _ p (inr h) (λ _. h)))
          (λ p h.
            calling_ends F Q _ _ p (inr h)
              (record { active = h.active; state = h.state; previous = h.previous })))
        (λ p h. mark-fault w p _ h)

  -- Probing changes nothing.
  back_health-ends :
      (F Q : Progress → Type 0) (target : String) (p : Progress) (r : Result Topology)
      → F p
      → Q p
      → EndsIn F Q (back_health md5 sha256 message now calls t revision actor id target p r)
  unfolding back_health
  back_health-ends F Q target p (ok previous) h g = test_ends F Q _ p h (λ _. g)
  back_health-ends F Q target p (err e) h g = h

  probe_previous-ends :
      (F Q : Progress → Type 0) (target : Option String) (p : Progress)
      → F p
      → Q p
      → EndsIn F Q (probe_previous md5 sha256 message now calls t revision actor id target p)
  unfolding probe_previous
  probe_previous-ends F Q none p h g = g
  probe_previous-ends F Q (some target) p h g = back_health-ends F Q target p _ h g

  -- The database names the revisions that it named.
  abbrev HasState : World → Progress → Type 0
  HasState w q = q.world.database.state ≡ w.database.state

  abbrev IsBack : World → Progress → Type 0
  IsBack w q = HasState w q × (q.world.current ≡ w.current) × (q.world.running ≡ w.current)

  roll_back-IsBack :
      (w : World) (p : Progress)
      → IsActivated w p
      → EndsIn
          (HasState w)
          (IsBack w)
          (roll_back md5 sha256 message now calls t revision actor id p)
  unfolding roll_back back switch_current
  roll_back-IsBack w p h =
      let F = HasState w in
      let P = λ (q : Progress). HasState w q × (q.world.current ≡ w.current) in
      >=>_ends F (IsBack w) (IsBack w) _ _
        (>=>_ends F P (IsBack w) _ _
          (>=>_ends F P P _ _
            (calling_ends F P calls.back_switch back p h.state (h.state, h.previous))
            (λ q g. calling_ends F P _ _ q g.0 g))
          (λ q g. calling_ends F (IsBack w) _ _ q g.0 (g.0, g.1, g.1)))
        (λ q g. probe_previous-ends F (IsBack w) p.previous q g.0 g)

  -- The abstract step that a deployment takes: to the new version, or nowhere.
  abbrev Moves : World → DeployResult × World → Type 0
  Moves w out =
      (out.0.deployed ≡ true → IsDeployed calls t id revision out.1)
      × (out.0.deployed ≡ false → IsKept w out.1 out.0.rollback_error)

  give_up-Moves :
      (w : World) (fault : Fault) (p : Progress) (rolled : Bool) (problem : Option Fault)
      (w' : World)
      → IsKept w w' problem
      → Moves w (give_up md5 sha256 message now calls t revision actor id fault p rolled problem w')
  unfolding give_up close audit finish_deployment
  give_up-Moves w fault p rolled problem w' h =
      (λ e. cc e, λ _. record { state = h.state; current = h.current; running = h.running })

  after_roll_back-Moves :
      (w : World) (fault : Fault) (p : Progress) (a : Attempt)
      → EndsIn (HasState w) (IsBack w) a
      → Moves w (after_roll_back md5 sha256 message now calls t revision actor id fault p a)
  unfolding after_roll_back
  after_roll_back-Moves w fault p (none, q) (state, current, running) =
      give_up-Moves w fault p true none q.world
        (record { state = state; current = λ _. current; running = λ _. inr running })
  after_roll_back-Moves w fault p (some problem, q) state =
      give_up-Moves w fault p false (some problem) q.world
        (record { state = state; current = λ e. cc e; running = λ e. cc e })

  failed_attempt-Moves :
      (w : World) (fault : Fault) (p : Progress)
      → IsOnTheWay w p
      → Moves w (failed_attempt md5 sha256 message now calls t revision actor id fault p)
  unfolding failed_attempt
  failed_attempt-Moves w fault p (inl h) =
      if_split (Moves w) p.activated _ _ (λ on. cc (on, h.inactive))
        (λ _.
          give_up-Moves w fault p false none p.world
            (record { state = h.state; current = λ _. h.current; running = λ _. inl h.running }))
  failed_attempt-Moves w fault p (inr h) =
      if_split (Moves w) p.activated _ _
        (λ _.
          after_roll_back-Moves w fault p
            (roll_back md5 sha256 message now calls t revision actor id p) (roll_back-IsBack w p h))
        (λ off. cc (off, h.active))

  conclude-Moves :
      (w : World) (a : Attempt)
      → EndsIn (IsOnTheWay w) (λ q. Unit) a
      → EndsIn (λ q. Unit) (IsActive md5 sha256 message now calls t revision actor id) a
      → Moves w (conclude md5 sha256 message now calls t revision actor id a)
  unfolding conclude succeeded close audit finish_deployment
  conclude-Moves w (none, p) f g = (
    λ _.
        active-IsDeployed md5 sha256 message now calls t revision actor id p g _ refl refl refl
          refl,
    λ e. cc e,
  )
  conclude-Moves w (some fault, p) f g = failed_attempt-Moves w fault p f

  kept_from :
      (w w₁ : World) (out : DeployResult × World)
      → w₁.database.state ≡ w.database.state
      → w₁.current ≡ w.current
      → w₁.running ≡ w.running
      → Moves w₁ out
      → Moves w out
  kept_from w w₁ out s c r h = (
    h.0,
    λ e.
        let k = h.1 e in
        record {
          state = k.state ∙ s;
          current = λ n. k.current n ∙ c;
          running = λ n. elim (k.running n) [ inl x ↦ inl (x ∙ r) | inr x ↦ inr (x ∙ c) ];
        },
  )

  -- A deployment that the database takes up ends in one of two ways. Either it is reported as
  -- deployed: then the link, the last good link and the PBX are at the new version, whose files are
  -- valid, the PBX answered well, and the revision is the active and the last good one. Or it is
  -- not: then the database names the revisions that it named, and where no error of the way back is
  -- reported, the link leads where it led.
  pub deploy_topology-Moves :
      (w : World) (out : DeployResult × World)
      → deploy_topology md5 sha256 message now calls t revision actor id w ≡ ok out
      → Moves w out
  unfolding deploy_topology
  deploy_topology-Moves w out h =
      created (create_deployment now id revision actor w.database) refl h
    where
      created :
          (r : Result PbxDatabase)
          → create_deployment now id revision actor w.database ≡ r
          → deploy_created md5 sha256 message now calls t revision actor id w r ≡ ok out
          → Moves w out
      created (err e) q h = cc h
      created (ok d) q h =
          let w₁ : World = record w { database = d } in
          kept_from w w₁ out (created_state now id revision actor w.database d q) refl refl (
            subst (Moves w₁) (ok_injective _ _ h) (
              conclude-Moves w₁
                (attempt md5 sha256 message now calls t revision actor id (begin w₁))
                (attempt-IsOnTheWay w₁)
                (attempt-IsActive md5 sha256 message now calls t revision actor id w₁)))
