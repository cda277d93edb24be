-- ===== src/Database/Invariant/Reachable.antt =====
-- The tables that a server reaches: the first revision, then one operation after another.
use essentials_calls.Base.{
  ℕ, String, ◌≡◌, refl, subst, Bool, true, not, Option, none, some, [], arith,
}
use essentials_calls.Base.Entries.{is_some}
use essentials_calls.Json.{Fields}
use essentials_calls.Model.{PbxNode, Topology}
use essentials_calls.Security.Cipher.{SecretCipher}
use essentials_calls.Database.Store.{
  Role, Actor, UserRecord, PbxDatabase, ok, >>=_ok, unless_ok, ok_injective, audit,
}
use essentials_calls.Database.Secrets.{prepare_secrets}
use essentials_calls.Database.Revisions.{StoredTopology, save_topology, insert_revision}
use essentials_calls.Database.Edits.{update_sip_secret, rollback_topology, replace_sound_reference}
use essentials_calls.Database.Deployments.{
  mark_deployment_active, create_deployment, finish_deployment,
}
use essentials_calls.Database.Initial.{empty_tables, insert_initial_topology}
use essentials_calls.Database.Users.{
  UserPatch, create_user, update_user, insert_user, write_user, user_by_id,
}
use essentials_calls.Database.Sessions.{
  SessionRecord, create_session, session, session_result, delete_session, find_session,
}
use essentials_calls.Database.Logins.{record_login_failure, clear_login_failures}
use essentials_calls.Database.Rotation.{rotate_secrets, rotate_rows}
use essentials_calls.Database.Invariant.{IsSound}
use essentials_calls.Database.Invariant.Admins.{updated, created}
use essentials_calls.Database.Invariant.Saves.{
  prepare_secrets-clean, save_topology-IsSound, update_sip_secret-IsSound,
  rollback_topology-IsSound, replace_sound_reference-IsSound,
}
use essentials_calls.Database.Invariant.Deployments.{
  mark_deployment_active-IsSound, create_deployment-IsSound, finish_deployment-IsSound,
}

module _ (same : PbxNode → PbxNode → Bool) where
  -- One operation that succeeds, at some time and with some random bytes.
  pub data Step : PbxDatabase → PbxDatabase → Type 0 where
    save :
        {d d' : PbxDatabase} (iv : String → String) (now : String) (t : Topology) (expected : ℕ)
        (actor : Actor) (comment source : String) (allow : Bool) (r : StoredTopology)
        → save_topology same iv now t expected actor comment source allow d ≡ ok (r, d')
        → Step d d'
    change_secret :
        {d d' : PbxDatabase} (iv : String → String) (now id plaintext : String) (expected : ℕ)
        (actor : Actor) (r : StoredTopology)
        → update_sip_secret same iv now id plaintext expected actor d ≡ ok (r, d')
        → Step d d'
    rollback :
        {d d' : PbxDatabase} (iv : String → String) (now : String) (target expected : ℕ)
        (actor : Actor) (comment : Option String) (r : StoredTopology)
        → rollback_topology same iv now target expected actor comment d ≡ ok (r, d')
        → Step d d'
    replace_sound :
        {d d' : PbxDatabase} (iv : String → String) (now old new : String) (expected : ℕ)
        (actor : Actor) (r : StoredTopology)
        → replace_sound_reference same iv now old new expected actor d ≡ ok (r, d')
        → Step d d'
    activate :
        {d d' : PbxDatabase} (revision : ℕ) → mark_deployment_active revision d ≡ ok d' → Step d d'
    start_deployment :
        {d d' : PbxDatabase} (now id : String) (revision : ℕ) (actor : Actor)
        → create_deployment now id revision actor d ≡ ok d'
        → Step d d'
    end_deployment :
        {d : PbxDatabase} (now id result : String) (checksum : Option String) (details : Fields)
        → Step d (finish_deployment now id result checksum details d)
    add_user :
        {d d' : PbxDatabase} (now id name hash : String) (role : Role) (actor : Actor)
        (u : UserRecord)
        → create_user now id name hash role actor d ≡ ok (u, d')
        → Step d d'
    change_user :
        {d d' : PbxDatabase} (now id : String) (patch : UserPatch) (actor : Actor) (u : UserRecord)
        → update_user now id patch actor d ≡ ok (u, d')
        → Step d d'
    log_in :
        {d d' : PbxDatabase} (id token csrf : String) (created expires : ℕ)
        → create_session id token csrf created expires d ≡ ok d'
        → Step d d'
    request :
        {d d' : PbxDatabase} (token : String) (now : ℕ) (r : Option SessionRecord)
        → session token now d ≡ (r, d')
        → Step d d'
    log_out : {d : PbxDatabase} (token : String) → Step d (delete_session token d)
    fail : {d : PbxDatabase} (key : String) (now : ℕ) → Step d (record_login_failure key now d)
    forgive : {d : PbxDatabase} (key : String) → Step d (clear_login_failures key d)
    log :
        {d : PbxDatabase} (now : String) (actor : Actor) (action target outcome : String)
        (details : Fields)
        → Step d (audit now actor action target outcome details d)
    rotate :
        {d d' : PbxDatabase} (old new : SecretCipher) (iv : String → String) (now : String)
        (actor : Actor) (n : ℕ)
        → rotate_secrets old new iv now actor d ≡ ok (n, d')
        → Step d d'

  pub data Reachable : PbxDatabase → Type 0 where
    first :
        {d : PbxDatabase} (cipher : SecretCipher) (limit : ℕ) (iv : String → String) (now : String)
        (t : Topology) (source : String)
        → insert_initial_topology same iv now t source (empty_tables cipher limit) ≡ ok d
        → Reachable d
    next : {d d' : PbxDatabase} → Reachable d → Step d d' → Reachable d'

initial-IsSound :
    (same : PbxNode → PbxNode → Bool) (cipher : SecretCipher) (limit : ℕ) (iv : String → String)
    (now : String) (t : Topology) (source : String) (d : PbxDatabase)
    → insert_initial_topology same iv now t source (empty_tables cipher limit) ≡ ok d
    → IsSound d
unfolding insert_initial_topology insert_revision audit
initial-IsSound same cipher limit iv now t source d h =
    let (p, prepared, e) = >>=_ok (prepare_secrets cipher iv true t []) _ d h in
    subst IsSound (ok_injective _ _ e) (record {
      positive = omega arith;
      numbered = ((omega arith, omega arith), tt);
      descending = (tt, tt);
      clean = (prepare_secrets-clean cipher iv true t [] p prepared, tt);
      current = refl;
      active = refl;
      last_good = refl;
      deployed = tt;
    })

-- The operations on accounts leave the revisions and the deployments alone.
update_user-IsSound :
    (now id : String) (patch : UserPatch) (actor : Actor) (d : PbxDatabase)
    (out : UserRecord × PbxDatabase)
    → update_user now id patch actor d ≡ ok out
    → IsSound d
    → IsSound out.1
unfolding update_user write_user audit
update_user-IsSound now id patch actor d out h sound =
    let (u, _, _, _, e) = updated now id patch actor d (user_by_id id d) out h in
    subst (λ (o : UserRecord × PbxDatabase). IsSound o.1) e sound

create_user-IsSound :
    (now id name hash : String) (role : Role) (actor : Actor) (d : PbxDatabase)
    (out : UserRecord × PbxDatabase)
    → create_user now id name hash role actor d ≡ ok out
    → IsSound d
    → IsSound out.1
unfolding insert_user audit
create_user-IsSound now id name hash role actor d out h sound =
    let (_, e) = created now id name hash role actor d out h in
    subst (λ (o : UserRecord × PbxDatabase). IsSound o.1) e sound

create_session-IsSound :
    (id token csrf : String) (created expires : ℕ) (d d' : PbxDatabase)
    → create_session id token csrf created expires d ≡ ok d'
    → IsSound d
    → IsSound d'
unfolding create_session
create_session-IsSound id token csrf created expires d d' h sound =
    let (_, h₁) = unless_ok (not (is_some (user_by_id id d))) _ _ d' h in
    let (_, h₂) = unless_ok (is_some (find_session token d.sessions)) _ _ d' h₁ in
    subst IsSound (ok_injective _ _ h₂) sound

session_result-IsSound :
    (now : ℕ) (token : String) (d : PbxDatabase) (r : Option SessionRecord)
    → IsSound d
    → IsSound (session_result now token d r).1
unfolding session_result
session_result-IsSound now token d none sound = sound
session_result-IsSound now token d (some r) sound = sound

rotate_secrets-IsSound :
    (old new : SecretCipher) (iv : String → String) (now : String) (actor : Actor) (d : PbxDatabase)
    (out : ℕ × PbxDatabase)
    → rotate_secrets old new iv now actor d ≡ ok out
    → IsSound d
    → IsSound out.1
unfolding rotate_secrets audit
rotate_secrets-IsSound old new iv now actor d out h sound =
    let (s, _, e) = >>=_ok (rotate_rows old new iv d.sip_secrets) _ out h in
    subst (λ (o : ℕ × PbxDatabase). IsSound o.1) (ok_injective _ _ e) sound

module _ (same : PbxNode → PbxNode → Bool) where
  step-IsSound : {d d' : PbxDatabase} → Step same d d' → IsSound d → IsSound d'
  unfolding finish_deployment session delete_session record_login_failure clear_login_failures audit
  step-IsSound {d} (Step.save iv now t expected actor comment source allow r h) s =
      save_topology-IsSound same iv now t expected actor comment source allow d _ h s
  step-IsSound {d} (Step.change_secret iv now id plaintext expected actor r h) s =
      update_sip_secret-IsSound same iv now id plaintext expected actor d _ h s
  step-IsSound {d} (Step.rollback iv now target expected actor comment r h) s =
      rollback_topology-IsSound same iv now target expected actor comment d _ h s
  step-IsSound {d} (Step.replace_sound iv now old new expected actor r h) s =
      replace_sound_reference-IsSound same iv now old new expected actor d _ h s
  step-IsSound {d} {d'} (Step.activate revision h) s =
      mark_deployment_active-IsSound revision d d' h s
  step-IsSound {d} {d'} (Step.start_deployment now id revision actor h) s =
      create_deployment-IsSound now id revision actor d d' h s
  step-IsSound {d} (Step.end_deployment now id result checksum details) s =
      finish_deployment-IsSound now id result checksum details d s
  step-IsSound {d} (Step.add_user now id name hash role actor u h) s =
      create_user-IsSound now id name hash role actor d _ h s
  step-IsSound {d} (Step.change_user now id patch actor u h) s =
      update_user-IsSound now id patch actor d _ h s
  step-IsSound {d} {d'} (Step.log_in id token csrf created expires h) s =
      create_session-IsSound id token csrf created expires d d' h s
  step-IsSound {d} (Step.request token now r h) s =
      subst (λ (o : Option SessionRecord × PbxDatabase). IsSound o.1) h
        (session_result-IsSound now token _ _ s)
  step-IsSound (Step.log_out token) s = s
  step-IsSound (Step.fail key now) s = s
  step-IsSound (Step.forgive key) s = s
  step-IsSound (Step.log now actor action target outcome details) s = s
  step-IsSound {d} (Step.rotate old new iv now actor n h) s =
      rotate_secrets-IsSound old new iv now actor d _ h s

  -- Whatever operations succeed after the first revision, the revisions are numbered downwards from
  -- the newest, the current, the active and the last good revision and that of each deployment
  -- exist, and no stored topology has a plaintext secret.
  pub Reachable-IsSound : {d : PbxDatabase} → Reachable same d → IsSound d
  Reachable-IsSound {d} (Reachable.first cipher limit iv now t source h) =
      initial-IsSound same cipher limit iv now t source d h
  Reachable-IsSound (Reachable.next before step) = step-IsSound step (Reachable-IsSound before)
