-- ===== src/Database/Invariant/Accounts.antt =====
-- The active administrators over the steps of a server.
use essentials_calls.Base.{ℕ, String, ◌≡◌, refl, sym, ap, ◌∙◌, subst, Bool, Option, none, some}
use essentials_calls.Base.{not, ◌≤◌}
use essentials_calls.Base.Entries.{is_some}
use essentials_calls.Json.{Fields}
use essentials_calls.Model.{PbxNode, Topology}
use essentials_calls.Security.Cipher.{SecretCipher}
use essentials_calls.Database.Store.{Actor, PbxDatabase, ok, >>=_ok, unless_ok, ok_injective, audit}
use essentials_calls.Database.Revisions.{StoredTopology, save_topology}
use essentials_calls.Database.Revisions.Concurrency.{save_topology-IsWritten}
use essentials_calls.Database.Edits.Keeps.{
  update_sip_secret_keeps, rollback_topology_keeps, replace_sound_reference_keeps,
}
use essentials_calls.Database.Deployments.{
  has_revision, mark_deployment_active, create_deployment, finish_deployment,
}
use essentials_calls.Database.Users.{user_by_id, active_admins}
use essentials_calls.Database.Sessions.{
  SessionRecord, create_session, session, session_result, delete_session, find_session,
}
use essentials_calls.Database.Logins.{record_login_failure, clear_login_failures}
use essentials_calls.Database.Rotation.{rotate_secrets, rotate_rows}
use essentials_calls.Database.Invariant.Admins.{
  AreDistinct, HasAdmin, update_user-HasAdmin, create_user-HasAdmin,
}
use essentials_calls.Database.Invariant.Reachable.{Step}

same_users : (d d' : PbxDatabase) → d'.users ≡ d.users → HasAdmin d → HasAdmin d'
same_users d d' e h =
    (subst AreDistinct (sym e) h.0, subst (λ us. 1 ≤ active_admins us) (sym e) h.1)

audit-HasAdmin :
    (now : String) (actor : Actor) (action target outcome : String) (details : Fields)
    (d : PbxDatabase)
    → HasAdmin d
    → HasAdmin (audit now actor action target outcome details d)
unfolding audit
audit-HasAdmin now actor action target outcome details d h = h

save_topology-HasAdmin :
    (same : PbxNode → PbxNode → Bool) (iv : String → String) (now : String) (t : Topology)
    (expected : ℕ) (actor : Actor) (comment source : String) (allow : Bool) (d : PbxDatabase)
    (out : StoredTopology × PbxDatabase)
    → save_topology same iv now t expected actor comment source allow d ≡ ok out
    → HasAdmin d
    → HasAdmin out.1
save_topology-HasAdmin same iv now t expected actor comment source allow d out h a =
    let (_, _, _, _, w) =
      save_topology-IsWritten same iv now t expected actor comment source allow d out h in
    same_users d out.1 w.users a

session_result-users :
    (now : ℕ) (token : String) (d : PbxDatabase) (r : Option SessionRecord)
    → (session_result now token d r).1.users ≡ d.users
unfolding session_result
session_result-users now token d none = refl
session_result-users now token d (some r) = refl

create_session-users :
    (id token csrf : String) (created expires : ℕ) (d d' : PbxDatabase)
    → create_session id token csrf created expires d ≡ ok d'
    → d'.users ≡ d.users
unfolding create_session
create_session-users id token csrf created expires d d' h =
    let (_, h₁) = unless_ok (not (is_some (user_by_id id d))) _ _ d' h in
    let (_, h₂) = unless_ok (is_some (find_session token d.sessions)) _ _ d' h₁ in
    ap (λ (x : PbxDatabase). x.users) (sym (ok_injective _ _ h₂))

mark_deployment_active-users :
    (r : ℕ) (d d' : PbxDatabase) → mark_deployment_active r d ≡ ok d' → d'.users ≡ d.users
unfolding mark_deployment_active
mark_deployment_active-users r d d' h =
    let (_, e) = unless_ok (not (has_revision r d)) _ _ d' h in
    ap (λ (x : PbxDatabase). x.users) (sym (ok_injective _ _ e))

create_deployment-users :
    (now id : String) (r : ℕ) (actor : Actor) (d d' : PbxDatabase)
    → create_deployment now id r actor d ≡ ok d'
    → d'.users ≡ d.users
unfolding create_deployment
create_deployment-users now id r actor d d' h =
    let (_, e) = unless_ok _ _ _ d' h in
    ap (λ (x : PbxDatabase). x.users) (sym (ok_injective _ _ e))

rotate_secrets-users :
    (old new : SecretCipher) (iv : String → String) (now : String) (actor : Actor) (d : PbxDatabase)
    (out : ℕ × PbxDatabase)
    → rotate_secrets old new iv now actor d ≡ ok out
    → out.1.users ≡ d.users
unfolding rotate_secrets audit
rotate_secrets-users old new iv now actor d out h =
    let (s, _, e) = >>=_ok (rotate_rows old new iv d.sip_secrets) _ out h in
    ap (λ (x : ℕ × PbxDatabase). x.1.users) (sym (ok_injective _ _ e))

-- Once the accounts have distinct ids and an administrator who is not disabled, they keep both,
-- whichever operation succeeds.
pub step-HasAdmin :
    (same : PbxNode → PbxNode → Bool) (d d' : PbxDatabase)
    → Step same d d'
    → HasAdmin d
    → HasAdmin d'
unfolding finish_deployment session delete_session record_login_failure clear_login_failures audit
step-HasAdmin same d d' (Step.save iv now t expected actor comment source allow r h) a =
    save_topology-HasAdmin same iv now t expected actor comment source allow d _ h a
step-HasAdmin same d d' (Step.change_secret iv now id plaintext expected actor r h) a =
    update_sip_secret_keeps same iv now HasAdmin (save_topology-HasAdmin same iv now) (λ d x a. a)
      audit-HasAdmin id plaintext expected actor d _ h a
step-HasAdmin same d d' (Step.rollback iv now target expected actor comment r h) a =
    rollback_topology_keeps same iv now HasAdmin (save_topology-HasAdmin same iv now) (λ d x a. a)
      audit-HasAdmin target expected actor comment d _ h a
step-HasAdmin same d d' (Step.replace_sound iv now old new expected actor r h) a =
    replace_sound_reference_keeps same iv now HasAdmin (save_topology-HasAdmin same iv now)
      (λ d x a. a) audit-HasAdmin old new expected actor d _ h a
step-HasAdmin same d d' (Step.activate revision h) a =
    same_users d d' (mark_deployment_active-users revision d d' h) a
step-HasAdmin same d d' (Step.start_deployment now id revision actor h) a =
    same_users d d' (create_deployment-users now id revision actor d d' h) a
step-HasAdmin same d d' (Step.end_deployment now id result checksum details) a = a
step-HasAdmin same d d' (Step.add_user now id name hash role actor u h) a =
    create_user-HasAdmin now id name hash role actor d _ h a
step-HasAdmin same d d' (Step.change_user now id patch actor u h) a =
    update_user-HasAdmin now id patch actor d _ h a
step-HasAdmin same d d' (Step.log_in id token csrf created expires h) a =
    same_users d d' (create_session-users id token csrf created expires d d' h) a
step-HasAdmin same d d' (Step.request token now r h) a =
    same_users d d'
      (ap (λ (o : Option SessionRecord × PbxDatabase). o.1.users) (sym h)
        ∙ session_result-users now token _ _)
      a
step-HasAdmin same d d' (Step.log_out token) a = a
step-HasAdmin same d d' (Step.fail key now) a = a
step-HasAdmin same d d' (Step.forgive key) a = a
step-HasAdmin same d d' (Step.log now actor action target outcome details) a = a
step-HasAdmin same d d' (Step.rotate old new iv now actor n h) a =
    same_users d d' (rotate_secrets-users old new iv now actor d _ h) a
