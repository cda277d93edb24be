-- ===== src/Database/Invariant/Saves.antt =====
-- The invariant and the operations on revisions: `saveTopology` and the edits that call it.
use essentials_calls.Base.{
  ℕ, suc, ◌<◌, String, ◌≡◌, refl, sym, ap, ◌∙◌, subst, Bool, true, false, not, Option, none, some,
  List, ◌∷◌, nat_eq, arith,
}
use essentials_calls.Documents.{has_plaintext_sip_secrets}
use essentials_calls.Documents.Redaction.{has_plaintext-redact}
use essentials_calls.Json.{Fields}
use essentials_calls.Model.{PbxNode, Topology}
use essentials_calls.Security.Cipher.{SecretCipher}
use essentials_calls.Database.Store.{
  Actor, RevisionRow, DeploymentRow, PbxDatabase, ok, >>=_ok, ok_injective, unless_ok, audit,
}
use essentials_calls.Database.Secrets.{Secrets, prepare_secrets, prepare_nodes}
use essentials_calls.Database.Summary.{topology_summary}
use essentials_calls.Database.Revisions.{
  StoredTopology, stored, topology_at, insert_revision, insert_logged, write_revision,
  save_topology,
}
use essentials_calls.Database.Edits.{update_sip_secret, rollback_topology, replace_sound_reference}
use essentials_calls.Database.Edits.Keeps.{
  update_sip_secret_keeps, rollback_topology_keeps, replace_sound_reference_keeps,
}
use essentials_calls.Database.Invariant.{
  holds_revision, holds_optional, IsNumbered, IsSound, All-weaken, prune_revisions-IsSound,
}

-- A new row takes nothing away.
holds_later :
    (k : ℕ) (row : RevisionRow) (rows : List RevisionRow)
    → holds_revision k rows ≡ true
    → holds_revision k (row ∷ rows) ≡ true
holds_later k row rows h = ground arith

holds_optional_later :
    (o : Option ℕ) (row : RevisionRow) (rows : List RevisionRow)
    → holds_optional o rows ≡ true
    → holds_optional o (row ∷ rows) ≡ true
holds_optional_later none row rows h = refl
holds_optional_later (some k) row rows h = holds_later k row rows h

nat_eq_refl : (n : ℕ) → nat_eq n n ≡ true
nat_eq_refl n = ground arith

holds_new :
    (row : RevisionRow) (rows : List RevisionRow) → holds_revision row.revision (row ∷ rows) ≡ true
holds_new row rows = rw (nat_eq_refl row.revision) refl

pub insert_revision-IsSound :
    (now : String) (actor : Actor) (comment summary source : String) (t : Topology)
    (d : PbxDatabase)
    → has_plaintext_sip_secrets t ≡ false
    → IsSound d
    → IsSound (insert_revision now actor comment summary source t d)
unfolding insert_revision
insert_revision-IsSound now actor comment summary source t d clean h =
    let row : RevisionRow = record {
      revision = d.next_revision;
      topology = t;
      actor_id = actor.id;
      actor_name = actor.username;
      comment = comment;
      change_summary = summary;
      source = source;
      created_at = now;
    } in
    record {
      positive = omega (arith, h.positive);
      numbered = (
        (h.positive, omega arith),
        All-weaken (IsNumbered d.next_revision) (IsNumbered (suc d.next_revision)) d.revisions
            (λ (x : RevisionRow) p. (p.0, omega (arith, p.1))) h.numbered,
      );
      descending = (
        All-weaken (IsNumbered d.next_revision) (λ (x : RevisionRow). x.revision < d.next_revision)
            d.revisions (λ x p. p.1) h.numbered,
        h.descending,
      );
      clean = (clean, h.clean);
      current = holds_new row d.revisions;
      active = holds_optional_later d.state.active row d.revisions h.active;
      last_good = holds_optional_later d.state.last_good row d.revisions h.last_good;
      deployed =
          All-weaken (λ (x : DeploymentRow). holds_revision x.revision d.revisions ≡ true)
            (λ (x : DeploymentRow). holds_revision x.revision (row ∷ d.revisions) ≡ true)
            d.deployments (λ x p. holds_later x.revision row d.revisions p) h.deployed;
    }

pub prepare_secrets-clean :
    (cipher : SecretCipher) (random_iv : String → String) (allow : Bool) (t : Topology)
    (s : Secrets) (out : Topology × Secrets)
    → prepare_secrets cipher random_iv allow t s ≡ ok out
    → has_plaintext_sip_secrets out.0 ≡ false
unfolding prepare_secrets
prepare_secrets-clean cipher random_iv allow t s out h =
    let (a, r, e) = >>=_ok (prepare_nodes cipher random_iv allow t.nodes s) _ out h in
    ap (λ (x : Topology × Secrets). has_plaintext_sip_secrets x.0) (sym (ok_injective _ _ e))
    ∙ has_plaintext-redact (record t { nodes = a.0 })

audit-IsSound :
    (now : String) (actor : Actor) (action target outcome : String) (details : Fields)
    (d : PbxDatabase)
    → IsSound d
    → IsSound (audit now actor action target outcome details d)
unfolding audit
audit-IsSound now actor action target outcome details d s = s

module _ (same : PbxNode → PbxNode → Bool) (random_iv : String → String) (now : String) where
  write_revision-IsSound :
      (expected : ℕ) (actor : Actor) (comment summary source : String) (t : Topology) (s : Secrets)
      (d : PbxDatabase)
      → has_plaintext_sip_secrets t ≡ false
      → IsSound d
      → IsSound (write_revision same random_iv now expected actor comment summary source t s d)
  unfolding write_revision insert_logged audit
  write_revision-IsSound expected actor comment summary source t s d clean h =
      prune_revisions-IsSound
        (insert_logged same random_iv now expected actor comment summary source t s d)
        (insert_revision-IsSound now actor _ summary source t (record d { sip_secrets = s }) clean
          h)

  -- A save that succeeds was given the current revision, and writes what it prepared.
  pub saved :
      (t : Topology) (expected : ℕ) (actor : Actor) (comment source : String) (allow : Bool)
      (d : PbxDatabase) (out : StoredTopology × PbxDatabase)
      → save_topology same random_iv now t expected actor comment source allow d ≡ ok out
      → (nat_eq d.state.current expected ≡ true)
        × (previous : Topology) × (p : Topology × Secrets) × (topology_at d.state.current d
            ≡ ok previous)
        × (prepare_secrets d.cipher random_iv allow t d.sip_secrets ≡ ok p)
        × ((
          stored p.0 d.next_revision d.state,
          write_revision same random_iv now expected actor comment
              (topology_summary same (some previous) p.0)
              source
              p.0
              p.1
              d,
        )
            ≡ out)
  unfolding save_topology
  saved t expected actor comment source allow d out h =
      let (fits, h₁) = unless_ok (not (nat_eq d.state.current expected)) _ _ out h in
      let (previous, at, h₂) = >>=_ok (topology_at d.state.current d) _ out h₁ in
      let (p, prepared, h₃) =
        >>=_ok (prepare_secrets d.cipher random_iv allow t d.sip_secrets) _ out h₂ in
      (ground arith, previous, p, at, prepared, ok_injective _ _ h₃)

  pub save_topology-IsSound :
      (t : Topology) (expected : ℕ) (actor : Actor) (comment source : String) (allow : Bool)
      (d : PbxDatabase) (out : StoredTopology × PbxDatabase)
      → save_topology same random_iv now t expected actor comment source allow d ≡ ok out
      → IsSound d
      → IsSound out.1
  save_topology-IsSound t expected actor comment source allow d out h sound =
      let (fits, previous, p, at, prepared, e) =
        saved t expected actor comment source allow d out h in
      subst (λ (o : StoredTopology × PbxDatabase). IsSound o.1) e
        (write_revision-IsSound expected actor comment _ source p.0 p.1 d
          (prepare_secrets-clean d.cipher random_iv allow t d.sip_secrets p prepared) sound)

  pub update_sip_secret-IsSound :
      (id plaintext : String) (expected : ℕ) (actor : Actor) (d : PbxDatabase)
      (out : StoredTopology × PbxDatabase)
      → update_sip_secret same random_iv now id plaintext expected actor d ≡ ok out
      → IsSound d
      → IsSound out.1
  update_sip_secret-IsSound id plaintext expected actor d out h s =
      update_sip_secret_keeps same random_iv now IsSound save_topology-IsSound (λ d x s. s)
        audit-IsSound id plaintext expected actor d out h s

  pub rollback_topology-IsSound :
      (target expected : ℕ) (actor : Actor) (comment : Option String) (d : PbxDatabase)
      (out : StoredTopology × PbxDatabase)
      → rollback_topology same random_iv now target expected actor comment d ≡ ok out
      → IsSound d
      → IsSound out.1
  rollback_topology-IsSound target expected actor comment d out h s =
      rollback_topology_keeps same random_iv now IsSound save_topology-IsSound (λ d x s. s)
        audit-IsSound target expected actor comment d out h s

  pub replace_sound_reference-IsSound :
      (old new : String) (expected : ℕ) (actor : Actor) (d : PbxDatabase)
      (out : StoredTopology × PbxDatabase)
      → replace_sound_reference same random_iv now old new expected actor d ≡ ok out
      → IsSound d
      → IsSound out.1
  replace_sound_reference-IsSound old new expected actor d out h s =
      replace_sound_reference_keeps same random_iv now IsSound save_topology-IsSound (λ d x s. s)
        audit-IsSound old new expected actor d out h s
