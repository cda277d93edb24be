-- ===== src/Database/Edits/Keeps.antt =====
-- What a save keeps of the tables, and writing a secret and logging keep too, the other edits keep.
use essentials_calls.Base.{ℕ, String, ◌≡◌, subst, Bool, false, Option, none, some, List}
use essentials_calls.Base.Texts.{◌<>◌}
use essentials_calls.Generator.Values.{show}
use essentials_calls.Json.{Fields}
use essentials_calls.Model.{PbxNode, Topology}
use essentials_calls.Database.Store.{
  Actor, PbxDatabase, Result, ok, ◌>>=◌, >>=_ok, ok_injective, unless_ok, audit,
}
use essentials_calls.Database.Secrets.{Secrets, put_secret}
use essentials_calls.Database.Revisions.{
  StoredTopology, topology_at, current_topology, save_topology,
}
use essentials_calls.Database.Edits.{
  with_marked, update_sip_secret, rollback_topology, replace_sound_reference,
}

module _ (same : PbxNode → PbxNode → Bool) (random_iv : String → String) (now : String)
    (Keeps : PbxDatabase → Type 0)
    (save : (t : Topology) (expected : ℕ) (actor : Actor) (comment source : String) (allow : Bool)
        (d : PbxDatabase) (out : StoredTopology × PbxDatabase)
      → save_topology same random_iv now t expected actor comment source allow d ≡ ok out
      → Keeps d
      → Keeps out.1)
    (secret : (d : PbxDatabase) (s : Secrets) → Keeps d → Keeps (record d { sip_secrets = s }))
    (log : (now : String) (actor : Actor) (action target outcome : String) (details : Fields)
        (d : PbxDatabase)
      → Keeps d
      → Keeps (audit now actor action target outcome details d)) where
  -- A result that keeps it, and a change of the tables behind it.
  after :
      (r : Result (StoredTopology × PbxDatabase)) (f : StoredTopology × PbxDatabase → PbxDatabase)
      (out : StoredTopology × PbxDatabase)
      → ((o : StoredTopology × PbxDatabase) → r ≡ ok o → Keeps (f o))
      → (r >>= λ o. ok (o.0, f o)) ≡ ok out
      → Keeps out.1
  after r f out keeps h =
      let (o, h₁, e) = >>=_ok r (λ o. ok (o.0, f o)) out h in
      subst (λ (x : StoredTopology × PbxDatabase). Keeps x.1) (ok_injective _ _ e) (keeps o h₁)

  with_marked_keeps :
      (m : Option (List PbxNode)) (id plaintext : String) (expected : ℕ) (actor : Actor)
      (t : Topology) (d : PbxDatabase) (out : StoredTopology × PbxDatabase)
      → with_marked same random_iv now m id plaintext expected actor t d ≡ ok out
      → Keeps d
      → Keeps out.1
  unfolding with_marked
  with_marked_keeps none id plaintext expected actor t d out h k = cc h
  with_marked_keeps (some ns) id plaintext expected actor t d out h k =
      let secrets = put_secret d.cipher random_iv id plaintext d.sip_secrets in
      after _ _ out
        (λ o e. log now actor "secret.change" ("extension:" <> id) "success" _ o.1 (
          save (record t { nodes = ns }) expected actor ("SIP credential changed for " <> id)
            "secret-change" false (record d { sip_secrets = secrets }) o e (secret d secrets k)))
        h

  pub update_sip_secret_keeps :
      (id plaintext : String) (expected : ℕ) (actor : Actor) (d : PbxDatabase)
      (out : StoredTopology × PbxDatabase)
      → update_sip_secret same random_iv now id plaintext expected actor d ≡ ok out
      → Keeps d
      → Keeps out.1
  unfolding update_sip_secret
  update_sip_secret_keeps id plaintext expected actor d out h k =
      let (_, h₁) = unless_ok _ _ _ out h in
      let (current, _, h₂) = >>=_ok (current_topology d) _ out h₁ in
      let (_, h₃) = unless_ok _ _ _ out h₂ in
      with_marked_keeps _ id plaintext expected actor current.topology d out h₃ k

  pub rollback_topology_keeps :
      (target expected : ℕ) (actor : Actor) (comment : Option String) (d : PbxDatabase)
      (out : StoredTopology × PbxDatabase)
      → rollback_topology same random_iv now target expected actor comment d ≡ ok out
      → Keeps d
      → Keeps out.1
  unfolding rollback_topology
  rollback_topology_keeps target expected actor comment d out h k =
      let (t, _, h₁) = >>=_ok (topology_at target d) _ out h in
      after _ _ out
        (λ o e.
          log now actor "topology.rollback" ("revision:" <> show target) "success" _ o.1
            (save t expected actor _ "rollback" false d o e k))
        h₁

  pub replace_sound_reference_keeps :
      (old new : String) (expected : ℕ) (actor : Actor) (d : PbxDatabase)
      (out : StoredTopology × PbxDatabase)
      → replace_sound_reference same random_iv now old new expected actor d ≡ ok out
      → Keeps d
      → Keeps out.1
  unfolding replace_sound_reference
  replace_sound_reference_keeps old new expected actor d out h k =
      let (current, _, h₁) = >>=_ok (current_topology d) _ out h in
      let (_, h₂) = unless_ok _ _ _ out h₁ in save _ expected actor _ _ false d out h₂ k
