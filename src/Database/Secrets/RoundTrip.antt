-- ===== src/Database/Secrets/RoundTrip.antt =====
-- From the passwords of a save to those of the generator: `saveTopology` and `materializedTopology`.
use essentials_calls.Base.{
  ℕ, String, ◌≡◌, ◌≢◌, refl, sym, ap, ap₂, ◌∙◌, subst, Bool, true, false, none, some, List, [], ◌∷◌,
  map, contains, ==_iff, ==_refl, arith,
}
use essentials_calls.Base.Entries.{lookup, set, is_some, lookup-set, lookup-set_other}
use essentials_calls.Documents.{redact_node, redact_topology}
use essentials_calls.Model.{ExtensionProperties, Properties, PbxNode, Topology}
use essentials_calls.Security.Cipher.{SecretCipher, RoundTrips}
use essentials_calls.Database.Store.{
  Actor, TopologyState, PbxDatabase, Result, ok, ◌>>=◌, >>=_ok, ok_injective,
}
use essentials_calls.Database.Secrets.{
  Secrets, with_properties, without_password, extension_ids, purge, prepare_node, prepare_nodes,
  prepare_secrets, fill_extension, fill_node, fill_nodes,
}
use essentials_calls.Database.Revisions.{
  StoredTopology, topology_at, selected_revision, materialized_topology, save_topology,
}
use essentials_calls.Database.Revisions.Concurrency.{save_topology-IsWritten}
use essentials_calls.Database.Invariant.{IsSound}
use essentials_calls.Database.Secrets.Restored.{
  HavePasswords, configured, contains-purge, sealed, prepared_extension, Restores, plain_node,
  filled, filled_extension,
}

module _ (cipher : SecretCipher) (iv : String → String) (law : RoundTrips cipher) where
  extension_case :
      (n : PbxNode) (p : ExtensionProperties) (ns : List PbxNode)
      → Restores cipher iv ns
      → Restores cipher iv (with_properties n p ∷ ns)
  unfolding prepare_nodes prepare_node fill_node fill_extension
  extension_case n p ns ih s out h ((t, given, full), once, others) =
      let s' = set n.id (sealed cipher iv n t) s in
      let m = with_properties n (without_password p (is_some (lookup n.id s'))) in
      let h' : (prepare_nodes cipher iv true ns s' >>= λ (ms, s''). ok (m ∷ ms, s'')) ≡ ok out =
        sym (
          ap
            (λ (r : Result (PbxNode × Secrets)).
              r >>= λ (m', x). prepare_nodes cipher iv true ns x >>= λ (ms, y). ok (m' ∷ ms, y))
            (prepared_extension cipher iv (with_properties n p) p p.sip_password t s given full))
        ∙ h in
      let (keeps, b, q, fills) = plain_node cipher iv m ns ih s' out h' others in
      (
        λ k c.
            keeps k (rest_absent n.id k (extension_ids ns) c)
            ∙ lookup-set_other n.id k (sealed cipher iv n t) s
                (head_absent n.id k (extension_ids ns) c),
        λ all f.
            let here : lookup n.id all ≡ some (sealed cipher iv n t) =
              f n.id (head_present n.id (extension_ids ns))
              ∙ keeps n.id once
              ∙ lookup-set n.id (sealed cipher iv n t) s in
            filled cipher iv m (with_properties n p) ns out b q all
              (filled_extension cipher iv law n p t all (is_some (lookup n.id s')) given here)
              (fills all (λ k c. f k (later_present n.id k (extension_ids ns) c))),
      )
    where
      head_absent : (i k : String) (ks : List String) → contains k (i ∷ ks) ≡ false → i ≢ k
      head_absent i k ks c e = ground (arith, ==_iff i k)

      rest_absent :
          (i k : String) (ks : List String) → contains k (i ∷ ks) ≡ false → contains k ks ≡ false
      rest_absent i k ks c = ground arith

      head_present : (i : String) (ks : List String) → contains i (i ∷ ks) ≡ true
      head_present i ks = ground (arith, ==_refl i)

      later_present :
          (i k : String) (ks : List String) → contains k ks ≡ true → contains k (i ∷ ks) ≡ true
      later_present i k ks c = ground arith

  plain_case :
      (n : PbxNode) (ns : List PbxNode)
      → Restores cipher iv ns
      → ((s : Secrets)
          → prepare_nodes cipher iv true (n ∷ ns) s
            ≡ (prepare_nodes cipher iv true ns s >>= λ (ms, s'). ok (n ∷ ms, s')))
      → extension_ids (n ∷ ns) ≡ extension_ids ns
      → (HavePasswords (n ∷ ns) → HavePasswords ns)
      → ((all : Secrets)
          → fill_node cipher (redact_node n) (redact_node n).properties all ≡ ok (configured n))
      → Restores cipher iv (n ∷ ns)
  plain_case n ns ih passes ids others one s out h given =
      let (keeps, b, q, fills) =
        plain_node cipher iv n ns ih s out (sym (passes s) ∙ h) (others given) in
      (
        λ k c. keeps k (ap (contains k) (sym ids) ∙ c),
        λ all f.
            filled cipher iv n n ns out b q all (one all)
              (fills all (λ k c. f k (ap (contains k) ids ∙ c))),
      )

  node_case :
      (n : PbxNode) (q : Properties) (ns : List PbxNode)
      → Restores cipher iv ns
      → Restores cipher iv (record n { properties = q } ∷ ns)
  unfolding prepare_nodes prepare_node fill_node
  node_case n (Properties.extension p) ns ih = extension_case n p ns ih
  node_case n (Properties.ivr p) ns ih =
      plain_case (record n { properties = (Properties.ivr p) }) ns ih (λ s. refl) refl (λ g. g)
        (λ all. refl)
  node_case n (Properties.ringgroup p) ns ih =
      plain_case (record n { properties = (Properties.ringgroup p) }) ns ih (λ s. refl) refl
        (λ g. g) (λ all. refl)
  node_case n (Properties.queue p) ns ih =
      plain_case (record n { properties = (Properties.queue p) }) ns ih (λ s. refl) refl (λ g. g)
        (λ all. refl)
  node_case n (Properties.schedule p) ns ih =
      plain_case (record n { properties = (Properties.schedule p) }) ns ih (λ s. refl) refl (λ g. g)
        (λ all. refl)
  node_case n (Properties.voicemail p) ns ih =
      plain_case (record n { properties = (Properties.voicemail p) }) ns ih (λ s. refl) refl
        (λ g. g) (λ all. refl)
  node_case n Properties.trunk ns ih =
      plain_case (record n { properties = Properties.trunk }) ns ih (λ s. refl) refl (λ g. g)
        (λ all. refl)
  node_case n Properties.external ns ih =
      plain_case (record n { properties = Properties.external }) ns ih (λ s. refl) refl (λ g. g)
        (λ all. refl)

  restored : (ns : List PbxNode) → Restores cipher iv ns
  unfolding prepare_nodes fill_nodes
  restored [] s out h given = (
    λ k c. ap (λ (x : List PbxNode × Secrets). lookup k x.1) (sym (ok_injective _ _ h)),
    λ all f.
        ap (λ (x : List PbxNode × Secrets). fill_nodes cipher (map redact_node x.0) all)
          (sym (ok_injective _ _ h)),
  )
  restored (n ∷ ns) s out h given = node_case n n.properties ns (restored ns) s out h given

-- Saving a topology in which each extension has a password of its own, and giving it to the
-- generator, returns the topology, its passwords included; its extensions note that a secret is
-- stored. The cipher is to decrypt what it encrypts, and the tables are to be sound.
pub materialized_topology-save_topology :
    (same : PbxNode → PbxNode → Bool) (iv : String → String) (now : String) (t : Topology)
    (expected : ℕ) (actor : Actor) (comment source : String) (d : PbxDatabase)
    (out : StoredTopology × PbxDatabase)
    → RoundTrips d.cipher
    → HavePasswords t.nodes
    → IsSound d
    → save_topology same iv now t expected actor comment source true d ≡ ok out
    → materialized_topology none out.1 ≡ ok (record t { nodes = map configured t.nodes })
unfolding materialized_topology selected_revision prepare_secrets redact_topology
materialized_topology-save_topology same iv now t expected actor comment source d out law given s
      h =
    let (p, prepared, _, _, w) =
      save_topology-IsWritten same iv now t expected actor comment source true d out h in
    let (a, nodes, e) =
      >>=_ok (prepare_nodes d.cipher iv true t.nodes d.sip_secrets) _ p prepared in
    let secret_rows : out.1.sip_secrets ≡ purge (extension_ids t.nodes) a.1 =
      w.sip_secrets ∙ ap (λ (x : Topology × Secrets). x.1) (sym (ok_injective _ _ e)) in
    let redacted_nodes : p.0 ≡ record t { nodes = map redact_node a.0 } =
      ap (λ (x : Topology × Secrets). x.0) (sym (ok_injective _ _ e)) in
    let read : topology_at out.1.state.current out.1 ≡ ok p.0 =
      subst (λ (x : TopologyState). topology_at x.current out.1 ≡ ok p.0) (sym w.state)
        (w.newest s.positive) in
    let (_, fills) = restored d.cipher iv law t.nodes d.sip_secrets a nodes given in
    ap
      (λ (r : Result Topology). r >>= λ x.
        fill_nodes out.1.cipher x.nodes out.1.sip_secrets >>= λ ns. ok (record x { nodes = ns }))
      (read ∙ ap ok redacted_nodes)
    ∙ ap
        (λ (x : SecretCipher × Secrets).
          fill_nodes x.0 (map redact_node a.0) x.1 >>= λ ns. ok (record t { nodes = ns }))
        (ap₂ (λ (c : SecretCipher) (x : Secrets). (c, x)) w.cipher secret_rows)
    ∙ ap (λ (r : Result (List PbxNode)). r >>= λ ns. ok (record t { nodes = ns }))
        (fills (purge (extension_ids t.nodes) a.1)
          (λ k c. contains-purge k (extension_ids t.nodes) a.1 c))
