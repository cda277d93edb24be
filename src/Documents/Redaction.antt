-- ===== src/Documents/Redaction.antt =====
-- What `redactTopology` removes of a topology and what it keeps.
use essentials_calls.Base.{◌≡◌, refl, Bool, false, List, [], ◌∷◌, map, ap, ap₂, any}
use essentials_calls.Documents.{
  has_password, has_plaintext_sip_secrets, redact_properties, redact_node, redact_topology,
}
use essentials_calls.Model.{Properties, PbxNode, Topology}

pub has_password-redact : (p : Properties) → has_password (redact_properties p) ≡ false
has_password-redact (Properties.extension p) = refl
has_password-redact (Properties.ivr p) = refl
has_password-redact (Properties.ringgroup p) = refl
has_password-redact (Properties.queue p) = refl
has_password-redact (Properties.schedule p) = refl
has_password-redact (Properties.voicemail p) = refl
has_password-redact Properties.trunk = refl
has_password-redact Properties.external = refl

abbrev pub node_has_password : PbxNode → Bool
node_has_password n = has_password n.properties

no_password : (ns : List PbxNode) → any node_has_password (map redact_node ns) ≡ false
no_password [] = refl
no_password (n ∷ ns) = rw (has_password-redact n.properties, no_password ns) refl

pub has_plaintext-redact : (t : Topology) → has_plaintext_sip_secrets (redact_topology t) ≡ false
unfolding has_plaintext_sip_secrets redact_topology
has_plaintext-redact t = no_password t.nodes

redact_properties_idempotent :
    (p : Properties) → redact_properties (redact_properties p) ≡ redact_properties p
redact_properties_idempotent (Properties.extension p) = refl
redact_properties_idempotent (Properties.ivr p) = refl
redact_properties_idempotent (Properties.ringgroup p) = refl
redact_properties_idempotent (Properties.queue p) = refl
redact_properties_idempotent (Properties.schedule p) = refl
redact_properties_idempotent (Properties.voicemail p) = refl
redact_properties_idempotent Properties.trunk = refl
redact_properties_idempotent Properties.external = refl

redact_nodes_idempotent :
    (ns : List PbxNode) → map redact_node (map redact_node ns) ≡ map redact_node ns
redact_nodes_idempotent [] = refl
redact_nodes_idempotent (n ∷ ns) =
    ap₂ (λ (m : PbxNode) (ms : List PbxNode). m ∷ ms)
      (ap (λ (p : Properties). record n { properties = p })
        (redact_properties_idempotent n.properties))
      (redact_nodes_idempotent ns)

pub redact_topology_idempotent :
    (t : Topology) → redact_topology (redact_topology t) ≡ redact_topology t
unfolding redact_topology
redact_topology_idempotent t =
    ap (λ (ns : List PbxNode). record t { nodes = ns }) (redact_nodes_idempotent t.nodes)

-- A redacted topology has no plaintext secret, and redacting it again changes nothing: what is
-- exported is what the export of the export would be.
pub redact_topology_stable :
    (t : Topology)
    → (has_plaintext_sip_secrets (redact_topology t) ≡ false)
      × (redact_topology (redact_topology t) ≡ redact_topology t)
redact_topology_stable t = (has_plaintext-redact t, redact_topology_idempotent t)
