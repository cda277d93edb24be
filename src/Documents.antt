-- ===== src/Documents.antt =====
-- Documents of a topology: shared/src/topologyFormat.ts. A document of an import is a JSON value;
-- the reading of its topology as the type `Topology` is a cast there, which has no code.
pub mod Redaction
use essentials_calls.Base.{
  ℕ, String, Bool, true, false, ◌||◌, Option, none, some, List, map, any, ◌==◌, nat_eq,
  if◌then◌else◌,
}
use essentials_calls.Base.Entries.{is_some}
use essentials_calls.Json.{Json, Fields, get, null, bool, number, text, array, object, end, field}
use essentials_calls.Model.{
  Number, pos, negsuc, fraction, ExtensionProperties, Properties, PbxNode, Topology, truthy,
  is_configured, topology_schema_version,
}

-- `hasOwnProperty.call(properties, 'sipPassword')` of an extension.
abbrev pub has_password : Properties → Bool
has_password (Properties.extension p) = is_some p.sip_password
has_password _ = false

unfoldable pub has_plaintext_sip_secrets : Topology → Bool
has_plaintext_sip_secrets t = any (λ (n : PbxNode). has_password n.properties) t.nodes

abbrev pub redact_extension : ExtensionProperties → ExtensionProperties
redact_extension p = record p {
  sip_password = none;
  sip_secret = some (truthy p.sip_password || is_configured p.sip_secret);
}

abbrev pub redact_properties : Properties → Properties
redact_properties (Properties.extension p) = Properties.extension (redact_extension p)
redact_properties (Properties.ivr p) = Properties.ivr p
redact_properties (Properties.ringgroup p) = Properties.ringgroup p
redact_properties (Properties.queue p) = Properties.queue p
redact_properties (Properties.schedule p) = Properties.schedule p
redact_properties (Properties.voicemail p) = Properties.voicemail p
redact_properties Properties.trunk = Properties.trunk
redact_properties Properties.external = Properties.external

abbrev pub redact_node : PbxNode → PbxNode
redact_node n = record n { properties = redact_properties n.properties }

unfoldable pub redact_topology : Topology → Topology
redact_topology t = record t { nodes = map redact_node t.nodes }

pub record TopologyExport : Type 0 where
  pub schema_version : ℕ
  pub product : String
  pub exported_at : String
  pub redacted : Bool
  pub topology : Topology

-- `now` is the text of `now.toISOString()`.
unfoldable pub create_topology_export : Topology → String → TopologyExport
create_topology_export t now = record {
  schema_version = topology_schema_version;
  product = "Simple Calls";
  exported_at = now;
  redacted = true;
  topology = redact_topology t;
}

pub record MigratedTopologyDocument : Type 0 where
  pub topology : Json
  pub source_schema_version : ℕ
  pub migrated : Bool

pub data Migration : Type 0 where
  accepted : MigratedTopologyDocument → Migration
  not_an_object : Migration
  without_topology : Migration
  unsupported : Json → Migration

-- `!value` of a field.
abbrev pub is_falsy : Option Json → Bool
is_falsy none = true
is_falsy (some null) = true
is_falsy (some (bool b)) = if b then false else true
is_falsy (some (number (pos n))) = nat_eq n 0
is_falsy (some (text s)) = s == ""
is_falsy (some _) = false

-- `version === n`
abbrev pub is_version : ℕ → Json → Bool
is_version n (number (pos k)) = nat_eq k n
is_version n _ = false

abbrev pub or_else : Option Json → Json → Json
or_else none j = j
or_else (some t) j = t

abbrev pub first_version : Fields → MigratedTopologyDocument
first_version fields = record {
  topology = or_else (get "topology" fields) (object fields);
  source_schema_version = 1;
  migrated = true;
}

abbrev pub second_version : Option Json → Migration
second_version topology =
    if is_falsy topology
    then without_topology
    else accepted (record {
      topology = or_else topology null;
      source_schema_version = topology_schema_version;
      migrated = false;
    })

unfoldable pub migrate_version : Fields → Option Json → Migration
migrate_version fields none =
    accepted (record { topology = object fields; source_schema_version = 1; migrated = true })
migrate_version fields (some version) =
    if is_version 1 version
    then accepted (first_version fields)
    else if is_version topology_schema_version version
    then second_version (get "topology" fields)
    else unsupported version

unfoldable pub migrate_topology_document : Json → Migration
unfolding migrate_version
migrate_topology_document (object fields) = migrate_version fields (get "schemaVersion" fields)
migrate_topology_document _ = not_an_object
