-- ===== src/Database/Edits.antt =====
-- The operations of the database that save a changed topology: of a SIP password, of an earlier
-- revision, and of the name of a sound.
pub mod Keeps
use essentials_calls.Base.{
  ℕ, suc, zero, ◌≤◌, String, Bool, true, false, not, ◌&&◌, ◌||◌, Option, none, some, List, [], ◌∷◌,
  ◌++◌, map, length, find, filter, any, contains, nat_eq, ltb, leb, ◌==◌, if◌then◌else◌,
}
use essentials_calls.Base.Entries.{Entries, is_some}
use essentials_calls.Base.Texts.{◌<>◌, all_chars, utf16_length}
use essentials_calls.Generator.Values.{show, slice}
use essentials_calls.History.{take, drop}
use essentials_calls.Json.{Json, Fields, end, field, object, text, number, null, safe_details}
use essentials_calls.Model.{IvrProperties, Properties, PbxNode, Topology, pos}
use essentials_calls.Security.Cipher.{SecretCipher}
use essentials_calls.Database.Secrets.{
  Secrets, prepare_secrets, put_secret, fill_nodes, with_properties,
}
use essentials_calls.Database.Summary.{topology_summary}
use essentials_calls.Database.Store.{
  Actor, RevisionRow, TopologyState, DeploymentRow, PbxDatabase, Result, ok, err, ◌>>=◌, unless,
  revision_conflict, no_revision, invalid_secret, no_extension, constraint, audit, bounded_limit,
}
use essentials_calls.Database.Revisions.{
  StoredTopology, topology_at, current_topology, save_topology,
}

module _ (same : PbxNode → PbxNode → Bool) (random_iv : String → String) (now : String) where
  -- 12 to 256 printable ASCII characters, but no `;`, `[` or `]`.
  unfoldable pub is_secret_char : ℕ → Bool
  is_secret_char c =
      leb 0x21 c && leb c 0x7e && not (nat_eq c b';' || nat_eq c b'[' || nat_eq c b']')

  unfoldable pub is_sip_secret : String → Bool
  unfolding is_secret_char
  is_sip_secret s =
      leb 12 (utf16_length s) && leb (utf16_length s) 256 && all_chars is_secret_char s

  -- The first node with the id notes that it has a secret, where it is an extension.
  unfoldable pub mark_configured : String → List PbxNode → Option (List PbxNode)
  mark_configured id [] = none
  mark_configured id (n ∷ ns) =
      let rest = mark_configured id ns in
      if n.id == id
      then elim n.properties [
        | Properties.extension p ↦
            some (with_properties n (record p { sip_secret = some true }) ∷ ns)
        | _ ↦ none
      ]
      else elim rest [ none ↦ none | some ms ↦ some (n ∷ ms) ]

  unfoldable pub with_marked :
      Option (List PbxNode)
      → String
      → String
      → ℕ
      → Actor
      → Topology
      → PbxDatabase
      → Result (StoredTopology × PbxDatabase)
  unfolding save_topology
  with_marked none id plaintext expected actor t d = err no_extension
  with_marked (some ns) id plaintext expected actor t d =
      save_topology same random_iv now (record t { nodes = ns }) expected actor
        ("SIP credential changed for " <> id) "secret-change" false
        (record d { sip_secrets = put_secret d.cipher random_iv id plaintext d.sip_secrets })
      >>= λ (result, d'). ok (
        result,
        audit now actor "secret.change" ("extension:" <> id) "success"
            (field "revision" (number (pos result.revision)) end) d',
      )

  unfoldable pub update_sip_secret :
      String → String → ℕ → Actor → PbxDatabase → Result (StoredTopology × PbxDatabase)
  unfolding is_sip_secret current_topology mark_configured with_marked
  update_sip_secret id plaintext expected actor d =
      unless (not (is_sip_secret plaintext)) invalid_secret (
        current_topology d >>= λ current.
        unless (not (nat_eq current.revision expected))
          (revision_conflict expected current.revision)
          (with_marked (mark_configured id current.topology.nodes) id plaintext expected actor
            current.topology d))

  abbrev pub comment_or : Option String → String → String
  comment_or none usual = usual
  comment_or (some comment) usual = comment

  unfoldable pub rollback_topology :
      ℕ → ℕ → Actor → Option String → PbxDatabase → Result (StoredTopology × PbxDatabase)
  unfolding topology_at save_topology
  rollback_topology target expected actor comment d = topology_at target d >>= λ t.
      save_topology same random_iv now t expected actor
        (comment_or comment ("Rollback to revision " <> show target)) "rollback" false d
      >>= λ (result, d'). ok (
        result,
        audit now actor "topology.rollback" ("revision:" <> show target) "success"
            (field "newRevision" (number (pos result.revision)) end) d',
      )

  unfoldable pub replace_greeting : String → String → PbxNode → PbxNode
  replace_greeting old new n = elim n.properties [
    | Properties.ivr p ↦
        if p.greeting == old
        then record n { properties = Properties.ivr (record p { greeting = new }) }
        else n
    | _ ↦ n
  ]

  unfoldable pub replace_sound_reference :
      String → String → ℕ → Actor → PbxDatabase → Result (StoredTopology × PbxDatabase)
  unfolding current_topology replace_greeting save_topology
  replace_sound_reference old new expected actor d = current_topology d >>= λ current.
      unless (not (nat_eq current.revision expected)) (revision_conflict expected current.revision)
        (save_topology same random_iv now
          (record current.topology {
            nodes = map (replace_greeting old new) current.topology.nodes;
          })
          expected actor ("Replace sound " <> old <> " with " <> new) "sound-reference-replace"
          false d)

-- A node of which `greeting` is the reference.
unfoldable pub refers_to : String → PbxNode → Bool
refers_to reference n = elim n.properties [ Properties.ivr p ↦ p.greeting == reference | _ ↦ false ]

unfoldable pub sound_references : String → PbxDatabase → Result (List (String × String))
unfolding current_topology refers_to
sound_references reference d = current_topology d >>= λ current.
    ok
      (map (λ (n : PbxNode). (n.id, n.label)) (filter (refers_to reference) current.topology.nodes))
