-- ===== src/Database/Seed.antt =====
-- The topology of a new installation: `SEED_TOPOLOGY`.
use essentials_calls.Base.{String, true, false, none, some, [], ◌∷◌}
use essentials_calls.Model.{
  Number, pos, ExtensionVoicemail, Properties, PbxNode, EdgeCondition, digit, timeout, Edge,
  MembershipRole, Membership, Topology,
}

abbrev seed_node : String → String → Number → Number → Properties → PbxNode
seed_node id label x y p = record {
  id = id;
  label = label;
  position = some (record { x = x; y = y });
  metadata = none;
  properties = p;
}

abbrev seed_extension : String → String → ExtensionVoicemail → Properties
seed_extension number password voicemail = Properties.extension (record {
  number = number;
  sip_user = number;
  sip_password = some password;
  sip_secret = none;
  caller_id_name = none;
  voicemail = some voicemail;
})

abbrev seed_edge : String → String → String → EdgeCondition → Edge
seed_edge id source target condition = record {
  id = id;
  source = source;
  target = target;
  condition = some condition;
}

abbrev seed_membership : String → String → Number → Membership
seed_membership id member place = record {
  id = id;
  group_id = "group-support";
  member_id = member;
  role = MembershipRole.member;
  position = some place;
  paused = none;
}

abbrev pub seed_topology : Topology
seed_topology = record {
  id = "topo-1";
  name = "Kleine Büroanlage";
  description = some "Synthetische Beispiel-Topologie für Simple Calls";
  nodes =
      seed_node "ext-101" "Alice (synthetisch)" (pos 100) (pos 200) (
        seed_extension "101" "synthetic-alice-101"
          (record { enabled = true; mailbox = "101"; pin = some "1234"; email = none }))
      ∷ seed_node "ext-102" "Bob (synthetisch)" (pos 300) (pos 200) (
          seed_extension "102" "synthetic-bob-102"
            (record { enabled = false; mailbox = "102"; pin = none; email = none }))
      ∷ seed_node "group-support" "Support" (pos 200) (pos 400)
          (Properties.ringgroup (record { strategy = "ringall"; ring_timeout = pos 10 }))
      ∷ seed_node "ivr-welcome" "Willkommens-IVR" (pos 200) (pos 100) (
          Properties.ivr
            (record { greeting = "hello-world"; timeout = pos 5; invalid_retries = pos 2 }))
      ∷ [];
  edges =
      seed_edge "edge-1" "ivr-welcome" "ext-101" (digit "1")
      ∷ seed_edge "edge-2" "ivr-welcome" "group-support" (digit "2")
      ∷ seed_edge "edge-3" "ivr-welcome" "ext-102" timeout
      ∷ [];
  memberships =
      seed_membership "mem-1" "ext-101" (pos 1) ∷ seed_membership "mem-2" "ext-102" (pos 2) ∷ [];
}
