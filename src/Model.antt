-- ===== src/Model.antt =====
-- The domain model: shared/src/types.ts. A topology is nodes, edges and memberships.
-- An optional field is an `Option`. The members of `PbxNode` share the fields of `BaseNode`, and
-- differ in `properties`, whose constructor is the node's `type`.
mod Numeric
pub use Numeric.*
use essentials_calls.Base.{ℕ, String, Bool, true, false, ◌||◌, Option, none, some, List, [], ◌∷◌}
use essentials_calls.Base.Texts.{is_empty}

pub data NodeType : Type 0 where
  extension ivr ringgroup queue schedule voicemail trunk external : NodeType

pub record NodePosition : Type 0 where
  pub x : Number
  pub y : Number

pub record NodeMetadata : Type 0 where
  pub created_at : Option String
  pub updated_at : Option String

pub record ExtensionVoicemail : Type 0 where
  pub enabled : Bool
  pub mailbox : String
  pub pin : Option String
  pub email : Option String

-- `sip_secret` is the field `configured` of the object, where there is one.
pub record ExtensionProperties : Type 0 where
  pub number : String
  pub sip_user : String
  pub sip_password : Option String
  pub sip_secret : Option Bool
  pub caller_id_name : Option String
  pub voicemail : Option ExtensionVoicemail

pub record IvrProperties : Type 0 where
  pub greeting : String
  pub timeout : Number
  pub invalid_retries : Number

-- The strategies and policies are the strings of the document: the validator tests them.
pub record RingGroupProperties : Type 0 where
  pub strategy : String
  pub ring_timeout : Number

pub record QueueProperties : Type 0 where
  pub strategy : String
  pub timeout : Number
  pub max_wait_time : Number
  pub join_empty : String
  pub leave_when_empty : String

pub record ScheduleWindow : Type 0 where
  pub id : String
  pub weekdays : List Number
  pub start : String
  pub end : String

pub record ScheduleProperties : Type 0 where
  pub timezone : String
  pub windows : List ScheduleWindow
  pub holidays : List String

pub record VoicemailProperties : Type 0 where
  pub mailbox : String
  pub pin : Option String
  pub email : Option String
  pub attach_audio : Bool

pub data Properties : Type 0 where
  extension : ExtensionProperties → Properties
  ivr : IvrProperties → Properties
  ringgroup : RingGroupProperties → Properties
  queue : QueueProperties → Properties
  schedule : ScheduleProperties → Properties
  voicemail : VoicemailProperties → Properties
  trunk : Properties
  external : Properties

pub record PbxNode : Type 0 where
  pub id : String
  pub label : String
  pub position : Option NodePosition
  pub metadata : Option NodeMetadata
  pub properties : Properties

abbrev pub type_of : Properties → NodeType
type_of (Properties.extension p) = NodeType.extension
type_of (Properties.ivr p) = NodeType.ivr
type_of (Properties.ringgroup p) = NodeType.ringgroup
type_of (Properties.queue p) = NodeType.queue
type_of (Properties.schedule p) = NodeType.schedule
type_of (Properties.voicemail p) = NodeType.voicemail
type_of Properties.trunk = NodeType.trunk
type_of Properties.external = NodeType.external

abbrev pub node_type : PbxNode → NodeType
node_type n = type_of n.properties

pub data EdgeCondition : Type 0 where
  digit : String → EdgeCondition
  timeout : EdgeCondition
  invalid : EdgeCondition
  open_hours : EdgeCondition
  closed : EdgeCondition
  unconditional : EdgeCondition

pub record Edge : Type 0 where
  pub id : String
  pub source : String
  pub target : String
  pub condition : Option EdgeCondition

pub data MembershipRole : Type 0 where
  member agent : MembershipRole

pub record Membership : Type 0 where
  pub id : String
  pub group_id : String
  pub member_id : String
  pub role : MembershipRole
  pub position : Option Number
  pub paused : Option Bool

pub record Topology : Type 0 where
  pub id : String
  pub name : String
  pub description : Option String
  pub nodes : List PbxNode
  pub edges : List Edge
  pub memberships : List Membership

-- `DISABLED_NODE_TYPES.has(type)`
unfoldable pub is_disabled_type : NodeType → Bool
is_disabled_type NodeType.trunk = true
is_disabled_type NodeType.external = true
is_disabled_type _ = false

abbrev pub entrypoint_base : ℕ
entrypoint_base = 600

abbrev pub topology_schema_version : ℕ
topology_schema_version = 2

abbrev pub builtin_prompts : List String
builtin_prompts =
    "hello-world" ∷ "demo-thanks" ∷ "demo-congrats" ∷ "pls-hold-while-try" ∷ "invalid" ∷ []

-- `!!s` of an optional string: the empty string is false too.
abbrev pub truthy : Option String → Bool
truthy none = false
truthy (some s) = elim (is_empty s) [ true ↦ false | false ↦ true ]

-- `b?.configured` as a condition.
abbrev pub is_configured : Option Bool → Bool
is_configured none = false
is_configured (some b) = b
