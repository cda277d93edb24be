-- ===== src/Validator/Transitions.antt =====
-- Which edges may join which types of nodes: `ALLOWED_TRANSITIONS` and `isTransitionAllowed` of
-- shared/src/validator.ts.
use essentials_calls.Base.{String, Bool, true, false, List, [], ◌∷◌, any, ◌==◌}
use essentials_calls.Model.{NodeType}

abbrev pub type_name : NodeType → String
type_name NodeType.extension = "extension"
type_name NodeType.ivr = "ivr"
type_name NodeType.ringgroup = "ringgroup"
type_name NodeType.queue = "queue"
type_name NodeType.schedule = "schedule"
type_name NodeType.voicemail = "voicemail"
type_name NodeType.trunk = "trunk"
type_name NodeType.external = "external"

-- `ALLOWED_TRANSITIONS`; a type with no entry allows nothing.
abbrev pub allowed_transitions : NodeType → List NodeType
allowed_transitions NodeType.extension =
    NodeType.ivr ∷ NodeType.ringgroup ∷ NodeType.queue ∷ NodeType.schedule ∷ NodeType.voicemail ∷ []
allowed_transitions NodeType.ivr =
    NodeType.extension ∷ NodeType.ringgroup ∷ NodeType.queue ∷ NodeType.schedule
    ∷ NodeType.voicemail ∷ []
allowed_transitions NodeType.ringgroup =
    NodeType.extension ∷ NodeType.ivr ∷ NodeType.queue ∷ NodeType.schedule ∷ NodeType.voicemail ∷ []
allowed_transitions NodeType.queue =
    NodeType.extension ∷ NodeType.ivr ∷ NodeType.schedule ∷ NodeType.voicemail ∷ []
allowed_transitions NodeType.schedule =
    NodeType.extension ∷ NodeType.ivr ∷ NodeType.ringgroup ∷ NodeType.queue ∷ NodeType.schedule
    ∷ NodeType.voicemail ∷ []
allowed_transitions _ = []

unfoldable pub is_transition_allowed : NodeType → NodeType → Bool
is_transition_allowed source target =
    any (λ t. type_name t == type_name target) (allowed_transitions source)

abbrev pub is_ivr : NodeType → Bool
is_ivr NodeType.ivr = true
is_ivr _ = false

abbrev pub is_schedule : NodeType → Bool
is_schedule NodeType.schedule = true
is_schedule _ = false

abbrev pub is_voicemail : NodeType → Bool
is_voicemail NodeType.voicemail = true
is_voicemail _ = false
