-- ===== src/Status/Messages.antt =====
-- The messages of the AMI, and how `onMessage` of status.ts reads their texts.
use essentials_calls.Base.{
  ℕ, ◌+◌, ◌-◌, ◌*◌, String, ◌||◌, Option, none, some, List, [], ◌∷◌, nat_eq, if◌then◌else◌,
}
use essentials_calls.Base.Texts.{codes, join, is_digit}

-- The fields of a message that are read.
pub record AmiMessage : Type 0 where
  pub event : Option String
  pub unique_id : Option String
  pub linked_id : Option String
  pub sequence_number : Option String
  pub endpoint : Option String
  pub channel : Option String
  pub interface : Option String
  pub queue : Option String
  pub contact_status : Option String
  pub peer_status : Option String
  pub channel_state_desc : Option String
  pub caller_id_num : Option String
  pub count : Option String
  pub position : Option String

-- `/^PJSIP\/([^/-]+)/`: the name behind the prefix, up to a slash or a dash.
abbrev pub name_part : List ℕ → List ℕ
name_part [] = []
name_part (c ∷ cs) = if nat_eq c b'/' || nat_eq c b'-' then [] else c ∷ name_part cs

abbrev pub after_prefix : List ℕ → List ℕ → Option (List ℕ)
after_prefix [] cs = some cs
after_prefix (p ∷ ps) [] = none
after_prefix (p ∷ ps) (c ∷ cs) = if nat_eq p c then after_prefix ps cs else none

abbrev pub non_empty : List ℕ → Option (List ℕ)
non_empty [] = none
non_empty (c ∷ cs) = some (c ∷ cs)

unfoldable pub channel_name : String → Option (List ℕ)
channel_name channel = elim (after_prefix (codes "PJSIP/") (codes channel)) [
  | none ↦ none
  | some rest ↦ non_empty (name_part rest)
]

-- The first of the three that names an endpoint, as its characters.
abbrev pub text_of : Option String → String
text_of none = ""
text_of (some s) = s

abbrev pub first_name : Option (List ℕ) → Option (List ℕ) → Option (List ℕ)
first_name (some a) b = some a
first_name none b = b

unfoldable pub endpoint_of_message : AmiMessage → Option (List ℕ)
endpoint_of_message m = elim m.endpoint [
  | some e ↦ some (codes e)
  | none ↦ first_name (channel_name (text_of m.channel)) (channel_name (text_of m.interface))
]

-- The key under which an event is remembered.
unfoldable pub event_key : AmiMessage → String
event_key m = join "|" (
    text_of m.event
    ∷ text_of m.unique_id
    ∷ text_of m.linked_id
    ∷ text_of m.sequence_number
    ∷ text_of m.endpoint
    ∷ text_of m.channel
    ∷ text_of m.queue
    ∷ text_of m.contact_status
    ∷ text_of m.channel_state_desc
    ∷ [])

abbrev pub first_of : Option String → Option String → String
first_of (some s) b = s
first_of none b = text_of b

-- `Number(text)` of decimal digits, and its maximum with 0: any other text counts as no call.
abbrev pub decimal : ℕ → List ℕ → Option ℕ
decimal n [] = some n
decimal n (c ∷ cs) = if is_digit c then decimal (n * 10 + (c - b'0')) cs else none

unfoldable pub waiting_calls : AmiMessage → ℕ
waiting_calls m = elim (decimal 0 (codes (first_of m.count m.position))) [ none ↦ 0 | some n ↦ n ]
