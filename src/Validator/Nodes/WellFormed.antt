-- ===== src/Validator/Nodes/WellFormed.antt =====
-- What a list of nodes guarantees that passes the checks: `validateNodes` is sound.
use essentials_calls.Base.{
  ℕ, String, ◌≡◌, refl, true, false, Option, none, some, List, map, subst, All, Distinct, length,
  ◌∙◌,
}
use essentials_calls.Base.Texts.{is_empty, digits_only}
use essentials_calls.Names.{sanitize}
use essentials_calls.Model.{PbxNode, Properties, is_disabled_type, type_of, ExtensionProperties}
use essentials_calls.Validator.Issue.{
  ValidationIssue, has_errors, no_errors-append, report_if-append,
}
use essentials_calls.Validator.Pass.{pass-All, pass-Distinct, collect, Claims, collect-map}
use essentials_calls.Validator.ScheduleNode.{Platform}
use essentials_calls.Validator.ScheduleNode.Soundness.{
  IsSchedule, validate_schedule_node-IsSchedule,
}
use essentials_calls.Validator.Extension.{
  Owners, no_owners, active_mailbox, check_extension, check_voicemail,
}
use essentials_calls.Validator.Extension.Claims.{
  check_node_id-Claims, check_generated_name-Claims, check_number-Claims, check_sip_user-Claims,
  check_mailbox-Claims,
}
use essentials_calls.Validator.Nodes.{
  ValidationOptions, check_properties, check_node, validate_nodes,
}
use essentials_calls.Validator.Nodes.Soundness.{
  IsExtension, IsIvr, IsRingGroup, IsQueue, Mailbox, check_ivr-IsIvr, check_ringgroup-IsRingGroup,
  check_queue-IsQueue,
}

-- The keys that a node takes: the number and the endpoint of an extension, and a mailbox.
abbrev pub number_of : Properties → Option String
number_of (Properties.extension p) = some p.number
number_of _ = none

abbrev pub endpoint_of : Properties → Option String
endpoint_of (Properties.extension p) = some (sanitize p.sip_user)
endpoint_of _ = none

abbrev pub mailbox_of : Properties → Option String
mailbox_of (Properties.extension p) = active_mailbox p.voicemail
mailbox_of (Properties.voicemail p) = some p.mailbox
mailbox_of _ = none

module _ (platform : Platform) (options : ValidationOptions) where
  -- What each type of node guarantees.
  abbrev pub IsSound : Properties → Type 0
  IsSound (Properties.extension p) = IsExtension p
  IsSound (Properties.ivr p) = IsIvr options p
  IsSound (Properties.ringgroup p) = IsRingGroup p
  IsSound (Properties.queue p) = IsQueue p
  IsSound (Properties.schedule p) = IsSchedule platform p
  IsSound (Properties.voicemail p) = digits_only p.mailbox ≡ true
  IsSound Properties.trunk = ⊥
  IsSound Properties.external = ⊥

  pub record WellFormedNodes (nodes : List PbxNode) : Type 0 where
    pub sound : All (λ n. IsSound n.properties) nodes
    pub ids : Distinct (map (λ (n : PbxNode). n.id) nodes)
    pub names : Distinct (map (λ (n : PbxNode). sanitize n.id) nodes)
    pub named : All (λ n. is_empty (sanitize n.id) ≡ false) nodes
    pub numbers : Distinct (collect (λ (n : PbxNode). number_of n.properties) nodes)
    pub endpoints : Distinct (collect (λ (n : PbxNode). endpoint_of n.properties) nodes)
    pub mailboxes : Distinct (collect (λ (n : PbxNode). mailbox_of n.properties) nodes)

check_voicemail-Claims :
    (id : String) (m : Option String) (owners : List String)
    → has_errors (check_voicemail id m owners).1 ≡ false
    → Mailbox m × Claims m owners (check_voicemail id m owners).0
unfolding check_voicemail
check_voicemail-Claims id none owners h = (tt, refl)
check_voicemail-Claims id (some m) owners h =
    let (a, b) = check_mailbox-Claims id m owners h in (a, b)

-- What a check takes and leaves of the sets that the loop keeps.
record Step (p : Properties) (s t : Owners) : Type 0 where
  node_ids : t.node_ids ≡ s.node_ids
  names : t.generated_nodes ≡ s.generated_nodes
  numbers : Claims (number_of p) s.numbers t.numbers
  endpoints : Claims (endpoint_of p) s.generated_sips t.generated_sips
  mailboxes : Claims (mailbox_of p) s.mailboxes t.mailboxes

unchanged :
    (p : Properties) (s : Owners)
    → number_of p ≡ none
    → endpoint_of p ≡ none
    → mailbox_of p ≡ none
    → Step p s s
unchanged p s a b c = record {
  node_ids = refl;
  names = refl;
  numbers = rw a refl;
  endpoints = rw b refl;
  mailboxes = rw c refl;
}

module _ (platform : Platform) (options : ValidationOptions) (count : ℕ) where
  check_extension-Step :
      (id : String) (p : ExtensionProperties) (s : Owners)
      → has_errors (check_extension count id p s).1 ≡ false
      → IsExtension p × Step (Properties.extension p) s (check_extension count id p s).0
  unfolding check_extension
  check_extension-Step id p s h =
      let (a, h1) = no_errors-append _ _ h in
      let (_, h2) = no_errors-append _ _ h1 in
      let (b, c) = no_errors-append _ _ h2 in
      let (digits, routable, number) = check_number-Claims count id p.number s.numbers a in
      let (user, endpoint) = check_sip_user-Claims id p.sip_user s.sip_users s.generated_sips b in
      let (mailbox, claim) = check_voicemail-Claims id (active_mailbox p.voicemail) s.mailboxes c in
      (
        record { number = digits; routable = routable; user = user; mailbox = mailbox },
        record {
          node_ids = refl;
          names = refl;
          numbers = number;
          endpoints = endpoint;
          mailboxes = claim;
        },
      )

  check_properties-Step :
      (id : String) (p : Properties) (s : Owners)
      → is_disabled_type (type_of p) ≡ false
      → has_errors (check_properties platform options count id p s).1 ≡ false
      → IsSound platform options p × Step p s (check_properties platform options count id p s).0
  unfolding check_properties is_disabled_type
  check_properties-Step id (Properties.extension p) s d h = check_extension-Step id p s h
  check_properties-Step id (Properties.voicemail p) s d h =
      let (digits, claim) = check_mailbox-Claims id p.mailbox s.mailboxes h in
      (
        digits,
        record {
          node_ids = refl;
          names = refl;
          numbers = refl;
          endpoints = refl;
          mailboxes = claim;
        },
      )
  check_properties-Step id (Properties.ivr p) s d h =
      (check_ivr-IsIvr options id p h, unchanged (Properties.ivr p) s refl refl refl)
  check_properties-Step id (Properties.schedule p) s d h = (
    validate_schedule_node-IsSchedule platform id p h,
    unchanged (Properties.schedule p) s refl refl refl,
  )
  check_properties-Step id (Properties.ringgroup p) s d h =
      (check_ringgroup-IsRingGroup id p h, unchanged (Properties.ringgroup p) s refl refl refl)
  check_properties-Step id (Properties.queue p) s d h =
      (check_queue-IsQueue id p h, unchanged (Properties.queue p) s refl refl refl)
  check_properties-Step id Properties.trunk s d h = cc
  check_properties-Step id Properties.external s d h = cc

  -- What a node takes and leaves, and what it guarantees.
  record NodeStep (n : PbxNode) (s t : Owners) : Type 0 where
    id : Claims (some n.id) s.node_ids t.node_ids
    name : Claims (some (sanitize n.id)) s.generated_nodes t.generated_nodes
    named : is_empty (sanitize n.id) ≡ false
    sound : IsSound platform options n.properties
    numbers : Claims (number_of n.properties) s.numbers t.numbers
    endpoints : Claims (endpoint_of n.properties) s.generated_sips t.generated_sips
    mailboxes : Claims (mailbox_of n.properties) s.mailboxes t.mailboxes

  check_node-Step :
      (n : PbxNode) (s : Owners)
      → has_errors (check_node platform options count n s).1 ≡ false
      → NodeStep n s (check_node platform options count n s).0
  unfolding check_node
  check_node-Step n s h =
      let (a, h1) = no_errors-append _ _ h in
      let (b, h2) = no_errors-append _ _ h1 in
      let (enabled, c) = report_if-append _ _ _ refl h2 in
      let id = check_node_id-Claims n.id s.node_ids a in
      let (named, name) = check_generated_name-Claims n.id s.generated_nodes b in
      let (sound, step) = check_properties-Step n.id n.properties _ enabled c in
      record {
        id = (id.0, step.node_ids ∙ id.1);
        name = (name.0, step.names ∙ name.1);
        named = named;
        sound = sound;
        numbers = step.numbers;
        endpoints = step.endpoints;
        mailboxes = step.mailboxes;
      }

-- Nodes without an error are enabled and sound; their ids, their sanitised ids, the numbers and the
-- sanitised SIP users of their extensions, and their mailboxes are pairwise distinct.
pub validate_nodes-WellFormed :
    (platform : Platform) (options : ValidationOptions) (nodes : List PbxNode)
    → has_errors (validate_nodes platform options nodes) ≡ false
    → WellFormedNodes platform options nodes
unfolding validate_nodes
validate_nodes-WellFormed platform options nodes h = record {
  sound = pass-All check _ (λ n s k. (step n s k).sound) nodes no_owners h;
  ids = subst Distinct (collect-map (λ (n : PbxNode). n.id) nodes) (
      pass-Distinct check (λ s. s.node_ids) (λ n. some n.id) (λ n s k. (step n s k).id) nodes
        no_owners h);
  names = subst Distinct (collect-map (λ (n : PbxNode). sanitize n.id) nodes) (
      pass-Distinct check (λ s. s.generated_nodes) (λ n. some (sanitize n.id))
        (λ n s k. (step n s k).name) nodes no_owners h);
  named = pass-All check _ (λ n s k. (step n s k).named) nodes no_owners h;
  numbers =
      (pass-Distinct check (λ s. s.numbers) _ (λ n s k. (step n s k).numbers) nodes no_owners h);
  endpoints =
      (pass-Distinct check (λ s. s.generated_sips) _ (λ n s k. (step n s k).endpoints) nodes
        no_owners h);
  mailboxes =
      (pass-Distinct check (λ s. s.mailboxes) _ (λ n s k. (step n s k).mailboxes) nodes no_owners
        h);
}
  where
    check : PbxNode → Owners → Owners × List ValidationIssue
    check = check_node platform options (length nodes)

    step :
        (n : PbxNode) (s : Owners)
        → has_errors (check n s).1 ≡ false
        → NodeStep platform options (length nodes) n s (check n s).0
    step = check_node-Step platform options (length nodes)
