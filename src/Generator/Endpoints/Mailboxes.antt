-- ===== src/Generator/Endpoints/Mailboxes.antt =====
-- The values that are written into the file of `generateVoicemailConf`.
use essentials_calls.Base.{
  String, ◌≡◌, refl, subst, true, false, Option, none, some, List, All, All-append, Bool-cases, inl,
  inr,
}
use essentials_calls.Base.Texts.{◌<>◌, digits_only}
use essentials_calls.Model.{ExtensionVoicemail, Properties, PbxNode, Topology}
use essentials_calls.Validator.Issue.{has_errors}
use essentials_calls.Validator.ScheduleNode.{Platform}
use essentials_calls.Validator.Extension.{active_mailbox}
use essentials_calls.Validator.Nodes.{ValidationOptions}
use essentials_calls.Validator.Nodes.Soundness.{IsExtension, Mailbox}
use essentials_calls.Validator.Nodes.WellFormed.{IsSound}
use essentials_calls.Validator.Topology.{validate_topology, validate_topology-WellFormed}
use essentials_calls.Generator.Values.{done, lines_of, display, config_value}
use essentials_calls.Generator.Routes.{ExtensionNode, extension_nodes}
use essentials_calls.Generator.Endpoints.{
  or_else, mailbox_line, extension_mailbox, voicemail_entry, voicemail_lines,
}
use essentials_calls.Generator.Endpoints.Safety.{
  IsLine, digits-IsLine, display-IsLine, config_value-IsLine, joined, done_injective, >>=_done,
  lines_of-All, extension_nodes-All, extension_sound,
}

mailbox_line-IsLine :
    (mailbox : String) (pin : Option String) (label : String) (email : Option String)
    (lines : List String)
    → digits_only mailbox ≡ true
    → mailbox_line mailbox pin label email ≡ done lines
    → All IsLine lines
unfolding mailbox_line
mailbox_line-IsLine mailbox pin label email lines digits h =
    let (p, e, h₁) = >>=_done (config_value (or_else pin "0000") "voicemail pin") _ lines h in
    let mail = display (or_else email "") in
    subst (All IsLine) (done_injective h₁) (
      joined mailbox (" => " <> p <> "," <> display label <> "," <> mail)
          (digits-IsLine mailbox digits)
          (joined " => " (p <> "," <> display label <> "," <> mail) refl (
            joined p ("," <> display label <> "," <> mail)
              (config_value-IsLine (or_else pin "0000") "voicemail pin" p e)
              (joined "," (display label <> "," <> mail) refl (
                joined (display label) ("," <> mail) (display-IsLine label)
                  (joined "," mail refl (display-IsLine _)))))),
      tt,
    )

extension_mailbox-IsLine :
    (label : String) (vm : Option ExtensionVoicemail) (lines : List String)
    → Mailbox (active_mailbox vm)
    → extension_mailbox label vm ≡ done lines
    → All IsLine lines
unfolding extension_mailbox
extension_mailbox-IsLine label none lines sound h = subst (All IsLine) (done_injective h) tt
extension_mailbox-IsLine label (some vm) lines sound h = elim (Bool-cases vm.enabled) [
  | inl on ↦
      mailbox_line-IsLine vm.mailbox vm.pin label vm.email lines (rw on at sound) (rw on at h)
  | inr off ↦ subst (All IsLine) (done_injective (rw off at h)) tt
]

voicemail_entry-IsLine :
    (platform : Platform) (options : ValidationOptions) (label : String) (q : Properties)
    (lines : List String)
    → IsSound platform options q
    → voicemail_entry label q ≡ done lines
    → All IsLine lines
unfolding voicemail_entry
voicemail_entry-IsLine platform options label (Properties.voicemail p) lines sound h =
    mailbox_line-IsLine p.mailbox p.pin label p.email lines sound h
voicemail_entry-IsLine platform options label (Properties.extension p) lines sound h =
    subst (All IsLine) (done_injective h) tt
voicemail_entry-IsLine platform options label (Properties.ivr p) lines sound h =
    subst (All IsLine) (done_injective h) tt
voicemail_entry-IsLine platform options label (Properties.ringgroup p) lines sound h =
    subst (All IsLine) (done_injective h) tt
voicemail_entry-IsLine platform options label (Properties.queue p) lines sound h =
    subst (All IsLine) (done_injective h) tt
voicemail_entry-IsLine platform options label (Properties.schedule p) lines sound h =
    subst (All IsLine) (done_injective h) tt
voicemail_entry-IsLine platform options label Properties.trunk lines sound h = absurd sound
voicemail_entry-IsLine platform options label Properties.external lines sound h = absurd sound

-- In a topology without an error, no value brings a line break, a NUL or a semicolon into the lines
-- of the mailboxes: it adds no line and no comment.
pub voicemail_lines-IsLine :
    (platform : Platform) (options : ValidationOptions) (t : Topology) (lines : List String)
    → has_errors (validate_topology platform options t) ≡ false
    → voicemail_lines t ≡ done lines
    → All IsLine lines
unfolding voicemail_lines
voicemail_lines-IsLine platform options t lines fine h =
    let all = (validate_topology-WellFormed platform options t fine).nodes.sound in
    let first = λ (e : ExtensionNode). extension_mailbox e.node.label e.properties.voicemail in
    let second = λ (n : PbxNode). voicemail_entry n.label n.properties in
    let (a, e₁, h₁) = >>=_done (lines_of first (extension_nodes t.nodes)) _ lines h in
    let (b, e₂, h₂) = >>=_done (lines_of second t.nodes) _ lines h₁ in
    subst (All IsLine) (done_injective h₂) (
      All-append IsLine a b
        (lines_of-All first IsLine (λ e. IsExtension e.properties) (extension_nodes t.nodes) a
          (λ e ls sound made.
            extension_mailbox-IsLine e.node.label e.properties.voicemail ls sound.mailbox made)
          (extension_nodes-All IsExtension (λ n. IsSound platform options n.properties) t.nodes
            (extension_sound platform options) all)
          e₁)
        (lines_of-All second IsLine (λ n. IsSound platform options n.properties) t.nodes b
          (λ n ls sound made.
            voicemail_entry-IsLine platform options n.label n.properties ls sound made)
          all e₂))
