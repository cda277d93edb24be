-- ===== src/Generator/Endpoints.antt =====
-- The endpoints and mailboxes: `generatePjsipConf` and `generateVoicemailConf`.
pub mod Safety
pub mod Total
pub mod Mailboxes
use essentials_calls.Base.{String, Option, none, some, List, [], ◌∷◌, ◌++◌, if◌then◌else◌}
use essentials_calls.Base.Texts.{◌<>◌}
use essentials_calls.Model.{ExtensionVoicemail, Properties, Topology, truthy}
use essentials_calls.Names.{endpoint_name}
use essentials_calls.Generator.Values.{
  Outcome, done, thrown, ◌>>=◌, missing_secret, lines_of, display, config_value,
}
use essentials_calls.Generator.Routes.{ExtensionNode, extension_nodes}

-- `value ?? fallback`
abbrev pub or_else : Option String → String → String
or_else none fallback = fallback
or_else (some value) fallback = value

-- The block of an extension behind the test of its secret. `md5` is the hexadecimal digest of
-- `crypto.createHash('md5')`.
unfoldable pub endpoint_block : (String → String) → ExtensionNode → String → Outcome (List String)
endpoint_block md5 ext password =
    let p = ext.properties in
    let id = endpoint_name p in
    config_value p.sip_user "sipUser" >>= λ user. config_value password "sipPassword" >>= λ secret.
    done (
      ("[" <> id <> "]")
      ∷ "type=aor"
      ∷ "max_contacts=1"
      ∷ "remove_existing=yes"
      ∷ "qualify_frequency=0"
      ∷ ""
      ∷ ("[" <> id <> "]")
      ∷ "type=auth"
      ∷ "auth_type=digest"
      ∷ "realm=asterisk"
      ∷ ("username=" <> user)
      ∷ ("password_digest=MD5:" <> md5 (p.sip_user <> ":asterisk:" <> secret))
      ∷ "supported_algorithms_uas=MD5"
      ∷ ""
      ∷ ("[" <> id <> "]")
      ∷ "type=endpoint"
      ∷ "context=internal"
      ∷ "disallow=all"
      ∷ "allow=ulaw,alaw"
      ∷ "direct_media=no"
      ∷ ("auth=" <> id)
      ∷ ("aors=" <> id)
      ∷ ("callerid=\""
          <> display (or_else p.caller_id_name ext.node.label)
          <> "\" <"
          <> p.number
          <> ">")
      ∷ ""
      ∷ [])

unfoldable pub pjsip_entry : (String → String) → ExtensionNode → Outcome (List String)
pjsip_entry md5 ext =
    if truthy ext.properties.sip_password
    then endpoint_block md5 ext (or_else ext.properties.sip_password "")
    else thrown (missing_secret ext.node.id)

unfoldable pub pjsip_lines : (String → String) → Topology → Outcome (List String)
pjsip_lines md5 t = lines_of (pjsip_entry md5) (extension_nodes t.nodes)

unfoldable pub mailbox_line :
    String → Option String → String → Option String → Outcome (List String)
mailbox_line mailbox pin label email = config_value (or_else pin "0000") "voicemail pin" >>= λ p.
    done
      ((mailbox <> " => " <> p <> "," <> display label <> "," <> display (or_else email "")) ∷ [])

-- The mailbox of an extension, where it is enabled.
unfoldable pub extension_mailbox : String → Option ExtensionVoicemail → Outcome (List String)
extension_mailbox label none = done []
extension_mailbox label (some vm) =
    if vm.enabled then mailbox_line vm.mailbox vm.pin label vm.email else done []

unfoldable pub voicemail_entry : String → Properties → Outcome (List String)
voicemail_entry label (Properties.voicemail p) = mailbox_line p.mailbox p.pin label p.email
voicemail_entry label _ = done []

unfoldable pub voicemail_lines : Topology → Outcome (List String)
voicemail_lines t =
    lines_of (λ e. extension_mailbox e.node.label e.properties.voicemail) (extension_nodes t.nodes)
    >>= λ a. lines_of (λ n. voicemail_entry n.label n.properties) t.nodes >>= λ b. done (a ++ b)
