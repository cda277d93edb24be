-- ===== src/Generator/Files.antt =====
-- The files: `generateExtensionsConf` and `generateAll`, and what the other files begin with.
use essentials_calls.Base.{
  ℕ, suc, ◌+◌, String, Option, none, some, List, [], ◌∷◌, ◌++◌, if◌then◌else◌,
}
use essentials_calls.Base.Texts.{◌<>◌, join}
use essentials_calls.Model.{
  ExtensionVoicemail, Properties, PbxNode, Edge, Topology, node_type, entrypoint_base,
}
use essentials_calls.Names.{endpoint_name, node_name}
use essentials_calls.Validator.Transitions.{type_name}
use essentials_calls.Generator.Values.{Outcome, done, ◌>>=◌, lines_of, display, show}
use essentials_calls.Generator.Routes.{ExtensionNode, extension_nodes, outgoing, find_fallback_edge}
use essentials_calls.Generator.Endpoints.{pjsip_lines, voicemail_lines}
use essentials_calls.Generator.Queues.{queue_lines}
use essentials_calls.Generator.Callflow.{ivr_context, callflow_entry, goto_line, hangup_line}

abbrev pub header : String
header = "; AUTO-GENERATED by Simple Calls backend. Do not edit by hand."

-- `lines.join('\n')`, behind the header.
unfoldable pub file_of : List String → String
file_of lines = join "\n" (header ∷ "" ∷ lines)

abbrev pub no_answer_lines : Option Edge → Option ExtensionVoicemail → List String
no_answer_lines (some fallback) vm = goto_line fallback ∷ []
no_answer_lines none none = []
no_answer_lines none (some vm) =
    if vm.enabled then (" same => n,VoiceMail(" <> vm.mailbox <> "@default,u)") ∷ [] else []

-- An extension in [internal].
unfoldable pub internal_entry : Topology → ExtensionNode → List String
internal_entry t ext =
    let p = ext.properties in
    ("exten => " <> p.number <> ",1,NoOp(Calling " <> display ext.node.label <> ")")
    ∷ (" same => n,Dial(PJSIP/" <> endpoint_name p <> ",20)")
    ∷ (no_answer_lines (find_fallback_edge (outgoing t ext.node.id)) p.voicemail
        ++ hangup_line ∷ [])

-- The test entry points, from an index on.
unfoldable pub entrypoint_lines : ℕ → List PbxNode → List String
entrypoint_lines i [] = []
entrypoint_lines i (n ∷ ns) =
    ("exten => "
      <> show (entrypoint_base + i)
      <> ",1,Goto(callflow,"
      <> node_name n.id
      <> ",1)  ; "
      <> type_name (node_type n)
      <> " "
      <> display n.label)
    ∷ entrypoint_lines (suc i) ns

unfoldable pub ivr_entry : Topology → PbxNode → Properties → Outcome (List String)
ivr_entry t n (Properties.ivr p) = ivr_context t n.id n.label p
ivr_entry t n _ = done []

unfoldable pub internal_lines : Topology → List ExtensionNode → List String
internal_lines t [] = []
internal_lines t (e ∷ es) = internal_entry t e ++ internal_lines t es

unfoldable pub extensions_lines : Topology → Outcome (List String)
extensions_lines t = lines_of (callflow_entry t) t.nodes >>= λ flow.
    lines_of (λ n. ivr_entry t n n.properties) t.nodes >>= λ menus. done (
      "[internal]"
      ∷ "include => entrypoints"
      ∷ (internal_lines t (extension_nodes t.nodes)
          ++ ""
            ∷ "[entrypoints]"
            ∷ (entrypoint_lines 0 t.nodes ++ "" ∷ "[callflow]" ∷ (flow ++ menus))))

pub record GeneratedConfigs : Type 0 where
  pub pjsip : String
  pub extensions : String
  pub queues : String
  pub voicemail : String

unfoldable pub generate_all : (String → String) → Topology → Outcome GeneratedConfigs
generate_all md5 t = pjsip_lines md5 t >>= λ pjsip. extensions_lines t >>= λ extensions.
    voicemail_lines t >>= λ voicemail. done (record {
      pjsip = file_of pjsip;
      extensions = file_of extensions;
      queues = file_of (queue_lines t t.nodes);
      voicemail = file_of voicemail;
    })
