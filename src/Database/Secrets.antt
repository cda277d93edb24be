-- ===== src/Database/Secrets.antt =====
-- The encrypted SIP passwords: `putSecret`, `prepareSecrets` and the loop of
-- `materializedTopology`. `random_iv` gives the random bytes that an operation draws for a node.
pub mod Restored
pub mod RoundTrip
use essentials_calls.Base.{
  String, Bool, true, false, not, Option, none, some, List, [], ◌∷◌, contains, filter,
}
use essentials_calls.Base.Entries.{Entries, lookup, set, is_some}
use essentials_calls.Base.Texts.{is_empty}
use essentials_calls.Model.{ExtensionProperties, Properties, PbxNode, Topology, is_configured}
use essentials_calls.Documents.{redact_topology}
use essentials_calls.Security.Cipher.{EncryptedValue, SecretCipher}
use essentials_calls.Database.Store.{Result, ok, err, ◌>>=◌, plaintext_secret, secret_decryption}

abbrev pub Secrets : Type 0
Secrets = Entries EncryptedValue

abbrev pub with_properties : PbxNode → ExtensionProperties → PbxNode
with_properties n p = record n { properties = Properties.extension p }

-- The password is deleted, and whether one is stored is noted.
abbrev pub without_password : ExtensionProperties → Bool → ExtensionProperties
without_password p configured = record p { sip_password = none; sip_secret = some configured }

-- A password that was decrypted.
abbrev pub with_password : ExtensionProperties → String → ExtensionProperties
with_password p plaintext = record p { sip_password = some plaintext; sip_secret = some true }

abbrev pub extension_ids : List PbxNode → List String
extension_ids [] = []
extension_ids (n ∷ ns) = elim n.properties [
  | Properties.extension p ↦ n.id ∷ extension_ids ns
  | _ ↦ extension_ids ns
]

-- `DELETE` of the secrets whose extension is gone.
unfoldable pub purge : List String → Secrets → Secrets
purge ids [] = []
purge ids ((id, value) ∷ rest) =
    let kept = purge ids rest in elim (contains id ids) [ true ↦ (id, value) ∷ kept | false ↦ kept ]

module _ (cipher : SecretCipher) (random_iv : String → String) where
  unfoldable pub put_secret : String → String → Secrets → Secrets
  put_secret id plaintext s = set id (cipher.encrypt (random_iv id) plaintext id) s

  -- A password that is not empty is stored.
  unfoldable pub put_if_given : String → String → Secrets → Secrets
  unfolding put_secret
  put_if_given id plaintext s = elim (is_empty plaintext) [
    | true ↦ s
    | false ↦ put_secret id plaintext s
  ]

  unfoldable pub prepare_extension :
      Bool → PbxNode → ExtensionProperties → Option String → Secrets → Result (PbxNode × Secrets)
  prepare_extension allow n p none s =
      ok (with_properties n (without_password p (is_some (lookup n.id s))), s)
  prepare_extension false n p (some plaintext) s = err plaintext_secret
  prepare_extension true n p (some plaintext) s =
      let stored = put_if_given n.id plaintext s in
      ok (with_properties n (without_password p (is_some (lookup n.id stored))), stored)

  unfoldable pub prepare_node : Bool → PbxNode → Properties → Secrets → Result (PbxNode × Secrets)
  unfolding prepare_extension
  prepare_node allow n (Properties.extension p) s = prepare_extension allow n p p.sip_password s
  prepare_node allow n _ s = ok (n, s)

  unfoldable pub prepare_nodes : Bool → List PbxNode → Secrets → Result (List PbxNode × Secrets)
  unfolding prepare_node
  prepare_nodes allow [] s = ok ([], s)
  prepare_nodes allow (n ∷ ns) s = prepare_node allow n n.properties s >>= λ (m, s').
      prepare_nodes allow ns s' >>= λ (ms, s''). ok (m ∷ ms, s'')

  unfoldable pub prepare_secrets : Bool → Topology → Secrets → Result (Topology × Secrets)
  unfolding prepare_nodes purge
  prepare_secrets allow t s = prepare_nodes allow t.nodes s >>= λ (ns, s').
      ok (redact_topology (record t { nodes = ns }), purge (extension_ids t.nodes) s')

module _ (cipher : SecretCipher) where
  -- `decrypt` throws where it returns none.
  unfoldable pub fill : PbxNode → ExtensionProperties → Option String → Result PbxNode
  fill n p none = err (secret_decryption n.id)
  fill n p (some plaintext) = ok (with_properties n (with_password p plaintext))

  unfoldable pub missing : PbxNode → Bool → Result PbxNode
  missing n true = err (secret_decryption n.id)
  missing n false = ok n

  unfoldable pub fill_extension :
      PbxNode → ExtensionProperties → Option EncryptedValue → Result PbxNode
  unfolding fill missing
  fill_extension n p (some value) = fill n p (cipher.decrypt value n.id)
  fill_extension n p none = missing n (is_configured p.sip_secret)

  unfoldable pub fill_node : PbxNode → Properties → Secrets → Result PbxNode
  unfolding fill_extension
  fill_node n (Properties.extension p) s = fill_extension n p (lookup n.id s)
  fill_node n _ s = ok n

  unfoldable pub fill_nodes : List PbxNode → Secrets → Result (List PbxNode)
  unfolding fill_node
  fill_nodes [] s = ok []
  fill_nodes (n ∷ ns) s = fill_node n n.properties s >>= λ m. fill_nodes ns s >>= λ ms. ok (m ∷ ms)
