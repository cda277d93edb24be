-- ===== src/Database/Secrets/Restored.antt =====
-- A node whose password is sealed by `prepareSecrets` and read again by `materializedTopology`.
use essentials_calls.Base.{
  String, ◌≡◌, refl, sym, ap, ◌∙◌, subst, Bool, true, false, Option, none, some, List, [], ◌∷◌, map,
  contains, ◌==◌, ==_iff, inl, inr, Bool-cases, if◌then◌else◌,
}
use essentials_calls.Base.Entries.{lookup, set, is_some}
use essentials_calls.Base.Texts.{is_empty}
use essentials_calls.Documents.{redact_extension, redact_node}
use essentials_calls.Model.{ExtensionProperties, Properties, PbxNode}
use essentials_calls.Security.Cipher.{EncryptedValue, SecretCipher, RoundTrips}
use essentials_calls.Database.Store.{Result, ok, ◌>>=◌, >>=_ok, ok_injective}
use essentials_calls.Database.Secrets.{
  Secrets, with_properties, without_password, extension_ids, purge, put_secret, put_if_given,
  prepare_extension, prepare_nodes, fill, fill_extension, fill_node, fill_nodes,
}

-- The extension is given a password, and its id occurs once.
abbrev pub HasPassword : ExtensionProperties → Type 0
HasPassword p = (s : String) × (p.sip_password ≡ some s) × (is_empty s ≡ false)

abbrev pub HavePasswords : List PbxNode → Type 0
HavePasswords [] = Unit
HavePasswords (n ∷ ns) = elim n.properties [
  | Properties.extension p ↦
      HasPassword p × (contains n.id (extension_ids ns) ≡ false) × HavePasswords ns
  | _ ↦ HavePasswords ns
]

-- A node as the generator is given it: an extension notes that it has a secret.
abbrev pub configured : PbxNode → PbxNode
configured n = elim n.properties [
  | Properties.extension p ↦ with_properties n (record p { sip_secret = some true })
  | _ ↦ n
]

pub contains-purge :
    (k : String) (ids : List String) (s : Secrets)
    → contains k ids ≡ true
    → lookup k (purge ids s) ≡ lookup k s
unfolding purge lookup
contains-purge k ids [] h = refl
contains-purge k ids ((id, v) ∷ rest) h =
    kept_or_not (contains id ids) refl (contains-purge k ids rest h)
  where
    kept_or_not :
        (b : Bool)
        → contains id ids ≡ b
        → lookup k (purge ids rest) ≡ lookup k rest
        → lookup k (elim b [ true ↦ (id, v) ∷ purge ids rest | false ↦ purge ids rest ])
          ≡ (if id == k then some v else lookup k rest)
    kept_or_not true e ih = ap (λ o. if id == k then some v else o) ih
    kept_or_not false e ih = elim (Bool-cases (id == k)) [
      | inl same ↦ cc (subst (λ j. contains j ids ≡ false) ((==_iff id k).0 same) e, h)
      | inr other ↦ rw other ih
    ]

module _ (cipher : SecretCipher) (iv : String → String) where
  abbrev pub sealed : PbxNode → String → EncryptedValue
  sealed n plaintext = cipher.encrypt (iv n.id) plaintext n.id

  -- What `prepareSecrets` makes of an extension with a password.
  pub prepared_extension :
      (n : PbxNode) (p : ExtensionProperties) (given : Option String) (plaintext : String)
      (s : Secrets)
      → given ≡ some plaintext
      → is_empty plaintext ≡ false
      → prepare_extension cipher iv true n p given s
        ≡ ok (
          with_properties n
              (without_password p (is_some (lookup n.id (set n.id (sealed n plaintext) s)))),
          set n.id (sealed n plaintext) s,
        )
  unfolding prepare_extension put_if_given put_secret
  prepared_extension n p none plaintext s h e = cc h
  prepared_extension n p (some t) plaintext s h e =
      let same : t ≡ plaintext = some_injective _ _ h in
      ap (λ (x : Secrets). ok (with_properties n (without_password p (is_some (lookup n.id x))), x))
        (stored t (is_empty t) refl (ap is_empty same ∙ e))
      ∙ ap
          (λ (x : String). ok (
            with_properties n
                (without_password p (is_some (lookup n.id (set n.id (sealed n x) s)))),
            set n.id (sealed n x) s,
          ))
          same
    where
      some_injective : (a b : String) → some a ≡ some b → a ≡ b
      some_injective a b e = cc

      stored :
          (t : String) (b : Bool)
          → is_empty t ≡ b
          → b ≡ false
          → elim b [ true ↦ s | false ↦ set n.id (sealed n t) s ] ≡ set n.id (sealed n t) s
      stored t true q h = cc h
      stored t false q h = refl

  -- The passwords of the nodes are put into the table, and filling the redacted nodes from it gives
  -- the nodes back.
  abbrev pub Restores : List PbxNode → Type 0
  Restores ns =
      (s : Secrets) (out : List PbxNode × Secrets)
      → prepare_nodes cipher iv true ns s ≡ ok out
      → HavePasswords ns
      → ((k : String) → contains k (extension_ids ns) ≡ false → lookup k out.1 ≡ lookup k s)
        × ((all : Secrets)
            → ((k : String) → contains k (extension_ids ns) ≡ true → lookup k all ≡ lookup k out.1)
            → fill_nodes cipher (map redact_node out.0) all ≡ ok (map configured ns))

  -- A node that is not an extension passes through.
  pub plain_node :
      (n : PbxNode) (ns : List PbxNode)
      → Restores ns
      → (s : Secrets) (out : List PbxNode × Secrets)
      → (prepare_nodes cipher iv true ns s >>= λ (ms, s'). ok (n ∷ ms, s')) ≡ ok out
      → HavePasswords ns
      → ((k : String) → contains k (extension_ids ns) ≡ false → lookup k out.1 ≡ lookup k s)
        × (b : List PbxNode × Secrets) × ((n ∷ b.0, b.1) ≡ out)
        × ((all : Secrets)
            → ((k : String) → contains k (extension_ids ns) ≡ true → lookup k all ≡ lookup k out.1)
            → fill_nodes cipher (map redact_node b.0) all ≡ ok (map configured ns))
  plain_node n ns ih s out h given =
      let (b, e, h₁) = >>=_ok (prepare_nodes cipher iv true ns s) _ out h in
      let q = ok_injective _ _ h₁ in
      let (keeps, fills) = ih s b e given in
      let snd : b.1 ≡ out.1 = ap (λ (x : List PbxNode × Secrets). x.1) q in
      (
        λ k c. ap (lookup k) (sym snd) ∙ keeps k c,
        b,
        q,
        λ all f. fills all (λ k c. f k c ∙ ap (lookup k) (sym snd)),
      )

  -- The node is filled as it should be, whatever the table, and so are the others.
  pub filled :
      (m n : PbxNode) (ns : List PbxNode) (out b : List PbxNode × Secrets)
      → (m ∷ b.0, b.1) ≡ out
      → (all : Secrets)
      → fill_node cipher (redact_node m) (redact_node m).properties all ≡ ok (configured n)
      → fill_nodes cipher (map redact_node b.0) all ≡ ok (map configured ns)
      → fill_nodes cipher (map redact_node out.0) all ≡ ok (map configured (n ∷ ns))
  unfolding fill_nodes
  filled m n ns out b q all one rest =
      subst
        (λ (x : List PbxNode × Secrets).
          fill_nodes cipher (map redact_node x.0) all ≡ ok (map configured (n ∷ ns)))
        q
        (ap
            (λ (r : Result PbxNode).
              r >>= λ m'. fill_nodes cipher (map redact_node b.0) all >>= λ ms. ok (m' ∷ ms))
            one
          ∙ ap (λ (r : Result (List PbxNode)). r >>= λ ms. ok (configured n ∷ ms)) rest)

  module _ (law : RoundTrips cipher) where
    pub filled_extension :
        (n : PbxNode) (p : ExtensionProperties) (t : String) (all : Secrets) (c : Bool)
        → p.sip_password ≡ some t
        → lookup n.id all ≡ some (sealed n t)
        → fill_extension cipher
            (redact_node (with_properties n (without_password p c)))
            (redact_extension (without_password p c))
            (lookup n.id all)
          ≡ ok (configured (with_properties n p))
    unfolding fill_extension fill
    filled_extension n p t all c given here =
        let m = redact_node (with_properties n (without_password p c)) in
        let r = redact_extension (without_password p c) in
        ap (fill_extension cipher m r) here
        ∙ ap (fill cipher m r) (law (iv n.id) t n.id)
        ∙ ap
            (λ (o : Option String).
              ok (with_properties n (record p { sip_password = o; sip_secret = some true })))
            (sym given)
