-- ===== src/Database/Rotation/Materialized.antt =====
-- The passwords behind a rotation of the master key: `rotateSecrets` and `materializedTopology`.
use essentials_calls.Base.{
  ℕ, String, ◌≡◌, refl, sym, ap, ◌∙◌, subst, Bool, true, false, Option, none, some, List, [], ◌∷◌,
  ◌==◌, ==_iff, if◌then◌else◌,
}
use essentials_calls.Base.Entries.{lookup}
use essentials_calls.Model.{Properties, PbxNode, Topology, ExtensionProperties}
use essentials_calls.Security.Cipher.{EncryptedValue, SecretCipher, RoundTrips}
use essentials_calls.Database.Store.{
  Actor, PbxDatabase, Result, ok, err, ◌>>=◌, >>=_ok, ok_injective, audit,
}
use essentials_calls.Database.Secrets.{Secrets, fill, fill_extension, fill_node, fill_nodes}
use essentials_calls.Database.Revisions.{topology_at, selected_revision, materialized_topology}
use essentials_calls.Database.Rotation.{recrypt, rotate_rows, rotate_secrets}

-- What a cipher makes of an entry that may be there.
abbrev pub opened : SecretCipher → String → Option EncryptedValue → Option (Option String)
opened c id none = none
opened c id (some v) = some (c.decrypt v id)

module _ (old new : SecretCipher) (iv : String → String) (law : RoundTrips new) where
  recrypt_opened :
      (id : String) (plain : Option String) (fresh : EncryptedValue)
      → recrypt old new iv id plain ≡ ok fresh
      → new.decrypt fresh id ≡ plain
  unfolding recrypt
  recrypt_opened id none fresh h = cc h
  recrypt_opened id (some p) fresh h =
      subst (λ (v : EncryptedValue). new.decrypt v id ≡ some p) (ok_injective _ _ h)
        (law (iv id) p id)

  -- Each entry opens to the same text, by the new cipher.
  rotated_entry :
      (k : String) (s s' : Secrets)
      → rotate_rows old new iv s ≡ ok s'
      → opened new k (lookup k s') ≡ opened old k (lookup k s)
  unfolding rotate_rows lookup
  rotated_entry k [] s' h =
      ap (λ (x : Secrets). opened new k (lookup k x)) (sym (ok_injective _ _ h))
  rotated_entry k ((id, value) ∷ rest) s' h =
      let (fresh, made, h₁) = >>=_ok (recrypt old new iv id (old.decrypt value id)) _ s' h in
      let (done, others, h₂) = >>=_ok (rotate_rows old new iv rest) _ s' h₁ in
      let ih = rotated_entry k rest done others in
      let same = recrypt_opened id (old.decrypt value id) fresh made in
      subst
        (λ (x : Secrets). opened new k (lookup k x) ≡ opened old k (lookup k ((id, value) ∷ rest)))
        (ok_injective _ _ h₂)
        (if_equal (id == k) k fresh value (lookup k done) (lookup k rest)
          (λ e. subst (λ j. new.decrypt fresh j ≡ old.decrypt value j) ((==_iff id k).0 e) same) ih)
    where
      if_equal :
          (b : Bool) (k : String) (v w : EncryptedValue) (o q : Option EncryptedValue)
          → (b ≡ true → new.decrypt v k ≡ old.decrypt w k)
          → opened new k o ≡ opened old k q
          → opened new k (if b then some v else o) ≡ opened old k (if b then some w else q)
      if_equal true k v w o q f e = ap (λ (x : Option String). some x) (f refl)
      if_equal false k v w o q f e = e

  same_fill :
      (n : PbxNode) (p : ExtensionProperties) (v w : Option EncryptedValue)
      → opened new n.id v ≡ opened old n.id w
      → fill_extension new n p v ≡ fill_extension old n p w
  unfolding fill_extension
  same_fill n p none none e = refl
  same_fill n p none (some w) e = cc e
  same_fill n p (some v) none e = cc e
  same_fill n p (some v) (some w) e = ap (fill new n p) (some_injective _ _ e)
    where
      some_injective : (a b : Option String) → some a ≡ some b → a ≡ b
      some_injective a b e = cc

  same_node :
      (n : PbxNode) (p : Properties) (s s' : Secrets)
      → rotate_rows old new iv s ≡ ok s'
      → fill_node new n p s' ≡ fill_node old n p s
  unfolding fill_node
  same_node n (Properties.extension p) s s' h =
      same_fill n p (lookup n.id s') (lookup n.id s) (rotated_entry n.id s s' h)
  same_node n (Properties.ivr p) s s' h = refl
  same_node n (Properties.ringgroup p) s s' h = refl
  same_node n (Properties.queue p) s s' h = refl
  same_node n (Properties.schedule p) s s' h = refl
  same_node n (Properties.voicemail p) s s' h = refl
  same_node n Properties.trunk s s' h = refl
  same_node n Properties.external s s' h = refl

  same_nodes :
      (ns : List PbxNode) (s s' : Secrets)
      → rotate_rows old new iv s ≡ ok s'
      → fill_nodes new ns s' ≡ fill_nodes old ns s
  unfolding fill_nodes
  same_nodes [] s s' h = refl
  same_nodes (n ∷ ns) s s' h =
      ap (λ (r : Result PbxNode). r >>= λ m. fill_nodes new ns s' >>= λ ms. ok (m ∷ ms))
        (same_node n n.properties s s' h)
      ∙ ap
          (λ (r : Result (List PbxNode)).
            fill_node old n n.properties s >>= λ m. r >>= λ ms. ok (m ∷ ms))
          (same_nodes ns s s' h)

  same_topology :
      (r : Result Topology) (s s' : Secrets)
      → rotate_rows old new iv s ≡ ok s'
      → (r >>= λ t. fill_nodes new t.nodes s' >>= λ ns. ok (record t { nodes = ns }))
        ≡ (r >>= λ t. fill_nodes old t.nodes s >>= λ ns. ok (record t { nodes = ns }))
  same_topology (ok t) s s' h =
      ap (λ (r : Result (List PbxNode)). r >>= λ ns. ok (record t { nodes = ns }))
        (same_nodes t.nodes s s' h)
  same_topology (err e) s s' h = refl

-- After a rotation of the master key, each revision has the topology and the passwords that it had
-- before, where the new cipher decrypts what it encrypts.
pub materialized_topology-rotate_secrets :
    (new : SecretCipher) (iv : String → String) (now : String) (actor : Actor) (revision : Option ℕ)
    (d : PbxDatabase) (out : ℕ × PbxDatabase)
    → RoundTrips new
    → rotate_secrets d.cipher new iv now actor d ≡ ok out
    → materialized_topology revision out.1 ≡ materialized_topology revision d
unfolding rotate_secrets materialized_topology audit topology_at selected_revision
materialized_topology-rotate_secrets new iv now actor revision d out law h =
    let (s, rows, e) = >>=_ok (rotate_rows d.cipher new iv d.sip_secrets) _ out h in
    subst
      (λ (o : ℕ × PbxDatabase).
        materialized_topology revision o.1 ≡ materialized_topology revision d)
      (ok_injective _ _ e)
      (same_topology d.cipher new iv law
        (topology_at (selected_revision revision d.state.current) d) d.sip_secrets s rows)
