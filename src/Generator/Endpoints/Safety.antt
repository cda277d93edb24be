-- ===== src/Generator/Endpoints/Safety.antt =====
-- The values that are written into the file of `generatePjsipConf`.
use essentials_calls.Base.{
  ℕ, String, ◌≡◌, refl, subst, Bool, true, false, not, ◌||◌, none, some, List, [], ◌∷◌, arith,
  nat_eq, All, All-append, and_true, Bool-cases, inl, inr,
}
use essentials_calls.Base.Texts.{
  ◌<>◌, all_chars, is_word, is_digit, is_letter, digits_only, is_word-digit,
}
use essentials_calls.Model.{ExtensionProperties, Properties, PbxNode, Topology, truthy}
use essentials_calls.Names.{sanitize, endpoint_name}
use essentials_calls.Names.Laws.{sanitize_safe}
use essentials_calls.Validator.Issue.{has_errors}
use essentials_calls.Validator.ScheduleNode.{Platform}
use essentials_calls.Validator.Nodes.{ValidationOptions}
use essentials_calls.Validator.Nodes.Soundness.{IsExtension}
use essentials_calls.Validator.Nodes.WellFormed.{IsSound}
use essentials_calls.Validator.Topology.{validate_topology, validate_topology-WellFormed}
use essentials_calls.Generator.Values.{
  Outcome, done, thrown, ◌>>=◌, lines_of, display, config_value, is_reserved, is_illegal,
}
use essentials_calls.Generator.Values.Safety.{
  is_plain, is_legal, all_chars-join, all_chars-weaker, display-Plain, config_value_safe,
}
use essentials_calls.Generator.Routes.{ExtensionNode, extension_of, extension_nodes}
use essentials_calls.Generator.Endpoints.{or_else, endpoint_block, pjsip_entry, pjsip_lines}

-- Neither a line break, nor NUL, nor the semicolon that starts a comment.
abbrev pub is_line_char : ℕ → Bool
is_line_char c = not (nat_eq c 10 || nat_eq c 13 || nat_eq c 0 || nat_eq c b';')

abbrev pub IsLine : String → Type 0
IsLine s = all_chars is_line_char s ≡ true

word_line : (c : ℕ) → is_word c ≡ true → is_line_char c ≡ true
unfolding is_word is_letter is_digit
word_line c h = ground arith

plain_line : (c : ℕ) → is_plain c ≡ true → is_line_char c ≡ true
unfolding is_plain is_reserved
plain_line c h = ground arith

legal_line : (c : ℕ) → is_legal c ≡ true → is_line_char c ≡ true
unfolding is_legal is_illegal
legal_line c h = ground arith

word-IsLine : (s : String) → all_chars is_word s ≡ true → IsLine s
word-IsLine s h = all_chars-weaker is_word is_line_char s word_line h

pub digits-IsLine : (s : String) → digits_only s ≡ true → IsLine s
unfolding digits_only
digits-IsLine s h =
    word-IsLine s (all_chars-weaker is_digit is_word s is_word-digit (and_true _ _ h).1)

pub display-IsLine : (s : String) → IsLine (display s)
display-IsLine s = all_chars-weaker is_plain is_line_char (display s) plain_line (display-Plain s)

pub config_value-IsLine : (value field w : String) → config_value value field ≡ done w → IsLine w
config_value-IsLine value field w h =
    all_chars-weaker is_legal is_line_char w legal_line (config_value_safe value field w h).1

pub joined : (s t : String) → IsLine s → IsLine t → IsLine (s <> t)
joined s t h k = all_chars-join is_line_char s t h k

endpoint_name-IsLine : (p : ExtensionProperties) → IsLine (endpoint_name p)
unfolding endpoint_name
endpoint_name-IsLine p = word-IsLine (sanitize p.sip_user) (sanitize_safe p.sip_user).0

pub done_injective : {A : Type 0} {a b : A} → done a ≡ done b → a ≡ b
done_injective e = cc e

pub >>=_done :
    {A B : Type 0} (o : Outcome A) (f : A → Outcome B) (b : B)
    → (o >>= f) ≡ done b
    → (a : A) × (o ≡ done a) × (f a ≡ done b)
>>=_done (done a) f b h = (a, refl, h)
>>=_done (thrown e) f b h = cc h

-- What holds of the lines of each element holds of all lines.
pub lines_of-All :
    {A : Type 0} (f : A → Outcome (List String)) (P : String → Type 0) (Q : A → Type 0)
    (xs : List A) (out : List String)
    → ((x : A) (ls : List String) → Q x → f x ≡ done ls → All P ls)
    → All Q xs
    → lines_of f xs ≡ done out
    → All P out
unfolding lines_of
lines_of-All f P Q [] out each all h = subst (All P) (done_injective h) tt
lines_of-All f P Q (x ∷ xs) out each all h =
    let (l, e, h₁) = >>=_done (f x) _ out h in
    let (ls, e₁, h₂) = >>=_done (lines_of f xs) _ out h₁ in
    subst (All P) (done_injective h₂)
      (All-append P l ls (each x l all.0 e) (lines_of-All f P Q xs ls each all.1 e₁))

pub extension_nodes-All :
    (Q : ExtensionProperties → Type 0) (P : PbxNode → Type 0) (ns : List PbxNode)
    → ((n : PbxNode) (p : ExtensionProperties) → P n → n.properties ≡ Properties.extension p → Q p)
    → All P ns
    → All (λ e. Q e.properties) (extension_nodes ns)
unfolding extension_nodes
extension_nodes-All Q P [] f all = tt
extension_nodes-All Q P (n ∷ ns) f all =
    next n.properties refl (extension_nodes ns) (extension_nodes-All Q P ns f all.1)
  where
    next :
        (q : Properties)
        → n.properties ≡ q
        → (rest : List ExtensionNode) → All (λ e. Q e.properties) rest
        → All (λ e. Q e.properties) (elim (extension_of n q) [ some e ↦ e ∷ rest | none ↦ rest ])
    next (Properties.extension p) e rest h = (f n p all.0 e, h)
    next (Properties.ivr p) e rest h = h
    next (Properties.ringgroup p) e rest h = h
    next (Properties.queue p) e rest h = h
    next (Properties.schedule p) e rest h = h
    next (Properties.voicemail p) e rest h = h
    next Properties.trunk e rest h = h
    next Properties.external e rest h = h

endpoint_block-IsLine :
    (md5 : String → String) (ext : ExtensionNode) (password : String) (lines : List String)
    → ((s : String) → all_chars is_word (md5 s) ≡ true)
    → IsExtension ext.properties
    → endpoint_block md5 ext password ≡ done lines
    → All IsLine lines
unfolding endpoint_block
endpoint_block-IsLine md5 ext password lines hex sound h =
    let p = ext.properties in
    let id = endpoint_name p in
    let (user, e₁, h₁) = >>=_done (config_value p.sip_user "sipUser") _ lines h in
    let (secret, e₂, h₂) = >>=_done (config_value password "sipPassword") _ lines h₁ in
    let name = endpoint_name-IsLine p in
    let section = joined "[" (id <> "]") refl (joined id "]" name refl) in
    let shown = display (or_else p.caller_id_name ext.node.label) in
    subst (All IsLine) (done_injective h₂) (
      section,
      (
        refl,
        (
          refl,
          (
            refl,
            (
              refl,
              (
                refl,
                (
                  section,
                  (
                    refl,
                    (
                      refl,
                      (
                        refl,
                        (
                          joined "username=" user refl
                              (config_value-IsLine p.sip_user "sipUser" user e₁),
                          (
                            joined "password_digest=MD5:"
                                (md5 (p.sip_user <> ":asterisk:" <> secret)) refl
                                (word-IsLine _ (hex _)),
                            (
                              refl,
                              (
                                refl,
                                (
                                  section,
                                  (
                                    refl,
                                    (
                                      refl,
                                      (
                                        refl,
                                        (
                                          refl,
                                          (
                                            refl,
                                            (
                                              joined "auth=" id refl name,
                                              (
                                                joined "aors=" id refl name,
                                                (
                                                  joined "callerid=\""
                                                      (shown <> "\" <" <> p.number <> ">") refl
                                                      (joined shown ("\" <" <> p.number <> ">")
                                                        (display-IsLine _)
                                                        (joined "\" <" (p.number <> ">") refl (
                                                          joined p.number ">"
                                                            (digits-IsLine p.number sound.number)
                                                            refl))),
                                                  (refl, tt),
                                                ),
                                              ),
                                            ),
                                          ),
                                        ),
                                      ),
                                    ),
                                  ),
                                ),
                              ),
                            ),
                          ),
                        ),
                      ),
                    ),
                  ),
                ),
              ),
            ),
          ),
        ),
      ),
    )

pjsip_entry-IsLine :
    (md5 : String → String) (ext : ExtensionNode) (lines : List String)
    → ((s : String) → all_chars is_word (md5 s) ≡ true)
    → IsExtension ext.properties
    → pjsip_entry md5 ext ≡ done lines
    → All IsLine lines
unfolding pjsip_entry
pjsip_entry-IsLine md5 ext lines hex sound h =
    elim (Bool-cases (truthy ext.properties.sip_password)) [
      | inl given ↦ endpoint_block-IsLine md5 ext _ lines hex sound (rw given at h)
      | inr missing ↦ cc (rw missing at h)
    ]

pub extension_sound :
    (platform : Platform) (options : ValidationOptions) (n : PbxNode) (p : ExtensionProperties)
    → IsSound platform options n.properties
    → n.properties ≡ Properties.extension p
    → IsExtension p
extension_sound platform options n p h e = subst (IsSound platform options) e h

-- In a topology without an error, no value of an extension brings a line break, a NUL or a
-- semicolon into the lines of the PJSIP configuration: it adds no line and no comment. The digest
-- is to be a text of word characters, as a hexadecimal one is.
pub pjsip_lines-IsLine :
    (platform : Platform) (options : ValidationOptions) (md5 : String → String) (t : Topology)
    (lines : List String)
    → has_errors (validate_topology platform options t) ≡ false
    → ((s : String) → all_chars is_word (md5 s) ≡ true)
    → pjsip_lines md5 t ≡ done lines
    → All IsLine lines
unfolding pjsip_lines
pjsip_lines-IsLine platform options md5 t lines fine hex h =
    lines_of-All (pjsip_entry md5) IsLine (λ e. IsExtension e.properties) (extension_nodes t.nodes)
      lines (λ e ls sound made. pjsip_entry-IsLine md5 e ls hex sound made)
      (extension_nodes-All IsExtension (λ n. IsSound platform options n.properties) t.nodes
        (extension_sound platform options)
        (validate_topology-WellFormed platform options t fine).nodes.sound)
      h
