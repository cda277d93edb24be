-- ===== src/Generator/Endpoints/Total.antt =====
-- When `generatePjsipConf` returns a file.
use essentials_calls.Base.{
  ℕ, String, ◌≡◌, refl, subst, Bool, true, false, not, ◌||◌, Option, some, List, [], ◌∷◌, ◌++◌,
  arith, nat_eq, All, and_true, if◌then◌else◌, ap, ◌∙◌,
}
use essentials_calls.Base.Texts.{all_chars, is_word, is_digit, is_letter, is_empty}
use essentials_calls.Model.{ExtensionProperties, Properties, PbxNode, Topology, truthy}
use essentials_calls.Validator.Issue.{has_errors}
use essentials_calls.Validator.ScheduleNode.{Platform}
use essentials_calls.Validator.Extension.{is_sip_char, is_sip_user}
use essentials_calls.Validator.Nodes.{ValidationOptions}
use essentials_calls.Validator.Nodes.Soundness.{IsExtension}
use essentials_calls.Validator.Nodes.WellFormed.{IsSound}
use essentials_calls.Validator.Topology.{validate_topology, validate_topology-WellFormed}
use essentials_calls.Generator.Values.{
  Outcome, done, thrown, missing_secret, ◌>>=◌, lines_of, config_value, is_illegal,
}
use essentials_calls.Generator.Values.Safety.{all_chars-weaker, is_legal}
use essentials_calls.Generator.Routes.{ExtensionNode, extension_nodes}
use essentials_calls.Generator.Endpoints.{or_else, endpoint_block, pjsip_entry, pjsip_lines}
use essentials_calls.Generator.Endpoints.Safety.{
  IsLine, extension_nodes-All, extension_sound, pjsip_lines-IsLine,
}

-- None of carriage return, line feed, NUL, semicolon and square brackets.
abbrev pub is_password_char : ℕ → Bool
is_password_char c =
    not
      (nat_eq c 10 || nat_eq c 13 || nat_eq c 0 || nat_eq c b';' || nat_eq c b'[' || nat_eq c b']')

-- An extension comes with a password that can be written.
abbrev pub IsGiven : ExtensionProperties → Type 0
IsGiven p =
    (s : String) × (p.sip_password ≡ some s)
    × (is_empty s ≡ false)
    × (all_chars is_password_char s ≡ true)

abbrev pub MayBeGiven : Properties → Type 0
MayBeGiven (Properties.extension p) = IsGiven p
MayBeGiven _ = Unit

password_legal : (c : ℕ) → is_password_char c ≡ true → is_legal c ≡ true
unfolding is_legal is_illegal
password_legal c h = ground arith

sip_legal : (c : ℕ) → is_sip_char c ≡ true → is_legal c ≡ true
unfolding is_legal is_illegal is_sip_char is_word is_letter is_digit
sip_legal c h = ground arith

accepted :
    (value field : String)
    → is_empty value ≡ false
    → all_chars is_legal value ≡ true
    → config_value value field ≡ done value
unfolding config_value is_legal
accepted value field present legal = rw (present, legal) refl

user_accepted :
    (p : ExtensionProperties) → IsExtension p → config_value p.sip_user "sipUser" ≡ done p.sip_user
unfolding is_sip_user
user_accepted p sound =
    let (present, chars) = and_true (not (is_empty p.sip_user)) _ sound.user in
    accepted p.sip_user "sipUser" (ground arith)
      (all_chars-weaker is_sip_char is_legal p.sip_user sip_legal chars)

two_values :
    (a b : Outcome String) (x y : String) (f : String → String → List String)
    → a ≡ done x
    → b ≡ done y
    → (ls : List String) × ((a >>= λ u. b >>= λ v. done (f u v)) ≡ done ls)
two_values a b x y f e k = (f x y, rw (e, k) refl)

block_returns :
    (md5 : String → String) (ext : ExtensionNode) (password : String)
    → IsExtension ext.properties
    → config_value password "sipPassword" ≡ done password
    → (ls : List String) × (endpoint_block md5 ext password ≡ done ls)
unfolding endpoint_block
block_returns md5 ext password sound e =
    two_values (config_value ext.properties.sip_user "sipUser")
      (config_value password "sipPassword") _ _ _ (user_accepted ext.properties sound) e

entry_returns :
    (md5 : String → String) (ext : ExtensionNode)
    → IsExtension ext.properties × IsGiven ext.properties
    → (ls : List String) × (pjsip_entry md5 ext ≡ done ls)
unfolding pjsip_entry
entry_returns md5 ext (sound, (s, given, present, chars)) =
    let legal = all_chars-weaker is_password_char is_legal s password_legal chars in
    let (ls, made) = block_returns md5 ext s sound (accepted s "sipPassword" present legal) in
    (
      ls,
      ap
            (λ (o : Option String).
              if truthy o
              then endpoint_block md5 ext (or_else o "")
              else thrown (missing_secret ext.node.id))
            given
          ∙ ap
              (λ (b : Bool).
                if b then endpoint_block md5 ext s else thrown (missing_secret ext.node.id))
              (truthy_some s present)
          ∙ made,
    )
  where
    truthy_some : (u : String) → is_empty u ≡ false → truthy (some u) ≡ true
    truthy_some u e = ap (λ (b : Bool). elim b [ true ↦ false | false ↦ true ]) e

lines_of_total :
    {A : Type 0} (f : A → Outcome (List String)) (Q : A → Type 0) (xs : List A)
    → ((x : A) → Q x → (ls : List String) × (f x ≡ done ls))
    → All Q xs
    → (out : List String) × (lines_of f xs ≡ done out)
unfolding lines_of
lines_of_total f Q [] each all = ([], refl)
lines_of_total f Q (x ∷ xs) each all =
    let (l, e) = each x all.0 in
    let (ls, k) = lines_of_total f Q xs each all.1 in (l ++ ls, rw (e, k) refl)

both : {A : Type 0} (P Q : A → Type 0) (xs : List A) → All P xs → All Q xs → All (λ x. P x × Q x) xs
both P Q [] h k = tt
both P Q (x ∷ xs) h k = ((h.0, k.0), both P Q xs h.1 k.1)

-- In a topology without an error, each extension of which comes with a password that is not empty
-- and has no line break, NUL, semicolon or square bracket, the PJSIP configuration is generated,
-- and none of its lines has a line break, a NUL or a semicolon. The digest is to be a text of word
-- characters.
pub pjsip_lines_total :
    (platform : Platform) (options : ValidationOptions) (md5 : String → String) (t : Topology)
    → has_errors (validate_topology platform options t) ≡ false
    → All (λ (n : PbxNode). MayBeGiven n.properties) t.nodes
    → ((s : String) → all_chars is_word (md5 s) ≡ true)
    → (lines : List String) × (pjsip_lines md5 t ≡ done lines) × All IsLine lines
unfolding pjsip_lines
pjsip_lines_total platform options md5 t fine given hex =
    let Given = λ (n : PbxNode). MayBeGiven n.properties in
    let Sound = λ (n : PbxNode). IsSound platform options n.properties in
    let (lines, made) =
      lines_of_total (pjsip_entry md5) (λ e. IsExtension e.properties × IsGiven e.properties)
        (extension_nodes t.nodes) (entry_returns md5)
        (extension_nodes-All (λ p. IsExtension p × IsGiven p) (λ n. Sound n × Given n) t.nodes
          (λ n p h e. (extension_sound platform options n p h.0 e, subst MayBeGiven e h.1))
          (both Sound Given t.nodes
            (validate_topology-WellFormed platform options t fine).nodes.sound given)) in
    (lines, made, pjsip_lines-IsLine platform options md5 t lines fine hex made)
