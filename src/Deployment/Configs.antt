-- ===== src/Deployment/Configs.antt =====
-- `validateGeneratedConfigs` and `withDeploymentCanary`, on the code points of the files.

use essentials_calls.Base.{
  ℕ, ◌+◌, ◌*◌, String, Bool, true, false, not, ◌&&◌, ◌||◌, Option, none, some, List, [], ◌∷◌, any,
  leb, ltb, nat_eq, if◌then◌else◌,
}
use essentials_calls.Base.Texts.{◌<>◌, codes, units}
use essentials_calls.Base.Texts.Search.{begins, includes, starts_with, lower}
use essentials_calls.Generator.Values.{is_space}
use essentials_calls.Generator.Files.{GeneratedConfigs}

-- `Buffer.byteLength`, in UTF-8.
unfoldable pub byte_size : ℕ → ℕ
byte_size c = if ltb c 0x80 then 1 else if ltb c 0x800 then 2 else if ltb c 0x10000 then 3 else 4

unfoldable pub byte_length : List ℕ → ℕ
byte_length [] = 0
byte_length (c ∷ cs) = byte_size c + byte_length cs

unfoldable pub combined_bytes : GeneratedConfigs → ℕ
unfolding byte_length
combined_bytes c =
    byte_length (codes c.pjsip)
    + byte_length (codes c.extensions)
    + byte_length (codes c.queues)
    + byte_length (codes c.voicemail)

-- A line break of a regular expression.
unfoldable pub is_break : ℕ → Bool
is_break c = nat_eq c 10 || nat_eq c 13 || nat_eq c 0x2028 || nat_eq c 0x2029

unfoldable pub skip_space : List ℕ → List ℕ
skip_space [] = []
skip_space (c ∷ cs) = let rest = skip_space cs in if is_space c then rest else c ∷ cs

-- `\s*=`
unfoldable pub is_assigned : List ℕ → Bool
unfolding skip_space
is_assigned cs = starts_with (codes "=") (skip_space cs)

-- What follows the word, where the text starts with it.
unfoldable pub after_word : List ℕ → List ℕ → Option (List ℕ)
after_word [] cs = some cs
after_word (p ∷ ps) [] = none
after_word (p ∷ ps) (c ∷ cs) = let rest = after_word ps cs in if nat_eq p c then rest else none

unfoldable pub assigns : Option (List ℕ) → Bool
unfolding is_assigned
assigns none = false
assigns (some cs) = is_assigned cs

-- `(?:#include|#exec|\s*system\s*=)` at a place, of a text in lower case.
unfoldable pub is_directive : List ℕ → Bool
unfolding assigns after_word skip_space
is_directive cs =
    starts_with (codes "#include") cs
    || starts_with (codes "#exec") cs
    || assigns (after_word (codes "system") (skip_space cs))

-- The same at the start of some line; the flag says that a line starts here.
unfoldable pub has_directive : Bool → List ℕ → Bool
unfolding is_directive is_break
has_directive starts [] = starts && is_directive []
has_directive starts (c ∷ cs) = starts && is_directive (c ∷ cs) || has_directive (is_break c) cs

-- `content.split('\n')`
unfoldable pub split_lines : List ℕ → List (List ℕ)
split_lines [] = [] ∷ []
split_lines (c ∷ cs) =
    let rest = split_lines cs in
    if nat_eq c 10 then [] ∷ rest else elim rest [ [] ↦ (c ∷ []) ∷ [] | l ∷ ls ↦ (c ∷ l) ∷ ls ]

unfoldable pub units_of : List ℕ → ℕ
units_of [] = 0
units_of (c ∷ cs) = units c + units_of cs

-- `/^\[[^\]]*$/`
unfoldable pub is_open_section : List ℕ → Bool
is_open_section l = starts_with (codes "[") l && not (any (λ c. nat_eq c b']') l)

unfoldable pub is_bad_line : List ℕ → Bool
unfolding units_of is_open_section
is_bad_line l = ltb 2048 (units_of l) || is_open_section l

-- What is wrong with one file.
unfoldable pub is_bad_file : String → Bool
unfolding has_directive split_lines is_bad_line
is_bad_file content =
    not (begins "; AUTO-GENERATED by Simple Calls" content)
    || any (λ c. nat_eq c 0 || nat_eq c 13) (codes content)
    || has_directive true (lower (codes content))
    || any is_bad_line (split_lines (codes content))

-- `validateGeneratedConfigs` throws where this is false.
unfoldable pub are_valid : GeneratedConfigs → Bool
unfolding combined_bytes is_bad_file
are_valid c =
    leb (combined_bytes c) (4 * 1024 * 1024)
    && not (is_bad_file c.pjsip)
    && not (is_bad_file c.extensions)
    && not (is_bad_file c.queues)
    && not (is_bad_file c.voicemail)
    && includes "[internal]" c.extensions
    && includes "[callflow]" c.extensions

-- An entry of the dialplan that names the deployment.
unfoldable pub with_deployment_canary : GeneratedConfigs → String → GeneratedConfigs
with_deployment_canary c id = record c {
  extensions =
      c.extensions <> "\n\n[essentials_deploy_canary]\nexten => " <> id
      <> ",1,NoOp(ESSENTIALS_DEPLOYMENT_" <> id <> ")\n same => n,Hangup()\n";
}

-- The text whose SHA-256 is the checksum: each file behind its name, all with a NUL behind.
unfoldable pub checksum_text : GeneratedConfigs → String
checksum_text c =
    "pjsip\0" <> c.pjsip <> "\0extensions\0" <> c.extensions <> "\0queues\0" <> c.queues
    <> "\0voicemail\0" <> c.voicemail <> "\0"
