-- ===== src/Names.antt =====
-- The names that the generated configuration uses: backend/src/asterisk/configGenerator.ts. The
-- validator (shared/src/validator.ts) normalises with the same expression.
pub mod Laws
use Prim.Native.Char.{code}
use Prim.Native.String
use essentials_calls.Base.{String, if◌then◌else◌}
use essentials_calls.Base.Texts.{is_word, is_astral, ◌<>◌}
use essentials_calls.Model.{ExtensionProperties}

-- `id.replace(/[^A-Za-z0-9_]/g, '_')`: the expression sees UTF-16 units, so that a character past
-- U+FFFF becomes two underscores.
unfoldable pub sanitize : String → String
sanitize String.[] = ""
sanitize (String.◌∷◌ c s) =
    let rest = sanitize s in
    if is_word (code c)
    then String.◌∷◌ c rest
    else if is_astral (code c)
    then String.◌∷◌ "_" (String.◌∷◌ "_" rest)
    else String.◌∷◌ "_" rest

unfoldable pub endpoint_name : ExtensionProperties → String
endpoint_name p = sanitize p.sip_user

unfoldable pub node_name : String → String
node_name id = "node_" <> sanitize id

unfoldable pub context_name : String → String
context_name id = "ivr_" <> sanitize id
