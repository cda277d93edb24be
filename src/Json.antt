-- ===== src/Json.antt =====
-- JSON values, and what the backend keeps of the details of an event: `safeDetails` of
-- backend/src/model/database.ts.
pub mod Redaction
use essentials_calls.Base.{String, Bool, ◌||◌, if◌then◌else◌, Option, none, some, ◌==◌}
use essentials_calls.Base.Texts.Search.{mentions}
use essentials_calls.Model.{Number}

mutual
  pub data Json : Type 0 where
    null : Json
    bool : Bool → Json
    number : Number → Json
    text : String → Json
    array : Elements → Json
    object : Fields → Json

  pub data Elements : Type 0 where
    nil : Elements
    cons : Json → Elements → Elements

  pub data Fields : Type 0 where
    end : Fields
    field : String → Json → Fields → Fields

-- `/password|secret|token|ciphertext|authorization|cookie/i.test(key)`
unfoldable pub is_sensitive : String → Bool
is_sensitive key =
    mentions "password" key
    || mentions "secret" key
    || mentions "token" key
    || mentions "ciphertext" key
    || mentions "authorization" key
    || mentions "cookie" key

abbrev pub redacted : Json
redacted = text "[REDACTED]"

unfoldable mutual
  pub safe_details : Json → Json
  safe_details (array xs) = array (safe_elements xs)
  safe_details (object fs) = object (safe_fields fs)
  safe_details null = null
  safe_details (bool b) = bool b
  safe_details (number n) = number n
  safe_details (text s) = text s

  pub safe_elements : Elements → Elements
  safe_elements nil = nil
  safe_elements (cons x xs) = cons (safe_details x) (safe_elements xs)

  pub safe_fields : Fields → Fields
  safe_fields end = end
  safe_fields (field key child rest) =
      let kept = safe_details child in
      field key (if is_sensitive key then redacted else kept) (safe_fields rest)

-- `record[key]` of an object with distinct keys.
abbrev pub get : String → Fields → Option Json
get key end = none
get key (field k child rest) = if k == key then some child else get key rest
