-- ===== src/Database/Rotation.antt =====
-- `rotateSecrets`: each secret is decrypted by the old cipher and encrypted by the new one, which
-- the process uses from then on.
pub mod Materialized
use essentials_calls.Base.{ℕ, String, Option, none, some, List, [], ◌∷◌, length}
use essentials_calls.Json.{end, field, text, number}
use essentials_calls.Model.{pos}
use essentials_calls.Security.Cipher.{EncryptedValue, SecretCipher}
use essentials_calls.Database.Secrets.{Secrets}
use essentials_calls.Database.Store.{
  Actor, PbxDatabase, Result, ok, err, ◌>>=◌, secret_decryption, audit,
}

module _ (old new : SecretCipher) (random_iv : String → String) where
  -- One row: an error of the old cipher is thrown.
  unfoldable pub recrypt : String → Option String → Result EncryptedValue
  recrypt id none = err (secret_decryption id)
  recrypt id (some plaintext) = ok (new.encrypt (random_iv id) plaintext id)

  unfoldable pub rotate_rows : Secrets → Result Secrets
  unfolding recrypt
  rotate_rows [] = ok []
  rotate_rows ((id, value) ∷ rest) = recrypt id (old.decrypt value id) >>= λ fresh.
      rotate_rows rest >>= λ done. ok ((id, fresh) ∷ done)

  unfoldable pub rotate_secrets : String → Actor → PbxDatabase → Result (ℕ × PbxDatabase)
  unfolding rotate_rows
  rotate_secrets now actor d = rotate_rows d.sip_secrets >>= λ secrets. ok (
    length d.sip_secrets,
    audit now actor "secret.rotate-master-key" "sip-secrets" "success"
        (field "count" (number (pos (length d.sip_secrets))) (field "keyId" (text new.id) end))
        (record d { sip_secrets = secrets; cipher = new }),
  )
