-- ===== src/Security/Cipher.antt =====
-- `SecretCipher` of backend/src/security/crypto.ts, which encrypts the SIP passwords at rest.
use essentials_calls.Base.{
  String, ◌≡◌, refl, false, Option, none, some, ◌==◌, ==_refl, if◌then◌else◌,
}

pub record EncryptedValue : Type 0 where
  pub ciphertext : String
  pub iv : String
  pub tag : String
  pub key_id : String

-- What the database asks of a cipher. `encrypt` is given the random bytes that it draws; `decrypt`
-- returns none where it throws.
pub record SecretCipher : Type 0 where
  pub id : String
  pub encrypt : String → String → String → EncryptedValue
  pub decrypt : EncryptedValue → String → Option String

-- A text that is encrypted under a context is decrypted under it.
abbrev pub RoundTrips : SecretCipher → Type 0
RoundTrips c =
    (iv plaintext context : String)
    → c.decrypt (c.encrypt iv plaintext context) context ≡ some plaintext

-- AES-256-GCM: from key, initialisation vector, additional data and text to ciphertext and tag, and
-- back, where the tag is that of the ciphertext; and the digest that names a key.
pub record Gcm : Type 0 where
  pub seal : String → String → String → String → String × String
  pub unseal : String → String → String → String → String → Option String
  pub key_digest : String → String

abbrev pub Unseals : Gcm → Type 0
Unseals g =
    (key iv context plaintext : String)
    → g.unseal key iv context (g.seal key iv context plaintext).1
        (g.seal key iv context plaintext).0
      ≡ some plaintext

module _ (g : Gcm) (key : String) where
  unfoldable pub encrypt : String → String → String → EncryptedValue
  encrypt iv plaintext context = record {
    ciphertext = (g.seal key iv context plaintext).0;
    iv = iv;
    tag = (g.seal key iv context plaintext).1;
    key_id = g.key_digest key;
  }

  unfoldable pub decrypt : EncryptedValue → String → Option String
  decrypt value context =
      let opened = g.unseal key value.iv context value.tag value.ciphertext in
      if value.key_id == g.key_digest key then opened else none

  unfoldable pub secret_cipher : SecretCipher
  secret_cipher = record { id = g.key_digest key; encrypt = encrypt; decrypt = decrypt }

-- The cipher of a key decrypts what it encrypted, where AES-256-GCM opens what it sealed.
pub secret_cipher-RoundTrips :
    (g : Gcm) (key : String) → Unseals g → RoundTrips (secret_cipher g key)
unfolding secret_cipher encrypt decrypt
secret_cipher-RoundTrips g key unseals iv plaintext context =
    rw (==_refl (g.key_digest key)) (unseals key iv context plaintext)

-- A value that names another key is not decrypted.
pub decrypt-other_key :
    (g : Gcm) (key : String) (value : EncryptedValue) (context : String)
    → (value.key_id == g.key_digest key) ≡ false
    → decrypt g key value context ≡ none
unfolding decrypt
decrypt-other_key g key value context h = rw h refl
