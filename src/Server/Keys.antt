-- ===== src/Server/Keys.antt =====
-- repo/internal/infrastructure/crypto/aes.go. The file system, crypto/rand and AES-GCM are given.
use task.Base.{
  ℕ, Bool, Option, none, some, List, [], ◌++◌, String, length, take, drop, ltb, ◌==◌, not,
  if◌then◌else◌,
}
use task.Domain.Errors.{Result, ok, err, internal, fail_if, ◌>>=◌, ◌>>◌}
use task.Booking.Service.{NotesEncrypter}

-- What `cipher.NewGCM` gives for one key: `Seal` without its prefix, and `Open`.
pub record Gcm : Type 0 where
  pub nonce_size : ℕ
  pub seal : (nonce plaintext : List ℕ) → List ℕ
  pub unseal : (nonce ciphertext : List ℕ) → Option (List ℕ)

pub record KeyManager : Type 0 where
  pub key_path : String
  pub key : List ℕ
  pub gcm : Gcm

-- What `os.ReadFile` finds at a path.
pub data KeyFile : Type 0 where
  missing unreadable : KeyFile
  holds : List ℕ → KeyFile

-- What one start of the program meets: `key` is what the random generator gives for 32 bytes.
pub record World : Type 0 where
  pub mkdir_down : Bool
  pub write_down : Bool
  pub key : Option (List ℕ)

abbrev pub generated : Option (List ℕ) → Result (List ℕ)
generated none = err internal
generated (some bytes) = ok bytes

-- The bytes of the key and the file after it.
unfoldable pub key_bytes : World → KeyFile → Result (List ℕ × KeyFile)
key_bytes w (holds bytes) = do fail_if (not (length bytes == 32)) internal; ok (bytes, holds bytes)
key_bytes w missing = do
  bytes ← generated w.key
  fail_if w.write_down internal
  ok (bytes, holds bytes)
key_bytes w unreadable = err internal

-- `LoadOrCreate`; `new_gcm` is `aes.NewCipher` and then `cipher.NewGCM`.
unfoldable pub load_or_create :
    (new_gcm : List ℕ → Option Gcm) → World → String → KeyFile → Result (KeyManager × KeyFile)
unfolding key_bytes
load_or_create new_gcm w path file = do
  fail_if w.mkdir_down internal
  (bytes, file') ← key_bytes w file
  elim (new_gcm bytes) [
    | none ↦ err internal
    | some gcm ↦ ok (record { key_path = path; key = bytes; gcm = gcm }, file')
  ]

-- `Encrypt`: `random` is what the generator gives for a nonce.
unfoldable pub encrypt : KeyManager → (random : Option (List ℕ)) → List ℕ → Result (List ℕ)
encrypt k random plaintext =
    if length plaintext == 0
    then ok []
    else elim random [ none ↦ err internal | some nonce ↦ ok (nonce ++ k.gcm.seal nonce plaintext) ]

-- `Decrypt`
unfoldable pub decrypt : KeyManager → List ℕ → Result (List ℕ)
decrypt k blob =
    if length blob == 0
    then ok []
    else if ltb (length blob) k.gcm.nonce_size
    then err internal
    else elim (k.gcm.unseal (take k.gcm.nonce_size blob) (drop k.gcm.nonce_size blob)) [
      | none ↦ err internal
      | some plaintext ↦ ok plaintext
    ]

-- The conversions of a text to its bytes and back.
pub record Utf8 : Type 0 where
  pub bytes : String → List ℕ
  pub text : List ℕ → String

abbrev pub bytes_of : Result (List ℕ) → Option (List ℕ)
bytes_of (ok blob) = some blob
bytes_of (err e) = none

abbrev pub text_of : Utf8 → Result (List ℕ) → Option String
text_of u (ok plaintext) = some (u.text plaintext)
text_of u (err e) = none

-- The key manager as the booking service sees it, when the next nonce is `random`.
unfoldable pub notes_encrypter : Utf8 → KeyManager → (random : Option (List ℕ)) → NotesEncrypter
notes_encrypter u k random = record {
  encrypt = λ text. bytes_of (encrypt k random (u.bytes text));
  decrypt = λ blob. text_of u (decrypt k blob);
}
