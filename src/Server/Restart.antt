-- ===== src/Server/Restart.antt =====
-- Secure notes across a restart of the program: repo/internal/infrastructure/crypto/aes.go under
-- repo/internal/service/booking.go.
use task.Base.{
  ℕ, ◌<◌, ◌≡◌, ◌≢◌, refl, inl, inr, false, Option, some, List, [], ◌∷◌, ◌++◌, String, arith, length,
  length-append, take, drop, Option-cases,
}
use task.Domain.Errors.{Result, ok, err}
use task.Domain.Models.{Booking}
use task.Booking.Table.{Db}
use task.Booking.Service.{
  BookingPolicy, Faults, CreateInput, create_booking, get_for_owner, bookings_get,
}
use task.Booking.Notes.{Deciphers, shown, create_then_read}
use task.Server.Keys.{
  Gcm, KeyManager, KeyFile, missing, unreadable, holds, World, load_or_create, encrypt, decrypt,
  Utf8, bytes_of, notes_encrypter,
}

-- What the package `cipher` documents: `Open` with the nonce of `Seal` gives back the plaintext.
pub record Opens (gcm : Gcm) : Type 0 where
  pub sized : 0 < gcm.nonce_size
  pub back :
      (nonce plaintext : List ℕ)
      → length nonce ≡ gcm.nonce_size
      → gcm.unseal nonce (gcm.seal nonce plaintext) ≡ some plaintext

-- What the conversions of a text promise for one: they undo one another, and only "" has no bytes.
pub record Faithful (u : Utf8) (text : String) : Type 0 where
  pub back : u.text (u.bytes text) ≡ text
  pub written : text ≢ "" → u.bytes text ≢ []

take-append : (xs ys : List ℕ) → take (length xs) (xs ++ ys) ≡ xs
take-append [] ys = refl
take-append (x ∷ xs) ys = rw (take-append xs ys) refl

drop-append : (xs ys : List ℕ) → drop (length xs) (xs ++ ys) ≡ ys
drop-append [] ys = refl
drop-append (x ∷ xs) ys = drop-append xs ys

-- What `Encrypt` made is deciphered by the same key, whatever the nonce.
decrypt-encrypt :
    (k : KeyManager) (nonce plaintext : List ℕ) (blob : List ℕ)
    → Opens k.gcm
    → length nonce ≡ k.gcm.nonce_size
    → encrypt k (some nonce) plaintext ≡ ok blob
    → decrypt k blob ≡ ok plaintext
unfolding encrypt decrypt
decrypt-encrypt k nonce [] blob o sized h = ground arith
decrypt-encrypt k nonce (x ∷ xs) blob o sized h = ground (
  arith,
  length-append nonce (k.gcm.seal nonce (x ∷ xs)),
  take-append nonce (k.gcm.seal nonce (x ∷ xs)),
  drop-append nonce (k.gcm.seal nonce (x ∷ xs)),
  o.back nonce (x ∷ xs) sized,
  o.sized,
)

encrypt-nonempty :
    (k : KeyManager) (nonce plaintext : List ℕ) (blob : List ℕ)
    → Opens k.gcm
    → length nonce ≡ k.gcm.nonce_size
    → plaintext ≢ []
    → encrypt k (some nonce) plaintext ≡ ok blob
    → blob ≢ []
unfolding encrypt
encrypt-nonempty k nonce [] blob o sized some_text h = absurd (some_text refl)
encrypt-nonempty k [] (x ∷ xs) blob o sized some_text h = absurd (omega (arith, o.sized))
encrypt-nonempty k (n ∷ nonce) (x ∷ xs) blob o sized some_text h = ground arith

given : (res : Result (List ℕ)) (blob : List ℕ) → bytes_of res ≡ some blob → res ≡ ok blob
given (ok b) blob h = cc
given (err e) blob h = cc

-- The key manager is what the booking service asks for.
notes_encrypter-Deciphers :
    (u : Utf8) (k : KeyManager) (nonce : List ℕ) (text : String)
    → Faithful u text
    → Opens k.gcm
    → length nonce ≡ k.gcm.nonce_size
    → Deciphers (notes_encrypter u k (some nonce)) text
unfolding notes_encrypter
notes_encrypter-Deciphers u k nonce text f o sized = record {
  back = λ blob h.
      let made = given (encrypt k (some nonce) (u.bytes text)) blob h in
      rw (decrypt-encrypt k nonce (u.bytes text) blob o sized made, f.back) refl;
  nonempty = λ blob written h.
      encrypt-nonempty k nonce (u.bytes text) blob o sized (f.written written)
        (given (encrypt k (some nonce) (u.bytes text)) blob h);
}

-- After a start that had a key, the file holds it, and the next start that can read the file has it.
load_or_create-again :
    (new_gcm : List ℕ → Option Gcm) (w w' : World) (path : String) (file file' : KeyFile)
    (k : KeyManager)
    → ((bytes : List ℕ) → w.key ≡ some bytes → length bytes ≡ 32)
    → w'.mkdir_down ≡ false
    → load_or_create new_gcm w path file ≡ ok (k, file')
    → (load_or_create new_gcm w' path file' ≡ ok (k, file')) × (new_gcm k.key ≡ some k.gcm)
unfolding load_or_create
load_or_create-again new_gcm w w' path unreadable file' k full up h = ground arith
load_or_create-again new_gcm w w' path (holds bytes) file' k full up h =
    elim (Option-cases (new_gcm bytes)) [
      | inl refused ↦ ground arith
      | inr (gcm, made) ↦ ground arith
    ]
load_or_create-again new_gcm w w' path missing file' k full up h = elim (Option-cases w.key) [
  | inl dry ↦ ground arith
  | inr (bytes, drawn) ↦ elim (Option-cases (new_gcm bytes)) [
    | inl refused ↦ ground arith
    | inr (gcm, made) ↦ ground (arith, full bytes drawn)
  ]
]

-- A start of the program has a key; a booking is made with secure notes under it; and the program is
-- started again, with the file that the first start left. The second start has the same key, whatever it
-- draws at random, and `GetForOwner` then shows the owner the notes of the request in clear, and no one
-- else. The second start and the query do not fail, the generator fills 32 bytes, a nonce has its size,
-- and opening undoes sealing.
pub notes_outlive_restart :
    (u : Utf8) (new_gcm : List ℕ → Option Gcm) (w w' : World) (path : String) (file file' : KeyFile)
    (k : KeyManager) (nonce : List ℕ) (random : Option (List ℕ)) (policy : BookingPolicy)
    (down down' : Faults) (now stamp new_id actor : ℕ) (input : CreateInput) (db db' : Db)
    (row : Booking)
    → Faithful u input.secure_notes
    → ((key : List ℕ) (gcm : Gcm) → new_gcm key ≡ some gcm → Opens gcm)
    → ((bytes : List ℕ) → w.key ≡ some bytes → length bytes ≡ 32)
    → w'.mkdir_down ≡ false
    → down' bookings_get ≡ false
    → load_or_create new_gcm w path file ≡ ok (k, file')
    → length nonce ≡ k.gcm.nonce_size
    → create_booking
        (record { encrypter = some (notes_encrypter u k (some nonce)); policy = policy })
        down
        now
        stamp
        new_id
        input
        db
      ≡ ok (row, db')
    → (k' : KeyManager) × (load_or_create new_gcm w' path file' ≡ ok (k', file'))
      × (get_for_owner
            (record { encrypter = some (notes_encrypter u k' random); policy = policy })
            down'
            actor
            row.id
            db'
          ≡ ok (shown actor input.secure_notes row))
unfolding get_for_owner notes_encrypter
notes_outlive_restart u new_gcm w w' path file file' k nonce random policy down down' now stamp
      new_id actor input db db' row faithful opens full up found loaded sized created =
    let again = load_or_create-again new_gcm w w' path file file' k full up loaded in
    (
      k,
      again.0,
      (create_then_read
          (record { encrypter = some (notes_encrypter u k (some nonce)); policy = policy }) down
          down' now stamp new_id actor input db {e = notes_encrypter u k (some nonce)} {row = row}
          {db' = db'} refl
          (notes_encrypter-Deciphers u k nonce input.secure_notes faithful
            (opens k.key k.gcm again.1) sized)
          found created).1,
    )
