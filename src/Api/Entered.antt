-- ===== src/Api/Entered.antt =====
-- What Login of repo/internal/service/auth.go leaves for the requests after it.
use task.Base.{
  ℕ, ◌≡◌, refl, sym, ap, ◌∙◌, inl, inr, Bool, true, some, List, [], ◌∷◌, String, arith, Bool-cases,
  Option-cases, any, find_first, update_where, str_eq, ◌==◌, ==_refl,
}
use task.Domain.Errors.{ok}
use task.Domain.Models.{User, Session}
use task.Auth.Table.{Db, get_by_username, reset_row, reset_failed_login, insert_session}
use task.Auth.Service.{
  AuthService, Faults, LoginInput, login as login_user, login_gate, check_password, login_succeeded,
  login_failed, lock_until, reset_failed,
}
use task.Auth.Gate.{login-cases, login_known, gate_passed, and_then-passed}

any-found :
    {A : Type 0} (p q : A → Bool) (xs : List A) {a : A}
    → find_first p xs ≡ some a
    → q a ≡ true
    → any q xs ≡ true
any-found p q [] h hit = cc
any-found p q (x ∷ xs) {a} h hit = elim (Bool-cases (p x)) [
  | inl first ↦ ground arith
  | inr later ↦ ground (arith, any-found p q xs {a = a})
]

pub found-any :
    {A : Type 0} (q : A → Bool) (xs : List A)
    → any q xs ≡ true
    → (a : A) × (find_first q xs ≡ some a)
found-any q [] h = absurd (cc)
found-any q (x ∷ xs) h = elim (Bool-cases (q x)) [
  | inl hit ↦ (x, rw hit refl)
  | inr miss ↦ let rest = found-any q xs (ground arith) in (rest.0, rw miss rest.1)
]

any-reset :
    (id stamp at owner : ℕ) (users : List User)
    → any (λ v. v.id == owner) (update_where (λ v. v.id == id) (reset_row stamp at) users)
      ≡ any (λ v. v.id == owner) users
any-reset id stamp at owner [] = refl
any-reset id stamp at owner (u ∷ users) = ground (arith, any-reset id stamp at owner users)

-- What a successful login stores.
login_succeeded-session :
    (s : AuthService) (down : Faults) (now stamp : ℕ) (id : String) (input : LoginInput) (u : User)
    (db : Db) {u' : User} {sess : Session} {db' : Db}
    → login_succeeded s down now stamp (some id) input u db ≡ (ok (u', sess), db')
    → (sess.id ≡ id)
      × (sess.created_at ≡ now)
      × (u'.id ≡ u.id)
      × (sess.user_id ≡ u'.id)
      × ((owner : ℕ) → any (λ v. v.id == owner) db'.users ≡ any (λ v. v.id == owner) db.users)
unfolding login_succeeded insert_session reset_failed_login
login_succeeded-session s down now stamp id input u db h = elim (Bool-cases (down reset_failed)) [
  | inl lost ↦ (ground arith, ground arith, ground arith, ground arith, λ owner. ground arith)
  | inr up ↦ (
    ground arith,
    ground arith,
    ground arith,
    ground arith,
    λ owner. ground (arith, any-reset u.id stamp now owner db.users),
  )
]

check_password-session :
    (s : AuthService) (down : Faults) (now stamp : ℕ) (id : String) (input : LoginInput) (u : User)
    (db : Db) {u' : User} {sess : Session} {db' : Db}
    → check_password s down now stamp (some id) input u db ≡ (ok (u', sess), db')
    → (sess.id ≡ id)
      × (sess.created_at ≡ now)
      × (u'.id ≡ u.id)
      × (sess.user_id ≡ u'.id)
      × ((owner : ℕ) → any (λ v. v.id == owner) db'.users ≡ any (λ v. v.id == owner) db.users)
unfolding check_password login_failed
check_password-session s down now stamp id input u db {u'} {sess} {db'} h =
    elim (Bool-cases (s.lib.compare_hash_and_password u.password_hash input.password)) [
      | inr wrong ↦ elim (Option-cases (lock_until s.cfg now u)) [
        | inl eq ↦ absurd (ground arith)
        | inr (t, eq) ↦ absurd (ground arith)
      ]
      | inl right ↦
          login_succeeded-session s down now stamp id input u db {u' = u'} {sess = sess} {db' = db'}
            (ground arith)
    ]

known-stored :
    (lower : String → String) (name : String) (db : Db) {u : User}
    → get_by_username lower name db ≡ ok u
    → any (λ v. v.id == u.id) db.users ≡ true
unfolding get_by_username
known-stored lower name db {u} h =
    let same : User → Bool = λ v. str_eq (lower v.username) (lower name) in
    elim (Option-cases (find_first same db.users)) [
      | inl eq ↦ absurd (ground arith)
      | inr (v, eq) ↦
          let one : v ≡ u = ground arith in
          any-found same (λ v. v.id == u.id) db.users {a = u} (eq ∙ ap some one) (==_refl u.id)
    ]

-- The session of a successful login: it is named by the token, starts now, and its user is stored.
pub login-session :
    (s : AuthService) (down : Faults) (now stamp : ℕ) (id : String) (input : LoginInput) (db : Db)
    {u' : User} {sess : Session} {db' : Db}
    → login_user s down now stamp (some id) input db ≡ (ok (u', sess), db')
    → (sess.id ≡ id)
      × (sess.created_at ≡ now)
      × (sess.user_id ≡ u'.id)
      × (any (λ v. v.id == u'.id) db'.users ≡ true)
login-session s down now stamp id input db {u'} {sess} {db'} h =
    elim (login-cases s down now stamp (some id) input db) [
      | inl (e, eq) ↦ absurd (ground arith)
      | inr (u, eq, up) ↦
          let (_, mid, gate, rest) =
            and_then-passed (login_gate s down now input u db)
              (λ _ mid. check_password s down now stamp (some id) input u mid)
              (sym (login_known s down now stamp (some id) input db up eq) ∙ h) in
          let (_, users, _, _) = gate_passed s down now input u db gate in
          let (named, begun, same, own, kept) =
            check_password-session s down now stamp id input u mid rest in
          (
            named,
            begun,
            own,
            kept u'.id
                ∙ (rw (users, same)
                    (known-stored s.lib.lower (s.lib.trim_space input.username) db eq)),
          )
    ]
