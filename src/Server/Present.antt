-- ===== src/Server/Present.antt =====
-- The accounts that the seeding of repo/cmd/server/main.go has made, and those that it found.
use task.Base.{
  ℕ, ◌≡◌, refl, inl, inr, Bool, true, false, ◌||◌, some, [], ◌∷◌, ◌++◌, String, arith, Bool-cases,
  Option-cases, find_first, find_first-update, find_first-append_old, find_first-append_new,
  update_where, updated_found, str_eq, str_eq_refl, ==_refl, ◌==◌, if◌then◌else◌,
}
use task.Domain.Errors.{ok, err, not_found, found}
use task.Domain.Models.{User}
use task.Auth.Table.{Db, insert_user, get_by_username}
use task.Auth.Administration.{set_admin}
use task.Auth.Service.{Library}
use task.Server.Seeding.{State, Visit, account, promote, create_account}

-- The name finds a user, who is an admin if one is asked for.
abbrev pub Present : Library → (name : String) → (is_admin : Bool) → Db → Type 0
Present lib name is_admin db =
    (u : User) × (get_by_username lib.lower name db ≡ ok u) × (is_admin ≡ true → u.is_admin ≡ true)

abbrev made_admin : (stamp : ℕ) → User → User
made_admin stamp u = record u { is_admin = true; updated_at = stamp }

set_admin-Present :
    (lib : Library) (name : String) (is_admin : Bool) (stamp id : ℕ) (db : Db)
    → Present lib name is_admin db
    → Present lib name is_admin (set_admin stamp id true db)
unfolding get_by_username set_admin
set_admin-Present lib name is_admin stamp id db (u, known, fits) =
    let seen =
      find_first-update (λ w. str_eq (lib.lower w.username) (lib.lower name)) (λ w. w.id == id)
        (made_admin stamp) (λ w. refl) db.users in
    elim (Option-cases
      (find_first (λ w. str_eq (lib.lower w.username) (lib.lower name)) db.users)) [
        | inl gone ↦ absurd (ground arith)
        | inr (w, there) ↦ (
          if u.id == id then made_admin stamp u else u,
          ground (arith, seen),
          λ asked. ground (arith, fits asked),
        )
      ]

pub promote-Present :
    (lib : Library) (name : String) (is_admin : Bool) (v : Visit) (w : User) (st : State)
    → Present lib name is_admin st.db
    → Present lib name is_admin (promote v w st).db
unfolding promote
promote-Present lib name is_admin v w st present =
    elim (Bool-cases (w.is_admin || v.set_admin_down)) [
      | inl kept ↦ rw kept present
      | inr changed ↦ rw changed (set_admin-Present lib name is_admin v.now w.id st.db present)
    ]

after_update :
    (lib : Library) (name : String) (q : User → Bool) (f : User → User) (db : Db) {u : User}
    → get_by_username lib.lower name db ≡ ok u
    → find_first (λ w. str_eq (lib.lower w.username) (lib.lower name)) (update_where q f db.users)
      ≡ updated_found q f
          (find_first (λ w. str_eq (lib.lower w.username) (lib.lower name)) db.users)
    → q u ≡ true
    → found (
        find_first
          (λ w. str_eq (lib.lower w.username) (lib.lower name))
          (update_where q f db.users))
      ≡ ok (f u)
unfolding get_by_username
after_update lib name q f db {u} known seen hit =
    elim (Option-cases
      (find_first (λ w. str_eq (lib.lower w.username) (lib.lower name)) db.users)) [
        | inl gone ↦ absurd (ground arith)
        | inr (v, there) ↦ ground arith
      ]

-- Whom a name finds is an admin once promoted.
pub promoted-Present :
    (lib : Library) (name : String) (v : Visit) (u : User) (st : State)
    → v.set_admin_down ≡ false
    → get_by_username lib.lower name st.db ≡ ok u
    → Present lib name true (promote v u st).db
unfolding promote get_by_username set_admin
promoted-Present lib name v u st up known = elim (Bool-cases u.is_admin) [
  | inl already ↦ rw already (u, known, λ _. already)
  | inr not_yet ↦
      let seen =
        find_first-update (λ w. str_eq (lib.lower w.username) (lib.lower name)) (λ w. w.id == u.id)
          (made_admin v.now) (λ w. refl) st.db.users in
      rw (not_yet, up)
        (
          made_admin v.now u,
          after_update lib name (λ w. w.id == u.id) (made_admin v.now) st.db known seen
              (==_refl u.id),
          λ _. refl,
        )
]

-- The row that a new account is.
pub record Created (lib : Library) (v : Visit) (username password : String)
    (is_admin must_rotate : Bool) (db db' : Db) : Type 0 where
  pub hash : String
  pub made : lib.generate_from_password password ≡ some hash
  pub row : User
  pub fields : row ≡ record (account username hash is_admin must_rotate) {
    id = v.new_id;
    created_at = v.now;
    updated_at = v.now;
  }
  pub users : db'.users ≡ db.users ++ row ∷ []
  pub sessions : db'.sessions ≡ db.sessions

pub create_account-Created :
    (lib : Library) (v : Visit) (username password : String) (is_admin must_rotate : Bool)
    (db db' : Db)
    → create_account lib v username password is_admin must_rotate db ≡ ok db'
    → Created lib v username password is_admin must_rotate db db'
unfolding create_account insert_user
create_account-Created lib v username password is_admin must_rotate db db' done =
    elim (Option-cases (lib.generate_from_password password)) [
      | inl long ↦ absurd (ground arith)
      | inr (hash, made) ↦ record {
        hash = hash;
        made = made;
        row = record (account username hash is_admin must_rotate) {
          id = v.new_id;
          created_at = v.now;
          updated_at = v.now;
        };
        fields = refl;
        users = ground arith;
        sessions = ground arith;
      }
    ]

-- A name that found a user finds the same one after an INSERT.
pub create_account-Present :
    (lib : Library) (v : Visit) (name username password : String)
    (is_admin new_admin must_rotate : Bool) (db db' : Db)
    → create_account lib v username password new_admin must_rotate db ≡ ok db'
    → Present lib name is_admin db
    → Present lib name is_admin db'
unfolding get_by_username
create_account-Present lib v name username password is_admin new_admin must_rotate db db' done
      (u, known, fits) =
    let made = create_account-Created lib v username password new_admin must_rotate db db' done in
    elim (Option-cases
      (find_first (λ w. str_eq (lib.lower w.username) (lib.lower name)) db.users)) [
        | inl gone ↦ absurd (ground arith)
        | inr (w, there) ↦ (
          u,
          rw
              (
                made.users,
                find_first-append_old (λ w. str_eq (lib.lower w.username) (lib.lower name)) db.users
                    (made.row ∷ []) there,
              )
              (ground arith),
          fits,
        )
      ]

-- A name that found nobody finds the account that is created under it.
pub new_account_found :
    (lib : Library) (v : Visit) (username password : String) (is_admin must_rotate : Bool)
    (db db' : Db)
    → get_by_username lib.lower username db ≡ err not_found
    → (made : Created lib v username password is_admin must_rotate db db')
    → get_by_username lib.lower username db' ≡ ok made.row
unfolding get_by_username
new_account_found lib v username password is_admin must_rotate db db' unknown made =
    elim (Option-cases
      (find_first (λ w. str_eq (lib.lower w.username) (lib.lower username)) db.users)) [
        | inr (w, there) ↦ absurd (ground arith)
        | inl free ↦
            rw
              (
                made.users,
                find_first-append_new (λ w. str_eq (lib.lower w.username) (lib.lower username))
                    db.users made.row free (rw made.fields (str_eq_refl (lib.lower username))),
              )
              refl
      ]
