-- ===== src/Server/FirstBoot.antt =====
-- The credential that repo/cmd/server/main.go makes on the first start.
use Prim.Native.String.{◌++◌ as append}
use task.Base.{
  ℕ, ◌≡◌, refl, sym, ap, ◌∙◌, true, false, some, List, String, arith, any, str_eq, inl, inr,
}
use task.Domain.Errors.{ok, err, not_found, Result-cases, query, ◌>>◌}
use task.Domain.Models.{User, is_locked, captcha_required_for}
use task.Auth.Table.{get_by_username}
use task.Auth.Service.{AuthService, Library, Call, Faults, LoginInput, login}
use task.Auth.Credentials.{Matches, LoggedIn, login_succeeds}
use task.Server.Seeding.{
  State, Visit, generate_initial_password, create_account, admin_name, create_admin, admin_found,
  seed_admin_user,
}
use task.Server.Present.{create_account-Created, new_account_found}

abbrev pub initial_password : (encode : List ℕ → String) → List ℕ → String
initial_password encode buf = append (encode buf) "A1!"

-- What a first start leaves: the secret in its file, and an admin who must rotate that password.
pub record Seeded (s : AuthService) (password : String) (st st' : State) : Type 0 where
  pub row : User
  pub known : get_by_username s.lib.lower admin_name st'.db ≡ ok row
  pub admin : row.is_admin ≡ true
  pub rotates : row.must_rotate_password ≡ true
  pub matched : s.lib.compare_hash_and_password row.password_hash password ≡ true
  pub unlocked : (now : ℕ) → is_locked row now ≡ false
  pub easy : captcha_required_for row ≡ false
  pub sessions : st'.db.sessions ≡ st.db.sessions
  pub written : st'.secret ≡ some (append password "\n")

create_admin-Seeded :
    (s : AuthService) (v : Visit) (password : String) (st st' : State)
    → Matches s.lib
    → v.write_down ≡ false
    → get_by_username s.lib.lower admin_name st.db ≡ err not_found
    → create_admin s.lib v (some password) st ≡ (ok tt, st')
    → Seeded s password st st'
unfolding create_admin is_locked captcha_required_for
create_admin-Seeded s v password st st' m up unknown done =
    elim (Result-cases (create_account s.lib v admin_name password true true st.db)) [
      | inr (e, failed) ↦ absurd (ground arith)
      | inl (db', stored) ↦
          let made =
            create_account-Created s.lib v admin_name password true true st.db db' stored in
          let rows : db' ≡ st'.db = ground arith in
          record {
            row = made.row;
            known =
                rw (← rows)
                  (new_account_found s.lib v admin_name password true true st.db db' unknown made);
            admin = rw made.fields refl;
            rotates = rw made.fields refl;
            matched = rw made.fields (m.law password made.hash made.made);
            unlocked = λ now. rw made.fields refl;
            easy = rw made.fields refl;
            sessions = rw (← rows) made.sessions;
            written = ground arith;
          }
    ]

seed_admin_user-unknown :
    (lib : Library) (encode : List ℕ → String) (bytes : List ℕ) (v : Visit) (st : State)
    → v.get_down ≡ false
    → get_by_username lib.lower admin_name st.db ≡ err not_found
    → seed_admin_user lib encode (some bytes) v st
      ≡ create_admin lib v (some (initial_password encode bytes)) st
unfolding seed_admin_user generate_initial_password
seed_admin_user-unknown lib encode bytes v st alive unknown =
    ap
      (λ d.
        admin_found lib v (some (initial_password encode bytes)) st
          (query d tt >> get_by_username lib.lower admin_name st.db))
      alive
    ∙ ap (admin_found lib v (some (initial_password encode bytes)) st) unknown

-- On a start that finds no admin account and can write its file, a seeding with no error leaves in that
-- file a password with which the admin account can be logged in to, under its name and with no captcha, at
-- any time; the account has the admin flag and must rotate that password. A hash matches the password that
-- it was made from, the token of the session is not taken, and the calls of the database do not fail.
pub first_boot_login :
    (s : AuthService) (encode : List ℕ → String) (bytes : List ℕ) (v : Visit) (st st' : State)
    (down : Faults) (now stamp : ℕ) (id : String) (input : LoginInput)
    → Matches s.lib
    → v.get_down ≡ false
    → v.write_down ≡ false
    → get_by_username s.lib.lower admin_name st.db ≡ err not_found
    → seed_admin_user s.lib encode (some bytes) v st ≡ (ok tt, st')
    → ((c : Call) → down c ≡ false)
    → any (λ r. str_eq r.id id) st.db.sessions ≡ false
    → s.lib.trim_space input.username ≡ admin_name
    → input.password ≡ initial_password encode bytes
    → (seeded : Seeded s (initial_password encode bytes) st st') × LoggedIn s now id seeded.row
        (login s down now stamp (some id) input st'.db)
first_boot_login s encode bytes v st st' down now stamp id input m alive up unknown done ups fresh
      named typed =
    let seeded =
      create_admin-Seeded s v (initial_password encode bytes) st st' m up unknown
        (sym (seed_admin_user-unknown s.lib encode bytes v st alive unknown) ∙ done) in
    (
      seeded,
      login_succeeds s down now stamp id input seeded.row st'.db ups (rw seeded.sessions fresh)
          (rw named seeded.known) (seeded.unlocked now) seeded.easy (rw typed seeded.matched),
    )
