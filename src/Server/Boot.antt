-- ===== src/Server/Boot.antt =====
-- What the seeding of repo/cmd/server/main.go leaves, and that it is done once.
use task.Base.{
  ℕ, ◌≡◌, refl, ap, ◌∙◌, inl, inr, Bool, true, false, Option, none, some, List, [], ◌∷◌, String,
  arith, Bool-cases, All,
}
use task.Domain.Errors.{Result, ok, err, not_found, Result-cases, query, ◌>>◌}
use task.Domain.Models.{User}
use task.Auth.Table.{get_by_username}
use task.Auth.Service.{Library}
use task.Server.Seeding.{
  State, Visit, generate_initial_password, promote, create_account, admin_name, create_admin,
  admin_found, seed_admin_user, DemoAccount, accounts, demo_found, seed_demo_user, continue,
  seed_each, seed_demo_users, bootstrap,
}
use task.Server.Present.{
  Present, promote-Present, promoted-Present, create_account-Created, create_account-Present,
  new_account_found,
}

module _ (lib : Library) (v : Visit) (up : v.set_admin_down ≡ false) where
  create_admin-Present :
      (password : Option String) (st st' : State)
      → get_by_username lib.lower admin_name st.db ≡ err not_found
      → create_admin lib v password st ≡ (ok tt, st')
      → Present lib admin_name true st'.db
  unfolding create_admin
  create_admin-Present none st st' unknown done = cc
  create_admin-Present (some password) st st' unknown done =
      elim (Result-cases (create_account lib v admin_name password true true st.db)) [
        | inr (e, failed) ↦ absurd (ground arith)
        | inl (db', stored) ↦
            let made =
              create_account-Created lib v admin_name password true true st.db db' stored in
            let rows : db' ≡ st'.db = ground arith in
            rw (← rows) (
              made.row,
              new_account_found lib v admin_name password true true st.db db' unknown made,
              λ _. rw made.fields refl,
            )
      ]

  admin_found-Present :
      (password : Option String) (st st' : State) (r : Result User)
      → get_by_username lib.lower admin_name st.db ≡ r
      → admin_found lib v password st r ≡ (ok tt, st')
      → Present lib admin_name true st'.db
  admin_found-Present password st st' (ok u) known done =
      let same : promote v u st ≡ st' = cc in
      rw (← same) (promoted-Present lib admin_name v u st up known)
  admin_found-Present password st st' (err not_found) unknown done =
      create_admin-Present password st st' unknown done
  admin_found-Present password st st' (err e) known done = cc

  seed_admin_user-Present :
      (encode : List ℕ → String) (buf : Option (List ℕ)) (st st' : State)
      → seed_admin_user lib encode buf v st ≡ (ok tt, st')
      → Present lib admin_name true st'.db
  unfolding seed_admin_user
  seed_admin_user-Present encode buf st st' done = elim (Bool-cases v.get_down) [
    | inl dead ↦ cc (rw dead at done)
    | inr alive ↦
        admin_found-Present (generate_initial_password encode buf) st st'
          (query v.get_down tt >> get_by_username lib.lower admin_name st.db) (rw alive refl) done
  ]

  demo_found-Present :
      (acc : DemoAccount) (st st' : State) (r : Result User)
      → get_by_username lib.lower acc.username st.db ≡ r
      → demo_found lib v acc st r ≡ (ok tt, st')
      → Present lib acc.username acc.is_admin st'.db
        × ((name : String) (is_admin : Bool)
            → Present lib name is_admin st.db
            → Present lib name is_admin st'.db)
  demo_found-Present acc st st' (ok u) known done = elim (Bool-cases acc.is_admin) [
    | inl admin ↦
        let same : promote v u st ≡ st' = ground arith in
        rw (← same, admin)
          (
            promoted-Present lib acc.username v u st up known,
            λ name is_admin. promote-Present lib name is_admin v u st,
          )
    | inr plain ↦
        let same : st ≡ st' = ground arith in
        rw (← same)
          ((u, known, λ asked. absurd (cc (plain, asked))), λ name is_admin present. present)
  ]
  demo_found-Present acc st st' (err not_found) unknown done =
      elim (Result-cases
        (create_account lib v acc.username acc.password acc.is_admin false st.db)) [
          | inr (e, failed) ↦ absurd (ground arith)
          | inl (db', stored) ↦
              let made =
                create_account-Created lib v acc.username acc.password acc.is_admin false st.db db'
                  stored in
              let rows : db' ≡ st'.db = ground arith in
              rw (← rows) (
                (
                  made.row,
                  new_account_found lib v acc.username acc.password acc.is_admin false st.db db'
                      unknown made,
                  λ asked. rw (made.fields, asked) refl,
                ),
                λ name is_admin.
                    create_account-Present lib v name acc.username acc.password is_admin
                      acc.is_admin false st.db db' stored,
              )
        ]
  demo_found-Present acc st st' (err e) known done = cc

  seed_demo_user-Present :
      (acc : DemoAccount) (st st' : State)
      → seed_demo_user lib v acc st ≡ (ok tt, st')
      → Present lib acc.username acc.is_admin st'.db
        × ((name : String) (is_admin : Bool)
            → Present lib name is_admin st.db
            → Present lib name is_admin st'.db)
  unfolding seed_demo_user
  seed_demo_user-Present acc st st' done = elim (Bool-cases v.get_down) [
    | inl dead ↦ absurd (ground arith)
    | inr alive ↦
        demo_found-Present acc st st'
          (query v.get_down tt >> get_by_username lib.lower acc.username st.db) (rw alive refl) done
  ]

continue-ok :
    (first : Result (Unit {0}) × State) (k : State → Result (Unit {0}) × State) (st' : State)
    → continue first k ≡ (ok tt, st')
    → (mid : State) × (first ≡ (ok tt, mid)) × (k mid ≡ (ok tt, st'))
continue-ok (ok _, mid) k st' h = (mid, refl, h)
continue-ok (err e, mid) k st' h = cc

seed_each-Present :
    (lib : Library) (visit : String → Visit)
    → ((name : String) → (visit name).set_admin_down ≡ false)
    → (accs : List DemoAccount) (st st' : State) → seed_each lib visit accs st ≡ (ok tt, st')
    → All (λ (acc : DemoAccount). Present lib acc.username acc.is_admin st'.db) accs
      × ((name : String) (is_admin : Bool)
          → Present lib name is_admin st.db
          → Present lib name is_admin st'.db)
unfolding seed_each
seed_each-Present lib visit up [] st st' done =
    let same : st ≡ st' = cc in (tt, λ name is_admin present. rw (← same) present)
seed_each-Present lib visit up (acc ∷ accs) st st' done =
    let first =
      continue-ok (seed_demo_user lib (visit acc.username) acc st) (seed_each lib visit accs) st'
        done in
    let (mid, seeded, after) = first in
    let here =
      seed_demo_user-Present lib (visit acc.username) (up acc.username) acc st mid seeded in
    let rest = seed_each-Present lib visit up accs mid st' after in
    (
      (rest.1 acc.username acc.is_admin here.0, rest.0),
      λ name is_admin present. rest.1 name is_admin (here.1 name is_admin present),
    )

module _ (lib : Library) (v : Visit) (alive : v.get_down ≡ false) where
  seed_admin_user-idle :
      (encode : List ℕ → String) (buf : Option (List ℕ)) (st : State)
      → Present lib admin_name true st.db
      → seed_admin_user lib encode buf v st ≡ (ok tt, st)
  unfolding seed_admin_user promote
  seed_admin_user-idle encode buf st (u, known, fits) =
      rw (alive, known) (ground (arith, fits refl))

  seed_demo_user-idle :
      (acc : DemoAccount) (st : State)
      → Present lib acc.username acc.is_admin st.db
      → seed_demo_user lib v acc st ≡ (ok tt, st)
  unfolding seed_demo_user promote
  seed_demo_user-idle acc st (u, known, fits) = elim (Bool-cases acc.is_admin) [
    | inl admin ↦ rw (alive, known) (ground (arith, fits admin))
    | inr plain ↦ rw (alive, known) (ground arith)
  ]

seed_each-idle :
    (lib : Library) (visit : String → Visit)
    → ((name : String) → (visit name).get_down ≡ false)
    → (accs : List DemoAccount) (st : State)
    → All (λ (acc : DemoAccount). Present lib acc.username acc.is_admin st.db) accs
    → seed_each lib visit accs st ≡ (ok tt, st)
unfolding seed_each
seed_each-idle lib visit alive [] st present = refl
seed_each-idle lib visit alive (acc ∷ accs) st present =
    rw (seed_demo_user-idle lib (visit acc.username) (alive acc.username) acc st present.0)
      (seed_each-idle lib visit alive accs st present.1)

-- When the admin and the demo accounts are seeded with no error, in which no change of an admin flag is
-- lost, then the name of the admin account and that of the demo admin each find an admin, that of the demo
-- user finds a user, and every later seeding whose queries of users succeed changes nothing: neither users
-- nor passwords nor the file of the secret.
pub seed_once :
    (lib : Library) (encode : List ℕ → String) (buf buf' : Option (List ℕ)) (v v' : Visit)
    (visit visit' : String → Visit) (st mid st' : State)
    → v.set_admin_down ≡ false
    → ((name : String) → (visit name).set_admin_down ≡ false)
    → v'.get_down ≡ false
    → ((name : String) → (visit' name).get_down ≡ false)
    → seed_admin_user lib encode buf v st ≡ (ok tt, mid)
    → seed_demo_users lib visit mid ≡ (ok tt, st')
    → Present lib admin_name true st'.db
      × All (λ (acc : DemoAccount). Present lib acc.username acc.is_admin st'.db) accounts
      × (bootstrap lib encode buf' v' visit' st' ≡ st')
unfolding bootstrap seed_demo_users
seed_once lib encode buf buf' v v' visit visit' st mid st' up ups alive alives first second =
    let admin = seed_admin_user-Present lib v up encode buf st mid first in
    let demo = seed_each-Present lib visit ups accounts mid st' second in
    let kept = demo.1 admin_name true admin in
    (
      kept,
      demo.0,
      ap (λ (r : Result (Unit {0}) × State). (seed_demo_users lib visit' r.1).1)
            (seed_admin_user-idle lib v' alive encode buf' st' kept)
          ∙ ap (λ (r : Result (Unit {0}) × State). r.1)
              (seed_each-idle lib visit' alives accounts st' demo.0),
    )
