-- ===== src/Auth/Sessions.antt =====
-- The life of a session: `ResolveSession` and `Login` of repo/internal/service/auth.go.
use task.Base.{
  ℕ, ◌+◌, ◌-◌, ◌≤◌, ◌<◌, ◌≡◌, ◌↔◌, refl, ap, ◌∙◌, ◌⊎◌, inl, inr, false, ◌||◌, String, arith,
  Bool-cases, Option-cases, find_first, str_eq, ltb, ◌==◌, find_first-update, find_first-delete,
  str_eq_refl,
}
use task.Domain.Errors.{ok, err, session_expired, unauthorized, not_found}
use task.Domain.Models.{User, Session}
use task.Auth.Table.{Db, get_by_id, get_session, touched, touch_session, delete_session}
use task.Auth.Service.{
  AuthService, Call, Faults, resolve_session, session_found, sessions_get, sessions_delete,
  users_get, touch,
}

-- What a session that is resolved has passed: it was stored, its inactivity time and its absolute time
-- were not over, and its user is returned with it.
record Live (s : AuthService) (now : ℕ) (id : String) (db : Db) (u : User) (sess : Session)
    : Type 0 where
  pub stored : Session
  pub found : get_session id db ≡ ok stored
  pub owner : get_by_id stored.user_id db ≡ ok u
  pub active : now ≤ stored.expires_at
  pub young : now ≤ stored.created_at + s.cfg.session_absolute_ttl
  pub slid : sess ≡ touched now (now + s.cfg.session_inactivity) stored

-- Only a live session is resolved: it is stored, neither its inactivity time nor its absolute time is over,
-- its user is returned with it, and it is returned with its inactivity time started anew.
resolve_session-Live :
    (s : AuthService) (down : Faults) (now : ℕ) (id : String) (db : Db) {u : User} {sess : Session}
    {db' : Db}
    → resolve_session s down now id db ≡ (ok (u, sess), db')
    → Live s now id db u sess
unfolding resolve_session
resolve_session-Live s down now id db {u} {sess} {db'} h = elim (Bool-cases (str_eq id "")) [
  | inl blank ↦ absurd (ground arith)
  | inr given ↦ elim (Bool-cases (down sessions_get)) [
    | inl dead ↦ absurd (ground arith)
    | inr up ↦ elim (Option-cases (find_first (λ k. str_eq k.id id) db.sessions)) [
      | inl eq ↦ absurd (ground arith)
      | inr (k, eq) ↦
          elim (Bool-cases
            (ltb k.expires_at now || ltb s.cfg.session_absolute_ttl (now - k.created_at))) [
              | inl over ↦ absurd (ground arith)
              | inr fresh ↦ elim (Bool-cases (down users_get)) [
                | inl dead ↦ absurd (ground arith)
                | inr live ↦ elim (Option-cases (find_first (λ v. v.id == k.user_id) db.users)) [
                  | inl gone ↦ absurd (ground arith)
                  | inr (v, own) ↦ record {
                    stored = k;
                    found = rw eq;
                    owner = ground arith;
                    active = ground arith;
                    young = ground arith;
                    slid = ground arith;
                  }
                ]
              ]
            ]
    ]
  ]
]

-- `ResolveSession` when no call of the database fails, for a session that is stored.
pub resolve_stored :
    (s : AuthService) (down : Faults) (now : ℕ) (id : String) (db : Db) {k : Session}
    → str_eq id "" ≡ false
    → down sessions_get ≡ false
    → get_session id db ≡ ok k
    → resolve_session s down now id db ≡ session_found s down now id db (ok k)
unfolding resolve_session
resolve_stored s down now id db given up e = rw (given, up, e)

resolve_missing :
    (s : AuthService) (down : Faults) (now : ℕ) (id : String) (db : Db)
    → str_eq id "" ≡ false
    → down sessions_get ≡ false
    → get_session id db ≡ err not_found
    → resolve_session s down now id db ≡ (err unauthorized, db)
unfolding resolve_session
resolve_missing s down now id db given up e = rw (given, up, e)

get_session-delete : (id : String) (db : Db) → get_session id (delete_session id db) ≡ err not_found
unfolding delete_session
get_session-delete id db = rw (find_first-delete (λ k. str_eq k.id id) db.sessions)

-- A stored session whose inactivity time or absolute time is over is refused as expired and removed;
-- every later request with it, at any time, is refused as unauthorized. The calls of the database do
-- not fail.
pub expired_session_ends :
    (s : AuthService) (down : Faults) (now now' : ℕ) (id : String) (db : Db) {k : Session}
    → str_eq id "" ≡ false
    → ((c : Call) → down c ≡ false)
    → get_session id db ≡ ok k
    → (k.expires_at < now) ⊎ (k.created_at + s.cfg.session_absolute_ttl < now)
    → (resolve_session s down now id db ≡ (err session_expired, delete_session id db))
      × (resolve_session s down now' id (delete_session id db)
          ≡ (err unauthorized, delete_session id db))
expired_session_ends s down now now' id db {k} given up e over = (
  resolve_stored s down now id db given (up sessions_get) e ∙ ground (arith, up sessions_delete),
  resolve_missing s down now' id (delete_session id db) given (up sessions_get)
      (get_session-delete id db),
)

get_session-touch :
    (id : String) (at until : ℕ) (db : Db) {k : Session}
    → get_session id db ≡ ok k
    → get_session id (touch_session k.id at until db) ≡ ok (touched at until k)
unfolding touch_session
get_session-touch id at until db {k} h =
    elim (Option-cases (find_first (λ r. str_eq r.id id) db.sessions)) [
      | inl eq ↦ absurd (ground arith)
      | inr (r, eq) ↦
          let seen =
            find_first-update (λ j. str_eq j.id id) (λ j. str_eq j.id k.id) (touched at until)
              (λ j. refl) db.sessions in
          ground (arith, seen, str_eq_refl k.id)
    ]

resolved_rows :
    (s : AuthService) (down : Faults) (now : ℕ) (id : String) (db : Db) {k : Session} {u : User}
    {sess : Session} {db' : Db}
    → ((c : Call) → down c ≡ false)
    → get_session id db ≡ ok k
    → resolve_session s down now id db ≡ (ok (u, sess), db')
    → (str_eq id "" ≡ false) × (db' ≡ touch_session k.id now (now + s.cfg.session_inactivity) db)
unfolding resolve_session
resolved_rows s down now id db {k} up e h = elim (Bool-cases (str_eq id "")) [
  | inl blank ↦ absurd (ground arith)
  | inr given ↦
      elim (Bool-cases
        (ltb k.expires_at now || ltb s.cfg.session_absolute_ttl (now - k.created_at))) [
          | inl over ↦ absurd (ground (arith, up sessions_get))
          | inr fresh ↦ elim (Option-cases (find_first (λ v. v.id == k.user_id) db.users)) [
            | inl gone ↦ absurd (ground (arith, up sessions_get, up users_get))
            | inr (v, own) ↦ (given, ground (arith, up sessions_get, up users_get, up touch))
          ]
        ]
]

-- A session that has been resolved at one time is resolved again, for the same user, exactly if at that
-- later time no more than the inactivity time has passed since, and no more than the absolute time since
-- the session was created. The calls of the database do not fail.
pub resolve_again_iff :
    (s : AuthService) (down : Faults) (now now' : ℕ) (id : String) (db : Db) {u : User}
    {sess : Session} {db' : Db}
    → ((c : Call) → down c ≡ false)
    → resolve_session s down now id db ≡ (ok (u, sess), db')
    → ((resolve_session s down now' id db').0
        ≡ ok (u, touched now' (now' + s.cfg.session_inactivity) sess))
      ↔ ((now' ≤ now + s.cfg.session_inactivity)
          × (now' ≤ sess.created_at + s.cfg.session_absolute_ttl))
unfolding touch_session
resolve_again_iff s down now now' id db {u} {sess} {db'} up h =
    let live = resolve_session-Live s down now id db h in
    let (given, rows) = resolved_rows s down now id db {k = live.stored} up live.found h in
    let again = resolve_stored s down now' id db' given (up sessions_get) (
      ap (get_session id) rows
      ∙ get_session-touch id now (now + s.cfg.session_inactivity) db live.found) in
    let owner : get_by_id live.stored.user_id db' ≡ ok u =
      ap (get_by_id live.stored.user_id) rows ∙ live.owner in
    rw again (ground (arith, owner, live.slid, up users_get, up touch, up sessions_delete))
