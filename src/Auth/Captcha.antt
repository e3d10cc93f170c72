-- ===== src/Auth/Captcha.antt =====
-- A challenge is answered at most once: `verifyCaptcha` of repo/internal/service/auth.go and `Consume` of
-- repo/internal/repository/captcha.go.
use task.Base.{
  ℕ, ◌≤◌, ◌≡◌, ◌↔◌, refl, inl, inr, Bool, true, false, not, ◌&&◌, some, List, [], ◌∷◌, String,
  arith, Bool-cases, Option-cases, find_first, any, str_eq, ltb, if◌then◌else◌, find_first-update,
  update_where, find_first-holds, str_eq_iff,
}
use task.Domain.Errors.{ok, err, captcha_invalid}
use task.Domain.Models.{CaptchaChallenge}
use task.Auth.Table.{Db, get_captcha, consume_captcha}
use task.Auth.Service.{AuthService, Faults, verify_captcha, captchas_get, consume}

any_found :
    {A : Type 0} (p q : A → Bool) (xs : List A) {a : A}
    → find_first p xs ≡ some a
    → q a ≡ true
    → any (λ x. p x && q x) xs ≡ true
any_found p q [] h e = absurd (cc h)
any_found p q (x ∷ xs) {a} h e = elim (Bool-cases (p x)) [
  | inl hit ↦ ground arith
  | inr miss ↦ ground (arith, any_found p q xs {a = a})
]

consume_fresh :
    (token : String) (db : Db) {c : CaptchaChallenge}
    → get_captcha token db ≡ ok c
    → c.consumed ≡ false
    → (db' : Db) × (consume_captcha token db ≡ ok db')
      × (get_captcha token db' ≡ ok (record c { consumed = true }))
unfolding consume_captcha
consume_fresh token db {c} h fresh =
    elim (Option-cases (find_first (λ d. str_eq d.token token) db.captchas)) [
      | inl eq ↦ absurd (ground arith)
      | inr (d, eq) ↦
          let used = λ (k : CaptchaChallenge). str_eq k.token token && not k.consumed in
          let rows = update_where used (λ k. record k { consumed = true }) db.captchas in
          let there =
            any_found (λ k. str_eq k.token token) (λ k. not k.consumed) db.captchas eq
              (ground arith) in
          let seen =
            find_first-update (λ k. str_eq k.token token) used (λ k. record k { consumed = true })
              (λ k. refl) db.captchas in
          let mine = find_first-holds (λ k. str_eq k.token token) db.captchas eq in
          (record db { captchas = rows }, rw there, ground (arith, seen, mine))
    ]

used_refused :
    (s : AuthService) (down : Faults) (token answer : String) (now : ℕ) (db : Db)
    {c : CaptchaChallenge}
    → down captchas_get ≡ false
    → get_captcha token db ≡ ok c
    → c.consumed ≡ true
    → verify_captcha s down token answer now db ≡ (err captcha_invalid, db)
unfolding verify_captcha
used_refused s down token answer now db up e used = rw (up, e, used)

fresh_checked :
    (s : AuthService) (down : Faults) (token answer : String) (now : ℕ) (db db' : Db)
    {c : CaptchaChallenge}
    → down captchas_get ≡ false
    → down consume ≡ false
    → get_captcha token db ≡ ok c
    → c.consumed ≡ false
    → ltb c.expires_at now ≡ false
    → consume_captcha token db ≡ ok db'
    → verify_captcha s down token answer now db
      ≡ (if str_eq (s.lib.trim_space answer) c.answer then ok tt else err captcha_invalid, db')
unfolding verify_captcha
fresh_checked s down token answer now db db' {c} up up' e fresh soon done =
    elim (Bool-cases (str_eq (s.lib.trim_space answer) c.answer)) [
      | inl right ↦ rw (up, e, fresh, soon, right, up', done)
      | inr wrong ↦ rw (up, e, fresh, soon, wrong, up', done)
    ]

-- A call of `verifyCaptcha` for a challenge that is there, unused and in time, whose database calls do
-- not fail, accepts exactly the challenge's own answer; and whether it accepts or not, every later call
-- for that challenge is refused, with any answer and at any time.
pub captcha_single_use :
    (s : AuthService) (down down' : Faults) (token answer answer' : String) (now now' : ℕ) (db : Db)
    {c : CaptchaChallenge}
    → down captchas_get ≡ false
    → down consume ≡ false
    → down' captchas_get ≡ false
    → get_captcha token db ≡ ok c
    → c.consumed ≡ false
    → now ≤ c.expires_at
    → (((verify_captcha s down token answer now db).0 ≡ ok tt)
        ↔ (s.lib.trim_space answer ≡ c.answer))
      × (let db' = (verify_captcha s down token answer now db).1 in
          verify_captcha s down' token answer' now' db' ≡ (err captcha_invalid, db'))
captcha_single_use s down down' token answer answer' now now' db {c} up up' up'' e fresh soon =
    let (db', done, used) = consume_fresh token db e fresh in
    rw (fresh_checked s down token answer now db db' up up' e fresh (ground arith) done) (
      ground (arith, str_eq_iff (s.lib.trim_space answer) c.answer),
      used_refused s down' token answer' now' db' up'' used refl,
    )
