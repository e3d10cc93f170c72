-- ===== src/Auth/Service/Challenges.antt =====
-- IssueCaptcha and verifyCaptcha of repo/internal/service/auth.go.
use Prim.Native.String.{◌++◌ as append}
use task.Base.{ℕ, ◌+◌, false, not, ◌||◌, Option, some, String, ltb, str_eq, if◌then◌else◌}
use task.Domain.Errors.{Result, ok, err, query, ◌>>=◌, ◌>>◌, not_found, captcha_invalid, internal}
use task.Domain.Models.{CaptchaChallenge}
use task.Auth.Table.{Db, insert_captcha, get_captcha, consume_captcha}
use task.Auth.Service.Setup.{
  AuthService, captchas_create, captchas_get, consume, Faults, ignoring, answering,
}

-- `verifyCaptcha` when the query of the challenge has answered.
abbrev pub captcha_found :
    AuthService
    → Faults
    → (token answer : String) → (now : ℕ) → Db
    → Result CaptchaChallenge
    → Result (Unit {0}) × Db
captcha_found s down token answer now db (ok c) =
    if c.consumed || ltb c.expires_at now
    then (err captcha_invalid, db)
    else if not (str_eq (s.lib.trim_space answer) c.answer)
    then (err captcha_invalid, ignoring db (query (down consume) tt >> consume_captcha token db))
    else answering db (query (down consume) tt >> consume_captcha token db)
captcha_found s down token answer now db (err not_found) = (err captcha_invalid, db)
captcha_found s down token answer now db (err e) = (err e, db)

-- `verifyCaptcha`
unfoldable pub verify_captcha :
    AuthService → Faults → (token answer : String) → (now : ℕ) → Db → Result (Unit {0}) × Db
verify_captcha s down token answer now db =
    captcha_found s down token answer now db (query (down captchas_get) tt >> get_captcha token db)

-- `IssueCaptcha`: `a` and `b` are what `randInt` gives, from 1 to 9.
unfoldable pub issue_captcha :
    AuthService
    → Faults
    → (now : ℕ) → (a b : Option ℕ) → (token : Option String) → Db
    → Result (CaptchaChallenge × Db)
issue_captcha s down now (some a) (some b) (some token) db = do
  let c : CaptchaChallenge = record {
    token = token;
    question =
        append (append (append (append "What is " (s.lib.decimal a)) " + ") (s.lib.decimal b)) "?";
    answer = s.lib.decimal (a + b);
    created_at = now;
    expires_at = now + s.cfg.captcha_ttl;
    consumed = false;
  }
  db' ← query (down captchas_create) tt >> insert_captcha c db
  ok (c, db')
issue_captcha s down now _ _ _ db = err internal
