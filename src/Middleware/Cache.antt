-- ===== src/Middleware/Cache.antt =====
-- The TTL cache of repo/internal/infrastructure/cache/cache.go and the middleware of
-- repo/internal/api/middleware/cache.go. A method runs in one step; the code of Get gives up the lock
-- between reading an expired entry and deleting it.
use task.Base.{
  ℕ, ◌+◌, ◌*◌, Bool, false, not, ◌&&◌, Option, none, some, List, [], ◌∷◌, String, length,
  delete_where, find_first, leb, ltb, ◌==◌, str_eq, if◌then◌else◌,
}
use Prim.Native.String.{◌++◌ as append}
use task.Domain.Models.{User, second}

abbrev pub default_ttl : ℕ
default_ttl = 60 * second

pub record Entry : Type 0 where
  pub key : String
  pub value : List ℕ
  pub expires_at : ℕ

-- The map has one entry for a key at most.
pub record Cache : Type 0 where
  pub m : List Entry
  pub ttl : ℕ

-- A TTL that is at most 0 is 0.
unfoldable pub new_cache : (ttl : ℕ) → Cache
new_cache ttl = record { m = []; ttl = if ttl == 0 then default_ttl else ttl }

abbrev pub has_key : String → Entry → Bool
has_key key e = str_eq e.key key

unfoldable pub invalidate : String → Cache → Cache
invalidate key c = record c { m = delete_where (has_key key) c.m }

abbrev pub got : (now : ℕ) → String → Cache → Option Entry → Option (List ℕ) × Cache
got now key c none = (none, c)
got now key c (some e) =
    if ltb e.expires_at now then (none, invalidate key c) else (some e.value, c)

unfoldable pub get : (now : ℕ) → String → Cache → Option (List ℕ) × Cache
get now key c = got now key c (find_first (has_key key) c.m)

unfoldable pub set : (now : ℕ) → String → List ℕ → Cache → Cache
set now key value c =
    let e : Entry = record { key = key; value = value; expires_at = now + c.ttl } in
    record c { m = e ∷ delete_where (has_key key) c.m }

unfoldable pub purge : Cache → Cache
purge c = record c { m = [] }

unfoldable pub stats : Cache → ℕ × ℕ
stats c = (length c.m, c.ttl)

-- One round of `gcLoop`.
unfoldable pub collect_garbage : (now : ℕ) → Cache → Cache
collect_garbage now c = record c { m = delete_where (λ (e : Entry). ltb e.expires_at now) c.m }

-- What the middleware reads of a request; `bypass` says that the header X-Cache-Bypass is true.
pub record Request : Type 0 where
  pub is_get : Bool
  pub path : String
  pub raw_query : String
  pub bypass : Bool
  pub user : Option User

pub record Response : Type 0 where
  pub status : ℕ
  pub body : List ℕ

abbrev pub is_admin_user : Option User → Bool
is_admin_user none = false
is_admin_user (some u) = u.is_admin

unfoldable pub is_admin_bypass : Request → Bool
is_admin_bypass r = if r.bypass then is_admin_user r.user else false

abbrev pub cache_key : Request → String
cache_key r = append r.path (append "?" r.raw_query)

-- `bytes.HasPrefix(body, "{")`
abbrev pub is_object : List ℕ → Bool
is_object [] = false
is_object (c ∷ body) = c == 123

-- What is kept of the handler's answer on a miss; `now` is the time after the handler.
abbrev pub store : (now : ℕ) → String → Response → Cache → Cache
store now key r c =
    if leb 200 r.status && ltb r.status 300 && is_object r.body then set now key r.body c else c

abbrev pub answer : (now : ℕ) → String → Response → Option (List ℕ) × Cache → Response × Cache
answer now key fresh (some cached, c) = (record { status = 200; body = cached }, c)
answer now key fresh (none, c) = (fresh, store now key fresh c)

-- `fresh` is what the handler answers if it is asked; `later` is the time when it has.
unfoldable pub read_through_cache :
    (now later : ℕ) → Request → (fresh : Response) → Cache → Response × Cache
read_through_cache now later r fresh c =
    if not r.is_get
    then (fresh, c)
    else if is_admin_bypass r
    then (fresh, c)
    else answer later (cache_key r) fresh (get now (cache_key r) c)
