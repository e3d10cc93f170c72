-- ===== src/Middleware/Shared.antt =====
-- The cache of repo/internal/api/middleware/cache.go is shared by all viewers of a URL.
use task.Base.{
  ℕ, ◌+◌, ◌≤◌, ◌≡◌, refl, ap, ◌∙◌, true, false, Option, none, some, List, [], ◌∷◌, String, map,
  arith, find_first, leb, ltb, str_eq_refl,
}
use task.Domain.Models.{User}
use task.Groups.Table.{GroupReservation, list_groups}
use task.Groups.Handler.{can_see_organizer_pii, project_group, list_body}
use task.Middleware.Cache.{
  Entry, Cache, get, got, set, answer, invalidate, has_key, Request, Response, is_admin_bypass,
  cache_key, is_object, read_through_cache,
}

-- A stored value is found until its TTL is over.
get-set :
    (now t : ℕ) (key : String) (value : List ℕ) (c : Cache)
    → t ≤ now + c.ttl
    → get t key (set now key value c) ≡ (some value, set now key value c)
unfolding get set
get-set now t key value c fresh =
    let alive : ltb (now + c.ttl) t ≡ false = ground arith in rw (str_eq_refl key, alive) refl

get-none :
    (now : ℕ) (key : String) (c : Cache)
    → (o : Option Entry) → (got now key c o).0 ≡ none
    → (got now key c o).1.ttl ≡ c.ttl
unfolding invalidate
get-none now key c none h = refl
get-none now key c (some e) h = ground arith

-- A cacheable request of a viewer: a GET that is no bypass of an admin.
pub record Cacheable (r : Request) : Type 0 where
  pub is_read : r.is_get ≡ true
  pub no_bypass : is_admin_bypass r ≡ false

-- The answer is stored.
pub record Storable (r : Response) : Type 0 where
  pub from : leb 200 r.status ≡ true
  pub to : ltb r.status 300 ≡ true
  pub object : is_object r.body ≡ true

asks_cache :
    (now later : ℕ) (r : Request) (fresh : Response) (c : Cache)
    → Cacheable r
    → read_through_cache now later r fresh c
      ≡ answer later (cache_key r) fresh (get now (cache_key r) c)
unfolding read_through_cache
asks_cache now later r fresh c cacheable = rw (cacheable.no_bypass, cacheable.is_read) refl

kept_ttl :
    (now : ℕ) (key : String) (c : Cache) → (get now key c).0 ≡ none → (get now key c).1.ttl ≡ c.ttl
unfolding get
kept_ttl now key c h = get-none now key c (find_first (has_key key) c.m) h

module _ (now later : ℕ) (first : Request) (fresh : Response) (c : Cache)
    (cacheable : Cacheable first) (storable : Storable fresh)
    (missed : (get now (cache_key first) c).0 ≡ none) where
  answer-miss :
      (g : Option (List ℕ) × Cache)
      → g.0 ≡ none
      → answer later (cache_key first) fresh g ≡ (fresh, set later (cache_key first) fresh.body g.1)
  answer-miss (none, d) h = rw (storable.from, storable.to, storable.object) refl
  answer-miss (some v, d) h = cc

  abbrev stored : Cache
  stored = set later (cache_key first) fresh.body (get now (cache_key first) c).1

  after_first : read_through_cache now later first fresh c ≡ (fresh, stored)
  after_first =
      asks_cache now later first fresh c cacheable
      ∙ answer-miss (get now (cache_key first) c) missed

  -- The second request of the same URL gets the first one's body.
  pub shared_body :
      (t after : ℕ) (second : Request) (other : Response)
      → Cacheable second
      → cache_key second ≡ cache_key first
      → t ≤ later + c.ttl
      → (read_through_cache t after second other
          (read_through_cache now later first fresh c).1).0.body
        ≡ fresh.body
  shared_body t after second other again same in_time =
      let found =
        get-set later t (cache_key first) fresh.body (get now (cache_key first) c).1
          (rw (kept_ttl now (cache_key first) c missed) in_time) in
      ap (λ (s : Response × Cache). (read_through_cache t after second other s.1).0.body)
        after_first
      ∙ (ap (λ (s : Response × Cache). s.0.body) (asks_cache t after second other stored again)
          ∙ rw (same, found) refl)

-- An admin sees every organizer.
admin_sees :
    (u : User) (groups : List GroupReservation)
    → u.is_admin ≡ true
    → map (project_group (some u)) groups ≡ groups
unfolding project_group can_see_organizer_pii
admin_sees u [] admin = refl
admin_sees u (g ∷ groups) admin = rw admin (ap (λ gs. g ∷ gs) (admin_sees u groups admin))

-- The answer of GET /api/groups.
abbrev pub listing :
    (List GroupReservation → List ℕ)
    → Option User
    → (limit offset : ℕ) → List GroupReservation
    → Response
listing render user limit offset rows = record {
  status = 200;
  body = list_body render user limit offset rows;
}

-- If an admin, without a bypass, asks for the list of groups under a URL that the cache does not
-- hold, and the encoding is that of an object, then whoever asks for the same URL until the TTL of the
-- cache is over gets the list with the names and the emails of all organizers unmasked, whatever the
-- list would be if it were computed for this viewer.
pub group_list_leaks :
    (render : List GroupReservation → List ℕ) (limit offset : ℕ) (rows : List GroupReservation)
    (c : Cache)
    → (admin : User) (now later t after : ℕ) (first second : Request) (other : Response)
    → ((groups : List GroupReservation) → is_object (render groups) ≡ true)
    → admin.is_admin ≡ true
    → Cacheable first
    → Cacheable second
    → (get now (cache_key first) c).0 ≡ none
    → cache_key second ≡ cache_key first
    → t ≤ later + c.ttl
    → (read_through_cache t after second other
        (read_through_cache now later first
          (listing render (some admin) limit offset rows)
          c).1).0.body
      ≡ render (list_groups limit offset rows)
unfolding list_body
group_list_leaks render limit offset rows c admin now later t after first second other object
      is_admin cacheable again missed same in_time =
    shared_body now later first (listing render (some admin) limit offset rows) c cacheable
      (record { from = refl; to = refl; object = object _ }) missed t after second other again same
      in_time
    ∙ ap render (admin_sees admin (list_groups limit offset rows) is_admin)
