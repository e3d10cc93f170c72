-- ===== src/Webhooks/Target.antt =====
-- ValidateWebhookTargetURL of repo/internal/service/webhook.go. The packages net, net/url and
-- strings are parameters: what they answer is a field of `Net`.
use task.Base.{Bool, true, false, not, ◌&&◌, Option, none, some, List, [], ◌∷◌, String, any, str_eq}
use task.Domain.Errors.{Result, ok, err, invalid_input, fail_if, ◌>>◌}

pub record Url : Type 0 where
  pub scheme : String
  pub hostname : String
  pub text : String

-- An address and a network are what `LookupIP` and `ParseCIDR` give.
pub record Net : Type 1 where
  pub Ip : Type 0
  pub Network : Type 0
  pub parse : String → Option Url
  pub lookup_ip : String → Option (List Ip)
  pub parse_cidr : String → Option Network
  pub contains : Network → Ip → Bool
  pub equal_fold : String → String → Bool

abbrev pub allowed_webhook_cidrs : List String
allowed_webhook_cidrs =
    "127.0.0.0/8" ∷ "10.0.0.0/8" ∷ "172.16.0.0/12" ∷ "192.168.0.0/16" ∷ "::1/128" ∷ "fc00::/7" ∷ []

abbrev pub allowed_webhook_hostnames : List String
allowed_webhook_hostnames = "localhost" ∷ "db" ∷ "app" ∷ "tests" ∷ []

module _ (net : Net) where
  open net use {Ip, Network, parse, lookup_ip, parse_cidr, contains, equal_fold}

  abbrev pub contained : Option Network → Ip → Bool
  contained none ip = false
  contained (some network) ip = contains network ip

  unfoldable pub is_local_ip : Ip → Bool
  is_local_ip ip = any (λ cidr. contained (parse_cidr cidr) ip) allowed_webhook_cidrs

  abbrev pub is_allowed_hostname : String → Bool
  is_allowed_hostname host = any (λ h. equal_fold host h) allowed_webhook_hostnames

  -- The checks after `LookupIP`.
  abbrev pub check_addresses : Option (List Ip) → Result (Unit {0})
  check_addresses none = err invalid_input
  check_addresses (some []) = err invalid_input
  check_addresses (some (ip ∷ ips)) =
      fail_if (any (λ a. not (is_local_ip a)) (ip ∷ ips)) invalid_input

  abbrev pub check_host : Bool → String → Result (Unit {0})
  check_host true host = ok tt
  check_host false host = check_addresses (lookup_ip host)

  abbrev pub check_parsed : Option Url → Result Url
  check_parsed none = err invalid_input
  check_parsed (some u) = do
    fail_if (not (str_eq u.scheme "http") && not (str_eq u.scheme "https")) invalid_input
    fail_if (str_eq u.hostname "") invalid_input
    check_host (is_allowed_hostname u.hostname) u.hostname
    ok u

  -- Every refusal is an error without a sentinel, which `Create` joins to ErrInvalidInput.
  unfoldable pub validate_webhook_target_url : String → Result Url
  validate_webhook_target_url raw = do
    fail_if (str_eq raw "") invalid_input
    check_parsed (parse raw)
