-- ===== src/Tests/World.antt =====
-- A small instance: ciphers that hide nothing, one user, and a database that answers at once.
use core_go_nopgp.Base.{
  all, not, Bool, ◌==◌, Free, ◌≡◌, arith, ℕ, zero, suc, pos, Str, codes, str_eq, Option, none, some,
  [], ◌∷◌, true, false, Time, ok, err, if◌then◌else◌,
}
use core_go_nopgp.Errors.{nil_dereference}
use core_go_nopgp.Crypto.{Primitives, Keys}
use core_go_nopgp.Client.{Web}
use core_go_nopgp.Database.Tx.{Answers, acked}
use core_go_nopgp.Auth.Types.{BearerToken, InternalAuth, Context}
use core_go_nopgp.Auth.Bearer.{Bare}
use core_go_nopgp.Auth.Env.{Env, UserRow, available}

abbrev pub zeros : ℕ → Str
zeros zero = []
zeros (suc n) = 0 ∷ zeros n

abbrev pub toy_primitives : Primitives
toy_primitives = record {
  new_key_from_seed = λ seed. seed;
  public_key = λ key. key;
  ed25519_sign = λ key message. 1 ∷ 2 ∷ [];
  ed25519_verify = λ key message signature. str_eq signature (1 ∷ 2 ∷ []);
  hmac_sha256 = λ key message. zeros 32;
  fernet_decode_key = λ key. some key;
  fernet_encrypt_and_sign = λ message key. some message;
  fernet_verify_and_decrypt = λ token ttl key. some token;
}

abbrev pub toy_keys : Keys
toy_keys = record {
  webhook_sk = zeros 32;
  webhook_pk = zeros 32;
  bearer_key = zeros 32;
  fernet_key = zeros 32;
}

abbrev pub alice : Str
alice = codes "alice"

abbrev pub at : ℕ → Time
at n = record { sec = pos n; nsec = 0 }

abbrev pub alice_token : BearerToken
alice_token = record {
  version = 0;
  expires = pos 2000;
  grants = codes "git.sr.ht/REPOS:RW";
  client_id = codes "client";
  username = alice;
}

abbrev pub toy_bare : Bare
toy_bare = record {
  marshal = λ token. some (codes "token");
  unmarshal = λ plain. if str_eq plain (codes "token") then some alice_token else none;
}

abbrev pub alice_row : UserRow
alice_row = record {
  id = pos 7;
  username = alice;
  created = at 1;
  updated = at 2;
  email = codes "alice@example.org";
  user_type = codes "user";
  url = none;
  location = none;
  bio = none;
  suspension_notice = none;
  pgp_key = none;
}

abbrev pub toy_answers : Answers
toy_answers = record { conn = none; begin = none; rollback = acked; commit = acked }

abbrev pub toy_web : Web
toy_web = record {
  marshal_query = λ query. codes "{}";
  marshal_auth = λ auth. codes "{}";
  bad_url = λ url. none;
  send = λ request. ok (record { status_code = 200; body = ok (codes "false") });
}

abbrev pub toy_internal : InternalAuth
toy_internal = record {
  name = alice;
  client_id = codes "git.sr.ht";
  node_id = codes "node";
  oauth_client_uuid = codes "";
}

abbrev pub toy_env : Env
toy_env = record {
  primitives = toy_primitives;
  keys = toy_keys;
  bare = toy_bare;
  web = toy_web;
  now = at 1000;
  sha512 = λ s. zeros 64;
  unicode_lower = λ s. s;
  unmarshal_cookie = λ s. some s;
  unmarshal_internal = λ s. some toy_internal;
  unmarshal_profile = λ s. err nil_dereference;
  unmarshal_revocation = λ s. ok false;
  split_host_port = λ s. some s;
  parse_ip = λ s. some s;
  parse_cidr = λ s. some (λ ip. true);
  answers = toy_answers;
  profile_answers = toy_answers;
  users = λ is_meta name. available (if str_eq name alice then ok alice_row ∷ [] else []) none;
  oauth_clients = λ uuid. available [] none;
  oauth_tokens = λ hash. available (ok (at 2000, codes "*", alice_row) ∷ []) none;
  insert_user = λ profile. ok none;
}

abbrev pub toy_conf : Str → Str → Option Str
toy_conf section key = if str_eq key (codes "origin") then some (codes "https://sr.ht") else none

abbrev pub toy_context : Context
toy_context = record {
  config_context = record { conf = some toy_conf; service = some (codes "git.sr.ht") };
  has_database = true;
  user = none;
  payload = none;
  max_complexity = none;
}

-- A byte that a text does not hold, by a test.
abbrev pub lacks : ℕ → Str → Bool
lacks sep s = all (λ c. not (c == sep)) s

pub lacks-Free : (sep : ℕ) (s : Str) → lacks sep s ≡ true → Free sep s
lacks-Free sep [] h = tt
lacks-Free sep (c ∷ s) h = ground (arith, lacks-Free sep s)
