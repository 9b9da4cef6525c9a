-- ===== src/Auth/Lookup.antt =====
-- The functions of auth/middleware.go that look a user up: in the database, at meta.sr.ht, by
-- OAuth client, and whether a token has been revoked.
pub mod Laws
use core_go_nopgp.Base.{
  ℕ, zero, suc, panicking, ℤ, pos, Str, codes, str_eq, Bool, true, false, Option, none, some, List,
  [], ◌∷◌, Time, if◌then◌else◌, Go, ok, err, panic, ◌>>=◌, ◌>>◌, must,
}
use core_go_nopgp.Config.{service_name}
use core_go_nopgp.Errors.{
  Error, nil_dereference, account_suspended, unknown_client, multiple_accounts, multiple_users,
  profile_from_ourselves, upsert_failed,
}
use core_go_nopgp.Client.{GraphqlQuery, execute}
use core_go_nopgp.Codec.Hex
use core_go_nopgp.Database.Tx.{read_tx}
use core_go_nopgp.Auth.Types.{AuthContext, Context, other, user_suspended}
use core_go_nopgp.Auth.Env.{Env, UserRow, Rows, unavailable, available, to_lower}

abbrev pub zero_time : Time
zero_time = record { sec = ℤ.negsuc 62135596799; nsec = 0 }

-- `AuthContext{}`
-- A new array of bytes.
abbrev zero_bytes : ℕ → Str
zero_bytes zero = []
zero_bytes (suc n) = 0 ∷ zero_bytes n

abbrev pub zero_auth : AuthContext
zero_auth = record {
  auth_method = other [];
  user_id = pos 0;
  created = zero_time;
  updated = zero_time;
  username = [];
  email = [];
  user_type = [];
  url = none;
  location = none;
  bio = none;
  suspension_notice = none;
  pgp_key = none;
  internal_auth = record { name = []; client_id = []; node_id = []; oauth_client_uuid = [] };
  bearer_token = none;
  grants = record { read_only = false; all = false; grants = []; encoded = [] };
  token_hash = zero_bytes 64;
}

-- rows.Scan into the fields of an AuthContext.
abbrev pub scan_user : AuthContext → UserRow → AuthContext
scan_user auth row = record auth {
  user_id = row.id;
  username = row.username;
  created = row.created;
  updated = row.updated;
  email = row.email;
  user_type = row.user_type;
  url = row.url;
  location = row.location;
  bio = row.bio;
  suspension_notice = row.suspension_notice;
}

abbrev meta : Str
meta = codes "meta.sr.ht"

-- The queries, in which each run of white space is written as one space.
pub profile_query : GraphqlQuery
profile_query = record {
  query = codes "query { me { id username email url location bio userType } }";
  variables = [];
}

pub revocation_query : Str → Str → GraphqlQuery
unfolding Hex.encode
revocation_query hash client_id = record {
  query =
      codes
        "query RevocationStatus($hash: String!, $clientId: String) { tokenRevocationStatus(hash: $hash, clientId: $clientId) }";
  variables = (codes "hash", Hex.encode hash) ∷ (codes "clientId", client_id) ∷ [];
}

abbrev inserted : AuthContext → Option UserRow → Go Error AuthContext
inserted user none = panic upsert_failed
inserted user (some row) = ok (scan_user user row)

-- What `LookupUser` does with the rows. A second row is an error if rows.Err has one, and
-- otherwise the uniqueness of names is broken.
abbrev after_user : AuthContext → List (Go Error UserRow) → Option Error → Go Error AuthContext
after_user auth [] rows_err = ok auth
after_user auth (_ ∷ _) (some e) = err e
after_user auth (_ ∷ _) none = panic multiple_users

-- The PGP key is scanned where it is selected.
abbrev scan_row : Bool → AuthContext → UserRow → AuthContext
scan_row true auth row = record (scan_user auth row) { pgp_key = row.pgp_key }
scan_row false auth row = scan_user auth row

-- The check for a suspended account; the notice is read through a pointer.
unfoldable pub check_suspended : AuthContext → Go Error AuthContext
check_suspended auth =
    if str_eq auth.user_type user_suspended
    then (do notice ← must nil_dereference auth.suspension_notice; err (account_suspended notice))
    else ok auth

-- Every failure of the query of `authForOAuthClient` panics but that of an unknown client.
abbrev after_client : AuthContext → List (Go Error UserRow) → Option Error → Go Error AuthContext
after_client auth [] rows_err = ok auth
after_client auth (_ ∷ _) (some e) = panic e
after_client auth (_ ∷ _) none = panic multiple_accounts

abbrev client_from_rows : Str → Rows UserRow → Go Error AuthContext
client_from_rows uuid (unavailable e) = panic e
client_from_rows uuid (available [] (some e)) = panic e
client_from_rows uuid (available [] none) = err (unknown_client uuid)
client_from_rows uuid (available (first ∷ rest) rows_err) = do
  row ← panicking first
  after_client (scan_user zero_auth row) rest rows_err

module _ (env : Env) where
  -- `FetchMetaProfile`
  unfoldable pub fetch_meta_profile : Context → Str → AuthContext → Go Error AuthContext
  unfolding to_lower
  fetch_meta_profile ctx username user = do
    service ← service_name ctx.config_context
    if str_eq service meta then panic profile_from_ourselves else ok tt
    body ← execute env.primitives env.keys env.web ctx.config_context username meta profile_query
    profile ← env.unmarshal_profile body
    read_tx ctx.has_database env.profile_answers do
      row ← env.insert_user (record profile { user_type = to_lower env profile.user_type })
      inserted user row

  abbrev user_from_rows : Context → Bool → Str → AuthContext → Rows UserRow → Go Error AuthContext
  user_from_rows ctx is_meta username user (unavailable e) = err e
  user_from_rows ctx is_meta username user (available [] (some e)) = err e
  user_from_rows ctx is_meta username user (available [] none) =
      fetch_meta_profile ctx username user
  user_from_rows ctx is_meta username user (available (first ∷ rest) rows_err) = do
    row ← first
    after_user (scan_row is_meta user row) rest rows_err

  -- `LookupUser`
  unfoldable pub lookup_user : Context → Str → AuthContext → Go Error AuthContext
  lookup_user ctx username user = read_tx ctx.has_database env.answers do
    service ← service_name ctx.config_context
    let is_meta = str_eq service meta
    user_from_rows ctx is_meta username user (env.users is_meta username)

  -- `authForUsername`
  unfoldable pub auth_for_username : Context → Str → Go Error AuthContext
  auth_for_username ctx username = do
    auth ← lookup_user ctx username zero_auth
    check_suspended auth

  -- `authForOAuthClient`
  unfoldable pub auth_for_oauth_client : Context → Str → Go Error AuthContext
  auth_for_oauth_client ctx uuid = do
    auth ← read_tx ctx.has_database env.answers (client_from_rows uuid (env.oauth_clients uuid))
    check_suspended auth

  -- `LookupTokenRevocation`. With an error it returns true, which callers do not look at.
  unfoldable pub lookup_token_revocation : Context → Str → Str → Str → Go Error Bool
  lookup_token_revocation ctx username hash client_id = do
    body ←
        execute env.primitives env.keys env.web ctx.config_context username meta
          (revocation_query hash client_id)
    env.unmarshal_revocation body
