-- ===== src/Client.antt =====
-- client/graphql.go: a GraphQL query to another service of the instance. The HTTP client and the
-- JSON encoding are parameters.
use core_go_nopgp.Base.{
  ℕ, false, Str, codes, str_eq, ◌==◌, not, Map, Option, none, some, ◌++◌, if◌then◌else◌, Go, ok,
  err, panic, ◌>>=◌, ◌>>◌,
}
use core_go_nopgp.Config.{
  IniFile, ConfigContext, conf_for_context, service_name, or_empty, get_origin,
}
use core_go_nopgp.Crypto.{Primitives, Keys, encrypt}
use core_go_nopgp.Errors.{Error, no_origin, bad_status}

pub record GraphqlQuery : Type 0 where
  pub query : Str
  pub variables : Map Str

-- This package's own `InternalAuth`, which has no OAuth client.
pub record ClientAuth : Type 0 where
  pub name : Str
  pub client_id : Str
  pub node_id : Str

pub record HttpRequest : Type 0 where
  pub url : Str
  pub body : Str
  pub content_type : Str
  pub authorization : Str

pub record HttpResponse : Type 0 where
  pub status_code : ℕ
  -- What ioutil.ReadAll gives.
  pub body : Go Error Str

-- net/http and encoding/json as this package uses them.
pub record Web : Type 0 where
  pub marshal_query : GraphqlQuery → Str
  pub marshal_auth : ClientAuth → Str
  pub bad_url : Str → Option Error
  pub send : HttpRequest → Go Error HttpResponse

abbrev pub check_error : Option Error → Go Error (Unit {0})
check_error none = ok tt
check_error (some e) = err e

-- The origin that is configured for the API of a service.
unfoldable pub api_origin : IniFile → Str → Str
api_origin conf svc =
    let origin = or_empty (conf svc (codes "api-origin")) in
    if str_eq origin (codes "") then get_origin conf svc false else origin

module _ (p : Primitives) (keys : Keys) (web : Web) where
  -- `Execute`, up to the decoding of the body into the caller's result.
  unfoldable pub execute : ConfigContext → Str → Str → GraphqlQuery → Go Error Str
  unfolding api_origin
  execute ctx username svc query = do
    let body = web.marshal_query query
    conf ← conf_for_context ctx
    let origin = api_origin conf svc
    if str_eq origin (codes "") then panic (no_origin svc) else ok tt
    let url = origin ++ codes "/query"
    check_error (web.bad_url url)
    service ← service_name ctx
    token ← encrypt p keys (
        web.marshal_auth
          (record { name = username; client_id = service; node_id = codes "core-go" }))
    response ← web.send (record {
      url = url;
      body = body;
      content_type = codes "application/json";
      authorization = codes "Internal " ++ token;
    })
    text ← response.body
    if not (response.status_code == 200) then err (bad_status svc response.status_code) else ok text
