-- ===== src/Config.antt =====
-- config/middleware.go and `GetOrigin` of config/config.go. An ini.File is seen through its one
-- method `Get(section, key)`; the file format is the library's.
pub mod Load
use core_go_nopgp.Base.{Str, codes, Option, none, some, Bool, if◌then◌else◌, Go, must}
use core_go_nopgp.Errors.{Error, invalid_config_context, invalid_service_context}

-- conf.Get(section, key)
abbrev pub IniFile : Type 0
IniFile = Str → Str → Option Str

-- The two values that this package keeps in a context.Context, each under a key of its own.
pub record ConfigContext : Type 0 where
  pub conf : Option IniFile
  pub service : Option Str

-- `Context`
unfoldable pub with_config : ConfigContext → IniFile → Str → ConfigContext
with_config ctx conf service = record ctx { conf = some conf; service = some service }

-- `ForContext`
unfoldable pub conf_for_context : ConfigContext → Go Error IniFile
conf_for_context ctx = must invalid_config_context ctx.conf

-- `ServiceName`
unfoldable pub service_name : ConfigContext → Go Error Str
service_name ctx = must invalid_service_context ctx.service

-- `origin, _ := conf.Get(…)`: a missing value reads as "".
abbrev pub or_empty : Option Str → Str
or_empty none = codes ""
or_empty (some s) = s

unfoldable pub get_origin : IniFile → Str → Bool → Str
get_origin conf svc external =
    if external
    then or_empty (conf svc (codes "origin"))
    else elim (conf svc (codes "internal-origin")) [
      | some origin ↦ origin
      | none ↦ or_empty (conf svc (codes "origin"))
    ]
