-- ===== src/Config/Load.antt =====
-- `LoadConfig` of config/config.go. The reading of the options and of a file are parameters.
pub mod Laws
use core_go_nopgp.Base.{
  ℕ, Str, codes, ◌==◌, Bool, true, if◌then◌else◌, List, [], ◌∷◌, Go, ok, err, panic, ◌>>=◌,
  panicking,
}
use core_go_nopgp.Config.{IniFile}
use core_go_nopgp.Crypto.{Primitives, Keys, init_crypto}
use core_go_nopgp.Errors.{Error, config_not_loaded}

-- getopt.Option
pub record Flag : Type 0 where
  pub option : ℕ
  pub value : Str

-- The variables of the package.
pub record Globals : Type 0 where
  pub debug : Bool
  pub addr : Str

abbrev read_flag : Flag → Globals → Globals
read_flag flag g =
    if flag.option == b'b'
    then record g { addr = flag.value }
    else if flag.option == b'd'
    then record g { debug = true }
    else g

abbrev pub read_flags : List Flag → Globals → Globals
read_flags [] g = g
read_flags (flag ∷ flags) g = read_flags flags (read_flag flag g)

abbrev pub config_paths : List Str
config_paths = codes "config.ini" ∷ codes "../config.ini" ∷ codes "/etc/sr.ht/config.ini" ∷ []

-- The loop over the paths, with what the last of them gave.
abbrev or_next : Go Error IniFile → (Error → Go Error IniFile) → Go Error IniFile
or_next (ok conf) next = ok conf
or_next (err e) next = next e
or_next (panic e) next = panic e

abbrev pub load_first : (Str → Go Error IniFile) → List Str → Error → Go Error IniFile
load_first load [] last = panic (config_not_loaded last)
load_first load (path ∷ paths) last = or_next (load path) (λ e. load_first load paths e)

-- What `LoadConfig` leaves: the configuration, the keys and the variables.
pub record Loaded : Type 0 where
  pub conf : IniFile
  pub keys : Keys
  pub globals : Globals

module _ (p : Primitives) (getopts : List Str → Go Error (List Flag))
    (load : Str → Go Error IniFile) (args : List Str) where
  -- `LoadConfig`, from the value that Debug has before.
  unfoldable pub load_config : Bool → Str → Go Error Loaded
  unfolding init_crypto
  load_config debug default_addr = do
    flags ← panicking (getopts args)
    conf ← load_first load config_paths (Error.external [])
    keys ← init_crypto p conf
    ok (record {
      conf = conf;
      keys = keys;
      globals = read_flags flags (record { debug = debug; addr = default_addr });
    })
