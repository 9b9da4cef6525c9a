-- ===== src/Token.antt =====
-- cmd/token/main.go: the command that prints a token.
use core_go_nopgp.Base.{
  Str, codes, false, Option, none, List, ◌∷◌, Time, Go, ok, ◌>>=◌, must, ◌≡◌, refl,
}
use core_go_nopgp.Config.{IniFile}
use core_go_nopgp.Config.Load.{Flag, Loaded, load_config}
use core_go_nopgp.Config.Load.Laws.{load_config_iff}
use core_go_nopgp.Crypto.{Primitives, init_crypto}
use core_go_nopgp.Errors.{Error, index_out_of_range}
use core_go_nopgp.Auth.Types.{BearerToken}
use core_go_nopgp.Auth.Bearer.{Bare, decode_bearer_token}

-- os.Args[1]
abbrev first_argument : List Str → Go Error Str
first_argument (name ∷ arg ∷ rest) = ok arg
first_argument _ = must index_out_of_range none

module _ (p : Primitives) (bare : Bare) (now : Time) (getopts : List Str → Go Error (List Flag))
    (load : Str → Go Error IniFile) (args : List Str) where
  -- `main`, by the token that it prints. It sets the keys up a second time.
  unfoldable pub token_main : Go Error (Option BearerToken)
  unfolding load_config init_crypto decode_bearer_token
  token_main = do
    loaded ← load_config p getopts load args false (codes ":1111")
    keys ← init_crypto p loaded.conf
    text ← first_argument args
    ok (decode_bearer_token p bare keys now text)

  -- The second set-up makes no difference: the token is decoded with the keys of LoadConfig.
  pub token_main-load_config :
      (loaded : Loaded) (text : Str) (name : Str) (rest : List Str)
      → load_config p getopts load args false (codes ":1111") ≡ ok loaded
      → args ≡ name ∷ text ∷ rest
      → token_main ≡ ok (decode_bearer_token p bare loaded.keys now text)
  unfolding token_main
  token_main-load_config loaded text name rest h e =
      let read = (load_config_iff p getopts load args false (codes ":1111") loaded).0 h in
      rw (h, read.keys, e) refl
