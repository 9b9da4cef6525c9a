-- ===== src/Config/Load/Laws.antt =====
-- Which file LoadConfig reads.
use core_go_nopgp.Base.{
  Str, List, [], ◌∷◌, ◌++◌, Go, ok, err, panic, ◌≡◌, refl, All, panicking, >>=-eq-ok, ok-injective,
  ap, ◌∙◌, Bool, true, Bool-cases, inl, inr, ◌||◌, ◌==◌, ==_iff, any, codes, sym, subst, arith,
  if◌then◌else◌, ◌↔◌, panicking-eq-ok,
}
use core_go_nopgp.Config.{IniFile}
use core_go_nopgp.Crypto.{Primitives, init_crypto}
use core_go_nopgp.Errors.{Error, external}
use core_go_nopgp.Config.Load.{
  Flag, Globals, config_paths, load_first, or_next, Loaded, load_config, read_flag, read_flags,
}

-- The configuration is that of a path, and none of the paths before it could be loaded.
pub record IsFirst (load : Str → Go Error IniFile) (paths : List Str) (conf : IniFile)
    : Type 0 where
  pub before : List Str
  pub path : Str
  pub after_it : List Str
  pub split : paths ≡ before ++ path ∷ after_it
  pub failed : All (λ p. (e : Error) × (load p ≡ err e)) before
  pub loaded : load path ≡ ok conf

module _ (load : Str → Go Error IniFile) (conf : IniFile) where
  later :
      (path : Str) (paths : List Str) (e : Error)
      → load path ≡ err e
      → IsFirst load paths conf
      → IsFirst load (path ∷ paths) conf
  later path paths e failed first = record {
    before = path ∷ first.before;
    path = first.path;
    after_it = first.after_it;
    split = ap (λ l. path ∷ l) first.split;
    failed = ((e, failed), first.failed);
    loaded = first.loaded;
  }

  next-IsFirst :
      (path : Str) (paths : List Str) (got : Go Error IniFile) (rest : Error → Go Error IniFile)
      → load path ≡ got
      → ((e : Error) → rest e ≡ ok conf → IsFirst load paths conf)
      → or_next got rest ≡ ok conf
      → IsFirst load (path ∷ paths) conf
  next-IsFirst path paths (ok c) rest e others h = record {
    before = [];
    path = path;
    after_it = paths;
    split = refl;
    failed = tt;
    loaded = e ∙ h;
  }
  next-IsFirst path paths (err f) rest e others h = later path paths f e (others f h)
  next-IsFirst path paths (panic f) rest e others h = cc

  pub load_first-IsFirst :
      (paths : List Str) (last : Error)
      → load_first load paths last ≡ ok conf
      → IsFirst load paths conf
  load_first-IsFirst [] last h = cc
  load_first-IsFirst (path ∷ paths) last h =
      next-IsFirst path paths (load path) (λ e. load_first load paths e) refl
        (λ e. load_first-IsFirst paths e) h

  pub IsFirst-load_first :
      (before : List Str) (path : Str) (after_it : List Str) (last : Error)
      → All (λ p. (e : Error) × (load p ≡ err e)) before
      → load path ≡ ok conf
      → load_first load (before ++ path ∷ after_it) last ≡ ok conf
  IsFirst-load_first [] path after_it last failed found = rw found refl
  IsFirst-load_first (p ∷ before) path after_it last ((e, failed), rest) found =
      rw failed (IsFirst-load_first before path after_it e rest found)

-- What the options make of the variables: the address is that of the last -b, if any, and debug
-- mode is on if it was or if there is a -d.
abbrev last_address : List Flag → Str → Str
last_address [] addr = addr
last_address (flag ∷ flags) addr =
    last_address flags (if flag.option == b'b' then flag.value else addr)

pub record AreGlobals (flags : List Flag) (debug : Bool) (addr : Str) (globals : Globals)
    : Type 0 where
  pub address : globals.addr ≡ last_address flags addr
  pub debugging : globals.debug ≡ (debug || any (λ f. f.option == b'd') flags)

read_flag-addr :
    (flag : Flag) (g : Globals)
    → (read_flag flag g).addr ≡ (if flag.option == b'b' then flag.value else g.addr)
read_flag-addr flag g = elim (Bool-cases (flag.option == b'b')) [
  | inl b ↦ simp b refl
  | inr not_b ↦ elim (Bool-cases (flag.option == b'd')) [
    | inl d ↦ simp (not_b, d) refl
    | inr not_d ↦ simp (not_b, not_d) refl
  ]
]

read_flags-addr :
    (flags : List Flag) (g : Globals) → (read_flags flags g).addr ≡ last_address flags g.addr
read_flags-addr [] g = refl
read_flags-addr (flag ∷ flags) g =
    read_flags-addr flags (read_flag flag g) ∙ ap (last_address flags) (read_flag-addr flag g)

read_flag-debug :
    (flag : Flag) (g : Globals) → (read_flag flag g).debug ≡ (g.debug || (flag.option == b'd'))
read_flag-debug flag g = elim (Bool-cases (flag.option == b'd')) [
  | inl d ↦ elim (Bool-cases (flag.option == b'b')) [
    | inl b ↦ absurd (omega (arith, (==_iff _ _).0 d, (==_iff _ _).0 b))
    | inr not_b ↦ simp (not_b, d) (ground arith)
  ]
  | inr not_d ↦ elim (Bool-cases (flag.option == b'b')) [
    | inl b ↦ simp (b, not_d) (ground arith)
    | inr not_b ↦ simp (not_b, not_d) (ground arith)
  ]
]

or_assoc : (a b c : Bool) → ((a || b) || c) ≡ (a || (if b then true else c))
or_assoc a b c = ground arith

read_flags-debug :
    (flags : List Flag) (g : Globals)
    → (read_flags flags g).debug ≡ (g.debug || any (λ f. f.option == b'd') flags)
read_flags-debug [] g = ground arith
read_flags-debug (flag ∷ flags) g =
    read_flags-debug flags (read_flag flag g) ∙ rw (read_flag-debug flag g) (or_assoc g.debug _ _)

read_flags-AreGlobals :
    (flags : List Flag) (debug : Bool) (addr : Str)
    → AreGlobals flags debug addr (read_flags flags (record { debug = debug; addr = addr }))
read_flags-AreGlobals flags debug addr = record {
  address = read_flags-addr flags (record { debug = debug; addr = addr });
  debugging = read_flags-debug flags (record { debug = debug; addr = addr });
}

AreGlobals-read_flags :
    (flags : List Flag) (debug : Bool) (addr : Str) (globals : Globals)
    → AreGlobals flags debug addr globals
    → read_flags flags (record { debug = debug; addr = addr }) ≡ globals
AreGlobals-read_flags flags debug addr globals h i = record {
  debug = (read_flags-debug flags (record { debug = debug; addr = addr }) ∙ sym h.debugging) i;
  addr = (read_flags-addr flags (record { debug = debug; addr = addr }) ∙ sym h.address) i;
}

-- What LoadConfig returns: the configuration of the first of three files that can be loaded, the
-- keys of it, and the variables that the options set.
pub record IsLoaded (p : Primitives) (getopts : List Str → Go Error (List Flag))
    (load : Str → Go Error IniFile) (args : List Str) (debug : Bool) (addr : Str) (loaded : Loaded)
    : Type 0 where
  pub flags : List Flag
  pub got : getopts args ≡ ok flags
  pub globals : AreGlobals flags debug addr loaded.globals
  pub is_first :
      IsFirst load
        (codes "config.ini" ∷ codes "../config.ini" ∷ codes "/etc/sr.ht/config.ini" ∷ [])
        loaded.conf
  pub keys : init_crypto p loaded.conf ≡ ok loaded.keys

module _ (p : Primitives) (getopts : List Str → Go Error (List Flag))
    (load : Str → Go Error IniFile) (args : List Str) (debug : Bool) (addr : Str)
    (loaded : Loaded) where
  load_config-IsLoaded :
      load_config p getopts load args debug addr ≡ ok loaded
      → IsLoaded p getopts load args debug addr loaded
  unfolding load_config
  load_config-IsLoaded h =
      let (flags, e, h₁) = >>=-eq-ok (panicking (getopts args)) _ h in
      let (conf, f, h₂) = >>=-eq-ok (load_first load config_paths (external [])) _ h₁ in
      let (keys, g, h₃) = >>=-eq-ok (init_crypto p conf) _ h₂ in
      let same = ok-injective _ loaded h₃ in
      subst (IsLoaded p getopts load args debug addr) same (record {
        flags = flags;
        got = panicking-eq-ok _ e;
        globals = read_flags-AreGlobals flags debug addr;
        is_first = load_first-IsFirst load conf config_paths (external []) f;
        keys = g;
      })

  IsLoaded-load_config :
      IsLoaded p getopts load args debug addr loaded
      → load_config p getopts load args debug addr ≡ ok loaded
  unfolding load_config
  IsLoaded-load_config h =
      let first = h.is_first in
      let found : load_first load config_paths (external []) ≡ ok loaded.conf =
        ap (λ paths. load_first load paths (external [])) first.split
        ∙ IsFirst-load_first load loaded.conf first.before first.path first.after_it (external [])
            first.failed first.loaded in
      let globals = AreGlobals-read_flags h.flags debug addr loaded.globals h.globals in
      rw (h.got, found, h.keys)
        (λ i. ok (record { conf = loaded.conf; keys = loaded.keys; globals = globals i }))

  -- LoadConfig returns exactly where the options can be read, one of config.ini, ../config.ini and
  -- /etc/sr.ht/config.ini can be loaded and its keys can be read: with the first of these files that
  -- can be loaded, its keys, the address of the last -b, and debug mode if it was on or there is a
  -- -d.
  pub load_config_iff :
      (load_config p getopts load args debug addr ≡ ok loaded)
      ↔ IsLoaded p getopts load args debug addr loaded
  load_config_iff = (load_config-IsLoaded, IsLoaded-load_config)
