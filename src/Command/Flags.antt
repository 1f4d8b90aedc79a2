-- ===== src/Command/Flags.antt =====
-- The settings of cmd/mdp/main.go: the environment, and the texts of the flags.
pub mod Apart
use real_time_market_data_pi.Base.{
  ℕ, ◌-◌, Bool, true, false, not, ◌&&◌, ◌||◌, ◌==◌, Option, none, some, List, [], ◌∷◌, ◌++◌, map,
  if◌then◌else◌, same, list_eq, nat_eq, length, take,
}
use real_time_market_data_pi.Base.Bytes.{Str, str}
use real_time_market_data_pi.Base.Int.{ℤ}
use real_time_market_data_pi.Base.Text.{to_lower, to_upper, trim_space, split}
use real_time_market_data_pi.Store.{is_blank}

-- `os.Getenv`; the parsers of Go's packages `time` and `strconv`, where `none` is an error.
module _ (getenv : Str → Str) where
  -- `env`
  unfoldable pub env : Str → Str → Str
  env key def = let v = getenv key in if is_blank v then def else v

  -- `envDur`, `envFloat`, `envInt` and `envBool`
  unfoldable pub env_dur : (Str → Option ℤ) → Str → ℤ → ℤ
  env_dur parse_duration key def =
      let v = getenv key in
      if is_blank v then def else elim (parse_duration v) [ none ↦ def | some d ↦ d ]

  unfoldable pub env_float {ℓ} : {F : Type ℓ} → (Str → Option F) → Str → F → F
  env_float parse_float key def =
      let v = getenv key in
      if is_blank v then def else elim (parse_float v) [ none ↦ def | some f ↦ f ]

  unfoldable pub env_int : (Str → Option ℤ) → Str → ℤ → ℤ
  env_int atoi key def =
      let v = getenv key in if is_blank v then def else elim (atoi v) [ none ↦ def | some n ↦ n ]

  unfoldable pub env_bool : (Str → Option Bool) → Str → Bool → Bool
  env_bool parse_bool key def =
      let v = getenv key in
      if is_blank v then def else elim (parse_bool v) [ none ↦ def | some b ↦ b ]

  -- `defaultHTTPAddr`
  unfoldable pub default_http_addr : Str
  unfolding env
  default_http_addr =
      let p = getenv (str "PORT") in
      if is_blank p then env (str "MDP_HTTP") (str ":8080") else b':' ∷ p

-- What `parseStrategies` and `parseInstruments` answer.
pub data Names : Type 0 where
  names : List Str → Names
  listed_twice : Str → Names
  none_requested : Names

abbrev pub member : Str → List Str → Bool
member k [] = false
member k (x ∷ xs) = if same x k then true else member k xs

-- The end of both: an empty list is an error.
unfoldable pub requested : List Str → Names
requested [] = none_requested
requested (n ∷ ns) = names (n ∷ ns)

-- The loop of `parseStrategies`; `seen` has the names of `out`.
unfoldable pub strategies_from : List Str → List Str → Names
unfolding requested
strategies_from [] out = requested out
strategies_from (f ∷ fs) out =
    let name = to_lower (trim_space f) in
    let skip = strategies_from fs out in
    let more = strategies_from fs (out ++ (name ∷ [])) in
    if is_blank name then skip else if member name out then listed_twice name else more

-- `parseStrategies`
unfoldable pub parse_strategies : Str → Names
unfolding strategies_from
parse_strategies raw = strategies_from (split b',' raw) []

-- The loop of `parseInstruments`.
unfoldable pub instruments_from : List Str → List Str
instruments_from [] = []
instruments_from (f ∷ fs) =
    let id = to_upper (trim_space f) in
    let rest = instruments_from fs in if is_blank id then rest else id ∷ rest

-- `parseInstruments`
unfoldable pub parse_instruments : Str → Names
unfolding instruments_from requested
parse_instruments s = requested (instruments_from (split b',' s))

abbrev pub member_byte : ℕ → Str → Bool
member_byte b [] = false
member_byte b (c ∷ s) = b == c || member_byte b s

-- `filepath.Ext`: the last dot and what follows it, where no slash does.
unfoldable pub ext : Str → Str
ext [] = []
ext (c ∷ s) =
    let rest = ext s in
    if is_blank rest && c == b'.' && not (member_byte b'/' s) then c ∷ s else rest

-- `statePathFor`; a text ends in its extension, so the suffix is always trimmed.
unfoldable pub state_path_for : Str → Str → Str
unfolding ext
state_path_for base name =
    let e = ext base in take (length base - length e) base ++ (b'-' ∷ name) ++ e

pub data Level : Type 0 where
  debug info warn error : Level

-- `newLogger`, as far as it chooses the level.
unfoldable pub log_level : Str → Level
log_level level =
    let l = to_lower level in
    if same l (str "debug")
    then debug
    else if same l (str "warn")
    then warn
    else if same l (str "error")
    then error
    else info
