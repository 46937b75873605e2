-- ===== src/Body/Config/Load.antt =====
-- internal/body/config.go: LoadConfig. The layers of koanf are a parameter: each `load` puts a source
-- on top of what is loaded, and gives nothing if the source cannot be read.
use hydra_db.Base.{
  String, ◌≡◌, refl, ap, ◌∙◌, Option, none, some, ok_inj, Outcome, ok, ◌>>=◌, or_fail,
}
use hydra_db.Body.Config.{Config}

pub record Koanf (K : Type 0) : Type 0 where
  pub new : K
  pub load_yaml : (text : String) → K → Option K
  pub load_file : (path : String) → K → Option K
  pub load_env : (prefix : String) (key_of : String → String) → K → Option K
  pub unmarshal : K → Option Config

-- The functions of `strings` that turn the name of an environment variable into a key.
pub record KeyTexts : Type 0 where
  pub trim_prefix : (s prefix : String) → String
  pub to_lower : String → String
  pub replace_all : (s old new : String) → String

pub data LoadError : Type 0 where
  defaults_failed file_failed env_failed unmarshal_failed : LoadError

abbrev defaults_yaml : String
defaults_yaml =
    "hydra:\n  name: hydra\n  version: \"0.1.0\"\n  log_level: info\ngateway:\n  host: localhost\n  port: 8080\n  read_timeout: 30\n  write_timeout: 30\npolicy:\n  default_budget: 10000\n  rate_limit: 100\nlogging:\n  level: info\n  format: json\n"

env_key : KeyTexts → String → String
env_key texts s = texts.replace_all (texts.to_lower (texts.trim_prefix s "HYDRA_")) "__" "."

module _ {K : Type 0} (koanf : Koanf K) where
  read_config : K → Outcome LoadError Config
  read_config k = or_fail (koanf.unmarshal k) unmarshal_failed

  -- The environment on top, and what is read then.
  add_env : KeyTexts → K → Outcome LoadError Config
  unfolding read_config
  add_env texts k = do
    with_env ← or_fail (koanf.load_env "HYDRA_" (env_key texts) k) env_failed
    read_config with_env

  -- The file on top, and then the environment.
  add_file : KeyTexts → (path : String) → K → Outcome LoadError Config
  unfolding add_env
  add_file texts path k = do
    with_file ← or_fail (koanf.load_file path k) file_failed
    add_env texts with_file

  load_config : KeyTexts → (path : String) → Outcome LoadError Config
  unfolding add_file
  load_config texts path = do
    defaults ← or_fail (koanf.load_yaml defaults_yaml koanf.new) defaults_failed
    add_file texts path defaults

loaded_some :
    {A B : Type 0} (o : Option A) (e : LoadError) (f : A → Outcome LoadError B) {b : B}
    → (or_fail o e >>= f) ≡ ok b
    → (a : A) × (o ≡ some a) × (f a ≡ ok b)
loaded_some none e f h = cc
loaded_some (some a) e f h = (a, refl, h)

unmarshalled : {A : Type 0} (o : Option A) (e : LoadError) {a : A} → or_fail o e ≡ ok a → o ≡ some a
unmarshalled none e h = cc
unmarshalled (some a) e h = ap some (ok_inj h)

-- A setting that is read from a key of koanf; and the last layers that are loaded.
module _ {K A : Type 0} (koanf : Koanf K) (texts : KeyTexts) (path : String) (look : K → A)
    (setting : Config → A)
    (reads : (k : K) (d : Config) → koanf.unmarshal k ≡ some d → setting d ≡ look k) (c : Config)
    (loaded : load_config koanf texts path ≡ ok c) where
  layers :
      (with_file with_env : K) × ((defaults : K) × (koanf.load_file path defaults ≡ some with_file))
      × (koanf.load_env "HYDRA_" (env_key texts) with_file ≡ some with_env)
      × (setting c ≡ look with_env)
  unfolding load_config add_file add_env read_config
  layers =
      let (defaults, e, rest) =
        loaded_some (koanf.load_yaml defaults_yaml koanf.new) defaults_failed
          (λ k. add_file koanf texts path k) loaded in
      let (with_file, e', rest') =
        loaded_some (koanf.load_file path defaults) file_failed (λ k. add_env koanf texts k) rest in
      let (with_env, e'', rest'') =
        loaded_some (koanf.load_env "HYDRA_" (env_key texts) with_file) env_failed
          (λ k. read_config koanf k) rest' in
      (
        with_file,
        with_env,
        (defaults, e'),
        e'',
        reads with_env c (unmarshalled (koanf.unmarshal with_env) unmarshal_failed rest''),
      )

  -- A setting of the environment is that of the configuration, whatever the file holds.
  env_decides :
      (a : A)
      → ((k k' : K) → koanf.load_env "HYDRA_" (env_key texts) k ≡ some k' → look k' ≡ a)
      → setting c ≡ a
  env_decides a sets =
      let (with_file, with_env, from_file, from_env, e) = layers in
      e ∙ sets with_file with_env from_env

  -- A setting of the file that the environment leaves alone is that of the configuration.
  file_decides :
      (a : A)
      → ((k k' : K) → koanf.load_env "HYDRA_" (env_key texts) k ≡ some k' → look k' ≡ look k)
      → ((k k' : K) → koanf.load_file path k ≡ some k' → look k' ≡ a)
      → setting c ≡ a
  file_decides a keeps sets =
      let (with_file, with_env, (defaults, from_file), from_env, e) = layers in
      e ∙ keeps with_file with_env from_env ∙ sets defaults with_file from_file
