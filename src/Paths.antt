-- ===== src/Paths.antt =====
-- daemon/src/paths.hpp and paths.cpp: the directories and files of the daemon.
pub mod Agreement
use agent_pulse.Base.{
  ◌==◌, if◌then◌else◌, Text, lit, Bool, false, Option, none, some, [], ◌∷◌, ◌++◌,
}
use agent_pulse.Config.Load.{Loaded, loaded, thrown, ◌>>=◌}

pub record Paths : Type 0 where
  pub data_dir : Text
  pub config_dir : Text
  pub log_dir : Text

abbrev pub ends_with_slash : Text → Bool
ends_with_slash [] = false
ends_with_slash (c ∷ []) = c == b'/'
ends_with_slash (c ∷ d ∷ t) = ends_with_slash (d ∷ t)

-- `operator/` of `std::filesystem::path`, for a relative right side and a left side that is not
-- empty.
unfoldable pub join : Text → Text → Text
join a b = if ends_with_slash a then a ++ b else a ++ b'/' ∷ b

unfoldable pub database_file : Paths → Text
database_file p = join p.data_dir (lit "agentpulse.db")

unfoldable pub socket_file : Paths → Text
socket_file p = join p.data_dir (lit "agentpulse.sock")

unfoldable pub config_file : Paths → Text
config_file p = join p.config_dir (lit "config.yaml")

-- `home` is the value of HOME, if it is set.
unfoldable pub home_dir : Option Text → Loaded Text
home_dir none = thrown (lit "HOME environment variable is not set")
home_dir (some []) = thrown (lit "HOME environment variable is not set")
home_dir (some (c ∷ home)) = loaded (c ∷ home)

-- `error_of` is the error of `create_directories`, if any.
unfoldable pub ensure_dir : (Text → Option Text) → Text → Loaded {0} Unit
ensure_dir error_of dir = elim (error_of dir) [
  | none ↦ loaded tt
  | some e ↦ thrown (lit "failed to create directory " ++ dir ++ lit ": " ++ e)
]

unfoldable pub paths_of : Text → Paths
unfolding join
paths_of home = record {
  data_dir = join (join (join home (lit "Library")) (lit "Application Support")) (lit "AgentPulse");
  config_dir = join (join home (lit ".config")) (lit "agentpulse");
  log_dir = join (join (join home (lit "Library")) (lit "Logs")) (lit "AgentPulse");
}

unfoldable pub resolve_paths : (Text → Option Text) → Option Text → Loaded Paths
unfolding home_dir ensure_dir paths_of
resolve_paths error_of home = do
  dir ← home_dir home
  made ← ensure_dir error_of (paths_of dir).data_dir
  made' ← ensure_dir error_of (paths_of dir).config_dir
  made'' ← ensure_dir error_of (paths_of dir).log_dir
  loaded (paths_of dir)
