-- ===== src/Arguments.antt =====
-- src/cli.rs, `Args`: what the command line says, with the defaults that its attributes give.
--
-- The parser of `clap` is not part of this code. A path is a text; a rate is below 2^32, as a `u32`.
use php_fast_profile.Base.{ℕ, List, [], Option, none, Bool, false}
use php_fast_profile.Base.Text.{Text, codes}

pub data Format : Type 0 where
  stacks folded pprof top : Format

pub record Args : Type 0 where
  pub pid : Option ℕ
  pub pgrep : Option Text
  pub cmdline : Option Text
  pub this_container : Bool
  pub rediscover_secs : ℕ
  pub rate_hz : ℕ
  pub duration_secs : ℕ
  pub max_depth : ℕ
  pub format : Format
  pub output : Option Text
  pub pyroscope_url : Option Text
  pub pyroscope_app : Text
  pub pyroscope_label : List Text
  pub push_interval_secs : ℕ
  pub pyroscope_auth_token : Option Text
  pub pyroscope_tenant_id : Option Text
  pub pyroscope_header : List Text
  pub request_info : Bool
  pub drop_leaf : List Text
  pub php_version : Option Text
  pub executor_globals : Option ℕ

-- The arguments of an empty command line, with none of the environment's variables set.
abbrev pub default_args : Args
default_args = record {
  pid = none;
  pgrep = none;
  cmdline = none;
  this_container = false;
  rediscover_secs = 5;
  rate_hz = 99;
  duration_secs = 0;
  max_depth = 256;
  format = stacks;
  output = none;
  pyroscope_url = none;
  pyroscope_app = codes "php";
  pyroscope_label = [];
  push_interval_secs = 10;
  pyroscope_auth_token = none;
  pyroscope_tenant_id = none;
  pyroscope_header = [];
  request_info = false;
  drop_leaf = [];
  php_version = none;
  executor_globals = none;
}
