-- ===== src/Output/Config.antt =====
-- src/output/mod.rs, `pyroscope_config`: the settings of the continuous export, from the arguments.
use php_fast_profile.Base.{ℕ, max, List, [], ◌∷◌, ◌++◌, Option, none, some, ◌==◌}
use php_fast_profile.Base.Map.{value_or}
use php_fast_profile.Base.Text.{Text, codes, trim, trim_end, split_once, join}
use php_fast_profile.Arguments.{Args}

pub record PyroscopeConfig : Type 0 where
  pub url : Text
  pub name : Text
  pub auth_token : Option Text
  pub tenant_id : Option Text
  pub headers : List (Text × Text)
  pub push_interval : ℕ

labelled : Text → List Text → Text
labelled app [] = app
labelled app (label ∷ labels) =
    app ++ (codes "{" ++ (join (codes ",") (label ∷ labels) ++ codes "}"))

add_header : Option (Text × Text) → List (Text × Text) → List (Text × Text)
add_header none headers = headers
add_header (some (k, v)) headers = (trim k, trim v) ∷ headers

-- A header without a colon is left out.
unfoldable pub parse_headers : List Text → List (Text × Text)
unfolding add_header
parse_headers [] = []
parse_headers (h ∷ hs) = add_header (split_once h (codes ":")) (parse_headers hs)

unfoldable pub pyroscope_config : Args → PyroscopeConfig
unfolding labelled
pyroscope_config args = record {
  url = trim_end (λ c. c == b'/') (value_or [] args.pyroscope_url);
  name = labelled args.pyroscope_app args.pyroscope_label;
  auth_token = args.pyroscope_auth_token;
  tenant_id = args.pyroscope_tenant_id;
  headers = parse_headers args.pyroscope_header;
  push_interval = max args.push_interval_secs 1;
}
