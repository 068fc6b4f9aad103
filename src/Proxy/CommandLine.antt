-- ===== src/Proxy/CommandLine.antt =====
-- plugins/input_http/mjpg-proxy.c, `parse_cmd_line`.
use robotica_movel.Prelude.{List, [], ◌∷◌, Option, none, some, Bytes}

-- What `getopt_long_only` reports before it returns -1.
pub data ProxyOption : Type 0 where
  help : ProxyOption
  version : ProxyOption
  host : Bytes → ProxyOption
  port : Bytes → ProxyOption
  unrecognized : ProxyOption

-- The fields `hostname` and `port`.
pub record Target : Type 0 where
  pub hostname : Bytes
  pub port : Bytes

-- None is the return value 1.
unfoldable pub parse_cmd_line : List ProxyOption → Target → Option Target
parse_cmd_line [] t = some t
parse_cmd_line (help ∷ os) t = none
parse_cmd_line (version ∷ os) t = none
parse_cmd_line (unrecognized ∷ os) t = none
parse_cmd_line (host name ∷ os) t = parse_cmd_line os (record t { hostname = name })
parse_cmd_line (port number ∷ os) t = parse_cmd_line os (record t { port = number })
