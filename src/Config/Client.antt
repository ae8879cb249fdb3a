-- ===== src/Config/Client.antt =====
-- internal/config/config.go: the client and the transport configuration.
pub mod Address
pub mod Normal
use caddy_bifrost.Base.{
  ℕ, Bool, true, false, not, ◌&&◌, ◌||◌, Option, none, some, List, [], ◌∷◌, if◌then◌else◌, is_empty,
  Result, ok, err, ◌>>=◌, ◌>>◌, fail_if, ◌==◌,
}
use caddy_bifrost.Text.{
  Text, text, trim_space, has_prefix, has_suffix, trim_prefix, trim_suffix, contains, count,
}
use caddy_bifrost.HostPort.{split_host_port, join_host_port}
use caddy_bifrost.Config.{
  ClientConfig, TransportConfig, ConfigError, default_connector_port, default_app_name,
  client_required, connect_required, token_required, forward_required, transport_required,
}

-- The port of an address that `SplitHostPort` takes apart.
fill_port : Text → Text × Text → Text
fill_port address (host, port) =
    if is_empty port then join_host_port host default_connector_port else address

-- An address that `SplitHostPort` refuses. The source's last two cases are one.
add_port : Text → Text
add_port address =
    if has_prefix address (text "[") && has_suffix address (text "]")
    then join_host_port (trim_suffix (trim_prefix address (text "[")) (text "]"))
        default_connector_port
    else if count address b':' == 1 && has_suffix address (text ":")
    then join_host_port (trim_suffix address (text ":")) default_connector_port
    else join_host_port address default_connector_port

with_port : Text → Option (Text × Text) → Text
unfolding fill_port add_port
with_port address none = add_port address
with_port address (some parts) = fill_port address parts

-- `normalizeConnectAddress` behind its `TrimSpace`.
complete_address : Text → Text
unfolding with_port
complete_address address =
    if is_empty address || contains address (text "://")
    then address
    else with_port address (split_host_port address)

unfoldable pub normalize_connect_address : Text → Text
unfolding complete_address
normalize_connect_address address = complete_address (trim_space address)

-- `Client.Normalize`.
unfoldable pub normalize_client : ClientConfig → ClientConfig
normalize_client c = record c {
  connect = normalize_connect_address c.connect;
  token = trim_space c.token;
  forward = trim_space c.forward;
  tls_ca_file = trim_space c.tls_ca_file;
  tls_server_name = trim_space c.tls_server_name;
}

-- `Client.Validate` behind its call of `Normalize`.
unfoldable pub check_client : ClientConfig → Result ConfigError (Unit {0})
check_client c = do
  fail_if (is_empty (trim_space c.connect)) connect_required
  fail_if (is_empty (trim_space c.token)) token_required
  fail_if (is_empty (trim_space c.forward)) forward_required

-- `Client.Validate`: it leaves the configuration normalised, whatever it returns.
unfoldable pub validate_client :
    Option ClientConfig → Option ClientConfig × Result ConfigError (Unit {0})
validate_client none = (none, err client_required)
validate_client (some c) = let n = normalize_client c in (some n, check_client n)

-- `Transport.Normalize`.
app_or_default : Text → Text
app_or_default app = if is_empty app then default_app_name else app

unfoldable pub normalize_transport : TransportConfig → TransportConfig
unfolding app_or_default
normalize_transport t = record t { app = app_or_default (trim_space t.app) }

-- `Transport.Validate`.
unfoldable pub validate_transport :
    Option TransportConfig → Option TransportConfig × Result ConfigError (Unit {0})
validate_transport none = (none, err transport_required)
validate_transport (some t) = (some (normalize_transport t), ok tt)
