-- ===== src/Config/Texts.antt =====
-- config.rs and iroh.rs: what `Display` writes for the errors of the configuration and of the start
-- of the manager, from the texts that the libraries write for theirs.
use peer_to_peer_decentraliz.Base.{◌++◌, codes}
use peer_to_peer_decentraliz.Packet.{Bytes}
use peer_to_peer_decentraliz.Config.{
  SecretKeyError, get_key_error, incorrect_key, ConfigError, open_file_error, format_parsing_error,
  secret_key_error, ipv4_parse_error, public_key_parse_error, ipv4_not_in_subnet,
  incorrect_log_level,
}
use peer_to_peer_decentraliz.Transport.Endpoint.{InitError, bind_addr_error, build_error}

module _ {IoError ParseError : Type 0} (io_text : IoError → Bytes)
    (parse_text : ParseError → Bytes) where
  unfoldable pub secret_key_error_text : SecretKeyError IoError → Bytes
  secret_key_error_text (get_key_error e) = codes "can't get the key: " ++ io_text e
  secret_key_error_text incorrect_key = codes "given key isn't correct"

  unfoldable pub config_error_text : ConfigError IoError ParseError → Bytes
  unfolding secret_key_error_text
  config_error_text (open_file_error e) = codes "Open file error: " ++ io_text e
  config_error_text (format_parsing_error e) = codes "Incorrect config format: " ++ parse_text e
  config_error_text (secret_key_error e) = codes "Secret key error: " ++ secret_key_error_text e
  config_error_text (ipv4_parse_error e) = codes "Ipv4 parse error: " ++ parse_text e
  config_error_text (public_key_parse_error e) = codes "Public key parse error: " ++ parse_text e
  config_error_text ipv4_not_in_subnet = codes "Node Ipv4 not in correct subnet"
  config_error_text incorrect_log_level = codes "Incorrect log level"

-- Both failures are written alike.
unfoldable pub init_error_text :
    {InvalidSocketAddr BindError : Type 0}
    → (InvalidSocketAddr → Bytes)
    → (BindError → Bytes)
    → InitError InvalidSocketAddr BindError
    → Bytes
init_error_text addr_text bind_text (bind_addr_error e) = codes "Iroh init error: " ++ addr_text e
init_error_text addr_text bind_text (build_error e) = codes "Iroh init error: " ++ bind_text e
