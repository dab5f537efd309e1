-- ===== src/Config.antt =====
-- config.rs: the configuration of a node and its key file. The file system and the parsers are
-- libraries, an interface here; a text is its bytes.
pub mod Reload
pub mod Checks
pub mod Texts
use Prim.Native.Nat.{bit_and}
use peer_to_peer_decentraliz.Base.{
  ℕ, ◌≡◌, ◌≢◌, true, false, Bool, ◌||◌, not, is_yes, ◌==◌, ℕ_discrete, Option, none, some, List, [],
  ◌∷◌, length, insert, if◌then◌else◌, Result, ok, err,
}
use peer_to_peer_decentraliz.Packet.{Bytes, Ipv4Addr, Ipv4Addr-discrete}

abbrev pub subnet : Ipv4Addr
subnet = record { a = 10; b = 67; c = 0; d = 0 }

abbrev pub netmask : Ipv4Addr
netmask = record { a = 255; b = 255; c = 0; d = 0 }

abbrev pub default_listen_port : ℕ
default_listen_port = 0

abbrev pub default_mtu : ℕ
default_mtu = 1500

-- "iroh_vpn"
abbrev pub default_tun_name : Bytes
default_tun_name = b'i' ∷ b'r' ∷ b'o' ∷ b'h' ∷ b'_' ∷ b'v' ∷ b'p' ∷ b'n' ∷ []

pub record Peer : Type 0 where
  pub pub_key : Bytes
  pub ipv4 : Bytes

pub record ConfigToml : Type 0 where
  pub secret_key_path : Bytes
  pub node_ipv4 : Bytes
  pub tun_name : Option Bytes
  pub listen_port : Option ℕ
  pub mtu : Option ℕ
  pub log_level : Option Bytes
  pub log_path : Option Bytes
  pub peers : List Peer

pub data SecretKeyError (IoError : Type 0) : Type 0 where
  get_key_error : IoError → SecretKeyError IoError
  incorrect_key : SecretKeyError IoError

pub data ConfigError (IoError ParseError : Type 0) : Type 0 where
  open_file_error : IoError → ConfigError IoError ParseError
  format_parsing_error : ParseError → ConfigError IoError ParseError
  secret_key_error : SecretKeyError IoError → ConfigError IoError ParseError
  ipv4_parse_error : ParseError → ConfigError IoError ParseError
  public_key_parse_error : ParseError → ConfigError IoError ParseError
  ipv4_not_in_subnet : ConfigError IoError ParseError
  incorrect_log_level : ConfigError IoError ParseError

pub record Config (S K : Type 0) : Type 0 where
  pub secret_key : S
  pub node_ipv4 : Ipv4Addr
  pub netmask : Ipv4Addr
  pub tun_name : Bytes
  pub listen_port : ℕ
  pub mtu : ℕ
  pub log_level : Bytes
  pub log_path : Option Bytes
  pub peers : List (Ipv4Addr × K)

-- What the code uses of the libraries: files by their paths in a state `F`, the parsers, and keys
-- with their bytes. The laws say that a file that was written reads back, that a write leaves the
-- other files as they are, and that a secret key is its 32 bytes.
pub record Library (F S K IoError ParseError : Type 0) : Type 0 where
  pub read : F → Bytes → Result Bytes IoError
  pub write : F → Bytes → Bytes → F × Result (Unit {0}) IoError
  pub is_not_found : IoError → Bool
  pub from_slice : Bytes → Result ConfigToml ParseError
  pub ipv4_from_str : Bytes → Result Ipv4Addr ParseError
  pub public_key_from_str : Bytes → Result K ParseError
  pub to_bytes : S → Bytes
  pub from_bytes : Bytes → S
  pub read-write : (f : F) (p d : Bytes) → (write f p d).1 ≡ ok tt → read (write f p d).0 p ≡ ok d
  pub read-write_other : (f : F) (p q d : Bytes) → p ≢ q → read (write f p d).0 q ≡ read f q
  pub length-to_bytes : (s : S) → length (to_bytes s) ≡ 32
  pub from_bytes-to_bytes : (s : S) → from_bytes (to_bytes s) ≡ s

-- `address & NETMASK`
unfoldable pub masked : Ipv4Addr → Ipv4Addr
masked ip = record {
  a = bit_and ip.a netmask.a;
  b = bit_and ip.b netmask.b;
  c = bit_and ip.c netmask.c;
  d = bit_and ip.d netmask.d;
}

unfoldable pub same_text : Bytes → Bytes → Bool
same_text [] [] = true
same_text (x ∷ xs) (y ∷ ys) = let rest = same_text xs ys in if x == y then rest else false
same_text _ _ = false

-- "trace", "debug", "info", "warn", "error" or "off"
unfoldable pub is_log_level : Bytes → Bool
unfolding same_text
is_log_level lvl =
    same_text lvl (b't' ∷ b'r' ∷ b'a' ∷ b'c' ∷ b'e' ∷ [])
    || same_text lvl (b'd' ∷ b'e' ∷ b'b' ∷ b'u' ∷ b'g' ∷ [])
    || same_text lvl (b'i' ∷ b'n' ∷ b'f' ∷ b'o' ∷ [])
    || same_text lvl (b'w' ∷ b'a' ∷ b'r' ∷ b'n' ∷ [])
    || same_text lvl (b'e' ∷ b'r' ∷ b'r' ∷ b'o' ∷ b'r' ∷ [])
    || same_text lvl (b'o' ∷ b'f' ∷ b'f' ∷ [])

abbrev pub unwrap_or : {A : Type 0} → Option A → A → A
unwrap_or (some a) b = a
unwrap_or none b = b

-- The level of the file, or "info".
abbrev pub level_of : ConfigToml → Bytes
level_of toml = unwrap_or toml.log_level (b'i' ∷ b'n' ∷ b'f' ∷ b'o' ∷ [])

module _ {F S K IoError ParseError : Type 0} (lib : Library F S K IoError ParseError) where
  -- The loop of `get_peers`, with the map so far.
  unfoldable pub get_peers :
      List Peer
      → List (Ipv4Addr × K)
      → Result (List (Ipv4Addr × K)) (ConfigError IoError ParseError)
  get_peers [] peers = ok peers
  get_peers (peer ∷ rest) peers = elim (lib.ipv4_from_str peer.ipv4) [
    | err e ↦ err (ipv4_parse_error e)
    | ok ip ↦ elim (lib.public_key_from_str peer.pub_key) [
      | err e ↦ err (public_key_parse_error e)
      | ok key ↦ get_peers rest (insert Ipv4Addr-discrete ip key peers)
    ]
  ]

  -- `gen_secret_key`; `fresh` is what `SecretKey::generate` returns.
  unfoldable pub gen_secret_key : F → Bytes → S → F × Result S IoError
  gen_secret_key f path fresh =
      let (f', result) = lib.write f path (lib.to_bytes fresh) in
      (f', elim result [ ok _ ↦ ok fresh | err e ↦ err e ])

  -- `get_secret_key`, by the result of reading the key's file
  unfoldable pub read_secret_key :
      F → Bytes → S → Result Bytes IoError → F × Result S (SecretKeyError IoError)
  unfolding gen_secret_key
  read_secret_key f path fresh (ok bytes) =
      (f, if length bytes == 32 then ok (lib.from_bytes bytes) else err incorrect_key)
  read_secret_key f path fresh (err e) =
      if lib.is_not_found e
      then (let (f', made) = gen_secret_key f path fresh in
          (f', elim made [ ok key ↦ ok key | err e ↦ err (get_key_error e) ]))
      else (f, err (get_key_error e))

  unfoldable pub get_secret_key : F → Bytes → S → F × Result S (SecretKeyError IoError)
  unfolding read_secret_key
  get_secret_key f path fresh = read_secret_key f path fresh (lib.read f path)

  -- `from_file` behind the peers: the address, the log level and the defaults.
  unfoldable pub settings :
      ConfigToml → S → List (Ipv4Addr × K) → Result (Config S K) (ConfigError IoError ParseError)
  unfolding masked is_log_level
  settings toml key peers = elim (lib.ipv4_from_str toml.node_ipv4) [
    | err e ↦ err (ipv4_parse_error e)
    | ok ip ↦
        if not (is_yes (Ipv4Addr-discrete (masked ip) subnet))
        then err ipv4_not_in_subnet
        else (let lvl = level_of toml in
            if not (is_log_level lvl)
            then err incorrect_log_level
            else ok (record {
              secret_key = key;
              node_ipv4 = ip;
              netmask = netmask;
              tun_name = unwrap_or toml.tun_name default_tun_name;
              listen_port = unwrap_or toml.listen_port default_listen_port;
              mtu = unwrap_or toml.mtu default_mtu;
              log_level = lvl;
              log_path = toml.log_path;
              peers = peers;
            }))
  ]

  -- `from_file` behind the secret key, which is read or made before anything else is looked at.
  unfoldable pub with_key :
      ConfigToml
      → F × Result S (SecretKeyError IoError)
      → F × Result (Config S K) (ConfigError IoError ParseError)
  unfolding get_peers settings
  with_key toml (f, err e) = (f, err (secret_key_error e))
  with_key toml (f, ok key) =
      (f, elim (get_peers toml.peers []) [ err e ↦ err e | ok peers ↦ settings toml key peers ])

  -- `Config::from_file`
  unfoldable pub from_file :
      F → Bytes → S → F × Result (Config S K) (ConfigError IoError ParseError)
  unfolding get_secret_key with_key
  from_file f path fresh = elim (lib.read f path) [
    | err e ↦ (f, err (open_file_error e))
    | ok bytes ↦ elim (lib.from_slice bytes) [
      | err e ↦ (f, err (format_parsing_error e))
      | ok toml ↦ with_key toml (get_secret_key f toml.secret_key_path fresh)
    ]
  ]
