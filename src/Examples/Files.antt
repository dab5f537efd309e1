-- ===== src/Examples/Files.antt =====
-- The configuration of config.rs at concrete files. An address is written as its four octets, a
-- public key as any bytes, and a secret key is the number that its first byte is.
use peer_to_peer_decentraliz.Base.{
  ℕ, ◌≡◌, refl, ap, Option, none, some, List, [], ◌∷◌, ℕ_discrete, Result, ok, err, get, insert,
  get-insert, arith, true,
}
use peer_to_peer_decentraliz.Packet.{Bytes, Ipv4Addr, Ipv4Addr-discrete}
use peer_to_peer_decentraliz.Config.{
  ConfigToml, Config, Library, default_tun_name, netmask, from_file, masked, is_log_level,
}
use peer_to_peer_decentraliz.Config.Reload.{from_file-reload}
use peer_to_peer_decentraliz.Config.Checks.{IsChecked, from_file-IsChecked}

abbrev Files : Type 0
Files = List (Bytes × Bytes)

unfoldable Bytes-discrete : Discrete Bytes
unfolding ℕ_discrete
Bytes-discrete = hlevel ℕ_discrete

abbrev or_missing : Option Bytes → Result Bytes (Unit {0})
or_missing none = err tt
or_missing (some d) = ok d

abbrev octets : Bytes → Result Ipv4Addr (Unit {0})
octets (a ∷ b ∷ c ∷ d ∷ []) = ok (record { a = a; b = b; c = c; d = d })
octets _ = err tt

abbrev zeros : Bytes
zeros =
    0 ∷ 0 ∷ 0 ∷ 0 ∷ 0 ∷ 0 ∷ 0 ∷ 0 ∷ 0 ∷ 0 ∷ 0 ∷ 0 ∷ 0 ∷ 0 ∷ 0 ∷ 0 ∷ 0 ∷ 0 ∷ 0 ∷ 0 ∷ 0 ∷ 0 ∷ 0 ∷ 0
    ∷ 0 ∷ 0 ∷ 0 ∷ 0 ∷ 0 ∷ 0 ∷ 0 ∷ []

abbrev first_byte : Bytes → ℕ
first_byte [] = 0
first_byte (x ∷ xs) = x

-- Two entries for one address; the second is the one that counts.
abbrev toml_file : ConfigToml
toml_file = record {
  secret_key_path = 2 ∷ [];
  node_ipv4 = 10 ∷ 67 ∷ 1 ∷ 5 ∷ [];
  tun_name = none;
  listen_port = none;
  mtu = some 1400;
  log_level = none;
  log_path = none;
  peers =
      record { pub_key = 7 ∷ []; ipv4 = 10 ∷ 67 ∷ 2 ∷ 10 ∷ [] }
      ∷ record { pub_key = 8 ∷ []; ipv4 = 10 ∷ 67 ∷ 2 ∷ 10 ∷ [] }
      ∷ [];
}

abbrev library : Library Files ℕ Bytes (Unit {0}) (Unit {0})
library = record {
  read = λ f p. or_missing (get Bytes-discrete p f);
  write = λ f p d. (insert Bytes-discrete p d f, ok tt);
  is_not_found = λ e. true;
  from_slice = λ bytes. ok toml_file;
  ipv4_from_str = octets;
  public_key_from_str = λ text. ok text;
  to_bytes = λ key. key ∷ zeros;
  from_bytes = first_byte;
  read-write = λ f p d h. rw (get-insert Bytes-discrete p p d f) (ground arith);
  read-write_other = λ f p q d n. rw (get-insert Bytes-discrete q p d f) (ground arith);
  length-to_bytes = λ s. refl;
  from_bytes-to_bytes = λ s. refl;
}

abbrev files : Files
files = (1 ∷ [], []) ∷ []

abbrev loaded : Config ℕ Bytes
loaded = record {
  secret_key = 5;
  node_ipv4 = record { a = 10; b = 67; c = 1; d = 5 };
  netmask = netmask;
  tun_name = default_tun_name;
  listen_port = 0;
  mtu = 1400;
  log_level = b'i' ∷ b'n' ∷ b'f' ∷ b'o' ∷ [];
  log_path = none;
  peers = (record { a = 10; b = 67; c = 2; d = 10 }, 8 ∷ []) ∷ [];
}

first_load :
    from_file library files (1 ∷ []) 5 ≡ ((1 ∷ [], []) ∷ (2 ∷ [], 5 ∷ zeros) ∷ [], ok loaded)
unfolding from_file get insert Bytes-discrete ℕ_discrete Ipv4Addr-discrete masked is_log_level
first_load = refl

paths_differ : Path Bytes (2 ∷ []) (1 ∷ []) → ⊥
paths_differ e = cc

from_file-reload_example :
    let f' = (from_file library files (1 ∷ []) 5).0 in
    from_file library f' (1 ∷ []) 6 ≡ (f', ok loaded)
unfolding get Bytes-discrete ℕ_discrete
from_file-reload_example =
    from_file-reload library files (1 ∷ []) [] toml_file 5 6 loaded refl refl paths_differ
      (ap (λ r. r.1) first_load)

from_file-IsChecked_example : IsChecked library toml_file loaded
unfolding get Bytes-discrete ℕ_discrete
from_file-IsChecked_example =
    from_file-IsChecked library files (1 ∷ []) [] toml_file 5 loaded refl refl
      (ap (λ r. r.1) first_load)
