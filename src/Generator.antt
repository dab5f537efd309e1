-- ===== src/Generator.antt =====
-- bin/gen_configs.rs: the program that writes the keys and the configurations of a full mesh. The
-- file system and the keys are libraries, interfaces here.
pub mod Files
pub mod Reading
use peer_to_peer_decentraliz.Base.{
  ℕ, suc, Bool, Option, none, some, List, [], ◌∷◌, ◌++◌, ◌==◌, length, if◌then◌else◌, not, Result,
  ok, err, codes, decimal,
}
use peer_to_peer_decentraliz.Packet.{Bytes}

pub record GenNode : Type 0 where
  pub number : ℕ
  pub pub_key : Bytes
  pub ip : Bytes
  pub secret_path : Bytes
  pub tun_name : Bytes

-- What the program uses of `SecretKey` and `PublicKey`.
pub record KeyTexts (S K : Type 0) : Type 0 where
  pub public : S → K
  pub to_string : K → Bytes
  pub to_bytes : S → Bytes

-- What it uses of the file system, in a state `F`. A call that fails ends the program.
pub record Disk (F IoError : Type 0) : Type 0 where
  pub exists : F → Bytes → Bool
  pub create_dir_all : F → Bytes → Result F IoError
  pub write : F → Bytes → Bytes → Result F IoError
  pub create : F → Bytes → Result F IoError
  pub writeln : F → Bytes → Bytes → Result F IoError

-- How the program ends. The last is the panic of `expect`.
pub data Ended (F IoError : Type 0) : Type 0 where
  done : F → Ended F IoError
  io_failed : IoError → Ended F IoError
  exited : ℕ → Ended F IoError
  not_a_number : Ended F IoError

infixl 5 ◌then◌
abbrev pub ◌then◌ {ℓ} : {A B E : Type ℓ} → Result A E → (A → Result B E) → Result B E
ok a then f = f a
err e then f = err e

abbrev pub address_text : ℕ → Bytes
address_text i = codes "10.67.1." ++ decimal i

abbrev pub secret_path_of : ℕ → Bytes
secret_path_of i = codes "tmp/secret" ++ (decimal i ++ codes ".key")

abbrev pub config_path_of : ℕ → Bytes
config_path_of i = codes "tmp/node_" ++ (decimal i ++ codes ".toml")

abbrev pub quoted : Bytes → Bytes → Bytes
quoted name text = name ++ (codes " = \"" ++ (text ++ codes "\""))

-- The entries of the other nodes.
unfoldable pub peer_lines : GenNode → List GenNode → List Bytes
peer_lines node [] = []
peer_lines node (other ∷ rest) =
    let later = peer_lines node rest in
    if node.number == other.number
    then later
    else codes "[[peers]]"
      ∷ quoted (codes "pub_key") other.pub_key
      ∷ quoted (codes "ipv4") other.ip
      ∷ []
      ∷ later

-- The lines of one configuration.
unfoldable pub config_lines : List GenNode → GenNode → List Bytes
unfolding peer_lines
config_lines nodes node =
    codes "# Path to the secret key"
    ∷ quoted (codes "secret_key_path") node.secret_path
    ∷ []
    ∷ codes "# Node IPv4 address"
    ∷ quoted (codes "node_ipv4") node.ip
    ∷ []
    ∷ codes "# Port for incoming connections (0 means random available port)"
    ∷ codes "listen_port = 0"
    ∷ []
    ∷ quoted (codes "tun_name") node.tun_name
    ∷ []
    ∷ codes "log_level = \"debug\""
    ∷ []
    ∷ codes "# =========================================="
    ∷ codes "# Adjacent nodes (Whitelist)"
    ∷ codes "# =========================================="
    ∷ peer_lines node nodes

module _ {S K : Type 0} (keys : KeyTexts S K) where
  -- The node `i` of the key that was generated for it.
  abbrev pub gen_node : ℕ → S → GenNode
  gen_node i secret_key = record {
    number = i;
    pub_key = keys.to_string (keys.public secret_key);
    ip = address_text i;
    secret_path = secret_path_of i;
    tun_name = codes "tun" ++ decimal i;
  }

  -- The nodes from `i` on, of the keys as they are generated.
  unfoldable pub gen_nodes : ℕ → List S → List GenNode
  gen_nodes i [] = []
  gen_nodes i (secret_key ∷ rest) = gen_node i secret_key ∷ gen_nodes (suc i) rest

module _ {F S K IoError : Type 0} (disk : Disk F IoError) (keys : KeyTexts S K) where
  -- The first loop: the key files, one for each key generated.
  unfoldable pub write_keys : ℕ → List S → F → Result F IoError
  write_keys i [] f = ok f
  write_keys i (secret_key ∷ rest) f =
      disk.write f (secret_path_of i) (keys.to_bytes secret_key) then λ g. write_keys (suc i) rest g

  unfoldable pub write_lines : Bytes → List Bytes → F → Result F IoError
  write_lines path [] f = ok f
  write_lines path (line ∷ rest) f = disk.writeln f path line then λ g. write_lines path rest g

  -- The second loop: the configuration of each node.
  unfoldable pub write_configs : List GenNode → List GenNode → F → Result F IoError
  unfolding write_lines config_lines
  write_configs nodes [] f = ok f
  write_configs nodes (node ∷ rest) f = disk.create f (config_path_of node.number) then λ g.
      write_lines (config_path_of node.number) (config_lines nodes node) g then λ h.
      write_configs nodes rest h

  -- `main` behind its arguments; the keys are the results of `SecretKey::generate`.
  unfoldable pub generate_all : List S → F → Result F IoError
  unfolding write_keys write_configs gen_nodes
  generate_all secrets f =
      (if not (disk.exists f (codes "tmp")) then disk.create_dir_all f (codes "tmp") else ok f)
      then λ g. write_keys 1 secrets g then λ h.
          write_configs (gen_nodes keys 1 secrets) (gen_nodes keys 1 secrets) h

  -- `main`. `parse` is `str::parse::<usize>`, and `generate` lists that many generated keys.
  unfoldable pub main : (Bytes → Option ℕ) → (ℕ → List S) → List Bytes → F → Ended F IoError
  unfolding generate_all
  main parse generate (program ∷ count ∷ []) f = elim (parse count) [
    | none ↦ not_a_number
    | some n ↦ elim (generate_all (generate n) f) [ ok g ↦ done g | err e ↦ io_failed e ]
  ]
  main parse generate _ f = exited 1
