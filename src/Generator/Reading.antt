-- ===== src/Generator/Reading.antt =====
-- The configurations, as a reader of their lines finds them.
use mathlib.Core.List.{append_assoc}
use mathlib.Core.Path.{ap₂}
use peer_to_peer_decentraliz.Base.{
  ℕ, suc, ◌≡◌, refl, sym, ap, subst, ◌∙◌, Bool, true, false, Bool-cases, inl, inr, Option, none,
  some, List, [], ◌∷◌, ◌++◌, get_elem?, ok, if◌then◌else◌, ◌==◌, codes, decimal, arith,
}
use peer_to_peer_decentraliz.Packet.{Bytes}
use peer_to_peer_decentraliz.Generator.{
  GenNode, KeyTexts, Disk, config_path_of, secret_path_of, peer_lines, config_lines, gen_node,
  gen_nodes, generate_all, quoted,
}
use peer_to_peer_decentraliz.Generator.Files.{Lines, generate_all-written}

-- What stands behind the prefix.
abbrev strip : Bytes → Bytes → Option Bytes
strip [] line = some line
strip (c ∷ prefix) [] = none
strip (c ∷ prefix) (x ∷ line) = let rest = strip prefix line in if c == x then rest else none

abbrev with_first : ℕ → Option Bytes → Option Bytes
with_first x none = none
with_first x (some text) = some (x ∷ text)

-- What stands in front of a quotation mark at the end.
abbrev unquote : Bytes → Option Bytes
unquote [] = none
unquote (x ∷ []) = if x == b'"' then some [] else none
unquote (x ∷ y ∷ line) = with_first x (unquote (y ∷ line))

abbrev unquoted : Option Bytes → Option Bytes
unquoted none = none
unquoted (some line) = unquote line

-- The text of a line that gives it a name: the name, ` = "`, the text and `"`.
abbrev pub text_of : Bytes → Bytes → Option Bytes
text_of name line = unquoted (strip (name ++ codes " = \"") line)

abbrev or_else : Option Bytes → Option Bytes → Option Bytes
or_else none later = later
or_else (some text) later = some text

-- The first text of this name.
abbrev pub setting : Bytes → List Bytes → Option Bytes
setting name [] = none
setting name (line ∷ lines) = or_else (text_of name line) (setting name lines)

abbrev is_empty : Option Bytes → Bool
is_empty (some []) = true
is_empty _ = false

-- The key and the address in two lines.
abbrev entry : List Bytes → Option Bytes × Option Bytes
entry (key ∷ address ∷ lines) = (text_of (codes "pub_key") key, text_of (codes "ipv4") address)
entry _ = (none, none)

-- The entries behind the lines `[[peers]]`.
abbrev pub peers_in : List Bytes → List (Option Bytes × Option Bytes)
peers_in [] = []
peers_in (line ∷ lines) =
    let rest = peers_in lines in
    if is_empty (strip (codes "[[peers]]") line) then entry lines ∷ rest else rest

strip-own : (prefix line : Bytes) → strip prefix (prefix ++ line) ≡ some line
strip-own [] line = refl
strip-own (c ∷ prefix) line = ground (arith, strip-own prefix line)

unquote-own : (text : Bytes) → unquote (text ++ codes "\"") ≡ some text
unquote-own [] = refl
unquote-own (x ∷ []) = refl
unquote-own (x ∷ y ∷ text) = ap (with_first x) (unquote-own (y ∷ text))

text_of-quoted : (name text : Bytes) → text_of name (quoted name text) ≡ some text
text_of-quoted name text =
    ap (λ line. unquoted (strip (name ++ codes " = \"") line))
      (sym (append_assoc name (codes " = \"") (text ++ codes "\"")))
    ∙ ap unquoted (strip-own (name ++ codes " = \"") (text ++ codes "\""))
    ∙ unquote-own text

-- Of the nodes from `i` on, the keys and addresses of all but the node `n`.
abbrev pub others :
    {S K : Type 0} → KeyTexts S K → ℕ → ℕ → List S → List (Option Bytes × Option Bytes)
others keys n i [] = []
others keys n i (s ∷ rest) =
    let later = others keys n (suc i) rest in
    if n == i
    then later
    else (some (keys.to_string (keys.public s)), some (codes "10.67.1." ++ decimal i)) ∷ later

module _ {S K : Type 0} (keys : KeyTexts S K) where
  peers_in-peer_lines :
      (node : GenNode) (i : ℕ) (secrets : List S)
      → peers_in (peer_lines node (gen_nodes keys i secrets)) ≡ others keys node.number i secrets
  unfolding peer_lines gen_nodes
  peers_in-peer_lines node i [] = refl
  peers_in-peer_lines node i (s ∷ rest) = elim (Bool-cases (node.number == i)) [
    | inl l ↦ rw l (peers_in-peer_lines node (suc i) rest)
    | inr l ↦ rw l (
        ap₂ ◌∷◌
          (ap₂ (λ k a. (k, a)) (text_of-quoted (codes "pub_key") (keys.to_string (keys.public s)))
            (text_of-quoted (codes "ipv4") (codes "10.67.1." ++ decimal i)))
          (peers_in-peer_lines node (suc i) rest))
  ]

  -- What the configuration of the node `n` says.
  pub record Says (secrets : List S) (n : ℕ) (file : List Bytes) : Type 0 where
    pub key_path : setting (codes "secret_key_path") file ≡ some (secret_path_of n)
    pub address : setting (codes "node_ipv4") file ≡ some (codes "10.67.1." ++ decimal n)
    pub peers : peers_in file ≡ others keys n 1 secrets

  config_lines-Says :
      (secrets : List S) (n : ℕ) (s : S)
      → Says secrets n (config_lines (gen_nodes keys 1 secrets) (gen_node keys n s))
  unfolding config_lines
  config_lines-Says secrets n s =
      let nodes = gen_nodes keys 1 secrets in
      let node = gen_node keys n s in
      record {
        key_path =
            ap (λ x. or_else x (setting (codes "secret_key_path") (peer_lines node nodes)))
              (text_of-quoted (codes "secret_key_path") (secret_path_of n));
        address =
            ap (λ x. or_else x (setting (codes "node_ipv4") (peer_lines node nodes)))
              (text_of-quoted (codes "node_ipv4") (codes "10.67.1." ++ decimal n));
        peers = peers_in-peer_lines node 1 secrets;
      }

  -- A full mesh. When the generator ends well, a reader of the lines `name = "text"` in the file of the
  -- node `n`, counted from 1, finds the path of its own key, the address 10.67.1.`n`, and behind the
  -- lines `[[peers]]` the public key and the address 10.67.1.`j` of every other node `j`, once each, in
  -- their order, and of no one else.
  pub generate_all-Says :
      {F IoError : Type 0} (disk : Disk F IoError) (io : Lines disk) (secrets : List S) (f g : F)
      (i : ℕ) (s : S)
      → generate_all disk keys secrets f ≡ ok g
      → get_elem? secrets i ≡ some s
      → Says secrets (suc i) (io.lines_of g (config_path_of (suc i)))
  generate_all-Says disk io secrets f g i s e at =
      subst (Says secrets (suc i)) (sym (generate_all-written disk keys io secrets f g i s e at))
        (config_lines-Says secrets (suc i) s)
