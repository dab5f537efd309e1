-- ===== src/Config/Checks.antt =====
-- What a configuration that loads has been checked for, and which key a peer's address has.
use peer_to_peer_decentraliz.Base.{
  All, ◌≡◌, refl, sym, ap, subst, ◌∙◌, true, is_yes, inl, inr, Bool-cases, arith, Option, none,
  some, List, [], ◌∷◌, Result, ok, err, Result-cases, get, insert, get-insert, ite,
}
use peer_to_peer_decentraliz.Packet.{Bytes, Ipv4Addr, Ipv4Addr-discrete}
use peer_to_peer_decentraliz.Config.{
  Peer, ConfigToml, SecretKeyError, Config, Library, subnet, netmask, masked, is_log_level,
  level_of, get_secret_key, get_peers, settings, with_key, from_file,
}
use peer_to_peer_decentraliz.Config.Reload.{from_file-opened}

abbrev pub or_else : {A : Type 0} → Option A → Option A → Option A
or_else (some a) b = some a
or_else none b = b

or_else_assoc : {A : Type 0} (a b c : Option A) → or_else (or_else a b) c ≡ or_else a (or_else b c)
or_else_assoc (some a) b c = refl
or_else_assoc none b c = refl

module _ {F S K IoError ParseError : Type 0} (lib : Library F S K IoError ParseError) where
  -- The key that one entry gives the address.
  abbrev pub entry_key : Peer → Ipv4Addr → Option K
  entry_key peer ip = elim (lib.ipv4_from_str peer.ipv4) [
    | err _ ↦ none
    | ok own ↦ elim (lib.public_key_from_str peer.pub_key) [
      | err _ ↦ none
      | ok key ↦ ite (Ipv4Addr-discrete own ip) (some key) none
    ]
  ]

  -- The last entry that gives the address a key.
  abbrev pub last_key : List Peer → Ipv4Addr → Option K
  last_key [] ip = none
  last_key (peer ∷ rest) ip = or_else (last_key rest ip) (entry_key peer ip)

  get_peers-last :
      (ps : List Peer) (m peers : List (Ipv4Addr × K)) (ip : Ipv4Addr)
      → get_peers lib ps m ≡ ok peers
      → get Ipv4Addr-discrete ip peers ≡ or_else (last_key ps ip) (get Ipv4Addr-discrete ip m)
  unfolding get_peers
  get_peers-last [] m peers ip = λ h. cc
  get_peers-last (p ∷ ps) m peers ip = elim (Result-cases (lib.ipv4_from_str p.ipv4)) [
    | inr (x, e) ↦ rw (e, get_peers) λ h. cc
    | inl (own, e) ↦ elim (Result-cases (lib.public_key_from_str p.pub_key)) [
      | inr (x, e') ↦ rw (e, e', get_peers) λ h. cc
      | inl (key, e') ↦
          rw (e, e', get_peers, entry_key)
            λ h.
              get_peers-last ps (insert Ipv4Addr-discrete own key m) peers ip h
              ∙ ap (or_else (last_key ps ip))
                  (get-insert Ipv4Addr-discrete ip own key m ∙ put own key)
              ∙ sym (or_else_assoc (last_key ps ip) _ (get Ipv4Addr-discrete ip m))
    ]
  ]
    where
      put :
          (own : Ipv4Addr) (key : K)
          → ite (Ipv4Addr-discrete own ip) (some key) (get Ipv4Addr-discrete ip m)
            ≡ or_else (ite (Ipv4Addr-discrete own ip) (some key) none) (get Ipv4Addr-discrete ip m)
      put own key = ground arith

  -- Both texts of an entry are what they should be.
  abbrev pub IsEntry : Peer → Type 0
  IsEntry peer =
      ((ip : Ipv4Addr) × (lib.ipv4_from_str peer.ipv4 ≡ ok ip))
      × ((key : K) × (lib.public_key_from_str peer.pub_key ≡ ok key))

  get_peers-IsEntry :
      (ps : List Peer) (m peers : List (Ipv4Addr × K))
      → get_peers lib ps m ≡ ok peers
      → All IsEntry ps
  unfolding get_peers
  get_peers-IsEntry [] m peers = λ h. tt
  get_peers-IsEntry (p ∷ ps) m peers = elim (Result-cases (lib.ipv4_from_str p.ipv4)) [
    | inr (x, e) ↦ rw (e, get_peers) λ h. cc
    | inl (own, e) ↦ elim (Result-cases (lib.public_key_from_str p.pub_key)) [
      | inr (x, e') ↦ rw (e, e', get_peers) λ h. cc
      | inl (key, e') ↦
          let rest = get_peers-IsEntry ps (insert Ipv4Addr-discrete own key m) peers in
          λ h. (((own, e), (key, e')), rest (subst (λ r. r ≡ ok peers) (opened own key e e') h))
    ]
  ]
    where
      opened :
          (own : Ipv4Addr) (key : K)
          → lib.ipv4_from_str p.ipv4 ≡ ok own
          → lib.public_key_from_str p.pub_key ≡ ok key
          → get_peers lib (p ∷ ps) m ≡ get_peers lib ps (insert Ipv4Addr-discrete own key m)
      opened own key e e' = rw (e, e', get_peers) refl

  -- What holds of the settings of a loaded configuration.
  abbrev pub IsChecked : ConfigToml → Config S K → Type 0
  IsChecked toml c =
      (masked c.node_ipv4 ≡ subnet)
      × (lib.ipv4_from_str toml.node_ipv4 ≡ ok c.node_ipv4)
      × (is_log_level c.log_level ≡ true)
      × ((ip : Ipv4Addr) → get Ipv4Addr-discrete ip c.peers ≡ last_key toml.peers ip)
      × All IsEntry toml.peers
      × (c.netmask ≡ netmask)

  of_yes : {P : Type 0} (d : Dec P) → is_yes d ≡ true → P
  of_yes (yes p) h = p
  of_yes (no n) h = cc

  -- The settings that came out, by the tests that they passed.
  abbrev Passed : ConfigToml → List (Ipv4Addr × K) → Config S K → Type 0
  Passed toml peers c =
      (ip : Ipv4Addr) × (lib.ipv4_from_str toml.node_ipv4 ≡ ok ip)
      × (masked ip ≡ subnet)
      × (is_log_level (level_of toml) ≡ true)
      × (ip ≡ c.node_ipv4)
      × (level_of toml ≡ c.log_level)
      × (peers ≡ c.peers)
      × (netmask ≡ c.netmask)

  ok-injective : {A E : Type 0} (a b : A) → Path (Result A E) (ok a) (ok b) → a ≡ b
  ok-injective a b h = cc

  settings-Passed :
      (toml : ConfigToml) (key : S) (peers : List (Ipv4Addr × K)) (c : Config S K)
      → settings lib toml key peers ≡ ok c
      → Passed toml peers c
  unfolding settings
  settings-Passed toml key peers c = elim (Result-cases (lib.ipv4_from_str toml.node_ipv4)) [
    | inr (x, e) ↦ rw (e, settings) λ h. cc
    | inl (ip, e) ↦
        rw (e, settings)
          (elim (Bool-cases (is_yes (Ipv4Addr-discrete (masked ip) subnet))) [
            | inr l ↦ rw l λ h. cc
            | inl l ↦ rw l (elim (Bool-cases (is_log_level (level_of toml))) [
              | inr k ↦ rw k λ h. cc
              | inl k ↦ rw k λ h.
                  let same = ok-injective _ c h in
                  (
                    ip,
                    refl,
                    of_yes (Ipv4Addr-discrete (masked ip) subnet) l,
                    refl,
                    ap (λ x. x.node_ipv4) same,
                    ap (λ x. x.log_level) same,
                    ap (λ x. x.peers) same,
                    ap (λ x. x.netmask) same,
                  )
            ])
          ])
  ]

  settings-IsChecked :
      (toml : ConfigToml) (key : S) (peers : List (Ipv4Addr × K)) (c : Config S K)
      → ((ip : Ipv4Addr) → get Ipv4Addr-discrete ip peers ≡ last_key toml.peers ip)
      → All IsEntry toml.peers
      → settings lib toml key peers ≡ ok c
      → IsChecked toml c
  settings-IsChecked toml key peers c p entries h =
      let (ip, found, masks, known, same_ip, same_level, same_peers, same_mask) =
        settings-Passed toml key peers c h in
      (
        subst (λ i. masked i ≡ subnet) same_ip masks,
        found ∙ ap ok same_ip,
        subst (λ l. is_log_level l ≡ true) same_level known,
        λ i. ap (get Ipv4Addr-discrete i) (sym same_peers) ∙ p i,
        entries,
        sym same_mask,
      )

  or_else-none : (o : Option K) → or_else o none ≡ o
  or_else-none (some k) = refl
  or_else-none none = refl

  with_key-IsChecked :
      (toml : ConfigToml) (c : Config S K) (made : F × Result S (SecretKeyError IoError))
      → (with_key lib toml made).1 ≡ ok c
      → IsChecked toml c
  unfolding with_key get
  with_key-IsChecked toml c (f', err e) = λ h. cc
  with_key-IsChecked toml c (f', ok key) = elim (Result-cases (get_peers lib toml.peers [])) [
    | inl (peers, e) ↦
        rw (e, with_key)
          λ h.
            settings-IsChecked toml key peers c
              (λ ip.
                get_peers-last toml.peers [] peers ip e ∙ or_else-none (last_key toml.peers ip))
              (get_peers-IsEntry toml.peers [] peers e) h
    | inr (x, e) ↦ rw (e, with_key) λ h. cc
  ]

  -- A configuration that loads has a node address in the subnet, the one of the file, and a known
  -- log level, and an address has the key of the last entry that names it, and no key where no
  -- entry does; the address and the key of every entry are well formed, and the netmask is the
  -- fixed one.
  pub from_file-IsChecked :
      (f : F) (path bytes : Bytes) (toml : ConfigToml) (fresh : S) (c : Config S K)
      → lib.read f path ≡ ok bytes
      → lib.from_slice bytes ≡ ok toml
      → (from_file lib f path fresh).1 ≡ ok c
      → IsChecked toml c
  from_file-IsChecked f path bytes toml fresh c r s =
      rw (from_file-opened lib f path bytes toml fresh r s)
        (with_key-IsChecked toml c (get_secret_key lib f toml.secret_key_path fresh))
