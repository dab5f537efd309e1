-- ===== src/Config/Reload.antt =====
-- Two loads of one configuration: the key that the first makes is the one that the second reads.
use peer_to_peer_decentraliz.Base.{
  ◌≡◌, ◌≢◌, refl, ap, ◌∙◌, ◌==◌, inl, inr, Bool-cases, arith, length, Result, ok, err, Result-cases,
}
use peer_to_peer_decentraliz.Packet.{Bytes}
use peer_to_peer_decentraliz.Config.{
  ConfigToml, SecretKeyError, Config, Library, gen_secret_key, read_secret_key, get_secret_key,
  with_key, from_file,
}

module _ {F S K IoError ParseError : Type 0} (lib : Library F S K IoError ParseError) where
  -- The file at `path` holds the secret key `key`, in its 32 bytes.
  abbrev Stores : F → Bytes → S → Type 0
  Stores f path key =
      (d : Bytes) × (lib.read f path ≡ ok d) × (length d ≡ 32) × (lib.from_bytes d ≡ key)

  read_stored :
      (f : F) (path : Bytes) (key fresh : S)
      → Stores f path key
      → get_secret_key lib f path fresh ≡ (f, ok key)
  unfolding get_secret_key read_secret_key
  read_stored f path key fresh (d, e, n, k) = rw e (rw n (rw k refl))

  -- A write only touches the file that it is for.
  abbrev Leaves : F → F → Bytes → Type 0
  Leaves f f' path = (q : Bytes) → path ≢ q → lib.read f' q ≡ lib.read f q

  get_secret_key-Leaves :
      (f : F) (path : Bytes) (fresh : S) → Leaves f (get_secret_key lib f path fresh).0 path
  unfolding get_secret_key read_secret_key gen_secret_key
  get_secret_key-Leaves f path fresh q n = elim (Result-cases (lib.read f path)) [
    | inl (d, e) ↦ rw e refl
    | inr (x, e) ↦ elim (Bool-cases (lib.is_not_found x)) [
      | inl l ↦ rw e (rw l (lib.read-write_other f path q (lib.to_bytes fresh) n))
      | inr l ↦ rw e (rw l refl)
    ]
  ]

  get_secret_key-Stores :
      (f : F) (path : Bytes) (fresh key : S)
      → (get_secret_key lib f path fresh).1 ≡ ok key
      → Stores (get_secret_key lib f path fresh).0 path key
  unfolding get_secret_key read_secret_key gen_secret_key
  get_secret_key-Stores f path fresh key = elim (Result-cases (lib.read f path)) [
    | inl (d, e) ↦ rw e (elim (Bool-cases (length d == 32)) [
      | inl l ↦ rw l λ h. (d, e, ground arith, cc)
      | inr l ↦ rw l λ h. cc
    ])
    | inr (x, e) ↦ rw e (elim (Bool-cases (lib.is_not_found x)) [
      | inl l ↦ rw l (elim (Result-cases (lib.write f path (lib.to_bytes fresh)).1) [
        | inl (_, w) ↦ rw w λ h. (
          lib.to_bytes fresh,
          lib.read-write f path (lib.to_bytes fresh) w,
          lib.length-to_bytes fresh,
          lib.from_bytes-to_bytes fresh ∙ cc,
        )
        | inr (_, w) ↦ rw w λ h. cc
      ])
      | inr l ↦ rw l λ h. cc
    ])
  ]

  pub from_file-opened :
      (f : F) (path bytes : Bytes) (toml : ConfigToml) (fresh : S)
      → lib.read f path ≡ ok bytes
      → lib.from_slice bytes ≡ ok toml
      → from_file lib f path fresh
        ≡ with_key lib toml (get_secret_key lib f toml.secret_key_path fresh)
  unfolding from_file
  from_file-opened f path bytes toml fresh r s = rw (from_file, r, s) refl

  -- Behind the key, what a load returns does not depend on the state of the files.
  with_key-again :
      (toml : ConfigToml) (made : F × Result S (SecretKeyError IoError)) (c : Config S K)
      → (with_key lib toml made).1 ≡ ok c
      → ((with_key lib toml made).0 ≡ made.0)
        × ((key : S) × (made.1 ≡ ok key) × (with_key lib toml (made.0, ok key) ≡ (made.0, ok c)))
  unfolding with_key
  with_key-again toml (f, ok key) c h = (refl, (key, refl, ap (λ r. (f, r)) h))
  with_key-again toml (f, err e) c h = cc

  -- A node keeps its identity: if a configuration loads, then it loads again from the files that the
  -- first load leaves, to the same settings with the same secret key, with no file changed; also
  -- where the first load made the key, and whatever key the second would make. The key's file must
  -- not be the configuration's own.
  pub from_file-reload :
      (f : F) (path bytes : Bytes) (toml : ConfigToml) (fresh later : S) (c : Config S K)
      → lib.read f path ≡ ok bytes
      → lib.from_slice bytes ≡ ok toml
      → toml.secret_key_path ≢ path
      → (from_file lib f path fresh).1 ≡ ok c
      → let f' = (from_file lib f path fresh).0 in from_file lib f' path later ≡ (f', ok c)
  from_file-reload f path bytes toml fresh later c r s n =
      let made = get_secret_key lib f toml.secret_key_path fresh in
      let still = get_secret_key-Leaves f toml.secret_key_path fresh path n ∙ r in
      rw (from_file-opened f path bytes toml fresh r s) λ h.
        let (same, (key, found, again)) = with_key-again toml made c h in
        let stored = get_secret_key-Stores f toml.secret_key_path fresh key found in
        rw same (
          from_file-opened made.0 path bytes toml later still s
          ∙ rw (read_stored made.0 toml.secret_key_path key later stored) again)
