-- ===== src/Generator/Files.antt =====
-- The files that the generator leaves, against the lines that it makes for each node.
use mathlib.Core.List.{append-nil, append_assoc, append_cancel_left, append_cancel_right}
use peer_to_peer_decentraliz.Base.{
  ℕ, zero, suc, ◌+◌, ◌<◌, ◌≡◌, ◌≢◌, refl, sym, ap, subst, ◌∙◌, inl, inr, some, List, [], ◌∷◌, ◌++◌,
  get_elem?, Result, ok, err, Result-cases, arith, codes, decimal, decimal-injective, not,
  if◌then◌else◌,
}
use peer_to_peer_decentraliz.Packet.{Bytes}
use peer_to_peer_decentraliz.Generator.{
  GenNode, KeyTexts, Disk, ◌then◌, config_path_of, config_lines, gen_node, gen_nodes, write_keys,
  write_lines, write_configs, generate_all,
}

then-ok :
    {A B E : Type 0} (r : Result A E) (f : A → Result B E) (b : B)
    → (r then f) ≡ ok b
    → (a : A) × (r ≡ ok a) × (f a ≡ ok b)
then-ok (ok a) f b e = (a, refl, e)
then-ok (err x) f b e = cc

config_path_of-injective : (m n : ℕ) → config_path_of m ≡ config_path_of n → m ≡ n
config_path_of-injective m n e = decimal-injective m n (
    append_cancel_right (decimal m) (decimal n) (codes ".toml")
      (append_cancel_left (codes "tmp/node_") _ _ e))

module _ {F IoError : Type 0} (disk : Disk F IoError) where
  -- What is documented of files that are written by lines: a new file has none, a line that is
  -- written joins the end of its file, and other files stay as they are.
  pub record Lines : Type 0 where
    pub lines_of : F → Bytes → List Bytes
    pub lines_of-create : (f g : F) (p : Bytes) → disk.create f p ≡ ok g → lines_of g p ≡ []
    pub lines_of-create_other :
        (f g : F) (p q : Bytes) → disk.create f p ≡ ok g → p ≢ q → lines_of g q ≡ lines_of f q
    pub lines_of-writeln :
        (f g : F) (p line : Bytes)
        → disk.writeln f p line ≡ ok g
        → lines_of g p ≡ lines_of f p ++ (line ∷ [])
    pub lines_of-writeln_other :
        (f g : F) (p q line : Bytes)
        → disk.writeln f p line ≡ ok g
        → p ≢ q
        → lines_of g q ≡ lines_of f q

module _ {F S K IoError : Type 0} (disk : Disk F IoError) (keys : KeyTexts S K)
    (io : Lines disk) where
  -- The file gains the lines, and no other file changes.
  abbrev Appends : F → F → Bytes → List Bytes → Type 0
  Appends f g p ls =
      (io.lines_of g p ≡ io.lines_of f p ++ ls)
      × ((q : Bytes) → p ≢ q → io.lines_of g q ≡ io.lines_of f q)

  write_lines-Appends :
      (p : Bytes) (ls : List Bytes) (f g : F)
      → write_lines disk keys p ls f ≡ ok g
      → Appends f g p ls
  unfolding write_lines
  write_lines-Appends p [] f g = λ e.
      let same : f ≡ g = cc in
      (
        ap (λ h. io.lines_of h p) (sym same) ∙ sym (append-nil (io.lines_of f p)),
        λ q n. ap (λ h. io.lines_of h q) (sym same),
      )
  write_lines-Appends p (l ∷ ls) f g = elim (Result-cases (disk.writeln f p l)) [
    | inr (x, w) ↦ rw (w, write_lines) λ e. cc
    | inl (h, w) ↦
        rw (w, write_lines)
          λ e.
            let (own, others) = write_lines-Appends p ls h g e in
            (
              own
                  ∙ ap (λ x. x ++ ls) (io.lines_of-writeln f h p l w)
                  ∙ append_assoc (io.lines_of f p) (l ∷ []) ls,
              λ q n. others q n ∙ io.lines_of-writeln_other f h p q l w n,
            )
  ]

  -- One round of the second loop: the file is new, and has the node's lines.
  config_written :
      (nodes : List GenNode) (node : GenNode) (f h g : F)
      → disk.create f (config_path_of node.number) ≡ ok h
      → write_lines disk keys (config_path_of node.number) (config_lines nodes node) h ≡ ok g
      → (io.lines_of g (config_path_of node.number) ≡ config_lines nodes node)
        × ((q : Bytes) → config_path_of node.number ≢ q → io.lines_of g q ≡ io.lines_of f q)
  config_written nodes node f h g made lines =
      let p = config_path_of node.number in
      let (own, others) = write_lines-Appends p (config_lines nodes node) h g lines in
      (
        own ∙ ap (λ x. x ++ config_lines nodes node) (io.lines_of-create f h p made),
        λ q n. others q n ∙ io.lines_of-create_other f h p q made n,
      )

  -- The first of the nodes left is the one just written, the others are those behind it.
  first_or_later :
      (nodes : List GenNode) (t : S) (l : List S) (m : ℕ) (g : F)
      → io.lines_of g (config_path_of m) ≡ config_lines nodes (gen_node keys m t)
      → ((k x : ℕ) (s : S)
          → suc m + k ≡ x
          → get_elem? l k ≡ some s
          → io.lines_of g (config_path_of x) ≡ config_lines nodes (gen_node keys x s))
      → (k x : ℕ) (s : S) → m + k ≡ x
      → get_elem? (t ∷ l) k ≡ some s
      → io.lines_of g (config_path_of x) ≡ config_lines nodes (gen_node keys x s)
  first_or_later nodes t l m g first later zero x s at e =
      let here : m ≡ x = omega arith in
      let same : t ≡ s = cc in
      subst (λ y. io.lines_of g (config_path_of y) ≡ config_lines nodes (gen_node keys y s)) here
        (first ∙ ap (λ z. config_lines nodes (gen_node keys m z)) same)
  first_or_later nodes t l m g first later (suc k) x s at e = later k x s (omega arith) e

  -- The loop from the node `m` on leaves the earlier configurations, and makes the later ones.
  write_configs-written :
      (nodes : List GenNode) (l : List S) (m : ℕ) (f g : F)
      → write_configs disk keys nodes (gen_nodes keys m l) f ≡ ok g
      → ((x : ℕ) → x < m → io.lines_of g (config_path_of x) ≡ io.lines_of f (config_path_of x))
        × ((k x : ℕ) (s : S)
            → m + k ≡ x
            → get_elem? l k ≡ some s
            → io.lines_of g (config_path_of x) ≡ config_lines nodes (gen_node keys x s))
  unfolding write_configs gen_nodes
  write_configs-written nodes [] m f g = λ e.
      let same : f ≡ g = cc in
      (λ x lt. ap (λ h. io.lines_of h (config_path_of x)) (sym same), λ k x s at h. cc)
  write_configs-written nodes (t ∷ l) m f g =
      elim (Result-cases (disk.create f (config_path_of m))) [
        | inr (x, w) ↦ rw (w, write_configs) λ e. cc
        | inl (h, w) ↦
            elim (Result-cases (
              write_lines disk keys (config_path_of m) (config_lines nodes (gen_node keys m t))
                h)) [
                  | inr (x, v) ↦ rw (w, v, write_configs) λ e. cc
                  | inl (h', v) ↦
                      rw (w, v, write_configs)
                        λ e.
                          let now = config_written nodes (gen_node keys m t) f h h' w v in
                          let (early, late) = write_configs-written nodes l (suc m) h' g e in
                          (
                            λ x lt.
                                early x (omega arith)
                                ∙ now.1 (config_path_of x) (λ q.
                                  let same = config_path_of-injective m x q in
                                  absurd (omega arith)),
                            first_or_later nodes t l m g (early m (omega arith) ∙ now.0) late,
                          )
                ]
      ]

  -- When the generator ends well, the file of every node holds exactly the lines that were made for
  -- it, from all the nodes, whatever was there before; that no later node's file takes the place of
  -- an earlier one's is part of it.
  pub generate_all-written :
      (secrets : List S) (f g : F) (i : ℕ) (s : S)
      → generate_all disk keys secrets f ≡ ok g
      → get_elem? secrets i ≡ some s
      → io.lines_of g (config_path_of (suc i))
        ≡ config_lines (gen_nodes keys 1 secrets) (gen_node keys (suc i) s)
  unfolding generate_all
  generate_all-written secrets f g i s e at =
      let nodes = gen_nodes keys 1 secrets in
      let (f', _, behind) =
        then-ok
          (if not (disk.exists f (codes "tmp")) then disk.create_dir_all f (codes "tmp") else ok f)
          (λ x. write_keys disk keys 1 secrets x then λ h. write_configs disk keys nodes nodes h) g
          e in
      let (f'', _, configs) =
        then-ok (write_keys disk keys 1 secrets f') (λ h. write_configs disk keys nodes nodes h) g
          behind in
      (write_configs-written nodes secrets 1 f'' g configs).1 i (suc i) s (omega arith) at
