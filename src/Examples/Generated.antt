-- ===== src/Examples/Generated.antt =====
-- The generator (bin/gen_configs.rs) at a concrete input. A secret key is a number, and its public key that number as a text of one byte.
use peer_to_peer_decentraliz.Base.{
  ℕ, ◌≡◌, ◌≢◌, refl, ap, sym, ◌∙◌, false, none, some, List, [], ◌∷◌, ◌++◌, ℕ_discrete, Result, ok,
  err, get, insert, get-insert, arith, decimal,
}
use peer_to_peer_decentraliz.Packet.{Bytes}
use peer_to_peer_decentraliz.Generator.{
  KeyTexts, Disk, config_path_of, gen_node, gen_nodes, config_lines, generate_all, peer_lines,
}
use peer_to_peer_decentraliz.Generator.Reading.{Says, generate_all-Says}
use peer_to_peer_decentraliz.Generator.Files.{Lines, generate_all-written}

abbrev texts : KeyTexts ℕ Bytes
texts = record { public = λ s. s ∷ []; to_string = λ k. k; to_bytes = λ s. s ∷ [] }

abbrev secrets : List ℕ
secrets = 71 ∷ 72 ∷ []

unfoldable Bytes-discrete : Discrete Bytes
unfolding ℕ_discrete
Bytes-discrete = hlevel ℕ_discrete

-- A file system of files by lines, where no call fails.
abbrev lines_at : List (Bytes × List Bytes) → Bytes → List Bytes
lines_at f p = elim (get Bytes-discrete p f) [ none ↦ [] | some ls ↦ ls ]

abbrev disk : Disk (List (Bytes × List Bytes)) (Unit {0})
disk = record {
  exists = λ f p. false;
  create_dir_all = λ f p. ok f;
  write = λ f p d. ok (insert Bytes-discrete p (d ∷ []) f);
  create = λ f p. ok (insert Bytes-discrete p [] f);
  writeln = λ f p l. ok (insert Bytes-discrete p (lines_at f p ++ (l ∷ [])) f);
}

abbrev Written : Type 0
Written = List (Bytes × List Bytes)

ok-injective : (f g : Written) → Path (Result Written (Unit {0})) (ok f) (ok g) → f ≡ g
ok-injective f g e = cc

lines_at-own :
    (f : Written) (p : Bytes) (v : List Bytes) → lines_at (insert Bytes-discrete p v f) p ≡ v
lines_at-own f p v = rw (lines_at, get-insert Bytes-discrete p p v f) (ground arith)

lines_at-other :
    (f : Written) (p q : Bytes) (v : List Bytes)
    → p ≢ q
    → lines_at (insert Bytes-discrete p v f) q ≡ lines_at f q
lines_at-other f p q v n = rw (lines_at, get-insert Bytes-discrete q p v f) (ground arith)

abbrev disk_lines : Lines disk
disk_lines = record {
  lines_of = lines_at;
  lines_of-create =
      λ f g p e. ap (λ h. lines_at h p) (sym (ok-injective _ g e)) ∙ lines_at-own f p [];
  lines_of-create_other =
      λ f g p q e n. ap (λ h. lines_at h q) (sym (ok-injective _ g e)) ∙ lines_at-other f p q [] n;
  lines_of-writeln = λ f g p line e.
      ap (λ h. lines_at h p) (sym (ok-injective _ g e))
      ∙ lines_at-own f p (lines_at f p ++ (line ∷ []));
  lines_of-writeln_other = λ f g p q line e n.
      ap (λ h. lines_at h q) (sym (ok-injective _ g e))
      ∙ lines_at-other f p q (lines_at f p ++ (line ∷ [])) n;
}

-- What the generator leaves of an empty file system.
final : Written
unfolding generate_all decimal gen_nodes config_lines peer_lines
final = elim (generate_all disk texts secrets []) [ ok g ↦ g | err _ ↦ [] ]

generate_all-written_example :
    lines_at final (config_path_of 2)
    ≡ config_lines (gen_nodes texts 1 secrets) (gen_node texts 2 72)
unfolding final insert get Bytes-discrete ℕ_discrete
generate_all-written_example =
    generate_all-written disk texts disk_lines secrets [] final 1 72 refl refl

generate_all-Says_example : Says texts secrets 2 (lines_at final (config_path_of 2))
unfolding final
generate_all-Says_example = generate_all-Says texts disk disk_lines secrets [] final 1 72 refl refl
