-- ===== src/Tests/Bundle.antt =====
-- A bundle of roots, in a PEM of one byte a block.
use doze_names.Prelude.{
  ℕ, true, false, [], ◌∷◌, ◌++◌, Option, none, some, ◌≡◌, refl, sym, arith, ◌==◌, if◌then◌else◌,
  length, Bool-cases, inl, inr, ◌<◌,
}
use doze_names.Text.{Bytes, codes, eq_bytes, has_prefix}
use doze_names.Authority.{bytes}
use doze_names.Authority.Bundle.{
  Block, Pem, is_doze, is_doze_root, without_roots, without_doze_roots, bundle_text, bundle,
  makes_bundle, inherited, is_anchor, anchors, trusted_anchors_in, first_read, system_roots,
}
use doze_names.Authority.Roots.{Blocks, ended, block, others, bundle_text-Blocks}

program : Unit {0}
unfolding eq_bytes has_prefix is_doze is_doze_root without_roots without_doze_roots bundle_text
    bundle makes_bundle inherited is_anchor anchors trusted_anchors_in first_read system_roots
    others
program = tt

abbrev certificate : ℕ → Block
certificate c = record { kind = codes "CERTIFICATE"; headers = []; body = c ∷ [] }

-- one byte is one certificate, and newlines stand between them
decode_byte : Bytes → Option (Block × Bytes)
decode_byte [] = none
decode_byte (c ∷ s) = let rest = decode_byte s in if c == 10 then rest else some (certificate c, s)

-- the certificates of the byte d are doze's
abbrev letters : Pem
letters = record {
  decode = decode_byte;
  encode = λ b. b.body;
  subject = λ der. if eq_bytes der (b'd' ∷ []) then some (codes "doze local CA x") else some der;
  is_ca = λ der. true;
}

decode_byte-shrinks :
    (s : Bytes) (b : Block) (rest : Bytes) → decode_byte s ≡ some (b, rest) → length rest < length s
unfolding decode_byte
decode_byte-shrinks [] b rest e = ground arith
decode_byte-shrinks (c ∷ s) b rest e = elim (Bool-cases (c == 10)) [
  | inl line ↦ let later = decode_byte-shrinks s b rest (ground (arith, e)) in omega (arith, later)
  | inr other ↦ ground (arith, e)
]

decode_byte-encode :
    (s : Bytes) (b : Block) (rest more : Bytes)
    → decode_byte s ≡ some (b, rest)
    → decode_byte (b.body ++ more) ≡ some (b, more)
unfolding decode_byte
decode_byte-encode [] b rest more e = ground (arith, e)
decode_byte-encode (c ∷ s) b rest more e = elim (Bool-cases (c == 10)) [
  | inl line ↦ decode_byte-encode s b rest more (ground (arith, e))
  | inr other ↦
      let first : some (certificate c, s) ≡ some (b, rest) = rw other at e in
      let same : certificate c ≡ b = ground (arith, first) in rw (sym same, other) refl
]

abbrev system : Bytes
system = codes "a\nd"

abbrev extra : Bytes
extra = codes "db"

abbrev root : Bytes
root = codes "d\n"

system-Blocks : Blocks letters system (certificate b'a' ∷ certificate b'd' ∷ [])
unfolding decode_byte
system-Blocks =
    block (certificate b'a') (codes "\nd") (certificate b'd' ∷ []) refl
      (block (certificate b'd') [] [] refl (ended refl))

extra-Blocks : Blocks letters extra (certificate b'd' ∷ certificate b'b' ∷ [])
unfolding decode_byte
extra-Blocks =
    block (certificate b'd') (codes "b") (certificate b'b' ∷ []) refl
      (block (certificate b'b') [] [] refl (ended refl))

root-Blocks : Blocks letters root (certificate b'd' ∷ [])
unfolding decode_byte
root-Blocks = block (certificate b'd') (codes "\n") [] refl (ended refl)

bundle_text-Blocks_example :
    Blocks letters
      (bundle_text letters system (some extra) root)
      (certificate b'a' ∷ certificate b'b' ∷ certificate b'd' ∷ [])
    × Blocks letters
        (bundle_text letters system none root)
        (certificate b'a' ∷ certificate b'd' ∷ [])
unfolding program decode_byte
bundle_text-Blocks_example =
    bundle_text-Blocks letters decode_byte-shrinks decode_byte-encode (λ s. refl) system extra root
      (certificate b'a' ∷ certificate b'd' ∷ []) (certificate b'd' ∷ certificate b'b' ∷ [])
      (certificate b'd' ∷ []) system-Blocks extra-Blocks root-Blocks

whole :
    bundle letters true (bytes root) system (inherited (codes "x.pem") false (bytes extra)) true
    ≡ some (codes "a\nb\nd\n")
unfolding program decode_byte
whole = refl

up_to_date : makes_bundle (some (7, 12)) (some 7) ≡ false
unfolding program
up_to_date = refl
