-- ===== src/Tests/Authority.antt =====
-- An authority with a toy cryptography: a certificate starts with the end of its life, and a leaf goes on
-- with its root.
use doze_names.Prelude.{ℕ, Bool, true, false, [], ◌∷◌, some, ◌≡◌, refl, arith, ltb, All, ◌||◌, ◌&&◌}
use doze_names.Text.{
  Bytes, Unicode, codes, eq_bytes, to_lower, is_ascii, lower_byte, has_prefix, drop_last,
  trim_suffix_byte,
}
use doze_names.Text.Laws.{eq_bytes_refl, IsLower}
use doze_names.Table.{lookup, insert, keep_if, delete}
use doze_names.Strings.{member}
use doze_names.Names.{normalize}
use doze_names.Domains.{route_domain, wildcard, trim_prefix}
use doze_names.Authority.{
  missing, bytes, Folder, Ca, Template, Crypto, Disk, is_hex, all_hex, valid_fingerprint,
  read_previous, created, create, load, opened, open_loaded, open_files, open_ca, make_ca,
  load_or_create,
}
use doze_names.Authority.Replace.{append_unique, keep_previous, write_previous, rotate}
use doze_names.Authority.Serving.{
  file_name, leaf_fresh, leaf_template, store_leaf, remembered, fresh_leaf, stored_leaf, mint, leaf,
}
use doze_names.Authority.Creation.{IsReadable, one_authority}
use doze_names.Authority.Rotation.{open_ca-rotate, rotate_torn}
use doze_names.Authority.Leaves.{IsOwn, IsServed, leaf-IsServed}

instance abbrev ascii_only : Unicode
ascii_only = record { lower = λ s. s; runes = λ s. s }

program : Unit {0}
unfolding eq_bytes to_lower is_ascii lower_byte has_prefix drop_last trim_suffix_byte lookup insert
    keep_if delete member normalize route_domain wildcard trim_prefix append_unique is_hex all_hex
    valid_fingerprint read_previous keep_previous write_previous created file_name create rotate
    load leaf_fresh open_loaded open_files open_ca make_ca load_or_create leaf_template store_leaf
    remembered fresh_leaf stored_leaf mint leaf
program = tt

abbrev first_byte : Bytes → ℕ
first_byte [] = 0
first_byte (c ∷ s) = c

abbrev rest_is : Bytes → Bytes → Bool
rest_is root [] = false
rest_is root (c ∷ s) = eq_bytes s root

abbrev old_print : Bytes
old_print = codes "00112233445566778899aabbccddeeff00112233445566778899aabbccddeeff"

abbrev toy : Crypto
toy = record {
  read_cert = λ s. some s;
  read_key = λ s. some s;
  cert_pem = λ s. s;
  key_pem = λ s. s;
  fingerprint = λ s. old_print;
  expires = first_byte;
  signed_by = rest_is;
  sign = λ root key t. some (t.not_after ∷ root);
}

abbrev all_well : Disk
all_well = record {
  mkdir = true;
  open_lock = true;
  lock = true;
  certs_dir = true;
  write_key = true;
  write_root = true;
  keep_root = true;
  write_previous = true;
  removable = λ name. true;
  write_leaf_key = true;
  write_leaf = true;
}

abbrev cert : Bytes
cert = 9000000000000000 ∷ codes "root"

abbrev new_cert : Bytes
new_cert = 9000000000000001 ∷ codes "new"

abbrev key : Bytes
key = codes "key"

abbrev new_key : Bytes
new_key = codes "newkey"

abbrev empty_folder : Folder
empty_folder = record { root = missing; root_key = missing; previous = []; kept = []; certs = [] }

abbrev authority : Ca
authority = record { cert = cert; key = key; leafs = []; previous = [] }

abbrev full_folder : Folder
full_folder = record empty_folder { root = bytes cert; root_key = bytes key }

minted :
    (leaf toy all_well 1000 (codes "*.acme.com") authority full_folder).leaf
    ≡ some (2592000000001000 ∷ cert)
unfolding program
minted = refl

kept_beside :
    (leaf toy all_well 1000 (codes "*.acme.com") authority full_folder).folder.certs
    ≡ (codes "_wildcard.acme.com", 2592000000001000 ∷ cert) ∷ []
unfolding program
kept_beside = refl

toy_signs :
    (t : Template) (crt : Bytes)
    → toy.sign cert key t ≡ some crt
    → (toy.signed_by cert crt ≡ true) × (toy.expires crt ≡ t.not_after)
toy_signs t crt h =
    let same : (t.not_after ∷ cert) ≡ crt = cc in rw (← same) (eq_bytes_refl cert, refl)

-- an authority that remembers no leaf
no_leaf : IsOwn toy authority
unfolding program
no_leaf domain crt found = cc

unfoldable all_lower : Bytes → Bool
all_lower [] = true
all_lower (c ∷ s) = ltb c 128 && (ltb c b'A' || ltb b'Z' c) && all_lower s

all_lower_sound : (s : Bytes) → all_lower s ≡ true → All IsLower s
unfolding all_lower
all_lower_sound [] h = tt
all_lower_sound (c ∷ s) h = ground (arith, all_lower_sound s)

old_print-IsLower : All IsLower old_print
unfolding all_lower
old_print-IsLower = all_lower_sound old_print refl

abbrev torn : Disk
torn = record all_well { write_root = false }

toy_reads : (c k : Bytes) → IsReadable toy c k
toy_reads c k = record { cert_reads = refl; key_reads = refl }

leaf-IsServed_example :
    IsServed toy all_well 1000
      (codes "dev.acme.com")
      authority
      (leaf toy all_well 1000 (codes "dev.acme.com") authority full_folder)
leaf-IsServed_example =
    leaf-IsServed toy authority toy_signs all_well 1000 (codes "dev.acme.com") full_folder no_leaf

one_authority_example :
    (made : Folder) × (load_or_create toy all_well 1000 (some (cert, key)) empty_folder empty_folder
      ≡ (opened authority, made))
    × (load_or_create toy all_well 2000 (some (new_cert, new_key)) empty_folder made
        ≡ (opened authority, made))
unfolding program
one_authority_example =
    one_authority toy all_well all_well 1000 2000 cert key (some (new_cert, new_key)) empty_folder
      refl refl refl refl (toy_reads cert key) refl

open_ca-rotate_example :
    (open_ca toy 1000 (rotate toy all_well (some (new_cert, new_key)) authority full_folder).folder
      ≡ opened (rotate toy all_well (some (new_cert, new_key)) authority full_folder).ca)
    × (new_cert ≡ new_cert)
    × ((rotate toy all_well (some (new_cert, new_key)) authority full_folder).ca.leafs ≡ [])
    × ((fp : Bytes)
        → member fp
            (rotate toy all_well (some (new_cert, new_key)) authority full_folder).ca.previous
          ≡ (eq_bytes old_print fp || member fp []))
unfolding program
open_ca-rotate_example =
    open_ca-rotate toy all_well new_cert new_key authority full_folder 1000 refl tt
      (refl, old_print-IsLower) (toy_reads new_cert new_key) refl

rotate_torn_example :
    ((rotate toy torn (some (new_cert, new_key)) authority full_folder).well ≡ false)
    × (open_ca toy 1000 (rotate toy torn (some (new_cert, new_key)) authority full_folder).folder
        ≡ opened (record { cert = cert; key = new_key; leafs = []; previous = [] }))
unfolding program
rotate_torn_example =
    rotate_torn toy torn new_cert new_key authority full_folder 1000 cert cert refl refl refl refl
      refl refl
