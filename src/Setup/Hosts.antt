-- ===== src/Setup/Hosts.antt =====
-- What `replaceHostsBlock` makes of a hosts file that has the block, and of one that has not.
use doze_names.Prelude.{
  ℕ, suc, ◌+◌, true, false, not, ◌&&◌, [], ◌∷◌, ◌++◌, none, some, ◌≡◌, refl, ap, ◌∙◌, subst, arith,
  if◌then◌else◌, length, take, drop, get_elem?, Bool-cases, Option-cases, inl, inr, append_assoc,
  append-nil, drop-length_append,
}
use doze_names.Text.{
  Bytes, Unicode, eq_bytes, has_prefix, has_suffix, drop_last, contains_byte, to_lower, is_ascii,
  lower_byte, trim, trim_left, trim_right, trim_right_cons, runes_of,
}
use doze_names.Text.Laws.{has_suffix-append}
use doze_names.Names.{apex_name, label, label_rune}
use doze_names.Net.{ip_text, octet_text}
use doze_names.Pool.{loopback_net, address_at, apex_offset, apex_addr}
use doze_names.Setup.{
  hosts_begin, hosts_end, index_of, trim_newline, end_line, block_end, splice, replace_hosts_block,
  hosts_line, hosts_lines, apex_hosts_block,
}
use doze_names.Setup.Contains.{index_of-append, contains-within, is_plain}
use doze_names.Setup.Manager.{contains}

has_prefix-line :
    (p x t : Bytes)
    → contains_byte 10 t ≡ false
    → has_prefix (p ++ (10 ∷ x)) t ≡ true
    → has_prefix p t ≡ true
unfolding has_prefix contains_byte
has_prefix-line [] x [] l h = refl
has_prefix-line [] x (c ∷ t) l h = ground arith
has_prefix-line (d ∷ p) x [] l h = refl
has_prefix-line (d ∷ p) x (c ∷ t) l h = ground (arith, has_prefix-line p x t)

-- a text of one line that does not begin `p` does not begin what `p` starts as its first line
no_prefix-line :
    (p x t : Bytes)
    → contains_byte 10 t ≡ false
    → has_prefix p t ≡ false
    → has_prefix (p ++ (10 ∷ x)) t ≡ false
no_prefix-line p x t l h = elim (Bool-cases (has_prefix (p ++ (10 ∷ x)) t)) [
  | inl found ↦ absurd (ground (arith, has_prefix-line p x t l found))
  | inr lacks ↦ lacks
]

index_of-none : (p t : Bytes) → index_of p t ≡ none → has_prefix p t ≡ false
unfolding index_of
index_of-none [] t h = ground arith
index_of-none (c ∷ p) t h = ground arith

index_of-none-tail : (c : ℕ) (p t : Bytes) → index_of (c ∷ p) t ≡ none → index_of p t ≡ none
unfolding index_of
index_of-none-tail c p t h = ground arith

index_of-line :
    (p r t : Bytes)
    → contains_byte 10 t ≡ false
    → index_of p t ≡ none
    → index_of (p ++ (10 ∷ (t ++ r))) t ≡ some (suc (length p))
unfolding index_of
index_of-line [] r t l h =
    let nope : has_prefix (10 ∷ (t ++ r)) t ≡ false =
      no_prefix-line [] (t ++ r) t l (index_of-none [] t h) in
    rw (nope, index_of-append t r) refl
index_of-line (c ∷ p) r t l h =
    let nope : has_prefix (c ∷ (p ++ (10 ∷ (t ++ r)))) t ≡ false =
      no_prefix-line (c ∷ p) (t ++ r) t l (index_of-none (c ∷ p) t h) in
    rw (nope, index_of-line p r t l (index_of-none-tail c p t h)) refl

index_of-none-line :
    (p t : Bytes)
    → contains_byte 10 t ≡ false
    → index_of p t ≡ none
    → index_of (p ++ (10 ∷ [])) t ≡ none
unfolding index_of
index_of-none-line [] t l h =
    rw (no_prefix-line [] [] t l (index_of-none [] t h), index_of-none [] t h) refl
index_of-none-line (c ∷ p) t l h =
    let nope : has_prefix (c ∷ (p ++ (10 ∷ []))) t ≡ false =
      no_prefix-line (c ∷ p) [] t l (index_of-none (c ∷ p) t h) in
    rw (nope, index_of-none-line p t l (index_of-none-tail c p t h)) refl

take-line : (p x : Bytes) → take (suc (length p)) (p ++ (10 ∷ x)) ≡ p ++ (10 ∷ [])
take-line [] x = refl
take-line (c ∷ p) x = ap (◌∷◌ c) (take-line p x)

shift_index : (n k : ℕ) → suc (n + k) ≡ suc n + k
shift_index n k = omega arith

add_one : (k : ℕ) → suc k ≡ 1 + k
add_one k = omega arith

shift_none : (n : ℕ) → n + 0 ≡ n
shift_none n = omega arith

shift_twice : (n k l : ℕ) → n + (k + l) ≡ n + k + l
shift_twice n k l = omega arith

drop-line : (p x : Bytes) (k : ℕ) → drop (suc (length p) + k) (p ++ (10 ∷ x)) ≡ drop k x
drop-line [] x k = subst (λ n. drop n (10 ∷ x) ≡ drop k x) (add_one k) refl
drop-line (c ∷ p) x k =
    subst (λ n. drop n (c ∷ (p ++ (10 ∷ x))) ≡ drop k x) (shift_index (suc (length p)) k)
      (drop-line p x k)

get_elem?-line :
    (p x : Bytes) (k : ℕ) → get_elem? (p ++ (10 ∷ x)) (suc (length p) + k) ≡ get_elem? x k
get_elem?-line [] x k = subst (λ n. get_elem? (10 ∷ x) n ≡ get_elem? x k) (add_one k) refl
get_elem?-line (c ∷ p) x k =
    subst (λ n. get_elem? (c ∷ (p ++ (10 ∷ x))) n ≡ get_elem? x k) (shift_index (suc (length p)) k)
      (get_elem?-line p x k)

drop_last-append : (p : Bytes) (x : ℕ) → drop_last (p ++ (x ∷ [])) ≡ p
unfolding drop_last
drop_last-append [] x = refl
drop_last-append (c ∷ []) x = refl
drop_last-append (c ∷ d ∷ p) x = ap (◌∷◌ c) (drop_last-append (d ∷ p) x)

trim_newline-append : (p : Bytes) → trim_newline (p ++ (10 ∷ [])) ≡ p
unfolding trim_newline
trim_newline-append p = rw (has_suffix-append p (10 ∷ [])) (drop_last-append p 10)

module _ ⦃u : Unicode⦄ where
  -- the block of a Linux machine
  abbrev pub block : Bytes
  block = apex_hosts_block loopback_net

  program : Unit {0}
  unfolding eq_bytes has_prefix has_suffix drop_last trim trim_left trim_right trim_right_cons
      to_lower runes_of is_ascii lower_byte apex_name label label_rune ip_text octet_text address_at
      apex_offset apex_addr index_of hosts_line hosts_lines apex_hosts_block contains_byte
  program = tt

  index_of-block_end : (post : Bytes) → index_of (block ++ post) hosts_end ≡ some 81
  unfolding program
  index_of-block_end post = refl

  length-block : length block ≡ 92
  unfolding program
  length-block = refl

  block_last : (post : Bytes) → get_elem? (block ++ post) 91 ≡ some 10
  unfolding program
  block_last post = refl

  -- a file with the block in it, at the beginning of a line
  abbrev pub with_block : Bytes → Bytes → Bytes
  with_block pre post = pre ++ (10 ∷ (block ++ post))

  index_of-with_block :
      (pre post : Bytes)
      → index_of pre hosts_begin ≡ none
      → index_of (with_block pre post) hosts_begin ≡ some (suc (length pre))
  unfolding program
  index_of-with_block pre post h =
      index_of-line pre (drop (length hosts_begin) block ++ post) hosts_begin refl h

  block_end-with_block :
      (pre post : Bytes)
      → block_end (with_block pre post) (suc (length pre)) ≡ suc (length pre) + length block
  unfolding block_end
  block_end-with_block pre post =
      let from_start : drop (suc (length pre)) (with_block pre post) ≡ block ++ post =
        subst (λ n. drop n (with_block pre post) ≡ block ++ post) (shift_none (suc (length pre)))
          (drop-line pre (block ++ post) 0) in
      let ended : get_elem? (with_block pre post) (suc (length pre) + 81 + 10) ≡ some 10 =
        subst (λ n. get_elem? (with_block pre post) n ≡ some 10)
          (shift_twice (suc (length pre)) 81 10)
          (get_elem?-line pre (block ++ post) 91 ∙ block_last post) in
      rw (from_start, index_of-block_end post, ended, length-block, block_end) (omega arith)

  splice-with_block :
      (pre post want : Bytes)
      → splice (with_block pre post) (suc (length pre)) (suc (length pre) + length block) want
        ≡ (if eq_bytes want [] then end_line pre ++ post else pre ++ (10 ∷ (want ++ post)))
  unfolding splice
  splice-with_block pre post want =
      let behind : drop (suc (length pre) + length block) (with_block pre post) ≡ post =
        drop-line pre (block ++ post) (length block) ∙ drop-length_append block post in
      rw (behind, take-line pre (block ++ post), trim_newline-append pre)
        (elim (Bool-cases (eq_bytes want [])) [
          | inl none_wanted ↦ rw none_wanted refl
          | inr wanted ↦ rw wanted (append_assoc pre (10 ∷ []) (want ++ post))
        ])

  -- In a hosts file with the block of a Linux machine at the beginning of a line, and no line before
  -- it with the marker that the block begins with, replaceHostsBlock puts another text in the place
  -- of the block, or takes the block and the newline before it out where that text is empty, with a
  -- newline at the end of what stands before. What stands before and behind stays byte for byte.
  pub replace_hosts_block-with_block :
      (pre post want : Bytes)
      → index_of pre hosts_begin ≡ none
      → replace_hosts_block (pre ++ (10 ∷ (block ++ post))) want
        ≡ (if eq_bytes want [] then end_line pre ++ post else pre ++ (10 ∷ (want ++ post)))
  unfolding replace_hosts_block
  replace_hosts_block-with_block pre post want h =
      rw (index_of-with_block pre post h, block_end-with_block pre post, replace_hosts_block)
        (splice-with_block pre post want)

  end_line-ends : (s : Bytes) → end_line (end_line s) ≡ end_line s
  unfolding end_line
  end_line-ends s = elim (Bool-cases (not (eq_bytes s []) && not (has_suffix s (10 ∷ [])))) [
    | inl e ↦ rw (e, has_suffix-append s (10 ∷ [])) (ground arith)
    | inr e ↦ rw (e, e) refl
  ]

  index_of-none-end_line :
      (s : Bytes) → index_of s hosts_begin ≡ none → index_of (end_line s) hosts_begin ≡ none
  unfolding end_line contains_byte
  index_of-none-end_line s h =
      elim (Bool-cases (not (eq_bytes s []) && not (has_suffix s (10 ∷ [])))) [
        | inl e ↦ rw e (index_of-none-line s hosts_begin refl h)
        | inr e ↦ rw e h
      ]

  put_in :
      (hosts : Bytes)
      → index_of hosts hosts_begin ≡ none
      → replace_hosts_block hosts block ≡ with_block (end_line hosts) []
  unfolding replace_hosts_block end_line eq_bytes apex_hosts_block
  put_in hosts h = rw (h, append-nil block, replace_hosts_block) refl

  -- A hosts file without the block, which has the block of a Linux machine put in and taken out
  -- again, is what it was, with a newline at its end where it had none; and putting the block in
  -- again changes nothing.
  pub replace_hosts_block-undone :
      (hosts : Bytes)
      → index_of hosts hosts_begin ≡ none
      → (replace_hosts_block (replace_hosts_block hosts block) [] ≡ end_line hosts)
        × (replace_hosts_block (replace_hosts_block hosts block) block
            ≡ replace_hosts_block hosts block)
  unfolding end_line eq_bytes apex_hosts_block
  replace_hosts_block-undone hosts h =
      let lacks = index_of-none-end_line hosts h in
      rw (put_in hosts h) (
        replace_hosts_block-with_block (end_line hosts) [] [] lacks
            ∙ append-nil (end_line (end_line hosts))
            ∙ end_line-ends hosts,
        replace_hosts_block-with_block (end_line hosts) [] block lacks,
      )

  pub contains-replace_hosts_block :
      (hosts : Bytes) → contains (replace_hosts_block hosts block) block ≡ true
  unfolding replace_hosts_block splice eq_bytes apex_hosts_block
  contains-replace_hosts_block hosts = elim (Option-cases (index_of hosts hosts_begin)) [
    | inl e ↦
        rw (e, replace_hosts_block)
          (subst (λ t. contains t block ≡ true)
            (append_assoc (end_line hosts) (10 ∷ []) (block ++ [])
              ∙ ap (λ s. end_line hosts ++ (10 ∷ s)) (append-nil block))
            (contains-within (end_line hosts ++ (10 ∷ [])) block []))
    | inr (start, e) ↦
        rw (e, replace_hosts_block)
          (contains-within (take start hosts) block (drop (block_end hosts start) hosts))
  ]

  pub is_plain-block : is_plain block ≡ true
  unfolding program is_plain
  is_plain-block = refl
