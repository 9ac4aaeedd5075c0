-- ===== src/Wire/Names.antt =====
-- What `parseName` reads from a name as RFC 1035 writes it, and through a compression pointer.
use doze_names.Prelude.{
  ℕ, zero, suc, ◌+◌, ◌*◌, ◌/◌, ◌%◌, ◌^◌, ◌≤◌, ◌<◌, true, List, [], ◌∷◌, ◌++◌, map, append_assoc,
  append-nil, some, ◌≡◌, refl, sym, ◌∙◌, ap, subst, arith, length, take, drop, length-append, All,
  take-length_append,
}
use doze_names.Text.{Bytes, Unicode, to_lower, join}
use doze_names.Wire.{
  byte_at, u16_at, is_pointer, Cursor, stop, go, end_or, name_step, scan, start_at, scan_fuel,
  parse_name,
}

-- a name as a message carries it: each label behind its length, and a zero byte
unfoldable pub encode_name : List Bytes → Bytes
encode_name [] = 0 ∷ []
encode_name (l ∷ ls) = length l ∷ (l ++ encode_name ls)

-- a label has 1 to 63 bytes
abbrev pub IsWireLabel : Bytes → Type 0
IsWireLabel l = (1 ≤ length l) × (length l ≤ 63)

pub byte_at_append : (pre : Bytes) (x : ℕ) (r : Bytes) → byte_at (pre ++ (x ∷ r)) (length pre) ≡ x
byte_at_append [] x r = refl
byte_at_append (p ∷ pre) x r = byte_at_append pre x r

drop-suc_append : (pre : Bytes) (x : ℕ) (r : Bytes) → drop (suc (length pre)) (pre ++ (x ∷ r)) ≡ r
drop-suc_append [] x r = refl
drop-suc_append (p ∷ pre) x r = drop-suc_append pre x r

module _ ⦃u : Unicode⦄ where
  name_step_end :
      (q : Bytes) (c : Cursor)
      → c.pos < length q
      → byte_at q c.pos ≡ 0
      → name_step q c ≡ stop (some (join b'.' c.labels, end_or c.end (c.pos + 1)))
  unfolding name_step
  name_step_end q c inside zero_byte = ground arith

  name_step_label :
      (q : Bytes) (c : Cursor) (l : Bytes)
      → IsWireLabel l
      → byte_at q c.pos ≡ length l
      → take (length l) (drop (suc c.pos) q) ≡ l
      → c.pos + 1 + length l ≤ length q
      → name_step q c
        ≡ go (record c { labels = c.labels ++ (to_lower l ∷ []); pos = c.pos + 1 + length l })
  unfolding name_step
  name_step_label q c l (low, high) byte body inside = ground arith

  name_step_pointer :
      (q : Bytes) (c : Cursor)
      → is_pointer (byte_at q c.pos) ≡ true
      → c.pos + 1 < length q
      → c.jumps < 8
      → name_step q c
        ≡ go (record c {
          pos = u16_at q c.pos % 2 ^ 14;
          jumps = c.jumps + 1;
          end = end_or c.end (c.pos + 2);
        })
  unfolding name_step
  name_step_pointer q c points inside few = ground arith

  name_step_next :
      (pre l rest : Bytes) (c : Cursor)
      → IsWireLabel l
      → c.pos ≡ length pre
      → name_step (pre ++ (length l ∷ (l ++ rest))) c
        ≡ go (record c { labels = c.labels ++ (to_lower l ∷ []); pos = c.pos + 1 + length l })
  name_step_next pre l rest c good here =
      let q = pre ++ (length l ∷ (l ++ rest)) in
      let byte : byte_at q c.pos ≡ length l = rw here (byte_at_append pre (length l) (l ++ rest)) in
      let behind : drop (suc c.pos) q ≡ l ++ rest =
        rw here (drop-suc_append pre (length l) (l ++ rest)) in
      let body : take (length l) (drop (suc c.pos) q) ≡ l = rw behind (take-length_append l rest) in
      name_step_label q c l good byte body
        (omega (arith, length-append pre (length l ∷ (l ++ rest)), length-append l rest))

  -- The walk reads a whole name, from wherever it stands.
  scan-encode_name :
      (fuel : ℕ) (ls : List Bytes) (pre post : Bytes) (c : Cursor)
      → All IsWireLabel ls
      → length ls < fuel
      → c.pos ≡ length pre
      → scan fuel (pre ++ (encode_name ls ++ post)) c
        ≡ some (
            some (
              join b'.' (c.labels ++ map to_lower ls),
              end_or c.end (length pre + length (encode_name ls)),
            ))
  unfolding scan encode_name
  scan-encode_name zero ls pre post c good lt here = absurd (omega arith)
  scan-encode_name (suc fuel) [] pre post c good lt here =
      let first : byte_at (pre ++ (0 ∷ post)) c.pos ≡ 0 = rw here (byte_at_append pre 0 post) in
      let inside : c.pos < length (pre ++ (0 ∷ post)) =
        omega (arith, length-append pre (0 ∷ post)) in
      rw (name_step_end _ c inside first, scan, append-nil c.labels, here) refl
  scan-encode_name (suc fuel) (l ∷ ls) pre post c (good, goods) lt here =
      let rest = encode_name ls ++ post in
      let next =
        scan-encode_name fuel ls (pre ++ (length l ∷ l)) post
          (record c { labels = c.labels ++ (to_lower l ∷ []); pos = c.pos + 1 + length l }) goods
          (omega arith) (omega (arith, length-append pre (length l ∷ l))) in
      let sizes : length (pre ++ (length l ∷ l)) + length (encode_name ls)
          ≡ length pre + suc (length (l ++ encode_name ls)) =
        omega (arith, length-append pre (length l ∷ l), length-append l (encode_name ls)) in
      let shape : pre ++ (encode_name (l ∷ ls) ++ post) ≡ pre ++ (length l ∷ (l ++ rest)) =
        ap (λ t. pre ++ (length l ∷ t)) (append_assoc l (encode_name ls) post) in
      let read =
        rw
          (
            append_assoc pre (length l ∷ l) rest,
            append_assoc c.labels (to_lower l ∷ []) (map to_lower ls),
            sizes,
          )
          at next in
      subst
        (λ q.
          scan (suc fuel) q c
          ≡ some (
              some (
                join b'.' (c.labels ++ map to_lower (l ∷ ls)),
                end_or c.end (length pre + length (encode_name (l ∷ ls))),
              )))
        (sym shape) (rw (name_step_next pre l rest c good here, scan) read)

  encode_name_long : (ls : List Bytes) → length ls < length (encode_name ls)
  unfolding encode_name
  encode_name_long [] = omega arith
  encode_name_long (l ∷ ls) = omega (arith, encode_name_long ls, length-append l (encode_name ls))

  -- A name of labels of 1 to 63 bytes that stands in a message uncompressed is read as its labels in
  -- lower case with dots between them, and its end is where its last byte ends.
  pub parse_name-encode_name :
      (pre : Bytes) (ls : List Bytes) (post : Bytes)
      → All IsWireLabel ls
      → parse_name (pre ++ (encode_name ls ++ post)) (length pre)
        ≡ some (join b'.' (map to_lower ls), length pre + length (encode_name ls))
  unfolding parse_name end_or
  parse_name-encode_name pre ls post good =
      let q = pre ++ (encode_name ls ++ post) in
      let done =
        scan-encode_name (scan_fuel q) ls pre post (start_at (length pre)) good
          (omega (
            arith,
            encode_name_long ls,
            length-append pre (encode_name ls ++ post),
            length-append (encode_name ls) post,
          ))
          refl in
      rw (done, parse_name) refl

  -- A compression pointer to an uncompressed name of labels of 1 to 63 bytes, which stands at an
  -- offset of 14 bits, is read as the name, and its end is the two bytes of the pointer further.
  pub parse_name_pointer :
      (pre : Bytes) (ls : List Bytes) (post : Bytes) (off : ℕ)
      → All IsWireLabel ls
      → length pre < 2 ^ 14
      → off + 1 < length (pre ++ (encode_name ls ++ post))
      → byte_at (pre ++ (encode_name ls ++ post)) off ≡ 192 + length pre / 256
      → byte_at (pre ++ (encode_name ls ++ post)) (off + 1) ≡ length pre % 256
      → parse_name (pre ++ (encode_name ls ++ post)) off
        ≡ some (join b'.' (map to_lower ls), off + 2)
  unfolding parse_name scan end_or
  parse_name_pointer pre ls post off good short inside first second =
      let q = pre ++ (encode_name ls ++ post) in
      let points : is_pointer (byte_at q off) ≡ true = ground arith in
      let target : u16_at q off % 2 ^ 14 ≡ length pre = omega (arith, first, second) in
      let c : Cursor = record {
        labels = [];
        pos = u16_at q off % 2 ^ 14;
        jumps = 1;
        end = end_or 0 (off + 2);
      } in
      let done =
        scan-encode_name (8 + 9 * length q) ls pre post c good
          (omega (
            arith,
            encode_name_long ls,
            length-append pre (encode_name ls ++ post),
            length-append (encode_name ls) post,
          ))
          target in
      let ends : end_or (off + 2) (length pre + length (encode_name ls)) ≡ off + 2 = ground arith in
      let read : scan (suc (8 + 9 * length q)) q (start_at off)
          ≡ some (some (join b'.' (map to_lower ls), off + 2)) =
        rw (name_step_pointer q (start_at off) points inside (omega arith), scan)
          (done ∙ ap (λ e. some (some (join b'.' (map to_lower ls), e))) ends) in
      let fuel : 9 * suc (length q) ≡ suc (8 + 9 * length q) = omega arith in
      rw (fuel, read, parse_name) refl
