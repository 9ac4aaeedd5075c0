-- ===== src/Packet/Bytes.antt =====
-- The bytes of a packet, read and written in place, and what a read sees of a write.
use doze_names.Prelude.{
  ℕ, zero, suc, ◌+◌, ◌/◌, ◌%◌, ◌<◌, ◌≤◌, Bool, ◌&&◌, [], ◌∷◌, ◌≡◌, ◌≢◌, ◌⊎◌, refl, ◌∙◌, arith, ◌==◌,
  length,
}
use doze_names.Text as Go
use doze_names.Net.{Ip}
use doze_names.Wire.{byte_at, u16_at}

-- `p[i] = v`, where `i` is in range
unfoldable pub set_at : Go.Bytes → ℕ → ℕ → Go.Bytes
set_at [] i v = []
set_at (x ∷ xs) zero v = v ∷ xs
set_at (x ∷ xs) (suc i) v = x ∷ set_at xs i v

-- `binary.BigEndian.PutUint16(p[i:], v)`
unfoldable pub put_u16 : Go.Bytes → ℕ → ℕ → Go.Bytes
put_u16 p i v = set_at (set_at p i (v / 256 % 256)) (i + 1) (v % 256)

-- `binary.BigEndian.PutUint32(p[i:], v)`
unfoldable pub put_u32 : Go.Bytes → ℕ → ℕ → Go.Bytes
put_u32 p i v = put_u16 (put_u16 p i (v / 65536)) (i + 2) (v % 65536)

-- `copy(a[:], p[i:i+4])`
unfoldable pub address_at : Go.Bytes → ℕ → Ip
address_at p i = record {
  a = byte_at p i;
  b = byte_at p (i + 1);
  c = byte_at p (i + 2);
  d = byte_at p (i + 3);
}

-- `copy(p[i:i+4], a[:])`
unfoldable pub put_address : Go.Bytes → ℕ → Ip → Go.Bytes
put_address p i a = set_at (set_at (set_at (set_at p i a.a) (i + 1) a.b) (i + 2) a.c) (i + 3) a.d

-- `a == b`, of two addresses
unfoldable pub eq_ip : Ip → Ip → Bool
eq_ip x y = x.a == y.a && x.b == y.b && x.c == y.c && x.d == y.d

pub length-set_at : (p : Go.Bytes) (i v : ℕ) → length (set_at p i v) ≡ length p
unfolding set_at
length-set_at [] i v = refl
length-set_at (x ∷ xs) zero v = refl
length-set_at (x ∷ xs) (suc i) v = omega (arith, length-set_at xs i v)

pub byte_at-set_at : (p : Go.Bytes) (i v : ℕ) → i < length p → byte_at (set_at p i v) i ≡ v
unfolding set_at
byte_at-set_at [] i v h = absurd (omega arith)
byte_at-set_at (x ∷ xs) zero v h = refl
byte_at-set_at (x ∷ xs) (suc i) v h = byte_at-set_at xs i v (omega arith)

pub byte_at-set_at_other :
    (p : Go.Bytes) (i v j : ℕ) → i ≢ j → byte_at (set_at p i v) j ≡ byte_at p j
unfolding set_at
byte_at-set_at_other [] i v j h = refl
byte_at-set_at_other (x ∷ xs) zero v zero h = absurd (h refl)
byte_at-set_at_other (x ∷ xs) zero v (suc j) h = refl
byte_at-set_at_other (x ∷ xs) (suc i) v zero h = refl
byte_at-set_at_other (x ∷ xs) (suc i) v (suc j) h = byte_at-set_at_other xs i v j (omega arith)

pub byte_at-put_u16_other :
    (p : Go.Bytes) (i v j : ℕ) → i ≢ j → i + 1 ≢ j → byte_at (put_u16 p i v) j ≡ byte_at p j
unfolding put_u16
byte_at-put_u16_other p i v j h k =
    byte_at-set_at_other (set_at p i (v / 256 % 256)) (i + 1) (v % 256) j k
    ∙ byte_at-set_at_other p i (v / 256 % 256) j h

pub length-put_u16 : (p : Go.Bytes) (i v : ℕ) → length (put_u16 p i v) ≡ length p
unfolding put_u16
length-put_u16 p i v =
    length-set_at (set_at p i (v / 256 % 256)) (i + 1) (v % 256) ∙ length-set_at p i (v / 256 % 256)

pub u16_at-put_u16 :
    (p : Go.Bytes) (i v : ℕ) → i + 1 < length p → v < 65536 → u16_at (put_u16 p i v) i ≡ v
unfolding put_u16
u16_at-put_u16 p i v h small =
    let q = set_at p i (v / 256 % 256) in
    let high : byte_at (set_at q (i + 1) (v % 256)) i ≡ v / 256 % 256 =
      byte_at-set_at_other q (i + 1) (v % 256) i (omega arith)
      ∙ byte_at-set_at p i (v / 256 % 256) (omega arith) in
    let low : byte_at (set_at q (i + 1) (v % 256)) (i + 1) ≡ v % 256 =
      byte_at-set_at q (i + 1) (v % 256) (omega (arith, length-set_at p i (v / 256 % 256))) in
    omega (arith, high, low)

pub length-put_address : (p : Go.Bytes) (i : ℕ) (a : Ip) → length (put_address p i a) ≡ length p
unfolding put_address
length-put_address p i a = simp length-set_at refl

-- the four bytes of an address, one by one
pub byte_at-put_address_other :
    (p : Go.Bytes) (i : ℕ) (a : Ip) (j : ℕ)
    → (j < i) ⊎ (i + 4 ≤ j)
    → byte_at (put_address p i a) j ≡ byte_at p j
unfolding put_address
byte_at-put_address_other p i a j out =
    let p1 = set_at p i a.a in
    let p2 = set_at p1 (i + 1) a.b in
    let p3 = set_at p2 (i + 2) a.c in
    byte_at-set_at_other p3 (i + 3) a.d j (grind arith)
    ∙ byte_at-set_at_other p2 (i + 2) a.c j (grind arith)
    ∙ byte_at-set_at_other p1 (i + 1) a.b j (grind arith)
    ∙ byte_at-set_at_other p i a.a j (grind arith)

pub address_at-put_address :
    (p : Go.Bytes) (i : ℕ) (a : Ip) → i + 3 < length p → address_at (put_address p i a) i ≡ a
unfolding put_address address_at
address_at-put_address p i a h =
    let p1 = set_at p i a.a in
    let p2 = set_at p1 (i + 1) a.b in
    let p3 = set_at p2 (i + 2) a.c in
    let n1 = length-set_at p i a.a in
    let n2 = length-set_at p1 (i + 1) a.b in
    let n3 = length-set_at p2 (i + 2) a.c in
    let first : byte_at (set_at p3 (i + 3) a.d) i ≡ a.a =
      byte_at-set_at_other p3 (i + 3) a.d i (omega arith)
      ∙ byte_at-set_at_other p2 (i + 2) a.c i (omega arith)
      ∙ byte_at-set_at_other p1 (i + 1) a.b i (omega arith)
      ∙ byte_at-set_at p i a.a (omega arith) in
    let second : byte_at (set_at p3 (i + 3) a.d) (i + 1) ≡ a.b =
      byte_at-set_at_other p3 (i + 3) a.d (i + 1) (omega arith)
      ∙ byte_at-set_at_other p2 (i + 2) a.c (i + 1) (omega arith)
      ∙ byte_at-set_at p1 (i + 1) a.b (omega arith) in
    let third : byte_at (set_at p3 (i + 3) a.d) (i + 2) ≡ a.c =
      byte_at-set_at_other p3 (i + 3) a.d (i + 2) (omega arith)
      ∙ byte_at-set_at p2 (i + 2) a.c (omega arith) in
    let fourth : byte_at (set_at p3 (i + 3) a.d) (i + 3) ≡ a.d =
      byte_at-set_at p3 (i + 3) a.d (omega arith) in
    rw (first, second, third, fourth) refl
