-- ===== src/PortCache/Stamp.antt =====
-- Files with one stamp are one.
use doze_names.Prelude.{
  ℕ, zero, suc, ◌+◌, ◌/◌, ◌%◌, Bool, true, false, ◌||◌, [], ◌∷◌, ◌++◌, List, Option, none, some,
  ltb, ◌≡◌, ◌≢◌, refl, sym, ap, arith, Bool-cases, inl, inr,
}
use doze_names.Text.{Bytes, contains_byte}
use doze_names.Decimal.{digits_onto, itoa}
use doze_names.Decimal.RoundTrip.{itoa-injective}
use doze_names.PortCache.{FileStat, stamp_of}

-- what stands before the first separator, and behind it
until-injective :
    (b : ℕ) (p p' s s' : Bytes)
    → contains_byte b p ≡ false
    → contains_byte b p' ≡ false
    → p ++ (b ∷ s) ≡ p' ++ (b ∷ s')
    → (p ≡ p') × (s ≡ s')
unfolding contains_byte
until-injective b [] [] s s' h h' e = (refl, cc)
until-injective b [] (y ∷ p') s s' h h' e = ground arith
until-injective b (x ∷ p) [] s s' h h' e = ground arith
until-injective b (x ∷ p) (y ∷ p') s s' h h' e =
    let same : x ≡ y = cc in
    let rest : p ++ (b ∷ s) ≡ p' ++ (b ∷ s') = cc in
    let (before, after) = until-injective b p p' s s' (ground arith) (ground arith) rest in
    (cc, after)

-- a byte that is no digit
unfoldable is_apart : ℕ → Bool
is_apart b = ltb b b'0' || ltb b'9' b

digits_onto-lacks :
    (b fuel n : ℕ) (rest : Bytes)
    → is_apart b ≡ true
    → contains_byte b rest ≡ false
    → contains_byte b (digits_onto fuel n rest) ≡ false
unfolding digits_onto contains_byte is_apart
digits_onto-lacks b zero n rest apart h = h
digits_onto-lacks b (suc fuel) n rest apart h = elim (Bool-cases (ltb n 10)) [
  | inl one ↦ rw (one) (ground arith)
  | inr more ↦
      rw (more) (digits_onto-lacks b fuel (n / 10) ((b'0' + n % 10) ∷ rest) apart (ground arith))
]

itoa-lacks : (b n : ℕ) → is_apart b ≡ true → contains_byte b (itoa n) ≡ false
unfolding itoa contains_byte
itoa-lacks b n apart = digits_onto-lacks b (suc n) n [] apart refl

field-injective :
    (b m n : ℕ) (s s' : Bytes)
    → is_apart b ≡ true
    → itoa m ++ (b ∷ s) ≡ itoa n ++ (b ∷ s')
    → (m ≡ n) × (s ≡ s')
field-injective b m n s s' apart e =
    let (text, rest) =
      until-injective b (itoa m) (itoa n) s s' (itoa-lacks b m apart) (itoa-lacks b n apart) e in
    (itoa-injective m n text, rest)

-- the first file's stat, and the stamp of the others
pub stamp_of-some :
    (f g : FileStat) (fs gs : List (Option FileStat))
    → stamp_of (some f ∷ fs) ≡ stamp_of (some g ∷ gs)
    → (f ≡ g) × (stamp_of fs ≡ stamp_of gs)
unfolding stamp_of is_apart
stamp_of-some f g fs gs e =
    let (id, e2) = field-injective b'/' f.id g.id _ _ refl e in
    let (modified, e3) = field-injective b'/' f.modified g.modified _ _ refl e2 in
    let (size, rest) = field-injective b';' f.size g.size _ _ refl e3 in (cc, rest)

append-cons_ne : (p s : Bytes) (b : ℕ) → p ++ (b ∷ s) ≢ []
append-cons_ne [] s b e = cc
append-cons_ne (x ∷ p) s b e = cc

stamp_some : (f : FileStat) (fs : List (Option FileStat)) → stamp_of (some f ∷ fs) ≢ []
unfolding stamp_of
stamp_some f fs e = append-cons_ne (itoa f.id) _ b'/' e

-- Where the registry is there, one stamp is that of one pair of files.
pub stamp_of-injective :
    (f g : FileStat) (o o' : Option FileStat)
    → stamp_of (some f ∷ o ∷ []) ≡ stamp_of (some g ∷ o' ∷ [])
    → (f ≡ g) × (o ≡ o')
unfolding stamp_of
stamp_of-injective f g none none e = ((stamp_of-some f g (none ∷ []) (none ∷ []) e).0, refl)
stamp_of-injective f g none (some h) e =
    absurd (stamp_some h [] (sym (stamp_of-some f g (none ∷ []) (some h ∷ []) e).1))
stamp_of-injective f g (some h) none e =
    absurd (stamp_some h [] (stamp_of-some f g (some h ∷ []) (none ∷ []) e).1)
stamp_of-injective f g (some h) (some k) e =
    let (first, rest) = stamp_of-some f g (some h ∷ []) (some k ∷ []) e in
    (first, ap some (stamp_of-some h k [] [] rest).0)
