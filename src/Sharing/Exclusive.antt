-- ===== src/Sharing/Exclusive.antt =====
-- No two processes have names at one hashed address: the invariant, and what keeps it.
use doze_names.Prelude.{
  ℕ, ◌≤◌, ◌<◌, Bool, [], ◌++◌, some, ◌≡◌, ◌≢◌, sym, ap, ◌∙◌, subst, arith, Bool-cases, inl, inr,
}
use doze_names.Text.{Bytes, eq_bytes}
use doze_names.Text.Laws.{eq_bytes_iff}
use doze_names.Table.{Table, lookup, insert, keep_if, delete, Distinct}
use doze_names.Table.Laws.{
  lookup-insert, lookup-delete, lookup-keep_if-some, insert-Distinct, delete-Distinct,
  keep_if-Distinct,
}
use doze_names.Net.{ip_text, octet_text}
use doze_names.Pool.{Network, address_at, dynamic_base}
use doze_names.Registry.{Entry, Content, holds, format_key}
use doze_names.Registry.Update.{prune}

-- A text of an address of the hashed part of the block.
pub record IsPoolText (net : Network) (t : Bytes) : Type 0 where
  pub off : ℕ
  pub hashed : dynamic_base ≤ off
  pub in_block : off < 32768
  pub text : t ≡ ip_text (address_at net off)

-- Two names at one hashed address belong to one process.
pub record Exclusive (net : Network) (m : Table Entry) : Type 0 where
  pub at :
      (h k : Bytes) (d e : Entry)
      → lookup h m ≡ some d
      → lookup k m ≡ some e
      → h ≢ k
      → d.ip ≡ e.ip
      → IsPoolText net d.ip
      → d.pid ≡ e.pid

-- The entry may stand under the name: the other names at its address belong to its process.
pub record Fits (net : Network) (m : Table Entry) (host : Bytes) (e : Entry) : Type 0 where
  pub at :
      (k : Bytes) (d : Entry)
      → lookup k m ≡ some d
      → host ≢ k
      → e.ip ≡ d.ip
      → IsPoolText net e.ip
      → e.pid ≡ d.pid

-- A map, and the file: no name stands twice, and no two processes share a hashed address.
pub record IsSound (net : Network) (m : Table Entry) : Type 0 where
  pub distinct : Distinct m
  pub exclusive : Exclusive net m

abbrev pub FileIsSound : Network → Content Entry → Type 0
FileIsSound net (holds m) = IsSound net m
FileIsSound net _ = Unit

octet_text-ne-nil : (n : ℕ) (rest : Bytes) → octet_text n ++ rest ≢ []
unfolding octet_text
octet_text-ne-nil n rest e = ground arith

pub not_blank : (net : Network) → ¬ IsPoolText net []
unfolding ip_text
not_blank net p = octet_text-ne-nil (address_at net p.off).a _ (sym p.text)

-- the four cases of two names in a map with one new entry
insert_cases :
    {net : Network} {m : Table Entry} (host : Bytes) (e : Entry) (h k : Bytes) (d d' : Entry)
    → Exclusive net m
    → Fits net m host e
    → lookup h (insert host e m) ≡ some d
    → lookup k (insert host e m) ≡ some d'
    → h ≢ k
    → d.ip ≡ d'.ip
    → IsPoolText net d.ip
    → d.pid ≡ d'.pid
insert_cases {net} {m} host e h k d d' x f p q ne same pool =
    let p' = sym (lookup-insert host h e m) ∙ p in
    let q' = sym (lookup-insert host k e m) ∙ q in
    elim (Bool-cases (eq_bytes host h)) [
      | inl eh ↦ elim (Bool-cases (eq_bytes host k)) [
        | inl ek ↦ absurd (ne (sym ((eq_bytes_iff host h).0 eh) ∙ (eq_bytes_iff host k).0 ek))
        | inr nk ↦
            let new : e ≡ d = ground arith in
            let old : lookup k m ≡ some d' = ground arith in
            ap (λ (r : Entry). r.pid) (sym new)
            ∙ f.at k d' old (λ z. cc (nk, (eq_bytes_iff host k).1 z))
                (ap (λ (r : Entry). r.ip) new ∙ same)
                (subst (λ (r : Entry). IsPoolText net r.ip) (sym new) pool)
      ]
      | inr nh ↦
          let old : lookup h m ≡ some d = ground arith in
          elim (Bool-cases (eq_bytes host k)) [
            | inl ek ↦
                let new : e ≡ d' = ground arith in
                sym (
                  f.at h d old (λ z. cc (nh, (eq_bytes_iff host h).1 z))
                    (ap (λ (r : Entry). r.ip) new ∙ sym same)
                    (subst (IsPoolText net) (same ∙ ap (λ (r : Entry). r.ip) (sym new)) pool))
                ∙ ap (λ (r : Entry). r.pid) new
            | inr nk ↦ x.at h k d d' old (ground arith) ne same pool
          ]
    ]

lookup-delete-some :
    (host h : Bytes) (m : Table Entry) {e : Entry}
    → lookup h (delete host m) ≡ some e
    → lookup h m ≡ some e
lookup-delete-some host h m p = ground (arith, lookup-delete host h m)

module _ {net : Network} {m : Table Entry} where
  insert-Exclusive :
      (host : Bytes) (e : Entry)
      → Exclusive net m
      → Fits net m host e
      → Exclusive net (insert host e m)
  insert-Exclusive host e x f = record {
    at = λ h k d d' p q ne same pool. insert_cases host e h k d d' x f p q ne same pool;
  }

  pub insert-IsSound :
      (host : Bytes) (e : Entry) → IsSound net m → Fits net m host e → IsSound net (insert host e m)
  insert-IsSound host e s f = record {
    distinct = insert-Distinct host e m s.distinct;
    exclusive = insert-Exclusive host e s.exclusive f;
  }

  -- an entry with no address fits everywhere
  pub Fits-blank : (host : Bytes) (e : Entry) → e.ip ≡ [] → Fits net m host e
  Fits-blank host e blank = record {
    at = λ k d p ne same pool. absurd (not_blank net (subst (IsPoolText net) blank pool));
  }

  -- and so does a changed entry with its old address and process
  pub Fits-changed :
      (host : Bytes) (old e : Entry)
      → Exclusive net m
      → lookup host m ≡ some old
      → e.ip ≡ old.ip
      → e.pid ≡ old.pid
      → Fits net m host e
  Fits-changed host old e x here ip pid = record {
    at = λ k d p ne same pool.
        pid ∙ x.at host k old d here p ne (sym ip ∙ same) (subst (IsPoolText net) ip pool);
  }

  -- what has no more than a sound map is exclusive
  part-Exclusive :
      (m' : Table Entry)
      → Exclusive net m
      → ((h : Bytes) (e : Entry) → lookup h m' ≡ some e → lookup h m ≡ some e)
      → Exclusive net m'
  part-Exclusive m' x part = record {
    at = λ h k d e p q ne same pool. x.at h k d e (part h d p) (part k e q) ne same pool;
  }

  pub delete-IsSound : (host : Bytes) → IsSound net m → IsSound net (delete host m)
  delete-IsSound host s = record {
    distinct = delete-Distinct host m s.distinct;
    exclusive = part-Exclusive (delete host m) s.exclusive (λ h e p. lookup-delete-some host h m p);
  }

  pub keep_if-IsSound : (test : Bytes → Entry → Bool) → IsSound net m → IsSound net (keep_if test m)
  keep_if-IsSound test s = record {
    distinct = keep_if-Distinct test m s.distinct;
    exclusive =
        part-Exclusive (keep_if test m) s.exclusive
          (λ h e p. (lookup-keep_if-some test h m s.distinct p).0);
  }

pub prune-IsSound :
    {net : Network} (alive : ℕ → Bool) (m : Table Entry)
    → IsSound net m
    → IsSound net (prune alive m)
unfolding prune
prune-IsSound alive m s = keep_if-IsSound (λ host e. alive e.pid) (delete-IsSound format_key s)

pub IsSound-nil : (net : Network) → IsSound net []
unfolding lookup
IsSound-nil net = record {
  distinct = tt;
  exclusive = record { at = λ h k d e p q ne same pool. cc };
}
