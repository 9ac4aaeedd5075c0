-- ===== src/Authority/Leaves.antt =====
-- What the authority serves.
use doze_names.Prelude.{
  ℕ, ◌+◌, ◌<◌, true, false, Option, none, some, ◌≡◌, ◌⊎◌, refl, arith, Bool-cases, Option-cases,
  inl, inr,
}
use doze_names.Text.{Bytes, eq_bytes}
use doze_names.Table.{lookup}
use doze_names.Table.Laws.{lookup-insert}
use doze_names.Authority.{leaf_renew_at, Folder, Ca, Template, Crypto, Disk}
use doze_names.Authority.Serving.{
  leaf_fresh, leaf_template, Served, file_name, remembered, fresh_leaf, stored_leaf, mint, leaf,
}

module _ (crypto : Crypto) where
  -- the leaves in memory are of the root
  abbrev pub IsOwn : Ca → Type 0
  IsOwn c =
      (domain crt : Bytes) → lookup domain c.leafs ≡ some crt → crypto.signed_by c.cert crt ≡ true

  -- a leaf that the root signed, and that lasts for seven days more
  abbrev pub IsGood : ℕ → Ca → Bytes → Type 0
  IsGood now c crt =
      (crypto.signed_by c.cert crt ≡ true) × (now + leaf_renew_at < crypto.expires crt)

  -- a good leaf, or none, where one could not be made
  abbrev pub IsGoodLeaf : Disk → ℕ → Bytes → Ca → Option Bytes → Type 0
  IsGoodLeaf disk now domain c (some crt) = IsGood now c crt
  IsGoodLeaf disk now domain c none =
      (disk.certs_dir ≡ false) ⊎ (crypto.sign c.cert c.key (leaf_template now domain) ≡ none)

  -- how `leaf` ends
  abbrev pub IsServed : Disk → ℕ → Bytes → Ca → Served → Type 0
  IsServed disk now domain c s =
      (s.ca.cert ≡ c.cert) × IsOwn s.ca × IsGoodLeaf disk now domain c s.leaf

  remembered-IsOwn :
      (domain crt : Bytes) (c : Ca)
      → crypto.signed_by c.cert crt ≡ true
      → IsOwn c
      → IsOwn (remembered domain crt c)
  unfolding remembered
  remembered-IsOwn domain crt c signed own d l found = elim (Bool-cases (eq_bytes domain d)) [
    | inl same ↦
        let this : some crt ≡ some l = rw (lookup-insert domain d crt c.leafs, same) at found in
        let is_crt : crt ≡ l = cc in rw (← is_crt) signed
    | inr other ↦ own d l (rw (lookup-insert domain d crt c.leafs, other) at found)
  ]

  fresh_leaf-some :
      (now : ℕ) (o : Option Bytes) (crt : Bytes)
      → fresh_leaf crypto now o ≡ some crt
      → (o ≡ some crt) × (now + leaf_renew_at < crypto.expires crt)
  unfolding fresh_leaf leaf_fresh
  fresh_leaf-some now none crt h = cc
  fresh_leaf-some now (some c) crt h = ground (arith)

  stored_leaf-some :
      (now : ℕ) (root : Bytes) (o : Option Bytes) (crt : Bytes)
      → stored_leaf crypto now root o ≡ some crt
      → (crypto.signed_by root crt ≡ true) × (now + leaf_renew_at < crypto.expires crt)
  unfolding stored_leaf leaf_fresh
  stored_leaf-some now root none crt h = cc
  stored_leaf-some now root (some c) crt h = ground (arith)

  module _ (c : Ca)
      (signs : (t : Template) (crt : Bytes)
        → crypto.sign c.cert c.key t ≡ some crt
        → (crypto.signed_by c.cert crt ≡ true) × (crypto.expires crt ≡ t.not_after)) where
    mint-IsServed :
        (disk : Disk) (now : ℕ) (domain : Bytes) (f : Folder)
        → IsOwn c
        → IsServed disk now domain c (mint crypto disk now domain c f)
    unfolding mint leaf_template remembered
    mint-IsServed disk now domain f own = elim (Bool-cases disk.certs_dir) [
      | inr shut ↦ rw (shut, mint) (refl, own, inl refl)
      | inl open_dir ↦ elim (Option-cases (crypto.sign c.cert c.key (leaf_template now domain))) [
        | inl unsigned ↦ rw (open_dir, unsigned, mint) (refl, own, inr unsigned)
        | inr (made, e) ↦
            let (signed, ends) = signs _ made e in
            rw (open_dir, e, mint)
              (refl, remembered-IsOwn domain made c signed own, (signed, rw (ends) (omega arith)))
      ]
    ]

    -- Whatever is in memory, in the folder and on the clock, a leaf that is served was signed by the root
    -- that the authority has now and lasts for more than seven days; and what is in memory stays leaves
    -- of that root. None is served only where one must be made and cannot be. It was so before, and a
    -- leaf that is signed anew has the root's signature and the end that was asked for.
    pub leaf-IsServed :
        (disk : Disk) (now : ℕ) (domain : Bytes) (f : Folder)
        → IsOwn c
        → IsServed disk now domain c (leaf crypto disk now domain c f)
    unfolding leaf remembered
    leaf-IsServed disk now domain f own =
        elim (Option-cases (fresh_leaf crypto now (lookup domain c.leafs))) [
          | inr (crt, e) ↦
              let (found, fresh) = fresh_leaf-some now (lookup domain c.leafs) crt e in
              rw (e, leaf) (refl, own, (own domain crt found, fresh))
          | inl stale ↦
              elim (Option-cases
                (stored_leaf crypto now c.cert (lookup (file_name domain) f.certs))) [
                  | inr (crt, e) ↦
                      let (signed, fresh) = stored_leaf-some now c.cert _ crt e in
                      rw (stale, e, leaf)
                        (refl, remembered-IsOwn domain crt c signed own, (signed, fresh))
                  | inl none_stored ↦
                      rw (stale, none_stored, leaf) (mint-IsServed disk now domain f own)
                ]
        ]
