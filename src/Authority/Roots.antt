-- ===== src/Authority/Roots.antt =====
-- What stands in a bundle of roots.
use doze_names.Prelude.{
  ℕ, zero, suc, ◌<◌, ◌≤◌, List, [], ◌∷◌, ◌++◌, none, some, ◌≡◌, refl, sym, ◌∙◌, subst, arith,
  if◌then◌else◌, length, append_assoc, Bool-cases, inl, inr,
}
use doze_names.Text.{Bytes}
use doze_names.Authority.Bundle.{
  Block, Pem, is_doze_root, without_roots, without_doze_roots, bundle_text,
}

-- the blocks of a text, one after the other
pub data Blocks (pem : Pem) : Bytes → List Block → Type 0 where
  ended : {s : Bytes} → pem.decode s ≡ none → Blocks pem s []
  block :
      {s : Bytes} (b : Block) (rest : Bytes) (bs : List Block)
      → pem.decode s ≡ some (b, rest)
      → Blocks pem rest bs
      → Blocks pem s (b ∷ bs)

-- the blocks that are no doze root
unfoldable pub others : Pem → List Block → List Block
others pem [] = []
others pem (b ∷ bs) = if is_doze_root pem b then others pem bs else b ∷ others pem bs

unfoldable pub encoded : Pem → List Block → Bytes
encoded pem [] = []
encoded pem (b ∷ bs) = pem.encode b ++ encoded pem bs

module _ (pem : Pem) where
  without_roots-Blocks :
      (fuel : ℕ) (s : Bytes) (bs : List Block)
      → Blocks pem s bs
      → length bs < fuel
      → without_roots pem fuel s ≡ encoded pem (others pem bs)
  unfolding without_roots encoded others
  without_roots-Blocks zero s bs blocks h = absurd (omega (arith, h))
  without_roots-Blocks (suc fuel) s _ (ended e) h = rw (e, without_roots) refl
  without_roots-Blocks (suc fuel) s _ (block b rest bs e blocks) h =
      let later = without_roots-Blocks fuel rest bs blocks (omega (arith, h)) in
      elim (Bool-cases (is_doze_root pem b)) [
        | inl doze ↦ rw (e, without_roots, later, doze) refl
        | inr other ↦ rw (e, without_roots, later, other) refl
      ]

module _ (pem : Pem)
    (decode_shrinks : (s : Bytes) (b : Block) (rest : Bytes)
      → pem.decode s ≡ some (b, rest)
      → length rest < length s) where
  Blocks-short : (s : Bytes) (bs : List Block) → Blocks pem s bs → length bs ≤ length s
  Blocks-short s _ (ended e) = omega arith
  Blocks-short s _ (block b rest bs e blocks) =
      omega (arith, Blocks-short rest bs blocks, decode_shrinks s b rest e)

  without_doze_roots-others :
      (s : Bytes) (bs : List Block)
      → Blocks pem s bs
      → without_doze_roots pem s ≡ encoded pem (others pem bs)
  unfolding without_doze_roots
  without_doze_roots-others s bs blocks =
      without_roots-Blocks pem (suc (length s)) s bs blocks
        (omega (arith, Blocks-short s bs blocks))

  module _
      (decode-encode : (s : Bytes) (b : Block) (rest more : Bytes)
        → pem.decode s ≡ some (b, rest)
        → pem.decode (pem.encode b ++ more) ≡ some (b, more))
      (decode_line : (s : Bytes) → pem.decode (10 ∷ s) ≡ pem.decode s) where
    Blocks-line : (s : Bytes) (bs : List Block) → Blocks pem s bs → Blocks pem (10 ∷ s) bs
    Blocks-line s _ (ended e) = ended (decode_line s ∙ e)
    Blocks-line s _ (block b rest bs e blocks) = block b rest bs (decode_line s ∙ e) blocks

    Blocks-encoded :
        (s more : Bytes) (bs cs : List Block)
        → Blocks pem s bs
        → Blocks pem more cs
        → Blocks pem (encoded pem (others pem bs) ++ more) (others pem bs ++ cs)
    unfolding encoded others
    Blocks-encoded s more _ cs (ended e) tail = tail
    Blocks-encoded s more _ cs (block b rest bs e blocks) tail =
        let later = Blocks-encoded rest more bs cs blocks tail in
        elim (Bool-cases (is_doze_root pem b)) [
          | inl doze ↦ rw doze later
          | inr other ↦ rw other (
              block b (encoded pem (others pem bs) ++ more) (others pem bs ++ cs)
                (subst (λ t. pem.decode t ≡ some (b, encoded pem (others pem bs) ++ more))
                  (sym (append_assoc (pem.encode b) (encoded pem (others pem bs)) more))
                  (decode-encode s b rest (encoded pem (others pem bs) ++ more) e))
                later)
        ]

    -- The bundle carries the machine's roots and those of an inherited file, without any doze root
    -- among them, and then the current root's own file, block for block and in this order. Decoding
    -- takes something off a text, reads a block that was decoded back from its encoding, and passes
    -- over a newline in front.
    pub bundle_text-Blocks :
        (system extra root : Bytes) (bs es rs : List Block)
        → Blocks pem system bs
        → Blocks pem extra es
        → Blocks pem root rs
        → Blocks pem
            (bundle_text pem system (some extra) root)
            (others pem bs ++ (others pem es ++ rs))
          × Blocks pem (bundle_text pem system none root) (others pem bs ++ rs)
    unfolding bundle_text
    bundle_text-Blocks system extra root bs es rs sys ext own =
        let last = Blocks-line root rs own in
        rw (without_doze_roots-others system bs sys, without_doze_roots-others extra es ext)
          (
            Blocks-encoded system _ bs _ sys
                (Blocks-line _ _ (Blocks-encoded extra _ es _ ext last)),
            Blocks-encoded system _ bs _ sys last,
          )
