-- ===== src/Trust/Routed.antt =====
-- What the routes script sets on Linux is what `domainRouted` finds.
use doze_names.Prelude.{
  ℕ, Bool, true, false, not, ◌&&◌, ◌||◌, List, [], ◌∷◌, ◌++◌, some, ◌==◌, ◌≡◌, refl, ap, sym, ◌∙◌,
  arith, map, append_assoc, append-nil,
}
use doze_names.Text.{Bytes, eq_bytes, join, cut, contains_byte}
use doze_names.Text.Space.{is_space, fields, fields_from, end_field}
use doze_names.Names.{suffix}
use doze_names.Strings.{member}
use doze_names.Setup.Manager.{mgr_resolved}
use doze_names.Setup.Linux.Unit.{no_space}
use doze_names.Trust.Scripts.{link_tokens}
use doze_names.Trust.Linux.{link_domains, is_routed, System, platform_of}

-- texts without white space, none of them empty
unfoldable pub are_words : List Bytes → Bool
are_words [] = true
are_words (w ∷ ws) = no_space w && not (eq_bytes w []) && are_words ws

fields_from_space :
    (w t s : Bytes) (c : ℕ)
    → no_space t ≡ true
    → is_space c ≡ true
    → fields_from w (t ++ (c ∷ s)) ≡ end_field (w ++ t) (fields_from [] s)
unfolding fields_from no_space
fields_from_space w [] s c h sp = rw (sp, append-nil w) refl
fields_from_space w (d ∷ t) s c h sp =
    let stays : is_space d ≡ false = ground (arith, h) in
    let more = fields_from_space (w ++ (d ∷ [])) t s c (ground (arith, h)) sp in
    rw (stays, fields_from, more, append_assoc w (d ∷ []) t) refl

end_field-word : (w : Bytes) (ws : List Bytes) → eq_bytes w [] ≡ false → end_field w ws ≡ w ∷ ws
unfolding end_field eq_bytes
end_field-word [] ws h = ground (arith, h)
end_field-word (c ∷ w) ws h = refl

space_10 : is_space 10 ≡ true
unfolding is_space
space_10 = refl

space_32 : is_space 32 ≡ true
unfolding is_space
space_32 = refl

rest_empty : (w : Bytes) → w ∷ fields_from [] [] ≡ w ∷ []
unfolding fields_from end_field
rest_empty w = refl

-- words that are joined by spaces and end a line are the fields of that line
fields-join :
    (w : Bytes) (ws : List Bytes)
    → are_words (w ∷ ws) ≡ true
    → fields_from [] (join 32 (w ∷ ws) ++ (10 ∷ [])) ≡ w ∷ ws
unfolding join are_words
fields-join w [] h =
    fields_from_space [] w [] 10 (ground (arith, h)) space_10
    ∙ end_field-word w _ (ground (arith, h))
    ∙ rest_empty w
fields-join w (v ∷ ws) h =
    ap (fields_from []) (append_assoc w (32 ∷ join 32 (v ∷ ws)) (10 ∷ []))
    ∙ fields_from_space [] w (join 32 (v ∷ ws) ++ (10 ∷ [])) 32 (ground (arith, h)) space_32
    ∙ end_field-word w _ (ground (arith, h))
    ∙ ap (◌∷◌ w) (fields-join v ws (ground (arith, h)))

cut-before : (b : ℕ) (p s : Bytes) → contains_byte b p ≡ false → cut b (p ++ (b ∷ s)) ≡ some (p, s)
unfolding cut contains_byte
cut-before b [] s h = ground arith
cut-before b (c ∷ p) s h =
    let rest = cut-before b p s (ground (arith, h)) in
    let other : (c == b) ≡ false = ground (arith, h) in rw (other, cut, rest) refl

eq_bytes-tilde : (s t : Bytes) → eq_bytes (b'~' ∷ s) (b'~' ∷ t) ≡ eq_bytes s t
unfolding eq_bytes
eq_bytes-tilde s t = refl

member-map_tilde :
    (d : Bytes) (ds : List Bytes) → member (b'~' ∷ d) (map (λ t. b'~' ∷ t) ds) ≡ member d ds
unfolding member eq_bytes
member-map_tilde d [] = refl
member-map_tilde d (e ∷ ds) = ground (arith, member-map_tilde d ds)

are_words-tokens :
    (keep : List Bytes) → are_words keep ≡ true → are_words (map (λ t. b'~' ∷ t) keep) ≡ true
unfolding are_words no_space is_space eq_bytes
are_words-tokens [] h = refl
are_words-tokens (d ∷ keep) h = ground (arith, are_words-tokens keep, h)

link_tokens-words :
    (keep : List Bytes) → are_words keep ≡ true → are_words (link_tokens keep) ≡ true
unfolding link_tokens are_words no_space is_space eq_bytes
link_tokens-words keep h = are_words-tokens keep h

member-link_tokens :
    (d : Bytes) (keep : List Bytes)
    → member (b'~' ∷ d) (link_tokens keep) ≡ (eq_bytes suffix d || member d keep)
unfolding link_tokens member
member-link_tokens d keep = ground (arith, member-map_tilde d keep, eq_bytes-tilde suffix d)

after_space :
    (keep : List Bytes)
    → are_words keep ≡ true
    → fields (32 ∷ (join 32 (link_tokens keep) ++ (10 ∷ []))) ≡ link_tokens keep
unfolding fields fields_from is_space end_field link_tokens
after_space keep words =
    fields-join (b'~' ∷ suffix) (map (λ d. b'~' ∷ d) keep) (link_tokens-words keep words)

link_domains-tokens :
    (link : Bytes) (keep : List Bytes)
    → contains_byte b':' link ≡ false
    → are_words keep ≡ true
    → link_domains (some (link ++ (b':' ∷ 32 ∷ (join 32 (link_tokens keep) ++ (10 ∷ [])))))
      ≡ link_tokens keep
unfolding link_domains fields
link_domains-tokens link keep h words =
    rw (cut-before b':' link (32 ∷ (join 32 (link_tokens keep) ++ (10 ∷ []))) h, link_domains)
      (after_space keep words)

-- On a Linux machine that systemd-resolved serves, where resolvectl reports for doze's link the very list
-- that the routes script sets for some domains, behind a colon and a space and at the end of a line, a
-- domain is found to be routed exactly if it is one of them, or the zone. No domain is empty or has
-- white space.
pub is_routed-link_tokens :
    (s : System) (link : Bytes) (keep : List Bytes) (d : Bytes)
    → s.manager ≡ mgr_resolved
    → s.link ≡ some (link ++ (b':' ∷ 32 ∷ (join 32 (link_tokens keep) ++ (10 ∷ []))))
    → contains_byte b':' link ≡ false
    → are_words keep ≡ true
    → (platform_of s).routed d ≡ (eq_bytes suffix d || member d keep)
unfolding platform_of is_routed
is_routed-link_tokens s link keep d managed printed lacks words =
    rw (managed, printed, link_domains-tokens link keep lacks words)
      (rw (sym (member-link_tokens d keep)) (ground arith))
