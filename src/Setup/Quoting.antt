-- ===== src/Setup/Quoting.antt =====
-- What a shell reads from a quoted text.
use doze_names.Prelude.{
  ℕ, [], ◌∷◌, ◌++◌, Option, none, some, ◌≡◌, refl, ap, ◌∙◌, arith, ◌==◌, if◌then◌else◌, Bool-cases,
  inl, inr,
}
use doze_names.Text.{Bytes}
use doze_names.Setup.{escape_quotes, shell_quote}

-- where a POSIX shell stands in a word: outside quotes, between single quotes, behind a backslash
pub data Mode : Type 0 where
  plain quoted escaped : Mode

-- `c` in front of what the rest of the word reads as
unfoldable pub read_cons : ℕ → Option Bytes → Option Bytes
read_cons c none = none
read_cons c (some s) = some (c ∷ s)

-- The word that a shell reads, for words of single quotes and escaped characters alone; `none` for
-- any other word, and for one that does not end.
unfoldable pub read_word : Mode → Bytes → Option Bytes
read_word plain [] = some []
read_word quoted [] = none
read_word escaped [] = none
read_word plain (c ∷ s) =
    let inside = read_word quoted s in
    let behind = read_word escaped s in
    if c == b'\'' then inside else if c == 92 then behind else none
read_word quoted (c ∷ s) =
    let outside = read_word plain s in
    let rest = read_word quoted s in if c == b'\'' then outside else read_cons c rest
read_word escaped (c ∷ s) = read_cons c (read_word plain s)

read_word-escape_quotes : (s : Bytes) → read_word quoted (escape_quotes s ++ (b'\'' ∷ [])) ≡ some s
unfolding read_word escape_quotes read_cons
read_word-escape_quotes [] = refl
read_word-escape_quotes (c ∷ s) = elim (Bool-cases (c == b'\'')) [
  | inl quote ↦
      let same : 39 ≡ c = ground arith in
      rw (quote, escape_quotes)
        (ap (read_cons 39) (read_word-escape_quotes s) ∙ ap (λ x. some (x ∷ s)) same)
  | inr other ↦ rw (other, escape_quotes, other) (ap (read_cons c) (read_word-escape_quotes s))
]

-- A shell reads a quoted text as the text, whatever its bytes.
pub read_word-shell_quote : (s : Bytes) → read_word plain (shell_quote s) ≡ some s
unfolding read_word shell_quote
read_word-shell_quote s = read_word-escape_quotes s
