-- ===== src/Authority/Replace.antt =====
-- ca.go: replacing the root, and the roots that were replaced and may still be trusted.
use doze_names.Prelude.{
  ℕ, Bool, true, false, not, ◌&&◌, List, [], ◌∷◌, ◌++◌, Option, none, some, ltb, if◌then◌else◌,
  length, take,
}
use doze_names.Text.{Bytes, Unicode}
use doze_names.Strings.{member}
use doze_names.Authority.{
  File, bytes, Folder, Ca, Crypto, Disk, Result, read_previous, create, opened, open_ca,
}

-- `appendUnique`
unfoldable pub append_unique : List Bytes → Bytes → List Bytes
append_unique fps fp = if member fp fps then fps else fps ++ (fp ∷ [])

unfoldable pub append_all : List Bytes → List Bytes → List Bytes
append_all fps [] = fps
append_all fps (fp ∷ more) = append_all (append_unique fps fp) more

-- `shortFP`
unfoldable pub short_fp : Bytes → Bytes
short_fp fp = if ltb 12 (length fp) then take 12 fp else fp

-- `keepPrevious`
unfoldable pub keep_previous : Disk → Bytes → Folder → Folder
keep_previous disk fp f = if disk.keep_root then record f { kept = append_unique f.kept fp } else f

-- `writePrevious`
unfoldable pub write_previous : Disk → List Bytes → Ca → Folder → Result
write_previous disk fps c f =
    if disk.write_previous
    then record { well = true; ca = c; folder = record f { previous = fps } }
    else record { well = false; ca = c; folder = f }

-- the rotated-out roots that the machine still trusts
unfoldable pub still_trusted : (Bytes → Bool) → List Bytes → List Bytes
still_trusted trusted [] = []
still_trusted trusted (fp ∷ fps) =
    let rest = still_trusted trusted fps in if trusted fp then fp ∷ rest else rest

-- the loop's removals: of the files whose roots are listed and not trusted
unfoldable pub drop_untrusted :
    (Bytes → Bool) → (Bytes → Bool) → List Bytes → List Bytes → List Bytes
drop_untrusted trusted removable previous [] = []
drop_untrusted trusted removable previous (fp ∷ fps) =
    let rest = drop_untrusted trusted removable previous fps in
    if member fp previous && not (trusted fp) && removable fp then rest else fp ∷ rest

-- `forgetUntrustedPrevious`; `removable` is of the files under previous/
unfoldable pub forget_untrusted : Disk → (Bytes → Bool) → (Bytes → Bool) → Ca → Folder → Result
forget_untrusted disk removable trusted c f =
    let keep = still_trusted trusted c.previous in
    write_previous disk keep (record c { previous = keep })
      (record f { kept = drop_untrusted trusted removable c.previous f.kept })

module _ (crypto : Crypto) where
  -- `Rotate`
  unfoldable pub rotate : Disk → Option (Bytes × Bytes) → Ca → Folder → Result
  rotate disk fresh c f =
      let old = crypto.fingerprint c.cert in
      let made = create crypto disk fresh (record c { leafs = [] }) (keep_previous disk old f) in
      if not made.well
      then made
      else let previous = append_unique c.previous old in
        write_previous disk previous (record made.ca { previous = previous }) made.folder

module _ ⦃u : Unicode⦄ (crypto : Crypto) where
  -- the old root's file, where it can still be read
  unfoldable pub old_root : File → Option Bytes
  old_root (bytes pem) = crypto.read_cert pem
  old_root _ = none

  -- what `RotateCA` files and lists of the old root
  unfoldable pub retire : Disk → Option Bytes → List Bytes → Folder → List Bytes × Folder
  retire disk none previous f = (previous, f)
  retire disk (some old) previous f =
      let fp = crypto.fingerprint old in (append_unique previous fp, keep_previous disk fp f)

  -- `RotateCA`, of an authority that does not open; `trusted` are the doze roots that the machine
  -- trusts
  unfoldable pub replace_broken :
      Disk → Option (Bytes × Bytes) → List Bytes → Folder → Option (Ca × Bool) × Folder
  replace_broken disk fresh trusted f =
      let (listed, kept) = retire disk (old_root f.root) (read_previous f.previous) f in
      let previous = append_all listed trusted in
      let made =
        create crypto disk fresh (record { cert = []; key = []; leafs = []; previous = previous })
          kept in
      if not disk.mkdir
      then (none, kept)
      else if not made.well
      then (none, made.folder)
      else let end = write_previous disk previous made.ca made.folder in
        (some (end.ca, end.well), end.folder)

  -- `RotateCA`: the authority, if there is one, and whether no error is reported
  unfoldable pub rotate_ca :
      Disk → ℕ → Option (Bytes × Bytes) → List Bytes → Folder → Option (Ca × Bool) × Folder
  rotate_ca disk now fresh trusted f = elim (open_ca crypto now f) [
    | opened c ↦ let end = rotate crypto disk fresh c f in (some (end.ca, end.well), end.folder)
    | _ ↦ replace_broken disk fresh trusted f
  ]
