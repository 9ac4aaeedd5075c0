-- ===== src/Registry/Stacks/Names.antt =====
-- Who may have a stack's name, and what its bookkeeping entry looks like to the resolver.
use doze_names.Prelude.{
  true, ◌∷◌, ◌++◌, some, ◌≡◌, ◌≢◌, refl, sym, ◌∙◌, arith, Option-cases, inl, inr,
}
use doze_names.Text.{Bytes, Unicode, codes}
use doze_names.Text.Laws.{eq_bytes_refl, eq_bytes_iff}
use doze_names.Table.{Table, lookup, insert}
use doze_names.Table.Laws.{lookup-insert}
use doze_names.Names.{suffix, label, in_zone, normalize}
use doze_names.Names.Labels.{in_zone-append, normalize-append}
use doze_names.Registry.{Entry, blank_entry, stack_taken, Process, refuse, accept}
use doze_names.Registry.Lookups.{find_owner}
use doze_names.Registry.Lookups.Walk.{find_owner_exact}
use doze_names.Registry.Stacks.{stack_prefix, other_project, stack_key, claim_stack_edit}

module _ ⦃u : Unicode⦄ (self : Process) (name dir : Bytes) (m : Table Entry) where
  -- what a granted claim leaves under the stack's key
  claimed_entry :
      {m' : Table Entry}
      → claim_stack_edit self name dir m ≡ accept tt m'
      → (e : Entry) × (lookup (stack_key name) m' ≡ some e) × (e.pid ≡ self.pid) × (e.target ≡ dir)
  unfolding claim_stack_edit
  claimed_entry {m'} p = elim (Option-cases (other_project self dir (lookup (stack_key name) m))) [
    | inr (cur, taken) ↦ absurd (cc (p, taken))
    | inl free ↦
        let e = record blank_entry { pid = self.pid; owner = self.owner; target = dir } in
        let written : insert (stack_key name) e m ≡ m' = ground (arith, free) in
        (
          e,
          rw
              (
                ← written,
                lookup-insert (stack_key name) (stack_key name) e m,
                eq_bytes_refl (stack_key name),
              )
              refl,
          refl,
          refl,
        )
  ]

  -- Once a stack's name is claimed, a claim by another process for another project, under any name
  -- with the same label, is refused and told which project has it.
  pub claim_stack_first_come :
      (other : Process) (name' dir' : Bytes) {m' : Table Entry}
      → claim_stack_edit self name dir m ≡ accept tt m'
      → label name' ≡ label name
      → other.pid ≢ self.pid
      → dir' ≢ dir
      → claim_stack_edit other name' dir' m' ≡ refuse (stack_taken name' dir self.pid)
  unfolding claim_stack_edit other_project stack_key
  claim_stack_first_come other name' dir' {m'} p same ne away =
      let (e, stands, pid, target) = claimed_entry p in
      let found : lookup (stack_prefix ++ label name') m' ≡ some e = rw same stands in
      ground (arith, found, pid, target, eq_bytes_iff e.target dir')

  -- A stack whose name has the label `doze` is recorded under a key that is itself a name of the
  -- zone, and the resolver's lookup of that key finds the bookkeeping entry, whose target is the
  -- project's folder.
  pub claim_stack_in_zone :
      {m' : Table Entry}
      → label name ≡ suffix
      → claim_stack_edit self name dir m ≡ accept tt m'
      → (e : Entry) × (in_zone (stack_key name) ≡ true)
        × (find_owner m' (stack_key name) ≡ some e)
        × (e.target ≡ dir)
  claim_stack_in_zone {m'} doze p =
      let (e, stands, pid, target) = claimed_entry p in
      let key : stack_key name ≡ codes "_stack" ++ (b'.' ∷ suffix) =
        (unfold stack_key in rw doze refl) in
      let zone : in_zone (stack_key name) ≡ true =
        rw key (in_zone-append (codes "_stack") (omega arith)) in
      let plain : normalize (stack_key name) ≡ stack_key name =
        rw key (normalize-append (codes "_stack") (omega arith)) in
      (
        e,
        zone,
        find_owner_exact m' (stack_key name) zone (λ z. cc (sym plain ∙ z, key)) (rw plain stands),
        target,
      )
