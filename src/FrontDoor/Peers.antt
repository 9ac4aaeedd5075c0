-- ===== src/FrontDoor/Peers.antt =====
-- Who is answered: this machine alone.
use doze_names.Prelude.{
  Bool, true, false, not, ◌||◌, [], some, ◌==◌, ◌≡◌, ◌≢◌, refl, arith, Bool-cases, Option-cases,
  inl, inr,
}
use doze_names.Text.{Bytes, Unicode, contains_byte}
use doze_names.Net.{Ip, parse_ip}
use doze_names.Domains.{host_only}
use doze_names.Text.Laws.{eq_bytes_ne}
use doze_names.Table.{Table}
use doze_names.Pool.{Network, offset}
use doze_names.Registry.{Entry}
use doze_names.FrontDoor.{
  Request, forbidden, stranger, is_some, on_this_machine, from_this_machine, proxy,
  with_https_redirect, plain_door, refuses_peer, get_certificate,
}

module _ ⦃u : Unicode⦄ (net : Network) (colons : Bytes → Bool) where
  -- who is another machine, by the text of its address
  stranger_away :
      (remote : Bytes)
      → (contains_byte b':' (host_only remote) ≡ true → colons (host_only remote) ≡ false)
      → ((ip : Ip)
          → contains_byte b':' (host_only remote) ≡ false
          → parse_ip (host_only remote) ≡ some ip
          → ((ip.a == 127) ≡ false) × ((not net.virtual || not (is_some (offset net ip))) ≡ true))
      → from_this_machine net colons remote ≡ false
  unfolding from_this_machine on_this_machine
  stranger_away remote six four = elim (Bool-cases (contains_byte b':' (host_only remote))) [
    | inl colon ↦ rw (colon, from_this_machine) (six colon)
    | inr dots ↦ elim (Option-cases (parse_ip (host_only remote))) [
      | inl unread ↦ rw (dots, unread, from_this_machine) refl
      | inr (ip, read) ↦
          let (far, out) = four ip dots read in
          rw (dots, read, from_this_machine, on_this_machine) (ground (arith, far, out))
    ]
  ]

  -- A peer that is not this machine learns nothing. Such is one whose address, less its port, is a text
  -- with a colon that is no address of this machine; one whose address is a text without a colon that
  -- does not read as an address; and one that reads as an address that does not start with 127 and,
  -- where addresses are translated, is not in the block. Whatever the registry holds, now and at each
  -- later read, the plain port and the encrypted one answer it with the same refusal, and its handshake
  -- for any name gets the same error.
  pub strangers_refused :
      (r : Request) (name : Bytes)
      → (contains_byte b':' (host_only r.peer) ≡ true → colons (host_only r.peer) ≡ false)
      → ((ip : Ip)
          → contains_byte b':' (host_only r.peer) ≡ false
          → parse_ip (host_only r.peer) ≡ some ip
          → ((ip.a == 127) ≡ false) × ((not net.virtual || not (is_some (offset net ip))) ≡ true))
      → name ≢ []
      → (first checked then_read : Table Entry) (authority : Bool)
      → (plain_door net colons first checked then_read r ≡ forbidden)
        × (proxy net colons checked then_read r ≡ forbidden)
        × (get_certificate net colons first authority (some r.peer) name ≡ stranger)
  unfolding plain_door with_https_redirect proxy get_certificate refuses_peer
  strangers_refused r name six four named first checked then_read authority =
      let away = stranger_away r.peer six four in
      (rw (away) refl, rw (away) refl, rw (away, eq_bytes_ne name [] named) refl)
