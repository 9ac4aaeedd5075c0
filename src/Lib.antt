-- ===== src/Lib.antt =====
-- doze-names: `.doze`, the naming zone that the doze programs of one machine share. Each program
-- writes its names into one registry file, and whichever holds the resolver's socket answers for
-- all of them. This library models the package of the repository's root.
--
-- Prelude holds what the other files share; Text, Table, Net and Decimal are the parts of Go's
-- standard library that the package uses (strings as lists of bytes, `map[string]V` as an
-- association list, IPv4 addresses and their text, decimal numbers). What Go does to text that is
-- not ASCII is the parameter `Unicode`.
--
-- Names is names.go (`label`, `Apex`, `Qualified`, `InZone`) and `normalize` of registry.go. Pool
-- is pool.go: the block of 32512 slots, FNV-1a, and `addressFor`; its probe takes one round for
-- each slot, as the source's loop does, and the machine's network (loopback, or the translated
-- block of a Mac) is an argument.
--
-- Registry is registry.go with the entries that ingress.go and domains.go keep in the same file.
-- An operation of the source is a function that it hands to `update`, which runs it under the
-- file's lock; the model has that function as an `Edit` of the map (Registry.Claims,
-- Registry.Doors, Registry.Stacks) and `update` itself in Registry.Update, with the ways in which
-- the file can fail to be a map and an argument, `Io`, that says which system calls succeed.
-- Which processes live is the argument `alive`, the same during one run. Registry.Lookups is
-- `lookup`, `Resolve` and `lookupDomain`; the two loops take fuel, and the length of the host is
-- enough.
--
-- Ports is `setPort` of listen.go with what heal.go keeps of it (Ports, Ports.Store), the ports
-- file of portsfile.go (Ports.Files), how a service listens (Ports.Listen), and the port table
-- (Ports.Daemon), both of listen.go; Ports.Leases is `claim` and `Release` of registry.go in
-- full. Sharing makes each operation one step of one process and follows the file through any
-- sequence of steps by any processes.
--
-- Wire is the walks over a DNS message (`parseName`, `parseQuestion` of resolver.go, `skipName`,
-- `capTTL` of upstream.go), as a step that a loop repeats on fuel: nine times the message's
-- length and nine more for `parseName`, since it follows eight pointers at most. Answer is
-- `answer` and `serveConn` of resolver.go and `forward` of upstream.go; the registry's lookup and
-- the upstream servers are arguments, and Answer.Upstream is how upstream.go finds those servers
-- in the texts of the system.
--
-- Packet is nat.go: `translate` on the bytes of a packet, with `refuse` and the checksums. The
-- registered ports are an argument, which Ports.Daemon fills.
--
-- Setup is the texts of setup.go: the managed block of the hosts file, and shell quoting;
-- Setup.Status is what Check reports and how a script is run, Setup.Manager resolvconf.go,
-- Setup.Person and Setup.Linux.Daemon netd.go, netd_linux.go and helper.go, Setup.Darwin and
-- Setup.Darwin.Daemon setup_darwin.go and netd_darwin.go, and Names.Settings what names.go and
-- ingress.go read from the environment. Setup.Linux is check and the units of setup_linux.go,
-- over a record `Machine` of the files that can be read and of what the programs say;
-- Setup.Linux.Scripts is install and uninstall, each as the list of its script's lines, with the
-- text of a line and with what a line that succeeds leaves of the files. What the shell's printf
-- writes for a format, and filepath.Join, are arguments.
--
-- Strings is lists of texts, and the sort of domains.go. Domains is the rest of domains.go but
-- for the check of a certificate; Routing is routes.go, with the abstract relation that its file
-- stands for in Routing.Refines. Whether a route is installed, and whether a folder has a
-- doze.hcl, are arguments.
--
-- PortCache is tablecache.go: the stamp of the registry and the ports file, and the refresh of
-- the table.
--
-- FrontDoor is the handlers and URLs of ingress.go with `getCertificate` of ca.go; each read of
-- the registry is a snapshot of its own. TakeOver is its `holdPort`: the processes and the port
-- as a world, the passes through the loop as the steps of a relation, in which a write to the
-- registry may fail. Resolver is the same for `serveWith` of resolver.go, over the same world,
-- with a connection that is closed only when its context ends.
--
-- Authority is ca.go: the folder's files, what a process holds, and what a rotation leaves of
-- both. What crypto/x509 and crypto/tls do is the record `Crypto`; what is generated, the time
-- and the calls that succeed are arguments. Opening and making are in Authority, the rotations in
-- Authority.Replace, the leaves and a server's copy of the authority in Authority.Serving, the
-- bundle of roots in Authority.Bundle, over the record `Pem` of encoding/pem, each loop on as
-- much fuel as the text has bytes and one more. Trust is the plans of trust.go over the record
-- `Platform` and Trust.Runs their runs, with the scripts for routes of trust_linux.go and
-- trust_darwin.go in Trust.Scripts. Trust.Status is TrustStatus. Trust.Linux and Trust.Darwin
-- fill `Platform` from what the machine's files and commands say.
--
-- Not modelled: sockets, timers and the file system below the flags of a call; the HTTP server,
-- the proxy and TLS, which are the standard library; the commands that the scripts run, the
-- system calls of a Mac's daemon, the setup of Windows, and the command.
pub mod Prelude
pub mod Text
pub mod Table
pub mod Strings
pub mod Names
pub mod Net
pub mod Pool
pub mod Decimal
pub mod Registry
pub mod Ports
pub mod Sharing
pub mod Wire
pub mod Answer
pub mod Packet
pub mod Setup
pub mod Domains
pub mod Routing
pub mod FrontDoor
pub mod Authority
pub mod Trust
pub mod TakeOver
pub mod Resolver
pub mod PortCache
mod Tests
