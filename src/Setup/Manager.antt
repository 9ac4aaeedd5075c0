-- ===== src/Setup/Manager.antt =====
-- resolvconf.go: who owns /etc/resolv.conf, by what it says.
use doze_names.Prelude.{Bool, true, false, ◌||◌, none, some, if◌then◌else◌}
use doze_names.Text.{Bytes, codes}
use doze_names.Setup.{index_of}

-- `manager`
pub data Manager : Type 0 where
  mgr_unknown mgr_resolved mgr_resolvconf mgr_network_manager mgr_plain : Manager

-- `manager.String`
unfoldable pub manager_text : Manager → Bytes
manager_text mgr_resolved = codes "systemd-resolved"
manager_text mgr_resolvconf = codes "resolvconf"
manager_text mgr_network_manager = codes "NetworkManager"
manager_text mgr_plain = codes "plain /etc/resolv.conf"
manager_text mgr_unknown = codes "unknown"

-- `strings.Contains`
unfoldable pub contains : Bytes → Bytes → Bool
contains s t = elim (index_of s t) [ none ↦ false | some i ↦ true ]

-- `detectFrom`
unfoldable pub detect_from : Bytes → Manager
detect_from s =
    if contains s (codes "systemd-resolved") || contains s (codes "stub-resolv.conf")
    then mgr_resolved
    else if contains s (codes "Generated by resolvconf")
    then mgr_resolvconf
    else if contains s (codes "Generated by NetworkManager")
    then mgr_network_manager
    else mgr_plain

-- `canRouteDomain`
unfoldable pub can_route_domain : Manager → (has_dnsmasq : Bool) → Bool
can_route_domain mgr_resolved has_dnsmasq = true
can_route_domain _ has_dnsmasq = has_dnsmasq
