-- ===== src/Network/Nics.antt =====
-- The NICs that the default bond takes, and its address (IsPhysicalEthernet and
-- EnumeratePhysicalEthernet in tierd/internal/network/policy.go, the names they pass over in
-- interface.go, MemberMAC in bond.go).
use smoothnas.Prelude.{
  ℕ, Bool, not, ◌&&◌, ◌||◌, ◌==◌, Option, none, some, List, [], ◌∷◌, if◌then◌else◌, any, keep,
}
use smoothnas.Prelude.Eq.{◌=?◌}
use smoothnas.Prelude.Text.{Text, text_eq, codes}
use smoothnas.Prelude.Reading.{trim_space}
use smoothnas.Network.Dirs.{has_prefix}

-- The answers of the host: which files can be written and removed, the entries of `/sys/class/net` in
-- the order of their names, and the files below them.
pub record Host : Type 0 where
  pub can_write : Text → Bool
  pub can_remove : Text → Bool
  pub entries : Option (List Text)
  pub is_present : Text → Text → Bool
  pub read : Text → Text → Option Text

unfoldable pub is_runtime_interface_name : Text → Bool
is_runtime_interface_name name =
    any (λ (p : Text). has_prefix name p)
      (codes "br-"
        ∷ codes "br0"
        ∷ codes "virbr"
        ∷ codes "veth"
        ∷ codes "vnet"
        ∷ codes "docker"
        ∷ codes "tap"
        ∷ codes "tun"
        ∷ codes "wg"
        ∷ codes "ppp"
        ∷ codes "gow"
        ∷ [])

unfoldable pub is_bond_ineligible_interface_name : Text → Bool
is_bond_ineligible_interface_name name =
    (name =? [])
    || (name =? codes "lo")
    || has_prefix name (codes "bond")
    || any (λ (c : ℕ). c == b'.') name
    || is_runtime_interface_name name

abbrev pub text_of : Option Text → Text
text_of none = []
text_of (some t) = t

unfoldable pub is_physical_ethernet : Host → Text → Bool
is_physical_ethernet h name =
    not (is_bond_ineligible_interface_name name)
    && h.is_present name (codes "device")
    && not (h.is_present name (codes "wireless"))
    && (trim_space (text_of (h.read name (codes "type"))) =? codes "1")

unfoldable pub enumerate_physical_ethernet : Host → Option (List Text)
enumerate_physical_ethernet h = elim h.entries [
  | none ↦ none
  | some names ↦ some (keep (is_physical_ethernet h) names)
]

abbrev pub is_mac : Text → Bool
is_mac mac = not (mac =? []) && not (mac =? codes "00:00:00:00:00:00")

-- `MemberMAC` on names that `enumerate_physical_ethernet` gives, which are sorted entries of a
-- directory. A file that cannot be read gives no address.
unfoldable pub member_mac : Host → List Text → Text
member_mac h [] = []
member_mac h (m ∷ ms) =
    let own = trim_space (text_of (h.read m (codes "bonding_slave/perm_hwaddr"))) in
    let current = trim_space (text_of (h.read m (codes "address"))) in
    let rest = member_mac h ms in
    if is_mac own then own else if is_mac current then current else rest
