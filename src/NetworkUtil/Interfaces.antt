-- ===== src/NetworkUtil/Interfaces.antt =====
-- `get_ip_addr` of src/network_util.c: which of its network interfaces the host is known by.
pub mod Usable
pub mod Choice
pub mod Answer
use parallel_wrapper.Base.{
  Option, none, some, Bool, true, false, not, ◌||◌, List, [], ◌∷◌, if◌then◌else◌, ◌==◌,
}
use parallel_wrapper.Base.Text.{Bytes, codes}
use parallel_wrapper.NetworkUtil.{ip_error, ip_text, ip_str_from_sockaddr, inet6_addrstrlen}
use parallel_wrapper.System.{Sockaddr, inet, inet6, other_family, Os}

-- `struct ifaddrs`, with the three flags that the code looks at.
pub record Interface : Type 0 where
  pub name : Bytes
  pub addr : Option Sockaddr
  pub is_up : Bool
  pub is_loopback : Bool
  pub is_point_to_point : Bool

abbrev pub is_inet : Option Sockaddr → Bool
is_inet none = false
is_inet (some (inet a port)) = true
is_inet (some (inet6 a port)) = false
is_inet (some other_family) = false

-- The tests of the first loop; `continue` on any of them.
unfoldable pub is_skipped : Interface → Bool
is_skipped ifa =
    not (is_inet ifa.addr) || (not ifa.is_up || (ifa.is_loopback || ifa.is_point_to_point))

-- The first loop: the array of possible interfaces, in the order of the list.
unfoldable pub first_cut : List Interface → List Interface
unfolding is_skipped
first_cut [] = []
first_cut (ifa ∷ myaddrs) =
    let rest = first_cut myaddrs in if is_skipped ifa then rest else ifa ∷ rest

-- `strncmp(s, prefix, n) == 0`, where `n` is the length of the prefix.
unfoldable pub has_prefix : Bytes → Bytes → Bool
has_prefix [] s = true
has_prefix (c ∷ prefix) [] = false
has_prefix (c ∷ prefix) (d ∷ s) = let rest = has_prefix prefix s in if c == d then rest else false

-- What the function returns: NULL, an address, or nothing (NULL reaches `strncmp`).
pub data Address : Type 0 where
  no_address : Address
  address : Bytes → Address
  fault : Address

-- `ip_str_from_sockaddr` into the buffer; NULL if it fails.
unfoldable pub text_of : Os → Interface → Option Bytes
text_of os ifa = elim (ip_str_from_sockaddr os ifa.addr true inet6_addrstrlen) [
  | ip_error rc ↦ none
  | ip_text ip ↦ some ip
]

abbrev pub address_of : Option Bytes → Address
address_of none = no_address
address_of (some ip) = address ip

-- The loop for an interface whose name starts with `ib`.
unfoldable pub infiniband : List Interface → Option Interface
infiniband [] = none
infiniband (ifa ∷ rest) =
    let later = infiniband rest in if has_prefix (codes "ib") ifa.name then some ifa else later

unfoldable pub is_local : Bytes → Bool
unfolding has_prefix
is_local ip =
    has_prefix (codes "192.") ip
    || (has_prefix (codes "172.") ip
        || (has_prefix (codes "127.") ip || has_prefix (codes "10.") ip))

-- One round of the loop for an address without a local prefix, and what the later rounds give;
-- `none` when there is no such address.
abbrev pub public_step : Option Bytes → Option Address → Option Address
public_step none later = some fault
public_step (some ip) later = if is_local ip then later else some (address ip)

unfoldable pub public_address : Os → List Interface → Option Address
public_address os [] = none
public_address os (ifa ∷ rest) = public_step (text_of os ifa) (public_address os rest)

-- The three ways to choose, from the array on.
abbrev pub choose_first : Os → Interface → Option Address → Address
choose_first os ifa none = address_of (text_of os ifa)
choose_first os ifa (some a) = a

abbrev pub choose_public : Os → Interface → List Interface → Option Interface → Address
choose_public os ifa rest none = choose_first os ifa (public_address os (ifa ∷ rest))
choose_public os ifa rest (some ib) = address_of (text_of os ib)

abbrev pub choose : Os → List Interface → Address
choose os [] = no_address
choose os (ifa ∷ rest) = choose_public os ifa rest (infiniband (ifa ∷ rest))

-- `ifaddrs` is what `getifaddrs` gives.
unfoldable pub get_ip_addr : Os → Option (List Interface) → Address
unfolding first_cut
get_ip_addr os none = no_address
get_ip_addr os (some myaddrs) =
    if not os.malloc_ok
    then no_address
    else if not os.calloc_ok
    then no_address
    else choose os (first_cut myaddrs)
