-- ===== src/NetworkUtil/Interfaces/Usable.antt =====
-- The interfaces that `get_ip_addr` keeps: those it can use.
use parallel_wrapper.Base.{
  ℕ, ◌≡◌, refl, subst, ◌⊎◌, Option, none, some, true, false, List, [], ◌∷◌, arith, Bool-cases, inl,
  inr, All,
}
use parallel_wrapper.NetworkUtil.{ip_str_from_sockaddr}
use parallel_wrapper.NetworkUtil.Interfaces.{Interface, is_inet, is_skipped, first_cut, text_of}
use parallel_wrapper.System.{Sockaddr, inet, inet6, other_family, Os}

-- A running IPv4 interface that is neither the loopback nor a point-to-point link.
pub record IsUsable (ifa : Interface) : Type 0 where
  pub address_number : ℕ
  pub port_number : ℕ
  pub is_addr : ifa.addr ≡ some (inet address_number port_number)
  pub up : ifa.is_up ≡ true
  pub no_loopback : ifa.is_loopback ≡ false
  pub no_link : ifa.is_point_to_point ≡ false

-- The interface stands in the list.
abbrev pub Has : List Interface → Interface → Type 0
Has [] ifa = ⊥
Has (x ∷ xs) ifa = (x ≡ ifa) ⊎ Has xs ifa

inet_addr :
    (o : Option Sockaddr) → is_inet o ≡ true → (a : ℕ) × (port : ℕ) × (o ≡ some (inet a port))
inet_addr none h = cc
inet_addr (some (inet a port)) h = (a, port, refl)
inet_addr (some (inet6 a port)) h = cc
inet_addr (some other_family) h = cc

pub kept-IsUsable : (ifa : Interface) → is_skipped ifa ≡ false → IsUsable ifa
unfolding is_skipped
kept-IsUsable ifa h =
    let (a, port, e) = inet_addr ifa.addr (ground arith) in
    record {
      address_number = a;
      port_number = port;
      is_addr = e;
      up = ground arith;
      no_loopback = ground arith;
      no_link = ground arith;
    }

pub first_cut-IsUsable : (ifs : List Interface) → All IsUsable (first_cut ifs)
unfolding first_cut
first_cut-IsUsable [] = tt
first_cut-IsUsable (ifa ∷ ifs) = elim (Bool-cases (is_skipped ifa)) [
  | inl e ↦ rw e (first_cut-IsUsable ifs)
  | inr e ↦ rw e (kept-IsUsable ifa e, first_cut-IsUsable ifs)
]

pub text_of-usable :
    (os : Os) (ifa : Interface) (u : IsUsable ifa)
    → text_of os ifa ≡ some (os.ntop4 u.address_number)
unfolding text_of ip_str_from_sockaddr
text_of-usable os ifa u = rw u.is_addr refl

pub Has-first_cut : (ifs : List Interface) (x : Interface) → Has (first_cut ifs) x → Has ifs x
unfolding first_cut
Has-first_cut [] x h = h
Has-first_cut (ifa ∷ ifs) x h = elim (Bool-cases (is_skipped ifa)) [
  | inl e ↦ inr (Has-first_cut ifs x (rw e at h))
  | inr e ↦ kept (Has-first_cut ifs x) (rw e at h)
]
  where
    kept :
        (Has (first_cut ifs) x → Has ifs x) → (ifa ≡ x) ⊎ Has (first_cut ifs) x → Has (ifa ∷ ifs) x
    kept later (inl same) = inl same
    kept later (inr h) = inr (later h)

pub All-Has :
    (P : Interface → Type 0) (xs : List Interface) (x : Interface) → All P xs → Has xs x → P x
All-Has P [] x all h = absurd h
All-Has P (y ∷ xs) x all (inl e) = subst P e all.0
All-Has P (y ∷ xs) x all (inr h) = All-Has P xs x all.1 h
