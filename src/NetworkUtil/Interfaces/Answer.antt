-- ===== src/NetworkUtil/Interfaces/Answer.antt =====
-- What `get_ip_addr` of src/network_util.c answers, by the list of interfaces alone.
use parallel_wrapper.Base.{
  ◌≡◌, refl, sym, ap, ◌∙◌, subst, ◌⊎◌, inl, inr, some, Bool, true, false, ◌||◌, ◌==◌, List, [], ◌∷◌,
  ◌++◌, All, arith, Bool-cases,
}
use parallel_wrapper.Base.Text.{Bytes, codes}
use parallel_wrapper.NetworkUtil.Interfaces.{
  Interface, is_skipped, first_cut, has_prefix, Address, no_address, address, fault, is_local,
  text_of, get_ip_addr,
}
use parallel_wrapper.NetworkUtil.Interfaces.Choice.{IsChosen, IsPicked, get_ip_addr-IsPicked}
use parallel_wrapper.NetworkUtil.Interfaces.Usable.{IsUsable, Has, text_of-usable}
use parallel_wrapper.System.{Os}

abbrev pub StartsWith : Bytes → Bytes → Type 0
StartsWith prefix s = (rest : Bytes) × (s ≡ prefix ++ rest)

abbrev pub IsIb : Interface → Type 0
IsIb ifa = StartsWith (codes "ib") ifa.name

-- The four prefixes of a local address.
abbrev pub IsLocal : Bytes → Type 0
IsLocal ip =
    StartsWith (codes "192.") ip
    ⊎ (StartsWith (codes "172.") ip ⊎ (StartsWith (codes "127.") ip ⊎ StartsWith (codes "10.") ip))

-- No usable interface of the list satisfies `P`.
abbrev pub NoUsable : (P : (ifa : Interface) → IsUsable ifa → Type 0) → List Interface → Type 0
NoUsable P = All (λ ifa. (u : IsUsable ifa) → P ifa u → ⊥)

-- The address is the text of a usable interface of the list. An interface named `ib…` goes before the
-- others, and among these one whose text is not local goes before those whose text is.
pub record IsBest (os : Os) (ifs : List Interface) (ip : Bytes) : Type 0 where
  pub ifa : Interface
  pub listed : Has ifs ifa
  pub usable : IsUsable ifa
  pub text : ip ≡ os.ntop4 usable.address_number
  pub preferred :
      IsIb ifa
      ⊎ (NoUsable (λ x u. IsIb x) ifs
          × ((IsLocal ip → ⊥) ⊎ NoUsable (λ x u. IsLocal (os.ntop4 u.address_number) → ⊥) ifs))

abbrev pub IsAnswer : Os → List Interface → Address → Type 0
IsAnswer os ifs no_address = NoUsable (λ x u. Unit {0}) ifs
IsAnswer os ifs (address ip) = IsBest os ifs ip
IsAnswer os ifs fault = ⊥

prefix-StartsWith : (p s : Bytes) → has_prefix p s ≡ true → StartsWith p s
unfolding has_prefix
prefix-StartsWith [] s h = (s, refl)
prefix-StartsWith (c ∷ p) [] h = cc
prefix-StartsWith (c ∷ p) (d ∷ s) h = elim (Bool-cases (c == d)) [
  | inl e ↦
      let (rest, same) = prefix-StartsWith p s (rw e at h) in
      let first : d ≡ c = ground arith in (rest, ap (λ x. x ∷ s) first ∙ ap (λ l. c ∷ l) same)
  | inr e ↦ absurd (let c : false ≡ true = rw e at h in cc)
]

has_prefix-append : (p rest : Bytes) → has_prefix p (p ++ rest) ≡ true
unfolding has_prefix
has_prefix-append [] rest = refl
has_prefix-append (c ∷ p) rest = ground (arith, has_prefix-append p rest)

StartsWith-prefix : (p s : Bytes) → StartsWith p s → has_prefix p s ≡ true
StartsWith-prefix p s (rest, e) = ap (has_prefix p) e ∙ has_prefix-append p rest

no_prefix : (p s : Bytes) → has_prefix p s ≡ false → StartsWith p s → ⊥
no_prefix p s h k = absurd (let c : true ≡ false = sym (StartsWith-prefix p s k) ∙ h in cc)

is_local-IsLocal : (ip : Bytes) → is_local ip ≡ true → IsLocal ip
unfolding is_local
is_local-IsLocal ip h = elim (Bool-cases (has_prefix (codes "192.") ip)) [
  | inl a ↦ inl (prefix-StartsWith (codes "192.") ip a)
  | inr a ↦ elim (Bool-cases (has_prefix (codes "172.") ip)) [
    | inl b ↦ inr (inl (prefix-StartsWith (codes "172.") ip b))
    | inr b ↦ elim (Bool-cases (has_prefix (codes "127.") ip)) [
      | inl c ↦ inr (inr (inl (prefix-StartsWith (codes "127.") ip c)))
      | inr c ↦ inr (inr (inr (prefix-StartsWith (codes "10.") ip (rw (a, b, c) at h))))
    ]
  ]
]

or_false : (a b : Bool) → a || b ≡ false → (a ≡ false) × (b ≡ false)
or_false true b h = absurd cc
or_false false b h = (refl, h)

not_local : (ip : Bytes) → is_local ip ≡ false → IsLocal ip → ⊥
unfolding is_local
not_local ip h =
    let (a, h1) = or_false (has_prefix (codes "192.") ip) _ h in
    let (b, h2) = or_false (has_prefix (codes "172.") ip) _ h1 in
    let (c, d) = or_false (has_prefix (codes "127.") ip) _ h2 in by_prefix a b c d
  where
    by_prefix :
        has_prefix (codes "192.") ip ≡ false
        → has_prefix (codes "172.") ip ≡ false
        → has_prefix (codes "127.") ip ≡ false
        → has_prefix (codes "10.") ip ≡ false
        → IsLocal ip
        → ⊥
    by_prefix a b c d (inl k) = no_prefix (codes "192.") ip a k
    by_prefix a b c d (inr (inl k)) = no_prefix (codes "172.") ip b k
    by_prefix a b c d (inr (inr (inl k))) = no_prefix (codes "127.") ip c k
    by_prefix a b c d (inr (inr (inr k))) = no_prefix (codes "10.") ip d k

usable-kept : (ifa : Interface) → IsUsable ifa → is_skipped ifa ≡ false
unfolding is_skipped
usable-kept ifa u = rw (u.is_addr, u.up, u.no_loopback, u.no_link) refl

-- What all kept interfaces satisfy, all usable ones do.
first_cut-All :
    (P : Interface → Type 0) (ifs : List Interface)
    → All P (first_cut ifs)
    → All (λ ifa. IsUsable ifa → P ifa) ifs
unfolding first_cut
first_cut-All P [] h = tt
first_cut-All P (ifa ∷ ifs) h = elim (Bool-cases (is_skipped ifa)) [
  | inl e ↦ (
    (λ u. absurd (let c : true ≡ false = sym e ∙ usable-kept ifa u in cc)),
    first_cut-All P ifs (rw e at h),
  )
  | inr e ↦ both (first_cut-All P ifs) (rw e at h)
]
  where
    both :
        (All P (first_cut ifs) → All (λ ifa. IsUsable ifa → P ifa) ifs)
        → All P (ifa ∷ first_cut ifs)
        → All (λ ifa. IsUsable ifa → P ifa) (ifa ∷ ifs)
    both others (p, rest) = ((λ u. p), others rest)

All-map :
    (P Q : Interface → Type 0) (ifs : List Interface)
    → ((ifa : Interface) → P ifa → Q ifa)
    → All P ifs
    → All Q ifs
All-map P Q [] f h = tt
All-map P Q (x ∷ ifs) f h = (f x h.0, All-map P Q ifs f h.1)

chosen-IsBest :
    (os : Os) (ifs : List Interface) (ip : Bytes) → IsChosen os ifs ip → IsBest os ifs ip
chosen-IsBest os ifs ip c = record {
  ifa = c.ifa;
  listed = c.listed;
  usable = c.usable;
  text = c.text;
  preferred = by_preference c.preferred;
}
  where
    no_ib :
        All (λ x. has_prefix (codes "ib") x.name ≡ false) (first_cut ifs)
        → NoUsable (λ x u. IsIb x) ifs
    no_ib h =
        All-map (λ x. IsUsable x → has_prefix (codes "ib") x.name ≡ false)
          (λ x. (u : IsUsable x) → IsIb x → ⊥) ifs (λ x k u. no_prefix (codes "ib") x.name (k u))
          (first_cut-All (λ x. has_prefix (codes "ib") x.name ≡ false) ifs h)

    all_local :
        All (λ x. (t : Bytes) → text_of os x ≡ some t → is_local t ≡ true) (first_cut ifs)
        → NoUsable (λ x u. IsLocal (os.ntop4 u.address_number) → ⊥) ifs
    all_local h =
        All-map (λ x. IsUsable x → (t : Bytes) → text_of os x ≡ some t → is_local t ≡ true)
          (λ x. (u : IsUsable x) → (IsLocal (os.ntop4 u.address_number) → ⊥) → ⊥) ifs
          (λ x k u no. no (
            is_local-IsLocal (os.ntop4 u.address_number)
              (k u (os.ntop4 u.address_number) (text_of-usable os x u))))
          (first_cut-All (λ x. (t : Bytes) → text_of os x ≡ some t → is_local t ≡ true) ifs h)

    by_preference :
        (has_prefix (codes "ib") c.ifa.name ≡ true)
          ⊎ (All (λ x. has_prefix (codes "ib") x.name ≡ false) (first_cut ifs)
              × ((is_local ip ≡ false)
                  ⊎ All
                      (λ x. (t : Bytes) → text_of os x ≡ some t → is_local t ≡ true)
                      (first_cut ifs)))
        → IsIb c.ifa
          ⊎ (NoUsable (λ x u. IsIb x) ifs
              × ((IsLocal ip → ⊥) ⊎ NoUsable (λ x u. IsLocal (os.ntop4 u.address_number) → ⊥) ifs))
    by_preference (inl e) = inl (prefix-StartsWith (codes "ib") c.ifa.name e)
    by_preference (inr (h, inl l)) = inr (no_ib h, inl (not_local ip l))
    by_preference (inr (h, inr l)) = inr (no_ib h, inr (all_local l))

picked-IsAnswer :
    (os : Os) (ifs : List Interface) (a : Address) → IsPicked os ifs a → IsAnswer os ifs a
picked-IsAnswer os ifs no_address none_left =
    All-map (λ x. IsUsable x → ⊥) (λ x. (u : IsUsable x) → Unit {0} → ⊥) ifs (λ x k u _. k u)
      (first_cut-All (λ x. ⊥) ifs (subst (All (λ x. ⊥)) (sym none_left) tt))
picked-IsAnswer os ifs (address ip) c = chosen-IsBest os ifs ip c
picked-IsAnswer os ifs fault h = h

-- When memory is found and no debugging messages are written, `get_ip_addr` never passes NULL to
-- `strncmp`. It answers no address only when no interface of the list is a running IPv4 one other than
-- the loopback and point-to-point links, and else the text of such an interface: of one named `ib…` if
-- there is one, else of one whose text has none of the four local prefixes if there is one.
pub get_ip_addr-IsAnswer :
    (os : Os) (ifs : List Interface)
    → os.malloc_ok ≡ true
    → os.calloc_ok ≡ true
    → IsAnswer os ifs (get_ip_addr os (some ifs))
get_ip_addr-IsAnswer os ifs m c =
    picked-IsAnswer os ifs (get_ip_addr os (some ifs)) (get_ip_addr-IsPicked os ifs m c)
