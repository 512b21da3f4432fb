-- ===== src/NetworkUtil/Interfaces/Choice.antt =====
-- Which interface `get_ip_addr` takes.
use parallel_wrapper.Base.{
  ◌≡◌, refl, sym, subst, ◌⊎◌, Option, none, some, Bool, true, false, not, List, [], ◌∷◌, Bool-cases,
  inl, inr, if◌then◌else◌, All,
}
use parallel_wrapper.Base.Text.{Bytes, codes}
use parallel_wrapper.NetworkUtil.Interfaces.{
  Interface, first_cut, has_prefix, Address, no_address, address, fault, text_of, address_of,
  infiniband, is_local, public_step, public_address, choose_first, choose_public, choose,
  get_ip_addr,
}
use parallel_wrapper.NetworkUtil.Interfaces.Usable.{
  IsUsable, Has, first_cut-IsUsable, text_of-usable, Has-first_cut, All-Has,
}
use parallel_wrapper.System.{Os}

-- The host is known by the text of `ifa`, and the order of preference: an interface named `ib…`, then
-- one without a local prefix, then the first.
pub record IsChosen (os : Os) (ifs : List Interface) (ip : Bytes) : Type 0 where
  pub ifa : Interface
  pub listed : Has ifs ifa
  pub usable : IsUsable ifa
  pub text : ip ≡ os.ntop4 usable.address_number
  pub preferred :
      (has_prefix (codes "ib") ifa.name ≡ true)
      ⊎ (All (λ x. has_prefix (codes "ib") x.name ≡ false) (first_cut ifs)
          × ((is_local ip ≡ false)
              ⊎ All (λ x. (t : Bytes) → text_of os x ≡ some t → is_local t ≡ true) (first_cut ifs)))

abbrev Infiniband : List Interface → Option Interface → Type 0
Infiniband xs none = All (λ x. has_prefix (codes "ib") x.name ≡ false) xs
Infiniband xs (some x) = Has xs x × (has_prefix (codes "ib") x.name ≡ true)

infiniband_lem : (xs : List Interface) → Infiniband xs (infiniband xs)
unfolding infiniband
infiniband_lem [] = tt
infiniband_lem (x ∷ xs) = elim (Bool-cases (has_prefix (codes "ib") x.name)) [
  | inl e ↦ rw e (inl refl, e)
  | inr e ↦ rw e (later (infiniband xs) e (infiniband_lem xs))
]
  where
    later :
        (o : Option Interface)
        → has_prefix (codes "ib") x.name ≡ false
        → Infiniband xs o
        → Infiniband (x ∷ xs) o
    later none e h = (e, h)
    later (some y) e h = (inr h.0, h.1)

abbrev AllLocal : Os → List Interface → Type 0
AllLocal os = All (λ x. (t : Bytes) → text_of os x ≡ some t → is_local t ≡ true)

abbrev Public : Os → List Interface → Option Address → Type 0
Public os xs none = AllLocal os xs
Public os xs (some (address ip)) =
    (x : Interface) × Has xs x × (text_of os x ≡ some ip) × (is_local ip ≡ false)
Public os xs (some no_address) = ⊥
Public os xs (some fault) = ⊥

text_unique : {o : Option Bytes} {s t : Bytes} → o ≡ some s → o ≡ some t → s ≡ t
text_unique h k = cc

step_local :
    (os : Os) (x : Interface) (xs : List Interface) (ip : Bytes) (o : Option Address)
    → text_of os x ≡ some ip
    → is_local ip ≡ true
    → Public os xs o
    → Public os (x ∷ xs) o
step_local os x xs ip none text e h =
    ((λ t same. subst (λ t. is_local t ≡ true) (text_unique text same) e), h)
step_local os x xs ip (some (address t)) text e (y, has, is_text, l) = (y, inr has, is_text, l)
step_local os x xs ip (some no_address) text e h = h
step_local os x xs ip (some fault) text e h = h

public_step_lem :
    (os : Os) (x : Interface) (xs : List Interface) (ip : Bytes) (o : Option Address)
    → text_of os x ≡ some ip
    → Public os xs o
    → Public os (x ∷ xs) (public_step (some ip) o)
public_step_lem os x xs ip o text h = elim (Bool-cases (is_local ip)) [
  | inl e ↦ rw e (step_local os x xs ip o text e h)
  | inr e ↦ rw e (x, inl refl, text, e)
]

public_address_lem :
    (os : Os) (xs : List Interface) → All IsUsable xs → Public os xs (public_address os xs)
unfolding public_address
public_address_lem os [] u = tt
public_address_lem os (x ∷ xs) u =
    let text : text_of os x ≡ some (os.ntop4 u.0.address_number) = text_of-usable os x u.0 in
    subst (λ o. Public os (x ∷ xs) (public_step o (public_address os xs))) (sym text)
      (public_step_lem os x xs (os.ntop4 u.0.address_number) (public_address os xs) text
        (public_address_lem os xs u.1))

-- What the function answers on the list of interfaces: an address that it may choose, or no address
-- when no interface is usable.
abbrev pub IsPicked : Os → List Interface → Address → Type 0
IsPicked os ifs no_address = first_cut ifs ≡ []
IsPicked os ifs (address ip) = IsChosen os ifs ip
IsPicked os ifs fault = ⊥

use_interface :
    (os : Os) (ifs : List Interface) (x : Interface)
    → Has (first_cut ifs) x
    → (preferred : (ip : Bytes)
        → text_of os x ≡ some ip
        → (has_prefix (codes "ib") x.name ≡ true)
          ⊎ (All (λ x. has_prefix (codes "ib") x.name ≡ false) (first_cut ifs)
              × ((is_local ip ≡ false) ⊎ AllLocal os (first_cut ifs))))
    → (ip : Bytes) → text_of os x ≡ some ip
    → IsChosen os ifs ip
use_interface os ifs x has preferred ip text =
    let u = All-Has IsUsable (first_cut ifs) x (first_cut-IsUsable ifs) has in
    record {
      ifa = x;
      listed = Has-first_cut ifs x has;
      usable = u;
      text = text_unique text (text_of-usable os x u);
      preferred = preferred ip text;
    }

address_of-IsPicked :
    (os : Os) (ifs : List Interface) (x : Interface)
    → Has (first_cut ifs) x
    → ((ip : Bytes) → text_of os x ≡ some ip → IsChosen os ifs ip)
    → IsPicked os ifs (address_of (text_of os x))
address_of-IsPicked os ifs x has chosen =
    let u = All-Has IsUsable (first_cut ifs) x (first_cut-IsUsable ifs) has in
    let text = text_of-usable os x u in
    subst (λ o. IsPicked os ifs (address_of o)) (sym text) (chosen (os.ntop4 u.address_number) text)

NoIb : List Interface → Type 0
NoIb = All (λ x. has_prefix (codes "ib") x.name ≡ false)

choose_first-IsPicked :
    (os : Os) (ifs : List Interface) (x : Interface) (xs : List Interface) (o : Option Address)
    → first_cut ifs ≡ x ∷ xs
    → NoIb (first_cut ifs)
    → Public os (x ∷ xs) o
    → IsPicked os ifs (choose_first os x o)
unfolding NoIb
choose_first-IsPicked os ifs x xs none cut no_ib all =
    let has = subst (λ l. Has l x) (sym cut) (inl refl) in
    address_of-IsPicked os ifs x has
      (use_interface os ifs x has (λ ip text. inr (no_ib, inr (subst (AllLocal os) (sym cut) all))))
choose_first-IsPicked os ifs x xs (some (address ip)) cut no_ib (y, has, text, not_local) =
    use_interface os ifs y (subst (λ l. Has l y) (sym cut) has)
      (λ t is_t.
        inr (no_ib, inl (subst (λ t. is_local t ≡ false) (text_unique text is_t) not_local)))
      ip text
choose_first-IsPicked os ifs x xs (some no_address) cut no_ib h = absurd h
choose_first-IsPicked os ifs x xs (some fault) cut no_ib h = absurd h

choose_public-IsPicked :
    (os : Os) (ifs : List Interface) (x : Interface) (xs : List Interface) (o : Option Interface)
    → first_cut ifs ≡ x ∷ xs
    → All IsUsable (x ∷ xs)
    → Infiniband (x ∷ xs) o
    → IsPicked os ifs (choose_public os x xs o)
unfolding NoIb
choose_public-IsPicked os ifs x xs none cut u no_ib =
    choose_first-IsPicked os ifs x xs (public_address os (x ∷ xs)) cut (subst NoIb (sym cut) no_ib)
      (public_address_lem os (x ∷ xs) u)
choose_public-IsPicked os ifs x xs (some ib) cut u (has, is_ib) =
    let has' = subst (λ l. Has l ib) (sym cut) has in
    address_of-IsPicked os ifs ib has' (use_interface os ifs ib has' (λ ip text. inl is_ib))

choose-IsPicked :
    (os : Os) (ifs : List Interface) (l : List Interface)
    → first_cut ifs ≡ l
    → All IsUsable l
    → IsPicked os ifs (choose os l)
choose-IsPicked os ifs [] cut u = cut
choose-IsPicked os ifs (x ∷ xs) cut u =
    choose_public-IsPicked os ifs x xs (infiniband (x ∷ xs)) cut u (infiniband_lem (x ∷ xs))

-- When memory is found: what the function answers, by the interfaces that its first loop keeps.
pub get_ip_addr-IsPicked :
    (os : Os) (ifs : List Interface)
    → os.malloc_ok ≡ true
    → os.calloc_ok ≡ true
    → IsPicked os ifs (get_ip_addr os (some ifs))
unfolding get_ip_addr
get_ip_addr-IsPicked os ifs m c =
    memory os.malloc_ok os.calloc_ok m c
      (choose-IsPicked os ifs (first_cut ifs) refl (first_cut-IsUsable ifs))
  where
    memory :
        (m c : Bool)
        → m ≡ true
        → c ≡ true
        → IsPicked os ifs (choose os (first_cut ifs))
        → IsPicked os ifs
            (if not m then no_address else if not c then no_address else choose os (first_cut ifs))
    memory true true _ _ h = h
    memory true false m c h = cc
    memory false c m e h = cc
