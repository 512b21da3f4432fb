-- ===== src/Main/Hosts/Marked.antt =====
-- The marking of unique hosts in src/main.c on the machines, through their flags.
use parallel_wrapper.Base.{
  ◌≡◌, refl, sym, ap, ◌∙◌, Option, none, some, Bool, true, false, ◌&&◌, List, [], ◌∷◌, ◌==◌,
  if◌then◌else◌, get_elem?, set, get_elem?-set_self, get_elem?-set_ne, get_elem?-lt, Bool-cases,
  inl, inr, arith,
}
use parallel_wrapper.Base.Text.{Bytes, str_eq}
use parallel_wrapper.Main.Hosts.{mark_all, compare_hosts, mark_later, mark_unique}
use parallel_wrapper.Main.Hosts.Flags.{Flags, update, holds, later_flags, unique_flags}
use parallel_wrapper.Wrapper.{Machine, Ptr, World}
use parallel_wrapper.Wrapper.Action.{ok, Action, pure, deref, load, store, then_do, ◌>>=◌, ◌>>◌}
use parallel_wrapper.Wrapper.Ensures.{load_lem}

-- The address of the machine at a pointer.
abbrev pub text_or_empty : Option Bytes → Bytes
text_or_empty none = []
text_or_empty (some ip) = ip

abbrev pub host_of : Option Machine → Bytes
host_of none = []
host_of (some m) = text_or_empty m.ip_addr

abbrev pub flagged : Machine → Bool → Machine
flagged m b = record m { unique = b }

-- The heap `h` has the machines of `heap`, with the flags `u`.
abbrev pub HasFlags : List Machine → Flags → List Machine → Type 0
HasFlags heap u h =
    (p : Ptr) (m : Machine)
    → get_elem? heap p ≡ some m
    → get_elem? h p ≡ some (record m { unique = u p })

module _ (w : World) where
  abbrev pub host : Ptr → Bytes
  host p = host_of (get_elem? w.heap p)

  abbrev pub at : List Machine → World
  at h = record w { heap = h }

  -- The action goes through and leads from the flags `u` to the flags `u'`.
  abbrev pub Turns : Action (Unit {0}) → Flags → Flags → Type 0
  Turns m u u' =
      (h : List Machine)
      → HasFlags w.heap u h
      → (h' : List Machine) × (m (at h) ≡ (ok tt, at h')) × HasFlags w.heap u' h'

  pub Turns-then :
      (m k : Action (Unit {0})) (u u' u'' : Flags)
      → Turns m u u'
      → Turns k u' u''
      → Turns (m >> k) u u''
  Turns-then m k u u' u'' hm hk h flags =
      let (h', e, flags') = hm h flags in
      let (h'', e', flags'') = hk h' flags' in (h'', ap (λ r. then_do r (λ _. k)) e ∙ e', flags'')

  Turns-load :
      (p : Ptr) (m : Machine) (f : Machine → Action (Unit {0})) (u u' : Flags)
      → get_elem? w.heap p ≡ some m
      → Turns (f (record m { unique = u p })) u u'
      → Turns (load p >>= f) u u'
  Turns-load p m f u u' here h heap flags =
      let (h', e, flags') = h heap flags in
      (
        h',
        ap (λ r. then_do r f) (load_lem p (record m { unique = u p }) (at heap) (flags p m here))
            ∙ e,
        flags',
      )

  Turns-store :
      (q : Ptr) (m : Machine) (b : Bool) (u : Flags)
      → get_elem? w.heap q ≡ some m
      → Turns (store q (record m { unique = b })) u (update u q b)
  Turns-store q m b u here heap flags =
      (set heap q (record m { unique = b }), refl, λ p m' there. by_slot p m' there (q == p) refl)
    where
      by_slot :
          (p : Ptr) (m' : Machine)
          → get_elem? w.heap p ≡ some m'
          → (c : Bool) → (q == p) ≡ c
          → get_elem? (set heap q (record m { unique = b })) p
            ≡ some (record m' { unique = if c then b else u p })
      by_slot p m' there true e =
          let same : q ≡ p = ground arith in
          let same_machine : m ≡ m' = only (ap (get_elem? w.heap) same) here there in
          ap (get_elem? (set heap q (record m { unique = b }))) (sym same)
          ∙ get_elem?-set_self heap q (record m { unique = b })
              (get_elem?-lt heap q (flags q m here))
          ∙ ap (λ m. some (flagged m b)) same_machine
        where
          only : {o o' : Option Machine} → o ≡ o' → o ≡ some m → o' ≡ some m' → m ≡ m'
          only e h k = cc
      by_slot p m' there false e =
          get_elem?-set_ne heap q p (record m { unique = b }) (λ same. differs same e)
          ∙ flags p m' there
        where
          differs : q ≡ p → (q == p) ≡ false → ⊥
          differs h e = ground arith

  -- The machines behind the slots are there, with their addresses.
  abbrev pub AllKnown : List (Option Ptr) → Type 0
  AllKnown slots =
      (p : Ptr)
      → holds slots p ≡ true
      → (m : Machine) × (get_elem? w.heap p ≡ some m) × (m.ip_addr ≡ some (host p))

  pub all_flags : List (Option Ptr) → Flags → Flags
  all_flags [] u = u
  all_flags (none ∷ slots) u = all_flags slots u
  all_flags (some p ∷ slots) u = all_flags slots (update u p true)

  all_flags_kept :
      (slots : List (Option Ptr)) (u : Flags) (r : Ptr) → u r ≡ true → all_flags slots u r ≡ true
  unfolding all_flags
  all_flags_kept [] u r h = h
  all_flags_kept (none ∷ slots) u r h = all_flags_kept slots u r h
  all_flags_kept (some p ∷ slots) u r h =
      all_flags_kept slots (update u p true) r (ground (arith, h))

  pub all_flags_lem :
      (slots : List (Option Ptr)) (u : Flags) (r : Ptr)
      → holds slots r ≡ true
      → all_flags slots u r ≡ true
  unfolding all_flags
  all_flags_lem [] u r h = cc
  all_flags_lem (none ∷ slots) u r h = all_flags_lem slots u r h
  all_flags_lem (some p ∷ slots) u r h = elim (Bool-cases (p == r)) [
    | inl e ↦ all_flags_kept slots (update u p true) r (ground (arith, e))
    | inr e ↦ all_flags_lem slots (update u p true) r (ground (arith, h, e))
  ]

  pub mark_all-Turns :
      (slots : List (Option Ptr)) (u : Flags)
      → AllKnown slots
      → Turns (mark_all slots) u (all_flags slots u)
  unfolding mark_all all_flags
  mark_all-Turns [] u known = λ h flags. (h, refl, flags)
  mark_all-Turns (none ∷ slots) u known = mark_all-Turns slots u known
  mark_all-Turns (some p ∷ slots) u known =
      let (m, here, is_ip) = known p (ground arith) in
      Turns-then (load p >>= λ m. store p (record m { unique = true })) (mark_all slots) u
        (update u p true) _
        (Turns-load p m (λ m. store p (record m { unique = true })) u (update u p true) here
          (Turns-store p m true u here))
        (mark_all-Turns slots (update u p true) (λ q held. known q (ground (arith, held))))

  compare-Turns :
      (p q : Ptr) (m first : Machine) (u : Flags) (b : Bool)
      → get_elem? w.heap q ≡ some m
      → m.ip_addr ≡ some (host q)
      → get_elem? w.heap p ≡ some first
      → first.ip_addr ≡ some (host p)
      → Turns
          (compare_hosts p q (record m { unique = b }))
          u
          (if b && str_eq (host p) (host q) then update u q false else u)
  compare-Turns p q m first u false here ip first_here first_ip = λ h flags. (h, refl, flags)
  compare-Turns p q m first u true here ip first_here first_ip =
      Turns-load p first
        (λ first. deref first.ip_addr >>= λ ip. deref m.ip_addr >>= λ ip'.
          if str_eq ip ip' then store q (record m { unique = false }) else pure tt)
        u _ first_here
        (λ h flags.
          let (h', e, flags') = stored (str_eq (host p) (host q)) h flags in
          (
            h',
            ap
                  (λ o.
                    (deref o >>= λ ip. deref m.ip_addr >>= λ ip'.
                    if str_eq ip ip' then store q (record m { unique = false }) else pure tt)
                      (at h))
                  first_ip
                ∙ ap
                    (λ o.
                      (deref o >>= λ ip'.
                      if str_eq (host p) ip'
                      then store q (record m { unique = false })
                      else pure tt)
                        (at h))
                    ip
                ∙ e,
            flags',
          ))
    where
      stored :
          (c : Bool)
          → Turns
              (if c then store q (record m { unique = false }) else pure tt)
              u
              (if c then update u q false else u)
      stored true = Turns-store q m false u here
      stored false = λ h flags. (h, refl, flags)

  mark_later-Turns :
      (p : Ptr) (first : Machine) (slots : List (Option Ptr)) (u : Flags)
      → get_elem? w.heap p ≡ some first
      → first.ip_addr ≡ some (host p)
      → AllKnown slots
      → Turns (mark_later p slots) u (later_flags host p slots u)
  unfolding mark_later later_flags
  mark_later-Turns p first [] u here ip known = λ h flags. (h, refl, flags)
  mark_later-Turns p first (none ∷ slots) u here ip known =
      mark_later-Turns p first slots u here ip known
  mark_later-Turns p first (some q ∷ slots) u here ip known =
      let (m, there, is_ip) = known q (ground arith) in
      Turns-then (load q >>= compare_hosts p q) (mark_later p slots) u _ _
        (Turns-load q m (compare_hosts p q) u _ there
          (compare-Turns p q m first u (u q) there is_ip here ip))
        (mark_later-Turns p first slots
          (if u q && str_eq (host p) (host q) then update u q false else u) here ip
          (λ r held. known r (ground (arith, held))))

  pub mark_unique-Turns :
      (slots : List (Option Ptr)) (u : Flags)
      → AllKnown slots
      → Turns (mark_unique slots) u (unique_flags host slots u)
  unfolding mark_unique unique_flags
  mark_unique-Turns [] u known = λ h flags. (h, refl, flags)
  mark_unique-Turns (none ∷ slots) u known = mark_unique-Turns slots u known
  mark_unique-Turns (some p ∷ slots) u known =
      let (m, here, is_ip) = known p (ground arith) in
      let others : AllKnown slots = λ q held. known q (ground (arith, held)) in
      Turns-then (load p >>= λ m. if m.unique then mark_later p slots else pure tt)
        (mark_unique slots) u _ _
        (Turns-load p m (λ m. if m.unique then mark_later p slots else pure tt) u _ here
          (if_unique (u p) (mark_later-Turns p m slots u here is_ip others)))
        (mark_unique-Turns slots (if u p then later_flags host p slots u else u) others)
    where
      if_unique :
          (b : Bool)
          → Turns (mark_later p slots) u (later_flags host p slots u)
          → Turns
              (if b then mark_later p slots else pure tt)
              u
              (if b then later_flags host p slots u else u)
      if_unique true h = h
      if_unique false h = λ heap flags. (heap, refl, flags)
