-- ===== src/Wrapper/Invariant/Laws.antt =====
-- `Keeps` composes, and carries the invariant over; the two writes of the handlers keep both.
use parallel_wrapper.Base.{
  ℕ, ◌≡◌, ◌≢◌, refl, sym, ap, ◌∙◌, Option, none, some, List, [], ◌∷◌, ◌++◌, length, get_elem?, set,
  get_elem?-set_self, get_elem?-set_ne, length-set, get_elem?-lt, get_elem?-append,
  get_elem?-append_end, some-injective, subst,
}
use native.Mathlib.Decide.{ℕ_discrete}
use parallel_wrapper.Base.Int.{pos}
use parallel_wrapper.Base.Text.{Bytes}
use parallel_wrapper.Wrapper.{Machine, Ptr, ParallelWrapper}
use parallel_wrapper.Wrapper.Invariant.{IsKnown, IsTable, IsValid, SameMachine, Keeps}

pub SameMachine-refl : (m : Machine) → SameMachine m m
SameMachine-refl m = record {
  port = refl;
  rank = refl;
  cpus = refl;
  iwd = refl;
  ip_addr = refl;
  user = refl;
}

pub SameMachine-trans : {a b c : Machine} → SameMachine a b → SameMachine b c → SameMachine a c
SameMachine-trans p q = record {
  port = q.port ∙ p.port;
  rank = q.rank ∙ p.rank;
  cpus = q.cpus ∙ p.cpus;
  iwd = q.iwd ∙ p.iwd;
  ip_addr = q.ip_addr ∙ p.ip_addr;
  user = q.user ∙ p.user;
}

pub Keeps-refl : (pw : ParallelWrapper) (heap : List Machine) → Keeps pw heap pw heap
Keeps-refl pw heap = record {
  num_procs = refl;
  command_socket = refl;
  this_machine = refl;
  master = refl;
  machines_here = λ p m e. (m, e, SameMachine-refl m);
  ranks = λ table e. (table, e, refl, λ r p h. h);
}

pub Keeps-trans :
    {pw pw' pw'' : ParallelWrapper} {heap heap' heap'' : List Machine}
    → Keeps pw heap pw' heap'
    → Keeps pw' heap' pw'' heap''
    → Keeps pw heap pw'' heap''
Keeps-trans k l = record {
  num_procs = l.num_procs ∙ k.num_procs;
  command_socket = l.command_socket ∙ k.command_socket;
  this_machine = l.this_machine ∙ k.this_machine;
  master = l.master ∙ k.master;
  machines_here = λ p m e.
      let (m', e', s') = k.machines_here p m e in
      let (m'', e'', s'') = l.machines_here p m' e' in (m'', e'', SameMachine-trans s' s'');
  ranks = λ table e.
      let (table', e', n', h') = k.ranks table e in
      let (table'', e'', n'', h'') = l.ranks table' e' in
      (table'', e'', n'' ∙ n', λ r p h. h'' r p (h' r p h));
}

-- What is known stays known.
pub Keeps-IsKnown :
    {pw pw' : ParallelWrapper} {heap heap' : List Machine} (p : Ptr)
    → Keeps pw heap pw' heap'
    → IsKnown heap p
    → IsKnown heap' p
Keeps-IsKnown p k (m, ip, e, known) =
    let (m', e', same) = k.machines_here p m e in (m', ip, e', same.ip_addr ∙ known)

-- The invariant goes over, if each rank that the table has now is known.
pub Keeps-IsValid :
    {pw pw' : ParallelWrapper} {heap heap' : List Machine}
    → IsValid pw heap
    → Keeps pw heap pw' heap'
    → ((table' : List (Option Ptr))
        → pw'.machines ≡ some table'
        → (r : ℕ) (p : Ptr) → IsTable pw heap
        → get_elem? table' r ≡ some (some p)
        → IsKnown heap' p)
    → IsValid pw' heap'
Keeps-IsValid {heap' = heap'} v k all_known =
    let (me', is_me', same) = k.machines_here _ v.me v.is_me in
    record {
      me = me';
      is_me = ap (get_elem? heap') k.this_machine ∙ is_me';
      master = λ p e.
          let (m, here) = v.master p (sym k.master ∙ e) in
          let (m', here', _) = k.machines_here p m here in (m', here');
      has_table = λ rank.
          let t = v.has_table (sym same.rank ∙ rank) in
          let (table', is_table', size', _) = k.ranks t.table t.is_table in
          record {
            table = table';
            is_table = is_table';
            size = k.num_procs ∙ t.size ∙ ap pos (sym size');
            known = λ r p e. all_known table' is_table' r p t e;
          };
    }

module _ (heap : List Machine) (p : Ptr) (m n : Machine) (here : get_elem? heap p ≡ some m)
    (same : SameMachine m n) where
  set_here :
      (q : Ptr) (a : Machine)
      → get_elem? heap q ≡ some a
      → (b : Machine) × (get_elem? (set heap p n) q ≡ some b) × SameMachine a b
  set_here q a e = elim (ℕ_discrete p q) [
    | yes eq ↦ (
      n,
      ap (get_elem? (set heap p n)) (sym eq)
          ∙ get_elem?-set_self heap p n (get_elem?-lt heap p here),
      subst (λ b. SameMachine b n) (some-injective m a (sym here ∙ ap (get_elem? heap) eq ∙ e))
          same,
    )
    | no ne ↦ (a, get_elem?-set_ne heap p q n ne ∙ e, SameMachine-refl a)
  ]

  pub set-Keeps : (pw : ParallelWrapper) → Keeps pw heap pw (set heap p n)
  set-Keeps pw = record {
    num_procs = refl;
    command_socket = refl;
    this_machine = refl;
    master = refl;
    machines_here = set_here;
    ranks = λ table e. (table, e, refl, λ r q h. h);
  }

  pub set-IsValid : (pw : ParallelWrapper) → IsValid pw heap → IsValid pw (set heap p n)
  set-IsValid pw v = Keeps-IsValid v (set-Keeps pw) λ table e r q t h.
      Keeps-IsKnown q (set-Keeps pw) (
        t.known r q (
          subst (λ l. get_elem? l r ≡ some (some q))
            (some-injective table t.table (sym e ∙ t.is_table)) h))

-- A machine that is added to the heap and entered in a free slot.
module _ (pw : ParallelWrapper) (heap : List Machine) (table : List (Option Ptr)) (rank : ℕ)
    (m : Machine) (is_table : pw.machines ≡ some table)
    (free : get_elem? table rank ≡ some none) where
  abbrev entered : ParallelWrapper
  entered = record pw { machines = some (set table rank (some (length heap))) }

  slot_ne : (r : ℕ) (p : Ptr) → get_elem? table r ≡ some (some p) → rank ≢ r
  slot_ne r p e eq = cc (subst (λ k. get_elem? table k ≡ some none) eq free)

  pub enter-Keeps : Keeps pw heap entered (heap ++ m ∷ [])
  enter-Keeps = record {
    num_procs = refl;
    command_socket = refl;
    this_machine = refl;
    master = refl;
    machines_here = λ p a e. (a, get_elem?-append heap (m ∷ []) p e, SameMachine-refl a);
    ranks = λ t e.
        let same : table ≡ t = some-injective table t (sym is_table ∙ e) in
        (
          set table rank (some (length heap)),
          refl,
          length-set table rank (some (length heap)) ∙ ap length same,
          λ r p h.
              let h' : get_elem? table r ≡ some (some p) =
                subst (λ l. get_elem? l r ≡ some (some p)) (sym same) h in
              get_elem?-set_ne table rank r (some (length heap)) (slot_ne r p h') ∙ h',
        );
  }

  pub enter-IsValid :
      {ip : Bytes} → m.ip_addr ≡ some ip → IsValid pw heap → IsValid entered (heap ++ m ∷ [])
  enter-IsValid {ip} known v =
      Keeps-IsValid v enter-Keeps λ t e r p old h. new_known t e r p old (ℕ_discrete rank r) h
    where
      new_known :
          (t : List (Option Ptr))
          → some (set table rank (some (length heap))) ≡ some t
          → (r : ℕ) (p : Ptr) → IsTable pw heap
          → Dec (rank ≡ r)
          → get_elem? t r ≡ some (some p)
          → IsKnown (heap ++ m ∷ []) p
      new_known t e r p old (yes eq) h =
          let slot : Option Ptr = some (length heap) in
          let at_rank : get_elem? (set table rank slot) rank ≡ some slot =
            get_elem?-set_self table rank slot (get_elem?-lt table rank free) in
          let found : get_elem? (set table rank slot) rank ≡ some (some p) =
            ap (λ l. get_elem? l rank) (some-injective (set table rank slot) t e)
            ∙ ap (get_elem? t) eq
            ∙ h in
          let end : length heap ≡ p =
            some-injective (length heap) p (some-injective slot (some p) (sym at_rank ∙ found)) in
          (m, ip, ap (get_elem? (heap ++ m ∷ [])) (sym end) ∙ get_elem?-append_end heap m [], known)
      new_known t e r p old (no ne) h =
          let slot : Option Ptr = some (length heap) in
          let before : get_elem? table r ≡ some (some p) =
            sym (get_elem?-set_ne table rank r slot ne)
            ∙ ap (λ l. get_elem? l r) (some-injective (set table rank slot) t e)
            ∙ h in
          let same : table ≡ old.table =
            some-injective table old.table (sym is_table ∙ old.is_table) in
          Keeps-IsKnown p enter-Keeps
            (old.known r p (subst (λ l. get_elem? l r ≡ some (some p)) same before))
