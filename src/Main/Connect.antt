-- ===== src/Main/Connect.antt =====
-- src/main.c: what the scratch directory and the attributes of the job leave as it was set up.
pub mod Slave
pub mod Joins
use parallel_wrapper.Base.{
  ℕ, zero, suc, ◌≡◌, ◌≢◌, refl, sym, ap, ◌∙◌, subst, ◌⊎◌, inl, inr, Option, none, some,
  some-injective, Bool, true, false, not, List, [], ◌∷◌, get_elem?, get_elem?-lt,
  get_elem?-set_self, get_elem?-set_ne, set, if◌then◌else◌, arith,
}
use native.Mathlib.Decide.{ℕ_discrete}
use parallel_wrapper.Base.Int.{ℤ, pos, eqb_ℤ}
use parallel_wrapper.Base.Text.{Bytes, codes}
use parallel_wrapper.Main.Fresh.{IsFresh, same-IsFresh}
use parallel_wrapper.Chirp.{
  ChirpOs, set_attr, ip_name, port_name, quoted, publish, take_port, take_ip, take_random,
  fetch_round, fetch, take_status, iwd_or_cwd, or_else, find_master, chirp_info,
}
use parallel_wrapper.Chirp.Attributes.{GetAttr, get_chirp_integer, get_chirp_string}
use parallel_wrapper.Scratch.Create.{
  ScratchOs, tmpdir, set_scratch_dir, clean_old, made_dir, from_template, create_scratch,
}
use parallel_wrapper.StringUtil.Integer.{Parsed, failed, parsed, format_int}
use parallel_wrapper.StringUtil.Paths.{join_paths}
use parallel_wrapper.System.{Os, Trace, set_attribute}
use parallel_wrapper.UdpClient.{snprintf}
use parallel_wrapper.UdpServer.Links.{IsLinkless, unchanged, made, gone, cleanup_scratch-IsLinkless}
use parallel_wrapper.Wrapper.Action.{Action, Result, pure, emit, ◌>>=◌, ◌>>◌}
use parallel_wrapper.Wrapper.Completes.{OnOk, OnOk-bind, OnOk-load, OnOk-deref, OnOk-return_if}
use parallel_wrapper.Wrapper.Invariant.{IsKnown, IsTable, IsValid}
use parallel_wrapper.Wrapper.{Machine, Ptr, ParallelWrapper, World, master_rank}

-- A pointer holds one machine.
pub one_machine : {m m' : Machine} {o : Option Machine} → o ≡ some m → o ≡ some m' → m ≡ m'
one_machine h k = cc

-- A new version of a machine: of the same rank, and on the master of the same address.
module _ (pw : ParallelWrapper) (heap : List Machine) (p : Ptr) (m m' : Machine)
    (here : get_elem? heap p ≡ some m) (rank : m'.rank ≡ m.rank) (v : IsValid pw heap)
    (address : v.me.rank ≡ master_rank → m'.ip_addr ≡ m.ip_addr) where
  at_self : get_elem? (set heap p m') p ≡ some m'
  at_self = get_elem?-set_self heap p m' (get_elem?-lt heap p here)

  -- What stands at a pointer afterwards.
  found :
      (q : Ptr) (n : Machine)
      → get_elem? heap q ≡ some n
      → (n' : Machine) × (get_elem? (set heap p m') q ≡ some n')
        × (n'.rank ≡ n.rank)
        × (v.me.rank ≡ master_rank → n'.ip_addr ≡ n.ip_addr)
  found q n there = elim (ℕ_discrete p q) [
    | yes e ↦
        let same : m ≡ n = one_machine here (ap (get_elem? heap) e ∙ there) in
        (
          m',
          subst (λ q. get_elem? (set heap p m') q ≡ some m') e at_self,
          rank ∙ ap (λ (m : Machine). m.rank) same,
          λ r. address r ∙ ap (λ (m : Machine). m.ip_addr) same,
        )
    | no ne ↦ (n, get_elem?-set_ne heap p q m' ne ∙ there, refl, λ r. refl)
  ]

  stored-IsValid : IsValid pw (set heap p m')
  stored-IsValid =
      let (me, is_me, same, _) = found pw.this_machine v.me v.is_me in
      record {
        me = me;
        is_me = is_me;
        master = λ q h.
            let (n, there) = v.master q h in
            let (n', there', _, _) = found q n there in (n', there');
        has_table = λ h.
            let r = sym same ∙ h in
            let t = v.has_table r in
            record {
              table = t.table;
              is_table = t.is_table;
              size = t.size;
              known = λ k q at.
                  let (n, ip, there, known) = t.known k q at in
                  let (n', there', _, kept) = found q n there in (n', ip, there', kept r ∙ known);
            };
      }

  -- This process has the rank it had.
  pub same_rank :
      (n : Machine) → get_elem? (set heap p m') pw.this_machine ≡ some n → n.rank ≡ v.me.rank
  same_rank n h =
      let (n', there, same, _) = found pw.this_machine v.me v.is_me in
      ap (λ (m : Machine). m.rank) (one_machine h there) ∙ same

-- The server can start on the state.
pub record IsReady (w : World) : Type 0 where
  pub valid : IsValid w.par_wrapper w.heap
  pub fresh : IsFresh w

abbrev pub Readies : {A : Type 0} → Action A → Type 0
Readies m = (w : World) → IsReady w → OnOk (λ _ w. IsReady w) (m w)

pub then_Readies :
    {A B : Type 0} (m : Action A) (k : A → Action B)
    → Readies m
    → ((a : A) → Readies (k a))
    → Readies (m >>= k)
then_Readies m k hm hk w h =
    OnOk-bind (λ _ w. IsReady w) (λ _ w. IsReady w) (m w) k (hm w h) (λ a w h. hk a w h)

-- A change of other fields of the wrapper, or of the trace where it tells of no link.
pub rewrapped :
    (w : World) (pw' : ParallelWrapper) (t : Trace)
    → pw'.this_machine ≡ w.par_wrapper.this_machine
    → pw'.master ≡ w.par_wrapper.master
    → pw'.machines ≡ w.par_wrapper.machines
    → pw'.num_procs ≡ w.par_wrapper.num_procs
    → pw'.symlinks ≡ w.par_wrapper.symlinks
    → IsLinkless w.trace t
    → IsReady w
    → IsReady (record w { par_wrapper = pw'; trace = t })
rewrapped w pw' t this master machines procs links silent h = record {
  valid = record {
    me = h.valid.me;
    is_me = ap (get_elem? w.heap) this ∙ h.valid.is_me;
    master = λ p e. h.valid.master p (sym master ∙ e);
    has_table = λ r.
        let b = h.valid.has_table r in
        record {
          table = b.table;
          is_table = machines ∙ b.is_table;
          size = procs ∙ b.size;
          known = b.known;
        };
  };
  fresh = record {
    list = h.fresh.list;
    is_list = links ∙ h.fresh.is_list;
    no_names = h.fresh.no_names;
    none_made = silent.same_made ∙ h.fresh.none_made;
    none_gone = silent.same_gone ∙ h.fresh.none_gone;
  };
}

pub stored-IsReady :
    (w : World) (p : Ptr) (m m' : Machine) (h : IsReady w)
    → get_elem? w.heap p ≡ some m
    → m'.rank ≡ m.rank
    → (h.valid.me.rank ≡ master_rank → m'.ip_addr ≡ m.ip_addr)
    → IsReady (record w { heap = set w.heap p m' })
stored-IsReady w p m m' h here rank address = record {
  valid = stored-IsValid w.par_wrapper w.heap p m m' here rank h.valid address;
  fresh = same-IsFresh refl refl h.fresh;
}

pub create_scratch-Readies : (os : Os) (sos : ScratchOs) → Readies (create_scratch os sos)
unfolding create_scratch
create_scratch-Readies os sos w h =
    then_Readies (clean_old os w.par_wrapper.scratch_dir) _ (clean w.par_wrapper.scratch_dir)
      (λ _. from (join_paths os.malloc_ok os.garbage (tmpdir sos.getenv) _)) w h
  where
    clean : (dir : Option Bytes) → Readies (clean_old os dir)
    clean none w h = h
    clean (some dir) w h =
        rewrapped w w.par_wrapper _ refl refl refl refl refl
          (cleanup_scratch-IsLinkless os (some dir) w.trace) h

    dir_set : (dir : Option Bytes) → Readies (set_scratch_dir dir)
    dir_set dir w h =
        rewrapped w (record w.par_wrapper { scratch_dir = dir }) w.trace refl refl refl refl refl
          (unchanged w.trace) h

    from_made : (dir : Option Bytes) → Readies (made_dir dir)
    from_made none w h = dir_set none w h
    from_made (some dir) w h = dir_set (some dir) w h

    from : (template : Option Bytes) → Readies (from_template sos template)
    from none w h = dir_set none w h
    from (some template) w h = from_made (sos.mkdtemp template) w h
