-- ===== src/Main/Prepare/Valid.antt =====
-- src/main.c: what holds when a process has been set up.
use parallel_wrapper.Base.{
  ℕ, zero, suc, ◌≡◌, ◌≢◌, refl, sym, ap, subst, ◌∙◌, none, some, Bool, true, false, not, [], ◌∷◌,
  ◌++◌, get_elem?, get_elem?-append, get_elem?-append_end, replicate, length-replicate,
  if◌then◌else◌, arith,
}
use parallel_wrapper.Args.{
  parse_environment_vars, parse_args, PathResult, path_kept, path_set, overflow,
  set_environment_vars,
}
use parallel_wrapper.Args.Bounds.{
  IsConfigured, Configures, parse_args-Configures, parse_environment_vars-Configures,
}
use parallel_wrapper.Base.Int.{ℤ, pos, pos_part, eqb_ℤ, eqb_ℤ→eq}
use parallel_wrapper.Main.Prepare.{
  StartOs, low_port, high_port, initial, take_path, space_intervals, take_address, store_port,
  new_table, new_master, set_master, check_required, configure, prepare,
}
use parallel_wrapper.Main.Prepare.Stages.{
  IsSpaced, IsChecked, IsAddressed, Spaced, check_required-IsChecked, space_intervals-Spaced,
  take_address-IsAddressed, store_port-IsAddressed, this_is_me, same_machine, same_pointer,
}
use parallel_wrapper.NetworkUtil.Interfaces.{get_ip_addr}
use parallel_wrapper.NetworkUtil.Sockets.{get_bound_dgram_socket_by_range}
use parallel_wrapper.System.{Os}
use parallel_wrapper.Wrapper.{Machine, blank_machine, Ptr, World, master_rank}
use parallel_wrapper.Wrapper.Action.{returned, Action, return_if, ◌>>◌}
use parallel_wrapper.Wrapper.Completes.{OnOk, OnOk-bind, OnOk-load, OnOk-return_if}
use parallel_wrapper.Wrapper.Invariant.{IsKnown, IsTable, IsValid}

-- What `main` has set up: a valid state, with intervals that fit; on the master the
-- table has this machine at rank 0 and no other one.
pub record IsPrepared (w : World) : Type 0 where
  pub valid : IsValid w.par_wrapper w.heap
  pub spaced : IsSpaced w.par_wrapper
  pub alone :
      valid.me.rank ≡ master_rank
      → (n : ℕ) × (w.par_wrapper.machines
          ≡ some (some w.par_wrapper.this_machine ∷ replicate n none))

-- The machine itself is the only entry of a new table.
new_table-known :
    (n r : ℕ) (p q : Ptr) → get_elem? (some p ∷ replicate n none) r ≡ some (some q) → p ≡ q
new_table-known n zero p q h = cc
new_table-known zero (suc r) p q h = absurd cc
new_table-known (suc n) (suc zero) p q h = absurd cc
new_table-known (suc n) (suc (suc r)) p q h = new_table-known n (suc r) p q h

new_table-IsPrepared :
    (w : World) (a : IsAddressed w) (n : ℕ)
    → pos_part w.par_wrapper.num_procs ≡ n
    → a.checked.me.rank ≡ master_rank
    → OnOk (λ _ w. IsPrepared w) (new_table w.par_wrapper n w)
new_table-IsPrepared w a zero e is_master = tt
new_table-IsPrepared w a (suc n) e is_master =
    let c = a.checked in
    let this = w.par_wrapper.this_machine in
    let here = this_is_me w a in
    let table : IsTable
        (record w.par_wrapper {
          master = some this;
          machines = some (some this ∷ replicate n none);
        })
        w.heap =
      record {
        table = some this ∷ replicate n none;
        is_table = refl;
        size =
            c.is_count
            ∙ ap pos (sym (ap pos_part c.is_count) ∙ e ∙ ap suc (sym (length-replicate n none)));
        known = λ r q h.
            subst (IsKnown w.heap) (new_table-known n r this q h) (c.me, a.ip, here, a.is_ip);
      } in
    record {
      valid = record {
        me = c.me;
        is_me = here;
        master = λ p h. (c.me, subst (λ q. get_elem? w.heap q ≡ some c.me) (same_pointer h) here);
        has_table = λ _. table;
      };
      spaced = a.spaced;
      alone = λ _. (n, refl);
    }

new_master-IsPrepared :
    (w : World) (a : IsAddressed w)
    → a.checked.me.rank ≢ master_rank
    → OnOk (λ _ w. IsPrepared w) (new_master w.par_wrapper w)
new_master-IsPrepared w a no_master =
    let c = a.checked in
    let this = w.par_wrapper.this_machine in
    let other : Machine = record blank_machine { rank = master_rank } in
    let here : get_elem? (w.heap ++ other ∷ []) this ≡ some c.me =
      get_elem?-append w.heap (other ∷ []) this (this_is_me w a) in
    record {
      valid = record {
        me = c.me;
        is_me = here;
        master = λ p h. (
          other,
          subst (λ q. get_elem? (w.heap ++ other ∷ []) q ≡ some other) (same_pointer h)
              (get_elem?-append_end w.heap other []),
        );
        has_table = λ h. absurd (no_master h);
      };
      spaced = a.spaced;
      alone = λ h. absurd (no_master h);
    }

set_master-IsPrepared :
    (os : Os) (w : World) → IsAddressed w → OnOk (λ _ w. IsPrepared w) (set_master os w)
unfolding set_master
set_master-IsPrepared os w a =
    OnOk-load (λ _ w. IsPrepared w) w w.par_wrapper.this_machine by_rank
      (λ m here.
        go m (same_machine m a.checked.me here (this_is_me w a)) (eqb_ℤ m.rank master_rank) refl)
  where
    by_rank : Machine → Action (Unit {0})
    by_rank me =
        if eqb_ℤ me.rank master_rank
        then return_if (not os.calloc_ok) 3
          >> new_table w.par_wrapper (pos_part w.par_wrapper.num_procs)
        else return_if (not os.calloc_ok) 2 >> new_master w.par_wrapper

    go :
        (m : Machine)
        → m ≡ a.checked.me
        → (b : Bool) → eqb_ℤ m.rank master_rank ≡ b
        → OnOk
            (λ _ w. IsPrepared w)
            ((if b
                then return_if (not os.calloc_ok) 3
                  >> new_table w.par_wrapper (pos_part w.par_wrapper.num_procs)
                else return_if (not os.calloc_ok) 2 >> new_master w.par_wrapper)
              w)
    go m same true e =
        OnOk-return_if (λ _ w. IsPrepared w) w (not os.calloc_ok) 3
          (new_table w.par_wrapper (pos_part w.par_wrapper.num_procs))
          (λ _.
            new_table-IsPrepared w a (pos_part w.par_wrapper.num_procs) refl
              (ap (λ m. m.rank) (sym same) ∙ eqb_ℤ→eq m.rank master_rank e))
    go m same false e =
        OnOk-return_if (λ _ w. IsPrepared w) w (not os.calloc_ok) 2 (new_master w.par_wrapper)
          (λ _. new_master-IsPrepared w a (λ h. not_equal (ap (λ m. m.rank) same ∙ h) e))
      where
        not_equal : {v : ℤ} → v ≡ master_rank → eqb_ℤ v master_rank ≡ false → ⊥
        not_equal h e = cc

take_path-IsConfigured : (r : PathResult) (w : World) → IsConfigured w → Configures (take_path r w)
take_path-IsConfigured path_kept w c = c
take_path-IsConfigured (path_set path) w c = c
take_path-IsConfigured overflow w c = tt

module _ (s : StartOs) where
  addressed :
      (w : World)
      → IsChecked w
      → OnOk
          (λ _ w. IsPrepared w)
          ((space_intervals
              >> (take_address (get_ip_addr s.os s.ifaddrs)
                  >> (store_port
                        (get_bound_dgram_socket_by_range s.sockets low_port high_port s.open_fds).0
                      >> set_master s.os)))
            w)
  addressed w c =
      OnOk-bind (λ _ w. Spaced w) (λ _ w. IsPrepared w) (space_intervals w) _
        (space_intervals-Spaced w c)
        (λ _ w s'.
          OnOk-bind (λ _ w. IsAddressed w) (λ _ w. IsPrepared w)
            (take_address (get_ip_addr s.os s.ifaddrs) w) _
            (take_address-IsAddressed (get_ip_addr s.os s.ifaddrs) w s')
            (λ _ w a.
              OnOk-bind (λ _ w. IsAddressed w) (λ _ w. IsPrepared w)
                (store_port
                  (get_bound_dgram_socket_by_range s.sockets low_port high_port s.open_fds).0 w)
                _
                (store_port-IsAddressed
                  (get_bound_dgram_socket_by_range s.sockets low_port high_port s.open_fds).0 w a)
                (λ _ w a. set_master-IsPrepared s.os w a)))

  configure-IsPrepared : (w : World) → IsConfigured w → OnOk (λ _ w. IsPrepared w) (configure s w)
  unfolding configure
  configure-IsPrepared w c =
      OnOk-bind (λ _ w. IsConfigured w) (λ _ w. IsPrepared w)
        (parse_environment_vars s.scratch.getenv w) _
        (parse_environment_vars-Configures s.scratch.getenv w c)
        (λ _ w c.
          OnOk-bind (λ _ w. IsConfigured w) (λ _ w. IsPrepared w)
            (parse_args s.os.calloc_ok s.opts s.words w) _
            (parse_args-Configures s.os.calloc_ok s.opts s.words w c)
            (λ _ w c.
              OnOk-bind (λ _ w. IsConfigured w) (λ _ w. IsPrepared w)
                (take_path (set_environment_vars s.os.calloc_ok s.scratch.getenv) w) _
                (take_path-IsConfigured (set_environment_vars s.os.calloc_ok s.scratch.getenv) w c)
                (λ _ w c.
                  OnOk-bind (λ _ w. IsChecked w) (λ _ w. IsPrepared w) (check_required w) _
                    (check_required-IsChecked w c) (λ _ w c. addressed w c))))

-- When `main` gets to the scratch directory, whatever the environment, the command line, the
-- interfaces and the ports were, the state is valid: the server can start on it. The keep-alive
-- interval is positive, twice the interval as an `int`, which wraps from 2^30 on, is less than the
-- timeout, and the master's table has it at rank 0 and no other machine.
pub prepare-IsPrepared : (s : StartOs) → OnOk (λ _ w. IsPrepared w) (prepare s)
unfolding prepare configure initial
prepare-IsPrepared s = go s.os.calloc_ok
  where
    start : IsConfigured (initial s)
    start = record {
      me = _;
      is_heap = refl;
      is_this = refl;
      num_procs_int = omega arith;
      timeout_int = omega arith;
      timeout_bound = omega arith;
      interval_int = omega arith;
      interval_bound = omega arith;
    }

    go :
        (b : Bool)
        → OnOk
            (λ _ w. IsPrepared w)
            (if not b then (returned 1, initial s) else configure s (initial s))
    go true = configure-IsPrepared s (initial s) start
    go false = tt
