-- ===== src/Cleanup/Exits.antt =====
-- `cleanup` always comes to its `exit`.
use parallel_wrapper.Base.{ℕ, ◌-◌, ◌≡◌, refl, sym, ap, ◌∙◌, subst, arith, Bool, true, false}
use parallel_wrapper.Base.Int.{ℤ, pos_part, eqb_ℤ, eqb_ℤ→eq}
use parallel_wrapper.System.{Trace, Os}
use parallel_wrapper.Scratch.{cleanup_scratch}
use parallel_wrapper.UdpClient.{term}
use parallel_wrapper.Cleanup.{
  cleanup, term_if, term_table, kill_if, term_all, term_machine, kill_children, lock_keep_alive,
  unlink_all,
}
use parallel_wrapper.Wrapper.{Machine, World, master_rank}
use parallel_wrapper.Wrapper.Action.{exited, wrapper, on_trace, exit_with, then_do, ◌>>=◌, ◌>>◌}
use parallel_wrapper.Wrapper.Ensures.{load_lem}
use parallel_wrapper.Wrapper.Invariant.{IsValid, IsTable}
use parallel_wrapper.Wrapper.Machines.Quiet.{
  Quiet, AllQuiet, on_trace-AllQuiet, repeat-AllQuiet, for_machines-AllQuiet,
}

term_machine-AllQuiet :
    (os : Os) (fd rc : ℤ) (i : ℕ) (m : Machine) (w : World) → AllQuiet (term_machine os fd rc i m) w
unfolding term_machine
term_machine-AllQuiet os fd rc i m w =
    repeat-AllQuiet 10 _ w (on_trace-AllQuiet (term os fd rc m.ip_addr m.port) w)

module _ (w : World) (os : Os) (rc : ℤ) where
  -- The table is needed on the master alone.
  term_if-AllQuiet :
      (b : Bool)
      → (b ≡ true → IsTable w.par_wrapper w.heap)
      → AllQuiet (term_if b os rc w.par_wrapper) w
  term_if-AllQuiet false h t = (t, refl)
  term_if-AllQuiet true h t =
      subst (λ o. Quiet (term_table os rc w.par_wrapper o) (record w { trace = t }))
        (sym (h refl).is_table)
        (for_machines-AllQuiet w (h refl).table (term_machine os w.par_wrapper.command_socket rc)
          (h refl).known (λ i m. term_machine-AllQuiet os w.par_wrapper.command_socket rc i m w)
          (pos_part w.par_wrapper.num_procs - 1) 1
          (λ j j<. let size = ap pos_part (h refl).size in omega arith) t)

kill_if-AllQuiet : (b : Bool) (child_pid : ℤ) (w : World) → AllQuiet (kill_if b child_pid) w
kill_if-AllQuiet true child_pid w t = (_, refl)
kill_if-AllQuiet false child_pid w t = (t, refl)

module _ (os : Os) (rc : ℤ) (w : World) (v : IsValid w.par_wrapper w.heap) where
  term_all-AllQuiet : AllQuiet (term_all os rc) w
  unfolding term_all
  term_all-AllQuiet t =
      let (t', e) =
        term_if-AllQuiet w os rc (eqb_ℤ v.me.rank master_rank)
          (λ b. v.has_table (eqb_ℤ→eq v.me.rank master_rank b)) t in
      (
        t',
        ap (λ r. then_do r λ me. term_if (eqb_ℤ me.rank master_rank) os rc w.par_wrapper)
              (load_lem w.par_wrapper.this_machine v.me (record w { trace = t }) v.is_me)
            ∙ e,
      )

  kill_children-AllQuiet : AllQuiet kill_children w
  unfolding kill_children
  kill_children-AllQuiet = kill_if-AllQuiet _ w.par_wrapper.child_pid w

-- `cleanup` comes to its `exit` with the given code, and changes the trace and the mutex alone.
pub cleanup-exits :
    (os : Os) (return_code : ℤ) (w : World)
    → IsValid w.par_wrapper w.heap
    → (t : Trace) × (cleanup os return_code w
        ≡ (exited return_code, record w { keep_alive_locked = true; trace = t }))
unfolding cleanup lock_keep_alive
cleanup-exits os rc w v =
    let l : World = record w { keep_alive_locked = true } in
    let (t, e) = term_all-AllQuiet os rc l v w.trace in
    let (t', e') = kill_children-AllQuiet os rc l v t in
    (
      _,
      ap
            (λ r. then_do r (λ _.
              kill_children
              >> (wrapper >>= λ pw.
                  on_trace (cleanup_scratch os pw.scratch_dir)
                  >> on_trace (λ t. (tt, unlink_all os pw.symlinks t))
                  >> exit_with rc)))
            e
          ∙ ap
              (λ r. then_do r (λ _. wrapper >>= λ pw.
                on_trace (cleanup_scratch os pw.scratch_dir)
                >> on_trace (λ t. (tt, unlink_all os pw.symlinks t))
                >> exit_with rc))
              e',
    )
