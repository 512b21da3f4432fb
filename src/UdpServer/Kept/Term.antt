-- ===== src/UdpServer/Kept/Term.antt =====
-- `cleanup` and `handle_term` of src/cleanup.c and src/udp_server.c keep what their steps keep.
use parallel_wrapper.Base.{
  ℕ, ◌-◌, refl, Option, none, some, Bool, true, false, not, ◌&&◌, List, ◌∷◌, ◌==◌,
}
use parallel_wrapper.Base.Int.{ℤ, pos, pos_part, eqb_ℤ}
use parallel_wrapper.Base.Text.{str_eq}
use parallel_wrapper.Cleanup.{
  cleanup, term_table, term_if, term_all, term_machine, kill_if, kill_children, lock_keep_alive,
}
use parallel_wrapper.NetworkUtil.{port_from_sockaddr}
use parallel_wrapper.System.{Os, Event, Sockaddr, Trace, killed_group, cancelled_listener}
use parallel_wrapper.UdpClient.{term}
use parallel_wrapper.UdpServer.Kept.{
  Kept, IsKept, Kept-bind, Kept-return_if, Kept-deref, Kept-load, Kept-parse_arg, Kept-source_ip,
}
use parallel_wrapper.UdpServer.Links.{
  IsLinkless, term-IsLinkless, cleanup_scratch-IsLinkless, made, gone,
}
use parallel_wrapper.UdpServer.Message.{Message, is_master}
use parallel_wrapper.UdpServer.Term.{obey_term, obey_if, handle_term}
use parallel_wrapper.Wrapper.{Machine, Ptr, ParallelWrapper, World, master_rank}
use parallel_wrapper.Wrapper.Action.{emit, on_trace, pure, ◌>>◌}
use parallel_wrapper.UdpServer.Kept.Loops.{
  AllKept, on_trace-AllKept, for_machines-AllKept, repeat-AllKept,
}
use parallel_wrapper.UdpServer.Kept.Handlers.{send_ack-AllKept, require_master-AllKept}

module _ (P E : World → Type 0) (Allowed : Os → Type 0) (From : Sockaddr → Type 0)
    (law : IsKept P E Allowed From) where
  emit-AllKept : (e : Event) → ((t : Trace) → IsLinkless t (e ∷ t)) → AllKept P E (emit e)
  emit-AllKept e k w h = law.traced w _ (k w.trace).same_made (k w.trace).same_gone h

  term_machine-AllKept :
      (os : Os) (fd rc : ℤ) (i : ℕ) (m : Machine) → AllKept P E (term_machine os fd rc i m)
  unfolding term_machine
  term_machine-AllKept os fd rc i m =
      repeat-AllKept P E 10 (on_trace (term os fd rc m.ip_addr m.port) >> pure tt) λ w h.
        Kept-bind P E (on_trace (term os fd rc m.ip_addr m.port) w) (λ _. pure tt)
          (on_trace-AllKept P E Allowed From law (term os fd rc m.ip_addr m.port)
            (λ t. term-IsLinkless os t fd rc m.ip_addr m.port) w h)
          λ _ w' h'. h'

  term_if-AllKept :
      (b : Bool) (os : Os) (rc : ℤ) (pw : ParallelWrapper) → AllKept P E (term_if b os rc pw)
  term_if-AllKept false os rc pw w h = h
  term_if-AllKept true os rc pw w h = go pw.machines
    where
      go : (o : Option (List (Option Ptr))) → Kept P E (term_table os rc pw o w)
      go none = h
      go (some machines) =
          for_machines-AllKept P E machines (term_machine os pw.command_socket rc)
            (λ i m. term_machine-AllKept os pw.command_socket rc i m) (pos_part pw.num_procs - 1) 1
            w h

  term_all-AllKept : (os : Os) (rc : ℤ) → AllKept P E (term_all os rc)
  unfolding term_all
  term_all-AllKept os rc w h =
      Kept-load P E w h w.par_wrapper.this_machine _
        λ me _. term_if-AllKept (eqb_ℤ me.rank master_rank) os rc w.par_wrapper w h

  kill_children-AllKept : AllKept P E kill_children
  unfolding kill_children made gone
  kill_children-AllKept w h = go _ w.par_wrapper.child_pid
    where
      go : (b : Bool) (pid : ℤ) → Kept P E (kill_if b pid w)
      go true pid =
          emit-AllKept (killed_group pid) (λ t. record { same_made = refl; same_gone = refl }) w h
      go false pid = h

  module _ (os : Os) (allowed : Allowed os) where
    pub cleanup-AllKept : (rc : ℤ) → AllKept P E (cleanup os rc)
    unfolding cleanup lock_keep_alive
    cleanup-AllKept rc w h =
        Kept-bind P E _ _ (term_all-AllKept os rc _ (law.flagged w true w.exit_flag h)) λ _ w1 h1.
          Kept-bind P E _ _ (kill_children-AllKept w1 h1) λ _ w2 h2.
            let scratch = cleanup_scratch-IsLinkless os w2.par_wrapper.scratch_dir w2.trace in
            law.ended os allowed _ (law.traced w2 _ scratch.same_made scratch.same_gone h2)

    obey_if-AllKept : (b : Bool) (msg : Message) (rc : ℤ) → AllKept P E (obey_if b os msg rc)
    unfolding obey_term made gone
    obey_if-AllKept false msg rc w h = h
    obey_if-AllKept true msg rc w h =
        Kept-bind P E _ _ (send_ack-AllKept P E Allowed From law os msg w h) λ _ w1 h1.
          cleanup-AllKept rc _ (law.traced w1 (cancelled_listener ∷ w1.trace) refl refl h1)

    pub handle_term-AllKept : (msg : Message) → AllKept P E (handle_term os msg)
    unfolding handle_term
    handle_term-AllKept msg w h = Kept-deref P E w h msg.args _ λ args _.
        Kept-return_if P E w h (not (eqb_ℤ args.dim (pos 2))) 1 _ λ _.
          Kept-load P E w h w.par_wrapper.this_machine _ λ me _.
            Kept-return_if P E w h (is_master me) 1 _ λ _.
              Kept-bind P E _ _ (require_master-AllKept P E Allowed From law 1 w h) λ _ w1 h1.
                Kept-parse_arg P E w1 h1 args 1 2 _ λ return_code _.
                  Kept-source_ip P E w1 h1 os msg _ λ ip.
                    Kept-deref P E w1 h1 w.par_wrapper.master _ λ p _.
                      Kept-load P E w1 h1 p _ λ m _. Kept-deref P E w1 h1 m.ip_addr _ λ known _.
                        obey_if-AllKept
                          (str_eq known ip && m.port == port_from_sockaddr (some msg.from)) msg
                          return_code w1 h1
