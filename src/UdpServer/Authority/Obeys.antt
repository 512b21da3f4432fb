-- ===== src/UdpServer/Authority/Obeys.antt =====
-- A TERM of the master is obeyed.
use parallel_wrapper.Base.{ℕ, ◌≡◌, ap, ◌∙◌, some, true, ◌&&◌, [], ◌∷◌, arith, ◌==◌}
use parallel_wrapper.Base.Int.{ℤ}
use parallel_wrapper.Base.Text.{Bytes, str_eq, str_eq_refl}
use parallel_wrapper.Cleanup.Exits.{cleanup-exits}
use parallel_wrapper.Cleanup.{cleanup}
use parallel_wrapper.System.{Os, Trace, cancelled_listener}
use parallel_wrapper.NetworkUtil.{port_from_sockaddr}
use parallel_wrapper.StringUtil.Integer.{parsed, parse_integer}
use parallel_wrapper.UdpServer.Authority.{FromMaster}
use parallel_wrapper.UdpServer.Message.{Message, is_master}
use parallel_wrapper.UdpServer.Runs.{
  run-return_if, run-deref, run-load, run-parse_arg, run-source_ip, run-require_master,
  run-send_ack,
}
use parallel_wrapper.UdpServer.Safety.Parts.{array_of}
use parallel_wrapper.UdpServer.Term.{obey_term, obey_if, handle_term}
use parallel_wrapper.Wrapper.{World}
use parallel_wrapper.Wrapper.Action.{Result, exited, emit, ◌>>◌}
use parallel_wrapper.Wrapper.Invariant.{IsValid}

-- The state at the end: the mutex and the trace alone are others.
abbrev ended : World → Trace → World
ended w t = record w { keep_alive_locked = true; trace = t }

obey_term-exits :
    (os : Os) (msg : Message) (code : ℤ) (w : World)
    → IsValid w.par_wrapper w.heap
    → (t : Trace) × (obey_term os msg code w ≡ (exited code, ended w t))
unfolding obey_term
obey_term-exits os msg code w v =
    let (rc, t, sent) =
      run-send_ack os msg w v.me (λ _. emit cancelled_listener >> cleanup os code) v.is_me in
    let (t', e) = cleanup-exits os code (record w { trace = cancelled_listener ∷ t }) v in
    (t', sent ∙ e)

same_source : (ip : Bytes) (a b : ℕ) → a ≡ b → str_eq ip ip && a == b ≡ true
same_source ip a b e = ground (arith, str_eq_refl ip)

-- In a valid state, a TERM with a number for its argument, from the address and the port of the
-- master, ends a slave with that number for its exit code, if the address buffer can be allocated.
pub handle_term-obeys :
    (os : Os) (msg : Message) (w : World) (command arg : Bytes) (code : ℤ)
    → IsValid w.par_wrapper w.heap
    → FromMaster os msg w
    → msg.args ≡ some (array_of (command ∷ arg ∷ []))
    → parse_integer (some arg) true ≡ parsed code
    → os.malloc_ok ≡ true
    → (t : Trace) × (handle_term os msg w
        ≡ (exited code, record w { keep_alive_locked = true; trace = t }))
unfolding handle_term
handle_term-obeys os msg w command arg code v f is_args is_code memory =
    let (t, e) = obey_term-exits os msg code w v in
    let same : str_eq f.ip f.ip && f.machine.port == port_from_sockaddr (some msg.from) ≡ true =
      same_source f.ip f.machine.port (port_from_sockaddr (some msg.from)) f.same_port in
    let R : Result (Unit {0}) × World = (exited code, ended w t) in
    (
      t,
      run-deref w R msg.args (array_of (command ∷ arg ∷ [])) _ is_args (
          run-load w R w.par_wrapper.this_machine f.me _ f.is_me (
            run-return_if w R (is_master f.me) 1 _ f.other_rank (
              run-require_master w R 1 f.ptr f.machine f.ip _ f.is_ptr f.is_machine f.known (
                run-parse_arg w R (array_of (command ∷ arg ∷ [])) 1 2 code _ is_code (
                  run-source_ip w R os msg f.ip _ memory f.same_ip (
                    run-deref w R w.par_wrapper.master f.ptr _ f.is_ptr (
                      run-load w R f.ptr f.machine _ f.is_machine (
                        run-deref w R f.machine.ip_addr f.ip _ f.known
                          (ap (λ b. obey_if b os msg code w) same ∙ e))))))))),
    )
