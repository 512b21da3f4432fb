-- ===== src/UdpServer/Ack/Slave.antt =====
-- What `handle_ack` does on a slave, when the master answers.
use parallel_wrapper.Base.{◌≡◌, some, Bool, true, false, not, ◌&&◌, ◌||◌, [], ◌∷◌, set, arith, ◌==◌}
use parallel_wrapper.Base.Int.{ℤ, pos, ltb_ℤ, leb_ℤ, eqb_ℤ}
use parallel_wrapper.Base.Text.{Bytes, str_eq}
use parallel_wrapper.System.{Os}
use parallel_wrapper.NetworkUtil.{port_from_sockaddr}
use parallel_wrapper.StringUtil.Integer.{parsed, parse_integer}
use parallel_wrapper.UdpServer.Ack.{ack_from_master, ack_by, require_master_if, handle_ack}
use parallel_wrapper.UdpServer.Ack.Effect.{agrees, touched}
use parallel_wrapper.UdpServer.Authority.{FromMaster}
use parallel_wrapper.UdpServer.Message.{Message, is_master, source_ip}
use parallel_wrapper.UdpServer.Runs.{
  run-return_if, run-crash_if, run-deref, run-load, run-parse_arg, run-source_ip,
  run-require_master,
}
use parallel_wrapper.UdpServer.Safety.Parts.{array_of}
use parallel_wrapper.Wrapper.{World}
use parallel_wrapper.Wrapper.Action.{Result, returned, return_if, ◌>>=◌, ◌>>◌}

module _ (os : Os) (msg : Message) (w : World) (f : FromMaster os msg w)
    (memory : os.malloc_ok ≡ true) where
  -- The state with the present time for the master.
  abbrev pub heard : World
  heard = record w { heap = set w.heap f.ptr (record f.machine { last_alive = os.now }) }

  abbrev R : Result (Unit {0}) × World
  R = (returned 0, heard)

  master_heard : ack_from_master os f.ip (port_from_sockaddr (some msg.from)) w ≡ R
  unfolding ack_from_master
  master_heard = run-deref w R w.par_wrapper.master f.ptr _ f.is_ptr (
      run-load w R f.ptr f.machine _ f.is_machine (
        run-deref w R f.machine.ip_addr f.ip _ f.known (
          run-crash_if w R
            (not (str_eq f.ip f.ip) || not (f.machine.port == port_from_sockaddr (some msg.from))) _
            (agrees f.ip f.machine.port (port_from_sockaddr (some msg.from)) f.same_port)
            (touched os f.ptr f.machine w f.is_machine))))

  by_rank :
      (b : Bool)
      → b ≡ false
      → (return_if (not b && not (eqb_ℤ (pos 0) (pos 0))) 3
            >> (require_master_if (not b) 4
                >> (source_ip os msg >>= λ ip.
                    ack_by b os (pos 0) ip (port_from_sockaddr (some msg.from)))))
          w
        ≡ R
  by_rank true e = cc
  by_rank false e =
      run-require_master w R 4 f.ptr f.machine f.ip _ f.is_ptr f.is_machine f.known
        (run-source_ip w R os msg f.ip _ memory f.same_ip master_heard)

  -- On a slave of a job with processes, an ACK of rank 0 from the address and the port of the master
  -- takes the present time as the time the master was last heard of, and changes nothing else.
  pub handle_ack-master :
      (command arg : Bytes)
      → msg.args ≡ some (array_of (command ∷ arg ∷ []))
      → parse_integer (some arg) true ≡ parsed (pos 0)
      → ltb_ℤ (pos 0) w.par_wrapper.num_procs ≡ true
      → handle_ack os msg w ≡ (returned 0, heard)
  unfolding handle_ack
  handle_ack-master command arg is_args is_rank some_procs =
      run-deref w R msg.args (array_of (command ∷ arg ∷ [])) _ is_args (
        run-parse_arg w R (array_of (command ∷ arg ∷ [])) 1 2 (pos 0) _ is_rank (
          run-return_if w R (ltb_ℤ (pos 0) (pos 0) || leb_ℤ w.par_wrapper.num_procs (pos 0)) 3 _
            (in_job w.par_wrapper.num_procs some_procs)
            (run-load w R w.par_wrapper.this_machine f.me _ f.is_me
              (by_rank (is_master f.me) f.other_rank))))
    where
      in_job : (n : ℤ) → ltb_ℤ (pos 0) n ≡ true → ltb_ℤ (pos 0) (pos 0) || leb_ℤ n (pos 0) ≡ false
      in_job n h = ground arith
