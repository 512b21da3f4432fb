-- ===== src/UdpServer/Ack/Stranger.antt =====
-- What `handle_ack` does on a slave, when another process than the master writes.
use parallel_wrapper.Base.{
  ◌≡◌, refl, some, Bool, true, false, not, ◌&&◌, ◌||◌, [], ◌∷◌, get_elem?, arith, if◌then◌else◌,
}
use parallel_wrapper.Base.Int.{ℤ, pos, ltb_ℤ, leb_ℤ, eqb_ℤ}
use parallel_wrapper.Base.Text.{Bytes}
use parallel_wrapper.NetworkUtil.{
  ip_text, ip_str_from_sockaddr, port_from_sockaddr, inet6_addrstrlen,
}
use parallel_wrapper.StringUtil.Integer.{parsed, parse_integer}
use parallel_wrapper.System.{Os}
use parallel_wrapper.UdpServer.Ack.{ack_from_master, ack_by, require_master_if, handle_ack}
use parallel_wrapper.UdpServer.Ack.Effect.{unless_full, differs}
use parallel_wrapper.UdpServer.Message.{Message, is_master, source_ip}
use parallel_wrapper.UdpServer.Runs.{
  run-return_if, run-deref, run-load, run-parse_arg, run-source_ip_if, run-require_master,
}
use parallel_wrapper.UdpServer.Safety.Parts.{array_of}
use parallel_wrapper.Wrapper.{Machine, Ptr, World}
use parallel_wrapper.Wrapper.Action.{Result, returned, fault, return_if, ◌>>=◌, ◌>>◌}

-- A message to a slave that knows its master, from a source that is not the master, and whose address
-- can be told.
pub record FromStranger (os : Os) (msg : Message) (w : World) : Type 0 where
  pub me : Machine
  pub is_me : get_elem? w.heap w.par_wrapper.this_machine ≡ some me
  pub other_rank : is_master me ≡ false
  pub ptr : Ptr
  pub is_ptr : w.par_wrapper.master ≡ some ptr
  pub machine : Machine
  pub is_machine : get_elem? w.heap ptr ≡ some machine
  pub known : Bytes
  pub is_known : machine.ip_addr ≡ some known
  pub ip : Bytes
  pub is_ip : ip_str_from_sockaddr os (some msg.from) true inet6_addrstrlen ≡ ip_text ip
  pub stranger : (known ≡ ip) × (machine.port ≡ port_from_sockaddr (some msg.from)) → ⊥

module _ (os : Os) (msg : Message) (w : World) (f : FromStranger os msg w) where
  abbrev Crash : Result (Unit {0}) × World
  Crash = (fault, w)

  misprinted : ack_from_master os f.ip (port_from_sockaddr (some msg.from)) w ≡ Crash
  unfolding ack_from_master
  misprinted = run-deref w Crash w.par_wrapper.master f.ptr _ f.is_ptr (
      run-load w Crash f.ptr f.machine _ f.is_machine (
        run-deref w Crash f.machine.ip_addr f.known _ f.is_known (
          rw (differs f.known f.ip f.machine.port (port_from_sockaddr (some msg.from)) f.stranger)
            refl)))

  by_rank :
      (b : Bool)
      → b ≡ false
      → (return_if (not b && not (eqb_ℤ (pos 0) (pos 0))) 3
            >> (require_master_if (not b) 4
                >> (source_ip os msg >>= λ ip.
                    ack_by b os (pos 0) ip (port_from_sockaddr (some msg.from)))))
          w
        ≡ unless_full os w Crash
  by_rank true e = cc
  by_rank false e =
      run-require_master w (unless_full os w Crash) 4 f.ptr f.machine f.known _ f.is_ptr
        f.is_machine f.is_known (run-source_ip_if w Crash os msg f.ip _ f.is_ip misprinted)

  -- On a slave of a job with processes that knows its master, an ACK of rank 0 from another address or
  -- port than the master's crashes the process, if there is memory for the text of the source's
  -- address; without it the handler returns 3.
  pub handle_ack-stranger :
      (command arg : Bytes)
      → msg.args ≡ some (array_of (command ∷ arg ∷ []))
      → parse_integer (some arg) true ≡ parsed (pos 0)
      → ltb_ℤ (pos 0) w.par_wrapper.num_procs ≡ true
      → handle_ack os msg w ≡ (if os.malloc_ok then (fault, w) else (returned 3, w))
  unfolding handle_ack
  handle_ack-stranger command arg is_args is_rank some_procs =
      let R = unless_full os w Crash in
      run-deref w R msg.args (array_of (command ∷ arg ∷ [])) _ is_args (
        run-parse_arg w R (array_of (command ∷ arg ∷ [])) 1 2 (pos 0) _ is_rank (
          run-return_if w R (ltb_ℤ (pos 0) (pos 0) || leb_ℤ w.par_wrapper.num_procs (pos 0)) 3 _
            (in_job w.par_wrapper.num_procs some_procs)
            (run-load w R w.par_wrapper.this_machine f.me _ f.is_me
              (by_rank (is_master f.me) f.other_rank))))
    where
      in_job : (n : ℤ) → ltb_ℤ (pos 0) n ≡ true → ltb_ℤ (pos 0) (pos 0) || leb_ℤ n (pos 0) ≡ false
      in_job n h = ground arith
