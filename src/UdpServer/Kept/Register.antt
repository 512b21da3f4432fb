-- ===== src/UdpServer/Kept/Register.antt =====
-- `handle_register` of src/udp_server.c keeps what its steps keep.
use parallel_wrapper.Base.{
  arith, ◌≡◌, refl, Option, none, some, Bool, true, false, not, ◌||◌, List, get_elem?,
}
use parallel_wrapper.Base.Int.{ℤ, pos, pos_part, IsInt, ltb_ℤ, leb_ℤ, eqb_ℤ}
use parallel_wrapper.Base.Text.{Bytes}
use parallel_wrapper.NetworkUtil.{port_from_sockaddr}
use parallel_wrapper.StringUtil.Integer.{Parsed, failed, parsed, parse_integer}
use parallel_wrapper.StringUtil.Integer.RoundTrip.{parse_integer-IsInt}
use parallel_wrapper.System.{Os, Sockaddr}
use parallel_wrapper.UdpServer.Kept.{
  Kept, IsKept, Kept-bind, Kept-return_if, Kept-deref, Kept-load, Kept-parse_arg, Kept-source_ip,
}
use parallel_wrapper.UdpServer.Message.{Message, string_at, clean, is_master}
use parallel_wrapper.UdpServer.Register.{
  copied, cpus_of, new_machine, add_machine, enter_slot, enter_machine, handle_register,
}
use parallel_wrapper.Wrapper.{Ptr, World}
use parallel_wrapper.Wrapper.Action.{return_if}
use parallel_wrapper.UdpServer.Kept.Loops.{AllKept}
use parallel_wrapper.UdpServer.Kept.Handlers.{ack_then_leave-AllKept}

cpus_of-IsInt : (string : Option Bytes) → IsInt (cpus_of string)
unfolding cpus_of
cpus_of-IsInt string =
    by_result (parse_integer string true) (λ v e. parse_integer-IsInt string true e)
  where
    by_result :
        (r : Parsed)
        → ((v : ℤ) → r ≡ parsed v → IsInt v)
        → IsInt (elim r [ failed _ ↦ pos 1 | parsed v ↦ v ])
    by_result (failed _) h = omega arith
    by_result (parsed v) h = h v refl

module _ (P E : World → Type 0) (Allowed : Os → Type 0) (From : Sockaddr → Type 0)
    (law : IsKept P E Allowed From) where
  module _ (from : Sockaddr) (known : From from) where
    enter_slot-AllKept :
        (os : Os) (machines : List (Option Ptr)) (rank cpus : ℤ) (iwd user address : Option Bytes)
        (ip : Bytes)
        → IsInt rank
        → IsInt cpus
        → (slot : Option Ptr)
        → AllKept P E (
            enter_slot os machines rank
              (new_machine rank cpus iwd user address (port_from_sockaddr (some from)))
              ip
              slot)
    unfolding enter_slot add_machine
    enter_slot-AllKept os machines rank cpus iwd user address ip r c none w h =
        Kept-return_if P E w h (not os.calloc_ok) 5 _
          λ _. law.entered w machines rank cpus iwd user address from known r c h
    enter_slot-AllKept os machines rank cpus iwd user address ip r c (some p) w h =
        Kept-load P E w h p _ λ m _. Kept-deref P E w h m.ip_addr _ λ old _. go _
      where
        go : (b : Bool) → Kept P E (return_if b 6 w)
        go true = h
        go false = h

    enter_machine-AllKept :
        (os : Os) (rank cpus : ℤ) (iwd user ip : Bytes)
        → IsInt rank
        → IsInt cpus
        → AllKept P E (enter_machine os rank cpus iwd user ip (port_from_sockaddr (some from)))
    unfolding enter_machine
    enter_machine-AllKept os rank cpus iwd user ip r c w h =
        Kept-deref P E w h w.par_wrapper.machines _ λ machines _.
          Kept-deref P E w h (get_elem? machines (pos_part rank)) _ λ slot _.
            enter_slot-AllKept os machines rank cpus (copied os 1 iwd) (copied os 2 user)
              (copied os 0 ip) ip r c slot w h

  pub handle_register-AllKept :
      (os : Os) (msg : Message) → From msg.from → AllKept P E (handle_register os msg)
  unfolding handle_register
  handle_register-AllKept os msg known w h = Kept-deref P E w h msg.args _ λ args _.
      Kept-return_if P E w h (not (eqb_ℤ args.dim (pos 5))) 1 _ λ _.
        Kept-load P E w h w.par_wrapper.this_machine _ λ me _.
          Kept-return_if P E w h (not (is_master me)) 2 _ λ _.
            Kept-parse_arg P E w h args 1 3 _ λ rank int.
              Kept-return_if P E w h (ltb_ℤ rank (pos 0) || leb_ℤ w.par_wrapper.num_procs rank) 4 _
                λ _. Kept-deref P E w h (clean (string_at args 2)) _ λ iwd _.
                  Kept-deref P E w h (clean (string_at args 4)) _ λ user _.
                    Kept-source_ip P E w h os msg _ λ ip.
                      Kept-bind P E _ _
                        (enter_machine-AllKept msg.from known os rank (cpus_of (string_at args 3))
                          iwd user ip int (cpus_of-IsInt (string_at args 3)) w h)
                        λ _ w' h'. ack_then_leave-AllKept P E Allowed From law os msg w' h'
