-- ===== src/UdpServer/Safety/Register.antt =====
-- `handle_register` is safe.
use parallel_wrapper.Base.{
  ℕ, ◌<◌, ◌≡◌, refl, ap, ◌∙◌, Option, none, some, not, if◌then◌else◌, ◌||◌, List, length, get_elem?,
  get_elem?-some, arith,
}
use parallel_wrapper.Base.Int.{ℤ, pos, pos_part, ltb_ℤ, leb_ℤ, eqb_ℤ, eqb_ℤ→eq}
use parallel_wrapper.Base.Text.{Bytes}
use parallel_wrapper.System.{Os}
use parallel_wrapper.NetworkUtil.{port_from_sockaddr}
use parallel_wrapper.UdpServer.Allowed.{Remembers}
use parallel_wrapper.UdpServer.Message.{Message, string_at, clean, is_master}
use parallel_wrapper.UdpServer.Register.{
  copied, cpus_of, add_machine, new_machine, enter_slot, enter_machine, handle_register,
}
use parallel_wrapper.UdpServer.Safety.Ack.{rank_bound}
use parallel_wrapper.UdpServer.Safety.Parts.{
  me_of, array_of, clean-array_of, dim_ok, Ensures-parse_arg, Ensures-source_ip, Ensures-send_ack,
}
use parallel_wrapper.Wrapper.{Machine, Ptr, World, master_rank}
use parallel_wrapper.Wrapper.Action.{leave}
use parallel_wrapper.Wrapper.Invariant.{IsTable, IsKnown}
use parallel_wrapper.Wrapper.Invariant.Laws.{enter-Keeps, enter-IsValid}
use parallel_wrapper.Wrapper.Ensures.{
  Good, Good-trans, Ensures, Any, Good-trace, return_if-Ensures, Ensures-load, Ensures-bind,
  Ensures-return_if, Ensures-deref,
}

module _ (w w' : World) (g : Good w w') (os : Os) where
  -- The slot of the rank: free, or with the machine that has registered before.
  enter_slot-Good :
      (table : List (Option Ptr)) (rank : ℤ) (new : Machine) (ip : Bytes) (slot : Option Ptr)
      → w'.par_wrapper.machines ≡ some table
      → get_elem? table (pos_part rank) ≡ some slot
      → new.ip_addr ≡ some ip
      → ((p : Ptr) → slot ≡ some p → IsKnown w'.heap p)
      → Ensures w Any (enter_slot os table rank new ip slot w')
  unfolding enter_slot add_machine
  enter_slot-Good table rank new ip none is_table at new_known known =
      Ensures-return_if {B = Unit {0}} w Any w' (not os.calloc_ok) 5 _ g λ _. (
        Good-trans g (record {
          valid =
              enter-IsValid w'.par_wrapper w'.heap table (pos_part rank) new is_table at new_known
                g.valid;
          keeps = enter-Keeps w'.par_wrapper w'.heap table (pos_part rank) new is_table at;
        }),
        tt,
      )
  enter_slot-Good table rank new ip (some p) is_table at new_known known =
      let (m, addr, here, has_addr) = known p refl in
      Ensures-load {B = Unit {0}} w Any w' p m _ here (
        Ensures-deref {B = Unit {0}} w Any w' m.ip_addr addr _ has_addr
          (return_if-Ensures w w' _ 6 g))

  enter_machine-Good :
      (rank cpus : ℤ) (iwd user ip : Bytes) (port : ℕ) (t : IsTable w'.par_wrapper w'.heap)
      → Remembers os
      → pos_part rank < length t.table
      → Ensures w Any (enter_machine os rank cpus iwd user ip port w')
  unfolding enter_machine
  enter_machine-Good rank cpus iwd user ip port t remembers h =
      let (slot, at) = get_elem?-some t.table (pos_part rank) h in
      Ensures-deref {B = Unit {0}} w Any w' w'.par_wrapper.machines t.table _ t.is_table (
        Ensures-deref {B = Unit {0}} w Any w' (get_elem? t.table (pos_part rank)) slot _ at (
          enter_slot-Good t.table rank
            (new_machine rank cpus (copied os 1 iwd) (copied os 2 user) (copied os 0 ip) port) ip
            slot t.is_table at (ap (λ b. if b then some ip else none) remembers)
            λ p e. t.known (pos_part rank) p (at ∙ ap some e)))

pub handle_register-Good :
    (w w' : World) (g : Good w w') (os : Os) (msg : Message) (ps : List Bytes)
    → Remembers os
    → msg.args ≡ some (array_of ps)
    → Ensures w Any (handle_register os msg w')
unfolding handle_register
handle_register-Good w w' g os msg ps remembers is_args =
    let (me, is_me) = me_of g in
    Ensures-deref {B = Unit {0}} w Any w' msg.args (array_of ps) _ is_args (
      Ensures-return_if {B = Unit {0}} w Any w' (not (eqb_ℤ (array_of ps).dim (pos 5))) 1 _ g λ d.
        Ensures-load {B = Unit {0}} w Any w' w'.par_wrapper.this_machine me _ is_me (
          Ensures-return_if {B = Unit {0}} w Any w' (not (is_master me)) 2 _ g λ master.
            Ensures-parse_arg {B = Unit {0}} w Any w' g (array_of ps) 1 3 _ λ rank _.
              Ensures-return_if {B = Unit {0}} w Any w'
                (ltb_ℤ rank (pos 0) || leb_ℤ w'.par_wrapper.num_procs rank) 4 _ g
                λ in_range.
                  let n = dim_ok ps 5 d in
                  let (iwd, is_iwd) = clean-array_of ps 2 (omega arith) in
                  let (user, is_user) = clean-array_of ps 4 (omega arith) in
                  let t : IsTable w'.par_wrapper w'.heap =
                    g.valid.has_table (eqb_ℤ→eq me.rank master_rank (ground arith)) in
                  Ensures-deref {B = Unit {0}} w Any w' (clean (string_at (array_of ps) 2)) iwd _
                    is_iwd
                    (Ensures-deref {B = Unit {0}} w Any w' (clean (string_at (array_of ps) 4)) user
                      _ is_user
                      (Ensures-source_ip {B = Unit {0}} w Any w' g os msg _ λ ip.
                        Ensures-bind {A = Unit {0}} {B = Unit {0}} w Any Any
                          (enter_machine os rank (cpus_of (string_at (array_of ps) 3)) iwd user ip
                            (port_from_sockaddr (some msg.from)))
                          _ w'
                          (enter_machine-Good w w' g os rank _ iwd user ip _ t remembers (
                            rank_bound (length t.table) w'.par_wrapper.num_procs rank t.size
                              in_range))
                          λ a w'' g'' _.
                            Ensures-send_ack {B = Unit {0}} w Any w'' g'' os msg (λ _. leave 0)
                              λ rc t. Good-trace t g''))))
