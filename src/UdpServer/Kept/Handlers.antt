-- ===== src/UdpServer/Kept/Handlers.antt =====
-- `handle_ack`, `handle_query`, `handle_send_file` and `handle_create_link` keep what their steps keep.
use parallel_wrapper.Base.{
  ℕ, ◌≡◌, Option, none, some, Bool, true, false, not, ◌&&◌, ◌||◌, ◌==◌, get_elem?,
}
use parallel_wrapper.Base.Int.{ℤ, pos, pos_part, ltb_ℤ, leb_ℤ, eqb_ℤ}
use parallel_wrapper.Base.Text.{Bytes, str_eq}
use parallel_wrapper.NetworkUtil.{port_from_sockaddr}
use parallel_wrapper.Sll.{SlList}
use parallel_wrapper.System.{Os, Sockaddr}
use parallel_wrapper.UdpClient.{ack}
use parallel_wrapper.UdpServer.Ack.{
  touch, ack_from_master, ack_slot, ack_from_rank, ack_by, require_master_if, handle_ack,
  handle_query,
}
use parallel_wrapper.UdpServer.CreateLink.{
  has_link, save_link, link_unless, make_link, handle_create_link, handle_send_file,
}
use parallel_wrapper.UdpServer.Kept.{
  Kept, IsKept, Kept-bind, Kept-return_if, Kept-crash_if, Kept-deref, Kept-unless_null, Kept-load,
  Kept-parse_arg, Kept-source_ip,
}
use parallel_wrapper.UdpServer.Kept.Loops.{AllKept, on_trace-AllKept}
use parallel_wrapper.UdpServer.Links.{ack-IsLinkless}
use parallel_wrapper.UdpServer.Message.{
  Message, string_at, clean, is_master, require_master, send_ack,
}
use parallel_wrapper.Wrapper.{Ptr, World}
use parallel_wrapper.Wrapper.Action.{leave, ◌>>◌}

module _ (P E : World → Type 0) (Allowed : Os → Type 0) (From : Sockaddr → Type 0)
    (law : IsKept P E Allowed From) where
  pub send_ack-AllKept : (os : Os) (msg : Message) → AllKept P E (send_ack os msg)
  unfolding send_ack
  send_ack-AllKept os msg w h = Kept-load P E w h w.par_wrapper.this_machine _ λ me _.
      on_trace-AllKept P E Allowed From law
        (ack os w.par_wrapper.command_socket me.rank (some msg.from))
        (λ t. ack-IsLinkless os t w.par_wrapper.command_socket me.rank (some msg.from)) w h

  pub ack_then_leave-AllKept :
      (os : Os) (msg : Message) → AllKept P E {A = Unit {0}} (send_ack os msg >> leave 0)
  ack_then_leave-AllKept os msg w h =
      Kept-bind P E (send_ack os msg w) _ (send_ack-AllKept os msg w h) λ _ w' h'. h'

  touch_then_leave-AllKept :
      (os : Os) (p : Ptr) → AllKept P E {A = Unit {0}} (touch os p >> leave 0)
  unfolding touch
  touch_then_leave-AllKept os p w h =
      Kept-bind P E (touch os p w) _
        (Kept-load P E w h p _ λ m here. law.touched w p m os.now here h) λ _ w' h'. h'

  ack_slot-AllKept :
      (os : Os) (ip : Bytes) (port : ℕ) (slot : Option Ptr) → AllKept P E (ack_slot os ip port slot)
  unfolding ack_slot
  ack_slot-AllKept os ip port none w h = h
  ack_slot-AllKept os ip port (some p) w h = Kept-load P E w h p _ λ m _.
      Kept-deref P E w h m.ip_addr _ λ known _.
        Kept-return_if P E w h (not (str_eq known ip) || not (m.port == port)) 5 _
          λ _. touch_then_leave-AllKept os p w h

  ack_by-AllKept :
      (b : Bool) (os : Os) (rank : ℤ) (ip : Bytes) (port : ℕ)
      → AllKept P E (ack_by b os rank ip port)
  unfolding ack_from_rank ack_from_master
  ack_by-AllKept true os rank ip port w h =
      Kept-deref P E w h w.par_wrapper.machines _ λ machines _.
        Kept-deref P E w h (get_elem? machines (pos_part rank)) _
          λ slot _. ack_slot-AllKept os ip port slot w h
  ack_by-AllKept false os rank ip port w h = Kept-deref P E w h w.par_wrapper.master _ λ p _.
      Kept-load P E w h p _ λ m _. Kept-deref P E w h m.ip_addr _ λ known _.
        Kept-crash_if P E w h (not (str_eq known ip) || not (m.port == port)) _
          λ _. touch_then_leave-AllKept os p w h

  pub require_master-AllKept : (rc : ℕ) → AllKept P E (require_master rc)
  unfolding require_master
  require_master-AllKept rc w h =
      Kept-unless_null P E w h w.par_wrapper.master rc _
        λ p _. Kept-load P E w h p _ λ m _. Kept-unless_null P E w h m.ip_addr rc _ λ ip _. h

  require_master_if-AllKept : (b : Bool) (rc : ℕ) → AllKept P E (require_master_if b rc)
  require_master_if-AllKept true rc w h = require_master-AllKept rc w h
  require_master_if-AllKept false rc w h = h

  pub handle_ack-AllKept : (os : Os) (msg : Message) → AllKept P E (handle_ack os msg)
  unfolding handle_ack
  handle_ack-AllKept os msg w h = Kept-deref P E w h msg.args _ λ args _.
      Kept-return_if P E w h (not (eqb_ℤ args.dim (pos 2))) 1 _ λ _.
        Kept-parse_arg P E w h args 1 2 _ λ rank _.
          Kept-return_if P E w h (ltb_ℤ rank (pos 0) || leb_ℤ w.par_wrapper.num_procs rank) 3 _ λ _.
            Kept-load P E w h w.par_wrapper.this_machine _ λ me _.
              Kept-return_if P E w h (not (is_master me) && not (eqb_ℤ rank (pos 0))) 3 _ λ _.
                Kept-bind P E _ _ (require_master_if-AllKept (not (is_master me)) 4 w h) λ _ w' h'.
                  Kept-source_ip P E w' h' os msg _ λ ip.
                    ack_by-AllKept (is_master me) os rank ip (port_from_sockaddr (some msg.from)) w'
                      h'

  pub handle_query-AllKept : (os : Os) (msg : Message) → AllKept P E (handle_query os msg)
  unfolding handle_query
  handle_query-AllKept os msg w h = Kept-deref P E w h msg.args _ λ args _.
      Kept-return_if P E w h (not (eqb_ℤ args.dim (pos 1))) 1 _
        λ _. Kept-bind P E (send_ack os msg w) _ (send_ack-AllKept os msg w h) λ _ w' h'. h'

  pub handle_send_file-AllKept : (os : Os) (msg : Message) → AllKept P E (handle_send_file os msg)
  unfolding handle_send_file
  handle_send_file-AllKept os msg w h = h

  module _ (os : Os) (allowed : Allowed os) where
    make_link-Kept :
        (msg : Message) (src dest : Bytes) (list : SlList) (w : World)
        → w.par_wrapper.symlinks ≡ some list
        → P w
        → Kept P E (make_link os msg src dest list w)
    unfolding make_link link_unless send_ack save_link
    make_link-Kept msg src dest list w e h = go (has_link dest list.elements)
      where
        go : (b : Bool) → Kept P E (link_unless b os msg src dest w)
        go true = ack_then_leave-AllKept os msg w h
        go false =
            Kept-return_if P E w h (not (os.symlink_ok src dest)) 4 _
              λ _. ack_then_leave-AllKept os msg _ (law.linked os allowed w src dest list e h)

    pub handle_create_link-AllKept : (msg : Message) → AllKept P E (handle_create_link os msg)
    unfolding handle_create_link
    handle_create_link-AllKept msg w h = Kept-deref P E w h msg.args _ λ args _.
        Kept-return_if P E w h (not (eqb_ℤ args.dim (pos 3))) 1 _ λ _.
          Kept-unless_null P E w h w.par_wrapper.symlinks 2 _ λ list e.
            Kept-deref P E w h (clean (string_at args 1)) _ λ src _.
              Kept-deref P E w h (clean (string_at args 2)) _ λ dest _.
                Kept-return_if P E w h (not (os.stat_ok src)) 3 _
                  λ _. make_link-Kept msg src dest list w e h
