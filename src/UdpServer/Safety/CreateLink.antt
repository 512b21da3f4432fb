-- ===== src/UdpServer/Safety/CreateLink.antt =====
-- `handle_create_link` is safe.
use parallel_wrapper.Base.{◌≡◌, Option, some, Bool, true, false, not, List, arith}
use parallel_wrapper.Base.Int.{pos, eqb_ℤ}
use parallel_wrapper.Base.Text.{Bytes}
use parallel_wrapper.System.{Os, Trace}
use parallel_wrapper.Sll.{SlList}
use parallel_wrapper.UdpServer.Message.{Message, string_at, clean, send_ack}
use parallel_wrapper.UdpServer.CreateLink.{
  has_link, save_link, link_unless, make_link, handle_create_link, handle_send_file,
}
use parallel_wrapper.UdpServer.Safety.Parts.{
  array_of, clean-array_of, dim_ok, Ensures-unless_null, Ensures-send_ack,
}
use parallel_wrapper.Wrapper.{World}
use parallel_wrapper.Wrapper.Action.{leave, ◌>>◌}
use parallel_wrapper.Wrapper.Ensures.{
  Good, Ensures, Any, Good-trace, Ensures-return_if, Ensures-deref,
}

-- The list of links is no part of what the invariant speaks of.
pub Good-symlinks :
    {w w' : World} (l : Option SlList) (t : Trace)
    → Good w w'
    → Good w (record w' { par_wrapper = record w'.par_wrapper { symlinks = l }; trace = t })
Good-symlinks l t g = record {
  valid = record {
    me = g.valid.me;
    is_me = g.valid.is_me;
    master = g.valid.master;
    has_table = λ e.
        let b = g.valid.has_table e in
        record { table = b.table; is_table = b.is_table; size = b.size; known = b.known };
  };
  keeps = record {
    num_procs = g.keeps.num_procs;
    command_socket = g.keeps.command_socket;
    this_machine = g.keeps.this_machine;
    master = g.keeps.master;
    machines_here = g.keeps.machines_here;
    ranks = g.keeps.ranks;
  };
}

module _ (w : World) (os : Os) (msg : Message) where
  ack_then_leave-Good :
      (w' : World) → Good w w' → Ensures {A = Unit {0}} w Any ((send_ack os msg >> leave 0) w')
  ack_then_leave-Good w' g =
      Ensures-send_ack {B = Unit {0}} w Any w' g os msg (λ _. leave 0) λ rc t. Good-trace t g

  link_unless-Good :
      (w' : World)
      → Good w w'
      → (b : Bool) (src dest : Bytes)
      → Ensures {A = Unit {0}} w Any (link_unless b os msg src dest w')
  unfolding link_unless save_link
  link_unless-Good w' g true src dest = ack_then_leave-Good w' g
  link_unless-Good w' g false src dest =
      Ensures-return_if {B = Unit {0}} w Any w' (not (os.symlink_ok src dest)) 4 _ g
        λ _. ack_then_leave-Good _ (Good-symlinks _ _ g)

  pub handle_create_link-Good :
      (w' : World)
      → Good w w'
      → (ps : List Bytes) → msg.args ≡ some (array_of ps)
      → Ensures w Any (handle_create_link os msg w')
  unfolding handle_create_link make_link
  handle_create_link-Good w' g ps is_args =
      Ensures-deref {B = Unit {0}} w Any w' msg.args (array_of ps) _ is_args (
        Ensures-return_if {B = Unit {0}} w Any w' (not (eqb_ℤ (array_of ps).dim (pos 3))) 1 _ g λ d.
          Ensures-unless_null {B = Unit {0}} w Any w' g w'.par_wrapper.symlinks 2 _ λ list _.
            let n = dim_ok ps 3 d in
            let (src, is_src) = clean-array_of ps 1 (omega arith) in
            let (dest, is_dest) = clean-array_of ps 2 (omega arith) in
            Ensures-deref {B = Unit {0}} w Any w' (clean (string_at (array_of ps) 1)) src _ is_src (
              Ensures-deref {B = Unit {0}} w Any w' (clean (string_at (array_of ps) 2)) dest _
                is_dest
                (Ensures-return_if {B = Unit {0}} w Any w' (not (os.stat_ok src)) 3 _ g
                  λ _. link_unless-Good w' g (has_link dest list.elements) src dest)))

  pub handle_send_file-Good : (w' : World) → Good w w' → Ensures w Any (handle_send_file os msg w')
  unfolding handle_send_file
  handle_send_file-Good w' g = g
