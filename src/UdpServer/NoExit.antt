-- ===== src/UdpServer/NoExit.antt =====
-- The handlers that never end the process.
use parallel_wrapper.Base.{
  ℕ, Option, none, some, Bool, true, false, not, ◌&&◌, ◌||◌, ◌==◌, List, get_elem?,
}
use parallel_wrapper.Base.Int.{ℤ, pos, ltb_ℤ, leb_ℤ, eqb_ℤ}
use parallel_wrapper.Base.Text.{Bytes, str_eq}
use parallel_wrapper.StringUtil.Integer.{Parsed, failed, parsed, parse_integer}
use parallel_wrapper.System.{symlinked, Os, Event}
use parallel_wrapper.NetworkUtil.{
  IpText, ip_error, ip_text, ip_str_from_sockaddr, port_from_sockaddr, inet6_addrstrlen,
}
use parallel_wrapper.UdpServer.Ack.{
  touch, ack_from_master, ack_slot, ack_from_rank, ack_by, require_master_if, handle_ack,
  handle_query,
}
use parallel_wrapper.UdpServer.CreateLink.{
  has_link, save_link, link_unless, make_link, handle_create_link, handle_send_file,
}
use parallel_wrapper.UdpServer.Message.{
  Message, string_at, clean, is_master, number_or, text_or, unless_null, source_ip, require_master,
  send_ack,
}
use parallel_wrapper.UdpServer.OnExit.{OnExit}
use parallel_wrapper.UdpServer.Register.{
  cpus_of, add_machine, enter_slot, enter_machine, handle_register,
}
use parallel_wrapper.Wrapper.{Machine, Ptr, World, ParallelWrapper}
use parallel_wrapper.Wrapper.Action.{
  Result, ok, returned, exited, fault, Action, leave, wrapper, deref, load, emit, return_if,
  crash_if, then_do, ◌>>=◌, ◌>>◌,
}

-- The action does not end by `exit`, whatever the state.
pub record NoExit {A : Type 0} (m : Action A) : Type 0 where
  pub run : (w : World) → OnExit ⊥ (m w)

still : {A : Type 0} (m : Action A) → ((w : World) → OnExit ⊥ (m w)) → NoExit m
still m h = record { run = h }

bind :
    {A B : Type 0} (m : Action A) (f : A → Action B)
    → NoExit m
    → ((a : A) → NoExit (f a))
    → NoExit (m >>= f)
bind {A} {B} m f hm hf = record { run = λ w. by_result (m w) (hm.run w) }
  where
    by_result : (r : Result A × World) → OnExit ⊥ r → OnExit ⊥ (then_do r f)
    by_result (ok a, w') h = (hf a).run w'
    by_result (returned rc, w') h = tt
    by_result (exited code, w') h = h
    by_result (fault, w') h = tt

from_deref : {A : Type 0} (o : Option A) → NoExit (deref o)
from_deref none = record { run = λ w. tt }
from_deref (some a) = record { run = λ w. tt }

from_unless_null : {A : Type 0} (rc : ℕ) (o : Option A) → NoExit (unless_null rc o)
from_unless_null rc none = record { run = λ w. tt }
from_unless_null rc (some a) = record { run = λ w. tt }

from_return_if : (c : Bool) (rc : ℕ) → NoExit (return_if c rc)
from_return_if true rc = record { run = λ w. tt }
from_return_if false rc = record { run = λ w. tt }

from_crash_if : (c : Bool) → NoExit (crash_if c)
from_crash_if true = record { run = λ w. tt }
from_crash_if false = record { run = λ w. tt }

from_load : (p : Ptr) → NoExit (load p)
from_load p = record { run = λ w. by_slot w (get_elem? w.heap p) }
  where
    by_slot :
        (w : World) (o : Option Machine)
        → OnExit ⊥
            (elim o as (λ _. Result Machine × World) [ none ↦ (fault, w) | some m ↦ (ok m, w) ])
    by_slot w none = tt
    by_slot w (some m) = tt

from_number : (rc : ℕ) (r : Parsed) → NoExit (number_or rc r)
from_number rc (failed _) = record { run = λ w. tt }
from_number rc (parsed v) = record { run = λ w. tt }

from_text : (rc : ℕ) (r : IpText) → NoExit (text_or rc r)
from_text rc (ip_error _) = record { run = λ w. tt }
from_text rc (ip_text ip) = record { run = λ w. tt }

from_wrapper :
    {B : Type 0} (f : ParallelWrapper → Action B)
    → ((pw : ParallelWrapper) → NoExit (f pw))
    → NoExit (wrapper >>= f)
from_wrapper f h = record { run = λ w. (h w.par_wrapper).run w }

source_ip-NoExit : (os : Os) (msg : Message) → NoExit (source_ip os msg)
unfolding source_ip
source_ip-NoExit os msg =
    bind _ _ (from_return_if (not os.malloc_ok) 3)
      λ _. from_text 4 (ip_str_from_sockaddr os (some msg.from) true inet6_addrstrlen)

require_master-NoExit : (rc : ℕ) → NoExit (require_master rc)
unfolding require_master
require_master-NoExit rc = from_wrapper _ λ pw. bind _ _ (from_unless_null rc pw.master) λ p.
    bind _ _ (from_load p)
      λ m. bind _ _ (from_unless_null rc m.ip_addr) λ _. record { run = λ w. tt }

send_ack-NoExit : (os : Os) (msg : Message) → NoExit (send_ack os msg)
unfolding send_ack
send_ack-NoExit os msg =
    from_wrapper _ λ pw. bind _ _ (from_load pw.this_machine) λ me. record { run = λ w. tt }

touched : (os : Os) (p : Ptr) → NoExit {A = Unit {0}} (touch os p >> leave 0)
unfolding touch
touched os p =
    bind _ _ (bind _ _ (from_load p) λ m. record { run = λ w. tt }) λ _. record { run = λ w. tt }

ack_slot-NoExit :
    (os : Os) (ip : Bytes) (port : ℕ) (slot : Option Ptr) → NoExit (ack_slot os ip port slot)
unfolding ack_slot
ack_slot-NoExit os ip port none = record { run = λ w. tt }
ack_slot-NoExit os ip port (some p) = bind _ _ (from_load p) λ m.
    bind _ _ (from_deref m.ip_addr) λ known.
      bind _ _ (from_return_if (not (str_eq known ip) || not (m.port == port)) 5) λ _. touched os p

ack_by-NoExit :
    (b : Bool) (os : Os) (rank : ℤ) (ip : Bytes) (port : ℕ) → NoExit (ack_by b os rank ip port)
unfolding ack_from_rank ack_from_master
ack_by-NoExit true os rank ip port = from_wrapper _ λ pw.
    bind _ _ (from_deref pw.machines)
      λ machines. bind _ _ (from_deref _) λ slot. ack_slot-NoExit os ip port slot
ack_by-NoExit false os rank ip port = from_wrapper _ λ pw. bind _ _ (from_deref pw.master) λ p.
    bind _ _ (from_load p)
      λ m. bind _ _ (from_deref m.ip_addr) λ known. bind _ _ (from_crash_if _) λ _. touched os p

require_master_if-NoExit : (b : Bool) (rc : ℕ) → NoExit (require_master_if b rc)
require_master_if-NoExit true rc = require_master-NoExit rc
require_master_if-NoExit false rc = record { run = λ w. tt }

pub handle_ack-NoExit : (os : Os) (msg : Message) → NoExit (handle_ack os msg)
unfolding handle_ack
handle_ack-NoExit os msg = bind _ _ (from_deref msg.args) λ args.
    bind _ _ (from_return_if (not (eqb_ℤ args.dim (pos 2))) 1) λ _.
      bind _ _ (from_number 2 (parse_integer (string_at args 1) true)) λ rank. from_wrapper _ λ pw.
        bind _ _ (from_return_if (ltb_ℤ rank (pos 0) || leb_ℤ pw.num_procs rank) 3) λ _.
          bind _ _ (from_load pw.this_machine) λ me.
            bind _ _ (from_return_if (not (is_master me) && not (eqb_ℤ rank (pos 0))) 3) λ _.
              bind _ _ (require_master_if-NoExit (not (is_master me)) 4) λ _.
                bind _ _ (source_ip-NoExit os msg)
                  λ ip. ack_by-NoExit (is_master me) os rank ip (port_from_sockaddr (some msg.from))

left : {A : Type 0} (rc : ℕ) → NoExit {A = A} (leave rc)
left rc = record { run = λ w. tt }

pub handle_query-NoExit : (os : Os) (msg : Message) → NoExit (handle_query os msg)
unfolding handle_query
handle_query-NoExit os msg = bind _ _ (from_deref msg.args) λ args.
    bind _ _ (from_return_if (not (eqb_ℤ args.dim (pos 1))) 1)
      λ _. bind _ _ (send_ack-NoExit os msg) λ rc. left rc

emitted : (e : Event) → NoExit (emit e)
emitted e = record { run = λ w. tt }

save_link-NoExit : (os : Os) (dest : Bytes) → NoExit (save_link os dest)
unfolding save_link
save_link-NoExit os dest = record { run = λ w. tt }

link_unless-NoExit :
    (b : Bool) (os : Os) (msg : Message) (src dest : Bytes) → NoExit (link_unless b os msg src dest)
unfolding link_unless
link_unless-NoExit true os msg src dest = bind _ _ (send_ack-NoExit os msg) λ _. left 0
link_unless-NoExit false os msg src dest =
    bind _ _ (from_return_if (not (os.symlink_ok src dest)) 4) λ _.
      bind _ _ (emitted (symlinked src dest))
        λ _. bind _ _ (save_link-NoExit os dest) λ _. bind _ _ (send_ack-NoExit os msg) λ _. left 0

pub handle_create_link-NoExit : (os : Os) (msg : Message) → NoExit (handle_create_link os msg)
unfolding handle_create_link make_link
handle_create_link-NoExit os msg = bind _ _ (from_deref msg.args) λ args.
    bind _ _ (from_return_if (not (eqb_ℤ args.dim (pos 3))) 1) λ _. from_wrapper _ λ pw.
      bind _ _ (from_unless_null 2 pw.symlinks) λ list.
        bind _ _ (from_deref (clean (string_at args 1))) λ src.
          bind _ _ (from_deref (clean (string_at args 2))) λ dest.
            bind _ _ (from_return_if (not (os.stat_ok src)) 3)
              λ _. link_unless-NoExit (has_link dest list.elements) os msg src dest

pub handle_send_file-NoExit : (os : Os) (msg : Message) → NoExit (handle_send_file os msg)
unfolding handle_send_file
handle_send_file-NoExit os msg = record { run = λ w. tt }

enter_slot-NoExit :
    (os : Os) (machines : List (Option Ptr)) (rank : ℤ) (new : Machine) (ip : Bytes)
    (slot : Option Ptr)
    → NoExit (enter_slot os machines rank new ip slot)
unfolding enter_slot add_machine
enter_slot-NoExit os machines rank new ip none =
    bind _ _ (from_return_if (not os.calloc_ok) 5) λ _. record { run = λ w. tt }
enter_slot-NoExit os machines rank new ip (some p) = bind _ _ (from_load p) λ m.
    bind _ _ (from_deref m.ip_addr)
      λ known. from_return_if (not (str_eq known ip) || not (m.port == new.port)) 6

enter_machine-NoExit :
    (os : Os) (rank cpus : ℤ) (iwd user ip : Bytes) (port : ℕ)
    → NoExit (enter_machine os rank cpus iwd user ip port)
unfolding enter_machine
enter_machine-NoExit os rank cpus iwd user ip port = from_wrapper _ λ pw.
    bind _ _ (from_deref pw.machines)
      λ machines. bind _ _ (from_deref _) λ slot. enter_slot-NoExit os machines rank _ ip slot

pub handle_register-NoExit : (os : Os) (msg : Message) → NoExit (handle_register os msg)
unfolding handle_register
handle_register-NoExit os msg = bind _ _ (from_deref msg.args) λ args.
    bind _ _ (from_return_if (not (eqb_ℤ args.dim (pos 5))) 1) λ _. from_wrapper _ λ pw.
      bind _ _ (from_load pw.this_machine) λ me.
        bind _ _ (from_return_if (not (is_master me)) 2) λ _.
          bind _ _ (from_number 3 (parse_integer (string_at args 1) true)) λ rank.
            bind _ _ (from_return_if (ltb_ℤ rank (pos 0) || leb_ℤ pw.num_procs rank) 4) λ _.
              bind _ _ (from_deref (clean (string_at args 2))) λ iwd.
                bind _ _ (from_deref (clean (string_at args 4))) λ user.
                  bind _ _ (source_ip-NoExit os msg) λ ip.
                    bind _ _
                      (enter_machine-NoExit os rank (cpus_of (string_at args 3)) iwd user ip
                        (port_from_sockaddr (some msg.from)))
                      λ _. bind _ _ (send_ack-NoExit os msg) λ _. left 0
