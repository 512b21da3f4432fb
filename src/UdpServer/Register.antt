-- ===== src/UdpServer/Register.antt =====
-- `handle_register` of src/udp_server.c: how the master learns of the other ranks.
pub mod Effect
use parallel_wrapper.Base.{
  ℕ, Option, none, some, true, not, ◌||◌, List, [], ◌∷◌, ◌++◌, ◌==◌, if◌then◌else◌, length,
  get_elem?, set,
}
use parallel_wrapper.Base.Int.{ℤ, pos, pos_part, ltb_ℤ, leb_ℤ, eqb_ℤ}
use parallel_wrapper.Base.Text.{Bytes, str_eq}
use parallel_wrapper.StringUtil.Integer.{failed, parsed, parse_integer}
use parallel_wrapper.System.{Os}
use parallel_wrapper.NetworkUtil.{port_from_sockaddr}
use parallel_wrapper.UdpServer.Message.{
  Message, string_at, parse_arg, clean, is_master, source_ip, send_ack,
}
use parallel_wrapper.Wrapper.{Machine, blank_machine, Ptr}
use parallel_wrapper.Wrapper.Action.{
  Action, ok, Handler, leave, deref, load, wrapper, return_if, ◌>>=◌, ◌>>◌,
}

-- `cpus` keeps its 1 when the argument is no number.
unfoldable pub cpus_of : Option Bytes → ℤ
cpus_of string = elim (parse_integer string true) [ failed _ ↦ pos 1 | parsed v ↦ v ]

-- A new structure on the heap, and the table with its pointer at `rank`.
unfoldable pub add_machine : List (Option Ptr) → ℤ → Machine → Action (Unit {0})
add_machine machines rank m w = (
  ok tt,
  record w {
    heap = w.heap ++ m ∷ [];
    par_wrapper = record w.par_wrapper {
      machines = some (set machines (pos_part rank) (some (length w.heap)));
    };
  },
)

-- The machine that a REGISTER describes. `last_alive` stays as `calloc` left it.
abbrev pub new_machine : ℤ → ℤ → Option Bytes → Option Bytes → Option Bytes → ℕ → Machine
new_machine rank cpus iwd user ip port = record blank_machine {
  ip_addr = ip;
  rank = rank;
  cpus = cpus;
  iwd = iwd;
  port = port;
  user = user;
}

-- `strdup`: the n-th copy of the handler.
abbrev pub copied : Os → ℕ → Bytes → Option Bytes
copied os n s = if os.strdup_ok n then some s else none

unfoldable pub enter_slot :
    Os → List (Option Ptr) → ℤ → Machine → Bytes → Option Ptr → Action (Unit {0})
enter_slot os machines rank new ip none = do
  return_if (not os.calloc_ok) 5
  add_machine machines rank new
enter_slot os machines rank new ip (some p) = do
  m ← load p
  known ← deref m.ip_addr
  return_if (not (str_eq known ip) || not (m.port == new.port)) 6

-- The check of the table: a new entry, or the same address as before (6 if it is another).
unfoldable pub enter_machine : Os → ℤ → ℤ → Bytes → Bytes → Bytes → ℕ → Action (Unit {0})
enter_machine os rank cpus iwd user ip port = do
  pw ← wrapper
  machines ← deref pw.machines
  slot ← deref (get_elem? machines (pos_part rank))
  enter_slot os machines rank
      (new_machine rank cpus (copied os 1 iwd) (copied os 2 user) (copied os 0 ip) port) ip slot

unfoldable pub handle_register : Os → Message → Handler
handle_register os msg = do
  args ← deref msg.args
  return_if (not (eqb_ℤ args.dim (pos 5))) 1
  pw ← wrapper
  me ← load pw.this_machine
  return_if (not (is_master me)) 2
  rank ← parse_arg args 1 3
  return_if (ltb_ℤ rank (pos 0) || leb_ℤ pw.num_procs rank) 4
  iwd ← deref (clean (string_at args 2))
  user ← deref (clean (string_at args 4))
  ip ← source_ip os msg
  enter_machine os rank (cpus_of (string_at args 3)) iwd user ip
      (port_from_sockaddr (some msg.from))
  send_ack os msg
  leave 0
