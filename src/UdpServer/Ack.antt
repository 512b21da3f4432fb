-- ===== src/UdpServer/Ack.antt =====
-- `handle_ack` and `handle_query` of src/udp_server.c.
pub mod Effect
pub mod Slave
pub mod Stranger
use parallel_wrapper.Base.{
  Option, Bool, true, false, ℕ, none, some, not, ◌&&◌, ◌||◌, get_elem?, ◌==◌,
}
use parallel_wrapper.Base.Int.{ℤ, pos, pos_part, ltb_ℤ, leb_ℤ, eqb_ℤ}
use parallel_wrapper.Base.Text.{Bytes, str_eq}
use parallel_wrapper.System.{Os}
use parallel_wrapper.NetworkUtil.{port_from_sockaddr}
use parallel_wrapper.UdpServer.Message.{
  Message, parse_arg, is_master, source_ip, require_master, send_ack,
}
use parallel_wrapper.Wrapper.{Ptr}
use parallel_wrapper.Wrapper.Action.{
  Action, Handler, pure, leave, deref, load, store, wrapper, return_if, crash_if, ◌>>=◌, ◌>>◌,
}

-- `gettimeofday(&p -> last_alive, NULL)`.
unfoldable pub touch : Os → Ptr → Action (Unit {0})
touch os p = do m ← load p; store p (record m { last_alive = os.now })

-- On a slave: the source has to be the master, whose time is then taken. For another source `print` is
-- called with one argument too many, the rank, in front of those of its format: a `%s` gets the port,
-- and `vfprintf` follows it.
unfoldable pub ack_from_master : Os → Bytes → ℕ → Handler
ack_from_master os ip port = do
  pw ← wrapper
  p ← deref pw.master
  m ← load p
  known ← deref m.ip_addr
  crash_if (not (str_eq known ip) || not (m.port == port))
  touch os p
  leave 0

unfoldable pub ack_slot : Os → Bytes → ℕ → Option Ptr → Handler
ack_slot os ip port none = leave 4
ack_slot os ip port (some p) = do
  m ← load p
  known ← deref m.ip_addr
  return_if (not (str_eq known ip) || not (m.port == port)) 5
  touch os p
  leave 0

-- On the master: the source has to be where the rank registered from.
unfoldable pub ack_from_rank : Os → ℤ → Bytes → ℕ → Handler
ack_from_rank os rank ip port = do
  pw ← wrapper
  machines ← deref pw.machines
  slot ← deref (get_elem? machines (pos_part rank))
  ack_slot os ip port slot

abbrev pub require_master_if : Bool → ℕ → Action (Unit {0})
require_master_if true rc = require_master rc
require_master_if false rc = pure tt

-- The last part, on the master and on a slave.
abbrev pub ack_by : Bool → Os → ℤ → Bytes → ℕ → Handler
ack_by true os rank ip port = ack_from_rank os rank ip port
ack_by false os rank ip port = ack_from_master os ip port

unfoldable pub handle_ack : Os → Message → Handler
handle_ack os msg = do
  args ← deref msg.args
  return_if (not (eqb_ℤ args.dim (pos 2))) 1
  rank ← parse_arg args 1 2
  pw ← wrapper
  return_if (ltb_ℤ rank (pos 0) || leb_ℤ pw.num_procs rank) 3
  me ← load pw.this_machine
  return_if (not (is_master me) && not (eqb_ℤ rank (pos 0))) 3
  require_master_if (not (is_master me)) 4
  ip ← source_ip os msg
  ack_by (is_master me) os rank ip (port_from_sockaddr (some msg.from))

unfoldable pub handle_query : Os → Message → Handler
handle_query os msg = do
  args ← deref msg.args
  return_if (not (eqb_ℤ args.dim (pos 1))) 1
  rc ← send_ack os msg
  leave rc
