-- ===== src/UdpServer/Term.antt =====
-- `handle_term` of src/udp_server.c.
use parallel_wrapper.Base.{Bool, true, false, some, not, ◌&&◌, ◌==◌}
use parallel_wrapper.Base.Int.{ℤ, pos, eqb_ℤ}
use parallel_wrapper.Base.Text.{str_eq}
use parallel_wrapper.System.{cancelled_listener, Os}
use parallel_wrapper.NetworkUtil.{port_from_sockaddr}
use parallel_wrapper.Cleanup.{cleanup}
use parallel_wrapper.UdpServer.Message.{
  Message, parse_arg, is_master, source_ip, require_master, send_ack,
}
use parallel_wrapper.Wrapper.Action.{
  Handler, leave, deref, load, wrapper, return_if, emit, ◌>>=◌, ◌>>◌,
}

-- The acknowledgement, the end of the listener, and `cleanup`.
unfoldable pub obey_term : Os → Message → ℤ → Handler
obey_term os msg return_code = do send_ack os msg; emit cancelled_listener; cleanup os return_code

-- Only the master is obeyed.
abbrev pub obey_if : Bool → Os → Message → ℤ → Handler
obey_if true os msg return_code = obey_term os msg return_code
obey_if false os msg return_code = leave 5

unfoldable pub handle_term : Os → Message → Handler
handle_term os msg = do
  args ← deref msg.args
  return_if (not (eqb_ℤ args.dim (pos 2))) 1
  pw ← wrapper
  me ← load pw.this_machine
  return_if (is_master me) 1
  require_master 1
  return_code ← parse_arg args 1 2
  ip ← source_ip os msg
  p ← deref pw.master
  m ← load p
  known ← deref m.ip_addr
  obey_if (str_eq known ip && m.port == port_from_sockaddr (some msg.from)) os msg return_code
