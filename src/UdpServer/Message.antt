-- ===== src/UdpServer/Message.antt =====
-- `struct udp_message` of src/udp_server.c, and what the handlers do with its arguments and its
-- source.
use parallel_wrapper.Base.{ℕ, Option, none, some, Bool, true, not, get_or}
use parallel_wrapper.Base.Int.{ℤ, eqb_ℤ}
use parallel_wrapper.Base.Text.{Bytes}
use parallel_wrapper.StringUtil.Integer.{Parsed, failed, parsed, parse_integer}
use parallel_wrapper.StringUtil.Quotes.{remove_quotes}
use parallel_wrapper.StringUtil.Tokens.{StrArray}
use parallel_wrapper.StringUtil.Trim.{trim}
use parallel_wrapper.System.{Sockaddr, Os}
use parallel_wrapper.NetworkUtil.{inet6_addrstrlen, IpText, ip_error, ip_text, ip_str_from_sockaddr}
use parallel_wrapper.UdpClient.{ack}
use parallel_wrapper.Wrapper.{Machine, master_rank}
use parallel_wrapper.Wrapper.Action.{
  Action, pure, leave, load, wrapper, on_trace, return_if, ◌>>=◌, ◌>>◌,
}

-- The wrapper is the state that the handlers run on.
pub record Message : Type 0 where
  pub args : Option StrArray
  pub from : Sockaddr

-- `args -> strings[n]`.
abbrev pub string_at : StrArray → ℕ → Option Bytes
string_at args n = get_or args.strings n none

abbrev pub number_or : ℕ → Parsed → Action ℤ
number_or rc (failed _) = leave rc
number_or rc (parsed v) = pure v

-- `parse_integer` of an argument; on failure the handler returns `rc`.
abbrev pub parse_arg : StrArray → ℕ → ℕ → Action ℤ
parse_arg args n rc = number_or rc (parse_integer (string_at args n) true)

-- `remove_quotes` and `trim` on an argument; both leave NULL alone.
unfoldable pub clean : Option Bytes → Option Bytes
clean none = none
clean (some s) = some (trim (remove_quotes s))

abbrev pub is_master : Machine → Bool
is_master me = eqb_ℤ me.rank master_rank

abbrev pub text_or : ℕ → IpText → Action Bytes
text_or rc (ip_error _) = leave rc
text_or rc (ip_text ip) = pure ip

-- The `malloc` of the address buffer (3 without memory) and `ip_str_from_sockaddr` (4 on failure).
unfoldable pub source_ip : Os → Message → Action Bytes
source_ip os msg = do
  return_if (not os.malloc_ok) 3
  text_or 4 (ip_str_from_sockaddr os (some msg.from) true inet6_addrstrlen)

abbrev pub unless_null : {A : Type 0} → ℕ → Option A → Action A
unless_null rc none = leave rc
unless_null rc (some a) = pure a

-- `master == NULL || master -> ip_addr == NULL`.
unfoldable pub require_master : ℕ → Action (Unit {0})
require_master rc = do
  pw ← wrapper
  p ← unless_null rc pw.master
  m ← load p
  unless_null rc m.ip_addr
  pure tt

-- `ack` back to the source; the handlers only print a warning when it fails.
unfoldable pub send_ack : Os → Message → Action ℕ
send_ack os msg = do
  pw ← wrapper
  me ← load pw.this_machine
  on_trace (ack os pw.command_socket me.rank (some msg.from))
