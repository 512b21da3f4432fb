-- ===== src/Tests/Begin.antt =====
-- The theorems about main from its start at a master of three.
use parallel_wrapper.Base.Int.{◌+ℤ◌, to_int}
use parallel_wrapper.Main.Prepare.{connect, prepare}
use parallel_wrapper.Chirp.Attributes.{cleaned, get_chirp_integer, get_chirp_string}
use parallel_wrapper.Scratch.Create.{create_scratch}
use parallel_wrapper.NetworkUtil.Interfaces.{
  get_ip_addr, has_prefix, infiniband, public_address, text_of, is_local,
}
use parallel_wrapper.Args.{
  parse_args, parse_environment_vars, parse_opt, parse_opts, set_environment_vars,
}
use parallel_wrapper.StringUtil.Integer.{parse_integer}
use parallel_wrapper.NetworkUtil.{ip_str_from_sockaddr}
use parallel_wrapper.NetworkUtil.Sockets.{
  get_bound_dgram_socket_by_range, range_loop, get_bound_dgram_socket, bind_loop,
}
use parallel_wrapper.StringUtil.Paths.{join_paths}
use parallel_wrapper.Chirp.{chirp_info}
use parallel_wrapper.StringUtil.Quotes.{remove_quotes}
use parallel_wrapper.StringUtil.Trim.{trim}
use parallel_wrapper.Base.{◌≡◌, refl, Bool, true, false}
use parallel_wrapper.Wrapper.{World}
use parallel_wrapper.Wrapper.Action.{Result, ok, returned, exited, fault}
use parallel_wrapper.Main.Connect.Joins.{begin}
use parallel_wrapper.Main.Served.{begin-owns, begin-removes}
use parallel_wrapper.Tests.Links.{sample-IsGenerous, link_then_term}
use parallel_wrapper.Tests.Sample.{os}
use parallel_wrapper.Tests.Start.{start_up}
use parallel_wrapper.UdpServer.Kept.Rounds.{Reaches}
use parallel_wrapper.UdpServer.Links.Own.{IsOwn, OnlyOwn}
use parallel_wrapper.UdpServer.Links.Removed.{IsRecorded, IsCleared}
use parallel_wrapper.UdpServer.Loop.{udp_server}
use parallel_wrapper.Wrapper.Completes.{OnOk}

begin-owns_example :
    OnOk (λ _ w. Reaches IsOwn OnlyOwn (udp_server os link_then_term w)) (begin start_up 1)
begin-owns_example = begin-owns start_up 1 os link_then_term refl ((refl, tt), ((refl, tt), tt))

begin-removes_example :
    OnOk (λ _ w. Reaches IsRecorded IsCleared (udp_server os link_then_term w)) (begin start_up 1)
begin-removes_example =
    begin-removes start_up 1 os link_then_term sample-IsGenerous
      ((sample-IsGenerous, tt), ((sample-IsGenerous, tt), tt))

-- The master of the sample gets to the start of its listener.
is_ok : Result Bool × World → Bool
is_ok (ok b, w) = b
is_ok (returned rc, w) = false
is_ok (exited code, w) = false
is_ok (fault, w) = false

begins : is_ok (begin start_up 1) ≡ true
unfolding is_ok prepare connect cleaned create_scratch get_chirp_integer get_chirp_string
    get_ip_addr has_prefix infiniband parse_args parse_environment_vars parse_integer parse_opt
    parse_opts set_environment_vars to_int ip_str_from_sockaddr public_address text_of is_local
    get_bound_dgram_socket_by_range range_loop get_bound_dgram_socket bind_loop join_paths
    chirp_info remove_quotes trim ◌+ℤ◌
begins = refl
