-- ===== src/Tests/Server.antt =====
-- The theorems about the server at concrete messages.
use parallel_wrapper.Base.{List, ◌≡◌, refl, true, [], ◌∷◌}
use parallel_wrapper.Base.Text.{codes}
use parallel_wrapper.NetworkUtil.{ip_str_from_sockaddr, port_from_sockaddr}
use parallel_wrapper.StringUtil.Integer.{parse_integer}
use parallel_wrapper.StringUtil.Tokens.{count_tokens, strsplit, is_valid_strarray}
use parallel_wrapper.UdpServer.Ack.{handle_ack, ack_from_rank, ack_slot, touch}
use parallel_wrapper.UdpServer.Message.{source_ip}
use parallel_wrapper.UdpServer.Dispatch.{
  serve_datagram, delim_of, receive, process_message, dispatch, handlers,
}
use parallel_wrapper.UdpServer.Loop.{Wake, ready, expired, signalled, udp_server}
use parallel_wrapper.UdpServer.Safety.Rounds.{udp_server-Good}
use parallel_wrapper.Tests.Sample.{
  os, master_machine, master_world, slave_machine, master_world-IsValid, slave_address,
  stranger_address,
}
use parallel_wrapper.Wrapper.{World}
use parallel_wrapper.Wrapper.Action.{ok}
use parallel_wrapper.Wrapper.Ensures.{Ensures, Any}

-- After an ACK of rank 1 its time is the present one.
abbrev acked : World
acked = record master_world {
  heap = master_machine ∷ record slave_machine { last_alive = os.now } ∷ [];
}

ack_run : serve_datagram os slave_address (codes "12:1") master_world ≡ (ok tt, acked)
unfolding serve_datagram delim_of receive strsplit process_message is_valid_strarray parse_integer
    dispatch handlers handle_ack ack_from_rank ack_slot touch source_ip ip_str_from_sockaddr
    port_from_sockaddr count_tokens
ack_run = refl

-- The interval is over, and rank 1 answers in the meantime; then a stranger writes, and a signal comes.
abbrev rounds : List Wake
rounds =
    expired true os os ((os, (slave_address, codes "12:1")) ∷ [])
    ∷ ready true true (os, (stranger_address, codes "10:3"))
    ∷ signalled
    ∷ []

udp_server-Good_example : Ensures master_world Any (udp_server os rounds master_world)
udp_server-Good_example =
    udp_server-Good os rounds master_world ((refl, ((refl, tt), tt)), ((refl, tt), (tt, tt)))
      master_world-IsValid
