-- ===== src/NetworkUtil.antt =====
-- src/network_util.c: addresses, and sending a string.
pub mod Sockets
pub mod Interfaces
use parallel_wrapper.Base.{
  ℕ, Option, none, some, Bool, not, List, [], ◌∷◌, ltb, ◌==◌, if◌then◌else◌,
}
use parallel_wrapper.Base.Int.{ℤ, pos, leb_ℤ}
use parallel_wrapper.Base.Text.{Bytes}
use parallel_wrapper.StringUtil.Integer.{digits}
use parallel_wrapper.System.{Sockaddr, inet, inet6, other_family, Endpoint, sent, Trace, Os}

-- `INET_ADDRSTRLEN` and `INET6_ADDRSTRLEN`.
abbrev pub inet_addrstrlen : ℕ
inet_addrstrlen = 16

abbrev pub inet6_addrstrlen : ℕ
inet6_addrstrlen = 46

-- The return code, or 0 with the text in the buffer.
pub data IpText : Type 0 where
  ip_error : ℕ → IpText
  ip_text : Bytes → IpText

-- `has_buffer` says that `buffer` is not NULL.
unfoldable pub ip_str_from_sockaddr : Os → Option Sockaddr → Bool → ℕ → IpText
ip_str_from_sockaddr os none has_buffer buffer_len = ip_error 1
ip_str_from_sockaddr os (some (inet a port)) has_buffer buffer_len =
    if not has_buffer
    then ip_error 2
    else if ltb buffer_len inet_addrstrlen
    then ip_error 3
    else ip_text (os.ntop4 a)
ip_str_from_sockaddr os (some (inet6 a port)) has_buffer buffer_len =
    if not has_buffer
    then ip_error 2
    else if ltb buffer_len inet6_addrstrlen
    then ip_error 4
    else ip_text (os.ntop6 a)
ip_str_from_sockaddr os (some other_family) has_buffer buffer_len =
    if not has_buffer then ip_error 2 else ip_error 3

unfoldable pub port_from_sockaddr : Option Sockaddr → ℕ
port_from_sockaddr none = 0
port_from_sockaddr (some (inet a port)) = port
port_from_sockaddr (some (inet6 a port)) = port
port_from_sockaddr (some other_family) = 0

-- The loop over the addresses: the first that takes the whole string ends it.
unfoldable pub send_loop : Os → Bytes → List Endpoint → Trace → ℕ × Trace
send_loop os string [] t = (1, t)
send_loop os string (e ∷ info) t =
    let rest = send_loop os string info t in
    if os.sendto e string then (0, sent e string ∷ t) else rest

unfoldable pub send_string_to_ip_port : Os → Option Bytes → ℕ → Option Bytes → ℤ → Trace → ℕ × Trace
unfolding send_loop
send_string_to_ip_port os none port string socketfd t = (1, t)
send_string_to_ip_port os (some ip) port none socketfd t = (0, t)
send_string_to_ip_port os (some ip) port (some string) socketfd t =
    if leb_ℤ socketfd (pos 0) then (2, t) else elim (os.getaddrinfo ip (digits port)) [
      | none ↦ (3, t)
      | some info ↦ send_loop os string info t
    ]

-- Without memory for the address the code goes on, and `ip_str_from_sockaddr` refuses the buffer.
unfoldable pub send_string_reply : Os → Option Sockaddr → Option Bytes → ℤ → Trace → ℕ × Trace
unfolding ip_str_from_sockaddr port_from_sockaddr send_string_to_ip_port
send_string_reply os none string socketfd t = (1, t)
send_string_reply os (some addr) none socketfd t = (0, t)
send_string_reply os (some addr) (some string) socketfd t =
    elim (ip_str_from_sockaddr os (some addr) os.malloc_ok inet6_addrstrlen) [
      | ip_error rc ↦ (2, t)
      | ip_text ip ↦
          if port_from_sockaddr (some addr) == 0
          then (3, t)
          else send_string_to_ip_port os (some ip) (port_from_sockaddr (some addr)) (some string)
              socketfd t
    ]
