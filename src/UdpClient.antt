-- ===== src/UdpClient.antt =====
-- src/udp_client.c: the messages that one process sends to another, and include/udp.h.
use parallel_wrapper.Base.{ℕ, Option, none, some, ◌∷◌, ◌++◌, take, if◌then◌else◌}
use parallel_wrapper.Base.Int.{ℤ, pos, ltb_ℤ, leb_ℤ}
use parallel_wrapper.Base.Text.{Bytes, codes}
use parallel_wrapper.StringUtil.Integer.{format_int}
use parallel_wrapper.System.{Sockaddr, Trace, Os}
use parallel_wrapper.NetworkUtil.{send_string_to_ip_port, send_string_reply}

-- `enum CMD`.
abbrev pub cmd_null : ℤ
cmd_null = pos 0

abbrev pub cmd_term : ℤ
cmd_term = pos 10

abbrev pub cmd_query : ℤ
cmd_query = pos 11

abbrev pub cmd_ack : ℤ
cmd_ack = pos 12

abbrev pub cmd_send_file : ℤ
cmd_send_file = pos 13

abbrev pub cmd_register : ℤ
cmd_register = pos 14

abbrev pub cmd_create_link : ℤ
cmd_create_link = pos 15

-- `snprintf(message, 1024, …)` keeps 1023 bytes.
abbrev pub snprintf : Bytes → Bytes
snprintf = take 1023

unfoldable pub ack_message : ℤ → Bytes
ack_message rank = format_int cmd_ack ++ b':' ∷ format_int rank

unfoldable pub query_message : Bytes
query_message = format_int cmd_query

unfoldable pub term_message : ℤ → Bytes
term_message return_code = format_int cmd_term ++ b':' ∷ format_int return_code

unfoldable pub register_message : ℤ → Bytes → ℤ → Bytes → Bytes
register_message rank iwd cpus username =
    format_int cmd_register
    ++ b':' ∷ (format_int rank ++ b':' ∷ (iwd ++ b':' ∷ (format_int cpus ++ b':' ∷ username)))

unfoldable pub create_link_message : Bytes → Bytes → Bytes
create_link_message src dest = format_int cmd_create_link ++ b':' ∷ (src ++ b':' ∷ dest)

unfoldable pub ack : Os → ℤ → ℤ → Option Sockaddr → Trace → ℕ × Trace
ack os socketfd rank none t = (1, t)
ack os socketfd rank (some addr) t =
    if ltb_ℤ rank (pos 0)
    then (2, t)
    else if ltb_ℤ socketfd (pos 0)
    then (3, t)
    else send_string_reply os (some addr) (some (snprintf (ack_message rank))) socketfd t

unfoldable pub query : Os → ℤ → Option Bytes → ℕ → Trace → ℕ × Trace
query os socketfd none port t = (1, t)
query os socketfd (some ip_addr) port t =
    if ltb_ℤ socketfd (pos 0)
    then (3, t)
    else send_string_to_ip_port os (some ip_addr) port (some (snprintf query_message)) socketfd t

unfoldable pub term : Os → ℤ → ℤ → Option Bytes → ℕ → Trace → ℕ × Trace
term os socketfd return_code none port t = (1, t)
term os socketfd return_code (some ip_addr) port t =
    send_string_to_ip_port os (some ip_addr) port (some (snprintf (term_message return_code)))
      socketfd t

abbrev name_or_nobody : Option Bytes → Bytes
name_or_nobody none = codes "nobody"
name_or_nobody (some username) = username

unfoldable pub register_cmd :
    Os → ℤ → ℤ → ℤ → Option Bytes → Option Bytes → Option Bytes → ℕ → Trace → ℕ × Trace
register_cmd os socketfd rank cpus iwd username none port t = (1, t)
register_cmd os socketfd rank cpus iwd username (some ip_addr) port t =
    if ltb_ℤ rank (pos 0) then (2, t) else if ltb_ℤ socketfd (pos 0) then (3, t) else elim iwd [
      | none ↦ (4, t)
      | some dir ↦
          let cpus' = if leb_ℤ cpus (pos 0) then pos 1 else cpus in
          send_string_to_ip_port os (some ip_addr) port
            (some (snprintf (register_message rank dir cpus' (name_or_nobody username)))) socketfd t
    ]

unfoldable pub create_link :
    Os → ℤ → Option Bytes → Option Bytes → Option Bytes → ℕ → Trace → ℕ × Trace
create_link os socketfd src dest none port t = (1, t)
create_link os socketfd none dest (some ip_addr) port t = (2, t)
create_link os socketfd (some src) dest (some ip_addr) port t =
    if ltb_ℤ socketfd (pos 0) then (3, t) else elim dest [
      | none ↦ (4, t)
      | some to ↦
          send_string_to_ip_port os (some ip_addr) port
            (some (snprintf (create_link_message src to))) socketfd t
    ]
