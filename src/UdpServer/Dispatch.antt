-- ===== src/UdpServer/Dispatch.antt =====
-- `handlers`, `process_message`, `keep_alive` and the loop of `udp_server` in src/udp_server.c.
use parallel_wrapper.Base.{
  ℕ, Option, ◌-◌, none, some, Bool, true, false, not, List, [], ◌∷◌, ◌++◌, if◌then◌else◌, take,
  length, replicate,
}
use parallel_wrapper.Base.Int.{ℤ, pos, pos_part, ltb_ℤ, eqb_ℤ}
use parallel_wrapper.Base.Text.{Bytes, c_str}
use parallel_wrapper.StringUtil.Integer.{Parsed, failed, parsed, parse_integer}
use parallel_wrapper.StringUtil.Tokens.{Split, StrArray, strsplit, is_valid_strarray}
use parallel_wrapper.System.{Sockaddr, timersub_sec, Os}
use parallel_wrapper.Cleanup.{cleanup}
use parallel_wrapper.UdpClient.{
  cmd_term, cmd_query, cmd_ack, cmd_send_file, cmd_register, cmd_create_link, query,
}
use parallel_wrapper.UdpServer.Message.{Message, string_at}
use parallel_wrapper.UdpServer.Ack.{handle_ack, handle_query}
use parallel_wrapper.UdpServer.Term.{handle_term}
use parallel_wrapper.UdpServer.CreateLink.{handle_create_link, handle_send_file}
use parallel_wrapper.UdpServer.Register.{handle_register}
use parallel_wrapper.Wrapper.{Machine, Ptr, World}
use parallel_wrapper.Wrapper.Action.{
  Action, Result, ok, returned, exited, fault, Handler, pure, deref, crash, wrapper, gets, on_trace,
  ◌>>=◌, ◌>>◌,
}
use parallel_wrapper.Wrapper.Machines.{for_machines}

abbrev pub UdpHandler : Type 0
UdpHandler = ℤ × (Os → Message → Handler)

-- The array without its last entry, `{CMD_NULL, NULL}`.
unfoldable pub handlers : List UdpHandler
handlers =
    (cmd_query, handle_query)
    ∷ (cmd_ack, handle_ack)
    ∷ (cmd_term, handle_term)
    ∷ (cmd_create_link, handle_create_link)
    ∷ (cmd_send_file, handle_send_file)
    ∷ (cmd_register, handle_register)
    ∷ []

abbrev pub end_thread : Result (Unit {0}) × World → Result (Unit {0}) × World
end_thread (ok _, w) = (ok tt, w)
end_thread (returned _, w) = (ok tt, w)
end_thread (exited code, w) = (exited code, w)
end_thread (fault, w) = (fault, w)

-- A thread ends by `return NULL` whatever its handler returned.
abbrev pub run_handler : Handler → Action (Unit {0})
run_handler h w = end_thread (h w)

-- The loop over the table: the first handler of the command is called.
unfoldable pub dispatch : Os → Message → ℤ → List UdpHandler → Action (Unit {0})
dispatch os msg command [] = pure tt
dispatch os msg command ((c, handler) ∷ rest) =
    if eqb_ℤ command c then run_handler (handler os msg) else dispatch os msg command rest

abbrev pub process_command : Os → Message → Parsed → Action (Unit {0})
process_command os msg (failed _) = pure tt
process_command os msg (parsed command) = dispatch os msg command handlers

-- A message without a valid array, or that does not start with a number, is dropped.
unfoldable pub process_message : Os → Message → Action (Unit {0})
process_message os msg =
    if not (is_valid_strarray msg.args)
    then pure tt
    else (do args ← deref msg.args; process_command os msg (parse_integer (string_at args 0) true))

-- QUERY to every machine that has registered.
unfoldable pub query_machine : Os → ℤ → ℕ → Machine → Action (Unit {0})
query_machine os socketfd i m = on_trace (query os socketfd m.ip_addr m.port) >> pure tt

unfoldable pub set_locked : Bool → Action (Unit {0})
set_locked b w = (ok tt, record w { keep_alive_locked = b })

abbrev pub abort_if : Bool → Os → Action (Unit {0})
abort_if true os = set_locked false >> cleanup os (pos 250)
abort_if false os = pure tt

-- The check of one machine after the sleep: a silence over the timeout ends the job.
unfoldable pub check_machine : Os → ℤ → ℕ → Machine → Action (Unit {0})
check_machine os timeout i m = abort_if (ltb_ℤ timeout (timersub_sec os.now m.last_alive)) os

-- The two loops, each over the table of its time.
unfoldable pub query_all : Os → Action (Unit {0})
query_all os = do
  pw ← wrapper
  machines ← deref pw.machines
  for_machines (pos_part pw.num_procs) 0 machines (query_machine os pw.command_socket)

unfoldable pub check_all : Os → Action (Unit {0})
check_all os = do
  pw ← wrapper
  machines ← deref pw.machines
  for_machines (pos_part pw.num_procs) 0 machines (check_machine os pw.timeout)

abbrev pub keep_alive_if : Bool → Os → Os → Action (Unit {0}) → Action (Unit {0})
keep_alive_if true os os' others = pure tt
keep_alive_if false os os' others = do
  set_locked true
  query_all os
  others
  check_all os'
  set_locked false

-- What the thread does once the table is there and unless another one holds the mutex.
abbrev pub keep_alive_on :
    Option (List (Option Ptr)) → Os → Os → Action (Unit {0}) → Action (Unit {0})
keep_alive_on none os os' others = pure tt
keep_alive_on (some _) os os' others = do
  locked ← gets (λ w. w.keep_alive_locked)
  keep_alive_if locked os os' others

-- `others` is what the other threads do while this one sleeps; `os` answers before the sleep and
-- `os'` after it.
unfoldable pub keep_alive : Os → Os → Action (Unit {0}) → Action (Unit {0})
keep_alive os os' others = do pw ← wrapper; keep_alive_on pw.machines os os' others

-- `#define BUFFER_SIZE`.
abbrev pub buffer_size : ℕ
buffer_size = 1024

-- What the zeroed buffer holds as a string after `recvfrom`: without a NUL in it the string runs on
-- into what stands behind it.
unfoldable pub receive : Os → Bytes → Bytes
receive os datagram =
    let got = take buffer_size datagram in
    c_str (got ++ (replicate (buffer_size - length got) 0 ++ os.after_buffer))

-- `char delim[] = {':', '|'}` has no terminator, so `strlen` reads on behind it.
unfoldable pub delim_of : Os → Bytes
delim_of os = c_str (b':' ∷ b'|' ∷ os.after_delim)

abbrev pub serve_split : Os → Sockaddr → Split StrArray → Action (Unit {0})
serve_split os from (Split.ok args) = process_message os (record { args = some args; from = from })
serve_split os from Split.null = process_message os (record { args = none; from = from })
serve_split os from Split.fault = crash

-- A datagram: it is read, split, and handled by a thread of its own.
unfoldable pub serve_datagram : Os → Sockaddr → Bytes → Action (Unit {0})
serve_datagram os from datagram =
    serve_split os from (strsplit os.alloc (some (delim_of os)) (some (receive os datagram)))
