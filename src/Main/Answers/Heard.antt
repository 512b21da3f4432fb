-- ===== src/Main/Answers/Heard.antt =====
-- The loops of src/main.c that wait for an acknowledgement end when one arrives.
use parallel_wrapper.Base.{
  ℕ, if◌then◌else◌, ◌≡◌, refl, ap, ◌∙◌, Option, some, Bool, true, ◌&&◌, List, [], ◌∷◌, ◌==◌,
  get_elem?, get_elem?-lt, get_elem?-set_self, set, arith,
}
use parallel_wrapper.Base.Int.{ℤ, pos, ltb_ℤ, IsInt}
use parallel_wrapper.Base.Text.{Bytes}
use parallel_wrapper.Main.Answers.{
  Round, LinkRound, has_changed, answered, load_master, load_rank, send_register, send_link,
  next_round, register_loop, link_loop,
}
use parallel_wrapper.NetworkUtil.{port_from_sockaddr}
use parallel_wrapper.StringUtil.Integer.{format_int}
use parallel_wrapper.StringUtil.Integer.RoundTrip.{parse_integer-format_int}
use parallel_wrapper.System.{Os, Sockaddr, Timeval, Trace}
use parallel_wrapper.UdpClient.{ack_message, cmd_ack, snprintf, register_cmd, create_link}
use parallel_wrapper.UdpServer.Ack.{handle_ack}
use parallel_wrapper.UdpServer.Ack.Effect.{AboutRank, handle_ack-heard}
use parallel_wrapper.UdpServer.Ack.Slave.{handle_ack-master}
use parallel_wrapper.UdpServer.Authority.{FromMaster}
use parallel_wrapper.UdpServer.Dispatch.{end_thread}
use parallel_wrapper.UdpServer.Loop.{Arrival, serve_all}
use parallel_wrapper.UdpServer.Message.{Message}
use parallel_wrapper.UdpServer.Runs.{run-deref, run-load}
use parallel_wrapper.UdpServer.Safety.Parts.{array_of}
use parallel_wrapper.UdpServer.Wire.Commands.{serve-ack_message}
use parallel_wrapper.Wrapper.{Machine, Ptr, World}
use parallel_wrapper.Wrapper.Ensures.{load_lem}
use parallel_wrapper.Wrapper.Action.{Result, ok, Action, pure, on_trace, then_do, ◌>>=◌, ◌>>◌}

-- The message that an acknowledgement of the rank becomes.
abbrev pub ack_of : ℤ → Sockaddr → Message
ack_of rank from = record {
  args = some (array_of (format_int cmd_ack ∷ format_int rank ∷ []));
  from = from;
}

module _ (send : Action ℕ) (target : Action Machine) (during : List Arrival) (old : Timeval)
    (w w1 w2 : World) (m : Machine) where
  answered-heard :
      send w ≡ (ok 0, w1)
      → serve_all during w1 ≡ (ok tt, w2)
      → target w2 ≡ (ok m, w2)
      → has_changed old m.last_alive ≡ true
      → answered send target during old w ≡ (ok true, w2)
  unfolding answered
  answered-heard sent served loaded later =
      ap
        (λ q. then_do q λ rc.
          serve_all during >> (target >>= λ m. pure (rc == 0 && has_changed old m.last_alive)))
        sent
      ∙ ap (λ q. then_do q λ _. target >>= λ m. pure (has_changed old m.last_alive)) served
      ∙ ap (λ q. then_do q λ m. pure (has_changed old m.last_alive)) loaded
      ∙ ap (λ (b : Bool). (ok b, w2)) later

-- The listener serves an acknowledgement that `ack` has printed.
module _ (os : Os) (from : Sockaddr) (w : World) (memory : (n : ℕ) → os.alloc n ≡ true)
    {behind : Bytes} (terminated : os.after_delim ≡ 0 ∷ behind) where
  serve_ack :
      (rank : ℤ) (rc : ℕ) (w' : World)
      → IsInt rank
      → handle_ack os (ack_of rank from) w ≡ (Result.returned rc, w')
      → serve_all ((os, (from, snprintf (ack_message rank))) ∷ []) w ≡ (ok tt, w')
  unfolding serve_all
  serve_ack rank rc w' int h =
      ap (λ q. then_do q λ _. pure tt)
        (serve-ack_message os from w memory terminated rank int ∙ ap end_thread h)

-- What makes the master's answer count in a round of the registration.
pub record IsAnswered (r : Round) (old : Timeval) (w : World) : Type 0 where
  pub os : Os
  pub from : Sockaddr
  pub during : r.during ≡ (os, (from, snprintf (ack_message (pos 0)))) ∷ []
  pub source : FromMaster os (ack_of (pos 0) from) w
  pub malloc_ok : os.malloc_ok ≡ true
  pub memory : (n : ℕ) → os.alloc n ≡ true
  pub behind : Bytes
  pub terminated : os.after_delim ≡ 0 ∷ behind
  pub later : has_changed old os.now ≡ true
  pub in_job : ltb_ℤ (pos 0) w.par_wrapper.num_procs ≡ true

-- The REGISTER of the round.
abbrev pub registering : (r : Round) (w : World) (me m : Machine) → ℕ × Trace
registering r w me m =
    register_cmd r.os w.par_wrapper.command_socket me.rank me.cpus me.iwd me.user m.ip_addr m.port
      w.trace

-- A round of the registration in which the REGISTER is sent, and in which the master's ACK for it
-- comes back from the master's address at another time than `old`, ends the loop: the master has been
-- heard of, and nothing else changes but the trace. The listener needs memory, and a NUL behind its
-- delimiters.
pub register_loop-heard :
    (r : Round) (rounds : List Round) (old : Timeval) (w : World) (a : IsAnswered r old w)
    → (registering r w a.source.me a.source.machine).0 ≡ 0
    → register_loop (r ∷ rounds) old w ≡ (
      ok true,
      record w {
        heap = set w.heap a.source.ptr (record a.source.machine { last_alive = a.os.now });
        trace = (registering r w a.source.me a.source.machine).1;
      },
    )
unfolding register_loop load_master send_register
register_loop-heard r rounds old w a sent =
    let f = a.source in
    let t = (registering r w f.me f.machine).1 in
    let w1 : World = record w { trace = t } in
    let f1 : FromMaster a.os (ack_of (pos 0) a.from) w1 = record {
      me = f.me;
      is_me = f.is_me;
      other_rank = f.other_rank;
      ptr = f.ptr;
      is_ptr = f.is_ptr;
      machine = f.machine;
      is_machine = f.is_machine;
      ip = f.ip;
      known = f.known;
      same_ip = f.same_ip;
      same_port = f.same_port;
    } in
    let now : Machine = record f.machine { last_alive = a.os.now } in
    let w2 : World = record w { heap = set w.heap f.ptr now; trace = t } in
    let sends : send_register r.os w ≡ (ok 0, w1) =
      run-load w (ok 0, w1) w.par_wrapper.this_machine f.me _ f.is_me
        (ap
            (λ q. then_do q λ m. on_trace (
              register_cmd r.os w.par_wrapper.command_socket f.me.rank f.me.cpus f.me.iwd f.me.user
                m.ip_addr m.port))
            (run-deref w (ok f.machine, w) w.par_wrapper.master f.ptr _ f.is_ptr
              (load_lem f.ptr f.machine w f.is_machine))
          ∙ ap (λ rc. (ok rc, w1)) sent) in
    let hears : serve_all r.during w1 ≡ (ok tt, w2) =
      ap (λ l. serve_all l w1) a.during
      ∙ serve_ack a.os a.from w1 a.memory a.terminated (pos 0) 0 w2 (omega arith) (
          handle_ack-master a.os (ack_of (pos 0) a.from) w1 f1 a.malloc_ok (format_int cmd_ack)
            (format_int (pos 0)) refl (parse_integer-format_int (pos 0) (omega arith)) a.in_job) in
    let loads : load_master w2 ≡ (ok now, w2) =
      run-deref w2 (ok now, w2) w.par_wrapper.master f.ptr _ f.is_ptr
        (load_lem f.ptr now w2
          (get_elem?-set_self w.heap f.ptr now (get_elem?-lt w.heap f.ptr f.is_machine))) in
    ap (λ q. then_do q λ heard. next_round heard r (register_loop rounds old))
      (answered-heard (send_register r.os) load_master r.during old w w1 w2 now sends hears loads
        a.later)

-- What makes the answer of rank `i` count in a round of the loop that has a link made.
pub record IsConfirmed (during : List Arrival) (i : ℕ) (old : Timeval) (w : World) : Type 0 where
  pub os : Os
  pub from : Sockaddr
  pub is_during : during ≡ (os, (from, snprintf (ack_message (pos i)))) ∷ []
  pub about : AboutRank os (ack_of (pos i) from) w (format_int (pos i))
  pub same_rank : about.rank ≡ i
  pub int : IsInt (pos i)
  pub ptr : Ptr
  pub machine : Machine
  pub is_ptr : get_elem? about.table i ≡ some (some ptr)
  pub is_machine : get_elem? w.heap ptr ≡ some machine
  pub known : machine.ip_addr ≡ some about.ip
  pub same_port : machine.port ≡ port_from_sockaddr (some from)
  pub malloc_ok : os.malloc_ok ≡ true
  pub memory : (n : ℕ) → os.alloc n ≡ true
  pub behind : Bytes
  pub terminated : os.after_delim ≡ 0 ∷ behind
  pub later : has_changed old os.now ≡ true

-- The CREATE_LINK of the round.
abbrev pub linking : Os → Bytes → World → Machine → ℕ × Trace
linking os fake_fs w m =
    create_link os w.par_wrapper.command_socket m.iwd (some fake_fs) m.ip_addr m.port w.trace

-- The machine of a rank, as `load_rank` finds it.
load_rank-known :
    (w : World) (table : List (Option Ptr)) (i : ℕ) (p : Ptr) (m : Machine)
    → w.par_wrapper.machines ≡ some table
    → get_elem? table i ≡ some (some p)
    → get_elem? w.heap p ≡ some m
    → load_rank i w ≡ (ok m, w)
unfolding load_rank
load_rank-known w table i p m is_table slot here =
    run-deref w (ok m, w) w.par_wrapper.machines table _ is_table
      (run-deref w (ok m, w) (get_elem? table i) (some p) _ slot (load_lem p m w here))

-- A round of the loop that has a link made in which the CREATE_LINK is sent, and in which the ACK of
-- the rank comes back from where the rank has registered at another time than `old`, ends the loop:
-- the rank has been heard of, and nothing else changes but the trace. The listener needs memory, and a
-- NUL behind its delimiters.
pub link_loop-heard :
    (os : Os) (during : List Arrival) (rounds : List LinkRound) (fake_fs : Bytes) (i : ℕ)
    (old : Timeval) (w : World) (c : IsConfirmed during i old w)
    → (linking os fake_fs w c.machine).0 ≡ 0
    → link_loop ((os, during) ∷ rounds) fake_fs i old w ≡ (
      ok true,
      record w {
        heap = set w.heap c.ptr (record c.machine { last_alive = c.os.now });
        trace = (linking os fake_fs w c.machine).1;
      },
    )
unfolding link_loop send_link
link_loop-heard os during rounds fake_fs i old w c sent =
    let a = c.about in
    let t = (linking os fake_fs w c.machine).1 in
    let w1 : World = record w { trace = t } in
    let a1 : AboutRank c.os (ack_of (pos i) c.from) w1 (format_int (pos i)) = record {
      me = a.me;
      is_me = a.is_me;
      master = a.master;
      table = a.table;
      is_table = a.is_table;
      num_procs = a.num_procs;
      rank = a.rank;
      is_rank = a.is_rank;
      in_table = a.in_table;
      ip = a.ip;
      is_ip = a.is_ip;
    } in
    let now : Machine = record c.machine { last_alive = c.os.now } in
    let w2 : World = record w { heap = set w.heap c.ptr now; trace = t } in
    let sends : send_link os fake_fs i w ≡ (ok 0, w1) =
      ap
        (λ q. then_do q λ m.
          on_trace
            (create_link os w.par_wrapper.command_socket m.iwd (some fake_fs) m.ip_addr m.port))
        (load_rank-known w a.table i c.ptr c.machine a.is_table c.is_ptr c.is_machine)
      ∙ ap (λ rc. (ok rc, w1)) sent in
    let hears : serve_all during w1 ≡ (ok tt, w2) =
      ap (λ l. serve_all l w1) c.is_during
      ∙ serve_ack c.os c.from w1 c.memory c.terminated (pos i) 0 w2 c.int (
          handle_ack-heard c.os (ack_of (pos i) c.from) w1 (format_int cmd_ack) (format_int (pos i))
            a1 c.ptr c.machine refl (ap (get_elem? a.table) c.same_rank ∙ c.is_ptr) c.is_machine
            c.known c.same_port
          ∙ ap (λ b. if b then (Result.returned 0, w2) else (Result.returned 3, w1)) c.malloc_ok) in
    let loads : load_rank i w2 ≡ (ok now, w2) =
      load_rank-known w2 a.table i c.ptr now a.is_table c.is_ptr
        (get_elem?-set_self w.heap c.ptr now (get_elem?-lt w.heap c.ptr c.is_machine)) in
    ap (λ q. then_do q λ heard. if heard then pure true else link_loop rounds fake_fs i old)
      (answered-heard (send_link os fake_fs i) (load_rank i) during old w w1 w2 now sends hears
        loads c.later)
