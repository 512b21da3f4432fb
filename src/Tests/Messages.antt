-- ===== src/Tests/Messages.antt =====
-- The theorems about single handlers, at concrete messages.
use parallel_wrapper.Base.{
  ℕ, ◌<◌, ◌≡◌, refl, ap, some, none, true, false, List, [], ◌∷◌, ◌++◌, length, set, arith,
}
use parallel_wrapper.Base.Int.{pos}
use parallel_wrapper.Base.Text.{Bytes, codes, str_eq}
use parallel_wrapper.NetworkUtil.{ip_text, ip_str_from_sockaddr, port_from_sockaddr}
use parallel_wrapper.StringUtil.Integer.{parsed, parse_integer}
use parallel_wrapper.StringUtil.Quotes.{remove_quotes}
use parallel_wrapper.StringUtil.Trim.{trim}
use parallel_wrapper.System.{Sockaddr, Trace}
use parallel_wrapper.Tests.Sample.{
  os, master_machine, slave_machine, master_world, slave_world, slave_world-IsValid, master_address,
  slave_address, stranger_address,
}
use parallel_wrapper.UdpServer.Ack.{handle_ack}
use parallel_wrapper.UdpServer.Ack.Effect.{AboutRank, handle_ack-heard, handle_ack-other}
use parallel_wrapper.UdpServer.Ack.Stranger.{FromStranger, handle_ack-stranger}
use parallel_wrapper.UdpServer.Authority.{FromMaster, process_message-FromMaster}
use parallel_wrapper.UdpServer.Authority.Obeys.{handle_term-obeys}
use parallel_wrapper.UdpServer.Dispatch.{end_thread, handlers, dispatch, process_message}
use parallel_wrapper.UdpServer.Message.{Message}
use parallel_wrapper.UdpServer.Register.{handle_register}
use parallel_wrapper.UdpServer.Register.Effect.{
  cpus_or_one, handle_register-new, handle_register-taken,
}
use parallel_wrapper.UdpServer.Safety.Parts.{array_of}
use parallel_wrapper.UdpServer.Term.{handle_term}
use parallel_wrapper.StringUtil.Tokens.{is_valid_strarray}
use parallel_wrapper.Wrapper.Action.{fault, returned, exited}

abbrev pub message_of : Sockaddr → List Bytes → Message
message_of from ps = record { args = some (array_of ps); from = from }

-- ACK, and REGISTER, of a rank.
abbrev about :
    (from : Sockaddr) (ps : List Bytes) (rank : ℕ) (arg ip : Bytes)
    → rank < 3
    → parse_integer (some arg) true ≡ parsed (pos rank)
    → ip_str_from_sockaddr os (some from) true 46 ≡ ip_text ip
    → AboutRank os (message_of from ps) master_world arg
about from ps rank arg ip h is_rank is_ip = record {
  me = master_machine;
  is_me = refl;
  master = refl;
  table = some 0 ∷ some 1 ∷ none ∷ [];
  is_table = refl;
  num_procs = refl;
  rank = rank;
  is_rank = is_rank;
  in_table = h;
  ip = ip;
  is_ip = is_ip;
}

rank_1 : parse_integer (some (codes "1")) true ≡ parsed (pos 1)
unfolding parse_integer
rank_1 = refl

rank_2 : parse_integer (some (codes "2")) true ≡ parsed (pos 2)
unfolding parse_integer
rank_2 = refl

from_slave : ip_str_from_sockaddr os (some slave_address) true 46 ≡ ip_text (codes "10.0.0.2")
unfolding ip_str_from_sockaddr
from_slave = refl

from_stranger : ip_str_from_sockaddr os (some stranger_address) true 46 ≡ ip_text (codes "10.0.0.9")
unfolding ip_str_from_sockaddr
from_stranger = refl

slave_port : slave_machine.port ≡ port_from_sockaddr (some slave_address)
unfolding port_from_sockaddr
slave_port = refl

abbrev ack_parts : List Bytes
ack_parts = codes "12" ∷ codes "1" ∷ []

handle_ack-heard_example : handle_ack os (message_of slave_address ack_parts) master_world ≡ (
  returned 0,
  record master_world {
    heap = set master_world.heap 1 (record slave_machine { last_alive = os.now });
  },
)
handle_ack-heard_example =
    handle_ack-heard os (message_of slave_address ack_parts) master_world (codes "12") (codes "1")
      (about slave_address ack_parts 1 (codes "1") (codes "10.0.0.2") (omega arith) rank_1
        from_slave)
      1 slave_machine refl refl refl refl slave_port

other_ip : (codes "10.0.0.2" ≡ codes "10.0.0.9") → ⊥
other_ip e = absurd (let c : false ≡ true = ap (λ s. str_eq s (codes "10.0.0.9")) e in cc)

handle_ack-other_example :
    handle_ack os (message_of stranger_address ack_parts) master_world ≡ (returned 5, master_world)
handle_ack-other_example =
    handle_ack-other os (message_of stranger_address ack_parts) master_world (codes "12")
      (codes "1")
      (about stranger_address ack_parts 1 (codes "1") (codes "10.0.0.9") (omega arith) rank_1
        from_stranger)
      1 slave_machine (codes "10.0.0.2") refl refl refl refl (λ same. other_ip same.0)

abbrev register_parts : Bytes → List Bytes
register_parts rank = codes "14" ∷ rank ∷ codes "/work" ∷ codes "4" ∷ codes "bob" ∷ []

handle_register-new_example :
    (t : Trace) × (handle_register os
        (message_of stranger_address (register_parts (codes "2")))
        master_world
      ≡ (
        returned 0,
        record master_world {
          heap =
              master_world.heap
              ++ record {
                port = port_from_sockaddr (some stranger_address);
                rank = pos 2;
                cpus = cpus_or_one (parse_integer (some (codes "4")) true);
                unique = false;
                iwd = some (trim (remove_quotes (codes "/work")));
                ip_addr = some (codes "10.0.0.9");
                user = some (trim (remove_quotes (codes "bob")));
                schedd_iwd = none;
                last_alive = record { sec = 0; usec = 0 };
              }
                ∷ [];
          par_wrapper = record master_world.par_wrapper {
            machines = some (set (some 0 ∷ some 1 ∷ none ∷ []) 2 (some (length master_world.heap)));
          };
          trace = t;
        },
      ))
handle_register-new_example =
    handle_register-new os (message_of stranger_address (register_parts (codes "2"))) master_world
      (codes "14") (codes "2") (codes "/work") (codes "4") (codes "bob")
      (about stranger_address (register_parts (codes "2")) 2 (codes "2") (codes "10.0.0.9")
        (omega arith) rank_2 from_stranger)
      refl refl refl refl (λ n. refl)

handle_register-taken_example :
    handle_register os (message_of stranger_address (register_parts (codes "1"))) master_world
    ≡ (returned 6, master_world)
handle_register-taken_example =
    handle_register-taken os (message_of stranger_address (register_parts (codes "1"))) master_world
      (codes "14") (codes "1") (codes "/work") (codes "4") (codes "bob")
      (about stranger_address (register_parts (codes "1")) 1 (codes "1") (codes "10.0.0.9")
        (omega arith) rank_1 from_stranger)
      1 slave_machine (codes "10.0.0.2") refl refl refl refl (λ same. other_ip same.0)

abbrev term_parts : List Bytes
term_parts = codes "10" ∷ codes "1" ∷ []

term-FromMaster : FromMaster os (message_of master_address term_parts) slave_world
unfolding ip_str_from_sockaddr port_from_sockaddr
term-FromMaster = record {
  me = slave_machine;
  is_me = refl;
  other_rank = refl;
  ptr = 0;
  is_ptr = refl;
  machine = master_machine;
  is_machine = refl;
  ip = codes "10.0.0.1";
  known = refl;
  same_ip = refl;
  same_port = refl;
}

handle_term-obeys_example :
    (t : Trace) × (handle_term os (message_of master_address term_parts) slave_world
      ≡ (exited (pos 1), record slave_world { keep_alive_locked = true; trace = t }))
handle_term-obeys_example =
    handle_term-obeys os (message_of master_address term_parts) slave_world (codes "10") (codes "1")
      (pos 1) slave_world-IsValid term-FromMaster refl rank_1 refl

-- The two arguments of the message and the state at the end of its run.
abbrev master_term : Message
master_term = message_of master_address term_parts

term_run : process_message os master_term slave_world ≡ (
  exited (pos 1),
  record slave_world { keep_alive_locked = true; trace = handle_term-obeys_example.0 },
)
unfolding process_message is_valid_strarray parse_integer dispatch handlers
term_run = ap end_thread handle_term-obeys_example.1

process_message-FromMaster_example : FromMaster os master_term slave_world
process_message-FromMaster_example = process_message-FromMaster os master_term slave_world term_run

abbrev stranger_ack : Message
stranger_ack = message_of stranger_address (codes "12" ∷ codes "0" ∷ [])

other_master_ip : (codes "10.0.0.1" ≡ codes "10.0.0.9") → ⊥
other_master_ip e = absurd (let c : false ≡ true = ap (λ s. str_eq s (codes "10.0.0.9")) e in cc)

slave_stranger : FromStranger os stranger_ack slave_world
unfolding ip_str_from_sockaddr
slave_stranger = record {
  me = slave_machine;
  is_me = refl;
  other_rank = refl;
  ptr = 0;
  is_ptr = refl;
  machine = master_machine;
  is_machine = refl;
  known = codes "10.0.0.1";
  is_known = refl;
  ip = codes "10.0.0.9";
  is_ip = refl;
  stranger = λ same. other_master_ip same.0;
}

rank_0 : parse_integer (some (codes "0")) true ≡ parsed (pos 0)
unfolding parse_integer
rank_0 = refl

handle_ack-stranger_example : handle_ack os stranger_ack slave_world ≡ (fault, slave_world)
handle_ack-stranger_example =
    handle_ack-stranger os stranger_ack slave_world slave_stranger (codes "12") (codes "0") refl
      rank_0 refl
