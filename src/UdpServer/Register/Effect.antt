-- ===== src/UdpServer/Register/Effect.antt =====
-- What `handle_register` does to the table.
use parallel_wrapper.Base.{
  ℕ, Bool, false, if◌then◌else◌, ◌≡◌, refl, ap, ◌∙◌, Option, none, some, true, not, ◌||◌, [], ◌∷◌,
  ◌++◌, length, get_elem?, get_elem?-append, set,
}
use parallel_wrapper.StringUtil.Integer.{Parsed, failed, parsed, parse_integer}
use parallel_wrapper.Base.Int.{ℤ, pos, ltb_ℤ, leb_ℤ}
use parallel_wrapper.Base.Text.{Bytes}
use parallel_wrapper.System.{Os, Trace}
use parallel_wrapper.NetworkUtil.{port_from_sockaddr}
use parallel_wrapper.StringUtil.Quotes.{remove_quotes}
use parallel_wrapper.StringUtil.Trim.{trim}
use parallel_wrapper.UdpServer.Ack.Effect.{AboutRank, unless_full, in_range, differs}
use parallel_wrapper.UdpServer.Message.{Message, clean, is_master, send_ack}
use parallel_wrapper.UdpServer.Register.{
  copied, cpus_of, new_machine, add_machine, enter_slot, enter_machine, handle_register,
}
use parallel_wrapper.UdpServer.Runs.{
  run-return_if, run-deref, run-load, run-parse_arg, run-source_ip_if, run-send_ack,
}
use parallel_wrapper.UdpServer.Safety.Parts.{array_of}
use parallel_wrapper.Wrapper.{Machine, Ptr, World}
use parallel_wrapper.Wrapper.Action.{Result, ok, returned, Action, leave, then_do, ◌>>◌}

module _ (os : Os) (msg : Message) (w : World) (command arg iwd cpus user : Bytes)
    (a : AboutRank os msg w arg)
    (is_args : msg.args ≡ some (array_of (command ∷ arg ∷ iwd ∷ cpus ∷ user ∷ []))) where
  -- The machine that the message describes.
  abbrev described : Machine
  described =
      new_machine (pos a.rank) (cpus_of (some cpus)) (copied os 1 (trim (remove_quotes iwd)))
        (copied os 2 (trim (remove_quotes user))) (copied os 0 a.ip)
        (port_from_sockaddr (some msg.from))

  entered : Action (Unit {0})
  entered =
      enter_machine os (pos a.rank) (cpus_of (some cpus)) (trim (remove_quotes iwd))
        (trim (remove_quotes user)) a.ip (port_from_sockaddr (some msg.from))

  entered_slot :
      (slot : Option Ptr)
      → get_elem? a.table a.rank ≡ some slot
      → entered w ≡ enter_slot os a.table (pos a.rank) described a.ip slot w
  unfolding entered enter_machine
  entered_slot slot at =
      let R = enter_slot os a.table (pos a.rank) described a.ip slot w in
      run-deref w R w.par_wrapper.machines a.table _ a.is_table
        (run-deref w R (get_elem? a.table a.rank) slot _ at refl)

  register_known :
      (r : Result (Unit {0}) × World)
      → entered w ≡ r
      → handle_register os msg w ≡ unless_full os w (then_do r (λ _. send_ack os msg >> leave 0))
  unfolding handle_register clean entered
  register_known r h =
      let R = unless_full os w (then_do r (λ _. send_ack os msg >> leave 0)) in
      run-deref w R msg.args (array_of (command ∷ arg ∷ iwd ∷ cpus ∷ user ∷ [])) _ is_args (
        run-load w R w.par_wrapper.this_machine a.me _ a.is_me (
          run-return_if w R (not (is_master a.me)) 2 _ (ap not a.master) (
            run-parse_arg w R (array_of (command ∷ arg ∷ iwd ∷ cpus ∷ user ∷ [])) 1 3 (pos a.rank) _
              a.is_rank
              (run-return_if w R
                (ltb_ℤ (pos a.rank) (pos 0) || leb_ℤ w.par_wrapper.num_procs (pos a.rank)) 4 _
                (in_range a.rank (length a.table) w.par_wrapper.num_procs a.in_table a.num_procs)
                (run-source_ip_if w (then_do r (λ _. send_ack os msg >> leave 0)) os msg a.ip _
                  a.is_ip (ap (λ q. then_do q (λ _. send_ack os msg >> leave 0)) h))))))

-- The number of processors that a REGISTER asks for: its argument, or 1 if that is no number.
abbrev pub cpus_or_one : Parsed → ℤ
cpus_or_one (failed rc) = pos 1
cpus_or_one (parsed n) = n

cpus_of_lem : (cpus : Bytes) → cpus_of (some cpus) ≡ cpus_or_one (parse_integer (some cpus) true)
unfolding cpus_of
cpus_of_lem cpus = go (parse_integer (some cpus) true)
  where
    go : (r : Parsed) → elim r as (λ _. ℤ) [ failed _ ↦ pos 1 | parsed v ↦ v ] ≡ cpus_or_one r
    go (failed rc) = refl
    go (parsed n) = refl

-- On the master, when memory is found, a REGISTER for a rank that is free enters the machine that it
-- describes at the end of the heap and in the slot of the rank: with the rank, the address and the port
-- of the source, the directory and the user without their quotes and outer blanks, and the number of
-- processors, which is 1 if it is no number. It has not been heard of yet, and nothing else changes
-- but the trace.
pub handle_register-new :
    (os : Os) (msg : Message) (w : World) (command arg iwd cpus user : Bytes)
    (a : AboutRank os msg w arg)
    → msg.args ≡ some (array_of (command ∷ arg ∷ iwd ∷ cpus ∷ user ∷ []))
    → get_elem? a.table a.rank ≡ some none
    → os.malloc_ok ≡ true
    → os.calloc_ok ≡ true
    → ((n : ℕ) → os.strdup_ok n ≡ true)
    → (t : Trace) × (handle_register os msg w ≡ (
      returned 0,
      record w {
        heap =
            w.heap
            ++ record {
              port = port_from_sockaddr (some msg.from);
              rank = pos a.rank;
              cpus = cpus_or_one (parse_integer (some cpus) true);
              unique = false;
              iwd = some (trim (remove_quotes iwd));
              ip_addr = some a.ip;
              user = some (trim (remove_quotes user));
              schedd_iwd = none;
              last_alive = record { sec = 0; usec = 0 };
            }
              ∷ [];
        par_wrapper = record w.par_wrapper {
          machines = some (set a.table a.rank (some (length w.heap)));
        };
        trace = t;
      },
    ))
unfolding enter_slot add_machine
handle_register-new os msg w command arg iwd cpus user a is_args free malloc memory copies =
    let d : Machine = described os msg w command arg iwd cpus user a is_args in
    let w' : World = record w {
      heap = w.heap ++ d ∷ [];
      par_wrapper = record w.par_wrapper {
        machines = some (set a.table a.rank (some (length w.heap)));
      };
    } in
    let here = get_elem?-append w.heap (d ∷ []) w.par_wrapper.this_machine a.is_me in
    let (rc, t, sent) = run-send_ack os msg w' a.me (λ _. leave 0) here in
    let complete : d ≡ record {
      port = port_from_sockaddr (some msg.from);
      rank = pos a.rank;
      cpus = cpus_or_one (parse_integer (some cpus) true);
      unique = false;
      iwd = some (trim (remove_quotes iwd));
      ip_addr = some a.ip;
      user = some (trim (remove_quotes user));
      schedd_iwd = none;
      last_alive = record { sec = 0; usec = 0 };
    } =
      rw (copies 0) (rw (copies 1) (rw (copies 2) (rw (cpus_of_lem cpus) refl))) in
    (
      t,
      register_known os msg w command arg iwd cpus user a is_args (ok tt, w')
            (entered_slot os msg w command arg iwd cpus user a is_args none free
              ∙ run-return_if w (ok tt, w') (not os.calloc_ok) 5
                  (add_machine a.table (pos a.rank) d) (ap not memory) refl)
          ∙ ap
              (λ b.
                if b
                then then_do (ok tt, w') (λ _. send_ack os msg >> leave 0)
                else (returned 3, w))
              malloc
          ∙ sent
          ∙ ap
              (λ m. (
                returned 0,
                record w {
                  heap = w.heap ++ m ∷ [];
                  par_wrapper = record w.par_wrapper {
                    machines = some (set a.table a.rank (some (length w.heap)));
                  };
                  trace = t;
                },
              ))
              complete,
    )

-- On the master, a REGISTER for a rank that another address or port has taken is refused with 6, or
-- with 3 if there is no memory for the text of the source's address, and changes nothing either way: a
-- rank cannot be stolen.
pub handle_register-taken :
    (os : Os) (msg : Message) (w : World) (command arg iwd cpus user : Bytes)
    (a : AboutRank os msg w arg) (p : Ptr) (m : Machine) (known : Bytes)
    → msg.args ≡ some (array_of (command ∷ arg ∷ iwd ∷ cpus ∷ user ∷ []))
    → get_elem? a.table a.rank ≡ some (some p)
    → get_elem? w.heap p ≡ some m
    → m.ip_addr ≡ some known
    → ((known ≡ a.ip) × (m.port ≡ port_from_sockaddr (some msg.from)) → ⊥)
    → handle_register os msg w ≡ (returned (if os.malloc_ok then 6 else 3), w)
unfolding enter_slot
handle_register-taken os msg w command arg iwd cpus user a p m known is_args slot here is_known
      other =
    register_known os msg w command arg iwd cpus user a is_args (returned 6, w)
      (entered_slot os msg w command arg iwd cpus user a is_args (some p) slot
        ∙ run-load w (returned 6, w) p m _ here
            (run-deref w (returned 6, w) m.ip_addr known _ is_known
              (rw (differs known a.ip m.port (port_from_sockaddr (some msg.from)) other) refl)))
    ∙ code_if os.malloc_ok
  where
    code_if :
        (b : Bool)
        → ◌≡◌ {A = Result (Unit {0}) × World}
            (if b then (returned 6, w) else (returned 3, w))
            (returned (if b then 6 else 3), w)
    code_if true = refl
    code_if false = refl
