-- ===== src/Scratch/SshConfig.antt =====
-- What `create_ssh_config` and `create_ssh_wrapper` of src/scratch.c write.
use parallel_wrapper.Base.{
  ℕ, ◌≡◌, refl, sym, ap, ◌∙◌, Option, none, some, true, false, List, [], ◌∷◌, ◌++◌, append-nil,
  append_assoc, if◌then◌else◌, arith, get_elem?,
}
use parallel_wrapper.Base.Int.{pos_part, eqb_ℤ}
use parallel_wrapper.Base.Text.{Bytes, codes, IsText, str_eq, str_eq_refl}
use parallel_wrapper.Scratch.{ssh_config, ssh_wrapper}
use parallel_wrapper.Scratch.Create.{
  ScratchOs, path_in, line, with_file, create_ssh_wrapper, config_lines, print_lines, print_host,
  print_config, ssh_config_of, create_ssh_config,
}
use parallel_wrapper.Scratch.Files.Printing.{
  file_text, machines_text, printed_text, opened_text, for_machines-Printed,
}
use parallel_wrapper.Scratch.Removal.{file_in, path_in_lem, names-IsName}
use parallel_wrapper.StringUtil.Paths.Joined.{directory}
use parallel_wrapper.System.{Os, Trace, opened, printed}
use parallel_wrapper.Wrapper.{Machine, Ptr, World, master_rank}
use parallel_wrapper.Wrapper.Action.{ok, Action, then_do, pure, emit, ◌>>=◌, ◌>>◌}
use parallel_wrapper.Wrapper.Ensures.{load_lem}
use parallel_wrapper.Wrapper.Invariant.{IsValid, IsTable}
use parallel_wrapper.Wrapper.Machines.{for_machines}

-- A text and a newline.
abbrev pub ended : Bytes → Bytes
ended s = s ++ 10 ∷ []

abbrev pub host_with : Option Bytes → Option Bytes → Bytes
host_with none user = []
host_with (some ip) none = []
host_with (some ip) (some user) =
    ended (codes "Host=" ++ ip)
    ++ (ended (9 ∷ (codes "User=" ++ user)) ++ ended (9 ∷ codes "Port=22"))

-- The three lines of a machine.
abbrev pub host_of : Machine → Bytes
host_of m = host_with m.ip_addr m.user

-- A machine whose address and user are known.
abbrev pub HasHost : Machine → Type 0
HasHost m = (ip : Bytes) × (user : Bytes) × (m.ip_addr ≡ some ip) × (m.user ≡ some user)

abbrev pub lines_text : List Bytes → Bytes
lines_text [] = []
lines_text (s ∷ lines) = ended s ++ lines_text lines

-- The options at the top of the configuration.
abbrev pub options : List Bytes
options =
    codes "BatchMode=yes"
    ∷ codes "UserKnownHostsFile=/dev/null"
    ∷ codes "StrictHostKeyChecking=no"
    ∷ codes "Cipher=none"
    ∷ codes "Compression=no"
    ∷ codes "ForwardX11=no"
    ∷ codes "FallBackToRsh=yes"
    ∷ codes "KeepAlive=yes"
    ∷ codes "ServerAliveInterval=120"
    ∷ []

-- The script that calls `ssh` with the configuration.
abbrev pub script : Bytes → Bytes
script config = ended (codes "#!/bin/sh") ++ ended (codes "ssh -F " ++ (config ++ codes " $@"))

module _ (w : World) (file : Bytes) where
  print_lines-Printed :
      (lines : List Bytes) (t : Trace)
      → (t' : Trace) × (print_lines file lines (record w { trace = t })
          ≡ (ok tt, record w { trace = t' }))
        × (file_text t' file ≡ file_text t file ++ lines_text lines)
  unfolding print_lines
  print_lines-Printed [] t = (t, refl, sym (append-nil (file_text t file)))
  print_lines-Printed (s ∷ lines) t =
      let (t', e, text) = print_lines-Printed lines (printed file (line s) ∷ t) in
      (
        t',
        e,
        text
            ∙ ap (λ l. l ++ lines_text lines) (printed_text file (line s) t)
            ∙ append_assoc (file_text t file) (line s) (lines_text lines),
      )

  print_host-Printed :
      (i : ℕ) (m : Machine) (t : Trace)
      → HasHost m
      → (t' : Trace) × (print_host file i m (record w { trace = t })
          ≡ (ok tt, record w { trace = t' }))
        × (file_text t' file ≡ file_text t file ++ host_of m)
  unfolding print_host
  print_host-Printed i m t (ip, user, is_ip, is_user) =
      let a = line (codes "Host=" ++ ip) in
      let b = line (9 ∷ (codes "User=" ++ user)) in
      let c = line (9 ∷ codes "Port=22") in
      let t1 : Trace = printed file a ∷ t in
      let t2 : Trace = printed file b ∷ t1 in
      (
        printed file c ∷ t2,
        rw (is_ip, is_user) refl,
        printed_text file c t2
            ∙ ap (λ l. l ++ c) (printed_text file b t1 ∙ ap (λ l. l ++ b) (printed_text file a t))
            ∙ append_assoc (file_text t file ++ a) b c
            ∙ append_assoc (file_text t file) a (b ++ c)
            ∙ ap (λ l. file_text t file ++ l)
                (ap (λ o. host_with o (some user)) (sym is_ip)
                  ∙ ap (host_with m.ip_addr) (sym is_user)),
      )

str_eq-append : (d a b : Bytes) → str_eq (d ++ a) (d ++ b) ≡ str_eq a b
str_eq-append [] a b = refl
str_eq-append (c ∷ d) a b = ground (arith, str_eq-append d a b)

-- The two files are different ones.
config_other : (dir : Bytes) → str_eq (file_in dir ssh_wrapper) (file_in dir ssh_config) ≡ false
config_other dir = str_eq-append (directory dir) (b'/' ∷ ssh_wrapper) (b'/' ∷ ssh_config)

module _ (os : Os) (sos : ScratchOs) (dir : Bytes) (memory : os.malloc_ok ≡ true)
    (text : IsText dir) (fopen : (file : Bytes) → sos.fopen_ok file ≡ true) where
  wrapper_path : path_in os (some dir) ssh_wrapper ≡ some (file_in dir ssh_wrapper)
  wrapper_path =
      let (m, (w, (c, (l, _)))) = names-IsName in path_in_lem os dir ssh_wrapper memory text w

  config_path : path_in os (some dir) ssh_config ≡ some (file_in dir ssh_config)
  config_path =
      let (m, (w, (c, (l, _)))) = names-IsName in path_in_lem os dir ssh_config memory text c

  -- What `create_ssh_wrapper` does.
  abbrev wrapped : Trace → Trace
  wrapped t =
      let file = file_in dir ssh_wrapper in
      printed file (line (codes "ssh -F " ++ (file_in dir ssh_config ++ codes " $@")))
      ∷ printed file (line (codes "#!/bin/sh"))
      ∷ opened file
      ∷ t

  create_ssh_wrapper_lem :
      (w : World)
      → create_ssh_wrapper os sos (some dir) w ≡ (ok 0, record w { trace = wrapped w.trace })
  unfolding create_ssh_wrapper
  create_ssh_wrapper_lem w = rw (wrapper_path, config_path, fopen (file_in dir ssh_wrapper)) refl

  wrapped-config :
      (t : Trace)
      → file_text (wrapped t) (file_in dir ssh_config) ≡ file_text t (file_in dir ssh_config)
  wrapped-config t = rw (config_other dir) refl

  wrapped-script :
      (t : Trace)
      → file_text (wrapped t) (file_in dir ssh_wrapper) ≡ script (file_in dir ssh_config)
  wrapped-script t = rw (str_eq_refl (file_in dir ssh_wrapper)) refl

  -- On the master, in a valid state with a scratch directory, when memory is found, the files can be
  -- opened, and the user of each registered machine is known: the SSH configuration has the nine
  -- options above, a line for each, and behind them three lines for every rank that has registered, in the order of the ranks, with
  -- the address and the user of its machine; the script beside it calls ssh with just that
  -- configuration; and only the trace changes.
  pub create_ssh_config_lem :
      (w : World) (v : IsValid w.par_wrapper w.heap) (table : IsTable w.par_wrapper w.heap)
      → v.me.rank ≡ master_rank
      → w.par_wrapper.scratch_dir ≡ some dir
      → ((r : ℕ) (p : Ptr)
          → get_elem? table.table r ≡ some (some p)
          → (m : Machine) × (get_elem? w.heap p ≡ some m) × HasHost m)
      → (t : Trace) × (create_ssh_config os sos w ≡ (ok 0, record w { trace = t }))
        × (file_text t (file_in dir ssh_config)
            ≡ lines_text options ++ machines_text w.heap host_of table.table)
        × (file_text t (file_in dir ssh_wrapper) ≡ script (file_in dir ssh_config))
  unfolding create_ssh_config print_config config_lines
  create_ssh_config_lem w v table is_master has_dir hosts =
      let pw = w.par_wrapper in
      let file = file_in dir ssh_config in
      let (t1, e1, text1) = print_lines-Printed w file config_lines (opened file ∷ w.trace) in
      let (t2, e2, text2) =
        for_machines-Printed w file (print_host file) host_of HasHost (print_host-Printed w file) []
          table.table 0 t1 hosts refl in
      let last : Action ℕ = create_ssh_wrapper os sos pw.scratch_dir >>= λ rc. pure 0 in
      (
        wrapped t2,
        ap
              (λ r. then_do r (λ me.
                if eqb_ℤ me.rank master_rank
                then ssh_config_of os sos pw.scratch_dir pw.machines
                else pure 1))
              (load_lem pw.this_machine v.me w v.is_me)
            ∙ ap
                (λ rank.
                  (if eqb_ℤ rank master_rank
                      then ssh_config_of os sos pw.scratch_dir pw.machines
                      else pure 1)
                    w)
                is_master
            ∙ ap (λ d. ssh_config_of os sos d pw.machines w) has_dir
            ∙ ap (λ machines. ssh_config_of os sos (some dir) machines w) table.is_table
            ∙ ap
                (λ d.
                  with_file sos 3 (path_in os d ssh_config) (print_config os sos pw table.table) w)
                has_dir
            ∙ ap (λ path. with_file sos 3 path (print_config os sos pw table.table) w) config_path
            ∙ ap
                (λ b.
                  (if b
                      then emit (opened file) >> print_config os sos pw table.table file
                      else pure 3)
                    w)
                (fopen file)
            ∙ ap
                (λ r. then_do r (λ _.
                  for_machines (pos_part pw.num_procs) 0 table.table (print_host file) >> last))
                e1
            ∙ ap
                (λ n.
                  (for_machines (pos_part n) 0 table.table (print_host file) >> last)
                    (record w { trace = t1 }))
                table.size
            ∙ ap (λ r. then_do r (λ _. last)) e2
            ∙ ap
                (λ d.
                  then_do (create_ssh_wrapper os sos d (record w { trace = t2 })) (λ rc. pure 0))
                has_dir
            ∙ ap (λ r. then_do r (λ rc. pure 0)) (create_ssh_wrapper_lem (record w { trace = t2 })),
        wrapped-config t2
            ∙ text2
            ∙ ap (λ l. l ++ machines_text w.heap host_of table.table)
                (text1 ∙ ap (λ l. l ++ lines_text config_lines) (opened_text file w.trace)),
        wrapped-script t2,
      )
