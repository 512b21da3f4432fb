-- ===== src/Scratch/Files.antt =====
-- What the files of src/scratch.c contain in the end.
pub mod Printing
use parallel_wrapper.Base.{
  ℕ, ◌+◌, ◌≡◌, refl, sym, ap, ◌∙◌, Option, none, some, true, [], ◌∷◌, ◌++◌, if◌then◌else◌,
}
use parallel_wrapper.Base.Int.{ℤ, pos_part, eqb_ℤ}
use parallel_wrapper.Base.Text.{Bytes, codes}
use parallel_wrapper.StringUtil.Integer.{format_int}
use parallel_wrapper.Scratch.{machine_file}
use parallel_wrapper.Scratch.Create.{
  ScratchOs, path_in, machine_line, print_machine, print_machines, machine_file_of, with_file,
  create_machine_file,
}
use parallel_wrapper.Scratch.Files.Printing.{
  file_text, machines_text, printed_text, opened_text, for_machines-Printed,
}
use parallel_wrapper.System.{Os, Trace, opened, printed}
use parallel_wrapper.Wrapper.{Machine, World, master_rank}
use parallel_wrapper.Wrapper.Action.{ok, then_do, pure, deref, emit, ◌>>=◌, ◌>>◌}
use parallel_wrapper.Wrapper.Ensures.{load_lem}
use parallel_wrapper.Wrapper.Invariant.{IsValid, IsTable}
use parallel_wrapper.Wrapper.Machines.{for_machines}

-- The line of a machine whose address is known: `address:processors # TODO HOSTNAME` and a newline.
abbrev line_with : Option Bytes → ℤ → Bytes
line_with none cpus = []
line_with (some ip) cpus =
    ip ++ (codes ":" ++ (format_int cpus ++ (codes " # TODO HOSTNAME" ++ 10 ∷ [])))

abbrev pub line_of : Machine → Bytes
line_of m = line_with m.ip_addr m.cpus

HasIp : Machine → Type 0
HasIp m = (ip : Bytes) × (m.ip_addr ≡ some ip)

print_machine-Printed :
    (w : World) (file : Bytes) (i : ℕ) (m : Machine) (t : Trace)
    → HasIp m
    → (t' : Trace) × (print_machine file i m (record w { trace = t })
        ≡ (ok tt, record w { trace = t' }))
      × (file_text t' file ≡ file_text t file ++ line_of m)
unfolding print_machine HasIp machine_line
print_machine-Printed w file i m t (ip, is_ip) = (
  printed file (machine_line ip m.cpus) ∷ t,
  ap
      (λ o.
        (deref o >>= λ ip. emit (printed file (machine_line ip m.cpus))) (record w { trace = t }))
      is_ip,
  printed_text file (machine_line ip m.cpus) t
      ∙ ap (λ o. file_text t file ++ line_with o m.cpus) (sym is_ip),
)

-- The master's machine file holds one line for every rank that has registered, in the order
-- of the ranks, with the address and the number of processors of its machine; only the trace changes. This
-- is so in a valid state with a scratch directory, when its path and the file can be had.
pub create_machine_file_lem :
    (os : Os) (sos : ScratchOs) (w : World) (v : IsValid w.par_wrapper w.heap)
    (table : IsTable w.par_wrapper w.heap) (dir file : Bytes)
    → v.me.rank ≡ master_rank
    → w.par_wrapper.scratch_dir ≡ some dir
    → path_in os (some dir) machine_file ≡ some file
    → sos.fopen_ok file ≡ true
    → (t : Trace) × (create_machine_file os sos w ≡ (ok 0, record w { trace = t }))
      × (file_text t file ≡ machines_text w.heap line_of table.table)
unfolding create_machine_file print_machines HasIp
create_machine_file_lem os sos w v table dir file is_master has_dir has_path fopen =
    let body = print_machine file in
    let pw = w.par_wrapper in
    let start = record w { trace = opened file ∷ w.trace } in
    let (t, e, whole) =
      for_machines-Printed w file body line_of HasIp (print_machine-Printed w file) [] table.table 0
        (opened file ∷ w.trace)
        (λ r p at. let (m, ip, here, known) = table.known r p at in (m, here, (ip, known))) refl in
    (
      t,
      ap
            (λ r. then_do r (λ me.
              if eqb_ℤ me.rank master_rank
              then machine_file_of os sos pw.scratch_dir pw.machines
              else pure 2))
            (load_lem pw.this_machine v.me w v.is_me)
          ∙ ap
              (λ rank.
                (if eqb_ℤ rank master_rank
                    then machine_file_of os sos pw.scratch_dir pw.machines
                    else pure 2)
                  w)
              is_master
          ∙ ap (λ d. machine_file_of os sos d pw.machines w) has_dir
          ∙ ap (λ machines. machine_file_of os sos (some dir) machines w) table.is_table
          ∙ ap (λ d. with_file sos 4 (path_in os d machine_file) (print_machines pw table.table) w)
              has_dir
          ∙ ap (λ path. with_file sos 4 path (print_machines pw table.table) w) has_path
          ∙ ap
              (λ b.
                (if b then emit (opened file) >> print_machines pw table.table file else pure 4) w)
              fopen
          ∙ ap (λ n. (for_machines (pos_part n) 0 table.table body >> pure 0) start) table.size
          ∙ ap (λ r. then_do r (λ _. pure 0)) e,
      whole ∙ ap (λ l. l ++ machines_text w.heap line_of table.table) (opened_text file w.trace),
    )
