-- ===== src/UdpServer/KeepAlive.antt =====
-- What `keep_alive` finds in its second loop.
use parallel_wrapper.Base.{
  ℕ, zero, suc, ◌+◌, ◌<◌, ◌≤◌, ◌≡◌, refl, sym, ap, ◌∙◌, subst, Option, none, some, Bool, true,
  false, List, get_elem?, get_elem?-some, length, arith, ◌⊎◌, inl, inr, Bool-cases,
}
use native.Mathlib.Decide.{ℕ_discrete}
use parallel_wrapper.Base.Int.{ℤ, pos, pos_part, ltb_ℤ}
use parallel_wrapper.Cleanup.Exits.{cleanup-exits}
use parallel_wrapper.System.{Os, Trace, timersub_sec}
use parallel_wrapper.UdpServer.Dispatch.{abort_if, check_machine, check_all, set_locked}
use parallel_wrapper.UdpServer.Runs.{run-deref}
use parallel_wrapper.Wrapper.{Machine, Ptr, World}
use parallel_wrapper.Wrapper.Action.{Result, ok, exited, then_do}
use parallel_wrapper.Wrapper.Ensures.{load_lem}
use parallel_wrapper.Wrapper.Invariant.{IsValid, IsTable, IsKnown}
use parallel_wrapper.Wrapper.Machines.{in_slot, at_slot, for_machines}

-- Whether the machine has been silent for longer than the timeout.
abbrev pub is_silent : Os → ℤ → Machine → Bool
is_silent os timeout m = ltb_ℤ timeout (timersub_sec os.now m.last_alive)

-- The result of the check: it goes through with nothing changed, or ends the process.
abbrev pub Aborts : World → Result (Unit {0}) × World → Type 0
Aborts w r =
    (t : Trace) × (r ≡ (exited (pos 250), record w { keep_alive_locked = true; trace = t }))

-- Some rank has registered, and its machine has been silent for longer than the timeout.
abbrev pub SomeSilent : Os → ℤ → World → List (Option Ptr) → Type 0
SomeSilent os timeout w table =
    (r : ℕ) × (p : Ptr) × (m : Machine) × (get_elem? table r ≡ some (some p))
    × (get_elem? w.heap p ≡ some m)
    × (is_silent os timeout m ≡ true)

-- The machine of the rank, if there is one, has been heard in time.
abbrev pub Heard : Os → ℤ → World → List (Option Ptr) → ℕ → Type 0
Heard os timeout w table r =
    (p : Ptr) (m : Machine)
    → get_elem? table r ≡ some (some p)
    → get_elem? w.heap p ≡ some m
    → is_silent os timeout m ≡ false

module _ (os : Os) (timeout : ℤ) (w : World) (v : IsValid w.par_wrapper w.heap)
    (table : List (Option Ptr))
    (known : (r : ℕ) (p : Ptr) → get_elem? table r ≡ some (some p) → IsKnown w.heap p) where
  same_machine :
      (p p' : Ptr) (m m' : Machine)
      → p ≡ p'
      → get_elem? w.heap p ≡ some m
      → get_elem? w.heap p' ≡ some m'
      → m' ≡ m
  same_machine p p' m m' e h h' =
      let l : get_elem? w.heap p ≡ get_elem? w.heap p' = ap (get_elem? w.heap) e in
      let j : some m' ≡ some m = sym h' ∙ sym l ∙ h in cc

  aborted : Aborts w (abort_if true os w)
  unfolding set_locked
  aborted =
      let (t, e) = cleanup-exits os (pos 250) (record w { keep_alive_locked = false }) v in (t, e)

  check_slot :
      (i : ℕ)
      → i < length table
      → (Aborts w (at_slot table i (check_machine os timeout) w) × SomeSilent os timeout w table)
        ⊎ ((at_slot table i (check_machine os timeout) w ≡ (ok tt, w)) × Heard os timeout w table i)
  unfolding at_slot check_machine
  check_slot i h = let (slot, at) = get_elem?-some table i h in by_slot slot at
    where
      by_slot :
          (slot : Option Ptr)
          → get_elem? table i ≡ some slot
          → (Aborts w (at_slot table i (check_machine os timeout) w)
              × SomeSilent os timeout w table)
            ⊎ ((at_slot table i (check_machine os timeout) w ≡ (ok tt, w))
                × Heard os timeout w table i)
      by_slot none at = inr (
        ap (λ o. in_slot o i (check_machine os timeout) w) at,
        λ p m e here. absurd (let c : some none ≡ some (some p) = sym at ∙ e in cc),
      )
      by_slot (some p) at =
          let (m, addr, here, has_addr) = known i p at in
          let step : at_slot table i (check_machine os timeout) w
              ≡ abort_if (is_silent os timeout m) os w =
            ap (λ o. in_slot o i (check_machine os timeout) w) at
            ∙ ap (λ q. then_do q (check_machine os timeout i)) (load_lem p m w here) in
          elim (Bool-cases (is_silent os timeout m)) [
            | inl late ↦ inl (
                let (t, e) = aborted in
                ((t, step ∙ ap (λ b. abort_if b os w) late ∙ e), (i, p, m, at, here, late)))
            | inr fine ↦ inr (
              step ∙ ap (λ b. abort_if b os w) fine,
              λ p' m' e here'.
                  ap (is_silent os timeout) (
                    same_machine p p' m m'
                      (let c : some (some p) ≡ some (some p') = sym at ∙ e in cc) here here')
                  ∙ fine,
            )
          ]

  -- Either every machine has been heard, or the loop ends the process.
  check_loop :
      (rounds i : ℕ)
      → i + rounds ≤ length table
      → (Aborts w (for_machines rounds i table (check_machine os timeout) w)
          × SomeSilent os timeout w table)
        ⊎ ((for_machines rounds i table (check_machine os timeout) w ≡ (ok tt, w))
            × ((r : ℕ) → i ≤ r → r < i + rounds → Heard os timeout w table r))
  unfolding for_machines
  check_loop zero i h = inr (refl, λ r a b. absurd (omega arith))
  check_loop (suc rounds) i h =
      let rest = check_loop rounds (i + 1) (omega arith) in
      let next : Result (Unit {0}) × World → Result (Unit {0}) × World =
        λ q. then_do q λ _. for_machines rounds (i + 1) table (check_machine os timeout) in
      elim (check_slot i (omega arith)) [
        | inl ((t, e), silent) ↦ inl ((t, ap next e), silent)
        | inr (e, heard) ↦ elim rest [
          | inl ((t, e'), silent) ↦ inl ((t, ap next e ∙ e'), silent)
          | inr (e', later) ↦ inr (
            ap next e ∙ e',
            λ r a b. elim (ℕ_discrete i r) [
              | yes eq ↦ subst (Heard os timeout w table) eq heard
              | no ne ↦ later r (let u = ne in ground arith) (omega arith)
            ],
          )
        ]
      ]

-- On the master, in a valid state, the check after the sleep has two outcomes: the machine of every
-- rank that has registered was heard in time, and nothing has changed; or that of some rank has been
-- silent for longer than the timeout, and the process has ended with 250.
pub check_all_cases :
    (os : Os) (w : World)
    → IsValid w.par_wrapper w.heap
    → (t : IsTable w.par_wrapper w.heap)
    → (Aborts w (check_all os w) × SomeSilent os w.par_wrapper.timeout w t.table)
      ⊎ ((check_all os w ≡ (ok tt, w))
          × ((r : ℕ) → r < length t.table → Heard os w.par_wrapper.timeout w t.table r))
unfolding check_all
check_all_cases os w v t =
    let n = pos_part w.par_wrapper.num_procs in
    let size : n ≡ length t.table = ap pos_part t.size in
    let timeout = w.par_wrapper.timeout in
    let start : check_all os w ≡ for_machines n 0 t.table (check_machine os timeout) w =
      run-deref w (for_machines n 0 t.table (check_machine os timeout) w) w.par_wrapper.machines
        t.table _ t.is_table refl in
    elim (check_loop os timeout w v t.table t.known n 0 (omega arith)) [
      | inl ((u, e), silent) ↦ inl ((u, start ∙ e), silent)
      | inr (e, heard) ↦ inr (start ∙ e, λ r h. heard r (omega arith) (omega arith))
    ]

-- On the master, in a valid state: one machine of the table that was last heard of longer ago than
-- the timeout is enough for the check to end the process with 250. A machine that has registered and
-- sent no ACK yet has the time 0, so it is such a machine.
pub check_all-silent :
    (os : Os) (w : World) (r : ℕ) (p : Ptr) (m : Machine)
    → IsValid w.par_wrapper w.heap
    → (t : IsTable w.par_wrapper w.heap) → r < length t.table
    → get_elem? t.table r ≡ some (some p)
    → get_elem? w.heap p ≡ some m
    → is_silent os w.par_wrapper.timeout m ≡ true
    → Aborts w (check_all os w)
check_all-silent os w r p m v t inside at here late = elim (check_all_cases os w v t) [
  | inl (aborts, _) ↦ aborts
  | inr (e, heard) ↦ absurd (let fine = heard r inside p m at here in cc)
]
