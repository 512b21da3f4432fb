-- ===== src/Scratch/Files/Printing.antt =====
-- The contents of a file after what was done, and the loop over the machines when it prints to a file.
use parallel_wrapper.Base.{
  ℕ, ◌+◌, ◌≡◌, refl, sym, ap, subst, ◌∙◌, Option, none, some, List, [], ◌∷◌, ◌++◌, append-nil,
  append_assoc, if◌then◌else◌, length, length-append, get_elem?, get_elem?-append_end, arith,
}
use parallel_wrapper.Base.Text.{Bytes, str_eq, str_eq_refl}
use parallel_wrapper.System.{Trace, opened, printed}
use parallel_wrapper.Wrapper.{Machine, Ptr, World}
use parallel_wrapper.Wrapper.Action.{ok, Action, then_do}
use parallel_wrapper.Wrapper.Ensures.{load_lem}
use parallel_wrapper.Wrapper.Machines.{in_slot, at_slot, for_machines}

-- What was printed to the file since it was last opened.
abbrev pub file_text : Trace → Bytes → Bytes
file_text [] file = []
file_text (opened name ∷ t) file = if str_eq name file then [] else file_text t file
file_text (printed name s ∷ t) file =
    if str_eq name file then file_text t file ++ s else file_text t file
file_text (_ ∷ t) file = file_text t file

pub printed_text :
    (file s : Bytes) (t : Trace) → file_text (printed file s ∷ t) file ≡ file_text t file ++ s
printed_text file s t = rw (str_eq_refl file) refl

pub opened_text : (file : Bytes) (t : Trace) → file_text (opened file ∷ t) file ≡ []
opened_text file t = rw (str_eq_refl file) refl

-- The texts of the machines of a table, in the order of their ranks.
abbrev pub machine_text : (Machine → Bytes) → Option Machine → Bytes
machine_text text none = []
machine_text text (some m) = text m

abbrev pub machines_text : List Machine → (Machine → Bytes) → List (Option Ptr) → Bytes
machines_text heap text [] = []
machines_text heap text (none ∷ table) = machines_text heap text table
machines_text heap text (some p ∷ table) =
    machine_text text (get_elem? heap p) ++ machines_text heap text table

module _ (w : World) (file : Bytes) (body : ℕ → Machine → Action (Unit {0}))
    (text : Machine → Bytes) (P : Machine → Type 0)
    (prints : (i : ℕ) (m : Machine) (t : Trace)
      → P m
      → (t' : Trace) × (body i m (record w { trace = t }) ≡ (ok tt, record w { trace = t' }))
        × (file_text t' file ≡ file_text t file ++ text m)) where
  -- Every machine of the table is one that the body can print.
  abbrev pub CanPrint : List (Option Ptr) → Type 0
  CanPrint table =
      (r : ℕ) (p : Ptr)
      → get_elem? table r ≡ some (some p)
      → (m : Machine) × (get_elem? w.heap p ≡ some m) × P m

  abbrev Printed : Action (Unit {0}) → Trace → Bytes → Type 0
  Printed action t s =
      (t' : Trace) × (action (record w { trace = t }) ≡ (ok tt, record w { trace = t' }))
      × (file_text t' file ≡ file_text t file ++ s)

  slot-Printed :
      (slot : Option Ptr) (i : ℕ) (rest : List (Option Ptr)) (t : Trace)
      → ((p : Ptr) → slot ≡ some p → (m : Machine) × (get_elem? w.heap p ≡ some m) × P m)
      → (s : Bytes) × Printed (in_slot (some slot) i body) t s
        × (s ++ machines_text w.heap text rest ≡ machines_text w.heap text (slot ∷ rest))
  slot-Printed none i rest t can = ([], (t, refl, sym (append-nil (file_text t file))), refl)
  slot-Printed (some p) i rest t can =
      let (m, here, pm) = can p refl in
      let (t', e, added) = prints i m t pm in
      (
        text m,
        (t', ap (λ r. then_do r (body i)) (load_lem p m (record w { trace = t }) here) ∙ e, added),
        ap (λ o. machine_text text o ++ machines_text w.heap text rest) (sym here),
      )

  -- The loop from rank `length pre` on prints the rest of the table.
  pub for_machines-Printed :
      (pre rest : List (Option Ptr)) (i : ℕ) (t : Trace)
      → CanPrint (pre ++ rest)
      → i ≡ length pre
      → Printed (for_machines (length rest) i (pre ++ rest) body) t (machines_text w.heap text rest)
  unfolding for_machines at_slot
  for_machines-Printed pre [] i t can is_i = (t, refl, sym (append-nil (file_text t file)))
  for_machines-Printed pre (slot ∷ rest) i t can is_i =
      let next : List (Option Ptr) → Unit {0} → Action (Unit {0}) =
        λ l _. for_machines (length rest) (i + 1) l body in
      let at : get_elem? (pre ++ slot ∷ rest) i ≡ some slot =
        ap (get_elem? (pre ++ slot ∷ rest)) is_i ∙ get_elem?-append_end pre slot rest in
      let (s, (t', e, added), whole) =
        slot-Printed slot i rest t (λ p is_p. can i p (at ∙ ap some is_p)) in
      let again : (pre ++ slot ∷ []) ++ rest ≡ pre ++ slot ∷ rest =
        append_assoc pre (slot ∷ []) rest in
      let (t'', e', added') =
        for_machines-Printed (pre ++ slot ∷ []) rest (i + 1) t' (subst CanPrint (sym again) can)
          (omega (arith, length-append pre (slot ∷ []))) in
      (
        t'',
        ap (λ o. then_do (in_slot o i body (record w { trace = t })) (next (pre ++ slot ∷ rest))) at
            ∙ ap (λ r. then_do r (next (pre ++ slot ∷ rest))) e
            ∙ ap (λ l. next l tt (record w { trace = t' })) (sym again)
            ∙ e',
        added'
            ∙ ap (λ l. l ++ machines_text w.heap text rest) added
            ∙ append_assoc (file_text t file) s (machines_text w.heap text rest)
            ∙ ap (λ l. file_text t file ++ l) whole,
      )
