-- ===== src/Main/Hosts/First.antt =====
-- src/main.c: which ranks count as unique in the end.
use parallel_wrapper.Base.{
  ℕ, suc, ◌≡◌, refl, sym, ap, ◌∙◌, Option, none, some, Bool, true, false, not, ◌||◌, List, [], ◌∷◌,
  ◌==◌, if◌then◌else◌, length, get_elem?, take, Bool-cases, inl, inr, arith,
}
use parallel_wrapper.Base.Int.{pos_part, eqb_ℤ}
use parallel_wrapper.Main.Hosts.{mark_all, mark_unique, first_slots, identify_hosts}
use parallel_wrapper.Main.Hosts.Flags.{Flags, holds, IsDistinct, has_host, unique_flags_first}
use parallel_wrapper.Main.Hosts.Marked.{
  text_or_empty, host_of, flagged, HasFlags, host, Turns-then, AllKnown, all_flags, all_flags_lem,
  mark_all-Turns, mark_unique-Turns,
}
use parallel_wrapper.Wrapper.{Machine, Ptr, World, master_rank}
use parallel_wrapper.Wrapper.Action.{ok, Action, pure, deref, then_do, ◌>>=◌, ◌>>◌}
use parallel_wrapper.Wrapper.Ensures.{load_lem}
use parallel_wrapper.Wrapper.Invariant.{IsValid, IsTable}

pub first_slots_all :
    (machines : List (Option Ptr)) → first_slots (length machines) machines ≡ some machines
unfolding first_slots
first_slots_all [] = refl
first_slots_all (slot ∷ machines) = rw (first_slots_all machines) refl

holds_at :
    (slots : List (Option Ptr)) (p : Ptr)
    → holds slots p ≡ true
    → (r : ℕ) × (get_elem? slots r ≡ some (some p))
holds_at [] p h = absurd cc
holds_at (none ∷ slots) p h = let (r, at) = holds_at slots p h in (suc r, at)
holds_at (some q ∷ slots) p h = elim (Bool-cases (q == p)) [
  | inl e ↦ (0, ap (λ p. some (some p)) (ground arith))
  | inr e ↦ let (r, at) = holds_at slots p (ground (arith, h, e)) in (suc r, at)
]

unique_of : Option Machine → Bool
unique_of none = false
unique_of (some m) = m.unique

start_flags : (heap : List Machine) → HasFlags heap (λ p. unique_of (get_elem? heap p)) heap
unfolding unique_of
start_flags heap p m here = here ∙ ap (λ b. some (flagged m b)) (sym (ap unique_of here))

table-AllKnown : (w : World) (table : IsTable w.par_wrapper w.heap) → AllKnown w table.table
table-AllKnown w table p held =
    let (r, at) = holds_at table.table p held in
    let (m, ip, here, known) = table.known r p at in
    (m, here, known ∙ ap some (sym (ap host_of here ∙ ap text_or_empty known)))

-- In a valid state of the master in which no machine stands at two ranks, the marking goes through and
-- changes the flags `unique` alone; the machine of a rank that has registered is unique afterwards if
-- and only if no lower rank has a machine with its address.
pub identify_hosts-first :
    (w : World) (v : IsValid w.par_wrapper w.heap) (table : IsTable w.par_wrapper w.heap)
    → v.me.rank ≡ master_rank
    → IsDistinct table.table
    → (h : List Machine) × (identify_hosts w ≡ (ok tt, record w { heap = h }))
      × ((r : ℕ) (p : Ptr) (m : Machine)
          → get_elem? table.table r ≡ some (some p)
          → get_elem? w.heap p ≡ some m
          → get_elem? h p
            ≡ some (record m { unique = not (has_host (host w) (take r table.table) (host w p)) }))
unfolding identify_hosts
identify_hosts-first w v table is_master distinct =
    let slots = table.table in
    let pw = w.par_wrapper in
    let u : Flags = λ p. unique_of (get_elem? w.heap p) in
    let known = table-AllKnown w table in
    let (h, e, flags) =
      Turns-then w (mark_all slots) (mark_unique slots) u (all_flags w slots u) _
        (mark_all-Turns w slots u known) (mark_unique-Turns w slots (all_flags w slots u) known)
        w.heap (start_flags w.heap) in
    let marking : List (Option Ptr) → Action (Unit {0}) = λ machines.
      deref (first_slots (pos_part pw.num_procs) machines) >>= λ slots.
      mark_all slots >> mark_unique slots in
    (
      h,
      ap
            (λ r.
              then_do r (λ me.
                if eqb_ℤ me.rank master_rank then deref pw.machines >>= marking else pure tt))
            (load_lem pw.this_machine v.me w v.is_me)
          ∙ ap
              (λ rank.
                (if eqb_ℤ rank master_rank then deref pw.machines >>= marking else pure tt) w)
              is_master
          ∙ ap (λ o. (deref o >>= marking) w) table.is_table
          ∙ ap
              (λ n.
                (deref (first_slots (pos_part n) slots) >>= λ slots.
                mark_all slots >> mark_unique slots)
                  w)
              table.size
          ∙ ap (λ o. (deref o >>= λ slots. mark_all slots >> mark_unique slots) w)
              (first_slots_all slots)
          ∙ e,
      λ r p m at here.
          flags p m here
          ∙ ap (λ b. some (flagged m b))
              (unique_flags_first (host w) slots [] (all_flags w slots u) distinct
                  (λ q held. all_flags_lem w slots u q held) r p at
                ∙ or_false (has_host (host w) (take r slots) (host w p))),
    )
  where
    or_false : (b : Bool) → not (b || false) ≡ not b
    or_false true = refl
    or_false false = refl
