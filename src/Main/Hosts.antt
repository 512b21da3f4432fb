-- ===== src/Main/Hosts.antt =====
-- src/main.c: the master finds out which ranks run on a host that an earlier rank runs on too.
pub mod Flags
pub mod Marked
pub mod First
use parallel_wrapper.Base.{
  ℕ, zero, suc, Option, none, some, true, false, List, [], ◌∷◌, if◌then◌else◌,
}
use parallel_wrapper.Base.Int.{pos_part, eqb_ℤ}
use parallel_wrapper.Base.Text.{str_eq}
use parallel_wrapper.Wrapper.{Machine, Ptr, master_rank}
use parallel_wrapper.Wrapper.Action.{Action, pure, deref, load, store, wrapper, ◌>>=◌, ◌>>◌}

-- The loop that takes every machine for unique.
unfoldable pub mark_all : List (Option Ptr) → Action (Unit {0})
mark_all [] = pure tt
mark_all (none ∷ slots) = mark_all slots
mark_all (some p ∷ slots) = (load p >>= λ m. store p (record m { unique = true })) >> mark_all slots

-- The comparison of machine `i` at `p` with machine `j` at `q`.
abbrev pub compare_hosts : Ptr → Ptr → Machine → Action (Unit {0})
compare_hosts p q m =
    if m.unique
    then (load p >>= λ first. deref first.ip_addr >>= λ ip. deref m.ip_addr >>= λ ip'.
        if str_eq ip ip' then store q (record m { unique = false }) else pure tt)
    else pure tt

-- The inner loop, over the slots behind that of `p`.
unfoldable pub mark_later : Ptr → List (Option Ptr) → Action (Unit {0})
mark_later p [] = pure tt
mark_later p (none ∷ slots) = mark_later p slots
mark_later p (some q ∷ slots) = (load q >>= compare_hosts p q) >> mark_later p slots

-- The outer loop.
unfoldable pub mark_unique : List (Option Ptr) → Action (Unit {0})
unfolding mark_later
mark_unique [] = pure tt
mark_unique (none ∷ slots) = mark_unique slots
mark_unique (some p ∷ slots) =
    (load p >>= λ m. if m.unique then mark_later p slots else pure tt) >> mark_unique slots

-- The slots from 0 to below `num_procs`.
unfoldable pub first_slots : ℕ → List (Option Ptr) → Option (List (Option Ptr))
first_slots zero machines = some []
first_slots (suc n) [] = none
first_slots (suc n) (slot ∷ machines) = elim (first_slots n machines) [
  | none ↦ none
  | some slots ↦ some (slot ∷ slots)
]

-- On the master only.
unfoldable pub identify_hosts : Action (Unit {0})
unfolding mark_all mark_unique first_slots
identify_hosts = do
  pw ← wrapper
  me ← load pw.this_machine
  if eqb_ℤ me.rank master_rank
      then (do
        machines ← deref pw.machines
        slots ← deref (first_slots (pos_part pw.num_procs) machines)
        mark_all slots
        mark_unique slots)
      else pure tt
