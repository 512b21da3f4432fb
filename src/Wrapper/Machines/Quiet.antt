-- ===== src/Wrapper/Machines/Quiet.antt =====
-- Actions that always go through and change the trace alone, and the loop over the machines table as
-- one of them.
use parallel_wrapper.Base.{
  ℕ, zero, suc, ◌+◌, ◌<◌, ◌≡◌, refl, sym, ap, ◌∙◌, subst, Option, none, some, List, get_elem?,
  get_elem?-some, length, arith,
}
use parallel_wrapper.System.{Trace}
use parallel_wrapper.Wrapper.{Machine, Ptr, World}
use parallel_wrapper.Wrapper.Action.{ok, Action, pure, on_trace, then_do, ◌>>◌}
use parallel_wrapper.Wrapper.Ensures.{load_lem}
use parallel_wrapper.Wrapper.Invariant.{IsKnown}
use parallel_wrapper.Wrapper.Machines.{in_slot, at_slot, for_machines, repeat}

-- `m` goes through from `w`, and only the trace is another one.
abbrev pub Quiet : Action (Unit {0}) → World → Type 0
Quiet m w = (t : Trace) × (m w ≡ (ok tt, record w { trace = t }))

-- Quiet whatever the trace holds.
abbrev pub AllQuiet : Action (Unit {0}) → World → Type 0
AllQuiet m w = (t : Trace) → Quiet m (record w { trace = t })

pub on_trace-AllQuiet :
    {A : Type 0} (f : Trace → A × Trace) (w : World) → AllQuiet (on_trace f >> pure tt) w
on_trace-AllQuiet f w t = ((f t).1, refl)

pub AllQuiet-then :
    (m k : Action (Unit {0})) (w : World) → AllQuiet m w → AllQuiet k w → AllQuiet (m >> k) w
AllQuiet-then m k w hm hk t =
    let (t', e) = hm t in let (t'', e') = hk t' in (t'', ap (λ r. then_do r (λ _. k)) e ∙ e')

pub repeat-AllQuiet :
    (n : ℕ) (m : Action (Unit {0})) (w : World) → AllQuiet m w → AllQuiet (repeat n m) w
unfolding repeat
repeat-AllQuiet zero m w h t = (t, refl)
repeat-AllQuiet (suc n) m w h t = AllQuiet-then m (repeat n m) w h (repeat-AllQuiet n m w h) t

module _ (w : World) (machines : List (Option Ptr)) (body : ℕ → Machine → Action (Unit {0}))
    (known : (r : ℕ) (p : Ptr) → get_elem? machines r ≡ some (some p) → IsKnown w.heap p)
    (quiet : (i : ℕ) (m : Machine) → AllQuiet (body i m) w) where
  at_slot-AllQuiet : (i : ℕ) → i < length machines → AllQuiet (at_slot machines i body) w
  unfolding at_slot
  at_slot-AllQuiet i h t =
      let (slot, at) = get_elem?-some machines i h in
      subst (λ o. Quiet (in_slot o i body) (record w { trace = t })) (sym at) (by_slot slot at)
    where
      by_slot :
          (slot : Option Ptr)
          → get_elem? machines i ≡ some slot
          → Quiet (in_slot (some slot) i body) (record w { trace = t })
      by_slot none at = (t, refl)
      by_slot (some p) at =
          let (m, addr, here, has_addr) = known i p at in
          let (t', e) = quiet i m t in
          (t', ap (λ r. then_do r (body i)) (load_lem p m (record w { trace = t }) here) ∙ e)

  -- The loop goes through as long as it stays in the table.
  pub for_machines-AllQuiet :
      (rounds i : ℕ)
      → ((j : ℕ) → j < rounds → i + j < length machines)
      → AllQuiet (for_machines rounds i machines body) w
  unfolding for_machines
  for_machines-AllQuiet zero i h t = (t, refl)
  for_machines-AllQuiet (suc rounds) i h t =
      AllQuiet-then (at_slot machines i body) (for_machines rounds (i + 1) machines body) w
        (at_slot-AllQuiet i (let b = h 0 (omega arith) in omega arith))
        (for_machines-AllQuiet rounds (i + 1)
          λ j j<. let b = h (suc j) (omega arith) in omega arith)
        t
