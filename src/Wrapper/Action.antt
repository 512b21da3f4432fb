-- ===== src/Wrapper/Action.antt =====
-- A function of the program as an action on the state. A `return` in the middle, `exit` and a crash
-- (a NULL or wild pointer that is followed) end it, and keep what was done up to there.
use parallel_wrapper.Base.{ℕ, Bool, Option, none, some, List, get_elem?, set, if◌then◌else◌}
use parallel_wrapper.Base.Int.{ℤ}
use parallel_wrapper.System.{Trace, Event}
use parallel_wrapper.Wrapper.{Machine, Ptr, ParallelWrapper, World}

pub data Result (A : Type 0) : Type 0 where
  ok : A → Result A
  -- `return` of this code.
  returned : ℕ → Result A
  -- `exit` with this code.
  exited : ℤ → Result A
  fault : Result A

abbrev pub Action : Type 0 → Type 0
Action A = World → Result A × World

-- Nothing is in it: a function that ends by `return`.
abbrev pub Handler : Type 0
Handler = Action (Unit {0})

module _ {A : Type 0} where
  abbrev pub pure : A → Action A
  pure a w = (ok a, w)

  abbrev pub leave : ℕ → Action A
  leave rc w = (returned rc, w)

  abbrev pub exit_with : ℤ → Action A
  exit_with code w = (exited code, w)

  abbrev pub crash : Action A
  crash w = (fault, w)

  abbrev pub gets : (World → A) → Action A
  gets f w = (ok (f w), w)

  -- A pointer that is followed.
  abbrev pub deref : Option A → Action A
  deref none = crash
  deref (some a) = pure a

-- What follows an action that has ended.
abbrev pub then_do : {A B : Type 0} → Result A × World → (A → Action B) → Result B × World
then_do (ok a, w) f = f a w
then_do (returned rc, w) f = (returned rc, w)
then_do (exited code, w) f = (exited code, w)
then_do (fault, w) f = (fault, w)

infixl 5 ◌>>=◌ ◌>>◌
abbrev pub ◌>>=◌ : {A B : Type 0} → Action A → (A → Action B) → Action B
◌>>=◌ m f w = then_do (m w) f

abbrev pub ◌>>◌ : {A B : Type 0} → Action A → Action B → Action B
m >> k = m >>= λ _. k

-- A call that goes wrong under the condition.
abbrev pub crash_if : Bool → Action (Unit {0})
crash_if c w = (if c then fault else ok tt, w)

-- `if (c) { …; return rc; }`
abbrev pub return_if : Bool → ℕ → Action (Unit {0})
return_if c rc w = (if c then returned rc else ok tt, w)

abbrev pub wrapper : Action ParallelWrapper
wrapper = gets (λ w. w.par_wrapper)

-- `*p`.
abbrev pub load : Ptr → Action Machine
load p w = elim (get_elem? w.heap p) [ none ↦ (fault, w) | some m ↦ (ok m, w) ]

-- `*p = m`.
abbrev pub store : Ptr → Machine → Action (Unit {0})
store p m w = (ok tt, record w { heap = set w.heap p m })

-- `*par_wrapper = …`.
abbrev pub put_wrapper : ParallelWrapper → Action (Unit {0})
put_wrapper pw w = (ok tt, record w { par_wrapper = pw })

-- A call that only talks to the outside.
abbrev pub on_trace : {A : Type 0} → (Trace → A × Trace) → Action A
on_trace f w = let (a, t) = f w.trace in (ok a, record w { trace = t })

abbrev pub emit : Event → Action (Unit {0})
emit e w = (ok tt, record w { trace = List.◌∷◌ e w.trace })
