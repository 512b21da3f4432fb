-- ===== src/Wrapper/Ensures.antt =====
-- What an action guarantees from a state: it crashes on a slave at most, the invariant holds afterwards,
-- nothing that `Keeps` names is lost, and a value that it passes on satisfies `Q`.
use parallel_wrapper.Base.{
  ℕ, ◌≡◌, ◌≢◌, refl, sym, subst, Option, some, Bool, true, false, get_elem?, arith,
}
use parallel_wrapper.System.{Trace}
use parallel_wrapper.Wrapper.{Machine, Ptr, World, master_rank}
use parallel_wrapper.Wrapper.Action.{
  Result, ok, returned, exited, fault, Action, deref, load, return_if, crash_if, then_do, ◌>>=◌,
  ◌>>◌,
}
use parallel_wrapper.Wrapper.Invariant.{IsValid, Keeps}
use parallel_wrapper.Wrapper.Invariant.Laws.{Keeps-refl, Keeps-trans}

-- `w` is the state at the start, `w'` a later one.
pub record Good (w w' : World) : Type 0 where
  pub valid : IsValid w'.par_wrapper w'.heap
  pub keeps : Keeps w.par_wrapper w.heap w'.par_wrapper w'.heap

-- This process is not the master.
abbrev pub IsSlave : World → Type 0
IsSlave w =
    (m : Machine) × (get_elem? w.heap w.par_wrapper.this_machine ≡ some m) × (m.rank ≢ master_rank)

abbrev pub Ensures : {A : Type 0} → World → (A → World → Type 0) → Result A × World → Type 0
Ensures w Q (ok a, w') = Good w w' × Q a w'
Ensures w Q (returned rc, w') = Good w w'
Ensures w Q (exited code, w') = Good w w'
Ensures w Q (fault, w') = Good w w' × IsSlave w'

-- No value, or none that matters.
abbrev pub Any : {A : Type 0} → A → World → Type 0
Any a w = Unit {0}

pub Good-refl : (w : World) → IsValid w.par_wrapper w.heap → Good w w
Good-refl w v = record { valid = v; keeps = Keeps-refl w.par_wrapper w.heap }

pub Good-trans : {a b c : World} → Good a b → Good b c → Good a c
Good-trans g h = record { valid = h.valid; keeps = Keeps-trans g.keeps h.keeps }

-- A change of the trace alone.
pub Good-trace : {w w' : World} (t : Trace) → Good w w' → Good w (record w' { trace = t })
Good-trace t g = record { valid = g.valid; keeps = g.keeps }

pub load_lem :
    (p : Ptr) (m : Machine) (w : World) → get_elem? w.heap p ≡ some m → load p w ≡ (ok m, w)
load_lem p m w e = ground arith

module _ {A B : Type 0} (w : World) (Q : B → World → Type 0) where
  then_do-Ensures :
      (P : A → World → Type 0) (f : A → Action B) (r : Result A × World)
      → Ensures w P r
      → ((a : A) (w'' : World) → Good w w'' → P a w'' → Ensures w Q (f a w''))
      → Ensures w Q (then_do r f)
  then_do-Ensures P f (ok a, w'') h k = k a w'' h.0 h.1
  then_do-Ensures P f (returned rc, w'') h k = h
  then_do-Ensures P f (exited code, w'') h k = h
  then_do-Ensures P f (fault, w'') h k = h

  -- The rule for sequences: the second action starts where the first one ended.
  pub Ensures-bind :
      (P : A → World → Type 0) (m : Action A) (f : A → Action B) (w' : World)
      → Ensures w P (m w')
      → ((a : A) (w'' : World) → Good w w'' → P a w'' → Ensures w Q (f a w''))
      → Ensures w Q ((m >>= f) w')
  Ensures-bind P m f w' = then_do-Ensures P f (m w')

module _ {B : Type 0} (w : World) (Q : B → World → Type 0) (w' : World) where
  pub Ensures-return_if :
      (c : Bool) (rc : ℕ) (k : Action B)
      → Good w w'
      → (c ≡ false → Ensures w Q (k w'))
      → Ensures w Q ((return_if c rc >> k) w')
  Ensures-return_if true rc k g h = g
  Ensures-return_if false rc k g h = h refl

  pub Ensures-crash_if :
      (c : Bool) (k : Action B)
      → Good w w'
      → IsSlave w'
      → (c ≡ false → Ensures w Q (k w'))
      → Ensures w Q ((crash_if c >> k) w')
  Ensures-crash_if true k g slave h = (g, slave)
  Ensures-crash_if false k g slave h = h refl

  pub Ensures-deref :
      {A : Type 0} (o : Option A) (a : A) (f : A → Action B)
      → o ≡ some a
      → Ensures w Q (f a w')
      → Ensures w Q ((deref o >>= f) w')
  Ensures-deref o a f e h = rw e h

  pub Ensures-load :
      (p : Ptr) (m : Machine) (f : Machine → Action B)
      → get_elem? w'.heap p ≡ some m
      → Ensures w Q (f m w')
      → Ensures w Q ((load p >>= f) w')
  Ensures-load p m f e h = subst (λ r. Ensures w Q (then_do r f)) (sym (load_lem p m w' e)) h

-- A test at the end of a function.
pub return_if-Ensures :
    (w w' : World) (c : Bool) (rc : ℕ)
    → Good w w'
    → Ensures {A = Unit {0}} w Any (return_if c rc w')
return_if-Ensures w w' true rc g = g
return_if-Ensures w w' false rc g = (g, tt)
