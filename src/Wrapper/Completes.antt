-- ===== src/Wrapper/Completes.antt =====
-- What holds when an action completes: it has not returned early, exited or crashed.
use parallel_wrapper.Base.{ℕ, ◌≡◌, refl, Option, none, some, Bool, true, false, get_elem?}
use parallel_wrapper.Wrapper.{Machine, Ptr, World}
use parallel_wrapper.Wrapper.Action.{
  Result, ok, returned, exited, fault, Action, load, deref, return_if, then_do, ◌>>=◌, ◌>>◌,
}

abbrev pub OnOk : {A : Type 0} → (A → World → Type 0) → Result A × World → Type 0
OnOk Q (ok a, w) = Q a w
OnOk Q (returned rc, w) = Unit {0}
OnOk Q (exited code, w) = Unit {0}
OnOk Q (fault, w) = Unit {0}

module _ {A B : Type 0} (P : A → World → Type 0) (Q : B → World → Type 0) where
  pub OnOk-bind :
      (r : Result A × World) (f : A → Action B)
      → OnOk P r
      → ((a : A) (w : World) → P a w → OnOk Q (f a w))
      → OnOk Q (then_do r f)
  OnOk-bind (ok a, w) f h k = k a w h
  OnOk-bind (returned rc, w) f h k = tt
  OnOk-bind (exited code, w) f h k = tt
  OnOk-bind (fault, w) f h k = tt

module _ {B : Type 0} (Q : B → World → Type 0) (w : World) where
  pub OnOk-return_if :
      (c : Bool) (rc : ℕ) (k : Action B)
      → (c ≡ false → OnOk Q (k w))
      → OnOk Q ((return_if c rc >> k) w)
  OnOk-return_if true rc k h = tt
  OnOk-return_if false rc k h = h refl

  pub OnOk-deref :
      {A : Type 0} (o : Option A) (f : A → Action B)
      → ((a : A) → o ≡ some a → OnOk Q (f a w))
      → OnOk Q ((deref o >>= f) w)
  OnOk-deref none f h = tt
  OnOk-deref (some a) f h = h a refl

  pub OnOk-load :
      (p : Ptr) (f : Machine → Action B)
      → ((m : Machine) → get_elem? w.heap p ≡ some m → OnOk Q (f m w))
      → OnOk Q ((load p >>= f) w)
  OnOk-load p f h = by_slot (get_elem? w.heap p) (λ m e. h m e)
    where
      by_slot :
          (o : Option Machine)
          → ((m : Machine) → o ≡ some m → OnOk Q (f m w))
          → OnOk Q (then_do (elim o [ none ↦ (fault, w) | some m ↦ (ok m, w) ]) f)
      by_slot none h = tt
      by_slot (some m) h = h m refl

pub OnOk-map :
    {A : Type 0} (P Q : A → World → Type 0) (r : Result A × World)
    → ((a : A) (w : World) → P a w → Q a w)
    → OnOk P r
    → OnOk Q r
OnOk-map P Q (ok a, w) k h = k a w h
OnOk-map P Q (returned rc, w) k h = tt
OnOk-map P Q (exited code, w) k h = tt
OnOk-map P Q (fault, w) k h = tt
