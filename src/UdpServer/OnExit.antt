-- ===== src/UdpServer/OnExit.antt =====
-- What is known when an action ends the process, whatever the state was: rules for the steps that
-- the handlers are made of.
use parallel_wrapper.Base.{
  ℕ, ◌≡◌, refl, sym, subst, Option, none, some, Bool, true, false, not, get_elem?,
}
use parallel_wrapper.Base.Int.{ℤ}
use parallel_wrapper.Base.Text.{Bytes}
use parallel_wrapper.StringUtil.Integer.{Parsed, failed, parsed, parse_integer}
use parallel_wrapper.StringUtil.Tokens.{StrArray}
use parallel_wrapper.System.{Os}
use parallel_wrapper.NetworkUtil.{IpText, ip_error, ip_text, ip_str_from_sockaddr, inet6_addrstrlen}
use parallel_wrapper.UdpServer.Message.{
  Message, string_at, number_or, parse_arg, text_or, unless_null, source_ip, require_master,
}
use parallel_wrapper.Wrapper.{Machine, Ptr, World}
use parallel_wrapper.Wrapper.Action.{
  Result, ok, returned, exited, fault, Action, deref, load, return_if, then_do, ◌>>=◌, ◌>>◌,
}

-- If the action ended by `exit`, `E` holds.
abbrev pub OnExit : {A : Type 0} → Type 0 → Result A × World → Type 0
OnExit E (ok a, w) = Unit {0}
OnExit E (returned rc, w) = Unit {0}
OnExit E (exited code, w) = E
OnExit E (fault, w) = Unit {0}

pub OnExit-always : {A : Type 0} (E : Type 0) → E → (r : Result A × World) → OnExit E r
OnExit-always E e (ok a, w) = tt
OnExit-always E e (returned rc, w) = tt
OnExit-always E e (exited code, w) = e
OnExit-always E e (fault, w) = tt

module _ {B : Type 0} (E : Type 0) (w : World) where
  pub OnExit-return_if :
      (c : Bool) (rc : ℕ) (k : Action B)
      → (c ≡ false → OnExit E (k w))
      → OnExit E ((return_if c rc >> k) w)
  OnExit-return_if true rc k h = tt
  OnExit-return_if false rc k h = h refl

  pub OnExit-deref :
      {A : Type 0} (o : Option A) (f : A → Action B)
      → ((a : A) → o ≡ some a → OnExit E (f a w))
      → OnExit E ((deref o >>= f) w)
  OnExit-deref none f h = tt
  OnExit-deref (some a) f h = h a refl

  pub OnExit-unless_null :
      {A : Type 0} (o : Option A) (rc : ℕ) (f : A → Action B)
      → ((a : A) → o ≡ some a → OnExit E (f a w))
      → OnExit E ((unless_null rc o >>= f) w)
  OnExit-unless_null none rc f h = tt
  OnExit-unless_null (some a) rc f h = h a refl

  pub OnExit-load :
      (p : Ptr) (f : Machine → Action B)
      → ((m : Machine) → get_elem? w.heap p ≡ some m → OnExit E (f m w))
      → OnExit E ((load p >>= f) w)
  OnExit-load p f h = by_slot (get_elem? w.heap p) (λ m e. h m e)
    where
      by_slot :
          (o : Option Machine)
          → ((m : Machine) → o ≡ some m → OnExit E (f m w))
          → OnExit E (
              then_do
                (elim o as (λ _. Result Machine × World) [ none ↦ (fault, w) | some m ↦ (ok m, w) ])
                f)
      by_slot none k = tt
      by_slot (some m) k = k m refl

  pub OnExit-parse_arg :
      (args : StrArray) (n rc : ℕ) (f : ℤ → Action B)
      → ((v : ℤ) → parse_integer (string_at args n) true ≡ parsed v → OnExit E (f v w))
      → OnExit E ((parse_arg args n rc >>= f) w)
  OnExit-parse_arg args n rc f h = by_result (parse_integer (string_at args n) true) (λ v. h v)
    where
      by_result :
          (r : Parsed)
          → ((v : ℤ) → r ≡ parsed v → OnExit E (f v w))
          → OnExit E (then_do (number_or rc r w) f)
      by_result (failed _) k = tt
      by_result (parsed v) k = k v refl

  pub OnExit-source_ip :
      (os : Os) (msg : Message) (f : Bytes → Action B)
      → ((ip : Bytes)
          → ip_str_from_sockaddr os (some msg.from) true inet6_addrstrlen ≡ ip_text ip
          → OnExit E (f ip w))
      → OnExit E ((source_ip os msg >>= f) w)
  unfolding source_ip
  OnExit-source_ip os msg f h =
      by_result os.malloc_ok (ip_str_from_sockaddr os (some msg.from) true inet6_addrstrlen)
        (λ ip. h ip)
    where
      by_result :
          (b : Bool) (r : IpText)
          → ((ip : Bytes) → r ≡ ip_text ip → OnExit E (f ip w))
          → OnExit E (then_do (then_do (return_if (not b) 3 w) (λ _. text_or 4 r)) f)
      by_result false r k = tt
      by_result true (ip_error _) k = tt
      by_result true (ip_text ip) k = k ip refl

module _ (w : World) where
  -- Goes through with nothing changed, or ends without an `exit`.
  abbrev Still : {A : Type 0} → Result A × World → Type 0
  Still (ok a, w') = w' ≡ w
  Still (returned rc, w') = Unit {0}
  Still (exited code, w') = ⊥
  Still (fault, w') = Unit {0}

  Still-unless_null :
      {A B : Type 0} (o : Option A) (rc : ℕ) (f : A → Action B)
      → ((a : A) → Still (f a w))
      → Still ((unless_null rc o >>= f) w)
  Still-unless_null none rc f h = tt
  Still-unless_null (some a) rc f h = h a

  Still-load :
      {B : Type 0} (p : Ptr) (f : Machine → Action B)
      → ((m : Machine) → Still (f m w))
      → Still ((load p >>= f) w)
  Still-load {B} p f h = by_slot (get_elem? w.heap p)
    where
      by_slot :
          (o : Option Machine)
          → Still (
              then_do
                (elim o as (λ _. Result Machine × World) [ none ↦ (fault, w) | some m ↦ (ok m, w) ])
                f)
      by_slot none = tt
      by_slot (some m) = h m

  require_master-Still : (rc : ℕ) → Still (require_master rc w)
  unfolding require_master
  require_master-Still rc =
      Still-unless_null w.par_wrapper.master rc _
        λ p. Still-load p _ λ m. Still-unless_null m.ip_addr rc _ λ ip. refl

  pub OnExit-require_master :
      {B : Type 0} (E : Type 0) (rc : ℕ) (f : Unit {0} → Action B)
      → OnExit E (f tt w)
      → OnExit E ((require_master rc >>= f) w)
  OnExit-require_master {B} E rc f h = by_result (require_master rc w) (require_master-Still rc)
    where
      by_result : (r : Result (Unit {0}) × World) → Still r → OnExit E (then_do r f)
      by_result (ok a, w') same = subst (λ v. OnExit E (f a v)) (sym same) h
      by_result (returned rc, w') s = tt
      by_result (exited code, w') s = elim s [ ]
      by_result (fault, w') s = tt
