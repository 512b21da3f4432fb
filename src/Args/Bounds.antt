-- ===== src/Args/Bounds.antt =====
-- What the command line and the environment can set, in src/parse_args_env.c.
use parallel_wrapper.Base.{
  ◌≡◌, refl, ap, ◌∙◌, Option, some, Bool, true, false, List, [], ◌∷◌, set, Bool-cases, inl, inr,
  arith,
}
use parallel_wrapper.Base.Int.{ℤ, pos, ltb_ℤ, ◌≤ℤ◌, IsInt}
use parallel_wrapper.Base.Text.{Bytes, codes}
use parallel_wrapper.System.{Environment}
use parallel_wrapper.Args.{
  set_rank, set_num_procs, parse_environment_vars, Opt, verbose, no_timeout, help, num_procs, rank,
  ports, timeout, ka_interval, unknown, number, at_least, parse_opt, parse_opts, take_executable,
  parse_args,
}
use parallel_wrapper.StringUtil.Integer.{Parsed, failed, parsed, parse_integer}
use parallel_wrapper.StringUtil.Integer.RoundTrip.{parse_integer-IsInt}
use parallel_wrapper.Wrapper.{Machine, World}
use parallel_wrapper.Wrapper.Action.{Result, Action, store, ◌>>=◌}
use parallel_wrapper.Wrapper.Completes.{OnOk, OnOk-bind, OnOk-load}

-- The state while the program reads its arguments: the heap holds this machine alone, and both
-- intervals are values of `int` with their lower bounds.
pub record IsConfigured (w : World) : Type 0 where
  pub me : Machine
  pub is_heap : w.heap ≡ me ∷ []
  pub is_this : w.par_wrapper.this_machine ≡ 0
  pub num_procs_int : IsInt w.par_wrapper.num_procs
  pub timeout_int : IsInt w.par_wrapper.timeout
  pub timeout_bound : pos 10 ≤ℤ w.par_wrapper.timeout
  pub interval_int : IsInt w.par_wrapper.ka_interval
  pub interval_bound : pos 1 ≤ℤ w.par_wrapper.ka_interval

abbrev pub Configures : Result (Unit {0}) × World → Type 0
Configures = OnOk (λ _ w. IsConfigured w)

abbrev IntParsed : Parsed → Type 0
IntParsed (failed rc) = Unit {0}
IntParsed (parsed v) = IsInt v

parse_integer-IntParsed : (s : Option Bytes) → IntParsed (parse_integer s true)
parse_integer-IntParsed s = go (parse_integer s true) refl
  where
    go : (r : Parsed) → parse_integer s true ≡ r → IntParsed r
    go (failed rc) e = tt
    go (parsed v) e = parse_integer-IsInt s true e

set_rank-Configures : (r : Parsed) (w : World) → IsConfigured w → Configures (set_rank r w)
set_rank-Configures (failed rc) w c = c
set_rank-Configures (parsed v) w c =
    OnOk-load (λ _ w. IsConfigured w) w w.par_wrapper.this_machine
      (λ me. store w.par_wrapper.this_machine (record me { rank = v }))
      (λ m here. record {
        me = record m { rank = v };
        is_heap =
            ap (λ p. set w.heap p (record m { rank = v })) c.is_this
            ∙ ap (λ h. set h 0 (record m { rank = v })) c.is_heap;
        is_this = c.is_this;
        num_procs_int = c.num_procs_int;
        timeout_int = c.timeout_int;
        timeout_bound = c.timeout_bound;
        interval_int = c.interval_int;
        interval_bound = c.interval_bound;
      })

-- A change of the three numbers.
renumbered :
    (w w' : World)
    → IsConfigured w
    → w'.heap ≡ w.heap
    → w'.par_wrapper.this_machine ≡ w.par_wrapper.this_machine
    → IsInt w'.par_wrapper.num_procs
    → IsInt w'.par_wrapper.timeout × (pos 10 ≤ℤ w'.par_wrapper.timeout)
    → IsInt w'.par_wrapper.ka_interval × (pos 1 ≤ℤ w'.par_wrapper.ka_interval)
    → IsConfigured w'
renumbered w w' c heap this n (t, t_bound) (k, k_bound) = record {
  me = c.me;
  is_heap = heap ∙ c.is_heap;
  is_this = this ∙ c.is_this;
  num_procs_int = n;
  timeout_int = t;
  timeout_bound = t_bound;
  interval_int = k;
  interval_bound = k_bound;
}

set_num_procs-Configures :
    (r : Parsed) (w : World) → IntParsed r → IsConfigured w → Configures (set_num_procs r w)
set_num_procs-Configures (failed rc) w int c = c
set_num_procs-Configures (parsed v) w int c =
    renumbered w _ c refl refl int (c.timeout_int, c.timeout_bound)
      (c.interval_int, c.interval_bound)

-- The number of an option, if the program goes on.
number-Configures :
    (s : Bytes) (f : ℤ → Action (Unit {0})) (w : World)
    → ((v : ℤ) → IsInt v → Configures (f v w))
    → Configures ((number (parse_integer (some s) true) >>= f) w)
number-Configures s f w h = go (parse_integer (some s) true) (parse_integer-IntParsed (some s))
  where
    go : (r : Parsed) → IntParsed r → Configures ((number r >>= f) w)
    go (failed rc) int = tt
    go (parsed v) int = h v int

at_least-bound : (low v : ℤ) → low ≤ℤ at_least low v
at_least-bound low v = ground arith

at_least-IsInt : (low v : ℤ) → IsInt low → IsInt v → IsInt (at_least low v)
at_least-IsInt low v hl hv = elim (Bool-cases (ltb_ℤ v low)) [ inl e ↦ rw e hl | inr e ↦ rw e hv ]

parse_opt-Configures : (opt : Opt) (w : World) → IsConfigured w → Configures (parse_opt opt w)
unfolding parse_opt
parse_opt-Configures verbose w c = c
parse_opt-Configures no_timeout w c =
    renumbered w _ c refl refl c.num_procs_int (c.timeout_int, c.timeout_bound)
      (c.interval_int, c.interval_bound)
parse_opt-Configures help w c = tt
parse_opt-Configures (num_procs s) w c =
    number-Configures s (λ v. set_num_procs (parsed v)) w
      (λ v int. set_num_procs-Configures (parsed v) w int c)
parse_opt-Configures (rank s) w c =
    number-Configures s (λ v. set_rank (parsed v)) w (λ v int. set_rank-Configures (parsed v) w c)
parse_opt-Configures (ports s) w c = c
parse_opt-Configures (timeout s) w c = number-Configures s _ w (λ v int.
    renumbered w _ c refl refl c.num_procs_int
      (at_least-IsInt (pos 10) v (omega arith) int, at_least-bound (pos 10) v)
      (c.interval_int, c.interval_bound))
parse_opt-Configures (ka_interval s) w c = number-Configures s _ w (λ v int.
    renumbered w _ c refl refl c.num_procs_int (c.timeout_int, c.timeout_bound)
      (at_least-IsInt (pos 1) v (omega arith) int, at_least-bound (pos 1) v))
parse_opt-Configures unknown w c = tt

parse_opts-Configures :
    (opts : List Opt) (w : World) → IsConfigured w → Configures (parse_opts opts w)
unfolding parse_opts
parse_opts-Configures [] w c = c
parse_opts-Configures (opt ∷ opts) w c =
    OnOk-bind (λ _ w. IsConfigured w) (λ _ w. IsConfigured w) (parse_opt opt w)
      (λ _. parse_opts opts) (parse_opt-Configures opt w c)
      (λ _ w' c'. parse_opts-Configures opts w' c')

take_executable-Configures :
    (calloc_ok : Bool) (words : List Bytes) (w : World)
    → IsConfigured w
    → Configures (take_executable calloc_ok words w)
take_executable-Configures calloc_ok [] w c = tt
take_executable-Configures true (word ∷ words) w c =
    renumbered w _ c refl refl c.num_procs_int (c.timeout_int, c.timeout_bound)
      (c.interval_int, c.interval_bound)
take_executable-Configures false (word ∷ words) w c = tt

-- Whatever the options, the process that goes on from `parse_args` has a timeout of at least 10
-- seconds and a keep-alive interval of at least 1, if it had them before; the three
-- numbers are values of `int`, and the machine itself is still the only one.
pub parse_args-Configures :
    (calloc_ok : Bool) (opts : List Opt) (words : List Bytes) (w : World)
    → IsConfigured w
    → Configures (parse_args calloc_ok opts words w)
unfolding parse_args
parse_args-Configures calloc_ok opts words w c =
    OnOk-bind (λ _ w. IsConfigured w) (λ _ w. IsConfigured w) (parse_opts opts w)
      (λ _. take_executable calloc_ok words) (parse_opts-Configures opts w c)
      (λ _ w' c'. take_executable-Configures calloc_ok words w' c')

pub parse_environment_vars-Configures :
    (getenv : Environment) (w : World)
    → IsConfigured w
    → Configures (parse_environment_vars getenv w)
unfolding parse_environment_vars
parse_environment_vars-Configures getenv w c =
    let n = getenv (codes "_CONDOR_NPROCS") in
    OnOk-bind (λ _ w. IsConfigured w) (λ _ w. IsConfigured w)
      (set_rank (parse_integer (getenv (codes "_CONDOR_PROCNO")) true) w)
      (λ _. set_num_procs (parse_integer n true)) (set_rank-Configures _ w c)
      (λ _ w' c'. set_num_procs-Configures (parse_integer n true) w' (parse_integer-IntParsed n) c')
