-- ===== src/Main/Child/Cpus.antt =====
-- src/main.c: what the master's child reads in its environment.
use parallel_wrapper.Base.{
  ℕ, ◌+◌, ◌^◌, ◌<◌, ◌≡◌, refl, sym, ap, subst, ◌∙◌, Option, none, some, Bool, true, List, [], ◌∷◌,
  if◌then◌else◌, get_elem?, arith,
}
use parallel_wrapper.Base.Int.{ℤ, pos, negsuc, pos_part, ◌+ℤ◌, to_int, to_int_id, ◌≤ℤ◌}
use parallel_wrapper.Base.Text.{Bytes, codes, str_eq}
use parallel_wrapper.Main.Child.{
  add_cpus, total_cpus, Setting, child_settings, add_setting, set_all,
}
use parallel_wrapper.StringUtil.Integer.{parsed, parse_integer, format_int}
use parallel_wrapper.StringUtil.Integer.RoundTrip.{parse_integer-format_int}
use parallel_wrapper.System.{Os, Environment}
use parallel_wrapper.Wrapper.{Machine, Ptr, ParallelWrapper}

-- The processors of a machine, and of all machines of the table.
abbrev machine_cpus : Option Machine → ℕ
machine_cpus none = 0
machine_cpus (some m) = pos_part m.cpus

abbrev pub sum_cpus : List Machine → List (Option Ptr) → ℕ
sum_cpus heap [] = 0
sum_cpus heap (none ∷ slots) = sum_cpus heap slots
sum_cpus heap (some p ∷ slots) = machine_cpus (get_elem? heap p) + sum_cpus heap slots

abbrev HasCpus : Option Machine → Type 0
HasCpus none = Unit {0}
HasCpus (some m) = pos 0 ≤ℤ m.cpus

-- No machine of the table has a negative number of processors.
abbrev pub AllHaveCpus : List Machine → List (Option Ptr) → Type 0
AllHaveCpus heap [] = Unit {0}
AllHaveCpus heap (none ∷ slots) = AllHaveCpus heap slots
AllHaveCpus heap (some p ∷ slots) = HasCpus (get_elem? heap p) × AllHaveCpus heap slots

add_cpus_lem :
    (t : ℕ) (o : Option Machine)
    → HasCpus o
    → t + machine_cpus o < 2 ^ 31
    → add_cpus (pos t) o ≡ pos (t + machine_cpus o)
unfolding ◌+ℤ◌
add_cpus_lem t none h lt = ground arith
add_cpus_lem t (some m) h lt = by_sign m.cpus h lt
  where
    by_sign :
        (c : ℤ) → pos 0 ≤ℤ c → t + pos_part c < 2 ^ 31 → to_int (pos t +ℤ c) ≡ pos (t + pos_part c)
    by_sign (pos c) h lt =
        let same : pos t +ℤ pos c ≡ pos (t + c) = ground arith in
        ap to_int same ∙ to_int_id (pos (t + c)) lt
    by_sign (negsuc c) h lt = absurd (omega arith)

total_cpus_lem :
    (heap : List Machine) (slots : List (Option Ptr)) (t : ℕ)
    → AllHaveCpus heap slots
    → t + sum_cpus heap slots < 2 ^ 31
    → total_cpus heap slots (pos t) ≡ pos (t + sum_cpus heap slots)
unfolding total_cpus
total_cpus_lem heap [] t h lt = ground arith
total_cpus_lem heap (none ∷ slots) t h lt = total_cpus_lem heap slots t h lt
total_cpus_lem heap (some p ∷ slots) t (h, rest) lt =
    let c = machine_cpus (get_elem? heap p) in
    ap (total_cpus heap slots) (add_cpus_lem t (get_elem? heap p) h (omega arith))
    ∙ total_cpus_lem heap slots (t + c) rest (omega arith)
    ∙ ap pos (assoc t c (sum_cpus heap slots))
  where
    assoc : (a b c : ℕ) → a + b + c ≡ a + (b + c)
    assoc a b c = omega arith

-- `getenv` in the child.
abbrev pub environment_of : List (Bytes × Bytes) → Environment
environment_of [] name = none
environment_of ((key, value) ∷ rest) name =
    if str_eq key name then some value else environment_of rest name

abbrev setting_of : List Setting → Environment
setting_of [] name = none
setting_of ((key, value) ∷ rest) name = if str_eq key name then value else setting_of rest name

set_all_lem :
    (settings : List Setting) (env : List (Bytes × Bytes)) (name : Bytes)
    → set_all settings ≡ some env
    → environment_of env name ≡ setting_of settings name
unfolding set_all
set_all_lem [] [] name h = refl
set_all_lem [] (x ∷ env) name h = cc
set_all_lem ((key, value) ∷ settings) env name h =
    go value (set_all settings) h (λ rest. set_all_lem settings rest name)
  where
    go :
        (value : Option Bytes) (o : Option (List (Bytes × Bytes)))
        → add_setting key value o ≡ some env
        → ((rest : List (Bytes × Bytes))
            → o ≡ some rest
            → environment_of rest name ≡ setting_of settings name)
        → environment_of env name ≡ (if str_eq key name then value else setting_of settings name)
    go none o h k = absurd cc
    go (some value) none h k = absurd cc
    go (some value) (some rest) h k =
        let same : ((key, value) ∷ rest) ≡ env = cc in
        subst
          (λ env.
            environment_of env name
            ≡ (if str_eq key name then some value else setting_of settings name))
          same (ap (λ later. if str_eq key name then some value else later) (k rest refl))

-- When the child has its environment, it reads in `CPUS` and in `NUM_PROCS` the sum of the processors of the
-- registered machines, and in `SHARED_FS` its own directory if the file system is shared, and else
-- that of the links: if no machine has a negative number of processors and the sum is an `int`.
pub child_settings_lem :
    (os : Os) (pw : ParallelWrapper) (me : Machine) (heap : List Machine)
    (slots : List (Option Ptr)) (shared : Bool) (env : List (Bytes × Bytes))
    → AllHaveCpus heap slots
    → sum_cpus heap slots < 2 ^ 31
    → set_all (child_settings os pw me heap slots shared) ≡ some env
    → (parse_integer (environment_of env (codes "CPUS")) true ≡ parsed (pos (sum_cpus heap slots)))
      × (environment_of env (codes "NUM_PROCS") ≡ environment_of env (codes "CPUS"))
      × (environment_of env (codes "SHARED_FS") ≡ (if shared then me.iwd else pw.shared_fs))
unfolding child_settings
child_settings_lem os pw me heap slots shared env h lt set =
    let settings = child_settings os pw me heap slots shared in
    let cpus = set_all_lem settings env (codes "CPUS") set in
    let total : total_cpus heap slots (pos 0) ≡ pos (sum_cpus heap slots) =
      total_cpus_lem heap slots 0 h (omega arith) ∙ ap pos (omega arith) in
    (
      ap (λ o. parse_integer o true) (cpus ∙ ap (λ n. some (format_int n)) total)
          ∙ parse_integer-format_int (pos (sum_cpus heap slots)) lt,
      set_all_lem settings env (codes "NUM_PROCS") set ∙ sym cpus,
      set_all_lem settings env (codes "SHARED_FS") set,
    )
