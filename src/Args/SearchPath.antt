-- ===== src/Args/SearchPath.antt =====
-- `set_environment_vars` of src/parse_args_env.c: when the new `PATH` fits its buffer.
use parallel_wrapper.Base.{
  ℕ, ◌+◌, ◌-◌, ◌≤◌, ◌<◌, ◌≡◌, refl, true, ◌++◌, length, length-append, take, ltb, Bool-cases, inl,
  inr, ◌⊎◌, arith,
}
use parallel_wrapper.Base.Text.{Bytes, codes}
use parallel_wrapper.System.{Environment}
use parallel_wrapper.Args.{
  path_set, overflow, system_dirs, path_or_empty, print_into, set_environment_vars,
}
use parallel_wrapper.Chirp.Cleaned.{take_short}

print_into_lem :
    (block size : ℕ) (text : Bytes)
    → length text < size
    → ((length text < block) × (print_into block size text ≡ path_set text))
      ⊎ ((block ≤ length text) × (print_into block size text ≡ overflow))
print_into_lem block size text lt =
    let whole : take (size - 1) text ≡ text = take_short (size - 1) text (omega arith) in
    elim (Bool-cases (ltb (length text) block)) [
      | inl e ↦ inl (ground arith, rw whole (rw e refl))
      | inr e ↦ inr (ground arith, rw whole (rw e refl))
    ]

-- With memory for the buffer, the new `PATH` is the old one with the six system directories and the
-- current one behind it, if that has at most 2047 bytes; else the buffer is overrun.
pub set_environment_vars_cases :
    (getenv : Environment)
    → let text = path_or_empty (getenv (codes "PATH")) ++ system_dirs in
      ((length text < 2048) × (set_environment_vars true getenv ≡ path_set text))
      ⊎ ((2048 ≤ length text) × (set_environment_vars true getenv ≡ overflow))
unfolding set_environment_vars
set_environment_vars_cases getenv =
    let temp = path_or_empty (getenv (codes "PATH")) in
    print_into_lem 2048 (2048 + length temp - 1) (temp ++ system_dirs)
      (omega (arith, length-append temp system_dirs))
