-- ===== src/Executable.antt =====
-- src/executable.c: the message for an error of `execvp`.
use parallel_wrapper.Base.{
  ◌≡◌, ◌≢◌, refl, Option, none, some, List, [], ◌∷◌, if◌then◌else◌, Bool-cases, inl, inr,
}
use parallel_wrapper.Base.Int.{ℤ, pos, eqb_ℤ, eqb_ℤ→eq}
use parallel_wrapper.Base.Text.{Bytes, codes}

-- The cases of the `switch`, with the numbers that Linux gives the names.
unfoldable pub exec_errors : List (ℤ × Bytes)
exec_errors =
    (pos 13, codes "EACCES Permission denied")
    ∷ (pos 1, codes "EPERM Not super-user")
    ∷ (pos 7, codes "E2BIG Arg list too long")
    ∷ (pos 8, codes "ENOEXEC Exec format error")
    ∷ (pos 14, codes "EFAULT Bad address")
    ∷ (pos 36, codes "ENAMETOOLONG path name is too long     ")
    ∷ (pos 2, codes "ENOENT No such file or directory")
    ∷ (pos 12, codes "ENOMEM Not enough core")
    ∷ (pos 20, codes "ENOTDIR Not a directory")
    ∷ (pos 40, codes "ELOOP Too many symbolic links")
    ∷ (pos 26, codes "ETXTBSY Text file busy")
    ∷ (pos 5, codes "EIO I/O error")
    ∷ (pos 23, codes "ENFILE Too many open files in system")
    ∷ (pos 22, codes "EINVAL Invalid argument")
    ∷ (pos 21, codes "EISDIR Is a directory")
    ∷ (pos 80, codes "ELIBBAD Accessing a corrupted shared lib")
    ∷ []

-- The `switch` from a case on, with its `default`.
unfoldable pub find_error : (ℤ → Bytes) → ℤ → List (ℤ × Bytes) → Option Bytes
find_error strerror rc [] = if eqb_ℤ rc (pos 0) then none else some (strerror rc)
find_error strerror rc ((code, message) ∷ cases) =
    let rest = find_error strerror rc cases in if eqb_ℤ rc code then some message else rest

-- `strerror` is the C library's.
unfoldable pub get_exec_error_msg : (ℤ → Bytes) → ℤ → Option Bytes
unfolding find_error exec_errors
get_exec_error_msg strerror rc = find_error strerror rc exec_errors

-- There is a message for every error, and none for 0.
find_error-some :
    (strerror : ℤ → Bytes) (rc : ℤ) (cases : List (ℤ × Bytes))
    → rc ≢ pos 0
    → (message : Bytes) × (find_error strerror rc cases ≡ some message)
unfolding find_error
find_error-some strerror rc [] h = elim (Bool-cases (eqb_ℤ rc (pos 0))) [
  | inl e ↦ absurd (h (eqb_ℤ→eq rc (pos 0) e))
  | inr e ↦ (strerror rc, rw e refl)
]
find_error-some strerror rc ((code, message) ∷ cases) h = elim (Bool-cases (eqb_ℤ rc code)) [
  | inl e ↦ (message, rw e refl)
  | inr e ↦ let (m, found) = find_error-some strerror rc cases h in (m, rw e found)
]

pub get_exec_error_msg-some :
    (strerror : ℤ → Bytes) (rc : ℤ)
    → rc ≢ pos 0
    → (message : Bytes) × (get_exec_error_msg strerror rc ≡ some message)
unfolding get_exec_error_msg
get_exec_error_msg-some strerror rc h = find_error-some strerror rc exec_errors h

-- No error has no message.
get_exec_error_msg-none : (strerror : ℤ → Bytes) → get_exec_error_msg strerror (pos 0) ≡ none
unfolding get_exec_error_msg
get_exec_error_msg-none strerror = refl
