-- ===== src/Log.antt =====
-- src/log.c: where a message goes, and what stands before it. What `vfprintf` makes of a format is the C
-- library's; so are `asctime` and `getenv`.
use parallel_wrapper.Base.{
  ◌-◌, ◌≡◌, refl, Option, none, some, Bool, true, false, ◌||◌, List, [], ◌∷◌, ◌++◌, leb,
  if◌then◌else◌, length, take, All,
}
use parallel_wrapper.Base.Int.{ℤ, pos, negsuc, eqb_ℤ}
use parallel_wrapper.Base.Text.{Bytes, codes}
use parallel_wrapper.StringUtil.Integer.{format_int}

-- `enum PRINT_LEVEL`.
abbrev pub prnt_err : ℤ
prnt_err = pos 1

abbrev pub prnt_warn : ℤ
prnt_warn = pos 2

abbrev pub prnt_info : ℤ
prnt_info = pos 3

pub data Stream : Type 0 where
  stdout : Stream
  stderr : Stream

-- The level after the look at the time: without one it is -1.
unfoldable pub level_at : Bytes → ℤ → ℤ
level_at current_time type = if leb 2 (length current_time) then type else negsuc 0

-- The time without its last six bytes: `asctime` gives 25.
unfoldable pub cut_time : Bytes → Bytes
cut_time current_time =
    if leb 2 (length current_time)
    then take (length current_time - 6) current_time
    else current_time

abbrev pub place : Bytes → Bytes → Bytes → ℤ → Bytes
place current_time level file line =
    current_time
    ++ (codes " " ++ (level ++ (codes " in " ++ (file ++ b':' ∷ (format_int line ++ codes ": ")))))

-- The `switch`: the stream and the text of the prefix.
unfoldable pub prefix : ℤ → Bytes → Bytes → ℤ → Stream × Bytes
prefix type current_time file line =
    if eqb_ℤ type prnt_err
    then (stderr, place current_time (codes "ERROR") file line)
    else if eqb_ℤ type prnt_warn
    then (stderr, place current_time (codes "WARN") file line)
    else if eqb_ℤ type prnt_info
    then (stdout, current_time ++ codes " INFO: ")
    else (stdout, codes "INFO: ")

-- The stream of the message itself.
unfoldable pub stream_of : ℤ → Stream
stream_of type = if eqb_ℤ type prnt_err || eqb_ℤ type prnt_warn then stderr else stdout

-- `vfprintf` turns the format, with its arguments, into `text`.
unfoldable pub print_message : Bytes → ℤ → Bytes → ℤ → Bytes → List (Stream × Bytes)
unfolding level_at cut_time prefix stream_of
print_message asctime type file line text =
    let level = level_at asctime type in
    prefix level (cut_time asctime) file line ∷ (stream_of level, text) ∷ []

-- `debug_val` is what `getenv` gives; `verbose` the option.
unfoldable pub is_shown : Option Bytes → ℤ → Bool → Bool
is_shown none type verbose = eqb_ℤ type prnt_err || verbose
is_shown (some value) type verbose = true

-- The expanded string is the format of the second call: `expand` is what `vfprintf` makes of a format
-- without arguments.
unfoldable pub debug_message :
    (Bytes → Bytes) → Option Bytes → Bool → Bytes → ℤ → Bytes → ℤ → Bytes → List (Stream × Bytes)
unfolding print_message is_shown
debug_message expand debug_val verbose asctime type file line text =
    if is_shown debug_val type verbose
    then print_message asctime type file line (expand text)
    else []

-- The prefix of a message goes to the stream that its text goes to.
same_stream :
    (type : ℤ) (current_time file : Bytes) (line : ℤ)
    → (prefix type current_time file line).0 ≡ stream_of type
unfolding prefix stream_of
same_stream type current_time file line =
    go (eqb_ℤ type prnt_err) (eqb_ℤ type prnt_warn) (eqb_ℤ type prnt_info)
  where
    go :
        (e w i : Bool)
        → let out : Stream × Bytes =
            if e
            then (stderr, place current_time (codes "ERROR") file line)
            else if w
            then (stderr, place current_time (codes "WARN") file line)
            else if i
            then (stdout, current_time ++ codes " INFO: ")
            else (stdout, codes "INFO: ") in
          out.0 ≡ (if e || w then stderr else stdout)
    go true w i = refl
    go false true i = refl
    go false false true = refl
    go false false false = refl

-- All that a message prints goes to one stream, whatever its level is.
pub print_message-one_stream :
    (asctime : Bytes) (type : ℤ) (file : Bytes) (line : ℤ) (text : Bytes)
    → All
        (λ out. out.0 ≡ stream_of (level_at asctime type))
        (print_message asctime type file line text)
unfolding print_message
print_message-one_stream asctime type file line text =
    (same_stream (level_at asctime type) (cut_time asctime) file line, (refl, tt))
