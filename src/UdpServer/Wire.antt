-- ===== src/UdpServer/Wire.antt =====
-- A message on the wire: what a client prints, the server splits into the same arguments and hands
-- to the handler of its command.
pub mod Commands
use parallel_wrapper.Base.{
  ℕ, ◌+◌, ◌-◌, ◌<◌, ◌≤◌, ◌≡◌, ◌≢◌, refl, sym, ap, ◌∙◌, subst, Option, none, some, Bool, true, false,
  List, [], ◌∷◌, ◌++◌, map, length, take, replicate, arith, All, All-append, zero, suc, inl, inr,
  take-append, append-nil,
}
use parallel_wrapper.Base.Int.{ℤ, pos, negsuc, IsInt}
use parallel_wrapper.Base.Text.{Bytes, codes, IsText, c_str, c_str-append}
use parallel_wrapper.StringUtil.Integer.{parsed, parse_integer, format_int, digits}
use parallel_wrapper.StringUtil.Integer.RoundTrip.{
  IsDigit, digits-IsDigit, digits-ne-nil, parse_integer-format_int,
}
use parallel_wrapper.StringUtil.Tokens.{found_delim, Split, StrArray, strsplit, is_valid_strarray}
use parallel_wrapper.StringUtil.Tokens.Pieces.{pieces, join, IsPart, pieces-join}
use parallel_wrapper.StringUtil.Tokens.Filling.{Yields, strsplit-pieces}
use parallel_wrapper.System.{Os, Sockaddr}
use parallel_wrapper.UdpServer.Dispatch.{
  receive, delim_of, buffer_size, serve_split, serve_datagram, process_message, process_command,
  dispatch, handlers, run_handler,
}
use parallel_wrapper.UdpClient.{
  cmd_ack, cmd_term, cmd_register, cmd_create_link, ack_message, term_message, register_message,
  create_link_message,
}
use parallel_wrapper.UdpServer.Ack.{handle_ack}
use parallel_wrapper.UdpServer.Term.{handle_term}
use parallel_wrapper.UdpServer.Register.{handle_register}
use parallel_wrapper.UdpServer.CreateLink.{handle_create_link}
use parallel_wrapper.UdpServer.Message.{Message}
use parallel_wrapper.UdpServer.Safety.Parts.{array_of}
use parallel_wrapper.Wrapper.{World}

abbrev pub delims : Bytes
delims = b':' ∷ b'|' ∷ []

pub take-long : (n : ℕ) (s : Bytes) → length s ≤ n → take n s ≡ s
take-long zero [] h = refl
take-long zero (c ∷ s) h = absurd (omega arith)
take-long (suc n) [] h = refl
take-long (suc n) (c ∷ s) h = ap (λ t. c ∷ t) (take-long n s (omega arith))

c_str-padded :
    (s rest : Bytes) (n : ℕ) → IsText s → 0 < n → c_str (s ++ (replicate n 0 ++ rest)) ≡ s
c_str-padded s rest zero t h = absurd (omega arith)
c_str-padded s rest (suc n) t h = c_str-append s (replicate n 0 ++ rest) t

-- A text that fits the buffer is received whole.
pub receive-IsText : (os : Os) (d : Bytes) → IsText d → length d < buffer_size → receive os d ≡ d
unfolding receive
receive-IsText os d t h =
    ap (λ got. c_str (got ++ (replicate (buffer_size - length got) 0 ++ os.after_buffer)))
      (take-long buffer_size d (omega arith))
    ∙ c_str-padded d os.after_buffer (buffer_size - length d) t (omega arith)

-- A byte 0 behind the array of delimiters.
pub delim_of-terminated :
    (os : Os) {rest : Bytes} → os.after_delim ≡ 0 ∷ rest → delim_of os ≡ delims
unfolding delim_of
delim_of-terminated os e = rw e refl

digit-no-delim : (c : ℕ) → IsDigit c → found_delim delims c ≡ false
unfolding found_delim
digit-no-delim c h = ground arith

digits-no-delim : (s : Bytes) → All IsDigit s → All (λ c. found_delim delims c ≡ false) s
digits-no-delim [] h = tt
digits-no-delim (c ∷ s) h = (digit-no-delim c h.0, digits-no-delim s h.1)

colon_delimits : found_delim delims b':' ≡ true
unfolding found_delim
colon_delimits = refl

minus-no-delim : found_delim delims b'-' ≡ false
unfolding found_delim
minus-no-delim = refl

-- A printed number is a part that a message can carry.
pub format_int-IsPart : (v : ℤ) → IsPart delims (format_int v)
unfolding format_int
format_int-IsPart (pos n) = (digits-ne-nil n, digits-no-delim (digits n) (digits-IsDigit n))
format_int-IsPart (negsuc n) =
    ((λ e. cc), (minus-no-delim, digits-no-delim (digits (suc n)) (digits-IsDigit (suc n))))

colon_ne_zero : ◌≢◌ {A = ℕ} b':' 0
colon_ne_zero = ground arith

digits-IsText : (s : Bytes) → All IsDigit s → IsText s
digits-IsText [] h = tt
digits-IsText (c ∷ s) h = ((λ e. let low = h.0.0 in omega arith), digits-IsText s h.1)

pub format_int-IsText : (v : ℤ) → IsText (format_int v)
unfolding format_int
format_int-IsText (pos n) = digits-IsText (digits n) (digits-IsDigit n)
format_int-IsText (negsuc n) =
    ((λ e. omega arith), digits-IsText (digits (suc n)) (digits-IsDigit (suc n)))

-- Parts that hold no NUL, joined.
pub join-IsText : (ps : List Bytes) → All IsText ps → IsText (join b':' ps)
join-IsText [] h = tt
join-IsText (p ∷ []) h = h.0
join-IsText (p ∷ q ∷ ps) h =
    All-append (λ c. c ≢ 0) p (b':' ∷ join b':' (q ∷ ps)) h.0
      (colon_ne_zero, join-IsText (q ∷ ps) h.1)

strsplit-join :
    (alloc : ℕ → Bool) (p : Bytes) (ps : List Bytes)
    → ((n : ℕ) → alloc n ≡ true)
    → All (IsPart delims) (p ∷ ps)
    → strsplit alloc (some delims) (some (join b':' (p ∷ ps))) ≡ Split.ok (array_of (p ∷ ps))
strsplit-join alloc p ps h parts =
    subst (λ qs. strsplit alloc (some delims) (some (join b':' (p ∷ ps))) ≡ Split.ok (array_of qs))
      (pieces-join delims b':' p ps false colon_delimits parts)
      (yielded (strsplit-pieces alloc delims (join b':' (p ∷ ps))))
  where
    yielded : {r : Split StrArray} {a : StrArray} → Yields alloc r a → r ≡ Split.ok a
    yielded (inl e) = e
    yielded (inr (e, (n, bad))) = absurd (let good = h n in cc)

is_valid_strarray-parts :
    (p : Bytes) (ps : List Bytes) → is_valid_strarray (some (array_of (p ∷ ps))) ≡ true
unfolding is_valid_strarray
is_valid_strarray-parts p ps = ground arith

module _ (os : Os) (from : Sockaddr) (w : World) (memory : (n : ℕ) → os.alloc n ≡ true)
    {behind : Bytes} (terminated : os.after_delim ≡ 0 ∷ behind) where
  serve_parts :
      (p : Bytes) (ps : List Bytes)
      → All (IsPart delims) (p ∷ ps)
      → All IsText (p ∷ ps)
      → length (join b':' (p ∷ ps)) < buffer_size
      → serve_datagram os from (join b':' (p ∷ ps)) w
        ≡ process_message os (record { args = some (array_of (p ∷ ps)); from = from }) w
  unfolding serve_datagram
  serve_parts p ps parts texts short = rw (
    receive-IsText os (join b':' (p ∷ ps)) (join-IsText (p ∷ ps) texts) short,
    delim_of-terminated os terminated,
    strsplit-join os.alloc p ps memory parts,
  )

  process_parts :
      (p : Bytes) (ps : List Bytes)
      → let msg : Message = record { args = some (array_of (p ∷ ps)); from = from } in
        process_message os msg w ≡ process_command os msg (parse_integer (some p) true) w
  unfolding process_message
  process_parts p ps = rw (is_valid_strarray-parts p ps) refl

  -- A command and its arguments reach the table of handlers as they were sent.
  pub serve_command :
      (command : ℤ) (ps : List Bytes)
      → IsInt command
      → All (IsPart delims) ps
      → All IsText ps
      → length (join b':' (format_int command ∷ ps)) < buffer_size
      → serve_datagram os from (join b':' (format_int command ∷ ps)) w
        ≡ dispatch os
            (record { args = some (array_of (format_int command ∷ ps)); from = from })
            command
            handlers
            w
  serve_command command ps int parts texts short =
      serve_parts (format_int command) ps (format_int-IsPart command, parts)
        (format_int-IsText command, texts) short
      ∙ process_parts (format_int command) ps
      ∙ ap
          (λ r.
            process_command os
              (record { args = some (array_of (format_int command ∷ ps)); from = from }) r w)
          (parse_integer-format_int command int)
