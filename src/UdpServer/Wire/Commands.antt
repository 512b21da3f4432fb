-- ===== src/UdpServer/Wire/Commands.antt =====
-- The messages of src/udp_client.c, as `snprintf` leaves them, at the server.
use parallel_wrapper.Base.{
  ℕ, zero, suc, ◌+◌, ◌*◌, ◌/◌, ◌%◌, ◌^◌, ◌<◌, ◌≤◌, ◌≡◌, ap, ◌∙◌, some, true, List, [], ◌∷◌, length,
  length-append, arith, All, ltb, Bool-cases, inl, inr,
}
use parallel_wrapper.Base.Int.{ℤ, pos, negsuc, IsInt}
use parallel_wrapper.Base.Text.{Bytes, IsText}
use parallel_wrapper.StringUtil.Integer.{digits_fuel, digits, format_int}
use parallel_wrapper.StringUtil.Tokens.Pieces.{IsPart, join}
use parallel_wrapper.System.{Os, Sockaddr}
use parallel_wrapper.UdpClient.{
  cmd_ack, cmd_query, cmd_term, cmd_register, cmd_create_link, snprintf, ack_message, query_message,
  term_message, register_message, create_link_message,
}
use parallel_wrapper.UdpServer.Ack.{handle_ack, handle_query}
use parallel_wrapper.UdpServer.Term.{handle_term}
use parallel_wrapper.UdpServer.Register.{handle_register}
use parallel_wrapper.UdpServer.CreateLink.{handle_create_link}
use parallel_wrapper.UdpServer.Dispatch.{
  buffer_size, serve_datagram, dispatch, handlers, run_handler,
}
use parallel_wrapper.UdpServer.Safety.Parts.{array_of}
use parallel_wrapper.UdpServer.Wire.{
  delims, take-long, format_int-IsPart, format_int-IsText, serve_command,
}
use parallel_wrapper.Wrapper.{World}

ten_times : (k : ℕ) → 10 ^ suc k ≡ 10 * 10 ^ k
ten_times k = ground arith

length-digits_fuel : (k f n : ℕ) → n < 10 ^ suc k → length (digits_fuel f n) ≤ suc k
unfolding digits_fuel
length-digits_fuel k zero n h = omega arith
length-digits_fuel zero (suc f) n h = ground arith
length-digits_fuel (suc k) (suc f) n h = elim (Bool-cases (ltb n 10)) [
  | inl e ↦ rw e (omega arith)
  | inr e ↦
      let tenth : n / 10 < 10 ^ suc k = let p = ten_times (suc k) in omega arith in
      let front = length-digits_fuel k f (n / 10) tenth in
      let both = length-append (digits_fuel f (n / 10)) ((b'0' + n % 10) ∷ []) in rw e (omega arith)
]

length-digits : (n : ℕ) → n < 10 ^ 10 → length (digits n) ≤ 10
unfolding digits
length-digits n h = length-digits_fuel 9 (suc n) n h

-- An `int` has at most ten digits and a sign.
length-format_int : (v : ℤ) → IsInt v → length (format_int v) ≤ 11
unfolding format_int
length-format_int (pos n) h = let d = length-digits n (omega arith) in omega arith
length-format_int (negsuc n) h = let d = length-digits (suc n) (omega arith) in omega arith

snprintf_short : (s : Bytes) → length s < buffer_size → snprintf s ≡ s
snprintf_short s h = take-long 1023 s (omega arith)

module _ (os : Os) (from : Sockaddr) (w : World) (memory : (n : ℕ) → os.alloc n ≡ true)
    {behind : Bytes} (terminated : os.after_delim ≡ 0 ∷ behind) where
  -- A message with parts, after `snprintf`.
  serve_printed :
      (command : ℤ) (ps : List Bytes)
      → IsInt command
      → All (IsPart delims) ps
      → All IsText ps
      → length (join b':' (format_int command ∷ ps)) < buffer_size
      → serve_datagram os from (snprintf (join b':' (format_int command ∷ ps))) w
        ≡ dispatch os
            (record { args = some (array_of (format_int command ∷ ps)); from = from })
            command
            handlers
            w
  serve_printed command ps int parts texts short =
      ap (λ d. serve_datagram os from d w)
        (snprintf_short (join b':' (format_int command ∷ ps)) short)
      ∙ serve_command os from w memory terminated command ps int parts texts short

  -- If every allocation of `strsplit` succeeds and a NUL stands behind the array of delimiters:
  -- a QUERY that `query` has printed reaches `handle_query`.
  pub serve-query_message :
      serve_datagram os from (snprintf query_message) w
      ≡ run_handler
          (handle_query os
            (record { args = some (array_of (format_int cmd_query ∷ [])); from = from }))
          w
  unfolding query_message dispatch handlers
  serve-query_message =
      serve_printed cmd_query [] (ground arith) tt tt
        (let c = length-format_int cmd_query (ground arith) in omega arith)

  -- If every allocation of `strsplit` succeeds and a NUL stands behind the array of delimiters:
  -- an ACK that `ack` has printed for any rank that is an `int` reaches `handle_ack` with that rank
  -- as its argument.
  pub serve-ack_message :
      (rank : ℤ)
      → IsInt rank
      → serve_datagram os from (snprintf (ack_message rank)) w
        ≡ run_handler
            (handle_ack os (record {
              args = some (array_of (format_int cmd_ack ∷ format_int rank ∷ []));
              from = from;
            }))
            w
  unfolding ack_message dispatch handlers
  serve-ack_message rank int =
      serve_printed cmd_ack (format_int rank ∷ []) (ground arith) (format_int-IsPart rank, tt)
        (format_int-IsText rank, tt)
        (let c = length-format_int cmd_ack (ground arith) in
          let r = length-format_int rank int in
          let both = length-append (format_int cmd_ack) (b':' ∷ format_int rank) in omega arith)

  -- If every allocation of `strsplit` succeeds and a NUL stands behind the array of delimiters:
  -- a TERM that `term` has printed for any return code that is an `int` reaches `handle_term` with
  -- that code.
  pub serve-term_message :
      (return_code : ℤ)
      → IsInt return_code
      → serve_datagram os from (snprintf (term_message return_code)) w
        ≡ run_handler
            (handle_term os (record {
              args = some (array_of (format_int cmd_term ∷ format_int return_code ∷ []));
              from = from;
            }))
            w
  unfolding term_message dispatch handlers
  serve-term_message rc int =
      serve_printed cmd_term (format_int rc ∷ []) (ground arith) (format_int-IsPart rc, tt)
        (format_int-IsText rc, tt)
        (let c = length-format_int cmd_term (ground arith) in
          let r = length-format_int rc int in
          let both = length-append (format_int cmd_term) (b':' ∷ format_int rc) in omega arith)

  -- If every allocation of `strsplit` succeeds and a NUL stands behind the array of delimiters:
  -- a REGISTER that fits the buffer reaches `handle_register` with the four fields that
  -- `register_cmd` has printed, if the directory and the user name are not empty and hold no
  -- delimiter.
  pub serve-register_message :
      (rank cpus : ℤ) (iwd username : Bytes)
      → IsPart delims iwd
      → IsText iwd
      → IsPart delims username
      → IsText username
      → length (register_message rank iwd cpus username) < buffer_size
      → serve_datagram os from (snprintf (register_message rank iwd cpus username)) w
        ≡ run_handler
            (handle_register os (record {
              args = some (
                  array_of (
                    format_int cmd_register
                    ∷ format_int rank
                    ∷ iwd
                    ∷ format_int cpus
                    ∷ username
                    ∷ []));
              from = from;
            }))
            w
  unfolding register_message dispatch handlers
  serve-register_message rank cpus iwd username pi ti pu tu short =
      serve_printed cmd_register (format_int rank ∷ iwd ∷ format_int cpus ∷ username ∷ [])
        (ground arith) (format_int-IsPart rank, (pi, (format_int-IsPart cpus, (pu, tt))))
        (format_int-IsText rank, (ti, (format_int-IsText cpus, (tu, tt)))) short

  -- If every allocation of `strsplit` succeeds and a NUL stands behind the array of delimiters:
  -- a CREATE_LINK that fits the buffer reaches `handle_create_link` with both paths as they were
  -- sent, if they are not empty and hold no delimiter.
  pub serve-create_link_message :
      (src dest : Bytes)
      → IsPart delims src
      → IsText src
      → IsPart delims dest
      → IsText dest
      → length (create_link_message src dest) < buffer_size
      → serve_datagram os from (snprintf (create_link_message src dest)) w
        ≡ run_handler
            (handle_create_link os (record {
              args = some (array_of (format_int cmd_create_link ∷ src ∷ dest ∷ []));
              from = from;
            }))
            w
  unfolding create_link_message dispatch handlers
  serve-create_link_message src dest ps ts pd td short =
      serve_printed cmd_create_link (src ∷ dest ∷ []) (ground arith) (ps, (pd, tt)) (ts, (td, tt))
        short
