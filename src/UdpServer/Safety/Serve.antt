-- ===== src/UdpServer/Safety/Serve.antt =====
-- `process_message` and the server's loop are safe, and so is every sequence of datagrams.
use parallel_wrapper.Base.{
  ◌≡◌, refl, sym, subst, some, Bool, true, false, not, List, [], ◌∷◌, inl, inr, if◌then◌else◌, All,
}
use parallel_wrapper.Base.Int.{ℤ, eqb_ℤ}
use parallel_wrapper.Base.Text.{Bytes}
use parallel_wrapper.StringUtil.Integer.{Parsed, failed, parsed, parse_integer}
use parallel_wrapper.StringUtil.Tokens.{StrArray, is_valid_strarray, Split}
use parallel_wrapper.StringUtil.Tokens.Pieces.{pieces}
use parallel_wrapper.StringUtil.Tokens.Filling.{Yields, strsplit-pieces}
use parallel_wrapper.System.{Os, Sockaddr}
use parallel_wrapper.UdpServer.Allowed.{Remembers}
use parallel_wrapper.UdpServer.Message.{Message, string_at}
use parallel_wrapper.UdpServer.Dispatch.{
  UdpHandler, handlers, end_thread, run_handler, dispatch, process_command, process_message,
  serve_split, serve_datagram, receive, delim_of,
}
use parallel_wrapper.UdpServer.Safety.Ack.{handle_ack-Good, handle_query-Good}
use parallel_wrapper.UdpServer.Safety.CreateLink.{handle_create_link-Good, handle_send_file-Good}
use parallel_wrapper.UdpServer.Safety.Parts.{array_of}
use parallel_wrapper.UdpServer.Safety.Register.{handle_register-Good}
use parallel_wrapper.UdpServer.Safety.Term.{handle_term-Good}
use parallel_wrapper.Wrapper.{World}
use parallel_wrapper.Wrapper.Action.{Result, ok, returned, exited, fault, Action}
use parallel_wrapper.Wrapper.Invariant.{IsValid}
use parallel_wrapper.Wrapper.Ensures.{Good, Good-refl, Ensures, Any, Ensures-deref}

module _ (w w' : World) (g : Good w w') (os : Os) (remembers : Remembers os) (msg : Message) where
  end_thread-Good : (r : Result (Unit {0}) × World) → Ensures w Any r → Ensures w Any (end_thread r)
  end_thread-Good (ok _, v) h = h
  end_thread-Good (returned _, v) h = (h, tt)
  end_thread-Good (exited _, v) h = h
  end_thread-Good (fault, v) h = h

  if-Good :
      (b : Bool) (m k : Action (Unit {0}))
      → Ensures w Any (m w')
      → Ensures w Any (k w')
      → Ensures w Any ((if b then m else k) w')
  if-Good true m k hm hk = hm
  if-Good false m k hm hk = hk

  -- Each handler of the table is safe on the message.
  IsSafe : UdpHandler → Type 0
  IsSafe (c, handler) = Ensures w Any (handler os msg w')

  dispatch-Good :
      (command : ℤ) (table : List UdpHandler)
      → All IsSafe table
      → Ensures w Any (dispatch os msg command table w')
  unfolding dispatch IsSafe
  dispatch-Good command [] h = (g, tt)
  dispatch-Good command ((c, handler) ∷ rest) h =
      if-Good (eqb_ℤ command c) (run_handler (handler os msg)) (dispatch os msg command rest)
        (end_thread-Good _ h.0) (dispatch-Good command rest h.1)

  handlers-IsSafe : (ps : List Bytes) → msg.args ≡ some (array_of ps) → All IsSafe handlers
  unfolding handlers IsSafe
  handlers-IsSafe ps e = (
    handle_query-Good w w' g os msg ps e,
    (
      handle_ack-Good w w' g os msg ps e,
      (
        handle_term-Good w w' g os msg ps e,
        (
          handle_create_link-Good w os msg w' g ps e,
          (
            handle_send_file-Good w os msg w' g,
            (handle_register-Good w w' g os msg ps remembers e, tt),
          ),
        ),
      ),
    ),
  )

  process_command-Good :
      (ps : List Bytes)
      → msg.args ≡ some (array_of ps)
      → (r : Parsed) → Ensures w Any (process_command os msg r w')
  process_command-Good ps e (failed _) = (g, tt)
  process_command-Good ps e (parsed command) = dispatch-Good command handlers (handlers-IsSafe ps e)

  process_array-Good :
      (ps : List Bytes) → msg.args ≡ some (array_of ps) → Ensures w Any (process_message os msg w')
  unfolding process_message
  process_array-Good ps e =
      if-Good (not (is_valid_strarray msg.args)) _ _ (g, tt)
        (Ensures-deref {B = Unit {0}} w Any w' msg.args (array_of ps) _ e
          (process_command-Good ps e (parse_integer (string_at (array_of ps) 0) true)))

module _ (w w' : World) (g : Good w w') (os : Os) (remembers : Remembers os) (from : Sockaddr) where
  serve_split-Good :
      (r : Split StrArray) (ps : List Bytes)
      → Yields os.alloc r (array_of ps)
      → Ensures {A = Unit {0}} w Any (serve_split os from r w')
  unfolding process_message is_valid_strarray
  serve_split-Good r ps (inl e) =
      subst (λ r. Ensures {A = Unit {0}} w Any (serve_split os from r w')) (sym e)
        (process_array-Good w w' g os remembers (record { args = some (array_of ps); from = from })
          ps refl)
  serve_split-Good r ps (inr (e, _)) =
      subst (λ r. Ensures {A = Unit {0}} w Any (serve_split os from r w')) (sym e) (g, tt)

  pub serve_datagram-Ensures :
      (datagram : Bytes) → Ensures {A = Unit {0}} w Any (serve_datagram os from datagram w')
  unfolding serve_datagram
  serve_datagram-Ensures datagram =
      serve_split-Good _ (pieces (delim_of os) [] false (receive os datagram))
        (strsplit-pieces os.alloc (delim_of os) (receive os datagram))

-- A datagram, whoever sent it and whatever it holds, crashes a slave at most: from a valid state it is
-- served, or its handler exits the process, or it crashes a slave. The state is valid again afterwards, every
-- machine keeps its rank, address, port and the rest, and a rank that is taken stays taken by the
-- same machine.
pub serve_datagram-Good :
    (os : Os) (from : Sockaddr) (datagram : Bytes) (w : World)
    → Remembers os
    → IsValid w.par_wrapper w.heap
    → Ensures w Any (serve_datagram os from datagram w)
serve_datagram-Good os from datagram w remembers v =
    serve_datagram-Ensures w w (Good-refl w v) os remembers from datagram
