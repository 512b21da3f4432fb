-- ===== src/UdpServer/Kept/Messages.antt =====
-- `process_message` and the service of a datagram in src/udp_server.c keep what their steps keep.
use parallel_wrapper.Base.{none, some, Bool, true, false, not, List, [], ◌∷◌, if◌then◌else◌, All}
use parallel_wrapper.Base.Int.{ℤ, eqb_ℤ}
use parallel_wrapper.Base.Text.{Bytes}
use parallel_wrapper.StringUtil.Integer.{Parsed, failed, parsed, parse_integer}
use parallel_wrapper.StringUtil.Tokens.{StrArray, is_valid_strarray, Split, strsplit}
use parallel_wrapper.System.{Os, Sockaddr}
use parallel_wrapper.UdpServer.Dispatch.{
  UdpHandler, handlers, end_thread, run_handler, dispatch, process_command, process_message,
  serve_split, serve_datagram, receive, delim_of,
}
use parallel_wrapper.UdpServer.Kept.{Kept, IsKept, Kept-bind, Kept-deref}
use parallel_wrapper.UdpServer.Kept.Handlers.{
  handle_ack-AllKept, handle_query-AllKept, handle_send_file-AllKept, handle_create_link-AllKept,
}
use parallel_wrapper.UdpServer.Kept.Loops.{AllKept}
use parallel_wrapper.UdpServer.Kept.Register.{handle_register-AllKept}
use parallel_wrapper.UdpServer.Kept.Term.{handle_term-AllKept}
use parallel_wrapper.UdpServer.Message.{Message, string_at}
use parallel_wrapper.Wrapper.{World}
use parallel_wrapper.Wrapper.Action.{Result, ok, returned, exited, fault, Action, ◌>>◌}

module _ (P E : World → Type 0) (Allowed : Os → Type 0) (From : Sockaddr → Type 0)
    (law : IsKept P E Allowed From) where
  pub then_AllKept :
      (m k : Action (Unit {0})) → AllKept P E m → AllKept P E k → AllKept P E (m >> k)
  then_AllKept m k hm hk w h = Kept-bind P E (m w) _ (hm w h) λ _ w' h'. hk w' h'

  if-AllKept :
      (b : Bool) (m k : Action (Unit {0}))
      → AllKept P E m
      → AllKept P E k
      → AllKept P E (λ w. (if b then m else k) w)
  if-AllKept true m k hm hk = hm
  if-AllKept false m k hm hk = hk

  module _ (os : Os) (allowed : Allowed os) (msg : Message) (from : From msg.from) where
    end_thread-Kept : (r : Result (Unit {0}) × World) → Kept P E r → Kept P E (end_thread r)
    end_thread-Kept (ok _, v) h = h
    end_thread-Kept (returned _, v) h = h
    end_thread-Kept (exited _, v) h = h
    end_thread-Kept (fault, v) h = h

    IsKeeper : UdpHandler → Type 0
    IsKeeper (c, handler) = AllKept P E (handler os msg)

    dispatch-AllKept :
        (command : ℤ) (table : List UdpHandler)
        → All IsKeeper table
        → AllKept P E (dispatch os msg command table)
    unfolding dispatch IsKeeper
    dispatch-AllKept command [] k w h = h
    dispatch-AllKept command ((c, handler) ∷ rest) k w h =
        if-AllKept (eqb_ℤ command c) (run_handler (handler os msg)) (dispatch os msg command rest)
          (λ w h. end_thread-Kept (handler os msg w) (k.0 w h)) (dispatch-AllKept command rest k.1)
          w h

    handlers-IsKeeper : All IsKeeper handlers
    unfolding handlers IsKeeper
    handlers-IsKeeper = (
      handle_query-AllKept P E Allowed From law os msg,
      (
        handle_ack-AllKept P E Allowed From law os msg,
        (
          handle_term-AllKept P E Allowed From law os allowed msg,
          (
            handle_create_link-AllKept P E Allowed From law os allowed msg,
            (
              handle_send_file-AllKept P E Allowed From law os msg,
              (handle_register-AllKept P E Allowed From law os msg from, tt),
            ),
          ),
        ),
      ),
    )

    process_command-AllKept : (r : Parsed) → AllKept P E (process_command os msg r)
    process_command-AllKept (failed _) w h = h
    process_command-AllKept (parsed command) w h =
        dispatch-AllKept command handlers handlers-IsKeeper w h

    process_message-AllKept : AllKept P E (process_message os msg)
    unfolding process_message
    process_message-AllKept w h =
        if-AllKept (not (is_valid_strarray msg.args)) _ _ (λ w h. h)
          (λ w h.
            Kept-deref P E w h msg.args _
              λ args _. process_command-AllKept (parse_integer (string_at args 0) true) w h)
          w h

  serve_split-AllKept :
      (os : Os)
      → Allowed os
      → (from : Sockaddr) → From from
      → (r : Split StrArray) → AllKept P E (serve_split os from r)
  serve_split-AllKept os allowed from known (Split.ok args) w h =
      process_message-AllKept os allowed (record { args = some args; from = from }) known w h
  serve_split-AllKept os allowed from known Split.null w h =
      process_message-AllKept os allowed (record { args = none; from = from }) known w h
  serve_split-AllKept os allowed from known Split.fault w h = h

  pub serve_datagram-AllKept :
      (os : Os)
      → Allowed os
      → (from : Sockaddr) → From from
      → (datagram : Bytes) → AllKept P E (serve_datagram os from datagram)
  unfolding serve_datagram
  serve_datagram-AllKept os allowed from known datagram =
      serve_split-AllKept os allowed from known
        (strsplit os.alloc (some (delim_of os)) (some (receive os datagram)))
