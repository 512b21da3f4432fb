-- ===== src/Tests/Wire.antt =====
-- The theorems about messages on the wire, at concrete messages.
use parallel_wrapper.Base.{◌<◌, ◌≡◌, refl, [], ◌∷◌, length, arith}
use parallel_wrapper.Base.Int.{pos}
use parallel_wrapper.Base.Text.{codes, IsText}
use parallel_wrapper.StringUtil.Integer.{format_int}
use parallel_wrapper.StringUtil.Tokens.{found_delim}
use parallel_wrapper.StringUtil.Tokens.Pieces.{IsPart}
use parallel_wrapper.Tests.Messages.{message_of}
use parallel_wrapper.Tests.Sample.{
  os, master_world, slave_world, master_address, slave_address, stranger_address,
}
use parallel_wrapper.UdpClient.{
  cmd_ack, cmd_term, cmd_register, cmd_create_link, snprintf, ack_message, term_message,
  register_message, create_link_message,
}
use parallel_wrapper.UdpServer.Ack.{handle_ack}
use parallel_wrapper.UdpServer.CreateLink.{handle_create_link}
use parallel_wrapper.UdpServer.Dispatch.{buffer_size, serve_datagram, run_handler}
use parallel_wrapper.UdpServer.Register.{handle_register}
use parallel_wrapper.UdpServer.Term.{handle_term}
use parallel_wrapper.UdpServer.Wire.{delims}
use parallel_wrapper.UdpServer.Wire.Commands.{
  serve-ack_message, serve-term_message, serve-register_message, serve-create_link_message,
}

serve-ack_message_example :
    serve_datagram os slave_address (snprintf (ack_message (pos 1))) master_world
    ≡ run_handler
        (handle_ack os (message_of slave_address (format_int cmd_ack ∷ format_int (pos 1) ∷ [])))
        master_world
serve-ack_message_example =
    serve-ack_message os slave_address master_world (λ n. refl) {behind = []} refl (pos 1)
      (omega arith)

serve-term_message_example :
    serve_datagram os master_address (snprintf (term_message (pos 3))) slave_world
    ≡ run_handler
        (handle_term os (message_of master_address (format_int cmd_term ∷ format_int (pos 3) ∷ [])))
        slave_world
serve-term_message_example =
    serve-term_message os master_address slave_world (λ n. refl) {behind = []} refl (pos 3)
      (omega arith)

work-IsPart : IsPart delims (codes "/work")
unfolding found_delim
work-IsPart = (ground arith, (refl, (refl, (refl, (refl, (refl, tt))))))

bob-IsPart : IsPart delims (codes "bob")
unfolding found_delim
bob-IsPart = (ground arith, (refl, (refl, (refl, tt))))

work-IsText : IsText (codes "/work")
work-IsText = ground arith

bob-IsText : IsText (codes "bob")
bob-IsText = ground arith

register_fits :
    length (register_message (pos 2) (codes "/work") (pos 4) (codes "bob")) < buffer_size
unfolding register_message format_int
register_fits = omega arith

serve-register_message_example :
    serve_datagram os stranger_address
      (snprintf (register_message (pos 2) (codes "/work") (pos 4) (codes "bob")))
      master_world
    ≡ run_handler
        (handle_register os (
          message_of stranger_address (
            format_int cmd_register
            ∷ format_int (pos 2)
            ∷ codes "/work"
            ∷ format_int (pos 4)
            ∷ codes "bob"
            ∷ [])))
        master_world
serve-register_message_example =
    serve-register_message os stranger_address master_world (λ n. refl) {behind = []} refl (pos 2)
      (pos 4) (codes "/work") (codes "bob") work-IsPart work-IsText bob-IsPart bob-IsText
      register_fits

link_fits : length (create_link_message (codes "/work") (codes "bob")) < buffer_size
unfolding create_link_message format_int
link_fits = omega arith

serve-create_link_message_example :
    serve_datagram os master_address
      (snprintf (create_link_message (codes "/work") (codes "bob")))
      slave_world
    ≡ run_handler
        (handle_create_link os (
          message_of master_address
            (format_int cmd_create_link ∷ codes "/work" ∷ codes "bob" ∷ [])))
        slave_world
serve-create_link_message_example =
    serve-create_link_message os master_address slave_world (λ n. refl) {behind = []} refl
      (codes "/work") (codes "bob") work-IsPart work-IsText bob-IsPart bob-IsText link_fits
