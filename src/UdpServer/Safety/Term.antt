-- ===== src/UdpServer/Safety/Term.antt =====
-- `handle_term` and `handle_create_link` are safe.
use parallel_wrapper.Base.{◌≡◌, sym, subst, some, Bool, true, false, not, List}
use parallel_wrapper.Base.Int.{ℤ, pos, eqb_ℤ}
use parallel_wrapper.Base.Text.{Bytes}
use parallel_wrapper.System.{Os}
use parallel_wrapper.Cleanup.{cleanup}
use parallel_wrapper.Cleanup.Exits.{cleanup-exits}
use parallel_wrapper.UdpServer.Message.{Message, is_master}
use parallel_wrapper.UdpServer.Term.{obey_term, obey_if, handle_term}
use parallel_wrapper.UdpServer.Safety.Ack.{Ensures-require_master}
use parallel_wrapper.UdpServer.Safety.Parts.{
  me_of, array_of, Ensures-parse_arg, Ensures-source_ip, Ensures-send_ack,
}
use parallel_wrapper.Wrapper.{World}
use parallel_wrapper.Wrapper.Ensures.{
  Good, Ensures, Any, Good-trace, Ensures-load, Ensures-return_if, Ensures-deref,
}

pub cleanup-Good :
    (w w' : World) (g : Good w w') (os : Os) (rc : ℤ)
    → Ensures {A = Unit {0}} w Any (cleanup os rc w')
cleanup-Good w w' g os rc =
    let (t, e) = cleanup-exits os rc w' g.valid in
    subst (λ r. Ensures {A = Unit {0}} w Any r) (sym e)
      (record { valid = g.valid; keeps = g.keeps })

module _ (w w' : World) (g : Good w w') (os : Os) (msg : Message) where
  obey_if-Good : (b : Bool) (rc : ℤ) → Ensures {A = Unit {0}} w Any (obey_if b os msg rc w')
  unfolding obey_term
  obey_if-Good false rc = g
  obey_if-Good true rc =
      Ensures-send_ack {B = Unit {0}} w Any w' g os msg _
        λ n t. cleanup-Good w _ (Good-trace _ g) os rc

  pub handle_term-Good :
      (ps : List Bytes) → msg.args ≡ some (array_of ps) → Ensures w Any (handle_term os msg w')
  unfolding handle_term
  handle_term-Good ps is_args =
      let (me, is_me) = me_of g in
      Ensures-deref {B = Unit {0}} w Any w' msg.args (array_of ps) _ is_args (
        Ensures-return_if {B = Unit {0}} w Any w' (not (eqb_ℤ (array_of ps).dim (pos 2))) 1 _ g λ _.
          Ensures-load {B = Unit {0}} w Any w' w'.par_wrapper.this_machine me _ is_me (
            Ensures-return_if {B = Unit {0}} w Any w' (is_master me) 1 _ g λ _.
              Ensures-require_master w w' g {B = Unit {0}} Any 1 _ λ p m addr is_p here has_addr.
                Ensures-parse_arg {B = Unit {0}} w Any w' g (array_of ps) 1 2 _ λ rc _.
                  Ensures-source_ip {B = Unit {0}} w Any w' g os msg _ λ ip.
                    Ensures-deref {B = Unit {0}} w Any w' w'.par_wrapper.master p _ is_p (
                      Ensures-load {B = Unit {0}} w Any w' p m _ here (
                        Ensures-deref {B = Unit {0}} w Any w' m.ip_addr addr _ has_addr
                          (obey_if-Good _ rc)))))
