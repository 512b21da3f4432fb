-- ===== src/Main/Waiting/Times.antt =====
-- src/main.c: the interval and the timeout stay what they are while the master waits.
use parallel_wrapper.Base.{◌≡◌}
use parallel_wrapper.Base.Int.{ℤ}
use parallel_wrapper.UdpServer.Kept.{IsKept}
use parallel_wrapper.UdpServer.Allowed.{Remembers, Anyone}
use parallel_wrapper.UdpServer.CreateLink.{save_link}
use parallel_wrapper.UdpServer.Register.{add_machine}
use parallel_wrapper.Wrapper.{World}

-- The two numbers that the wait reads in each round.
pub record HasTimes (interval timeout : ℤ) (w : World) : Type 0 where
  pub same_interval : w.par_wrapper.ka_interval ≡ interval
  pub same_timeout : w.par_wrapper.timeout ≡ timeout

abbrev pub AnyState : World → Type 0
AnyState w = Unit {0}

module _ (interval timeout : ℤ) where
  pub HasTimes-IsKept : IsKept (HasTimes interval timeout) AnyState Remembers Anyone
  unfolding save_link add_machine
  HasTimes-IsKept = record {
    traced = λ w t m n h. record { same_interval = h.same_interval; same_timeout = h.same_timeout };
    flagged = λ w locked exit h. record {
      same_interval = h.same_interval;
      same_timeout = h.same_timeout;
    };
    touched = λ w p m now here h. record {
      same_interval = h.same_interval;
      same_timeout = h.same_timeout;
    };
    entered = λ w machines rank cpus iwd user ip from f r c h. record {
      same_interval = h.same_interval;
      same_timeout = h.same_timeout;
    };
    linked = λ os _ w src dest list e h. record {
      same_interval = h.same_interval;
      same_timeout = h.same_timeout;
    };
    ended = λ os _ w h. tt;
  }
