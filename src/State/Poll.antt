-- ===== src/State/Poll.antt =====
-- `struct pollfd`. A mask of events is a Boolean for each flag that the code names; `poll_other` is set
-- if any other bit is.
use web_tunnel.Base.{ℕ, Bool, true, false}

pub record Events : Type 0 where
  pub poll_in : Bool
  pub poll_out : Bool
  pub poll_err : Bool
  pub poll_hup : Bool
  pub poll_other : Bool

pub record Pollfd : Type 0 where
  pub fd : ℕ
  pub events : Events
  pub revents : Events

abbrev pub no_events : Events
no_events = record {
  poll_in = false;
  poll_out = false;
  poll_err = false;
  poll_hup = false;
  poll_other = false;
}

-- `POLLIN | POLLERR | POLLHUP`.
abbrev pub listening : Events
listening = record no_events { poll_in = true; poll_err = true; poll_hup = true }

-- `events |= POLLOUT; events &= ~POLLIN`.
abbrev pub wait_out : Events → Events
wait_out e = record e { poll_out = true; poll_in = false }

-- `events &= ~POLLOUT; events |= POLLIN`.
abbrev pub wait_in : Events → Events
wait_in e = record e { poll_out = false; poll_in = true }
