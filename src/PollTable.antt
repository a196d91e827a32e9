-- ===== src/PollTable.antt =====
-- The table of polled descriptors of test-server/http_client.c: `mgmt_add_fd` and `mgmt_del_fd`.
-- The arrays `pollfds` and `fd_lookup` are functions of the index.
pub mod Laws
use web_tunnel.Base.{
  ◌≡◌, refl, ◌<◌, arith, ℕ, zero, suc, ◌-◌, ◌+◌, Option, none, some, Outcome, ok, fault, overrun,
  update, leb, if◌then◌else◌,
}
use web_tunnel.State.{Mgmt, Events, Pollfd, no_events}

-- The entry's index, or `none` for the NULL of a descriptor that is out of range.
unfoldable pub mgmt_add_fd : Mgmt → ℕ → Events → Mgmt × Option ℕ
mgmt_add_fd m fd events = if leb m.max_fds fd then (m, none) else (
  record m {
    fd_lookup = update m.fd_lookup fd m.count_pollfds;
    pollfds =
        update m.pollfds m.count_pollfds (record { fd = fd; events = events; revents = no_events });
    count_pollfds = m.count_pollfds + 1;
  },
  some m.count_pollfds,
)

-- The table with `n` entries left, once the count has been taken down. What the function returns is
-- read nowhere. With no entry at all the count would fall to -1, and the last guy be read before the
-- array.
unfoldable pub del_slot : Mgmt → ℕ → ℕ → Outcome Mgmt
del_slot m fd zero = fault overrun
del_slot m fd (suc zero) = ok (record m { count_pollfds = 0 })
del_slot m fd (suc (suc n)) =
    let slot = m.fd_lookup fd in
    let last = m.pollfds (suc n) in
    ok (record m {
      count_pollfds = suc n;
      pollfds = update m.pollfds slot last;
      fd_lookup = update m.fd_lookup last.fd slot;
    })

unfoldable pub mgmt_del_fd : Mgmt → ℕ → Outcome Mgmt
unfolding del_slot
mgmt_del_fd m fd = del_slot m fd m.count_pollfds

-- With an entry in use a deletion changes the table only, and takes the count down by one.
pub record IsTableOnly (m n : Mgmt) : Type 0 where
  pub counted : n.count_pollfds + 1 ≡ m.count_pollfds
  pub rest :
      n ≡ record m { pollfds = n.pollfds; fd_lookup = n.fd_lookup; count_pollfds = n.count_pollfds }

del_slot-ok :
    (m : Mgmt) (fd n : ℕ)
    → n ≡ m.count_pollfds
    → 0 < n
    → (k : Mgmt) × (del_slot m fd n ≡ ok k) × IsTableOnly m k
unfolding del_slot
del_slot-ok m fd zero e h = absurd (omega arith)
del_slot-ok m fd (suc zero) e h = (_, refl, record { counted = omega arith; rest = refl })
del_slot-ok m fd (suc (suc n)) e h = (_, refl, record { counted = omega arith; rest = refl })

pub mgmt_del_fd-ok :
    (m : Mgmt) (fd : ℕ)
    → 0 < m.count_pollfds
    → (k : Mgmt) × (mgmt_del_fd m fd ≡ ok k) × IsTableOnly m k
unfolding mgmt_del_fd
mgmt_del_fd-ok m fd h = del_slot-ok m fd m.count_pollfds refl h
