-- ===== src/PollTable/Laws.antt =====
-- The two arrays of the table stay inverse to one another, and a deletion takes one descriptor out.
use web_tunnel.Base.{ℕ, zero, suc, ◌+◌, ◌≤◌, ◌<◌, ◌≡◌, refl, ◌≢◌, some, Returns, arith}
use web_tunnel.State.{Mgmt, Events, Pollfd, no_events}
use web_tunnel.PollTable.{mgmt_add_fd, mgmt_del_fd, del_slot}

-- Every entry in use is found again through `fd_lookup`.
abbrev pub IsTable : Mgmt → Type 0
IsTable m = (i : ℕ) → i < m.count_pollfds → m.fd_lookup (m.pollfds i).fd ≡ i

-- The descriptor stands in the table, where `fd_lookup` says.
abbrev pub Polled : Mgmt → ℕ → Type 0
Polled m x = (m.fd_lookup x < m.count_pollfds) × ((m.pollfds (m.fd_lookup x)).fd ≡ x)

-- The entry of a descriptor.
abbrev pub entry : Mgmt → ℕ → Pollfd
entry m x = m.pollfds (m.fd_lookup x)

-- Adding a descriptor in range that is not in the table: it has the entry that is returned, with the
-- events asked for, every other entry is kept, and the table stays well formed.
pub mgmt_add_fd-IsTable :
    (m : Mgmt) (fd : ℕ) (events : Events)
    → IsTable m
    → fd < m.max_fds
    → ¬ Polled m fd
    → let r = mgmt_add_fd m fd events in
      (r.1 ≡ some (r.0.fd_lookup fd))
      × IsTable r.0
      × Polled r.0 fd
      × (entry r.0 fd ≡ record { fd = fd; events = events; revents = no_events })
      × ((x : ℕ) → Polled m x → Polled r.0 x × (entry r.0 x ≡ entry m x))
unfolding mgmt_add_fd
mgmt_add_fd-IsTable m fd events t h new = (
  ground arith,
  (λ i lt. ground (arith, t i, new)),
  ground arith,
  ground arith,
  (λ x there. ground (arith, t (m.fd_lookup x), new)),
)

-- The table after a deletion of `fd`.
pub record IsWithout (m : Mgmt) (fd : ℕ) (n : Mgmt) : Type 0 where
  pub table : IsTable n
  pub fewer : n.count_pollfds + 1 ≡ m.count_pollfds
  pub gone : ¬ Polled n fd
  pub kept : (x : ℕ) → x ≢ fd → Polled m x → Polled n x × (entry n x ≡ entry m x)

module _ (m : Mgmt) (fd : ℕ) (t : IsTable m) (here : Polled m fd) where
  del_slot-IsWithout : (n : ℕ) → n ≡ m.count_pollfds → Returns (IsWithout m fd) (del_slot m fd n)
  unfolding del_slot
  del_slot-IsWithout zero e = absurd (omega arith)
  del_slot-IsWithout (suc zero) e = record {
    table = λ i lt. absurd (omega arith);
    fewer = omega arith;
    gone = λ h. omega arith;
    kept = λ x ne h. ground (arith, t 0);
  }
  del_slot-IsWithout (suc (suc n)) e = record {
    table = λ i lt. ground (arith, t i, t (suc n));
    fewer = omega arith;
    gone = λ h. ground (arith, t (suc n));
    kept = λ x ne h. ground (arith, t (suc n));
  }

  del_slot_stale :
      (x : ℕ)
      → x ≢ fd
      → Polled m x
      → m.fd_lookup x + 1 ≡ m.count_pollfds
      → (n : ℕ) → n ≡ m.count_pollfds
      → Returns
          (λ n.
            (n.count_pollfds ≤ m.fd_lookup x)
            × (n.fd_lookup x ≡ m.fd_lookup fd)
            × (n.fd_lookup x < m.fd_lookup x))
          (del_slot m fd n)
  unfolding del_slot
  del_slot_stale x ne h last zero e = absurd (omega arith)
  del_slot_stale x ne h last (suc zero) e = ground (arith, t 0)
  del_slot_stale x ne h last (suc (suc n)) e =
      let i : m.fd_lookup x ≡ suc n = omega arith in ground (arith, i)

  -- After a deletion of a descriptor that stands in a well formed table it is out of the table, every
  -- other one is in it as before, with its entry unchanged, there is one entry less, and the table
  -- stays well formed. The call does not fail.
  pub mgmt_del_fd-IsWithout : Returns (IsWithout m fd) (mgmt_del_fd m fd)
  unfolding mgmt_del_fd
  mgmt_del_fd-IsWithout = del_slot-IsWithout m.count_pollfds refl

  -- What goes wrong with the pointers into the table: the descriptor of the last entry is moved into
  -- the vacated slot, so a pointer that was taken to its entry points behind the entries in use.
  pub mgmt_del_fd_stale :
      (x : ℕ)
      → x ≢ fd
      → Polled m x
      → m.fd_lookup x + 1 ≡ m.count_pollfds
      → Returns
          (λ n.
            (n.count_pollfds ≤ m.fd_lookup x)
            × (n.fd_lookup x ≡ m.fd_lookup fd)
            × (n.fd_lookup x < m.fd_lookup x))
          (mgmt_del_fd m fd)
  unfolding mgmt_del_fd
  mgmt_del_fd_stale x ne h last = del_slot_stale x ne h last m.count_pollfds refl
