-- ===== src/Net/TcpReply/Laws.antt =====
-- A reply is handed over once, and only to the session it belongs to.
use ether_house.Base.{
  ℕ, ◌<◌, ◌≡◌, ◌≢◌, sym, refl, ap, ◌∙◌, arith, true, false, ◌==◌, if◌then◌else◌, none, some,
}
use ether_house.Net.TcpReply.{TcpReply, bogus_fd, tcp_result_cb, tcp_reply}

missed : (fd : ℕ) (r : TcpReply) → r.result_fd ≢ fd → tcp_reply fd r ≡ (none, r)
unfolding tcp_reply
missed fd r d =
    ap (λ t. if t then (r.result_ptr, record r { result_fd = bogus_fd }) else (none, r))
      (no (r.result_fd) fd d)
  where
    no : (x y : ℕ) → x ≢ y → (x == y) ≡ false
    no x y h = ground (arith, h)

met :
    (fd : ℕ) (r : TcpReply)
    → r.result_fd ≡ fd
    → tcp_reply fd r ≡ (r.result_ptr, record r { result_fd = bogus_fd })
unfolding tcp_reply
met fd r e =
    ap (λ t. if t then (r.result_ptr, record r { result_fd = bogus_fd }) else (none, r))
      (yes (r.result_fd) fd e)
  where
    yes : (x y : ℕ) → x ≡ y → (x == y) ≡ true
    yes x y h = ground (arith, h)

-- A result without an error is handed over once, and only to its session: tcpReply for another
-- session gives nothing and changes nothing, for its own it gives the place of the data, and a
-- second time nothing; for sessions below 8.
pub tcp_reply-once :
    (fd other datapos : ℕ) (r : TcpReply)
    → fd < 8
    → other < 8
    → other ≢ fd
    → let r1 = tcp_result_cb fd 0 datapos r in
      (tcp_reply other r1 ≡ (none, r1))
      × ((tcp_reply fd r1).0 ≡ some datapos)
      × ((tcp_reply fd ((tcp_reply fd r1).1)).0 ≡ none)
unfolding tcp_result_cb
tcp_reply-once fd other datapos r small small' d = (
  missed other got (λ e. d (sym e)),
  ap (λ x. x.0) (met fd got refl),
  ap (λ x. (tcp_reply fd (x.1)).0) (met fd got refl)
      ∙ ap (λ x. x.0) (missed fd (record got { result_fd = bogus_fd }) (omega arith)),
)
  where
    got : TcpReply
    got = record { result_fd = fd; result_ptr = some datapos }
