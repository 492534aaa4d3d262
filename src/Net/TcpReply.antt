-- ===== src/Net/TcpReply.antt =====
-- The reply to a request of tcpSend in libraries/ethercard/tcpip.cpp: tcp_result_cb and tcpReply.
pub mod Laws
use ether_house.Base.{ℕ, ◌==◌, if◌then◌else◌, Option, none, some}

-- `result_ptr` is the place in ether.buffer, or null.
pub record TcpReply : Type 0 where
  pub result_fd : ℕ
  pub result_ptr : Option ℕ

abbrev pub bogus_fd : ℕ
bogus_fd = 123

unfoldable pub tcp_result_cb : ℕ → ℕ → ℕ → TcpReply → TcpReply
tcp_result_cb fd status datapos r =
    if status == 0 then record { result_fd = fd; result_ptr = some datapos } else r

unfoldable pub tcp_reply : ℕ → TcpReply → Option ℕ × TcpReply
tcp_reply fd r =
    if r.result_fd == fd then (r.result_ptr, record r { result_fd = bogus_fd }) else (none, r)
