-- ===== src/Stash/Sending.antt =====
-- The clients of tcpip.cpp that send what prepare has kept: tcp_datafill_cb.
use ether_house.Base.{ℕ, ◌+◌, Memory, write}
use ether_house.Stash.{Scratch, Pages, Stash}
use ether_house.Stash.Message.{Places, message_length}
use ether_house.Stash.Extract.{extract, cleanup}

module _ {ℓ} {M : Type ℓ} (scratch : Scratch M) (places : Places) where
  -- The buffer, the pages, `result_fd` and the length; `left` is for the rounds of extract, `rounds`
  -- for those of cleanup, `tmp` and `stash` are extract's variables before they are set.
  unfoldable pub tcp_datafill_cb :
      ℕ → ℕ → Memory → Stash → Memory → Pages M → Memory × Pages M × ℕ × ℕ
  tcp_datafill_cb rounds left tmp stash buffer p =
      let (len, p') = message_length scratch places p in
      let extracted = extract scratch places left 0 len 0x36 buffer tmp stash p' in
      (write extracted.buf (0x36 + len) 0, cleanup scratch places rounds extracted.pages, 123, len)
