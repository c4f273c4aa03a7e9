-- ===== src/Tftp/Block.antt =====
-- One block of a download: what a turn of the loop does with the next DATA packet.
use arm_ucos_proxy.Base.{
  ℕ, ◌+◌, ◌*◌, ◌/◌, ◌%◌, ◌≤◌, ◌<◌, ◌≡◌, ◌≢◌, ◌⊎◌, List, [], ◌∷◌, ◌++◌, length, take, drop, arith,
}
use arm_ucos_proxy.Base.Outcome.{ok}
use arm_ucos_proxy.Tftp.State.{u32_mod, PageWrite, Client, Firmware}
use arm_ucos_proxy.Tftp.Image.{tftp_handle_data}
use arm_ucos_proxy.Tftp.Update.{acknowledge_block, data_packet, dispatch}
use arm_ucos_proxy.Tftp.Checksum.{sum_bytes}

-- The DATA packet of block n.
abbrev pub data_payload : ℕ → List ℕ → List ℕ
data_payload n block = 0 ∷ 3 ∷ n / 256 ∷ n % 256 ∷ block

-- What the pages written so far hold, the latest page last.
abbrev pub written : List PageWrite → List ℕ
written [] = []
written (w ∷ ws) = written ws ++ w.page

-- Each page was written where the one before it ends.
abbrev pub IsContiguous : ℕ → List PageWrite → Type 0
IsContiguous base [] = Unit
IsContiguous base (w ∷ ws) = (w.addr ≡ base + length (written ws)) × IsContiguous base ws

-- The control block behind the tests of data_packet.
abbrev pub next_block : ℕ → Client → Client
next_block n s = record s { manager = record (s.manager) { cur_block = n; prev_block = n } }

module _ (fw : Firmware) where
  open fw use {head_size, flash_limit, user_code_addr, write_page}

  -- The control block after the bytes `got` of the image, all of them on flash pages.
  pub record IsReceived (got : List ℕ) (s : Client) : Type 0 where
    pub file_len : s.manager.file_len ≡ length got
    pub check_sum : s.manager.check_sum ≡ sum_bytes (drop head_size got) % u32_mod
    pub head : (got ≡ []) ⊎ (s.manager.update_filehead ≡ take head_size got)
    pub on_flash : take (length got) (written s.flash) ≡ got
    pub in_order : IsContiguous user_code_addr s.flash

  -- Between two blocks.
  pub record IsReady (got : List ℕ) (n : ℕ) (s : Client) : Type 0 where
    pub received : IsReceived got s
    pub buffer : length s.manager.frame_buffer ≡ 512
    pub prev : s.manager.prev_block ≡ n
    pub addr : s.manager.flash_addr ≡ user_code_addr + 256 * n
    pub whole : length (written s.flash) ≡ 256 * n
    pub size : length got ≡ 256 * n
    pub telling : (got ≡ []) ⊎ ((s.manager.check_sum ≢ 0) × (head_size ≤ length got))

  -- A DATA packet with the next block number and 1 to 256 bytes is stored and acknowledged.
  pub dispatch-data :
      (n : ℕ) (block tail : List ℕ) (s : Client)
      → s.manager.frame_buffer ≡ data_payload (n + 1) (block ++ tail)
      → s.manager.recv_len ≡ 4 + length block
      → s.manager.prev_block ≡ n
      → n < 65535
      → 1 ≤ length block
      → length block ≤ 256
      → (tftp_handle_data fw (block ++ tail) (length block) (next_block (n + 1) s)).0 ≡ ok
      → dispatch fw s
        ≡ acknowledge_block fw
            (length block)
            (tftp_handle_data fw (block ++ tail) (length block) (next_block (n + 1) s)).1
  unfolding dispatch data_packet
  dispatch-data n block tail s hb hl hp hn h1 h2 ho = ground arith
