-- ===== src/Tftp/Image.antt =====
-- What the client does with the bytes of a block: tftp_handle_data of tftp_client.c.
use arm_ucos_proxy.Base.{
  ℕ, zero, suc, ◌+◌, ◌-◌, ◌%◌, List, ◌∷◌, take, get_or, ltb, ◌==◌, if◌then◌else◌,
}
use arm_ucos_proxy.Base.Outcome.{Status, ok, err}
use arm_ucos_proxy.Tftp.State.{u32_mod, flash_page_size, PageWrite, TftpControl, Client, Firmware}

-- `for(; i<len; ++i) check_sum += p[i];` with the number of rounds left.
unfoldable pub add_bytes : List ℕ → ℕ → ℕ → ℕ → ℕ
add_bytes p i zero check_sum = check_sum
add_bytes p i (suc n) check_sum = add_bytes p (i + 1) n ((check_sum + get_or p i 0) % u32_mod)

module _ (fw : Firmware) where
  open fw use {head_size, flash_limit, write_page}

  -- The first block is told by a checksum that is still 0: its head is kept and not summed.
  -- The copy has the size of the head, which fits the frame buffer behind the packet's header.
  unfoldable pub sum_block : List ℕ → ℕ → TftpControl → TftpControl
  sum_block p len m =
      if m.check_sum == 0
      then record m {
        update_filehead = take head_size p;
        check_sum = add_bytes p head_size (len - head_size) m.check_sum;
      }
      else record m { check_sum = add_bytes p 0 len m.check_sum }

  -- `p` points into the frame buffer, behind the four bytes of the packet's header.
  unfoldable pub tftp_handle_data : List ℕ → ℕ → Client → Status × Client
  tftp_handle_data p len s =
      let m = record (s.manager) { file_len = (s.manager.file_len + len) % u32_mod } in
      let summed = sum_block p len m in
      let w : PageWrite = record { addr = m.flash_addr; page = take flash_page_size p } in
      let moved = record summed { flash_addr = (m.flash_addr + write_page w) % u32_mod } in
      if ltb flash_limit m.file_len
      then (err, record s { manager = m })
      else (ok, record s { manager = moved; flash = w ∷ s.flash })
