-- ===== src/Tftp/Stored.antt =====
-- What tftp_handle_data leaves behind after each block of an image.
use arm_ucos_proxy.Base.{
  ℕ, ◌+◌, ◌-◌, ◌*◌, ◌%◌, ◌≤◌, ◌<◌, ◌≡◌, ◌≢◌, ◌⊎◌, inl, inr, refl, sym, ap, ◌∙◌, List, [], ◌∷◌, ◌++◌,
  length, take, drop, length-append, length-take, length-drop, take-append, take-append_le,
  drop-append_le, take-append_add, take-take, take_all, drop_all, ==_ne, ltb, false, arith,
}
use arm_ucos_proxy.Base.Outcome.{ok}
use arm_ucos_proxy.Tftp.State.{u32_mod, PageWrite, TftpControl, Client, Firmware}
use arm_ucos_proxy.Tftp.Image.{add_bytes, sum_block, tftp_handle_data}
use arm_ucos_proxy.Tftp.Checksum.{sum_bytes, sum_bytes-append, add_bytes-eq-sum}
use arm_ucos_proxy.Tftp.Block.{next_block, written, IsReceived, IsReady}

-- Summing a block changes neither the length nor the place in the transfer.
sum_block_keeps :
    (fw : Firmware) (p : List ℕ) (len : ℕ) (m : TftpControl)
    → let m' = sum_block fw p len m in
      (m'.file_len ≡ m.file_len)
      × (m'.frame_buffer ≡ m.frame_buffer)
      × (m'.prev_block ≡ m.prev_block)
      × (m'.server_port ≡ m.server_port)
unfolding sum_block
sum_block_keeps fw p len m = ground arith

module _ (fw : Firmware) (got block tail : List ℕ) where
  open fw use {head_size}

  first_sum :
      head_size ≤ length block
      → add_bytes (block ++ tail) head_size (length block - head_size) 0
        ≡ sum_bytes (drop head_size block) % u32_mod
  first_sum h =
      add_bytes-eq-sum (block ++ tail) head_size (length block - head_size) 0 (omega arith)
      ∙ rw (drop-append_le head_size block tail h) (
          rw
            (take-append_le (length block - head_size) (drop head_size block) tail
              (omega (arith, length-drop head_size block)))
            (rw
              (take_all (length block - head_size) (drop head_size block)
                (omega (arith, length-drop head_size block)))
              (omega arith)))

  later_sum :
      (acc : ℕ)
      → head_size ≤ length got
      → acc ≡ sum_bytes (drop head_size got) % u32_mod
      → add_bytes (block ++ tail) 0 (length block) acc
        ≡ sum_bytes (drop head_size (got ++ block)) % u32_mod
  later_sum acc h e =
      add_bytes-eq-sum (block ++ tail) 0 (length block) acc (omega arith)
      ∙ rw (take-append block tail) (
          rw (drop-append_le head_size got block h)
            (rw (sum_bytes-append (drop head_size got) block) (omega arith)))

  sum_block_lem :
      (m : TftpControl)
      → m.check_sum ≡ sum_bytes (drop head_size got) % u32_mod
      → (got ≡ []) ⊎ (m.update_filehead ≡ take head_size got)
      → (got ≡ []) ⊎ ((m.check_sum ≢ 0) × (head_size ≤ length got))
      → head_size ≤ length (got ++ block)
      → let m' = sum_block fw (block ++ tail) (length block) m in
        (m'.check_sum ≡ sum_bytes (drop head_size (got ++ block)) % u32_mod)
        × (m'.update_filehead ≡ take head_size (got ++ block))
  unfolding sum_block
  sum_block_lem m sums head (inl e) long =
      let whole : got ++ block ≡ block = rw e in
      let zero_sum : m.check_sum ≡ 0 = rw (sums, e, drop_all {A = ℕ} head_size [] (omega arith)) in
      let fits : head_size ≤ length block = rw (← whole) long in
      rw (whole, zero_sum) (first_sum fits, take-append_le head_size block tail fits)
  sum_block_lem m sums head (inr (other, fits)) long =
      rw (==_ne m.check_sum 0 other)
        (later_sum m.check_sum fits sums, ground (arith, take-append_le head_size got block fits))

  -- With the received bytes on flash, the next page adds the block to them.
  on_flash_next :
      (pages : List PageWrite)
      → take (length got) (written pages) ≡ got
      → length (written pages) ≡ length got
      → length block ≤ 256
      → take (length (got ++ block)) (written pages ++ take 256 (block ++ tail)) ≡ got ++ block
  on_flash_next pages h size h2 =
      let all : written pages ≡ got =
        sym (take_all (length got) (written pages) (omega arith)) ∙ h in
      rw all (
        take-append_add got (length block) (length (got ++ block)) _ (length-append got block)
        ∙ ap (λ r. got ++ r)
            (take-take (length block) 256 (block ++ tail) h2 ∙ take-append block tail))

  -- The next block's bytes join the image: on flash, in the length, in the checksum and the head.
  pub handle-IsReceived :
      (n : ℕ) (s : Client)
      → IsReady fw got n s
      → length block ≤ 256
      → head_size ≤ length (got ++ block)
      → length (got ++ block) ≤ fw.flash_limit
      → fw.flash_limit < u32_mod
      → let r = tftp_handle_data fw (block ++ tail) (length block) (next_block (n + 1) s) in
        (r.0 ≡ ok) × IsReceived fw (got ++ block) r.1
  unfolding tftp_handle_data
  handle-IsReceived n s ready h2 long limit small =
      let len = (s.manager.file_len + length block) % u32_mod in
      let total : len ≡ length (got ++ block) = omega (arith, length-append got block) in
      let within : ltb fw.flash_limit len ≡ false = ground arith in
      let m = record (s.manager) { cur_block = n + 1; prev_block = n + 1; file_len = len } in
      let sums = sum_block_lem m ready.received.check_sum ready.received.head ready.telling long in
      let kept = on_flash_next s.flash ready.received.on_flash (omega arith) h2 in
      rw within (
        refl,
        record {
          file_len = (sum_block_keeps fw (block ++ tail) (length block) m).0 ∙ total;
          check_sum = sums.0;
          head = inr sums.1;
          on_flash = kept;
          in_order = (omega arith, ready.received.in_order);
        },
      )

  -- The page that is written, and what the rest of the transfer sees.
  pub handle_fields :
      (s : Client)
      → (s.manager.file_len + length block) % u32_mod ≤ fw.flash_limit
      → let r = (tftp_handle_data fw (block ++ tail) (length block) s).1 in
        let w : PageWrite = record {
          addr = s.manager.flash_addr;
          page = take 256 (block ++ tail);
        } in
        (r.flash ≡ w ∷ s.flash)
        × (r.manager.frame_buffer ≡ s.manager.frame_buffer)
        × (r.manager.prev_block ≡ s.manager.prev_block)
        × (r.manager.server_port ≡ s.manager.server_port)
        × (r.manager.flash_addr ≡ (s.manager.flash_addr + fw.write_page w) % u32_mod)
  unfolding tftp_handle_data
  handle_fields s h =
      let len = (s.manager.file_len + length block) % u32_mod in
      let within : ltb fw.flash_limit len ≡ false = ground arith in
      let keeps =
        sum_block_keeps fw (block ++ tail) (length block) (record (s.manager) { file_len = len }) in
      rw within (refl, keeps.1, keeps.2, keeps.3, refl)

  -- After a full block the next one can come, if the checksum so far is not 0.
  pub handle-IsReady :
      (n : ℕ) (s : Client)
      → IsReady fw got n s
      → length block ≡ 256
      → head_size ≤ length (got ++ block)
      → length (got ++ block) ≤ fw.flash_limit
      → fw.flash_limit < u32_mod
      → ((w : PageWrite) → fw.write_page w ≡ 256)
      → fw.user_code_addr + 256 * (n + 1) < u32_mod
      → sum_bytes (drop head_size (got ++ block)) % u32_mod ≢ 0
      → let r = tftp_handle_data fw (block ++ tail) (length block) (next_block (n + 1) s) in
        IsReady fw (got ++ block) (n + 1) r.1
  handle-IsReady n s ready full long limit small writes room other =
      let (stored, received) = handle-IsReceived n s ready (omega arith) long limit small in
      let (pages, frame, prev, port, moved) =
        handle_fields (next_block (n + 1) s) (omega (arith, length-append got block)) in
      let page_size : length (take 256 (block ++ tail)) ≡ 256 =
        omega (arith, length-take 256 (block ++ tail), length-append block tail) in
      record {
        received = received;
        buffer = ap (λ (b : List ℕ). length b) frame ∙ ready.buffer;
        prev = prev;
        addr = rw moved (rw writes (omega arith));
        whole =
            rw pages (omega (arith, length-append (written s.flash) (take 256 (block ++ tail))));
        size = omega (arith, length-append got block);
        telling = inr (rw (received.check_sum) other, long);
      }
