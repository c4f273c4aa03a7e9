-- ===== src/Tftp/WholeBlocks.antt =====
-- A file whose length is a multiple of the block size. TFTP ends such a transfer by a DATA packet
-- with no data, which tftp_firmware_update refuses.
use arm_ucos_proxy.Base.{
  ℕ, ◌+◌, ◌*◌, ◌≤◌, ◌<◌, ◌≡◌, ◌≢◌, inl, refl, sym, ◌∙◌, Bool, true, false, List, [], ◌∷◌, ◌++◌,
  length, length-append, append_assoc, arith,
}
use arm_ucos_proxy.Base.Outcome.{done, err}
use arm_ucos_proxy.Tftp.State.{u32_mod, wellknown_port, PageWrite, Client, Firmware}
use arm_ucos_proxy.Tftp.Update.{
  return, data_packet, dispatch, handle_frame, update_loop, tftp_firmware_update,
}
use arm_ucos_proxy.Tftp.Block.{IsReady}
use arm_ucos_proxy.Tftp.Download.{arrived, at_port, HasPort, handle_frame-port, IsRoom, full_turn}
use arm_ucos_proxy.Tftp.Transfer.{
  flatten, serve, AllFull, SumsNonzero, one_wait, asked-IsReady, update-asked,
}

module _ (fw : Firmware) where
  open fw use {head_size, flash_limit, user_code_addr, write_page}

  dispatch-empty :
      (port n : ℕ) (got : List ℕ) (s : Client)
      → IsReady fw got n s
      → n < 65535
      → (s' : Client) × (dispatch fw (at_port port (arrived port (n + 1) [] s)) ≡ (return err, s'))
  unfolding dispatch data_packet
  dispatch-empty port n got s r h =
      let t = dispatch fw (at_port port (arrived port (n + 1) [] s)) in (t.1, ground arith)

  empty_turn :
      (port n : ℕ) (got : List ℕ) (c : Bool) (s : Client)
      → IsReady fw got n s
      → HasPort port c s
      → n < 65535
      → (s' : Client) × (handle_frame fw c (arrived port (n + 1) [] s) ≡ (return err, true, s'))
  empty_turn port n got c s r p h =
      let (t, e) = dispatch-empty port n got s r h in
      (t, handle_frame-port fw port c (arrived port (n + 1) [] s) refl p ∙ rw e)

  update_loop-empty :
      (bs : List (List ℕ)) (got : List ℕ) (port n : ℕ) (c : Bool) (s : Client)
      → IsReady fw got n s
      → HasPort port c s
      → ((w : PageWrite) → write_page w ≡ 256)
      → head_size ≤ 256
      → AllFull bs
      → length (got ++ flatten bs []) ≤ flash_limit
      → flash_limit < u32_mod
      → n + length bs < 65535
      → user_code_addr + 256 * (n + length bs + 1) < u32_mod
      → SumsNonzero fw got bs
      → (s' : Client) × (update_loop fw (serve port (n + 1) bs []) c s ≡ done (err, s'))
  update_loop-empty [] got port n c s r p writes hf full limit small count room sums =
      let (s', e) = empty_turn port n got c s r p (omega arith) in
      (s', one_wait fw port (n + 1) [] [] c s (omega arith) ∙ rw e)
  update_loop-empty (b ∷ bs) got port n c s r p writes hf full limit small count room sums =
      let fit : IsRoom fw got b n = record {
        some_bytes = omega arith;
        at_most = omega arith;
        head = omega (arith, length-append got b);
        limit = omega (
          arith,
          length-append got b,
          length-append got (b ++ flatten bs []),
          length-append b (flatten bs []),
        );
        small = small;
        count = omega arith;
      } in
      let (t, e, r', p') =
        full_turn fw port n got b s r fit c p full.0 writes (omega arith) sums.0 in
      let (s', e') =
        update_loop-empty bs (got ++ b) port (n + 1) true t r' p' writes hf full.1
          (rw append_assoc limit) small (omega arith) (omega arith) sums.1 in
      (s', one_wait fw port (n + 1) b (serve port (n + 1 + 1) bs []) c s (omega arith) ∙ rw e e')

  -- A file that is a whole number of full blocks cannot be downloaded: when the server sends every
  -- block and then the empty DATA packet that ends the transfer, the download returns failure.
  -- (The other conditions are those under which a file with a part block is installed.)
  pub tftp_firmware_update_fails_on_whole_blocks :
      (bs : List (List ℕ)) (port : ℕ) (s : Client)
      → port ≢ wellknown_port
      → s.flash ≡ []
      → length s.manager.frame_buffer ≡ 512
      → length s.update_filename ≤ 480
      → ((w : PageWrite) → write_page w ≡ 256)
      → head_size ≤ 256
      → AllFull bs
      → length (flatten bs []) ≤ flash_limit
      → flash_limit < u32_mod
      → length bs < 65535
      → user_code_addr + 256 * (length bs + 1) < u32_mod
      → SumsNonzero fw [] bs
      → (s' : Client) × (tftp_firmware_update fw (serve port 1 bs []) s ≡ done (err, s'))
  tftp_firmware_update_fails_on_whole_blocks bs port s other hf hb hn writes head full limit small
        count room sums =
      let (ready, first) = asked-IsReady fw s hf hb hn in
      let (s', e) =
        update_loop-empty bs [] port 0 false _ ready (inl (refl, λ p. other (sym p ∙ first))) writes
          head full limit small (omega arith) (omega arith) sums in
      (s', update-asked fw _ s hb hn ∙ e)
