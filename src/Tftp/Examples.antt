-- ===== src/Tftp/Examples.antt =====
-- The theorems about the TFTP client at inputs that meet their hypotheses.
use arm_ucos_proxy.Base.{◌+◌, ◌%◌, ◌≡◌, [], ◌∷◌, refl, length, take, drop, arith}
use arm_ucos_proxy.Base.Outcome.{done, Status, ok, err}
use arm_ucos_proxy.Tftp.State.{u32_mod, Client}
use arm_ucos_proxy.Tftp.Image.{add_bytes}
use arm_ucos_proxy.Tftp.Update.{tftp_firmware_update}
use arm_ucos_proxy.Tftp.Checksum.{sum_bytes, add_bytes-eq-sum}
use arm_ucos_proxy.Tftp.Block.{IsReceived}
use arm_ucos_proxy.Tftp.Safety.{StatusEnds, IsTerminated, tftp_firmware_update_installs_verified}
use arm_ucos_proxy.Tftp.Transfer.{serve, tftp_firmware_update_downloads}
use arm_ucos_proxy.Tftp.WholeBlocks.{tftp_firmware_update_fails_on_whole_blocks}
use arm_ucos_proxy.Tftp.Sample.{
  small_head, idle, full_block, last_bytes, small_file, small_file-IsServable,
}

tftp_firmware_update_downloads_example :
    (s' : Client) × (tftp_firmware_update small_head
        (serve 5000 1 (full_block ∷ []) last_bytes)
        idle
      ≡ done (ok, s'))
    × IsReceived small_head small_file s'
    × (s'.update_cfg.update_size ≡ length small_file)
    × (s'.update_cfg.update_spiflash_checksum ≡ sum_bytes (drop 2 small_file) % u32_mod)
tftp_firmware_update_downloads_example =
    tftp_firmware_update_downloads small_head (full_block ∷ []) last_bytes 5000 idle
      small_file-IsServable (omega arith) refl refl (omega arith) refl refl refl

tftp_firmware_update_installs_verified_example :
    (st : Status) × (s' : Client) × (tftp_firmware_update small_head
        (serve 5000 1 (full_block ∷ []) last_bytes)
        idle
      ≡ done (st, s'))
    × StatusEnds small_head idle st s'
unfolding IsTerminated
tftp_firmware_update_installs_verified_example =
    tftp_firmware_update_installs_verified small_head (serve 5000 1 (full_block ∷ []) last_bytes)
      idle (tt, ((omega arith), tt), (tt, ((omega arith), tt), tt)) refl refl (omega arith)

tftp_firmware_update_fails_on_whole_blocks_example :
    (s' : Client) × (tftp_firmware_update small_head (serve 5000 1 (full_block ∷ []) []) idle
      ≡ done (err, s'))
tftp_firmware_update_fails_on_whole_blocks_example =
    tftp_firmware_update_fails_on_whole_blocks small_head (full_block ∷ []) 5000 idle (omega arith)
      refl refl (omega arith) (λ w. refl) (omega arith) (refl, tt) (omega arith) (omega arith)
      (omega arith) (omega arith) ((omega arith), tt)

add_bytes-eq-sum_example :
    add_bytes (1 ∷ 2 ∷ 3 ∷ 4 ∷ []) 1 2 4294967295
    ≡ (4294967295 + sum_bytes (take 2 (drop 1 (1 ∷ 2 ∷ 3 ∷ 4 ∷ [])))) % u32_mod
add_bytes-eq-sum_example = add_bytes-eq-sum (1 ∷ 2 ∷ 3 ∷ 4 ∷ []) 1 2 4294967295 (omega arith)
