-- ===== src/Comm/Examples.antt =====
-- The theorems about the requests for a device with two boards.
use arm_ucos_proxy.Base.{ℕ, ◌<◌, ◌≡◌, refl, [], ◌∷◌, none, some, length, get_or, replicate, arith}
use arm_ucos_proxy.Base.Outcome.{done, ok}
use arm_ucos_proxy.Comm.State.{zero_opt, zero_eth, zero_e1, zero_bulb_ver, WebDybArg, WebCtrlComm}
use arm_ucos_proxy.Comm.Require.{ctrl_require}
use arm_ucos_proxy.Comm.Read.{get_request, store_opt_state}
use arm_ucos_proxy.Comm.Tables.{web_read_opt, web_read_eth, web_read_e1, web_read_boards_version}
use arm_ucos_proxy.Comm.Device.{IsSame, ctrl_require_lem}
use arm_ucos_proxy.Comm.Responds.{present}
use arm_ucos_proxy.Comm.OptTable
use arm_ucos_proxy.Comm.EthTable
use arm_ucos_proxy.Comm.E1Table
use arm_ucos_proxy.Comm.VersionTable
use arm_ucos_proxy.Comm.Page.{page_status}
use arm_ucos_proxy.Comm.Write.{set_request, web_write_opt}
use arm_ucos_proxy.Comm.Writes.{Writes, web_write_opt_lem}
use arm_ucos_proxy.Comm.OptTable.{opt_row, web_read_opt_lem}
use arm_ucos_proxy.Comm.EthTable.{eth_row, web_read_eth_lem}
use arm_ucos_proxy.Comm.E1Table.{e1_row, web_read_e1_lem}
use arm_ucos_proxy.Comm.VersionTable.{version_row, web_read_boards_version_lem}
use arm_ucos_proxy.Comm.Sample.{
  some_codes, exchange_of, example_link, example_device, start, exchange_of-Delivers,
}

web_read_opt_lem_example :
    let found = present some_codes example_link example_device 0 in
    (s' : WebCtrlComm) × (web_read_opt some_codes example_link start ≡ done (page_status found, s'))
    × (s'.ll_access_mtx ≡ 1)
    × (length s'.opt ≡ 9)
    × ((j : ℕ)
        → j < 9
        → get_or s'.opt j zero_opt ≡ (elim found [
          | none ↦ zero_opt
          | some be ↦
              opt_row some_codes example_link example_device be j (get_or start.opt j zero_opt)
        ]))
    × OptTable.HasOthers some_codes example_link example_device start s'
web_read_opt_lem_example = web_read_opt_lem some_codes example_link example_device start refl refl

web_read_eth_lem_example :
    let found = present some_codes example_link example_device 0 in
    (s' : WebCtrlComm) × (web_read_eth some_codes example_link start ≡ done (page_status found, s'))
    × (s'.ll_access_mtx ≡ 1)
    × (length s'.eth ≡ 9)
    × ((j : ℕ)
        → j < 9
        → get_or s'.eth j zero_eth ≡ (elim found [
          | none ↦ zero_eth
          | some be ↦
              eth_row some_codes example_link example_device be j (get_or start.eth j zero_eth)
        ]))
    × EthTable.HasOthers some_codes example_link example_device start s'
web_read_eth_lem_example = web_read_eth_lem some_codes example_link example_device start refl refl

web_read_e1_lem_example :
    let found = present some_codes example_link example_device 0 in
    (s' : WebCtrlComm) × (web_read_e1 some_codes example_link start ≡ done (page_status found, s'))
    × (s'.ll_access_mtx ≡ 1)
    × (length s'.e1 ≡ 9)
    × ((j : ℕ)
        → j < 9
        → get_or s'.e1 j zero_e1 ≡ (elim found [
          | none ↦ zero_e1
          | some be ↦ e1_row some_codes example_link example_device be j (get_or start.e1 j zero_e1)
        ]))
    × E1Table.HasOthers some_codes example_link example_device start s'
web_read_e1_lem_example = web_read_e1_lem some_codes example_link example_device start refl refl

web_read_boards_version_lem_example :
    let found = present some_codes example_link example_device 0 in
    (s' : WebCtrlComm) × (web_read_boards_version some_codes example_link start
      ≡ done (page_status found, s'))
    × (s'.ll_access_mtx ≡ 1)
    × (length s'.bulb_ver ≡ 9)
    × ((j : ℕ)
        → j < 9
        → get_or s'.bulb_ver j zero_bulb_ver ≡ (elim found [
          | none ↦ zero_bulb_ver
          | some be ↦
              version_row some_codes example_link example_device be j
                (get_or start.bulb_ver j zero_bulb_ver)
        ]))
    × VersionTable.HasOthers some_codes example_link example_device start s'
web_read_boards_version_lem_example =
    web_read_boards_version_lem some_codes example_link example_device start refl refl

abbrev example_request : WebDybArg
example_request = get_request 261 3 2 6

-- The answer to one request, with a destination of 8 bytes.
ctrl_require_lem_example :
    (t : WebCtrlComm) × IsSame start t
    × (ctrl_require
          (λ sent. exchange_of (some (replicate 8 0x80)))
          example_request
          (some (8, store_opt_state 3))
          start
        ≡ done (ok, store_opt_state 3 (replicate 8 0x80) t))
ctrl_require_lem_example =
    ctrl_require_lem (λ sent. exchange_of (some (replicate 8 0x80))) example_request 8
      (store_opt_state 3) (λ b s. refl) (some (replicate 8 0x80)) start
      (exchange_of-Delivers (some (replicate 8 0x80)) (omega arith)) refl refl

web_write_opt_lem_example :
    Writes
      (λ sent. exchange_of (some (7 ∷ [])))
      (set_request 0 3 1 5 (replicate 8 0x80) 8)
      (web_write_opt some_codes (λ sent. exchange_of (some (7 ∷ []))) 3 (replicate 8 0x80))
      start
web_write_opt_lem_example =
    web_write_opt_lem (λ sent. exchange_of (some (7 ∷ []))) some_codes 3 (replicate 8 0x80) start
      (record { early = tt; reply = (((omega arith), (omega arith)), tt) }) refl
