-- ===== src/Comm/Changes.antt =====
-- The pages' changes of the tables leave the state tidy.
use arm_ucos_proxy.Base.{ℕ, ◌≤◌, ◌∙◌, length-set}
use arm_ucos_proxy.Comm.State.{WebCtrlComm, zero_opt, zero_eth, zero_e1}
use arm_ucos_proxy.Comm.Read.{
  set_bulb_ver, set_opt_amount, set_ge_amount, set_fe_amount, set_e1_amount,
}
use arm_ucos_proxy.Comm.Tidy.{
  IsOptRow, IsEthRow, IsE1Row, IsTidy, set-IsTable, bulb_ver-IsTidy, opt-IsTidy, eth-IsTidy,
  e1-IsTidy,
}

-- A change of the state that leaves it tidy.
abbrev pub KeepsTidy : (WebCtrlComm → WebCtrlComm) → Type 0
KeepsTidy change = (k : ℕ) (s : WebCtrlComm) → IsTidy k s → IsTidy k (change s)

pub set_bulb_ver-KeepsTidy : (i n : ℕ) → KeepsTidy (set_bulb_ver i n)
set_bulb_ver-KeepsTidy i n k s tidy =
    bulb_ver-IsTidy tidy _ (length-set s.bulb_ver i _ ∙ tidy.bulb_ver)

pub set_opt_amount-KeepsTidy : (i n : ℕ) → n ≤ 2 → KeepsTidy (set_opt_amount i n)
set_opt_amount-KeepsTidy i n h k s tidy =
    let row = tidy.opt.row i in
    opt-IsTidy tidy _ (
      set-IsTable IsOptRow zero_opt s.opt i _ tidy.opt
        (record { config = row.config; state = row.state; amount = h }))

pub set_ge_amount-KeepsTidy : (i n : ℕ) → n ≤ 2 → KeepsTidy (set_ge_amount i n)
set_ge_amount-KeepsTidy i n h k s tidy =
    let row = tidy.eth.row i in
    eth-IsTidy tidy _ (
      set-IsTable IsEthRow zero_eth s.eth i _ tidy.eth
        (record { ge = row.ge; fe = row.fe; ge_amount = h; fe_amount = row.fe_amount }))

pub set_fe_amount-KeepsTidy : (i n : ℕ) → n ≤ 6 → KeepsTidy (set_fe_amount i n)
set_fe_amount-KeepsTidy i n h k s tidy =
    let row = tidy.eth.row i in
    eth-IsTidy tidy _ (
      set-IsTable IsEthRow zero_eth s.eth i _ tidy.eth
        (record { ge = row.ge; fe = row.fe; ge_amount = row.ge_amount; fe_amount = h }))

pub set_e1_amount-KeepsTidy : (i n : ℕ) → n ≤ 8 → KeepsTidy (set_e1_amount i n)
set_e1_amount-KeepsTidy i n h k s tidy =
    let row = tidy.e1.row i in
    e1-IsTidy tidy _ (
      set-IsTable IsE1Row zero_e1 s.e1 i _ tidy.e1
        (record { config = row.config; state = row.state; amount = h }))
