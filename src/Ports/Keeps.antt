-- ===== src/Ports/Keeps.antt =====
-- The pages of the ports leave the boards' tables tidy and never wait for ever.
use arm_ucos_proxy.Base.{arith, ℕ, Bool, List, ◌++◌, replicate}
use arm_ucos_proxy.Base.Outcome.{
  done, fault, blocked, Status, ok, err, Action, pure, ◌>>=◌, Returns, Returns-bind,
}
use arm_ucos_proxy.Comm.State.{WebDybFrame, WebCtrlComm, Codes, Exchange}
use arm_ucos_proxy.Comm.Write.{web_write_opt, web_write_e1, web_write_eth}
use arm_ucos_proxy.Comm.Tables.{web_read_opt, web_read_e1, web_read_eth}
use arm_ucos_proxy.Comm.Tidy.{IsTidy}
use arm_ucos_proxy.Comm.Keeps.{Supplies, Keeps}
use arm_ucos_proxy.Comm.Whole.{
  web_read_opt-Keeps, web_read_eth-Keeps, web_read_e1-Keeps, web_write_opt-Keeps,
  web_write_eth-Keeps, web_write_e1-Keeps,
}
use arm_ucos_proxy.Ports.Text.{Text, FitsTag, fail_str}
use arm_ucos_proxy.Ports.State.{PortPages, on_control}
use arm_ucos_proxy.Ports.Opt.{opt_text, opt_read_data_ssi_handler, configure_opt}
use arm_ucos_proxy.Ports.E1.{e1_text, e1_read_data_ssi_handler, configure_e1}
use arm_ucos_proxy.Ports.Eth.{eth_text, eth_read_data_ssi_handler, configure_eth}
use arm_ucos_proxy.Ports.Shown.{opt_text-done, e1_text-done, eth_text-done}

-- An action of a page, from any tidy state.
abbrev pub PagesKeep : {A : Type 0} → Type 0 → Action PortPages A → Type 0
PagesKeep may_fault act =
    (s : PortPages)
    → IsTidy 1 s.web_control
    → Returns may_fault (λ r. IsTidy 1 r.1.web_control) (act s)

-- An action that gives a text that the buffer holds.
abbrev pub PagesGive : Type 0 → Action PortPages Text → Type 0
PagesGive may_fault act =
    (s : PortPages)
    → IsTidy 1 s.web_control
    → Returns may_fault (λ r. IsTidy 1 r.1.web_control × FitsTag r.0) (act s)

pub on_control-PagesKeep :
    {A : Type 0} (may_fault : Type 0) (act : Action WebCtrlComm A)
    → Keeps may_fault 1 1 act
    → PagesKeep may_fault (on_control act)
on_control-PagesKeep may_fault act keeps s tidy =
    Returns-bind may_fault (λ r. IsTidy 1 r.1) (λ r. IsTidy 1 r.1.web_control) (act s.web_control)
      (λ a c. done (a, record s { web_control = c })) (keeps s.web_control tidy)
      (λ a c tidy'. tidy')

then-PagesKeep :
    {A B : Type 0} (may_fault : Type 0) (act : Action PortPages A) (rest : A → Action PortPages B)
    → PagesKeep may_fault act
    → ((a : A) → PagesKeep may_fault (rest a))
    → PagesKeep may_fault (act >>= rest)
then-PagesKeep may_fault act rest keeps keeps' s tidy =
    Returns-bind may_fault (λ r. IsTidy 1 r.1.web_control) (λ r. IsTidy 1 r.1.web_control) (act s)
      rest (keeps s tidy) (λ a t tidy'. keeps' a t tidy')

then-PagesGive :
    {A : Type 0} (may_fault : Type 0) (act : Action PortPages A) (rest : A → Action PortPages Text)
    → PagesKeep may_fault act
    → ((a : A) → PagesGive may_fault (rest a))
    → PagesGive may_fault (act >>= rest)
then-PagesGive may_fault act rest keeps gives s tidy =
    Returns-bind may_fault (λ r. IsTidy 1 r.1.web_control)
      (λ r. IsTidy 1 r.1.web_control × FitsTag r.0) (act s) rest (keeps s tidy)
      (λ a t tidy'. gives a t tidy')

module _ (may_fault : Type 0) (codes : Codes) (link : List WebDybFrame → Exchange)
    (delivers : Supplies may_fault link) where
  pub opt_read_data-PagesGive :
      (old : Text) → FitsTag old → PagesGive may_fault (opt_read_data_ssi_handler codes link old)
  unfolding opt_read_data_ssi_handler
  opt_read_data-PagesGive old room =
      then-PagesGive may_fault _ _
        (on_control-PagesKeep may_fault (web_read_opt codes link)
          (web_read_opt-Keeps may_fault codes link delivers))
        show
    where
      show :
          (r : Status)
          → PagesGive may_fault (elim r [
            | err ↦ pure fail_str
            | ok ↦ λ s. elim (opt_text old s.web_control.opt) [
              | done text ↦ done (text, s)
              | fault ↦ fault
              | blocked ↦ blocked
            ]
          ])
      show err s tidy = (tidy, omega arith)
      show ok s tidy =
          let (text, e, short) = opt_text-done old s.web_control.opt tidy.opt room in
          rw e (tidy, short)

  pub e1_read_data-PagesGive :
      (old : Text) → FitsTag old → PagesGive may_fault (e1_read_data_ssi_handler codes link old)
  unfolding e1_read_data_ssi_handler
  e1_read_data-PagesGive old room =
      then-PagesGive may_fault _ _
        (on_control-PagesKeep may_fault (web_read_e1 codes link)
          (web_read_e1-Keeps may_fault codes link delivers))
        show
    where
      show :
          (r : Status)
          → PagesGive may_fault (elim r [
            | err ↦ pure fail_str
            | ok ↦ λ s. elim (e1_text old s.web_control.e1) [
              | done text ↦ done (text, s)
              | fault ↦ fault
              | blocked ↦ blocked
            ]
          ])
      show err s tidy = (tidy, omega arith)
      show ok s tidy =
          let (text, e, short) = e1_text-done old s.web_control.e1 tidy.e1 room in
          rw e (tidy, short)

  pub eth_read_data-PagesGive : PagesGive may_fault (eth_read_data_ssi_handler codes link)
  unfolding eth_read_data_ssi_handler
  eth_read_data-PagesGive =
      then-PagesGive may_fault _ _
        (on_control-PagesKeep may_fault (web_read_eth codes link)
          (web_read_eth-Keeps may_fault codes link delivers))
        show
    where
      show :
          (r : Status)
          → PagesGive may_fault (elim r [
            | err ↦ pure fail_str
            | ok ↦ λ s. elim (eth_text s.web_control.eth) [
              | done text ↦ done (text, s)
              | fault ↦ fault
              | blocked ↦ blocked
            ]
          ])
      show err s tidy = (tidy, omega arith)
      show ok s tidy =
          let (text, e, short) = eth_text-done s.web_control.eth tidy.eth in rw e (tidy, short)

  pub configure_opt-PagesKeep :
      (board : ℕ) (buf : List ℕ) → PagesKeep may_fault (configure_opt codes link board buf)
  unfolding configure_opt
  configure_opt-PagesKeep board buf =
      then-PagesKeep may_fault _ _
        (on_control-PagesKeep may_fault (web_write_opt codes link board buf)
          (web_write_opt-Keeps may_fault codes link delivers board buf))
        (λ r s tidy. tidy)

  pub configure_e1-PagesKeep :
      (board : ℕ) (buf : List ℕ) → PagesKeep may_fault (configure_e1 codes link board buf)
  unfolding configure_e1
  configure_e1-PagesKeep board buf =
      then-PagesKeep may_fault _ _
        (on_control-PagesKeep may_fault (web_write_e1 codes link board (buf ++ replicate 24 0))
          (web_write_e1-Keeps may_fault codes link delivers board (buf ++ replicate 24 0)))
        (λ r s tidy. tidy)

  pub configure_eth-PagesKeep :
      (ge : Bool) (board : ℕ) (buf : List ℕ)
      → PagesKeep may_fault (configure_eth codes link ge board buf)
  unfolding configure_eth
  configure_eth-PagesKeep ge board buf =
      then-PagesKeep may_fault _ _
        (on_control-PagesKeep may_fault (web_write_eth codes link ge board buf)
          (web_write_eth-Keeps may_fault codes link delivers ge board buf))
        (λ r s tidy. tidy)
