-- ===== src/Site/State.antt =====
-- The state of all pages, and what they take from the rest of the firmware.
use arm_ucos_proxy.Base.{ℕ, List}
use arm_ucos_proxy.Base.Outcome.{done, and_then, Action}
use arm_ucos_proxy.Comm.State.{WebDybFrame, WebCtrlComm, Codes, Exchange}
use arm_ucos_proxy.Ports.Text.{Text}
use arm_ucos_proxy.Ports.State.{PortPages, on_control}
use arm_ucos_proxy.Admin.Account.{AccountStore, AccountPage}
use arm_ucos_proxy.Admin.Network.{GlobalConfig, NetPage, Inet}
use arm_ucos_proxy.Admin.Reboot.{RebootPage}
use arm_ucos_proxy.Admin.Update.{UpdatePage}

pub record Site (S : Type 0) : Type 0 where
  pub pages : PortPages
  pub account : AccountPage S
  pub net : NetPage
  pub reboot : RebootPage
  pub update : UpdatePage

-- The parameters of the pages: what is not in this repository. net_texts and version_texts are
-- the texts of the main_config_read_ functions.
pub record Outside (S : Type 0) : Type 0 where
  pub cmds : Codes
  pub link : List WebDybFrame → Exchange
  pub version_ntoa : ℕ → Text
  pub store : AccountStore S
  pub inet : Inet
  pub net_texts : GlobalConfig → List Text
  pub version_texts : List Text

module _ {S : Type 0} where
  -- A call on one part of the state.
  abbrev pub on_pages : {A : Type 0} → Action PortPages A → Action (Site S) A
  on_pages act s = and_then (act s.pages) λ r. done (r.0, record s { pages = r.1 })

  abbrev pub on_web_control : {A : Type 0} → Action WebCtrlComm A → Action (Site S) A
  on_web_control act = on_pages (on_control act)
