-- ===== src/Pages/Remote.antt =====
-- The choice of the remote end and the panel (USER/module_webserver/webserver_cent_rmt.c and
-- webserver_panel.c).
use arm_ucos_proxy.Base.{
  ℕ, ◌+◌, List, [], ◌∷◌, none, some, length, get_or, ltb, if◌then◌else◌, suc, zero, ◌==◌,
}
use arm_ucos_proxy.Base.Bytes.{test_bit}
use arm_ucos_proxy.Tftp.Packet.{codes}
use arm_ucos_proxy.Base.Outcome.{done, fault, ok, err, Action, pure, ◌>>=◌}
use arm_ucos_proxy.Comm.State.{WebDybFrame, WebCtrlComm, Codes, Exchange, zero_bulb_ver}
use arm_ucos_proxy.Comm.Tables.{web_read_panel}
use arm_ucos_proxy.Ports.Text.{Text, fail_str, mystrncmp, find_cgi_parameter}

-- "cent_rmt"
abbrev pub cent_rmt_param : Text
cent_rmt_param = 99 ∷ 101 ∷ 110 ∷ 116 ∷ 95 ∷ 114 ∷ 109 ∷ 116 ∷ []

-- "%E8%BF%9C"
abbrev pub cgi_remote_string : Text
cgi_remote_string = 37 ∷ 69 ∷ 56 ∷ 37 ∷ 66 ∷ 70 ∷ 37 ∷ 57 ∷ 67 ∷ []

-- The pages that the handler names.
pub data RemotePage : Type 0 where
  cr_read : RemotePage
  cr_write : RemotePage

unfoldable pub cent_rmt_cgi_interface : List (Text × Text) → Action WebCtrlComm RemotePage
cent_rmt_cgi_interface params s =
    if ltb (length params) 2
    then done (cr_read, s)
    else elim (find_cgi_parameter cent_rmt_param params) [
      | none ↦ fault
      | some value ↦ done (
        cr_write,
        record s { cr_remote_chosen = if mystrncmp value cgi_remote_string then 1 else 0 },
      )
    ]

-- The loop over the lamps, with the number of rounds left.
unfoldable pub lamps : ℕ → ℕ → ℕ → Text
lamps zero i bulb = []
lamps (suc n) i bulb = (if test_bit bulb i then 49 else 48) ∷ lamps n (i + 1) bulb

module _ (codes : Codes) (link : List WebDybFrame → Exchange) where
  unfoldable pub panel_ssi_handler : Action WebCtrlComm Text
  panel_ssi_handler = do
    r ← web_read_panel codes link
    elim r [
      | err ↦ pure fail_str
      | ok ↦ λ s. done (lamps 16 0 (get_or s.bulb_ver 0 zero_bulb_ver).frame.bulb, s)
    ]

-- "remote" and "central"
unfoldable pub cent_rmt_read_ssi_handler : WebCtrlComm → Text
cent_rmt_read_ssi_handler s = if s.cr_remote_chosen == 0 then codes "central" else codes "remote"
