-- ===== src/Admin/Waits.antt =====
-- The forms and the tags of these pages never wait for ever, and the status of an update is short.
use arm_ucos_proxy.Base.{◌++◌, length-append, ℕ, List, [], ◌∷◌, some, arith}
use arm_ucos_proxy.Base.Outcome.{
  Outcome, done, and_then, Returns, Returns-and_then, NeverWaits, and_then-NeverWaits,
}
use arm_ucos_proxy.Tftp.State.{
  Client, SsiStatus, update_doing, update_succeed, update_failed, empty, read_success,
  write_success, invalid_value, write_failure, TftpControl,
}
use arm_ucos_proxy.Tftp.Packet.{codes}
use arm_ucos_proxy.Ports.Decimal.{decimal, decimal-short}
use arm_ucos_proxy.Ports.Text.{success_str, fail_str, Text, FitsTag}
use arm_ucos_proxy.Tftp.Update.{tftp_get_progress_percent}
use arm_ucos_proxy.Pages.Filename.{update_filename_crop}
use arm_ucos_proxy.Admin.Account.{
  AccountStore, AccountPage, is_current, new_account, account_cgi_interface,
}
use arm_ucos_proxy.Admin.Network.{
  Inet, NetPage, ajax_get_fill, fill_all, net_read_data_ssi_handler, address_of, read_addresses,
  net_cgi_interface,
}
use arm_ucos_proxy.Admin.Update.{UpdatePage, update_cgi_interface, update_status_ssi_handler}

module _ {S : Type 0} (store : AccountStore S) where
  pub account_cgi_interface-NeverWaits :
      (params : List (Text × Text)) (s : AccountPage S)
      → NeverWaits (account_cgi_interface store params s)
  unfolding account_cgi_interface is_current new_account
  account_cgi_interface-NeverWaits params s = ground arith

pub net_cgi_interface-NeverWaits :
    (inet : Inet) (params : List (Text × Text)) (s : NetPage)
    → NeverWaits (net_cgi_interface inet params s)
unfolding net_cgi_interface read_addresses address_of
net_cgi_interface-NeverWaits inet params s = ground arith

pub update_cgi_interface-NeverWaits :
    (params : List (Text × Text)) (s : UpdatePage) → NeverWaits (update_cgi_interface params s)
unfolding update_cgi_interface update_filename_crop
update_cgi_interface-NeverWaits params s = ground arith

progress-NeverWaits : (m : TftpControl) → NeverWaits (tftp_get_progress_percent m)
unfolding tftp_get_progress_percent
progress-NeverWaits m = ground arith

-- The status of an update is short, whatever its progress.
pub update_status_ssi_handler-FitsTag :
    (c : Client) → Returns (Unit {0}) FitsTag (update_status_ssi_handler c)
unfolding update_status_ssi_handler
update_status_ssi_handler-FitsTag c = go c.update_ssi_status
  where
    proc : (percent : ℕ) → FitsTag (codes "proc=" ++ decimal 10 percent ++ 59 ∷ 10 ∷ [])
    proc percent = omega (
      arith,
      length-append (codes "proc=" ++ decimal 10 percent) (59 ∷ 10 ∷ []),
      length-append (codes "proc=") (decimal 10 percent),
      decimal-short 10 percent,
    )

    shown :
        (progress : Outcome ℕ)
        → NeverWaits progress
        → Returns (Unit {0}) FitsTag (
            and_then progress λ percent. done (codes "proc=" ++ decimal 10 percent ++ 59 ∷ 10 ∷ []))
    shown progress h =
        Returns-and_then (Unit {0}) (λ n. Unit {0}) FitsTag progress _ h (λ n t. proc n)

    go :
        (status : SsiStatus)
        → Returns (Unit {0}) FitsTag (elim status [
          | update_doing ↦
              and_then
                (tftp_get_progress_percent c.manager)
                λ percent. done (codes "proc=" ++ decimal 10 percent ++ 59 ∷ 10 ∷ [])
          | update_succeed ↦ done success_str
          | update_failed ↦ done fail_str
          | _ ↦ done []
        ])
    go update_doing = shown (tftp_get_progress_percent c.manager) (progress-NeverWaits c.manager)
    go update_succeed = omega arith
    go update_failed = omega arith
    go read_success = omega arith
    go write_success = omega arith
    go invalid_value = omega arith
    go empty = omega arith
    go write_failure = omega arith

fill_all-NeverWaits : (lines : List (Text × Text)) → NeverWaits (fill_all lines)
unfolding fill_all ajax_get_fill
fill_all-NeverWaits [] = tt
fill_all-NeverWaits ((name, tmp) ∷ rest) =
    and_then-NeverWaits (ajax_get_fill name (some tmp) []) _ (ground arith)
      λ line. and_then-NeverWaits (fill_all rest) _ (fill_all-NeverWaits rest) λ lines. tt

pub net_read_data_ssi_handler-NeverWaits :
    (before behind : List Text) (dev_id : ℕ)
    → NeverWaits (net_read_data_ssi_handler before behind dev_id)
unfolding net_read_data_ssi_handler
net_read_data_ssi_handler-NeverWaits before behind dev_id =
    and_then-NeverWaits (fill_all _) _ (fill_all-NeverWaits _)
      λ head. and_then-NeverWaits (fill_all _) _ (fill_all-NeverWaits _) λ tail. tt
