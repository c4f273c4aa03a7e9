-- ===== src/Admin/Examples.antt =====
-- The theorems about the pages that manage the device at inputs that meet their hypotheses.
use arm_ucos_proxy.Base.{◌%◌, ◌≡◌, refl, true, false, ◌⊎◌, List, [], ◌∷◌, length, drop, arith}
use arm_ucos_proxy.Base.Outcome.{done, ok}
use arm_ucos_proxy.Tftp.Buffer.{request_bytes, datagram}
use arm_ucos_proxy.Tftp.Update.{tftp_firmware_update, update_loop}
use arm_ucos_proxy.Tftp.State.{u32_mod, Client}
use arm_ucos_proxy.Tftp.Packet.{codes}
use arm_ucos_proxy.Tftp.Checksum.{sum_bytes}
use arm_ucos_proxy.Tftp.Block.{IsReceived}
use arm_ucos_proxy.Tftp.Transfer.{serve}
use arm_ucos_proxy.Tftp.Sample.{
  small_head, idle, full_block, last_bytes, small_file, small_file-IsServable,
}
use arm_ucos_proxy.Ports.Text.{Text, text_equal, find_cgi_parameter, success_str, mystrncmp}
use arm_ucos_proxy.Pages.Filename.{update_filename_crop, behind_last}
use arm_ucos_proxy.Admin.Account.{
  WebAccount, AccountStore, AccountPage, not_changed, incorrect_str, IsForm, account_cgi_interface,
  account_status_ssi_handler, account_cgi_interface_lem,
}
use arm_ucos_proxy.Admin.Network.{
  GlobalConfig, NetPage, Inet, InUse, net_write, cmd_set_ipaddr, cmd_set_netmask, cmd_set_gw,
  main_config_write, jump_update_udp_addr, st_update_udp_send_addr, read_addresses, address_of,
  in_use, IsConsistent, net_cgi_interface, net_cgi_interface-IsConsistent,
}
use arm_ucos_proxy.Admin.Reboot.{
  form, poll, reboot_run, before_polls, asked_polls, any_wants, put_form, reboot_run_resets,
}
use arm_ucos_proxy.Admin.Update.{
  UpdatePage, update_cgi_interface, update_turn, update_turn_installs,
}

-- The account is all that is kept.
abbrev plain_store : AccountStore WebAccount
plain_store = record {
  web_account_read = λ s. s;
  web_account_write = λ a s. a;
  read_written = λ a s. refl;
}

abbrev admin : AccountPage WebAccount
admin = record {
  kept = record { username = codes "admin"; passwd = codes "1234" };
  account_status = not_changed;
}

abbrev account_form : List (Text × Text)
account_form =
    (codes "cur_user", codes "admin")
    ∷ (codes "cur_passwd", codes "1234")
    ∷ (codes "new_user", codes "me")
    ∷ (codes "new_passwd", codes "5678")
    ∷ []

account_form-IsForm : IsForm account_form (codes "admin") (codes "1234") (codes "me") (codes "5678")
unfolding find_cgi_parameter text_equal
account_form-IsForm = record {
  many = omega arith;
  has_user = refl;
  has_passwd = refl;
  has_new_user = refl;
  has_new_passwd = refl;
  user_fits = omega arith;
  passwd_fits = omega arith;
}

account_cgi_interface_lem_example :
    (s' : AccountPage WebAccount) × (account_cgi_interface plain_store account_form admin ≡ done s')
    × ((codes "admin" ≡ codes "admin"
          × codes "1234" ≡ codes "1234"
          × (s'.kept ≡ record { username = codes "me"; passwd = codes "5678" })
          × (account_status_ssi_handler s'.account_status ≡ success_str))
        ⊎ (¬ (codes "admin" ≡ codes "admin" × codes "1234" ≡ codes "1234")
            × (s'.kept ≡ admin.kept)
            × (account_status_ssi_handler s'.account_status ≡ incorrect_str)))
account_cgi_interface_lem_example =
    account_cgi_interface_lem plain_store account_form (codes "admin") (codes "1234") (codes "me")
      (codes "5678") admin account_form-IsForm

-- An address is the length of its text, and any addresses are valid.
abbrev length_inet : Inet
length_inet = record {
  inet_addr = λ text. length text;
  ntohl = λ a. a;
  ip_msk_gw_validation = λ ip mask gw. true;
}

abbrev first_config : GlobalConfig
first_config = record { host_ip = 1; netmask = 2; gateway = 3; jump_ip = 4; rest = [] }

abbrev first_use : InUse
first_use = record { ip = 1; mask = 2; gw = 3; flash = first_config }

abbrev net_page : NetPage
net_page = record { config = first_config; calls = []; net_config_status = ok }

abbrev net_form : List (Text × Text)
net_form =
    (codes "dev_ip", codes "10.0.0.7")
    ∷ (codes "dev_mask", codes "255.0.0.0")
    ∷ (codes "dev_gateway", codes "10.0.0.1")
    ∷ (codes "mng_ip", codes "10.0.0.22")
    ∷ []

abbrev next_page : NetPage
next_page = record {
  config = record first_config { host_ip = 8; netmask = 9; gateway = 8; jump_ip = 9 };
  calls =
      cmd_set_ipaddr 8
      ∷ cmd_set_netmask 9
      ∷ cmd_set_gw 8
      ∷ main_config_write
          (record first_config { host_ip = 8; netmask = 9; gateway = 8; jump_ip = 9 })
      ∷ jump_update_udp_addr
      ∷ st_update_udp_send_addr
      ∷ [];
  net_config_status = ok;
}

net_cgi_interface-IsConsistent_example : IsConsistent length_inet first_use next_page
unfolding in_use net_cgi_interface read_addresses address_of find_cgi_parameter text_equal
net_cgi_interface-IsConsistent_example =
    net_cgi_interface-IsConsistent length_inet first_use net_form net_page next_page net_write
      record { stored = refl; used_ip = refl; used_mask = refl; used_gw = refl; valid = refl } refl

-- A poll, the request, and two polls.
-- One form between the first two of three polls.
reboot_run_resets_example :
    (reboot_run
      (poll ∷ form ((codes "reboot", []) ∷ []) ∷ poll ∷ poll ∷ [])
      record { reboot_set = 0; resets = 0 }).resets
    ≡ 1
unfolding before_polls asked_polls any_wants put_form find_cgi_parameter text_equal
reboot_run_resets_example =
    reboot_run_resets (poll ∷ form ((codes "reboot", []) ∷ []) ∷ poll ∷ poll ∷ [])
      record { reboot_set = 0; resets = 0 } refl

abbrev update_form : List (Text × Text)
update_form = (codes "filename", codes "258%5Capp.bin") ∷ (codes "go", []) ∷ []

abbrev update_page : UpdatePage
update_page = record { client = idle; start_sem = 0 }

-- An empty file.
abbrev empty_form : List (Text × Text)
empty_form = (codes "filename", codes "0%5Capp.bin") ∷ (codes "go", []) ∷ []

update_turn_installs_example :
    (s' s'' : UpdatePage) × (update_cgi_interface update_form update_page ≡ done s')
    × (s'.client.update_filename ≡ codes "app.bin")
    × ((asked : Client) × (asked.sent ≡ datagram 69 (request_bytes (codes "app.bin")) ∷ [])
        × (tftp_firmware_update small_head (serve 5000 1 (full_block ∷ []) last_bytes) s'.client
            ≡ update_loop small_head (serve 5000 1 (full_block ∷ []) last_bytes) false asked))
    × (update_turn small_head (serve 5000 1 (full_block ∷ []) last_bytes) s' ≡ done s'')
    × IsReceived small_head small_file s''.client
    × (s''.client.update_cfg.update_size ≡ length small_file)
    × (s''.client.update_cfg.update_spiflash_checksum ≡ sum_bytes (drop 2 small_file) % u32_mod)
unfolding find_cgi_parameter text_equal update_filename_crop behind_last mystrncmp
update_turn_installs_example =
    update_turn_installs small_head update_form (codes "258%5Capp.bin") (codes "app.bin")
      (full_block ∷ []) last_bytes 5000 update_page (omega arith) refl refl (omega arith)
      small_file-IsServable (omega arith) refl (omega arith) refl refl refl refl
