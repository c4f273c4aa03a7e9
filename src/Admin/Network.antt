-- ===== src/Admin/Network.antt =====
-- The addresses of the device (USER/module_webserver/webserver_net_config.c).
use arm_ucos_proxy.Base.{
  ℕ, ◌≡◌, refl, ap, subst, Bool, true, Bool-cases, inl, inr, List, [], ◌∷◌, ◌++◌, Option, none,
  some, length, ltb, if◌then◌else◌,
}
use arm_ucos_proxy.Base.Outcome.{
  Outcome, done, fault, and_then, Status, ok, err, Ends, Ends-and_then,
}
use arm_ucos_proxy.Tftp.Packet.{codes}
use arm_ucos_proxy.Ports.Text.{Text, fail_str, success_str}
use arm_ucos_proxy.Admin.Account.{value_of}
use arm_ucos_proxy.Ports.Decimal.{decimal}

-- struct tagGlobalConfigS as far as this page sets it, and the rest of it.
pub record GlobalConfig : Type 0 where
  pub host_ip : ℕ
  pub netmask : ℕ
  pub gateway : ℕ
  pub jump_ip : ℕ
  pub rest : List ℕ

-- The calls that put addresses into use.
pub data NetCall : Type 0 where
  cmd_set_ipaddr : ℕ → NetCall
  cmd_set_netmask : ℕ → NetCall
  cmd_set_gw : ℕ → NetCall
  main_config_write : GlobalConfig → NetCall
  jump_update_udp_addr : NetCall
  st_update_udp_send_addr : NetCall

-- The stored configuration, the calls made, the latest last, and the static status.
pub record NetPage : Type 0 where
  pub config : GlobalConfig
  pub calls : List NetCall
  pub net_config_status : Status

-- Functions that are not in this repository: inet_addr, ntohl and ip_msk_gw_validation.
pub record Inet : Type 0 where
  pub inet_addr : Text → ℕ
  pub ntohl : ℕ → ℕ
  pub ip_msk_gw_validation : ℕ → ℕ → ℕ → Bool

-- The pages that the handler names.
pub data NetAjax : Type 0 where
  net_read : NetAjax
  net_write : NetAjax

unfoldable pub net_config_status_ssi_handler : Status → Text
net_config_status_ssi_handler ok = success_str
net_config_status_ssi_handler err = fail_str

-- Where a function is given, its text is taken in place of the value; it goes through 64 bytes.
unfoldable pub ajax_get_fill : Text → Option Text → Text → Outcome Text
ajax_get_fill name call val = elim call [
  | none ↦ done (name ++ 61 ∷ val ++ 59 ∷ 10 ∷ [])
  | some tmp ↦ if ltb (length tmp) 64 then done (name ++ 61 ∷ tmp ++ 59 ∷ 10 ∷ []) else fault
]

-- The lines for texts that the main_config_read_ functions give.
unfoldable pub fill_all : List (Text × Text) → Outcome Text
fill_all [] = done []
fill_all ((name, tmp) ∷ rest) =
    and_then (ajax_get_fill name (some tmp) [])
      λ line. and_then (fill_all rest) λ lines. done (line ++ lines)

-- The texts of the main_config_read_ functions, which are not in this repository, in their order
-- before and behind the device's number.
unfoldable pub net_read_data_ssi_handler : List Text → List Text → ℕ → Outcome Text
net_read_data_ssi_handler before behind dev_id =
    and_then (fill_all (name_all net_names before)) λ head.
      and_then (fill_all (name_all version_names behind))
        λ tail. done (head ++ codes "dev_id=" ++ decimal 5 dev_id ++ 59 ∷ 10 ∷ tail)
  where
    net_names : List Text
    net_names =
        codes "dev_ip"
        ∷ codes "dev_port"
        ∷ codes "dev_mask"
        ∷ codes "dev_gateway"
        ∷ codes "dev_mac"
        ∷ codes "mng_ip"
        ∷ codes "mng_port"
        ∷ []

    version_names : List Text
    version_names = codes "boot_ver" ∷ codes "app_ver" ∷ []

    name_all : List Text → List Text → List (Text × Text)
    name_all (n ∷ ns) (t ∷ ts) = (n, t) ∷ name_all ns ts
    name_all _ _ = []

module _ (inet : Inet) where
  open inet use {inet_addr, ntohl, ip_msk_gw_validation}

  -- A parameter as an address.
  unfoldable pub address_of : Text → List (Text × Text) → Outcome ℕ
  address_of name params = and_then (value_of name params) λ value. done (ntohl (inet_addr value))

  unfoldable pub read_addresses : List (Text × Text) → GlobalConfig → Outcome GlobalConfig
  read_addresses params config = and_then (address_of (codes "dev_ip") params) λ host_ip.
      and_then (address_of (codes "dev_mask") params) λ netmask.
        and_then (address_of (codes "dev_gateway") params) λ gateway.
          and_then (address_of (codes "mng_ip") params) λ jump_ip. done (record config {
            host_ip = host_ip;
            netmask = netmask;
            gateway = gateway;
            jump_ip = jump_ip;
          })

  unfoldable pub net_cgi_interface : List (Text × Text) → NetPage → Outcome (NetAjax × NetPage)
  net_cgi_interface params s =
      if ltb (length params) 2
      then done (net_read, s)
      else and_then (read_addresses params s.config) λ config.
        if ip_msk_gw_validation config.host_ip config.netmask config.gateway
        then done (
          net_write,
          record {
            config = config;
            calls =
                s.calls
                ++ (cmd_set_ipaddr config.host_ip
                    ∷ cmd_set_netmask config.netmask
                    ∷ cmd_set_gw config.gateway
                    ∷ main_config_write config
                    ∷ jump_update_udp_addr
                    ∷ st_update_udp_send_addr
                    ∷ []);
            net_config_status = ok;
          },
        )
        else done (net_write, record s { net_config_status = err })

-- The addresses that the calls put into use, and the configuration that they store.
pub record InUse : Type 0 where
  pub ip : ℕ
  pub mask : ℕ
  pub gw : ℕ
  pub flash : GlobalConfig

unfoldable pub in_use : List NetCall → InUse → InUse
in_use [] u = u
in_use (cmd_set_ipaddr a ∷ calls) u = in_use calls (record u { ip = a })
in_use (cmd_set_netmask a ∷ calls) u = in_use calls (record u { mask = a })
in_use (cmd_set_gw a ∷ calls) u = in_use calls (record u { gw = a })
in_use (main_config_write c ∷ calls) u = in_use calls (record u { flash = c })
in_use (jump_update_udp_addr ∷ calls) u = in_use calls u
in_use (st_update_udp_send_addr ∷ calls) u = in_use calls u

in_use-append : (xs ys : List NetCall) (u : InUse) → in_use (xs ++ ys) u ≡ in_use ys (in_use xs u)
unfolding in_use
in_use-append [] ys u = refl
in_use-append (cmd_set_ipaddr a ∷ xs) ys u = in_use-append xs ys (record u { ip = a })
in_use-append (cmd_set_netmask a ∷ xs) ys u = in_use-append xs ys (record u { mask = a })
in_use-append (cmd_set_gw a ∷ xs) ys u = in_use-append xs ys (record u { gw = a })
in_use-append (main_config_write c ∷ xs) ys u = in_use-append xs ys (record u { flash = c })
in_use-append (jump_update_udp_addr ∷ xs) ys u = in_use-append xs ys u
in_use-append (st_update_udp_send_addr ∷ xs) ys u = in_use-append xs ys u

module _ (inet : Inet) (u₀ : InUse) where
  open inet use {ip_msk_gw_validation}

  -- The addresses in use are those of the stored configuration, and were found valid.
  pub record IsConsistent (s : NetPage) : Type 0 where
    pub stored : (in_use s.calls u₀).flash ≡ s.config
    pub used_ip : (in_use s.calls u₀).ip ≡ s.config.host_ip
    pub used_mask : (in_use s.calls u₀).mask ≡ s.config.netmask
    pub used_gw : (in_use s.calls u₀).gw ≡ s.config.gateway
    pub valid : ip_msk_gw_validation s.config.host_ip s.config.netmask s.config.gateway ≡ true

  applied-IsConsistent :
      (config : GlobalConfig) (calls : List NetCall)
      → ip_msk_gw_validation config.host_ip config.netmask config.gateway ≡ true
      → IsConsistent (record {
        config = config;
        calls =
            calls
            ++ (cmd_set_ipaddr config.host_ip
                ∷ cmd_set_netmask config.netmask
                ∷ cmd_set_gw config.gateway
                ∷ main_config_write config
                ∷ jump_update_udp_addr
                ∷ st_update_udp_send_addr
                ∷ []);
        net_config_status = ok;
      })
  unfolding in_use
  applied-IsConsistent config calls valid =
      let e =
        in_use-append calls
          (cmd_set_ipaddr config.host_ip
            ∷ cmd_set_netmask config.netmask
            ∷ cmd_set_gw config.gateway
            ∷ main_config_write config
            ∷ jump_update_udp_addr
            ∷ st_update_udp_send_addr
            ∷ [])
          u₀ in
      record {
        stored = ap (λ u. u.flash) e;
        used_ip = ap (λ u. u.ip) e;
        used_mask = ap (λ u. u.mask) e;
        used_gw = ap (λ u. u.gw) e;
        valid = valid;
      }

  net_cgi_interface-Ends :
      (params : List (Text × Text)) (s : NetPage)
      → IsConsistent s
      → Ends (λ r. IsConsistent r.1) (net_cgi_interface inet params s)
  unfolding net_cgi_interface
  net_cgi_interface-Ends params s good = elim (Bool-cases (ltb (length params) 2)) [
    | inl e ↦ rw (net_cgi_interface, e) good
    | inr e ↦
        rw (net_cgi_interface, e)
          (Ends-and_then _ (read_addresses inet params s.config) _ λ config.
            elim (Bool-cases (ip_msk_gw_validation config.host_ip config.netmask config.gateway)) [
              | inl v ↦ rw v (applied-IsConsistent config s.calls v)
              | inr v ↦ rw v record {
                stored = good.stored;
                used_ip = good.used_ip;
                used_mask = good.used_mask;
                used_gw = good.used_gw;
                valid = good.valid;
              }
            ])
  ]

  -- After any form, valid or not, complete or not, that the page answers, the addresses in use are
  -- those of the stored configuration, and they are valid, if this was so before.
  pub net_cgi_interface-IsConsistent :
      (params : List (Text × Text)) (s s' : NetPage) (page : NetAjax)
      → IsConsistent s
      → net_cgi_interface inet params s ≡ done (page, s')
      → IsConsistent s'
  net_cgi_interface-IsConsistent params s s' page good answered =
      subst (Ends (λ (r : NetAjax × NetPage). IsConsistent r.1)) answered
        (net_cgi_interface-Ends params s good)
