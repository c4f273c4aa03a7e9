-- ===== src/Ports/Answers.antt =====
-- The forms of the ports leave the boards' tables tidy and never wait for ever.
use arm_ucos_proxy.Base.{ℕ, Bool-cases, Option-cases, inl, inr, List, length, get_or, ltb, ◌==◌}
use arm_ucos_proxy.Base.Outcome.{Outcome, done, fault, blocked, Status, Action, Returns, NeverWaits}
use arm_ucos_proxy.Comm.State.{WebDybFrame, Codes, Exchange}
use arm_ucos_proxy.Comm.Tidy.{IsTidy}
use arm_ucos_proxy.Comm.Keeps.{Supplies}
use arm_ucos_proxy.Ports.Text.{Text, find_cgi_parameter, board_param, portno_param, ge_param, atoi}
use arm_ucos_proxy.Ports.State.{PortPages, AjaxPage}
use arm_ucos_proxy.Ports.Opt.{configure_opt, opt_cgi_interface, opt_frames}
use arm_ucos_proxy.Ports.E1.{configure_e1, e1_cgi_interface, e1_frames}
use arm_ucos_proxy.Ports.Eth.{configure_eth, eth_cgi_interface, eth_frames}
use arm_ucos_proxy.Ports.Waits.{opt_frames-Applies, e1_frames-Applies, eth_frames-Applies}
use arm_ucos_proxy.Ports.Keeps.{
  PagesKeep, configure_opt-PagesKeep, configure_e1-PagesKeep, configure_eth-PagesKeep,
}

-- The settings of a form and then the configuration of the board.
settings-Return :
    (frames : Outcome (Status × List ℕ)) (configure : List ℕ → Action PortPages AjaxPage)
    (s : PortPages)
    → NeverWaits frames
    → ((buf : List ℕ) → PagesKeep (Unit {0}) (configure buf))
    → IsTidy 1 s.web_control
    → Returns
        (Unit {0})
        (λ r. IsTidy 1 r.1.web_control)
        (elim frames [ done (r, buf) ↦ configure buf s | fault ↦ fault | blocked ↦ blocked ])
settings-Return (done (r, buf)) configure s h keeps tidy = keeps buf s tidy
settings-Return fault configure s h keeps tidy = tt
settings-Return blocked configure s h keeps tidy = h

-- A form faults without its parameters, or with a board or a port behind the tables.
module _ (codes : Codes) (link : List WebDybFrame → Exchange)
    (delivers : Supplies (Unit {0}) link) where
  pub opt_cgi_interface-PagesKeep :
      (params : List (Text × Text)) → PagesKeep (Unit {0}) (opt_cgi_interface codes link params)
  unfolding opt_cgi_interface
  opt_cgi_interface-PagesKeep params s tidy = elim (Bool-cases (ltb (length params) 2)) [
    | inl e ↦ rw (opt_cgi_interface, e) tidy
    | inr few ↦ elim (Option-cases (find_cgi_parameter board_param params)) [
      | inl e ↦ rw (opt_cgi_interface, few, e) tt
      | inr (b, e) ↦ elim (Option-cases (find_cgi_parameter portno_param params)) [
        | inl e' ↦ rw (opt_cgi_interface, few, e, e') tt
        | inr (n, e') ↦ elim (Bool-cases (ltb (atoi b) (length s.web_control.opt))) [
          | inr behind ↦ rw (opt_cgi_interface, few, e, e', behind) tt
          | inl within ↦
              rw (opt_cgi_interface, few, e, e', within)
                (settings-Return (opt_frames params (atoi n) _) (configure_opt codes link (atoi b))
                  s (opt_frames-Applies params (atoi n) _)
                  (configure_opt-PagesKeep (Unit {0}) codes link delivers (atoi b)) tidy)
        ]
      ]
    ]
  ]

  pub e1_cgi_interface-PagesKeep :
      (params : List (Text × Text)) → PagesKeep (Unit {0}) (e1_cgi_interface codes link params)
  unfolding e1_cgi_interface
  e1_cgi_interface-PagesKeep params s tidy = elim (Bool-cases (ltb (length params) 2)) [
    | inl e ↦ rw (e1_cgi_interface, e) tidy
    | inr few ↦ elim (Option-cases (find_cgi_parameter board_param params)) [
      | inl e ↦ rw (e1_cgi_interface, few, e) tt
      | inr (b, e) ↦ elim (Option-cases (find_cgi_parameter portno_param params)) [
        | inl e' ↦ rw (e1_cgi_interface, few, e, e') tt
        | inr (n, e') ↦ elim (Bool-cases (ltb (atoi b) (length s.web_control.e1))) [
          | inr behind ↦ rw (e1_cgi_interface, few, e, e', behind) tt
          | inl within ↦
              rw (e1_cgi_interface, few, e, e', within)
                (settings-Return (e1_frames params (atoi n) _) (configure_e1 codes link (atoi b)) s
                  (e1_frames-Applies params (atoi n) _)
                  (configure_e1-PagesKeep (Unit {0}) codes link delivers (atoi b)) tidy)
        ]
      ]
    ]
  ]

  pub eth_cgi_interface-PagesKeep :
      (params : List (Text × Text)) → PagesKeep (Unit {0}) (eth_cgi_interface codes link params)
  unfolding eth_cgi_interface
  eth_cgi_interface-PagesKeep params s tidy = elim (Bool-cases (ltb (length params) 2)) [
    | inl e ↦ rw (eth_cgi_interface, e) tidy
    | inr few ↦ elim (Option-cases (find_cgi_parameter ge_param params)) [
      | inl e ↦ rw (eth_cgi_interface, few, e) tt
      | inr (g, kind) ↦ elim (Option-cases (find_cgi_parameter board_param params)) [
        | inl e ↦ rw (eth_cgi_interface, few, kind, e) tt
        | inr (b, e) ↦ elim (Option-cases (find_cgi_parameter portno_param params)) [
          | inl e' ↦ rw (eth_cgi_interface, few, kind, e, e') tt
          | inr (n, e') ↦ elim (Bool-cases (ltb (atoi b) (length s.web_control.eth))) [
            | inr behind ↦ rw (eth_cgi_interface, few, kind, e, e', behind) tt
            | inl within ↦
                rw (eth_cgi_interface, few, kind, e, e', within)
                  (settings-Return (eth_frames params (atoi n) _)
                    (configure_eth codes link (get_or g 0 0 == 71) (atoi b)) s
                    (eth_frames-Applies params (atoi n) _)
                    (configure_eth-PagesKeep (Unit {0}) codes link delivers (get_or g 0 0 == 71)
                      (atoi b))
                    tidy)
          ]
        ]
      ]
    ]
  ]
