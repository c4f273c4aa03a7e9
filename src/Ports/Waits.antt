-- ===== src/Ports/Waits.antt =====
-- The settings of a form are applied without a wait, whatever the form holds.
use arm_ucos_proxy.Base.{ℕ, List, [], ◌∷◌, Option, none, some, arith}
use arm_ucos_proxy.Base.Outcome.{done, err, Status, Action, ◌>>◌, NeverWaits, Returns-bind}
use arm_ucos_proxy.Ports.Text.{Text, first_match, find_cgi_parameter}
use arm_ucos_proxy.Ports.Opt.{
  opt_frames, opt_write_frame, opt_write_frame_switch, opt_write_frame_trap_mask,
  opt_write_frame_loop, opt_switch_param, opt_trap_mask_param, opt_loop_param,
}
use arm_ucos_proxy.Ports.E1.{
  e1_frames, e1_write_frame, e1_write_frame_switch, e1_write_frame_trap_mask, e1_write_frame_loop,
  e1_switch_param, e1_trap_mask_param, e1_loop_param,
}
use arm_ucos_proxy.Ports.Eth.{
  eth_frames, eth_write_frame, eth_write_frame_switch, eth_write_frame_auto_nego,
  eth_write_frame_bandwidth, eth_write_frame_duplex, eth_write_frame_flow_ctrl,
  eth_write_frame_trap_mask, eth_switch_param, eth_auto_nego_param, eth_bandwidth_param,
  eth_duplex_param, eth_flow_ctrl_param, eth_trap_mask_param,
}

-- A change of the buffer that ends.
abbrev Applies : Action (List ℕ) Status → Type 0
Applies act = (buf : List ℕ) → NeverWaits (act buf)

then-Applies :
    (act rest : Action (List ℕ) Status) → Applies act → Applies rest → Applies (act >> rest)
then-Applies act rest h h' buf =
    Returns-bind (Unit {0}) (λ r. Unit {0}) (λ r. Unit {0}) (act buf) (λ a. rest) (h buf)
      (λ a b t. h' b)

first_match-Applies :
    (table : List (Text × (ℕ → ℕ))) (portno : ℕ) (value : Text)
    → Applies (first_match table portno value)
unfolding first_match
first_match-Applies [] portno value buf = tt
first_match-Applies ((text, change) ∷ rest) portno value buf =
    ground (arith, first_match-Applies rest portno value buf)

-- A setting that a form may have.
setting-Applies :
    (name : Text) (params : List (Text × Text)) (portno : ℕ) (table : List (Text × (ℕ → ℕ)))
    → Applies λ buf. elim (find_cgi_parameter name params) [
      | none ↦ done (err, buf)
      | some value ↦ first_match table portno value buf
    ]
setting-Applies name params portno table buf = go (find_cgi_parameter name params)
  where
    go :
        (found : Option Text)
        → NeverWaits {A = Status × List ℕ} (elim found [
          | none ↦ done (err, buf)
          | some value ↦ first_match table portno value buf
        ])
    go none = tt
    go (some value) = first_match-Applies table portno value buf

pub opt_frames-Applies :
    (params : List (Text × Text)) (portno : ℕ) → Applies (opt_frames params portno)
unfolding opt_frames opt_write_frame opt_write_frame_switch opt_write_frame_trap_mask
    opt_write_frame_loop
opt_frames-Applies params portno =
    then-Applies (opt_write_frame opt_switch_param params portno opt_write_frame_switch) _
      (setting-Applies opt_switch_param params portno _)
      (then-Applies (opt_write_frame opt_trap_mask_param params portno opt_write_frame_trap_mask) _
        (setting-Applies opt_trap_mask_param params portno _)
        (setting-Applies opt_loop_param params portno _))

pub e1_frames-Applies :
    (params : List (Text × Text)) (portno : ℕ) → Applies (e1_frames params portno)
unfolding e1_frames e1_write_frame e1_write_frame_switch e1_write_frame_trap_mask
    e1_write_frame_loop
e1_frames-Applies params portno =
    then-Applies (e1_write_frame e1_switch_param params portno e1_write_frame_switch) _
      (setting-Applies e1_switch_param params portno _)
      (then-Applies (e1_write_frame e1_trap_mask_param params portno e1_write_frame_trap_mask) _
        (setting-Applies e1_trap_mask_param params portno _)
        (setting-Applies e1_loop_param params portno _))

pub eth_frames-Applies :
    (params : List (Text × Text)) (portno : ℕ) → Applies (eth_frames params portno)
unfolding eth_frames eth_write_frame eth_write_frame_switch eth_write_frame_auto_nego
    eth_write_frame_bandwidth eth_write_frame_duplex eth_write_frame_flow_ctrl
    eth_write_frame_trap_mask
eth_frames-Applies params portno =
    then-Applies (eth_write_frame eth_switch_param params portno eth_write_frame_switch) _
      (setting-Applies eth_switch_param params portno _)
      (then-Applies (eth_write_frame eth_auto_nego_param params portno eth_write_frame_auto_nego) _
        (setting-Applies eth_auto_nego_param params portno _)
        (then-Applies (eth_write_frame eth_bandwidth_param params portno eth_write_frame_bandwidth)
          _ (setting-Applies eth_bandwidth_param params portno _)
          (then-Applies (eth_write_frame eth_duplex_param params portno eth_write_frame_duplex) _
            (setting-Applies eth_duplex_param params portno _)
            (then-Applies
              (eth_write_frame eth_flow_ctrl_param params portno eth_write_frame_flow_ctrl) _
              (setting-Applies eth_flow_ctrl_param params portno _)
              (setting-Applies eth_trap_mask_param params portno _)))))
