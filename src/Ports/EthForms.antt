-- ===== src/Ports/EthForms.antt =====
-- What a form does to the configuration of an ethernet port.
use arm_ucos_proxy.Base.{
  ℕ, ◌/◌, ◌%◌, ◌<◌, ◌≡◌, refl, ap, ◌∙◌, List, [], ◌∷◌, Option, none, some, length, arith,
}
use arm_ucos_proxy.Base.Outcome.{Status, err, Action, ◌>>◌}
use arm_ucos_proxy.Ports.Text.{
  Text, set_field, find_cgi_parameter, cgistr_open, cgistr_close, cgistr_force, cgistr_auto_nego,
  cgistr_duplex_half, cgistr_duplex_full,
}
use arm_ucos_proxy.Ports.Settings.{setting, pick_code, becomes, Sets, first_match-Sets, Sets->>}
use arm_ucos_proxy.Ports.Forms.{switch_codes, trap_mask_codes}
use arm_ucos_proxy.Ports.Eth.{
  bandwidth_10m, bandwidth_100m, bandwidth_1000m, eth_write_frame, eth_write_frame_switch,
  eth_write_frame_auto_nego, eth_write_frame_bandwidth, eth_write_frame_duplex,
  eth_write_frame_flow_ctrl, eth_write_frame_trap_mask, eth_frames, eth_switch_param,
  eth_auto_nego_param, eth_bandwidth_param, eth_duplex_param, eth_flow_ctrl_param,
  eth_trap_mask_param,
}

-- The settings of a port by their texts.
abbrev pub auto_nego_codes : List (Text × ℕ)
auto_nego_codes = (cgistr_auto_nego, 1) ∷ (cgistr_force, 0) ∷ []

abbrev pub bandwidth_codes : List (Text × ℕ)
bandwidth_codes = (bandwidth_10m, 0) ∷ (bandwidth_100m, 1) ∷ (bandwidth_1000m, 2) ∷ []

abbrev pub duplex_codes : List (Text × ℕ)
duplex_codes = (cgistr_duplex_half, 0) ∷ (cgistr_duplex_full, 1) ∷ []

abbrev pub flow_ctrl_codes : List (Text × ℕ)
flow_ctrl_codes = (cgistr_open, 1) ∷ (cgistr_close, 0) ∷ []

-- The half word of a port: bit 15 is the switch, bit 14 the control of the flow, bit 13 the mask of
-- the trap, the bits 5 and 6 are the bandwidth, bit 4 the duplex mode and bit 3 the negotiation; the
-- bits 0 to 2 and 7 to 12 have no setting.
pub record WordSet (switch auto_nego bandwidth duplex flow_ctrl trap_mask : Option ℕ) (x y : ℕ)
    : Type 0 where
  pub is_switch : y / 32768 % 2 ≡ becomes switch (x / 32768 % 2)
  pub is_auto_nego : y / 8 % 2 ≡ becomes auto_nego (x / 8 % 2)
  pub is_bandwidth : y / 32 % 4 ≡ becomes bandwidth (x / 32 % 4)
  pub is_duplex : y / 16 % 2 ≡ becomes duplex (x / 16 % 2)
  pub is_flow_ctrl : y / 16384 % 2 ≡ becomes flow_ctrl (x / 16384 % 2)
  pub is_trap_mask : y / 8192 % 2 ≡ becomes trap_mask (x / 8192 % 2)
  pub low : y % 8 ≡ x % 8
  pub middle : y / 128 % 64 ≡ x / 128 % 64

-- What a form of the ethernet ports says of the half word.
abbrev pub EthSet : List (Text × Text) → ℕ → ℕ → Type 0
EthSet params =
    WordSet (setting switch_codes (find_cgi_parameter eth_switch_param params))
      (setting auto_nego_codes (find_cgi_parameter eth_auto_nego_param params))
      (setting bandwidth_codes (find_cgi_parameter eth_bandwidth_param params))
      (setting duplex_codes (find_cgi_parameter eth_duplex_param params))
      (setting flow_ctrl_codes (find_cgi_parameter eth_flow_ctrl_param params))
      (setting trap_mask_codes (find_cgi_parameter eth_trap_mask_param params))

word_same : (x : ℕ) → WordSet none none none none none none x x
word_same x = record {
  is_switch = refl;
  is_auto_nego = refl;
  is_bandwidth = refl;
  is_duplex = refl;
  is_flow_ctrl = refl;
  is_trap_mask = refl;
  low = refl;
  middle = refl;
}

-- The settings one after the other.
join_flow_ctrl :
    (flow_ctrl trap_mask : Option ℕ) (x y z : ℕ)
    → WordSet none none none none flow_ctrl none x y
    → WordSet none none none none none trap_mask y z
    → WordSet none none none none flow_ctrl trap_mask x z
join_flow_ctrl flow_ctrl trap_mask x y z p q = record {
  is_switch = q.is_switch ∙ p.is_switch;
  is_auto_nego = q.is_auto_nego ∙ p.is_auto_nego;
  is_bandwidth = q.is_bandwidth ∙ p.is_bandwidth;
  is_duplex = q.is_duplex ∙ p.is_duplex;
  is_flow_ctrl = q.is_flow_ctrl ∙ p.is_flow_ctrl;
  is_trap_mask = q.is_trap_mask ∙ ap (becomes trap_mask) p.is_trap_mask;
  low = q.low ∙ p.low;
  middle = q.middle ∙ p.middle;
}

join_duplex :
    (duplex flow_ctrl trap_mask : Option ℕ) (x y z : ℕ)
    → WordSet none none none duplex none none x y
    → WordSet none none none none flow_ctrl trap_mask y z
    → WordSet none none none duplex flow_ctrl trap_mask x z
join_duplex duplex flow_ctrl trap_mask x y z p q = record {
  is_switch = q.is_switch ∙ p.is_switch;
  is_auto_nego = q.is_auto_nego ∙ p.is_auto_nego;
  is_bandwidth = q.is_bandwidth ∙ p.is_bandwidth;
  is_duplex = q.is_duplex ∙ p.is_duplex;
  is_flow_ctrl = q.is_flow_ctrl ∙ ap (becomes flow_ctrl) p.is_flow_ctrl;
  is_trap_mask = q.is_trap_mask ∙ ap (becomes trap_mask) p.is_trap_mask;
  low = q.low ∙ p.low;
  middle = q.middle ∙ p.middle;
}

join_bandwidth :
    (bandwidth duplex flow_ctrl trap_mask : Option ℕ) (x y z : ℕ)
    → WordSet none none bandwidth none none none x y
    → WordSet none none none duplex flow_ctrl trap_mask y z
    → WordSet none none bandwidth duplex flow_ctrl trap_mask x z
join_bandwidth bandwidth duplex flow_ctrl trap_mask x y z p q = record {
  is_switch = q.is_switch ∙ p.is_switch;
  is_auto_nego = q.is_auto_nego ∙ p.is_auto_nego;
  is_bandwidth = q.is_bandwidth ∙ p.is_bandwidth;
  is_duplex = q.is_duplex ∙ ap (becomes duplex) p.is_duplex;
  is_flow_ctrl = q.is_flow_ctrl ∙ ap (becomes flow_ctrl) p.is_flow_ctrl;
  is_trap_mask = q.is_trap_mask ∙ ap (becomes trap_mask) p.is_trap_mask;
  low = q.low ∙ p.low;
  middle = q.middle ∙ p.middle;
}

join_auto_nego :
    (auto_nego bandwidth duplex flow_ctrl trap_mask : Option ℕ) (x y z : ℕ)
    → WordSet none auto_nego none none none none x y
    → WordSet none none bandwidth duplex flow_ctrl trap_mask y z
    → WordSet none auto_nego bandwidth duplex flow_ctrl trap_mask x z
join_auto_nego auto_nego bandwidth duplex flow_ctrl trap_mask x y z p q = record {
  is_switch = q.is_switch ∙ p.is_switch;
  is_auto_nego = q.is_auto_nego ∙ p.is_auto_nego;
  is_bandwidth = q.is_bandwidth ∙ ap (becomes bandwidth) p.is_bandwidth;
  is_duplex = q.is_duplex ∙ ap (becomes duplex) p.is_duplex;
  is_flow_ctrl = q.is_flow_ctrl ∙ ap (becomes flow_ctrl) p.is_flow_ctrl;
  is_trap_mask = q.is_trap_mask ∙ ap (becomes trap_mask) p.is_trap_mask;
  low = q.low ∙ p.low;
  middle = q.middle ∙ p.middle;
}

join_switch :
    (switch auto_nego bandwidth duplex flow_ctrl trap_mask : Option ℕ) (x y z : ℕ)
    → WordSet switch none none none none none x y
    → WordSet none auto_nego bandwidth duplex flow_ctrl trap_mask y z
    → WordSet switch auto_nego bandwidth duplex flow_ctrl trap_mask x z
join_switch switch auto_nego bandwidth duplex flow_ctrl trap_mask x y z p q = record {
  is_switch = q.is_switch ∙ p.is_switch;
  is_auto_nego = q.is_auto_nego ∙ ap (becomes auto_nego) p.is_auto_nego;
  is_bandwidth = q.is_bandwidth ∙ ap (becomes bandwidth) p.is_bandwidth;
  is_duplex = q.is_duplex ∙ ap (becomes duplex) p.is_duplex;
  is_flow_ctrl = q.is_flow_ctrl ∙ ap (becomes flow_ctrl) p.is_flow_ctrl;
  is_trap_mask = q.is_trap_mask ∙ ap (becomes trap_mask) p.is_trap_mask;
  low = q.low ∙ p.low;
  middle = q.middle ∙ p.middle;
}

module _ (portno : ℕ) where
  frame-Sets :
      (own : Option ℕ → ℕ → ℕ → Type 0) (codes : List (Text × ℕ)) (name : Text)
      (params : List (Text × Text)) (pfunc : ℕ → Text → Action (List ℕ) Status) (buf : List ℕ)
      (found : Option Text)
      → find_cgi_parameter name params ≡ found
      → ((x : ℕ) → own none x x)
      → ((value : Text) → Sets (own (pick_code codes value)) portno (pfunc portno value) buf)
      → Sets (own (setting codes found)) portno (eth_write_frame name params portno pfunc) buf
  unfolding eth_write_frame setting
  frame-Sets own codes name params pfunc buf none q same each = (
    err,
    buf,
    rw (eth_write_frame, q) refl,
    record { size = refl; others = λ j h. refl; changed = same _ },
  )
  frame-Sets own codes name params pfunc buf (some value) q same each =
      let (r, buf', e, k) = each value in (r, buf', rw (eth_write_frame, q) e, k)

  switch-Sets :
      (buf : List ℕ) (value : Text)
      → portno < length buf
      → Sets
          (WordSet (pick_code switch_codes value) none none none none none)
          portno
          (eth_write_frame_switch portno value)
          buf
  unfolding eth_write_frame_switch set_field
  switch-Sets buf value h =
      first_match-Sets portno (λ c. WordSet c none none none none none) _ switch_codes value buf
        word_same (refl, λ x. ground arith, (refl, λ x. ground arith, tt)) h

  auto_nego-Sets :
      (buf : List ℕ) (value : Text)
      → portno < length buf
      → Sets
          (WordSet none (pick_code auto_nego_codes value) none none none none)
          portno
          (eth_write_frame_auto_nego portno value)
          buf
  unfolding eth_write_frame_auto_nego set_field
  auto_nego-Sets buf value h =
      first_match-Sets portno (λ c. WordSet none c none none none none) _ auto_nego_codes value buf
        word_same (refl, λ x. ground arith, (refl, λ x. ground arith, tt)) h

  bandwidth-Sets :
      (buf : List ℕ) (value : Text)
      → portno < length buf
      → Sets
          (WordSet none none (pick_code bandwidth_codes value) none none none)
          portno
          (eth_write_frame_bandwidth portno value)
          buf
  unfolding eth_write_frame_bandwidth set_field
  bandwidth-Sets buf value h =
      first_match-Sets portno (λ c. WordSet none none c none none none) _ bandwidth_codes value buf
        word_same
        (refl, λ x. ground arith, (refl, λ x. ground arith, (refl, λ x. ground arith, tt))) h

  duplex-Sets :
      (buf : List ℕ) (value : Text)
      → portno < length buf
      → Sets
          (WordSet none none none (pick_code duplex_codes value) none none)
          portno
          (eth_write_frame_duplex portno value)
          buf
  unfolding eth_write_frame_duplex set_field
  duplex-Sets buf value h =
      first_match-Sets portno (λ c. WordSet none none none c none none) _ duplex_codes value buf
        word_same (refl, λ x. ground arith, (refl, λ x. ground arith, tt)) h

  flow_ctrl-Sets :
      (buf : List ℕ) (value : Text)
      → portno < length buf
      → Sets
          (WordSet none none none none (pick_code flow_ctrl_codes value) none)
          portno
          (eth_write_frame_flow_ctrl portno value)
          buf
  unfolding eth_write_frame_flow_ctrl set_field
  flow_ctrl-Sets buf value h =
      first_match-Sets portno (λ c. WordSet none none none none c none) _ flow_ctrl_codes value buf
        word_same (refl, λ x. ground arith, (refl, λ x. ground arith, tt)) h

  trap_mask-Sets :
      (buf : List ℕ) (value : Text)
      → portno < length buf
      → Sets
          (WordSet none none none none none (pick_code trap_mask_codes value))
          portno
          (eth_write_frame_trap_mask portno value)
          buf
  unfolding eth_write_frame_trap_mask set_field
  trap_mask-Sets buf value h =
      first_match-Sets portno (λ c. WordSet none none none none none c) _ trap_mask_codes value buf
        word_same (refl, λ x. ground arith, (refl, λ x. ground arith, tt)) h

  -- Whatever a form holds, its settings are applied without a fault, if the port is in the
  -- buffer: each setting of its port is what the form says, or as it was, and the other ports and
  -- the reserved bits are as they were.
  pub eth_frames-Sets :
      (params : List (Text × Text)) (buf : List ℕ)
      → portno < length buf
      → Sets (EthSet params) portno (eth_frames params portno) buf
  unfolding eth_frames
  eth_frames-Sets params buf h =
      let do_switch = eth_write_frame eth_switch_param params portno eth_write_frame_switch in
      let switch = setting switch_codes (find_cgi_parameter eth_switch_param params) in
      let do_auto_nego =
        eth_write_frame eth_auto_nego_param params portno eth_write_frame_auto_nego in
      let auto_nego = setting auto_nego_codes (find_cgi_parameter eth_auto_nego_param params) in
      let do_bandwidth =
        eth_write_frame eth_bandwidth_param params portno eth_write_frame_bandwidth in
      let bandwidth = setting bandwidth_codes (find_cgi_parameter eth_bandwidth_param params) in
      let do_duplex = eth_write_frame eth_duplex_param params portno eth_write_frame_duplex in
      let duplex = setting duplex_codes (find_cgi_parameter eth_duplex_param params) in
      let do_flow_ctrl =
        eth_write_frame eth_flow_ctrl_param params portno eth_write_frame_flow_ctrl in
      let flow_ctrl = setting flow_ctrl_codes (find_cgi_parameter eth_flow_ctrl_param params) in
      let do_trap_mask =
        eth_write_frame eth_trap_mask_param params portno eth_write_frame_trap_mask in
      let trap_mask = setting trap_mask_codes (find_cgi_parameter eth_trap_mask_param params) in
      Sets->> portno (WordSet switch none none none none none)
        (WordSet none auto_nego bandwidth duplex flow_ctrl trap_mask)
        (WordSet switch auto_nego bandwidth duplex flow_ctrl trap_mask) do_switch
        (do_auto_nego >> (do_bandwidth >> (do_duplex >> (do_flow_ctrl >> do_trap_mask)))) buf
        (join_switch switch auto_nego bandwidth duplex flow_ctrl trap_mask)
        (frame-Sets (λ c. WordSet c none none none none none) switch_codes eth_switch_param params
          eth_write_frame_switch buf _ refl word_same (λ v. switch-Sets buf v h))
        (λ b1 e1.
          Sets->> portno (WordSet none auto_nego none none none none)
            (WordSet none none bandwidth duplex flow_ctrl trap_mask)
            (WordSet none auto_nego bandwidth duplex flow_ctrl trap_mask) do_auto_nego
            (do_bandwidth >> (do_duplex >> (do_flow_ctrl >> do_trap_mask))) b1
            (join_auto_nego auto_nego bandwidth duplex flow_ctrl trap_mask)
            (frame-Sets (λ c. WordSet none c none none none none) auto_nego_codes
              eth_auto_nego_param params eth_write_frame_auto_nego b1 _ refl word_same
              (λ v. auto_nego-Sets b1 v (omega (arith, e1))))
            (λ b2 e2.
              Sets->> portno (WordSet none none bandwidth none none none)
                (WordSet none none none duplex flow_ctrl trap_mask)
                (WordSet none none bandwidth duplex flow_ctrl trap_mask) do_bandwidth
                (do_duplex >> (do_flow_ctrl >> do_trap_mask)) b2
                (join_bandwidth bandwidth duplex flow_ctrl trap_mask)
                (frame-Sets (λ c. WordSet none none c none none none) bandwidth_codes
                  eth_bandwidth_param params eth_write_frame_bandwidth b2 _ refl word_same
                  (λ v. bandwidth-Sets b2 v (omega (arith, e1, e2))))
                (λ b3 e3.
                  Sets->> portno (WordSet none none none duplex none none)
                    (WordSet none none none none flow_ctrl trap_mask)
                    (WordSet none none none duplex flow_ctrl trap_mask) do_duplex
                    (do_flow_ctrl >> do_trap_mask) b3 (join_duplex duplex flow_ctrl trap_mask)
                    (frame-Sets (λ c. WordSet none none none c none none) duplex_codes
                      eth_duplex_param params eth_write_frame_duplex b3 _ refl word_same
                      (λ v. duplex-Sets b3 v (omega (arith, e1, e2, e3))))
                    (λ b4 e4.
                      Sets->> portno (WordSet none none none none flow_ctrl none)
                        (WordSet none none none none none trap_mask)
                        (WordSet none none none none flow_ctrl trap_mask) do_flow_ctrl do_trap_mask
                        b4 (join_flow_ctrl flow_ctrl trap_mask)
                        (frame-Sets (λ c. WordSet none none none none c none) flow_ctrl_codes
                          eth_flow_ctrl_param params eth_write_frame_flow_ctrl b4 _ refl word_same
                          (λ v. flow_ctrl-Sets b4 v (omega (arith, e1, e2, e3, e4))))
                        (λ b5 e5.
                          frame-Sets (λ c. WordSet none none none none none c) trap_mask_codes
                            eth_trap_mask_param params eth_write_frame_trap_mask b5 _ refl word_same
                            (λ v. trap_mask-Sets b5 v (omega (arith, e1, e2, e3, e4, e5))))))))
