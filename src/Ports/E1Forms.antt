-- ===== src/Ports/E1Forms.antt =====
-- What a form does to the configuration of an E1 port.
use arm_ucos_proxy.Base.{ℕ, ◌<◌, ◌≡◌, refl, List, [], ◌∷◌, Option, none, some, length, arith}
use arm_ucos_proxy.Base.Outcome.{Status, err, Action, ◌>>◌}
use arm_ucos_proxy.Ports.Text.{
  Text, set_field, find_cgi_parameter, cgistr_loop_normal, cgistr_loop_circuit, cgistr_loop_device,
}
use arm_ucos_proxy.Ports.Settings.{setting, pick_code, Sets, first_match-Sets, Sets->>}
use arm_ucos_proxy.Ports.Forms.{
  switch_codes, trap_mask_codes, ByteSet, byte_same, join_trap_mask, join_switch,
}
use arm_ucos_proxy.Ports.E1.{
  e1_write_frame, e1_write_frame_switch, e1_write_frame_trap_mask, e1_write_frame_loop, e1_frames,
  e1_switch_param, e1_trap_mask_param, e1_loop_param,
}

-- The loops of an E1 port by their texts.
abbrev pub e1_loop_codes : List (Text × ℕ)
e1_loop_codes = (cgistr_loop_normal, 0) ∷ (cgistr_loop_circuit, 1) ∷ (cgistr_loop_device, 2) ∷ []

-- What a form of the E1 ports says of the byte, which is laid out as that of an optical port.
abbrev pub E1Set : List (Text × Text) → ℕ → ℕ → Type 0
E1Set params =
    ByteSet (setting switch_codes (find_cgi_parameter e1_switch_param params))
      (setting trap_mask_codes (find_cgi_parameter e1_trap_mask_param params))
      (setting e1_loop_codes (find_cgi_parameter e1_loop_param params))

module _ (portno : ℕ) where
  frame-Sets :
      (own : Option ℕ → ℕ → ℕ → Type 0) (codes : List (Text × ℕ)) (name : Text)
      (params : List (Text × Text)) (pfunc : ℕ → Text → Action (List ℕ) Status) (buf : List ℕ)
      (found : Option Text)
      → find_cgi_parameter name params ≡ found
      → ((x : ℕ) → own none x x)
      → ((value : Text) → Sets (own (pick_code codes value)) portno (pfunc portno value) buf)
      → Sets (own (setting codes found)) portno (e1_write_frame name params portno pfunc) buf
  unfolding e1_write_frame setting
  frame-Sets own codes name params pfunc buf none q same each = (
    err,
    buf,
    rw (e1_write_frame, q) refl,
    record { size = refl; others = λ j h. refl; changed = same _ },
  )
  frame-Sets own codes name params pfunc buf (some value) q same each =
      let (r, buf', e, k) = each value in (r, buf', rw (e1_write_frame, q) e, k)

  switch-Sets :
      (buf : List ℕ) (value : Text)
      → portno < length buf
      → Sets
          (ByteSet (pick_code switch_codes value) none none)
          portno
          (e1_write_frame_switch portno value)
          buf
  unfolding e1_write_frame_switch set_field
  switch-Sets buf value h =
      first_match-Sets portno (λ c. ByteSet c none none) _ switch_codes value buf byte_same
        (refl, λ x. ground arith, (refl, λ x. ground arith, tt)) h

  trap_mask-Sets :
      (buf : List ℕ) (value : Text)
      → portno < length buf
      → Sets
          (ByteSet none (pick_code trap_mask_codes value) none)
          portno
          (e1_write_frame_trap_mask portno value)
          buf
  unfolding e1_write_frame_trap_mask set_field
  trap_mask-Sets buf value h =
      first_match-Sets portno (λ c. ByteSet none c none) _ trap_mask_codes value buf byte_same
        (refl, λ x. ground arith, (refl, λ x. ground arith, tt)) h

  loop-Sets :
      (buf : List ℕ) (value : Text)
      → portno < length buf
      → Sets
          (ByteSet none none (pick_code e1_loop_codes value))
          portno
          (e1_write_frame_loop portno value)
          buf
  unfolding e1_write_frame_loop set_field
  loop-Sets buf value h =
      first_match-Sets portno (λ c. ByteSet none none c) _ e1_loop_codes value buf byte_same
        (refl, λ x. ground arith, (refl, λ x. ground arith, (refl, λ x. ground arith, tt))) h

  -- Whatever a form holds, its settings are applied without a fault, if the port is in the
  -- buffer: each setting of its port is what the form says, or as it was, and the other ports and
  -- the reserved bits are as they were.
  pub e1_frames-Sets :
      (params : List (Text × Text)) (buf : List ℕ)
      → portno < length buf
      → Sets (E1Set params) portno (e1_frames params portno) buf
  unfolding e1_frames
  e1_frames-Sets params buf h =
      let first = e1_write_frame e1_switch_param params portno e1_write_frame_switch in
      let second = e1_write_frame e1_trap_mask_param params portno e1_write_frame_trap_mask in
      let third = e1_write_frame e1_loop_param params portno e1_write_frame_loop in
      let switch = setting switch_codes (find_cgi_parameter e1_switch_param params) in
      let trap_mask = setting trap_mask_codes (find_cgi_parameter e1_trap_mask_param params) in
      let loop = setting e1_loop_codes (find_cgi_parameter e1_loop_param params) in
      Sets->> portno (ByteSet switch none none) (ByteSet none trap_mask loop) (E1Set params) first
        (second >> third) buf (join_switch switch trap_mask loop)
        (frame-Sets (λ c. ByteSet c none none) switch_codes e1_switch_param params
          e1_write_frame_switch buf _ refl byte_same (λ v. switch-Sets buf v h))
        (λ b e.
          Sets->> portno (ByteSet none trap_mask none) (ByteSet none none loop)
            (ByteSet none trap_mask loop) second third b (join_trap_mask trap_mask loop)
            (frame-Sets (λ c. ByteSet none c none) trap_mask_codes e1_trap_mask_param params
              e1_write_frame_trap_mask b _ refl byte_same
              (λ v. trap_mask-Sets b v (omega (arith, e))))
            (λ b' e'.
              frame-Sets (λ c. ByteSet none none c) e1_loop_codes e1_loop_param params
                e1_write_frame_loop b' _ refl byte_same
                (λ v. loop-Sets b' v (omega (arith, e, e')))))
