-- ===== src/Ports/Forms.antt =====
-- What a form does to the configuration of a port.
use arm_ucos_proxy.Base.{
  ℕ, ◌/◌, ◌%◌, ◌<◌, ◌≡◌, refl, ap, ◌∙◌, List, [], ◌∷◌, Option, none, some, length, arith,
}
use arm_ucos_proxy.Base.Outcome.{Status, err, Action, ◌>>◌}
use arm_ucos_proxy.Ports.Text.{
  Text, set_field, find_cgi_parameter, cgistr_enable, cgistr_disable, cgistr_trap_mask,
  cgistr_trap_nomask, cgistr_loop_normal, cgistr_loop_circuit, cgistr_loop_device,
  cgistr_loop_double,
}
use arm_ucos_proxy.Ports.Settings.{setting, pick_code, becomes, Sets, first_match-Sets, Sets->>}
use arm_ucos_proxy.Ports.Opt.{
  opt_write_frame, opt_write_frame_switch, opt_write_frame_trap_mask, opt_write_frame_loop,
  opt_frames, opt_switch_param, opt_trap_mask_param, opt_loop_param,
}

-- The settings of a port by their texts.
abbrev pub switch_codes : List (Text × ℕ)
switch_codes = (cgistr_enable, 1) ∷ (cgistr_disable, 0) ∷ []

abbrev pub trap_mask_codes : List (Text × ℕ)
trap_mask_codes = (cgistr_trap_mask, 1) ∷ (cgistr_trap_nomask, 0) ∷ []

abbrev pub loop_codes : List (Text × ℕ)
loop_codes =
    (cgistr_loop_normal, 0)
    ∷ (cgistr_loop_circuit, 1)
    ∷ (cgistr_loop_device, 2)
    ∷ (cgistr_loop_double, 3)
    ∷ []

-- The byte of a port: bit 7 is the switch, bit 0 the mask of the trap, and the bits 1 and 2 are the
-- loop; the bits 3 to 6 have no setting.
pub record ByteSet (switch trap_mask loop : Option ℕ) (x y : ℕ) : Type 0 where
  pub is_switch : y / 128 % 2 ≡ becomes switch (x / 128 % 2)
  pub is_trap_mask : y % 2 ≡ becomes trap_mask (x % 2)
  pub is_loop : y / 2 % 4 ≡ becomes loop (x / 2 % 4)
  pub reserved : y / 8 % 16 ≡ x / 8 % 16

-- What a form of the optical ports says of the byte.
abbrev pub OptSet : List (Text × Text) → ℕ → ℕ → Type 0
OptSet params =
    ByteSet (setting switch_codes (find_cgi_parameter opt_switch_param params))
      (setting trap_mask_codes (find_cgi_parameter opt_trap_mask_param params))
      (setting loop_codes (find_cgi_parameter opt_loop_param params))

pub byte_same : (x : ℕ) → ByteSet none none none x x
byte_same x = record { is_switch = refl; is_trap_mask = refl; is_loop = refl; reserved = refl }

-- Three settings one after the other.
pub join_trap_mask :
    (trap_mask loop : Option ℕ) (x y z : ℕ)
    → ByteSet none trap_mask none x y
    → ByteSet none none loop y z
    → ByteSet none trap_mask loop x z
join_trap_mask trap_mask loop x y z p q = record {
  is_switch = q.is_switch ∙ p.is_switch;
  is_trap_mask = q.is_trap_mask ∙ p.is_trap_mask;
  is_loop = q.is_loop ∙ ap (becomes loop) p.is_loop;
  reserved = q.reserved ∙ p.reserved;
}

pub join_switch :
    (switch trap_mask loop : Option ℕ) (x y z : ℕ)
    → ByteSet switch none none x y
    → ByteSet none trap_mask loop y z
    → ByteSet switch trap_mask loop x z
join_switch switch trap_mask loop x y z p q = record {
  is_switch = q.is_switch ∙ p.is_switch;
  is_trap_mask = q.is_trap_mask ∙ ap (becomes trap_mask) p.is_trap_mask;
  is_loop = q.is_loop ∙ ap (becomes loop) p.is_loop;
  reserved = q.reserved ∙ p.reserved;
}

module _ (portno : ℕ) where
  frame-Sets :
      (own : Option ℕ → ℕ → ℕ → Type 0) (codes : List (Text × ℕ)) (name : Text)
      (params : List (Text × Text)) (pfunc : ℕ → Text → Action (List ℕ) Status) (buf : List ℕ)
      (found : Option Text)
      → find_cgi_parameter name params ≡ found
      → ((x : ℕ) → own none x x)
      → ((value : Text) → Sets (own (pick_code codes value)) portno (pfunc portno value) buf)
      → Sets (own (setting codes found)) portno (opt_write_frame name params portno pfunc) buf
  unfolding opt_write_frame setting
  frame-Sets own codes name params pfunc buf none q same each = (
    err,
    buf,
    rw (opt_write_frame, q) refl,
    record { size = refl; others = λ j h. refl; changed = same _ },
  )
  frame-Sets own codes name params pfunc buf (some value) q same each =
      let (r, buf', e, k) = each value in (r, buf', rw (opt_write_frame, q) e, k)

  switch-Sets :
      (buf : List ℕ) (value : Text)
      → portno < length buf
      → Sets
          (ByteSet (pick_code switch_codes value) none none)
          portno
          (opt_write_frame_switch portno value)
          buf
  unfolding opt_write_frame_switch set_field
  switch-Sets buf value h =
      first_match-Sets portno (λ c. ByteSet c none none) _ switch_codes value buf byte_same
        (refl, λ x. ground arith, (refl, λ x. ground arith, tt)) h

  trap_mask-Sets :
      (buf : List ℕ) (value : Text)
      → portno < length buf
      → Sets
          (ByteSet none (pick_code trap_mask_codes value) none)
          portno
          (opt_write_frame_trap_mask portno value)
          buf
  unfolding opt_write_frame_trap_mask set_field
  trap_mask-Sets buf value h =
      first_match-Sets portno (λ c. ByteSet none c none) _ trap_mask_codes value buf byte_same
        (refl, λ x. ground arith, (refl, λ x. ground arith, tt)) h

  loop-Sets :
      (buf : List ℕ) (value : Text)
      → portno < length buf
      → Sets
          (ByteSet none none (pick_code loop_codes value))
          portno
          (opt_write_frame_loop portno value)
          buf
  unfolding opt_write_frame_loop set_field
  loop-Sets buf value h =
      first_match-Sets portno (λ c. ByteSet none none c) _ loop_codes value buf byte_same
        (
          refl,
          λ x. ground arith,
          (refl, λ x. ground arith, (refl, λ x. ground arith, (refl, λ x. ground arith, tt))),
        )
        h

  -- Whatever a form holds, its settings are applied without a fault, if the port is in the
  -- buffer: each setting of its port is what the form says, or as it was, and the other ports and
  -- the reserved bits are as they were.
  pub opt_frames-Sets :
      (params : List (Text × Text)) (buf : List ℕ)
      → portno < length buf
      → Sets (OptSet params) portno (opt_frames params portno) buf
  unfolding opt_frames
  opt_frames-Sets params buf h =
      let first = opt_write_frame opt_switch_param params portno opt_write_frame_switch in
      let second = opt_write_frame opt_trap_mask_param params portno opt_write_frame_trap_mask in
      let third = opt_write_frame opt_loop_param params portno opt_write_frame_loop in
      let switch = setting switch_codes (find_cgi_parameter opt_switch_param params) in
      let trap_mask = setting trap_mask_codes (find_cgi_parameter opt_trap_mask_param params) in
      let loop = setting loop_codes (find_cgi_parameter opt_loop_param params) in
      Sets->> portno (ByteSet switch none none) (ByteSet none trap_mask loop) (OptSet params) first
        (second >> third) buf (join_switch switch trap_mask loop)
        (frame-Sets (λ c. ByteSet c none none) switch_codes opt_switch_param params
          opt_write_frame_switch buf _ refl byte_same (λ v. switch-Sets buf v h))
        (λ b e.
          Sets->> portno (ByteSet none trap_mask none) (ByteSet none none loop)
            (ByteSet none trap_mask loop) second third b (join_trap_mask trap_mask loop)
            (frame-Sets (λ c. ByteSet none c none) trap_mask_codes opt_trap_mask_param params
              opt_write_frame_trap_mask b _ refl byte_same
              (λ v. trap_mask-Sets b v (omega (arith, e))))
            (λ b' e'.
              frame-Sets (λ c. ByteSet none none c) loop_codes opt_loop_param params
                opt_write_frame_loop b' _ refl byte_same
                (λ v. loop-Sets b' v (omega (arith, e, e')))))
