-- ===== src/Admin/Reboot.antt =====
-- The restart from the page (USER/module_webserver/webserver_reboot.c).
use arm_ucos_proxy.Base.{
  ℕ, suc, ◌+◌, ◌≡◌, refl, Bool, true, false, Bool-cases, inl, inr, List, [], ◌∷◌, none, some, ◌==◌,
  ◌||◌, if◌then◌else◌, arith,
}
use arm_ucos_proxy.Tftp.Packet.{codes}
use arm_ucos_proxy.Ports.Text.{Text, find_cgi_parameter}

-- The static flag, and the resets of the device by control_set_sysreset, each after a second.
pub record RebootPage : Type 0 where
  pub reboot_set : ℕ
  pub resets : ℕ

-- Whether a form has the parameter "reboot".
abbrev pub wants_reboot : List (Text × Text) → Bool
wants_reboot params = elim (find_cgi_parameter (codes "reboot") params) [
  | none ↦ false
  | some value ↦ true
]

unfoldable pub reboot_cgi_interface : List (Text × Text) → RebootPage → RebootPage
reboot_cgi_interface params s = if wants_reboot params then record s { reboot_set = 1 } else s

-- A reset starts the device again, with the flag as it is initialised.
unfoldable pub reboot_poll : RebootPage → RebootPage
reboot_poll s = if s.reboot_set == 0 then s else record { reboot_set = 0; resets = s.resets + 1 }

-- What happens to the page: forms, and polls of the task.
pub data RebootEvent : Type 0 where
  form : List (Text × Text) → RebootEvent
  poll : RebootEvent

unfoldable pub reboot_run : List RebootEvent → RebootPage → RebootPage
reboot_run [] s = s
reboot_run (form params ∷ events) s = reboot_run events (reboot_cgi_interface params s)
reboot_run (poll ∷ events) s = reboot_run events (reboot_poll s)

-- A form before the first of some polls.
unfoldable pub put_form :
    List (Text × Text) → List (List (List (Text × Text))) → List (List (List (Text × Text)))
put_form params [] = []
put_form params (forms ∷ later) = (params ∷ forms) ∷ later

-- The forms before each poll, since the poll before it.
unfoldable pub before_polls : List RebootEvent → List (List (List (Text × Text)))
before_polls [] = []
before_polls (form params ∷ events) = put_form params (before_polls events)
before_polls (poll ∷ events) = [] ∷ before_polls events

-- Whether one of some forms has the parameter.
unfoldable pub any_wants : List (List (Text × Text)) → Bool
any_wants [] = false
any_wants (params ∷ forms) = wants_reboot params || any_wants forms

-- The polls that some form with the parameter comes right before.
unfoldable pub asked_polls : List (List (List (Text × Text))) → ℕ
asked_polls [] = 0
asked_polls (forms ∷ later) =
    let rest = asked_polls later in if any_wants forms then suc rest else rest

-- The same, if the parameter came before all of them.
unfoldable asked_before : List (List (List (Text × Text))) → ℕ
asked_before [] = 0
asked_before (forms ∷ later) = suc (asked_polls later)

asked_before-put_form :
    (params : List (Text × Text)) (polls : List (List (List (Text × Text))))
    → asked_before (put_form params polls) ≡ asked_before polls
unfolding asked_before put_form
asked_before-put_form params [] = refl
asked_before-put_form params (forms ∷ later) = refl

put_form-wants :
    (params : List (Text × Text)) (polls : List (List (List (Text × Text))))
    → wants_reboot params ≡ true
    → asked_polls (put_form params polls) ≡ asked_before polls
unfolding asked_polls asked_before put_form any_wants
put_form-wants params [] e = refl
put_form-wants params (forms ∷ later) e = rw e refl

put_form-other :
    (params : List (Text × Text)) (polls : List (List (List (Text × Text))))
    → wants_reboot params ≡ false
    → asked_polls (put_form params polls) ≡ asked_polls polls
unfolding asked_polls put_form any_wants
put_form-other params [] e = refl
put_form-other params (forms ∷ later) e = rw e refl

-- The resets by the forms before each poll, from either value of the flag.
run-resets :
    (events : List RebootEvent) (s : RebootPage)
    → (s.reboot_set ≡ 0
        → (reboot_run events s).resets ≡ s.resets + asked_polls (before_polls events))
      × (s.reboot_set ≡ 1
          → (reboot_run events s).resets ≡ s.resets + asked_before (before_polls events))
unfolding reboot_run before_polls asked_before asked_polls any_wants reboot_cgi_interface
    reboot_poll
run-resets [] s = (λ h. omega arith, λ h. omega arith)
run-resets (form params ∷ events) s = elim (Bool-cases (wants_reboot params)) [
  | inl e ↦
      let later = (run-resets events (record s { reboot_set = 1 })).1 refl in
      (
        λ h.
            rw (put_form-wants params (before_polls events) e)
              (rw (reboot_run, reboot_cgi_interface, e) later),
        λ h.
            rw (asked_before-put_form params (before_polls events))
              (rw (reboot_run, reboot_cgi_interface, e) later),
      )
  | inr e ↦
      let later = run-resets events s in
      (
        λ h.
            rw (put_form-other params (before_polls events) e)
              (rw (reboot_run, reboot_cgi_interface, e) (later.0 h)),
        λ h.
            rw (asked_before-put_form params (before_polls events))
              (rw (reboot_run, reboot_cgi_interface, e) (later.1 h)),
      )
]
run-resets (poll ∷ events) s = (
  λ h.
      let e : (s.reboot_set == 0) ≡ true = ground arith in
      rw (reboot_run, reboot_poll, e) ((run-resets events s).0 h),
  λ h.
      let e : (s.reboot_set == 0) ≡ false = ground arith in
      let later = (run-resets events (record { reboot_set = 0; resets = s.resets + 1 })).0 refl in
      rw (reboot_run, reboot_poll, e) (omega (arith, later)),
)

-- Whatever forms and polls come after the start, the device is reset once for each poll that a form
-- with the parameter "reboot" comes before, since the poll before it, and at no other poll.
pub reboot_run_resets :
    (events : List RebootEvent) (s : RebootPage)
    → s.reboot_set ≡ 0
    → (reboot_run events s).resets ≡ s.resets + asked_polls (before_polls events)
reboot_run_resets events s h = (run-resets events s).0 h
