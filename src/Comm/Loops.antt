-- ===== src/Comm/Loops.antt =====
-- What the pages' requests are made of never waits for ever, and leaves the state tidy.
use arm_ucos_proxy.Base.{ℕ, zero, suc, ◌+◌, Bool-cases, inl, inr, List}
use arm_ucos_proxy.Base.Outcome.{Status, ok, err, Action, pure, modify, ◌>>=◌, ◌>>◌}
use arm_ucos_proxy.Comm.State.{WebCtrlComm}
use arm_ucos_proxy.Comm.Read.{board_contains, for_boards, after_both}
use arm_ucos_proxy.Comm.Tables.{if_board, mark}
use arm_ucos_proxy.Comm.Keeps.{Keeps, bind-Keeps}
use arm_ucos_proxy.Comm.Changes.{KeepsTidy}

module _ (may_fault : Type 0) where
  pub modify-Keeps :
      (change : WebCtrlComm → WebCtrlComm) → KeepsTidy change → Keeps may_fault 1 1 (modify change)
  modify-Keeps change keeps s tidy = keeps 1 s tidy

  pub for_boards-Keeps :
      (n i : ℕ) (body : ℕ → Action WebCtrlComm (Unit {0}))
      → ((j : ℕ) → Keeps may_fault 1 1 (body j))
      → Keeps may_fault 1 1 (for_boards n i body)
  unfolding for_boards
  for_boards-Keeps zero i body keeps s tidy = tidy
  for_boards-Keeps (suc n) i body keeps s tidy =
      bind-Keeps may_fault 1 1 1 (body i) _ (keeps i) (λ a. for_boards-Keeps n (i + 1) body keeps) s
        tidy

  pub after_both-Keeps :
      (first second : Action WebCtrlComm Status) (clear : WebCtrlComm → WebCtrlComm)
      (rest : Action WebCtrlComm (Unit {0}))
      → Keeps may_fault 1 1 first
      → Keeps may_fault 1 1 second
      → KeepsTidy clear
      → Keeps may_fault 1 1 rest
      → Keeps may_fault 1 1 (after_both first second clear rest)
  unfolding after_both
  after_both-Keeps first second clear rest k k' keeps k'' =
      bind-Keeps may_fault 1 1 1 first _ k after_first
    where
      after_second :
          (r : Status)
          → Keeps may_fault 1 1 (elim r [ err ↦ modify clear >> pure err | ok ↦ rest >> pure ok ])
      after_second err s tidy = keeps 1 s tidy
      after_second ok s tidy = bind-Keeps may_fault 1 1 1 rest _ k'' (λ a s tidy. tidy) s tidy

      after_first :
          (r : Status)
          → Keeps may_fault 1 1 (elim r [
            | err ↦ modify clear >> pure err
            | ok ↦
                second >>= λ r'. elim r' [ err ↦ modify clear >> pure err | ok ↦ rest >> pure ok ]
          ])
      after_first err s tidy = keeps 1 s tidy
      after_first ok s tidy = bind-Keeps may_fault 1 1 1 second _ k' after_second s tidy

  pub if_board-Keeps :
      (tab : List ℕ) (i : ℕ) (read : Action WebCtrlComm (Unit {0}))
      (skip : WebCtrlComm → WebCtrlComm)
      → Keeps may_fault 1 1 read
      → KeepsTidy skip
      → Keeps may_fault 1 1 (if_board tab i read skip)
  if_board-Keeps tab i read skip k keeps s tidy =
      elim (Bool-cases (board_contains tab i s.boards_exist)) [
        | inl e ↦ rw e (k s tidy)
        | inr e ↦ rw e (keeps 1 s tidy)
      ]

  pub mark-Keeps :
      (read : Action WebCtrlComm Status) (good bad : WebCtrlComm → WebCtrlComm)
      → Keeps may_fault 1 1 read
      → KeepsTidy good
      → KeepsTidy bad
      → Keeps may_fault 1 1 (mark read good bad)
  mark-Keeps read good bad k keeps keeps' = bind-Keeps may_fault 1 1 1 read _ k marked
    where
      marked : (r : Status) → Keeps may_fault 1 1 (elim r [ ok ↦ modify good | err ↦ modify bad ])
      marked ok s tidy = keeps 1 s tidy
      marked err s tidy = keeps' 1 s tidy
