-- ===== src/Desktop/Background/Ending.antt =====
-- When the worker of the desktop application ends.
use enjambre_worker.Prelude.{
  ◌≡◌, refl, ap, ◌∙◌, Bool, true, false, ◌||◌, List, [], ◌∷◌, ◌++◌, is_some, All, arith, Bool-cases,
  inl, inr, if◌then◌else◌,
}
use enjambre_worker.Prelude.Text.{Text}
use enjambre_worker.Files.{Disk}
use enjambre_worker.Hardware.{HardwareInfo}
use enjambre_worker.Worker.{
  AppState, Task, ready, monitor_children, slave_update, Wait, exited, has_exited, Happening, tick,
  update, watch,
}
use enjambre_worker.Worker.Run
use enjambre_worker.Worker.Run.{World, started, close, stopped}
use enjambre_worker.Worker.Lifecycle.{watch-shutdown}
use enjambre_worker.Desktop.{App}
use enjambre_worker.Desktop.Background.{
  Progress, error, waiting, ended, wait_shutdown, after_start, run_worker, start_worker_background,
}

-- No program that has exited is seen.
abbrev pub Calm : Happening → Type 0
Calm (tick rpc server) = (has_exited rpc ≡ false) × (has_exited server ≡ false)
Calm (update slaves starts) = Unit

abbrev pub is_waiting : Progress → Bool
is_waiting (waiting s) = true
is_waiting _ = false

module _ (args : Text → List Text) where
  abbrev Guarded : AppState → Type 0
  Guarded s = (is_some s.rpc_process || s.shutdown) ≡ true

  watch-Guarded : (hs : List Happening) (s : AppState) → Guarded s → Guarded (watch args hs s)
  unfolding watch
  watch-Guarded [] s g = g
  watch-Guarded (tick rpc server ∷ hs) s g =
      watch-Guarded hs (monitor_children rpc server s).0
        (unfold monitor_children in ground (arith, g))
  watch-Guarded (update slaves starts ∷ hs) s g =
      watch-Guarded hs (slave_update args slaves starts s) (unfold slave_update in g)

  exit-shutdown :
      (pre post : List Happening) (server : Wait) (s : AppState)
      → Guarded s
      → (watch args (pre ++ tick exited server ∷ post) s).shutdown ≡ true
  unfolding watch
  exit-shutdown [] post server s g =
      watch-shutdown args post (monitor_children exited server s).0
        (unfold monitor_children in ground (arith, g))
  exit-shutdown (tick rpc srv ∷ pre) post server s g =
      exit-shutdown pre post server (monitor_children rpc srv s).0
        (unfold monitor_children in ground (arith, g))
  exit-shutdown (update slaves starts ∷ pre) post server s g =
      exit-shutdown pre post server (slave_update args slaves starts s) (unfold slave_update in g)

  wait_shutdown-set :
      (rounds : List (List Happening)) (s : AppState)
      → s.shutdown ≡ true
      → wait_shutdown args rounds s ≡ ended stopped
  unfolding wait_shutdown close
  wait_shutdown-set [] s e = rw e refl
  wait_shutdown-set (hs ∷ rounds) s e = rw e refl

  wait_shutdown_unset :
      (hs : List Happening) (rounds : List (List Happening)) (s : AppState)
      → s.shutdown ≡ false
      → wait_shutdown args (hs ∷ rounds) s ≡ wait_shutdown args rounds (watch args hs s)
  unfolding wait_shutdown
  wait_shutdown_unset hs rounds s n =
      ap (λ b. if b then ended (close s) else wait_shutdown args rounds (watch args hs s)) n

  wait_shutdown-step :
      (hs : List Happening) (rounds : List (List Happening)) (s : AppState)
      → wait_shutdown args rounds (watch args hs s) ≡ ended stopped
      → wait_shutdown args (hs ∷ rounds) s ≡ ended stopped
  wait_shutdown-step hs rounds s e = elim (Bool-cases s.shutdown) [
    | inl y ↦ wait_shutdown-set (hs ∷ rounds) s y
    | inr n ↦ wait_shutdown_unset hs rounds s n ∙ e
  ]

  wait_shutdown-exit :
      (before after : List (List Happening)) (pre post : List Happening) (server : Wait)
      (s : AppState)
      → Guarded s
      → wait_shutdown args (before ++ (pre ++ tick exited server ∷ post) ∷ after) s ≡ ended stopped
  wait_shutdown-exit [] after pre post server s g =
      wait_shutdown-step (pre ++ tick exited server ∷ post) after s (
        wait_shutdown-set after (watch args (pre ++ tick exited server ∷ post) s)
          (exit-shutdown pre post server s g))
  wait_shutdown-exit (hs ∷ before) after pre post server s g =
      wait_shutdown-step hs (before ++ (pre ++ tick exited server ∷ post) ∷ after) s
        (wait_shutdown-exit before after pre post server (watch args hs s) (watch-Guarded hs s g))

  watch-Calm :
      (hs : List Happening) (s : AppState)
      → All Calm hs
      → s.shutdown ≡ false
      → (watch args hs s).shutdown ≡ false
  unfolding watch
  watch-Calm [] s c e = e
  watch-Calm (tick rpc server ∷ hs) s ((r, v), cs) e =
      watch-Calm hs (monitor_children rpc server s).0 cs
        (unfold monitor_children in ground (arith, e, r, v))
  watch-Calm (update slaves starts ∷ hs) s (c, cs) e =
      watch-Calm hs (slave_update args slaves starts s) cs (unfold slave_update in e)

  wait_shutdown-Calm :
      (rounds : List (List Happening)) (s : AppState)
      → All (All Calm) rounds
      → s.shutdown ≡ false
      → is_waiting (wait_shutdown args rounds s) ≡ true
  wait_shutdown-Calm [] s c e = unfold wait_shutdown in rw e refl
  wait_shutdown-Calm (hs ∷ rounds) s (c, cs) e =
      ap is_waiting (wait_shutdown_unset hs rounds s e)
      ∙ wait_shutdown-Calm rounds (watch args hs s) cs (watch-Calm hs s c e)

  started_lem :
      (w : World) (hardware : HardwareInfo) (d t : Disk) (s : AppState) (ts : List Task)
      (rounds : List (List Happening))
      → Run.run_worker w hardware d ≡ started (ready s ts) t
      → run_worker w hardware d args rounds ≡ wait_shutdown args rounds s
  unfolding run_worker after_start
  started_lem w hardware d t s ts rounds up = ap (after_start args rounds) up

  stays : (p : Progress) (a : App) → is_waiting p ≡ true → start_worker_background p a ≡ a
  unfolding start_worker_background
  stays (error e) a h = cc
  stays (waiting s) a h = refl
  stays (ended s) a h = cc

  -- A worker of the desktop application that has started its programs, an RPC server among them,
  -- with the flag not set, ends, with both programs taken and the flag set, once a tick of the
  -- monitor finds that the RPC server has exited, whatever else happens before and behind; and
  -- goes on waiting as long as no tick finds a program that has exited. Neither leaves the
  -- application, which stays as it is.
  pub run_worker-ended :
      (w : World) (hardware : HardwareInfo) (d t : Disk) (s : AppState) (ts : List Task)
      (before after rounds : List (List Happening)) (pre post : List Happening) (server : Wait)
      (a : App)
      → Run.run_worker w hardware d ≡ started (ready s ts) t
      → is_some s.rpc_process ≡ true
      → s.shutdown ≡ false
      → All (All Calm) rounds
      → let end =
          run_worker w hardware d args (before ++ (pre ++ tick exited server ∷ post) ∷ after) in
        let still = run_worker w hardware d args rounds in
        (end ≡ ended stopped)
        × (is_waiting still ≡ true)
        × (start_worker_background end a ≡ a)
        × (start_worker_background still a ≡ a)
  run_worker-ended w hardware d t s ts before after rounds pre post server a up rpc flag calm =
      let seen = before ++ (pre ++ tick exited server ∷ post) ∷ after in
      let end : run_worker w hardware d args seen ≡ ended stopped =
        started_lem w hardware d t s ts seen up
        ∙ wait_shutdown-exit before after pre post server s (ground (arith, rpc)) in
      let still : is_waiting (run_worker w hardware d args rounds) ≡ true =
        ap is_waiting (started_lem w hardware d t s ts rounds up)
        ∙ wait_shutdown-Calm rounds s calm flag in
      (
        end,
        still,
        ap (λ p. start_worker_background p a) end ∙ (unfold start_worker_background in refl),
        stays (run_worker w hardware d args rounds) a still,
      )
