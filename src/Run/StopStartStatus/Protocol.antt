-- ===== src/Run/StopStartStatus/Protocol.antt =====
-- The commands that were run are paired: what was stopped is started again before anything else is stopped.
use evobench.Prelude.{
  ◌≡◌, ◌⊎◌, inl, inr, refl, sym, ap, ◌∙◌, Bool, true, false, Option, none, some, List, [], ◌∷◌,
  if◌then◌else◌, arith,
}
use evobench.Prelude.Bytes.{Bytes, same, same_iff, same_refl}
use evobench.Prelude.Outcome.{Outcome, ok, err, panic, Act, map_err, ◌>>=◌}
use evobench.Prelude.Hoare.{Ends, Ends-mono}
use evobench.Prelude.Local.{outside}
use evobench.Prelude.Local.Steps.{bind-Ends, if-Ends}
use evobench.Run.StopStartStatus.{
  Command, same_command, same_option, StopStartStatus, host, start_word, stop_word, succeeded,
  run_command, run_if_some, be,
}

-- A command that succeeded, with its last word.
abbrev pub Event : Type 0
Event = Command × Bytes

-- What is stopped after the events, the last one first: none if they are not paired.
unfoldable pub step : Event → Option (Option Command) → Option (Option Command)
unfolding same_command
step e none = none
step (c, word) (some none) = if same word stop_word then some (some c) else none
step (c, word) (some (some d)) =
    if same word start_word then (if same_command c d then some none else none) else none

unfoldable pub replay : List Event → Option (Option Command)
unfolding step
replay [] = some none
replay (e ∷ log) = step e (replay log)

same_command_refl : (c : Command) → same_command c c ≡ true
unfolding same_command
same_command_refl [] = refl
same_command_refl (a ∷ l) = rw (same_refl a) (same_command_refl l)

same_command-eq : (c d : Command) → same_command c d ≡ true → c ≡ d
unfolding same_command
same_command-eq [] [] h = refl
same_command-eq [] (b ∷ r) h = cc
same_command-eq (a ∷ l) [] h = cc
same_command-eq (a ∷ l) (b ∷ r) h = ground (arith, same_command-eq l r, same_iff a b)

same_option-eq : (o p : Option Command) → same_option o p ≡ true → o ≡ p
unfolding same_option
same_option-eq none none h = refl
same_option-eq none (some d) h = cc
same_option-eq (some c) none h = cc
same_option-eq (some c) (some d) h = ap some (same_command-eq c d h)

module _ {W E : Type 0} (status : Command → Bytes → Act W E Bool) where
  abbrev pub note : Event → Outcome E Bool × W → List Event → Outcome E Bool × (List Event × W)
  note e (ok true, w) log = (ok true, (e ∷ log, w))
  note e (ok false, w) log = (ok false, (log, w))
  note e (err x, w) log = (err x, (log, w))
  note e (panic, w) log = (panic, (log, w))

  -- Running programs, with a log of those that succeeded.
  abbrev pub logged : Command → Bytes → Act (List Event × W) E Bool
  logged c word (log, w) = note (c, word) (status c word w) log

  noted :
      (e : Event) (st : StopStartStatus) (log : List Event) (w : W) (x : Outcome E Bool × W)
      → Ends
          (λ _ sw. (sw.0 ≡ st) × (sw.1.0 ≡ e ∷ log))
          (λ sw. (sw.0 ≡ st) × (sw.1.0 ≡ log))
          ((outside (map_err (λ _. note e x log) host) >>= succeeded logged) (st, (log, w)))
  unfolding succeeded
  noted e st log w (ok true, w') = (refl, refl)
  noted e st log w (ok false, w') = (refl, refl)
  noted e st log w (err x, w') = (refl, refl)
  noted e st log w (panic, w') = (refl, refl)

  -- The command succeeded and was logged, or nothing was logged.
  run_command-Ends :
      (c : Command) (word : Bytes) (st : StopStartStatus) (log : List Event) (w : W)
      → Ends
          (λ _ sw. (sw.0 ≡ st) × (sw.1.0 ≡ (c, word) ∷ log))
          (λ sw. (sw.0 ≡ st) × (sw.1.0 ≡ log))
          (run_command logged c word (st, (log, w)))
  unfolding run_command
  run_command-Ends [] word st log w = (refl, refl)
  run_command-Ends (c ∷ cs) word st log w = noted (c ∷ cs, word) st log w (status (c ∷ cs) word w)

  -- What is stopped is started again.
  run_start :
      (o : Option Command) (st : StopStartStatus) (log : List Event) (w : W)
      → replay log ≡ some o
      → Ends
          (λ _ sw. (sw.0 ≡ st) × (replay sw.1.0 ≡ some none))
          (λ sw. (sw.0 ≡ st) × (replay sw.1.0 ≡ some o))
          (run_if_some logged o start_word (st, (log, w)))
  unfolding run_if_some replay step
  run_start none st log w h = (refl, h)
  run_start (some c) st log w h =
      Ends-mono (run_command logged c start_word (st, (log, w)))
        (run_command-Ends c start_word st log w)
        (λ _ sw (e, l). (e, ap replay l ∙ ap (step (c, start_word)) h ∙ started))
        (λ sw (e, l). (e, ap replay l ∙ h))
    where
      started : step (c, start_word) (some (some c)) ≡ some none
      started = rw (same_refl start_word) (rw (same_command_refl c) refl)

  -- Where nothing is stopped, the command is.
  run_stop :
      (o : Option Command) (st : StopStartStatus) (log : List Event) (w : W)
      → replay log ≡ some none
      → Ends
          (λ _ sw. (sw.0 ≡ st) × (replay sw.1.0 ≡ some o))
          (λ sw. (sw.0 ≡ st) × (replay sw.1.0 ≡ some none))
          (run_if_some logged o stop_word (st, (log, w)))
  unfolding run_if_some replay step
  run_stop none st log w h = (refl, h)
  run_stop (some c) st log w h =
      Ends-mono (run_command logged c stop_word (st, (log, w)))
        (run_command-Ends c stop_word st log w)
        (λ _ sw (e, l). (e, ap replay l ∙ ap (step (c, stop_word)) h ∙ stopped))
        (λ sw (e, l). (e, ap replay l ∙ h))
    where
      stopped : step (c, stop_word) (some none) ≡ some (some c)
      stopped = rw (same_refl stop_word) refl

  -- Where the commands that succeeded so far are paired and leave stopped what is recorded, they are paired
  -- after the call too. After a success the given command is stopped and recorded. After an error or a
  -- panic the record is unchanged, and either it still says what is stopped, or nothing is.
  pub be_lem :
      (stop_start : Option Command) (st : StopStartStatus) (log : List Event) (w : W)
      → replay log ≡ some (st.current_stop_start)
      → Ends
          (λ _ sw. (sw.0.current_stop_start ≡ stop_start) × (replay sw.1.0 ≡ some stop_start))
          (λ sw.
            (sw.0 ≡ st)
            × ((replay sw.1.0 ≡ some (st.current_stop_start)) ⊎ (replay sw.1.0 ≡ some none)))
          (be logged stop_start (st, (log, w)))
  unfolding be
  be_lem stop_start st log w h =
      if-Ends _ _ (same_option stop_start st.current_stop_start) _ _ (st, (log, w))
        (λ same.
          let e : stop_start ≡ st.current_stop_start = same_option-eq _ _ same in
          (sym e, h ∙ ap some (sym e)))
        (λ _.
          bind-Ends _ _ (λ _ sw. (sw.0 ≡ st) × (replay sw.1.0 ≡ some none))
            (run_if_some logged st.current_stop_start start_word) _ (st, (log, w))
            (Ends-mono (run_if_some logged st.current_stop_start start_word (st, (log, w)))
              (run_start st.current_stop_start st log w h) (λ _ sw k. k) (λ sw (e, r). (e, inl r)))
            (λ _ (st', (log', w')) (e, r).
              bind-Ends _ _ (λ _ sw. replay sw.1.0 ≡ some stop_start)
                (run_if_some logged stop_start stop_word) _ (st', (log', w'))
                (Ends-mono (run_if_some logged stop_start stop_word (st', (log', w')))
                  (run_stop stop_start st' log' w' r) (λ _ sw k. k.1)
                  (λ sw (e', r'). (e' ∙ e, inr r')))
                (λ _ sw r'. (refl, r'))))
