-- ===== src/Run/StopStartStatus.antt =====
-- The commands that stop something while jobs run, and start it again: evobench-tools/src/run/stop_start_status.rs.
-- Running a program is an argument: it is given the words of the command and the last word.
pub mod Protocol
use evobench.Prelude.{Bool, true, false, ◌&&◌, Option, none, some, List, [], ◌∷◌, if◌then◌else◌}
use evobench.Prelude.Bytes.{Bytes, codes, same}
use evobench.Prelude.Outcome.{Act, pure, fail, crash, map_err, ◌>>=◌, ◌>>◌}
use evobench.Prelude.Local.{outside, get, modify}

abbrev pub Command : Type 0
Command = List Bytes

unfoldable pub same_command : Command → Command → Bool
same_command [] [] = true
same_command [] (b ∷ r) = false
same_command (a ∷ l) [] = false
same_command (a ∷ l) (b ∷ r) = same a b && same_command l r

-- The derived equality of options.
unfoldable pub same_option : Option Command → Option Command → Bool
unfolding same_command
same_option none none = true
same_option none (some d) = false
same_option (some c) none = false
same_option (some c) (some d) = same_command c d

pub record StopStartStatus : Type 0 where
  pub current_stop_start : Option Command

pub data RunCommandError (E : Type 0) : Type 0 where
  host : E → RunCommandError E
  command_failed : RunCommandError E

abbrev pub start_word : Bytes
start_word = codes "start"

abbrev pub stop_word : Bytes
stop_word = codes "stop"

module _ {W E : Type 0} (status : Command → Bytes → Act W E Bool) where
  abbrev pub Do : Type 0 → Type 0
  Do A = Act (StopStartStatus × W) (RunCommandError E) A

  succeeded : Bool → Do (Unit {0})
  succeeded true = pure tt
  succeeded false = fail command_failed

  -- An empty command fails an assertion.
  run_command : Command → Bytes → Do (Unit {0})
  unfolding succeeded
  run_command [] start_stop = crash
  run_command (c ∷ cmd) start_stop = do
    good ← outside (map_err (status (c ∷ cmd) start_stop) host)
    succeeded good

  run_if_some : Option Command → Bytes → Do (Unit {0})
  unfolding run_command
  run_if_some none start_stop = pure tt
  run_if_some (some cmd) start_stop = run_command cmd start_stop

  -- The new command is current only when it was stopped.
  unfoldable pub be : Option Command → Do (Unit {0})
  unfolding run_if_some
  be stop_start = do
    st ← get
    (if same_option stop_start st.current_stop_start then pure tt else (do
      run_if_some st.current_stop_start start_word
      run_if_some stop_start stop_word
      modify (λ st'. record st' { current_stop_start = stop_start })))
