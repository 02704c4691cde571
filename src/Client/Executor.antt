-- ===== src/Client/Executor.antt =====
-- agent/executor/service.py: `ServiceExecutor`.
pub mod Controlled
use Prim.Native.String.{◌++◌ as str_append}
use ops_monitor.Tasks.Retry.{text_or, is_one_of}
use ops_monitor.Common.{
  Bool, List, String, ℕ, Option, ◌∷◌, if◌then◌else◌, false, some, get_or, [], str_eq, true, not,
  ◌++◌, none, ◌==◌,
}
use ops_monitor.Common.Int.{ℤ, pos}

-- What `subprocess.run` does: a process that ended, a time-out, an OSError or another
-- SubprocessError with its text, or a ValueError (output that is not UTF-8) or another exception.
pub data Ran : Type 0 where
  completed : (returncode : ℤ) → (stdout stderr : String) → Ran
  timeout_expired os_error value_error other_error : String → Ran

-- What is returned, or the text of a ValueError or of another exception.
pub data Executed : Type 0 where
  returned : (success : Bool) → (output : String) → Executed
  invalid : String → Executed
  failed_with : String → Executed

-- `subprocess.run` with a time limit in seconds, `str.strip`, and `str` of a number.
pub record Shell (World : Type 0) : Type 0 where
  pub run : (command : List String) → (timeout : ℕ) → World → Ran × World
  pub strip : String → String
  pub str_of : ℕ → String

-- `ALLOWED_ACTIONS` and `ACTION_COMMANDS`
abbrev pub allowed_actions : List String
allowed_actions = "STATUS" ∷ "START" ∷ "STOP" ∷ "RESTART" ∷ []

-- The command of an allowed action.
unfoldable pub action_command : String → List String
action_command action =
    if str_eq action "STATUS"
    then "systemctl" ∷ "is-active" ∷ []
    else if str_eq action "START"
    then "systemctl" ∷ "start" ∷ []
    else if str_eq action "STOP"
    then "systemctl" ∷ "stop" ∷ []
    else "systemctl" ∷ "restart" ∷ []

abbrev pub log_lines_default : ℕ
log_lines_default = 200

-- `str` of what may be None, and `a in b` for it.
abbrev pub shown : Option String → String
shown none = "None"
shown (some t) = t

abbrev pub is_among : List String → Option String → Bool
is_among allowed none = false
is_among allowed (some t) = is_one_of allowed t

abbrev pub is_zero : ℤ → Bool
is_zero (pos n) = n == 0
is_zero _ = false

-- None, or the text of the ValueError. The names of a task may be None.
unfoldable pub validate : (allowed : List String) → (service action : Option String) → Option String
validate allowed service action =
    if not (is_among allowed service)
    then some (str_append "服务 " (str_append (shown service) " 不在白名单内，拒绝执行"))
    else if not (is_among allowed_actions action)
    then some (str_append "不允许的操作类型: " (shown action))
    else none

-- What follows a call of `validate`: nothing is run after a ValueError.
abbrev pub unless_invalid :
    {World : Type 0} → Option String → World → Executed × World → Executed × World
unless_invalid none w r = r
unless_invalid (some text) w r = (invalid text, w)

module _ {World : Type 0} (shell : Shell World) (allowed : List String) where
  -- What is made of a run of systemctl.
  unfoldable pub action_outcome : (timeout : ℕ) → Ran → Executed
  action_outcome timeout (completed code stdout stderr) =
      if is_zero code
      then returned true (shell.strip stdout)
      else returned false (shell.strip (text_or (some stderr) stdout))
  action_outcome timeout (timeout_expired _) =
      returned false (str_append "执行超时（" (str_append (shell.str_of timeout) "s）"))
  action_outcome timeout (os_error text) = returned false (str_append "执行失败: " text)
  action_outcome timeout (value_error text) = invalid text
  action_outcome timeout (other_error text) = failed_with text

  unfoldable pub run_action :
      (service action : Option String) → (timeout : ℕ) → World → Executed × World
  unfolding validate action_outcome action_command
  run_action service action timeout w =
      let r = shell.run (action_command (shown action) ++ shown service ∷ []) timeout w in
      unless_invalid (validate allowed service action) w (action_outcome timeout r.0, r.1)

  -- What is made of a run of journalctl.
  unfoldable pub logs_outcome : Ran → Executed
  logs_outcome (completed code stdout stderr) =
      returned (is_zero code) (shell.strip (text_or (some stdout) stderr))
  logs_outcome (timeout_expired text) = returned false (str_append "获取日志失败: " text)
  logs_outcome (os_error text) = returned false (str_append "获取日志失败: " text)
  logs_outcome (value_error text) = invalid text
  logs_outcome (other_error text) = failed_with text

  unfoldable pub fetch_logs : (service : Option String) → World → Executed × World
  unfolding validate logs_outcome
  fetch_logs service w =
      let r =
        shell.run
          ("journalctl"
            ∷ "-n"
            ∷ shell.str_of log_lines_default
            ∷ "-u"
            ∷ shown service
            ∷ "--no-pager"
            ∷ [])
          30 w in
      unless_invalid (validate allowed service (some "STATUS")) w (logs_outcome r.0, r.1)
