-- ===== src/Client/Executor/Controlled.antt =====
-- Which commands the executor runs.
use ops_monitor.Common.Table.Elements.{any-Has}
use ops_monitor.Tasks.Retry.{is_one_of}
use ops_monitor.Common.Table.Laws.{Has}
use ops_monitor.Client.Executor.{
  Shell, validate, shown, allowed_actions, is_among, action_command, run_action, fetch_logs,
  Executed, unless_invalid, log_lines_default, action_outcome, logs_outcome,
}
use ops_monitor.Common.{
  List, String, ℕ, ◌∷◌, ◌≡◌, Option, [], true, none, str_eq, eq_iff, some, subst, sym, Bool-cases,
  ◌++◌, inr, inl, arith, refl,
}

-- The commands that an agent with a whitelist may run: systemctl with one of four verbs, or
-- journalctl, for a service of the whitelist.
pub data IsControlled (allowed : List String) : List String → Type 0 where
  controls :
      (verb service : String)
      → Has verb ("is-active" ∷ "start" ∷ "stop" ∷ "restart" ∷ [])
      → Has service allowed
      → IsControlled allowed ("systemctl" ∷ verb ∷ service ∷ [])
  reads_logs :
      (lines service : String)
      → Has service allowed
      → IsControlled allowed ("journalctl" ∷ "-n" ∷ lines ∷ "-u" ∷ service ∷ "--no-pager" ∷ [])

module _ {World : Type 0} (shell : Shell World) (allowed : List String) where
  -- The world changes by at most one run, of a controlled command.
  pub data Runs (w : World) : World → Type 0 where
    nothing : Runs w w
    one :
        (command : List String) (timeout : ℕ)
        → IsControlled allowed command
        → Runs w (shell.run command timeout w).1

  is_one_of-Has : (xs : List String) (t : String) → is_one_of xs t ≡ true → Has t xs
  is_one_of-Has xs t h =
      let r = any-Has (str_eq t) xs h in
      let e = (eq_iff t r.0).0 r.1.1 in subst (λ u. Has u xs) (sym e) r.1.0

  valid :
      (service action : Option String)
      → validate allowed service action ≡ none
      → Has (shown service) allowed × Has (shown action) allowed_actions
  unfolding validate
  valid service action h = elim (Bool-cases (is_among allowed service)) [
    | inr n ↦ absurd (ground arith)
    | inl t ↦ elim (Bool-cases (is_among allowed_actions action)) [
      | inr n ↦ absurd (ground arith)
      | inl u ↦ (among-Has allowed service t, among-Has allowed_actions action u)
    ]
  ]
    where
      among-Has : (xs : List String) (o : Option String) → is_among xs o ≡ true → Has (shown o) xs
      among-Has xs none q = cc
      among-Has xs (some t) q = is_one_of-Has xs t q

  command-IsControlled :
      (service action : String)
      → Has service allowed
      → Has action allowed_actions
      → IsControlled allowed (action_command action ++ service ∷ [])
  unfolding action_command
  command-IsControlled service action h (inl q) = rw q (controls "is-active" service (inl refl) h)
  command-IsControlled service action h (inr (inl q)) =
      rw q (controls "start" service (inr (inl refl)) h)
  command-IsControlled service action h (inr (inr (inl q))) =
      rw q (controls "stop" service (inr (inr (inl refl))) h)
  command-IsControlled service action h (inr (inr (inr (inl q)))) =
      rw q (controls "restart" service (inr (inr (inr (inl refl)))) h)
  command-IsControlled service action h (inr (inr (inr (inr x)))) = absurd x

  -- A call on the executor, of any service and action, None included, changes the world by nothing or
  -- by one run of a controlled command: `systemctl is-active`, `start`, `stop` or `restart`, or
  -- `journalctl`, for a service of the whitelist and with no argument besides.
  pub executor-Runs :
      (service action : Option String) (timeout : ℕ) (w : World)
      → Runs w (run_action shell allowed service action timeout w).1
        × Runs w (fetch_logs shell allowed service w).1
  unfolding run_action fetch_logs
  executor-Runs service action timeout w =
      let r = shell.run (action_command (shown action) ++ shown service ∷ []) timeout w in
      let l =
        shell.run
          ("journalctl"
            ∷ "-n"
            ∷ shell.str_of log_lines_default
            ∷ "-u"
            ∷ shown service
            ∷ "--no-pager"
            ∷ [])
          30 w in
      (
        go (validate allowed service action) (action_outcome shell allowed timeout r.0, r.1) refl
            (λ v.
              let h = valid service action v in
              one _ timeout (command-IsControlled (shown service) (shown action) h.0 h.1)),
        go (validate allowed service (some "STATUS")) (logs_outcome shell allowed l.0, l.1) refl
            (λ v.
              let h = valid service (some "STATUS") v in
              one _ 30 (reads_logs (shell.str_of log_lines_default) (shown service) h.0)),
      )
    where
      go :
          (o : Option String) {p : Option String} (r : Executed × World)
          → p ≡ o
          → (p ≡ none → Runs w r.1)
          → Runs w (unless_invalid o w r).1
      go none r q k = k q
      go (some t) r q k = nothing
