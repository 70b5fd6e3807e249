-- ===== src/Apps/Tests.antt =====
-- Runs of the programs of kernel/apps/ and kernel/python/.
use operating_system_sctrach.Common.{
  ℕ, ◌≤◌, ◌≡◌, ◌⊎◌, refl, List, [], ◌∷◌, none, some, false, length, take, codes, copy_text,
  same_text, arith,
}
use operating_system_sctrach.Apps.Terminal.{
  Terminal, Counters, unknown_text, execute_command, on_terminal_key, in_array, answer,
  term_add_line,
}
use operating_system_sctrach.Apps.Terminal.Overrun.{Overruns, execute_command-Overruns}
use operating_system_sctrach.Apps.Terminal.Lines.{Returns, IsTerminal, on_terminal_key-Returns}
use operating_system_sctrach.Apps.PyRuntime.{PyRuntimeStats, dispatch_http, is_root}
use operating_system_sctrach.Apps.PyRuntime.Response.{Holds, body, dispatch_http-body}

abbrev counters : Counters
counters = record {
  stats = record {
    total_inspected = 0;
    total_allowed = 0;
    total_blocked = 0;
    active_rules_count = 0;
    stealth_mode_enabled = 1;
    firewall_active = 1;
  };
  active_sessions = 1;
  blocked_hijacks = 0;
}

abbrev typing : List ℕ → Terminal
typing text = record { lines = codes "Type 'help'" ∷ []; input = text }

execute_command-Overruns_example : execute_command counters (typing []) (codes "firewall") ≡ none
execute_command-Overruns_example =
    execute_command-Overruns counters (typing []) (codes "firewall") Overruns.firewall

typing_ps : IsTerminal (typing (codes "ps"))
typing_ps = record { few = omega arith; short = (omega arith, tt); room = omega arith }

on_terminal_key-Returns_example : Returns (on_terminal_key counters (typing (codes "ps")) 10)
on_terminal_key-Returns_example =
    on_terminal_key-Returns counters (typing (codes "ps")) 10 (λ _. (omega arith, λ e. cc, λ e. cc))
      typing_ps

unknown_run :
    execute_command counters (typing []) (codes "pwd")
    ≡ some (record {
      lines =
          codes "Type 'help'"
          ∷ codes "[xenithra@kernel ~]# pwd"
          ∷ codes "Command not found: 'pwd'. Type 'help' for command list."
          ∷ [];
      input = [];
    })
unfolding execute_command answer in_array term_add_line same_text copy_text unknown_text
unknown_run = refl

abbrev no_stats : PyRuntimeStats
no_stats = record {
  version = [];
  heap_total_bytes = 0;
  heap_used_bytes = 0;
  loaded_modules = 0;
  executed_bytecodes = 0;
  is_initialized = 1;
  django_active = 1;
  django_port = 8000;
}

dispatch_http-body_run :
    let (_, out') =
      dispatch_http (codes "<!DOCTYPE html>") no_stats (some (codes "/")) (λ _. 255) 8 in
    (out' 8 ≡ 255)
    × (((is_root (some (codes "/")) ≡ false)
          × (8 ≤ length (body (codes "<!DOCTYPE html>") (some (codes "/"))))
          × (out' ≡ (λ _. 255)))
        ⊎ Holds out' (take 7 (body (codes "<!DOCTYPE html>") (some (codes "/")))))
dispatch_http-body_run =
    dispatch_http-body (codes "<!DOCTYPE html>") no_stats (some (codes "/")) (λ _. 255) 8 8
      (omega arith) (omega arith)
