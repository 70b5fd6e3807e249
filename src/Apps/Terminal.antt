-- ===== src/Apps/Terminal.antt =====
-- The terminal of kernel/apps/terminal_app.c. The array of lines is the list of the lines in use, the
-- input is the text in its buffer. A local array that a text does not fit into is overrun, which is `none`:
-- from there on C promises nothing. Painting is left out; the routines of callbacks are numbers.
pub mod Overrun
pub mod Lines
use operating_system_sctrach.Common.{
  ℕ, zero, suc, ◌+◌, ◌-◌, List, [], ◌∷◌, ◌++◌, Option, none, some, Bool, true, false, not, ◌&&◌,
  ◌||◌, ltb, leb, ◌==◌, if◌then◌else◌, length, take, drop, codes, copy_text, same_text,
}
use operating_system_sctrach.Common.Decimal.{decimal}
use operating_system_sctrach.Common.Int.{pos}
use operating_system_sctrach.Firewall.{FirewallStats}
use operating_system_sctrach.Desktop.Windows
use operating_system_sctrach.Desktop.Windows.{Compositor}

abbrev pub max_term_lines : ℕ
max_term_lines = 18

abbrev pub max_line_len : ℕ
max_line_len = 72

pub record Terminal : Type 0 where
  pub lines : List (List ℕ)
  pub input : List ℕ

-- `term_add_line`
unfoldable pub term_add_line : Terminal → List ℕ → Terminal
term_add_line t str =
    let line = copy_text (max_line_len - 1) str in
    if ltb (length t.lines) max_term_lines
    then record t { lines = t.lines ++ (line ∷ []) }
    else record t { lines = drop 1 t.lines ++ (line ∷ []) }

unfoldable pub add_lines : Terminal → List (List ℕ) → Terminal
add_lines t [] = t
add_lines t (l ∷ ls) = add_lines (term_add_line t l) ls

-- `term_init_history`
unfoldable pub init_history : Terminal → Terminal
init_history t =
    add_lines (record t { lines = [] })
      (codes "Xenithra OS 64-bit Microkernel Interactive Shell v1.0"
        ∷ codes "[+] Hardware SMEP/SMAP Active | 4-Level Paging Enforced"
        ∷ codes "[+] Anti-Hijack Guard Online | Private Stateful Firewall Active"
        ∷ codes "Type 'help' for available kernel commands."
        ∷ []
        ∷ [])

-- A text in a local array of `n` bytes, which holds its terminator too.
unfoldable pub in_array : ℕ → List ℕ → Option (List ℕ)
in_array n text = if ltb (length text) n then some text else none

abbrev pub prompt : List ℕ
prompt = codes "[xenithra@kernel ~]# "

abbrev pub help_lines : List (List ℕ)
help_lines =
    codes "Built-in Commands:"
    ∷ codes "  help      - Display this command reference"
    ∷ codes "  uname -a  - Kernel version and CPU security status"
    ∷ codes "  ls / dir  - List root storage files and directories"
    ∷ codes "  ps        - List active processes and privilege rings"
    ∷ codes "  firewall  - Display packet filter statistics"
    ∷ codes "  sessions  - Display anti-hijack session security tokens"
    ∷ codes "  clear/cls - Clear the terminal output console"
    ∷ []

abbrev pub uname_lines : List (List ℕ)
uname_lines =
    codes "XenithraOS 64-bit Microkernel (x86_64) SMP Hardened #1 Mon"
    ∷ codes "Security: SMEP+SMAP Enforced | Higher-Half Base 0xFFFFFFFF80000000"
    ∷ []

abbrev pub dir_lines : List (List ℕ)
dir_lines =
    codes "C:\\ Directory Contents:"
    ∷ codes "  <DIR> EFI           <DIR> XENITHRA      <DIR> System32"
    ∷ codes "  <DIR> Users         <DIR> Security      45424 KERNEL.ELF"
    ∷ codes "  65536 kernel.sys    1024  readme.txt    (48.2 MB Free)"
    ∷ []

abbrev pub ps_lines : List (List ℕ)
ps_lines =
    codes "PID  NAME                RING    CPU%  MEM     STATUS"
    ∷ codes "0    System Core         Ring 0  4%    16MB    Running"
    ∷ codes "1    csrss.exe           Ring 0  6%    28MB    Running"
    ∷ codes "2    firewall_guard.exe  Ring 0  1%    8MB     Running"
    ∷ codes "3    explorer.exe        Ring 3  3%    24MB    Running"
    ∷ codes "4    taskmgr.exe         Ring 3  2%    12MB    Running"
    ∷ []

-- What the counters of the system are when a command runs.
pub record Counters : Type 0 where
  pub stats : FirewallStats
  pub active_sessions : ℕ
  pub blocked_hijacks : ℕ

abbrev pub add_text : Terminal → Option (List ℕ) → Option Terminal
add_text t none = none
add_text t (some text) = some (term_add_line t text)

-- A number goes through an array of 16 bytes, and the text that holds it into one of 64.
abbrev pub with_number : Option (List ℕ) → List ℕ → ℕ → Option (List ℕ)
with_number none label n = none
with_number (some text) label n = elim (in_array 16 (decimal 20 n)) [
  | none ↦ none
  | some digits ↦ in_array 64 (text ++ (label ++ digits))
]

unfoldable pub firewall_text : Counters → Option (List ℕ)
firewall_text c =
    with_number
      (with_number (some []) (codes "Firewall: Running (Stealth Mode: Active) | Inspected: ")
        c.stats.total_inspected)
      (codes " | Dropped: ") c.stats.total_blocked

unfoldable pub sessions_text : Counters → Option (List ℕ)
sessions_text c =
    with_number
      (with_number (some []) (codes "Anti-Hijack Guard: Active Sessions = ") c.active_sessions)
      (codes " | Intercepted Hijacks = ") c.blocked_hijacks

unfoldable pub unknown_text : List ℕ → Option (List ℕ)
unknown_text cmd =
    in_array max_line_len
      (codes "Command not found: '" ++ (cmd ++ codes "'. Type 'help' for command list."))

abbrev pub is_command : List ℕ → List ℕ → List ℕ → Bool
is_command name other cmd = same_text cmd name || same_text cmd other

-- The commands, once the echo is written.
unfoldable pub answer : Counters → Terminal → List ℕ → Option Terminal
answer c t cmd =
    if same_text cmd (codes "help")
    then some (add_lines t help_lines)
    else if is_command (codes "uname") (codes "uname -a") cmd
    then some (add_lines t uname_lines)
    else if is_command (codes "ls") (codes "dir") cmd
    then some (add_lines t dir_lines)
    else if is_command (codes "ps") (codes "top") cmd
    then some (add_lines t ps_lines)
    else if is_command (codes "firewall") (codes "firewall-cmd --status") cmd
    then add_text t (firewall_text c)
    else if same_text cmd (codes "sessions")
    then add_text t (sessions_text c)
    else if is_command (codes "clear") (codes "cls") cmd
    then some (record t { lines = [] })
    else if ltb 0 (length cmd)
    then add_text t (unknown_text cmd)
    else some t

abbrev pub after : {A B : Type 0} → Option A → (A → Option B) → Option B
after none k = none
after (some a) k = k a

unfoldable pub execute_command : Counters → Terminal → List ℕ → Option Terminal
execute_command c t cmd =
    after (in_array max_line_len (prompt ++ cmd)) (λ echo. answer c (term_add_line t echo) cmd)

-- The input buffer has 64 bytes, and keeps the last two for the cursor and the terminator.
abbrev pub max_input : ℕ
max_input = 62

abbrev pub without_last : List ℕ → List ℕ
without_last s = take (length s - 1) s

abbrev pub cleared : Terminal → Terminal
cleared t = record t { input = [] }

-- `on_terminal_key`
unfoldable pub on_terminal_key : Counters → Terminal → ℕ → Option Terminal
on_terminal_key c t ascii =
    if (ascii == 10) || (ascii == 13)
    then after (execute_command c t t.input) (λ t'. some (cleared t'))
    else if ascii == 8
    then some (record t { input = without_last t.input })
    else if leb 32 ascii && leb ascii 126
    then some
        (if ltb (length t.input) max_input then record t { input = t.input ++ (ascii ∷ []) } else t)
    else some t

-- `terminal_app_launch`; `paint` and `key` are the terminal's callbacks.
unfoldable pub launch : ℕ → ℕ → Terminal → Compositor → Terminal × Compositor × Option ℕ
launch paint key t c =
    let t' = if length t.lines == 0 then init_history t else t in
    let (c', win) = Windows.create c (record {
      title = codes "Diagnostic Terminal Console";
      app_tag = some (codes "terminal");
      x = pos 180;
      y = pos 140;
      w = pos 680;
      h = pos 380;
      on_paint = paint;
      user_data = 0;
    }) in
    (t', Windows.set_callbacks c' win key 0, win)
