-- ===== src/Apps/PyRuntime.antt =====
-- The runtime of kernel/python/py_runtime.h and py_runtime.c, which answers requests for pages. The page of
-- the desktop, a static text of 90 lines, is an argument; a response is a buffer of bytes, and a NULL
-- pointer is `none`.
pub mod Response
use operating_system_sctrach.Common.{
  ℕ, zero, suc, ◌+◌, ◌-◌, ◌*◌, ◌%◌, ◌^◌, List, [], ◌∷◌, Option, none, some, Bool, true, false, not,
  ◌&&◌, ◌||◌, ltb, leb, ◌==◌, if◌then◌else◌, length, take, get_or, codes, same_text,
}
use operating_system_sctrach.Common.Memory.{write}
use operating_system_sctrach.Strings.{write_bytes}

abbrev pub default_port : ℕ
default_port = 8000

pub record PyRuntimeStats : Type 0 where
  pub version : List ℕ
  pub heap_total_bytes : ℕ
  pub heap_used_bytes : ℕ
  pub loaded_modules : ℕ
  pub executed_bytecodes : ℕ
  pub is_initialized : ℕ
  pub django_active : ℕ
  pub django_port : ℕ

abbrev pub version_text : List ℕ
version_text = codes "Python 3.12.5 LTS (x86_64 Xenithra Kernel Embed)"

-- `py_runtime_start_django` and `py_runtime_stop_django`, which return 1.
unfoldable pub start_django : PyRuntimeStats → ℕ → PyRuntimeStats
start_django s port = record s {
  django_active = 1;
  django_port = if port == 0 then default_port else port;
}

unfoldable pub stop_django : PyRuntimeStats → PyRuntimeStats
stop_django s = record s { django_active = 0 }

-- `py_runtime_init`
unfoldable pub init : PyRuntimeStats → PyRuntimeStats
unfolding start_django
init s =
    start_django
      (record {
        version = version_text;
        heap_total_bytes = 128 * 1024 * 1024;
        heap_used_bytes = 24 * 1024 * 1024;
        loaded_modules = 18;
        executed_bytecodes = 0;
        is_initialized = 1;
        django_active = 0;
        django_port = default_port;
      })
      default_port

abbrev pub executed : ℕ → PyRuntimeStats → PyRuntimeStats
executed n s = record s { executed_bytecodes = (s.executed_bytecodes + n) % 2 ^ 32 }

-- `py_runtime_tick`; the mask of the test is 0x3FFF.
unfoldable pub tick : PyRuntimeStats → PyRuntimeStats
tick s =
    let s' = executed 128 s in
    if s.is_initialized == 0
    then s
    else if (s'.executed_bytecodes % 2 ^ 14 == 0) && ltb (30 * 1024 * 1024) s'.heap_used_bytes
    then record s' { heap_used_bytes = s'.heap_used_bytes - 512 * 1024 }
    else s'

-- `py_runtime_eval` and `py_runtime_exec_file`; whether the text is NULL is the second argument.
unfoldable pub eval : PyRuntimeStats → Bool → PyRuntimeStats × ℕ
eval s is_null = if is_null || (s.is_initialized == 0) then (s, 0) else (executed 32 s, 1)

unfoldable pub exec_file : PyRuntimeStats → Bool → PyRuntimeStats × ℕ
exec_file s is_null = if is_null || (s.is_initialized == 0) then (s, 0) else (executed 256 s, 1)

abbrev pub stats_json : List ℕ
stats_json =
    codes
      "{\"cpu_percent\":18.4,\"memory_used_mb\":24.8,\"memory_total_mb\":128.0,\"django_port\":8000,\"python_version\":\"3.12.5 LTS\",\"active_sessions\":1}"

abbrev pub router_json : List ℕ
router_json = codes "{\"status\":\"OK\",\"handler\":\"django_asgi_router\"}"

-- A text and its terminator at the start of the buffer.
unfoldable pub respond : (ℕ → ℕ) → List ℕ → ℕ → ℕ
respond out text = write (write_bytes out 0 text) (length text) 0

abbrev pub is_root : Option (List ℕ) → Bool
is_root none = true
is_root (some path) = same_text path (codes "/") || same_text path (codes "/index.html")

abbrev pub is_stats : Option (List ℕ) → Bool
is_stats none = false
is_stats (some path) = same_text path (codes "/api/system/stats")

-- A text that is only sent whole.
abbrev pub respond_whole : (ℕ → ℕ) → List ℕ → ℕ → ℕ → ℕ
respond_whole out text max = if ltb (length text) max then respond out text else out

-- `py_runtime_dispatch_http` for a request with a buffer `out` of `max` bytes.
unfoldable pub dispatch_http :
    List ℕ → PyRuntimeStats → Option (List ℕ) → (ℕ → ℕ) → ℕ → PyRuntimeStats × (ℕ → ℕ)
dispatch_http page s path out max =
    if max == 0
    then (s, out)
    else if is_root path
    then (
      executed 64 s,
      respond out (if ltb (length page) (max - 1) then page else take (max - 1) page),
    )
    else if is_stats path
    then (executed 64 s, respond_whole out stats_json max)
    else (executed 64 s, respond_whole out router_json max)
