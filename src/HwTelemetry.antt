-- ===== src/HwTelemetry.antt =====
-- c/src/hw_telemetry.c: the performance counters of the calling thread, over the descriptors of
-- `perf_event_open`.
pub mod Calls
pub mod Balance
use hybrid_pqc_benchmarking.Prelude.{
  ℕ, zero, suc, Bool, true, false, Option, none, some, List, [], ◌∷◌, ◌++◌, ltb, if◌then◌else◌,
}
use hybrid_pqc_benchmarking.Prelude.Int.{ℤ, pos, negsuc, leb_ℤ}

-- The type and the configuration of a counter.
pub data Event : Type 0 where
  cpu_cycles instructions l1d_read_miss ll_read_miss cache_misses : Event
  context_switches cpu_migrations page_faults : Event

-- The calls on a descriptor.
pub data Op : Type 0 where
  op_reset op_enable op_disable op_read op_close : Op

pub record Call : Type 0 where
  pub op : Op
  pub fd : ℤ

-- The answers to the next `perf_event_open` calls, where -1 is a failure, and to the next reads,
-- where `none` is one; the descriptors handed out, and the calls made on descriptors.
pub record Os : Type 0 where
  pub opens : List ℤ
  pub counts : List (Option ℕ)
  pub opened : List ℤ
  pub calls : List Call

abbrev pub keep : ℤ → List ℤ
keep fd = if leb_ℤ (pos 0) fd then fd ∷ [] else []

abbrev next_open : List ℤ → ℤ × List ℤ
next_open [] = (negsuc 0, [])
next_open (r ∷ rs) = (r, rs)

-- Which counter it is makes no difference to the descriptor.
unfoldable pub open_single_counter : Event → Os → ℤ × Os
open_single_counter e os =
    let (r, rs) = next_open os.opens in (r, record os { opens = rs; opened = os.opened ++ keep r })

abbrev pub made : Op → ℤ → Os → Os
made o fd os = record os { calls = os.calls ++ (record { op = o; fd = fd } ∷ []) }

pub record HwTelemetrySession : Type 0 where
  pub fd_cycles : ℤ
  pub fd_instructions : ℤ
  pub fd_l1_miss : ℤ
  pub fd_l2_miss : ℤ
  pub fd_context_switches : ℤ
  pub fd_cpu_migrations : ℤ
  pub fd_page_faults : ℤ
  pub is_active : Bool

-- After `memset(sess, 0, sizeof(*sess))`: 0 is a valid descriptor.
abbrev pub zero_session : HwTelemetrySession
zero_session = record {
  fd_cycles = pos 0;
  fd_instructions = pos 0;
  fd_l1_miss = pos 0;
  fd_l2_miss = pos 0;
  fd_context_switches = pos 0;
  fd_cpu_migrations = pos 0;
  fd_page_faults = pos 0;
  is_active = false;
}

-- The last-level misses, or the general ones where the machine does not have that counter.
unfoldable pub open_l2_miss : Os → ℤ × Os
unfolding open_single_counter
open_l2_miss os =
    let (r, os1) = open_single_counter ll_read_miss os in
    if leb_ℤ (pos 0) r then (r, os1) else open_single_counter cache_misses os1

unfoldable pub hw_telemetry_init : Os → HwTelemetrySession × Os
unfolding open_l2_miss
hw_telemetry_init os =
    let (cycles, os1) = open_single_counter cpu_cycles os in
    let (instrs, os2) = open_single_counter instructions os1 in
    let (l1, os3) = open_single_counter l1d_read_miss os2 in
    let (l2, os4) = open_l2_miss os3 in
    let (switches, os5) = open_single_counter context_switches os4 in
    let (migrations, os6) = open_single_counter cpu_migrations os5 in
    let (faults, os7) = open_single_counter page_faults os6 in
    (
      record {
        fd_cycles = cycles;
        fd_instructions = instrs;
        fd_l1_miss = l1;
        fd_l2_miss = l2;
        fd_context_switches = switches;
        fd_cpu_migrations = migrations;
        fd_page_faults = faults;
        is_active = true;
      },
      os7,
    )

-- A block for each of the seven counters, in the order of the source.
abbrev pub each_counter : (ℤ → Os → Os) → HwTelemetrySession → Os → Os
each_counter f s os = f s.fd_page_faults (
    f s.fd_cpu_migrations (
      f s.fd_context_switches
        (f s.fd_l2_miss (f s.fd_l1_miss (f s.fd_instructions (f s.fd_cycles os))))))

unfoldable pub start_counter : ℤ → Os → Os
start_counter fd os = if leb_ℤ (pos 0) fd then made op_enable fd (made op_reset fd os) else os

unfoldable pub hw_telemetry_start : HwTelemetrySession → Os → Os
unfolding start_counter
hw_telemetry_start s os = if s.is_active then each_counter start_counter s os else os

-- A result: `ipc` is instructions over cycles, `none` the 0.0 without cycles.
pub record HwTelemetryResult : Type 0 where
  pub cpu_cycles : ℕ
  pub instructions : ℕ
  pub ipc : Option (ℕ × ℕ)
  pub l1_cache_misses : ℕ
  pub l2_cache_misses : ℕ
  pub context_switches : ℕ
  pub cpu_migrations : ℕ
  pub page_faults : ℕ

-- A read that fails leaves the 0 of the `memset`.
abbrev next_count : List (Option ℕ) → ℕ × List (Option ℕ)
next_count [] = (0, [])
next_count (none ∷ cs) = (0, cs)
next_count (some n ∷ cs) = (n, cs)

unfoldable pub read_counter : ℤ → Os → ℕ × Os
read_counter fd os =
    let (n, cs) = next_count os.counts in
    if leb_ℤ (pos 0) fd
    then (n, record (made op_read fd (made op_disable fd os)) { counts = cs })
    else (0, os)

-- It does not look at `is_active`.
unfoldable pub hw_telemetry_stop : HwTelemetrySession → Os → HwTelemetryResult × Os
unfolding read_counter
hw_telemetry_stop s os =
    let (cycles, os1) = read_counter s.fd_cycles os in
    let (instrs, os2) = read_counter s.fd_instructions os1 in
    let (l1, os3) = read_counter s.fd_l1_miss os2 in
    let (l2, os4) = read_counter s.fd_l2_miss os3 in
    let (switches, os5) = read_counter s.fd_context_switches os4 in
    let (migrations, os6) = read_counter s.fd_cpu_migrations os5 in
    let (faults, os7) = read_counter s.fd_page_faults os6 in
    (
      record {
        cpu_cycles = cycles;
        instructions = instrs;
        ipc = if ltb 0 cycles then some (instrs, cycles) else none;
        l1_cache_misses = l1;
        l2_cache_misses = l2;
        context_switches = switches;
        cpu_migrations = migrations;
        page_faults = faults;
      },
      os7,
    )

unfoldable pub close_counter : ℤ → Os → Os
close_counter fd os = if leb_ℤ (pos 0) fd then made op_close fd os else os

-- Nor does this.
unfoldable pub hw_telemetry_cleanup : HwTelemetrySession → Os → HwTelemetrySession × Os
unfolding close_counter
hw_telemetry_cleanup s os = (zero_session, each_counter close_counter s os)

-- How a handshake ends for the counters, in c/client.c: it may fail before they are started, return
-- early after that, without a stop, or come to its end.
pub data RunEnd : Type 0 where
  unconnected broken_off completed : RunEnd

-- As bench_hybrid.c uses it: one session for all handshakes, those that fail included.
unfoldable pub measure_runs : List RunEnd → HwTelemetrySession → Os → Os
unfolding hw_telemetry_start hw_telemetry_stop
measure_runs [] s os = os
measure_runs (unconnected ∷ runs) s os = measure_runs runs s os
measure_runs (broken_off ∷ runs) s os = measure_runs runs s (hw_telemetry_start s os)
measure_runs (completed ∷ runs) s os =
    measure_runs runs s (hw_telemetry_stop s (hw_telemetry_start s os)).1

unfoldable pub measure : List RunEnd → Os → Os
unfolding hw_telemetry_init measure_runs hw_telemetry_cleanup
measure runs os =
    let (s, os1) = hw_telemetry_init os in (hw_telemetry_cleanup s (measure_runs runs s os1)).1
