-- ===== src/HwTelemetry/Balance.antt =====
-- What a measurement with c/src/hw_telemetry.c does to the descriptors that it opens.
use mathlib.Core.List.{append_assoc, append-nil}
use hybrid_pqc_benchmarking.Prelude.{
  ℕ, zero, suc, ◌||◌, ◌≡◌, refl, ap, ◌∙◌, sym, true, false, List, [], ◌∷◌, ◌++◌, if-cases,
  Bool-cases, inl, inr, replicate,
}
use hybrid_pqc_benchmarking.Prelude.Int.{ℤ, pos, leb_ℤ}
use hybrid_pqc_benchmarking.HwTelemetry.{
  cpu_cycles, instructions, l1d_read_miss, ll_read_miss, Op, op_reset, op_enable, op_disable,
  op_read, op_close, Os, open_single_counter, HwTelemetrySession, open_l2_miss, hw_telemetry_init,
  each_counter, start_counter, hw_telemetry_start, read_counter, hw_telemetry_stop, close_counter,
  hw_telemetry_cleanup, RunEnd, unconnected, broken_off, completed, measure_runs, measure,
}
use hybrid_pqc_benchmarking.HwTelemetry.Calls.{
  of_op, held, part, Added, adds, starts, stops, closes, nil-Added, each-of_op, init-held,
  close_counter-Added, stop-Added, start-Added,
}

-- No block but the first opens anything.
each-opened :
    (f : ℤ → Os → Os)
    → ((fd : ℤ) (os : Os) → (f fd os).opened ≡ os.opened)
    → (s : HwTelemetrySession) (os : Os) → (each_counter f s os).opened ≡ os.opened
each-opened f h s os = h _ _ ∙ (h _ _ ∙ (h _ _ ∙ (h _ _ ∙ (h _ _ ∙ (h _ _ ∙ h _ _)))))

start_counter-opened : (fd : ℤ) (os : Os) → (start_counter fd os).opened ≡ os.opened
unfolding start_counter
start_counter-opened fd os =
    if-cases (λ (x : Os). x.opened ≡ os.opened) (leb_ℤ (pos 0) fd) (λ e. refl) (λ e. refl)

read_counter-opened : (fd : ℤ) (os : Os) → (read_counter fd os).1.opened ≡ os.opened
unfolding read_counter
read_counter-opened fd os =
    if-cases (λ (x : ℕ × Os). x.1.opened ≡ os.opened) (leb_ℤ (pos 0) fd) (λ e. refl) (λ e. refl)

close_counter-opened : (fd : ℤ) (os : Os) → (close_counter fd os).opened ≡ os.opened
unfolding close_counter
close_counter-opened fd os =
    if-cases (λ (x : Os). x.opened ≡ os.opened) (leb_ℤ (pos 0) fd) (λ e. refl) (λ e. refl)

start-opened : (s : HwTelemetrySession) (os : Os) → (hw_telemetry_start s os).opened ≡ os.opened
unfolding hw_telemetry_start
start-opened s os =
    if-cases (λ (x : Os). x.opened ≡ os.opened) s.is_active
      (λ e. each-opened start_counter start_counter-opened s os) (λ e. refl)

stop-opened : (s : HwTelemetrySession) (os : Os) → (hw_telemetry_stop s os).1.opened ≡ os.opened
unfolding hw_telemetry_stop
stop-opened s os = each-opened (λ fd os. (read_counter fd os).1) read_counter-opened s os

runs-opened :
    (runs : List RunEnd) (s : HwTelemetrySession) (os : Os)
    → (measure_runs runs s os).opened ≡ os.opened
unfolding measure_runs
runs-opened [] s os = refl
runs-opened (unconnected ∷ runs) s os = runs-opened runs s os
runs-opened (broken_off ∷ runs) s os =
    runs-opened runs s (hw_telemetry_start s os) ∙ start-opened s os
runs-opened (completed ∷ runs) s os =
    runs-opened runs s (hw_telemetry_stop s (hw_telemetry_start s os)).1
    ∙ (stop-opened s (hw_telemetry_start s os) ∙ start-opened s os)

-- `l`, `n` times over.
unfoldable pub times : ℕ → List ℤ → List ℤ
times zero l = []
times (suc n) l = l ++ times n l

-- The calls of a start, and those of a stop, are never of the same kind.
one_kind :
    (o : Op) (l : List ℤ) → part (starts o) l ++ part (stops o) l ≡ part (starts o || stops o) l
one_kind op_reset l = append-nil l
one_kind op_enable l = append-nil l
one_kind op_disable l = refl
one_kind op_read l = refl
one_kind op_close l = refl

round-Added :
    (o : Op) (s : HwTelemetrySession) (os : Os)
    → s.is_active ≡ true
    → Added
        (starts o || stops o)
        (of_op o os.calls)
        (held s)
        (of_op o (hw_telemetry_stop s (hw_telemetry_start s os)).1.calls)
round-Added o s os h =
    let a = start-Added o s os h in
    let b = stop-Added o s (hw_telemetry_start s os) in
    record {
      eq =
          b.eq
          ∙ (ap (λ t. t ++ part (stops o) (held s)) a.eq
              ∙ (append_assoc (of_op o os.calls) (part (starts o) (held s))
                    (part (stops o) (held s))
                  ∙ ap (λ t. of_op o os.calls ++ t) (one_kind o (held s))));
    }

broken_off-Added :
    (o : Op) (s : HwTelemetrySession) (os : Os)
    → s.is_active ≡ true
    → Added
        (starts o || stops o)
        (of_op o os.calls)
        (part (starts o) (held s))
        (of_op o (hw_telemetry_start s os).calls)
broken_off-Added op_reset s os h = record { eq = (start-Added op_reset s os h).eq }
broken_off-Added op_enable s os h = record { eq = (start-Added op_enable s os h).eq }
broken_off-Added op_disable s os h = record { eq = (start-Added op_disable s os h).eq }
broken_off-Added op_read s os h = record { eq = (start-Added op_read s os h).eq }
broken_off-Added op_close s os h = record { eq = (start-Added op_close s os h).eq }

-- The descriptors that the runs call with this operation, of those in `l`.
unfoldable pub called : Op → List ℤ → List RunEnd → List ℤ
called o l [] = []
called o l (unconnected ∷ runs) = called o l runs
called o l (broken_off ∷ runs) = part (starts o) l ++ called o l runs
called o l (completed ∷ runs) = l ++ called o l runs

runs-Added :
    (o : Op) (runs : List RunEnd) (s : HwTelemetrySession) (os : Os)
    → s.is_active ≡ true
    → Added
        (starts o || stops o)
        (of_op o os.calls)
        (called o (held s) runs)
        (of_op o (measure_runs runs s os).calls)
unfolding measure_runs called
runs-Added o [] s os h = nil-Added (starts o || stops o) (of_op o os.calls)
runs-Added o (unconnected ∷ runs) s os h = runs-Added o runs s os h
runs-Added o (broken_off ∷ runs) s os h =
    adds (broken_off-Added o s os h) (runs-Added o runs s (hw_telemetry_start s os) h)
runs-Added o (completed ∷ runs) s os h =
    adds (round-Added o s os h)
      (runs-Added o runs s (hw_telemetry_stop s (hw_telemetry_start s os)).1 h)

-- The runs that start the counters, and those that come to their end.
abbrev pub started_runs : List RunEnd → ℕ
started_runs [] = 0
started_runs (unconnected ∷ runs) = started_runs runs
started_runs (broken_off ∷ runs) = suc (started_runs runs)
started_runs (completed ∷ runs) = suc (started_runs runs)

abbrev pub completed_runs : List RunEnd → ℕ
completed_runs [] = 0
completed_runs (unconnected ∷ runs) = completed_runs runs
completed_runs (broken_off ∷ runs) = completed_runs runs
completed_runs (completed ∷ runs) = suc (completed_runs runs)

called-started :
    (o : Op) (l : List ℤ) (runs : List RunEnd)
    → starts o ≡ true
    → called o l runs ≡ times (started_runs runs) l
unfolding called times
called-started o l [] h = refl
called-started o l (unconnected ∷ runs) h = called-started o l runs h
called-started o l (broken_off ∷ runs) h = rw h (ap (λ t. l ++ t) (called-started o l runs h))
called-started o l (completed ∷ runs) h = ap (λ t. l ++ t) (called-started o l runs h)

called-completed :
    (o : Op) (l : List ℤ) (runs : List RunEnd)
    → starts o ≡ false
    → called o l runs ≡ times (completed_runs runs) l
unfolding called times
called-completed o l [] h = refl
called-completed o l (unconnected ∷ runs) h = called-completed o l runs h
called-completed o l (broken_off ∷ runs) h = rw h (called-completed o l runs h)
called-completed o l (completed ∷ runs) h = ap (λ t. l ++ t) (called-completed o l runs h)

open_l2_miss-calls : (os : Os) → (open_l2_miss os).1.calls ≡ os.calls
unfolding open_l2_miss open_single_counter
open_l2_miss-calls os = elim (Bool-cases (leb_ℤ (pos 0) (open_single_counter ll_read_miss os).0)) [
  | inl e ↦ rw e refl
  | inr e ↦ rw e refl
]

init-calls : (os : Os) → (hw_telemetry_init os).1.calls ≡ os.calls
unfolding hw_telemetry_init open_single_counter
init-calls os =
    open_l2_miss-calls
      (open_single_counter l1d_read_miss
        (open_single_counter instructions (open_single_counter cpu_cycles os).1).1).1

-- The descriptors that were opened are closed once each; in each run that starts the counters each is
-- reset and enabled once, and in each that comes to its end each is disabled and read once; no other
-- descriptor is touched.
pub record IsBalanced (runs : List RunEnd) (os : Os) : Type 0 where
  pub closed : of_op op_close os.calls ≡ os.opened
  pub resets : of_op op_reset os.calls ≡ times (started_runs runs) os.opened
  pub enabled : of_op op_enable os.calls ≡ times (started_runs runs) os.opened
  pub disabled : of_op op_disable os.calls ≡ times (completed_runs runs) os.opened
  pub reads : of_op op_read os.calls ≡ times (completed_runs runs) os.opened

-- Over a session, whichever of its handshakes fail and where, the descriptors that `perf_event_open`
-- gave, the fallback counter's included, are closed once each; each is reset and enabled once in
-- every run that starts the counters, and disabled and read once in every run that comes to its end,
-- always in the order in which they were opened, and no call is made on any other.
pub measure-IsBalanced :
    (runs : List RunEnd) (os : Os)
    → os.opened ≡ []
    → os.calls ≡ []
    → IsBalanced runs (measure runs os)
unfolding measure hw_telemetry_cleanup hw_telemetry_init of_op
measure-IsBalanced runs os none_opened no_calls =
    let s = (hw_telemetry_init os).0 in
    let os1 = (hw_telemetry_init os).1 in
    let os2 = measure_runs runs s os1 in
    let os3 = each_counter close_counter s os2 in
    let all : os1.opened ≡ held s = (init-held os).eq ∙ ap (λ t. t ++ held s) none_opened in
    let last : os3.opened ≡ held s =
      each-opened close_counter close_counter-opened s os2 ∙ (runs-opened runs s os1 ∙ all) in
    let clean : (o : Op) → of_op o os1.calls ≡ [] = λ o. ap (of_op o) (init-calls os ∙ no_calls) in
    let in_runs : (o : Op)
        → of_op o os2.calls ≡ part (starts o || stops o) (called o (held s) runs) =
      λ o.
        (runs-Added o runs s os1 refl).eq
        ∙ ap (λ t. t ++ part (starts o || stops o) (called o (held s) runs)) (clean o) in
    let at_end : (o : Op) → of_op o os3.calls ≡ of_op o os2.calls ++ part (closes o) (held s) =
      λ o. (each-of_op o (closes o) close_counter (close_counter-Added o) s os2).eq in
    let in_order : (o : Op)
        → of_op o os3.calls
          ≡ part (starts o || stops o) (called o (held s) runs) ++ part (closes o) (held s) =
      λ o. at_end o ∙ ap (λ t. t ++ part (closes o) (held s)) (in_runs o) in
    let started : (o : Op)
        → starts o ≡ true
        → called o (held s) runs ++ [] ≡ times (started_runs runs) os3.opened =
      λ o h.
        append-nil (called o (held s) runs)
        ∙ (called-started o (held s) runs h ∙ sym (ap (times (started_runs runs)) last)) in
    let ended : (o : Op)
        → starts o ≡ false
        → called o (held s) runs ++ [] ≡ times (completed_runs runs) os3.opened =
      λ o h.
        append-nil (called o (held s) runs)
        ∙ (called-completed o (held s) runs h ∙ sym (ap (times (completed_runs runs)) last)) in
    record {
      closed = in_order op_close ∙ sym last;
      resets = in_order op_reset ∙ started op_reset refl;
      enabled = in_order op_enable ∙ started op_enable refl;
      disabled = in_order op_disable ∙ ended op_disable refl;
      reads = in_order op_read ∙ ended op_read refl;
    }

-- A session that was cleaned up holds the descriptor 0 seven times: a second `hw_telemetry_cleanup`
-- closes it, which is the standard input of the program.
cleanup-again :
    (s : HwTelemetrySession) (os : Os)
    → let (z, os1) = hw_telemetry_cleanup s os in
      of_op op_close (hw_telemetry_cleanup z os1).1.calls
      ≡ of_op op_close os1.calls ++ replicate 7 (pos 0)
unfolding hw_telemetry_cleanup
cleanup-again s os =
    let (z, os1) = hw_telemetry_cleanup s os in
    (each-of_op op_close true close_counter (close_counter-Added op_close) z os1).eq
