-- ===== src/HwTelemetry/Calls.antt =====
-- What each block of c/src/hw_telemetry.c adds to the descriptors and to the calls on them.
use mathlib.Core.Path.{subst}
use mathlib.Core.List.{append_assoc, append-nil}
use hybrid_pqc_benchmarking.Prelude.{
  ◌≡◌, refl, ap, ◌∙◌, sym, Bool, true, false, List, [], ◌∷◌, ◌++◌, arith, if◌then◌else◌, if-cases,
  Bool-cases, inl, inr,
}
use hybrid_pqc_benchmarking.Prelude.Int.{ℤ, pos, leb_ℤ}
use hybrid_pqc_benchmarking.HwTelemetry.{
  Event, cpu_cycles, instructions, l1d_read_miss, ll_read_miss, cache_misses, context_switches,
  cpu_migrations, page_faults, Op, op_reset, op_enable, op_disable, op_read, op_close, Call, Os,
  keep, open_single_counter, made, HwTelemetrySession, open_l2_miss, hw_telemetry_init,
  each_counter, start_counter, hw_telemetry_start, read_counter, hw_telemetry_stop, close_counter,
}

abbrev pub same_op : Op → Op → Bool
same_op op_reset op_reset = true
same_op op_enable op_enable = true
same_op op_disable op_disable = true
same_op op_read op_read = true
same_op op_close op_close = true
same_op _ _ = false

-- The descriptors of the calls of one kind, in order.
unfoldable pub of_op : Op → List Call → List ℤ
of_op o [] = []
of_op o (c ∷ cs) = let rest = of_op o cs in if same_op o c.op then c.fd ∷ rest else rest

of_op-append : (o : Op) (cs ds : List Call) → of_op o (cs ++ ds) ≡ of_op o cs ++ of_op o ds
unfolding of_op
of_op-append o [] ds = refl
of_op-append o (c ∷ cs) ds = ground (arith, of_op-append o cs ds)

-- The descriptors that a session holds.
abbrev pub held : HwTelemetrySession → List ℤ
held s =
    (((((keep s.fd_cycles ++ keep s.fd_instructions) ++ keep s.fd_l1_miss) ++ keep s.fd_l2_miss)
        ++ keep s.fd_context_switches)
      ++ keep s.fd_cpu_migrations)
    ++ keep s.fd_page_faults

abbrev pub part : Bool → List ℤ → List ℤ
part true l = l
part false l = []

part-append : (b : Bool) (l r : List ℤ) → part b l ++ part b r ≡ part b (l ++ r)
part-append true l r = refl
part-append false l r = refl

-- From `x` to `y` these descriptors were added, if any were.
pub record Added (b : Bool) (x l y : List ℤ) : Type 0 where
  pub eq : y ≡ x ++ part b l

-- One more step.
pub adds : {b : Bool} {x y z l r : List ℤ} → Added b x l y → Added b y r z → Added b x (l ++ r) z
adds {b} {x} {l = l} {r} p q = record {
  eq =
      q.eq
      ∙ (ap (λ t. t ++ part b r) p.eq
          ∙ (append_assoc x (part b l) (part b r) ∙ ap (λ t. x ++ t) (part-append b l r)));
}

open-opened :
    (ev : Event) (os : Os)
    → Added true os.opened (keep (open_single_counter ev os).0) (open_single_counter ev os).1.opened
unfolding open_single_counter
open-opened ev os = record { eq = refl }

-- The first attempt adds nothing where it fails.
open_l2_miss-opened :
    (os : Os) → Added true os.opened (keep (open_l2_miss os).0) (open_l2_miss os).1.opened
unfolding open_l2_miss
open_l2_miss-opened os =
    let (r, os1) = open_single_counter ll_read_miss os in
    let first = open-opened ll_read_miss os in
    if-cases (λ (x : ℤ × Os). Added true os.opened (keep x.0) x.1.opened) (leb_ℤ (pos 0) r)
      (λ e. first)
      (λ e.
        let nothing : keep r ≡ [] = rw e refl in
        subst
          (λ t.
            Added true t (keep (open_single_counter cache_misses os1).0)
              (open_single_counter cache_misses os1).1.opened)
          (first.eq ∙ (ap (λ t. os.opened ++ t) nothing ∙ append-nil os.opened))
          (open-opened cache_misses os1))

pub init-held :
    (os : Os) → Added true os.opened (held (hw_telemetry_init os).0) (hw_telemetry_init os).1.opened
unfolding hw_telemetry_init
init-held os =
    let os1 = (open_single_counter cpu_cycles os).1 in
    let os2 = (open_single_counter instructions os1).1 in
    let os3 = (open_single_counter l1d_read_miss os2).1 in
    let os4 = (open_l2_miss os3).1 in
    let os5 = (open_single_counter context_switches os4).1 in
    let os6 = (open_single_counter cpu_migrations os5).1 in
    adds
      (adds
        (adds
          (adds
            (adds (adds (open-opened cpu_cycles os) (open-opened instructions os1))
              (open-opened l1d_read_miss os2))
            (open_l2_miss-opened os3))
          (open-opened context_switches os4))
        (open-opened cpu_migrations os5))
      (open-opened page_faults os6)

-- A block that makes calls of some kinds makes one for each descriptor of the session.
pub each-of_op :
    (o : Op) (b : Bool) (f : ℤ → Os → Os)
    → ((fd : ℤ) (os : Os) → Added b (of_op o os.calls) (keep fd) (of_op o (f fd os).calls))
    → (s : HwTelemetrySession) (os : Os)
    → Added b (of_op o os.calls) (held s) (of_op o (each_counter f s os).calls)
each-of_op o b f h s os =
    let os1 = f s.fd_cycles os in
    let os2 = f s.fd_instructions os1 in
    let os3 = f s.fd_l1_miss os2 in
    let os4 = f s.fd_l2_miss os3 in
    let os5 = f s.fd_context_switches os4 in
    let os6 = f s.fd_cpu_migrations os5 in
    adds
      (adds
        (adds
          (adds (adds (adds (h s.fd_cycles os) (h s.fd_instructions os1)) (h s.fd_l1_miss os2))
            (h s.fd_l2_miss os3))
          (h s.fd_context_switches os4))
        (h s.fd_cpu_migrations os5))
      (h s.fd_page_faults os6)

-- Which calls each block makes.
abbrev pub starts : Op → Bool
starts op_reset = true
starts op_enable = true
starts _ = false

abbrev pub stops : Op → Bool
stops op_disable = true
stops op_read = true
stops _ = false

abbrev pub closes : Op → Bool
closes op_close = true
closes _ = false

pub nil-Added : (b : Bool) (x : List ℤ) → Added b x [] x
nil-Added true x = record { eq = sym (append-nil x) }
nil-Added false x = record { eq = sym (append-nil x) }

of_op-one :
    (o o' : Op) (fd : ℤ)
    → of_op o (record { op = o'; fd = fd } ∷ []) ≡ part (same_op o o') (fd ∷ [])
unfolding of_op
of_op-one o o' fd = pick (same_op o o')
  where
    pick : (b : Bool) → (if b then fd ∷ [] else []) ≡ part b (fd ∷ [])
    pick true = refl
    pick false = refl

of_op-made :
    (o o' : Op) (fd : ℤ) (os : Os)
    → of_op o (made o' fd os).calls ≡ of_op o os.calls ++ part (same_op o o') (fd ∷ [])
of_op-made o o' fd os =
    of_op-append o os.calls (record { op = o'; fd = fd } ∷ [])
    ∙ ap (λ t. of_op o os.calls ++ t) (of_op-one o o' fd)

-- Two calls on one descriptor.
of_op-two :
    (o o1 o2 : Op) (fd : ℤ) (os : Os)
    → of_op o (made o2 fd (made o1 fd os)).calls
      ≡ of_op o os.calls ++ (part (same_op o o1) (fd ∷ []) ++ part (same_op o o2) (fd ∷ []))
of_op-two o o1 o2 fd os =
    of_op-made o o2 fd (made o1 fd os)
    ∙ (ap (λ t. t ++ part (same_op o o2) (fd ∷ [])) (of_op-made o o1 fd os)
        ∙ append_assoc (of_op o os.calls) (part (same_op o o1) (fd ∷ []))
            (part (same_op o o2) (fd ∷ [])))

starts_of :
    (o : Op) (l : List ℤ)
    → part (same_op o op_reset) l ++ part (same_op o op_enable) l ≡ part (starts o) l
starts_of op_reset l = append-nil l
starts_of op_enable l = refl
starts_of op_disable l = refl
starts_of op_read l = refl
starts_of op_close l = refl

stops_of :
    (o : Op) (l : List ℤ)
    → part (same_op o op_disable) l ++ part (same_op o op_read) l ≡ part (stops o) l
stops_of op_reset l = refl
stops_of op_enable l = refl
stops_of op_disable l = append-nil l
stops_of op_read l = refl
stops_of op_close l = refl

closes_of : (o : Op) (l : List ℤ) → part (same_op o op_close) l ≡ part (closes o) l
closes_of op_reset l = refl
closes_of op_enable l = refl
closes_of op_disable l = refl
closes_of op_read l = refl
closes_of op_close l = refl

start_counter-Added :
    (o : Op) (fd : ℤ) (os : Os)
    → Added (starts o) (of_op o os.calls) (keep fd) (of_op o (start_counter fd os).calls)
unfolding start_counter
start_counter-Added o fd os = elim (Bool-cases (leb_ℤ (pos 0) fd)) [
  | inl e ↦ rw e (record {
    eq =
        of_op-two o op_reset op_enable fd os
        ∙ ap (λ t. of_op o os.calls ++ t) (starts_of o (fd ∷ []));
  })
  | inr e ↦ rw e (nil-Added (starts o) (of_op o os.calls))
]

read_counter-Added :
    (o : Op) (fd : ℤ) (os : Os)
    → Added (stops o) (of_op o os.calls) (keep fd) (of_op o (read_counter fd os).1.calls)
unfolding read_counter
read_counter-Added o fd os = elim (Bool-cases (leb_ℤ (pos 0) fd)) [
  | inl e ↦ rw e (record {
    eq =
        of_op-two o op_disable op_read fd os
        ∙ ap (λ t. of_op o os.calls ++ t) (stops_of o (fd ∷ []));
  })
  | inr e ↦ rw e (nil-Added (stops o) (of_op o os.calls))
]

pub close_counter-Added :
    (o : Op) (fd : ℤ) (os : Os)
    → Added (closes o) (of_op o os.calls) (keep fd) (of_op o (close_counter fd os).calls)
unfolding close_counter
close_counter-Added o fd os = elim (Bool-cases (leb_ℤ (pos 0) fd)) [
  | inl e ↦ rw e (record {
    eq = of_op-made o op_close fd os ∙ ap (λ t. of_op o os.calls ++ t) (closes_of o (fd ∷ []));
  })
  | inr e ↦ rw e (nil-Added (closes o) (of_op o os.calls))
]

pub stop-Added :
    (o : Op) (s : HwTelemetrySession) (os : Os)
    → Added (stops o) (of_op o os.calls) (held s) (of_op o (hw_telemetry_stop s os).1.calls)
unfolding hw_telemetry_stop
stop-Added o s os =
    each-of_op o (stops o) (λ fd os. (read_counter fd os).1) (read_counter-Added o) s os

pub start-Added :
    (o : Op) (s : HwTelemetrySession) (os : Os)
    → s.is_active ≡ true
    → Added (starts o) (of_op o os.calls) (held s) (of_op o (hw_telemetry_start s os).calls)
unfolding hw_telemetry_start
start-Added o s os h = rw h (each-of_op o (starts o) start_counter (start_counter-Added o) s os)
