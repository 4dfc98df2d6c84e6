-- ===== src/Host/Detect.antt =====
-- Hypervisor detection against a specification by occurrence of texts.
use hybrid_pqc_benchmarking.Prelude.{
  ◌∙◌, ◌==◌, ℕ, zero, suc, ◌≤◌, ◌<◌, ◌≡◌, ◌↔◌, refl, ap, ◌⊎◌, inl, inr, Bool, true, false, ◌&&◌,
  none, some, List, [], ◌∷◌, ◌++◌, String, map, arith, length, codes, if◌then◌else◌, Bool-cases,
}
use hybrid_pqc_benchmarking.Host.{
  HostEnv, starts_with, strstr, strcasestr, tolower, fgets_line, fgets, strip_newline, vm_vendors,
  matches_vendor, scan_cpuinfo, detect_hypervisor,
}

-- `needle` stands somewhere in `hay`.
abbrev pub Occurs : List ℕ → List ℕ → Type 0
Occurs needle hay = (pre : List ℕ) × (post : List ℕ) × (hay ≡ pre ++ (needle ++ post))

starts_with_sound :
    (hay needle : List ℕ) → starts_with hay needle ≡ true → (post : List ℕ) × (hay ≡ needle ++ post)
unfolding starts_with
starts_with_sound hay [] h = (hay, refl)
starts_with_sound [] (n ∷ ns) h = cc
starts_with_sound (x ∷ hs) (n ∷ ns) h =
    let (post, e) = starts_with_sound hs ns (ground arith) in (post, ground arith)

starts_with_complete : (needle post : List ℕ) → starts_with (needle ++ post) needle ≡ true
unfolding starts_with
starts_with_complete [] post = refl
starts_with_complete (n ∷ ns) post = ground (arith, starts_with_complete ns post)

strstr_sound : (hay needle : List ℕ) → strstr hay needle ≡ true → Occurs needle hay
unfolding strstr
strstr_sound [] needle h = let (post, e) = starts_with_sound [] needle h in ([], post, e)
strstr_sound (x ∷ hs) needle h = elim (Bool-cases (starts_with (x ∷ hs) needle)) [
  | inl here ↦ let (post, e) = starts_with_sound (x ∷ hs) needle here in ([], post, e)
  | inr later ↦
      let (pre, post, e) = strstr_sound hs needle (rw later at h) in
      (x ∷ pre, post, ap (λ t. x ∷ t) e)
]

strstr_complete : (pre needle post : List ℕ) → strstr (pre ++ (needle ++ post)) needle ≡ true
unfolding strstr
strstr_complete [] [] [] = refl
strstr_complete [] [] (x ∷ post) = ground (arith, starts_with_complete [] (x ∷ post))
strstr_complete [] (n ∷ ns) post = rw (starts_with_complete (n ∷ ns) post)
strstr_complete (x ∷ pre) needle post = ground (arith, strstr_complete pre needle post)

-- `strstr` finds a text exactly where it occurs.
pub strstr_iff : (hay needle : List ℕ) → (strstr hay needle ≡ true) ↔ Occurs needle hay
strstr_iff hay needle =
    (strstr_sound hay needle, λ (pre, post, e). rw e (strstr_complete pre needle post))

-- Some entry of the list occurs in the text, up to the case of letters.
abbrev pub Names : List ℕ → List String → Type 0
Names vendor [] = ⊥
Names vendor (v ∷ vs) = Occurs (map tolower (codes v)) (map tolower vendor) ⊎ Names vendor vs

matches_vendor_iff :
    (vendor : List ℕ) (vs : List String) → (matches_vendor vendor vs ≡ true) ↔ Names vendor vs
unfolding matches_vendor strcasestr
matches_vendor_iff vendor [] = (λ h. cc, λ h. absurd h)
matches_vendor_iff vendor (v ∷ vs) =
    let found = strstr_iff (map tolower vendor) (map tolower (codes v)) in
    let rest = matches_vendor_iff vendor vs in
    (
      λ h. elim (Bool-cases (strstr (map tolower vendor) (map tolower (codes v)))) [
        | inl e ↦ inl (found.0 e)
        | inr e ↦ inr (rest.0 (rw e at h))
      ],
      elim [
        | inl o ↦ rw (found.1 o)
        | inr n ↦ elim (Bool-cases (strstr (map tolower vendor) (map tolower (codes v)))) [
          | inl e ↦ rw e
          | inr e ↦ rw e (rest.1 n)
        ]
      ],
    )

-- A line is the front of the file, and it fits the buffer with its final NUL.
fgets_line-append :
    (n : ℕ) (content : List ℕ)
    → (content ≡ (fgets_line n content).0 ++ (fgets_line n content).1)
      × (length (fgets_line n content).0 ≤ n)
unfolding fgets_line
fgets_line-append zero content = (refl, omega arith)
fgets_line-append (suc n) [] = (refl, omega arith)
fgets_line-append (suc n) (c ∷ cs) = ground (arith, fgets_line-append n cs)

length-strip_newline : (cs : List ℕ) → length (strip_newline cs) ≤ length cs
unfolding strip_newline
length-strip_newline [] = omega arith
length-strip_newline (c ∷ []) = ground arith
length-strip_newline (c ∷ d ∷ cs) = omega (arith, length-strip_newline (d ∷ cs))

length-vendor_line :
    (n : ℕ) (content : List ℕ) → length (strip_newline (fgets_line n content).0) < suc n
length-vendor_line n content =
    omega (arith, length-strip_newline (fgets_line n content).0, (fgets_line-append n content).1)

-- What stands before the first newline, at most `n` bytes of it.
abbrev pub before_newline : ℕ → List ℕ → List ℕ
before_newline zero cs = []
before_newline (suc n) [] = []
before_newline (suc n) (c ∷ cs) =
    let rest = before_newline n cs in if c == b'\n' then [] else c ∷ rest

-- The vendor text of a DMI file.
abbrev pub vendor_text : List ℕ → List ℕ
vendor_text [] = codes "Unknown"
vendor_text (c ∷ cs) = before_newline 255 (c ∷ cs)

strip_newline-cons :
    (c : ℕ) (l : List ℕ) → (c == b'\n') ≡ false → strip_newline (c ∷ l) ≡ c ∷ strip_newline l
unfolding strip_newline
strip_newline-cons c [] h = rw h refl
strip_newline-cons c (d ∷ l) h = refl

strip_newline-fgets_line :
    (n : ℕ) (cs : List ℕ) → strip_newline (fgets_line n cs).0 ≡ before_newline n cs
unfolding fgets_line strip_newline
strip_newline-fgets_line zero cs = refl
strip_newline-fgets_line (suc n) [] = refl
strip_newline-fgets_line (suc n) (c ∷ cs) = elim (Bool-cases (c == b'\n')) [
  | inl e ↦ rw (e, strip_newline, e) refl
  | inr e ↦
      rw e (
        strip_newline-cons c (fgets_line n cs).0 e
        ∙ ap (λ l. c ∷ l) (strip_newline-fgets_line n cs))
]

-- With a readable DMI file, the vendor text that is stored is what stands before the first newline
-- of its first 255 bytes, or "Unknown" for an empty file; it fits the buffer of 256 bytes, and the
-- host counts as virtualized exactly if one of the vendor names occurs in it, up to case.
pub detect_hypervisor-dmi :
    (env : HostEnv) (content : List ℕ)
    → env.dmi_sys_vendor ≡ some content
    → ((detect_hypervisor env).1 ≡ vendor_text content)
      × (((detect_hypervisor env).0 ≡ true) ↔ Names (vendor_text content) vm_vendors)
      × (length (detect_hypervisor env).1 < 256)
unfolding detect_hypervisor
detect_hypervisor-dmi env [] h =
    rw (h, detect_hypervisor) (refl, matches_vendor_iff (codes "Unknown") vm_vendors, omega arith)
detect_hypervisor-dmi env (c ∷ cs) h =
    rw (h, detect_hypervisor)
      (
        strip_newline-fgets_line 255 (c ∷ cs),
        rw (← strip_newline-fgets_line 255 (c ∷ cs))
            (matches_vendor_iff (strip_newline (fgets_line 255 (c ∷ cs)).0) vm_vendors),
        length-vendor_line 255 (c ∷ cs),
      )

length-fgets_line :
    (n : ℕ) (c : ℕ) (cs : List ℕ) → length (fgets_line (suc n) (c ∷ cs)).1 ≤ length cs
unfolding fgets_line
length-fgets_line zero c cs = ground arith
length-fgets_line (suc n) c [] = ground arith
length-fgets_line (suc n) c (d ∷ cs) = ground (arith, length-fgets_line n d cs)

-- The lines that `fgets` delivers one after the other, for a line buffer of `size` bytes.
pub data Lines (size : ℕ) : List ℕ → List (List ℕ) → Type 0 where
  end : {content : List ℕ} → fgets size content ≡ none → Lines size content []
  more :
      {content line rest : List ℕ} {ls : List (List ℕ)}
      → fgets size content ≡ some (line, rest)
      → Lines size rest ls
      → Lines size content (line ∷ ls)

-- A line of /proc/cpuinfo that lists the hypervisor flag.
abbrev pub IsFlagLine : List ℕ → Type 0
IsFlagLine line = Occurs (codes "flags") line × Occurs (codes "hypervisor") line

abbrev pub Any : (List ℕ → Type 0) → List (List ℕ) → Type 0
Any P [] = ⊥
Any P (l ∷ ls) = P l ⊎ Any P ls

-- Two tests that decide two statements, before a third.
both_iff :
    {P Q R : Type 0} (p q r : Bool)
    → ((p ≡ true) ↔ P)
    → ((q ≡ true) ↔ Q)
    → ((r ≡ true) ↔ R)
    → ((if p && q then true else r) ≡ true) ↔ ((P × Q) ⊎ R)
both_iff true true r f g h = (λ _. inl (f.0 refl, g.0 refl), λ _. refl)
both_iff true false r f g h = (λ e. inr (h.0 e), elim [ inl a ↦ cc (g.1 a.1) | inr b ↦ h.1 b ])
both_iff false q r f g h = (λ e. inr (h.0 e), elim [ inl a ↦ cc (f.1 a.0) | inr b ↦ h.1 b ])

-- One round of the loop, the answer for the later lines given.
IsFlagLine-iff :
    (line : List ℕ) (later : Bool) (ls : List (List ℕ))
    → ((later ≡ true) ↔ Any IsFlagLine ls)
    → ((if strstr line (codes "flags") && strstr line (codes "hypervisor") then true else later)
        ≡ true)
      ↔ Any IsFlagLine (line ∷ ls)
IsFlagLine-iff line later ls ih =
    let flags = strstr_iff line (codes "flags") in
    let hyper = strstr_iff line (codes "hypervisor") in
    both_iff (strstr line (codes "flags")) (strstr line (codes "hypervisor")) later flags hyper ih

rest_in_fuel :
    (n fuel c : ℕ) (cs : List ℕ)
    → length (c ∷ cs) < suc fuel
    → length (fgets_line (suc n) (c ∷ cs)).1 < fuel
rest_in_fuel n fuel c cs h = omega (arith, length-fgets_line n c cs)

-- With more fuel than bytes the loop reads the file to its end.
scan_cpuinfo_iff :
    (fuel : ℕ) (content : List ℕ)
    → length content < fuel
    → (ls : List (List ℕ)) × Lines 512 content ls
      × ((scan_cpuinfo fuel content ≡ true) ↔ Any IsFlagLine ls)
unfolding scan_cpuinfo
scan_cpuinfo_iff zero content h = elim h [ ]
scan_cpuinfo_iff (suc fuel) [] h = ([], end refl, (λ e. cc, λ e. absurd e))
scan_cpuinfo_iff (suc fuel) (c ∷ cs) h =
    let (line, rest) = fgets_line 511 (c ∷ cs) in
    let (ls, lines, ih) =
      scan_cpuinfo_iff fuel (fgets_line 511 (c ∷ cs)).1 (rest_in_fuel 510 fuel c cs h) in
    (line ∷ ls, more refl lines, IsFlagLine-iff line (scan_cpuinfo fuel rest) ls ih)

answer_fst :
    (b : Bool) (x y : List ℕ) → (if◌then◌else◌ {A = Bool × List ℕ} b (true, x) (false, y)).0 ≡ b
answer_fst true x y = refl
answer_fst false x y = refl

-- Without DMI, the host counts as virtualized exactly if one of the lines that `fgets` delivers
-- from /proc/cpuinfo, in pieces of at most 511 bytes and up to the end of the file, holds both
-- "flags" and "hypervisor".
pub detect_hypervisor-cpuinfo :
    (env : HostEnv) (content : List ℕ)
    → env.dmi_sys_vendor ≡ none
    → env.cpuinfo ≡ some content
    → (ls : List (List ℕ)) × Lines 512 content ls
      × (((detect_hypervisor env).0 ≡ true) ↔ Any IsFlagLine ls)
unfolding detect_hypervisor
detect_hypervisor-cpuinfo env content dmi info =
    let (ls, lines, found) = scan_cpuinfo_iff (suc (length content)) content (omega arith) in
    (ls, lines, rw (dmi, info, detect_hypervisor, answer_fst) found)
