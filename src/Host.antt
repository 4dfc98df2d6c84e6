-- ===== src/Host.antt =====
-- c_dispatch/src/telemetry.c: the boot-time hardware profile.
pub mod Detect
pub mod Init
use hybrid_pqc_benchmarking.Prelude.{
  ℕ, zero, suc, ◌+◌, ◌-◌, String, Bool, true, false, ◌&&◌, Option, none, some, List, [], ◌∷◌, ◌++◌,
  map, ltb, leb, ◌==◌, if◌then◌else◌, length, codes,
}
use hybrid_pqc_benchmarking.Prelude.Int.{ℤ, pos, ltb_ℤ}

-- The texts are byte lists without their final NUL.
pub record HostProfile : Type 0 where
  pub hostname : List ℕ
  pub sys_vendor : List ℕ
  pub is_virtualized : Bool
  pub logical_cores : ℤ
  pub boot_timestamp : List ℕ

-- What the operating system answers: `none` where a call or `fopen` fails.
pub record HostEnv : Type 0 where
  pub gethostname : Option (List ℕ)
  pub dmi_sys_vendor : Option (List ℕ)
  pub cpuinfo : Option (List ℕ)
  pub nprocessors_onln : ℤ
  pub localtime : List ℕ

-- The two static variables.
pub record HostState : Type 0 where
  pub profile : HostProfile
  pub initialized : Bool

-- `tolower` in the C locale.
abbrev pub tolower : ℕ → ℕ
tolower c = if leb b'A' c && leb c b'Z' then c + 32 else c

unfoldable pub starts_with : List ℕ → List ℕ → Bool
starts_with hay [] = true
starts_with [] (n ∷ ns) = false
starts_with (h ∷ hs) (n ∷ ns) = h == n && starts_with hs ns

-- `strstr(hay, needle) != NULL`
unfoldable pub strstr : List ℕ → List ℕ → Bool
unfolding starts_with
strstr [] needle = starts_with [] needle
strstr (h ∷ hs) needle = if starts_with (h ∷ hs) needle then true else strstr hs needle

unfoldable pub strcasestr : List ℕ → List ℕ → Bool
unfolding strstr
strcasestr hay needle = strstr (map tolower hay) (map tolower needle)

-- `fgets` with room for `n` bytes: the line, with its newline, and what is left of the file.
unfoldable pub fgets_line : ℕ → List ℕ → List ℕ × List ℕ
fgets_line zero content = ([], content)
fgets_line (suc n) [] = ([], [])
fgets_line (suc n) (c ∷ cs) =
    let (line, rest) = fgets_line n cs in if c == b'\n' then (c ∷ [], cs) else (c ∷ line, rest)

-- `none` at the end of the file.
unfoldable pub fgets : ℕ → List ℕ → Option (List ℕ × List ℕ)
unfolding fgets_line
fgets size [] = none
fgets size (c ∷ cs) = some (fgets_line (size - 1) (c ∷ cs))

-- Strips one trailing newline.
unfoldable pub strip_newline : List ℕ → List ℕ
strip_newline [] = []
strip_newline (c ∷ []) = if c == b'\n' then [] else c ∷ []
strip_newline (c ∷ d ∷ cs) = c ∷ strip_newline (d ∷ cs)

abbrev pub vm_vendors : List String
vm_vendors =
    "QEMU" ∷ "Amazon EC2" ∷ "Microsoft Corporation" ∷ "VMware" ∷ "Xen" ∷ "Google" ∷ "KVM"
    ∷ "innotek GmbH" ∷ "Parallels" ∷ "DigitalOcean" ∷ "Alibaba Cloud" ∷ "Hetzner" ∷ []

unfoldable pub matches_vendor : List ℕ → List String → Bool
unfolding strcasestr
matches_vendor vendor [] = false
matches_vendor vendor (v ∷ vs) =
    if strcasestr vendor (codes v) then true else matches_vendor vendor vs

-- The loop over the lines of /proc/cpuinfo, a line buffer of 512 bytes. Fuel: the lines left.
unfoldable pub scan_cpuinfo : ℕ → List ℕ → Bool
unfolding fgets strstr
scan_cpuinfo zero content = false
scan_cpuinfo (suc fuel) content = elim (fgets 512 content) [
  | none ↦ false
  | some (line, rest) ↦
      let later = scan_cpuinfo fuel rest in
      if strstr line (codes "flags") && strstr line (codes "hypervisor") then true else later
]

-- The answer and the vendor text. `buf_len` is 256.
unfoldable pub detect_hypervisor : HostEnv → Bool × List ℕ
unfolding fgets strip_newline matches_vendor scan_cpuinfo
detect_hypervisor env = elim env.dmi_sys_vendor [
  | some content ↦
      let vendor : List ℕ = elim (fgets 256 content) [
        | some (line, rest) ↦ strip_newline line
        | none ↦ codes "Unknown"
      ] in
      (matches_vendor vendor vm_vendors, vendor)
  | none ↦ elim env.cpuinfo [
    | some content ↦
        if scan_cpuinfo (suc (length content)) content
        then (true, codes "Unknown Hypervisor (cpuinfo flag)")
        else (false, codes "Bare Metal (DMI unavailable)")
    | none ↦ (false, codes "Bare Metal (DMI unavailable)")
  ]
]

unfoldable pub clamp_cores : ℤ → ℤ
clamp_cores n = if ltb_ℤ n (pos 1) then pos 1 else n

-- It returns 0 on every path.
unfoldable pub host_profile_init : HostEnv → HostState → HostState
unfolding detect_hypervisor clamp_cores
host_profile_init env s =
    if s.initialized
    then s
    else let (virtualized, vendor) = detect_hypervisor env in
      record {
        profile = record {
          hostname = elim env.gethostname [ some name ↦ name | none ↦ codes "unknown" ];
          sys_vendor = vendor;
          is_virtualized = virtualized;
          logical_cores = clamp_cores env.nprocessors_onln;
          boot_timestamp = env.localtime;
        };
        initialized = true;
      }

abbrev pub get_host_profile : HostState → HostProfile
get_host_profile s = s.profile
