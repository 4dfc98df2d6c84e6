-- ===== src/Tests/Hosts.antt =====
-- The table, the host profile and the router at concrete data.
use hybrid_pqc_benchmarking.Prelude.{
  ℕ, ◌≡◌, ◌↔◌, refl, true, false, none, some, List, [], length, codes, ◌<◌,
}
use hybrid_pqc_benchmarking.Prelude.Int.{pos, negsuc}
use hybrid_pqc_benchmarking.Algo.{AlgoCombo, hybrid, p256, mlkem_768, get_combo_by_id}
use hybrid_pqc_benchmarking.Algo.Table.{IsConsistent, get_combo_by_id-IsConsistent}
use hybrid_pqc_benchmarking.Host.{
  HostProfile, HostEnv, HostState, detect_hypervisor, host_profile_init, vm_vendors,
}
use hybrid_pqc_benchmarking.Host.Detect.{
  Names, vendor_text, Lines, Any, IsFlagLine, detect_hypervisor-dmi, detect_hypervisor-cpuinfo,
}
use hybrid_pqc_benchmarking.Host.Init.{IsReady, host_profile_init-IsReady}
use hybrid_pqc_benchmarking.Dispatch.{route_parallel, adaptive_dispatch}
use hybrid_pqc_benchmarking.Dispatch.Rules.{IsParallel, adaptive_dispatch_iff}

-- The second entry of the table.
abbrev pub p256_combo : AlgoCombo
p256_combo = record {
  id = 2;
  label = "Hybrid: SecP256r1 + ML-KEM-768";
  profile = hybrid;
  classical_curve = p256;
  pqc_alg = mlkem_768;
  pqc_name = some "ML-KEM-768";
  info = "Hybrid-P256-MLKEM768-v1";
}

-- A laptop with four cores.
abbrev pub laptop : HostProfile
laptop = record {
  hostname = codes "host";
  sys_vendor = codes "LENOVO";
  is_virtualized = false;
  logical_cores = pos 4;
  boot_timestamp = [];
}

p256_found : get_combo_by_id (pos 2) ≡ some p256_combo
unfolding get_combo_by_id
p256_found = refl

get_combo_by_id-IsConsistent_example : IsConsistent p256_combo × (pos p256_combo.id ≡ pos 2)
get_combo_by_id-IsConsistent_example = get_combo_by_id-IsConsistent (pos 2) p256_combo p256_found

adaptive_dispatch_iff_example :
    (adaptive_dispatch p256_combo laptop ≡ route_parallel) ↔ IsParallel p256_combo laptop
adaptive_dispatch_iff_example = adaptive_dispatch_iff p256_combo laptop

p256_on_two :
    adaptive_dispatch p256_combo (record laptop { logical_cores = pos 2 }) ≡ route_parallel
unfolding adaptive_dispatch
p256_on_two = refl

abbrev qemu : HostEnv
qemu = record {
  gethostname = none;
  dmi_sys_vendor = some (codes "qemu\n");
  cpuinfo = none;
  nprocessors_onln = negsuc 0;
  localtime = [];
}

abbrev cloud : HostEnv
cloud = record qemu {
  dmi_sys_vendor = none;
  cpuinfo = some (codes "model\nflags : fpu hypervisor\n");
}

abbrev off : HostState
off = record { profile = laptop; initialized = false }

qemu_is_virtual : detect_hypervisor qemu ≡ (true, codes "qemu")
unfolding detect_hypervisor
qemu_is_virtual = refl

cloud_is_virtual : (detect_hypervisor cloud).0 ≡ true
unfolding detect_hypervisor
cloud_is_virtual = refl

detect_hypervisor-dmi_example :
    ((detect_hypervisor qemu).1 ≡ vendor_text (codes "qemu\n"))
    × (((detect_hypervisor qemu).0 ≡ true) ↔ Names (vendor_text (codes "qemu\n")) vm_vendors)
    × (length (detect_hypervisor qemu).1 < 256)
detect_hypervisor-dmi_example = detect_hypervisor-dmi qemu (codes "qemu\n") refl

detect_hypervisor-cpuinfo_example :
    (ls : List (List ℕ)) × Lines 512 (codes "model\nflags : fpu hypervisor\n") ls
    × (((detect_hypervisor cloud).0 ≡ true) ↔ Any IsFlagLine ls)
detect_hypervisor-cpuinfo_example =
    detect_hypervisor-cpuinfo cloud (codes "model\nflags : fpu hypervisor\n") refl refl

off_sound : off.initialized ≡ true → ⊥
off_sound h = cc

host_profile_init-IsReady_example : IsReady (host_profile_init qemu off)
host_profile_init-IsReady_example = host_profile_init-IsReady qemu off (λ h. absurd (off_sound h))
