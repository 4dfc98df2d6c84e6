-- ===== src/Host/Init.antt =====
-- The profile is filled once, and its core count can be relied on.
use hybrid_pqc_benchmarking.Prelude.{◌≡◌, true, arith}
use hybrid_pqc_benchmarking.Prelude.Int.{ℤ, pos, negsuc, AtLeast}
use hybrid_pqc_benchmarking.Host.{HostEnv, HostState, clamp_cores, host_profile_init}

-- What holds of the static variables once `host_profile_init` has run.
abbrev pub IsReady : HostState → Type 0
IsReady s = (s.initialized ≡ true) × AtLeast 1 s.profile.logical_cores

clamp_cores-AtLeast : (n : ℤ) → AtLeast 1 (clamp_cores n)
unfolding clamp_cores
clamp_cores-AtLeast (pos n) = ground arith
clamp_cores-AtLeast (negsuc n) = omega arith

-- Before the first call nothing is claimed, after it the core count is at least 1.
abbrev pub IsSound : HostState → Type 0
IsSound s = s.initialized ≡ true → AtLeast 1 s.profile.logical_cores

-- From zeroed statics or any later state, a call leaves an initialized profile with a core count
-- of at least 1, whatever the operating system answers.
pub host_profile_init-IsReady :
    (env : HostEnv) (s : HostState) → IsSound s → IsReady (host_profile_init env s)
unfolding host_profile_init
host_profile_init-IsReady env s h = ground (arith, clamp_cores-AtLeast env.nprocessors_onln)

-- A second call changes nothing, even if the operating system would answer otherwise.
host_profile_init-idempotent :
    (env env' : HostEnv) (s : HostState)
    → host_profile_init env' (host_profile_init env s) ≡ host_profile_init env s
unfolding host_profile_init
host_profile_init-idempotent env env' s = ground arith
