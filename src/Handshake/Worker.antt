-- ===== src/Handshake/Worker.antt =====
-- The worker pool of c_dispatch/client.c: one thread that is kept between handshakes and does the
-- encapsulation of the parallel route while the calling thread does the ECDH.
pub mod Runs
pub mod Lifecycle
use hybrid_pqc_benchmarking.Prelude.{
  ℕ, String, Bool, true, false, Option, none, some, List, if◌then◌else◌,
}
use hybrid_pqc_benchmarking.Act.{Act}
use hybrid_pqc_benchmarking.External.{Openssl, Liboqs}
use hybrid_pqc_benchmarking.Algo.{AlgoCombo}
use hybrid_pqc_benchmarking.Dispatch.{DispatchRoute, route_sequential, route_parallel}
use hybrid_pqc_benchmarking.Handshake.{Secret, classical_secret}
use hybrid_pqc_benchmarking.Handshake.Encaps.{Encapsulated, client_pqc_encaps_worker}
use hybrid_pqc_benchmarking.Handshake.Client.{ServerKeys}
use hybrid_pqc_benchmarking.Rendezvous.{Rendezvous}

-- `PQCEncapsArgs`: what the worker reads, and in `made` what it writes; `none` is `success == 0`.
pub record PqcEncapsArgs : Type 0 where
  pub pqc_name : Option String
  pub q_pk_b64 : Option (List ℕ)
  pub q_pk_raw : Option (List ℕ)
  pub made : Option Encapsulated

pub record ClientWorkerPool : Type 0 where
  pub args : Option PqcEncapsArgs
  pub has_work : Bool
  pub work_done : Bool
  pub shutdown : Bool

-- `g_client_worker` and `g_client_worker_initialized`.
pub record ClientWorker : Type 0 where
  pub pool : ClientWorkerPool
  pub initialized : Bool

-- After `memset(&g_client_worker, 0, sizeof(g_client_worker))`.
abbrev pub idle_pool : ClientWorkerPool
idle_pool = record { args = none; has_work = false; work_done = false; shutdown = false }

-- `created` says whether `pthread_create` succeeded. The result is `true` for 0.
unfoldable pub client_worker_init : Bool → ClientWorker → Bool × ClientWorker
client_worker_init created g =
    if g.initialized
    then (true, g)
    else (created, record { pool = idle_pool; initialized = created })

-- The worker has ended when this returns.
unfoldable pub client_worker_shutdown : ClientWorker → ClientWorker
client_worker_shutdown g =
    if g.initialized
    then record { pool = record (g.pool) { shutdown = true }; initialized = false }
    else g

-- Whether the encapsulation goes to the worker, in the hybrid profile.
unfoldable pub pqc_dispatched : Bool → DispatchRoute → ClientWorker → Bool × ClientWorker
unfolding client_worker_init
pqc_dispatched created route_parallel g =
    let (_rc, g') = client_worker_init created g in (g'.initialized, g')
pqc_dispatched created route_sequential g = (false, g)

abbrev pub pqc_args : AlgoCombo → ServerKeys → PqcEncapsArgs
pqc_args combo keys = record {
  pqc_name = combo.pqc_name;
  q_pk_b64 = none;
  q_pk_raw = keys.pqc_pk;
  made = none;
}

-- The block that hands the work over.
unfoldable pub post_encaps : PqcEncapsArgs → ClientWorkerPool → ClientWorkerPool
post_encaps args pool = record pool { args = some args; work_done = false; has_work = true }

-- The block of the worker that reports completion.
unfoldable pub report_encaps : ClientWorkerPool → ClientWorkerPool
report_encaps pool = record pool { has_work = false; work_done = true }

abbrev pub made_of : Option PqcEncapsArgs → Option Encapsulated
made_of none = none
made_of (some args) = args.made

module _ (ssl : Openssl) (oqs : Liboqs) where
  abbrev encaps_args : Option PqcEncapsArgs → oqs.World → Option PqcEncapsArgs × oqs.World
  encaps_args none w = (none, w)
  encaps_args (some a) w =
      let (made, w') = client_pqc_encaps_worker ssl oqs a.pqc_name a.q_pk_b64 a.q_pk_raw w in
      (some (record a { made = made }), w')

  -- The worker between its two blocks.
  unfoldable pub run_encaps : ClientWorkerPool → oqs.World → ClientWorkerPool × oqs.World
  run_encaps pool w = let (args, w') = encaps_args pool.args w in (record pool { args = args }, w')

  module _ (combo : AlgoCombo) (c_priv : ssl.Pkey) (keys : ServerKeys) where
    -- What the calling thread alone uses: its secret and OpenSSL. The worker alone uses liboqs.
    abbrev pub Mine : Type 0
    Mine = Option Secret × ssl.World

    abbrev pub own_secret : Mine → Mine
    own_secret (c, ec) = classical_secret ssl combo.classical_curve c_priv keys.srv_pub ec

    abbrev pub client_rendezvous : Rendezvous ClientWorkerPool Mine oqs.World
    client_rendezvous = record {
      has_work = λ pool. pool.has_work;
      work_done = λ pool. pool.work_done;
      post = post_encaps (pqc_args combo keys);
      own_share = own_secret;
      join = λ pool mine. mine;
      compute = run_encaps;
      publish = report_encaps;
    }
