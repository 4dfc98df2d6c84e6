-- ===== src/Handshake/Worker/Runs.antt =====
-- Every interleaving of the client's two threads (c_dispatch/client.c) ends with the secrets of the
-- sequential route.
use hybrid_pqc_benchmarking.Prelude.{ℕ, ◌≤◌, ◌≡◌, refl, ap, false, Option, none, ◌⊎◌}
use hybrid_pqc_benchmarking.Act.{after}
use hybrid_pqc_benchmarking.External.{Openssl, Liboqs, Blake3}
use hybrid_pqc_benchmarking.Algo.{AlgoCombo}
use hybrid_pqc_benchmarking.Wire.{Endian}
use hybrid_pqc_benchmarking.Handshake.{Party}
use hybrid_pqc_benchmarking.Handshake.Client.{ServerKeys, Secrets, hybrid_rest, hybrid_secrets}
use hybrid_pqc_benchmarking.Handshake.Worker.{
  ClientWorkerPool, Mine, made_of, post_encaps, run_encaps, report_encaps, client_rendezvous,
}
use hybrid_pqc_benchmarking.Rendezvous.{
  returned, asleep, Rendezvous, IsLawfulRendezvous, System, Step, Reach, begin,
}
use hybrid_pqc_benchmarking.Rendezvous.Runs

module _ (ssl : Openssl) (oqs : Liboqs) (b3 : Blake3) (e : Endian) (combo : AlgoCombo)
    (c_priv : ssl.Pkey) (keys : ServerKeys) where
  abbrev R : Rendezvous ClientWorkerPool (Mine ssl oqs combo c_priv keys) oqs.World
  R = client_rendezvous ssl oqs combo c_priv keys

  abbrev Sys : Type 0
  Sys = System ClientWorkerPool (Mine ssl oqs combo c_priv keys) oqs.World

  pub client_rendezvous-lawful : IsLawfulRendezvous R
  unfolding post_encaps run_encaps report_encaps
  client_rendezvous-lawful = record {
    has_work-post = λ p. refl;
    work_done-post = λ p. refl;
    work_done-compute = λ p k. refl;
    has_work-publish = λ p. refl;
    work_done-publish = λ p. refl;
  }

  module _ (pool : ClientWorkerPool) (p : Party ssl oqs) (quiet : pool.has_work ≡ false) where
    abbrev start : Sys
    start = begin R pool (none, p.ec) p.kem

    -- What the calling thread goes on with: both shares, and the party with the libraries' states.
    abbrev pub go_on : Sys → Option Secrets × Party ssl oqs
    go_on s =
        after (s.mine.0, record p { ec = s.mine.1; kem = s.theirs })
          (hybrid_rest ssl oqs b3 e combo (made_of s.box.args))

    pub record SecretsReturned (s : Sys) : Type 0 where
      pub secrets : go_on s ≡ hybrid_secrets ssl oqs b3 e combo c_priv keys p
      pub idle_worker : s.worker ≡ asleep
      pub no_work : s.box.has_work ≡ false
      pub still_up : s.box.shutdown ≡ pool.shutdown

    -- In every interleaving of the two threads, when the calling thread is past its wait, what it
    -- goes on with gives exactly what the sequential route gives: the secrets or the failure, the
    -- frame that is sent, and the libraries' states. The worker is asleep again with no work, so
    -- that the next handshake may begin.
    pub Reach-hybrid_secrets : (s : Sys) → Reach R start s → s.main ≡ returned → SecretsReturned s
    unfolding hybrid_secrets post_encaps run_encaps report_encaps
    Reach-hybrid_secrets s r done =
        let at_end =
          Runs.Reach-last_state R client_rendezvous-lawful pool (none, p.ec) p.kem quiet s r done in
        record {
          secrets = ap go_on at_end;
          idle_worker = ap (λ (x : Sys). x.worker) at_end;
          no_work = ap (λ (x : Sys). x.box.has_work) at_end;
          still_up = ap (λ (x : Sys). x.box.shutdown) at_end;
        }

    pub steps : {s : Sys} → Reach R start s → ℕ
    steps r = Runs.steps R client_rendezvous-lawful pool (none, p.ec) p.kem quiet r

    -- The wait ends, where a thread that waits sleeps until it is signalled: in every reachable
    -- state the calling thread is past it or some thread can take a step, and no run has more than
    -- seven steps. Wake-ups without a signal are left out.
    pub Reach-encaps_progress :
        (s : Sys) (r : Reach R start s)
        → ((s.main ≡ returned) ⊎ ((t : Sys) × Step R s t)) × (steps r ≤ 7)
    unfolding steps
    Reach-encaps_progress s r =
        Runs.Reach-progress R client_rendezvous-lawful pool (none, p.ec) p.kem quiet s r
