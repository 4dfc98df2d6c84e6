-- ===== src/Handshake/Worker/Lifecycle.antt =====
-- `client_worker_init`, `client_worker_shutdown` and the handshakes between them (c_dispatch/client.c),
-- in any order.
use hybrid_pqc_benchmarking.Prelude.{◌≡◌, ◌∙◌, Bool, true, false, none, arith}
use hybrid_pqc_benchmarking.External.{Openssl, Liboqs, Blake3}
use hybrid_pqc_benchmarking.Algo.{AlgoCombo}
use hybrid_pqc_benchmarking.Wire.{Endian}
use hybrid_pqc_benchmarking.Dispatch.{DispatchRoute, route_sequential, route_parallel}
use hybrid_pqc_benchmarking.Handshake.{Party}
use hybrid_pqc_benchmarking.Handshake.Client.{ServerKeys}
use hybrid_pqc_benchmarking.Handshake.Worker.{
  Mine, ClientWorkerPool, ClientWorker, idle_pool, client_worker_init, client_worker_shutdown,
  pqc_dispatched, client_rendezvous,
}
use hybrid_pqc_benchmarking.Handshake.Worker.Runs.{Reach-hybrid_secrets}
use hybrid_pqc_benchmarking.Rendezvous.{returned, System, Reach, begin}

-- The globals when the program starts.
abbrev pub zero_worker : ClientWorker
zero_worker = record { pool = idle_pool; initialized = false }

-- A worker that takes work.
abbrev pub IsIdle : ClientWorkerPool → Type 0
IsIdle pool = (pool.has_work ≡ false) × (pool.shutdown ≡ false)

-- Where the worker counts as initialized, it takes work.
abbrev IsReady : ClientWorker → Type 0
IsReady g = g.initialized ≡ true → IsIdle g.pool

init-IsReady :
    (created : Bool) (g : ClientWorker) → IsReady g → IsReady (client_worker_init created g).1
unfolding client_worker_init
init-IsReady created g r h = ground arith

shutdown-IsReady : (g : ClientWorker) → IsReady g → IsReady (client_worker_shutdown g)
unfolding client_worker_shutdown
shutdown-IsReady g r h = ground arith

dispatched-IsReady :
    (created : Bool) (route : DispatchRoute) (g : ClientWorker)
    → IsReady g
    → (pqc_dispatched created route g).0 ≡ true
    → ((pqc_dispatched created route g).1.initialized ≡ true)
      × IsIdle (pqc_dispatched created route g).1.pool
unfolding pqc_dispatched
dispatched-IsReady created route_parallel g r h = (h, init-IsReady created g r h)
dispatched-IsReady created route_sequential g r h = absurd (ground arith)

module _ (ssl : Openssl) (oqs : Liboqs) (b3 : Blake3) (e : Endian) where
  -- A handshake that hands its encapsulation over, up to the end of its wait.
  pub record Handed (g h : ClientWorker) : Type 0 where
    pub combo : AlgoCombo
    pub c_priv : ssl.Pkey
    pub keys : ServerKeys
    pub party : Party ssl oqs
    pub last : System ClientWorkerPool (Mine ssl oqs combo c_priv keys) oqs.World
    pub run :
        Reach
          (client_rendezvous ssl oqs combo c_priv keys)
          (begin (client_rendezvous ssl oqs combo c_priv keys) g.pool (none, party.ec) party.kem)
          last
    pub past : last.main ≡ returned
    pub left : h ≡ record g { pool = last.box }

  -- The histories of the worker since the program started.
  pub data Lives : ClientWorker → Type 0 where
    born : Lives zero_worker
    lives_init :
        {g : ClientWorker} (created : Bool) → Lives g → Lives (client_worker_init created g).1
    lives_shutdown : {g : ClientWorker} → Lives g → Lives (client_worker_shutdown g)
    lives_sequential :
        {g : ClientWorker} (created : Bool) (route : DispatchRoute)
        → Lives g
        → (pqc_dispatched created route g).0 ≡ false
        → Lives (pqc_dispatched created route g).1
    lives_handed :
        {g h : ClientWorker} (created : Bool) (route : DispatchRoute)
        → Lives g
        → (pqc_dispatched created route g).0 ≡ true
        → Handed (pqc_dispatched created route g).1 h
        → Lives h

  Handed-IsReady :
      (g h : ClientWorker) → g.initialized ≡ true → IsIdle g.pool → Handed g h → IsReady h
  Handed-IsReady g h up idle x k =
      let back =
        Reach-hybrid_secrets ssl oqs b3 e x.combo x.c_priv x.keys g.pool x.party idle.0 x.last x.run
          x.past in
      rw (x.left) (back.no_work, back.still_up ∙ idle.1)

  not_dispatched-IsReady :
      (created : Bool) (route : DispatchRoute) (g : ClientWorker)
      → IsReady g
      → IsReady (pqc_dispatched created route g).1
  unfolding pqc_dispatched
  not_dispatched-IsReady created route_parallel g r = init-IsReady created g r
  not_dispatched-IsReady created route_sequential g r = r

  Lives-IsReady : {g : ClientWorker} → Lives g → IsReady g
  Lives-IsReady born = λ h. absurd (ground arith)
  Lives-IsReady (lives_init {g} created l) = init-IsReady created g (Lives-IsReady l)
  Lives-IsReady (lives_shutdown {g} l) = shutdown-IsReady g (Lives-IsReady l)
  Lives-IsReady (lives_sequential {g} created route l d) =
      not_dispatched-IsReady created route g (Lives-IsReady l)
  Lives-IsReady (lives_handed {g} {h} created route l d x) =
      let (up, idle) = dispatched-IsReady created route g (Lives-IsReady l) d in
      Handed-IsReady (pqc_dispatched created route g).1 h up idle x

  -- After any history of initializations, shutdowns and handshakes, a handshake that hands its
  -- encapsulation over finds a worker that is up, has no work left over and was not told to end.
  pub Lives-IsIdle :
      (g : ClientWorker) (created : Bool) (route : DispatchRoute)
      → Lives g
      → (pqc_dispatched created route g).0 ≡ true
      → ((pqc_dispatched created route g).1.initialized ≡ true)
        × IsIdle (pqc_dispatched created route g).1.pool
  Lives-IsIdle g created route l d = dispatched-IsReady created route g (Lives-IsReady l) d
