-- ===== src/Main/Shutdown.antt =====
-- What `serve` has open while it runs, and what it leaves.
use rps_backend.Hub.Conn.{close_conn, close_normal, is_closing}
use rps_backend.Hub.Defs.{Hub, close_all, each, modify_conn}
use rps_backend.Main.Defs.{
  Ending, Meanwhile, Process, listener_fails, run_stages, serve, signalled, stages,
}
use rps_backend.Store.Defs.{Text}
use rps_backend.Ws.Group.{GroupRun, GroupRun-wait, Handler, Options, Uncounted, wait_returns}
use rps_backend.Prelude.{
  Option, ◌⊎◌, All, Bool, Bool-cases, List, [], arith, contains, false, inl, inr, nat_beq, refl,
  true, ℕ, ◌∷◌, ◌≡◌,
}

pub record Sound (p : Process) : Type 0 where
  pub sweeper_in : p.sweeper ≡ true → p.database ≡ true
  pub listener_in : p.listener ≡ true → p.database ≡ true

pub record Stopped (p : Process) : Type 0 where
  pub no_database : p.database ≡ false
  pub no_sweeper : p.sweeper ≡ false
  pub no_listener : p.listener ≡ false

abbrev pub last_process : Process → List Process → Process
last_process p [] = p
last_process p (q ∷ qs) = last_process q qs

in_open : (p : Process) → p.database ≡ true → Sound p
in_open p e = record { sweeper_in = λ _. e; listener_in = λ _. e }

in_stopped : (p : Process) → p.sweeper ≡ false → p.listener ≡ false → Sound p
in_stopped p s l = record { sweeper_in = λ e. cc; listener_in = λ e. cc }

-- In whatever way `serve` ends, at each of its stages the sweeper and the listener run only while the
-- database is open.
serve-Sound :
    (opens : Bool) (ending : Ending) (m : Meanwhile) (p : Process)
    → Stopped p
    → All Sound (serve opens ending m p).0
unfolding serve stages run_stages
serve-Sound false ending m p k = (in_stopped p k.no_sweeper k.no_listener, tt)
serve-Sound true listener_fails m p k = (
  in_stopped p k.no_sweeper k.no_listener,
  (
    in_open _ refl,
    (
      in_open _ refl,
      (in_open _ refl, (in_open _ refl, (in_open _ refl, (in_stopped _ refl refl, tt)))),
    ),
  ),
)
serve-Sound true signalled m p k = (
  in_stopped p k.no_sweeper k.no_listener,
  (
    in_open _ refl,
    (
      in_open _ refl,
      (
        in_open _ refl,
        (
          in_open _ refl,
          (in_open _ refl, (in_open _ refl, (in_open _ refl, (in_stopped _ refl refl, tt)))),
        ),
      ),
    ),
  ),
)

-- A close request that is not withdrawn.
abbrev pub KeepsClosing : (Hub → Hub) → Type 0
KeepsClosing w =
    (h : Hub) (c : ℕ) → is_closing (h.conns c) ≡ true → is_closing ((w h).conns c) ≡ true

close_one-KeepsClosing : (d status : ℕ) → KeepsClosing (modify_conn d (close_conn status))
unfolding is_closing close_conn
close_one-KeepsClosing d status h c e = ground arith

closes_one :
    (c d status : ℕ) (h : Hub)
    → nat_beq d c ≡ true
    → is_closing ((modify_conn d (close_conn status) h).conns c) ≡ true
unfolding is_closing close_conn
closes_one c d status h same = ground arith

each_close :
    (cs : List ℕ) (status : ℕ) → KeepsClosing (each (λ d. modify_conn d (close_conn status)) cs)
unfolding each
each_close [] status h c e = e
each_close (d ∷ cs) status h c e =
    each_close cs status (modify_conn d (close_conn status) h) c
      (close_one-KeepsClosing d status h c e)

each_closes :
    (cs : List ℕ) (status : ℕ) (h : Hub) (c : ℕ)
    → contains c cs ≡ true
    → is_closing ((each (λ d. modify_conn d (close_conn status)) cs h).conns c) ≡ true
unfolding each
each_closes [] status h c there = cc
each_closes (d ∷ cs) status h c there = elim (Bool-cases (nat_beq d c)) [
  | inl same ↦
      each_close cs status (modify_conn d (close_conn status) h) c (closes_one c d status h same)
  | inr differs ↦ each_closes cs status (modify_conn d (close_conn status) h) c (ground arith)
]

-- After a signal, and where nobody withdraws a close request: `serve` returns no error, the sweeper and
-- the listener are stopped and the database is closed, at each of its stages the sweeper and the
-- listener run only while the database is open, every connection that is registered once the server
-- takes no more requests is asked to close, and unless the time for the shutdown is over no WebSocket
-- handler is left between `Add` and `Done`.
pub serve_signalled :
    (m : Meanwhile) (p : Process) (parse_host : Text → Option Text) (o : Options) (time_over : Bool)
    (group : Handler)
    → Stopped p
    → KeepsClosing m.waiting
    → GroupRun parse_host o group m.remaining
    → wait_returns time_over group ≡ true
    → ((serve true signalled m p).1 ≡ true)
      × Stopped (last_process p (serve true signalled m p).0)
      × All Sound (serve true signalled m p).0
      × ((c : ℕ)
          → contains c (m.draining (m.sweeping (m.serving p.hub))).live ≡ true
          → is_closing ((last_process p (serve true signalled m p).0).hub.conns c) ≡ true)
      × (All Uncounted (last_process p (serve true signalled m p).0).handlers ⊎ (time_over ≡ true))
unfolding serve stages run_stages close_all
serve_signalled m p parse_host o time_over group nothing keeps run waited = (
  refl,
  record { no_database = refl; no_sweeper = refl; no_listener = refl },
  serve-Sound true signalled m p nothing,
  (λ c there.
      let h = m.draining (m.sweeping (m.serving p.hub)) in
      keeps (close_all close_normal h) c (each_closes h.live close_normal h c there)),
  (GroupRun-wait parse_host o time_over group m.remaining run).0 waited,
)
