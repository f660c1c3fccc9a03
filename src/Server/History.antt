-- ===== src/Server/History.antt =====
-- What the server does in the course of its life: its operations in any order, where what happens while
-- one of them waits for a lock is again something that the server does.
use Prim.Native.String.{String}
use rps_backend.Api.Defs.{Chance, Library}
use rps_backend.Hub.Defs.{Hub}
use rps_backend.Hub.Operations.{
  HubOp, Others, op_acts, op_arrives, op_checks_health, op_creates_game, op_creates_player,
  op_delivers, op_departs, op_lands, op_passes, op_rejects, op_shuts_down, op_sweeps, op_times_out,
  run_op,
}
use rps_backend.Hub.Expiry.{PlayerWaits, SweepWaits}
use rps_backend.Hub.Sweep.{PlayerCalm}
use rps_backend.Hub.Served.{Served, run_op-Served}
use rps_backend.Hub.Steps.{AllPreserve, Preserves}
use rps_backend.Hub.Support.{External, Waits}
use rps_backend.Prelude.{All, Bool, List, [], false, true, ℕ, ◌∷◌, ◌≡◌}
use rps_backend.Server.Rows.{Rows}
use rps_backend.Store.Defs.{Game, Store, Text}

-- The operations that no other goroutine comes between.
abbrev pub is_instant : HubOp → Bool
is_instant (op_acts x w name c request_id raw) = false
is_instant (op_departs ws c) = false
is_instant (op_sweeps v player_ttl game_ttl) = false
is_instant (op_creates_player lib ch body) = false
is_instant _ = true

-- Somebody sees the table of games.
abbrev pub look : Hub → Hub
look h = record h { seen = h.store.games }

mutual
  -- `f` is what the server does in a sequence of operations that each meet `Fits`. Where it is watched,
  -- somebody may look at the table of games at any moment, also while an operation waits.
  pub data History (Fits : HubOp → Type 0) : Bool → (Hub → Hub) → Type 0 where
    begins : {watched : Bool} → History Fits watched (λ h. h)
    then_look :
        {watched : Bool} (f : Hub → Hub)
        → watched ≡ true
        → History Fits watched f
        → History Fits watched (λ h. look (f h))
    then_op :
        {watched : Bool} (f : Hub → Hub) (op : HubOp)
        → History Fits watched f
        → Waiting Fits watched op
        → Fits op
        → History Fits watched (λ h. run_op op (f h))

  -- While `op` waits, the server does nothing but its operations.
  pub data Waiting (Fits : HubOp → Type 0) : Bool → HubOp → Type 0 where
    at_once : {watched : Bool} (op : HubOp) → is_instant op ≡ true → Waiting Fits watched op
    acting :
        {watched : Bool} (x : External) (w : Waits) (name : String) (c : ℕ) (request_id raw : Text)
        → Histories Fits watched w.leaving
        → History Fits watched w.entering
        → Waiting Fits watched (op_acts x w name c request_id raw)
    departing :
        {watched : Bool} (ws : List (Hub → Hub)) (c : ℕ)
        → Histories Fits watched ws
        → Waiting Fits watched (op_departs ws c)
    sweeping :
        {watched : Bool} (v : SweepWaits) (player_ttl game_ttl : ℕ)
        → ((i : ℕ) → History Fits watched (v.starting i))
        → ((i : ℕ) → Expiring Fits watched (v.of_player i))
        → History Fits watched v.turning
        → ((i : ℕ) → History Fits watched (v.of_game i))
        → Waiting Fits watched (op_sweeps v player_ttl game_ttl)
    creating :
        {watched : Bool} (lib : Library) (ch : Chance) (body : Text)
        → Writers Fits watched ch.races
        → Waiting Fits watched (op_creates_player lib ch body)

  pub data Histories (Fits : HubOp → Type 0) : Bool → List (Hub → Hub) → Type 0 where
    no_wait : {watched : Bool} → Histories Fits watched []
    wait_then :
        {watched : Bool} (f : Hub → Hub) (fs : List (Hub → Hub))
        → History Fits watched f
        → Histories Fits watched fs
        → Histories Fits watched (f ∷ fs)

  -- What others do while a player expires.
  pub data Expiring (Fits : HubOp → Type 0) : Bool → PlayerWaits → Type 0 where
    expiring :
        {watched : Bool} (v : PlayerWaits)
        → History Fits watched v.loading
        → ((i : ℕ) → History Fits watched (v.closing i))
        → History Fits watched v.dropping
        → Histories Fits watched v.leaving
        → History Fits watched v.deleting
        → Expiring Fits watched v

  -- What operations on a hub do to the database that it shares.
  pub data Writers (Fits : HubOp → Type 0) : Bool → List (Store → Store) → Type 0 where
    no_writer : {watched : Bool} → Writers Fits watched []
    writer_then :
        {watched : Bool} (f : Hub → Hub) (h : Hub) (races : List (Store → Store))
        → History Fits false f
        → Writers Fits watched races
        → Writers Fits watched ((λ s. (f (record h { store = s })).store) ∷ races)

abbrev Race : (Hub → Type 0) → (Store → Store) → Type 0
Race P race = (h : Hub) → P h → P (record h { store = race h.store })

at_once-Others : (P : Hub → Type 0) (op : HubOp) → is_instant op ≡ true → Others P op
at_once-Others P op_arrives e = tt
at_once-Others P (op_acts x w name c request_id raw) e = absurd (cc)
at_once-Others P (op_lands c request_id body) e = tt
at_once-Others P (op_rejects c request_id body) e = tt
at_once-Others P (op_times_out c) e = tt
at_once-Others P (op_delivers c) e = tt
at_once-Others P (op_departs ws c) e = absurd (cc)
at_once-Others P (op_sweeps v player_ttl game_ttl) e = absurd (cc)
at_once-Others P (op_shuts_down status) e = tt
at_once-Others P (op_creates_player lib ch body) e = absurd (cc)
at_once-Others P (op_creates_game lib ch body) e = tt
at_once-Others P op_checks_health e = tt
at_once-Others P (op_passes time) e = tt

-- Where nobody looks, what was seen is `seen` throughout.
abbrev pub Now : (List Game → List Game → Type 0) → Bool → List Game → Hub → Type 0
Now G true seen h = G h.seen h.store.games
Now G false seen h = G seen h.store.games

module _ (Fits : HubOp → Type 0) (G : List Game → List Game → Type 0)
    (k : (watched : Bool) (seen : List Game) → Served Fits (Now G watched seen))
    (shown : (seen gs : List Game) → G seen gs → G gs gs) where
  look-Now : (w : Bool) (seen : List Game) → w ≡ true → Preserves (Now G w seen) look
  look-Now true seen e h q = shown h.seen h.store.games q
  look-Now false seen e h q = absurd (cc)

  mutual
    History-Now :
        (w : Bool) (seen : List Game) {f : Hub → Hub}
        → History Fits w f
        → Preserves (Now G w seen) f
    History-Now w seen begins h q = q
    History-Now w seen (then_look f e before) h q =
        look-Now w seen e (f h) (History-Now w seen before h q)
    History-Now w seen (then_op f op before waits fits) h q =
        run_op-Served (k w seen) op (Waiting-Others w seen waits) fits (f h)
          (History-Now w seen before h q)

    Waiting-Others :
        (w : Bool) (seen : List Game) {op : HubOp} → Waiting Fits w op → Others (Now G w seen) op
    Waiting-Others w seen (at_once op e) = at_once-Others (Now G w seen) op e
    Waiting-Others w seen (acting x v name c request_id raw leaving entering) =
        (Histories-Now w seen leaving, History-Now w seen entering)
    Waiting-Others w seen (departing ws c all) = Histories-Now w seen all
    Waiting-Others w seen (sweeping v player_ttl game_ttl starting of_player turning of_game) =
        record {
          starting = λ i. History-Now w seen (starting i);
          of_player = λ i. Expiring-Now w seen (of_player i);
          turning = History-Now w seen turning;
          of_game = λ i. History-Now w seen (of_game i);
        }
    Waiting-Others w seen (creating lib ch body all) = Writers-Now w seen all

    Expiring-Now :
        (w : Bool) (seen : List Game) {v : PlayerWaits}
        → Expiring Fits w v
        → PlayerCalm (Now G w seen) v
    Expiring-Now w seen (expiring v loading closing dropping leaving deleting) = record {
      loading = History-Now w seen loading;
      closing = λ i. History-Now w seen (closing i);
      dropping = History-Now w seen dropping;
      leaving = Histories-Now w seen leaving;
      deleting = History-Now w seen deleting;
    }

    Histories-Now :
        (w : Bool) (seen : List Game) {fs : List (Hub → Hub)}
        → Histories Fits w fs
        → AllPreserve (Now G w seen) fs
    Histories-Now w seen no_wait = tt
    Histories-Now w seen (wait_then f fs first rest) =
        (History-Now w seen first, Histories-Now w seen rest)

    Writers-Now :
        (w : Bool) (seen : List Game) {races : List (Store → Store)}
        → Writers Fits w races
        → All (Race (Now G w seen)) races
    Writers-Now w seen no_writer = tt
    Writers-Now true seen (writer_then f h races first rest) = (
      λ j q. History-Now false j.seen first (record h { store = j.store }) q,
      Writers-Now true seen rest,
    )
    Writers-Now false seen (writer_then f h races first rest) = (
      λ j q. History-Now false seen first (record h { store = j.store }) q,
      Writers-Now false seen rest,
    )

  pub History-games : (f : Hub → Hub) → History Fits true f → (h : Hub) → Rows G h → Rows G (f h)
  History-games f past h q = History-Now true [] past h q
