-- ===== src/Ws/Group.antt =====
-- `New`, `Wait` and the wait group of internal/ws/ws.go: the handlers of all connections, from
-- `websocket.Accept` to the return of `ServeHTTP`, and who waits for them.
use rps_backend.Prelude.{
  ℤ, All, Bool, List, Option, [], arith, false, inl, inr, nat_eq, refl, true, ℕ, ◌+◌, ◌-◌, ◌==◌,
  ◌||◌, ◌∷◌, ◌≡◌, ◌↔◌, ◌⊎◌,
}
use rps_backend.Store.Defs.{Text}
use rps_backend.Threads.{Moves, count, count-Moves, count-zero}
use rps_backend.Ws.Origins.{Accept, accept_options}

-- The fields `Hub` and `Logger` are passed on as well.
pub record Options : Type 0 where
  pub allowed_origins : List Text
  pub auth_timeout : ℤ
  pub ping_interval : ℤ

pub record Handler : Type 0 where
  pub accept : Accept
  pub auth_timeout : ℤ
  pub ping_interval : ℤ
  pub wg : ℕ  -- the counter of the wait group

unfoldable pub new_handler : (Text → Option Text) → Options → Handler
new_handler parse_host o = record {
  accept = accept_options parse_host o.allowed_origins;
  auth_timeout = o.auth_timeout;
  ping_interval = o.ping_interval;
  wg = 0;
}

-- `h.wg.Add(1)` and `h.wg.Done()`
unfoldable pub add_one : Handler → Handler
add_one h = record h { wg = h.wg + 1 }

unfoldable pub done_one : Handler → Handler
done_one h = record h { wg = h.wg - 1 }

-- `Wait` returns once the wait group is empty, or its context is done.
unfoldable pub wait_returns : Bool → Handler → Bool
wait_returns ctx_done h = h.wg == 0 || ctx_done

-- How far `ServeHTTP` has come: `Accept` has taken the connection over, it is counted, its connection is
-- registered with the hub, its reader has ended and it is forgotten by the hub, it has returned.
pub data HandlerStage : Type 0 where
  accepted counted registered disconnected returned : HandlerStage

abbrev pub is_counted : HandlerStage → Bool
is_counted counted = true
is_counted registered = true
is_counted disconnected = true
is_counted _ = false

pub data GroupStep (h : Handler) (ss : List HandlerStage)
    : Handler → List HandlerStage → Type 0 where
  accepts : GroupStep h ss h (accepted ∷ ss)
  adds : {ts : List HandlerStage} → Moves accepted counted ss ts → GroupStep h ss (add_one h) ts
  registers : {ts : List HandlerStage} → Moves counted registered ss ts → GroupStep h ss h ts
  disconnects : {ts : List HandlerStage} → Moves registered disconnected ss ts → GroupStep h ss h ts
  returns :
      {ts : List HandlerStage} → Moves disconnected returned ss ts → GroupStep h ss (done_one h) ts

pub data GroupRun (parse_host : Text → Option Text) (o : Options)
    : Handler → List HandlerStage → Type 0 where
  begins : GroupRun parse_host o (new_handler parse_host o) []
  goes_on :
      {h h' : Handler} {ss ts : List HandlerStage}
      → GroupRun parse_host o h ss
      → GroupStep h ss h' ts
      → GroupRun parse_host o h' ts

module _ {h : Handler} {ss : List HandlerStage} where
  step_count :
      {h' : Handler} {ts : List HandlerStage}
      → GroupStep h ss h' ts
      → h.wg ≡ count is_counted ss
      → h'.wg ≡ count is_counted ts
  unfolding add_one done_one
  step_count accepts e = omega arith
  step_count (adds m) e = omega (arith, count-Moves {0} is_counted m)
  step_count (registers m) e = omega (arith, count-Moves {0} is_counted m)
  step_count (disconnects m) e = omega (arith, count-Moves {0} is_counted m)
  step_count (returns m) e = omega (arith, count-Moves {0} is_counted m)

-- The counter is the number of the handlers between `Add` and `Done`.
run_count :
    {parse_host : Text → Option Text} {o : Options} {h : Handler} {ss : List HandlerStage}
    → GroupRun parse_host o h ss
    → h.wg ≡ count is_counted ss
unfolding new_handler
run_count begins = refl
run_count (goes_on before step) = step_count step (run_count before)

-- A handler that nobody waits for: it has returned, or has not come to `Add` yet.
abbrev pub Uncounted : HandlerStage → Type 0
Uncounted s = is_counted s ≡ false

any_stage : (ss : List HandlerStage) → All (λ s. Unit {0}) ss
any_stage [] = tt
any_stage (s ∷ ss) = (tt, any_stage ss)

Uncounted-zero : (ss : List HandlerStage) → All Uncounted ss → count is_counted ss ≡ 0
Uncounted-zero [] all = refl
Uncounted-zero (s ∷ ss) all = ground (arith, Uncounted-zero ss all.1)

wait_iff :
    (ctx_done : Bool) (h : Handler) (ss : List HandlerStage)
    → h.wg ≡ count is_counted ss
    → (wait_returns ctx_done h ≡ true) ↔ (All Uncounted ss ⊎ (ctx_done ≡ true))
unfolding wait_returns
wait_iff true h ss e = (λ w. inr refl, λ u. ground arith)
wait_iff false h ss e = (
  λ w. inl (
      count-zero (λ s. Unit {0}) Uncounted is_counted ss (ground arith) (any_stage ss)
        (λ s k u. u)),
  λ u. elim u [ inl all ↦ ground (arith, Uncounted-zero ss all) | inr never ↦ absurd (cc) ],
)

-- However the handlers of connections take turns: `Wait` returns exactly when its context is done or no
-- handler is between `Add` and `Done`. Who has been accepted and not yet counted is not waited for.
pub GroupRun-wait :
    (parse_host : Text → Option Text) (o : Options) (ctx_done : Bool) (h : Handler)
    (ss : List HandlerStage)
    → GroupRun parse_host o h ss
    → (wait_returns ctx_done h ≡ true) ↔ (All Uncounted ss ⊎ (ctx_done ≡ true))
GroupRun-wait parse_host o ctx_done h ss run = wait_iff ctx_done h ss (run_count run)
