-- ===== src/Hub/Expired.antt =====
-- What `ExpireGame` does to a game that has been inactive too long: the game is deleted, and its
-- connections are detached and told to close.
use rps_backend.Errors.{Action, Result, err, not_found, ok, ◌>>=◌}
use rps_backend.Hub.Attach.{
  Coherent, attached-detach_locked, attached-modify, close_conn-KeepsAttachment,
  detach_locked-Coherent,
}
use rps_backend.Hub.Conn.{Attachment, close_conn, close_game_expired, is_closing}
use rps_backend.Hub.Defs.{Hub, detach_from, detach_locked, each, modify_conn, on_store}
use rps_backend.Hub.Expiry.{expire_game, skip_not_found, when, with_loaded}
use rps_backend.Hub.Keeps.{Coherent-Quiet, each-Leaves}
use rps_backend.Hub.Steps.{each-Preserves, on_store_result}
use rps_backend.Prelude.{
  Bool, List, Option, Option-cases, [], ap, arith, contains, false, if◌then◌else◌, inl, inr, ltb,
  nat_beq, none, refl, some, true, ℕ, ◌||◌, ◌∙◌, ◌∷◌, ◌≡◌,
}
use rps_backend.Rules.Defs.{code}
use rps_backend.Store.Defs.{
  Game, Store, delete_game, delete_game_row, find_game, get_game, statement_clear,
}
use rps_backend.Store.Ids.{find_game-delete}

attached-each_detach :
    (cs : List ℕ) (c : ℕ) (h : Hub)
    → ((each detach_locked cs h).conns c).attached
      ≡ (if contains c cs then none else (h.conns c).attached)
unfolding each
attached-each_detach [] c h = refl
attached-each_detach (x ∷ xs) c h =
    ground (arith, attached-each_detach xs c (detach_locked x h), attached-detach_locked x c h)

abbrev close_each : ℕ → List ℕ → Hub → Hub
close_each code cs h = each (λ c. modify_conn c (close_conn code)) cs h

closing-modify :
    (code x c : ℕ) (h : Hub)
    → is_closing ((modify_conn x (close_conn code) h).conns c)
      ≡ nat_beq x c || is_closing (h.conns c)
unfolding is_closing close_conn
closing-modify code x c h = ground arith

closing-close_each :
    (code : ℕ) (cs : List ℕ) (c : ℕ) (h : Hub)
    → is_closing ((close_each code cs h).conns c) ≡ contains c cs || is_closing (h.conns c)
unfolding each
closing-close_each code [] c h = refl
closing-close_each code (x ∷ xs) c h = ground (
  arith,
  closing-close_each code xs c (modify_conn x (close_conn code) h),
  closing-modify code x c h,
)

attached-close_each :
    (code : ℕ) (cs : List ℕ) (c : ℕ) (h : Hub)
    → ((close_each code cs h).conns c).attached ≡ (h.conns c).attached
attached-close_each code cs c h =
    each-Leaves c _
      (λ x h. attached-modify x c (close_conn code) h (close_conn-KeepsAttachment code)) cs h

store-each :
    (f : ℕ → Hub → Hub)
    → ((c : ℕ) (h : Hub) → (f c h).store ≡ h.store)
    → (cs : List ℕ) (h : Hub) → (each f cs h).store ≡ h.store
unfolding each
store-each f keeps [] h = refl
store-each f keeps (c ∷ cs) h = store-each f keeps cs (f c h) ∙ keeps c h

store-detach_locked : (c : ℕ) (h : Hub) → (detach_locked c h).store ≡ h.store
unfolding detach_locked detach_from
store-detach_locked c h = go (h.conns c).attached
  where
    go : (a : Option Attachment) → (detach_from a c h).store ≡ h.store
    go none = refl
    go (some a) = refl

-- The hub once the connections of the game are detached and told to close.
abbrev emptied : ℕ → Hub → Hub
emptied i h = close_each close_game_expired (h.games i) (each detach_locked (h.games i) h)

store-emptied : (i : ℕ) (h : Hub) → (emptied i h).store ≡ h.store
store-emptied i h =
    store-each _ (λ c h. refl) (h.games i) _
    ∙ store-each detach_locked store-detach_locked (h.games i) h

get_game_clear :
    (i : ℕ) (s : Store) (g : Game)
    → s.faults ≡ []
    → find_game i s.games ≡ some g
    → get_game i s ≡ (ok g, s)
unfolding get_game
get_game_clear i s g clear found = statement_clear _ s clear ∙ rw found refl

get_game_missing :
    (i : ℕ) (s : Store)
    → s.faults ≡ []
    → find_game i s.games ≡ none
    → get_game i s ≡ (err not_found, s)
unfolding get_game
get_game_missing i s clear missing = statement_clear _ s clear ∙ rw missing refl

delete_game_clear :
    (i : ℕ) (s : Store)
    → s.faults ≡ []
    → delete_game i s ≡ (ok tt, record s { games = delete_game_row i s.games })
unfolding delete_game
delete_game_clear i s clear = statement_clear _ s clear

-- A loaded row is passed on; a missing one ends the function without an error.
with_loaded_result {ℓ} :
    {A : Type ℓ} (m : Action Hub A) (f : A → Action Hub (Unit {0})) (h : Hub) (r : Result A × Hub)
    → m h ≡ r
    → with_loaded m f h ≡ (elim r.0 as (λ _. Result (Unit {0}) × Hub) [
      | ok a ↦ f a r.1
      | err e ↦ skip_not_found (err e, r.1)
    ])
unfolding with_loaded
with_loaded_result {A} m f h r e =
    ap
      (λ (q : Result A × Hub). elim q.0 as (λ _. Result (Unit {0}) × Hub) [
        | ok a ↦ f a q.1
        | err e ↦ skip_not_found (err e, q.1)
      ])
      e

when_result :
    (b c : Bool) (m : Action Hub (Unit {0})) (h : Hub)
    → b ≡ c
    → when b m h ≡ (if c then m h else (ok tt, h))
unfolding when
when_result b c m h e = ap (λ (d : Bool). if d then m h else (ok tt, h)) e

expire_game_stale :
    (wait : Hub → Hub) (cutoff i : ℕ) (h : Hub) (g : Game)
    → get_game i (wait h).store ≡ (ok g, (wait h).store)
    → ltb g.last_active_at cutoff ≡ true
    → expire_game wait cutoff i h ≡ on_store (delete_game i) (emptied i (wait h))
unfolding expire_game ◌>>=◌
expire_game_stale wait cutoff i h g got stale =
    with_loaded_result (on_store (get_game i)) _ (wait h) _
      (on_store_result (get_game i) (wait h) (ok g, (wait h).store) got)
    ∙ when_result _ true _ (wait h) stale

abbrev pub Gone : ℕ → Hub → Result (Unit {0}) × Hub → Type 0
Gone i h r =
    (r.0 ≡ ok tt)
    × (find_game i r.1.store.games ≡ none)
    × ((c : ℕ) → contains c (r.1.games i) ≡ false)
    × ((c : ℕ)
        → contains c (h.games i) ≡ true
        → (is_closing (r.1.conns c) ≡ true) × ((r.1.conns c).attached ≡ none))

emptied-attached :
    (i c : ℕ) (h : Hub)
    → ((emptied i h).conns c).attached
      ≡ (if contains c (h.games i) then none else (h.conns c).attached)
emptied-attached i c h =
    attached-close_each close_game_expired (h.games i) c (each detach_locked (h.games i) h)
    ∙ attached-each_detach (h.games i) c h

emptied-closing :
    (i c : ℕ) (h : Hub) → contains c (h.games i) ≡ true → is_closing ((emptied i h).conns c) ≡ true
emptied-closing i c h there =
    closing-close_each close_game_expired (h.games i) c (each detach_locked (h.games i) h)
    ∙ rw there refl

emptied-Coherent : (i : ℕ) (h : Hub) → Coherent h → Coherent (emptied i h)
emptied-Coherent i h k =
    each-Preserves Coherent _ (λ c. Coherent-Quiet.closed_one c close_game_expired) (h.games i) _
      (each-Preserves Coherent detach_locked detach_locked-Coherent (h.games i) h k)

emptied-games : (i c : ℕ) (h : Hub) → Coherent h → contains c ((emptied i h).games i) ≡ false
emptied-games i c h k =
    ground (arith, (emptied-Coherent i h k).agree c i, emptied-attached i c h, k.agree c i)

-- A game that has been inactive since before the cutoff is deleted, on a database that does not
-- fail: nobody is attached to it any more, and every connection that was is told to close. All of this
-- is of the hub as others leave it when the sweeper gets the lock of the game.
pub expire_game-Gone :
    (wait : Hub → Hub) (cutoff i : ℕ) (h : Hub) (g : Game)
    → Coherent (wait h)
    → (wait h).store.faults ≡ []
    → find_game i (wait h).store.games ≡ some g
    → ltb g.last_active_at cutoff ≡ true
    → Gone i (wait h) (expire_game wait cutoff i h)
unfolding on_store
expire_game-Gone wait cutoff i before g k clear found stale =
    let h = wait before in
    rw
      (
        expire_game_stale wait cutoff i before g (get_game_clear i h.store g clear found) stale,
        delete_game_clear i (emptied i h).store
            (ap (λ (s : Store). s.faults) (store-emptied i h) ∙ clear),
      )
      (
        refl,
        find_game-delete i _,
        (λ c. emptied-games i c h k),
        λ c there. (emptied-closing i c h there, emptied-attached i c h ∙ rw there refl),
      )

-- A game that has been active since the cutoff, or is not there, is left alone with everyone in it.
pub expire_game_fresh :
    (wait : Hub → Hub) (cutoff i : ℕ) (h : Hub)
    → (wait h).store.faults ≡ []
    → ((g : Game) → find_game i (wait h).store.games ≡ some g → ltb g.last_active_at cutoff ≡ false)
    → expire_game wait cutoff i h ≡ (ok tt, wait h)
unfolding expire_game ◌>>=◌
expire_game_fresh wait cutoff i before clear fresh =
    let h = wait before in
    elim (Option-cases (find_game i h.store.games)) [
      | inl missing ↦ with_loaded_result (on_store (get_game i)) _ h _ (
          on_store_result (get_game i) h (err not_found, h.store)
            (get_game_missing i h.store clear missing))
      | inr (g, found) ↦
          with_loaded_result (on_store (get_game i)) _ h _ (
            on_store_result (get_game i) h (ok g, h.store) (get_game_clear i h.store g clear found))
          ∙ when_result _ false _ h (fresh g found)
    ]
